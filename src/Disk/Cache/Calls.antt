-- ===== src/Disk/Cache/Calls.antt =====
-- cache.cpp: coherence of the whole calls.
use singularity.Common.{
  ℕ, zero, suc, ◌+◌, ◌≤◌, ◌<◌, ◌≡◌, refl, Bool, true, false, arith, ◌==◌, update, Bool-cases, inl,
  inr, if_elim, ◌⊎◌, ==_self, sym, ap, ◌∙◌,
}
use native.Mathlib.Numerals.{add-one}
use singularity.Disk.Cache.{
  World, Env, Sector, nth_lba, put, store, failed, moved, Round, read_round, write_round, read_loop,
  read_block, write_loop, bypasses,
}
use singularity.Disk.Cache.Coherence.{
  IsCoherent, ReadsRight, reads, WritesRight, writes, read_round-ReadsRight,
  write_round-WritesRight,
}

-- The loop of `readBlock` leaves the disk as it was, and if it returns 1 the `n` sectors that it put
-- into the buffer from round `i` on are the disk's.
pub record ReadsBlock (w : World) (dev lba n i : ℕ) (buffer : ℕ → Sector)
    (r : Bool × World × (ℕ → Sector)) : Type 0 where
  pub coherent : IsCoherent r.1
  pub same_disk : r.1.disk ≡ w.disk
  pub right : r.0 ≡ true → (j : ℕ) → i ≤ j → j < i + n → r.2 j ≡ w.disk dev (nth_lba lba j)
  pub outside : (j : ℕ) → (j < i) ⊎ (i + n ≤ j) → r.2 j ≡ buffer j

pub read_loop-ReadsBlock :
    (env : ℕ → Env) (dev lba ptr n i : ℕ) (bounce : Bool) (w : World) (buffer : ℕ → Sector)
    → IsCoherent w
    → ReadsBlock w dev lba n i buffer (read_loop env dev lba ptr n i bounce w buffer)
unfolding read_loop
read_loop-ReadsBlock env dev lba ptr zero i bounce w buffer c = record {
  coherent = c;
  same_disk = refl;
  right = λ _ j a b. absurd (omega arith);
  outside = λ j _. refl;
}
read_loop-ReadsBlock env dev lba ptr (suc n) i bounce w buffer c =
    go (read_round (env i) dev lba ptr i bounce w) refl
      (read_round-ReadsRight (env i) dev lba ptr i bounce w c)
      (read_loop-ReadsBlock env dev lba ptr n (i + 1))
  where
    go :
        (r : Round)
        → read_round (env i) dev lba ptr i bounce w ≡ r
        → ReadsRight w dev (nth_lba lba i) r
        → ((b : Bool) (w' : World) (buffer' : ℕ → Sector)
            → IsCoherent w'
            → ReadsBlock w' dev lba n
                (i + 1)
                buffer'
                (read_loop env dev lba ptr n (i + 1) b w' buffer'))
        → ReadsBlock w dev lba
            (suc n)
            i
            buffer
            (read_loop env dev lba ptr (suc n) i bounce w buffer)
    go (failed w') e (ReadsRight.stops c' same) ih =
        rw (e, read_loop)
          (record { coherent = c'; same_disk = same; right = λ h. cc; outside = λ j _. refl })
    go (moved content b w') e (reads c' same here) ih =
        let rest = ih b w' (update buffer i content) c' in
        rw (e, read_loop)
          (record {
            coherent = rest.coherent;
            same_disk = rest.same_disk ∙ same;
            right = λ h j lo hi. elim (Bool-cases (j == i)) [
              | inl now ↦
                  let at : j ≡ i = ground arith in
                  rw at (
                    rest.outside i (inl (omega arith))
                    ∙ let hit : (i == i) ≡ true = ==_self i in rw hit here)
              | inr later ↦
                  rest.right h j (ground arith) (omega arith)
                  ∙ ap (λ (d : ℕ → ℕ → Sector). d dev (nth_lba lba j)) same
            ];
            outside = λ j out. rest.outside j (omega arith) ∙ ground arith;
          })

-- `readBlock` keeps the cache coherent and the disk as it was. If it returns 1, the `count` sectors
-- of the buffer are those that the device stores, whether they came from the cache or not, and the
-- rest of the buffer is untouched.
pub read_block-ReadsBlock :
    (env : ℕ → Env) (block_size dev lba count ptr : ℕ) (w : World) (buffer : ℕ → Sector)
    → IsCoherent w
    → ReadsBlock w dev lba count 0 buffer (read_block env block_size dev lba count ptr w buffer)
unfolding read_block
read_block-ReadsBlock env block_size dev lba count ptr w buffer c =
    if_elim (ReadsBlock w dev lba count 0 buffer) (bypasses block_size count ptr)
      (if_elim (ReadsBlock w dev lba count 0 buffer) (env 0).device_ok
        (record {
          coherent = c;
          same_disk = refl;
          right = λ _ j a b. ground arith;
          outside = λ j out. ground arith;
        })
        (record { coherent = c; same_disk = refl; right = λ h. cc; outside = λ j _. refl }))
      (read_loop-ReadsBlock env dev lba ptr count 0 false w buffer c)

pub store_add_one :
    (disk : ℕ → ℕ → Sector) (dev lba n : ℕ) (buffer : ℕ → Sector)
    → store disk dev lba (n + 1) buffer
      ≡ put (store disk dev lba n buffer) dev (nth_lba lba n) (buffer n)
unfolding store
store_add_one disk dev lba n buffer = rw (add-one n)

-- The loop of `writeBlock`: `start` is the disk before its first round.
pub write_loop-IsCoherent :
    (env : ℕ → Env) (dev lba ptr n i : ℕ) (bounce : Bool) (buffer : ℕ → Sector) (w : World)
    (start : ℕ → ℕ → Sector)
    → IsCoherent w
    → w.disk ≡ store start dev lba i buffer
    → let (ok, w') = write_loop env dev lba ptr n i bounce buffer w in
      IsCoherent w' × (ok ≡ true → w'.disk ≡ store start dev lba (i + n) buffer)
unfolding write_loop
write_loop-IsCoherent env dev lba ptr zero i bounce buffer w start c d =
    let e : i + 0 ≡ i = omega arith in (c, λ _. rw e d)
write_loop-IsCoherent env dev lba ptr (suc n) i bounce buffer w start c d =
    go (write_round (env i) dev lba ptr i bounce (buffer i) w) refl
      (write_round-WritesRight (env i) dev lba ptr i bounce (buffer i) w c)
      (write_loop-IsCoherent env dev lba ptr n (i + 1))
  where
    go :
        (r : Round)
        → write_round (env i) dev lba ptr i bounce (buffer i) w ≡ r
        → WritesRight w dev (nth_lba lba i) (buffer i) r
        → ((b : Bool) (buffer : ℕ → Sector) (w' : World) (start : ℕ → ℕ → Sector)
            → IsCoherent w'
            → w'.disk ≡ store start dev lba (i + 1) buffer
            → let (ok, w'') = write_loop env dev lba ptr n (i + 1) b buffer w' in
              IsCoherent w'' × (ok ≡ true → w''.disk ≡ store start dev lba (i + 1 + n) buffer))
        → let (ok, w') = write_loop env dev lba ptr (suc n) i bounce buffer w in
          IsCoherent w' × (ok ≡ true → w'.disk ≡ store start dev lba (i + suc n) buffer)
    go (failed w') e (WritesRight.stops c' same) ih = rw (e, write_loop) (c', λ h. cc)
    go (moved content b w') e (writes c' wrote) ih =
        let next : w'.disk ≡ store start dev lba (i + 1) buffer =
          wrote
          ∙ ap (λ k. put k dev (nth_lba lba i) (buffer i)) d
          ∙ sym (store_add_one start dev lba i buffer) in
        let e' : i + suc n ≡ i + 1 + n = omega arith in
        rw (e, write_loop) (rw e' (ih b buffer w' start c' next))
