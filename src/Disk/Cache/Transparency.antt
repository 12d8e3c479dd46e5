-- ===== src/Disk/Cache/Transparency.antt =====
-- cache.cpp: what a reader sees through the cache after any history of calls.
use singularity.Common.{
  ℕ, zero, suc, ◌%◌, ◌^◌, ◌≤◌, ◌<◌, ◌≡◌, refl, true, false, some, arith, ◌==◌, ◌&&◌, List, [], ◌∷◌,
  Bool-cases, inl, inr, ap, ◌∙◌, ==_self,
}
use singularity.Disk.Cache.{
  World, Env, CacheEntry, Sector, hash, find_way, target_mapped, read_loop, read_round, nth_lba,
  store, init, read_block, write_block, write_vector, invalidate_device, flush_all,
}
use singularity.Disk.Cache.Scan.{find_way-eq_some}
use singularity.Disk.Cache.Coherence.{IsCoherent}
use singularity.Disk.Cache.Calls.{ReadsBlock, read_block-ReadsBlock}
use singularity.Disk.Cache.Outcome.{write_block-IsPrefix}
use singularity.Disk.Cache.Bypass.{
  write_block-IsCoherent, invalidate_device-IsCoherent, flush_all-IsCoherent, init-IsCoherent,
}

-- The calls other than `writeVector`, with their arguments and what the environment answers.
pub data Call : Type 0 where
  reads : (ℕ → Env) → ℕ → ℕ → ℕ → ℕ → ℕ → (ℕ → Sector) → Call
  writes : (ℕ → Env) → ℕ → ℕ → ℕ → ℕ → ℕ → (ℕ → Sector) → Call
  invalidates : ℕ → Call
  flushes : Call

unfoldable pub step : World → Call → World
step w (reads env block_size dev lba count ptr buffer) =
    (read_block env block_size dev lba count ptr w buffer).1
step w (writes env block_size dev lba count ptr buffer) =
    (write_block env block_size dev lba count ptr buffer w).1
step w (invalidates dev) = invalidate_device dev w
step w flushes = (flush_all w).1

unfoldable pub run : World → List Call → World
run w [] = w
run w (c ∷ cs) = run (step w c) cs

step-IsCoherent : (w : World) (c : Call) → IsCoherent w → IsCoherent (step w c)
unfolding step
step-IsCoherent w (reads env block_size dev lba count ptr buffer) c =
    (read_block-ReadsBlock env block_size dev lba count ptr w buffer c).coherent
step-IsCoherent w (writes env block_size dev lba count ptr buffer) c =
    (write_block-IsCoherent env block_size dev lba count ptr buffer w c).0
step-IsCoherent w (invalidates dev) c = invalidate_device-IsCoherent dev w c
step-IsCoherent w flushes c = flush_all-IsCoherent w c

pub run-IsCoherent : (w : World) (cs : List Call) → IsCoherent w → IsCoherent (run w cs)
unfolding run
run-IsCoherent w [] c = c
run-IsCoherent w (x ∷ xs) c = run-IsCoherent (step w x) xs (step-IsCoherent w x c)

-- After `init` and any history of block reads, block writes, invalidations and flushes, a
-- `readBlock` that returns 1 has put into the buffer what the device stores, and nothing else.
pub read_block-run :
    (w : World) (history : List Call) (env : ℕ → Env) (block_size dev lba count ptr : ℕ)
    (buffer : ℕ → Sector)
    → let now = run (init w) history in
      ReadsBlock now dev lba count 0 buffer (read_block env block_size dev lba count ptr now buffer)
read_block-run w history env block_size dev lba count ptr buffer =
    read_block-ReadsBlock env block_size dev lba count ptr (run (init w) history) buffer
      (run-IsCoherent (init w) history (init-IsCoherent w))

store-inside :
    (disk : ℕ → ℕ → Sector) (dev lba n : ℕ) (buffer : ℕ → Sector) (j : ℕ)
    → j < n
    → n ≤ 2 ^ 64
    → store disk dev lba n buffer dev (nth_lba lba j) ≡ buffer j
unfolding store
store-inside disk dev lba zero buffer j h m = elim h [ ]
store-inside disk dev lba (suc n) buffer j h m = elim (Bool-cases (j == n)) [
  | inl e ↦ let at : j ≡ n = ground arith in rw at (rw (==_self dev, ==_self (nth_lba lba n)))
  | inr e ↦
      let apart : (nth_lba lba j == nth_lba lba n) ≡ false = ground arith in
      rw (==_self dev, apart) (store-inside disk dev lba n buffer j (ground arith) (omega arith))
]

-- The call writes nothing to the sector `l` of the device.
abbrev pub Spares : ℕ → ℕ → Call → Type 0
Spares dev l (writes env block_size d lba count ptr buffer) =
    (k : ℕ) → k < count → (dev == d && l == nth_lba lba k) ≡ false
Spares dev l _ = Unit

abbrev pub AllSpare : ℕ → ℕ → List Call → Type 0
AllSpare dev l [] = Unit
AllSpare dev l (c ∷ cs) = Spares dev l c × AllSpare dev l cs

store-outside :
    (disk : ℕ → ℕ → Sector) (d lba n : ℕ) (buffer : ℕ → Sector) (dev l : ℕ)
    → ((k : ℕ) → k < n → (dev == d && l == nth_lba lba k) ≡ false)
    → store disk d lba n buffer dev l ≡ disk dev l
unfolding store
store-outside disk d lba zero buffer dev l out = refl
store-outside disk d lba (suc n) buffer dev l out =
    rw (out n (omega arith)) (store-outside disk d lba n buffer dev l (λ k h. out k (omega arith)))

step-Spares :
    (w : World) (c : Call) (dev l : ℕ)
    → IsCoherent w
    → Spares dev l c
    → (step w c).disk dev l ≡ w.disk dev l
unfolding step invalidate_device flush_all
step-Spares w (reads env block_size d lba count ptr buffer) dev l c _ =
    ap (λ (disk : ℕ → ℕ → Sector). disk dev l)
      (read_block-ReadsBlock env block_size d lba count ptr w buffer c).same_disk
step-Spares w (writes env block_size d lba count ptr buffer) dev l c out =
    let at = λ (disk : ℕ → ℕ → Sector). disk dev l in
    elim (write_block-IsPrefix env block_size d lba count ptr buffer w c).1 [
      | inl (_, wrote) ↦ ap at wrote ∙ store-outside w.disk d lba count buffer dev l out
      | inr (_, n, small, _, wrote) ↦
          ap at wrote ∙ store-outside w.disk d lba n buffer dev l (λ k h. out k (omega arith))
    ]
step-Spares w (invalidates d) dev l c _ = refl
step-Spares w flushes dev l c _ = refl

run-AllSpare :
    (w : World) (cs : List Call) (dev l : ℕ)
    → IsCoherent w
    → AllSpare dev l cs
    → (run w cs).disk dev l ≡ w.disk dev l
unfolding run
run-AllSpare w [] dev l c _ = refl
run-AllSpare w (x ∷ xs) dev l c (here, there) =
    run-AllSpare (step w x) xs dev l (step-IsCoherent w x c) there ∙ step-Spares w x dev l c here

-- After `init` and any history of block reads, block writes, invalidations and flushes: what a
-- `writeBlock` wrote to a sector with the result 1 is what a later `readBlock` of the same sectors
-- reads there with the result 1, after any further such calls that do not write to that sector, of
-- at most 2^64 sectors, on any device and whatever the alignment of the two buffers.
pub read_block-write_block :
    (w : World) (history later : List Call) (env env' : ℕ → Env)
    (block_size dev lba count ptr ptr' : ℕ) (buffer buffer' : ℕ → Sector) (j : ℕ)
    → count ≤ 2 ^ 64
    → j < count
    → (write_block env block_size dev lba count ptr buffer (run (init w) history)).0 ≡ true
    → AllSpare dev (nth_lba lba j) later
    → (read_block env' block_size dev lba count ptr'
        (run (write_block env block_size dev lba count ptr buffer (run (init w) history)).1 later)
        buffer').0
      ≡ true
    → (read_block env' block_size dev lba count ptr'
          (run (write_block env block_size dev lba count ptr buffer (run (init w) history)).1 later)
          buffer').2
        j
      ≡ buffer j
read_block-write_block w history later env env' block_size dev lba count ptr ptr' buffer buffer' j
      small h written spared read =
    let before = run (init w) history in
    let c = run-IsCoherent (init w) history (init-IsCoherent w) in
    let w' = (write_block env block_size dev lba count ptr buffer before).1 in
    let (c', wrote) = write_block-IsCoherent env block_size dev lba count ptr buffer before c in
    let r =
      read_block-ReadsBlock env' block_size dev lba count ptr' (run w' later) buffer'
        (run-IsCoherent w' later c') in
    r.right read j (omega arith) (omega arith)
    ∙ run-AllSpare w' later dev (nth_lba lba j) c' spared
    ∙ ap (λ (d : ℕ → ℕ → Sector). d dev (nth_lba lba j)) (wrote written)
    ∙ store-inside before.disk dev lba count buffer j h small

-- On a coherent cache, let the first sector of a vector be in the cache, and `writeVector` write
-- that one sector on a device that is not null and succeeds. A `readBlock` of that one sector, of a
-- device of 512-byte blocks into an aligned and mapped buffer, made right after it, returns 1 with
-- the contents that the sector had before, though the device stores the new ones.
pub read_block-write_vector_stale :
    (w : World) (env : Env) (env' : ℕ → Env) (dev lba ptr vector_count : ℕ) (e : CacheEntry)
    (vectors buffer : ℕ → Sector)
    → IsCoherent w
    → find_way dev (nth_lba lba 0) (w.sets (hash dev (nth_lba lba 0))) ≡ some e
    → 0 < dev
    → 0 < vector_count
    → env.device_ok ≡ true
    → ptr % 512 ≡ 0
    → target_mapped (env' 0) ptr 0 ≡ true
    → let (written, w') = write_vector env dev lba vector_count 1 (some vectors) w in
      let (read, _, result) = read_block env' 512 dev lba 1 ptr w' buffer in
      (written ≡ true)
      × (w'.disk dev (nth_lba lba 0) ≡ vectors 0)
      × (read ≡ true)
      × (result 0 ≡ w.disk dev (nth_lba lba 0))
unfolding write_vector read_block read_loop read_round store
read_block-write_vector_stale w env env' dev lba ptr vector_count e vectors buffer c hit d v ok
      aligned mapped =
    let right =
      find_way-eq_some dev (nth_lba lba 0) (w.sets (hash dev (nth_lba lba 0))) e w.disk
        (hash dev (nth_lba lba 0)) hit (c.lines _) in
    ground arith
