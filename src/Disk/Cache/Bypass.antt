-- ===== src/Disk/Cache/Bypass.antt =====
-- cache.cpp: the calls that go past the cache, and those that empty it.
use singularity.Common.{
  ℕ, zero, suc, ◌+◌, ◌≤◌, ◌<◌, ◌≡◌, refl, Bool, true, false, arith, ◌==◌, List, [], ◌∷◌, map,
  Bool-cases, inl, inr, if_elim, subst, ap, ==_self, sym,
}
use singularity.Disk.Cache.{
  World, Env, CacheEntry, Sector, drop_way, drop_device, drop_valid, hash, nth_lba, store, set_at,
  drop_range, init, reset, stored_part, write_block, invalidate_device, flush_all, bypasses,
}
use singularity.Disk.Cache.Scan.{
  All, IsAbsent, IsDistinct, IsLine, MayDrop, map-IsDistinct, map-IsLine, IsAbsent-map,
  drop_way-MayDrop, drop_device-MayDrop, drop_valid-MayDrop, drop_way-IsAbsent,
}
use singularity.Disk.Cache.Coherence.{
  IsCoherent, set_at-IsCoherent, put-IsLine_absent, put-IsLine_other,
}
use singularity.Disk.Cache.Calls.{write_loop-IsCoherent}

map-IsCoherent :
    (w : World) (f : CacheEntry → CacheEntry)
    → MayDrop f
    → IsCoherent w
    → IsCoherent (record w { sets = λ i. map f (w.sets i) })
map-IsCoherent w f k c = record {
  lines = λ s. map-IsLine f k w.disk s (w.sets s) (c.lines s);
  distinct = λ s. map-IsDistinct f k (w.sets s) (c.distinct s);
}

pub invalidate_device-IsCoherent :
    (dev : ℕ) (w : World) → IsCoherent w → IsCoherent (invalidate_device dev w)
unfolding invalidate_device
invalidate_device-IsCoherent dev w = map-IsCoherent w (drop_device dev) (drop_device-MayDrop dev)

pub flush_all-IsCoherent : (w : World) → IsCoherent w → IsCoherent (flush_all w).1
unfolding flush_all
flush_all-IsCoherent w = map-IsCoherent w drop_valid drop_valid-MayDrop

reset-lines :
    (disk : ℕ → ℕ → Sector) (s : ℕ) (ways : List CacheEntry)
    → All (IsLine disk s) (map reset ways) × IsDistinct (map reset ways)
reset-lines disk s [] = (tt, tt)
reset-lines disk s (x ∷ xs) =
    let (lines, distinct) = reset-lines disk s xs in ((λ v. cc, lines), (λ v. cc, distinct))

pub init-IsCoherent : (w : World) → IsCoherent (init w)
unfolding init
init-IsCoherent w = record {
  lines = λ s. (reset-lines w.disk s (w.sets s)).0;
  distinct = λ s. (reset-lines w.disk s (w.sets s)).1;
}

-- The sectors from `i` up to `j` have been dropped.
record Dropped (dev lba i j : ℕ) (w : World) : Type 0 where
  coherent : IsCoherent w
  clear : (k : ℕ) → i ≤ k → k < j → IsAbsent dev (nth_lba lba k) (w.sets (hash dev (nth_lba lba k)))

-- Dropping one more sector.
Dropped-set_at :
    (dev lba j : ℕ) (w : World)
    → Dropped dev lba 0 j w
    → Dropped dev lba 0
        (j + 1)
        (set_at w (hash dev (nth_lba lba j)) (map (drop_way dev (nth_lba lba j))))
Dropped-set_at dev lba j w d =
    let current = nth_lba lba j in
    let s = hash dev current in
    let drop = drop_way dev current in
    let may = drop_way-MayDrop dev current in
    record {
      coherent =
          set_at-IsCoherent w s (map drop) d.coherent
            (map-IsLine drop may w.disk s (w.sets s) (d.coherent.lines s))
            (map-IsDistinct drop may (w.sets s) (d.coherent.distinct s));
      clear = λ k lo hi. elim (Bool-cases (k == j)) [
        | inl e ↦
            let at : k ≡ j = ground arith in
            rw at (rw (==_self s) (drop_way-IsAbsent dev current (w.sets s)))
        | inr e ↦
            let before = d.clear k lo (ground arith) in
            let P = IsAbsent dev (nth_lba lba k) in
            elim (Bool-cases (s == hash dev (nth_lba lba k))) [
              | inl hit ↦
                  let same : s ≡ hash dev (nth_lba lba k) = ground arith in
                  rw hit (
                    subst (λ i. P (map drop (w.sets i))) (sym same)
                      (IsAbsent-map drop may dev (nth_lba lba k) (w.sets (hash dev (nth_lba lba k)))
                        before))
              | inr miss ↦ rw miss before
            ]
      ];
    }

drop_range-Dropped :
    (dev lba n j : ℕ) (w : World)
    → Dropped dev lba 0 j w
    → Dropped dev lba 0 (j + n) (drop_range dev lba n j w)
unfolding drop_range
drop_range-Dropped dev lba zero j w d = let e : j + 0 ≡ j = omega arith in rw e d
drop_range-Dropped dev lba (suc n) j w d =
    let e : j + suc n ≡ j + 1 + n = omega arith in
    rw e (drop_range-Dropped dev lba n (j + 1) _ (Dropped-set_at dev lba j w d))

pub disk-drop_range : (dev lba n i : ℕ) (w : World) → (drop_range dev lba n i w).disk ≡ w.disk
unfolding drop_range
disk-drop_range dev lba zero i w = refl
disk-drop_range dev lba (suc n) i w = disk-drop_range dev lba n (i + 1) _

pub store_zero :
    (disk : ℕ → ℕ → Sector) (dev lba : ℕ) (buffer : ℕ → Sector) → disk ≡ store disk dev lba 0 buffer
unfolding store
store_zero disk dev lba buffer = refl

-- A write of the device behind the cache, of sectors that the set does not hold.
store-IsLine :
    (disk : ℕ → ℕ → Sector) (dev lba n : ℕ) (buffer : ℕ → Sector) (s : ℕ) (ways : List CacheEntry)
    → ((k : ℕ) → k < n → hash dev (nth_lba lba k) ≡ s → IsAbsent dev (nth_lba lba k) ways)
    → All (IsLine disk s) ways
    → All (IsLine (store disk dev lba n buffer) s) ways
unfolding store
store-IsLine disk dev lba zero buffer s ways out a = a
store-IsLine disk dev lba (suc n) buffer s ways out a =
    let before = store-IsLine disk dev lba n buffer s ways (λ k h. out k (omega arith)) a in
    let disk' = store disk dev lba n buffer in
    elim (Bool-cases (hash dev (nth_lba lba n) == s)) [
      | inl e ↦
          put-IsLine_absent disk' dev (nth_lba lba n) s (buffer n) ways
            (out n (omega arith) (ground arith)) before
      | inr e ↦ put-IsLine_other disk' dev (nth_lba lba n) s (buffer n) ways e before
    ]

pub stored_part-le : (env : Env) (count : ℕ) → stored_part env count ≤ count
stored_part-le env count = ground arith

-- A write of `n` of the sectors that have been dropped.
store-IsCoherent :
    (dev lba count n : ℕ) (buffer : ℕ → Sector) (w : World)
    → n ≤ count
    → Dropped dev lba 0 (0 + count) w
    → IsCoherent (record w { disk = store w.disk dev lba n buffer })
store-IsCoherent dev lba count n buffer w h dropped = record {
  lines = λ s.
      store-IsLine w.disk dev lba n buffer s (w.sets s)
        (λ k below e.
          subst (λ i. IsAbsent dev (nth_lba lba k) (w.sets i)) e
            (dropped.clear k (omega arith) (omega arith)))
        (dropped.coherent.lines s);
  distinct = dropped.coherent.distinct;
}

-- `writeBlock` keeps the cache coherent, whether it succeeds or not and whether it goes past the
-- cache or not; if it returns 1, the device stores the `count` sectors of the buffer.
pub write_block-IsCoherent :
    (env : ℕ → Env) (block_size dev lba count ptr : ℕ) (buffer : ℕ → Sector) (w : World)
    → IsCoherent w
    → let (ok, w') = write_block env block_size dev lba count ptr buffer w in
      IsCoherent w' × (ok ≡ true → w'.disk ≡ store w.disk dev lba count buffer)
unfolding write_block
write_block-IsCoherent env block_size dev lba count ptr buffer w c =
    let w' = drop_range dev lba count 0 w in
    let dropped =
      drop_range-Dropped dev lba count 0 w (record { coherent = c; clear = λ k a b. elim b [ ] }) in
    let from_zero : 0 + count ≡ count = omega arith in
    let P = λ (r : Bool × World).
      IsCoherent r.1 × (r.0 ≡ true → r.1.disk ≡ store w.disk dev lba count buffer) in
    if_elim P (bypasses block_size count ptr)
      (if_elim P (env 0).device_ok
        (
          store-IsCoherent dev lba count count buffer w' (omega arith) dropped,
          λ _. ap (λ d. store d dev lba count buffer) (disk-drop_range dev lba count 0 w),
        )
        (
          store-IsCoherent dev lba count (stored_part (env 0) count) buffer w'
              (stored_part-le (env 0) count) dropped,
          λ h. cc,
        ))
      (rw from_zero at (
        write_loop-IsCoherent env dev lba ptr count 0 false buffer w w.disk c
          (store_zero w.disk dev lba buffer)))
