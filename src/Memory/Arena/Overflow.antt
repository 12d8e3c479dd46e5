-- ===== src/Memory/Arena/Overflow.antt =====
-- kheap_slab.cpp: `VmArena::free` with every slot of `regions_` in use.
use singularity.Common.{
  ℕ, zero, suc, ◌-◌, ◌^◌, ◌<◌, ◌≡◌, refl, false, arith, ◌==◌, leb, List, [], ◌∷◌, length, if_elim,
  ◌≢◌, ap,
}
use singularity.Memory.Arena.{
  VmRange, VmArena, max_regions, end_of, insert_at, join_at, coalesce_around, lower_bound, free,
}
use singularity.Memory.Arena.Regions.{join_at-nil, join_at-single, join_at-zero, join_at-suc}
use singularity.Memory.Arena.Free.{length-insert_at, made_room, free-regions}

-- No region ends where the next begins.
abbrev pub IsApart : List VmRange → Type 0
IsApart [] = Unit
IsApart (r ∷ []) = Unit
IsApart (r ∷ s ∷ rs) = (end_of r.base r.pages ≢ s.base) × IsApart (s ∷ rs)

join_at-IsApart : (i : ℕ) (rs : List VmRange) → IsApart rs → join_at rs i ≡ rs
join_at-IsApart i [] h = join_at-nil i
join_at-IsApart zero (r ∷ []) h = join_at-single r
join_at-IsApart (suc i) (r ∷ []) h = rw (join_at-suc r [] i) (ap (◌∷◌ r) (join_at-nil i))
join_at-IsApart zero (r ∷ s ∷ rs) h =
    let apart : (end_of r.base r.pages == s.base) ≡ false = ground (arith, h.0) in
    rw (join_at-zero r s rs, apart) refl
join_at-IsApart (suc i) (r ∷ s ∷ rs) h =
    rw (join_at-suc r (s ∷ rs) i) (ap (◌∷◌ r) (join_at-IsApart i (s ∷ rs) h.1))

coalesce_around-IsApart : (i : ℕ) (rs : List VmRange) → IsApart rs → coalesce_around rs i ≡ rs
unfolding coalesce_around
coalesce_around-IsApart zero rs h = join_at-IsApart 0 rs h
coalesce_around-IsApart (suc i) rs h =
    let same = join_at-IsApart (suc i) rs h in rw same (join_at-IsApart i rs h)

made_room-IsApart : (rs : List VmRange) → IsApart rs → made_room rs ≡ rs
unfolding made_room
made_room-IsApart rs h =
    if_elim (λ rs'. rs' ≡ rs) (leb (max_regions - 2) (length rs))
      (coalesce_around-IsApart (length rs - 1) rs h) refl

-- `free` looks for room but does not check that there is some: when no two regions can be merged
-- and the freed range touches none, the regions become one more. With all `max_regions` slots in use
-- the new length is past the end of the array.
pub free-overflows :
    (base pages : ℕ) (a : VmArena)
    → 0 < base
    → 0 < pages
    → pages < 2 ^ 32
    → IsApart a.regions
    → IsApart
        (insert_at (lower_bound a.regions base) (record { base = base; pages = pages }) a.regions)
    → length (free a base pages).regions ≡ suc (length a.regions)
free-overflows base pages a b p f apart after =
    let r : VmRange = record { base = base; pages = pages } in
    let idx = lower_bound a.regions base in
    rw
      (
        free-regions base pages a b p f,
        made_room-IsApart a.regions apart,
        coalesce_around-IsApart idx (insert_at idx r a.regions) after,
      )
      (length-insert_at idx r a.regions)
