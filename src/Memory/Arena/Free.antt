-- ===== src/Memory/Arena/Free.antt =====
-- kheap_slab.cpp: what `VmArena::free` gives back.
use singularity.Common.{
  zero, suc, ℕ, ◌+◌, ◌-◌, ◌*◌, ◌^◌, ◌≤◌, ◌<◌, ◌≡◌, refl, true, false, ◌||◌, arith, ◌==◌, ltb, leb,
  if◌then◌else◌, List, [], ◌∷◌, length, inl, inr, Bool-cases, if_elim, sym, ◌∙◌, ◌≢◌,
}
use singularity.Memory.Arena.{
  VmRange, VmArena, page_size, max_regions, insert_at, coalesce_around, lower_bound, alloc, free,
}
use singularity.Memory.Arena.Regions.{
  Sorted, covers, in_range, IsSmall, SameSpace, coalesce_around-SameSpace, coalesce_around-length,
}
use singularity.Memory.Arena.Search.{rank, lower_bound-rank}
use singularity.Memory.Arena.Alloc.{Inv, free_at, HandsOut, Outcome, alloc-Outcome}

-- No address of the range is free.
abbrev pub IsTaken : ℕ → ℕ → List VmRange → Type 0
IsTaken base pages rs = (x : ℕ) → in_range base pages x ≡ true → covers rs x ≡ false

-- The range is inserted at its rank: the regions stay in order and gain exactly its addresses.
insert_at-rank :
    (lo hi : ℕ) (r : VmRange) (rs : List VmRange)
    → Sorted lo rs hi
    → 0 < r.pages
    → lo ≤ r.base
    → r.base + r.pages * page_size ≤ hi
    → IsTaken r.base r.pages rs
    → Sorted lo (insert_at (rank r.base rs) r rs) hi
      × ((x : ℕ)
          → covers (insert_at (rank r.base rs) r rs) x ≡ covers rs x || in_range r.base r.pages x)
unfolding insert_at rank
insert_at-rank lo hi r [] s some_pages above below taken =
    ((above, some_pages, below), λ x. ground arith)
insert_at-rank lo hi r (y ∷ ys) s some_pages above below taken =
    elim (Bool-cases (ltb y.base r.base)) [
      | inl e ↦
          let clear : (in_range y.base y.pages r.base || covers ys r.base) ≡ false =
            taken r.base (ground arith) in
          let (s', same) =
            insert_at-rank (y.base + y.pages * page_size) hi r ys s.2 some_pages (ground arith)
              below (λ x i. ground (arith, taken x i)) in
          rw e ((s.0, s.1, s'), λ x. ground (arith, same x))
      | inr e ↦
          let apart : r.base + r.pages * page_size ≤ y.base =
            elim (Bool-cases (in_range r.base r.pages y.base)) [
              | inl i ↦ let bad = taken y.base i in absurd (ground (arith, s.1))
              | inr i ↦ ground arith
            ] in
          rw e ((above, some_pages, (apart, s.1, s.2)), λ x. ground arith)
    ]

pub length-insert_at :
    (i : ℕ) (r : VmRange) (rs : List VmRange) → length (insert_at i r rs) ≡ suc (length rs)
unfolding insert_at
length-insert_at zero r rs = refl
length-insert_at (suc i) r [] = refl
length-insert_at (suc i) r (x ∷ xs) = ground (arith, length-insert_at i r xs)

-- What `free` needs of its caller: the range is not empty, lies within what was handed out and
-- none of it is free, and a slot of `regions_` is left.
pub record CanFree (start base pages : ℕ) (a : VmArena) : Type 0 where
  pub some_pages : 0 < pages
  pub few_pages : pages < 2 ^ 32
  pub above : start ≤ base
  pub below : base + pages * page_size ≤ a.watermark
  pub taken : IsTaken base pages a.regions
  pub room : length a.regions < max_regions

inserted-SameSpace :
    (lo hi base pages : ℕ) (rs : List VmRange)
    → IsSmall lo hi
    → Sorted lo rs hi
    → 0 < pages
    → lo ≤ base
    → base + pages * page_size ≤ hi
    → IsTaken base pages rs
    → let r : VmRange = record { base = base; pages = pages } in
      let idx = lower_bound rs base in
      Sorted lo (coalesce_around (insert_at idx r rs) idx) hi
      × ((x : ℕ)
          → covers (coalesce_around (insert_at idx r rs) idx) x
            ≡ covers rs x || in_range base pages x)
inserted-SameSpace lo hi base pages rs small s some_pages above below taken =
    let r : VmRange = record { base = base; pages = pages } in
    let (s', gains) = insert_at-rank lo hi r rs s some_pages above below taken in
    let (s'', same) =
      coalesce_around-SameSpace lo hi (insert_at (rank base rs) r rs) (rank base rs) small s' in
    rw (lower_bound-rank lo hi base rs s) (s'', λ x. same x ∙ gains x)

-- `free` first merges at the end of a list that is nearly full.
unfoldable pub made_room : List VmRange → List VmRange
made_room rs = if leb (max_regions - 2) (length rs) then coalesce_around rs (length rs - 1) else rs

made_room-SameSpace :
    (lo hi : ℕ) (rs : List VmRange)
    → IsSmall lo hi
    → Sorted lo rs hi
    → SameSpace lo hi rs (made_room rs)
unfolding made_room
made_room-SameSpace lo hi rs small s =
    if_elim (λ rs'. SameSpace lo hi rs rs') (leb (max_regions - 2) (length rs))
      (coalesce_around-SameSpace lo hi rs (length rs - 1) small s) (s, λ x. refl)

pub free-regions :
    (base pages : ℕ) (a : VmArena)
    → 0 < base
    → 0 < pages
    → pages < 2 ^ 32
    → free a base pages ≡ record a {
      regions =
          coalesce_around
            (insert_at
              (lower_bound (made_room a.regions) base)
              (record { base = base; pages = pages })
              (made_room a.regions))
            (lower_bound (made_room a.regions) base);
    }
unfolding free made_room
free-regions base pages a b p f =
    let some_base : (base == 0) ≡ false = ground arith in
    let some_pages : (pages == 0) ≡ false = ground arith in
    let few : ltb 0xffff_ffff pages ≡ false = ground arith in rw (some_base, some_pages, few) refl

le_refl : (n : ℕ) → n ≤ n
le_refl n = omega arith

made_room-length : (rs : List VmRange) → length (made_room rs) ≤ length rs
unfolding made_room
made_room-length rs =
    if_elim (λ (rs' : List VmRange). length rs' ≤ length rs) (leb (max_regions - 2) (length rs))
      (coalesce_around-length rs (length rs - 1)) (le_refl (length rs))

-- In a well-formed arena with a slot of `regions_` left, `free` of at least one and fewer than 2^32
-- pages below the watermark, no address of which is free, keeps the arena well-formed and within its
-- array, and exactly the addresses of the range become free.
pub free-gives_back :
    (start base pages : ℕ) (a : VmArena)
    → Inv start a
    → CanFree start base pages a
    → Inv start (free a base pages)
      × (length (free a base pages).regions ≤ max_regions)
      × ((x : ℕ) → free_at (free a base pages) x ≡ free_at a x || in_range base pages x)
free-gives_back start base pages a v c =
    let small : IsSmall start a.watermark = omega (arith, v.small, v.within) in
    let (sorted, same) = made_room-SameSpace start a.watermark a.regions small v.sorted in
    let (sorted', gains) =
      inserted-SameSpace start a.watermark base pages (made_room a.regions) small sorted
        c.some_pages c.above c.below (λ x i. same x ∙ c.taken x i) in
    let idx = lower_bound (made_room a.regions) base in
    let r : VmRange = record { base = base; pages = pages } in
    let shorter = coalesce_around-length (insert_at idx r (made_room a.regions)) idx in
    let longer = length-insert_at idx r (made_room a.regions) in
    rw (free-regions base pages a (omega (arith, v.positive, c.above)) c.some_pages c.few_pages) (
      record { positive = v.positive; sorted = sorted'; within = v.within; small = v.small },
      omega (arith, shorter, longer, made_room-length a.regions, c.room),
      λ x. ground (arith, gains x, same x),
    )

HandsOut-CanFree :
    (start pages base : ℕ) (a a' : VmArena)
    → 0 < pages
    → pages < 2 ^ 32
    → HandsOut start pages a base a'
    → length a'.regions < max_regions
    → CanFree start base pages a'
HandsOut-CanFree start pages base a a' some_pages few o room = record {
  some_pages = some_pages;
  few_pages = few;
  above = o.above;
  below = o.handed;
  taken = λ x i. ground (arith, o.apart x i);
  room = room;
}

-- In a well-formed arena, a range of fewer than 2^32 pages that `alloc` handed out and `free` gives
-- back, while a slot of `regions_` is left, leaves a well-formed arena within its array, in which
-- exactly the addresses are free that were free before.
pub free-alloc :
    (start pages : ℕ) (a : VmArena)
    → 0 < pages
    → pages < 2 ^ 32
    → Inv start a
    → (alloc a pages).0 ≢ 0
    → length (alloc a pages).1.regions < max_regions
    → let (base, a') = alloc a pages in
      Inv start (free a' base pages)
      × (length (free a' base pages).regions ≤ max_regions)
      × ((x : ℕ) → free_at (free a' base pages) x ≡ free_at a x)
free-alloc start pages a some_pages few v got room =
    step (alloc a pages) (alloc-Outcome start pages a some_pages few v) got room
  where
    step :
        (r : ℕ × VmArena)
        → Outcome start pages a r
        → r.0 ≢ 0
        → length r.1.regions < max_regions
        → Inv start (free r.1 r.0 pages)
          × (length (free r.1 r.0 pages).regions ≤ max_regions)
          × ((x : ℕ) → free_at (free r.1 r.0 pages) x ≡ free_at a x)
    step (base, a') (inl failed) got room = absurd (got failed.0)
    step (base, a') (inr o) got room =
        let (v', fits, gains) =
          free-gives_back start base pages a' o.valid
            (HandsOut-CanFree start pages base a a' some_pages few o room) in
        (v', fits, λ x. gains x ∙ sym (o.splits x))
