-- ===== src/Memory/Arena/Alloc.antt =====
-- kheap_slab.cpp: what `VmArena::alloc` hands out.
use singularity.Common.{
  ℕ, ◌+◌, ◌-◌, ◌*◌, ◌%◌, ◌^◌, ◌≤◌, ◌<◌, ◌≡◌, refl, Bool, true, false, ◌&&◌, ◌||◌, Option, none,
  some, arith, ltb, leb, ◌==◌, if◌then◌else◌, List, [], ◌∷◌, ◌⊎◌, inl, inr, Bool-cases, leb→le,
  ltb→lt,
}
use native.Mathlib.Decide.{dec_lt}
use singularity.Memory.Arena.{VmRange, VmArena, page_size, end_of, to_u32, alloc_from, alloc}
use singularity.Memory.Arena.Regions.{
  Sorted, Sorted-le, Sorted-lower, covers, in_range, covers-above, IsSmall,
}

abbrev All {κ} : (VmRange → Type κ) → List VmRange → Type κ
All P [] = Unit
All P (r ∷ rs) = P r × All P rs

-- `start` is the first address that the arena was given.
pub record Inv (start : ℕ) (a : VmArena) : Type 0 where
  pub positive : 0 < start
  pub sorted : Sorted start a.regions a.watermark
  pub within : a.watermark ≤ a.limit
  pub small : IsSmall start a.limit

-- The address is free: in a region, or not yet handed out at all.
abbrev pub free_at : VmArena → ℕ → Bool
free_at a x = covers a.regions x || (leb a.watermark x && ltb x a.limit)

-- A range is taken out of the regions.
pub record Takes (lo hi pages : ℕ) (rs : List VmRange) (base : ℕ) (rs' : List VmRange)
    : Type 0 where
  pub sorted : Sorted lo rs' hi
  pub above : lo ≤ base
  pub below : base + pages * page_size ≤ hi
  pub splits : (x : ℕ) → covers rs x ≡ covers rs' x || in_range base pages x
  pub apart : (x : ℕ) → in_range base pages x ≡ true → covers rs' x ≡ false

module _ (pages : ℕ) (some_pages : 0 < pages) (few_pages : pages < 2 ^ 32) where
  taken-Takes :
      (lo hi : ℕ) (r : VmRange) (rs : List VmRange)
      → IsSmall lo hi
      → Sorted lo (r ∷ rs) hi
      → pages ≤ r.pages
      → Takes lo hi pages (r ∷ rs) r.base (
          if r.pages == to_u32 pages
          then rs
          else record r { base = end_of r.base pages; pages = r.pages - to_u32 pages } ∷ rs)
  taken-Takes lo hi r rs small s h =
      let above = Sorted-le (r.base + r.pages * page_size) hi rs s.2 in
      let count : pages % 2 ^ 32 ≡ pages = omega arith in
      let next : end_of r.base pages ≡ r.base + pages * page_size = omega (arith, s.0) in
      let rest : end_of r.base pages + (r.pages - to_u32 pages) * page_size
          ≡ r.base + r.pages * page_size =
        omega (arith, next, count) in
      let clear = λ (x : ℕ) (in_it : x < r.base + r.pages * page_size).
        covers-above (r.base + r.pages * page_size) hi x rs s.2 in_it in
      elim (Bool-cases (r.pages == to_u32 pages)) [
        | inl e ↦ rw e (record {
          sorted = Sorted-lower hi rs (omega (arith, s.0)) s.2;
          above = s.0;
          below = omega arith;
          splits = λ x. ground arith;
          apart = λ x i. clear x (ground arith);
        })
        | inr e ↦ rw e (record {
          sorted = (omega (arith, s.0, next), ground arith, rw rest s.2);
          above = s.0;
          below = omega arith;
          splits = λ x. ground arith;
          apart = λ x i. ground (arith, clear x);
        })
      ]

  -- What the first-fit search gives: no region is large enough, or the range is taken out.
  data Found (lo hi : ℕ) (rs : List VmRange) : Option (ℕ × List VmRange) → Type 0 where
    absent : All (λ r. r.pages < pages) rs → Found lo hi rs none
    found :
        {base : ℕ} {rs' : List VmRange}
        → Takes lo hi pages rs base rs'
        → Found lo hi rs (some (base, rs'))

  Takes-cons :
      (lo hi base : ℕ) (r : VmRange) (rs rs' : List VmRange)
      → Sorted lo (r ∷ rs) hi
      → Takes (r.base + r.pages * page_size) hi pages rs base rs'
      → Takes lo hi pages (r ∷ rs) base (r ∷ rs')
  Takes-cons lo hi base r rs rs' s t = record {
    sorted = (s.0, s.1, t.sorted);
    above = omega (arith, s.0, t.above);
    below = t.below;
    splits = λ x. ground (arith, t.splits x);
    apart = λ x i. ground (arith, t.apart x i, t.above);
  }

  alloc_from-Found :
      (lo hi : ℕ) (rs : List VmRange)
      → IsSmall lo hi
      → Sorted lo rs hi
      → Found lo hi rs (alloc_from pages rs)
  unfolding alloc_from
  alloc_from-Found lo hi [] small s = absent tt
  alloc_from-Found lo hi (r ∷ rs) small s = elim (Bool-cases (leb (to_u32 pages) r.pages)) [
    | inl fits ↦
        rw fits (
          found
            (taken-Takes lo hi r rs small s (omega (arith, leb→le (to_u32 pages) r.pages fits))))
    | inr short ↦ rw short (
        step (ground arith)
          (alloc_from-Found (r.base + r.pages * page_size) hi rs (omega (arith, s.0, s.1)) s.2))
  ]
    where
      step :
          r.pages < pages
          → {found_rest : Option (ℕ × List VmRange)}
          → Found (r.base + r.pages * page_size) hi rs found_rest
          → Found lo hi
              (r ∷ rs)
              (elim found_rest [ none ↦ none | some (base, rs') ↦ some (base, r ∷ rs') ])
      step less (absent short) = absent (less, short)
      step less (found {base} {rs'} t) = found (Takes-cons lo hi base r rs rs' s t)

-- What a call that hands out `base` does to the arena.
pub record HandsOut (start pages : ℕ) (a : VmArena) (base : ℕ) (a' : VmArena) : Type 0 where
  pub valid : Inv start a'
  pub above : start ≤ base
  pub below : base + pages * page_size ≤ a.limit
  pub handed : base + pages * page_size ≤ a'.watermark
  pub same_limit : a'.limit ≡ a.limit
  pub splits : (x : ℕ) → free_at a x ≡ free_at a' x || in_range base pages x
  pub apart : (x : ℕ) → in_range base pages x ≡ true → free_at a' x ≡ false

-- When a call may fail: no region is large enough, nor is what lies above the watermark.
abbrev pub Exhausted : ℕ → VmArena → Type 0
Exhausted pages a =
    All (λ r. r.pages < pages) a.regions × (a.limit < a.watermark + pages * page_size)

-- Both outcomes of a call.
abbrev pub Outcome : ℕ → ℕ → VmArena → ℕ × VmArena → Type 0
Outcome start pages a (base, a') =
    ((base ≡ 0) × (a' ≡ a) × Exhausted pages a) ⊎ HandsOut start pages a base a'

region-HandsOut :
    (start pages base : ℕ) (a : VmArena) (rs' : List VmRange)
    → Inv start a
    → Takes start a.watermark pages a.regions base rs'
    → HandsOut start pages a base (record a { regions = rs' })
region-HandsOut start pages base a rs' v t = record {
  valid = record { positive = v.positive; sorted = t.sorted; within = v.within; small = v.small };
  above = t.above;
  below = omega (arith, t.below, v.within);
  handed = t.below;
  same_limit = refl;
  splits = λ x. ground (arith, t.splits x);
  apart = λ x i. ground (arith, t.apart x i, t.below);
}

Sorted-higher : (lo hi hi' : ℕ) (rs : List VmRange) → hi ≤ hi' → Sorted lo rs hi → Sorted lo rs hi'
Sorted-higher lo hi hi' [] h s = omega arith
Sorted-higher lo hi hi' (r ∷ rs) h s =
    (s.0, s.1, Sorted-higher (r.base + r.pages * page_size) hi hi' rs h s.2)

covers-below : (lo hi x : ℕ) (rs : List VmRange) → Sorted lo rs hi → hi ≤ x → covers rs x ≡ false
covers-below lo hi x [] s h = refl
covers-below lo hi x (r ∷ rs) s h = ground (
  arith,
  covers-below (r.base + r.pages * page_size) hi x rs s.2 h,
  Sorted-le (r.base + r.pages * page_size) hi rs s.2,
)

watermark-HandsOut :
    (start pages : ℕ) (a : VmArena)
    → Inv start a
    → a.watermark + pages * page_size ≤ a.limit
    → HandsOut start pages a a.watermark (record a { watermark = a.watermark + pages * page_size })
watermark-HandsOut start pages a v h =
    let above = Sorted-le start a.watermark a.regions v.sorted in
    record {
      valid = record {
        positive = v.positive;
        sorted =
            Sorted-higher start a.watermark (a.watermark + pages * page_size) a.regions
              (omega arith) v.sorted;
        within = h;
        small = v.small;
      };
      above = above;
      below = h;
      handed = omega arith;
      same_limit = refl;
      splits = λ x. ground arith;
      apart = λ x i. ground (arith, covers-below start a.watermark x a.regions v.sorted);
    }

watermark-full :
    (start pages : ℕ) (a : VmArena)
    → Inv start a
    → pages < 2 ^ 32
    → a.limit < a.watermark + pages * page_size
    → (ltb a.limit (end_of a.watermark pages) || ltb (end_of a.watermark pages) a.watermark) ≡ true
watermark-full start pages a v few full = elim (dec_lt (a.watermark + pages * page_size) (2 ^ 64)) [
  | yes p ↦
      let next : end_of a.watermark pages ≡ a.watermark + pages * page_size = omega arith in
      rw next (ground arith)
  | no p ↦
      let next : end_of a.watermark pages < a.watermark = omega (arith, v.within, v.small.1) in
      ground arith
]

watermark-room :
    (pages : ℕ) (a : VmArena)
    → a.watermark + pages * page_size ≤ a.limit
    → (ltb a.limit (a.watermark + pages * page_size)
        || ltb (a.watermark + pages * page_size) a.watermark)
      ≡ false
watermark-room pages a fits = ground arith

-- `alloc` of at least one and fewer than 2^32 pages fails, with the arena unchanged, only if no free
-- region is large enough and too little is left above the watermark. Otherwise it hands out a range
-- of addresses that were free and lie within the arena's limits, exactly these stop being free, and
-- the arena stays well-formed.
pub alloc-Outcome :
    (start pages : ℕ) (a : VmArena)
    → 0 < pages
    → pages < 2 ^ 32
    → Inv start a
    → Outcome start pages a (alloc a pages)
unfolding alloc
alloc-Outcome start pages a some_pages few v =
    let positive : (pages == 0) ≡ false = ground arith in
    rw positive (
      step (
        alloc_from-Found pages some_pages few start a.watermark a.regions
          (omega (arith, v.within, v.small)) v.sorted))
  where
    step :
        {r : Option (ℕ × List VmRange)}
        → Found pages some_pages few start a.watermark a.regions r
        → Outcome start pages a (elim r [
          | some (base, rs) ↦ (base, record a { regions = rs })
          | none ↦
              if ltb a.limit (end_of a.watermark pages)
                || ltb (end_of a.watermark pages) a.watermark
              then (0, a)
              else (a.watermark, record a { watermark = end_of a.watermark pages })
        ])
    step (found {base} {rs'} t) = inr (region-HandsOut start pages base a rs' v t)
    step (absent short) = elim (Bool-cases (ltb a.limit (a.watermark + pages * page_size))) [
      | inl full ↦
          let fails = watermark-full start pages a v few (ltb→lt _ _ full) in
          rw fails (inl (refl, refl, (short, ltb→lt _ _ full)))
      | inr room ↦
          let fits : a.watermark + pages * page_size ≤ a.limit = ground arith in
          let next : end_of a.watermark pages ≡ a.watermark + pages * page_size =
            omega (arith, v.small.1) in
          let passes = watermark-room pages a fits in
          rw (next, passes) (inr (watermark-HandsOut start pages a v fits))
    ]
