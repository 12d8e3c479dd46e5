-- ===== src/Memory/Arena/Tests.antt =====
-- An arena over the addresses from 0x10000 on, with one free region of three pages.
use singularity.Common.{
  ℕ, zero, suc, ◌+◌, ◌*◌, ◌^◌, ◌≤◌, ◌<◌, ◌≡◌, refl, ◌||◌, arith, List, [], ◌∷◌, length, ◌≢◌, sym,
  ◌∙◌,
}
use singularity.Memory.Arena.{
  VmRange, VmArena, page_size, max_regions, align_up, insert_at, remove_at, join_at, base_at,
  lower_bound, lower_bound_from, coalesce_around, alloc_from, alloc, fit_from, carve, alloc_aligned,
  free,
}
use singularity.Memory.Arena.Regions.{Sorted, in_range}
use singularity.Memory.Arena.Search.{rank, lower_bound-rank}
use singularity.Memory.Arena.Alloc.{Inv, free_at, Outcome, alloc-Outcome}
use singularity.Memory.Arena.Free.{free-gives_back, free-alloc}
use singularity.Memory.Arena.Overflow.{IsApart, free-overflows}

abbrev hole_at : ℕ → ℕ → VmRange
hole_at base pages = record { base = base; pages = pages }

abbrev used : VmArena
used = record { regions = hole_at 0x12000 3 ∷ []; watermark = 0x20000; limit = 0x8_0000 }

used-Inv : Inv 0x10000 used
used-Inv = record {
  positive = omega arith;
  sorted = (omega arith, omega arith, omega arith);
  within = omega arith;
  small = omega arith;
}

alloc_first_fit : alloc used 2 ≡ (0x12000, record used { regions = hole_at 0x14000 1 ∷ [] })
unfolding alloc alloc_from
alloc_first_fit = refl

alloc_watermark : alloc used 4 ≡ (0x20000, record used { watermark = 0x24000 })
unfolding alloc alloc_from
alloc_watermark = refl

alloc_aligned_test :
    alloc_aligned used 1 2 ≡ (0x12000, record used { regions = hole_at 0x13000 2 ∷ [] })
unfolding alloc_aligned fit_from carve align_up
alloc_aligned_test = refl

free_test : free used 0x11000 1 ≡ record used { regions = hole_at 0x11000 4 ∷ [] }
unfolding free lower_bound lower_bound_from base_at insert_at coalesce_around join_at remove_at
free_test = refl

alloc-Outcome_example : Outcome 0x10000 2 used (alloc used 2)
alloc-Outcome_example = alloc-Outcome 0x10000 2 used (omega arith) (omega arith) used-Inv

free-gives_back_example :
    Inv 0x10000 (free used 0x11000 1)
    × (length (free used 0x11000 1).regions ≤ max_regions)
    × ((x : ℕ) → free_at (free used 0x11000 1) x ≡ free_at used x || in_range 0x11000 1 x)
free-gives_back_example = free-gives_back 0x10000 0x11000 1 used used-Inv (record {
  some_pages = omega arith;
  few_pages = omega arith;
  above = omega arith;
  below = omega arith;
  taken = λ x i. ground arith;
  room = omega arith;
})

alloc_succeeds : (alloc used 2).0 ≢ 0
unfolding alloc alloc_from
alloc_succeeds e = omega arith

alloc_leaves_room : length (alloc used 2).1.regions < max_regions
unfolding alloc alloc_from
alloc_leaves_room = omega arith

free-alloc_example :
    Inv 0x10000 (free (alloc used 2).1 (alloc used 2).0 2)
    × (length (free (alloc used 2).1 (alloc used 2).0 2).regions ≤ max_regions)
    × ((x : ℕ) → free_at (free (alloc used 2).1 (alloc used 2).0 2) x ≡ free_at used x)
free-alloc_example =
    free-alloc 0x10000 2 used (omega arith) (omega arith) used-Inv alloc_succeeds alloc_leaves_room

-- Single pages, with a page between each two.
unfoldable spaced : ℕ → ℕ → List VmRange
spaced zero base = []
spaced (suc n) base = hole_at base 1 ∷ spaced n (base + 2 * page_size)

length-spaced : (n base : ℕ) → length (spaced n base) ≡ n
unfolding spaced
length-spaced zero base = refl
length-spaced (suc n) base = ground (arith, length-spaced n (base + 2 * page_size))

spaced-Sorted : (n base lo : ℕ) → lo ≤ base → Sorted lo (spaced n base) (base + n * (2 * page_size))
unfolding spaced
spaced-Sorted zero base lo h = omega arith
spaced-Sorted (suc n) base lo h =
    let next : base + 2 * page_size + n * (2 * page_size) ≡ base + suc n * (2 * page_size) =
      omega arith in
    (
      h,
      omega arith,
      rw (sym next) (spaced-Sorted n (base + 2 * page_size) (base + 1 * page_size) (omega arith)),
    )

spaced-IsApart :
    (n base page : ℕ)
    → page + 2 * page_size ≤ base
    → base + n * (2 * page_size) < 2 ^ 64
    → IsApart (hole_at page 1 ∷ spaced n base)
unfolding spaced
spaced-IsApart zero base page h b = tt
spaced-IsApart (suc n) base page h b =
    (λ e. omega arith, spaced-IsApart n (base + 2 * page_size) base (omega arith) (omega arith))

rank-spaced : (n base addr : ℕ) → addr ≤ base → rank addr (spaced n base) ≡ 0
unfolding rank spaced
rank-spaced zero base addr h = refl
rank-spaced (suc n) base addr h = ground arith

abbrev fragmented : VmArena
fragmented = record {
  regions = spaced max_regions 0x13000;
  watermark = 0x80_0000;
  limit = 0x100_0000;
}

fragmented_place : lower_bound fragmented.regions 0x10000 ≡ 0
fragmented_place =
    lower_bound-rank 0x13000 (0x13000 + max_regions * (2 * page_size)) 0x10000 fragmented.regions
      (spaced-Sorted max_regions 0x13000 0x13000 (omega arith))
    ∙ rank-spaced max_regions 0x13000 0x10000 (omega arith)

fragmented-IsApart : IsApart (hole_at 0x10000 1 ∷ fragmented.regions)
fragmented-IsApart = spaced-IsApart max_regions 0x13000 0x10000 (omega arith) (omega arith)

IsApart-tail : (r : VmRange) (rs : List VmRange) → IsApart (r ∷ rs) → IsApart rs
IsApart-tail r [] h = tt
IsApart-tail r (s ∷ rs) h = h.1

inserted-IsApart :
    IsApart
      (insert_at (lower_bound fragmented.regions 0x10000) (hole_at 0x10000 1) fragmented.regions)
unfolding insert_at
inserted-IsApart = rw fragmented_place fragmented-IsApart

free-overflows_example :
    length (free fragmented 0x10000 1).regions ≡ suc (length fragmented.regions)
free-overflows_example =
    free-overflows 0x10000 1 fragmented (omega arith) (omega arith) (omega arith)
      (IsApart-tail (hole_at 0x10000 1) fragmented.regions fragmented-IsApart) inserted-IsApart
