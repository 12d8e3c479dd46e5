-- ===== src/Memory/Arena.antt =====
-- archs/memory/kheap_slab.cpp and kheap.h: `VmArena`, which hands out ranges of kernel addresses.
-- The used part of the array `regions_` is a list, `count_` is its length. An `insert_at` past the
-- end of the array makes the list longer than `max_regions`.
pub mod Regions
pub mod Search
pub mod Alloc
pub mod Free
pub mod Overflow
mod Tests
use singularity.Common.{
  ℕ, zero, suc, ◌+◌, ◌-◌, ◌*◌, ◌/◌, ◌%◌, ◌^◌, Bool, true, false, not, ◌&&◌, ◌||◌, Option, none,
  some, bit_and, ◌==◌, ltb, leb, if◌then◌else◌, List, [], ◌∷◌, set, get_elem?, length,
}

pub record VmRange : Type 0 where
  pub base : ℕ
  pub pages : ℕ

pub record VmArena : Type 0 where
  pub regions : List VmRange
  pub watermark : ℕ
  pub limit : ℕ

abbrev pub page_size : ℕ
page_size = 4096

abbrev pub max_regions : ℕ
max_regions = 512

-- `uint64_t` and `uint32_t` values.
abbrev pub to_u64 : ℕ → ℕ
to_u64 x = x % 2 ^ 64

abbrev pub to_u32 : ℕ → ℕ
to_u32 x = x % 2 ^ 32

-- `base + (uint64_t)pages * PAGE_SIZE`
abbrev pub end_of : ℕ → ℕ → ℕ
end_of base pages = to_u64 (base + to_u64 (pages * page_size))

-- `ALIGN_UP(x, align)`: `(x + (align - 1)) & ~(align - 1)`
unfoldable pub align_up : ℕ → ℕ → ℕ
align_up x align =
    let mask = to_u64 (align + 2 ^ 64 - 1) in bit_and (to_u64 (x + mask)) (2 ^ 64 - 1 - mask)

unfoldable pub init : ℕ → ℕ → VmArena
init start limit = record { regions = []; watermark = start; limit = limit }

unfoldable pub insert_at : ℕ → VmRange → List VmRange → List VmRange
insert_at zero r rs = r ∷ rs
insert_at (suc i) r [] = r ∷ []
insert_at (suc i) r (x ∷ xs) = x ∷ insert_at i r xs

unfoldable pub remove_at : ℕ → List VmRange → List VmRange
remove_at i [] = []
remove_at zero (x ∷ xs) = xs
remove_at (suc i) (x ∷ xs) = x ∷ remove_at i xs

-- `regions_[i].base`; `lower_bound` asks for it only below `count_`.
unfoldable pub base_at : List VmRange → ℕ → ℕ
base_at rs i = elim (get_elem? rs i) [ none ↦ 0 | some r ↦ r.base ]

-- The loop of `lower_bound`. The interval shrinks each round, so `hi - lo` rounds are enough.
unfoldable pub lower_bound_from : ℕ → List VmRange → ℕ → ℕ → ℕ → ℕ
lower_bound_from zero rs addr lo hi = lo
lower_bound_from (suc fuel) rs addr lo hi =
    let mid = (lo + hi) / 2 in
    let right = ltb (base_at rs mid) addr in
    let rest =
      lower_bound_from fuel rs addr (if right then mid + 1 else lo) (if right then hi else mid) in
    if ltb lo hi then rest else lo

unfoldable pub lower_bound : List VmRange → ℕ → ℕ
lower_bound rs addr = lower_bound_from (length rs) rs addr 0 (length rs)

-- The step that `coalesce_around` makes twice: region `i + 1` is joined to region `i` if it begins
-- where that one ends. There is no such pair at the end of the list.
unfoldable pub join_at : List VmRange → ℕ → List VmRange
join_at rs i = elim (get_elem? rs i) [
  | none ↦ rs
  | some a ↦ elim (get_elem? rs (suc i)) [
    | none ↦ rs
    | some b ↦
        if end_of a.base a.pages == b.base
        then remove_at (suc i) (set rs i (record a { pages = to_u32 (a.pages + b.pages) }))
        else rs
  ]
]

unfoldable pub coalesce_around : List VmRange → ℕ → List VmRange
coalesce_around rs zero = join_at rs zero
coalesce_around rs (suc i) = join_at (join_at rs (suc i)) i

-- The loop of `alloc`: the base of the first region that is large enough, and the regions without
-- what was taken of it.
unfoldable pub alloc_from : ℕ → List VmRange → Option (ℕ × List VmRange)
alloc_from pages [] = none
alloc_from pages (r ∷ rs) =
    let left = record r { base = end_of r.base pages; pages = r.pages - to_u32 pages } in
    let taken = if r.pages == to_u32 pages then rs else left ∷ rs in
    let rest : Option (ℕ × List VmRange) = elim (alloc_from pages rs) [
      | none ↦ none
      | some (base, rs') ↦ some (base, r ∷ rs')
    ] in
    if leb (to_u32 pages) r.pages then some (r.base, taken) else rest

-- The address 0 stands for a failure.
unfoldable pub alloc : VmArena → ℕ → ℕ × VmArena
alloc a pages =
    let next = end_of a.watermark pages in
    if pages == 0 then (0, a) else elim (alloc_from pages a.regions) [
      | some (base, rs) ↦ (base, record a { regions = rs })
      | none ↦
          if ltb a.limit next || ltb next a.watermark
          then (0, a)
          else (a.watermark, record a { watermark = next })
    ]

-- The loop of `alloc_aligned`: the first region that holds `pages` pages from an aligned address on.
unfoldable pub fit_from : ℕ → ℕ → List VmRange → ℕ → Option (ℕ × VmRange)
fit_from pages ab [] i = none
fit_from pages ab (r ∷ rs) i =
    let gap = to_u64 (align_up r.base ab + 2 ^ 64 - r.base) / page_size in
    let rest = fit_from pages ab rs (i + 1) in
    if ltb r.pages (to_u32 (to_u64 (gap + pages))) then rest else some (i, r)

-- What `alloc_aligned` makes of the regions when region `i` fits.
unfoldable pub carve : ℕ → ℕ → List VmRange → ℕ → VmRange → List VmRange
carve pages ab rs i r =
    let aligned = align_up r.base ab in
    let gap = to_u64 (aligned + 2 ^ 64 - r.base) / page_size in
    let rem = r.pages - to_u32 (to_u64 (gap + pages)) in
    let tail = end_of aligned pages in
    let rs' = set rs i (record r { pages = to_u32 gap }) in
    if ltb 0 gap
    then if ltb 0 rem && ltb (length rs') max_regions
      then insert_at (lower_bound rs' tail) (record { base = tail; pages = to_u32 rem }) rs'
      else rs'
    else if rem == 0
    then remove_at i rs
    else set rs i (record { base = tail; pages = to_u32 rem })

unfoldable pub alloc_aligned : VmArena → ℕ → ℕ → ℕ × VmArena
alloc_aligned a pages align_pages =
    let ab = to_u64 (align_pages * page_size) in
    let aligned = align_up a.watermark ab in
    let next = end_of aligned pages in
    let gap : VmRange = record {
      base = a.watermark;
      pages = to_u32 (to_u64 (aligned + 2 ^ 64 - a.watermark) / page_size);
    } in
    let ins = lower_bound a.regions a.watermark in
    let regions =
      if ltb a.watermark aligned && ltb (length a.regions) max_regions
      then coalesce_around (insert_at ins gap a.regions) ins
      else a.regions in
    if pages == 0 || align_pages == 0 then (0, a) else elim (fit_from pages ab a.regions 0) [
      | some (i, r) ↦ (align_up r.base ab, record a { regions = carve pages ab a.regions i r })
      | none ↦
          if ltb a.limit next
          then (0, a)
          else (aligned, record a { regions = regions; watermark = next })
    ]

unfoldable pub free : VmArena → ℕ → ℕ → VmArena
free a base pages =
    let nearly_full = leb (max_regions - 2) (length a.regions) in
    let rs = if nearly_full then coalesce_around a.regions (length a.regions - 1) else a.regions in
    let pg = if ltb 0xffff_ffff pages then 0xffff_ffff else pages in
    let idx = lower_bound rs base in
    if base == 0 || pages == 0 then a else record a {
      regions = coalesce_around (insert_at idx (record { base = base; pages = pg }) rs) idx;
    }
