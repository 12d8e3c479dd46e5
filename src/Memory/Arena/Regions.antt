-- ===== src/Memory/Arena/Regions.antt =====
-- kheap_slab.cpp: the sorted free regions, and what joining two of them does.
use singularity.Common.{
  length, ℕ, zero, suc, ◌+◌, ◌*◌, ◌%◌, ◌^◌, ◌≤◌, ◌<◌, ◌≡◌, refl, Bool, false, ◌&&◌, ◌||◌, arith,
  ◌==◌, ltb, leb, if◌then◌else◌, List, [], ◌∷◌, inl, inr, Bool-cases, ap, ◌∙◌,
}
use singularity.Memory.Arena.{VmRange, page_size, end_of, remove_at, join_at, coalesce_around}

-- The address lies in the `pages` pages from `base` on.
abbrev pub in_range : ℕ → ℕ → ℕ → Bool
in_range base pages x = leb base x && ltb x (base + pages * page_size)

-- The address lies in some free region.
abbrev pub covers : List VmRange → ℕ → Bool
covers [] x = false
covers (r ∷ rs) x = in_range r.base r.pages x || covers rs x

-- The regions stand in order between `lo` and `hi`, none is empty and no two overlap.
abbrev pub Sorted : ℕ → List VmRange → ℕ → Type 0
Sorted lo [] hi = lo ≤ hi
Sorted lo (r ∷ rs) hi = (lo ≤ r.base) × (0 < r.pages) × Sorted (r.base + r.pages * page_size) rs hi

pub Sorted-le : (lo hi : ℕ) (rs : List VmRange) → Sorted lo rs hi → lo ≤ hi
Sorted-le lo hi [] s = s
Sorted-le lo hi (r ∷ rs) s = omega (arith, Sorted-le (r.base + r.pages * page_size) hi rs s.2, s.0)

pub Sorted-lower :
    {lo lo' : ℕ} (hi : ℕ) (rs : List VmRange) → lo' ≤ lo → Sorted lo rs hi → Sorted lo' rs hi
Sorted-lower hi [] h s = omega arith
Sorted-lower hi (r ∷ rs) h s = (omega (arith, s.0), s.1, s.2)

pub covers-above :
    (lo hi x : ℕ) (rs : List VmRange) → Sorted lo rs hi → x < lo → covers rs x ≡ false
covers-above lo hi x [] s h = refl
covers-above lo hi x (r ∷ rs) s h =
    ground (arith, covers-above (r.base + r.pages * page_size) hi x rs s.2)

-- An address space small enough that no page count overflows.
abbrev pub IsSmall : ℕ → ℕ → Type 0
IsSmall lo hi = (hi < lo + 2 ^ 44) × (hi < 2 ^ 64)

-- The first two regions joined.
pub join_at-zero :
    (a b : VmRange) (rs : List VmRange)
    → join_at (a ∷ b ∷ rs) 0 ≡ (
        if end_of a.base a.pages == b.base
        then record a { pages = (a.pages + b.pages) % 2 ^ 32 } ∷ rs
        else a ∷ b ∷ rs)
unfolding join_at remove_at
join_at-zero a b rs = ground arith

pub join_at-suc :
    (r : VmRange) (rs : List VmRange) (i : ℕ) → join_at (r ∷ rs) (suc i) ≡ r ∷ join_at rs i
unfolding join_at remove_at
join_at-suc r rs i = ground arith

-- Joining keeps the order and the addresses that are free.
abbrev pub SameSpace : ℕ → ℕ → List VmRange → List VmRange → Type 0
SameSpace lo hi rs rs' = Sorted lo rs' hi × ((x : ℕ) → covers rs' x ≡ covers rs x)

pub join_at-nil : (i : ℕ) → join_at [] i ≡ []
unfolding join_at
join_at-nil i = refl

pub join_at-single : (r : VmRange) → join_at (r ∷ []) 0 ≡ r ∷ []
unfolding join_at
join_at-single r = refl

joined-SameSpace :
    (lo hi : ℕ) (a b : VmRange) (rs : List VmRange)
    → IsSmall lo hi
    → Sorted lo (a ∷ b ∷ rs) hi
    → end_of a.base a.pages ≡ b.base
    → SameSpace lo hi (a ∷ b ∷ rs) (record a { pages = (a.pages + b.pages) % 2 ^ 32 } ∷ rs)
joined-SameSpace lo hi a b rs small s meets =
    let above = Sorted-le (b.base + b.pages * page_size) hi rs s.2.2 in
    let sum : (a.pages + b.pages) % 2 ^ 32 ≡ a.pages + b.pages = omega (arith, s.0, s.2.0) in
    let touch : b.base ≡ a.base + a.pages * page_size = omega (arith, s.2.0) in
    let whole : a.base + (a.pages + b.pages) * page_size ≡ b.base + b.pages * page_size =
      omega arith in
    ((s.0, omega (arith, s.1), rw (sum, whole) s.2.2), λ x. rw sum (ground arith))

pub join_at-SameSpace :
    (lo hi : ℕ) (rs : List VmRange) (i : ℕ)
    → IsSmall lo hi
    → Sorted lo rs hi
    → SameSpace lo hi rs (join_at rs i)
join_at-SameSpace lo hi [] i small s = rw (join_at-nil i) (s, λ x. refl)
join_at-SameSpace lo hi (r ∷ []) zero small s = rw (join_at-single r) (s, λ x. refl)
join_at-SameSpace lo hi (a ∷ b ∷ rs) zero small s =
    elim (Bool-cases (end_of a.base a.pages == b.base)) [
      | inl e ↦ rw (join_at-zero a b rs, e) (joined-SameSpace lo hi a b rs small s (ground arith))
      | inr e ↦ rw (join_at-zero a b rs, e) (s, λ x. refl)
    ]
join_at-SameSpace lo hi (r ∷ rs) (suc i) small s =
    let (s', same) =
      join_at-SameSpace (r.base + r.pages * page_size) hi rs i (omega (arith, s.0, s.1)) s.2 in
    rw (join_at-suc r rs i) ((s.0, s.1, s'), λ x. ap (◌||◌ (in_range r.base r.pages x)) (same x))

join_at-length : (rs : List VmRange) (i : ℕ) → length (join_at rs i) ≤ length rs
join_at-length [] i = rw (join_at-nil i) (omega arith)
join_at-length (r ∷ []) zero = rw (join_at-single r) (omega arith)
join_at-length (a ∷ b ∷ rs) zero = elim (Bool-cases (end_of a.base a.pages == b.base)) [
  | inl e ↦ rw (join_at-zero a b rs, e) (omega arith)
  | inr e ↦ rw (join_at-zero a b rs, e) (omega arith)
]
join_at-length (r ∷ rs) (suc i) = rw (join_at-suc r rs i) (omega (arith, join_at-length rs i))

pub coalesce_around-length : (rs : List VmRange) (i : ℕ) → length (coalesce_around rs i) ≤ length rs
unfolding coalesce_around
coalesce_around-length rs zero = join_at-length rs 0
coalesce_around-length rs (suc i) =
    omega (arith, join_at-length rs (suc i), join_at-length (join_at rs (suc i)) i)

pub coalesce_around-SameSpace :
    (lo hi : ℕ) (rs : List VmRange) (i : ℕ)
    → IsSmall lo hi
    → Sorted lo rs hi
    → SameSpace lo hi rs (coalesce_around rs i)
unfolding coalesce_around
coalesce_around-SameSpace lo hi rs zero small s = join_at-SameSpace lo hi rs 0 small s
coalesce_around-SameSpace lo hi rs (suc i) small s =
    let (s', same) = join_at-SameSpace lo hi rs (suc i) small s in
    let (s'', same') = join_at-SameSpace lo hi (join_at rs (suc i)) i small s' in
    (s'', λ x. same' x ∙ same x)
