-- ===== src/Memory/Arena/Search.antt =====
-- kheap_slab.cpp: `lower_bound`, the place of an address among the sorted regions.
use singularity.Common.{
  ℕ, zero, suc, ◌+◌, ◌*◌, ◌/◌, ◌≤◌, ◌<◌, ◌≡◌, arith, ltb, if◌then◌else◌, List, [], ◌∷◌, length, inl,
  inr, Bool-cases, ltb→lt,
}
use native.Mathlib.Decide.{dec_lt}
use singularity.Memory.Arena.{VmRange, page_size, base_at, lower_bound_from, lower_bound}
use singularity.Memory.Arena.Regions.{Sorted}

-- How many regions at the front begin below the address.
unfoldable pub rank : ℕ → List VmRange → ℕ
rank addr [] = 0
rank addr (r ∷ rs) = let rest = rank addr rs in if ltb r.base addr then suc rest else 0

rank-le-length : (addr : ℕ) (rs : List VmRange) → rank addr rs ≤ length rs
unfolding rank
rank-le-length addr [] = omega arith
rank-le-length addr (r ∷ rs) = ground (arith, rank-le-length addr rs)

base_at-below : (addr : ℕ) (rs : List VmRange) (i : ℕ) → i < rank addr rs → base_at rs i < addr
unfolding rank base_at
base_at-below addr [] i h = elim h [ ]
base_at-below addr (r ∷ rs) zero h = ground arith
base_at-below addr (r ∷ rs) (suc i) h = ground (arith, base_at-below addr rs i)

Sorted-base_at :
    (lo hi : ℕ) (rs : List VmRange) (i : ℕ) → Sorted lo rs hi → i < length rs → lo ≤ base_at rs i
unfolding base_at
Sorted-base_at lo hi [] i s h = elim h [ ]
Sorted-base_at lo hi (r ∷ rs) zero s h = s.0
Sorted-base_at lo hi (r ∷ rs) (suc i) s h =
    omega (arith, s.0, Sorted-base_at (r.base + r.pages * page_size) hi rs i s.2 (omega arith))

base_at-above :
    (lo hi addr : ℕ) (rs : List VmRange) (i : ℕ)
    → Sorted lo rs hi
    → rank addr rs ≤ i
    → i < length rs
    → addr ≤ base_at rs i
unfolding rank base_at
base_at-above lo hi addr [] i s h l = elim l [ ]
base_at-above lo hi addr (r ∷ rs) zero s h l = ground arith
base_at-above lo hi addr (r ∷ rs) (suc i) s h l = elim (Bool-cases (ltb r.base addr)) [
  | inl e ↦
      base_at-above (r.base + r.pages * page_size) hi addr rs i s.2 (ground arith) (omega arith)
  | inr e ↦
      let rest = Sorted-base_at (r.base + r.pages * page_size) hi rs i s.2 (omega arith) in
      ground arith
]

mid-lt-rank :
    (lo hi addr : ℕ) (rs : List VmRange) (i : ℕ)
    → Sorted lo rs hi
    → i < length rs
    → base_at rs i < addr
    → i < rank addr rs
mid-lt-rank lo hi addr rs i s l h = elim (dec_lt i (rank addr rs)) [
  | yes p ↦ p
  | no p ↦ absurd (omega (arith, base_at-above lo hi addr rs i s (omega arith) l))
]

rank-le-mid : (addr : ℕ) (rs : List VmRange) (i : ℕ) → ¬ (base_at rs i < addr) → rank addr rs ≤ i
rank-le-mid addr rs i h = elim (dec_lt i (rank addr rs)) [
  | yes p ↦ absurd (h (base_at-below addr rs i p))
  | no p ↦ omega arith
]

lower_bound_from-rank :
    (fuel lo hi : ℕ) (rs : List VmRange) (addr l h : ℕ)
    → Sorted l rs h
    → hi ≤ lo + fuel
    → lo ≤ rank addr rs
    → rank addr rs ≤ hi
    → hi ≤ length rs
    → lower_bound_from fuel rs addr lo hi ≡ rank addr rs
unfolding lower_bound_from
lower_bound_from-rank zero lo hi rs addr l h s enough below above inside = omega arith
lower_bound_from-rank (suc fuel) lo hi rs addr l h s enough below above inside =
    elim (Bool-cases (ltb lo hi)) [
      | inr done ↦ rw done (ground arith)
      | inl more ↦
          let mid = (lo + hi) / 2 in
          let open_interval = ltb→lt lo hi more in
          elim (Bool-cases (ltb (base_at rs mid) addr)) [
            | inl right ↦
                let past : mid < rank addr rs =
                  mid-lt-rank l h addr rs mid s (omega arith) (ltb→lt _ _ right) in
                rw (more, right)
                  (lower_bound_from-rank fuel (mid + 1) hi rs addr l h s (omega arith) (omega arith)
                    above inside)
            | inr left ↦
                let before : rank addr rs ≤ mid =
                  rank-le-mid addr rs mid (λ less. absurd (ground arith)) in
                rw (more, left)
                  (lower_bound_from-rank fuel lo mid rs addr l h s (omega arith) below before
                    (omega arith))
          ]
    ]

-- The binary search finds how many regions begin below the address.
pub lower_bound-rank :
    (l h addr : ℕ) (rs : List VmRange) → Sorted l rs h → lower_bound rs addr ≡ rank addr rs
unfolding lower_bound
lower_bound-rank l h addr rs s =
    lower_bound_from-rank (length rs) 0 (length rs) rs addr l h s (omega arith) (omega arith)
      (rank-le-length addr rs) (omega arith)
