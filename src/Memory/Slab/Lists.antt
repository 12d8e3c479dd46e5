-- ===== src/Memory/Slab/Lists.antt =====
-- kheap_slab.cpp: `removeSlabFromList` on lists of addresses.
use singularity.Common.{
  ℕ, ◌+◌, ◌-◌, ◌<◌, ◌≡◌, ◌≢◌, refl, Bool, true, false, to_count, arith, ◌==◌, if◌then◌else◌, List,
  [], ◌∷◌, All, Distinct, ap, sym, subst, inl, inr, Bool-cases,
}
use singularity.Memory.Slab.{remove_slab}

-- Taking a slab off a list.
pub All-remove {κ} : (P : ℕ → Type κ) (s : ℕ) (xs : List ℕ) → All P xs → All P (remove_slab s xs)
unfolding remove_slab
All-remove P s [] p = tt
All-remove P s (x ∷ xs) p = elim (Bool-cases (x == s)) [
  | inl e ↦ subst (All P) (sym (ap (λ b. if b then xs else x ∷ remove_slab s xs) e)) p.1
  | inr e ↦
      subst (All P) (sym (ap (λ b. if b then xs else x ∷ remove_slab s xs) e))
        (p.0, All-remove P s xs p.1)
]

pub Distinct-remove : (s : ℕ) (xs : List ℕ) → Distinct xs → Distinct (remove_slab s xs)
unfolding remove_slab
Distinct-remove s [] d = tt
Distinct-remove s (x ∷ xs) d = elim (Bool-cases (x == s)) [
  | inl e ↦ subst Distinct (sym (ap (λ b. if b then xs else x ∷ remove_slab s xs) e)) d.1
  | inr e ↦
      subst Distinct (sym (ap (λ b. if b then xs else x ∷ remove_slab s xs) e))
        (All-remove (λ y. y ≢ x) s xs d.0, Distinct-remove s xs d.1)
]

pub remove_gone : (s : ℕ) (xs : List ℕ) → Distinct xs → All (λ x. x ≢ s) (remove_slab s xs)
unfolding remove_slab
remove_gone s [] d = tt
remove_gone s (x ∷ xs) d = elim (Bool-cases (x == s)) [
  | inl e ↦
      let same : x ≡ s = ground arith in
      subst (All (λ y. y ≢ s)) (sym (ap (λ b. if b then xs else x ∷ remove_slab s xs) e))
        (subst (λ k. All (λ y. y ≢ k) xs) same d.0)
  | inr e ↦
      subst (All (λ y. y ≢ s)) (sym (ap (λ b. if b then xs else x ∷ remove_slab s xs) e))
        (ground arith, remove_gone s xs d.1)
]

-- How often a slab stands in a list.
pub occurs : ℕ → List ℕ → ℕ
occurs y [] = 0
occurs y (x ∷ xs) = to_count (x == y) + occurs y xs

pub occurs-cons : (y x : ℕ) (xs : List ℕ) → occurs y (x ∷ xs) ≡ to_count (x == y) + occurs y xs
unfolding occurs
occurs-cons y x xs = refl

pub occurs-remove :
    (y s : ℕ) (xs : List ℕ) → occurs y (remove_slab s xs) ≡ occurs y xs - to_count (s == y)
unfolding occurs remove_slab
occurs-remove y s [] = omega arith
occurs-remove y s (x ∷ xs) = elim (Bool-cases (x == s)) [
  | inl e ↦ ground (arith, e)
  | inr e ↦ ground (arith, e, occurs-remove y s xs)
]

pub occurs-none : (s : ℕ) (xs : List ℕ) → All (λ x. x ≢ s) xs → occurs s xs ≡ 0
unfolding occurs
occurs-none s [] h = refl
occurs-none s (x ∷ xs) (hx, h) = ground (arith, hx, occurs-none s xs h)

abbrev listed : List ℕ → List ℕ → List ℕ → ℕ → ℕ
listed partial full empty y = occurs y partial + occurs y full + occurs y empty

-- The lists that `free` makes, of a slab that was full or partial and is emptied or not: it is taken off
-- one list and put on another, and the other slabs stay where they are.
pub occurs-moved :
    (partial full empty : List ℕ) (s : ℕ) (was_full emptied : Bool)
    → 0 < (if was_full then occurs s full else occurs s partial)
    → (y : ℕ)
    → let joined = if was_full then s ∷ partial else partial in
      listed
        (if emptied then remove_slab s joined else joined)
        (if was_full then remove_slab s full else full)
        (if emptied then s ∷ empty else empty)
        y
      ≡ listed partial full empty y
unfolding occurs
occurs-moved partial full empty s true true there y =
    ground (arith, there, occurs-remove y s full, occurs-remove y s (s ∷ partial))
occurs-moved partial full empty s true false there y = ground (arith, there, occurs-remove y s full)
occurs-moved partial full empty s false true there y =
    ground (arith, there, occurs-remove y s partial)
occurs-moved partial full empty s false false there y = refl
