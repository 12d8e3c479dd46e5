-- ===== src/Memory/Guarded/Search.antt =====
-- gwp_asan.cpp: the loops that look for a slot.
use singularity.Common.{
  ℕ, zero, suc, ◌+◌, ◌≤◌, ◌<◌, ◌≡◌, Bool, true, false, none, some, arith, Bool-cases, inl, inr,
}
use singularity.Memory.Guarded.{GwpSlot, find_slot}

module _ (test : GwpSlot → Bool) (slots : ℕ → GwpSlot) where
  -- The slot found passes the test, and none before it does.
  pub find_slot-first :
      (n i j : ℕ)
      → find_slot test slots n i ≡ some j
      → (i ≤ j)
        × (j < i + n)
        × (test (slots j) ≡ true)
        × ((k : ℕ) → i ≤ k → k < j → test (slots k) ≡ false)
  unfolding find_slot
  find_slot-first zero i j e = ground arith
  find_slot-first (suc n) i j e = elim (Bool-cases (test (slots i))) [
    | inl hit ↦ ground (arith, hit)
    | inr miss ↦
        let rest : find_slot test slots n (i + 1) ≡ some j = ground (arith, miss, e) in
        let (lo, hi, passes, before) = find_slot-first n (i + 1) j rest in
        (omega arith, omega arith, passes, λ k a b. ground (arith, miss, before k))
  ]

  -- When no slot is found, none passes.
  pub find_slot-none :
      (n i : ℕ)
      → find_slot test slots n i ≡ none
      → (k : ℕ) → i ≤ k
      → k < i + n
      → test (slots k) ≡ false
  unfolding find_slot
  find_slot-none zero i e k lo hi = absurd (omega arith)
  find_slot-none (suc n) i e k lo hi = elim (Bool-cases (test (slots i))) [
    | inl hit ↦ ground (arith, hit, e)
    | inr miss ↦
        let rest : find_slot test slots n (i + 1) ≡ none = ground (arith, miss, e) in
        ground (arith, miss, find_slot-none n (i + 1) rest k)
  ]
