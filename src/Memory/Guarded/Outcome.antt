-- ===== src/Memory/Guarded/Outcome.antt =====
-- gwp_asan.cpp: what a call of `gwp_asan_malloc` or `gwp_asan_free` comes to.
use singularity.Common.{ℕ, ◌<◌, ◌≡◌, true, some, arith, Option-cases, ◌⊎◌, inl, inr}
use singularity.Memory.Arena.{page_size}
use singularity.Memory.Guarded.{
  Guarded, gwp_asan_slots, slot_data_page, place, is_free, is_active, holds, find_slot, fill_slot,
  drop_slot, gwp_asan_malloc, gwp_asan_free, Freed,
}
use singularity.Memory.Guarded.Search.{find_slot-first}

pub gwp_asan_malloc-cases :
    (g : Guarded) (phys size caller ptr : ℕ) (g' : Guarded)
    → gwp_asan_malloc g phys size caller ≡ (ptr, g')
    → ((ptr ≡ 0) × (g' ≡ g))
      ⊎ ((j : ℕ) × (j < gwp_asan_slots)
          × (is_free (g.slots j) ≡ true)
          × (0 < phys)
          × (0 < size)
          × (size < page_size)
          × (ptr ≡ place (slot_data_page j) size)
          × (g' ≡ fill_slot g j phys size caller))
unfolding gwp_asan_malloc
gwp_asan_malloc-cases g phys size caller ptr g' e =
    elim (Option-cases (find_slot is_free g.slots gwp_asan_slots 0)) [
      | inl miss ↦ ground (arith, miss, e)
      | inr (j, hit) ↦
          let (lo, hi, passes, _) = find_slot-first is_free g.slots gwp_asan_slots 0 j hit in
          elim (made j hit hi passes) [
            | inl same ↦ inl same
            | inr (a, b, c, d, f, p, q) ↦ inr (j, a, b, c, d, f, p, q)
          ]
    ]
  where
    made :
        (j : ℕ)
        → find_slot is_free g.slots gwp_asan_slots 0 ≡ some j
        → j < gwp_asan_slots
        → is_free (g.slots j) ≡ true
        → ((ptr ≡ 0) × (g' ≡ g))
          ⊎ ((j < gwp_asan_slots)
              × (is_free (g.slots j) ≡ true)
              × (0 < phys)
              × (0 < size)
              × (size < page_size)
              × (ptr ≡ place (slot_data_page j) size)
              × (g' ≡ fill_slot g j phys size caller))
    made j hit h passes = ground (arith, hit, e, passes)

pub gwp_asan_free-cases :
    (g : Guarded) (ptr caller : ℕ) (r : Freed) (phys : ℕ) (g' : Guarded)
    → gwp_asan_free g ptr caller ≡ (r, phys, g')
    → ((g'.slots ≡ g.slots)
        × (g'.mapped ≡ g.mapped)
        × (g'.stat_sampled ≡ g.stat_sampled)
        × (g'.initialized ≡ g.initialized))
      ⊎ ((j : ℕ) × (j < gwp_asan_slots)
          × (is_active (g.slots j) ≡ true)
          × ((g.slots j).user_ptr ≡ ptr)
          × (phys ≡ g.mapped (slot_data_page j))
          × (g' ≡ drop_slot g j caller))
unfolding gwp_asan_free
gwp_asan_free-cases g ptr caller r phys g' e =
    elim (Option-cases (find_slot (holds ptr) g.slots gwp_asan_slots 0)) [
      | inl miss ↦ ground (arith, miss, e)
      | inr (j, hit) ↦
          let (lo, hi, passes, _) = find_slot-first (holds ptr) g.slots gwp_asan_slots 0 j hit in
          elim (made j hit hi passes) [
            | inl same ↦ inl same
            | inr (a, b, c, d, f) ↦ inr (j, a, b, c, d, f)
          ]
    ]
  where
    made :
        (j : ℕ)
        → find_slot (holds ptr) g.slots gwp_asan_slots 0 ≡ some j
        → j < gwp_asan_slots
        → holds ptr (g.slots j) ≡ true
        → ((g'.slots ≡ g.slots)
            × (g'.mapped ≡ g.mapped)
            × (g'.stat_sampled ≡ g.stat_sampled)
            × (g'.initialized ≡ g.initialized))
          ⊎ ((j < gwp_asan_slots)
              × (is_active (g.slots j) ≡ true)
              × ((g.slots j).user_ptr ≡ ptr)
              × (phys ≡ g.mapped (slot_data_page j))
              × (g' ≡ drop_slot g j caller))
    made j hit h passes = ground (arith, hit, e, passes)
