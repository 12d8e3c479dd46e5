-- ===== src/Memory/Guarded/Exhausted.antt =====
-- gwp_asan.cpp: a slot is used once.
use singularity.Common.{
  ℕ, ◌+◌, ◌<◌, ◌≡◌, refl, true, arith, Option-cases, ◌⊎◌, inl, inr, count_below, count_below-update,
  count_below-all, ap, ◌∙◌,
}
use singularity.Memory.Guarded.{
  Guarded, GwpSlot, no_slot, gwp_slot_freed, gwp_asan_slots, is_free, is_active, find_slot,
  fill_slot, drop_slot, gwp_asan_init, gwp_asan_should_sample, gwp_asan_malloc,
  gwp_asan_check_fault,
}
use singularity.Memory.Guarded.Search.{find_slot-first}
use singularity.Memory.Guarded.Outcome.{gwp_asan_malloc-cases, gwp_asan_free-cases}
use singularity.Memory.Guarded.Sound.{Reach, start, samples, allocates, frees, faults}

abbrev pub free_slots : Guarded → ℕ
free_slots g = count_below is_free g.slots gwp_asan_slots

fill_slot-count :
    (g : Guarded) (j phys size caller : ℕ)
    → j < gwp_asan_slots
    → is_free (g.slots j) ≡ true
    → free_slots g + g.stat_sampled ≡ gwp_asan_slots
    → free_slots (fill_slot g j phys size caller) + (fill_slot g j phys size caller).stat_sampled
      ≡ gwp_asan_slots
unfolding fill_slot
fill_slot-count g j phys size caller h free sum = ground (
  arith,
  free,
  count_below-update is_free g.slots j ((fill_slot g j phys size caller).slots j) gwp_asan_slots h,
)

drop_slot-count :
    (g : Guarded) (j caller : ℕ)
    → j < gwp_asan_slots
    → is_active (g.slots j) ≡ true
    → free_slots (drop_slot g j caller) + (drop_slot g j caller).stat_sampled
      ≡ free_slots g + g.stat_sampled
unfolding drop_slot
drop_slot-count g j caller h active = ground (
  arith,
  active,
  count_below-update is_free g.slots j ((drop_slot g j caller).slots j) gwp_asan_slots h,
)

Reach-count : (g : Guarded) → Reach g → free_slots g + g.stat_sampled ≡ gwp_asan_slots
unfolding gwp_asan_init gwp_asan_should_sample gwp_asan_check_fault
Reach-count _ (start g unmapped none_yet) =
    omega (arith, none_yet, count_below-all is_free (λ _. no_slot) gwp_asan_slots (λ i h. refl))
Reach-count _ (samples g g' b run e) = ground (arith, e, Reach-count g run)
Reach-count _ (allocates g g' phys size caller ptr run e) =
    elim (gwp_asan_malloc-cases g phys size caller ptr g' e) [
      | inl (_, same) ↦ ap (λ (h : Guarded). free_slots h + h.stat_sampled) same ∙ Reach-count g run
      | inr (j, h, free, _, _, _, _, filled) ↦
          ap (λ (h : Guarded). free_slots h + h.stat_sampled) filled
          ∙ fill_slot-count g j phys size caller h free (Reach-count g run)
    ]
Reach-count _ (frees g g' ptr caller phys r run e) =
    elim (gwp_asan_free-cases g ptr caller r phys g' e) [
      | inl (slots, _, sampled, _) ↦
          ap (λ s. count_below is_free s gwp_asan_slots + g'.stat_sampled) slots
          ∙ ap (λ n. free_slots g + n) sampled
          ∙ Reach-count g run
      | inr (j, h, active, _, _, dropped) ↦
          ap (λ (h : Guarded). free_slots h + h.stat_sampled) dropped
          ∙ drop_slot-count g j caller h active
          ∙ Reach-count g run
    ]
Reach-count _ (faults g g' addr k run e) = ground (arith, e, Reach-count g run)

count_below-positive :
    (slots : ℕ → GwpSlot) (n i : ℕ)
    → i < n
    → is_free (slots i) ≡ true
    → 0 < count_below is_free slots n
count_below-positive slots n i h free =
    ground (arith, free, count_below-update is_free slots i taken n h)
  where
    taken : GwpSlot
    taken = record no_slot { state = gwp_slot_freed }

-- In every run, the slots that are still free and the objects sampled so far are `gwp_asan_slots`
-- together, whatever was freed; once as many objects were sampled, the allocator gives no memory to any
-- request.
pub Reach-IsExhausted :
    (g : Guarded) (phys size caller : ℕ)
    → Reach g
    → (free_slots g + g.stat_sampled ≡ gwp_asan_slots)
      × ((gwp_asan_malloc g phys size caller ≡ (0, g)) ⊎ (g.stat_sampled < gwp_asan_slots))
unfolding gwp_asan_malloc
Reach-IsExhausted g phys size caller run =
    let sum = Reach-count g run in
    elim (Option-cases (find_slot is_free g.slots gwp_asan_slots 0)) [
      | inl miss ↦ (sum, inl (ground (arith, miss)))
      | inr (j, hit) ↦
          let (_, h, free, _) = find_slot-first is_free g.slots gwp_asan_slots 0 j hit in
          let left = count_below-positive g.slots gwp_asan_slots j h free in
          (sum, inr (omega (arith, sum, left)))
    ]
