-- ===== src/Memory/Guarded/Later.antt =====
-- gwp_asan.cpp: an object that was freed, over all later calls.
use singularity.Common.{
  ℕ, ◌+◌, ◌-◌, ◌/◌, ◌<◌, ◌≡◌, Bool, true, false, arith, ap, sym, subst, inl, inr, ◌≢◌, ◌∙◌,
}
use singularity.Memory.Arena.{to_u64, page_size}
use singularity.Memory.Guarded.{
  Guarded, gwp_asan_slots, gwp_virt_base, slot_stride, slot_data_page, is_active, is_freed,
  fill_slot, drop_slot, gwp_asan_is_managed, gwp_asan_should_sample, gwp_asan_malloc, gwp_asan_free,
  gwp_asan_check_fault, Freed, freed, panicked, Fault, use_after_free, place,
}
use singularity.Memory.Guarded.Place.{slot_data_page-eq, place-IsInside}
use singularity.Memory.Guarded.Outcome.{gwp_asan_malloc-cases, gwp_asan_free-cases}
use singularity.Memory.Guarded.Sound.{
  IsGuarded, Reach, samples, allocates, frees, faults, Reach-IsGuarded,
}
use singularity.Memory.Guarded.Caught.{page_of, fault_of, find_owner, find_nobody}

-- A call, with whatever arguments and frame.
pub data Call (g : Guarded) : Guarded → Type 0 where
  sampled : (g' : Guarded) (b : Bool) → gwp_asan_should_sample g ≡ (b, g') → Call g g'
  allocated :
      (g' : Guarded) (phys size caller ptr : ℕ)
      → gwp_asan_malloc g phys size caller ≡ (ptr, g')
      → Call g g'
  given_back :
      (g' : Guarded) (ptr caller phys : ℕ) (r : Freed)
      → gwp_asan_free g ptr caller ≡ (r, phys, g')
      → Call g g'
  reported :
      (g' : Guarded) (addr : ℕ) (k : Fault) → gwp_asan_check_fault g addr ≡ (k, g') → Call g g'

-- The states that calls lead to from a state on.
pub data Later (g : Guarded) : Guarded → Type 0 where
  now : Later g g
  after : {h k : Guarded} → Later g h → Call h k → Later g k

Call-Reach : (g g' : Guarded) → Reach g → Call g g' → Reach g'
Call-Reach g _ run (sampled g' b e) = samples g g' b run e
Call-Reach g _ run (allocated g' phys size caller ptr e) = allocates g g' phys size caller ptr run e
Call-Reach g _ run (given_back g' ptr caller phys r e) = frees g g' ptr caller phys r run e
Call-Reach g _ run (reported g' addr k e) = faults g g' addr k run e

-- The slot was used up.
record IsGone (i : ℕ) (g : Guarded) : Type 0 where
  gone : is_freed (g.slots i) ≡ true
  on : g.initialized ≡ true

fill_slot-IsGone :
    (i j : ℕ) (g : Guarded) (phys size caller : ℕ)
    → j ≢ i
    → IsGone i g
    → IsGone i (fill_slot g j phys size caller)
unfolding fill_slot
fill_slot-IsGone i j g phys size caller ne v = record {
  gone = ground (arith, ne, v.gone);
  on = v.on;
}

drop_slot-IsGone :
    (i j : ℕ) (g : Guarded) (caller : ℕ) → IsGone i g → IsGone i (drop_slot g j caller)
unfolding drop_slot
drop_slot-IsGone i j g caller v = record { gone = ground (arith, v.gone); on = v.on }

dropped-IsGone :
    (i : ℕ) (g : Guarded) (caller : ℕ) → g.initialized ≡ true → IsGone i (drop_slot g i caller)
unfolding drop_slot
dropped-IsGone i g caller on = record { gone = ground arith; on = on }

free_live :
    (g : Guarded) (i caller : ℕ)
    → IsGuarded g
    → i < gwp_asan_slots
    → is_active (g.slots i) ≡ true
    → gwp_asan_free g (g.slots i).user_ptr caller
      ≡ (freed, g.mapped (slot_data_page i), drop_slot g i caller)
unfolding gwp_asan_free gwp_asan_is_managed
free_live g i caller ok h active =
    let (at, pos, few) = ok.placed i h active in
    let (_, _, _, _, above, below) = place-IsInside i (g.slots i).user_size h pos few in
    ground (arith, at, above, below, find_owner g i ok h active)

Call-IsGone : (i : ℕ) (g g' : Guarded) → IsGone i g → Call g g' → IsGone i g'
unfolding gwp_asan_should_sample gwp_asan_check_fault
Call-IsGone i g _ v (sampled g' b e) = record {
  gone = ground (arith, e, v.gone);
  on = ground (arith, e, v.on);
}
Call-IsGone i g _ v (allocated g' phys size caller ptr e) =
    elim (gwp_asan_malloc-cases g phys size caller ptr g' e) [
      | inl (_, same) ↦ subst (IsGone i) (sym same) v
      | inr (j, h, free, _, _, _, _, filled) ↦ subst (IsGone i) (sym filled) (
          fill_slot-IsGone i j g phys size caller
            (λ same. ground (arith, free, v.gone, ap g.slots same)) v)
    ]
Call-IsGone i g _ v (given_back g' ptr caller phys r e) =
    elim (gwp_asan_free-cases g ptr caller r phys g' e) [
      | inl (slots, _, _, on) ↦ record {
        gone = ap (λ f. is_freed (f i)) slots ∙ v.gone;
        on = on ∙ v.on;
      }
      | inr (j, h, _, _, _, dropped) ↦
          subst (IsGone i) (sym dropped) (drop_slot-IsGone i j g caller v)
    ]
Call-IsGone i g _ v (reported g' addr k e) = record {
  gone = ground (arith, e, v.gone);
  on = ground (arith, e, v.on);
}

Later-IsGone : (i : ℕ) (g g' : Guarded) → Reach g → IsGone i g → Later g g' → Reach g' × IsGone i g'
Later-IsGone i g _ run v now = (run, v)
Later-IsGone i g g' run v (after {h} calls call) =
    let (run', v') = Later-IsGone i g h run v calls in
    (Call-Reach h g' run' call, Call-IsGone i h g' v' call)

-- What is in the page of a slot that was used up.
gone-IsCaught :
    (g : Guarded) (i ptr size x later : ℕ)
    → IsGuarded g
    → IsGone i g
    → i < gwp_asan_slots
    → 0 < size
    → size < page_size
    → ptr ≡ place (slot_data_page i) size
    → x < size
    → (g.mapped (page_of (ptr + x)) ≡ 0)
      × (fault_of g (ptr + x) ≡ use_after_free i)
      × (gwp_asan_free g ptr later ≡ (panicked, 0, record g { stat_uaf = to_u64 (g.stat_uaf + 1) }))
unfolding gwp_asan_free gwp_asan_is_managed gwp_asan_check_fault
gone-IsCaught g i ptr size x later ok v h pos few at byte =
    let eq = slot_data_page-eq i in
    let (lo, up, _, _, above, below) = place-IsInside i size h pos few in
    let here : page_of (ptr + x) ≡ slot_data_page i = omega (arith, at, eq, lo, up, byte) in
    let slot : (ptr + x - gwp_virt_base) / slot_stride ≡ i = omega (arith, at, eq, lo, up, byte) in
    let inactive : is_active (g.slots i) ≡ false = ground (arith, v.gone) in
    let nobody = find_nobody g ptr (λ j hj a same.
      let (pj, pos_j, few_j) = ok.placed j hj a in
      let (lo_j, up_j, _, _, _, _) = place-IsInside j (g.slots j).user_size hj pos_j few_j in
      let one : i ≡ j =
        omega (arith, at, lo, up, same, pj, lo_j, up_j, pos, pos_j, eq, slot_data_page-eq j) in
      ground (arith, inactive, a, ap g.slots one)) in
    (
      ap g.mapped here ∙ ok.unmapped i h inactive,
      ground (arith, v.on, v.gone, slot, ap g.slots slot, at, lo, up, byte, eq, above, below),
      ground (arith, at, above, below, nobody),
    )

-- In a run of an initialised allocator, `gwp_asan_free` on a live object gives back the frame behind it.
-- From then on, whatever calls follow, nothing is mapped at any of its bytes, an access to one is
-- reported as a use after free of the slot, and a second `gwp_asan_free` of it panics.
pub freed-IsCaught :
    (g g' : Guarded) (i caller x later : ℕ)
    → Reach g
    → g.initialized ≡ true
    → i < gwp_asan_slots
    → is_active (g.slots i) ≡ true
    → x < (g.slots i).user_size
    → Later (drop_slot g i caller) g'
    → let ptr = (g.slots i).user_ptr in
      (gwp_asan_free g ptr caller ≡ (freed, g.mapped (slot_data_page i), drop_slot g i caller))
      × (0 < g.mapped (slot_data_page i))
      × (g'.mapped (page_of (ptr + x)) ≡ 0)
      × (fault_of g' (ptr + x) ≡ use_after_free i)
      × (gwp_asan_free g' ptr later
          ≡ (panicked, 0, record g' { stat_uaf = to_u64 (g'.stat_uaf + 1) }))
freed-IsCaught g g' i caller x later run on h active byte calls =
    let ok = Reach-IsGuarded g run in
    let ptr = (g.slots i).user_ptr in
    let (at, pos, few) = ok.placed i h active in
    let done = free_live g i caller ok h active in
    let run1 =
      frees g (drop_slot g i caller) ptr caller (g.mapped (slot_data_page i)) freed run done in
    let (run', gone) =
      Later-IsGone i (drop_slot g i caller) g' run1 (dropped-IsGone i g caller on) calls in
    let (unmapped, fault, again) =
      gone-IsCaught g' i ptr (g.slots i).user_size x later (Reach-IsGuarded g' run') gone h pos few
        at byte in
    (done, ok.backed i h active, unmapped, fault, again)
