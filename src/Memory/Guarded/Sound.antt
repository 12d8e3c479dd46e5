-- ===== src/Memory/Guarded/Sound.antt =====
-- gwp_asan.cpp: what is mapped, over every run of the guarded allocator.
use singularity.Common.{ℕ, ◌<◌, ◌≡◌, ◌≢◌, Bool, true, false, arith, inl, inr, sym, subst}
use singularity.Memory.Arena.{page_size}
use singularity.Memory.Guarded.{
  Guarded, gwp_asan_slots, slot_data_page, place, is_active, fill_slot, drop_slot, gwp_asan_init,
  gwp_asan_should_sample, gwp_asan_malloc, gwp_asan_free, gwp_asan_check_fault, Freed, Fault,
}
use singularity.Memory.Guarded.Place.{slot_data_page-eq}
use singularity.Memory.Guarded.Outcome.{gwp_asan_malloc-cases, gwp_asan_free-cases}

-- An active slot has its object in place and a frame behind its page; nothing else is mapped, not the
-- pages on both sides of an object and not the page of an object that was freed.
pub record IsGuarded (g : Guarded) : Type 0 where
  pub placed :
      (i : ℕ)
      → i < gwp_asan_slots
      → is_active (g.slots i) ≡ true
      → ((g.slots i).user_ptr ≡ place (slot_data_page i) (g.slots i).user_size)
        × (0 < (g.slots i).user_size)
        × ((g.slots i).user_size < page_size)
  pub backed :
      (i : ℕ) → i < gwp_asan_slots → is_active (g.slots i) ≡ true → 0 < g.mapped (slot_data_page i)
  pub unmapped :
      (i : ℕ) → i < gwp_asan_slots → is_active (g.slots i) ≡ false → g.mapped (slot_data_page i) ≡ 0
  pub guards : (a : ℕ) → ((i : ℕ) → i < gwp_asan_slots → a ≢ slot_data_page i) → g.mapped a ≡ 0

-- A run from `gwp_asan_init` on, with no page mapped before. The frame of an allocation is any.
pub data Reach : Guarded → Type 0 where
  start : (g : Guarded) → ((a : ℕ) → g.mapped a ≡ 0) → g.stat_sampled ≡ 0 → Reach (gwp_asan_init g)
  samples : (g g' : Guarded) (b : Bool) → Reach g → gwp_asan_should_sample g ≡ (b, g') → Reach g'
  allocates :
      (g g' : Guarded) (phys size caller ptr : ℕ)
      → Reach g
      → gwp_asan_malloc g phys size caller ≡ (ptr, g')
      → Reach g'
  frees :
      (g g' : Guarded) (ptr caller phys : ℕ) (r : Freed)
      → Reach g
      → gwp_asan_free g ptr caller ≡ (r, phys, g')
      → Reach g'
  faults :
      (g g' : Guarded) (addr : ℕ) (k : Fault)
      → Reach g
      → gwp_asan_check_fault g addr ≡ (k, g')
      → Reach g'

pub pages_apart : (i j : ℕ) → slot_data_page i ≡ slot_data_page j → i ≡ j
pages_apart i j e = omega (arith, e, slot_data_page-eq i, slot_data_page-eq j)

pub fill_slot-IsGuarded :
    (g : Guarded) (j phys size caller : ℕ)
    → IsGuarded g
    → j < gwp_asan_slots
    → 0 < phys
    → 0 < size
    → size < page_size
    → IsGuarded (fill_slot g j phys size caller)
unfolding fill_slot
fill_slot-IsGuarded g j phys size caller ok h frame pos few = record {
  placed = λ i b a. ground (arith, ok.placed i);
  backed = λ i b a. ground (arith, ok.backed i, pages_apart j i);
  unmapped = λ i b a. ground (arith, ok.unmapped i, pages_apart j i);
  guards = λ a apart. ground (arith, ok.guards a, apart j);
}

pub drop_slot-IsGuarded :
    (g : Guarded) (j caller : ℕ)
    → IsGuarded g
    → j < gwp_asan_slots
    → IsGuarded (drop_slot g j caller)
unfolding drop_slot
drop_slot-IsGuarded g j caller ok h = record {
  placed = λ i b a. ground (arith, ok.placed i);
  backed = λ i b a. ground (arith, ok.backed i, pages_apart j i);
  unmapped = λ i b a. ground (arith, ok.unmapped i, pages_apart j i);
  guards = λ a apart. ground (arith, ok.guards a, apart j);
}

-- What the invariant reads.
same-IsGuarded :
    (g g' : Guarded) → IsGuarded g → g'.slots ≡ g.slots → g'.mapped ≡ g.mapped → IsGuarded g'
same-IsGuarded g g' ok slots mapped = record {
  placed =
      subst
        (λ s.
          (i : ℕ)
          → i < gwp_asan_slots
          → is_active (s i) ≡ true
          → ((s i).user_ptr ≡ place (slot_data_page i) (s i).user_size)
            × (0 < (s i).user_size)
            × ((s i).user_size < page_size))
        (sym slots) ok.placed;
  backed = λ i b a. ground (arith, slots, mapped, ok.backed i);
  unmapped = λ i b a. ground (arith, slots, mapped, ok.unmapped i);
  guards = λ a apart. ground (arith, mapped, ok.guards a apart);
}

-- Whatever is allocated, freed and reported, nothing is mapped but the pages of the live objects.
pub Reach-IsGuarded : (g : Guarded) → Reach g → IsGuarded g
unfolding gwp_asan_init gwp_asan_should_sample gwp_asan_check_fault
Reach-IsGuarded _ (start g unmapped _) = record {
  placed = λ i b a. ground arith;
  backed = λ i b a. ground arith;
  unmapped = λ i b a. unmapped (slot_data_page i);
  guards = λ a apart. unmapped a;
}
Reach-IsGuarded _ (samples g g' b run e) =
    same-IsGuarded g g' (Reach-IsGuarded g run) (ground (arith, e)) (ground (arith, e))
Reach-IsGuarded _ (allocates g g' phys size caller ptr run e) =
    elim (gwp_asan_malloc-cases g phys size caller ptr g' e) [
      | inl (_, same) ↦ subst IsGuarded (sym same) (Reach-IsGuarded g run)
      | inr (j, h, _, frame, pos, few, _, filled) ↦
          subst IsGuarded (sym filled)
            (fill_slot-IsGuarded g j phys size caller (Reach-IsGuarded g run) h frame pos few)
    ]
Reach-IsGuarded _ (frees g g' ptr caller phys r run e) =
    elim (gwp_asan_free-cases g ptr caller r phys g' e) [
      | inl (slots, mapped, _, _) ↦ same-IsGuarded g g' (Reach-IsGuarded g run) slots mapped
      | inr (j, h, _, _, _, dropped) ↦
          subst IsGuarded (sym dropped) (drop_slot-IsGuarded g j caller (Reach-IsGuarded g run) h)
    ]
Reach-IsGuarded _ (faults g g' addr k run e) =
    same-IsGuarded g g' (Reach-IsGuarded g run) (ground (arith, e)) (ground (arith, e))
