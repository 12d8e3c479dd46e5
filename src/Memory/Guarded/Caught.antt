-- ===== src/Memory/Guarded/Caught.antt =====
-- gwp_asan.cpp: the faults that the guarded allocator reports.
use singularity.Common.{
  ℕ, ◌+◌, ◌-◌, ◌/◌, ◌%◌, ◌<◌, ◌≡◌, ◌≢◌, true, none, some, arith, Option-cases, inl, inr, ap, ◌∙◌,
}
use singularity.Memory.Arena.{page_size}
use singularity.Memory.Guarded.{
  Guarded, gwp_asan_slots, gwp_virt_base, is_active, holds, find_slot, slot_data_page, slot_stride,
  gwp_asan_check_fault, Fault, buffer_overflow, buffer_underflow,
}
use singularity.Memory.Guarded.Place.{slot_data_page-eq, place-IsInside}
use singularity.Memory.Guarded.Search.{find_slot-first, find_slot-none}
use singularity.Memory.Guarded.Sound.{IsGuarded}

abbrev pub page_of : ℕ → ℕ
page_of x = x - x % page_size

abbrev pub fault_of : Guarded → ℕ → Fault
fault_of g x = let (k, _) = gwp_asan_check_fault g x in k

-- The objects of two active slots are in different pages.
owner_unique :
    (g : Guarded) (i j : ℕ)
    → IsGuarded g
    → i < gwp_asan_slots
    → j < gwp_asan_slots
    → is_active (g.slots i) ≡ true
    → is_active (g.slots j) ≡ true
    → (g.slots i).user_ptr ≡ (g.slots j).user_ptr
    → i ≡ j
owner_unique g i j ok hi hj ai aj same =
    let (pi, pos_i, few_i) = ok.placed i hi ai in
    let (pj, pos_j, few_j) = ok.placed j hj aj in
    let (lo_i, up_i, _, _, _, _) = place-IsInside i (g.slots i).user_size hi pos_i few_i in
    let (lo_j, up_j, _, _, _, _) = place-IsInside j (g.slots j).user_size hj pos_j few_j in
    omega (arith, slot_data_page-eq i, slot_data_page-eq j)

-- The loop of `gwp_asan_free` finds the slot of a live object.
pub find_owner :
    (g : Guarded) (i : ℕ)
    → IsGuarded g
    → i < gwp_asan_slots
    → is_active (g.slots i) ≡ true
    → find_slot (holds (g.slots i).user_ptr) g.slots gwp_asan_slots 0 ≡ some i
find_owner g i ok h active =
    let ptr = (g.slots i).user_ptr in
    elim (Option-cases (find_slot (holds ptr) g.slots gwp_asan_slots 0)) [
      | inl miss ↦
          ground (arith, active, find_slot-none (holds ptr) g.slots gwp_asan_slots 0 miss i)
      | inr (j, hit) ↦
          let (_, hj, passes, _) = find_slot-first (holds ptr) g.slots gwp_asan_slots 0 j hit in
          hit
          ∙ ap some
              (owner_unique g j i ok hj h (ground (arith, passes)) active (ground (arith, passes)))
    ]

-- What is in no active slot's place is found by nobody.
pub find_nobody :
    (g : Guarded) (ptr : ℕ)
    → ((j : ℕ) → j < gwp_asan_slots → is_active (g.slots j) ≡ true → (g.slots j).user_ptr ≢ ptr)
    → find_slot (holds ptr) g.slots gwp_asan_slots 0 ≡ none
find_nobody g ptr apart = elim (Option-cases (find_slot (holds ptr) g.slots gwp_asan_slots 0)) [
  | inl miss ↦ miss
  | inr (j, hit) ↦
      let (_, hj, passes, _) = find_slot-first (holds ptr) g.slots gwp_asan_slots 0 j hit in
      absurd (apart j hj (ground (arith, passes)) (ground (arith, passes)))
]

-- In an initialised allocator, the pages before and after a live object are mapped to nothing, and an
-- access to them is reported as an underflow or an overflow of the slot.
pub beside-IsCaught :
    (g : Guarded) (i x : ℕ)
    → IsGuarded g
    → g.initialized ≡ true
    → i < gwp_asan_slots
    → is_active (g.slots i) ≡ true
    → x < page_size
    → (g.mapped (page_of (slot_data_page i + page_size + x)) ≡ 0)
      × (fault_of g (slot_data_page i + page_size + x) ≡ buffer_overflow i)
      × (g.mapped (page_of (slot_data_page i - page_size + x)) ≡ 0)
      × (fault_of g (slot_data_page i - page_size + x) ≡ buffer_underflow i)
unfolding gwp_asan_check_fault
beside-IsCaught g i x ok on h active few =
    let eq = slot_data_page-eq i in
    let after : (slot_data_page i + page_size + x - gwp_virt_base) / slot_stride ≡ i =
      omega (arith, eq) in
    let before : (slot_data_page i - page_size + x - gwp_virt_base) / slot_stride ≡ i =
      omega (arith, eq) in
    (
      ok.guards (page_of (slot_data_page i + page_size + x))
          (λ j hj e. omega (arith, e, eq, slot_data_page-eq j)),
      ground (arith, on, active, eq, after, ap g.slots after),
      ok.guards (page_of (slot_data_page i - page_size + x))
          (λ j hj e. omega (arith, e, eq, slot_data_page-eq j)),
      ground (arith, on, active, eq, before, ap g.slots before),
    )
