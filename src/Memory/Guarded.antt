-- ===== src/Memory/Guarded.antt =====
-- system/security/gwp_asan.cpp and gwp_asan.h: the guarded allocator. A slot is three pages; the one in
-- the middle holds an object at its right end, the others are never mapped. The array `g_slots` is a
-- function of the index; what is mapped behind a page is a function too.
pub mod Place
pub mod Search
pub mod Outcome
pub mod Sound
pub mod Exhausted
pub mod Caught
pub mod Later
mod Tests
use singularity.Common.{
  ℕ, zero, suc, ◌+◌, ◌-◌, ◌*◌, ◌/◌, ◌%◌, ◌^◌, Bool, true, false, not, ◌&&◌, ◌||◌, Option, none,
  some, bit_and, ◌==◌, ltb, leb, if◌then◌else◌, update,
}
use singularity.Memory.Arena.{page_size, to_u32, to_u64}
use singularity.Memory.Words.{Memory, fill}

abbrev pub gwp_asan_slots : ℕ
gwp_asan_slots = 64

abbrev pub gwp_asan_sample_rate : ℕ
gwp_asan_sample_rate = 16

abbrev pub gwp_virt_base : ℕ
gwp_virt_base = 0xffff_b000_0000_0000

-- The limit is that of slots of four pages.
abbrev pub gwp_virt_limit : ℕ
gwp_virt_limit = gwp_virt_base + gwp_asan_slots * 4 * page_size

abbrev pub slot_stride : ℕ
slot_stride = 3 * page_size

pub data GwpSlotState : Type 0 where
  gwp_slot_free gwp_slot_active gwp_slot_freed : GwpSlotState

pub record GwpSlot : Type 0 where
  pub user_ptr : ℕ
  pub page_base : ℕ
  pub user_size : ℕ
  pub alloc_caller : ℕ
  pub free_caller : ℕ
  pub state : GwpSlotState

-- `mapped` gives the frame behind a page of the slots, 0 for none.
pub record Guarded : Type 0 where
  pub slots : ℕ → GwpSlot
  pub initialized : Bool
  pub sample_counter : ℕ
  pub stat_sampled : ℕ
  pub stat_overflows : ℕ
  pub stat_uaf : ℕ
  pub mapped : ℕ → ℕ
  pub memory : Memory

unfoldable pub slot_base : ℕ → ℕ
slot_base idx = gwp_virt_base + idx * slot_stride

unfoldable pub slot_data_page : ℕ → ℕ
slot_data_page idx = slot_base idx + page_size

abbrev pub no_slot : GwpSlot
no_slot = record {
  user_ptr = 0;
  page_base = 0;
  user_size = 0;
  alloc_caller = 0;
  free_caller = 0;
  state = gwp_slot_free;
}

unfoldable pub gwp_asan_init : Guarded → Guarded
gwp_asan_init g = record g { slots = λ _. no_slot; initialized = true }

unfoldable pub gwp_asan_should_sample : Guarded → Bool × Guarded
gwp_asan_should_sample g = if not g.initialized then (false, g) else (
  g.sample_counter % gwp_asan_sample_rate == 0,
  record g { sample_counter = to_u32 (g.sample_counter + 1) },
)

unfoldable pub gwp_asan_is_managed : ℕ → Bool
gwp_asan_is_managed addr = leb gwp_virt_base addr && ltb addr gwp_virt_limit

abbrev pub is_free : GwpSlot → Bool
is_free s = elim s.state [ gwp_slot_free ↦ true | _ ↦ false ]

abbrev pub is_active : GwpSlot → Bool
is_active s = elim s.state [ gwp_slot_active ↦ true | _ ↦ false ]

abbrev pub is_freed : GwpSlot → Bool
is_freed s = elim s.state [ gwp_slot_freed ↦ true | _ ↦ false ]

-- The loops that look for a slot: the first of the `n` slots from `i` on that passes the test.
unfoldable pub find_slot : (GwpSlot → Bool) → (ℕ → GwpSlot) → ℕ → ℕ → Option ℕ
find_slot test slots zero i = none
find_slot test slots (suc n) i =
    let rest = find_slot test slots n (i + 1) in if test (slots i) then some i else rest

-- Where an object of a size lies in the page at `data_virt`.
unfoldable pub place : ℕ → ℕ → ℕ
place data_virt size =
    let user_virt = bit_and (data_virt + page_size - size) (2 ^ 64 - 8) in
    if ltb user_virt data_virt then data_virt else user_virt

-- The slot that `gwp_asan_malloc` fills once it has the frame `phys`.
unfoldable pub fill_slot : Guarded → ℕ → ℕ → ℕ → ℕ → Guarded
fill_slot g slot phys size caller =
    let data_virt = slot_data_page slot in
    record g {
      slots = update g.slots slot (record {
        user_ptr = place data_virt size;
        page_base = slot_base slot;
        user_size = size;
        alloc_caller = caller;
        free_caller = 0;
        state = gwp_slot_active;
      });
      mapped = update g.mapped data_virt phys;
      memory = fill g.memory data_virt 0 page_size;
      stat_sampled = to_u64 (g.stat_sampled + 1);
    }

-- `phys` is what `pmm_alloc_frame` returns, 0 when there is no frame.
unfoldable pub gwp_asan_malloc : Guarded → ℕ → ℕ → ℕ → ℕ × Guarded
gwp_asan_malloc g phys size caller =
    if not g.initialized || (size == 0 || leb page_size size)
    then (0, g)
    else elim (find_slot is_free g.slots gwp_asan_slots 0) [
      | none ↦ (0, g)
      | some slot ↦
          if phys == 0
          then (0, g)
          else (place (slot_data_page slot) size, fill_slot g slot phys size caller)
    ]

-- `panicked` for `panic_at`, after which nothing runs.
pub data Freed : Type 0 where
  foreign panicked freed : Freed

abbrev pub holds : ℕ → GwpSlot → Bool
holds ptr s = is_active s && (s.user_ptr == ptr)

-- What `gwp_asan_free` does to the slot it found.
unfoldable pub drop_slot : Guarded → ℕ → ℕ → Guarded
drop_slot g slot caller =
    let data_virt = slot_data_page slot in
    record g {
      slots =
          update g.slots slot
            (record (g.slots slot) { free_caller = caller; state = gwp_slot_freed });
      mapped = update g.mapped data_virt 0;
      memory = fill g.memory data_virt 0xde page_size;
    }

-- With the result, the frame that goes back to `pmm_free_frame`, 0 for none.
unfoldable pub gwp_asan_free : Guarded → ℕ → ℕ → Freed × ℕ × Guarded
gwp_asan_free g ptr caller =
    if not (gwp_asan_is_managed ptr)
    then (foreign, 0, g)
    else elim (find_slot (holds ptr) g.slots gwp_asan_slots 0) [
      | none ↦ (panicked, 0, record g { stat_uaf = to_u64 (g.stat_uaf + 1) })
      | some slot ↦ (freed, g.mapped (slot_data_page slot), drop_slot g slot caller)
    ]

-- What `gwp_asan_check_fault` panics about, with the slot. `not_ours` is its `return false`.
pub data Fault : Type 0 where
  not_ours : Fault
  use_after_free buffer_overflow buffer_underflow guard_page_violation unallocated : ℕ → Fault

unfoldable pub gwp_asan_check_fault : Guarded → ℕ → Fault × Guarded
gwp_asan_check_fault g fault_addr =
    let offset = fault_addr - gwp_virt_base in
    let slot = offset / slot_stride in
    let in_slot = offset % slot_stride in
    let kind =
      if leb (2 * page_size) in_slot
      then buffer_overflow slot
      else if ltb in_slot page_size
      then buffer_underflow slot
      else guard_page_violation slot in
    if not g.initialized
    then (not_ours, g)
    else if ltb fault_addr gwp_virt_base || leb gwp_virt_limit fault_addr
    then (not_ours, g)
    else if leb gwp_asan_slots slot
    then (not_ours, g)
    else elim (g.slots slot).state [
      | gwp_slot_freed ↦ (use_after_free slot, record g { stat_uaf = to_u64 (g.stat_uaf + 1) })
      | gwp_slot_active ↦ (kind, record g { stat_overflows = to_u64 (g.stat_overflows + 1) })
      | gwp_slot_free ↦ (unallocated slot, g)
    ]
