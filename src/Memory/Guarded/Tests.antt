-- ===== src/Memory/Guarded/Tests.antt =====
-- A guarded allocator with one object of 100 bytes.
use singularity.Common.{ℕ, ◌+◌, ◌-◌, ◌<◌, ◌≡◌, ◌⊎◌, refl, false, arith}
use singularity.Memory.Arena.{page_size, to_u64}
use singularity.Memory.Guarded.{
  Guarded, no_slot, gwp_asan_slots, gwp_asan_init, gwp_asan_malloc, gwp_asan_free, find_slot,
  fill_slot, drop_slot, place, slot_base, slot_data_page, freed, panicked, use_after_free,
  buffer_overflow, buffer_underflow,
}
use singularity.Memory.Guarded.Sound.{Reach, start, allocates, IsGuarded, Reach-IsGuarded}
use singularity.Memory.Guarded.Exhausted.{free_slots, Reach-IsExhausted}
use singularity.Memory.Guarded.Caught.{page_of, fault_of, beside-IsCaught}
use singularity.Memory.Guarded.Later.{Later, now, after, allocated, freed-IsCaught}

abbrev blank : Guarded
blank = record {
  slots = λ _. no_slot;
  initialized = false;
  sample_counter = 0;
  stat_sampled = 0;
  stat_overflows = 0;
  stat_uaf = 0;
  mapped = λ _. 0;
  memory = record { byte = λ _. 0 };
}

abbrev one : Guarded
one = fill_slot (gwp_asan_init blank) 0 0x5000 100 7

abbrev object : ℕ
object = 0xffff_b000_0000_1f98

one-made : gwp_asan_malloc (gwp_asan_init blank) 0x5000 100 7 ≡ (object, one)
unfolding gwp_asan_malloc gwp_asan_init find_slot place slot_data_page slot_base
one-made = refl

one-Reach : Reach one
one-Reach =
    allocates (gwp_asan_init blank) one 0x5000 100 7 object (start blank (λ a. refl) refl) one-made

Reach-IsGuarded_example : IsGuarded one
Reach-IsGuarded_example = Reach-IsGuarded one one-Reach

Reach-IsExhausted_example :
    (free_slots one + one.stat_sampled ≡ gwp_asan_slots)
    × ((gwp_asan_malloc one 0x6000 8 7 ≡ (0, one)) ⊎ (one.stat_sampled < gwp_asan_slots))
Reach-IsExhausted_example = Reach-IsExhausted one 0x6000 8 7 one-Reach

beside-IsCaught_example :
    (one.mapped (page_of (slot_data_page 0 + page_size + 8)) ≡ 0)
    × (fault_of one (slot_data_page 0 + page_size + 8) ≡ buffer_overflow 0)
    × (one.mapped (page_of (slot_data_page 0 - page_size + 8)) ≡ 0)
    × (fault_of one (slot_data_page 0 - page_size + 8) ≡ buffer_underflow 0)
unfolding fill_slot gwp_asan_init
beside-IsCaught_example =
    beside-IsCaught one 0 8 (Reach-IsGuarded one one-Reach) refl (omega arith) refl (omega arith)

-- The object is freed, and another one is allocated.
abbrev gone : Guarded
gone = drop_slot one 0 9

abbrev other : Guarded
other = fill_slot gone 1 0x6000 50 8

other-made : gwp_asan_malloc gone 0x6000 50 8 ≡ (0xffff_b000_0000_4fc8, other)
unfolding gwp_asan_malloc gwp_asan_init find_slot place slot_data_page slot_base fill_slot drop_slot
other-made = refl

other-Later : Later gone other
other-Later = after now (allocated other 0x6000 50 8 0xffff_b000_0000_4fc8 other-made)

freed-IsCaught_example :
    (gwp_asan_free one object 9 ≡ (freed, one.mapped (slot_data_page 0), gone))
    × (0 < one.mapped (slot_data_page 0))
    × (other.mapped (page_of (object + 99)) ≡ 0)
    × (fault_of other (object + 99) ≡ use_after_free 0)
    × (gwp_asan_free other object 11
        ≡ (panicked, 0, record other { stat_uaf = to_u64 (other.stat_uaf + 1) }))
unfolding fill_slot gwp_asan_init place slot_data_page slot_base
freed-IsCaught_example =
    freed-IsCaught one other 0 9 99 11 one-Reach refl (omega arith) refl (omega arith) other-Later
