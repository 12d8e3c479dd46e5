-- ===== src/Memory/Guarded/Place.antt =====
-- gwp_asan.cpp: where an object lies in its page, and that the pages of the slots are apart.
use singularity.Common.{ℕ, ◌+◌, ◌-◌, ◌*◌, ◌/◌, ◌%◌, ◌^◌, ◌≤◌, ◌<◌, ◌≡◌, arith, bit_and}
use singularity.Common.Bits.{bit_and_step, bit_and-low_mask}
use singularity.Memory.Arena.{page_size}
use singularity.Memory.Guarded.{
  gwp_virt_base, gwp_virt_limit, gwp_asan_slots, slot_stride, slot_base, slot_data_page, place,
}

-- `x & ~7`
clear_low : (x : ℕ) → x < 2 ^ 64 → bit_and x (2 ^ 64 - 8) ≡ x - x % 8
clear_low x word =
    let m : ℕ = 2 ^ 64 - 8 in
    omega (
      arith,
      bit_and_step x m,
      bit_and_step (x / 2) (m / 2),
      bit_and_step (x / 2 / 2) (m / 2 / 2),
      bit_and-low_mask 61 (x / 2 / 2 / 2) (omega arith),
    )

pub slot_data_page-eq : (i : ℕ) → slot_data_page i ≡ gwp_virt_base + page_size + i * slot_stride
unfolding slot_data_page slot_base
slot_data_page-eq i = omega arith

-- An object lies in the page of its slot, at a multiple of 8, and ends less than 8 bytes before the
-- page's end: a write 8 bytes past the object is in the page that is never mapped. Its address is one
-- that `gwp_asan_is_managed` accepts.
pub place-IsInside :
    (i size : ℕ)
    → i < gwp_asan_slots
    → 0 < size
    → size < page_size
    → (slot_data_page i ≤ place (slot_data_page i) size)
      × (place (slot_data_page i) size + size ≤ slot_data_page i + page_size)
      × (slot_data_page i + page_size < place (slot_data_page i) size + size + 8)
      × (place (slot_data_page i) size % 8 ≡ 0)
      × (gwp_virt_base ≤ place (slot_data_page i) size)
      × (place (slot_data_page i) size < gwp_virt_limit)
unfolding place
place-IsInside i size h pos few =
    let d = slot_data_page i in
    let eq = slot_data_page-eq i in
    ground (arith, eq, clear_low (d + page_size - size) (omega (arith, eq)))
