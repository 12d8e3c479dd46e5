-- ===== src/Memory/Heap/Blocks.antt =====
-- kheap.cpp: the header and the canary of a block, as `free` finds them.
use singularity.Common.{
  ℕ, ◌+◌, ◌-◌, ◌%◌, ◌^◌, ◌≤◌, ◌<◌, ◌≡◌, Bool, false, arith, ◌==◌, if◌then◌else◌, ap, ◌∙◌, inl,
  bit_xor,
}
use singularity.Common.Bits.{bit_xor_twice, bit_xor-lt}
use singularity.Memory.Slab.{header_size}
use singularity.Memory.Words.{Memory, load, store, load-store, load-Agree, store-Agree}
use singularity.Memory.Heap.{
  KernelHeap, stamp, free, release, kheap_start, kheap_end, freed, panicked, overflow,
}

-- The two words of the header, of a block at `p`.
pub record HasHeader (magic : ℕ) (m : Memory) (p block_size size : ℕ) : Type 0 where
  pub first : load m p ≡ block_size
  pub second : load m (p + 8) ≡ bit_xor size magic

module _ (magic canary : ℕ) (magic_word : magic < 2 ^ 64) (canary_word : canary < 2 ^ 64) where
  -- What `malloc` writes can be read back.
  pub stamp_lem :
      (m : Memory) (p block_size size : ℕ)
      → block_size < 2 ^ 64
      → size < 2 ^ 64
      → let m' = stamp magic canary m p block_size size in
        HasHeader magic m' p block_size size × (load m' (p + header_size + size) ≡ canary)
  unfolding stamp
  stamp_lem m p block_size size b s =
      let m1 = store m p block_size in
      let m2 = store m1 (p + 8) (bit_xor size magic) in
      let m3 = store m2 (p + header_size + size) canary in
      (
        record {
          first =
              load-Agree m2 m3 p
                (store-Agree m2 (p + header_size + size) canary p 8 (inl (omega arith)))
              ∙ load-Agree m1 m2 p
                  (store-Agree m1 (p + 8) (bit_xor size magic) p 8 (inl (omega arith)))
              ∙ load-store m p block_size b;
          second =
              load-Agree m2 m3 (p + 8)
                (store-Agree m2 (p + header_size + size) canary (p + 8) 8 (inl (omega arith)))
              ∙ load-store m1 (p + 8) (bit_xor size magic) (bit_xor-lt 64 size magic s magic_word);
        },
        load-store m2 (p + header_size + size) canary canary_word,
      )

  module _ (is_managed : ℕ → Bool) (h : KernelHeap) (p block_size size : ℕ)
      (at : HasHeader magic h.memory p block_size size) (fits : size ≤ block_size)
      (unmarked : block_size < 2 ^ 63)
      (inside : (kheap_start ≤ p + header_size) × (p + header_size ≤ kheap_end))
      (aligned : p % 8 ≡ 0) (ours : is_managed (p + header_size) ≡ false) where
    pub user_size : bit_xor (load h.memory (p + 8)) magic ≡ size
    user_size = ap (λ w. bit_xor w magic) at.second ∙ bit_xor_twice size magic

    back : p + header_size - header_size ≡ p
    back = omega arith

    -- `free` looks at a block whose header is whole, and then at the canary alone.
    pub free-eq : free magic canary is_managed h (p + header_size) ≡ (
        if load h.memory (p + header_size + size) == canary
        then freed (release h (p + header_size) block_size size)
        else panicked overflow)
    unfolding free
    free-eq =
        let first = at.first in let second = user_size in ground (arith, back, ours, first, second)
