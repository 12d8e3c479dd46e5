-- ===== src/Memory/Heap/Roundtrip.antt =====
-- kheap.cpp: `free` of what `malloc` gave for a small request.
use singularity.Common.{
  ℕ, ◌+◌, ◌-◌, ◌%◌, ◌^◌, ◌≤◌, ◌<◌, ◌≡◌, ◌≢◌, Bool, false, none, some, arith, ◌==◌, if◌then◌else◌,
  ap, ◌∙◌, inl, inr, Bool-cases, sym, Option-cases, subst,
}
use singularity.Memory.Slab
use singularity.Memory.Slab.{Store, header_size, footer_size}
use singularity.Memory.Arena.{to_u64}
use singularity.Memory.Words.{Memory, load, Agree, load-Agree}
use singularity.Memory.Heap.{
  KernelHeap, bucket, with_bucket, stamp, malloc, free, release, kheap_start, kheap_end, freed,
  panicked, overflow, get_bucket_index, bucket_size_of,
}
use singularity.Memory.Heap.Classes.{get_bucket_index-fits, bucket_size-le}
use singularity.Memory.Heap.GivenBack.{IsGivenBack, release-IsGivenBack}
use singularity.Memory.Heap.Blocks.{HasHeader, stamp_lem, free-eq}

-- How `malloc` serves a small request that is not sampled.
record IsSmall (magic canary : ℕ) (backed : Bool) (h h1 : KernelHeap) (size addr : ℕ) : Type 0 where
  idx : ℕ
  p : ℕ
  t : Store
  class : get_bucket_index (size + 24) ≡ some idx
  given : Slab.alloc backed (bucket h idx) ≡ some (p, t)
  place : addr ≡ p + header_size
  state :
      h1
      ≡ with_bucket h idx
          (record t { memory = stamp magic canary t.memory p (bucket_size_of idx) size })

malloc-IsSmall :
    (magic canary : ℕ) (backed : Bool) (h h1 : KernelHeap) (size addr : ℕ)
    → 0 < size
    → size + 24 ≤ 4096
    → malloc magic canary backed none h size ≡ some (addr, h1)
    → addr ≢ 0
    → IsSmall magic canary backed h h1 size addr
unfolding malloc
malloc-IsSmall magic canary backed h h1 size addr pos fits e ne =
    let total : to_u64 (header_size + size + footer_size) ≡ size + 24 = omega arith in
    elim (Option-cases (get_bucket_index (size + 24))) [
      | inl no_class ↦ absurd (ground (arith, total, e, no_class))
      | inr (i, class) ↦ elim (Option-cases (Slab.alloc backed (bucket h i))) [
        | inl fault ↦ absurd (ground (arith, total, e, class, fault))
        | inr ((p, t), given) ↦ elim (Bool-cases (p == 0)) [
          | inl null ↦ absurd (ground (arith, total, e, class, given, null))
          | inr good ↦ record {
            idx = i;
            p = p;
            t = t;
            class = class;
            given = given;
            place = ground (arith, total, e, class, given, good);
            state = ground (arith, total, e, class, given, good);
          }
        ]
      ]
    ]

module _ (magic canary : ℕ) (magic_word : magic < 2 ^ 64) (canary_word : canary < 2 ^ 64) where
  -- A block that `malloc` gave for a small request that was not sampled has the canary after its last
  -- byte. In any heap in which the 16 bytes before it are as they were, `free` of it stops the kernel
  -- with the report of an overflow if the canary is not there any more. If it is, the bytes of the
  -- request are overwritten, the first word of the block is marked, the block is given to
  -- `SlabCache::free` of the bucket of its request's class, and the other buckets are as before. The
  -- pointer must be in the heap's range, aligned, and not one of the guarded allocator.
  pub free-malloc :
      (backed : Bool) (is_managed : ℕ → Bool) (h h1 h2 : KernelHeap) (size addr : ℕ)
      → 0 < size
      → size + 24 ≤ 4096
      → malloc magic canary backed none h size ≡ some (addr, h1)
      → addr ≢ 0
      → addr % 8 ≡ 0
      → kheap_start ≤ addr
      → addr ≤ kheap_end
      → is_managed addr ≡ false
      → Agree h1.memory h2.memory (addr - 16) 16
      → (class : ℕ) × (h3 : KernelHeap) × (get_bucket_index (size + 24) ≡ some class)
        × (load h1.memory (addr + size) ≡ canary)
        × (free magic canary is_managed h2 addr
            ≡ (if load h2.memory (addr + size) == canary then freed h3 else panicked overflow))
        × IsGivenBack class (addr - header_size) size h2 h3
  free-malloc backed is_managed h h1 h2 size addr pos fits e ne aligned lo hi ours untouched =
      let small = malloc-IsSmall magic canary backed h h1 size addr pos fits e ne in
      let p = small.p in
      let (enough, class) = get_bucket_index-fits (size + 24) small.idx small.class in
      let most = bucket_size-le small.idx class in
      let (header, footer) =
        stamp_lem magic canary magic_word canary_word small.t.memory p (bucket_size_of small.idx)
          size (omega arith) (omega arith) in
      let stamped = stamp magic canary small.t.memory p (bucket_size_of small.idx) size in
      let memory : h1.memory ≡ stamped = ap (λ (k : KernelHeap). k.memory) small.state in
      let start : addr - 16 ≡ p = omega (arith, small.place) in
      let same : (a : ℕ) → p ≤ a → a + 8 ≤ p + 16 → load h2.memory a ≡ load stamped a =
        λ a below above.
          load-Agree h1.memory h2.memory a (λ x l r. untouched x (omega arith) (omega arith))
          ∙ ap (λ (m : Memory). load m a) memory in
      let at : HasHeader magic h2.memory p (bucket_size_of small.idx) size = record {
        first = same p (omega arith) (omega arith) ∙ header.first;
        second = same (p + 8) (omega arith) (omega arith) ∙ header.second;
      } in
      let place = small.place in
      (
        small.idx,
        release h2 addr (bucket_size_of small.idx) size,
        small.class,
        ap (λ (m : Memory). load m (addr + size)) memory
            ∙ ap (λ a. load stamped (a + size)) place
            ∙ footer,
        subst
            (λ a. free magic canary is_managed h2 a ≡ (
              if load h2.memory (a + size) == canary
              then freed (release h2 a (bucket_size_of small.idx) size)
              else panicked overflow))
            (sym place)
            (free-eq magic canary magic_word canary_word is_managed h2 p (bucket_size_of small.idx)
              size at (omega arith) (omega arith) (omega (arith, place), omega (arith, place))
              (omega (arith, place)) (ap is_managed (sym place) ∙ ours)),
        subst
            (λ a.
              IsGivenBack small.idx (addr - header_size) size h2
                (release h2 a (bucket_size_of small.idx) size))
            (omega (arith, start, place))
            (release-IsGivenBack small.idx (addr - header_size) size h2 class most),
      )
