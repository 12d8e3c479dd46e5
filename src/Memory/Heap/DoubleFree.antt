-- ===== src/Memory/Heap/DoubleFree.antt =====
-- kheap.cpp: `free` of a block that was freed before.
use singularity.Common.{
  ℕ, ◌+◌, ◌-◌, ◌%◌, ◌^◌, ◌≤◌, ◌<◌, ◌≡◌, Bool, true, false, some, arith, leb, ap, ◌∙◌, inl, inr, ◌⊎◌,
  bit_xor,
}
use singularity.Memory.Slab
use singularity.Memory.Slab.{Store, Slab, header_size, slab_of, slab_pages}
use singularity.Memory.Words.{
  Memory, load, store, fill, load-Agree, load-store, store-Agree, fill-Agree,
}
use singularity.Memory.Heap.{
  KernelHeap, bucket, free, release, kheap_start, kheap_end, freed, panicked, double_free, corrupt,
  get_bucket_index,
}
use singularity.Memory.Heap.Blocks.{HasHeader, free-eq, user_size}

-- `SlabCache::free` writes the first word of the object or nothing.
slab_free-memory :
    (t : Store) (ptr : ℕ)
    → ((Slab.free t ptr).1.memory
        ≡ store t.memory ptr (t.slabs (slab_of t.cache.obj_size ptr)).free_list)
      ⊎ ((Slab.free t ptr).1.memory ≡ t.memory)
unfolding Slab.free
slab_free-memory t ptr = ground arith

module _ (magic canary : ℕ) (magic_word : magic < 2 ^ 64) (canary_word : canary < 2 ^ 64)
    (is_managed : ℕ → Bool) (h : KernelHeap) (p block_size size i : ℕ) where
  abbrev addr : ℕ
  addr = p + header_size

  -- The memory when the block is marked as free.
  abbrev marked : Memory
  marked = store (fill h.memory addr 0xbd size) p (block_size + 2 ^ 63)

  -- The head of the free list of the slab that the block is in.
  abbrev pub list_head : ℕ
  list_head = (h.slabs (slab_of (h.buckets i).obj_size p)).free_list

  marked_words :
      block_size < 2 ^ 63
      → (load marked p ≡ block_size + 2 ^ 63) × (load marked (p + 8) ≡ load h.memory (p + 8))
  marked_words b =
      let poisoned = fill h.memory addr 0xbd size in
      (
        load-store poisoned p (block_size + 2 ^ 63) (omega arith),
        load-Agree poisoned marked (p + 8)
              (store-Agree poisoned p (block_size + 2 ^ 63) (p + 8) 8 (inr (omega arith)))
            ∙ load-Agree h.memory poisoned (p + 8)
                (fill-Agree h.memory addr 0xbd size (p + 8) 8 (inl (omega arith))),
      )

  -- After the release the first word is the mark, or the link to the rest of the slab's free list.
  release-words :
      block_size ≤ 4096
      → get_bucket_index block_size ≡ some i
      → list_head < 2 ^ 64
      → let m = (release h addr block_size size).memory in
        ((load m p ≡ block_size + 2 ^ 63) ⊎ (load m p ≡ list_head))
        × (load m (p + 8) ≡ load h.memory (p + 8))
  unfolding release
  release-words small class word =
      let h1 : KernelHeap = record h { memory = marked } in
      let (first, second) = marked_words (omega arith) in
      let back : addr - header_size ≡ p = omega arith in
      let fits : leb block_size 4096 ≡ true = ground arith in
      rw (fits) (
        rw (class, back)
          (elim (slab_free-memory (bucket h1 i) p) [
            | inl linked ↦ (
              inr (ap (λ (m : Memory). load m p) linked ∙ load-store marked p list_head word),
              ap (λ (m : Memory). load m (p + 8)) linked
                  ∙ load-Agree marked (store marked p list_head) (p + 8)
                      (store-Agree marked p list_head (p + 8) 8 (inr (omega arith)))
                  ∙ second,
            )
            | inr same ↦ (
              inl (ap (λ (m : Memory). load m p) same ∙ first),
              ap (λ (m : Memory). load m (p + 8)) same ∙ second,
            )
          ]))

  -- What `free` does with a block whose words look like that.
  free_again :
      (h' : KernelHeap)
      → (kheap_start ≤ addr) × (addr ≤ kheap_end)
      → p % 8 ≡ 0
      → is_managed addr ≡ false
      → 0 < size
      → bit_xor (load h'.memory (p + 8)) magic ≡ size
      → (load h'.memory p ≡ 0) ⊎ (2 ^ 63 ≤ load h'.memory p)
      → (free magic canary is_managed h' addr ≡ panicked double_free)
        ⊎ (free magic canary is_managed h' addr ≡ panicked corrupt)
  unfolding free
  free_again h' inside aligned ours pos sized (inl null) =
      inr
        (let back : addr - header_size ≡ p = omega arith in ground (arith, back, ours, null, sized))
  free_again h' inside aligned ours pos sized (inr high) =
      inl
        (let back : addr - header_size ≡ p = omega arith in ground (arith, back, ours, high, sized))

  -- A block of a class with a whole header was freed without a panic. If the free list of its slab
  -- began with null or with an address of the upper half, freeing the block again, with nothing done
  -- in between, stops the kernel: the mark in bit 63 was overwritten by the list's link, but the link
  -- is either such an address itself, or 0, which is smaller than the size of the request.
  pub free-twice :
      (h' : KernelHeap)
      → HasHeader magic h.memory p block_size size
      → 0 < size
      → size ≤ block_size
      → block_size ≤ 4096
      → get_bucket_index block_size ≡ some i
      → list_head < 2 ^ 64
      → (list_head ≡ 0) ⊎ (2 ^ 63 ≤ list_head)
      → kheap_start ≤ addr
      → addr ≤ kheap_end
      → p % 8 ≡ 0
      → is_managed addr ≡ false
      → free magic canary is_managed h addr ≡ freed h'
      → (free magic canary is_managed h' addr ≡ panicked double_free)
        ⊎ (free magic canary is_managed h' addr ≡ panicked corrupt)
  free-twice h' at pos fits small class word head lo hi aligned ours done =
      let first =
        free-eq magic canary magic_word canary_word is_managed h p block_size size at fits
          (omega arith) (lo, hi) aligned ours in
      let released : h' ≡ release h addr block_size size = ground (arith, first, done) in
      let (link, kept) = release-words small class word in
      let sized : bit_xor (load h'.memory (p + 8)) magic ≡ size =
        ap (λ (k : KernelHeap). bit_xor (load k.memory (p + 8)) magic) released
        ∙ ap (λ w. bit_xor w magic) kept
        ∙ user_size magic canary magic_word canary_word is_managed h p block_size size at fits
            (omega arith) (lo, hi) aligned ours in
      let now = ap (λ (k : KernelHeap). load k.memory p) released in
      free_again h' (lo, hi) aligned ours pos sized
        (elim link [
          | inl mark ↦ inr (omega (arith, now, mark))
          | inr next ↦ elim head [
            | inl null ↦ inl (now ∙ next ∙ null)
            | inr high ↦ inr (omega (arith, now, next, high))
          ]
        ])
