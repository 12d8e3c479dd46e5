-- ===== src/Memory/Heap/Aligned.antt =====
-- kheap.cpp: `realloc`, aligned blocks, and whole pages for devices.
use singularity.Common.{
  ℕ, ◌+◌, ◌-◌, ◌*◌, ◌/◌, ◌%◌, ◌^◌, ◌<◌, ◌≡◌, ◌≢◌, Bool, not, ◌||◌, Option, none, some, arith, ◌==◌,
  ltb, leb, if◌then◌else◌, ap, ◌∙◌, bit_and, bit_xor,
}
use singularity.Memory.Arena
use singularity.Memory.Arena.{page_size, to_u64, align_up}
use singularity.Memory.Slab.{header_size}
use singularity.Memory.Words.{Memory, load, store, fill, copy, load-store, Agree, load-Agree}
use singularity.Memory.Heap.{
  KernelHeap, malloc, free, Freed, freed, panicked, Panic, vmm_alloc, vmm_alloc_aligned,
}

-- What a call that may free leads to: a pointer with the heap, a read through a null pointer, or a
-- panic.
pub data Outcome : Type 0 where
  gives : ℕ → KernelHeap → Outcome
  faults : Outcome
  stops : Panic → Outcome

abbrev pub of_malloc : Option (ℕ × KernelHeap) → Outcome
of_malloc none = faults
of_malloc (some (p, h)) = gives p h

abbrev pub of_free : ℕ → Freed → Outcome
of_free p (freed h) = gives p h
of_free p (panicked why) = stops why

-- How many pages a request takes.
abbrev pub pages_for : ℕ → ℕ
pages_for size = align_up size page_size / page_size

abbrev pub pointer_size : ℕ
pointer_size = 8

module _ (magic canary : ℕ) where
  -- A pointer of the guarded allocator is copied for the new size.
  unfoldable pub realloc : Bool → Option ℕ → (ℕ → Bool) → KernelHeap → ℕ → ℕ → Outcome
  realloc backed guarded is_managed h ptr new_size =
      let old_user_size = bit_xor (load h.memory (ptr - header_size + 8)) magic in
      let kept =
        if is_managed ptr
        then new_size
        else if ltb old_user_size new_size
        then old_user_size
        else new_size in
      let moved : Outcome = elim (malloc magic canary backed guarded h new_size) [
        | none ↦ faults
        | some (np, h') ↦
            let filled = record h' { memory = copy h'.memory np ptr kept } in
            if np == 0 then gives 0 h' else of_free np (free magic canary is_managed filled ptr)
      ] in
      if ptr == 0
      then of_malloc (malloc magic canary backed guarded h new_size)
      else if new_size == 0
      then of_free 0 (free magic canary is_managed h ptr)
      else moved

  -- `mallocDma`, by whole pages.
  unfoldable pub malloc_dma : Bool → KernelHeap → ℕ → ℕ → ℕ × KernelHeap
  malloc_dma backed h size alignment =
      let alignment' = if ltb alignment page_size then page_size else alignment in
      let pages = pages_for size in
      let (ptr, h') = vmm_alloc_aligned backed h pages (alignment' / page_size) in
      if size == 0 || alignment == 0
      then (0, h)
      else if ptr == 0
      then (0, h')
      else (ptr, record h' { big_alloc_bytes = to_u64 (h'.big_alloc_bytes + pages * page_size) })

  -- `freeDma` and `freeContiguous`, which are the same.
  unfoldable pub free_dma : KernelHeap → ℕ → ℕ → KernelHeap
  free_dma h ptr size =
      let pages = pages_for size in
      if ptr == 0 || size == 0 then h else record h {
        memory = fill h.memory ptr 0xbd size;
        vm_arena = Arena.free h.vm_arena ptr pages;
        big_alloc_bytes =
            if leb (pages * page_size) h.big_alloc_bytes
            then h.big_alloc_bytes - pages * page_size
            else h.big_alloc_bytes;
      }

  unfoldable pub malloc_contiguous : Bool → KernelHeap → ℕ → ℕ × KernelHeap
  malloc_contiguous backed h size =
      let pages = pages_for size in
      let (virt, h') = vmm_alloc backed h pages in
      if size == 0
      then (0, h)
      else if virt == 0
      then (0, h')
      else (virt, record h' { big_alloc_bytes = to_u64 (h'.big_alloc_bytes + pages * page_size) })

  -- The address of the block is kept in the word before the aligned address.
  unfoldable pub malloc_aligned : Bool → Option ℕ → KernelHeap → ℕ → ℕ → Option (ℕ × KernelHeap)
  malloc_aligned backed guarded h size alignment =
      let total = to_u64 (size + alignment + pointer_size) in
      let placed : Option (ℕ × KernelHeap) = elim (malloc magic canary backed guarded h total) [
        | none ↦ none
        | some (raw, h') ↦
            let aligned = align_up (to_u64 (raw + pointer_size)) alignment in
            if raw == 0
            then some (0, h')
            else some (aligned, record h' { memory = store h'.memory (aligned - pointer_size) raw })
      ] in
      if alignment == 0 || not (bit_and alignment (alignment - 1) == 0)
      then some (0, h)
      else if leb page_size alignment
      then some (malloc_dma backed h size alignment)
      else if ltb total size
      then some (0, h)
      else placed

  unfoldable pub free_aligned : (ℕ → Bool) → KernelHeap → ℕ → Freed
  free_aligned is_managed h ptr =
      if ptr == 0
      then freed h
      else if ptr % page_size == 0
      then free magic canary is_managed h ptr
      else free magic canary is_managed h (load h.memory (ptr - pointer_size))

  placed_at :
      (backed : Bool) (guarded : Option ℕ) (h hm h1 : KernelHeap) (size alignment ptr raw : ℕ)
      → alignment ≢ 0
      → bit_and alignment (alignment - 1) ≡ 0
      → alignment < page_size
      → size + alignment + pointer_size < 2 ^ 64
      → malloc magic canary backed guarded h (size + alignment + pointer_size) ≡ some (raw, hm)
      → raw ≢ 0
      → malloc_aligned backed guarded h size alignment ≡ some (ptr, h1)
      → h1.memory ≡ store hm.memory (ptr - pointer_size) raw
  unfolding malloc_aligned
  placed_at backed guarded h hm h1 size alignment ptr raw some_alignment power small fits given ne
        done =
      let total : to_u64 (size + alignment + pointer_size) ≡ size + alignment + pointer_size =
        omega arith in
      ground (arith, total, given, done, power)

  -- Of a block that `mallocAligned` placed, with an alignment below a page, in a block `raw` of
  -- `malloc`, `freeAligned` frees `raw` in any heap in which the word before the block is as it was,
  -- unless the aligned address happens to be a multiple of the page size: then it frees that address
  -- itself.
  pub free_aligned-malloc_aligned :
      (backed : Bool) (guarded : Option ℕ) (is_managed : ℕ → Bool) (h hm h1 h2 : KernelHeap)
      (size alignment ptr raw : ℕ)
      → alignment ≢ 0
      → bit_and alignment (alignment - 1) ≡ 0
      → alignment < page_size
      → size + alignment + pointer_size < 2 ^ 64
      → malloc magic canary backed guarded h (size + alignment + pointer_size) ≡ some (raw, hm)
      → raw ≢ 0
      → raw < 2 ^ 64
      → malloc_aligned backed guarded h size alignment ≡ some (ptr, h1)
      → ptr ≢ 0
      → Agree h1.memory h2.memory (ptr - pointer_size) 8
      → free_aligned is_managed h2 ptr
        ≡ free magic canary is_managed h2 (if ptr % page_size == 0 then ptr else raw)
  unfolding free_aligned
  free_aligned-malloc_aligned backed guarded is_managed h hm h1 h2 size alignment ptr raw
        some_alignment power small fits given ne word done some_ptr untouched =
      let memory =
        placed_at backed guarded h hm h1 size alignment ptr raw some_alignment power small fits
          given ne done in
      let kept : load h2.memory (ptr - pointer_size) ≡ raw =
        load-Agree h1.memory h2.memory (ptr - pointer_size) untouched
        ∙ ap (λ (m : Memory). load m (ptr - pointer_size)) memory
        ∙ load-store hm.memory (ptr - pointer_size) raw word in
      ground (arith, kept)
