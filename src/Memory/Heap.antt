-- ===== src/Memory/Heap.antt =====
-- archs/memory/kheap.cpp and kheap.h: `KernelHeap`, which serves small requests from eight slab caches
-- and large ones from whole pages. Each block has a header of two words, its size class or size in
-- pages and the masked size of the request, and a canary word after the requested bytes.
-- The frames behind the pages are not modelled: `backed` says that there are enough for a request.
-- The guarded allocator is a parameter: `guarded` is what it gives for a call that it samples, and
-- `is_managed` tells its pointers.
pub mod Classes
pub mod Blocks
pub mod GivenBack
pub mod Roundtrip
pub mod DoubleFree
pub mod Aligned
pub mod Sizes
mod Tests
pub mod Zeroed
use singularity.Common.{
  ℕ, zero, suc, ◌+◌, ◌-◌, ◌*◌, ◌/◌, ◌%◌, ◌^◌, Bool, true, false, not, ◌&&◌, ◌||◌, Option, none,
  some, bit_and, bit_xor, ◌==◌, ltb, leb, if◌then◌else◌, update,
}
use singularity.Memory.Arena
use singularity.Memory.Arena.{VmArena, page_size, to_u64, align_up}
use singularity.Memory.Slab
use singularity.Memory.Slab.{Slab, SlabCache, Store, header_size, footer_size}
use singularity.Memory.Words.{Memory, load, store, fill, copy}

pub record KernelHeap : Type 0 where
  pub buckets : ℕ → SlabCache
  pub big_alloc_bytes : ℕ
  pub vm_arena : VmArena
  pub memory : Memory
  pub slabs : ℕ → Slab

abbrev pub num_buckets : ℕ
num_buckets = 8

-- `bucket_sizes[idx]`
abbrev pub bucket_size_of : ℕ → ℕ
bucket_size_of idx = 2 ^ (idx + 5)

abbrev pub kheap_start : ℕ
kheap_start = 0xffff_9000_0000_0000

abbrev pub kheap_end : ℕ
kheap_end = 0xffff_9000_0000_0000 + 0x2000_0000 + 0x00ff_ffff

-- `32 - __builtin_clz(x)`, the number of binary digits; 32 rounds are enough for an `unsigned int`.
unfoldable pub bits : ℕ → ℕ → ℕ
bits zero x = 0
bits (suc fuel) x = let rest = bits fuel (x / 2) in if x == 0 then 0 else suc rest

-- `none` for -1.
unfoldable pub get_bucket_index : ℕ → Option ℕ
get_bucket_index size =
    let log2 = bits 32 (size - 1) in
    if size == 0 || ltb 4096 size
    then none
    else if leb size 32
    then some 0
    else if ltb log2 5
    then some 0
    else some (log2 - 5)

-- A bucket with what all of them share, and the heap after a call on it.
abbrev pub bucket : KernelHeap → ℕ → Store
bucket h i = record { cache = h.buckets i; memory = h.memory; slabs = h.slabs; arena = h.vm_arena }

abbrev pub with_bucket : KernelHeap → ℕ → Store → KernelHeap
with_bucket h i t = record h {
  buckets = update h.buckets i t.cache;
  memory = t.memory;
  slabs = t.slabs;
  vm_arena = t.arena;
}

-- The address, 0 for null, and the heap.
unfoldable pub vmm_alloc : Bool → KernelHeap → ℕ → ℕ × KernelHeap
vmm_alloc backed h pages =
    let (virt, arena) = Arena.alloc h.vm_arena pages in
    if virt == 0
    then (0, record h { vm_arena = arena })
    else if not backed
    then (0, record h { vm_arena = Arena.free arena virt pages })
    else (virt, record h { vm_arena = arena; memory = fill h.memory virt 0 (pages * page_size) })

unfoldable pub vmm_alloc_aligned : Bool → KernelHeap → ℕ → ℕ → ℕ × KernelHeap
vmm_alloc_aligned backed h pages align_pages =
    let (virt, arena) = Arena.alloc_aligned h.vm_arena pages align_pages in
    if virt == 0
    then (0, record h { vm_arena = arena })
    else if not backed
    then (0, record h { vm_arena = Arena.free arena virt pages })
    else (virt, record h { vm_arena = arena; memory = fill h.memory virt 0 (pages * page_size) })

-- Why `free` stops the kernel.
pub data Panic : Type 0 where
  double_free corrupt overflow : Panic

pub data Freed : Type 0 where
  freed : KernelHeap → Freed
  panicked : Panic → Freed

-- `memset` of what `malloc` gave.
unfoldable pub zeroed : ℕ → Option (ℕ × KernelHeap) → Option (ℕ × KernelHeap)
zeroed n none = none
zeroed n (some (p, h)) =
    if p == 0 then some (0, h) else some (p, record h { memory = fill h.memory p 0 n })

-- The end of `free`, once the block is known to be whole.
unfoldable pub release : KernelHeap → ℕ → ℕ → ℕ → KernelHeap
release h addr block_size user_size =
    let real = addr - header_size in
    let pages = block_size / page_size in
    let m = store (fill h.memory addr 0xbd user_size) real (block_size + 2 ^ 63) in
    let h1 = record h { memory = m } in
    if leb block_size 4096
    then elim (get_bucket_index block_size) [
      | some i ↦ with_bucket h1 i (Slab.free (bucket h1 i) real).1
      | none ↦ h1
    ]
    else record h1 {
      vm_arena = Arena.free h1.vm_arena real pages;
      big_alloc_bytes = to_u64 (h1.big_alloc_bytes + 2 ^ 64 - block_size);
    }

module _ (magic canary : ℕ) where
  -- The header and the canary of a block at `p` for a request of `size` bytes.
  unfoldable pub stamp : Memory → ℕ → ℕ → ℕ → Memory
  stamp m p block_size size =
      store (store (store m p block_size) (p + 8) (bit_xor size magic)) (p + header_size + size)
        canary

  -- The call returns null as 0; `none` is a read through a null pointer.
  unfoldable pub malloc : Bool → Option ℕ → KernelHeap → ℕ → Option (ℕ × KernelHeap)
  malloc backed guarded h size =
      let total_req = to_u64 (header_size + size + footer_size) in
      let pages = to_u64 (align_up total_req page_size) / page_size in
      let (ptr, h') = vmm_alloc backed h pages in
      let small : Option (ℕ × KernelHeap) = elim (get_bucket_index total_req) [
        | none ↦ some (0, h)
        | some i ↦ elim (Slab.alloc backed (bucket h i)) [
          | none ↦ none
          | some (p, t) ↦
              if p == 0
              then some (0, with_bucket h i t)
              else some (
                p + header_size,
                with_bucket h i (record t { memory = stamp t.memory p (bucket_size_of i) size }),
              )
        ]
      ] in
      let large : Option (ℕ × KernelHeap) =
        if ptr == 0
        then some (0, h')
        else some (
          ptr + header_size,
          record h' {
            memory = stamp h'.memory ptr (to_u64 (pages * page_size)) size;
            big_alloc_bytes = to_u64 (h'.big_alloc_bytes + pages * page_size);
          },
        ) in
      let plain =
        if ltb total_req size then some (0, h) else if leb total_req 4096 then small else large in
      if size == 0
      then some (0, h)
      else if ltb size page_size
      then elim guarded [ some g ↦ some (g, h) | none ↦ plain ]
      else plain

  -- A pointer of the guarded allocator is given back to that one. Bit 63 is the mark of a free block.
  unfoldable pub free : (ℕ → Bool) → KernelHeap → ℕ → Freed
  free is_managed h addr =
      let real = addr - header_size in
      let block_size = load h.memory real in
      let user_size = bit_xor (load h.memory (real + 8)) magic in
      if addr == 0
      then freed h
      else if is_managed addr
      then freed h
      else if ltb addr kheap_start || ltb kheap_end addr
      then freed h
      else if not (addr % 8 == 0)
      then freed h
      else if leb (2 ^ 63) block_size
      then panicked double_free
      else if ltb block_size user_size
      then panicked corrupt
      else if not (load h.memory (addr + user_size) == canary)
      then panicked overflow
      else freed (release h addr block_size user_size)

  unfoldable pub calloc : Bool → Option ℕ → KernelHeap → ℕ → ℕ → Option (ℕ × KernelHeap)
  calloc backed guarded h num size =
      let n = to_u64 (num * size) in
      if not (num == 0) && ltb ((2 ^ 64 - 1) / num) size
      then some (0, h)
      else zeroed n (malloc backed guarded h n)
