-- ===== src/Memory/Heap/Tests.antt =====
-- A heap whose sixth class has one empty slab of three objects, at the start of its range.
use singularity.Common.{
  ℕ, ◌+◌, ◌-◌, ◌^◌, ◌≡◌, refl, Bool, true, false, Option, none, some, arith, ◌==◌, if◌then◌else◌,
  [], ◌∷◌, ◌⊎◌, inl, inr,
}
use singularity.Memory.Arena.{align_up}
use singularity.Memory.Words.{load, store, byte_of, fill, fill-Agree}
use singularity.Memory.Slab
use singularity.Memory.Slab.{
  Slab, SlabCache, Store, slab_pages, slab_of, thread, alloc_cached, pop, remove_slab,
}
use singularity.Memory.Heap.{
  KernelHeap, bits, get_bucket_index, stamp, malloc, free, calloc, Freed, freed, panicked,
  double_free, corrupt, overflow,
}
use singularity.Memory.Heap.Classes.{first_class, get_bucket_index-first_class}
use singularity.Memory.Heap.Zeroed.{calloc-zeroed}
use singularity.Memory.Heap.Blocks.{HasHeader}
use singularity.Memory.Heap.GivenBack.{IsGivenBack}
use singularity.Memory.Heap.Roundtrip.{free-malloc}
use singularity.Memory.Heap.DoubleFree.{free-twice}
use singularity.Memory.Heap.Aligned.{malloc_aligned, free_aligned, free_aligned-malloc_aligned}

abbrev base : ℕ
base = 0xffff_9000_0000_0000

abbrev magic : ℕ
magic = 0x1234_5678_9abc_def1

abbrev canary : ℕ
canary = 0xdead_beef_0bad_cafe

abbrev unmanaged : ℕ → Bool
unmanaged p = false

abbrev start : KernelHeap
start = record {
  buckets = λ i. record {
    obj_size = 1056;
    partial = [];
    full = [];
    empty = base ∷ [];
    total_pages_allocated = 1;
  };
  big_alloc_bytes = 0;
  vm_arena = record { regions = []; watermark = base + 4096; limit = base + 0x2000_0000 };
  memory = thread 1056 2 (record { byte = λ _. 0 }) (base + 48);
  slabs = λ _. record { free_list = base + 48; used_count = 0; total_count = 3; page_count = 1 };
}

abbrev given : Option (ℕ × KernelHeap) → ℕ × KernelHeap
given none = (0, start)
given (some r) = r

abbrev kept : Freed → KernelHeap
kept (freed h) = h
kept (panicked why) = start

abbrev used : KernelHeap
used = (given (malloc magic canary true none start 1000)).1

abbrev addr : ℕ
addr = base + 64

get_bucket_index-first_class_example : get_bucket_index 100 ≡ some 2
unfolding first_class
get_bucket_index-first_class_example = get_bucket_index-first_class 100

calloc-zeroed_test : calloc magic canary true none start (2 ^ 33) (2 ^ 33) ≡ some (0, start)
calloc-zeroed_test = calloc-zeroed magic canary true none start (2 ^ 33) (2 ^ 33)

malloc_test : malloc magic canary true none start 1000 ≡ some (addr, used)
unfolding malloc get_bucket_index bits Slab.alloc alloc_cached pop remove_slab thread load store
    byte_of
malloc_test = refl

free-malloc_example :
    (class : ℕ) × (h3 : KernelHeap) × (get_bucket_index 1024 ≡ some class)
    × (load used.memory (addr + 1000) ≡ canary)
    × (free magic canary unmanaged used addr
        ≡ (if load used.memory (addr + 1000) == canary then freed h3 else panicked overflow))
    × IsGivenBack class (addr - 16) 1000 used h3
free-malloc_example =
    free-malloc magic canary (omega arith) (omega arith) true unmanaged start used used 1000 addr
      (omega arith) (omega arith) malloc_test (omega arith) (omega arith) (omega arith)
      (omega arith) refl (λ x l r. refl)

abbrev again : KernelHeap
again = kept (free magic canary unmanaged used addr)

used-HasHeader : HasHeader magic used.memory (base + 48) 1024 1000
unfolding malloc get_bucket_index bits Slab.alloc alloc_cached pop remove_slab thread load store
    byte_of stamp
used-HasHeader = record { first = refl; second = refl }

free_test : free magic canary unmanaged used addr ≡ freed again
unfolding free malloc get_bucket_index bits Slab.alloc alloc_cached pop remove_slab thread load
    store byte_of stamp
free_test = refl

class_test : get_bucket_index 1024 ≡ some 5
unfolding get_bucket_index bits
class_test = refl

free-twice_example :
    (free magic canary unmanaged again addr ≡ panicked double_free)
    ⊎ (free magic canary unmanaged again addr ≡ panicked corrupt)
unfolding malloc get_bucket_index bits Slab.alloc alloc_cached pop remove_slab thread load store
    byte_of slab_of slab_pages
free-twice_example =
    free-twice magic canary (omega arith) (omega arith) unmanaged used (base + 48) 1024 1000 5 again
      used-HasHeader (omega arith) (omega arith) (omega arith) class_test (omega arith)
      (inr (omega arith)) (omega arith) (omega arith) (omega arith) refl free_test

abbrev placed : Option (ℕ × KernelHeap)
placed = malloc_aligned magic canary true none start 900 64

abbrev raw_block : KernelHeap
raw_block = (given (malloc magic canary true none start 972)).1

raw_test : malloc magic canary true none start 972 ≡ some (addr, raw_block)
unfolding malloc get_bucket_index bits Slab.alloc alloc_cached pop remove_slab thread load store
    byte_of
raw_test = refl

placed_test : placed ≡ some (base + 128, (given placed).1)
unfolding malloc_aligned malloc get_bucket_index bits Slab.alloc alloc_cached pop remove_slab thread
    load store byte_of align_up
placed_test = refl

-- The caller has written its bytes.
abbrev filled : KernelHeap
filled = record (given placed).1 { memory = fill (given placed).1.memory (base + 128) 7 900 }

free_aligned-malloc_aligned_example :
    free_aligned magic canary unmanaged filled (base + 128)
    ≡ free magic canary unmanaged filled addr
free_aligned-malloc_aligned_example =
    free_aligned-malloc_aligned magic canary true none unmanaged start raw_block (given placed).1
      filled 900 64 (base + 128) addr (omega arith) refl (omega arith) (omega arith) raw_test
      (omega arith) (omega arith) placed_test (omega arith)
      (fill-Agree (given placed).1.memory (base + 128) 7 900 (base + 120) 8 (inl (omega arith)))
