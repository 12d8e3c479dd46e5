-- ===== src/Memory/Heap/Sizes.antt =====
-- kheap.cpp: `trim` and the sums over the buckets.
use singularity.Common.{ℕ, zero, suc, ◌+◌}
use singularity.Memory.Slab
use singularity.Memory.Slab.{slab_pages}
use singularity.Memory.Heap.{KernelHeap, num_buckets, bucket, with_bucket}

-- The loops over `buckets[0..n)`.
unfoldable pub trim_below : ℕ → KernelHeap → KernelHeap
trim_below zero h = h
trim_below (suc i) h = let h' = trim_below i h in with_bucket h' i (Slab.trim (bucket h' i))

unfoldable pub sum_below : (ℕ → ℕ) → ℕ → ℕ
sum_below f zero = 0
sum_below f (suc i) = sum_below f i + f i

unfoldable pub trim : KernelHeap → KernelHeap
trim h = trim_below num_buckets h

unfoldable pub get_cached_size : KernelHeap → ℕ
get_cached_size h = sum_below (λ i. Slab.get_cached_size (h.buckets i)) num_buckets

unfoldable pub get_used_payload : KernelHeap → ℕ
get_used_payload h =
    sum_below (λ i. Slab.get_used_payload (bucket h i)) num_buckets + h.big_alloc_bytes

unfoldable pub get_total_reserved : KernelHeap → ℕ
get_total_reserved h =
    sum_below (λ i. Slab.get_total_reserved (h.buckets i)) num_buckets + h.big_alloc_bytes
