-- ===== src/Memory/Heap/GivenBack.antt =====
-- kheap.cpp: what the end of `free` does to the bucket of a small block, and to the others.
use singularity.Common.{
  ℕ, zero, suc, ◌+◌, ◌-◌, ◌^◌, ◌≤◌, ◌<◌, ◌≡◌, ◌≢◌, refl, true, some, arith, leb, ==_self,
}
use singularity.Memory.Slab
use singularity.Memory.Slab.{Store, header_size}
use singularity.Memory.Words.{store, fill}
use singularity.Memory.Heap.{
  KernelHeap, bucket, with_bucket, release, get_bucket_index, bits, bucket_size_of, num_buckets,
}

-- The bucket of the class `i` is what `SlabCache::free` of the block at `p` leaves of it, after the
-- bytes of the request were overwritten and the first word of the block was marked. The other buckets are as
-- they were.
pub record IsGivenBack (i p size : ℕ) (h h' : KernelHeap) : Type 0 where
  pub given :
      bucket h' i
      ≡ (Slab.free
          (record (bucket h i) {
            memory =
                store (fill h.memory (p + header_size) 0xbd size) p (bucket_size_of i + 2 ^ 63);
          })
          p).1
  pub others : (j : ℕ) → j ≢ i → h'.buckets j ≡ h.buckets j

-- The size of a class is of that class.
class_of_size : (i : ℕ) → i < num_buckets → get_bucket_index (bucket_size_of i) ≡ some i
unfolding get_bucket_index bits
class_of_size zero h = refl
class_of_size (suc zero) h = refl
class_of_size (suc (suc zero)) h = refl
class_of_size (suc (suc (suc zero))) h = refl
class_of_size (suc (suc (suc (suc zero)))) h = refl
class_of_size (suc (suc (suc (suc (suc zero))))) h = refl
class_of_size (suc (suc (suc (suc (suc (suc zero)))))) h = refl
class_of_size (suc (suc (suc (suc (suc (suc (suc zero))))))) h = refl
class_of_size (suc (suc (suc (suc (suc (suc (suc (suc i)))))))) h = absurd (omega arith)

with_bucket-IsGivenBack :
    (i : ℕ) (h : KernelHeap) (t : Store)
    → (bucket (with_bucket h i t) i ≡ t)
      × ((j : ℕ) → j ≢ i → (with_bucket h i t).buckets j ≡ h.buckets j)
with_bucket-IsGivenBack i h t = (rw (==_self i) refl, λ j ne. ground (arith, ne))

pub release-IsGivenBack :
    (i p size : ℕ) (h : KernelHeap)
    → i < num_buckets
    → bucket_size_of i ≤ 4096
    → IsGivenBack i p size h (release h (p + header_size) (bucket_size_of i) size)
unfolding release
release-IsGivenBack i p size h class small =
    let back : p + header_size - header_size ≡ p = omega arith in
    let fits : leb (bucket_size_of i) 4096 ≡ true = ground (arith, small) in
    let marked = store (fill h.memory (p + header_size) 0xbd size) p (bucket_size_of i + 2 ^ 63) in
    let h1 : KernelHeap = record h { memory = marked } in
    let (given, others) = with_bucket-IsGivenBack i h1 (Slab.free (bucket h1 i) p).1 in
    rw fits (rw (class_of_size i class, back) (record { given = given; others = others }))
