-- ===== src/Memory/Heap/Classes.antt =====
-- kheap.cpp: the size class of a request, and the test of `calloc`.
use singularity.Common.{
  ℕ, zero, suc, ◌+◌, ◌-◌, ◌/◌, ◌^◌, ◌≤◌, ◌<◌, ◌≡◌, refl, false, Option, none, some, arith, ◌==◌,
  leb, if◌then◌else◌, ap, ◌∙◌, inl, inr, Bool-cases, sym, subst,
}
use native.Mathlib.Nat.{pow-suc}
use singularity.Memory.Heap.{bits, get_bucket_index, bucket_size_of, num_buckets}

-- The reference: the first of the `left` classes from `i` on that is large enough.
unfoldable pub first_class : ℕ → ℕ → ℕ → Option ℕ
first_class zero i size = none
first_class (suc left) i size =
    let rest = first_class left (i + 1) size in if leb size (bucket_size_of i) then some i else rest

bits_of : (k fuel x : ℕ) → k < fuel → 2 ^ k ≤ x → x < 2 ^ suc k → bits fuel x ≡ suc k
unfolding bits
bits_of k zero x h lo hi = absurd (omega arith)
bits_of zero (suc fuel) x h lo hi =
    let one : x ≡ 1 = omega arith in rw one (ap suc (bits_zero fuel))
  where
    bits_zero : (fuel : ℕ) → bits fuel (1 / 2) ≡ 0
    bits_zero zero = refl
    bits_zero (suc fuel) = refl
bits_of (suc k) (suc fuel) x h lo hi =
    let rest =
      bits_of k fuel (x / 2) (omega arith) (omega (arith, pow-suc 2 k))
        (omega (arith, pow-suc 2 (suc k))) in
    let some_bit : (x == 0) ≡ false = ground (arith, pow-suc 2 k, pow_pos k) in
    rw some_bit (ap suc rest)
  where
    pow_pos : (k : ℕ) → 0 < 2 ^ k
    pow_pos zero = omega arith
    pow_pos (suc k) = omega (arith, pow-suc 2 k, pow_pos k)

-- The class that `getBucketIndex` computes from the position of the highest bit is the first of the
-- eight classes that is large enough, and there is none for 0 or for more than the largest class.
pub get_bucket_index-first_class :
    (size : ℕ)
    → get_bucket_index size ≡ (if size == 0 then none else first_class num_buckets 0 size)
unfolding get_bucket_index first_class
get_bucket_index-first_class size = ground (
  arith,
  bits_of 5 32 (size - 1),
  bits_of 6 32 (size - 1),
  bits_of 7 32 (size - 1),
  bits_of 8 32 (size - 1),
  bits_of 9 32 (size - 1),
  bits_of 10 32 (size - 1),
  bits_of 11 32 (size - 1),
)

first_class-fits :
    (left i size j : ℕ)
    → first_class left i size ≡ some j
    → (size ≤ bucket_size_of j) × (j < i + left)
unfolding first_class
first_class-fits zero i size j e = absurd (cc e)
first_class-fits (suc left) i size j e = elim (Bool-cases (leb size (bucket_size_of i))) [
  | inl fits ↦
      let same : i ≡ j = ground (arith, e, fits) in
      let here : size ≤ bucket_size_of i = ground (arith, fits) in
      (subst (λ k. size ≤ bucket_size_of k) same here, omega (arith, same))
  | inr small ↦
      let (enough, below) = first_class-fits left (i + 1) size j (ground (arith, e, small)) in
      (enough, omega (arith, below))
]

-- The block of a class holds the request that the class was chosen for.
pub get_bucket_index-fits :
    (size i : ℕ) → get_bucket_index size ≡ some i → (size ≤ bucket_size_of i) × (i < num_buckets)
get_bucket_index-fits size i e =
    let reference = sym (get_bucket_index-first_class size) ∙ e in
    elim (Bool-cases (size == 0)) [
      | inl zero_size ↦ absurd (ground (arith, reference, zero_size))
      | inr some_size ↦ first_class-fits num_buckets 0 size i (ground (arith, reference, some_size))
    ]

-- The largest class is a page.
pub bucket_size-le : (i : ℕ) → i < num_buckets → bucket_size_of i ≤ 4096
bucket_size-le zero h = omega arith
bucket_size-le (suc zero) h = omega arith
bucket_size-le (suc (suc zero)) h = omega arith
bucket_size-le (suc (suc (suc zero))) h = omega arith
bucket_size-le (suc (suc (suc (suc zero)))) h = omega arith
bucket_size-le (suc (suc (suc (suc (suc zero))))) h = omega arith
bucket_size-le (suc (suc (suc (suc (suc (suc zero)))))) h = omega arith
bucket_size-le (suc (suc (suc (suc (suc (suc (suc zero))))))) h = omega arith
bucket_size-le (suc (suc (suc (suc (suc (suc (suc (suc i)))))))) h = absurd (omega arith)
