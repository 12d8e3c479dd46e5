-- ===== src/Memory/Heap/Zeroed.antt =====
-- kheap.cpp: `calloc` on products that do not fit.
use singularity.Common.{
  ℕ, ◌-◌, ◌*◌, ◌/◌, ◌^◌, ◌<◌, ◌≡◌, refl, Bool, true, ◌&&◌, not, Option, some, arith, ◌==◌, ltb, leb,
  if◌then◌else◌, ap, inl, inr, Bool-cases,
}
use native.Mathlib.Nat.{div-add-mod}
use singularity.Memory.Arena.{to_u64}
use singularity.Memory.Heap.{KernelHeap, malloc, calloc, zeroed}

==_to : (n : ℕ) → (n == 0) ≡ true → n ≡ 0
==_to n e = ground arith

-- The quotient test is the test of the product.
product_test :
    (num size : ℕ) → (not (num == 0) && ltb ((2 ^ 64 - 1) / num) size) ≡ leb (2 ^ 64) (num * size)
product_test num size = elim (Bool-cases (num == 0)) [
  | inl e ↦ ground (arith, ap (λ (n : ℕ). n * size) (==_to num e))
  | inr e ↦
      let top : ℕ = 2 ^ 64 - 1 in
      let split = div-add-mod top num in let pos : 0 < num = ground arith in grind (arith, split)
]

-- Whatever the two arguments, `calloc` gives null without a call of `malloc` exactly when their
-- product has no place in 64 bits, and otherwise it is a request for that many zero bytes.
pub calloc-zeroed :
    (magic canary : ℕ) (backed : Bool) (guarded : Option ℕ) (h : KernelHeap) (num size : ℕ)
    → calloc magic canary backed guarded h num size ≡ (
        if leb (2 ^ 64) (num * size)
        then some (0, h)
        else zeroed (num * size) (malloc magic canary backed guarded h (num * size)))
unfolding calloc
calloc-zeroed magic canary backed guarded h num size =
    let request = λ (n : ℕ). zeroed n (malloc magic canary backed guarded h n) in
    elim (Bool-cases (leb (2 ^ 64) (num * size))) [
      | inl e ↦ rw (product_test num size) (rw e refl)
      | inr e ↦
          let fits : to_u64 (num * size) ≡ num * size = ground (arith, e) in
          rw (product_test num size) (rw e (ap request fits))
    ]
