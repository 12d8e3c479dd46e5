-- ===== src/Common/Bits.antt =====
-- Laws of the bitwise operations at variables, by strong induction on the binary digits.
use Prim.Native.Nat.{
  ℕ, zero, suc, ◌+◌, ◌-◌, ◌*◌, ◌/◌, ◌%◌, ◌^◌, ◌≤◌, ◌<◌, bit_and, bit_or, bit_xor, digits, min, max,
  differ, bit_and-bitwise, bit_or-bitwise, bit_xor-bitwise,
}
use mathlib.Core.Path.{◌≡◌, refl, ap, sym, subst, ◌∙◌}
use mathlib.Core.WellFounded
use native.Mathlib.Omega.{arith}
use native.Mathlib.Nat.{pow-suc}
use singularity.Common.Order.{lt_wf}

-- The recursion that a bitwise operation stands for gives the same with any fuel that is enough.
module _ (base : ℕ → ℕ) (op : ℕ → ℕ → ℕ) where
  enough_fuel : (n a b : ℕ) → a ≤ n → digits base op n a b ≡ digits base op a a b
  enough_fuel n a =
      WellFounded.induction lt_wf
        {C = λ a. (n b : ℕ) → a ≤ n → digits base op n a b ≡ digits base op a a b} a peel n
    where
      peel :
          (a : ℕ)
          → ((a' : ℕ)
              → a' < a
              → (n b : ℕ) → a' ≤ n
              → digits base op n a' b ≡ digits base op a' a' b)
          → (n b : ℕ) → a ≤ n
          → digits base op n a b ≡ digits base op a a b
      peel zero ih zero b h = refl
      peel zero ih (suc n) b h = refl
      peel (suc a) ih zero b h = absurd (omega arith)
      peel (suc a) ih (suc n) b h = omega (
        arith,
        ih (suc a / 2) (omega arith) n (b / 2) (omega arith),
        ih (suc a / 2) (omega arith) a (b / 2) (omega arith),
      )

pub bit_and_step : (a b : ℕ) → bit_and a b ≡ bit_and (a / 2) (b / 2) * 2 + min (a % 2) (b % 2)
bit_and_step zero b = omega (arith, bit_and-bitwise 0 b, bit_and-bitwise 0 (b / 2))
bit_and_step (suc a) b = omega (
  arith,
  bit_and-bitwise (suc a) b,
  bit_and-bitwise (suc a / 2) (b / 2),
  enough_fuel (λ _. 0) min a (suc a / 2) (b / 2) (omega arith),
)

pub bit_or_step : (a b : ℕ) → bit_or a b ≡ bit_or (a / 2) (b / 2) * 2 + max (a % 2) (b % 2)
bit_or_step zero b = omega (arith, bit_or-bitwise 0 b, bit_or-bitwise 0 (b / 2))
bit_or_step (suc a) b = omega (
  arith,
  bit_or-bitwise (suc a) b,
  bit_or-bitwise (suc a / 2) (b / 2),
  enough_fuel (λ y. y) max a (suc a / 2) (b / 2) (omega arith),
)

pub zero-bit_and : (b : ℕ) → bit_and 0 b ≡ 0
zero-bit_and b = bit_and-bitwise 0 b

pub zero-bit_or : (b : ℕ) → bit_or 0 b ≡ b
zero-bit_or b = bit_or-bitwise 0 b

pub bit_or-zero : (a : ℕ) → bit_or a 0 ≡ a
bit_or-zero a = WellFounded.induction lt_wf {C = λ a. bit_or a 0 ≡ a} a step
  where
    step : (a : ℕ) → ((m : ℕ) → m < a → bit_or m 0 ≡ m) → bit_or a 0 ≡ a
    step zero ih = zero-bit_or 0
    step (suc a) ih = omega (arith, bit_or_step (suc a) 0, ih (suc a / 2) (omega arith))

pub bit_and-zero : (a : ℕ) → bit_and a 0 ≡ 0
bit_and-zero a = WellFounded.induction lt_wf {C = λ a. bit_and a 0 ≡ 0} a step
  where
    step : (a : ℕ) → ((m : ℕ) → m < a → bit_and m 0 ≡ 0) → bit_and a 0 ≡ 0
    step zero ih = zero-bit_and 0
    step (suc a) ih = omega (arith, bit_and_step (suc a) 0, ih (suc a / 2) (omega arith))

pub bit_and_self : (a : ℕ) → bit_and a a ≡ a
bit_and_self a = WellFounded.induction lt_wf {C = λ a. bit_and a a ≡ a} a step
  where
    step : (a : ℕ) → ((m : ℕ) → m < a → bit_and m m ≡ m) → bit_and a a ≡ a
    step zero ih = zero-bit_and 0
    step (suc a) ih = omega (arith, bit_and_step (suc a) (suc a), ih (suc a / 2) (omega arith))

-- The conjunction of bits has no bit that its right side lacks.
pub bit_and-le : (a b : ℕ) → bit_and a b ≤ a
bit_and-le a = WellFounded.induction lt_wf {C = λ a. (b : ℕ) → bit_and a b ≤ a} a step
  where
    step : (a : ℕ) → ((m : ℕ) → m < a → (b : ℕ) → bit_and m b ≤ m) → (b : ℕ) → bit_and a b ≤ a
    step zero ih b = omega (arith, zero-bit_and b)
    step (suc a) ih b = omega (arith, bit_and_step (suc a) b, ih (suc a / 2) (omega arith) (b / 2))

-- Conjunction is associative.
pub bit_and_assoc : (a b c : ℕ) → bit_and (bit_and a b) c ≡ bit_and a (bit_and b c)
bit_and_assoc a =
    WellFounded.induction lt_wf
      {C = λ a. (b c : ℕ) → bit_and (bit_and a b) c ≡ bit_and a (bit_and b c)} a step
  where
    step :
        (a : ℕ)
        → ((m : ℕ) → m < a → (b c : ℕ) → bit_and (bit_and m b) c ≡ bit_and m (bit_and b c))
        → (b c : ℕ) → bit_and (bit_and a b) c ≡ bit_and a (bit_and b c)
    step zero ih b c =
        ap (λ x. bit_and x c) (zero-bit_and b) ∙ zero-bit_and c ∙ sym (zero-bit_and (bit_and b c))
    step (suc a) ih b c =
        let ab = bit_and (suc a) b in
        let bc = bit_and b c in
        let half : ab / 2 ≡ bit_and (suc a / 2) (b / 2) = omega (arith, bit_and_step (suc a) b) in
        let half' : bc / 2 ≡ bit_and (b / 2) (c / 2) = omega (arith, bit_and_step b c) in
        omega (
          arith,
          bit_and_step ab c,
          bit_and_step (suc a) bc,
          bit_and_step (suc a) b,
          bit_and_step b c,
          ap (λ x. bit_and x (c / 2)) half,
          ap (bit_and (suc a / 2)) half',
          ih (suc a / 2) (omega arith) (b / 2) (c / 2),
        )

-- The same with `a` above `b`'s bits: they do not overlap, and the disjunction is the sum.
pub bit_or_disjoint : (k q r : ℕ) → r < 2 ^ k → bit_or (q * 2 ^ k) r ≡ q * 2 ^ k + r
bit_or_disjoint zero q r h =
    let none_left : r ≡ 0 = omega arith in
    omega (arith, ap (bit_or (q * 2 ^ 0)) none_left, bit_or-zero (q * 2 ^ 0))
bit_or_disjoint (suc k) q r h =
    let double : q * 2 ^ suc k ≡ q * 2 ^ k * 2 = omega (arith, ap (◌*◌ q) (pow-suc 2 k)) in
    omega (
      arith,
      bit_or_step (q * 2 ^ suc k) r,
      ap (λ x. bit_or x (r / 2)) (let e : q * 2 ^ suc k / 2 ≡ q * 2 ^ k = omega arith in e),
      bit_or_disjoint k q (r / 2) (omega (arith, pow-suc 2 k)),
    )

differ_digits : (x y : ℕ) → x < 2 → y < 2 → differ x y ≡ (x + y) % 2
differ_digits zero y h k = omega arith
differ_digits (suc zero) zero h k = refl
differ_digits (suc zero) (suc zero) h k = refl
differ_digits (suc zero) (suc (suc y)) h k = absurd (omega arith)
differ_digits (suc (suc x)) y h k = absurd (omega arith)

pub bit_xor_step : (a b : ℕ) → bit_xor a b ≡ bit_xor (a / 2) (b / 2) * 2 + (a + b) % 2
bit_xor_step zero b = omega (arith, bit_xor-bitwise 0 b, bit_xor-bitwise 0 (b / 2))
bit_xor_step (suc a) b = omega (
  arith,
  bit_xor-bitwise (suc a) b,
  bit_xor-bitwise (suc a / 2) (b / 2),
  differ_digits (suc a % 2) (b % 2) (omega arith) (omega arith),
  enough_fuel (λ y. y) differ a (suc a / 2) (b / 2) (omega arith),
)

pub zero-bit_xor : (b : ℕ) → bit_xor 0 b ≡ b
zero-bit_xor b = bit_xor-bitwise 0 b

bit_xor_self : (a : ℕ) → bit_xor a a ≡ 0
bit_xor_self a = WellFounded.induction lt_wf {C = λ a. bit_xor a a ≡ 0} a step
  where
    step : (a : ℕ) → ((m : ℕ) → m < a → bit_xor m m ≡ 0) → bit_xor a a ≡ 0
    step zero ih = zero-bit_xor 0
    step (suc a) ih = omega (arith, bit_xor_step (suc a) (suc a), ih (suc a / 2) (omega arith))

-- Exclusive disjunction with the same mask a second time gives the word back.
pub bit_xor_twice : (a b : ℕ) → bit_xor (bit_xor a b) b ≡ a
bit_xor_twice a =
    WellFounded.induction lt_wf {C = λ a. (b : ℕ) → bit_xor (bit_xor a b) b ≡ a} a step
  where
    step :
        (a : ℕ)
        → ((m : ℕ) → m < a → (b : ℕ) → bit_xor (bit_xor m b) b ≡ m)
        → (b : ℕ) → bit_xor (bit_xor a b) b ≡ a
    step zero ih b = ap (λ x. bit_xor x b) (zero-bit_xor b) ∙ bit_xor_self b
    step (suc a) ih b =
        let ab = bit_xor (suc a) b in
        let half : ab / 2 ≡ bit_xor (suc a / 2) (b / 2) = omega (arith, bit_xor_step (suc a) b) in
        omega (
          arith,
          bit_xor_step ab b,
          bit_xor_step (suc a) b,
          ap (λ x. bit_xor x (b / 2)) half,
          ih (suc a / 2) (omega arith) (b / 2),
        )

-- Words below a power of two stay below it.
pub bit_xor-lt : (k a b : ℕ) → a < 2 ^ k → b < 2 ^ k → bit_xor a b < 2 ^ k
bit_xor-lt zero a b h h' =
    let left : a ≡ 0 = omega arith in
    let right : b ≡ 0 = omega arith in rw (left, right) (omega (arith, zero-bit_xor 0))
bit_xor-lt (suc k) a b h h' = omega (
  arith,
  bit_xor_step a b,
  bit_xor-lt k (a / 2) (b / 2) (omega (arith, pow-suc 2 k)) (omega (arith, pow-suc 2 k)),
  pow-suc 2 k,
)

-- A mask of ones keeps what fits under it.
pub bit_and-low_mask : (k y : ℕ) → y < 2 ^ k → bit_and y (2 ^ k - 1) ≡ y
bit_and-low_mask zero y h =
    let none_left : y ≡ 0 = omega arith in
    subst (λ z. bit_and z (2 ^ 0 - 1) ≡ z) (sym none_left) (zero-bit_and 0)
bit_and-low_mask (suc k) y h =
    let half : (2 ^ suc k - 1) / 2 ≡ 2 ^ k - 1 = omega (arith, pow-suc 2 k, pow_pos k) in
    omega (
      arith,
      bit_and_step y (2 ^ suc k - 1),
      ap (bit_and (y / 2)) half,
      bit_and-low_mask k (y / 2) (omega (arith, pow-suc 2 k)),
      pow-suc 2 k,
      pow_pos k,
    )
  where
    pow_pos : (k : ℕ) → 0 < 2 ^ k
    pow_pos zero = omega arith
    pow_pos (suc k) = omega (arith, pow-suc 2 k, pow_pos k)
