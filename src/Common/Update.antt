-- ===== src/Common/Update.antt =====
-- Arrays of the source as functions from their index: a change at one place, and how many of the
-- first `n` places pass a test.
use Prim.Native.Nat.{ℕ, zero, suc, ◌+◌, ◌≤◌, ◌<◌}
use mathlib.Core.Path.{◌≡◌, refl}
use mathlib.Core.Bool.{Bool, true, false}
use native.Mathlib.Omega.{arith}
use singularity.Common.Tests.{◌==◌, if◌then◌else◌}

abbrev pub to_count : Bool → ℕ
to_count b = if b then 1 else 0

module _ {ℓ} {A : Type ℓ} where
  abbrev pub update : (ℕ → A) → ℕ → A → ℕ → A
  update f i a j = if i == j then a else f j

  pub count_below : (A → Bool) → (ℕ → A) → ℕ → ℕ
  count_below p f zero = 0
  count_below p f (suc n) = to_count (p (f n)) + count_below p f n

  pub count_below-le : (p : A → Bool) (f : ℕ → A) (n : ℕ) → count_below p f n ≤ n
  unfolding count_below
  count_below-le p f zero = omega arith
  count_below-le p f (suc n) = ground (arith, count_below-le p f n)

  -- A change past the end is not counted.
  pub count_below-update_out :
      (p : A → Bool) (f : ℕ → A) (i : ℕ) (a : A) (n : ℕ)
      → n ≤ i
      → count_below p (update f i a) n ≡ count_below p f n
  unfolding count_below
  count_below-update_out p f i a zero h = refl
  count_below-update_out p f i a (suc n) h = ground (arith, count_below-update_out p f i a n)

  -- A change below the end trades the old value for the new.
  pub count_below-update :
      (p : A → Bool) (f : ℕ → A) (i : ℕ) (a : A) (n : ℕ)
      → i < n
      → count_below p (update f i a) n + to_count (p (f i)) ≡ count_below p f n + to_count (p a)
  unfolding count_below
  count_below-update p f i a zero h = elim h [ ]
  count_below-update p f i a (suc n) h =
      ground (arith, count_below-update p f i a n, count_below-update_out p f i a n)

  -- No value passes the test: the count is 0.
  pub count_below-none :
      (p : A → Bool) (f : ℕ → A) (n : ℕ)
      → ((i : ℕ) → i < n → p (f i) ≡ false)
      → count_below p f n ≡ 0
  unfolding count_below
  count_below-none p f zero h = refl
  count_below-none p f (suc n) h =
      ground (arith, h n, count_below-none p f n (λ i b. h i (omega arith)))

  -- Every value passes the test: the count is that of the places.
  pub count_below-all :
      (p : A → Bool) (f : ℕ → A) (n : ℕ)
      → ((i : ℕ) → i < n → p (f i) ≡ true)
      → count_below p f n ≡ n
  unfolding count_below
  count_below-all p f zero h = refl
  count_below-all p f (suc n) h =
      ground (arith, h n, count_below-all p f n (λ i b. h i (omega arith)))
