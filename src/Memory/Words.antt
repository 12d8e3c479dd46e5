-- ===== src/Memory/Words.antt =====
-- Memory as bytes, and the words of eight bytes that archs/memory reads and writes through pointers.
use singularity.Common.{
  ℕ, ◌+◌, ◌-◌, ◌*◌, ◌/◌, ◌%◌, ◌^◌, ◌≤◌, ◌<◌, ◌≡◌, ◌&&◌, arith, leb, ltb, if◌then◌else◌, ap, sym,
  ◌∙◌, ◌⊎◌,
}

pub record Memory : Type 0 where
  pub byte : ℕ → ℕ

-- The `i`th byte of a word, the lowest first.
unfoldable pub byte_of : ℕ → ℕ → ℕ
byte_of v i = v / 256 ^ i % 256

-- `*(uint64_t*)a`
unfoldable pub load : Memory → ℕ → ℕ
load m a =
    m.byte a
    + m.byte (a + 1) * 2 ^ 8
    + m.byte (a + 2) * 2 ^ 16
    + m.byte (a + 3) * 2 ^ 24
    + m.byte (a + 4) * 2 ^ 32
    + m.byte (a + 5) * 2 ^ 40
    + m.byte (a + 6) * 2 ^ 48
    + m.byte (a + 7) * 2 ^ 56

-- `*(uint64_t*)a = v`
unfoldable pub store : Memory → ℕ → ℕ → Memory
unfolding byte_of
store m a v = record {
  byte = λ x. if leb a x && ltb x (a + 8) then byte_of v (x - a) else m.byte x;
}

-- `memset(a, v, n)`
unfoldable pub fill : Memory → ℕ → ℕ → ℕ → Memory
fill m a v n = record { byte = λ x. if leb a x && ltb x (a + n) then v else m.byte x }

-- `memcpy(to, from, n)` of ranges that do not overlap.
unfoldable pub copy : Memory → ℕ → ℕ → ℕ → Memory
copy m to from n = record {
  byte = λ x. if leb to x && ltb x (to + n) then m.byte (from + (x - to)) else m.byte x;
}

-- The memories agree on `n` bytes from `a` on.
abbrev pub Agree : Memory → Memory → ℕ → ℕ → Type 0
Agree m m' a n = (x : ℕ) → a ≤ x → x < a + n → m'.byte x ≡ m.byte x

pub load-Agree : (m m' : Memory) (a : ℕ) → Agree m m' a 8 → load m' a ≡ load m a
unfolding load
load-Agree m m' a h = omega (
  arith,
  h a (omega arith) (omega arith),
  h (a + 1) (omega arith) (omega arith),
  h (a + 2) (omega arith) (omega arith),
  h (a + 3) (omega arith) (omega arith),
  h (a + 4) (omega arith) (omega arith),
  h (a + 5) (omega arith) (omega arith),
  h (a + 6) (omega arith) (omega arith),
  h (a + 7) (omega arith) (omega arith),
)

store-byte : (m : Memory) (a v i : ℕ) → i < 8 → (store m a v).byte (a + i) ≡ v / 256 ^ i % 256
unfolding store byte_of
store-byte m a v i h = let at : a + i - a ≡ i = omega arith in rw at (ground arith)

first_byte : (m : Memory) (a v : ℕ) → (store m a v).byte a ≡ v / 256 ^ 0 % 256
first_byte m a v =
    let at : a + 0 ≡ a = omega arith in
    ap (λ (x : ℕ). (store m a v).byte x) (sym at) ∙ store-byte m a v 0 (omega arith)

digits_of :
    (v : ℕ)
    → v < 2 ^ 64
    → v / 256 ^ 0 % 256
        + v / 256 ^ 1 % 256 * 2 ^ 8
        + v / 256 ^ 2 % 256 * 2 ^ 16
        + v / 256 ^ 3 % 256 * 2 ^ 24
        + v / 256 ^ 4 % 256 * 2 ^ 32
        + v / 256 ^ 5 % 256 * 2 ^ 40
        + v / 256 ^ 6 % 256 * 2 ^ 48
        + v / 256 ^ 7 % 256 * 2 ^ 56
      ≡ v
digits_of v h = omega arith

pub load-store : (m : Memory) (a v : ℕ) → v < 2 ^ 64 → load (store m a v) a ≡ v
unfolding load
load-store m a v h = omega (
  arith,
  first_byte m a v,
  store-byte m a v 1 (omega arith),
  store-byte m a v 2 (omega arith),
  store-byte m a v 3 (omega arith),
  store-byte m a v 4 (omega arith),
  store-byte m a v 5 (omega arith),
  store-byte m a v 6 (omega arith),
  store-byte m a v 7 (omega arith),
  digits_of v h,
)

-- A write leaves alone what it does not overlap.
pub store-Agree : (m : Memory) (a v b n : ℕ) → (b + n ≤ a) ⊎ (a + 8 ≤ b) → Agree m (store m a v) b n
unfolding store
store-Agree m a v b n apart x lo hi = ground arith

pub fill-Agree :
    (m : Memory) (a v k b n : ℕ) → (b + n ≤ a) ⊎ (a + k ≤ b) → Agree m (fill m a v k) b n
unfolding fill
fill-Agree m a v k b n apart x lo hi = ground arith
