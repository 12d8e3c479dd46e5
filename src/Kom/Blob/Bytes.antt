-- ===== src/Kom/Blob/Bytes.antt =====
-- kblob.cpp: a blob is a finite sequence of bytes.
use singularity.Common.{
  ℕ, ◌+◌, ◌-◌, ◌≤◌, ◌<◌, ◌≡◌, refl, ◌%◌, ◌^◌, true, false, ◌&&◌, ◌||◌, Option, none, some, arith,
  ltb, leb, if◌then◌else◌, ◌⊎◌, inl, inr, Bool-cases, ltb→lt, Option-cases, ap, ◌∙◌,
}
use singularity.Kom.Error.{ok, no_memory}
use singularity.Kom.Blob.{KVolatileBlob, overlay, read, grown, zeroed, fill, write}

-- The byte at an offset, 0 where there is no buffer.
unfoldable pub byte_at : KVolatileBlob → ℕ → ℕ
byte_at b i = elim b.buffer [ none ↦ 0 | some f ↦ f i ]

-- The size fits the capacity, and only an empty buffer is null.
pub record Inv (b : KVolatileBlob) : Type 0 where
  pub fits : b.size ≤ b.capacity
  pub word : b.capacity < 2 ^ 64
  pub present : (b.capacity ≡ 0) ⊎ ((f : ℕ → ℕ) × (b.buffer ≡ some f))

-- The blob with the bytes of `buf` from `offset` on: zeros fill a gap before them.
abbrev pub expected : KVolatileBlob → ℕ → (ℕ → ℕ) → ℕ → ℕ → ℕ
expected b offset buf count i =
    if leb offset i && ltb i (offset + count)
    then buf (i - offset)
    else if ltb i b.size
    then byte_at b i
    else 0

-- What a `write` that returns `KOM_OK` leaves.
pub record Written (b : KVolatileBlob) (offset : ℕ) (buf : ℕ → ℕ) (count : ℕ) (b' : KVolatileBlob)
    : Type 0 where
  pub valid : Inv b'
  pub size : b'.size ≡ (if ltb b.size (offset + count) then offset + count else b.size)
  pub bytes : (i : ℕ) → i < b'.size → byte_at b' i ≡ expected b offset buf count i

pub byte_at-some : (b : KVolatileBlob) (f : ℕ → ℕ) (i : ℕ) → b.buffer ≡ some f → byte_at b i ≡ f i
unfolding byte_at
byte_at-some b f i e = rw e refl

pub no_buffer : (b : KVolatileBlob) → Inv b → b.buffer ≡ none → b.capacity ≡ 0
no_buffer b v e = elim v.present [ inl empty ↦ empty | inr (f, there) ↦ absurd (ground arith) ]

-- `fill` of a blob that is large enough.
fill-Written :
    (b : KVolatileBlob) (offset count : ℕ) (buf : ℕ → ℕ)
    → Inv b
    → offset + count ≤ b.capacity
    → (b' : KVolatileBlob) × (fill b offset buf count ≡ some (ok, count, b'))
      × Written b offset buf count b'
unfolding fill byte_at
fill-Written b offset count buf v h =
    let size = if ltb b.size (offset + count) then offset + count else b.size in
    let fits : size ≤ b.capacity = ground (arith, v.fits) in
    elim (Option-cases b.buffer) [
      | inl e ↦
          let empty = no_buffer b v e in
          let untouched : (ltb b.size offset || ltb 0 count) ≡ false = ground (arith, v.fits) in
          (
            record b { size = size },
            rw (e, fill, untouched, e) refl,
            record {
              valid = record { fits = fits; word = v.word; present = inl empty };
              size = refl;
              bytes = λ i l. absurd (omega (arith, fits));
            },
          )
      | inr (f, e) ↦
          let now = overlay (zeroed f b.size (offset - b.size)) offset count buf in
          (
            record b { size = size; buffer = some now },
            rw (e, fill) refl,
            record {
              valid = record { fits = fits; word = v.word; present = inr (now, refl) };
              size = refl;
              bytes = λ i l. ground (arith, byte_at-some b f i e);
            },
          )
    ]

-- A larger buffer with the same bytes.
pub grown-Inv :
    (b : KVolatileBlob) (new_cap : ℕ) (memory : ℕ → ℕ)
    → Inv b
    → b.capacity < new_cap
    → new_cap < 2 ^ 64
    → Inv (grown b new_cap memory)
      × ((i : ℕ) → i < b.size → byte_at (grown b new_cap memory) i ≡ byte_at b i)
unfolding byte_at
grown-Inv b new_cap memory v more word = elim (Option-cases b.buffer) [
  | inl e ↦
      let empty = no_buffer b v e in
      (
        record { fits = omega (arith, v.fits); word = word; present = inr (memory, rw e refl) },
        λ i l. absurd (omega (arith, v.fits)),
      )
  | inr (f, e) ↦ (
    record {
      fits = omega (arith, v.fits);
      word = word;
      present = inr (overlay memory 0 b.size f, rw e refl);
    },
    λ i l. rw e (ground arith),
  )
]

-- The three ways of a `write` of a range within 64 bits.
module _ (b : KVolatileBlob) (offset count : ℕ) (buf : ℕ → ℕ)
    (small : offset + count < 2 ^ 64) where
  write-enough :
      (memory : Option (ℕ → ℕ))
      → ltb b.capacity (offset + count) ≡ false
      → write memory b offset buf count ≡ fill b offset buf count
  unfolding write
  write-enough memory e =
      let end : (offset + count) % 2 ^ 64 ≡ offset + count = omega arith in
      let within : ltb (offset + count) offset ≡ false = ground arith in rw (end, within, e) refl

  write-fails :
      ltb b.capacity (offset + count) ≡ true
      → write none b offset buf count ≡ some (no_memory, 0, b)
  unfolding write
  write-fails e =
      let end : (offset + count) % 2 ^ 64 ≡ offset + count = omega arith in
      let within : ltb (offset + count) offset ≡ false = ground arith in rw (end, within, e) refl

  write-grows :
      (f : ℕ → ℕ)
      → ltb b.capacity (offset + count) ≡ true
      → write (some f) b offset buf count ≡ fill (grown b (offset + count) f) offset buf count
  unfolding write
  write-grows f e =
      let end : (offset + count) % 2 ^ 64 ≡ offset + count = omega arith in
      let within : ltb (offset + count) offset ≡ false = ground arith in rw (end, within, e) refl

-- What is written to the larger buffer is written to the blob.
grown-Written :
    (b b' : KVolatileBlob) (offset count new_cap : ℕ) (buf f : ℕ → ℕ)
    → ((i : ℕ) → i < b.size → byte_at (grown b new_cap f) i ≡ byte_at b i)
    → Written (grown b new_cap f) offset buf count b'
    → Written b offset buf count b'
grown-Written b b' offset count new_cap buf f same w = record {
  valid = w.valid;
  size = w.size;
  bytes = λ i l. w.bytes i l ∙ kept i;
}
  where
    kept : (i : ℕ) → expected (grown b new_cap f) offset buf count i ≡ expected b offset buf count i
    kept i = ground (arith, same i)

pub write-Written :
    (memory : Option (ℕ → ℕ)) (b : KVolatileBlob) (offset count : ℕ) (buf : ℕ → ℕ)
    → Inv b
    → offset + count < 2 ^ 64
    → (write memory b offset buf count ≡ some (no_memory, 0, b))
      ⊎ ((b' : KVolatileBlob) × (write memory b offset buf count ≡ some (ok, count, b'))
          × Written b offset buf count b')
write-Written memory b offset count buf v small =
    elim (Bool-cases (ltb b.capacity (offset + count))) [
      | inr enough ↦
          let (b', e, w) = fill-Written b offset count buf v (ground arith) in
          inr (b', write-enough b offset count buf small memory enough ∙ e, w)
      | inl more ↦ go memory more
    ]
  where
    go :
        (memory : Option (ℕ → ℕ))
        → ltb b.capacity (offset + count) ≡ true
        → (write memory b offset buf count ≡ some (no_memory, 0, b))
          ⊎ ((b' : KVolatileBlob) × (write memory b offset buf count ≡ some (ok, count, b'))
              × Written b offset buf count b')
    go none more = inl (write-fails b offset count buf small more)
    go (some f) more =
        let (v', same) =
          grown-Inv b (offset + count) f v (ltb→lt b.capacity (offset + count) more) small in
        let (b', done, w) =
          fill-Written (grown b (offset + count) f) offset count buf v' (omega arith) in
        inr (
          b',
          write-grows b offset count buf small f more ∙ done,
          grown-Written b b' offset count (offset + count) buf f same w,
        )

-- `read` touches no null buffer and returns `KOM_OK`: it gives the bytes of the blob from `offset`
-- on, `count` of them or as many as there are, and leaves the rest of the caller's buffer alone.
pub read-bytes :
    (b : KVolatileBlob) (offset count : ℕ) (buf : ℕ → ℕ)
    → Inv b
    → (n : ℕ) × (buf' : ℕ → ℕ) × (read b offset buf count ≡ some (ok, n, buf'))
      × (n ≡ (if ltb count (b.size - offset) then count else b.size - offset))
      × ((i : ℕ) → buf' i ≡ (if ltb i n then byte_at b (offset + i) else buf i))
unfolding read byte_at
read-bytes b offset count buf v = elim (Option-cases b.buffer) [
  | inl e ↦
      let empty = no_buffer b v e in
      let over : leb b.size offset ≡ true = ground (arith, v.fits) in
      (0, buf, rw over refl, ground (arith, v.fits), λ i. ground arith)
  | inr (f, e) ↦ elim (Bool-cases (leb b.size offset)) [
    | inl over ↦ (0, buf, rw over refl, ground arith, λ i. ground arith)
    | inr inside ↦
        let n = if ltb count (b.size - offset) then count else b.size - offset in
        (
          n,
          overlay buf 0 n (λ i. f (offset + i)),
          rw (inside, e, read) refl,
          refl,
          λ i. rw e (ground arith),
        )
  ]
]

-- What `write` put at an offset, a `read` of the same range gives back, both with `KOM_OK`, unless
-- `kmalloc` fails.
pub read-write_blob :
    (memory : Option (ℕ → ℕ)) (b : KVolatileBlob) (offset count : ℕ) (buf out : ℕ → ℕ)
    → Inv b
    → offset + count < 2 ^ 64
    → (write memory b offset buf count ≡ some (no_memory, 0, b))
      ⊎ ((b' : KVolatileBlob) × (out' : ℕ → ℕ) × (write memory b offset buf count
            ≡ some (ok, count, b'))
          × (read b' offset out count ≡ some (ok, count, out'))
          × ((i : ℕ) → i < count → out' i ≡ buf i))
read-write_blob memory b offset count buf out v small =
    elim (write-Written memory b offset count buf v small) [
      | inl full ↦ inl full
      | inr (b', done, w) ↦
          let (n, out', e, len, got) = read-bytes b' offset count out w.valid in
          let whole : n ≡ count = ground (arith, w.size) in
          inr (
            b',
            out',
            done,
            e ∙ ap (λ k. some (ok, k, out')) whole,
            λ i l. ground (arith, got i, w.bytes (offset + i), w.size),
          )
    ]
