-- ===== src/Kom/Blob/Resize.antt =====
-- kblob.cpp: `resize`.
use singularity.Common.{
  ℕ, ◌-◌, ◌≤◌, ◌<◌, ◌≡◌, refl, ◌^◌, true, false, Option, none, some, arith, ltb, if◌then◌else◌, ◌⊎◌,
  inl, inr, Bool-cases, ltb→lt, Option-cases, ◌∙◌,
}
use singularity.Kom.Error.{ok, no_memory}
use singularity.Kom.Blob.{KVolatileBlob, grown, zeroed, set_size, resize}
use singularity.Kom.Blob.Bytes.{byte_at, Inv, byte_at-some, no_buffer, grown-Inv}

-- The blob cut to a size, or filled up to it with zeros.
pub record Resized (b : KVolatileBlob) (new_size : ℕ) (b' : KVolatileBlob) : Type 0 where
  pub valid : Inv b'
  pub size : b'.size ≡ new_size
  pub bytes : (i : ℕ) → i < new_size → byte_at b' i ≡ (if ltb i b.size then byte_at b i else 0)

set_size-Resized :
    (b : KVolatileBlob) (new_size : ℕ)
    → Inv b
    → new_size ≤ b.capacity
    → (b' : KVolatileBlob) × (set_size b new_size ≡ some (ok, b')) × Resized b new_size b'
unfolding set_size byte_at
set_size-Resized b new_size v h = elim (Option-cases b.buffer) [
  | inl e ↦
      let empty = no_buffer b v e in
      let untouched : ltb b.size new_size ≡ false = ground (arith, v.fits) in
      (
        record b { size = new_size },
        rw (e, set_size, untouched, e) refl,
        record {
          valid = record { fits = h; word = v.word; present = inl empty };
          size = refl;
          bytes = λ i l. absurd (omega arith);
        },
      )
  | inr (f, e) ↦
      let now = zeroed f b.size (new_size - b.size) in
      (
        record b { size = new_size; buffer = some now },
        rw (e, set_size) refl,
        record {
          valid = record { fits = h; word = v.word; present = inr (now, refl) };
          size = refl;
          bytes = λ i l. ground (arith, byte_at-some b f i e);
        },
      )
]

grown-Resized :
    (b b' : KVolatileBlob) (new_size : ℕ) (f : ℕ → ℕ)
    → ((i : ℕ) → i < b.size → byte_at (grown b new_size f) i ≡ byte_at b i)
    → Resized (grown b new_size f) new_size b'
    → Resized b new_size b'
grown-Resized b b' new_size f same r = record {
  valid = r.valid;
  size = r.size;
  bytes = λ i l. r.bytes i l ∙ kept i;
}
  where
    kept :
        (i : ℕ)
        → (if ltb i (grown b new_size f).size then byte_at (grown b new_size f) i else 0)
          ≡ (if ltb i b.size then byte_at b i else 0)
    kept i = ground (arith, same i)

-- `resize` to a size within 64 bits touches no null buffer. It returns `KOM_ERR_NO_MEMORY` with the
-- blob unchanged, if `kmalloc` fails, or `KOM_OK`: then the blob has the new size, what it held below
-- both sizes, and zeros above the old one.
pub resize-Resized :
    (memory : Option (ℕ → ℕ)) (b : KVolatileBlob) (new_size : ℕ)
    → Inv b
    → new_size < 2 ^ 64
    → (resize memory b new_size ≡ some (no_memory, b))
      ⊎ ((b' : KVolatileBlob) × (resize memory b new_size ≡ some (ok, b')) × Resized b new_size b')
unfolding resize
resize-Resized memory b new_size v small = elim (Bool-cases (ltb b.capacity new_size)) [
  | inr enough ↦
      let (b', e, r) = set_size-Resized b new_size v (ground arith) in inr (b', rw enough e, r)
  | inl more ↦ go memory more
]
  where
    go :
        (memory : Option (ℕ → ℕ))
        → ltb b.capacity new_size ≡ true
        → (resize memory b new_size ≡ some (no_memory, b))
          ⊎ ((b' : KVolatileBlob) × (resize memory b new_size ≡ some (ok, b'))
              × Resized b new_size b')
    go none more = inl (rw more refl)
    go (some f) more =
        let (v', same) = grown-Inv b new_size f v (ltb→lt b.capacity new_size more) small in
        let (b', done, r) = set_size-Resized (grown b new_size f) new_size v' (omega arith) in
        inr (b', rw more done, grown-Resized b b' new_size f same r)
