-- ===== src/Kom/Blob.antt =====
-- archs/kom/common/kblob.cpp and kblob.hpp: `KVolatileBlob`, a growing array of bytes.
-- The buffer is a function from the offset, `none` for null. What `kmalloc` returns holds arbitrary
-- bytes, which are a parameter. A method that would touch memory through a null buffer gives `none`.
pub mod Bytes
pub mod Resize
mod Tests
use singularity.Common.{
  ℕ, zero, suc, ◌+◌, ◌-◌, ◌%◌, ◌^◌, Bool, true, false, not, ◌&&◌, ◌||◌, Option, none, some, ◌==◌,
  ltb, leb, if◌then◌else◌,
}
use singularity.Kom.Error.{Error, ok, no_memory, io}

pub record KVolatileBlob : Type 0 where
  pub size : ℕ
  pub capacity : ℕ
  pub buffer : Option (ℕ → ℕ)

abbrev pub empty_blob : KVolatileBlob
empty_blob = record { size = 0; capacity = 0; buffer = none }

-- The bytes `xs` from `at` on, `n` of them, over `f`: `memcpy` of `n` bytes to `f + at`.
abbrev pub overlay : (ℕ → ℕ) → ℕ → ℕ → (ℕ → ℕ) → ℕ → ℕ
overlay f at n xs i = if leb at i && ltb i (at + n) then xs (i - at) else f i

-- The constructor with data, `none` for a null pointer; `memory` is what `kmalloc` returns.
unfoldable pub with_data : Option (ℕ → ℕ) → Option (ℕ → ℕ) → ℕ → KVolatileBlob
with_data memory source data_size =
    let buffer : Option (ℕ → ℕ) = elim memory [
      | none ↦ none
      | some f ↦ elim source [ none ↦ some f | some xs ↦ some (overlay f 0 data_size xs) ]
    ] in
    record {
      size = data_size;
      capacity = data_size;
      buffer = if ltb 0 data_size then buffer else none;
    }

-- `read` into `buf`: the error, `bytes_read` and the caller's buffer.
unfoldable pub read : KVolatileBlob → ℕ → (ℕ → ℕ) → ℕ → Option (Error × ℕ × (ℕ → ℕ))
read b offset buf count =
    let available = b.size - offset in
    let to_read = if ltb count available then count else available in
    if leb b.size offset then some (ok, 0, buf) else elim b.buffer [
      | none ↦ if to_read == 0 then some (ok, 0, buf) else none
      | some f ↦ some (ok, to_read, overlay buf 0 to_read (λ i. f (offset + i)))
    ]

-- The blob after `kmalloc`, `memcpy` of the old bytes and `kfree`.
abbrev pub grown : KVolatileBlob → ℕ → (ℕ → ℕ) → KVolatileBlob
grown b new_cap memory = record b {
  capacity = new_cap;
  buffer = elim b.buffer [ none ↦ some memory | some f ↦ some (overlay memory 0 b.size f) ];
}

-- `memset` of `n` bytes from `at` on.
abbrev pub zeroed : (ℕ → ℕ) → ℕ → ℕ → ℕ → ℕ
zeroed f at n = overlay f at n (λ _. 0)

-- What `write` does once the buffer is large enough.
unfoldable pub fill : KVolatileBlob → ℕ → (ℕ → ℕ) → ℕ → Option (Error × ℕ × KVolatileBlob)
fill b offset buf count =
    let size = if ltb b.size (offset + count) then offset + count else b.size in
    elim b.buffer [
      | none ↦
          if ltb b.size offset || ltb 0 count
          then none
          else some (ok, count, record b { size = size })
      | some f ↦ some (
        ok,
        count,
        record b {
          size = size;
          buffer = some (overlay (zeroed f b.size (offset - b.size)) offset count buf);
        },
      )
    ]

-- `offset` and `count` are 64-bit words. The error, `bytes_written` and the blob.
unfoldable pub write :
    Option (ℕ → ℕ) → KVolatileBlob → ℕ → (ℕ → ℕ) → ℕ → Option (Error × ℕ × KVolatileBlob)
write memory b offset buf count =
    let end = (offset + count) % 2 ^ 64 in
    if ltb end offset
    then some (io, 0, b)
    else if ltb b.capacity end
    then elim memory [
      | none ↦ some (no_memory, 0, b)
      | some f ↦ fill (grown b end f) offset buf count
    ]
    else fill b offset buf count

-- What `resize` does once the buffer is large enough.
unfoldable pub set_size : KVolatileBlob → ℕ → Option (Error × KVolatileBlob)
set_size b new_size = elim b.buffer [
  | none ↦ if ltb b.size new_size then none else some (ok, record b { size = new_size })
  | some f ↦
      some (ok, record b { size = new_size; buffer = some (zeroed f b.size (new_size - b.size)) })
]

unfoldable pub resize : Option (ℕ → ℕ) → KVolatileBlob → ℕ → Option (Error × KVolatileBlob)
resize memory b new_size =
    if ltb b.capacity new_size
    then elim memory [
      | none ↦ some (no_memory, b)
      | some f ↦ set_size (grown b new_size f) new_size
    ]
    else set_size b new_size
