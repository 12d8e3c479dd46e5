-- ===== src/Kom/Blob/Tests.antt =====
-- A blob of the bytes 5 and 6, with room for two.
use singularity.Common.{
  ℕ, ◌+◌, ◌-◌, ◌^◌, ◌<◌, ◌≡◌, refl, Option, none, some, arith, ltb, if◌then◌else◌, ◌⊎◌, inr,
}
use singularity.Kom.Error.{ok, no_memory, io}
use singularity.Kom.Blob.{KVolatileBlob, with_data, read, write, resize, fill}
use singularity.Kom.Blob.Bytes.{byte_at, Inv, read-bytes, read-write_blob}
use singularity.Kom.Blob.Resize.{Resized, resize-Resized}

abbrev five_six : ℕ → ℕ
five_six i = 5 + i

abbrev stored : KVolatileBlob
stored = record { size = 2; capacity = 2; buffer = some five_six }

abbrev junk : Option (ℕ → ℕ)
junk = some (λ _. 255)

abbrev sevens : ℕ → ℕ
sevens _ = 7

stored-Inv : Inv stored
stored-Inv = record { fits = omega arith; word = omega arith; present = inr (five_six, refl) }

with_data_test : (with_data junk (some five_six) 2).size ≡ 2
unfolding with_data
with_data_test = refl

-- A blob for which `kmalloc` failed has a capacity and no buffer: a `write` goes through the null pointer.
no_buffer_test : write junk (with_data none (some five_six) 2) 0 sevens 1 ≡ none
unfolding write with_data fill
no_buffer_test = refl

overflow_test : write junk stored (2 ^ 64 - 1) sevens 2 ≡ some (io, 0, stored)
unfolding write
overflow_test = refl

read-bytes_test :
    (n : ℕ) × (buf' : ℕ → ℕ) × (read stored 1 sevens 8 ≡ some (ok, n, buf'))
    × (n ≡ 1)
    × ((i : ℕ) → buf' i ≡ (if ltb i n then byte_at stored (1 + i) else 7))
read-bytes_test = read-bytes stored 1 8 sevens stored-Inv

read-write_blob_test :
    (write junk stored 3 sevens 1 ≡ some (no_memory, 0, stored))
    ⊎ ((b' : KVolatileBlob) × (out' : ℕ → ℕ) × (write junk stored 3 sevens 1 ≡ some (ok, 1, b'))
        × (read b' 3 five_six 1 ≡ some (ok, 1, out'))
        × ((i : ℕ) → i < 1 → out' i ≡ 7))
read-write_blob_test = read-write_blob junk stored 3 1 sevens five_six stored-Inv (omega arith)

resize-Resized_test :
    (resize junk stored 4 ≡ some (no_memory, stored))
    ⊎ ((b' : KVolatileBlob) × (resize junk stored 4 ≡ some (ok, b')) × Resized stored 4 b')
resize-Resized_test = resize-Resized junk stored 4 stored-Inv (omega arith)
