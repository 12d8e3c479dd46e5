-- ===== src/Disk/Partition.antt =====
-- system/device/partition.cpp and partition.h: a partition passes requests on to its disk.
-- What an access does is the request that reaches the parent, `none` when it returns 0 at once. A
-- vector is known by its size.
pub mod Bounds
mod Tests
use singularity.Common.{
  ℕ, ◌+◌, ◌-◌, ◌/◌, ◌%◌, ◌^◌, Bool, true, false, ◌||◌, Option, none, some, ◌==◌, ltb, leb,
  if◌then◌else◌, List, [], ◌∷◌, ◌*◌,
}

-- `block_size` is the parent's.
pub record PartitionDevice : Type 0 where
  pub start_lba : ℕ
  pub sector_count : ℕ
  pub block_size : ℕ
  pub write_protected : Bool

-- The parent's `readBlock`, `writeBlock`, `read_vector` or `write_vector` from a sector on, of a
-- number of sectors or of vectors of these sizes.
pub data Request : Type 0 where
  blocks : ℕ → ℕ → Request
  vector : ℕ → List ℕ → Request

-- The constructor, for the sectors from `start` to `end`.
unfoldable pub create : ℕ → Bool → ℕ → ℕ → PartitionDevice
create block_size write_protected start end = record {
  start_lba = start;
  sector_count = if leb start end then (end - start + 1) % 2 ^ 64 else 0;
  block_size = block_size;
  write_protected = write_protected;
}

-- The checks that `lba + count` neither wraps around nor is past the end.
unfoldable pub rejects : PartitionDevice → ℕ → ℕ → Bool
rejects p lba count = let end = (lba + count) % 2 ^ 64 in ltb end lba || ltb p.sector_count end

unfoldable pub read_block : PartitionDevice → ℕ → ℕ → Option Request
read_block p lba count =
    if rejects p lba count then none else some (blocks ((p.start_lba + lba) % 2 ^ 64) count)

unfoldable pub write_block : PartitionDevice → ℕ → ℕ → Option Request
write_block p lba count =
    if p.write_protected
    then none
    else if rejects p lba count
    then none
    else some (blocks ((p.start_lba + lba) % 2 ^ 64) count)

-- `total_blocks += vectors[i].size / bs` on a `uint32_t`, for all vectors.
unfoldable pub total_blocks : ℕ → ℕ → List ℕ → ℕ
total_blocks bs total [] = total
total_blocks bs total (size ∷ sizes) = total_blocks bs ((total + size / bs) % 2 ^ 32) sizes

unfoldable pub read_vector : PartitionDevice → ℕ → List ℕ → Option Request
read_vector p lba sizes =
    if p.block_size == 0
    then none
    else if rejects p lba (total_blocks p.block_size 0 sizes)
    then none
    else some (vector ((p.start_lba + lba) % 2 ^ 64) sizes)

unfoldable pub write_vector : PartitionDevice → ℕ → List ℕ → Option Request
write_vector p lba sizes =
    if p.write_protected
    then none
    else if p.block_size == 0
    then none
    else if rejects p lba (total_blocks p.block_size 0 sizes)
    then none
    else some (vector ((p.start_lba + lba) % 2 ^ 64) sizes)
