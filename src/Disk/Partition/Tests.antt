-- ===== src/Disk/Partition/Tests.antt =====
-- A partition of the sectors 100 to 199.
use singularity.Common.{◌^◌, ◌<◌, ◌≡◌, refl, false, none, some, arith, [], ◌∷◌, ◌⊎◌}
use singularity.Disk.Partition.{
  PartitionDevice, blocks, vector, create, rejects, read_block, write_block, read_vector,
  write_vector,
}
use singularity.Disk.Partition.Bounds.{IsInside, sum_blocks, requests-IsInside, read_vector-escapes}

abbrev hundred : PartitionDevice
hundred = record { start_lba = 100; sector_count = 100; block_size = 512; write_protected = false }

create_test : create 512 false 100 199 ≡ hundred
unfolding create
create_test = refl

read_test : read_block hundred 99 1 ≡ some (blocks 199 1)
unfolding read_block rejects
read_test = refl

outside_test : read_block hundred 99 2 ≡ none
unfolding read_block rejects
outside_test = refl

few : sum_blocks 512 (1024 ∷ []) < 2 ^ 32
unfolding sum_blocks
few = omega arith

requests-IsInside_example :
    let p = create 512 false 100 199 in
    IsInside 512 100 199 (read_block p 98 2)
    × IsInside 512 100 199 (read_vector p 98 (1024 ∷ []))
    × IsInside 512 100 199 (write_block p 98 2)
    × IsInside 512 100 199 (write_vector p 98 (1024 ∷ []))
    × ((false ≡ false) ⊎ ((write_block p 98 2 ≡ none) × (write_vector p 98 (1024 ∷ []) ≡ none)))
requests-IsInside_example =
    requests-IsInside 512 100 199 false (omega arith) (omega arith) 98 2 (1024 ∷ []) (omega arith)
      (omega arith) few

none_whole : sum_blocks 512 (511 ∷ []) ≡ 0
unfolding sum_blocks
none_whole = refl

read_vector-escapes_test : read_vector hundred 100 (511 ∷ []) ≡ some (vector 200 (511 ∷ []))
read_vector-escapes_test =
    read_vector-escapes hundred (511 ∷ []) (omega arith) none_whole (omega arith)
