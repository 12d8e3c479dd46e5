-- ===== src/Disk/Partition/Bounds.antt =====
-- partition.cpp: which sectors of the disk a partition lets through.
use singularity.Common.{
  ℕ, ◌+◌, ◌-◌, ◌/◌, ◌%◌, ◌^◌, ◌≤◌, ◌<◌, ◌≡◌, refl, Bool, true, false, Option, none, some, arith,
  ◌==◌, leb, if◌then◌else◌, List, [], ◌∷◌, Bool-cases, inl, inr, ◌⊎◌, if_elim, ◌∙◌,
}
use singularity.Disk.Partition.{
  PartitionDevice, Request, blocks, vector, create, rejects, read_block, write_block, total_blocks,
  read_vector, write_vector,
}

-- All the blocks of the vectors, without the 32-bit wrap-around, each rounded down.
unfoldable pub sum_blocks : ℕ → List ℕ → ℕ
sum_blocks bs [] = 0
sum_blocks bs (size ∷ sizes) = size / bs + sum_blocks bs sizes

total_blocks-sum :
    (bs total : ℕ) (sizes : List ℕ)
    → total + sum_blocks bs sizes < 2 ^ 32
    → total_blocks bs total sizes ≡ total + sum_blocks bs sizes
unfolding total_blocks sum_blocks
total_blocks-sum bs total [] h = omega arith
total_blocks-sum bs total (size ∷ sizes) h =
    let fits : (total + size / bs) % 2 ^ 32 ≡ total + size / bs = omega arith in
    rw fits (omega (arith, total_blocks-sum bs (total + size / bs) sizes (omega arith)))

-- Where the requests of a partition of the sectors from `start` to `end` may go.
abbrev pub IsInside : ℕ → ℕ → ℕ → Option Request → Type 0
IsInside bs start end none = Unit
IsInside bs start end (some (blocks lba count)) = (start ≤ lba) × (lba + count ≤ end + 1)
IsInside bs start end (some (vector lba sizes)) =
    (start ≤ lba) × (lba + sum_blocks bs sizes ≤ end + 1)

module _ (bs start end : ℕ) (protected : Bool) (proper : start ≤ end)
    (small : end < 2 ^ 64 - 1) where
  accepted :
      (lba n : ℕ)
      → n < 2 ^ 32
      → lba < 2 ^ 64
      → rejects (create bs protected start end) lba n ≡ false
      → (start ≤ (start + lba) % 2 ^ 64) × ((start + lba) % 2 ^ 64 + n ≤ end + 1)
  unfolding rejects create
  accepted lba n h l e =
      let order : leb start end ≡ true = ground arith in
      let count : (end - start + 1) % 2 ^ 64 ≡ end - start + 1 = omega arith in
      let same : (lba + n) % 2 ^ 64 ≡ lba + n = ground arith in
      let within : lba + n ≤ end - start + 1 = ground arith in omega (arith, within)

  blocks-IsInside :
      (lba n : ℕ)
      → n < 2 ^ 32
      → lba < 2 ^ 64
      → IsInside bs start end (
          if rejects (create bs protected start end) lba n
          then none
          else some (blocks ((start + lba) % 2 ^ 64) n))
  blocks-IsInside lba n h l = elim (Bool-cases (rejects (create bs protected start end) lba n)) [
    | inl e ↦ rw e tt
    | inr e ↦ rw e (accepted lba n h l e)
  ]

  vector-IsInside :
      (lba : ℕ) (sizes : List ℕ)
      → sum_blocks bs sizes < 2 ^ 32
      → lba < 2 ^ 64
      → IsInside bs start end (
          if rejects (create bs protected start end) lba (total_blocks bs 0 sizes)
          then none
          else some (vector ((start + lba) % 2 ^ 64) sizes))
  vector-IsInside lba sizes s l =
      let total : total_blocks bs 0 sizes ≡ sum_blocks bs sizes =
        total_blocks-sum bs 0 sizes (omega arith) ∙ omega arith in
      rw total
        (elim (Bool-cases (rejects (create bs protected start end) lba (sum_blocks bs sizes))) [
          | inl e ↦ rw e tt
          | inr e ↦ rw e (accepted lba (sum_blocks bs sizes) s l e)
        ])

  -- Whatever sector and number a caller asks for, also where their sum wraps around: the reads and
  -- writes that a partition passes on to its disk lie between its first and its last sector, counting
  -- only the whole blocks of each vector, as long as these are fewer than 2^32. A partition that is
  -- write-protected passes no write on.
  pub requests-IsInside :
      (lba count : ℕ) (sizes : List ℕ)
      → lba < 2 ^ 64
      → count < 2 ^ 32
      → sum_blocks bs sizes < 2 ^ 32
      → let p = create bs protected start end in
        IsInside bs start end (read_block p lba count)
        × IsInside bs start end (read_vector p lba sizes)
        × IsInside bs start end (write_block p lba count)
        × IsInside bs start end (write_vector p lba sizes)
        × ((protected ≡ false)
            ⊎ ((write_block p lba count ≡ none) × (write_vector p lba sizes ≡ none)))
  unfolding create read_block read_vector write_block write_vector
  requests-IsInside lba count sizes l c s =
      let inside_blocks = blocks-IsInside lba count c l in
      let inside_vector = vector-IsInside lba sizes s l in
      let P = IsInside bs start end in
      (
        inside_blocks,
        if_elim P (bs == 0) tt inside_vector,
        if_elim P protected tt inside_blocks,
        if_elim P protected tt (if_elim P (bs == 0) tt inside_vector),
        elim (Bool-cases protected) [ inl e ↦ inr (rw e refl, rw e refl) | inr e ↦ inl e ],
      )

-- A vector request whose pieces are each shorter than a block is passed on at the sector after the
-- last one of the partition, where nothing belongs to it.
pub read_vector-escapes :
    (p : PartitionDevice) (sizes : List ℕ)
    → 0 < p.block_size
    → sum_blocks p.block_size sizes ≡ 0
    → p.sector_count < 2 ^ 64
    → read_vector p p.sector_count sizes
      ≡ some (vector ((p.start_lba + p.sector_count) % 2 ^ 64) sizes)
unfolding read_vector rejects
read_vector-escapes p sizes some_size none_whole small =
    let total = total_blocks-sum p.block_size 0 sizes (omega arith) in ground arith
