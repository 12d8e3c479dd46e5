-- ===== src/Disk/Cache/Tests.antt =====
-- A cache of two ways in the set of sector 5 of device 1, one of them that sector.
use singularity.Common.{
  ℕ, Bool, List, ◌*◌, ◌≡◌, refl, true, false, some, arith, ◌==◌, if◌then◌else◌, [], ◌∷◌, ◌⊎◌,
  get_elem?,
}
use singularity.Disk.Cache.{
  World, Env, CacheEntry, Sector, hash, hash_bytes, find_way, change_way, target_mapped, read_loop,
  read_round, write_round, write_loop, fill, victim, init, read_block, write_block, write_vector,
  flush_all, get_cache_size,
}
use singularity.Disk.Cache.Coherence.{IsCoherent}
use singularity.Disk.Cache.Calls.{ReadsBlock}
use singularity.Disk.Cache.Outcome.{IsPrefix, write_block-IsPrefix}
use singularity.Disk.Cache.Transparency.{
  Call, reads, writes, run, step, read_block-run, read_block-write_block,
  read_block-write_vector_stale,
}
use singularity.Disk.Cache.Victim.{IsUsedSince, victim_lem}
use singularity.Disk.Cache.Size.{flush_all_lem}

abbrev sector_five : CacheEntry
sector_five = record { lba = 5; device = 1; content = 7 ∷ []; valid = true; last_access = 40 }

abbrev spare : CacheEntry
spare = record { lba = 0; device = 0; content = []; valid = false; last_access = 0 }

-- Every sector of every device holds one byte, 7.
abbrev warm : World
warm = record {
  sets = λ i. if hash 1 5 == i then sector_five ∷ spare ∷ [] else spare ∷ spare ∷ [];
  disk = λ _ _. 7 ∷ [];
}

abbrev healthy : ℕ → Env
healthy _ = record {
  allocated = true;
  device_ok = true;
  stored = 0;
  mapped = λ _. true;
  ticks = 90;
}

abbrev blank : ℕ → Sector
blank _ = []

warm-IsCoherent : IsCoherent warm
warm-IsCoherent = record { lines = λ s. ground arith; distinct = λ s. ground arith }

hash_test : hash 1 5 ≡ 97
unfolding hash hash_bytes
hash_test = refl

abbrev written : World
written = (write_block healthy 512 1 5 1 4096 (λ _. 9 ∷ []) warm).1

read_hit_test : (read_block healthy 512 1 5 1 4096 warm blank).2 0 ≡ 7 ∷ []
unfolding read_block read_loop read_round find_way target_mapped hash hash_bytes
read_hit_test = refl

-- The spare way takes the next sector.
fill_test : get_elem? (fill 1 6 (3 ∷ []) 90 (sector_five ∷ spare ∷ [])) 0 ≡ some sector_five
unfolding fill victim
fill_test = refl

read_block-run_example :
    let now = run (init warm) (reads healthy 512 1 5 1 4096 blank ∷ []) in
    ReadsBlock now 1 5 1 0 blank (read_block healthy 512 1 5 1 4096 now blank)
read_block-run_example =
    read_block-run warm (reads healthy 512 1 5 1 4096 blank ∷ []) healthy 512 1 5 1 4096 blank

write_block-IsPrefix_example :
    IsCoherent written
    × IsPrefix warm 1 5 1
        (λ _. 9 ∷ [])
        false
        (write_block healthy 512 1 5 1 4096 (λ _. 9 ∷ []) warm)
write_block-IsPrefix_example =
    write_block-IsPrefix healthy 512 1 5 1 4096 (λ _. 9 ∷ []) warm warm-IsCoherent

-- Sector 5 is read, so that it is in the cache; it is written; then sector 6 is written.
abbrev before : List Call
before = reads healthy 512 1 5 1 4096 blank ∷ []

abbrev after : List Call
after = writes healthy 512 1 6 1 4096 (λ _. 3 ∷ []) ∷ reads healthy 512 1 5 1 4096 blank ∷ []

write_ok : (write_block healthy 512 1 5 1 4096 (λ _. 9 ∷ []) (run (init warm) before)).0 ≡ true
unfolding write_block write_loop write_round target_mapped
write_ok = refl

abbrev last_read : Bool × World × (ℕ → Sector)
last_read =
    read_block healthy 512 1 5 1 4096
      (run (write_block healthy 512 1 5 1 4096 (λ _. 9 ∷ []) (run (init warm) before)).1 after)
      blank

read_ok : last_read.0 ≡ true
unfolding read_block read_loop read_round find_way change_way target_mapped hash hash_bytes
    write_block write_loop write_round init run step fill victim
read_ok = refl

read_block-write_block_example : last_read.2 0 ≡ 9 ∷ []
read_block-write_block_example =
    read_block-write_block warm before after healthy healthy 512 1 5 1 4096 4096 (λ _. 9 ∷ []) blank
      0 (omega arith) (omega arith) write_ok ((λ k h. ground arith), (tt, tt)) read_ok

read_block-write_vector_stale_example :
    let (written, w') = write_vector (healthy 0) 1 5 1 1 (some (λ _. 9 ∷ [])) warm in
    let (read, _, result) = read_block healthy 512 1 5 1 4096 w' blank in
    (written ≡ true) × (w'.disk 1 5 ≡ 9 ∷ []) × (read ≡ true) × (result 0 ≡ 7 ∷ [])
unfolding find_way target_mapped hash hash_bytes
read_block-write_vector_stale_example =
    read_block-write_vector_stale warm (healthy 0) healthy 1 5 4096 1 sector_five (λ _. 9 ∷ [])
      blank warm-IsCoherent refl (omega arith) (omega arith) refl refl refl

victim_lem_test :
    (e : CacheEntry) × (get_elem? (sector_five ∷ spare ∷ []) (victim (sector_five ∷ spare ∷ []))
      ≡ some e)
    × ((e.valid ≡ false) ⊎ IsUsedSince e.last_access (sector_five ∷ spare ∷ []))
victim_lem_test = victim_lem (sector_five ∷ spare ∷ []) (λ e. cc) (omega arith)

flush_all_lem_test :
    (512 * (flush_all warm).0 ≡ get_cache_size warm)
    × (get_cache_size (flush_all warm).1 ≡ 0)
    × ((flush_all warm).1.disk ≡ warm.disk)
flush_all_lem_test = flush_all_lem warm
