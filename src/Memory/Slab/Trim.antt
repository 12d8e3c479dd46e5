-- ===== src/Memory/Slab/Trim.antt =====
-- kheap_slab.cpp: what `trim` gives back.
use singularity.Common.{ℕ, ◌+◌, ◌*◌, ◌≡◌, List, [], ◌∷◌}
use singularity.Memory.Arena
use singularity.Memory.Arena.{VmArena}
use singularity.Memory.Slab.{Store, slab_pages}

-- What the loop of `trim` leaves alone, and what it takes.
record Trimmed (t t' : Store) (n : ℕ) : Type 0 where
  obj_size : t'.cache.obj_size ≡ t.cache.obj_size
  partial : t'.cache.partial ≡ t.cache.partial
  full : t'.cache.full ≡ t.cache.full
  slabs : t'.slabs ≡ t.slabs
  memory : t'.memory ≡ t.memory
  pages :
      t'.cache.total_pages_allocated + n * slab_pages t.cache.obj_size
      ≡ t.cache.total_pages_allocated

-- The arena with the pages of the slabs given back to it one after the other.
abbrev pub pages_back : ℕ → VmArena → List ℕ → VmArena
pages_back pages a [] = a
pages_back pages a (s ∷ rest) = pages_back pages (Arena.free a s pages) rest
