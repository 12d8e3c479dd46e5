-- ===== src/Memory/Slab/Sound.antt =====
-- kheap_slab.cpp: what holds of a slab cache between its calls.
use singularity.Common.{
  ℕ, ◌+◌, ◌*◌, ◌%◌, ◌^◌, ◌≤◌, ◌<◌, ◌≡◌, ◌≢◌, arith, List, [], ◌∷◌, length, All, Distinct, ◌⊎◌,
}
use singularity.Memory.Arena.{page_size}
use singularity.Memory.Words.{Memory, load}
use singularity.Memory.Slab.Lists.{occurs}
use singularity.Memory.Slab.{Slab, SlabCache, Store, slab_pages, slab_of}

-- An address that the cache hands out of the slab `s`.
pub record IsSlot (obj_size s x : ℕ) : Type 0 where
  pub inside : slab_of obj_size x ≡ s
  pub aligned : x % 8 ≡ 0
  pub not_null : 0 < x
  pub word : x < 2 ^ 64

-- From the address `h` the first words of the objects lead through the list to null.
abbrev pub Chain : Memory → ℕ → List ℕ → Type 0
Chain m h [] = h ≡ 0
Chain m h (x ∷ xs) = (h ≡ x) × Chain m (load m x) xs

-- `free` are the slab's free objects.
pub record IsSlab (obj_size : ℕ) (m : Memory) (slab : Slab) (s : ℕ) (free : List ℕ) : Type 0 where
  pub pages : slab.page_count ≡ slab_pages obj_size
  pub counted : length free + slab.used_count ≡ slab.total_count
  pub positive : 0 < slab.total_count
  pub bounded : slab.total_count < 2 ^ 16
  pub chain : Chain m slab.free_list free
  pub slots : All (IsSlot obj_size s) free
  pub distinct : Distinct free

module _ (t : Store) (free : ℕ → List ℕ) where
  abbrev pub IsGood : ℕ → Type 0
  IsGood s = IsSlab t.cache.obj_size t.memory (t.slabs s) s (free s)

  abbrev pub IsPartial : ℕ → Type 0
  IsPartial s =
      IsGood s × (0 < (t.slabs s).used_count) × ((t.slabs s).used_count < (t.slabs s).total_count)

  abbrev pub IsFull : ℕ → Type 0
  IsFull s = IsGood s × ((t.slabs s).used_count ≡ (t.slabs s).total_count)

  abbrev pub IsEmpty : ℕ → Type 0
  IsEmpty s = IsGood s × ((t.slabs s).used_count ≡ 0)

  -- Every slab that is in a list is in the one that its counters say, once, and its free objects are what its counters
  -- leave.
  pub record IsSound : Type 0 where
    pub partial : All IsPartial t.cache.partial
    pub full : All IsFull t.cache.full
    pub empty : All IsEmpty t.cache.empty
    pub partial_once : Distinct t.cache.partial
    pub full_once : Distinct t.cache.full
    pub empty_once : Distinct t.cache.empty

-- How often a slab stands in the lists of a cache.
abbrev pub listed : SlabCache → ℕ → ℕ
listed c y = occurs y c.partial + occurs y c.full + occurs y c.empty

-- An object that was handed out: an address of a slab that is not all free, and not one of its free
-- objects.
pub record IsLive (t : Store) (unused : ℕ → List ℕ) (s ptr : ℕ) : Type 0 where
  pub slot : IsSlot t.cache.obj_size s ptr
  pub owner : (IsPartial t unused s) ⊎ (IsFull t unused s)
  pub taken : All (λ y. y ≢ ptr) (unused s)

-- A slab has pages.
pub slab_pages_pos : (obj_size : ℕ) → (0 < slab_pages obj_size) × (slab_pages obj_size ≤ 2)
unfolding slab_pages
slab_pages_pos obj_size = ground arith

pub slab_of-range :
    (obj_size x : ℕ)
    → (slab_of obj_size x ≤ x) × (x < slab_of obj_size x + slab_pages obj_size * page_size)
unfolding slab_of slab_pages
slab_of-range obj_size x = ground arith
