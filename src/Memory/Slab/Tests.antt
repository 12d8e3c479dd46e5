-- ===== src/Memory/Slab/Tests.antt =====
-- A cache for requests of 1,024 bytes with one slab of three objects, at the start of the heap.
use singularity.Common.{
  ℕ, suc, ◌+◌, ◌*◌, ◌≤◌, ◌<◌, Option, ◌≡◌, refl, true, none, some, arith, List, [], ◌∷◌, update,
  ◌⊎◌, inl, inr,
}
use singularity.Memory.Arena.{VmArena, align_up, page_size, alloc_aligned, fit_from}
use singularity.Memory.Words.{Memory, load, store, byte_of}
use singularity.Memory.Slab
use singularity.Memory.Slab.{
  Slab, SlabCache, Store, slab_pages, slab_of, thread, alloc_cached, pop, init, create_slab,
  slab_header,
}
use singularity.Memory.Slab.Sound.{IsSlot, IsSlab, IsSound, IsLive, listed}
use singularity.Memory.Slab.Lists.{occurs-cons}
use singularity.Memory.Slab.Pop.{IsGiven}
use singularity.Memory.Slab.Alloc.{alloc_cached-IsGiven}
use singularity.Memory.Slab.Free.{free-IsSound}
use singularity.Memory.Slab.Create.{objects, create_slab-IsSlab}

abbrev base : ℕ
base = 0xffff_9000_0000_0000

abbrev first : ℕ
first = base + 48

init_test : (init 1024).obj_size ≡ 1056
unfolding init align_up
init_test = refl

-- The three objects are linked.
abbrev linked : Memory
linked = thread 1056 2 (record { byte = λ _. 0 }) first

-- The slab with `used` objects given away from the front.
abbrev cache_of : List ℕ → List ℕ → SlabCache
cache_of partial empty = record {
  obj_size = 1056;
  partial = partial;
  full = [];
  empty = empty;
  total_pages_allocated = 1;
}

abbrev no_arena : VmArena
no_arena = record { regions = []; watermark = base + 4096; limit = base + 0x2000_0000 }

abbrev fresh : Slab
fresh = record { free_list = first; used_count = 0; total_count = 3; page_count = 1 }

abbrev one_used : Slab
one_used = record { free_list = first + 1056; used_count = 1; total_count = 3; page_count = 1 }

abbrev store_of : Slab → List ℕ → List ℕ → Store
store_of slab partial empty = record {
  cache = cache_of partial empty;
  memory = linked;
  slabs = λ _. slab;
  arena = no_arena;
}

abbrev idle : Store
idle = store_of fresh [] (base ∷ [])

abbrev busy : Store
busy = store_of one_used (base ∷ []) []

abbrev all_free : ℕ → List ℕ
all_free s = first ∷ (first + 1056) ∷ (first + 2112) ∷ []

abbrev two_free : ℕ → List ℕ
two_free s = (first + 1056) ∷ (first + 2112) ∷ []

object-IsSlot : (i : ℕ) → i ≡ 0 ⊎ (i ≡ 1056 ⊎ i ≡ 2112) → IsSlot 1056 base (first + i)
unfolding slab_of slab_pages
object-IsSlot i h = record {
  inside = ground arith;
  aligned = ground arith;
  not_null = omega arith;
  word = ground arith;
}

fresh-IsSlab : IsSlab 1056 linked fresh base (all_free base)
unfolding slab_pages thread load store byte_of
fresh-IsSlab = record {
  pages = refl;
  counted = refl;
  positive = omega arith;
  bounded = omega arith;
  chain = (refl, (refl, (refl, refl)));
  slots = (
    object-IsSlot 0 (inl refl),
    (object-IsSlot 1056 (inr (inl refl)), (object-IsSlot 2112 (inr (inr refl)), tt)),
  );
  distinct = ((omega arith, (omega arith, tt)), ((omega arith, tt), (tt, tt)));
}

one_used-IsSlab : IsSlab 1056 linked one_used base (two_free base)
unfolding slab_pages thread load store byte_of
one_used-IsSlab = record {
  pages = refl;
  counted = refl;
  positive = omega arith;
  bounded = omega arith;
  chain = (refl, (refl, refl));
  slots = (object-IsSlot 1056 (inr (inl refl)), (object-IsSlot 2112 (inr (inr refl)), tt));
  distinct = ((omega arith, tt), (tt, tt));
}

idle-IsSound : IsSound idle all_free
idle-IsSound = record {
  partial = tt;
  full = tt;
  empty = ((fresh-IsSlab, refl), tt);
  partial_once = tt;
  full_once = tt;
  empty_once = (tt, tt);
}

busy-IsSound : IsSound busy two_free
busy-IsSound = record {
  partial = ((one_used-IsSlab, omega arith, omega arith), tt);
  full = tt;
  empty = tt;
  partial_once = (tt, tt);
  full_once = tt;
  empty_once = tt;
}

first-IsLive : IsLive busy two_free base first
first-IsLive = record {
  slot = object-IsSlot 0 (inl refl);
  owner = inl (one_used-IsSlab, omega arith, omega arith);
  taken = (omega arith, (omega arith, tt));
}

alloc_cached-IsGiven_example :
    ((alloc_cached idle ≡ none) × (idle.cache.partial ≡ []) × (idle.cache.empty ≡ []))
    ⊎ ((s : ℕ) × (x : ℕ) × (xs : List ℕ) × (t' : Store) × (alloc_cached idle ≡ some (some (x, t')))
        × IsGiven idle all_free s x xs t')
alloc_cached-IsGiven_example = alloc_cached-IsGiven idle all_free idle-IsSound

free-IsSound_example :
    (t' : Store) × (Slab.free busy first ≡ (true, t'))
    × IsSound t' (update two_free base (first ∷ two_free base))
    × ((y : ℕ) → listed t'.cache y ≡ listed busy.cache y)
free-IsSound_example =
    free-IsSound busy two_free busy-IsSound base first first-IsLive
      (omega (arith, occurs-cons base base []))

-- A cache without slabs, in an arena where nothing is free below the watermark.
abbrev bare : Store
bare = record {
  cache = record {
    obj_size = 1056;
    partial = [];
    full = [];
    empty = [];
    total_pages_allocated = 0;
  };
  memory = linked;
  slabs = λ _. fresh;
  arena = record { regions = []; watermark = base; limit = base + 0x2000_0000 };
}

abbrev second : Option ℕ × Store → Store
second (_, t) = t

made : create_slab true bare ≡ (some base, second (create_slab true bare))
unfolding create_slab slab_pages alloc_aligned align_up fit_from
made = refl

create_slab-IsSlab_example :
    (total : ℕ) × IsSlab 1056
      (second (create_slab true bare)).memory
      ((second (create_slab true bare)).slabs base)
      base
      (objects 1056 total (base + slab_header))
    × (((second (create_slab true bare)).slabs base).used_count ≡ 0)
    × (total * 1056 + slab_header ≤ slab_pages 1056 * page_size)
    × (slab_pages 1056 * page_size < suc total * 1056 + slab_header)
unfolding slab_pages
create_slab-IsSlab_example =
    create_slab-IsSlab bare (second (create_slab true bare)) base made refl (omega arith) refl
      (omega arith) (omega arith)
