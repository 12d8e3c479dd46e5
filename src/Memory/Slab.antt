-- ===== src/Memory/Slab.antt =====
-- archs/memory/kheap_slab.cpp and kheap.h: `SlabCache`, which hands out objects of one size from slabs
-- of one or two pages. The doubly linked lists of slabs are lists of their addresses, and a slab's
-- header is a record apart from the bytes of memory; the list of its free objects runs through their
-- first words in memory, as in the source. A slab's `data_page` is its own address.
pub mod Sound
pub mod Pop
pub mod Alloc
pub mod Lists
pub mod GivenBack
pub mod Free
pub mod Trim
pub mod Create
mod Tests
use singularity.Common.{
  ℕ, zero, suc, ◌+◌, ◌-◌, ◌*◌, ◌/◌, ◌%◌, ◌^◌, Bool, true, false, not, ◌&&◌, ◌||◌, Option, none,
  some, ◌==◌, ltb, leb, if◌then◌else◌, List, [], ◌∷◌, update, length,
}
use singularity.Memory.Arena
use singularity.Memory.Arena.{VmArena, page_size, align_up, alloc_aligned}
use singularity.Memory.Words.{Memory, load, store, fill}

pub record Slab : Type 0 where
  pub free_list : ℕ
  pub used_count : ℕ
  pub total_count : ℕ
  pub page_count : ℕ

pub record SlabCache : Type 0 where
  pub obj_size : ℕ
  pub partial : List ℕ
  pub full : List ℕ
  pub empty : List ℕ
  pub total_pages_allocated : ℕ

-- A cache with what it shares with the others: the memory, the headers of the slabs by address, and
-- the arena of addresses.
pub record Store : Type 0 where
  pub cache : SlabCache
  pub memory : Memory
  pub slabs : ℕ → Slab
  pub arena : VmArena

abbrev pub header_size : ℕ
header_size = 16

abbrev pub footer_size : ℕ
footer_size = 8

abbrev pub to_u16 : ℕ → ℕ
to_u16 x = x % 2 ^ 16

-- `sizeof(Slab)`
abbrev pub slab_header : ℕ
slab_header = 48

unfoldable pub init : ℕ → SlabCache
init size = record {
  obj_size = align_up (size + header_size + footer_size) 16;
  partial = [];
  full = [];
  empty = [];
  total_pages_allocated = 0;
}

-- `SLAB_LARGE_PAGES` or `SLAB_SMALL_PAGES`.
unfoldable pub slab_pages : ℕ → ℕ
slab_pages obj_size = if ltb 2048 obj_size then 2 else 1

-- `removeSlabFromList` on the list that holds the slab.
unfoldable pub remove_slab : ℕ → List ℕ → List ℕ
remove_slab s [] = []
remove_slab s (x ∷ xs) = if x == s then xs else x ∷ remove_slab s xs

-- The pages go back to the arena; the frames behind them are not modelled.
unfoldable pub free_slab : Store → ℕ → Store
free_slab t s =
    let pages = (t.slabs s).page_count in
    record t {
      arena = Arena.free t.arena s pages;
      cache = record t.cache { total_pages_allocated = t.cache.total_pages_allocated - pages };
    }

-- The loop that links each object to the next, and the last to nothing.
unfoldable pub thread : ℕ → ℕ → Memory → ℕ → Memory
thread obj_size zero m ptr = store m ptr 0
thread obj_size (suc n) m ptr = thread obj_size n (store m ptr (ptr + obj_size)) (ptr + obj_size)

-- `backed` says that there are frames for the pages.
unfoldable pub create_slab : Bool → Store → Option ℕ × Store
create_slab backed t =
    let pages = slab_pages t.cache.obj_size in
    let (page, arena) = alloc_aligned t.arena pages pages in
    let ds = align_up (page + slab_header) 16 in
    let avail = pages * page_size - (ds - page) in
    let total = to_u16 (avail / t.cache.obj_size) in
    let slab : Slab = record {
      free_list = ds;
      used_count = 0;
      total_count = total;
      page_count = pages;
    } in
    if page == 0
    then (none, record t { arena = arena })
    else if not backed
    then (none, record t { arena = Arena.free arena page pages })
    else (
      some page,
      record t {
        arena = arena;
        memory = thread t.cache.obj_size (total - 1) (fill t.memory page 0 (pages * page_size)) ds;
        slabs = update t.slabs page slab;
        cache = record t.cache { total_pages_allocated = t.cache.total_pages_allocated + pages };
      },
    )

-- The end of `alloc`: the first free object of a partial slab. `none` is a read through a null
-- pointer; the object 0 stands for a failure.
unfoldable pub pop : Store → ℕ → Option (ℕ × Store)
pop t s =
    let slab = t.slabs s in
    let obj = slab.free_list in
    let next = load t.memory obj in
    let slab' = record slab { free_list = next; used_count = to_u16 (slab.used_count + 1) } in
    let c = t.cache in
    let c' = record c {
      partial = if next == 0 then remove_slab s c.partial else c.partial;
      full = if next == 0 then s ∷ c.full else c.full;
    } in
    if obj == 0
    then none
    else if ltb obj s || leb (s + slab.page_count * page_size) obj
    then some (0, t)
    else some (obj, record t { slabs = update t.slabs s slab'; cache = c' })

-- `alloc` when there is a slab that is partial or empty, and `none` when there is no such slab.
unfoldable pub alloc_cached : Store → Option (Option (ℕ × Store))
alloc_cached t =
    let c = t.cache in
    elim c.partial [
      | s ∷ _ ↦ some (pop t s)
      | [] ↦ elim c.empty [
        | s ∷ rest ↦ some (pop (record t { cache = record c { empty = rest; partial = s ∷ [] } }) s)
        | [] ↦ none
      ]
    ]

-- The rest of `alloc` once `createSlab`, which runs without the lock, has returned: another thread may
-- have made a slab partial in between.
unfoldable pub alloc_grown : Store → Option ℕ → Option (ℕ × Store)
alloc_grown t none = some (0, t)
alloc_grown t (some ns) = elim t.cache.partial [
  | s ∷ _ ↦ pop (free_slab t ns) s
  | [] ↦ pop (record t { cache = record t.cache { partial = ns ∷ [] } }) ns
]

-- `alloc` of a thread that no other one meets.
unfoldable pub alloc : Bool → Store → Option (ℕ × Store)
alloc backed t =
    let (ns, t') = create_slab backed t in
    elim (alloc_cached t) [ some r ↦ r | none ↦ alloc_grown t' ns ]

-- `ptr & ~(slab_size_bytes - 1)`, the size of a slab being a power of two.
unfoldable pub slab_of : ℕ → ℕ → ℕ
slab_of obj_size ptr = ptr - ptr % (slab_pages obj_size * page_size)

unfoldable pub free : Store → ℕ → Bool × Store
free t ptr =
    let c = t.cache in
    let found = slab_of c.obj_size ptr in
    let slab = t.slabs found in
    let was_full = slab.used_count == slab.total_count in
    let used = to_u16 (slab.used_count + 2 ^ 16 - 1) in
    let partial = if was_full then found ∷ c.partial else c.partial in
    let c1 = record c {
      partial = if used == 0 then remove_slab found partial else partial;
      full = if was_full then remove_slab found c.full else c.full;
      empty = if used == 0 then found ∷ c.empty else c.empty;
    } in
    let slab' = record slab { free_list = ptr; used_count = used } in
    if ptr == 0
    then (false, t)
    else if not (slab.page_count == slab_pages c.obj_size) || slab.total_count == 0
    then (false, t)
    else (
      true,
      record t {
        memory = store t.memory ptr slab.free_list;
        slabs = update t.slabs found slab';
        cache = c1;
      },
    )

-- The loop of `trim`: every empty slab is freed.
unfoldable pub trim_from : List ℕ → Store → Store
trim_from [] t = t
trim_from (s ∷ rest) t =
    trim_from rest (free_slab (record t { cache = record t.cache { empty = rest } }) s)

unfoldable pub trim : Store → Store
trim t = trim_from t.cache.empty t

unfoldable pub get_cached_size : SlabCache → ℕ
get_cached_size c = length c.empty * (slab_pages c.obj_size * page_size)

-- The loops of `getUsedPayload`.
unfoldable pub sum_used : ℕ → (ℕ → Slab) → List ℕ → ℕ
sum_used obj_size slabs [] = 0
sum_used obj_size slabs (s ∷ rest) = (slabs s).used_count * obj_size + sum_used obj_size slabs rest

unfoldable pub get_used_payload : Store → ℕ
get_used_payload t =
    sum_used t.cache.obj_size t.slabs t.cache.partial
    + sum_used t.cache.obj_size t.slabs t.cache.full

unfoldable pub get_total_reserved : SlabCache → ℕ
get_total_reserved c = c.total_pages_allocated * page_size
