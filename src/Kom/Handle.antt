-- ===== src/Kom/Handle.antt =====
-- archs/kom/common/handle.cpp: the table of capability handles.
-- The arrays `entries` and `freelist` are functions from the index. The spinlock makes the locked
-- part of a method one step; here a whole method is one, so no other thread runs inside it.
pub mod Words
pub mod Cases
pub mod Inv
pub mod Generations
pub mod Roundtrip
pub mod Rights
pub mod Count
pub mod Leak
mod Tests
use singularity.Common.{
  ℕ, zero, suc, ◌+◌, ◌-◌, ◌*◌, ◌/◌, ◌%◌, ◌^◌, Bool, not, ◌||◌, Option, none, some, bit_and, bit_or,
  ◌==◌, leb, if◌then◌else◌, update,
}
use singularity.Kom.Object.{Objects, kobject_ref, kobject_unref}

-- `obj` is a pointer, `none` for null. `caps` and `generation` are `uint16_t`.
pub record HandleEntry : Type 0 where
  pub obj : Option ℕ
  pub caps : ℕ
  pub generation : ℕ

pub record HandleTable : Type 0 where
  pub entries : ℕ → HandleEntry
  pub freelist : ℕ → ℕ
  pub freelist_top : ℕ

-- The table, and the objects that its entries point to.
pub record Kom : Type 0 where
  pub table : HandleTable
  pub objects : Objects

abbrev pub capacity : ℕ
capacity = 4096

-- `(caps << 48) | (gen << 32) | idx` on a `uint64_t`, and the three fields of such a word.
unfoldable pub pack : ℕ → ℕ → ℕ → ℕ
pack caps gen idx = bit_or (caps * 2 ^ 48) (bit_or (gen * 2 ^ 32) idx)

abbrev pub handle_idx : ℕ → ℕ
handle_idx h = h % 2 ^ 32

abbrev pub handle_gen : ℕ → ℕ
handle_gen h = h / 2 ^ 32 % 2 ^ 16

abbrev pub handle_caps : ℕ → ℕ
handle_caps h = h / 2 ^ 48 % 2 ^ 16

-- `(caps & req) == req`
unfoldable pub has_caps : ℕ → ℕ → Bool
has_caps caps req = bit_and caps req == req

abbrev pub empty_entry : ℕ → HandleEntry
empty_entry gen = record { obj = none; caps = 0; generation = gen }

-- `freelist[freelist_top++] = idx`
unfoldable pub push_free : HandleTable → ℕ → HandleTable
push_free t idx = record t {
  freelist = update t.freelist t.freelist_top idx;
  freelist_top = (t.freelist_top + 1) % 2 ^ 16;
}

-- The loop of `init`, for `i` from `n` down to 1.
unfoldable pub init_from : ℕ → HandleTable → HandleTable
unfolding push_free
init_from zero t = t
init_from (suc i) t = init_from i (
    let t' = push_free t (suc i) in
    record t' {
      entries = update t'.entries (suc i) (record (t'.entries (suc i)) { generation = 1 });
    })

-- The table after `memset`: `freelist` keeps whatever the memory held.
abbrev pub cleared : HandleTable → HandleTable
cleared t = record t { entries = λ _. empty_entry 0; freelist_top = 0 }

unfoldable pub init : HandleTable → HandleTable
init t = init_from (capacity - 1) (record t { entries = λ _. empty_entry 0; freelist_top = 0 })

-- The handle 0 stands for a failure.
unfoldable pub alloc : Kom → Option ℕ → ℕ → ℕ × Kom
alloc k none caps = (0, k)
alloc k (some o) caps =
    let t = k.table in
    let idx = t.freelist (t.freelist_top - 1) in
    let gen = (t.entries idx).generation in
    let entry : HandleEntry = record { obj = some o; caps = caps; generation = gen } in
    let t' = record t { entries = update t.entries idx entry; freelist_top = t.freelist_top - 1 } in
    if t.freelist_top == 0
    then (0, k)
    else (pack caps gen idx, record { table = t'; objects = kobject_ref k.objects o })

-- The checks that `resolve`, `dup`, `transfer` and `close` share: the object of a handle whose
-- index is in range and whose generation is the entry's.
unfoldable pub live_object : HandleTable → ℕ → Option ℕ
live_object t h =
    let entry = t.entries (handle_idx h) in
    if handle_idx h == 0 || leb capacity (handle_idx h)
    then none
    else if not (entry.generation == handle_gen h)
    then none
    else entry.obj

unfoldable pub resolve : Kom → ℕ → ℕ → Option ℕ × Kom
resolve k h req =
    if not (has_caps (handle_caps h) req) then (none, k) else elim (live_object k.table h) [
      | none ↦ (none, k)
      | some o ↦
          if not (has_caps (k.table.entries (handle_idx h)).caps req)
          then (none, k)
          else (some o, record k { objects = kobject_ref k.objects o })
    ]

unfoldable pub dup : Kom → ℕ → ℕ → ℕ × Kom
dup k h new_caps = elim (live_object k.table h) [
  | none ↦ (0, k)
  | some o ↦
      if not (has_caps (k.table.entries (handle_idx h)).caps new_caps)
      then (0, k)
      else alloc k (some o) new_caps
]

-- `generation++; if (generation == 0) generation = 1;`
unfoldable pub next_generation : ℕ → ℕ
next_generation g = let g' = (g + 1) % 2 ^ 16 in if g' == 0 then 1 else g'

-- How `close` and `transfer` free an entry.
unfoldable pub retire : HandleTable → ℕ → HandleTable
unfolding push_free next_generation
retire t idx =
    push_free
      (record t {
        entries = update t.entries idx (empty_entry (next_generation (t.entries idx).generation));
      })
      idx

-- `none` is the panic of `kobject_unref`.
unfoldable pub close : Kom → ℕ → Option Kom
close k h = elim (live_object k.table h) [
  | none ↦ some k
  | some o ↦ elim (kobject_unref k.objects o) [
    | none ↦ none
    | some objects ↦ some (record { table = retire k.table (handle_idx h); objects = objects })
  ]
]

unfoldable pub transfer : Kom → ℕ → Option (ℕ × Kom)
transfer k h = elim (live_object k.table h) [
  | none ↦ some (0, k)
  | some o ↦
      let caps = (k.table.entries (handle_idx h)).caps in
      let held : Kom = record {
        table = retire k.table (handle_idx h);
        objects = kobject_ref k.objects o;
      } in
      let (h', k') = alloc held (some o) caps in
      elim (kobject_unref k'.objects o) [
        | none ↦ none
        | some objects ↦ some (h', record k' { objects = objects })
      ]
]
