-- ===== src/Kom/Handle/Tests.antt =====
-- A handle on object 9 with the rights READ and WRITE, in a table that is otherwise fresh.
use singularity.Common.{
  ◌⊎◌, ℕ, ◌+◌, ◌-◌, ◌≡◌, refl, true, false, none, some, arith, ◌≢◌, ◌==◌, if◌then◌else◌, [], ◌∷◌,
  update, count_below-none,
}
use singularity.Kom.Object.{Objects, kobject_ref, kobject_unref}
use singularity.Kom.Handle.{
  HandleTable, Kom, capacity, empty_entry, handle_idx, handle_caps, has_caps, pack, alloc, init,
  init_from, push_free, live_object, resolve, dup, retire, close, transfer,
}
use singularity.Kom.Handle.Inv.{
  Inv, Filled, Filled-Inv, allocs, step, step-Inv, alloc-Inv, init-Inv,
}
use singularity.Kom.Handle.Generations.{run, closed_stays_dead}
use singularity.Kom.Handle.Roundtrip.{resolve-alloc, resolve-close, transfer_moves}
use singularity.Kom.Handle.Rights.{resolve_sound, dup_attenuates}
use singularity.Kom.Handle.Count.{IsAccounted, IsBounded, names, handles, step-IsAccounted}
use singularity.Kom.Handle.Leak.{transfer_leaks}

-- What `init` leaves, in closed form.
abbrev fresh_table : HandleTable
fresh_table = record {
  entries = λ i. empty_entry (if i == 0 then 0 else 1);
  freelist = λ i. capacity - 1 - i;
  freelist_top = capacity - 1;
}

abbrev one_object : Objects
one_object = record { ref_count = λ o. if o == 9 then 1 else 0; deleted = λ _. false }

abbrev fresh : Kom
fresh = record { table = fresh_table; objects = one_object }

abbrev read_write : ℕ
read_write = 0xc000

abbrev opened : Kom
opened = (alloc fresh (some 9) read_write).1

abbrev handle : ℕ
handle = 0xc000_0001_0000_0001

fresh-Filled : Filled 0 fresh_table
fresh-Filled = record {
  top = refl;
  stack = λ i b. omega arith;
  empty = λ i. refl;
  plain = λ i. refl;
  first = λ i a b. ground arith;
}

fresh-Inv : Inv fresh_table
fresh-Inv = Filled-Inv fresh_table fresh-Filled

alloc_test : (alloc fresh (some 9) read_write).0 ≡ handle
unfolding alloc pack
alloc_test = refl

init_test : (init fresh_table).freelist_top ≡ 4095
unfolding init init_from push_free
init_test = refl

opened-Inv : Inv opened.table
opened-Inv = alloc-Inv fresh (some 9) read_write fresh-Inv (omega arith)

opened_live : live_object opened.table handle ≡ some 9
unfolding live_object alloc pack
opened_live = refl

abbrev closed : Kom
closed = record {
  table = retire opened.table (handle_idx handle);
  objects = record opened.objects { ref_count = update opened.objects.ref_count 9 1 };
}

close_test : close opened handle ≡ some closed
unfolding close live_object alloc pack kobject_ref kobject_unref
close_test = refl

abbrev caller : ℕ → ℕ
caller o = if o == 9 then 1 else 0

fresh-IsAccounted : IsAccounted caller fresh
fresh-IsAccounted = record {
  counted =
      λ o. ground (arith, count_below-none (names o) fresh_table.entries capacity (λ i b. refl));
  kept = λ o pos. refl;
}

caller-IsBounded : IsBounded caller
caller-IsBounded o = ground arith

step-Inv_example : Inv (alloc fresh (some 9) read_write).1.table
unfolding step
step-Inv_example =
    step-Inv fresh (alloc fresh (some 9) read_write).1 (allocs (some 9) read_write) (omega arith)
      fresh-Inv refl

resolve-alloc_test :
    resolve opened handle 0x8000
    ≡ (some 9, record opened { objects = kobject_ref opened.objects 9 })
unfolding alloc pack has_caps
resolve-alloc_test = resolve-alloc fresh fresh-Inv 9 read_write (omega arith) (omega arith) 0x8000

resolve-close_test : resolve closed handle 0x8000 ≡ (none, closed)
resolve-close_test = resolve-close opened closed handle 0x8000 opened-Inv close_test

closed_stays_dead_example : live_object (alloc closed (some 9) read_write).1.table handle ≡ none
unfolding run step
closed_stays_dead_example =
    closed_stays_dead opened closed (alloc closed (some 9) read_write).1 handle 9
      (allocs (some 9) read_write ∷ []) opened-Inv opened_live close_test (omega arith) refl

transfer_moves_test :
    (h' : ℕ) × (k' : Kom) × (transfer opened handle ≡ some (h', k'))
    × (h' ≢ 0)
    × (live_object k'.table h' ≡ some 9)
    × ((k'.table.entries (handle_idx h')).caps ≡ (opened.table.entries (handle_idx handle)).caps)
    × (live_object k'.table handle ≡ none)
unfolding alloc kobject_ref
transfer_moves_test = transfer_moves opened handle 9 opened-Inv opened_live (omega arith)

resolve_sound_test :
    (live_object opened.table handle ≡ some 9)
    × (has_caps (handle_caps handle) 0x8000 ≡ true)
    × (has_caps (opened.table.entries (handle_idx handle)).caps 0x8000 ≡ true)
    × (opened.table ≡ opened.table)
    × (kobject_ref opened.objects 9 ≡ kobject_ref opened.objects 9)
resolve_sound_test =
    resolve_sound opened (record opened { objects = kobject_ref opened.objects 9 }) handle 0x8000 9
      resolve-alloc_test

dup_attenuates_example :
    (o : ℕ) × (live_object opened.table handle ≡ some o)
    × (live_object (dup opened handle 0x8000).1.table 0x8000_0001_0000_0002 ≡ some o)
    × (((resolve (dup opened handle 0x8000).1 0x8000_0001_0000_0002 0x8000).0 ≡ none)
        ⊎ (has_caps (opened.table.entries (handle_idx handle)).caps 0x8000 ≡ true))
unfolding dup live_object alloc pack has_caps
dup_attenuates_example =
    dup_attenuates opened (dup opened handle 0x8000).1 handle 0x8000_0001_0000_0002 0x8000 0x8000
      opened-Inv (omega arith) refl (omega arith)

step-IsAccounted_example :
    (k' : Kom) × (step fresh (allocs (some 9) read_write) ≡ some k') × IsAccounted caller k'
step-IsAccounted_example =
    step-IsAccounted caller caller-IsBounded fresh fresh-IsAccounted (allocs (some 9) read_write)
      fresh-Inv (omega arith)

opened-IsAccounted : IsAccounted caller opened
unfolding step
opened-IsAccounted = ground (
  arith,
  (step-IsAccounted caller caller-IsBounded fresh fresh-IsAccounted (allocs (some 9) read_write)
      fresh-Inv (omega arith)).2,
)

transfer_leaks_example :
    (h' : ℕ) × (k' : Kom) × (transfer opened handle ≡ some (h', k'))
    × (k'.objects.ref_count 9 ≡ handles k'.table 9 + 1 + 1)
unfolding alloc kobject_ref
transfer_leaks_example =
    transfer_leaks caller opened handle 9 opened-Inv opened-IsAccounted opened_live (omega arith)

init-Inv_test : Inv (init fresh_table)
init-Inv_test = init-Inv fresh_table
