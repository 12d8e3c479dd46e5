-- ===== src/Kom/Handle/Roundtrip.antt =====
-- handle.cpp: what a handle resolves to after `alloc`, `close` and `transfer`.
use singularity.Common.{ℕ, ◌+◌, ◌-◌, ◌^◌, ◌<◌, ◌≡◌, none, some, arith, if◌then◌else◌, inl, inr, ◌≢◌}
use singularity.Kom.Object.{
  Objects, released, kobject_unref_kept, ref_count-kobject_ref, kobject_ref,
}
use singularity.Kom.Handle.{
  HandleTable, Kom, handle_idx, handle_gen, handle_caps, has_caps, pack, alloc, live_object,
  resolve, push_free, retire, close, transfer,
}
use singularity.Kom.Handle.Cases.{close_cases, live_object-eq_some}
use singularity.Kom.Handle.Generations.{generation-retire_ne, generation-alloc, live_object-eq_none}
use singularity.Kom.Handle.Words.{pack_fields}
use singularity.Kom.Handle.Inv.{Inv, taken, retire-Inv, retire_room}

module _ (k : Kom) (v : Inv k.table) (o caps : ℕ) (c : caps < 2 ^ 16)
    (room : 0 < k.table.freelist_top) where
  -- The handle that a successful `alloc` gives, and the slot behind it.
  pub alloc_fields :
      let t = k.table in
      let idx = t.freelist (t.freelist_top - 1) in
      let h = (alloc k (some o) caps).0 in
      (h ≡ pack caps (t.entries idx).generation idx)
      × (handle_caps h ≡ caps)
      × (handle_gen h ≡ (t.entries idx).generation)
      × (handle_idx h ≡ idx)
      × ((alloc k (some o) caps).1.table ≡ taken t o caps)
  unfolding alloc
  alloc_fields =
      let t = k.table in
      let idx = t.freelist (t.freelist_top - 1) in
      let (lo, hi, _) = v.free_slot (t.freelist_top - 1) (omega arith) in
      ground (
        arith,
        pack_fields caps (t.entries idx).generation idx c (v.generations idx lo hi).1 (omega arith),
      )

  pub live_object-alloc :
      let (h, k') = alloc k (some o) caps in
      (h ≢ 0) × (live_object k'.table h ≡ some o) × ((k'.table.entries (handle_idx h)).caps ≡ caps)
  unfolding live_object
  live_object-alloc =
      let t = k.table in
      let idx = t.freelist (t.freelist_top - 1) in
      let (lo, hi, _) = v.free_slot (t.freelist_top - 1) (omega arith) in
      ground (arith, alloc_fields)

  -- A handle that `alloc` has just made resolves to its object, which gains a reference, exactly for
  -- the requests within the rights that it was made with; any other request changes nothing.
  pub resolve-alloc :
      (req : ℕ)
      → let (h, k') = alloc k (some o) caps in
        resolve k' h req ≡ (
          if has_caps caps req
          then (some o, record k' { objects = kobject_ref k'.objects o })
          else (none, k'))
  unfolding resolve
  resolve-alloc req = ground (arith, live_object-alloc, alloc_fields)

pub live_object-retire :
    (t : HandleTable) (h o : ℕ)
    → Inv t
    → live_object t h ≡ some o
    → live_object (retire t (handle_idx h)) h ≡ none
unfolding retire live_object push_free
live_object-retire t h o v e = ground arith

resolve-eq_none : (k : Kom) (h req : ℕ) → live_object k.table h ≡ none → resolve k h req ≡ (none, k)
unfolding resolve
resolve-eq_none k h req e = ground arith

-- Once `close` has returned, its handle resolves to nothing, whatever rights are asked for.
pub resolve-close :
    (k k' : Kom) (h req : ℕ) → Inv k.table → close k h ≡ some k' → resolve k' h req ≡ (none, k')
resolve-close k k' h req v e = elim (close_cases k k' h e) [
  | inl (missing, same) ↦ resolve-eq_none k' h req (rw same missing)
  | inr (o, live, table, _) ↦
      resolve-eq_none k' h req (rw table (live_object-retire k.table h o v live))
]

-- A live handle `h` of the object `o`.
module _ (k : Kom) (h o : ℕ) (v : Inv k.table) (live : live_object k.table h ≡ some o) where
  abbrev pub moved : Kom
  moved = record { table = retire k.table (handle_idx h); objects = kobject_ref k.objects o }

  abbrev pub kept_caps : ℕ
  kept_caps = (k.table.entries (handle_idx h)).caps

  pub moved-Inv : Inv moved.table
  moved-Inv =
      let (p, q, _, e) = live_object-eq_some k.table h o live in
      retire-Inv k.table v (handle_idx h) o p q e

  pub top-moved : moved.table.freelist_top ≡ k.table.freelist_top + 1
  unfolding retire push_free
  top-moved =
      let (p, q, _, e) = live_object-eq_some k.table h o live in
      omega (arith, retire_room k.table v (handle_idx h) o q e)

  objects-alloc : (alloc moved (some o) kept_caps).1.objects ≡ kobject_ref moved.objects o
  unfolding alloc
  objects-alloc = ground (arith, top-moved)

  pub table-alloc : (alloc moved (some o) kept_caps).1.table ≡ taken moved.table o kept_caps
  unfolding alloc
  table-alloc = ground (arith, top-moved)

  -- The references of the object after a transfer: one more for the sender's copy in the middle,
  -- one more for the new entry, and one less at the end.
  abbrev pub settled : Objects
  settled = released (kobject_ref moved.objects o) o

  pub transfer-eq :
      (k.objects.ref_count o + 2 < 2 ^ 32)
      → transfer k h
        ≡ some (
          (alloc moved (some o) kept_caps).0,
          record (alloc moved (some o) kept_caps).1 { objects = settled },
        )
  unfolding transfer
  transfer-eq few =
      let once = ref_count-kobject_ref k.objects o (omega arith) in
      let twice = ref_count-kobject_ref moved.objects o (omega arith) in
      let kept = kobject_unref_kept (kobject_ref moved.objects o) o (omega arith) (omega arith) in
      ground (arith, objects-alloc)

  -- With fewer than 2^32 - 2 references on the object, `transfer` of a live handle succeeds: the new
  -- handle has the object and the rights of the old one, which is dead.
  pub transfer_moves :
      (k.objects.ref_count o + 2 < 2 ^ 32)
      → (h' : ℕ) × (k' : Kom) × (transfer k h ≡ some (h', k'))
        × (h' ≢ 0)
        × (live_object k'.table h' ≡ some o)
        × ((k'.table.entries (handle_idx h')).caps ≡ (k.table.entries (handle_idx h)).caps)
        × (live_object k'.table h ≡ none)
  transfer_moves few =
      let fresh =
        live_object-alloc moved moved-Inv o kept_caps (v.rights (handle_idx h))
          (omega (arith, top-moved)) in
      (
        (alloc moved (some o) kept_caps).0,
        record (alloc moved (some o) kept_caps).1 { objects = settled },
        transfer-eq few,
        fresh.0,
        fresh.1,
        fresh.2,
        stale,
      )
    where
      stale : live_object (alloc moved (some o) kept_caps).1.table h ≡ none
      stale = live_object-eq_none _ h (
          rw (generation-alloc moved (some o) kept_caps (handle_idx h))
            (generation-retire_ne k.table h o v live))
