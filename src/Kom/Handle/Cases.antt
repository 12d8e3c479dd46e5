-- ===== src/Kom/Handle/Cases.antt =====
-- handle.cpp: the outcomes of the operations on a handle, by whether the handle is live.
use singularity.Common.{ℕ, ◌<◌, ◌≡◌, none, some, arith, ◌⊎◌, true, Option-cases, inl, inr}
use singularity.Kom.Object.{kobject_ref, kobject_unref}
use singularity.Kom.Handle.{
  HandleTable, Kom, capacity, handle_idx, handle_gen, has_caps, alloc, live_object, resolve, dup,
  retire, close, transfer,
}

pub live_object-eq_some :
    (t : HandleTable) (h o : ℕ)
    → live_object t h ≡ some o
    → (0 < handle_idx h)
      × (handle_idx h < capacity)
      × ((t.entries (handle_idx h)).generation ≡ handle_gen h)
      × ((t.entries (handle_idx h)).obj ≡ some o)
unfolding live_object
live_object-eq_some t h o e = ground arith

pub resolve-table : (k : Kom) (h req : ℕ) → (resolve k h req).1.table ≡ k.table
unfolding resolve
resolve-table k h req = ground arith

pub close_cases :
    (k k' : Kom) (h : ℕ)
    → close k h ≡ some k'
    → ((live_object k.table h ≡ none) × (k' ≡ k))
      ⊎ ((o : ℕ) × (live_object k.table h ≡ some o)
          × (k'.table ≡ retire k.table (handle_idx h))
          × (kobject_unref k.objects o ≡ some k'.objects))
unfolding close
close_cases k k' h e = ground arith

-- A request that is granted takes a reference on the object of a live handle.
pub resolve_cases :
    (k : Kom) (h req : ℕ)
    → (resolve k h req ≡ (none, k))
      ⊎ ((o : ℕ) × (live_object k.table h ≡ some o)
          × (resolve k h req ≡ (some o, record k { objects = kobject_ref k.objects o })))
unfolding resolve
resolve_cases k h req = ground arith

-- A copy is an `alloc` of the same object, of rights that the entry has.
pub dup_cases :
    (k : Kom) (h new_caps : ℕ)
    → (dup k h new_caps ≡ (0, k))
      ⊎ ((o : ℕ) × (live_object k.table h ≡ some o)
          × (has_caps (k.table.entries (handle_idx h)).caps new_caps ≡ true)
          × (dup k h new_caps ≡ alloc k (some o) new_caps))
unfolding dup
dup_cases k h new_caps = ground arith

-- The table after a transfer is that of the inner `alloc`.
pub transfer_table :
    (k k' : Kom) (h h' o : ℕ)
    → live_object k.table h ≡ some o
    → transfer k h ≡ some (h', k')
    → k'.table
      ≡ (alloc
          (record { table = retire k.table (handle_idx h); objects = kobject_ref k.objects o })
          (some o)
          (k.table.entries (handle_idx h)).caps).1.table
unfolding transfer
transfer_table k k' h h' o e done = ground arith

-- The table and object store after the first half of a transfer of `o`.
abbrev pub retired : Kom → ℕ → ℕ → Kom
retired k h o = record { table = retire k.table (handle_idx h); objects = kobject_ref k.objects o }

pub transfer_cases :
    (k k' : Kom) (h h' : ℕ)
    → transfer k h ≡ some (h', k')
    → ((live_object k.table h ≡ none) × (k' ≡ k))
      ⊎ ((o : ℕ) × (live_object k.table h ≡ some o)
          × (k'.table
              ≡ (alloc (retired k h o) (some o) (k.table.entries (handle_idx h)).caps).1.table))
unfolding transfer
transfer_cases k k' h h' done = elim (Option-cases (live_object k.table h)) [
  | inl e ↦ inl (e, ground arith)
  | inr (o, e) ↦ inr (o, e, transfer_table k k' h h' o e done)
]
