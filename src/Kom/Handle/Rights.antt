-- ===== src/Kom/Handle/Rights.antt =====
-- handle.cpp: rights are only ever handed on, never gained.
use singularity.Common.{ℕ, ◌^◌, ◌<◌, ◌≡◌, true, none, some, arith, ◌≢◌, ◌⊎◌, inl, inr, Bool-cases}
use singularity.Kom.Object.{kobject_ref}
use singularity.Kom.Handle.{
  Kom, handle_idx, handle_caps, has_caps, alloc, live_object, resolve, dup,
}
use singularity.Kom.Handle.Inv.{Inv}
use singularity.Kom.Handle.Cases.{dup_cases}
use singularity.Kom.Handle.Words.{has_caps_trans}
use singularity.Kom.Handle.Roundtrip.{resolve-alloc, live_object-alloc}

-- `resolve` gives an object only through a live handle, and only if both the word of the handle and
-- the table's own entry hold every right that is asked for; it takes one reference and leaves the
-- table alone.
pub resolve_sound :
    (k k' : Kom) (h req o : ℕ)
    → resolve k h req ≡ (some o, k')
    → (live_object k.table h ≡ some o)
      × (has_caps (handle_caps h) req ≡ true)
      × (has_caps (k.table.entries (handle_idx h)).caps req ≡ true)
      × (k'.table ≡ k.table)
      × (k'.objects ≡ kobject_ref k.objects o)
unfolding resolve
resolve_sound k k' h req o e = ground arith

alloc-full : (k : Kom) (o caps : ℕ) → (alloc k (some o) caps).0 ≢ 0 → 0 < k.table.freelist_top
unfolding alloc
alloc-full k o caps ne = ground arith

-- In a well-formed table, let `dup` be asked for rights that are a `uint16_t` and return a handle.
-- The handle is a live one of the object of the original, which was live, and whatever rights are
-- asked for: `resolve` of the copy finds nothing, or the original's entry holds these rights too.
pub dup_attenuates :
    (k k' : Kom) (h h' caps req : ℕ)
    → Inv k.table
    → caps < 2 ^ 16
    → dup k h caps ≡ (h', k')
    → h' ≢ 0
    → (o : ℕ) × (live_object k.table h ≡ some o)
      × (live_object k'.table h' ≡ some o)
      × (((resolve k' h' req).0 ≡ none)
          ⊎ (has_caps (k.table.entries (handle_idx h)).caps req ≡ true))
dup_attenuates k k' h h' caps req v c e ne = elim (dup_cases k h caps) [
  | inl failed ↦ ground arith
  | inr (o, live, within, made) ↦
      let room = alloc-full k o caps (ground arith) in
      let spec = resolve-alloc k v o caps c room req in
      (
        o,
        live,
        ground (arith, live_object-alloc k v o caps c room),
        elim (Bool-cases (has_caps caps req)) [
          | inl has ↦ inr (has_caps_trans _ caps req within has)
          | inr lacks ↦ inl (ground arith)
        ],
      )
]
