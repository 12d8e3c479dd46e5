-- ===== src/Kom/Handle/Leak.antt =====
-- handle.cpp: `transfer` frees the old entry but keeps the reference that the entry held.
use singularity.Common.{ℕ, ◌+◌, ◌^◌, ◌<◌, ◌≡◌, some, arith, ap}
use singularity.Kom.Object.{kobject_ref}
use singularity.Kom.Handle.{Kom, handle_idx, live_object, transfer, alloc}
use singularity.Kom.Handle.Inv.{Inv}
use singularity.Kom.Handle.Cases.{live_object-eq_some}
use singularity.Kom.Handle.Count.{IsAccounted, handles, handles-retire, handles-taken}
use singularity.Kom.Handle.Roundtrip.{
  transfer-eq, moved, kept_caps, moved-Inv, top-moved, table-alloc, settled,
}

-- Each transfer of a live handle leaves its object with one reference that neither an entry nor a
-- caller accounts for.
pub transfer_leaks :
    (others : ℕ → ℕ) (k : Kom) (h o : ℕ)
    → Inv k.table
    → IsAccounted others k
    → live_object k.table h ≡ some o
    → k.objects.ref_count o + 2 < 2 ^ 32
    → (h' : ℕ) × (k' : Kom) × (transfer k h ≡ some (h', k'))
      × (k'.objects.ref_count o ≡ handles k'.table o + others o + 1)
unfolding kobject_ref
transfer_leaks others k h o v a live few =
    let (lo, hi, _, at) = live_object-eq_some k.table h o live in
    let again = alloc (moved k h o v live) (some o) (kept_caps k h o v live) in
    (
      again.0,
      record again.1 { objects = settled k h o v live },
      transfer-eq k h o v live few,
      ground (
        arith,
        handles-retire k.table (handle_idx h) o o hi at,
        ap (λ t. handles t o) (table-alloc k h o v live),
        handles-taken (moved k h o v live).table o (kept_caps k h o v live) o
            (moved-Inv k h o v live),
        top-moved k h o v live,
        a.counted o,
      ),
    )
