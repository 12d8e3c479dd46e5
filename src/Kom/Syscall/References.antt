-- ===== src/Kom/Syscall/References.antt =====
-- kom_syscalls.cpp: a call drops the reference that it takes on the object of its handle.
use singularity.Common.{ℕ, ◌+◌, ◌^◌, ◌<◌, ◌≡◌, Bool, some, arith}
use singularity.Kom.Object.{kobject_ref, released, kobject_unref_kept, ref_count-kobject_ref}
use singularity.Kom.Handle.{Kom, live_object}
use singularity.Kom.Handle.Inv.{Inv}
use singularity.Kom.Handle.Count.{IsAccounted, IsBounded, ref_count-lt, ref_count_pos}
use singularity.Kom.System.{System, with_kom, unref}

-- A system that keeps the accounts of its references, but for those that callers hold.
pub record IsSound (others : ℕ → ℕ) (k : Kom) : Type 0 where
  pub table : Inv k.table
  pub accounts : IsAccounted others k

-- The objects after a reference on `o` was taken and dropped.
abbrev pub restored : Kom → ℕ → Kom
restored k o = record k { objects = released (kobject_ref k.objects o) o }

module _ (others : ℕ → ℕ) (bounded : IsBounded others) (k : Kom) (a : IsAccounted others k)
    (h o : ℕ) (live : live_object k.table h ≡ some o) where
  pub ref_count-held :
      ((kobject_ref k.objects o).ref_count o ≡ k.objects.ref_count o + 1)
      × (0 < k.objects.ref_count o)
      × (k.objects.ref_count o + 1 < 2 ^ 32)
  ref_count-held = (
    ref_count-kobject_ref k.objects o (ref_count-lt others bounded k a o),
    ref_count_pos others bounded k a h o live,
    ref_count-lt others bounded k a o,
  )

  pub restored-IsAccounted : IsAccounted others (restored k o)
  unfolding kobject_ref
  restored-IsAccounted = record {
    counted = λ i. ground (arith, a.counted i, ref_count-held);
    kept = λ i. ground (arith, a.kept i, ref_count-held);
  }

  -- The object outlives the call: the entry still has a reference.
  pub unref-held :
      (is_dead : ℕ → Bool) (s : System)
      → s.kom.objects ≡ kobject_ref k.objects o
      → unref is_dead s o
        ≡ some (with_kom s (record s.kom { objects = released (kobject_ref k.objects o) o }))
  unfolding unref
  unref-held is_dead s same =
      let (count, pos, few) = ref_count-held in
      let dropped = kobject_unref_kept (kobject_ref k.objects o) o (omega arith) (omega arith) in
      rw same (rw dropped (ground (arith, count)))
