-- ===== src/Kom/Object.antt =====
-- archs/kom/common/kobject.hpp and handle.cpp: reference counts of kernel objects. An object is
-- known by its address; `deleted` says that `delete` ran on it.
use singularity.Common.{
  ℕ, ◌+◌, ◌-◌, ◌%◌, ◌^◌, ◌<◌, ◌≡◌, Bool, true, Option, none, some, arith, ◌==◌, if◌then◌else◌,
  update,
}

pub record Objects : Type 0 where
  pub ref_count : ℕ → ℕ
  pub deleted : ℕ → Bool

-- `__atomic_fetch_add(&obj->ref_count, 1)` on a `uint32_t`. Its callers pass no null pointer.
unfoldable pub kobject_ref : Objects → ℕ → Objects
kobject_ref s obj = record s { ref_count = update s.ref_count obj ((s.ref_count obj + 1) % 2 ^ 32) }

-- `__atomic_fetch_sub`, then `delete` at the last reference. `none` is the panic on an underflow.
unfoldable pub kobject_unref : Objects → ℕ → Option Objects
kobject_unref s obj =
    let old = s.ref_count obj in
    let counts = update s.ref_count obj ((old + 2 ^ 32 - 1) % 2 ^ 32) in
    if old == 1
    then some (record { ref_count = counts; deleted = update s.deleted obj true })
    else if old == 0
    then none
    else some (record s { ref_count = counts })

-- One reference fewer, on an object that keeps at least one.
abbrev pub released : Objects → ℕ → Objects
released s obj = record s { ref_count = update s.ref_count obj (s.ref_count obj - 1) }

-- The same on an object that has at least one: `delete` runs at the last.
abbrev pub dropped : Objects → ℕ → Objects
dropped s obj = record (released s obj) {
  deleted = if s.ref_count obj == 1 then update s.deleted obj true else s.deleted;
}

pub kobject_unref_pos :
    (s : Objects) (obj : ℕ)
    → 0 < s.ref_count obj
    → s.ref_count obj < 2 ^ 32
    → kobject_unref s obj ≡ some (dropped s obj)
unfolding kobject_unref
kobject_unref_pos s obj lo hi =
    let wrap : (s.ref_count obj + 2 ^ 32 - 1) % 2 ^ 32 ≡ s.ref_count obj - 1 = omega arith in
    rw wrap (ground arith)

-- Dropping a reference that is not the last deletes nothing.
pub kobject_unref_kept :
    (s : Objects) (obj : ℕ)
    → 1 < s.ref_count obj
    → s.ref_count obj < 2 ^ 32
    → kobject_unref s obj ≡ some (released s obj)
kobject_unref_kept s obj lo hi = ground (arith, kobject_unref_pos s obj)

pub ref_count-kobject_ref :
    (s : Objects) (obj : ℕ)
    → s.ref_count obj + 1 < 2 ^ 32
    → (kobject_ref s obj).ref_count obj ≡ s.ref_count obj + 1
unfolding kobject_ref
ref_count-kobject_ref s obj h = ground arith
