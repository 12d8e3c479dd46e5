-- ===== src/Kom/Handle/Count.antt =====
-- handle.cpp: every live entry holds one reference on its object.
use singularity.Common.{
  ℕ, ◌+◌, ◌-◌, ◌^◌, ◌<◌, ◌≡◌, Bool, false, Option, none, some, arith, inl, inr, ◌==◌, Bool-cases,
  Option-cases, ap, refl, update, count_below, count_below-update, count_below-le, ==_self,
  to_count,
}
use singularity.Kom.Object.{Objects, kobject_ref, kobject_unref, dropped, kobject_unref_pos}
use singularity.Kom.Handle.{
  HandleEntry, HandleTable, Kom, capacity, empty_entry, handle_idx, alloc, live_object, resolve,
  dup, retire, push_free, close, next_generation,
}
use singularity.Kom.Handle.Inv.{Inv, taken, Call, allocs, resolves, dups, closes, transfers, step}
use singularity.Kom.Handle.Cases.{live_object-eq_some, dup_cases, resolve_cases}

abbrev pub names : ℕ → HandleEntry → Bool
names o e = elim e.obj [ none ↦ false | some o' ↦ o' == o ]

-- How many entries point to the object.
abbrev pub handles : HandleTable → ℕ → ℕ
handles t o = count_below (names o) t.entries capacity

-- `others` are the references that are not those of entries: what callers hold.
pub record IsAccounted (others : ℕ → ℕ) (k : Kom) : Type 0 where
  pub counted : (o : ℕ) → k.objects.ref_count o ≡ handles k.table o + others o
  pub kept : (o : ℕ) → 0 < k.objects.ref_count o → k.objects.deleted o ≡ false

pub handles-retire :
    (t : HandleTable) (idx o o' : ℕ)
    → idx < capacity
    → (t.entries idx).obj ≡ some o
    → handles (retire t idx) o' + to_count (o == o') ≡ handles t o'
unfolding retire push_free
handles-retire t idx o o' h e = ground (
  arith,
  count_below-update (names o') t.entries idx
      (empty_entry (next_generation (t.entries idx).generation)) capacity h,
)

pub handles-taken :
    (t : HandleTable) (o caps o' : ℕ)
    → Inv t
    → 0 < t.freelist_top
    → handles (taken t o caps) o' ≡ handles t o' + to_count (o == o')
handles-taken t o caps o' v room =
    let slot = t.freelist (t.freelist_top - 1) in
    let (lo, hi, free) = v.free_slot (t.freelist_top - 1) (omega arith) in
    ground (
      arith,
      count_below-update (names o') t.entries slot
          (record { obj = some o; caps = caps; generation = (t.entries slot).generation }) capacity
          hi,
    )

-- One more reference on the object that a call returned.
abbrev pub gained : (ℕ → ℕ) → Option ℕ → ℕ → ℕ
gained others none = others
gained others (some o) = update others o (others o + 1)

abbrev pub IsBounded : (ℕ → ℕ) → Type 0
IsBounded others = (o : ℕ) → others o < 2 ^ 31

module _ (others : ℕ → ℕ) (bounded : IsBounded others) (k : Kom) (a : IsAccounted others k) where
  pub ref_count-lt : (o : ℕ) → k.objects.ref_count o + 1 < 2 ^ 32
  ref_count-lt o =
      omega (arith, a.counted o, bounded o, count_below-le (names o) k.table.entries capacity)

  -- Taking a reference outside the table.
  pub kobject_ref-IsAccounted :
      (o : ℕ)
      → 0 < k.objects.ref_count o
      → IsAccounted
          (update others o (others o + 1))
          (record k { objects = kobject_ref k.objects o })
  unfolding kobject_ref
  kobject_ref-IsAccounted o pos = record {
    counted = λ i. ground (arith, a.counted i, a.counted o, ref_count-lt o);
    kept = λ i. ground (arith, a.kept i, a.kept o);
  }

  -- A new entry has the reference that `alloc` takes.
  pub alloc-IsAccounted :
      (o caps : ℕ)
      → Inv k.table
      → 0 < k.objects.ref_count o
      → IsAccounted others (alloc k (some o) caps).1
  unfolding alloc kobject_ref
  alloc-IsAccounted o caps v pos = elim (Bool-cases (k.table.freelist_top == 0)) [
    | inl full ↦ rw full a
    | inr room ↦ rw room (record {
      counted = λ i. ground (arith, a.counted i, ref_count-lt o, handles-taken k.table o caps i v);
      kept = λ i. ground (arith, a.kept i, a.kept o);
    })
  ]

  pub ref_count_pos : (h o : ℕ) → live_object k.table h ≡ some o → 0 < k.objects.ref_count o
  ref_count_pos h o e =
      let (lo, hi, _, at) = live_object-eq_some k.table h o e in
      omega (
        arith,
        a.counted o,
        handles-retire k.table (handle_idx h) o o hi at,
        ap to_count (==_self o),
      )

  -- Freeing an entry and dropping its reference. The reference exists, so nothing underflows.
  unref-IsAccounted :
      (h o : ℕ)
      → live_object k.table h ≡ some o
      → (objects : Objects) × (kobject_unref k.objects o ≡ some objects)
        × IsAccounted others (record { table = retire k.table (handle_idx h); objects = objects })
  unref-IsAccounted h o e =
      let (lo, hi, _, at) = live_object-eq_some k.table h o e in
      let pos = ref_count_pos h o e in
      (
        dropped k.objects o,
        kobject_unref_pos k.objects o pos (omega (arith, ref_count-lt o)),
        record {
          counted = λ i.
              ground (arith, a.counted i, handles-retire k.table (handle_idx h) o i hi at, pos);
          kept = λ i. ground (arith, a.kept i);
        },
      )

  -- `close` never panics.
  pub close-IsAccounted : (h : ℕ) → (k' : Kom) × (close k h ≡ some k') × IsAccounted others k'
  unfolding close
  close-IsAccounted h = elim (Option-cases (live_object k.table h)) [
    | inl e ↦ (k, rw (e, close), a)
    | inr (o, e) ↦
        let (objects, done, kept) = unref-IsAccounted h o e in
        (
          record { table = retire k.table (handle_idx h); objects = objects },
          rw (e, close) (rw done),
          kept,
        )
  ]

  -- Who holds the references after a call: a successful `resolve` gives its caller one.
  abbrev pub others_after : Call → ℕ → ℕ
  others_after (resolves h req) = gained others (resolve k h req).0
  others_after _ = others

  resolve-IsAccounted :
      (h req : ℕ) → IsAccounted (gained others (resolve k h req).0) (resolve k h req).1
  resolve-IsAccounted h req = elim (resolve_cases k h req) [
    | inl failed ↦ rw failed a
    | inr (o, live, made) ↦ rw made (kobject_ref-IsAccounted o (ref_count_pos h o live))
  ]

  pub dup-IsAccounted : (h caps : ℕ) → Inv k.table → IsAccounted others (dup k h caps).1
  dup-IsAccounted h caps v = elim (dup_cases k h caps) [
    | inl failed ↦ rw failed a
    | inr (o, live, _, made) ↦ rw made (alloc-IsAccounted o caps v (ref_count_pos h o live))
  ]

  -- A thread may pass only objects that it holds a reference on; transfers are treated below.
  abbrev pub IsHonest : Call → Type 0
  IsHonest (allocs (some o) caps) = 0 < others o
  IsHonest (transfers h) = ⊥
  IsHonest _ = Unit {0}

  -- Every object has as many references as there are live entries for it and references that
  -- callers hold, fewer than 2^31 of these, and is not deleted while it has one: a call other than
  -- `transfer`, of an `alloc` for an object that its caller holds, does not panic and keeps it so.
  pub step-IsAccounted :
      (c : Call)
      → Inv k.table
      → IsHonest c
      → (k' : Kom) × (step k c ≡ some k') × IsAccounted (others_after c) k'
  unfolding step alloc
  step-IsAccounted (allocs none caps) v h = (k, refl, a)
  step-IsAccounted (allocs (some o) caps) v h =
      (_, refl, alloc-IsAccounted o caps v (omega (arith, a.counted o)))
  step-IsAccounted (resolves h req) v p = (_, refl, resolve-IsAccounted h req)
  step-IsAccounted (dups h caps) v p = (_, refl, dup-IsAccounted h caps v)
  step-IsAccounted (closes h) v p = close-IsAccounted h
  step-IsAccounted (transfers h) v p = elim p [ ]
