-- ===== src/Memory/Slab/Free.antt =====
-- kheap_slab.cpp: `free` keeps the cache sound and makes the object the first to be given again.
use singularity.Common.{
  ℕ, ◌+◌, ◌-◌, ◌^◌, ◌≤◌, ◌<◌, ◌≡◌, ◌≢◌, refl, Bool, true, false, not, ◌||◌, arith, ◌==◌,
  if◌then◌else◌, List, ◌∷◌, update, All, All-zip, All-map, Distinct, ap, sym, subst, inl, inr,
  Bool-cases, ==_self,
}
use singularity.Memory.Words.{store}
use singularity.Memory.Slab
use singularity.Memory.Slab.{Slab, SlabCache, Store, slab_pages, slab_of, remove_slab, to_u16}
use singularity.Memory.Slab.Sound.{IsGood, IsPartial, IsFull, IsEmpty, IsSound, IsLive, listed}
use singularity.Memory.Slab.Lists.{
  All-remove, Distinct-remove, remove_gone, occurs, occurs-none, occurs-moved,
}
use singularity.Memory.Slab.Alloc.{full-ne_partial, empty-ne_used}
use singularity.Memory.Slab.GivenBack.{given_back, IsSlab-other, IsSlab-given_back}

module _ (t : Store) (unused : ℕ → List ℕ) (v : IsSound t unused) (s ptr : ℕ)
    (live : IsLive t unused s ptr) where
  abbrev slab : Slab
  slab = t.slabs s

  abbrev was_full : Bool
  was_full = slab.used_count == slab.total_count

  abbrev used' : ℕ
  used' = to_u16 (slab.used_count + 2 ^ 16 - 1)

  abbrev joined : List ℕ
  joined = if was_full then s ∷ t.cache.partial else t.cache.partial

  abbrev next : Store
  next = record t {
    memory = store t.memory ptr slab.free_list;
    slabs = update t.slabs s (given_back slab ptr);
    cache = record t.cache {
      partial = if used' == 0 then remove_slab s joined else joined;
      full = if was_full then remove_slab s t.cache.full else t.cache.full;
      empty = if used' == 0 then s ∷ t.cache.empty else t.cache.empty;
    };
  }

  abbrev unused' : ℕ → List ℕ
  unused' = update unused s (ptr ∷ unused s)

  good : IsGood t unused s
  good = elim live.owner [ inl p ↦ p.0 | inr p ↦ p.0 ]

  counters :
      (0 < slab.used_count) × (slab.used_count ≤ slab.total_count) × (used' + 1 ≡ slab.used_count)
  counters = elim live.owner [
    | inl p ↦ (p.1, omega (arith, p.2), omega (arith, p.1, p.2, good.bounded))
    | inr p ↦ (
      omega (arith, p.1, good.positive),
      omega (arith, p.1),
      omega (arith, p.1, good.positive, good.bounded),
    )
  ]

  good' : IsGood next unused' s
  good' = rw (==_self s) (
      IsSlab-given_back t.cache.obj_size t.memory slab s ptr (unused s) good live.slot counters.0
        live.taken)

  Good-kept : (y : ℕ) → IsGood t unused y → y ≢ s → IsGood next unused' y
  Good-kept y p ne =
      let apart : (s == y) ≡ false = ground arith in
      rw apart (
        IsSlab-other t.cache.obj_size t.memory (t.slabs y) s ptr slab.free_list y (unused y)
          live.slot.inside live.slot.aligned ne p)

  same_counts :
      (y : ℕ)
      → y ≢ s
      → ((next.slabs y).used_count ≡ (t.slabs y).used_count)
        × ((next.slabs y).total_count ≡ (t.slabs y).total_count)
  same_counts y ne = let apart : (s == y) ≡ false = ground arith in (rw apart refl, rw apart refl)

  Partial-kept : (y : ℕ) → IsPartial t unused y → y ≢ s → IsPartial next unused' y
  Partial-kept y p ne =
      let (used, total) = same_counts y ne in
      (Good-kept y p.0 ne, omega (arith, p.1, used), omega (arith, p.2, used, total))

  Full-kept : (y : ℕ) → IsFull t unused y → y ≢ s → IsFull next unused' y
  Full-kept y p ne =
      let (used, total) = same_counts y ne in (Good-kept y p.0 ne, omega (arith, p.1, used, total))

  Empty-kept : (y : ℕ) → IsEmpty t unused y → y ≢ s → IsEmpty next unused' y
  Empty-kept y p ne =
      let (used, total) = same_counts y ne in (Good-kept y p.0 ne, omega (arith, p.1, used))

  self_counts :
      ((next.slabs s).used_count ≡ used') × ((next.slabs s).total_count ≡ slab.total_count)
  self_counts = (rw (==_self s) refl, rw (==_self s) refl)

  not_empty : All (λ x. x ≢ s) t.cache.empty
  not_empty =
      All-map t.cache.empty
        (λ (x : ℕ) (p : IsEmpty t unused x). empty-ne_used t unused s x counters.0 p) v.empty

  -- A full slab is not in the partial list.
  full-ne : was_full ≡ true → (x : ℕ) → IsPartial t unused x → x ≢ s
  full-ne e x p same = ground (
    arith,
    p.2,
    ap (λ (y : ℕ). (t.slabs y).used_count) same,
    ap (λ (y : ℕ). (t.slabs y).total_count) same,
  )

  partial_ne : was_full ≡ true → All (λ x. x ≢ s) t.cache.partial
  partial_ne e = All-map t.cache.partial (full-ne e) v.partial

  joined_is :
      (b : Bool) → was_full ≡ b → joined ≡ (if b then s ∷ t.cache.partial else t.cache.partial)
  joined_is b e = ap (λ b. if b then s ∷ t.cache.partial else t.cache.partial) e

  joined_once : Distinct joined
  joined_once = elim (Bool-cases was_full) [
    | inl e ↦ subst Distinct (sym (joined_is true e)) (partial_ne e, v.partial_once)
    | inr e ↦ subst Distinct (sym (joined_is false e)) v.partial_once
  ]

  -- Without `s`, the list holds partial slabs.
  rest-IsPartial : All (IsPartial t unused) (remove_slab s joined)
  unfolding remove_slab
  rest-IsPartial = elim (Bool-cases was_full) [
    | inl e ↦
        let first : remove_slab s (s ∷ t.cache.partial) ≡ t.cache.partial =
          ap (λ b. if b then t.cache.partial else s ∷ remove_slab s t.cache.partial) (==_self s) in
        subst (λ xs. All (IsPartial t unused) (remove_slab s xs)) (sym (joined_is true e))
          (subst (All (IsPartial t unused)) (sym first) v.partial)
    | inr e ↦
        subst (λ xs. All (IsPartial t unused) (remove_slab s xs)) (sym (joined_is false e))
          (All-remove (IsPartial t unused) s t.cache.partial v.partial)
  ]

  partial_next : All (IsPartial next unused') next.cache.partial
  partial_next = elim (Bool-cases (used' == 0)) [
    | inl e ↦
        subst (All (IsPartial next unused'))
          (sym (ap (λ b. if b then remove_slab s joined else joined) e))
          (All-zip (remove_slab s joined) Partial-kept rest-IsPartial
            (remove_gone s joined joined_once))
    | inr e ↦
        let (used, total) = self_counts in
        let self : IsPartial next unused' s =
          (good', ground (arith, used, e), omega (arith, used, total, counters)) in
        subst (All (IsPartial next unused'))
          (sym (ap (λ b. if b then remove_slab s joined else joined) e))
          (elim (Bool-cases was_full) [
            | inl f ↦
                subst (All (IsPartial next unused')) (sym (joined_is true f))
                  (self, All-zip t.cache.partial Partial-kept v.partial (partial_ne f))
            | inr f ↦ subst (All (IsPartial next unused')) (sym (joined_is false f)) (
                All-map t.cache.partial
                  (λ (x : ℕ) (p : IsPartial t unused x). elim (Bool-cases (x == s)) [
                    | inl g ↦
                        let same : x ≡ s = ground arith in
                        subst (IsPartial next unused') (sym same) self
                    | inr g ↦ Partial-kept x p (ground arith)
                  ])
                  v.partial)
          ])
  ]

  full_next : All (IsFull next unused') next.cache.full × Distinct next.cache.full
  full_next = elim (Bool-cases was_full) [
    | inl e ↦
        let list = ap (λ b. if b then remove_slab s t.cache.full else t.cache.full) e in
        (
          subst (All (IsFull next unused')) (sym list) (
              All-zip (remove_slab s t.cache.full) Full-kept
                (All-remove (IsFull t unused) s t.cache.full v.full)
                (remove_gone s t.cache.full v.full_once)),
          subst Distinct (sym list) (Distinct-remove s t.cache.full v.full_once),
        )
    | inr e ↦
        let list = ap (λ b. if b then remove_slab s t.cache.full else t.cache.full) e in
        let room : slab.used_count < slab.total_count = ground (arith, e, counters) in
        (
          subst (All (IsFull next unused')) (sym list) (
              All-zip t.cache.full Full-kept v.full (
                All-map t.cache.full
                  (λ (x : ℕ) (p : IsFull t unused x). full-ne_partial t unused s x room p) v.full)),
          subst Distinct (sym list) v.full_once,
        )
  ]

  empty_next : All (IsEmpty next unused') next.cache.empty × Distinct next.cache.empty
  empty_next = elim (Bool-cases (used' == 0)) [
    | inl e ↦
        let list = ap (λ b. if b then s ∷ t.cache.empty else t.cache.empty) e in
        let self : IsEmpty next unused' s = (good', ground (arith, self_counts.0, e)) in
        (
          subst (All (IsEmpty next unused')) (sym list)
              (self, All-zip t.cache.empty Empty-kept v.empty not_empty),
          subst Distinct (sym list) (not_empty, v.empty_once),
        )
    | inr e ↦
        let list = ap (λ b. if b then s ∷ t.cache.empty else t.cache.empty) e in
        (
          subst (All (IsEmpty next unused')) (sym list)
              (All-zip t.cache.empty Empty-kept v.empty not_empty),
          subst Distinct (sym list) v.empty_once,
        )
  ]

  next-IsSound : IsSound next unused'
  next-IsSound = record {
    partial = partial_next;
    full = full_next.0;
    empty = empty_next.0;
    partial_once = elim (Bool-cases (used' == 0)) [
      | inl e ↦
          subst Distinct (sym (ap (λ b. if b then remove_slab s joined else joined) e))
            (Distinct-remove s joined joined_once)
      | inr e ↦
          subst Distinct (sym (ap (λ b. if b then remove_slab s joined else joined) e)) joined_once
    ];
    full_once = full_next.1;
    empty_once = empty_next.1;
  }

  free-eq : Slab.free t ptr ≡ (true, next)
  unfolding Slab.free
  free-eq =
      let there : slab_of t.cache.obj_size ptr ≡ s = live.slot.inside in
      let not_null : (ptr == 0) ≡ false = ground (arith, live.slot.not_null) in
      let ok : (not (slab.page_count == slab_pages t.cache.obj_size) || slab.total_count == 0)
          ≡ false =
        ground (arith, good.pages, good.positive) in
      rw there (rw not_null (rw ok refl))

  -- The list that the slab is taken off.
  in_list :
      0 < listed t.cache s
      → 0 < (if was_full then occurs s t.cache.full else occurs s t.cache.partial)
  in_list there =
      let not_there = occurs-none s t.cache.empty not_empty in
      elim (Bool-cases was_full) [
        | inl e ↦
            rw e (omega (arith, there, not_there, occurs-none s t.cache.partial (partial_ne e)))
        | inr e ↦
            let room : slab.used_count < slab.total_count = ground (arith, e, counters) in
            let not_full =
              All-map t.cache.full
                (λ (x : ℕ) (p : IsFull t unused x). full-ne_partial t unused s x room p) v.full in
            rw e (omega (arith, there, not_there, occurs-none s t.cache.full not_full))
      ]

  -- Giving back a live object of a slab that is in a list of the cache succeeds and keeps the cache
  -- sound, with the object as the first of its slab's free objects. No slab is lost or doubled: every
  -- slab stands as often in the lists as before, so that this slab is in the list that its new counters
  -- say.
  pub free-IsSound :
      0 < listed t.cache s
      → (t' : Store) × (Slab.free t ptr ≡ (true, t'))
        × IsSound t' (update unused s (ptr ∷ unused s))
        × ((y : ℕ) → listed t'.cache y ≡ listed t.cache y)
  free-IsSound there = (
    next,
    free-eq,
    next-IsSound,
    occurs-moved t.cache.partial t.cache.full t.cache.empty s was_full (used' == 0) (in_list there),
  )
