-- ===== src/Kom/Container/References.antt =====
-- kcontainer.cpp: the references that a container holds on what is bound in it.
use singularity.Common.{
  ℕ, ◌+◌, ◌<◌, ◌≡◌, refl, Bool, true, false, ◌^◌, ◌%◌, some, arith, ◌==◌, List, [], ◌∷◌, take,
  Bool-cases, inl, inr, ap, to_count, ◌⊎◌, ◌≢◌, subst, ==_self,
}
use singularity.Kom.Error.{Error, ok}
use singularity.Kom.Object.{Objects, kobject_ref, kobject_unref, dropped, kobject_unref_pos}
use singularity.Kom.Container.{
  OnsBinding, KContainer, same_name, find, remove, bind, unbind, lookup, destroy, create_child,
  with_new,
}
use singularity.Kom.Container.Map.{bind_cases}

-- How many bindings there are of an object.
unfoldable pub bound : List OnsBinding → ℕ → ℕ
bound [] obj = 0
bound (b ∷ bs) obj = to_count (b.obj == obj) + bound bs obj

-- An object has a reference for each binding and for each other holder, and is there as long as it
-- has one.
pub record IsAccounted (others : ℕ → ℕ) (bs : List OnsBinding) (s : Objects) : Type 0 where
  pub counted : (o : ℕ) → s.ref_count o ≡ bound bs o + others o
  pub bounded : (o : ℕ) → s.ref_count o + 1 < 2 ^ 32
  pub kept : (o : ℕ) → 0 < s.ref_count o → s.deleted o ≡ false

bound-remove :
    (bs : List OnsBinding) (name : List ℕ) (obj o : ℕ)
    → find bs name ≡ some obj
    → bound bs o ≡ to_count (obj == o) + bound (remove bs name) o
unfolding bound find remove
bound-remove [] name obj o e = absurd (ground arith)
bound-remove (b ∷ bs) name obj o e = elim (Bool-cases (same_name b.name name)) [
  | inl here ↦ ground arith
  | inr past ↦ ground (arith, bound-remove bs name obj o)
]

-- One binding fewer, and its reference dropped.
unref-IsAccounted :
    (others : ℕ → ℕ) (bs bs' : List OnsBinding) (s : Objects) (obj : ℕ)
    → IsAccounted others bs s
    → ((o : ℕ) → bound bs o ≡ to_count (obj == o) + bound bs' o)
    → (kobject_unref s obj ≡ some (dropped s obj)) × IsAccounted others bs' (dropped s obj)
unref-IsAccounted others bs bs' s obj a one =
    let at : bound bs obj ≡ 1 + bound bs' obj = ground (arith, one obj) in
    let pos : 0 < s.ref_count obj = omega (arith, a.counted obj) in
    (
      kobject_unref_pos s obj pos (omega (arith, a.bounded obj)),
      record {
        counted = λ o. ground (arith, a.counted o, one o);
        bounded = λ o. ground (arith, a.bounded o, a.bounded obj);
        kept = λ o p. ground (arith, a.kept o);
      },
    )

-- `unbind` of a name that is bound returns `KOM_OK` without a panic and drops exactly the reference
-- of that binding; an object is deleted only when no binding and no other holder is left.
pub unbind-IsAccounted :
    (others : ℕ → ℕ) (k : KContainer) (name : List ℕ) (obj : ℕ)
    → IsAccounted others k.bindings k.objects
    → find k.bindings name ≡ some obj
    → (k' : KContainer) × (unbind k (some name) ≡ some (ok, k'))
      × IsAccounted others k'.bindings k'.objects
unfolding unbind
unbind-IsAccounted others k name obj a e =
    let (done, a') =
      unref-IsAccounted others k.bindings (remove k.bindings name) k.objects obj a
        (λ o. bound-remove k.bindings name obj o e) in
    (
      record { bindings = remove k.bindings name; objects = dropped k.objects obj },
      rw (e, unbind, done) refl,
      a',
    )

-- `~KContainer` gives back every reference of the container, without a panic: what is left are the
-- other holders' references.
pub destroy-IsAccounted :
    (others : ℕ → ℕ) (bs : List OnsBinding) (s : Objects)
    → IsAccounted others bs s
    → (s' : Objects) × (destroy bs s ≡ some s') × IsAccounted others [] s'
unfolding destroy bound
destroy-IsAccounted others [] s a = (s, refl, a)
destroy-IsAccounted others (b ∷ bs) s a =
    let (done, a') = unref-IsAccounted others (b ∷ bs) bs s b.obj a (λ o. refl) in
    let (s', rest, a'') = destroy-IsAccounted others bs (dropped s b.obj) a' in
    (s', rw (done, destroy) rest, a'')

-- One reference more on an object.
ref-IsAccounted :
    (others others' : ℕ → ℕ) (bs bs' : List OnsBinding) (s : Objects) (obj : ℕ)
    → IsAccounted others bs s
    → s.ref_count obj + 2 < 2 ^ 32
    → 0 < s.ref_count obj
    → ((o : ℕ) → bound bs' o + others' o ≡ to_count (obj == o) + (bound bs o + others o))
    → IsAccounted others' bs' (kobject_ref s obj)
unfolding kobject_ref
ref-IsAccounted others others' bs bs' s obj a few alive one =
    let wrap : (s.ref_count obj + 1) % 2 ^ 32 ≡ s.ref_count obj + 1 = omega arith in
    rw wrap (record {
      counted = λ o. ground (arith, a.counted o, one o);
      bounded = λ o. ground (arith, a.bounded o);
      kept = λ o p. ground (arith, a.kept o);
    })

bind_ok :
    (allocated : Bool) (k : KContainer) (name : List ℕ) (obj : ℕ)
    → (bind allocated k (some name) (some obj)).0 ≡ ok
    → let (_, k') = bind allocated k (some name) (some obj) in
      (k'.bindings ≡ record { name = take 63 name; obj = obj } ∷ k.bindings)
      × (k'.objects ≡ kobject_ref k.objects obj)
bind_ok allocated k name obj e = elim (bind_cases allocated k name obj) [
  | inl (bad, _, _) ↦ absurd (ground arith)
  | inr (inl (bad, _, _)) ↦ absurd (ground arith)
  | inr (inr (_, _, _, bindings, objects)) ↦ (bindings, objects)
]

-- A successful `bind` takes one reference on what it binds, for an object that someone holds and that
-- has fewer than 2^32 - 2 references.
pub bind-IsAccounted :
    (others : ℕ → ℕ) (allocated : Bool) (k k' : KContainer) (name : List ℕ) (obj : ℕ)
    → IsAccounted others k.bindings k.objects
    → k.objects.ref_count obj + 2 < 2 ^ 32
    → 0 < k.objects.ref_count obj
    → bind allocated k (some name) (some obj) ≡ (ok, k')
    → IsAccounted others k'.bindings k'.objects
unfolding bound
bind-IsAccounted others allocated k k' name obj a few alive e =
    let (bindings, objects) =
      bind_ok allocated k name obj (ap (λ (r : Error × KContainer). r.0) e) in
    let same = ap (λ (r : Error × KContainer). r.1) e in
    subst (λ (c : KContainer). IsAccounted others c.bindings c.objects) same
      (rw (bindings, objects)
        (ref-IsAccounted others others k.bindings
          (record { name = take 63 name; obj = obj } ∷ k.bindings) k.objects obj a few alive
          (λ o. omega arith)))

-- `lookup` of a name that is bound returns its object with one more reference, which is the
-- caller's, if it has fewer than 2^32 - 2.
pub lookup-IsAccounted :
    (others : ℕ → ℕ) (k : KContainer) (name : List ℕ) (obj : ℕ)
    → IsAccounted others k.bindings k.objects
    → k.objects.ref_count obj + 2 < 2 ^ 32
    → find k.bindings name ≡ some obj
    → let (found, k') = lookup k (some name) in
      (found ≡ some obj)
      × (k'.bindings ≡ k.bindings)
      × IsAccounted (λ o. to_count (obj == o) + others o) k'.bindings k'.objects
unfolding lookup
lookup-IsAccounted others k name obj a few e =
    let one = bound-remove k.bindings name obj obj e in
    let alive : 0 < k.objects.ref_count obj = ground (arith, a.counted obj) in
    rw (e, lookup)
      (
        refl,
        refl,
        ref-IsAccounted others (λ o. to_count (obj == o) + others o) k.bindings k.bindings k.objects
            obj a few alive (λ o. omega arith),
      )

-- Dropping the creator's reference of a new object deletes it, unless another was taken.
unref-new :
    (s : Objects) (c : ℕ)
    → (s' : Objects) × (kobject_unref (with_new s c) c ≡ some s')
      × (s'.ref_count c ≡ 0)
      × (s'.deleted c ≡ true)
unfolding kobject_unref
unref-new s c = rw (==_self c) (_, refl, rw (==_self c) refl, rw (==_self c) refl)

unref-shared :
    (s : Objects) (c : ℕ)
    → (s' : Objects) × (kobject_unref (kobject_ref (with_new s c) c) c ≡ some s')
      × (s'.ref_count c ≡ 1)
      × (s'.deleted c ≡ false)
unfolding kobject_unref kobject_ref
unref-shared s c = rw (==_self c) (_, refl, rw (==_self c) refl, rw (==_self c) refl)

-- `create_child` of a container that `new` makes at the address `c` does not panic. Either it returns
-- `KOM_OK`, the child is bound and the binding holds its one reference, or it returns an error, the
-- bindings are unchanged and the child is deleted again.
pub create_child-keeps :
    (allocated : Bool) (k : KContainer) (name : List ℕ) (c : ℕ)
    → (res : Error) × (k' : KContainer) × (create_child allocated k (some name) true (some c)
        ≡ some (res, k'))
      × (((res ≡ ok)
            × (k'.bindings ≡ record { name = take 63 name; obj = c } ∷ k.bindings)
            × (k'.objects.ref_count c ≡ 1)
            × (k'.objects.deleted c ≡ false))
          ⊎ ((res ≢ ok)
              × (k'.bindings ≡ k.bindings)
              × (k'.objects.ref_count c ≡ 0)
              × (k'.objects.deleted c ≡ true)))
unfolding create_child
create_child-keeps allocated k name c =
    let k' : KContainer = record k { objects = with_new k.objects c } in
    let r = bind allocated k' (some name) (some c) in
    elim (bind_cases allocated k' name c) [
      | inl (bad, same, _) ↦
          let (s', done, count, gone) = unref-new k.objects c in
          (
            r.0,
            record k { objects = s' },
            rw (same, create_child, done, same) refl,
            inr (rw bad (λ e. cc), refl, count, gone),
          )
      | inr (inl (bad, same, _)) ↦
          let (s', done, count, gone) = unref-new k.objects c in
          (
            r.0,
            record k { objects = s' },
            rw (same, create_child, done, same) refl,
            inr (rw bad (λ e. cc), refl, count, gone),
          )
      | inr (inr (good, _, _, bindings, objects)) ↦
          let (s', done, count, there) = unref-shared k.objects c in
          (
            r.0,
            record r.1 { objects = s' },
            rw (objects, create_child, done) refl,
            inl (good, bindings, count, there),
          )
    ]
