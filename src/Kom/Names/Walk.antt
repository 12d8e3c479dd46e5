-- ===== src/Kom/Names/Walk.antt =====
-- ons.cpp: what `ons_resolve` finds, and the references it takes and gives back.
use singularity.Common.{
  ℕ, ◌+◌, ◌^◌, ◌<◌, ◌≡◌, refl, Bool, Option, none, some, arith, ◌==◌, if◌then◌else◌, to_count, List,
  [], ◌∷◌, Option-cases, Bool-cases, inl, inr,
}
use singularity.Kom.Object.{Objects, kobject_ref, kobject_unref, released, kobject_unref_kept}
use singularity.Kom.Container.{OnsBinding, find, lookup}
use singularity.Kom.Names.{Names, slash, convert_nt_path, ref, release, pieces, walk, ons_resolve}

-- The object at a path, by the bindings alone.
unfoldable pub follow : (ℕ → Bool) → (ℕ → List OnsBinding) → List (List ℕ) → ℕ → Option ℕ
follow is_dir bs [] c = some c
follow is_dir bs ([] ∷ rest) c = follow is_dir bs rest c
follow is_dir bs ((x ∷ xs) ∷ rest) c = elim (find (bs c) (x ∷ xs)) [
  | none ↦ none
  | some o ↦ elim rest [ [] ↦ some o | _ ∷ _ ↦ if is_dir o then follow is_dir bs rest o else none ]
]

-- The root and all bound objects have a reference, and no count is near its end.
pub record IsHeld (n : Names) : Type 0 where
  pub rooted : 0 < n.objects.ref_count n.root
  pub bound :
      (c o : ℕ) (name : List ℕ) → find (n.bindings c) name ≡ some o → 0 < n.objects.ref_count o
  pub bounded : (o : ℕ) → n.objects.ref_count o + 3 < 2 ^ 32

abbrev pub is_at : Option ℕ → ℕ → ℕ
is_at none o = 0
is_at (some p) o = to_count (p == o)

-- `s'` has a reference more than `s` on the object that is given, and is the same otherwise.
pub record OneMore (s s' : Objects) (given : Option ℕ) : Type 0 where
  pub counts : (o : ℕ) → s'.ref_count o ≡ s.ref_count o + is_at given o
  pub same : (o : ℕ) → s'.deleted o ≡ s.deleted o

ref-OneMore :
    (s s' : Objects) (c o : ℕ)
    → OneMore s s' (some c)
    → ((p : ℕ) → s.ref_count p + 3 < 2 ^ 32)
    → 0 < s.ref_count c
    → (s'' : Objects) × (kobject_unref (kobject_ref s' o) c ≡ some s'') × OneMore s s'' (some o)
unfolding kobject_ref
ref-OneMore s s' c o more few pos =
    let s1 = kobject_ref s' o in
    (
      released s1 c,
      kobject_unref_kept s1 c (ground (arith, more.counts c, few c))
          (ground (arith, more.counts c, few c)),
      record { counts = λ p. ground (arith, more.counts p, few p); same = more.same },
    )

pub unref-OneMore :
    (s s' : Objects) (c : ℕ)
    → OneMore s s' (some c)
    → ((p : ℕ) → s.ref_count p + 3 < 2 ^ 32)
    → 0 < s.ref_count c
    → (s'' : Objects) × (kobject_unref s' c ≡ some s'') × OneMore s s'' none
unref-OneMore s s' c more few pos = (
  released s' c,
  kobject_unref_kept s' c (ground (arith, more.counts c)) (ground (arith, more.counts c, few c)),
  record { counts = λ p. ground (arith, more.counts p, few p); same = more.same },
)

-- The state `n` with other counts.
abbrev pub counted : Names → Objects → Names
counted n s = record n { objects = s }

-- Whatever is found, nothing but the object found has one reference more than before.
abbrev pub Followed : Names → Option (Option ℕ × Names) → Option ℕ → Type 0
Followed n result target =
    (s : Objects) × (result ≡ some (target, counted n s)) × OneMore n.objects s target

-- What a round of the loop does with what `lookup` finds.
abbrev pub went : List (List ℕ) → Names → ℕ → Option (Option ℕ × Names)
went [] n o = some (some o, n)
went (p ∷ ps) n o =
    if n.is_container o
    then walk (p ∷ ps) n o
    else elim (release n o) [ none ↦ none | some n' ↦ some (none, n') ]

walk-found :
    (rest : List (List ℕ)) (n : Names) (s s' : Objects) (c o x : ℕ) (xs : List ℕ)
    → find (n.bindings c) (x ∷ xs) ≡ some o
    → kobject_unref (kobject_ref s o) c ≡ some s'
    → walk ((x ∷ xs) ∷ rest) (counted n s) c ≡ went rest (counted n s') o
unfolding walk lookup release
walk-found [] n s s' c o x xs e unref = ground (arith, e, unref)
walk-found (p ∷ ps) n s s' c o x xs e unref = ground (arith, e, unref)

walk-missed :
    (rest : List (List ℕ)) (n : Names) (s s' : Objects) (c x : ℕ) (xs : List ℕ)
    → find (n.bindings c) (x ∷ xs) ≡ none
    → kobject_unref s c ≡ some s'
    → walk ((x ∷ xs) ∷ rest) (counted n s) c ≡ some (none, counted n s')
unfolding walk lookup release
walk-missed rest n s s' c x xs e unref = ground (arith, e, unref)

abbrev pub follow_on : (ℕ → Bool) → (ℕ → List OnsBinding) → List (List ℕ) → ℕ → Option ℕ
follow_on is_dir bs [] o = some o
follow_on is_dir bs (p ∷ ps) o = if is_dir o then follow is_dir bs (p ∷ ps) o else none

follow-found :
    (rest : List (List ℕ)) (is_dir : ℕ → Bool) (bs : ℕ → List OnsBinding) (c o x : ℕ) (xs : List ℕ)
    → find (bs c) (x ∷ xs) ≡ some o
    → follow is_dir bs ((x ∷ xs) ∷ rest) c ≡ follow_on is_dir bs rest o
unfolding follow
follow-found [] is_dir bs c o x xs e = ground (arith, e)
follow-found (p ∷ ps) is_dir bs c o x xs e = ground (arith, e)

follow-missed :
    (rest : List (List ℕ)) (is_dir : ℕ → Bool) (bs : ℕ → List OnsBinding) (c x : ℕ) (xs : List ℕ)
    → find (bs c) (x ∷ xs) ≡ none
    → follow is_dir bs ((x ∷ xs) ∷ rest) c ≡ none
unfolding follow
follow-missed rest is_dir bs c x xs e = ground (arith, e)

went-follow :
    (rest : List (List ℕ)) (n : Names) (s : Objects) (o : ℕ)
    → IsHeld n
    → 0 < n.objects.ref_count o
    → OneMore n.objects s (some o)
    → Followed n (walk rest (counted n s) o) (follow n.is_container n.bindings rest o)
    → Followed n (went rest (counted n s) o) (follow_on n.is_container n.bindings rest o)
unfolding release
went-follow [] n s o held pos more deeper = (s, refl, more)
went-follow (p ∷ ps) n s o held pos more deeper = elim (Bool-cases (n.is_container o)) [
  | inl dir ↦ rw dir deeper
  | inr leaf ↦
      let (s', unref, less) = unref-OneMore n.objects s o more held.bounded pos in
      rw (leaf, unref) (s', refl, less)
]

walk-follow :
    (ps : List (List ℕ)) (n : Names) (s : Objects) (c : ℕ)
    → IsHeld n
    → 0 < n.objects.ref_count c
    → OneMore n.objects s (some c)
    → Followed n (walk ps (counted n s) c) (follow n.is_container n.bindings ps c)
unfolding walk follow
walk-follow [] n s c held pos more = (s, refl, more)
walk-follow ([] ∷ rest) n s c held pos more = walk-follow rest n s c held pos more
walk-follow ((x ∷ xs) ∷ rest) n s c held pos more =
    elim (Option-cases (find (n.bindings c) (x ∷ xs))) [
      | inl miss ↦
          let (s', unref, less) = unref-OneMore n.objects s c more held.bounded pos in
          rw
            (
              walk-missed rest n s s' c x xs miss unref,
              follow-missed rest n.is_container n.bindings c x xs miss,
            )
            (s', refl, less)
      | inr (o, hit) ↦
          let (s', unref, next) = ref-OneMore n.objects s c o more held.bounded pos in
          let round = walk-found rest n s s' c o x xs hit unref in
          let target = follow-found rest n.is_container n.bindings c o x xs hit in
          let pos' = held.bound c o (x ∷ xs) hit in
          rw (round, target)
            (went-follow rest n s' o held pos' next (walk-follow rest n s' o held pos' next))
    ]

-- What is at a path in the form that `convert_nt_path` gives.
unfoldable pub found_at : Names → List ℕ → Option ℕ
found_at n [] = none
found_at n (c ∷ rest) =
    if c == slash then follow n.is_container n.bindings (pieces rest) n.root else none

first-OneMore :
    (s : Objects) (c : ℕ)
    → ((p : ℕ) → s.ref_count p + 3 < 2 ^ 32)
    → OneMore s (kobject_ref s c) (some c)
unfolding kobject_ref
first-OneMore s c few = record { counts = λ p. ground (arith, few p); same = λ p. refl }

resolve_at :
    (n : Names) (buf : List ℕ)
    → IsHeld n
    → Followed n
        (elim buf [
          | [] ↦ some (none, n)
          | c ∷ rest ↦
              if c == slash then walk (pieces rest) (ref n n.root) n.root else some (none, n)
        ])
        (found_at n buf)
unfolding found_at
resolve_at n [] held = (n.objects, refl, record { counts = λ o. omega arith; same = λ o. refl })
resolve_at n (c ∷ rest) held = elim (Bool-cases (c == slash)) [
  | inl here ↦ rw here (
      walk-follow (pieces rest) n (kobject_ref n.objects n.root) n.root held held.rooted
        (first-OneMore n.objects n.root held.bounded))
  | inr past ↦ rw past (n.objects, refl, record { counts = λ o. omega arith; same = λ o. refl })
]

-- While the root and all that is bound hold references and no count is near its end, `ons_resolve` ends
-- without a panic with the object that the bindings lead to, taken piece by piece, or with null when
-- there is none or a piece before the last is no container. Every reference that it takes on the way is
-- given back: the object found has one reference more, and nothing else has changed.
pub ons_resolve-follow :
    (n : Names) (path : List ℕ)
    → IsHeld n
    → Followed n (ons_resolve n (some path)) (found_at n (convert_nt_path path))
unfolding ons_resolve
ons_resolve-follow n path held = resolve_at n (convert_nt_path path) held
