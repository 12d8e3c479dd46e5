-- ===== src/Kom/Names/Binding.antt =====
-- ons.cpp: what `ons_bind` binds is what `ons_resolve` finds.
use singularity.Common.{
  ℕ, ◌<◌, ◌≡◌, ◌≢◌, refl, Bool, true, Option, none, some, arith, update, List, [], ◌∷◌, length,
  take, ap, sym, subst, ◌∙◌, Bool-cases, Option-cases, inl, inr, ◌⊎◌,
}
use singularity.Kom.Error.{Error, ok}
use singularity.Kom.Object.{Objects, kobject_ref, kobject_unref}
use singularity.Kom.Container.{OnsBinding, KContainer, find, bind}
use singularity.Kom.Container.Map.{bind_cases}
use singularity.Kom.Names.{
  Names, container, with_container, convert_nt_path, release, ons_resolve, ons_bind, parent_of,
  place_of, ons_ok, ons_err_collision,
}
use singularity.Kom.Names.Walk.{IsHeld, found_at, ons_resolve-follow, counted}

-- The container that a path's part before its last slash leads to.
abbrev pub parent_at : Names → List ℕ → Option ℕ
parent_at n [] = some n.root
parent_at n (c ∷ cs) = found_at n (convert_nt_path (c ∷ cs))

-- When `parent_of` gives a container, it is the one at the path; only counts have changed.
parent_of-some :
    (n n' : Names) (before : List ℕ) (parent err : ℕ)
    → IsHeld n
    → parent_of n before ≡ some ((some parent, err), n')
    → (s : Objects) × (n' ≡ counted n s)
      × (parent_at n before ≡ some parent)
      × ((before ≡ []) ⊎ (n.is_container parent ≡ true))
unfolding parent_of
parent_of-some n n' [] parent err held e =
    (kobject_ref n.objects n.root, ground (arith, e), ground (arith, e), inl refl)
parent_of-some n n' (c ∷ cs) parent err held e =
    let (s, resolved, _) = ons_resolve-follow n (c ∷ cs) held in
    elim (Option-cases (found_at n (convert_nt_path (c ∷ cs)))) [
      | inl nothing ↦ absurd (ground (arith, resolved, nothing, e))
      | inr (o, at) ↦ elim (Bool-cases (n.is_container o)) [
        | inl dir ↦
            let (same_state, same) : (n' ≡ counted n s) × (o ≡ parent) =
              ground (arith, resolved, at, dir, e) in
            (s, same_state, at ∙ ap some same, inr (subst (λ p. n.is_container p ≡ true) same dir))
        | inr leaf ↦ elim (Option-cases (release (counted n s) o)) [
          | inl panic ↦ absurd (ground (arith, resolved, at, leaf, panic, e))
          | inr (n1, released) ↦ absurd (ground (arith, resolved, at, leaf, released, e))
        ]
      ]
    ]

release-some : (n n' : Names) (c : ℕ) → release n c ≡ some n' → (s : Objects) × (n' ≡ counted n s)
unfolding release
release-some n n' c e = elim (Option-cases (kobject_unref n.objects c)) [
  | inl panic ↦ absurd (ground (arith, panic, e))
  | inr (s, unref) ↦ (s, ground (arith, unref, e))
]

abbrev pub entry : List ℕ → ℕ → OnsBinding
entry name obj = record { name = take 63 name; obj = obj }

abbrev pub bound_in : Names → ℕ → List ℕ → ℕ → ℕ → List OnsBinding
bound_in n parent name obj = update n.bindings parent (entry name obj ∷ n.bindings parent)

-- A `bind` in the parent that succeeded.
bind-done :
    (allocated : Bool) (k k' : KContainer) (name : List ℕ) (obj : ℕ)
    → bind allocated k (some name) (some obj) ≡ (ok, k')
    → (length name < 64)
      × (find k.bindings name ≡ none)
      × (k'.bindings ≡ entry name obj ∷ k.bindings)
bind-done allocated k k' name obj e = elim (bind_cases allocated k name obj) [
  | inl (bad, _, _) ↦ absurd (ground (arith, bad, e))
  | inr (inl (bad, _, _)) ↦ absurd (ground (arith, bad, e))
  | inr (inr (_, fits, absent, bindings, _)) ↦
      (fits, absent, sym (ap (λ (r : Error × KContainer). r.1.bindings) e) ∙ bindings)
]

pub record IsDone (n n' : Names) (buf : List ℕ) (obj : ℕ) : Type 0 where
  pub before : List ℕ
  pub name : List ℕ
  pub parent : ℕ
  pub place : place_of buf ≡ some (before, name)
  pub at : parent_at n before ≡ some parent
  pub dir : (before ≡ []) ⊎ (n.is_container parent ≡ true)
  pub fits : length name < 64
  pub absent : find (n.bindings parent) name ≡ none
  pub bindings : n'.bindings ≡ bound_in n parent name obj
  pub same_root : n'.root ≡ n.root
  pub same_dirs : n'.is_container ≡ n.is_container

parent_of-none :
    (n n' : Names) (before : List ℕ) (err : ℕ)
    → parent_of n before ≡ some ((none, err), n')
    → err ≢ ons_ok
unfolding parent_of
parent_of-none n n' [] err e = absurd (ground (arith, e))
parent_of-none n n' (c ∷ cs) err e = elim (Option-cases (ons_resolve n (some (c ∷ cs)))) [
  | inl panic ↦ absurd (ground (arith, panic, e))
  | inr ((none, n1), resolved) ↦ ground (arith, resolved, e)
  | inr ((some o, n1), resolved) ↦ elim (Bool-cases (n1.is_container o)) [
    | inl dir ↦ absurd (ground (arith, resolved, dir, e))
    | inr leaf ↦ elim (Option-cases (release n1 o)) [
      | inl panic ↦ absurd (ground (arith, resolved, leaf, panic, e))
      | inr (n2, released) ↦ ground (arith, resolved, leaf, released, e)
    ]
  ]
]

-- The end of `ons_bind`, with what `bind` gave.
abbrev pub bound_after : Names → ℕ → Error × KContainer → Option (ℕ × Names)
bound_after n1 parent (res, k) = elim (release (with_container n1 parent k) parent) [
  | none ↦ none
  | some n'' ↦ some (elim res [ ok ↦ ons_ok | _ ↦ ons_err_collision ], n'')
]

bound_after-ok :
    (n1 n' : Names) (parent : ℕ) (res : Error) (k : KContainer)
    → bound_after n1 parent (res, k) ≡ some (ons_ok, n')
    → (res ≡ ok) × (s : Objects) × (n' ≡ counted (with_container n1 parent k) s)
bound_after-ok n1 n' parent res k e =
    elim (Option-cases (release (with_container n1 parent k) parent)) [
      | inl panic ↦ absurd (ground (arith, panic, e))
      | inr (n2, released) ↦
          let (s, same) = release-some (with_container n1 parent k) n2 parent released in
          let (good, last) : (res ≡ ok) × (n' ≡ n2) = ground (arith, released, e) in
          (good, s, last ∙ same)
    ]

pub ons_bind-IsDone :
    (allocated : Bool) (n n' : Names) (path : List ℕ) (obj : ℕ)
    → IsHeld n
    → ons_bind allocated n path obj ≡ some (ons_ok, n')
    → IsDone n n' (convert_nt_path path) obj
unfolding ons_bind
ons_bind-IsDone allocated n n' path obj held e =
    elim (Option-cases (place_of (convert_nt_path path))) [
      | inl bad ↦ absurd (ground (arith, bad, e))
      | inr ((before, name), place) ↦ elim (Option-cases (parent_of n before)) [
        | inl panic ↦ absurd (ground (arith, place, panic, e))
        | inr (((none, err), n1), parents) ↦
            absurd (ground (arith, place, parents, e, parent_of-none n n1 before err parents))
        | inr (((some parent, err), n1), parents) ↦
            let (s, state, at, dir) = parent_of-some n n1 before parent err held parents in
            let r = bind allocated (container n1 parent) (some name) (some obj) in
            let rest : bound_after n1 parent r ≡ some (ons_ok, n') =
              ground (arith, place, parents, e) in
            let (good, s', last) = bound_after-ok n1 n' parent r.0 r.1 rest in
            let (fits, absent, bindings) =
              bind-done allocated (container n1 parent) r.1 name obj (ap (λ x. (x, r.1)) good) in
            let base : n1.bindings ≡ n.bindings = ap (λ (z : Names). z.bindings) state in
            record {
              before = before;
              name = name;
              parent = parent;
              place = place;
              at = at;
              dir = dir;
              fits = fits;
              absent = subst (λ b. find (b parent) name ≡ none) base absent;
              bindings =
                  ap (λ (z : Names). z.bindings) last
                  ∙ ap (λ z. update n1.bindings parent z) bindings
                  ∙ ap (λ b. update b parent (entry name obj ∷ b parent)) base;
              same_root = ap (λ (z : Names). z.root) last ∙ ap (λ (z : Names). z.root) state;
              same_dirs =
                  ap (λ (z : Names). z.is_container) last
                  ∙ ap (λ (z : Names). z.is_container) state;
            }
      ]
    ]
