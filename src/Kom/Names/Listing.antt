-- ===== src/Kom/Names/Listing.antt =====
-- ons.cpp: `ons_init`, `ons_enumerate` and `ons_resolve_parent`.
use singularity.Common.{
  ℕ, ◌<◌, ◌≡◌, refl, Bool, Option, none, some, arith, ◌==◌, if◌then◌else◌, List, [], ◌∷◌, take,
  Option-cases, Bool-cases, inl, inr, subst, ap, ◌∙◌,
}
use singularity.Kom.Object.{Objects, kobject_unref}
use singularity.Kom.Container.{find, bind, enumerate, with_new}
use singularity.Kom.Names.{
  Names, pieces, container, with_container, slash, convert_nt_path, release, ons_resolve,
  split_last,
}
use singularity.Kom.Names.Walk.{
  IsHeld, OneMore, found_at, follow, ons_resolve-follow, counted, unref-OneMore,
}

-- The binds of `ons_init`, whose results are not looked at: a name and the address of a new container.
unfoldable pub bind_new : Bool → Names → List (List ℕ × ℕ) → Names
bind_new allocated n [] = n
bind_new allocated n ((name, c) ∷ rest) =
    let (_, k) = bind allocated (container n n.root) (some name) (some c) in
    bind_new allocated (with_container n n.root k) rest

unfoldable pub release_all : Names → List (List ℕ × ℕ) → Option Names
release_all n [] = some n
release_all n ((_, c) ∷ rest) = elim (release n c) [ none ↦ none | some n' ↦ release_all n' rest ]

unfoldable pub new_all : Objects → List (List ℕ × ℕ) → Objects
new_all s [] = s
new_all s ((_, c) ∷ rest) = new_all (with_new s c) rest

-- `devices`, `volumes`, `system`, `ramdisk` and `ipc`, at the addresses that `new` gives.
unfoldable pub ons_dirs : ℕ → ℕ → ℕ → ℕ → ℕ → List (List ℕ × ℕ)
ons_dirs devices volumes system ramdisk ipc =
    (100 ∷ 101 ∷ 118 ∷ 105 ∷ 99 ∷ 101 ∷ 115 ∷ [], devices)
    ∷ (118 ∷ 111 ∷ 108 ∷ 117 ∷ 109 ∷ 101 ∷ 115 ∷ [], volumes)
    ∷ (115 ∷ 121 ∷ 115 ∷ 116 ∷ 101 ∷ 109 ∷ [], system)
    ∷ (114 ∷ 97 ∷ 109 ∷ 100 ∷ 105 ∷ 115 ∷ 107 ∷ [], ramdisk)
    ∷ (105 ∷ 112 ∷ 99 ∷ [], ipc)
    ∷ []

-- `dirs` are those of `ons_dirs`. A new container has no bindings.
unfoldable pub ons_init : Bool → Objects → (ℕ → Bool) → ℕ → List (List ℕ × ℕ) → Option Names
ons_init allocated s is_container root dirs =
    let start : Names = record {
      root = root;
      is_container = is_container;
      bindings = λ _. [];
      objects = new_all (with_new s root) dirs;
    } in
    release_all (bind_new allocated start dirs) dirs

-- The end of `ons_enumerate`, with what `ons_resolve` gave.
unfoldable pub enumerate_at : ℕ → Option (Option ℕ × Names) → Option (Option (List ℕ × ℕ) × Names)
enumerate_at index none = none
enumerate_at index (some (none, n)) = some (none, n)
enumerate_at index (some (some target, n)) =
    let entry = if n.is_container target then enumerate (container n target) index else none in
    elim (release n target) [ none ↦ none | some n' ↦ some (entry, n') ]

-- The name and the object whose type is reported; `none` for `false`. The outer `none` is a panic.
unfoldable pub ons_enumerate : Names → List ℕ → ℕ → Option (Option (List ℕ × ℕ) × Names)
ons_enumerate n path index = enumerate_at index (ons_resolve n (some path))

-- The slashes at the end, but for a first character.
unfoldable pub strip_tail : List ℕ → List ℕ
strip_tail [] = []
strip_tail (c ∷ cs) = elim (strip_tail cs) [
  | [] ↦ if c == slash then [] else c ∷ []
  | d ∷ ds ↦ c ∷ d ∷ ds
]

unfoldable pub strip : List ℕ → List ℕ
strip [] = []
strip (c ∷ cs) = c ∷ strip_tail cs

-- The name and the path of the parent, from where the last slash is.
abbrev pub name_and_parent : List ℕ → Option (List ℕ × List ℕ) → List ℕ × List ℕ
name_and_parent path (some ([], name)) = (take 127 name, slash ∷ [])
name_and_parent path (some (c ∷ cs, name)) = (take 127 name, c ∷ cs)
name_and_parent path none = (take 127 path, slash ∷ [])

-- The parent and the name in it.
unfoldable pub ons_resolve_parent : Names → List ℕ → Option (Option ℕ × List ℕ × Names)
ons_resolve_parent n path =
    let (name, parent) = name_and_parent path (split_last (strip (convert_nt_path path))) in
    elim (ons_resolve n (some parent)) [ none ↦ none | some (found, n') ↦ some (found, name, n') ]

-- What `ons_enumerate` reports, by the bindings alone.
abbrev pub listed : Names → Option ℕ → ℕ → Option (List ℕ × ℕ)
listed n none index = none
listed n (some c) index = if n.is_container c then enumerate (container n c) index else none

-- What is found at a path holds a reference.
follow-held :
    (ps : List (List ℕ)) (n : Names) (c o : ℕ)
    → IsHeld n
    → 0 < n.objects.ref_count c
    → follow n.is_container n.bindings ps c ≡ some o
    → 0 < n.objects.ref_count o
unfolding follow
follow-held [] n c o held pos e = ground (arith, e)
follow-held ([] ∷ ps) n c o held pos e = follow-held ps n c o held pos e
follow-held ((x ∷ xs) ∷ []) n c o held pos e = elim (Option-cases (find (n.bindings c) (x ∷ xs))) [
  | inl miss ↦ absurd (ground (arith, miss, e))
  | inr (u, hit) ↦ ground (arith, hit, e, held.bound c u (x ∷ xs) hit)
]
follow-held ((x ∷ xs) ∷ p ∷ ps) n c o held pos e =
    elim (Option-cases (find (n.bindings c) (x ∷ xs))) [
      | inl miss ↦ absurd (ground (arith, miss, e))
      | inr (u, hit) ↦
          ground (arith, hit, e, follow-held (p ∷ ps) n u o held (held.bound c u (x ∷ xs) hit))
    ]

found_at-held :
    (n : Names) (buf : List ℕ) (o : ℕ)
    → IsHeld n
    → found_at n buf ≡ some o
    → 0 < n.objects.ref_count o
unfolding found_at
found_at-held n [] o held e = absurd (ground (arith, e))
found_at-held n (c ∷ rest) o held e = elim (Bool-cases (c == slash)) [
  | inl here ↦ ground (arith, here, e, follow-held (pieces rest) n n.root o held held.rooted)
  | inr past ↦ absurd (ground (arith, past, e))
]

enumerate_at-some :
    (n : Names) (s s' : Objects) (o index : ℕ)
    → kobject_unref s o ≡ some s'
    → enumerate_at index (some (some o, counted n s)) ≡ some (listed n (some o) index, counted n s')
unfolding enumerate_at release enumerate
enumerate_at-some n s s' o index unref = rw (unref, enumerate_at, release) refl

-- In a state where the root and all that is bound hold references, `ons_enumerate` reports the entry of the
-- container at the path, and every reference taken on the way is given back.
pub ons_enumerate-listed :
    (n : Names) (path : List ℕ) (index : ℕ)
    → IsHeld n
    → (s : Objects) × (ons_enumerate n path index
        ≡ some (listed n (found_at n (convert_nt_path path)) index, counted n s))
      × OneMore n.objects s none
unfolding ons_enumerate enumerate_at
ons_enumerate-listed n path index held =
    let (s, resolved, more) = ons_resolve-follow n path held in
    elim (Option-cases (found_at n (convert_nt_path path))) [
      | inl nothing ↦
          let run = resolved ∙ ap (λ z. some (z, counted n s)) nothing in
          rw nothing (s, ap (enumerate_at index) run, subst (OneMore n.objects s) nothing more)
      | inr (o, at) ↦
          let run = resolved ∙ ap (λ z. some (z, counted n s)) at in
          let (s', unref, less) =
            unref-OneMore n.objects s o (subst (OneMore n.objects s) at more) held.bounded
              (found_at-held n (convert_nt_path path) o held at) in
          rw at (s', ap (enumerate_at index) run ∙ enumerate_at-some n s s' o index unref, less)
    ]
