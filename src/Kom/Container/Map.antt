-- ===== src/Kom/Container/Map.antt =====
-- kcontainer.cpp: a container is a finite map from names to objects.
use singularity.Common.{
  ℕ, zero, suc, ◌≤◌, ◌<◌, ◌≡◌, refl, Bool, true, false, none, some, arith, if◌then◌else◌, List, [],
  ◌∷◌, length, take, Bool-cases, inl, inr, ap, sym, ◌∙◌, subst, ◌⊎◌, ◌≢◌, Option-cases,
}
use singularity.Kom.Error.{Error, ok, no_memory, collision, not_found}
use singularity.Kom.Object.{kobject_ref, kobject_unref}
use singularity.Kom.Container.{OnsBinding, KContainer, same_name, find, remove, bind, unbind}

pub same_name_iff : (a b : List ℕ) → same_name a b ≡ true → a ≡ b
unfolding same_name
same_name_iff [] [] e = refl
same_name_iff [] (c ∷ cs) e = absurd (ground arith)
same_name_iff (c ∷ cs) [] e = absurd (ground arith)
same_name_iff (c ∷ cs) (d ∷ ds) e = ground (arith, same_name_iff cs ds)

pub same_name_self : (a : List ℕ) → same_name a a ≡ true
unfolding same_name
same_name_self [] = refl
same_name_self (c ∷ cs) = ground (arith, same_name_self cs)

-- No two bindings have the same name, and every name fits its array.
abbrev pub IsMap : List OnsBinding → Type 0
IsMap [] = Unit
IsMap (b ∷ bs) = (find bs b.name ≡ none) × (length b.name < 64) × IsMap bs

take-all : (n : ℕ) (xs : List ℕ) → length xs ≤ n → take n xs ≡ xs
take-all zero [] h = refl
take-all zero (x ∷ xs) h = absurd (omega arith)
take-all (suc n) [] h = refl
take-all (suc n) (x ∷ xs) h = ap (◌∷◌ x) (take-all n xs (omega arith))

pub remove-find :
    (bs : List OnsBinding) (name other : List ℕ)
    → IsMap bs
    → find (remove bs name) other ≡ (if same_name name other then none else find bs other)
unfolding find remove
remove-find [] name other m = ground arith
remove-find (b ∷ bs) name other (fresh, fits, m) = elim (Bool-cases (same_name b.name name)) [
  | inl here ↦ elim (Bool-cases (same_name name other)) [
    | inl hit ↦
        let at : b.name ≡ other = same_name_iff b.name name here ∙ same_name_iff name other hit in
        rw (here, hit) (subst (λ n. find bs n ≡ none) at fresh)
    | inr miss ↦
        let miss' : same_name b.name other ≡ false =
          subst (λ n. same_name n other ≡ false) (sym (same_name_iff b.name name here)) miss in
        rw (here, miss, miss') refl
  ]
  | inr past ↦ elim (Bool-cases (same_name b.name other)) [
    | inl hit ↦
        let apart : same_name name other ≡ false = elim (Bool-cases (same_name name other)) [
          | inl both ↦
              let at : name ≡ b.name =
                same_name_iff name other both ∙ sym (same_name_iff b.name other hit) in
              let again : same_name b.name name ≡ true =
                subst (λ n. same_name b.name n ≡ true) (sym at) (same_name_self b.name) in
              absurd (ground arith)
          | inr e ↦ e
        ] in
        rw (past, hit, apart) (ground arith)
    | inr miss ↦ rw (past, miss) (remove-find bs name other m)
  ]
]

remove-IsMap : (bs : List OnsBinding) (name : List ℕ) → IsMap bs → IsMap (remove bs name)
unfolding remove
remove-IsMap [] name m = tt
remove-IsMap (b ∷ bs) name (fresh, fits, m) = elim (Bool-cases (same_name b.name name)) [
  | inl here ↦ rw here m
  | inr past ↦
      let still : find (remove bs name) b.name ≡ none =
        remove-find bs name b.name m ∙ rw fresh (ground arith) in
      rw past (still, fits, remove-IsMap bs name m)
]

-- The three results of `bind` of a name to an object.
pub bind_cases :
    (allocated : Bool) (k : KContainer) (name : List ℕ) (obj : ℕ)
    → let (error, k') = bind allocated k (some name) (some obj) in
      ((error ≡ no_memory) × (k' ≡ k) × ((64 ≤ length name) ⊎ (allocated ≡ false)))
      ⊎ ((error ≡ collision) × (k' ≡ k) × (find k.bindings name ≢ none))
      ⊎ ((error ≡ ok)
          × (length name < 64)
          × (find k.bindings name ≡ none)
          × (k'.bindings ≡ record { name = take 63 name; obj = obj } ∷ k.bindings)
          × (k'.objects ≡ kobject_ref k.objects obj))
unfolding bind
bind_cases allocated k name obj = elim (Option-cases (find k.bindings name)) [
  | inl e ↦ ground arith
  | inr (o, e) ↦ ground arith
]

-- A successful `bind` adds exactly one entry to the map, for a name that had none.
pub bind-find :
    (allocated : Bool) (k k' : KContainer) (name : List ℕ) (obj : ℕ)
    → IsMap k.bindings
    → bind allocated k (some name) (some obj) ≡ (ok, k')
    → IsMap k'.bindings
      × (find k.bindings name ≡ none)
      × ((other : List ℕ)
          → find k'.bindings other
            ≡ (if same_name name other then some obj else find k.bindings other))
unfolding find
bind-find allocated k k' name obj m e = elim (bind_cases allocated k name obj) [
  | inl (bad, _, _) ↦ absurd (ground arith)
  | inr (inl (bad, _, _)) ↦ absurd (ground arith)
  | inr (inr (_, fits, absent, bindings, _)) ↦
      let whole = take-all 63 name (omega arith) in
      let now : k'.bindings ≡ record { name = name; obj = obj } ∷ k.bindings =
        sym (ap (λ (r : Error × KContainer). r.1.bindings) e)
        ∙ bindings
        ∙ ap (λ n. record { name = n; obj = obj } ∷ k.bindings) whole in
      rw now ((absent, fits, m), absent, λ other. refl)
]

pub unbind_cases :
    (k k' : KContainer) (name : List ℕ) (error : Error)
    → unbind k (some name) ≡ some (error, k')
    → ((error ≡ not_found) × (k' ≡ k) × (find k.bindings name ≡ none))
      ⊎ ((obj : ℕ) × (error ≡ ok)
          × (find k.bindings name ≡ some obj)
          × (k'.bindings ≡ remove k.bindings name)
          × (kobject_unref k.objects obj ≡ some k'.objects))
unfolding unbind
unbind_cases k k' name error e = elim (Option-cases (find k.bindings name)) [
  | inl absent ↦ ground arith
  | inr (obj, bound) ↦ elim (Option-cases (kobject_unref k.objects obj)) [
    | inl panic ↦ absurd (ground arith)
    | inr (objects, done) ↦ ground arith
  ]
]

-- A successful `unbind` takes exactly the entry of its name out of the map.
pub unbind-find :
    (k k' : KContainer) (name : List ℕ)
    → IsMap k.bindings
    → unbind k (some name) ≡ some (ok, k')
    → IsMap k'.bindings
      × (find k.bindings name ≢ none)
      × ((other : List ℕ)
          → find k'.bindings other ≡ (if same_name name other then none else find k.bindings other))
unbind-find k k' name m e = elim (unbind_cases k k' name ok e) [
  | inl (bad, _, _) ↦ absurd (ground arith)
  | inr (obj, _, bound, bindings, _) ↦ rw bindings (
    remove-IsMap k.bindings name m,
    λ absent. absurd (ground arith),
    λ other. remove-find k.bindings name other m,
  )
]
