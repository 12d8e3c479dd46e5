-- ===== src/Kom/Names/Found.antt =====
-- ons.cpp: what `ons_bind` binds is what `ons_resolve` finds.
use singularity.Common.{
  ℕ, ◌<◌, ◌≡◌, refl, Bool, true, none, some, arith, ◌==◌, List, [], ◌∷◌, ◌++◌, length,
  length-append, take, ap, sym, subst, ◌∙◌, Bool-cases, Option-cases, inl, inr, ==_self,
}
use singularity.Kom.Container.{find, same_name}
use singularity.Kom.Container.Map.{same_name_self, same_name_iff}
use singularity.Kom.Names.{
  Names, slash, convert_nt_path, pieces, ons_bind, place_of, split_last, ons_ok, ons_resolve,
}
use singularity.Kom.Names.Path.{
  NoBackslash, NoDouble, NoDrive, IsPath, convert_nt_path-IsPath, convert_nt_path-same, take-short,
}
use singularity.Kom.Names.Walk.{IsHeld, Followed, follow, found_at, ons_resolve-follow}
use singularity.Kom.Names.Pieces.{
  NoSlash, split_last-some, pieces-NoSlash, pieces-append, follow-one, follow-append, follow-more,
}
use singularity.Kom.Names.Binding.{bound_in, parent_at, IsDone, ons_bind-IsDone}

place_of-some :
    (buf before name : List ℕ)
    → place_of buf ≡ some (before, name)
    → (x : ℕ) × (xs : List ℕ) × (name ≡ x ∷ xs) × (split_last buf ≡ some (before, x ∷ xs))
unfolding place_of
place_of-some [] before name e = absurd (ground (arith, e))
place_of-some (c ∷ cs) before name e = elim (Bool-cases (c == slash)) [
  | inr past ↦ absurd (ground (arith, past, e))
  | inl here ↦ elim (Option-cases (split_last (c ∷ cs))) [
    | inl all_name ↦ absurd (ground (arith, here, all_name, e))
    | inr ((b, []), last) ↦ absurd (ground (arith, here, last, e))
    | inr ((b, x ∷ xs), last) ↦
        let (same_before, same_name') : (b ≡ before) × (name ≡ x ∷ xs) =
          ground (arith, here, last, e) in
        (x, xs, same_name', last ∙ ap (λ z. some (z, x ∷ xs)) same_before)
  ]
]

place_of-rooted :
    (c : ℕ) (cs before name : List ℕ)
    → place_of (c ∷ cs) ≡ some (before, name)
    → (c == slash) ≡ true
unfolding place_of
place_of-rooted c cs before name e = elim (Bool-cases (c == slash)) [
  | inl here ↦ here
  | inr past ↦ absurd (ground (arith, past, e))
]

-- The part before a slash is a path too.
before-IsPath :
    (c : ℕ) (bs m : List ℕ) → (c == slash) ≡ true → IsPath (c ∷ bs ++ slash ∷ m) → IsPath (c ∷ bs)
before-IsPath c bs m here good = record {
  plain = plain (c ∷ bs) good.plain;
  single = single (c ∷ bs) good.single;
  rooted = rooted bs;
  short = omega (arith, good.short, length-append bs (slash ∷ m));
  some_char = omega arith;
}
  where
    plain : (xs : List ℕ) → NoBackslash (xs ++ slash ∷ m) → NoBackslash xs
    plain [] h = tt
    plain (x ∷ xs) (hx, h) = (hx, plain xs h)

    single : (xs : List ℕ) → NoDouble (xs ++ slash ∷ m) → NoDouble xs
    single [] h = tt
    single (x ∷ []) h = tt
    single (x ∷ y ∷ xs) (hx, h) = (hx, single (y ∷ xs) h)

    rooted : (xs : List ℕ) → NoDrive (c ∷ xs)
    rooted [] = tt
    rooted (x ∷ xs) = ground (arith, here)

module _ (n : Names) (parent obj : ℕ) (name : List ℕ) where
  new-found : length name < 64 → find (bound_in n parent name obj parent) name ≡ some obj
  unfolding find
  new-found fits =
      let whole = take-short 63 name (omega (arith, fits)) in
      ground (arith, ==_self parent, ap (λ z. same_name z name) whole, same_name_self name)

  old-found :
      length name < 64
      → find (n.bindings parent) name ≡ none
      → (d : ℕ) (other : List ℕ) (u : ℕ) → find (n.bindings d) other ≡ some u
      → find (bound_in n parent name obj d) other ≡ some u
  unfolding find
  old-found fits absent d other u e = elim (Bool-cases (parent == d)) [
    | inr past ↦ ground (arith, past, e)
    | inl here ↦
        let at : parent ≡ d = ground (arith, here) in
        let there : find (n.bindings parent) other ≡ some u =
          ap (λ z. find (n.bindings z) other) at ∙ e in
        elim (Bool-cases (same_name (take 63 name) other)) [
          | inr apart ↦ rw (here, apart) there
          | inl same ↦
              let whole = take-short 63 name (omega (arith, fits)) in
              let this : name ≡ other = sym whole ∙ same_name_iff (take 63 name) other same in
              absurd (ground (arith, there, sym (ap (find (n.bindings parent)) this) ∙ absent))
        ]
  ]

found_at-rooted :
    (n : Names) (c : ℕ) (rest : List ℕ)
    → (c == slash) ≡ true
    → found_at n (c ∷ rest) ≡ follow n.is_container n.bindings (pieces rest) n.root
unfolding found_at
found_at-rooted n c rest here = rw here refl

module _ (n n' : Names) (obj : ℕ) where
  -- The lookup in the new name space, by what is the old's.
  found_after :
      (buf : List ℕ) (d : IsDone n n' buf obj) (c : ℕ) (rest : List ℕ)
      → (c == slash) ≡ true
      → found_at n' (c ∷ rest)
        ≡ follow n.is_container (bound_in n d.parent d.name obj) (pieces rest) n.root
  found_after buf d c rest here =
      found_at-rooted n' c rest here
      ∙ ap (λ z. follow z n'.bindings (pieces rest) n'.root) d.same_dirs
      ∙ ap (λ z. follow n.is_container z (pieces rest) n'.root) d.bindings
      ∙ ap (follow n.is_container (bound_in n d.parent d.name obj) (pieces rest)) d.same_root

  -- A name in the root.
  in_root :
      (buf : List ℕ) (d : IsDone n n' buf obj) (x : ℕ) (xs : List ℕ)
      → d.before ≡ []
      → d.name ≡ x ∷ xs
      → buf ≡ slash ∷ x ∷ xs
      → NoSlash (x ∷ xs)
      → found_at n' buf ≡ some obj
  in_root buf d x xs at_root named whole no_slash =
      let at : some n.root ≡ some d.parent = ap (parent_at n) (sym at_root) ∙ d.at in
      let here : n.root ≡ d.parent = ground (arith, at) in
      let bs' = bound_in n d.parent d.name obj in
      let named_found : find (bs' d.parent) (x ∷ xs) ≡ some obj =
        ap (find (bs' d.parent)) (sym named) ∙ new-found n d.parent obj d.name d.fits in
      let found : find (bs' n.root) (x ∷ xs) ≡ some obj =
        ap (λ z. find (bs' z) (x ∷ xs)) here ∙ named_found in
      ap (found_at n') whole
      ∙ found_after buf d slash (x ∷ xs) refl
      ∙ ap (λ z. follow n.is_container bs' z n.root) (pieces-NoSlash x xs no_slash)
      ∙ follow-one n.is_container bs' n.root obj x xs found

  -- A name in a container below the root.
  below_root :
      (buf : List ℕ) (d : IsDone n n' buf obj) (b : ℕ) (bs : List ℕ) (x : ℕ) (xs : List ℕ)
      → IsPath (b ∷ bs)
      → (b == slash) ≡ true
      → d.before ≡ b ∷ bs
      → d.name ≡ x ∷ xs
      → buf ≡ (b ∷ bs) ++ slash ∷ x ∷ xs
      → NoSlash (x ∷ xs)
      → found_at n' buf ≡ some obj
  below_root buf d b bs x xs good here below named whole no_slash =
      let bs' = bound_in n d.parent d.name obj in
      let led : follow n.is_container n.bindings (pieces bs) n.root ≡ some d.parent =
        sym (found_at-rooted n b bs here)
        ∙ ap (found_at n) (sym (convert_nt_path-same (b ∷ bs) good))
        ∙ ap (parent_at n) (sym below)
        ∙ d.at in
      let still =
        follow-more n.is_container n.bindings bs' (pieces bs) n.root d.parent
          (old-found n d.parent obj d.name d.fits d.absent) led in
      let dir : n.is_container d.parent ≡ true = elim d.dir [
        | inl empty ↦ absurd (ground (arith, empty, below))
        | inr dir' ↦ dir'
      ] in
      let found : find (bs' d.parent) (x ∷ xs) ≡ some obj =
        ap (find (bs' d.parent)) (sym named) ∙ new-found n d.parent obj d.name d.fits in
      ap (found_at n') whole
      ∙ found_after buf d b (bs ++ slash ∷ x ∷ xs) here
      ∙ ap (λ z. follow n.is_container bs' z n.root)
          (pieces-append bs (x ∷ xs) ∙ ap (λ z. pieces bs ++ z) (pieces-NoSlash x xs no_slash))
      ∙ follow-append n.is_container bs' (pieces bs) n.root d.parent obj x xs still dir found

  found :
      (buf before : List ℕ) (d : IsDone n n' buf obj)
      → IsPath buf
      → d.before ≡ before
      → found_at n' buf ≡ some obj
  found buf [] d good at_root =
      let (x, xs, named, last) = place_of-some buf d.before d.name d.place in
      let (whole, no_slash) = split_last-some buf d.before (x ∷ xs) last in
      in_root buf d x xs at_root named (whole ∙ ap (λ z. z ++ slash ∷ x ∷ xs) at_root) no_slash
  found buf (b ∷ bs) d good below =
      let (x, xs, named, last) = place_of-some buf d.before d.name d.place in
      let (whole, no_slash) = split_last-some buf d.before (x ∷ xs) last in
      let whole' = whole ∙ ap (λ z. z ++ slash ∷ x ∷ xs) below in
      let here =
        place_of-rooted b (bs ++ slash ∷ x ∷ xs) d.before d.name
          (ap place_of (sym whole') ∙ d.place) in
      below_root buf d b bs x xs (before-IsPath b bs (x ∷ xs) here (subst IsPath whole' good)) here
        below named whole' no_slash

-- In a state where the root and all that is bound hold references, and none is near the end of its
-- count, an `ons_bind` that returns `ONS_OK` binds the object at the path: when the state after it is
-- such a state too, `ons_resolve` of the same path gives that object, with one reference more and nothing
-- else changed.
pub ons_resolve-ons_bind :
    (allocated : Bool) (n n' : Names) (path : List ℕ) (obj : ℕ)
    → IsHeld n
    → ons_bind allocated n path obj ≡ some (ons_ok, n')
    → IsHeld n'
    → Followed n' (ons_resolve n' (some path)) (some obj)
ons_resolve-ons_bind allocated n n' path obj held e held' =
    let d = ons_bind-IsDone allocated n n' path obj held e in
    let (good, _) = convert_nt_path-IsPath path in
    let there = found n n' obj (convert_nt_path path) d.before d good refl in
    subst (Followed n' (ons_resolve n' (some path))) there (ons_resolve-follow n' path held')
