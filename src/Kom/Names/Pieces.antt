-- ===== src/Kom/Names/Pieces.antt =====
-- ons.cpp: a path taken apart at its last slash.
use singularity.Common.{
  ℕ, ◌≡◌, refl, Bool, true, false, none, some, arith, ◌==◌, All, List, [], ◌∷◌, ◌++◌, ap, sym,
  subst, ◌∙◌, Bool-cases, Option-cases, inl, inr,
}
use singularity.Kom.Container.{OnsBinding, find}
use singularity.Kom.Names.{slash, pieces, split_last}
use singularity.Kom.Names.Walk.{follow}

abbrev pub NoSlash : List ℕ → Type 0
NoSlash = All (λ c. (c == slash) ≡ false)

split_last-none : (p : List ℕ) → split_last p ≡ none → NoSlash p
unfolding split_last
split_last-none [] e = tt
split_last-none (c ∷ cs) e = elim (Option-cases (split_last cs)) [
  | inl e' ↦ (ground (arith, e', e), split_last-none cs e')
  | inr ((b, m), e') ↦ absurd (ground (arith, e', e))
]

pub split_last-some :
    (p b m : List ℕ) → split_last p ≡ some (b, m) → (p ≡ b ++ slash ∷ m) × NoSlash m
unfolding split_last
split_last-some [] b m e = absurd (ground (arith, e))
split_last-some (c ∷ cs) b m e = elim (Option-cases (split_last cs)) [
  | inl e' ↦
      let (eb, em, ec) : (b ≡ []) × (m ≡ cs) × (c ≡ slash) = ground (arith, e', e) in
      (ground (arith, eb, em, ec), subst NoSlash (sym em) (split_last-none cs e'))
  | inr ((b', m'), e') ↦
      let (eb, em) : (b ≡ c ∷ b') × (m ≡ m') = ground (arith, e', e) in
      let (whole, no_slash) = split_last-some cs b' m' e' in
      (
        ap (◌∷◌ c) whole
            ∙ ap (λ z. c ∷ b' ++ slash ∷ z) (sym em)
            ∙ ap (λ y. y ++ slash ∷ m) (sym eb),
        subst NoSlash (sym em) no_slash,
      )
]

pub pieces-NoSlash : (c : ℕ) (m : List ℕ) → NoSlash (c ∷ m) → pieces (c ∷ m) ≡ (c ∷ m) ∷ []
unfolding pieces
pieces-NoSlash c [] (h, t) = ground (arith, h)
pieces-NoSlash c (d ∷ m) (h, t) = ground (arith, h, pieces-NoSlash d m t)

pieces-cons : (b : List ℕ) → (q : List ℕ) × (qs : List (List ℕ)) × (pieces b ≡ q ∷ qs)
unfolding pieces
pieces-cons [] = ([], [], refl)
pieces-cons (c ∷ cs) =
    let (q, qs, e) = pieces-cons cs in
    elim (Bool-cases (c == slash)) [
      | inl here ↦ ([], pieces cs, ground (arith, here))
      | inr past ↦ (c ∷ q, qs, ground (arith, past, e))
    ]

pub pieces-append : (b m : List ℕ) → pieces (b ++ slash ∷ m) ≡ pieces b ++ pieces m
unfolding pieces
pieces-append [] m = refl
pieces-append (c ∷ b) m =
    let (q, qs, e) = pieces-cons b in
    let ih : pieces (b ++ slash ∷ m) ≡ (q ∷ qs) ++ pieces m =
      pieces-append b m ∙ ap (λ z. z ++ pieces m) e in
    elim (Bool-cases (c == slash)) [
      | inl here ↦ rw (here, ih, e) refl
      | inr past ↦ rw (past, ih, e) refl
    ]

module _ (is_dir : ℕ → Bool) where
  pub follow-one :
      (bs : ℕ → List OnsBinding) (c t x : ℕ) (xs : List ℕ)
      → find (bs c) (x ∷ xs) ≡ some t
      → follow is_dir bs ((x ∷ xs) ∷ []) c ≡ some t
  unfolding follow
  follow-one bs c t x xs last = ground (arith, last)

  pub follow-append :
      (bs : ℕ → List OnsBinding) (ps : List (List ℕ)) (c o t x : ℕ) (xs : List ℕ)
      → follow is_dir bs ps c ≡ some o
      → is_dir o ≡ true
      → find (bs o) (x ∷ xs) ≡ some t
      → follow is_dir bs (ps ++ (x ∷ xs) ∷ []) c ≡ some t
  unfolding follow
  follow-append bs [] c o t x xs e dir last = ground (arith, e, last)
  follow-append bs ([] ∷ ps) c o t x xs e dir last = follow-append bs ps c o t x xs e dir last
  follow-append bs ((y ∷ ys) ∷ []) c o t x xs e dir last =
      elim (Option-cases (find (bs c) (y ∷ ys))) [
        | inl miss ↦ absurd (ground (arith, miss, e))
        | inr (u, hit) ↦ ground (arith, hit, e, dir, last)
      ]
  follow-append bs ((y ∷ ys) ∷ p ∷ ps) c o t x xs e dir last =
      elim (Option-cases (find (bs c) (y ∷ ys))) [
        | inl miss ↦ absurd (ground (arith, miss, e))
        | inr (u, hit) ↦ ground (arith, hit, e, follow-append bs (p ∷ ps) u o t x xs)
      ]

  -- More bindings lead to the same objects.
  pub follow-more :
      (bs bs' : ℕ → List OnsBinding) (ps : List (List ℕ)) (c o : ℕ)
      → ((d : ℕ) (name : List ℕ) (u : ℕ) → find (bs d) name ≡ some u → find (bs' d) name ≡ some u)
      → follow is_dir bs ps c ≡ some o
      → follow is_dir bs' ps c ≡ some o
  unfolding follow
  follow-more bs bs' [] c o more e = e
  follow-more bs bs' ([] ∷ ps) c o more e = follow-more bs bs' ps c o more e
  follow-more bs bs' ((y ∷ ys) ∷ []) c o more e = elim (Option-cases (find (bs c) (y ∷ ys))) [
    | inl miss ↦ absurd (ground (arith, miss, e))
    | inr (u, hit) ↦ ground (arith, hit, e, more c (y ∷ ys) u)
  ]
  follow-more bs bs' ((y ∷ ys) ∷ p ∷ ps) c o more e = elim (Option-cases (find (bs c) (y ∷ ys))) [
    | inl miss ↦ absurd (ground (arith, miss, e))
    | inr (u, hit) ↦
        ground (arith, hit, e, more c (y ∷ ys) u hit, follow-more bs bs' (p ∷ ps) u o more)
  ]
