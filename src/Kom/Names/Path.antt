-- ===== src/Kom/Names/Path.antt =====
-- ons.cpp: the form of the paths that `convert_nt_path` gives.
use singularity.Common.{
  ℕ, zero, suc, ◌-◌, ◌≤◌, ◌≡◌, refl, true, false, ◌&&◌, arith, ◌==◌, if◌then◌else◌, All, List, [],
  ◌∷◌, map, length, take, length-append, length-take, ap, sym, subst, ◌∙◌, Bool-cases, if_elim, inl,
  inr,
}
use singularity.Kom.Names.{
  slash, backslash, colon, is_letter, is_lower, to_slash, without_drive, squeeze, or_root,
  after_drive, append_255, volume, convert_nt_path,
}

-- No backslash, no slash before a slash and no drive.
abbrev pub NoBackslash : List ℕ → Type 0
NoBackslash = All (λ c. (c == backslash) ≡ false)

abbrev pub NoDouble : List ℕ → Type 0
NoDouble [] = Unit
NoDouble (c ∷ []) = Unit
NoDouble (c ∷ d ∷ rest) = ((c == slash && d == slash) ≡ false) × NoDouble (d ∷ rest)

abbrev pub NoDrive : List ℕ → Type 0
NoDrive [] = Unit
NoDrive (c ∷ []) = Unit
NoDrive (c ∷ d ∷ rest) = (is_letter c && d == colon) ≡ false

pub record IsPath (p : List ℕ) : Type 0 where
  pub plain : NoBackslash p
  pub single : NoDouble p
  pub rooted : NoDrive p
  pub short : length p ≤ 255
  pub some_char : 1 ≤ length p

pub take-short : (n : ℕ) (xs : List ℕ) → length xs ≤ n → take n xs ≡ xs
take-short zero [] h = refl
take-short zero (x ∷ xs) h = absurd (omega arith)
take-short (suc n) [] h = refl
take-short (suc n) (x ∷ xs) h = ap (◌∷◌ x) (take-short n xs (omega arith))

-- The first character stays, and no character is added.
squeeze-head :
    (rest : List ℕ) (c : ℕ)
    → (others : List ℕ) × (squeeze (c ∷ rest) ≡ c ∷ others) × (length others ≤ length rest)
unfolding squeeze
squeeze-head [] c = ([], refl, omega arith)
squeeze-head (d ∷ rest) c =
    let (others, e, few) = squeeze-head rest d in
    elim (Bool-cases (c == slash && d == slash)) [
      | inl both ↦ (others, ground (arith, both, e), omega (arith, few))
      | inr kept ↦ (squeeze (d ∷ rest), ground (arith, kept), ground (arith, e, few))
    ]

squeeze-NoDouble : (p : List ℕ) → NoDouble (squeeze p)
unfolding squeeze
squeeze-NoDouble [] = tt
squeeze-NoDouble (c ∷ []) = tt
squeeze-NoDouble (c ∷ d ∷ rest) =
    let (others, e, few) = squeeze-head rest d in
    elim (Bool-cases (c == slash && d == slash)) [
      | inl both ↦ rw both (squeeze-NoDouble (d ∷ rest))
      | inr kept ↦
          let tail : NoDouble (d ∷ others) = subst NoDouble e (squeeze-NoDouble (d ∷ rest)) in
          rw (kept, e) (kept, tail)
    ]

squeeze-NoBackslash : (p : List ℕ) → NoBackslash p → NoBackslash (squeeze p)
unfolding squeeze
squeeze-NoBackslash [] h = tt
squeeze-NoBackslash (c ∷ []) h = h
squeeze-NoBackslash (c ∷ d ∷ rest) (hc, h) = elim (Bool-cases (c == slash && d == slash)) [
  | inl both ↦ rw both (squeeze-NoBackslash (d ∷ rest) h)
  | inr kept ↦ rw kept (hc, squeeze-NoBackslash (d ∷ rest) h)
]

slash-NoDrive : (d : ℕ) (rest : List ℕ) → (d == slash) ≡ true → NoDrive (d ∷ rest)
slash-NoDrive d [] h = tt
slash-NoDrive d (x ∷ rest) h = ground arith

squeeze-NoDrive : (p : List ℕ) → NoDrive p → NoDrive (squeeze p)
unfolding squeeze
squeeze-NoDrive [] h = tt
squeeze-NoDrive (c ∷ []) h = tt
squeeze-NoDrive (c ∷ d ∷ rest) h =
    let (others, e, few) = squeeze-head rest d in
    elim (Bool-cases (c == slash && d == slash)) [
      | inl both ↦ rw both (subst NoDrive (sym e) (slash-NoDrive d others (ground (arith, both))))
      | inr kept ↦ rw (kept, e) h
    ]

squeeze-single : (p : List ℕ) → NoDouble p → squeeze p ≡ p
unfolding squeeze
squeeze-single [] h = refl
squeeze-single (c ∷ []) h = refl
squeeze-single (c ∷ d ∷ rest) (hc, h) = ground (arith, hc, squeeze-single (d ∷ rest) h)

map-plain : (p : List ℕ) → NoBackslash p → map to_slash p ≡ p
map-plain [] h = refl
map-plain (c ∷ cs) (hc, h) = ground (arith, hc, map-plain cs h)

map-NoBackslash : (p : List ℕ) → NoBackslash (map to_slash p)
map-NoBackslash [] = tt
map-NoBackslash (c ∷ cs) = (ground arith, map-NoBackslash cs)

map-NoDrive : (p : List ℕ) → NoDrive p → NoDrive (map to_slash p)
map-NoDrive [] h = tt
map-NoDrive (c ∷ []) h = tt
map-NoDrive (c ∷ d ∷ rest) h = ground arith

length-map : (p : List ℕ) → length (map to_slash p) ≡ length p
length-map [] = refl
length-map (c ∷ cs) = ap suc (length-map cs)

length-without_drive : (p : List ℕ) → length (without_drive p) ≤ 255
unfolding without_drive
length-without_drive [] = omega arith
length-without_drive (c ∷ []) = omega arith
length-without_drive (c ∷ d ∷ rest) =
    let drive = if is_lower c then c - 32 else c in
    let out = if drive == 67 then slash ∷ [] else volume drive in
    let cut : length (take 255 (c ∷ d ∷ rest)) ≤ 255 =
      omega (arith, length-take 255 (c ∷ d ∷ rest)) in
    if_elim (λ (xs : List ℕ). length xs ≤ 255) (is_letter c && d == colon)
      (joined out (short drive)) cut
  where
    short : (drive : ℕ) → length (if drive == 67 then slash ∷ [] else volume drive) ≤ 255
    short drive = ground arith

    joined : (out : List ℕ) → length out ≤ 255 → length (append_255 out (after_drive rest)) ≤ 255
    joined out h = omega (
      arith,
      length-append out (take (255 - length out) (after_drive rest)),
      length-take (255 - length out) (after_drive rest),
    )

without_drive-NoDrive : (p : List ℕ) → NoDrive (without_drive p)
unfolding without_drive
without_drive-NoDrive [] = tt
without_drive-NoDrive (c ∷ []) = tt
without_drive-NoDrive (c ∷ d ∷ rest) =
    let drive = if is_lower c then c - 32 else c in
    elim (Bool-cases (is_letter c && d == colon)) [
      | inl drives ↦ rw drives (
          if_elim (λ out. NoDrive (append_255 out (after_drive rest))) (drive == 67)
            (slash-NoDrive slash (take 254 (after_drive rest)) refl) refl)
      | inr none_left ↦ rw none_left none_left
    ]

without_drive-same : (p : List ℕ) → NoDrive p → length p ≤ 255 → without_drive p ≡ p
unfolding without_drive
without_drive-same [] h short = refl
without_drive-same (c ∷ []) h short = refl
without_drive-same (c ∷ d ∷ rest) h short = rw h (take-short 255 (c ∷ d ∷ rest) short)

length-squeeze : (p : List ℕ) → length (squeeze p) ≤ length p
unfolding squeeze
length-squeeze [] = omega arith
length-squeeze (c ∷ rest) =
    let (others, e, few) = squeeze-head rest c in omega (arith, ap length e, few)

-- A path in this form is left as it is.
pub convert_nt_path-same : (p : List ℕ) → IsPath p → convert_nt_path p ≡ p
unfolding convert_nt_path
convert_nt_path-same p good =
    let whole = without_drive-same p good.rooted good.short in
    rw (whole, map-plain p good.plain, squeeze-single p good.single)
      (filled p good.some_char ∙ take-short 255 p good.short)
  where
    filled : (p : List ℕ) → 1 ≤ length p → take 255 (or_root p) ≡ take 255 p
    filled [] h = absurd (omega arith)
    filled (c ∷ cs) h = refl

-- The path that `convert_nt_path` gives has between 1 and 255 characters, no backslash, no slash before a
-- slash and no drive, and a second conversion, as `ons_bind` makes of the part before the last slash,
-- leaves it as it is.
pub convert_nt_path-IsPath :
    (p : List ℕ)
    → IsPath (convert_nt_path p) × (convert_nt_path (convert_nt_path p) ≡ convert_nt_path p)
unfolding convert_nt_path
convert_nt_path-IsPath p = (good, convert_nt_path-same (convert_nt_path p) good)
  where
    rooted_path :
        (q : List ℕ)
        → NoBackslash q
        → NoDouble q
        → NoDrive q
        → length q ≤ 255
        → IsPath (take 255 (or_root q))
    rooted_path [] a b c d = record {
      plain = (refl, tt);
      single = tt;
      rooted = tt;
      short = omega arith;
      some_char = omega arith;
    }
    rooted_path (x ∷ xs) a b c d =
        subst IsPath (sym (take-short 255 (x ∷ xs) d))
          (record { plain = a; single = b; rooted = c; short = d; some_char = omega arith })

    good : IsPath (convert_nt_path p)
    good =
        let q = without_drive p in
        rooted_path (squeeze (map to_slash q))
          (squeeze-NoBackslash (map to_slash q) (map-NoBackslash q))
          (squeeze-NoDouble (map to_slash q))
          (squeeze-NoDrive (map to_slash q) (map-NoDrive q (without_drive-NoDrive p)))
          (omega (arith, length-squeeze (map to_slash q), length-map q, length-without_drive p))
