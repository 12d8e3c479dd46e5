-- ===== src/Disk/Cache/Coherence.antt =====
-- cache.cpp: what the valid lines hold is what the devices store, after every call but `writeVector`.
use singularity.Common.{
  ℕ, ◌≡◌, refl, Bool, true, false, ◌||◌, not, none, some, arith, ◌==◌, List, [], ◌∷◌, Option-cases,
  Bool-cases, inl, inr, if_elim, subst,
}
use singularity.Disk.Cache.{
  World, Env, CacheEntry, Sector, holds, find_way, change_way, victim, fill, hash, target_mapped,
  nth_lba, put, failed, moved, Round, read_round, write_round, set_at,
}
use singularity.Disk.Cache.Scan.{
  All, IsAbsent, IsDistinct, IsLine, All-set, find_way-eq_some, find_way-eq_none,
  change_way-IsDistinct, set-IsDistinct,
}

-- Every valid way is in the set of its sector and holds what the disk stores; no sector is twice in
-- a set.
pub record IsCoherent (w : World) : Type 0 where
  pub lines : (s : ℕ) → All (IsLine w.disk s) (w.sets s)
  pub distinct : (s : ℕ) → IsDistinct (w.sets s)

-- A change of one set.
pub set_at-IsCoherent :
    (w : World) (s : ℕ) (f : List CacheEntry → List CacheEntry)
    → IsCoherent w
    → All (IsLine w.disk s) (f (w.sets s))
    → IsDistinct (f (w.sets s))
    → IsCoherent (set_at w s f)
set_at-IsCoherent w s f c lines distinct = record {
  lines = λ i. elim (Bool-cases (s == i)) [
    | inl e ↦ let same : s ≡ i = ground arith in rw (e, ← same) lines
    | inr e ↦ rw e (c.lines i)
  ];
  distinct =
      λ i. elim (Bool-cases (s == i)) [ inl e ↦ rw e distinct | inr e ↦ rw e (c.distinct i) ];
}

fill-IsLine :
    (disk : ℕ → ℕ → Sector) (dev lba ticks : ℕ) (ways : List CacheEntry)
    → All (IsLine disk (hash dev lba)) ways
    → All (IsLine disk (hash dev lba)) (fill dev lba (disk dev lba) ticks ways)
unfolding fill
fill-IsLine disk dev lba ticks ways =
    All-set (IsLine disk (hash dev lba)) ways (victim ways) _ (λ v. (refl, refl))

fill-IsDistinct :
    (dev lba ticks : ℕ) (content : Sector) (ways : List CacheEntry)
    → IsAbsent dev lba ways
    → IsDistinct ways
    → IsDistinct (fill dev lba content ticks ways)
unfolding fill
fill-IsDistinct dev lba ticks content ways a = set-IsDistinct ways (victim ways) _ a

-- A change of a way's time only.
touch-IsLine :
    (disk : ℕ → ℕ → Sector) (s dev lba ticks : ℕ) (ways : List CacheEntry)
    → All (IsLine disk s) ways
    → All (IsLine disk s) (change_way dev lba (λ e. record e { last_access = ticks }) ways)
unfolding change_way
touch-IsLine disk s dev lba ticks [] a = tt
touch-IsLine disk s dev lba ticks (x ∷ xs) a = elim (Bool-cases (holds dev lba x)) [
  | inl e ↦ rw e a
  | inr e ↦ rw e (a.0, touch-IsLine disk s dev lba ticks xs a.1)
]

-- What a round leaves, and that a sector that it read is the disk's.
pub data ReadsRight (w : World) (dev lba : ℕ) : Round → Type 0 where
  stops : {w' : World} → IsCoherent w' → w'.disk ≡ w.disk → ReadsRight w dev lba (failed w')
  reads :
      {content : Sector} {bounce : Bool} {w' : World}
      → IsCoherent w'
      → w'.disk ≡ w.disk
      → content ≡ w.disk dev lba
      → ReadsRight w dev lba (moved content bounce w')

pub read_round-ReadsRight :
    (env : Env) (dev lba ptr i : ℕ) (bounce : Bool) (w : World)
    → IsCoherent w
    → ReadsRight w dev (nth_lba lba i) (read_round env dev lba ptr i bounce w)
unfolding read_round
read_round-ReadsRight env dev lba ptr i bounce w c =
    let current = nth_lba lba i in
    let s = hash dev current in
    let touch = λ (e : CacheEntry). record e { last_access = env.ticks } in
    let touched : IsCoherent (set_at w s (change_way dev current touch)) =
      set_at-IsCoherent w s (change_way dev current touch) c
        (touch-IsLine w.disk s dev current env.ticks (w.sets s) (c.lines s))
        (change_way-IsDistinct dev current touch (λ e. (refl, refl, refl)) (w.sets s)
          (c.distinct s)) in
    let P = ReadsRight w dev current in
    elim (Option-cases (find_way dev current (w.sets s))) [
      | inl miss ↦
          let absent = find_way-eq_none dev current (w.sets s) miss in
          let filled : IsCoherent (set_at w s (fill dev current (w.disk dev current) env.ticks)) =
            set_at-IsCoherent w s (fill dev current (w.disk dev current) env.ticks) c
              (fill-IsLine w.disk dev current env.ticks (w.sets s) (c.lines s))
              (fill-IsDistinct dev current env.ticks (w.disk dev current) (w.sets s) absent
                (c.distinct s)) in
          rw (miss, read_round)
            (if_elim P (not (bounce || env.allocated)) (ReadsRight.stops c refl) (
              if_elim P (not env.device_ok) (ReadsRight.stops c refl) (
                if_elim P (not (target_mapped env ptr i)) (ReadsRight.stops c refl)
                  (reads {bounce = true} filled refl refl))))
      | inr (e, hit) ↦
          let right = find_way-eq_some dev current (w.sets s) e w.disk s hit (c.lines s) in
          rw (hit, read_round)
            (if_elim P (not (target_mapped env ptr i)) (ReadsRight.stops touched refl)
              (reads touched refl right.1))
    ]

-- The lines of the other sets, and those of the other sectors, after a sector is overwritten.
pub put-IsLine_other :
    (disk : ℕ → ℕ → Sector) (dev lba s : ℕ) (content : Sector) (ways : List CacheEntry)
    → (hash dev lba == s) ≡ false
    → All (IsLine disk s) ways
    → All (IsLine (put disk dev lba content) s) ways
put-IsLine_other disk dev lba s content [] ne a = tt
put-IsLine_other disk dev lba s content (x ∷ xs) ne a =
    (λ v. ground (arith, a.0 v), put-IsLine_other disk dev lba s content xs ne a.1)

pub put-IsLine_absent :
    (disk : ℕ → ℕ → Sector) (dev lba s : ℕ) (content : Sector) (ways : List CacheEntry)
    → IsAbsent dev lba ways
    → All (IsLine disk s) ways
    → All (IsLine (put disk dev lba content) s) ways
put-IsLine_absent disk dev lba s content [] b a = tt
put-IsLine_absent disk dev lba s content (x ∷ xs) b a =
    (λ v. ground (arith, a.0 v, b.0), put-IsLine_absent disk dev lba s content xs b.1 a.1)

-- The way that holds the sector is renewed.
renew-IsLine :
    (disk : ℕ → ℕ → Sector) (dev lba ticks s : ℕ) (content : Sector) (ways : List CacheEntry)
    → IsDistinct ways
    → All (IsLine disk s) ways
    → All
        (IsLine (put disk dev lba content) s)
        (change_way dev lba (λ e. record e { last_access = ticks; content = content }) ways)
unfolding change_way
renew-IsLine disk dev lba ticks s content [] d a = tt
renew-IsLine disk dev lba ticks s content (x ∷ xs) d a = elim (Bool-cases (holds dev lba x)) [
  | inl e ↦
      let valid : x.valid ≡ true = ground arith in
      let here : x.device ≡ dev = ground arith in
      let here' : x.lba ≡ lba = ground arith in
      let gone : IsAbsent dev lba xs =
        subst (λ k. IsAbsent dev k xs) here' (subst (λ k. IsAbsent k x.lba xs) here (d.0 valid)) in
      rw e (λ v. ground (arith, a.0 v), put-IsLine_absent disk dev lba s content xs gone a.1)
  | inr e ↦ rw e (λ v. ground (arith, a.0 v), renew-IsLine disk dev lba ticks s content xs d.1 a.1)
]

-- The disk changes under the cache, and one set with it.
put-IsCoherent :
    (w : World) (dev lba : ℕ) (content : Sector) (f : List CacheEntry → List CacheEntry)
    → IsCoherent w
    → All (IsLine (put w.disk dev lba content) (hash dev lba)) (f (w.sets (hash dev lba)))
    → IsDistinct (f (w.sets (hash dev lba)))
    → IsCoherent (set_at (record w { disk = put w.disk dev lba content }) (hash dev lba) f)
put-IsCoherent w dev lba content f c lines distinct = record {
  lines = λ i. elim (Bool-cases (hash dev lba == i)) [
    | inl e ↦ let same : hash dev lba ≡ i = ground arith in rw (e, ← same) lines
    | inr e ↦ rw e (put-IsLine_other w.disk dev lba i content (w.sets i) e (c.lines i))
  ];
  distinct = λ i. elim (Bool-cases (hash dev lba == i)) [
    | inl e ↦ rw e distinct
    | inr e ↦ rw e (c.distinct i)
  ];
}

pub data WritesRight (w : World) (dev lba : ℕ) (content : Sector) : Round → Type 0 where
  stops :
      {w' : World} → IsCoherent w' → w'.disk ≡ w.disk → WritesRight w dev lba content (failed w')
  writes :
      {content' : Sector} {bounce : Bool} {w' : World}
      → IsCoherent w'
      → w'.disk ≡ put w.disk dev lba content
      → WritesRight w dev lba content (moved content' bounce w')

-- What a write makes of its set.
written_ways : ℕ → ℕ → Sector → ℕ → List CacheEntry → List CacheEntry
written_ways dev lba content ticks ways = elim (find_way dev lba ways) [
  | some _ ↦ change_way dev lba (λ e. record e { last_access = ticks; content = content }) ways
  | none ↦ fill dev lba content ticks ways
]

written_ways-IsLine :
    (disk : ℕ → ℕ → Sector) (dev lba ticks : ℕ) (content : Sector) (ways : List CacheEntry)
    → IsDistinct ways
    → All (IsLine disk (hash dev lba)) ways
    → All
        (IsLine (put disk dev lba content) (hash dev lba))
        (written_ways dev lba content ticks ways)
      × IsDistinct (written_ways dev lba content ticks ways)
unfolding written_ways
written_ways-IsLine disk dev lba ticks content ways d a =
    elim (Option-cases (find_way dev lba ways)) [
      | inl miss ↦
          let absent = find_way-eq_none dev lba ways miss in
          let disk' = put disk dev lba content in
          let right : disk' dev lba ≡ content = ground arith in
          rw (miss, written_ways)
            (
              subst (λ c. All (IsLine disk' (hash dev lba)) (fill dev lba c ticks ways)) right
                  (fill-IsLine disk' dev lba ticks ways
                    (put-IsLine_absent disk dev lba (hash dev lba) content ways absent a)),
              fill-IsDistinct dev lba ticks content ways absent d,
            )
      | inr (e, hit) ↦
          rw (hit, written_ways)
            (
              renew-IsLine disk dev lba ticks (hash dev lba) content ways d a,
              change_way-IsDistinct dev lba _ (λ x. (refl, refl, refl)) ways d,
            )
    ]

pub write_round-WritesRight :
    (env : Env) (dev lba ptr i : ℕ) (bounce : Bool) (content : Sector) (w : World)
    → IsCoherent w
    → WritesRight w dev (nth_lba lba i) content (write_round env dev lba ptr i bounce content w)
unfolding write_round written_ways
write_round-WritesRight env dev lba ptr i bounce content w c =
    let current = nth_lba lba i in
    let s = hash dev current in
    let P = WritesRight w dev current content in
    let (lines, distinct) =
      written_ways-IsLine w.disk dev current env.ticks content (w.sets s) (c.distinct s)
        (c.lines s) in
    let done =
      put-IsCoherent w dev current content (written_ways dev current content env.ticks) c lines
        distinct in
    if_elim P (not (bounce || env.allocated)) (WritesRight.stops c refl) (
      if_elim P (not (target_mapped env ptr i)) (WritesRight.stops c refl) (
        if_elim P (not env.device_ok) (WritesRight.stops c refl)
          (writes {content' = content} {bounce = true} done refl)))
