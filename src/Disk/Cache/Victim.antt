-- ===== src/Disk/Cache/Victim.antt =====
-- cache.cpp: which way a new sector replaces.
use singularity.Common.{
  ℕ, suc, ◌+◌, ◌-◌, ◌^◌, ◌≤◌, ◌<◌, ◌≡◌, refl, true, false, some, arith, List, [], ◌∷◌, inl, inr,
  ◌⊎◌, get_elem?, ◌≢◌,
}
use singularity.Disk.Cache.{CacheEntry, victim_from, victim}
use singularity.Disk.Cache.Scan.{All, All-mono}

-- Every way is valid and was used at `t` or later.
abbrev pub IsUsedSince : ℕ → List CacheEntry → Type 0
IsUsedSince t = All (λ e. (e.valid ≡ true) × (t ≤ e.last_access))

-- How the loop ends: at a way that is not valid, with the victim that it began with, or with a way
-- older than that.
data Ends (ways : List CacheEntry) (w victim_way oldest_time r : ℕ) : Type 0 where
  free :
      (i : ℕ) (e : CacheEntry)
      → get_elem? ways i ≡ some e
      → r ≡ w + i
      → e.valid ≡ false
      → Ends ways w victim_way oldest_time r
  same : r ≡ victim_way → IsUsedSince oldest_time ways → Ends ways w victim_way oldest_time r
  older :
      (i : ℕ) (e : CacheEntry)
      → get_elem? ways i ≡ some e
      → r ≡ w + i
      → e.last_access < oldest_time
      → IsUsedSince e.last_access ways
      → Ends ways w victim_way oldest_time r

IsUsedSince-mono :
    {t u : ℕ} (ways : List CacheEntry) → u ≤ t → IsUsedSince t ways → IsUsedSince u ways
IsUsedSince-mono ways h = All-mono ways (λ e p. (p.0, omega arith))

victim_from-nil : (w v t : ℕ) → victim_from [] w v t ≡ v
unfolding victim_from
victim_from-nil w v t = refl

-- One round of the loop.
victim_from-cons :
    (x : CacheEntry) (xs : List CacheEntry) (w v t : ℕ)
    → ((x.valid ≡ false) × (victim_from (x ∷ xs) w v t ≡ w))
      ⊎ ((x.valid ≡ true)
          × (x.last_access < t)
          × (victim_from (x ∷ xs) w v t ≡ victim_from xs (w + 1) w x.last_access))
      ⊎ ((x.valid ≡ true)
          × (t ≤ x.last_access)
          × (victim_from (x ∷ xs) w v t ≡ victim_from xs (w + 1) v t))
unfolding victim_from
victim_from-cons x xs w v t = ground arith

victim_from-Ends :
    (ways : List CacheEntry) (w victim_way oldest_time : ℕ)
    → Ends ways w victim_way oldest_time (victim_from ways w victim_way oldest_time)
victim_from-Ends [] w v t = same (victim_from-nil w v t) tt
victim_from-Ends (x ∷ xs) w v t = elim (victim_from-cons x xs w v t) [
  | inl (e, r) ↦ free 0 x refl (omega (arith, r)) e
  | inr (inl (e, less, r)) ↦
      rw r (first x xs w v t e less (victim_from-Ends xs (w + 1) w x.last_access))
  | inr (inr (e, more, r)) ↦ rw r (later x xs w v t e more (victim_from-Ends xs (w + 1) v t))
]
  where
    first :
        (x : CacheEntry) (xs : List CacheEntry) (w v t : ℕ) {r : ℕ}
        → x.valid ≡ true
        → x.last_access < t
        → Ends xs (w + 1) w x.last_access r
        → Ends (x ∷ xs) w v t r
    first x xs w v t e h (free i y at r p) = free (suc i) y at (omega arith) p
    first x xs w v t e h (same r used) = older 0 x refl (omega arith) h ((e, omega arith), used)
    first x xs w v t e h (older i y at r less used) =
        older (suc i) y at (omega arith) (omega arith) ((e, omega arith), used)

    later :
        (x : CacheEntry) (xs : List CacheEntry) (w v t : ℕ) {r : ℕ}
        → x.valid ≡ true
        → t ≤ x.last_access
        → Ends xs (w + 1) v t r
        → Ends (x ∷ xs) w v t r
    later x xs w v t e h (free i y at r p) = free (suc i) y at (omega arith) p
    later x xs w v t e h (same r used) = same r ((e, h), used)
    later x xs w v t e h (older i y at r less used) =
        older (suc i) y at (omega arith) less ((e, omega arith), used)

-- In a set that has ways, the victim is one of them: a way that is not valid, or, if all are valid,
-- one that was used no later than any other. Times are `uint64_t`.
pub victim_lem :
    (ways : List CacheEntry)
    → ways ≢ []
    → All (λ e. e.last_access < 2 ^ 64) ways
    → (e : CacheEntry) × (get_elem? ways (victim ways) ≡ some e)
      × ((e.valid ≡ false) ⊎ IsUsedSince e.last_access ways)
unfolding victim
victim_lem [] ne small = absurd (ne refl)
victim_lem (x ∷ xs) ne small = go (victim_from-Ends (x ∷ xs) 0 0 (2 ^ 64 - 1))
  where
    go :
        {r : ℕ}
        → Ends (x ∷ xs) 0 0 (2 ^ 64 - 1) r
        → (e : CacheEntry) × (get_elem? (x ∷ xs) r ≡ some e)
          × ((e.valid ≡ false) ⊎ IsUsedSince e.last_access (x ∷ xs))
    go {r} (free i e at p q) = let here : r ≡ i = omega arith in (e, rw here at, inl q)
    go {r} (same p used) = (x, rw p refl, inr (IsUsedSince-mono (x ∷ xs) (omega arith) used))
    go {r} (older i e at p less used) = let here : r ≡ i = omega arith in (e, rw here at, inr used)
