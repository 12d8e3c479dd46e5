-- ===== src/Disk/Cache/Scan.antt =====
-- cache.cpp: the scans of one set.
use singularity.Common.{
  ℕ, zero, suc, ◌≡◌, true, false, none, some, arith, ◌⊎◌, List, [], ◌∷◌, map, set,
}
use singularity.Disk.Cache.{
  CacheEntry, Sector, holds, find_way, change_way, drop_way, drop_device, drop_valid, hash,
}

-- Every entry passes.
abbrev pub All {κ} : (CacheEntry → Type κ) → List CacheEntry → Type κ
All P [] = Unit
All P (e ∷ es) = P e × All P es

-- No way holds the sector.
abbrev pub IsAbsent : ℕ → ℕ → List CacheEntry → Type 0
IsAbsent dev lba = All (λ e. holds dev lba e ≡ false)

-- No sector is held by two ways.
abbrev pub IsDistinct : List CacheEntry → Type 0
IsDistinct [] = Unit {0}
IsDistinct (e ∷ es) = (e.valid ≡ true → IsAbsent e.device e.lba es) × IsDistinct es

-- What a valid way of set `s` says of the disk.
abbrev pub IsLine : (ℕ → ℕ → Sector) → ℕ → CacheEntry → Type 0
IsLine disk s e = e.valid ≡ true → (hash e.device e.lba ≡ s) × (e.content ≡ disk e.device e.lba)

pub find_way-eq_some :
    (dev lba : ℕ) (ways : List CacheEntry) (e : CacheEntry) (disk : ℕ → ℕ → Sector) (s : ℕ)
    → find_way dev lba ways ≡ some e
    → All (IsLine disk s) ways
    → (holds dev lba e ≡ true) × (e.content ≡ disk dev lba)
unfolding find_way
find_way-eq_some dev lba [] e disk s h a = ground arith
find_way-eq_some dev lba (x ∷ xs) e disk s h a =
    ground (arith, a.0, find_way-eq_some dev lba xs e disk s)

pub find_way-eq_none :
    (dev lba : ℕ) (ways : List CacheEntry) → find_way dev lba ways ≡ none → IsAbsent dev lba ways
unfolding find_way
find_way-eq_none dev lba [] h = tt
find_way-eq_none dev lba (x ∷ xs) h = ground (arith, find_way-eq_none dev lba xs)

pub All-mono {κ κ'} :
    {P : CacheEntry → Type κ} {Q : CacheEntry → Type κ'} (ways : List CacheEntry)
    → ((e : CacheEntry) → P e → Q e)
    → All P ways
    → All Q ways
All-mono [] h a = tt
All-mono (x ∷ xs) h a = (h x a.0, All-mono xs h a.1)

pub All-map {κ κ'} :
    (P : CacheEntry → Type κ) (Q : CacheEntry → Type κ') (f : CacheEntry → CacheEntry)
    (ways : List CacheEntry)
    → ((e : CacheEntry) → P e → Q (f e))
    → All P ways
    → All Q (map f ways)
All-map P Q f [] h a = tt
All-map P Q f (x ∷ xs) h a = (h x a.0, All-map P Q f xs h a.1)

pub All-set {κ} :
    (P : CacheEntry → Type κ) (ways : List CacheEntry) (i : ℕ) (e : CacheEntry)
    → P e
    → All P ways
    → All P (set ways i e)
All-set P [] i e p a = tt
All-set P (x ∷ xs) zero e p a = (p, a.1)
All-set P (x ∷ xs) (suc i) e p a = (a.0, All-set P xs i e p a.1)

-- A change of a way that leaves the sector that it holds.
abbrev pub KeepsKey : (CacheEntry → CacheEntry) → Type 0
KeepsKey f =
    (e : CacheEntry) → ((f e).valid ≡ e.valid) × ((f e).device ≡ e.device) × ((f e).lba ≡ e.lba)

module _ (dev lba : ℕ) (f : CacheEntry → CacheEntry) (k : KeepsKey f) where
  IsAbsent-change_way :
      (d l : ℕ) (ways : List CacheEntry)
      → IsAbsent d l ways
      → IsAbsent d l (change_way dev lba f ways)
  unfolding change_way
  IsAbsent-change_way d l [] a = tt
  IsAbsent-change_way d l (x ∷ xs) a = ground (arith, k x, IsAbsent-change_way d l xs a.1)

  pub change_way-IsDistinct :
      (ways : List CacheEntry) → IsDistinct ways → IsDistinct (change_way dev lba f ways)
  unfolding change_way
  change_way-IsDistinct [] a = tt
  change_way-IsDistinct (x ∷ xs) a =
      ground (arith, k x, IsAbsent-change_way x.device x.lba xs, change_way-IsDistinct xs a.1)

-- A change of the ways that may drop some.
abbrev pub MayDrop : (CacheEntry → CacheEntry) → Type 0
MayDrop f = (e : CacheEntry) → (f e ≡ e) ⊎ (f e ≡ record e { valid = false })

module _ (f : CacheEntry → CacheEntry) (k : MayDrop f) where
  pub IsAbsent-map :
      (d l : ℕ) (ways : List CacheEntry) → IsAbsent d l ways → IsAbsent d l (map f ways)
  IsAbsent-map d l [] a = tt
  IsAbsent-map d l (x ∷ xs) a = ground (arith, k x, IsAbsent-map d l xs a.1)

  pub map-IsDistinct : (ways : List CacheEntry) → IsDistinct ways → IsDistinct (map f ways)
  map-IsDistinct [] a = tt
  map-IsDistinct (x ∷ xs) a =
      ground (arith, k x, IsAbsent-map x.device x.lba xs, map-IsDistinct xs a.1)

  pub map-IsLine :
      (disk : ℕ → ℕ → Sector) (s : ℕ) (ways : List CacheEntry)
      → All (IsLine disk s) ways
      → All (IsLine disk s) (map f ways)
  map-IsLine disk s ways =
      All-map (IsLine disk s) (IsLine disk s) f ways (λ e line. ground (arith, k e))

pub set-IsDistinct :
    (ways : List CacheEntry) (i : ℕ) (e : CacheEntry)
    → IsAbsent e.device e.lba ways
    → IsDistinct ways
    → IsDistinct (set ways i e)
set-IsDistinct [] i e a d = tt
set-IsDistinct (x ∷ xs) zero e a d = (λ _. a.1, d.1)
set-IsDistinct (x ∷ xs) (suc i) e a d = (
  λ v. All-set (λ y. holds x.device x.lba y ≡ false) xs i e (ground (arith, a.0, v)) (d.0 v),
  set-IsDistinct xs i e a.1 d.1,
)

pub drop_way-MayDrop : (dev lba : ℕ) → MayDrop (drop_way dev lba)
drop_way-MayDrop dev lba e = ground arith

pub drop_device-MayDrop : (dev : ℕ) → MayDrop (drop_device dev)
drop_device-MayDrop dev e = ground arith

pub drop_valid-MayDrop : MayDrop drop_valid
drop_valid-MayDrop e = ground arith

-- What is dropped is absent.
pub drop_way-IsAbsent :
    (dev lba : ℕ) (ways : List CacheEntry) → IsAbsent dev lba (map (drop_way dev lba) ways)
drop_way-IsAbsent dev lba [] = tt
drop_way-IsAbsent dev lba (x ∷ xs) = (ground arith, drop_way-IsAbsent dev lba xs)
