-- ===== src/Disk/Cache/Size.antt =====
-- cache.cpp: how much the cache holds.
use singularity.Common.{ℕ, zero, suc, ◌*◌, ◌<◌, ◌≡◌, refl, arith, List, [], ◌∷◌, map}
use singularity.Disk.Cache.{
  World, CacheEntry, drop_valid, count_valid, sum_sets, flush_all, get_cache_size, cache_sets,
}

count_valid-drop : (ways : List CacheEntry) → count_valid (map drop_valid ways) ≡ 0
unfolding count_valid
count_valid-drop [] = refl
count_valid-drop (x ∷ xs) = ground (arith, count_valid-drop xs)

sum_sets-zero :
    (n : ℕ) (f : List CacheEntry → ℕ) (w : World)
    → ((i : ℕ) → i < n → f (w.sets i) ≡ 0)
    → sum_sets n f w ≡ 0
unfolding sum_sets
sum_sets-zero zero f w h = refl
sum_sets-zero (suc n) f w h =
    omega (arith, h n (omega arith), sum_sets-zero n f w (λ i b. h i (omega arith)))

sum_sets-scale :
    (n : ℕ) (f : List CacheEntry → ℕ) (w : World)
    → sum_sets n (λ ways. 512 * f ways) w ≡ 512 * sum_sets n f w
unfolding sum_sets
sum_sets-scale zero f w = refl
sum_sets-scale (suc n) f w = omega (arith, sum_sets-scale n f w)

-- `flushAll` reports how many 512-byte buffers the cache held, empties it, and touches no disk.
pub flush_all_lem :
    (w : World)
    → (512 * (flush_all w).0 ≡ get_cache_size w)
      × (get_cache_size (flush_all w).1 ≡ 0)
      × ((flush_all w).1.disk ≡ w.disk)
unfolding flush_all get_cache_size
flush_all_lem w = (
  omega (arith, sum_sets-scale cache_sets count_valid w),
  sum_sets-zero cache_sets _ _ (λ i b. omega (arith, count_valid-drop (w.sets i))),
  refl,
)
