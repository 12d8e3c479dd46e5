-- ===== src/Disk/Cache.antt =====
-- system/disk/cache.cpp and cache.hpp: the sector cache in front of the block devices.
-- The array of sets is a function from the index. A device is known by its address; what it stores
-- is a function from the sector number, and its `readBlock` and `writeBlock`, the allocator, the
-- page tables and the timer are read off an `Env` for each round of a loop. A set's spinlock is held
-- over each access to it; a whole call is one step here.
pub mod Scan
pub mod Coherence
pub mod Calls
pub mod Transparency
pub mod Bypass
pub mod Victim
pub mod Size
pub mod Outcome
mod Tests
use mathlib.Core.List.{foldr}
use singularity.Common.{
  ℕ, zero, suc, ◌+◌, ◌-◌, ◌*◌, ◌/◌, ◌%◌, ◌^◌, Bool, true, false, not, ◌&&◌, ◌||◌, Option, none,
  some, bit_and, bit_xor, ◌==◌, ltb, if◌then◌else◌, update, List, [], ◌∷◌, map, set,
}

abbrev pub cache_sets : ℕ
cache_sets = 256

-- The 512 bytes of a sector.
abbrev pub Sector : Type 0
Sector = List ℕ

-- `struct CacheEntry`; `content` is its field `data`.
pub record CacheEntry : Type 0 where
  pub lba : ℕ
  pub device : ℕ
  pub content : Sector
  pub valid : Bool
  pub last_access : ℕ

-- `sets[i].ways`, and what each device stores in each sector.
pub record World : Type 0 where
  pub sets : ℕ → List CacheEntry
  pub disk : ℕ → ℕ → Sector

-- What the environment answers in one round: whether `kmalloc_contiguous` and the device succeed,
-- how many sectors a write of several that fails has `stored`, which addresses
-- `get_physical_address` finds mapped, and the timer.
pub record Env : Type 0 where
  pub allocated : Bool
  pub device_ok : Bool
  pub stored : ℕ
  pub mapped : ℕ → Bool
  pub ticks : ℕ

-- FNV-1a over the 8 bytes of `v`, low byte first.
unfoldable pub hash_bytes : ℕ → ℕ → ℕ → ℕ
hash_bytes zero hash v = hash
hash_bytes (suc n) hash v =
    hash_bytes n (bit_xor hash (bit_and v 0xff) * 16777619 % 2 ^ 32) (v / 2 ^ 8)

unfoldable pub hash : ℕ → ℕ → ℕ
hash dev lba = bit_and (hash_bytes 8 (hash_bytes 8 2166136261 dev) lba) (cache_sets - 1)

abbrev pub reset : CacheEntry → CacheEntry
reset e = record e { valid = false; last_access = 0 }

unfoldable pub init : World → World
init w = record w { sets = λ i. map reset (w.sets i) }

-- The test of every scan: `valid && device == dev && lba == current_lba`.
abbrev pub holds : ℕ → ℕ → CacheEntry → Bool
holds dev lba e = e.valid && e.device == dev && e.lba == lba

-- The first way that holds the sector.
unfoldable pub find_way : ℕ → ℕ → List CacheEntry → Option CacheEntry
find_way dev lba [] = none
find_way dev lba (e ∷ es) = if holds dev lba e then some e else find_way dev lba es

-- The ways with `f` applied to the first that holds the sector.
unfoldable pub change_way : ℕ → ℕ → (CacheEntry → CacheEntry) → List CacheEntry → List CacheEntry
change_way dev lba f [] = []
change_way dev lba f (e ∷ es) = if holds dev lba e then f e ∷ es else e ∷ change_way dev lba f es

-- The loop for the victim: the first way that is not valid, or else the oldest. `w` is the index.
unfoldable pub victim_from : List CacheEntry → ℕ → ℕ → ℕ → ℕ
victim_from [] w victim_way oldest_time = victim_way
victim_from (e ∷ es) w victim_way oldest_time =
    let older = ltb e.last_access oldest_time in
    let rest =
      victim_from es (w + 1) (if older then w else victim_way)
        (if older then e.last_access else oldest_time) in
    if not e.valid then w else rest

unfoldable pub victim : List CacheEntry → ℕ
unfolding victim_from
victim ways = victim_from ways 0 0 (2 ^ 64 - 1)

-- The victim is overwritten by the sector.
unfoldable pub fill : ℕ → ℕ → Sector → ℕ → List CacheEntry → List CacheEntry
fill dev lba content ticks ways =
    set ways (victim ways)
      (record { lba = lba; device = dev; content = content; valid = true; last_access = ticks })

-- `lba + i` on a `uint64_t`
abbrev pub nth_lba : ℕ → ℕ → ℕ
nth_lba lba i = (lba + i) % 2 ^ 64

-- The check that the 512 bytes at `ptr + i * 512` are mapped: the last byte is asked for only if it
-- lies on another page than the first.
unfoldable pub target_mapped : Env → ℕ → ℕ → Bool
target_mapped env ptr i =
    let start_addr = (ptr + i * 512) % 2 ^ 64 in
    let end_addr = (start_addr + 511) % 2 ^ 64 in
    env.mapped start_addr && (start_addr / 4096 == end_addr / 4096 || env.mapped end_addr)

-- Whether a call goes past the cache.
abbrev pub bypasses : ℕ → ℕ → ℕ → Bool
bypasses block_size count ptr = not (block_size == 512) || ltb 1 count || not (ptr % 512 == 0)

-- One round of a loop: it returns 0, or goes on with the sector that it moved.
pub data Round : Type 0 where
  failed : World → Round
  moved : Sector → Bool → World → Round

abbrev pub set_at : World → ℕ → (List CacheEntry → List CacheEntry) → World
set_at w s f = record w { sets = update w.sets s (f (w.sets s)) }

-- A round of `readBlock`. `bounce_buf` says that the buffer was allocated in an earlier round.
unfoldable pub read_round : Env → ℕ → ℕ → ℕ → ℕ → Bool → World → Round
read_round env dev lba ptr i bounce_buf w =
    let current = nth_lba lba i in
    let set_idx = hash dev current in
    let touched =
      set_at w set_idx (change_way dev current (λ e. record e { last_access = env.ticks })) in
    let content = w.disk dev current in
    let fetched =
      if not (bounce_buf || env.allocated)
      then failed w
      else if not env.device_ok
      then failed w
      else if not (target_mapped env ptr i)
      then failed w
      else moved content true (set_at w set_idx (fill dev current content env.ticks)) in
    elim (find_way dev current (w.sets set_idx)) [
      | some e ↦
          if not (target_mapped env ptr i)
          then failed touched
          else moved e.content bounce_buf touched
      | none ↦ fetched
    ]

-- The loop of `readBlock`, with `n` rounds left. `buffer` gives the sectors at the caller's pointer.
unfoldable pub read_loop :
    (ℕ → Env) → ℕ → ℕ → ℕ → ℕ → ℕ → Bool → World → (ℕ → Sector) → Bool × World × (ℕ → Sector)
read_loop env dev lba ptr zero i bounce_buf w buffer = (true, w, buffer)
read_loop env dev lba ptr (suc n) i bounce_buf w buffer =
    elim (read_round (env i) dev lba ptr i bounce_buf w) [
      | failed w' ↦ (false, w', buffer)
      | moved content bounce w' ↦
          read_loop env dev lba ptr n (i + 1) bounce w' (update buffer i content)
    ]

-- `true` is the result 1. A device that fails leaves the buffer as it was.
unfoldable pub read_block :
    (ℕ → Env) → ℕ → ℕ → ℕ → ℕ → ℕ → World → (ℕ → Sector) → Bool × World × (ℕ → Sector)
read_block env block_size dev lba count ptr w buffer =
    if bypasses block_size count ptr
    then if (env 0).device_ok
      then (true, w, λ i. if ltb i count then w.disk dev (nth_lba lba i) else buffer i)
      else (false, w, buffer)
    else read_loop env dev lba ptr count 0 false w buffer

-- One sector of a device overwritten.
abbrev pub put : (ℕ → ℕ → Sector) → ℕ → ℕ → Sector → ℕ → ℕ → Sector
put disk dev lba content d l = if d == dev && l == lba then content else disk d l

-- What a device stores after a write of `count` sectors.
unfoldable pub store : (ℕ → ℕ → Sector) → ℕ → ℕ → ℕ → (ℕ → Sector) → ℕ → ℕ → Sector
store disk dev lba zero buffer = disk
store disk dev lba (suc n) buffer = put (store disk dev lba n buffer) dev (nth_lba lba n) (buffer n)

-- A round of `writeBlock`.
unfoldable pub write_round : Env → ℕ → ℕ → ℕ → ℕ → Bool → Sector → World → Round
write_round env dev lba ptr i bounce_buf content w =
    let current = nth_lba lba i in
    let set_idx = hash dev current in
    let written = record w { disk = put w.disk dev current content } in
    let renew = λ (e : CacheEntry). record e { last_access = env.ticks; content = content } in
    if not (bounce_buf || env.allocated)
    then failed w
    else if not (target_mapped env ptr i)
    then failed w
    else if not env.device_ok
    then failed w
    else moved content true (
        set_at written set_idx (λ ways. elim (find_way dev current ways) [
          | some _ ↦ change_way dev current renew ways
          | none ↦ fill dev current content env.ticks ways
        ]))

unfoldable pub write_loop :
    (ℕ → Env) → ℕ → ℕ → ℕ → ℕ → ℕ → Bool → (ℕ → Sector) → World → Bool × World
write_loop env dev lba ptr zero i bounce_buf buffer w = (true, w)
write_loop env dev lba ptr (suc n) i bounce_buf buffer w =
    elim (write_round (env i) dev lba ptr i bounce_buf (buffer i) w) [
      | failed w' ↦ (false, w')
      | moved _ bounce w' ↦ write_loop env dev lba ptr n (i + 1) bounce buffer w'
    ]

-- Every way of a set that holds the sector is marked invalid.
abbrev pub drop_way : ℕ → ℕ → CacheEntry → CacheEntry
drop_way dev lba e = if holds dev lba e then record e { valid = false } else e

-- The loop before a write that goes past the cache, `n` sectors from `i` on.
unfoldable pub drop_range : ℕ → ℕ → ℕ → ℕ → World → World
drop_range dev lba zero i w = w
drop_range dev lba (suc n) i w =
    let current = nth_lba lba i in
    drop_range dev lba n (i + 1) (set_at w (hash dev current) (map (drop_way dev current)))

-- How many of `count` sectors a failing write has stored before it failed.
abbrev pub stored_part : Env → ℕ → ℕ
stored_part env count = if ltb env.stored count then env.stored else count

unfoldable pub write_block : (ℕ → Env) → ℕ → ℕ → ℕ → ℕ → ℕ → (ℕ → Sector) → World → Bool × World
write_block env block_size dev lba count ptr buffer w =
    let w' = drop_range dev lba count 0 w in
    if bypasses block_size count ptr
    then if (env 0).device_ok
      then (true, record w' { disk = store w'.disk dev lba count buffer })
      else (false, record w' { disk = store w'.disk dev lba (stored_part (env 0) count) buffer })
    else write_loop env dev lba ptr count 0 false buffer w

-- `readVector` and `writeVector` of `count` sectors in `vector_count` vectors, which hold the
-- sectors `vectors` (`none` for null). They go to the device; the cache is left alone.
unfoldable pub read_vector :
    Env → ℕ → ℕ → ℕ → ℕ → Option (ℕ → Sector) → World → Bool × Option (ℕ → Sector)
read_vector env dev lba vector_count count none w = (false, none)
read_vector env dev lba vector_count count (some vectors) w =
    if dev == 0 || vector_count == 0
    then (false, some vectors)
    else if env.device_ok
    then (true, some (λ i. if ltb i count then w.disk dev (nth_lba lba i) else vectors i))
    else (false, some vectors)

unfoldable pub write_vector : Env → ℕ → ℕ → ℕ → ℕ → Option (ℕ → Sector) → World → Bool × World
write_vector env dev lba vector_count count none w = (false, w)
write_vector env dev lba vector_count count (some vectors) w =
    if dev == 0 || vector_count == 0
    then (false, w)
    else if env.device_ok
    then (true, record w { disk = store w.disk dev lba count vectors })
    else (false, record w { disk = store w.disk dev lba (stored_part env count) vectors })

abbrev pub drop_device : ℕ → CacheEntry → CacheEntry
drop_device dev e = if e.valid && e.device == dev then record e { valid = false } else e

unfoldable pub invalidate_device : ℕ → World → World
invalidate_device dev w = record w { sets = λ i. map (drop_device dev) (w.sets i) }

abbrev pub drop_valid : CacheEntry → CacheEntry
drop_valid e = if e.valid then record e { valid = false } else e

-- How many ways of a set are valid.
unfoldable pub count_valid : List CacheEntry → ℕ
count_valid [] = 0
count_valid (e ∷ es) = (if e.valid then 1 else 0) + count_valid es

-- The sum of `f` over the sets below `n`.
unfoldable pub sum_sets : ℕ → (List CacheEntry → ℕ) → World → ℕ
sum_sets zero f w = 0
sum_sets (suc n) f w = sum_sets n f w + f (w.sets n)

-- With the number of buffers that the message names.
unfoldable pub flush_all : World → ℕ × World
flush_all w =
    (sum_sets cache_sets count_valid w, record w { sets = λ i. map drop_valid (w.sets i) })

unfoldable pub get_cache_size : World → ℕ
get_cache_size w = sum_sets cache_sets (λ ways. 512 * count_valid ways) w
