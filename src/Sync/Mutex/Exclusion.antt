-- ===== src/Sync/Mutex/Exclusion.antt =====
-- mutex.cpp: who holds a mutex, and how many units of a semaphore are out.
use singularity.Common.{
  ℕ, ◌+◌, ◌≡◌, Bool, true, false, Option, some, arith, List, [], ◌∷◌, ◌++◌, ◌∙◌,
}
use singularity.Sync.WaitQueue.{living, to_list, pop-living}
use singularity.Sync.Mutex.{
  Mutex, mutex_create, mutex_lock, mutex_unlock, Semaphore, sem_create, sem_wait, sem_signal,
}

-- A mutex and the tasks that hold it: the last to lock it comes first.
pub data Held : Mutex → List ℕ → Type 0 where
  created : (m : Mutex) → mutex_create true ≡ some m → Held m []
  locks :
      {m : Mutex} {holders : List ℕ} (proc : ℕ) (m' : Mutex)
      → Held m holders
      → mutex_lock proc m ≡ (true, m')
      → Held m' (proc ∷ holders)
  blocks :
      {m : Mutex} {holders : List ℕ} (proc : ℕ) (m' : Mutex)
      → Held m holders
      → mutex_lock proc m ≡ (false, m')
      → Held m' holders
  unlocks :
      {m : Mutex} {proc : ℕ} {holders : List ℕ} (is_dead : ℕ → Bool) (next : Option ℕ) (m' : Mutex)
      → Held m (proc ∷ holders)
      → mutex_unlock is_dead m ≡ (next, m')
      → Held m' holders

-- `locked` tells whether the mutex is held, and it has one holder at most.
abbrev pub IsOwned : Mutex → List ℕ → Type 0
IsOwned m [] = m.locked ≡ 0
IsOwned m (t ∷ []) = m.locked ≡ 1
IsOwned m (t ∷ u ∷ ts) = ⊥

lock-IsOwned :
    (proc : ℕ) (m m' : Mutex) (holders : List ℕ)
    → IsOwned m holders
    → mutex_lock proc m ≡ (true, m')
    → IsOwned m' (proc ∷ holders)
unfolding mutex_lock
lock-IsOwned proc m m' [] v e = ground arith
lock-IsOwned proc m m' (t ∷ []) v e = ground arith
lock-IsOwned proc m m' (t ∷ u ∷ ts) v e = v

block-locked : (proc : ℕ) (m m' : Mutex) → mutex_lock proc m ≡ (false, m') → m'.locked ≡ m.locked
unfolding mutex_lock
block-locked proc m m' e = ground arith

IsOwned-locked :
    (m m' : Mutex) (holders : List ℕ)
    → m'.locked ≡ m.locked
    → IsOwned m holders
    → IsOwned m' holders
IsOwned-locked m m' [] e v = e ∙ v
IsOwned-locked m m' (t ∷ []) e v = e ∙ v
IsOwned-locked m m' (t ∷ u ∷ ts) e v = v

unlock-IsOwned :
    (is_dead : ℕ → Bool) (m m' : Mutex) (next : Option ℕ) (proc : ℕ) (holders : List ℕ)
    → IsOwned m (proc ∷ holders)
    → mutex_unlock is_dead m ≡ (next, m')
    → IsOwned m' holders
unfolding mutex_unlock
unlock-IsOwned is_dead m m' next proc [] v e = ground arith
unlock-IsOwned is_dead m m' next proc (t ∷ ts) v e = elim v [ ]

-- However tasks lock a new mutex and its holders unlock it, at most one task holds it at any time,
-- and `locked` is 1 exactly while one does.
pub Held-IsOwned : (m : Mutex) (holders : List ℕ) → Held m holders → IsOwned m holders
unfolding mutex_create
Held-IsOwned _ holders (created m e) = ground arith
Held-IsOwned _ _ (locks {m} {holders} proc m' h e) =
    lock-IsOwned proc m m' holders (Held-IsOwned m holders h) e
Held-IsOwned _ holders (blocks {m} proc m' h e) =
    IsOwned-locked m m' holders (block-locked proc m m' e) (Held-IsOwned m holders h)
Held-IsOwned _ holders (unlocks {m} {proc} is_dead next m' h e) =
    unlock-IsOwned is_dead m m' next proc holders (Held-IsOwned m (proc ∷ holders) h) e

-- A semaphore, how often it was signalled and how often a wait returned.
pub data Counted (initial : ℕ) : Semaphore → ℕ → ℕ → Type 0 where
  created : (s : Semaphore) → sem_create true initial ≡ some s → Counted initial s 0 0
  passes :
      {s : Semaphore} {ups downs : ℕ} (proc : ℕ) (s' : Semaphore)
      → Counted initial s ups downs
      → sem_wait proc s ≡ (true, s')
      → Counted initial s' ups (downs + 1)
  blocks :
      {s : Semaphore} {ups downs : ℕ} (proc : ℕ) (s' : Semaphore)
      → Counted initial s ups downs
      → sem_wait proc s ≡ (false, s')
      → Counted initial s' ups downs
  signals :
      {s : Semaphore} {ups downs : ℕ} (is_dead : ℕ → Bool) (next : Option ℕ) (s' : Semaphore)
      → Counted initial s ups downs
      → sem_signal is_dead s ≡ (next, s')
      → Counted initial s' (ups + 1) downs

pass-count : (proc : ℕ) (s s' : Semaphore) → sem_wait proc s ≡ (true, s') → s'.count + 1 ≡ s.count
unfolding sem_wait
pass-count proc s s' e = ground arith

wait-count : (proc : ℕ) (s s' : Semaphore) → sem_wait proc s ≡ (false, s') → s'.count ≡ s.count
unfolding sem_wait
wait-count proc s s' e = ground arith

signal-count :
    (is_dead : ℕ → Bool) (s s' : Semaphore) (next : Option ℕ)
    → sem_signal is_dead s ≡ (next, s')
    → s'.count ≡ s.count + 1
unfolding sem_signal
signal-count is_dead s s' next e = ground arith

-- However tasks use a new semaphore, the waits that returned and the units that are left are together
-- the initial count and the signals: no wait ever returns without a unit.
pub Counted-balance :
    (initial : ℕ) (s : Semaphore) (ups downs : ℕ)
    → Counted initial s ups downs
    → downs + s.count ≡ initial + ups
unfolding sem_create
Counted-balance initial _ ups downs (created s e) = ground arith
Counted-balance initial _ ups _ (passes {s} {downs = downs} proc s' c e) =
    omega (arith, Counted-balance initial s ups downs c, pass-count proc s s' e)
Counted-balance initial _ ups downs (blocks {s} proc s' c e) =
    omega (arith, Counted-balance initial s ups downs c, wait-count proc s s' e)
Counted-balance initial _ _ downs (signals {s} {ups = ups} is_dead next s' c e) =
    omega (arith, Counted-balance initial s ups downs c, signal-count is_dead s s' next e)

-- `mutex_unlock` and `sem_signal` wake the first living task that waits, if there is one, and the
-- other living ones go on waiting in order.
pub unlock-wakes_first :
    (is_dead : ℕ → Bool) (m : Mutex) (s : Semaphore)
    → let (next, m') = mutex_unlock is_dead m in
      let (next', s') = sem_signal is_dead s in
      (living is_dead m.wait_q ≡ to_list next ++ living is_dead m'.wait_q)
      × (living is_dead s.wait_q ≡ to_list next' ++ living is_dead s'.wait_q)
unfolding mutex_unlock sem_signal
unlock-wakes_first is_dead m s = (pop-living is_dead m.wait_q, pop-living is_dead s.wait_q)
