-- ===== src/Sync/Rwlock/Wakeups.antt =====
-- rwlock.cpp: which tasks `rwlock_release_write` wakes.
use singularity.Common.{
  ℕ, suc, ◌<◌, ◌≡◌, refl, Bool, true, false, arith, ltb, List, [], ◌∷◌, length, ap,
}
use singularity.Sync.WaitQueue.{living, to_list, pop-none, pop-some, wake_all-living}
use singularity.Sync.Rwlock.{Rwlock, pop_writer, rwlock_release_write}

-- When no writer waits, `rwlock_release_write` wakes every living reader that waits, in the order
-- in which they came, and leaves the lock free with no reader waiting.
pub release_write-wakes_readers :
    (is_dead : ℕ → Bool) (lock : Rwlock)
    → lock.write_waiters ≡ 0
    → rwlock_release_write is_dead lock
      ≡ (living is_dead lock.read_q, record lock { writer_active = false; read_q = [] })
unfolding rwlock_release_write
release_write-wakes_readers is_dead lock h =
    let all = wake_all-living (suc (length lock.read_q)) is_dead lock.read_q (omega arith) in
    grind (arith, h, all)

-- When the first living task in the queue of writers is `t`, `rwlock_release_write` wakes it and no
-- other, and every other living writer goes on waiting, in order.
pub release_write-wakes_writer :
    (is_dead : ℕ → Bool) (lock : Rwlock) (t : ℕ) (ts : List ℕ)
    → lock.write_waiters ≡ length lock.write_q
    → living is_dead lock.write_q ≡ t ∷ ts
    → let (woken, lock') = rwlock_release_write is_dead lock in
      (woken ≡ t ∷ [])
      × (living is_dead lock'.write_q ≡ ts)
      × (lock'.writer_active ≡ false)
      × (lock'.read_q ≡ lock.read_q)
unfolding rwlock_release_write pop_writer
release_write-wakes_writer is_dead lock t ts counted first =
    let (found, left, some_waits) = pop-some is_dead lock.write_q t ts first in
    let waits : ltb 0 lock.write_waiters ≡ true = ground arith in
    rw waits (ap to_list found, left, refl, refl)

-- When only dead tasks wait to write, `rwlock_release_write` leaves the lock free, with no writer
-- waiting, but wakes no one: the readers that wait are in the queue still, living or not.
pub release_write-strands_readers :
    (is_dead : ℕ → Bool) (lock : Rwlock)
    → 0 < lock.write_waiters
    → lock.write_waiters ≡ length lock.write_q
    → living is_dead lock.write_q ≡ []
    → let (woken, lock') = rwlock_release_write is_dead lock in
      (woken ≡ [])
      × (lock'.writer_active ≡ false)
      × (lock'.write_waiters ≡ 0)
      × (lock'.write_q ≡ [])
      × (lock'.read_q ≡ lock.read_q)
unfolding rwlock_release_write pop_writer
release_write-strands_readers is_dead lock waits counted dead =
    let popped_none = pop-none is_dead lock.write_q dead in ground arith
