-- ===== src/Sync/Mutex.antt =====
-- system/sync/mutex.cpp: mutexes and counting semaphores. Each round of a blocking loop holds the
-- spinlock and is one step. A woken task makes another round: it is not handed the lock.
pub mod Exclusion
mod Tests
use singularity.Common.{
  ℕ, zero, suc, ◌+◌, ◌-◌, Bool, true, false, Option, none, some, ◌==◌, ltb, if◌then◌else◌, List, [],
  ◌∷◌,
}
use singularity.Sync.WaitQueue.{wait_queue_push, wait_queue_pop_safe}

pub record Mutex : Type 0 where
  pub locked : ℕ
  pub wait_q : List ℕ

-- A null pointer, `none`, when the heap is exhausted.
unfoldable pub mutex_create : Bool → Option Mutex
mutex_create allocated = if allocated then some (record { locked = 0; wait_q = [] }) else none

-- A round of `mutex_lock` by `proc`. `true`: the mutex is held. `false`: the task blocks.
unfoldable pub mutex_lock : ℕ → Mutex → Bool × Mutex
mutex_lock proc m =
    if m.locked == 0
    then (true, record m { locked = 1 })
    else (false, record m { wait_q = wait_queue_push m.wait_q proc })

-- The task that is woken, and the mutex.
unfoldable pub mutex_unlock : (ℕ → Bool) → Mutex → Option ℕ × Mutex
mutex_unlock is_dead m =
    let (next, _, rest) = wait_queue_pop_safe is_dead m.wait_q in
    (next, record { locked = 0; wait_q = rest })

-- `count` is an `int`. A program that starts it below 0 is not modelled.
pub record Semaphore : Type 0 where
  pub count : ℕ
  pub wait_q : List ℕ

unfoldable pub sem_create : Bool → ℕ → Option Semaphore
sem_create allocated initial =
    if allocated then some (record { count = initial; wait_q = [] }) else none

unfoldable pub sem_wait : ℕ → Semaphore → Bool × Semaphore
sem_wait proc s =
    if ltb 0 s.count
    then (true, record s { count = s.count - 1 })
    else (false, record s { wait_q = wait_queue_push s.wait_q proc })

-- The count is kept below 2^31 by its callers, as signed overflow is undefined.
unfoldable pub sem_signal : (ℕ → Bool) → Semaphore → Option ℕ × Semaphore
sem_signal is_dead s =
    let (next, _, rest) = wait_queue_pop_safe is_dead s.wait_q in
    (next, record { count = s.count + 1; wait_q = rest })
