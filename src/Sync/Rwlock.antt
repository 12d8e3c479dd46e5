-- ===== src/Sync/Rwlock.antt =====
-- system/sync/rwlock.cpp: the reader-writer lock. A method holds the spinlock of the lock over each
-- round of its loop, so a round is one step. The tasks that a method wakes are part of its result.
pub mod Exclusion
pub mod Wakeups
mod Tests
use singularity.Common.{
  ℕ, zero, suc, ◌+◌, ◌-◌, Bool, true, false, not, ◌&&◌, Option, none, some, ◌==◌, ltb, leb,
  if◌then◌else◌, List, [], ◌∷◌, length,
}
use singularity.Sync.WaitQueue.{wait_queue_push, wait_queue_pop_safe, popped, to_list, wake_all}

pub record Rwlock : Type 0 where
  pub readers : ℕ
  pub writer_active : Bool
  pub write_waiters : ℕ
  pub read_q : List ℕ
  pub write_q : List ℕ

abbrev pub max_readers : ℕ
max_readers = 1024

-- `none` is the panic when the heap is exhausted.
unfoldable pub rwlock_create : Bool → Option Rwlock
rwlock_create allocated =
    if allocated
    then some (record {
      readers = 0;
      writer_active = false;
      write_waiters = 0;
      read_q = [];
      write_q = [];
    })
    else none

-- A round of `rwlock_acquire_read` by the task `proc`, `none` before there are tasks. `true`: the
-- lock is held and the method returns. `false`: it blocks, or spins, and then makes another round.
unfoldable pub rwlock_acquire_read : Option ℕ → Rwlock → Bool × Rwlock
rwlock_acquire_read proc lock =
    let blocked : Rwlock = elim proc [
      | none ↦ lock
      | some t ↦ record lock { read_q = wait_queue_push lock.read_q t }
    ] in
    if not lock.writer_active && lock.write_waiters == 0 && ltb lock.readers max_readers
    then (true, record lock { readers = lock.readers + 1 })
    else (false, blocked)

-- How both releases pop a writer and count the waiters that left the queue.
unfoldable pub pop_writer : (ℕ → Bool) → Rwlock → Option ℕ × Rwlock
pop_writer is_dead lock =
    let (next_writer, skipped, rest) = wait_queue_pop_safe is_dead lock.write_q in
    let total_removed = popped next_writer + skipped in
    let write_waiters =
      if leb total_removed lock.write_waiters then lock.write_waiters - total_removed else 0 in
    (next_writer, record lock { write_waiters = write_waiters; write_q = rest })

-- `none` is the panic on an underflow of `readers`.
unfoldable pub rwlock_release_read : (ℕ → Bool) → Rwlock → Option (List ℕ × Rwlock)
rwlock_release_read is_dead lock =
    let lock' = record lock { readers = lock.readers - 1 } in
    let (next_writer, popped_lock) = pop_writer is_dead lock' in
    if not (ltb 0 lock.readers)
    then none
    else if lock'.readers == 0 && ltb 0 lock'.write_waiters
    then some (to_list next_writer, popped_lock)
    else some ([], lock')

-- A round of `rwlock_acquire_write`, as for the readers.
unfoldable pub rwlock_acquire_write : Option ℕ → Rwlock → Bool × Rwlock
rwlock_acquire_write proc lock =
    let waits : Rwlock = elim proc [
      | none ↦ lock
      | some t ↦ record lock {
        write_waiters = lock.write_waiters + 1;
        write_q = wait_queue_push lock.write_q t;
      }
    ] in
    if not lock.writer_active && lock.readers == 0
    then (true, record lock { writer_active = true })
    else (false, waits)

-- The readers are woken by the loop `wake_all`, in the source after the spinlock is let go.
unfoldable pub rwlock_release_write : (ℕ → Bool) → Rwlock → List ℕ × Rwlock
rwlock_release_write is_dead lock =
    let lock' = record lock { writer_active = false } in
    let (next_writer, popped_lock) = pop_writer is_dead lock' in
    let (woken, left) = wake_all (suc (length lock'.read_q)) is_dead lock'.read_q in
    if ltb 0 lock'.write_waiters
    then (to_list next_writer, popped_lock)
    else (woken, record lock' { read_q = left })
