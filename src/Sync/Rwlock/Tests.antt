-- ===== src/Sync/Rwlock/Tests.antt =====
-- A lock that one task writes under while readers 4 and 5 and writer 6 wait.
use singularity.Common.{ℕ, ◌≡◌, refl, Bool, true, false, some, arith, ◌==◌, List, [], ◌∷◌}
use singularity.Sync.WaitQueue.{living, wait_queue_pop_safe}
use singularity.Sync.Rwlock.{
  Rwlock, rwlock_create, rwlock_acquire_read, rwlock_release_read, rwlock_release_write, pop_writer,
}
use singularity.Sync.Rwlock.Exclusion.{
  Scene, Reach, created, after, reads, IsExclusive, Reach-IsExclusive, Reach-release_read,
}
use singularity.Sync.Rwlock.Wakeups.{
  release_write-wakes_readers, release_write-wakes_writer, release_write-strands_readers,
}

abbrev busy : Rwlock
busy = record {
  readers = 0;
  writer_active = true;
  write_waiters = 1;
  read_q = 4 ∷ 5 ∷ [];
  write_q = 6 ∷ [];
}

abbrev none_dead : ℕ → Bool
none_dead t = false

abbrev six_dead : ℕ → Bool
six_dead t = t == 6

abbrev unused : Rwlock
unused = record { readers = 0; writer_active = false; write_waiters = 0; read_q = []; write_q = [] }

abbrev read_once : Scene
read_once = record { lock = record unused { readers = 1 }; reading = 1; writing = 0 }

waits_test : rwlock_acquire_read (some 7) busy ≡ (false, record busy { read_q = 4 ∷ 5 ∷ 7 ∷ [] })
unfolding rwlock_acquire_read
waits_test = refl

release_test : (rwlock_release_write none_dead busy).0 ≡ 6 ∷ []
unfolding rwlock_release_write pop_writer wait_queue_pop_safe
release_test = refl

read_once-Reach : Reach read_once
unfolding rwlock_create rwlock_acquire_read
read_once-Reach = after (created unused refl) (reads (some 7) (record unused { readers = 1 }) refl)

Reach-IsExclusive_example : IsExclusive read_once
Reach-IsExclusive_example = Reach-IsExclusive read_once read_once-Reach

Reach-release_read_test :
    (woken : List ℕ) × (lock' : Rwlock) × (rwlock_release_read none_dead
        (record unused { readers = 1 })
      ≡ some (woken, lock'))
    × (lock'.readers ≡ 0)
Reach-release_read_test = Reach-release_read read_once none_dead read_once-Reach (omega arith)

release_write-wakes_readers_test :
    rwlock_release_write none_dead (record busy { write_waiters = 0; write_q = [] }) ≡ (
      4 ∷ 5 ∷ [],
      record busy { writer_active = false; write_waiters = 0; read_q = []; write_q = [] },
    )
release_write-wakes_readers_test =
    release_write-wakes_readers none_dead (record busy { write_waiters = 0; write_q = [] }) refl

release_write-wakes_writer_test :
    let (woken, lock') = rwlock_release_write none_dead busy in
    (woken ≡ 6 ∷ [])
    × (living none_dead lock'.write_q ≡ [])
    × (lock'.writer_active ≡ false)
    × (lock'.read_q ≡ 4 ∷ 5 ∷ [])
release_write-wakes_writer_test = release_write-wakes_writer none_dead busy 6 [] refl refl

release_write-strands_readers_test :
    let (woken, lock') = rwlock_release_write six_dead busy in
    (woken ≡ [])
    × (lock'.writer_active ≡ false)
    × (lock'.write_waiters ≡ 0)
    × (lock'.write_q ≡ [])
    × (lock'.read_q ≡ 4 ∷ 5 ∷ [])
release_write-strands_readers_test =
    release_write-strands_readers six_dead busy (omega arith) refl refl
