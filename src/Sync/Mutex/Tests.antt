-- ===== src/Sync/Mutex/Tests.antt =====
-- A mutex that task 3 locks, and a semaphore with one unit.
use singularity.Common.{◌+◌, ◌≡◌, refl, false, some, [], ◌∷◌, ◌++◌}
use singularity.Sync.WaitQueue.{living, to_list, wait_queue_pop_safe}
use singularity.Sync.Mutex.{
  Mutex, mutex_create, mutex_lock, mutex_unlock, Semaphore, sem_create, sem_wait, sem_signal,
}
use singularity.Sync.Mutex.Exclusion.{
  Held, IsOwned, Held-IsOwned, Counted, Counted-balance, unlock-wakes_first,
}

abbrev opened : Mutex
opened = record { locked = 0; wait_q = [] }

abbrev taken : Mutex
taken = record { locked = 1; wait_q = [] }

abbrev contended : Mutex
contended = record { locked = 1; wait_q = 4 ∷ [] }

contended-Held : Held contended (3 ∷ [])
unfolding mutex_create mutex_lock
contended-Held = Held.blocks 4 contended (Held.locks 3 taken (Held.created opened refl) refl) refl

unlock_test : mutex_unlock (λ _. false) contended ≡ (some 4, opened)
unfolding mutex_unlock wait_queue_pop_safe
unlock_test = refl

Held-IsOwned_example : IsOwned contended (3 ∷ [])
Held-IsOwned_example = Held-IsOwned contended (3 ∷ []) contended-Held

abbrev one_unit : Semaphore
one_unit = record { count = 1; wait_q = [] }

abbrev no_unit : Semaphore
no_unit = record { count = 0; wait_q = [] }

no_unit-Counted : Counted 1 no_unit 0 1
unfolding sem_create sem_wait
no_unit-Counted = Counted.passes 3 no_unit (Counted.created one_unit refl) refl

Counted-balance_test : 1 + no_unit.count ≡ 1 + 0
Counted-balance_test = Counted-balance 1 no_unit 0 1 no_unit-Counted

unlock-wakes_first_test :
    let (next, m') = mutex_unlock (λ _. false) contended in
    let (next', s') = sem_signal (λ _. false) no_unit in
    (4 ∷ [] ≡ to_list next ++ living (λ _. false) m'.wait_q)
    × ([] ≡ to_list next' ++ living (λ _. false) s'.wait_q)
unlock-wakes_first_test = unlock-wakes_first (λ _. false) contended no_unit
