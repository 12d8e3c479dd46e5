-- ===== src/Kom/Event.antt =====
-- archs/kom/common/kevent.cpp and kevent.hpp: an event that tasks wait for.
pub mod Signals
mod Tests
use singularity.Common.{ℕ, Bool, true, false, not, Option, none, some, if◌then◌else◌, List, [], ◌∷◌}
use singularity.Sync.WaitQueue.{wait_queue_push, wait_queue_pop_safe}

pub record KEvent : Type 0 where
  pub signaled : Bool
  pub auto_reset : Bool
  pub wait_q : List ℕ

abbrev pub new_event : Bool → KEvent
new_event auto_reset = record { signaled = false; auto_reset = auto_reset; wait_q = [] }

-- A round of `wait`. `true`: it returns. `false`: the task blocks and then makes another round.
unfoldable pub wait_round : KEvent → ℕ → Bool × KEvent
wait_round e proc =
    if e.signaled
    then (true, record e { signaled = if e.auto_reset then false else e.signaled })
    else (false, record e { wait_q = wait_queue_push e.wait_q proc })

unfoldable pub signal : (ℕ → Bool) → KEvent → Option ℕ × KEvent
signal is_dead e =
    let (next, _, rest) = wait_queue_pop_safe is_dead e.wait_q in
    (next, record e { signaled = true; wait_q = rest })

abbrev pub reset : KEvent → KEvent
reset e = record e { signaled = false }
