-- ===== src/Kom/Event/Tests.antt =====
-- Events that are signalled while tasks 4 and 5 wait.
use singularity.Common.{ℕ, ◌≤◌, ◌≡◌, refl, Bool, true, false, some, List, [], ◌∷◌}
use singularity.Sync.WaitQueue.{living}
use singularity.Kom.Event.{KEvent, wait_round, signal, reset}
use singularity.Kom.Event.Signals.{
  Call, waits, signals_it, run, step, start, passes-le-signals, wait-signal, signal-strands,
}

abbrev none_dead : ℕ → Bool
none_dead _ = false

abbrev calls : List Call
calls = waits 4 ∷ signals_it none_dead ∷ waits 4 ∷ waits 5 ∷ []

run_test : (run (start true) calls).passes ≡ 1
unfolding run step wait_round signal
run_test = refl

passes-le-signals_test : (run (start true) calls).passes ≤ (run (start true) calls).signals
passes-le-signals_test = passes-le-signals calls

abbrev manual : KEvent
manual = record { signaled = false; auto_reset = false; wait_q = 4 ∷ 5 ∷ [] }

wait-signal_test :
    let e' = (signal none_dead manual).1 in
    let (returned, e'') = wait_round e' 6 in
    (returned ≡ true) × ((wait_round e'' 7).0 ≡ true) × ((wait_round (reset e'') 7).0 ≡ false)
wait-signal_test = wait-signal none_dead manual 6 7

signal-strands_test :
    let (woken, e') = signal none_dead manual in
    let (returned, e'') = wait_round e' 6 in
    (woken ≡ some 4)
    × (returned ≡ true)
    × (e''.signaled ≡ true)
    × (living none_dead e''.wait_q ≡ 5 ∷ [])
signal-strands_test = signal-strands none_dead manual 4 5 6 [] refl refl
