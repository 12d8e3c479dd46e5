-- ===== src/Kom/Event/Signals.antt =====
-- kevent.cpp: how many waits the signals of an event let through, and whom they wake.
use singularity.Common.{
  ℕ, ◌+◌, ◌≤◌, ◌≡◌, refl, Bool, true, false, not, some, arith, List, [], ◌∷◌, to_count, Bool-cases,
  inl, inr,
}
use singularity.Sync.WaitQueue.{living, pop-some}
use singularity.Kom.Event.{KEvent, new_event, wait_round, signal, reset}

-- An event, how often it was signalled and how many waits have returned.
pub record Scene : Type 0 where
  pub event : KEvent
  pub signals : ℕ
  pub passes : ℕ

pub data Call : Type 0 where
  waits : ℕ → Call
  signals_it : (ℕ → Bool) → Call
  resets : Call

unfoldable pub step : Scene → Call → Scene
step s (waits proc) =
    let (returned, e) = wait_round s.event proc in
    record s { event = e; passes = s.passes + to_count returned }
step s (signals_it is_dead) = record s {
  event = (signal is_dead s.event).1;
  signals = s.signals + 1;
}
step s resets = record s { event = reset s.event }

unfoldable pub run : Scene → List Call → Scene
run s [] = s
run s (c ∷ cs) = run (step s c) cs

abbrev pub start : Bool → Scene
start auto_reset = record { event = new_event auto_reset; signals = 0; passes = 0 }

-- Each wait that returned, and a signal that is still to be taken, go back to one signal each.
abbrev IsPaid : Scene → Type 0
IsPaid s = (s.event.auto_reset ≡ true) × (s.passes + to_count s.event.signaled ≤ s.signals)

step-IsPaid : (s : Scene) (c : Call) → IsPaid s → IsPaid (step s c)
unfolding step wait_round signal
step-IsPaid s (waits proc) (auto, paid) = elim (Bool-cases s.event.signaled) [
  | inl e ↦ ground arith
  | inr e ↦ ground arith
]
step-IsPaid s (signals_it is_dead) (auto, paid) = (auto, ground arith)
step-IsPaid s resets (auto, paid) = (auto, ground arith)

run-IsPaid : (s : Scene) (cs : List Call) → IsPaid s → IsPaid (run s cs)
unfolding run
run-IsPaid s [] v = v
run-IsPaid s (c ∷ cs) v = run-IsPaid (step s c) cs (step-IsPaid s c v)

-- However an event with automatic reset is used, no more waits return than it was signalled times.
pub passes-le-signals :
    (cs : List Call) → (run (start true) cs).passes ≤ (run (start true) cs).signals
passes-le-signals cs = omega (arith, run-IsPaid (start true) cs (refl, omega arith))

-- After `signal`, the next `wait` returns at once. With automatic reset the wait after that one
-- blocks; without it every wait returns until the event is reset.
pub wait-signal :
    (is_dead : ℕ → Bool) (e : KEvent) (proc proc' : ℕ)
    → let e' = (signal is_dead e).1 in
      let (returned, e'') = wait_round e' proc in
      (returned ≡ true)
      × ((wait_round e'' proc').0 ≡ not e.auto_reset)
      × ((wait_round (reset e'') proc').0 ≡ false)
unfolding signal wait_round
wait-signal is_dead e proc proc' = elim (Bool-cases e.auto_reset) [
  | inl a ↦ ground arith
  | inr a ↦ ground arith
]

-- With two living tasks `t` and `u` that wait, `signal` wakes only the first, also without automatic
-- reset: `u` then stays in the queue of an event on which every new wait returns.
pub signal-strands :
    (is_dead : ℕ → Bool) (e : KEvent) (t u proc : ℕ) (us : List ℕ)
    → e.auto_reset ≡ false
    → living is_dead e.wait_q ≡ t ∷ u ∷ us
    → let (woken, e') = signal is_dead e in
      let (returned, e'') = wait_round e' proc in
      (woken ≡ some t)
      × (returned ≡ true)
      × (e''.signaled ≡ true)
      × (living is_dead e''.wait_q ≡ u ∷ us)
unfolding signal wait_round
signal-strands is_dead e t u proc us manual waiting =
    let (found, left, _) = pop-some is_dead e.wait_q t (u ∷ us) waiting in
    (found, refl, ground arith, left)
