-- ===== src/Sync/WaitQueue.antt =====
-- system/process/process.c: `wait_queue_t`, the tasks that block on one thing, in order.
-- A queue is a list of tasks; `is_dead` says which tasks are zombies or dead.
use singularity.Common.{
  ℕ, zero, suc, ◌+◌, ◌<◌, ◌≡◌, refl, Bool, Option, none, some, arith, if◌then◌else◌, List, [], ◌∷◌,
  ◌++◌, length, Bool-cases, inl, inr, ap, Option-cases,
}

abbrev pub wait_queue_push : List ℕ → ℕ → List ℕ
wait_queue_push q task = q ++ (task ∷ [])

-- The loop of `wait_queue_pop_safe`: the task, how many dead ones were skipped, and the queue.
unfoldable pub wait_queue_pop_safe : (ℕ → Bool) → List ℕ → Option ℕ × ℕ × List ℕ
wait_queue_pop_safe is_dead [] = (none, 0, [])
wait_queue_pop_safe is_dead (task ∷ q) =
    let (found, skipped, rest) = wait_queue_pop_safe is_dead q in
    if is_dead task then (found, skipped + 1, rest) else (some task, 0, q)

abbrev pub popped : Option ℕ → ℕ
popped none = 0
popped (some _) = 1

-- Tasks that can still run.
abbrev pub living : (ℕ → Bool) → List ℕ → List ℕ
living is_dead [] = []
living is_dead (t ∷ q) = if is_dead t then living is_dead q else t ∷ living is_dead q

abbrev pub to_list : Option ℕ → List ℕ
to_list none = []
to_list (some t) = t ∷ []

-- The task that is popped and those left in the queue are, in order, the living ones that waited.
pub pop-living :
    (is_dead : ℕ → Bool) (q : List ℕ)
    → let (found, _, rest) = wait_queue_pop_safe is_dead q in
      living is_dead q ≡ to_list found ++ living is_dead rest
unfolding wait_queue_pop_safe
pop-living is_dead [] = refl
pop-living is_dead (t ∷ q) = elim (Bool-cases (is_dead t)) [
  | inl e ↦ rw e (pop-living is_dead q)
  | inr e ↦ rw e refl
]

-- Only the task that is popped and those that were skipped leave the queue.
pub pop-length :
    (is_dead : ℕ → Bool) (q : List ℕ)
    → let (found, skipped, rest) = wait_queue_pop_safe is_dead q in
      popped found + skipped + length rest ≡ length q
unfolding wait_queue_pop_safe
pop-length is_dead [] = refl
pop-length is_dead (t ∷ q) = elim (Bool-cases (is_dead t)) [
  | inl e ↦ rw e (omega (arith, pop-length is_dead q))
  | inr e ↦ rw e (omega arith)
]

-- A queue of dead tasks only is emptied and gives none.
pub pop-none :
    (is_dead : ℕ → Bool) (q : List ℕ)
    → living is_dead q ≡ []
    → wait_queue_pop_safe is_dead q ≡ (none, length q, [])
unfolding wait_queue_pop_safe
pop-none is_dead [] h = refl
pop-none is_dead (t ∷ q) h = elim (Bool-cases (is_dead t)) [
  | inl e ↦ ground (arith, pop-none is_dead q)
  | inr e ↦ ground arith
]

-- The first living task is popped, and the other living ones stay.
pub pop-some :
    (is_dead : ℕ → Bool) (q : List ℕ) (t : ℕ) (ts : List ℕ)
    → living is_dead q ≡ t ∷ ts
    → let (found, _, rest) = wait_queue_pop_safe is_dead q in
      (found ≡ some t) × (living is_dead rest ≡ ts) × (0 < length q)
unfolding wait_queue_pop_safe
pop-some is_dead [] t ts h = absurd (ground arith)
pop-some is_dead (x ∷ q) t ts h = elim (Bool-cases (is_dead x)) [
  | inl e ↦ let rest = pop-some is_dead q t ts (ground arith) in rw e (rest.0, rest.1, omega arith)
  | inr e ↦ ground arith
]

-- The loop of `rwlock_release_write` and of `~KPort` that pops and wakes until none is left. A round
-- that goes on takes a task off the queue, so more fuel than its length is enough.
unfoldable pub wake_all : ℕ → (ℕ → Bool) → List ℕ → List ℕ × List ℕ
wake_all zero is_dead q = ([], q)
wake_all (suc fuel) is_dead q =
    let (r, _, rest) = wait_queue_pop_safe is_dead q in
    let (woken, left) = wake_all fuel is_dead rest in
    elim r [ none ↦ ([], rest) | some task ↦ (task ∷ woken, left) ]

pop-rest :
    (is_dead : ℕ → Bool) (q : List ℕ)
    → (wait_queue_pop_safe is_dead q).0 ≡ none
    → (wait_queue_pop_safe is_dead q).2 ≡ []
unfolding wait_queue_pop_safe
pop-rest is_dead [] h = refl
pop-rest is_dead (t ∷ q) h = elim (Bool-cases (is_dead t)) [
  | inl e ↦ ground (arith, pop-rest is_dead q)
  | inr e ↦ ground arith
]

-- The loop wakes every living task, in order, and empties the queue.
pub wake_all-living :
    (fuel : ℕ) (is_dead : ℕ → Bool) (q : List ℕ)
    → length q < fuel
    → wake_all fuel is_dead q ≡ (living is_dead q, [])
unfolding wake_all
wake_all-living zero is_dead q h = absurd (omega arith)
wake_all-living (suc fuel) is_dead q h =
    let pop = wait_queue_pop_safe is_dead q in
    let fewer = pop-length is_dead q in
    elim (Option-cases pop.0) [
      | inl e ↦
          let rest = pop-rest is_dead q e in
          let l = pop-living is_dead q in grind (arith, e, rest, l)
      | inr (t, e) ↦
          let l = pop-living is_dead q in
          let some_left : popped pop.0 ≡ 1 = ap popped e in
          let ih = wake_all-living fuel is_dead pop.2 (omega arith) in grind (arith, e, ih, l)
    ]
