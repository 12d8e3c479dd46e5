-- ===== src/Kom/Handle/Generations.antt =====
-- handle.cpp: the generation of a slot, which tells a closed handle from the slot's next user.
use singularity.Common.{
  ℕ, ◌+◌, ◌-◌, ◌%◌, ◌^◌, ◌≤◌, ◌<◌, ◌≡◌, refl, Option, none, some, arith, ◌⊎◌, ◌==◌, if◌then◌else◌,
  Option-cases, inl, inr, ◌≢◌, ap, ◌∙◌, List, [], ◌∷◌, length,
}
use singularity.Kom.Handle.Cases.{
  live_object-eq_some, resolve-table, close_cases, dup_cases, transfer_cases, retired,
}
use singularity.Kom.Handle.{
  HandleTable, Kom, handle_idx, handle_gen, alloc, live_object, next_generation, push_free, retire,
  close, transfer,
}
use singularity.Kom.Handle.Inv.{Inv, Call, allocs, resolves, dups, closes, transfers, step}

abbrev pub generation_at : HandleTable → ℕ → ℕ
generation_at t i = (t.entries i).generation

pub generation-alloc :
    (k : Kom) (obj : Option ℕ) (caps i : ℕ)
    → generation_at (alloc k obj caps).1.table i ≡ generation_at k.table i
unfolding alloc
generation-alloc k none caps i = refl
generation-alloc k (some o) caps i = ground arith

pub generation-retire :
    (t : HandleTable) (idx i : ℕ)
    → generation_at (retire t idx) i
      ≡ (if idx == i then next_generation (generation_at t i) else generation_at t i)
unfolding retire push_free
generation-retire t idx i = ground arith

pub live_object-eq_none :
    (t : HandleTable) (h : ℕ)
    → generation_at t (handle_idx h) ≢ handle_gen h
    → live_object t h ≡ none
unfolding live_object
live_object-eq_none t h ne = ground arith

pub next_generation-ne : (g : ℕ) → g < 2 ^ 16 → next_generation g ≢ g
unfolding next_generation
next_generation-ne g h = ground arith

-- The slot of a handle that was live, once it is retired.
pub generation-retire_ne :
    (t : HandleTable) (h o : ℕ)
    → Inv t
    → live_object t h ≡ some o
    → generation_at (retire t (handle_idx h)) (handle_idx h) ≢ handle_gen h
generation-retire_ne t h o v e =
    let (lo, hi, same, _) = live_object-eq_some t h o e in
    ground (
      arith,
      generation-retire t (handle_idx h) (handle_idx h),
      next_generation-ne (generation_at t (handle_idx h)),
      v.generations (handle_idx h) lo hi,
    )

-- `m` steps along the cycle of the generations 1 to 65535.
abbrev pub advanced : ℕ → ℕ → ℕ
advanced g m = (g - 1 + m) % (2 ^ 16 - 1) + 1

next_generation-eq-advanced : (g m : ℕ) → next_generation (advanced g m) ≡ advanced g (m + 1)
unfolding next_generation
next_generation-eq-advanced g m = ground arith

-- No call moves the generation of a slot by more than one step.
generation-step :
    (k k' : Kom) (c : Call) (i : ℕ)
    → step k c ≡ some k'
    → (generation_at k'.table i ≡ generation_at k.table i)
      ⊎ (generation_at k'.table i ≡ next_generation (generation_at k.table i))
unfolding step
generation-step k k' (allocs o caps) i e = ground (arith, generation-alloc k o caps i)
generation-step k k' (resolves h req) i e = ground (arith, resolve-table k h req)
generation-step k k' (dups h caps) i e = elim (dup_cases k h caps) [
  | inl failed ↦ ground arith
  | inr (o, _, _, made) ↦ ground (arith, generation-alloc k (some o) caps i)
]
generation-step k k' (closes h) i e =
    ground (arith, close_cases k k' h e, generation-retire k.table (handle_idx h) i)
generation-step k k' (transfers h) i e = elim (Option-cases (transfer k h)) [
  | inl failed ↦ ground arith
  | inr ((h', made), done) ↦ elim (transfer_cases k made h h' done) [
    | inl (_, same) ↦ ground arith
    | inr (o, _, table) ↦ ground (
      arith,
      generation-alloc (retired k h o) (some o) (k.table.entries (handle_idx h)).caps i,
      generation-retire k.table (handle_idx h) i,
    )
  ]
]

-- The calls of a list in turn, up to a panic.
unfoldable pub run : Kom → List Call → Option Kom
run k [] = some k
run k (c ∷ cs) = elim (step k c) [ none ↦ none | some k' ↦ run k' cs ]

-- The slot of `h` has gone between 1 and `m` steps beyond the generation in `h`.
record Beyond (h m : ℕ) (t : HandleTable) : Type 0 where
  steps : ℕ
  moved : 0 < steps
  few : steps ≤ m
  now : generation_at t (handle_idx h) ≡ advanced (handle_gen h) steps

Beyond-step :
    (h m : ℕ) (k k' : Kom) (c : Call)
    → step k c ≡ some k'
    → Beyond h m k.table
    → Beyond h (m + 1) k'.table
Beyond-step h m k k' c e b = elim (generation-step k k' c (handle_idx h) e) [
  | inl same ↦ record {
    steps = b.steps;
    moved = b.moved;
    few = omega (arith, b.few);
    now = same ∙ b.now;
  }
  | inr next ↦ record {
    steps = b.steps + 1;
    moved = omega arith;
    few = omega (arith, b.few);
    now = next ∙ ap next_generation b.now ∙ next_generation-eq-advanced (handle_gen h) b.steps;
  }
]

Beyond-run :
    (h m : ℕ) (k k' : Kom) (cs : List Call)
    → run k cs ≡ some k'
    → Beyond h m k.table
    → Beyond h (m + length cs) k'.table
unfolding run
Beyond-run h m k k' [] e b = ground (arith, b.few, b.now)
Beyond-run h m k k' (c ∷ cs) e b = elim (Option-cases (step k c)) [
  | inl failed ↦ ground arith
  | inr (next, done) ↦
      let last = Beyond-run h (m + 1) next k' cs (ground arith) (Beyond-step h m k next c done b) in
      record {
        steps = last.steps;
        moved = last.moved;
        few = omega (arith, last.few);
        now = last.now;
      }
]

Beyond-live_object :
    (h m : ℕ) (t : HandleTable)
    → 0 < handle_gen h
    → m < 2 ^ 16 - 1
    → Beyond h m t
    → live_object t h ≡ none
Beyond-live_object h m t pos small b =
    live_object-eq_none t h (λ same. absurd (omega (arith, b.now, b.few, b.moved, same)))

closed-Beyond :
    (k closed : Kom) (h o : ℕ)
    → Inv k.table
    → live_object k.table h ≡ some o
    → close k h ≡ some closed
    → Beyond h 1 closed.table
closed-Beyond k closed h o v live e =
    let (lo, hi, same, _) = live_object-eq_some k.table h o live in
    let (pos, small) = v.generations (handle_idx h) lo hi in
    record {
      steps = 1;
      moved = omega arith;
      few = omega arith;
      now = ground (
        arith,
        close_cases k closed h e,
        generation-retire k.table (handle_idx h) (handle_idx h),
        next_generation-eq-advanced (handle_gen h) 0,
      );
    }

-- In a well-formed table, a handle that was live when it was closed stays dead for the next 65,533
-- calls on the table, whoever makes them, if none of them panics.
pub closed_stays_dead :
    (k closed k' : Kom) (h o : ℕ) (cs : List Call)
    → Inv k.table
    → live_object k.table h ≡ some o
    → close k h ≡ some closed
    → length cs < 2 ^ 16 - 2
    → run closed cs ≡ some k'
    → live_object k'.table h ≡ none
closed_stays_dead k closed k' h o cs v live e few ran =
    let (lo, hi, same, _) = live_object-eq_some k.table h o live in
    let (pos, _) = v.generations (handle_idx h) lo hi in
    Beyond-live_object h (1 + length cs) k'.table (omega arith) (omega arith)
      (Beyond-run h 1 closed k' cs ran (closed-Beyond k closed h o v live e))
