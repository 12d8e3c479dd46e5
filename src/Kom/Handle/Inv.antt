-- ===== src/Kom/Handle/Inv.antt =====
-- handle.cpp: the free list and the live entries share out the slots 1 to 4095, whatever is called.
use singularity.Common.{
  ℕ, zero, suc, ◌+◌, ◌-◌, ◌^◌, ◌<◌, ◌≡◌, refl, Bool, true, false, Option, none, some, arith, ◌==◌,
  update, count_below, count_below-update, Option-cases, inl, inr, count_below-none, Bool-cases,
}
use mathlib.Core.Option
use singularity.Kom.Handle.Cases.{live_object-eq_some, resolve-table, transfer_table}
use singularity.Kom.Handle.{
  HandleEntry, HandleTable, Kom, capacity, handle_idx, empty_entry, push_free, init_from, cleared,
  init, alloc, live_object, resolve, dup, next_generation, retire, close, transfer,
}

abbrev pub is_live : HandleEntry → Bool
is_live e = elim e.obj [ none ↦ false | some _ ↦ true ]

pub record Inv (t : HandleTable) : Type 0 where
  pub reserved : (t.entries 0).obj ≡ none
  pub free_slot :
      (i : ℕ)
      → i < t.freelist_top
      → (0 < t.freelist i) × (t.freelist i < capacity) × ((t.entries (t.freelist i)).obj ≡ none)
  pub distinct :
      (i j : ℕ) → i < t.freelist_top → j < t.freelist_top → t.freelist i ≡ t.freelist j → i ≡ j
  pub balance : t.freelist_top + count_below is_live t.entries capacity ≡ capacity - 1
  pub generations :
      (i : ℕ)
      → 0 < i
      → i < capacity
      → (0 < (t.entries i).generation) × ((t.entries i).generation < 2 ^ 16)
  pub rights : (i : ℕ) → (t.entries i).caps < 2 ^ 16

-- What `alloc` leaves when it succeeds.
abbrev pub taken : HandleTable → ℕ → ℕ → HandleTable
taken t o caps =
    let idx = t.freelist (t.freelist_top - 1) in
    record t {
      entries =
          update t.entries idx
            (record { obj = some o; caps = caps; generation = (t.entries idx).generation });
      freelist_top = t.freelist_top - 1;
    }

module _ (t : HandleTable) (v : Inv t) where
  abbrev top_slot : ℕ
  top_slot = t.freelist (t.freelist_top - 1)

  taken-Inv : (o caps : ℕ) → 0 < t.freelist_top → caps < 2 ^ 16 → Inv (taken t o caps)
  taken-Inv o caps h c =
      let free = v.free_slot (t.freelist_top - 1) (omega arith) in
      record {
        reserved = ground (arith, v.reserved);
        free_slot = λ i b. ground (
          arith,
          v.free_slot i (omega arith),
          v.distinct i (t.freelist_top - 1) (omega arith) (omega arith),
        );
        distinct = λ i j p q. v.distinct i j (omega arith) (omega arith);
        balance = ground (
          arith,
          v.balance,
          count_below-update is_live t.entries top_slot
              (record { obj = some o; caps = caps; generation = (t.entries top_slot).generation })
              capacity,
        );
        generations = λ i p q. ground (arith, v.generations i p q);
        rights = λ i. ground (arith, v.rights i);
      }

  pub retire-Inv :
      (idx o : ℕ) → 0 < idx → idx < capacity → (t.entries idx).obj ≡ some o → Inv (retire t idx)
  unfolding retire push_free next_generation
  retire-Inv idx o p q e =
      let freed = empty_entry (next_generation (t.entries idx).generation) in
      let counts = count_below-update is_live t.entries idx freed capacity q in
      let room : t.freelist_top < capacity - 1 = ground (arith, v.balance, counts) in
      record {
        reserved = ground (arith, v.reserved);
        free_slot = λ i b. ground (arith, v.free_slot i);
        distinct = λ i j a b. ground (arith, v.distinct i j, v.free_slot i, v.free_slot j);
        balance = ground (arith, v.balance, counts);
        generations = λ i a b. ground (arith, v.generations i a b);
        rights = λ i. ground (arith, v.rights i);
      }

  -- The write `freelist[freelist_top++]` of a handle that is live stays inside the array.
  pub retire_room :
      (idx o : ℕ) → idx < capacity → (t.entries idx).obj ≡ some o → t.freelist_top < capacity - 1
  retire_room idx o q e =
      ground (arith, v.balance, count_below-update is_live t.entries idx (empty_entry 0) capacity q)

pub alloc-Inv :
    (k : Kom) (obj : Option ℕ) (caps : ℕ)
    → Inv k.table
    → caps < 2 ^ 16
    → Inv (alloc k obj caps).1.table
unfolding alloc
alloc-Inv k none caps v c = v
alloc-Inv k (some o) caps v c = elim (Bool-cases (k.table.freelist_top == 0)) [
  | inl e ↦ rw e v
  | inr e ↦ rw e (taken-Inv k.table v o caps (ground arith) c)
]

pub dup-Inv : (k : Kom) (h caps : ℕ) → Inv k.table → caps < 2 ^ 16 → Inv (dup k h caps).1.table
unfolding dup
dup-Inv k h caps v c = elim (Option-cases (live_object k.table h)) [
  | inl e ↦ rw (e, dup) v
  | inr (o, e) ↦ rw (e, dup) (ground (arith, alloc-Inv k (some o) caps v c))
]

pub close-Inv : (k k' : Kom) (h : ℕ) → Inv k.table → close k h ≡ some k' → Inv k'.table
unfolding close
close-Inv k k' h v done = elim (Option-cases (live_object k.table h)) [
  | inl e ↦ ground arith
  | inr (o, e) ↦
      let (p, q, _, live) = live_object-eq_some k.table h o e in
      ground (arith, retire-Inv k.table v (handle_idx h) o p q live)
]

pub transfer-Inv :
    (k k' : Kom) (h h' : ℕ) → Inv k.table → transfer k h ≡ some (h', k') → Inv k'.table
unfolding transfer
transfer-Inv k k' h h' v done = elim (Option-cases (live_object k.table h)) [
  | inl e ↦ ground arith
  | inr (o, e) ↦
      let (p, q, _, live) = live_object-eq_some k.table h o e in
      let retired = retire-Inv k.table v (handle_idx h) o p q live in
      rw (transfer_table k k' h h' o e done)
        (alloc-Inv _ (some o) _ retired (v.rights (handle_idx h)))
]

-- What the loop of `init` has done when it reaches `n`.
pub record Filled (n : ℕ) (t : HandleTable) : Type 0 where
  pub top : t.freelist_top + n ≡ capacity - 1
  pub stack : (i : ℕ) → i < t.freelist_top → t.freelist i + i ≡ capacity - 1
  pub empty : (i : ℕ) → (t.entries i).obj ≡ none
  pub plain : (i : ℕ) → (t.entries i).caps ≡ 0
  pub first : (i : ℕ) → n < i → i < capacity → (t.entries i).generation ≡ 1

init_from-Filled : (n : ℕ) (t : HandleTable) → Filled n t → Filled 0 (init_from n t)
unfolding init_from push_free
init_from-Filled zero t v = v
init_from-Filled (suc n) t v = init_from-Filled n _ (record {
  top = ground (arith, v.top);
  stack = λ i b. ground (arith, v.top, v.stack i);
  empty = λ i. ground (arith, v.empty i, v.empty (suc n));
  plain = λ i. ground (arith, v.plain i, v.plain (suc n));
  first = λ i a b. ground (arith, v.first i);
})

cleared-Filled : (t : HandleTable) → Filled (capacity - 1) (cleared t)
cleared-Filled t = record {
  top = refl;
  stack = λ i b. elim b [ ];
  empty = λ i. refl;
  plain = λ i. refl;
  first = λ i a b. absurd (omega arith);
}

init-Filled : (t : HandleTable) → Filled 0 (init t)
unfolding init
init-Filled t = init_from-Filled (capacity - 1) (cleared t) (cleared-Filled t)

-- No slot of a filled table is live.
pub Filled-Inv : (t : HandleTable) → Filled 0 t → Inv t
Filled-Inv t f = record {
  reserved = f.empty 0;
  free_slot = λ i b. (omega (arith, f.stack i b, f.top), omega (arith, f.stack i b), f.empty _);
  distinct = λ i j p q e. omega (arith, f.stack i p, f.stack j q, e);
  balance = omega (
    arith,
    f.top,
    count_below-none is_live t.entries capacity (λ i b. ground (arith, f.empty i)),
  );
  generations = λ i p q. ground (arith, f.first i p q);
  rights = λ i. ground (arith, f.plain i);
}

-- `init` leaves a well-formed table, whatever the memory held.
pub init-Inv : (t : HandleTable) → Inv (init t)
init-Inv t = Filled-Inv (init t) (init-Filled t)

-- A call on the table by some thread.
pub data Call : Type 0 where
  allocs : Option ℕ → ℕ → Call
  resolves dups : ℕ → ℕ → Call
  closes transfers : ℕ → Call

-- The rights that a call passes are a `uint16_t`.
abbrev pub InRange : Call → Type 0
InRange (allocs o caps) = caps < 2 ^ 16
InRange (resolves h req) = req < 2 ^ 16
InRange (dups h caps) = caps < 2 ^ 16
InRange (closes h) = Unit {0}
InRange (transfers h) = Unit {0}

-- `none` is a panic.
unfoldable pub step : Kom → Call → Option Kom
step k (allocs o caps) = some (alloc k o caps).1
step k (resolves h req) = some (resolve k h req).1
step k (dups h caps) = some (dup k h caps).1
step k (closes h) = close k h
step k (transfers h) = Option.map (λ (r : ℕ × Kom). r.1) (transfer k h)

-- Every call with rights that are a `uint16_t` and that does not panic keeps the table well-formed: the free list holds
-- each empty slot once and no other, no slot's generation is 0, and all fields stay in range.
pub step-Inv : (k k' : Kom) (c : Call) → InRange c → Inv k.table → step k c ≡ some k' → Inv k'.table
unfolding step
step-Inv k k' (allocs o caps) c v e = ground (arith, alloc-Inv k o caps v c)
step-Inv k k' (resolves h req) c v e = ground (arith, resolve-table k h req)
step-Inv k k' (dups h caps) c v e = ground (arith, dup-Inv k h caps v c)
step-Inv k k' (closes h) c v e = close-Inv k k' h v e
step-Inv k k' (transfers h) c v e = elim (Option-cases (transfer k h)) [
  | inl failed ↦ ground arith
  | inr ((h', _), done) ↦ transfer-Inv k k' h h' v (ground arith)
]
