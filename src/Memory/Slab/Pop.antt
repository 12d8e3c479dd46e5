-- ===== src/Memory/Slab/Pop.antt =====
-- kheap_slab.cpp: `alloc` takes the first free object of a slab.
use singularity.Common.{
  ℕ, ◌+◌, ◌*◌, ◌^◌, ◌<◌, ◌≡◌, ◌≢◌, refl, true, false, ◌||◌, some, arith, ◌==◌, ltb, leb,
  if◌then◌else◌, List, [], ◌∷◌, length, update, All, All-zip, Distinct, ap, inl, inr, ◌⊎◌,
  Bool-cases, ◌∙◌, ==_self, subst, sym,
}
use singularity.Memory.Arena.{page_size}
use singularity.Memory.Words.{Memory, load}
use singularity.Memory.Slab.{Slab, Store, slab_of, pop, remove_slab, to_u16}
use singularity.Memory.Slab.Sound.{
  IsSlot, Chain, IsSlab, IsPartial, IsFull, IsEmpty, IsSound, IsLive, slab_of-range,
}

-- A slab `s` at the head of the partial list with an object to give; nothing is said of its own place
-- among the counters, which `alloc` may just have moved it past.
pub record IsReady (t : Store) (free : ℕ → List ℕ) (s : ℕ) (rest : List ℕ) : Type 0 where
  pub first : t.cache.partial ≡ s ∷ rest
  pub good : IsSlab t.cache.obj_size t.memory (t.slabs s) s (free s)
  pub room : (t.slabs s).used_count < (t.slabs s).total_count
  pub partial : All (IsPartial t free) rest
  pub full : All (IsFull t free) t.cache.full
  pub empty : All (IsEmpty t free) t.cache.empty
  pub not_rest : All (λ x. x ≢ s) rest
  pub not_full : All (λ x. x ≢ s) t.cache.full
  pub not_empty : All (λ x. x ≢ s) t.cache.empty
  pub partial_once : Distinct rest
  pub full_once : Distinct t.cache.full
  pub empty_once : Distinct t.cache.empty

-- The slab after its first free object is taken.
abbrev pub taken_from : Slab → ℕ → Slab
taken_from slab next = record slab { free_list = next; used_count = to_u16 (slab.used_count + 1) }

abbrev pub after_pop : Store → ℕ → ℕ → List ℕ → Store
after_pop t s next rest = record t {
  slabs = update t.slabs s (taken_from (t.slabs s) next);
  cache = record t.cache {
    partial = if next == 0 then rest else t.cache.partial;
    full = if next == 0 then s ∷ t.cache.full else t.cache.full;
  };
}

-- A slab with room has a free object.
has_free :
    (obj_size : ℕ) (m : Memory) (slab : Slab) (s : ℕ) (free : List ℕ)
    → IsSlab obj_size m slab s free
    → slab.used_count < slab.total_count
    → (x : ℕ) × (xs : List ℕ) × (free ≡ x ∷ xs)
has_free obj_size m slab s [] v room = absurd (omega (arith, v.counted))
has_free obj_size m slab s (x ∷ xs) v room = (x, xs, refl)

taken-IsSlab :
    (obj_size : ℕ) (m : Memory) (slab : Slab) (s x : ℕ) (xs : List ℕ)
    → IsSlab obj_size m slab s (x ∷ xs)
    → IsSlab obj_size m (taken_from slab (load m x)) s xs
taken-IsSlab obj_size m slab s x xs v = record {
  pages = v.pages;
  counted = omega (arith, v.counted, v.bounded);
  positive = v.positive;
  bounded = v.bounded;
  chain = v.chain.1;
  slots = v.slots.1;
  distinct = v.distinct.1;
}

-- The next word of the chain is null exactly at its end.
next_null :
    (obj_size : ℕ) (m : Memory) (s h : ℕ) (xs : List ℕ)
    → Chain m h xs
    → All (IsSlot obj_size s) xs
    → ((h == 0) ≡ true → xs ≡ []) × ((h == 0) ≡ false → 0 < length xs)
next_null obj_size m s h [] chain slots = (λ e. refl, λ e. ground arith)
next_null obj_size m s h (x ∷ xs) chain slots =
    (λ e. absurd (ground (arith, chain.0, slots.0.not_null)), λ e. omega arith)

pop-eq :
    (t : Store) (free : ℕ → List ℕ) (s x : ℕ) (rest xs : List ℕ)
    → IsReady t free s rest
    → free s ≡ x ∷ xs
    → pop t s ≡ some (x, after_pop t s (load t.memory x) rest)
unfolding pop remove_slab
pop-eq t free s x rest xs v e =
    let good = rw e at v.good in
    let first : (t.slabs s).free_list ≡ x = good.chain.0 in
    let (lo, hi) = slab_of-range t.cache.obj_size x in
    let null : ((t.slabs s).free_list == 0) ≡ false = ground (arith, good.slots.0.not_null) in
    let range : (ltb (t.slabs s).free_list s
          || leb (s + (t.slabs s).page_count * page_size) (t.slabs s).free_list)
        ≡ false =
      ground (arith, good.slots.0.inside, good.pages) in
    let removed : remove_slab s t.cache.partial ≡ rest =
      ap (remove_slab s) v.first ∙ rw (==_self s) refl in
    rw null (rw range (rw (first, removed) refl))

module _ (t : Store) (free : ℕ → List ℕ) (s : ℕ) (rest : List ℕ) (v : IsReady t free s rest) (x : ℕ)
    (xs : List ℕ) (e : free s ≡ x ∷ xs) where
  abbrev next : Store
  next = after_pop t s (load t.memory x) rest

  abbrev free' : ℕ → List ℕ
  free' = update free s xs

  -- The other slabs are as they were.
  Partial-kept : (y : ℕ) → IsPartial t free y → y ≢ s → IsPartial next free' y
  Partial-kept y p ne = let apart : (s == y) ≡ false = ground arith in rw apart p

  Full-kept : (y : ℕ) → IsFull t free y → y ≢ s → IsFull next free' y
  Full-kept y p ne = let apart : (s == y) ≡ false = ground arith in rw apart p

  Empty-kept : (y : ℕ) → IsEmpty t free y → y ≢ s → IsEmpty next free' y
  Empty-kept y p ne = let apart : (s == y) ≡ false = ground arith in rw apart p

  -- The slab itself, which is full exactly when the chain is at its end.
  good' : IsSlab t.cache.obj_size t.memory (next.slabs s) s (free' s)
  good' =
      rw (==_self s) (taken-IsSlab t.cache.obj_size t.memory (t.slabs s) s x xs (rw e at v.good))

  counts' :
      ((next.slabs s).used_count ≡ (t.slabs s).used_count + 1)
      × ((next.slabs s).total_count ≡ (t.slabs s).total_count)
      × (length xs + (t.slabs s).used_count + 1 ≡ (t.slabs s).total_count)
  counts' =
      let good = rw e at v.good in
      let bound : (t.slabs s).used_count + 1 < 2 ^ 16 = omega (arith, v.room, good.bounded) in
      (ground (arith, bound), ground arith, omega (arith, good.counted))

  others-kept :
      All (IsPartial next free') rest
      × All (IsFull next free') t.cache.full
      × All (IsEmpty next free') t.cache.empty
  others-kept = (
    All-zip rest Partial-kept v.partial v.not_rest,
    All-zip t.cache.full Full-kept v.full v.not_full,
    All-zip t.cache.empty Empty-kept v.empty v.not_empty,
  )

  pub after_pop-IsSound : IsSound next free'
  after_pop-IsSound =
      let good = rw e at v.good in
      let (used, total, left) = counts' in
      let (partial, full, empty) = others-kept in
      let (ends, goes_on) =
        next_null t.cache.obj_size t.memory s (load t.memory x) xs good.chain.1 good.slots.1 in
      elim (Bool-cases (load t.memory x == 0)) [
        | inl null ↦
            let none_left = ap length (ends null) in
            let partial_is = ap (λ b. if b then rest else t.cache.partial) null in
            let full_is = ap (λ b. if b then s ∷ t.cache.full else t.cache.full) null in
            record {
              partial = subst (All (IsPartial next free')) (sym partial_is) partial;
              full =
                  subst (All (IsFull next free')) (sym full_is)
                    ((good', omega (arith, used, total, left, none_left)), full);
              empty = empty;
              partial_once = subst Distinct (sym partial_is) v.partial_once;
              full_once = subst Distinct (sym full_is) (v.not_full, v.full_once);
              empty_once = v.empty_once;
            }
        | inr more ↦
            let some_left = goes_on more in
            let partial_is = ap (λ b. if b then rest else t.cache.partial) more ∙ v.first in
            let full_is = ap (λ b. if b then s ∷ t.cache.full else t.cache.full) more in
            record {
              partial = subst (All (IsPartial next free')) (sym partial_is) (
                (good', omega (arith, used), omega (arith, used, total, left, some_left)),
                partial,
              );
              full = subst (All (IsFull next free')) (sym full_is) full;
              empty = empty;
              partial_once = subst Distinct (sym partial_is) (v.not_rest, v.partial_once);
              full_once = subst Distinct (sym full_is) v.full_once;
              empty_once = v.empty_once;
            }
      ]

  self_owner : (IsPartial next free' s) ⊎ (IsFull next free' s)
  self_owner =
      let (used, total, left) = counts' in
      elim (Bool-cases (length xs == 0)) [
        | inl none_left ↦ inr (good', ground (arith, used, total, left, none_left))
        | inr more ↦ inl (good', omega (arith, used), ground (arith, used, total, left, more))
      ]

  pub taken-IsLive : IsLive next free' s x
  taken-IsLive =
      let good = rw e at v.good in
      record { slot = good.slots.0; owner = self_owner; taken = rw (==_self s) good.distinct.0 }

  -- What was handed out stays so, and it is not what is given now.
  pub live-kept : (s' y : ℕ) → IsLive t free s' y → IsLive next free' s' y × (y ≢ x)
  live-kept s' y live = elim (Bool-cases (s' == s)) [
    | inl same ↦
        let at : s' ≡ s = ground arith in
        let taken : All (λ z. z ≢ y) (x ∷ xs) =
          subst (All (λ z. z ≢ y)) (ap free at ∙ e) live.taken in
        (
          record {
            slot = live.slot;
            owner =
                subst (λ k. (IsPartial next free' k) ⊎ (IsFull next free' k)) (sym at) self_owner;
            taken = subst (λ k. All (λ z. z ≢ y) (free' k)) (sym at) (rw (==_self s) taken.1);
          },
          λ (h : y ≡ x). taken.0 (sym h),
        )
    | inr apart ↦
        let ne : s' ≢ s = ground arith in
        let other : (s == s') ≡ false = ground arith in
        let x_slot = (rw e at v.good).slots.0 in
        (
          record {
            slot = live.slot;
            owner = elim live.owner [
              | inl p ↦ inl (Partial-kept s' p ne)
              | inr p ↦ inr (Full-kept s' p ne)
            ];
            taken = rw other live.taken;
          },
          λ (h : y ≡ x).
              ne (sym live.slot.inside ∙ ap (slab_of t.cache.obj_size) h ∙ x_slot.inside),
        )
  ]

-- What a successful `alloc` from the slab `s` leaves.
pub record IsGiven (t : Store) (free : ℕ → List ℕ) (s x : ℕ) (xs : List ℕ) (t' : Store)
    : Type 0 where
  pub was_free : free s ≡ x ∷ xs
  pub sound : IsSound t' (update free s xs)
  pub live : IsLive t' (update free s xs) s x
  pub kept : (s' y : ℕ) → IsLive t free s' y → IsLive t' (update free s xs) s' y × (y ≢ x)

-- A slab that is ready gives its first free object, and the cache stays sound.
pub pop-IsGiven :
    (t : Store) (free : ℕ → List ℕ) (s : ℕ) (rest : List ℕ)
    → IsReady t free s rest
    → (x : ℕ) × (xs : List ℕ) × (t' : Store) × (pop t s ≡ some (x, t')) × IsGiven t free s x xs t'
pop-IsGiven t free s rest v =
    let (x, xs, e) = has_free t.cache.obj_size t.memory (t.slabs s) s (free s) v.good v.room in
    (
      x,
      xs,
      after_pop t s (load t.memory x) rest,
      pop-eq t free s x rest xs v e,
      record {
        was_free = e;
        sound = after_pop-IsSound t free s rest v x xs e;
        live = taken-IsLive t free s rest v x xs e;
        kept = live-kept t free s rest v x xs e;
      },
    )
