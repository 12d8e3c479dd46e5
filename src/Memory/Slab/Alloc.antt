-- ===== src/Memory/Slab/Alloc.antt =====
-- kheap_slab.cpp: `alloc` keeps the cache sound and gives an object that was free.
use singularity.Common.{
  ℕ, ◌<◌, ◌≡◌, ◌≢◌, refl, none, some, arith, List, [], ◌∷◌, All, All-map, Distinct, ap, subst, inl,
  inr, ◌⊎◌,
}
use singularity.Memory.Slab.{Store, alloc_cached}
use singularity.Memory.Slab.Sound.{IsPartial, IsFull, IsEmpty, IsSound, IsLive}
use singularity.Memory.Slab.Pop.{IsReady, IsGiven, pop-IsGiven}

List-cases {ℓ} :
    {A : Type ℓ} (xs : List A) → (xs ≡ []) ⊎ ((x : A) × (rest : List A) × (xs ≡ x ∷ rest))
List-cases [] = inl refl
List-cases (x ∷ rest) = inr (x, rest, refl)

-- The counters tell a slab of one list from those of the others.
pub full-ne_partial :
    (t : Store) (free : ℕ → List ℕ) (s x : ℕ)
    → (t.slabs s).used_count < (t.slabs s).total_count
    → IsFull t free x
    → x ≢ s
full-ne_partial t free s x room p e =
    let same = p.1 in
    omega (
      arith,
      room,
      same,
      ap (λ (y : ℕ). (t.slabs y).used_count) e,
      ap (λ (y : ℕ). (t.slabs y).total_count) e,
    )

pub empty-ne_used :
    (t : Store) (free : ℕ → List ℕ) (s x : ℕ)
    → 0 < (t.slabs s).used_count
    → IsEmpty t free x
    → x ≢ s
empty-ne_used t free s x used p e =
    omega (arith, used, p.1, ap (λ (y : ℕ). (t.slabs y).used_count) e)

module _ (t : Store) (free : ℕ → List ℕ) (v : IsSound t free) where
  IsReady-partial : (s : ℕ) (rest : List ℕ) → t.cache.partial ≡ s ∷ rest → IsReady t free s rest
  IsReady-partial s rest e =
      let partial = subst (All (IsPartial t free)) e v.partial in
      let (once, rest_once) = subst Distinct e v.partial_once in
      record {
        first = e;
        good = partial.0.0;
        room = partial.0.2;
        partial = partial.1;
        full = v.full;
        empty = v.empty;
        not_rest = once;
        not_full =
            All-map t.cache.full
              (λ (x : ℕ) (p : IsFull t free x). full-ne_partial t free s x partial.0.2 p) v.full;
        not_empty =
            All-map t.cache.empty
              (λ (x : ℕ) (p : IsEmpty t free x). empty-ne_used t free s x partial.0.1 p) v.empty;
        partial_once = rest_once;
        full_once = v.full_once;
        empty_once = v.empty_once;
      }

  -- The empty slab that `alloc` moves to the partial list.
  abbrev moved : ℕ → List ℕ → Store
  moved s rest = record t { cache = record t.cache { empty = rest; partial = s ∷ [] } }

  moved-IsLive :
      (s : ℕ) (rest : List ℕ) (s' y : ℕ) → IsLive t free s' y → IsLive (moved s rest) free s' y
  moved-IsLive s rest s' y l = record { slot = l.slot; owner = l.owner; taken = l.taken }

  IsReady-empty :
      (s : ℕ) (rest : List ℕ) → t.cache.empty ≡ s ∷ rest → IsReady (moved s rest) free s []
  IsReady-empty s rest e =
      let empty = subst (All (IsEmpty t free)) e v.empty in
      let (once, rest_once) = subst Distinct e v.empty_once in
      let room : (t.slabs s).used_count < (t.slabs s).total_count =
        omega (arith, empty.0.1, empty.0.0.positive) in
      record {
        first = refl;
        good = empty.0.0;
        room = room;
        partial = tt;
        full = v.full;
        empty = empty.1;
        not_rest = tt;
        not_full =
            All-map t.cache.full
              (λ (x : ℕ) (p : IsFull t free x). full-ne_partial t free s x room p) v.full;
        not_empty = once;
        partial_once = tt;
        full_once = v.full_once;
        empty_once = rest_once;
      }

  -- If a slab is partial or empty, `alloc` succeeds: it gives an object that was free in its slab,
  -- that is no longer free, and that differs from all objects that were handed out before, which stay
  -- handed out; the cache stays sound. Only otherwise it has to make a slab.
  pub alloc_cached-IsGiven :
      ((alloc_cached t ≡ none) × (t.cache.partial ≡ []) × (t.cache.empty ≡ []))
      ⊎ ((s : ℕ) × (x : ℕ) × (xs : List ℕ) × (t' : Store) × (alloc_cached t ≡ some (some (x, t')))
          × IsGiven t free s x xs t')
  unfolding alloc_cached
  alloc_cached-IsGiven = elim (List-cases t.cache.partial) [
    | inr (s, rest, e) ↦
        let (x, xs, t', done, given) = pop-IsGiven t free s rest (IsReady-partial s rest e) in
        inr (s, x, xs, t', rw (e, alloc_cached) (ap some done), given)
    | inl e ↦ elim (List-cases t.cache.empty) [
      | inr (s, rest, e') ↦
          let (x, xs, t', done, given) =
            pop-IsGiven (moved s rest) free s [] (IsReady-empty s rest e') in
          inr (
            s,
            x,
            xs,
            t',
            rw (e, alloc_cached) (rw (e', alloc_cached) (ap some done)),
            record {
              was_free = given.was_free;
              sound = given.sound;
              live = given.live;
              kept = λ s' y l. given.kept s' y (moved-IsLive s rest s' y l);
            },
          )
      | inl e' ↦ inl (rw (e, alloc_cached) (rw e' refl), e, e')
    ]
  ]
