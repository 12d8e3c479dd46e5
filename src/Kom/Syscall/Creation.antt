-- ===== src/Kom/Syscall/Creation.antt =====
-- kom_syscalls.cpp: a new object is handed over to the entry that is made for it.
use singularity.Common.{
  ℕ, ◌+◌, ◌^◌, ◌<◌, ◌≡◌, refl, Bool, some, arith, ◌==◌, inl, inr, update, Bool-cases, to_count, ◌≢◌,
}
use singularity.Kom.Object.{dropped, kobject_unref_pos}
use singularity.Kom.Handle.{Kom, alloc}
use singularity.Kom.Handle.Inv.{alloc-Inv}
use singularity.Kom.Handle.Count.{IsBounded, ref_count-lt, alloc-IsAccounted}
use singularity.Kom.Container.{with_new}
use singularity.Kom.System.{System, with_kom, delete, unref}
use singularity.Kom.Syscall.References.{IsSound}

pub delete-kom : (is_dead : ℕ → Bool) (s : System) (o : ℕ) → (delete is_dead s o).kom ≡ s.kom
unfolding delete
delete-kom is_dead s o = ground arith

-- Dropping a reference that a caller holds.
pub unref-IsSound :
    (is_dead : ℕ → Bool) (held others : ℕ → ℕ) (s : System) (o : ℕ)
    → IsBounded held
    → IsSound held s.kom
    → ((i : ℕ) → held i ≡ others i + to_count (o == i))
    → (s' : System) × (unref is_dead s o ≡ some s')
      × IsSound others s'.kom
      × (s'.kom.table ≡ s.kom.table)
unfolding unref
unref-IsSound is_dead held others s o bounded v split =
    let a = v.accounts in
    let few = ref_count-lt held bounded s.kom a o in
    let pos : 0 < s.kom.objects.ref_count o = ground (arith, a.counted o, split o) in
    let done = kobject_unref_pos s.kom.objects o pos (omega arith) in
    let k : Kom = record s.kom { objects = dropped s.kom.objects o } in
    let kept : IsSound others k = record {
      table = v.table;
      accounts = record {
        counted = λ i. ground (arith, a.counted i, split i);
        kept = λ i. ground (arith, a.kept i, a.counted i, split i);
      };
    } in
    elim (Bool-cases (s.kom.objects.ref_count o == 1)) [
      | inl last ↦ (
        delete is_dead (with_kom s k) o,
        rw (done, unref) (ground (arith, last)),
        rw (delete-kom is_dead (with_kom s k) o) kept,
        rw (delete-kom is_dead (with_kom s k) o) refl,
      )
      | inr more ↦ (with_kom s k, rw (done, unref) (ground (arith, more)), kept, refl)
    ]

-- `new` at an address that nothing refers to.
pub with_new-IsSound :
    (others : ℕ → ℕ) (k : Kom) (o : ℕ)
    → IsSound others k
    → k.objects.ref_count o ≡ 0
    → IsSound (update others o (others o + 1)) (record k { objects = with_new k.objects o })
with_new-IsSound others k o v fresh = record {
  table = v.table;
  accounts = record {
    counted = λ i. ground (arith, v.accounts.counted i, v.accounts.counted o);
    kept = λ i. ground (arith, v.accounts.kept i);
  };
}

pub alloc-IsSound :
    (others : ℕ → ℕ) (k : Kom) (o caps : ℕ)
    → IsBounded others
    → IsSound others k
    → caps < 2 ^ 16
    → 0 < k.objects.ref_count o
    → IsSound others (alloc k (some o) caps).1
alloc-IsSound others k o caps bounded v c pos = record {
  table = alloc-Inv k (some o) caps v.table c;
  accounts = alloc-IsAccounted others bounded k v.accounts o caps v.table pos;
}

-- A reference that a caller counts is one on a living object.
pub held_pos :
    (held : ℕ → ℕ) (k : Kom) (o : ℕ) → IsSound held k → 0 < held o → 0 < k.objects.ref_count o
held_pos held k o v h = omega (arith, v.accounts.counted o)

module _ (is_dead : ℕ → Bool) (others : ℕ → ℕ) (modest : (o : ℕ) → others o + 1 < 2 ^ 31) where
  pub one_more-IsBounded : (o : ℕ) → IsBounded (update others o (others o + 1))
  one_more-IsBounded o i = ground (arith, modest i, modest o)

  -- A reference on `o` that the caller holds becomes the entry's; if the table is full it is dropped.
  pub hand_over :
      (s : System) (o caps : ℕ)
      → IsSound (update others o (others o + 1)) s.kom
      → caps < 2 ^ 16
      → (s' : System) × (unref is_dead (with_kom s (alloc s.kom (some o) caps).1) o ≡ some s')
        × IsSound others s'.kom
  hand_over s o caps v c =
      let held = update others o (others o + 1) in
      let pos = held_pos held s.kom o v (ground arith) in
      let filled = alloc-IsSound held s.kom o caps (one_more-IsBounded o) v c pos in
      let (s', done, sound, _) =
        unref-IsSound is_dead held others (with_kom s (alloc s.kom (some o) caps).1) o
          (one_more-IsBounded o) filled (λ i. ground arith) in
      (s', done, sound)

  -- The same for two objects, as `kom_channel_create` does it.
  pub hand_over_two :
      (s : System) (a b caps : ℕ)
      → a ≢ b
      → let held = update others a (others a + 1) in
        IsSound (update held b (held b + 1)) s.kom
        → caps < 2 ^ 16
        → let ka = (alloc s.kom (some a) caps).1 in
          let kb = (alloc ka (some b) caps).1 in
          (s2 : System) × (s3 : System) × (unref is_dead (with_kom s kb) a ≡ some s2)
          × (unref is_dead s2 b ≡ some s3)
          × IsSound others s3.kom
  hand_over_two s a b caps ne v c =
      let held = update others a (others a + 1) in
      let both = update held b (held b + 1) in
      let bounded : IsBounded both = λ i. ground (arith, modest i, modest a, modest b) in
      let ka = (alloc s.kom (some a) caps).1 in
      let kb = (alloc ka (some b) caps).1 in
      let va =
        alloc-IsSound both s.kom a caps bounded v c
          (held_pos both s.kom a v (ground (arith, modest a))) in
      let vb =
        alloc-IsSound both ka b caps bounded va c
          (held_pos both ka b va (ground (arith, modest b))) in
      let (s2, first, sound, _) =
        unref-IsSound is_dead both (update others b (others b + 1)) (with_kom s kb) a bounded vb
          (λ i. ground arith) in
      let (s3, second, sound', _) =
        unref-IsSound is_dead (update others b (others b + 1)) others s2 b (one_more-IsBounded b)
          sound (λ i. ground arith) in
      (s2, s3, first, second, sound')
