-- ===== src/Kom/Syscall/Full.antt =====
-- kom_syscalls.cpp: `kom_channel_create` when the handle table is full.
use singularity.Common.{ℕ, ◌≡◌, ◌≢◌, Bool, true, false, some, arith, update, ◌∙◌, []}
use singularity.Kom.Object.{kobject_unref}
use singularity.Kom.Error.{ok}
use singularity.Kom.Handle.{Kom, alloc}
use singularity.Kom.Channel.{ChannelState, kchannel_create}
use singularity.Kom.System.{
  System, with_kom, delete, unref, with_endpoints, channel_caps, kom_channel_create,
}
use singularity.Kom.Syscall.Creation.{delete-kom}

alloc-full : (k : Kom) (o caps : ℕ) → k.table.freelist_top ≡ 0 → alloc k (some o) caps ≡ (0, k)
unfolding alloc
alloc-full k o caps full = ground arith

-- Dropping the only reference of an object deletes it, and no other.
unref_only :
    (is_dead : ℕ → Bool) (s : System) (o : ℕ)
    → s.kom.objects.ref_count o ≡ 1
    → (s' : System) × (unref is_dead s o ≡ some s')
      × (s'.kom.objects.deleted o ≡ true)
      × ((i : ℕ) → i ≢ o → s'.kom.objects.ref_count i ≡ s.kom.objects.ref_count i)
      × ((i : ℕ) → s.kom.objects.deleted i ≡ true → s'.kom.objects.deleted i ≡ true)
unfolding unref kobject_unref
unref_only is_dead s o one =
    let k : Kom = record s.kom {
      objects = record {
        ref_count = update s.kom.objects.ref_count o 0;
        deleted = update s.kom.objects.deleted o true;
      };
    } in
    let at = delete-kom is_dead (with_kom s k) o in
    (
      delete is_dead (with_kom s k) o,
      ground (arith, one),
      rw at (ground arith),
      λ i ne. rw at (ground arith),
      λ i gone. rw at (ground arith),
    )

-- When the memory is given but the table has no free entry, `kom_channel_create` reports success with
-- the handle 0 for both ends, and both endpoints are deleted again.
pub create-full :
    (is_dead : ℕ → Bool) (s : System) (st a b : ℕ)
    → s.ready ≡ true
    → s.kom.table.freelist_top ≡ 0
    → a ≢ b
    → (s' : System) × (kom_channel_create is_dead true true true true s st a b
        ≡ some (ok, 0, 0, s'))
      × (s'.kom.objects.deleted a ≡ true)
      × (s'.kom.objects.deleted b ≡ true)
unfolding kom_channel_create kchannel_create
create-full is_dead s st a b ready full ne =
    let c : ChannelState = record {
      queue = λ _. [];
      wait_q = λ _. [];
      closed = λ _. false;
      ref_count = 2;
    } in
    let s1 = with_endpoints s st a b c in
    let (s2, first, gone, others, _) = unref_only is_dead s1 a (ground arith) in
    let (s3, second, gone', _, keeps) =
      unref_only is_dead s2 b (others b (ground arith) ∙ ground arith) in
    let no_a = alloc-full s1.kom a channel_caps full in
    let no_b = alloc-full s1.kom b channel_caps full in
    (s3, ground (arith, ready, no_a, no_b, first, second), keeps a gone, gone')
