-- ===== src/Kom/Syscall/Accounts.antt =====
-- kom_syscalls.cpp: no system call leaks a reference or panics, as long as it moves no handles.
use singularity.Common.{
  ℕ, ◌+◌, ◌^◌, ◌<◌, refl, Bool, true, not, ◌||◌, Option, none, some, arith, inl, inr, Bool-cases,
  Option-cases, update,
}
use singularity.Kom.Object.{kobject_ref}
use singularity.Kom.Handle.Count.{kobject_ref-IsAccounted}
use singularity.Kom.Container.{with_new}
use singularity.Kom.Channel.{kchannel_create}
use singularity.Kom.Port.{new_port}
use singularity.Kom.System.{
  System, port, with_kom, kom_open, kom_channel_create, with_endpoints, channel_caps, kap_read,
  kap_write, kap_wait,
}
use singularity.Kom.Syscall.{kom_port_create}
use singularity.Kom.Syscall.Runs.{
  SystemCall, opens, closes, duplicates, creates_channel, writes, reads, creates_port, queues,
  waits, after, IsHonest,
}
use singularity.Kom.Syscall.References.{IsSound}
use singularity.Kom.Syscall.Creation.{hand_over, hand_over_two, with_new-IsSound}
use singularity.Kom.Syscall.Use.{
  Sound, same, bounded, queues-Sound, writes-Sound, reads-Sound, waits-Sound, closes-Sound,
  duplicates-Sound,
}

module _ (is_dead : ℕ → Bool) (others : ℕ → ℕ) (modest : (o : ℕ) → others o + 1 < 2 ^ 31)
    (s : System) (v : IsSound others s.kom) where
  opens-Sound :
      (target caps : ℕ)
      → 0 < s.kom.objects.ref_count target
      → caps < 2 ^ 16
      → Sound is_dead others modest s v (after is_dead s (opens (some target) caps))
  unfolding after kom_open
  opens-Sound target caps pos c =
      let held = record s.kom { objects = kobject_ref s.kom.objects target } in
      let (s', done, sound) =
        hand_over is_dead others modest (with_kom s held) target caps
          (record {
            table = v.table;
            accounts =
                kobject_ref-IsAccounted others (bounded is_dead others modest s v) s.kom v.accounts
                  target pos;
          })
          c in
      elim (Bool-cases s.ready) [
        | inr e ↦ simp e (same is_dead others modest s v)
        | inl e ↦ (none, s', ground (arith, e, done), sound)
      ]

  creates_port-Sound :
      (has_out : Bool) (p : Option ℕ)
      → IsHonest s (creates_port has_out p)
      → Sound is_dead others modest s v (after is_dead s (creates_port has_out p))
  unfolding after kom_port_create
  creates_port-Sound has_out none fresh = (none, s, ground arith, v)
  creates_port-Sound has_out (some p) fresh =
      let s1 = record s {
        kom = record s.kom { objects = with_new s.kom.objects p };
        kind = update s.kind p port;
        ports = update s.ports p new_port;
      } in
      let (s', done, sound) =
        hand_over is_dead others modest s1 p (kap_read + kap_write + kap_wait)
          (with_new-IsSound others s.kom p v fresh) (omega arith) in
      elim (Bool-cases (not s.ready || not has_out)) [
        | inl e ↦ rw e (same is_dead others modest s v)
        | inr e ↦ rw (e, done) (none, s', refl, sound)
      ]

  creates_channel-Sound :
      (has_out state_ok a_ok b_ok : Bool) (st a b : ℕ)
      → IsHonest s (creates_channel has_out state_ok a_ok b_ok st a b)
      → Sound is_dead others modest s v
          (after is_dead s (creates_channel has_out state_ok a_ok b_ok st a b))
  unfolding after kom_channel_create
  creates_channel-Sound has_out state_ok a_ok b_ok st a b (fresh_a, fresh_b, ne) =
      elim (Bool-cases (not s.ready || not has_out)) [
        | inl e ↦ rw e (same is_dead others modest s v)
        | inr e ↦ rw e (elim (Option-cases (kchannel_create true state_ok a_ok b_ok).1) [
          | inl failed ↦ rw failed (same is_dead others modest s v)
          | inr (c, made) ↦
              let (s2, s3, first, second, sound) =
                hand_over_two is_dead others modest (with_endpoints s st a b c) a b channel_caps ne
                  (with_new-IsSound (update others a (others a + 1))
                    (record s.kom { objects = with_new s.kom.objects a }) b
                    (with_new-IsSound others s.kom a v fresh_a) (ground arith))
                  (omega arith) in
              rw (made, first) (rw second (none, s3, refl, sound))
        ])
      ]

  -- Suppose that the table is well formed and every reference is one of an entry or one that a caller
  -- holds, fewer than 2^31 - 1 of these on an object. A system call that is given objects with a
  -- reference, fresh addresses for new objects and rights that are a `uint16_t`, and that writes no
  -- handles to a channel, does not panic and keeps it so, whatever its outcome: it returns with the
  -- references that its callers held before, or blocks and holds one more on the object that it waits
  -- at.
  pub after-Sound :
      (c : SystemCall) → IsHonest s c → Sound is_dead others modest s v (after is_dead s c)
  unfolding after kom_open
  after-Sound (opens none caps) h = (none, s, refl, v)
  after-Sound (opens (some target) caps) h = opens-Sound target caps h.0 h.1
  after-Sound (closes h) p = closes-Sound is_dead others modest s v h
  after-Sound (duplicates h caps) c = duplicates-Sound is_dead others modest s v h caps c
  after-Sound (creates_channel has_out state_ok a_ok b_ok st a b) h =
      creates_channel-Sound has_out state_ok a_ok b_ok st a b h
  after-Sound (writes heap moved_ok h content size handles) p =
      writes-Sound is_dead others modest s v heap moved_ok h content size handles
  after-Sound (reads h proc has_data size has_handles count) p =
      reads-Sound is_dead others modest s v h proc has_data size has_handles count
  after-Sound (creates_port has_out p) h = creates_port-Sound has_out p h
  after-Sound (queues allocated h packet) p =
      queues-Sound is_dead others modest s v allocated h packet
  after-Sound (waits h proc has_out) p = waits-Sound is_dead others modest s v h proc has_out
