-- ===== src/Kom/Syscall/Use.antt =====
-- kom_syscalls.cpp: the references after a call that uses a handle.
use singularity.Common.{
  ℕ, ◌+◌, ◌^◌, ◌<◌, ◌≡◌, refl, Bool, Option, none, some, arith, inl, inr, ◌⊎◌, Bool-cases,
  Option-cases, ap, List, update,
}
use singularity.Kom.Object.{kobject_ref}
use singularity.Kom.Error.{Error}
use singularity.Kom.Handle.{Kom, live_object, resolve, dup}
use singularity.Kom.Handle.Inv.{dup-Inv, close-Inv}
use singularity.Kom.Handle.Cases.{resolve_cases}
use singularity.Kom.Handle.Count.{
  IsBounded, close-IsAccounted, dup-IsAccounted, kobject_ref-IsAccounted, gained, ref_count_pos,
}
use singularity.Kom.Channel.{Heap}
use singularity.Kom.Channel.{ChannelState, ReadRound, read_round}
use singularity.Kom.Port.{KPort, WaitRound, wait_round}
use singularity.Kom.Port.{Packet}
use singularity.Kom.System.{
  System, kap_read, kap_write, kap_wait, is_channel, is_port, with_kom, delete, unref, kom_close,
  kom_duplicate, deletes_last, object_at,
}
use singularity.Kom.Syscall.{
  with_channel, returning, kom_channel_write, move_handles, write_at, kom_channel_read, read_at,
  kom_port_queue, kom_port_wait, wait_at,
}
use singularity.Kom.Syscall.Runs.{
  closes, duplicates, writes, reads, queues, waits, after_error, after_outcome, after_port, after,
}
use singularity.Kom.Syscall.References.{IsSound, restored, restored-IsAccounted, unref-held}
use singularity.Kom.Syscall.Creation.{delete-kom}

round_cases :
    (r : ReadRound)
    → ((err : Error) × (size : ℕ) × (count : ℕ) × (content : Option (List ℕ)) × (handles : Option
          (List ℕ))
        × (c : ChannelState) × (r ≡ ReadRound.returns err size count content handles c))
      ⊎ ((c : ChannelState) × (r ≡ ReadRound.blocks c))
round_cases (ReadRound.returns err size count content handles c) =
    inl (err, size, count, content, handles, c, refl)
round_cases (ReadRound.blocks c) = inr (c, refl)

wait_cases :
    (r : WaitRound)
    → ((err : Error) × (packet : Option Packet) × (p : KPort) × (r
          ≡ WaitRound.returns err packet p))
      ⊎ ((p : KPort) × (r ≡ WaitRound.blocks p))
wait_cases (WaitRound.returns err packet p) = inl (err, packet, p, refl)
wait_cases (WaitRound.blocks p) = inr (p, refl)

module _ (is_dead : ℕ → Bool) (others : ℕ → ℕ) (modest : (o : ℕ) → others o + 1 < 2 ^ 31)
    (s : System) (v : IsSound others s.kom) where
  -- A call returns or blocks, without a panic; each reference is then one of an entry, one that a
  -- caller had, or the one that the blocked thread took.
  abbrev pub Sound : Option (Option ℕ × System) → Type 0
  Sound r =
      (held : Option ℕ) × (s' : System) × (r ≡ some (held, s'))
      × IsSound (gained others held) s'.kom

  pub bounded : IsBounded others
  bounded o = omega (arith, modest o)

  pub same : Sound (some (none, s))
  same = (none, s, refl, v)

  -- The end of a call that has found `o` behind a handle.
  finish :
      (h o : ℕ) (s1 : System)
      → live_object s.kom.table h ≡ some o
      → s1.kom ≡ record s.kom { objects = kobject_ref s.kom.objects o }
      → (s2 : System) × (unref is_dead s1 o ≡ some s2) × IsSound others s2.kom
  finish h o s1 live taken = (
    with_kom s1 (restored s.kom o),
    rw
        (unref-held others bounded s.kom v.accounts h o live is_dead s1
          (ap (λ (k : Kom). k.objects) taken))
        (rw taken refl),
    record {
      table = v.table;
      accounts = restored-IsAccounted others bounded s.kom v.accounts h o live;
    },
  )

  Sound-returning :
      (h o : ℕ) (err : Error) (s1 : System)
      → live_object s.kom.table h ≡ some o
      → s1.kom ≡ record s.kom { objects = kobject_ref s.kom.objects o }
      → Sound (after_error (returning err (unref is_dead s1 o)))
  Sound-returning h o err s1 live taken =
      let (s2, done, sound) = finish h o s1 live taken in
      (none, s2, ap (λ (r : Option System). after_error (returning err r)) done, sound)

  pub queues-Sound :
      (allocated : Bool) (h : ℕ) (packet : Option Packet)
      → Sound (after is_dead s (queues allocated h packet))
  unfolding after kom_port_queue
  queues-Sound allocated h packet = elim (Bool-cases s.ready) [
    | inr e ↦ simp e same
    | inl e ↦ simp e (elim (resolve_cases s.kom h kap_write) [
      | inl failed ↦ rw failed same
      | inr (o, live, made) ↦
          let taken = ap (λ (r : Option ℕ × Kom). r.1) made in
          rw made (elim (Bool-cases (is_port (s.kind o))) [
            | inl kind ↦ rw kind (Sound-returning h o _ _ live taken)
            | inr kind ↦ rw kind (Sound-returning h o _ _ live taken)
          ])
    ])
  ]

  pub writes-Sound :
      (heap : Heap) (moved_ok : Bool) (h : ℕ) (content : Option (List ℕ)) (size : ℕ)
      (handles : Option (List ℕ))
      → Sound (after is_dead s (writes heap moved_ok h content size handles))
  unfolding after kom_channel_write move_handles write_at
  writes-Sound heap moved_ok h content size handles = elim (Bool-cases s.ready) [
    | inr e ↦ simp e same
    | inl e ↦ simp e (elim (resolve_cases s.kom h kap_write) [
      | inl failed ↦ rw failed same
      | inr (o, live, made) ↦
          let taken = ap (λ (r : Option ℕ × Kom). r.1) made in
          rw made (elim (Bool-cases (is_channel (s.kind o))) [
            | inl kind ↦ rw kind (elim (Option-cases handles) [
              | inl null ↦ rw null (Sound-returning h o _ _ live taken)
              | inr (hs, given) ↦ rw given (Sound-returning h o _ _ live taken)
            ])
            | inr kind ↦ rw kind (Sound-returning h o _ _ live taken)
          ])
    ])
  ]

  -- While a thread waits at `o`, it keeps the reference that its call took.
  held-IsSound :
      (h o : ℕ)
      → live_object s.kom.table h ≡ some o
      → IsSound (gained others (some o)) (record s.kom { objects = kobject_ref s.kom.objects o })
  held-IsSound h o live = record {
    table = v.table;
    accounts =
        kobject_ref-IsAccounted others bounded s.kom v.accounts o
          (ref_count_pos others bounded s.kom v.accounts h o live);
  }

  read_at-Sound :
      (h o : ℕ) (s1 : System) (proc : ℕ) (has_data : Bool) (size : Option ℕ) (has_handles : Bool)
      (count : Option ℕ)
      → live_object s.kom.table h ≡ some o
      → s1.kom ≡ record s.kom { objects = kobject_ref s.kom.objects o }
      → Sound (after_outcome (read_at is_dead s1 o proc has_data size has_handles count))
  unfolding read_at
  read_at-Sound h o s1 proc has_data size has_handles count live taken =
      elim (round_cases
        (read_round (s1.channels (s1.state o)) (s1.my_id o) proc has_data size has_handles count)) [
          | inl (err, size', count', content, handles, c, e) ↦
              let (s2, done, sound) = finish h o (with_channel s1 o c none) live taken in
              (none, s2, rw (e, read_at) (rw done refl), sound)
          | inr (c, e) ↦ (
            some o,
            with_channel s1 o c none,
            rw (e, read_at) refl,
            rw taken (held-IsSound h o live),
          )
        ]

  pub reads-Sound :
      (h proc : ℕ) (has_data : Bool) (size : Option ℕ) (has_handles : Bool) (count : Option ℕ)
      → Sound (after is_dead s (reads h proc has_data size has_handles count))
  unfolding after kom_channel_read
  reads-Sound h proc has_data size has_handles count = elim (Bool-cases s.ready) [
    | inr e ↦ simp e same
    | inl e ↦ simp e (elim (resolve_cases s.kom h kap_read) [
      | inl failed ↦ rw failed same
      | inr (o, live, made) ↦
          let taken = ap (λ (r : Option ℕ × Kom). r.1) made in
          rw made (elim (Bool-cases (is_channel (s.kind o))) [
            | inl kind ↦
                rw kind (read_at-Sound h o _ proc has_data size has_handles count live taken)
            | inr kind ↦
                let (s2, done, sound) =
                  finish h o (with_kom s (resolve s.kom h kap_read).1) live taken in
                rw (kind, done) (none, s2, refl, sound)
          ])
    ])
  ]

  wait_at-Sound :
      (h o : ℕ) (s1 : System) (proc : ℕ) (has_out : Bool)
      → live_object s.kom.table h ≡ some o
      → s1.kom ≡ record s.kom { objects = kobject_ref s.kom.objects o }
      → Sound (after_port (wait_at is_dead s1 o proc has_out))
  unfolding wait_at
  wait_at-Sound h o s1 proc has_out live taken =
      elim (wait_cases (wait_round (s1.ports o) proc has_out)) [
        | inl (err, packet, p, e) ↦
            let (s2, done, sound) =
              finish h o (record s1 { ports = update s1.ports o p }) live taken in
            (none, s2, rw (e, wait_at) (rw done refl), sound)
        | inr (p, e) ↦ (
          some o,
          record s1 { ports = update s1.ports o p },
          rw (e, wait_at) refl,
          rw taken (held-IsSound h o live),
        )
      ]

  pub waits-Sound : (h proc : ℕ) (has_out : Bool) → Sound (after is_dead s (waits h proc has_out))
  unfolding after kom_port_wait
  waits-Sound h proc has_out = elim (Bool-cases s.ready) [
    | inr e ↦ simp e same
    | inl e ↦ simp e (elim (resolve_cases s.kom h (kap_wait + kap_read)) [
      | inl failed ↦ rw failed same
      | inr (o, live, made) ↦
          let taken = ap (λ (r : Option ℕ × Kom). r.1) made in
          rw made (elim (Bool-cases (is_port (s.kind o))) [
            | inl kind ↦ rw kind (wait_at-Sound h o _ proc has_out live taken)
            | inr kind ↦
                let (s2, done, sound) =
                  finish h o (with_kom s (resolve s.kom h (kap_wait + kap_read)).1) live taken in
                rw (kind, done) (none, s2, refl, sound)
          ])
    ])
  ]

  pub closes-Sound : (h : ℕ) → Sound (after is_dead s (closes h))
  unfolding after kom_close
  closes-Sound h =
      let (k, done, accounts) = close-IsAccounted others bounded s.kom v.accounts h in
      let sound : IsSound others k = record {
        table = close-Inv s.kom k h v.table done;
        accounts = accounts;
      } in
      let s1 = with_kom s k in
      let s2 = delete is_dead s1 (object_at s.kom h) in
      elim (Bool-cases s.ready) [
        | inr e ↦ simp e same
        | inl e ↦ elim (Bool-cases (deletes_last s.kom h)) [
          | inl last ↦ (
            none,
            s2,
            ground (arith, e, done, last),
            rw (delete-kom is_dead s1 (object_at s.kom h)) sound,
          )
          | inr more ↦ (none, s1, ground (arith, e, done, more), sound)
        ]
      ]

  pub duplicates-Sound : (h caps : ℕ) → caps < 2 ^ 16 → Sound (after is_dead s (duplicates h caps))
  unfolding after kom_duplicate
  duplicates-Sound h caps c = elim (Bool-cases s.ready) [
    | inr e ↦ simp e same
    | inl e ↦ (
      none,
      with_kom s (dup s.kom h caps).1,
      ground (arith, e),
      record {
        table = dup-Inv s.kom h caps v.table c;
        accounts = dup-IsAccounted others bounded s.kom v.accounts h caps v.table;
      },
    )
  ]
