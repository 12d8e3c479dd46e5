-- ===== src/Kom/Syscall/Conversation.antt =====
-- kom_syscalls.cpp: what one thread's call on an endpoint means for a call on the other one.
use singularity.Common.{
  ℕ, ◌≤◌, ◌≡◌, refl, Bool, true, Option, none, some, arith, ltb, if◌then◌else◌, update, List, [],
  inl, inr, ap, ◌∙◌,
}
use singularity.Kom.Object.{kobject_ref}
use singularity.Kom.Error.{Error, ok}
use singularity.Kom.Handle.{Kom, live_object, resolve}
use singularity.Kom.Handle.Cases.{resolve_cases}
use singularity.Kom.Handle.Count.{IsBounded}
use singularity.Kom.Channel
use singularity.Kom.Channel.{ChannelState, Heap, KMessage, ReadRound, peer_of, read_round, copy}
use singularity.Kom.Channel.Calls.{read-write}
use singularity.Kom.System.{System, kap_read, kap_write, is_channel, with_kom}
use singularity.Kom.Syscall.{
  Received, Outcome, with_channel, kom_channel_read, read_at, kom_channel_write, write_at,
  move_handles,
}
use singularity.Kom.Syscall.References.{IsSound, restored, restored-IsAccounted, unref-held}
use singularity.Kom.Syscall.Transfers.{granted_cases}

readable :
    (k : Kom) (h b : ℕ)
    → (resolve k h kap_read).0 ≡ some b
    → (live_object k.table h ≡ some b)
      × (resolve k h kap_read ≡ (some b, record k { objects = kobject_ref k.objects b }))
readable k h b granted = elim (resolve_cases k h kap_read) [
  | inl failed ↦ absurd (cc (failed, granted))
  | inr (b', found, made) ↦
      let same : b' ≡ b = cc (made, granted) in (found ∙ ap some same, rw same at made)
]

abbrev pub received : ℕ → ℕ → Option (List ℕ) → Option (List ℕ) → Received
received size count content handles = record {
  data_size = size;
  handle_count = count;
  content = content;
  handles = handles;
}

module _ (is_dead : ℕ → Bool) (others : ℕ → ℕ) (bounded : IsBounded others) (s : System)
    (v : IsSound others s.kom) (ready : s.ready ≡ true) where
  read_round_at :
      (h b proc : ℕ) (data_size handle_count : Option ℕ) (err : Error) (size count : ℕ)
      (content handles : Option (List ℕ)) (c : ChannelState)
      → live_object s.kom.table h ≡ some b
      → read_round (s.channels (s.state b)) (s.my_id b) proc true data_size true handle_count
        ≡ ReadRound.returns err size count content handles c
      → read_at is_dead
          (with_kom s (record s.kom { objects = kobject_ref s.kom.objects b }))
          b
          proc
          true
          data_size
          true
          handle_count
        ≡ Outcome.returned (
            some (
              err,
              received size count content handles,
              with_kom (with_channel s b c none) (restored s.kom b),
            ))
  unfolding read_at
  read_round_at h b proc data_size handle_count err size count content handles c found e =
      let s1 : System =
        with_channel (with_kom s (record s.kom { objects = kobject_ref s.kom.objects b })) b c
          none in
      let dropped = unref-held others bounded s.kom v.accounts h b found is_dead s1 refl in
      rw (e, read_at) (rw dropped refl)

  -- A `read` through a handle with the right to, of a round that returns.
  pub read_through :
      (h b proc : ℕ) (data_size handle_count : Option ℕ) (err : Error) (size count : ℕ)
      (content handles : Option (List ℕ)) (c : ChannelState)
      → (resolve s.kom h kap_read).0 ≡ some b
      → is_channel (s.kind b) ≡ true
      → read_round (s.channels (s.state b)) (s.my_id b) proc true data_size true handle_count
        ≡ ReadRound.returns err size count content handles c
      → kom_channel_read is_dead s h proc true data_size true handle_count
        ≡ Outcome.returned (
            some (
              err,
              received size count content handles,
              with_kom (with_channel s b c none) (restored s.kom b),
            ))
  unfolding kom_channel_read
  read_through h b proc data_size handle_count err size count content handles c granted kind e =
      let (found, made) = readable s.kom h b granted in
      let round =
        read_round_at h b proc data_size handle_count err size count content handles c found e in
      ground (arith, ready, made, kind, round)

  -- A `write` with no handles through a handle with the right to.
  write_through :
      (heap : Heap) (h a : ℕ) (content : Option (List ℕ)) (size : ℕ) (err : Error)
      (woken : Option ℕ) (c : ChannelState)
      → (resolve s.kom h kap_write).0 ≡ some a
      → is_channel (s.kind a) ≡ true
      → Channel.write heap is_dead (s.channels (s.state a)) (s.my_id a) content size none 0
        ≡ (err, woken, c)
      → kom_channel_write is_dead heap true s h content size none 0
        ≡ some (err, with_kom (with_channel s a c woken) (restored s.kom a))
  unfolding kom_channel_write move_handles write_at
  write_through heap h a content size err woken c granted kind e =
      let (found, made) = granted_cases s.kom h a granted in
      let s1 : System =
        with_channel (with_kom s (record s.kom { objects = kobject_ref s.kom.objects a })) a c
          woken in
      let dropped = unref-held others bounded s.kom v.accounts h a found is_dead s1 refl in
      ground (arith, ready, made, kind, e, dropped)

-- The grants of a handle do not depend on the counts.
granted-objects : (k : Kom) (o h req : ℕ) → (resolve (restored k o) h req).0 ≡ (resolve k h req).0
unfolding resolve
granted-objects k o h req = ground arith

module _ (is_dead : ℕ → Bool) (others : ℕ → ℕ) (bounded : IsBounded others) (s : System)
    (v : IsSound others s.kom) (ready : s.ready ≡ true) where
  -- Two threads have handles of the two ends `a` and `b` of a channel, with the right to write to `a`
  -- and to read from `b`, and nothing is queued for `b`. When the channel accepts what the first one
  -- writes, its system call succeeds, and that of the second one, with a large enough buffer, returns
  -- the same bytes, and no handles.
  pub read-write_calls :
      (heap : Heap) (ha hb a b proc : ℕ) (content : Option (List ℕ)) (size data_size : ℕ)
      (woken : Option ℕ) (c : ChannelState)
      → (resolve s.kom ha kap_write).0 ≡ some a
      → (resolve s.kom hb kap_read).0 ≡ some b
      → is_channel (s.kind a) ≡ true
      → is_channel (s.kind b) ≡ true
      → s.state b ≡ s.state a
      → s.my_id b ≡ peer_of (s.my_id a)
      → (s.channels (s.state a)).queue (peer_of (s.my_id a)) ≡ []
      → size ≤ data_size
      → Channel.write heap is_dead (s.channels (s.state a)) (s.my_id a) content size none 0
        ≡ (ok, woken, c)
      → (s1 : System) × (s2 : System) × (kom_channel_write is_dead heap true s ha content size none
            0
          ≡ some (ok, s1))
        × (kom_channel_read is_dead s1 hb proc true (some data_size) true (some 0)
            ≡ Outcome.returned (
                some (
                  ok,
                  received size 0 (if ltb 0 size then some (copy size content) else none) none,
                  s2,
                )))
  read-write_calls heap ha hb a b proc content size data_size woken c write_a read_b kind_a kind_b
        linked peer idle fits e =
      let (found, made) = granted_cases s.kom ha a write_a in
      let s1 : System = with_kom (with_channel s a c woken) (restored s.kom a) in
      let v1 : IsSound others s1.kom = record {
        table = v.table;
        accounts = restored-IsAccounted others bounded s.kom v.accounts ha a found;
      } in
      let look =
        λ (p : ChannelState) (i : ℕ). read_round p i proc true (some data_size) true (some 0) in
      let there : s1.channels (s1.state b) ≡ c = ground (arith, linked) in
      let round =
        read-write heap is_dead (s.channels (s.state a)) c (s.my_id a) content size none 0 woken
          proc data_size 0 idle e fits (omega arith) in
      let seen = ap (λ (p : ChannelState). look p (s.my_id b)) there ∙ ap (look c) peer ∙ round in
      (
        s1,
        _,
        write_through is_dead others bounded s v ready heap ha a content size ok woken c write_a
            kind_a e,
        read_through is_dead others bounded s1 v1 ready hb b proc (some data_size) (some 0) ok size
            0 (if ltb 0 size then some (copy size content) else none) none
            (record c { queue = update c.queue (peer_of (s.my_id a)) [] })
            (granted-objects s.kom a hb kap_read ∙ read_b) kind_b seen,
      )
