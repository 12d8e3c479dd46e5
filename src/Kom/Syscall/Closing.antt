-- ===== src/Kom/Syscall/Closing.antt =====
-- kom_syscalls.cpp: closing the last handle of an endpoint, as the other end sees it.
use singularity.Common.{
  ℕ, ◌<◌, ◌≡◌, ◌≢◌, Bool, true, none, some, arith, update, [], inl, inr, ap, ◌∙◌, sym, subst,
}
use singularity.Kom.Object.{Objects, kobject_unref}
use singularity.Kom.Error.{ok, peer_closed}
use singularity.Kom.Handle
use singularity.Kom.Handle.{Kom, HandleTable, live_object, resolve, retire, push_free, handle_idx}
use singularity.Kom.Handle.Inv.{close-Inv}
use singularity.Kom.Handle.Cases.{close_cases}
use singularity.Kom.Handle.Count.{IsBounded, close-IsAccounted}
use singularity.Kom.Channel
use singularity.Kom.Channel.{ChannelState, Heap, KMessage, ReadRound, peer_of, read_round, copy}
use singularity.Kom.System.{System, kap_read, is_channel, with_kom, delete, kom_close, KObjectType}
use singularity.Kom.Syscall.{Outcome, kom_channel_read}
use singularity.Kom.Syscall.References.{IsSound}
use singularity.Kom.Syscall.Creation.{delete-kom}
use singularity.Kom.Syscall.Conversation.{read_through, received}

-- A `read` at the other end of a destroyed endpoint, with nothing queued.
read_round-destroy :
    (is_dead : ℕ → Bool) (c : ChannelState) (my_id proc data_size handle_count : ℕ)
    → my_id < 2
    → c.queue (peer_of my_id) ≡ []
    → let c' = (Channel.destroy is_dead c my_id).2 in
      read_round c' (peer_of my_id) proc true (some data_size) true (some handle_count)
      ≡ ReadRound.returns peer_closed data_size handle_count none none c'
unfolding read_round Channel.destroy
read_round-destroy is_dead c my_id proc data_size handle_count id idle = ground arith

-- A handle in another slot is as good as before.
granted-retire :
    (k : Kom) (objects : Objects) (idx h req : ℕ)
    → handle_idx h ≢ idx
    → (resolve (record { table = retire k.table idx; objects = objects }) h req).0
      ≡ (resolve k h req).0
unfolding resolve live_object retire push_free
granted-retire k objects idx h req ne = ground arith

close_live :
    (k k' : Kom) (h a : ℕ)
    → live_object k.table h ≡ some a
    → Handle.close k h ≡ some k'
    → (k'.table ≡ retire k.table (handle_idx h)) × (kobject_unref k.objects a ≡ some k'.objects)
close_live k k' h a found done = elim (close_cases k k' h done) [
  | inl (missing, _) ↦ absurd (cc (missing, found))
  | inr (o, live, table, dropped) ↦
      let same : o ≡ a = cc (live, found) in (table, rw same at dropped)
]

module _ (is_dead : ℕ → Bool) (others : ℕ → ℕ) (bounded : IsBounded others) (s : System)
    (v : IsSound others s.kom) (ready : s.ready ≡ true) where
  -- What closing the handle of an endpoint that has no other reference does.
  kom_close_last :
      (h a : ℕ)
      → live_object s.kom.table h ≡ some a
      → s.kom.objects.ref_count a ≡ 1
      → (k : Kom) × (kom_close is_dead s h ≡ some (ok, delete is_dead (with_kom s k) a))
        × (k.table ≡ retire s.kom.table (handle_idx h))
        × IsSound others k
        × (k.objects.deleted a ≡ true)
  unfolding kom_close kobject_unref
  kom_close_last h a found last =
      let (k, done, accounts) = close-IsAccounted others bounded s.kom v.accounts h in
      let (table, dropped) = close_live s.kom k h a found done in
      (
        k,
        ground (arith, ready, done, found, last),
        table,
        record { table = close-Inv s.kom k h v.table done; accounts = accounts },
        ground (arith, dropped, last),
      )

  delete-channels :
      (k : Kom) (a : ℕ)
      → is_channel (s.kind a) ≡ true
      → (delete is_dead (with_kom s k) a).channels
        ≡ update s.channels
            (s.state a)
            (Channel.destroy is_dead (s.channels (s.state a)) (s.my_id a)).2
  unfolding delete
  delete-channels k a kind = ground (arith, kind)

  delete_keeps :
      (k : Kom) (a : ℕ)
      → let s' = delete is_dead (with_kom s k) a in
        (s'.ready ≡ s.ready) × (s'.kind ≡ s.kind) × (s'.state ≡ s.state) × (s'.my_id ≡ s.my_id)
  unfolding delete
  delete_keeps k a = ground arith

  -- Two threads have handles of the two ends `a` and `b` of a channel, the handle `ha` the only
  -- reference on `a`, and nothing is queued for `b`. Closing `ha` deletes the endpoint, and a `read`
  -- through the other handle does not block: it returns that the peer is closed.
  pub read-close_call :
      (ha hb a b proc data_size handle_count : ℕ)
      → live_object s.kom.table ha ≡ some a
      → s.kom.objects.ref_count a ≡ 1
      → (resolve s.kom hb kap_read).0 ≡ some b
      → handle_idx hb ≢ handle_idx ha
      → is_channel (s.kind a) ≡ true
      → is_channel (s.kind b) ≡ true
      → s.state b ≡ s.state a
      → s.my_id a < 2
      → s.my_id b ≡ peer_of (s.my_id a)
      → (s.channels (s.state a)).queue (peer_of (s.my_id a)) ≡ []
      → (s1 : System) × (s2 : System) × (kom_close is_dead s ha ≡ some (ok, s1))
        × (s1.kom.objects.deleted a ≡ true)
        × (kom_channel_read is_dead s1 hb proc true (some data_size) true (some handle_count)
            ≡ Outcome.returned (some (peer_closed, received data_size handle_count none none, s2)))
  read-close_call ha hb a b proc data_size handle_count found last read_b apart kind_a kind_b linked
        id peer idle =
      let (k, done, table, sound, gone) = kom_close_last ha a found last in
      let s1 = delete is_dead (with_kom s k) a in
      let kom1 : s1.kom ≡ k = delete-kom is_dead (with_kom s k) a in
      let (ready1, kind1, state1, id1) = delete_keeps k a in
      let c = (Channel.destroy is_dead (s.channels (s.state a)) (s.my_id a)).2 in
      let look = λ (p : ChannelState) (i : ℕ).
        read_round p i proc true (some data_size) true (some handle_count) in
      let there : s1.channels (s1.state b) ≡ c =
        ap (λ (f : ℕ → ℕ). s1.channels (f b)) state1
        ∙ ap (λ (f : ℕ → ChannelState). f (s.state b)) (delete-channels k a kind_a)
        ∙ ground (arith, linked) in
      let at : s1.my_id b ≡ peer_of (s.my_id a) = ap (λ (f : ℕ → ℕ). f b) id1 ∙ peer in
      let round =
        read_round-destroy is_dead (s.channels (s.state a)) (s.my_id a) proc data_size handle_count
          id idle in
      let seen = ap (λ (p : ChannelState). look p (s1.my_id b)) there ∙ ap (look c) at ∙ round in
      (
        s1,
        _,
        done,
        rw kom1 gone,
        read_through is_dead others bounded s1 (subst (IsSound others) (sym kom1) sound)
            (ready1 ∙ ready) hb b proc (some data_size) (some handle_count) peer_closed data_size
            handle_count none none c
            (ap (λ (k' : Kom). (resolve k' hb kap_read).0) kom1
              ∙ ap
                  (λ (t : HandleTable).
                    (resolve (record { table = t; objects = k.objects }) hb kap_read).0)
                  table
              ∙ granted-retire s.kom k.objects (handle_idx ha) hb kap_read apart
              ∙ read_b)
            (ap (λ (f : ℕ → KObjectType). is_channel (f b)) kind1 ∙ kind_b) seen,
      )
