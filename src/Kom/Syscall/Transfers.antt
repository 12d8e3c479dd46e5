-- ===== src/Kom/Syscall/Transfers.antt =====
-- kom_syscalls.cpp: what becomes of the handles that are written to a channel.
use singularity.Common.{
  ℕ, ◌+◌, ◌^◌, ◌<◌, ◌≡◌, ◌≢◌, refl, Bool, true, Option, none, some, arith, inl, inr, ◌⊎◌, ap, ◌∙◌,
  update, List, [], ◌∷◌, ◌++◌, count_below-le,
}
use singularity.Kom.Object.{Objects, kobject_ref, released, kobject_unref_kept}
use singularity.Kom.Error.{Error, ok}
use singularity.Kom.Handle.{Kom, capacity, live_object, resolve, transfer}
use singularity.Kom.Handle.Cases.{resolve_cases}
use singularity.Kom.Handle.Count.{names, IsBounded, ref_count_pos}
use singularity.Kom.Handle.Roundtrip.{transfer_moves, transfer-eq, settled}
use singularity.Kom.Channel
use singularity.Kom.Channel.{ChannelState, Heap, KMessage, peer_of}
use singularity.Kom.Channel.Delivery.{message}
use singularity.Kom.System.{System, kap_write, is_channel, with_kom, unref}
use singularity.Kom.Syscall.{kom_channel_write, move_handles, transfer_all, write_at, returning}
use singularity.Kom.Syscall.References.{IsSound}

-- A transfer of a live handle, with the references that it leaves.
pub transfer_one :
    (others : ℕ → ℕ) (k : Kom) (h o : ℕ)
    → IsBounded others
    → IsSound others k
    → live_object k.table h ≡ some o
    → (e : ℕ)
    → let held = record k { objects = kobject_ref k.objects e } in
      (h' : ℕ) × (k' : Kom) × (transfer held h ≡ some (h', k'))
      × (live_object k'.table h' ≡ some o)
      × (live_object k'.table h ≡ none)
      × ((k'.objects.ref_count e ≡ k.objects.ref_count e + 1)
          ⊎ (k'.objects.ref_count e ≡ k.objects.ref_count e + 2))
unfolding kobject_ref
transfer_one others k h o bounded v live e =
    let few : k.objects.ref_count o + 4 < 2 ^ 32 =
      omega (
        arith,
        v.accounts.counted o,
        bounded o,
        count_below-le (names o) k.table.entries capacity,
      ) in
    let few_e : k.objects.ref_count e + 4 < 2 ^ 32 =
      omega (
        arith,
        v.accounts.counted e,
        bounded e,
        count_below-le (names e) k.table.entries capacity,
      ) in
    let held : Kom = record k { objects = kobject_ref k.objects e } in
    let enough : held.objects.ref_count o + 2 < 2 ^ 32 = ground (arith, few, few_e) in
    let (h', k', done, _, now, _, gone) = transfer_moves held h o v.table live enough in
    let objects : k'.objects ≡ settled held h o v.table live =
      cc (done, transfer-eq held h o v.table live enough) in
    (h', k', done, now, gone, rw objects (ground (arith, few, few_e)))

-- A `write` queues its message at the peer and reports success, or it fails and changes nothing.
write_cases :
    (heap : Heap) (is_dead : ℕ → Bool) (c : ChannelState) (my_id : ℕ) (content : Option (List ℕ))
    (size : ℕ) (handles : Option (List ℕ)) (count : ℕ)
    → let (err, woken, c') = Channel.write heap is_dead c my_id content size handles count in
      ((err ≡ ok)
        × (c'.queue
            ≡ update c.queue
                (peer_of my_id)
                (c.queue (peer_of my_id) ++ (message content size handles count ∷ []))))
      ⊎ ((err ≢ ok) × (c' ≡ c))
unfolding Channel.write
write_cases heap is_dead c my_id content size handles count = ground arith

pub granted_cases :
    (k : Kom) (h ep : ℕ)
    → (resolve k h kap_write).0 ≡ some ep
    → (live_object k.table h ≡ some ep)
      × (resolve k h kap_write ≡ (some ep, record k { objects = kobject_ref k.objects ep }))
granted_cases k h ep granted = elim (resolve_cases k h kap_write) [
  | inl failed ↦ absurd (cc (failed, granted))
  | inr (ep', found, made) ↦
      let same : ep' ≡ ep = cc (made, granted) in (found ∙ ap some same, rw same at made)
]

-- A reference that is not the last is dropped with nothing else changed.
pub unref_kept :
    (is_dead : ℕ → Bool) (s : System) (o : ℕ)
    → 1 < s.kom.objects.ref_count o
    → s.kom.objects.ref_count o < 2 ^ 32
    → unref is_dead s o ≡ some (with_kom s (record s.kom { objects = released s.kom.objects o }))
unfolding unref
unref_kept is_dead s o lo hi =
    let dropped = kobject_unref_kept s.kom.objects o lo hi in rw dropped (ground arith)

move_handles_one :
    (is_dead : ℕ → Bool) (k k' : Kom) (h moved : ℕ)
    → transfer k h ≡ some (moved, k')
    → move_handles is_dead k (some (h ∷ [])) 1 ≡ some (some (moved ∷ []), k')
unfolding move_handles transfer_all
move_handles_one is_dead k k' h moved done = rw done refl

-- A `write` with one live handle goes through to the channel.
kom_channel_write_one :
    (is_dead : ℕ → Bool) (heap : Heap) (s : System) (handle ep h moved : ℕ)
    (content : Option (List ℕ)) (size : ℕ) (k : Kom)
    → s.ready ≡ true
    → is_channel (s.kind ep) ≡ true
    → resolve s.kom handle kap_write
      ≡ (some ep, record s.kom { objects = kobject_ref s.kom.objects ep })
    → transfer (record s.kom { objects = kobject_ref s.kom.objects ep }) h ≡ some (moved, k)
    → kom_channel_write is_dead heap true s handle content size (some (h ∷ [])) 1 ≡ (
        let w = write_at is_dead heap (with_kom s k) ep content size (some (moved ∷ [])) 1 in
        returning w.0 (unref is_dead w.1 ep))
unfolding kom_channel_write
kom_channel_write_one is_dead heap s handle ep h moved content size k ready kind made done =
    let moves = move_handles_one is_dead _ k h moved done in simp (ready, made, kind, moves) refl

module _ (is_dead : ℕ → Bool) (others : ℕ → ℕ) (bounded : IsBounded others) (s : System)
    (v : IsSound others s.kom) where
  held_count :
      (handle ep : ℕ)
      → live_object s.kom.table handle ≡ some ep
      → (objects : Objects)
      → (objects.ref_count ep ≡ s.kom.objects.ref_count ep + 1)
        ⊎ (objects.ref_count ep ≡ s.kom.objects.ref_count ep + 2)
      → (1 < objects.ref_count ep) × (objects.ref_count ep < 2 ^ 32)
  held_count handle ep found objects count = ground (
    arith,
    ref_count_pos others bounded s.kom v.accounts handle ep found,
    v.accounts.counted ep,
    bounded ep,
    count_below-le (names ep) s.kom.table.entries capacity,
  )

  -- A thread writes the handle `h` of the object `o` to the endpoint `ep`, which `handle` may write
  -- to, and the memory for the moved handles is given. The call does not panic. In the state
  -- after it `h` is dead and a handle `moved` is live and has its object. Either the call succeeds, and
  -- the queue of the peer is as before with one message more at its end, which has `moved`; or it fails,
  -- and every channel is as before.
  pub write-moves :
      (heap : Heap) (handle ep h o : ℕ) (content : Option (List ℕ)) (size : ℕ)
      → s.ready ≡ true
      → (resolve s.kom handle kap_write).0 ≡ some ep
      → is_channel (s.kind ep) ≡ true
      → live_object s.kom.table h ≡ some o
      → (moved : ℕ) × (err : Error) × (s' : System) × (kom_channel_write is_dead heap true s handle
            content size
            (some (h ∷ []))
            1
          ≡ some (err, s'))
        × (live_object s'.kom.table h ≡ none)
        × (live_object s'.kom.table moved ≡ some o)
        × (((err ≡ ok)
              × ((s'.channels (s.state ep)).queue (peer_of (s.my_id ep))
                  ≡ (s.channels (s.state ep)).queue (peer_of (s.my_id ep))
                    ++ (message content size (some (moved ∷ [])) 1 ∷ [])))
            ⊎ ((err ≢ ok) × ((i : ℕ) → s'.channels i ≡ s.channels i)))
  unfolding write_at
  write-moves heap handle ep h o content size ready granted kind live =
      let (found, made) = granted_cases s.kom handle ep granted in
      let (moved, k, done, now, gone, count) = transfer_one others s.kom h o bounded v live ep in
      let (err, s1) = write_at is_dead heap (with_kom s k) ep content size (some (moved ∷ [])) 1 in
      let (lo, hi) = held_count handle ep found k.objects count in
      let call =
        kom_channel_write_one is_dead heap s handle ep h moved content size k ready kind made
          done in
      (
        moved,
        err,
        with_kom s1 (record k { objects = released k.objects ep }),
        call ∙ ap (returning err) (unref_kept is_dead s1 ep lo hi),
        gone,
        now,
        elim (write_cases heap is_dead (s.channels (s.state ep)) (s.my_id ep) content size
            (some (moved ∷ [])) 1) [
              | inl (fine, queued) ↦ inl (
                fine,
                ground (arith, ap (λ (f : ℕ → List KMessage). f (peer_of (s.my_id ep))) queued),
              )
              | inr (failed, unchanged) ↦ inr (failed, λ i. ground (arith, unchanged))
            ],
      )
