-- ===== src/Kom/Channel/Invariant.antt =====
-- kchannel.cpp: what every use of a channel keeps true.
use singularity.Common.{
  ℕ, zero, suc, ◌+◌, ◌-◌, ◌<◌, ◌≡◌, Bool, true, false, not, ◌&&◌, arith, ◌==◌, update, List, [],
  ◌∷◌, ◌++◌, All, refl, Option, none, some, inl, inr, Bool-cases, to_count, ap, sym, ◌∙◌, subst,
}
use mathlib.Core.List.{append_assoc}
use singularity.Kom.Channel.{KMessage, ChannelState, peer_of, kchannel_create, copy}
use singularity.Kom.Channel.Delivery.{
  Scene, Step, writes, fails_to_write, reads, fails_to_read, waits, closes, Reach, created, after,
  IsDelivered, IsSized, add_to, message, got, read-got, write-ok, write-error, Takes, read-ok,
  read-error, read-blocks, destroy-eq,
}

-- The same message added to the queue and to what was sent.
grow :
    (f g h : ℕ → List KMessage) (p i : ℕ) (xs : List KMessage)
    → f i ++ g i ≡ h i
    → f i ++ add_to g p xs i ≡ add_to h p xs i
grow f g h p i xs e = elim (Bool-cases (p == i)) [
  | inl same ↦
      let at : p ≡ i = ground arith in
      rw same (
        subst (λ j. f i ++ (g j ++ xs) ≡ h j ++ xs) (sym at)
          (sym (append_assoc (f i) (g i) xs) ∙ ap (λ ys. ys ++ xs) e))
  | inr other ↦ rw other e
]

-- The head of the queue moved to what was received.
move :
    (f g h : ℕ → List KMessage) (p i : ℕ) (m : KMessage) (rest : List KMessage)
    → g p ≡ m ∷ rest
    → f i ++ g i ≡ h i
    → add_to f p (m ∷ []) i ++ update g p rest i ≡ h i
move f g h p i m rest q e = elim (Bool-cases (p == i)) [
  | inl same ↦
      let at : p ≡ i = ground arith in
      rw same (
        subst (λ j. (f j ++ (m ∷ [])) ++ rest ≡ h i) (sym at)
          (append_assoc (f i) (m ∷ []) rest
            ∙ ap (λ ys. f i ++ ys) (sym (subst (λ j. g j ≡ m ∷ rest) at q))
            ∙ e))
  | inr other ↦ rw other e
]

-- A step that changes neither queues, owners nor flags.
same-IsDelivered :
    (s : Scene) (c : ChannelState)
    → (c.queue ≡ s.channel.queue)
    → (c.closed ≡ s.channel.closed)
    → (c.ref_count ≡ s.channel.ref_count)
    → IsDelivered s
    → IsDelivered (record s { channel = c })
same-IsDelivered s c q l r v = record {
  complete = λ i alive. rw q (v.complete i (sym (ap (λ f. f i) l) ∙ alive));
  prefix = v.prefix;
  sized = λ i. rw q (v.sized i);
  owners = rw (r, l) v.owners;
  freed = rw l v.freed;
}

All-append_one :
    (P : KMessage → Type 0) (xs : List KMessage) (m : KMessage)
    → All P xs
    → P m
    → All P (xs ++ (m ∷ []))
All-append_one P [] m h p = (p, tt)
All-append_one P (x ∷ xs) m h p = (h.0, All-append_one P xs m h.1 p)

message-IsSized :
    (content : Option (List ℕ)) (size : ℕ) (handles : Option (List ℕ)) (count : ℕ)
    → IsSized (message content size handles count)
message-IsSized content size handles count = (
  λ e. ap (λ n. copy n content) e ∙ copy-zero content,
  λ e. ap (λ n. copy n handles) e ∙ copy-zero handles,
)
  where
    copy-zero : (xs : Option (List ℕ)) → copy 0 xs ≡ []
    copy-zero none = refl
    copy-zero (some xs) = refl

writes-IsDelivered :
    (s : Scene) (c : ChannelState) (p : ℕ) (m : KMessage)
    → (c.queue ≡ add_to s.channel.queue p (m ∷ []))
    → (c.closed ≡ s.channel.closed)
    → (c.ref_count ≡ s.channel.ref_count)
    → IsSized m
    → IsDelivered s
    → IsDelivered (record s { channel = c; sent = add_to s.sent p (m ∷ []) })
writes-IsDelivered s c p m q l r whole v = record {
  complete = λ i alive. rw q (
      grow s.received s.channel.queue s.sent p i (m ∷ [])
        (v.complete i (sym (ap (λ f. f i) l) ∙ alive)));
  prefix = λ i.
      let (rest, e) = v.prefix i in
      (add_to (λ _. rest) p (m ∷ []) i, grow s.received (λ _. rest) s.sent p i (m ∷ []) e);
  sized = λ i. rw q (elim (Bool-cases (p == i)) [
    | inl same ↦
        let at : p ≡ i = ground arith in
        rw same (All-append_one IsSized (s.channel.queue p) m (rw at (v.sized i)) whole)
    | inr other ↦ rw other (v.sized i)
  ]);
  owners = rw (r, l) v.owners;
  freed = rw l v.freed;
}

reads-IsDelivered :
    (s : Scene) (c : ChannelState) (my_id : ℕ) (m : KMessage)
    → s.channel.closed my_id ≡ false
    → (t : Takes s.channel c my_id) → (IsSized t.head → t.head ≡ m)
    → IsDelivered s
    → IsDelivered (record s { channel = c; received = add_to s.received my_id (m ∷ []) })
reads-IsDelivered s c my_id m alive t same_message v =
    let queue_sized : All IsSized (t.head ∷ t.rest) =
      subst (All IsSized) t.queued (v.sized my_id) in
    let handed = same_message queue_sized.0 in
    subst (λ m. IsDelivered (record s { channel = c; received = add_to s.received my_id (m ∷ []) }))
      handed
      (record {
        complete = λ i still_alive. rw t.left (
            move s.received s.channel.queue s.sent my_id i t.head t.rest t.queued
              (v.complete i (sym (ap (λ f. f i) t.closed) ∙ still_alive)));
        prefix = λ i. elim (Bool-cases (my_id == i)) [
          | inl same ↦
              let at : my_id ≡ i = ground arith in
              (
                update s.channel.queue my_id t.rest i,
                move s.received s.channel.queue s.sent my_id i t.head t.rest t.queued
                    (v.complete i (subst (λ j. s.channel.closed j ≡ false) at alive)),
              )
          | inr other ↦ let (rest, e) = v.prefix i in (rest, rw other e)
        ];
        sized = λ i. rw t.left (elim (Bool-cases (my_id == i)) [
          | inl same ↦ rw same queue_sized.1
          | inr other ↦ rw other (v.sized i)
        ]);
        owners = rw (t.ref_count, t.closed) v.owners;
        freed = rw t.closed v.freed;
      })

-- Closing one open endpoint leaves the other as the only owner.
closed-owners :
    (closed : ℕ → Bool) (my_id ref_count : ℕ)
    → my_id < 2
    → closed my_id ≡ false
    → ref_count ≡ to_count (not (closed 0)) + to_count (not (closed 1))
    → let closed' = update closed my_id true in
      (ref_count - 1 ≡ to_count (not (closed' 0)) + to_count (not (closed' 1)))
      × ((ref_count - 1 == 0) ≡ closed' 0 && closed' 1)
closed-owners closed zero ref_count id alive v = ground arith
closed-owners closed (suc zero) ref_count id alive v = ground arith
closed-owners closed (suc (suc i)) ref_count id alive v = absurd (omega arith)

closes-IsDelivered :
    (s : Scene) (c : ChannelState) (my_id : ℕ) (freed : Bool)
    → my_id < 2
    → s.channel.closed my_id ≡ false
    → (c.queue ≡ update s.channel.queue my_id [])
    → (c.closed ≡ update s.channel.closed my_id true)
    → (c.ref_count ≡ s.channel.ref_count - 1)
    → (freed ≡ (c.ref_count == 0))
    → IsDelivered s
    → IsDelivered (record s { channel = c; freed = freed })
closes-IsDelivered s c my_id freed id alive q l r f v =
    let counts = closed-owners s.channel.closed my_id s.channel.ref_count id alive v.owners in
    record {
      complete = λ i still_alive.
          let before : update s.channel.closed my_id true i ≡ false =
            sym (ap (λ g. g i) l) ∙ still_alive in
          elim (Bool-cases (my_id == i)) [
            | inl same ↦ absurd (ground arith)
            | inr other ↦ rw (q, other) (v.complete i (ground arith))
          ];
      prefix = v.prefix;
      sized = λ i. rw q (elim (Bool-cases (my_id == i)) [
        | inl same ↦ rw same tt
        | inr other ↦ rw other (v.sized i)
      ]);
      owners = rw (r, l) counts.0;
      freed = rw (f, r, l) counts.1;
    }

Step-IsDelivered : (s s' : Scene) → Step s s' → IsDelivered s → IsDelivered s'
Step-IsDelivered s s' (writes heap is_dead my_id content size handles count woken c id alive e) v =
    let (q, l, r, _) = write-ok heap is_dead s.channel c my_id content size handles count woken e in
    writes-IsDelivered s c (peer_of my_id) (message content size handles count) q l r
      (message-IsSized content size handles count) v
Step-IsDelivered s s'
      (fails_to_write heap is_dead my_id content size handles count error woken c id alive ne e) v =
    let same =
      write-error heap is_dead s.channel c my_id content size handles count error woken ne e in
    rw same v
Step-IsDelivered s s' (reads my_id proc d h size count content handles c id alive e) v =
    let t = read-ok s.channel c my_id proc true true d h size count content handles e in
    reads-IsDelivered s c my_id (got size count content handles) alive t
      (read-got s.channel c my_id proc d h size count content handles t.head t.rest e t.queued) v
Step-IsDelivered s s'
      (fails_to_read my_id proc has_data has_handles d h error size count content handles c id alive
        ne e)
      v =
    let same =
      read-error s.channel c my_id proc has_data has_handles d h error size count content handles ne
        e in
    rw same v
Step-IsDelivered s s' (waits my_id proc has_data has_handles d h c id alive e) v =
    let (q, l, r) = read-blocks s.channel c my_id proc has_data has_handles d h e in
    same-IsDelivered s c q l r v
Step-IsDelivered s s' (closes is_dead my_id freed woken c id alive e) v =
    let (q, l, r, f) = destroy-eq is_dead s.channel c my_id freed woken e in
    closes-IsDelivered s c my_id freed id alive q l r f v

-- However a new channel is used, its messages being read into buffers that are not null: what the
-- calls of `read` on an open endpoint handed out, followed by what is queued for it, is what its peer's successful writes sent, in order; a closed endpoint received a first part of
-- what it was sent; the owners are counted, and the state is freed exactly when both endpoints are
-- closed.
pub Reach-IsDelivered : (s : Scene) → Reach s → IsDelivered s
unfolding kchannel_create
Reach-IsDelivered _ (created c e) = ground arith
Reach-IsDelivered s' (after {s} r x) = Step-IsDelivered s s' x (Reach-IsDelivered s r)
