-- ===== src/Kom/Channel/Calls.antt =====
-- kchannel.cpp: what single calls give their callers.
use singularity.Common.{
  ℕ, ◌≤◌, ◌<◌, ◌≡◌, Bool, true, false, ◌||◌, Option, none, some, arith, ltb, if◌then◌else◌, update,
  List, [], ◌∷◌, ◌++◌, inl, inr, ap, ◌∙◌, ◌⊎◌, ==_self,
}
use singularity.Kom.Error.{ok, buffer_too_small}
use singularity.Sync.WaitQueue.{living, pop-some}
use singularity.Kom.Channel.{
  KMessage, ChannelState, Heap, peer_of, destroy, write, read_round, returns, copy,
}
use singularity.Kom.Channel.Delivery.{List-cases, write-ok, message}

-- A message is read when both buffers are large enough.
read_round-fits :
    (c : ChannelState) (my_id proc data_size handle_count : ℕ) (m : KMessage) (rest : List KMessage)
    → c.queue my_id ≡ m ∷ rest
    → m.data_size ≤ data_size
    → m.handle_count ≤ handle_count
    → read_round c my_id proc true (some data_size) true (some handle_count)
      ≡ returns ok m.data_size m.handle_count
          (if ltb 0 m.data_size then some m.content else none)
          (if ltb 0 m.handle_count then some m.handles else none)
          (record c { queue = update c.queue my_id rest })
unfolding read_round
read_round-fits c my_id proc data_size handle_count m rest q d h =
    let large : (ltb data_size m.data_size || ltb handle_count m.handle_count) ≡ false =
      ground arith in
    rw (q, read_round, large) (ground arith)

-- A message that is written to a peer with nothing queued is what the peer's next `read` with large
-- enough buffers returns: the same sizes, the first bytes and handles of the writer's buffers (a
-- buffer of size 0 is left alone), and the queue is empty again.
pub read-write :
    (heap : Heap) (is_dead : ℕ → Bool) (k c : ChannelState) (my_id : ℕ) (content : Option (List ℕ))
    (size : ℕ) (handles : Option (List ℕ)) (count : ℕ) (woken : Option ℕ)
    (proc data_size handle_count : ℕ)
    → k.queue (peer_of my_id) ≡ []
    → write heap is_dead k my_id content size handles count ≡ (ok, woken, c)
    → size ≤ data_size
    → count ≤ handle_count
    → read_round c (peer_of my_id) proc true (some data_size) true (some handle_count)
      ≡ returns ok size count
          (if ltb 0 size then some (copy size content) else none)
          (if ltb 0 count then some (copy count handles) else none)
          (record c { queue = update c.queue (peer_of my_id) [] })
read-write heap is_dead k c my_id content size handles count woken proc data_size handle_count idle
      e d h =
    let (q, _, _, _) = write-ok heap is_dead k c my_id content size handles count woken e in
    let at : c.queue (peer_of my_id) ≡ message content size handles count ∷ [] =
      ap (λ (f : ℕ → List KMessage). f (peer_of my_id)) q
      ∙ rw (==_self (peer_of my_id))
          (ap (λ ys. ys ++ (message content size handles count ∷ [])) idle) in
    read_round-fits c (peer_of my_id) proc data_size handle_count
      (message content size handles count) [] at d h

-- What a `read` with too small buffers tells.
record Short (k c : ChannelState) (my_id data_size handle_count size count : ℕ) : Type 0 where
  head : KMessage
  rest : List KMessage
  queued : k.queue my_id ≡ head ∷ rest
  same : c ≡ k
  size_told : size ≡ head.data_size
  count_told : count ≡ head.handle_count
  short : (data_size < size) ⊎ (handle_count < count)

read_round-Short :
    (k c : ChannelState) (my_id proc data_size handle_count size count : ℕ)
    (content handles : Option (List ℕ))
    → read_round k my_id proc true (some data_size) true (some handle_count)
      ≡ returns buffer_too_small size count content handles c
    → Short k c my_id data_size handle_count size count
unfolding read_round
read_round-Short k c my_id proc data_size handle_count size count content handles e =
    elim (List-cases (k.queue my_id)) [
      | inl empty ↦ absurd (ground arith)
      | inr (m, rest, queued) ↦ record {
        head = m;
        rest = rest;
        queued = queued;
        same = ground arith;
        size_told = ground arith;
        count_told = ground arith;
        short = ground arith;
      }
    ]

-- A `read` whose buffers are too small leaves the channel alone and reports the sizes that the first
-- message needs: a second `read` with buffers of these sizes returns that message.
pub read-retry :
    (k c : ChannelState) (my_id proc data_size handle_count size count : ℕ)
    (content handles : Option (List ℕ))
    → read_round k my_id proc true (some data_size) true (some handle_count)
      ≡ returns buffer_too_small size count content handles c
    → (c ≡ k)
      × ((data_size < size) ⊎ (handle_count < count))
      × (m : KMessage) × (rest : List KMessage) × (k.queue my_id ≡ m ∷ rest)
      × (read_round c my_id proc true (some size) true (some count)
          ≡ returns ok size count
              (if ltb 0 size then some m.content else none)
              (if ltb 0 count then some m.handles else none)
              (record k { queue = update k.queue my_id rest }))
read-retry k c my_id proc data_size handle_count size count content handles e =
    let s = read_round-Short k c my_id proc data_size handle_count size count content handles e in
    let again =
      read_round-fits k my_id proc s.head.data_size s.head.handle_count s.head s.rest s.queued
        (omega arith) (omega arith) in
    (s.same, s.short, s.head, s.rest, s.queued, rw (s.same, s.size_told, s.count_told) again)

-- With two living tasks `t` and `u` that wait to read at the peer, destroying an endpoint wakes only
-- the first: `u` stays in the queue of an endpoint whose peer is closed.
pub destroy-strands :
    (is_dead : ℕ → Bool) (k : ChannelState) (my_id t u : ℕ) (us : List ℕ)
    → my_id < 2
    → living is_dead (k.wait_q (peer_of my_id)) ≡ t ∷ u ∷ us
    → let (_, woken, c) = destroy is_dead k my_id in
      (woken ≡ some t)
      × (living is_dead (c.wait_q (peer_of my_id)) ≡ u ∷ us)
      × (c.closed (peer_of (peer_of my_id)) ≡ true)
unfolding destroy
destroy-strands is_dead k my_id t u us id waits =
    let (found, left, _) = pop-some is_dead (k.wait_q (peer_of my_id)) t (u ∷ us) waits in
    (found, rw (==_self (peer_of my_id)) left, ground arith)
