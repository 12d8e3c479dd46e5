-- ===== src/Kom/Channel/Delivery.antt =====
-- kchannel.cpp: what the two endpoints exchange.
use singularity.Common.{
  ℕ, ◌+◌, ◌-◌, ◌<◌, ◌≡◌, refl, Bool, true, false, not, ◌&&◌, Option, none, some, arith, ◌==◌,
  update, List, [], ◌∷◌, ◌++◌, All, ◌⊎◌, inl, inr, to_count, ◌≢◌,
}
use singularity.Kom.Error.{Error, ok}
use singularity.Kom.Channel.{
  KMessage, ChannelState, Heap, peer_of, kchannel_create, destroy, write, read_round, returns,
  blocks, copy,
}

-- A channel, the messages that `write` accepted for each endpoint, those that `read` handed out to it, and
-- whether the state was freed.
pub record Scene : Type 0 where
  pub channel : ChannelState
  pub sent : ℕ → List KMessage
  pub received : ℕ → List KMessage
  pub freed : Bool

abbrev pub or_empty : Option (List ℕ) → List ℕ
or_empty none = []
or_empty (some xs) = xs

-- The message that a `write` passes on.
abbrev pub message : Option (List ℕ) → ℕ → Option (List ℕ) → ℕ → KMessage
message content data_size handles handle_count = record {
  content = copy data_size content;
  data_size = data_size;
  handles = copy handle_count handles;
  handle_count = handle_count;
}

-- The message that a `read` handed out: the sizes that it returned and what it copied to the buffers.
abbrev pub got : ℕ → ℕ → Option (List ℕ) → Option (List ℕ) → KMessage
got size count content handles = record {
  content = or_empty content;
  data_size = size;
  handles = or_empty handles;
  handle_count = count;
}

abbrev pub add_to : (ℕ → List KMessage) → ℕ → List KMessage → ℕ → List KMessage
add_to f i xs = update f i (f i ++ xs)

-- One call on an endpoint that was not destroyed. A `read` that takes a message has both buffers.
pub data Step (s : Scene) : Scene → Type 0 where
  writes :
      (heap : Heap) (is_dead : ℕ → Bool) (my_id : ℕ) (content : Option (List ℕ)) (data_size : ℕ)
      (handles : Option (List ℕ)) (handle_count : ℕ) (woken : Option ℕ) (c : ChannelState)
      → my_id < 2
      → s.channel.closed my_id ≡ false
      → write heap is_dead s.channel my_id content data_size handles handle_count ≡ (ok, woken, c)
      → Step s (record s {
        channel = c;
        sent = add_to s.sent (peer_of my_id) (message content data_size handles handle_count ∷ []);
      })
  fails_to_write :
      (heap : Heap) (is_dead : ℕ → Bool) (my_id : ℕ) (content : Option (List ℕ)) (data_size : ℕ)
      (handles : Option (List ℕ)) (handle_count : ℕ) (error : Error) (woken : Option ℕ)
      (c : ChannelState)
      → my_id < 2
      → s.channel.closed my_id ≡ false
      → error ≢ ok
      → write heap is_dead s.channel my_id content data_size handles handle_count
        ≡ (error, woken, c)
      → Step s (record s { channel = c })
  reads :
      (my_id proc : ℕ) (data_size handle_count : Option ℕ) (size count : ℕ)
      (content handles : Option (List ℕ)) (c : ChannelState)
      → my_id < 2
      → s.channel.closed my_id ≡ false
      → read_round s.channel my_id proc true data_size true handle_count
        ≡ returns ok size count content handles c
      → Step s (record s {
        channel = c;
        received = add_to s.received my_id (got size count content handles ∷ []);
      })
  fails_to_read :
      (my_id proc : ℕ) (has_data has_handles : Bool) (data_size handle_count : Option ℕ)
      (error : Error) (size count : ℕ) (content handles : Option (List ℕ)) (c : ChannelState)
      → my_id < 2
      → s.channel.closed my_id ≡ false
      → error ≢ ok
      → read_round s.channel my_id proc has_data data_size has_handles handle_count
        ≡ returns error size count content handles c
      → Step s (record s { channel = c })
  waits :
      (my_id proc : ℕ) (has_data has_handles : Bool) (data_size handle_count : Option ℕ)
      (c : ChannelState)
      → my_id < 2
      → s.channel.closed my_id ≡ false
      → read_round s.channel my_id proc has_data data_size has_handles handle_count ≡ blocks c
      → Step s (record s { channel = c })
  closes :
      (is_dead : ℕ → Bool) (my_id : ℕ) (freed : Bool) (woken : Option ℕ) (c : ChannelState)
      → my_id < 2
      → s.channel.closed my_id ≡ false
      → destroy is_dead s.channel my_id ≡ (freed, woken, c)
      → Step s (record s { channel = c; freed = freed })

pub data Reach : Scene → Type 0 where
  created :
      (c : ChannelState)
      → kchannel_create true true true true ≡ (ok, some c)
      → Reach (record { channel = c; sent = λ _. []; received = λ _. []; freed = false })
  after : {s s' : Scene} → Reach s → Step s s' → Reach s'

-- A message of no bytes has no content, and one of no handles has no handles.
abbrev pub IsSized : KMessage → Type 0
IsSized m = (m.data_size ≡ 0 → m.content ≡ []) × (m.handle_count ≡ 0 → m.handles ≡ [])

-- What an endpoint that is open was sent is what it received and what waits for it, in order. One
-- that is closed received a first part of it. The state is freed once both are closed.
pub record IsDelivered (s : Scene) : Type 0 where
  pub complete :
      (i : ℕ) → (s.channel.closed i ≡ false) → s.received i ++ s.channel.queue i ≡ s.sent i
  pub prefix : (i : ℕ) → (rest : List KMessage) × (s.received i ++ rest ≡ s.sent i)
  pub sized : (i : ℕ) → All IsSized (s.channel.queue i)
  pub owners :
      s.channel.ref_count
      ≡ to_count (not (s.channel.closed 0)) + to_count (not (s.channel.closed 1))
  pub freed : s.freed ≡ s.channel.closed 0 && s.channel.closed 1

pub write-ok :
    (heap : Heap) (is_dead : ℕ → Bool) (k c : ChannelState) (my_id : ℕ) (content : Option (List ℕ))
    (data_size : ℕ) (handles : Option (List ℕ)) (handle_count : ℕ) (woken : Option ℕ)
    → write heap is_dead k my_id content data_size handles handle_count ≡ (ok, woken, c)
    → (c.queue
        ≡ add_to k.queue (peer_of my_id) (message content data_size handles handle_count ∷ []))
      × (c.closed ≡ k.closed)
      × (c.ref_count ≡ k.ref_count)
      × (k.closed (peer_of my_id) ≡ false)
unfolding write
write-ok heap is_dead k c my_id content data_size handles handle_count woken e = ground arith

-- A `write` that fails leaves the channel as it was.
pub write-error :
    (heap : Heap) (is_dead : ℕ → Bool) (k c : ChannelState) (my_id : ℕ) (content : Option (List ℕ))
    (data_size : ℕ) (handles : Option (List ℕ)) (handle_count : ℕ) (error : Error)
    (woken : Option ℕ)
    → error ≢ ok
    → write heap is_dead k my_id content data_size handles handle_count ≡ (error, woken, c)
    → c ≡ k
unfolding write
write-error heap is_dead k c my_id content data_size handles handle_count error woken ne e =
    ground arith

-- What a round of `read` that returns without an error took off the queue.
pub record Takes (k c : ChannelState) (my_id : ℕ) : Type 0 where
  pub head : KMessage
  pub rest : List KMessage
  pub queued : k.queue my_id ≡ head ∷ rest
  pub left : c.queue ≡ update k.queue my_id rest
  pub closed : c.closed ≡ k.closed
  pub ref_count : c.ref_count ≡ k.ref_count

pub List-cases :
    (xs : List KMessage) → (xs ≡ []) ⊎ ((m : KMessage) × (rest : List KMessage) × (xs ≡ m ∷ rest))
List-cases [] = inl refl
List-cases (m ∷ rest) = inr (m, rest, refl)

pub read-ok :
    (k c : ChannelState) (my_id proc : ℕ) (has_data has_handles : Bool)
    (data_size handle_count : Option ℕ) (size count : ℕ) (content handles : Option (List ℕ))
    → read_round k my_id proc has_data data_size has_handles handle_count
      ≡ returns ok size count content handles c
    → Takes k c my_id
unfolding read_round
read-ok k c my_id proc has_data has_handles none handle_count size count content handles e =
    absurd (ground arith)
read-ok k c my_id proc has_data has_handles (some d) none size count content handles e =
    absurd (ground arith)
read-ok k c my_id proc has_data has_handles (some d) (some h) size count content handles e =
    elim (List-cases (k.queue my_id)) [
      | inl empty ↦ absurd (ground arith)
      | inr (m, rest, queued) ↦ record {
        head = m;
        rest = rest;
        queued = queued;
        left = ground arith;
        closed = ground arith;
        ref_count = ground arith;
      }
    ]

-- What a `read` with both buffers hands out is the message that it took.
pub read-got :
    (k c : ChannelState) (my_id proc : ℕ) (data_size handle_count : Option ℕ) (size count : ℕ)
    (content handles : Option (List ℕ)) (head : KMessage) (rest : List KMessage)
    → read_round k my_id proc true data_size true handle_count
      ≡ returns ok size count content handles c
    → k.queue my_id ≡ head ∷ rest
    → IsSized head
    → head ≡ got size count content handles
unfolding read_round
read-got k c my_id proc none handle_count size count content handles head rest e queued sized =
    absurd (ground (arith, e))
read-got k c my_id proc (some d) none size count content handles head rest e queued sized =
    absurd (ground (arith, e))
read-got k c my_id proc (some d) (some h) size count content handles head rest e queued sized =
    ground (arith, e, queued, sized)

-- A `read` that returns an error leaves the channel as it was.
pub read-error :
    (k c : ChannelState) (my_id proc : ℕ) (has_data has_handles : Bool)
    (data_size handle_count : Option ℕ) (error : Error) (size count : ℕ)
    (content handles : Option (List ℕ))
    → error ≢ ok
    → read_round k my_id proc has_data data_size has_handles handle_count
      ≡ returns error size count content handles c
    → c ≡ k
unfolding read_round
read-error k c my_id proc has_data has_handles none h error size count content handles ne e =
    ground arith
read-error k c my_id proc has_data has_handles (some d) none error size count content handles ne e =
    ground arith
read-error k c my_id proc has_data has_handles (some d) (some h) error size count content handles ne
      e =
    elim (List-cases (k.queue my_id)) [
      | inl empty ↦ ground arith
      | inr (m, rest, queued) ↦ ground arith
    ]

pub read-blocks :
    (k c : ChannelState) (my_id proc : ℕ) (has_data has_handles : Bool)
    (data_size handle_count : Option ℕ)
    → read_round k my_id proc has_data data_size has_handles handle_count ≡ blocks c
    → (c.queue ≡ k.queue) × (c.closed ≡ k.closed) × (c.ref_count ≡ k.ref_count)
unfolding read_round
read-blocks k c my_id proc has_data has_handles none h e = absurd (ground arith)
read-blocks k c my_id proc has_data has_handles (some d) none e = absurd (ground arith)
read-blocks k c my_id proc has_data has_handles (some d) (some h) e =
    elim (List-cases (k.queue my_id)) [
      | inl empty ↦ ground arith
      | inr (m, rest, queued) ↦ absurd (ground arith)
    ]

pub destroy-eq :
    (is_dead : ℕ → Bool) (k c : ChannelState) (my_id : ℕ) (freed : Bool) (woken : Option ℕ)
    → destroy is_dead k my_id ≡ (freed, woken, c)
    → (c.queue ≡ update k.queue my_id [])
      × (c.closed ≡ update k.closed my_id true)
      × (c.ref_count ≡ k.ref_count - 1)
      × (freed ≡ (c.ref_count == 0))
unfolding destroy
destroy-eq is_dead k c my_id freed woken e = ground arith
