-- ===== src/Kom/Channel.antt =====
-- archs/kom/common/kchannel.cpp and kchannel.hpp: the two endpoints of a message channel.
-- The arrays over the endpoints 0 and 1 are functions, a linked list of messages is a list. The
-- part of a method that holds the spinlock is one step with what comes before it; `is_dead` says
-- which tasks are zombies or dead.
pub mod Delivery
pub mod Invariant
pub mod Calls
mod Tests
use singularity.Common.{
  ℕ, ◌+◌, ◌-◌, Bool, true, false, not, ◌&&◌, ◌||◌, Option, none, some, ◌==◌, ltb, if◌then◌else◌,
  update, List, [], ◌∷◌, ◌++◌, take,
}
use singularity.Kom.Error.{Error, ok, invalid_type, no_memory, peer_closed, buffer_too_small}
use singularity.Sync.WaitQueue.{wait_queue_push, wait_queue_pop_safe}

-- `content` is the field `data`.
pub record KMessage : Type 0 where
  pub content : List ℕ
  pub data_size : ℕ
  pub handles : List ℕ
  pub handle_count : ℕ

pub record ChannelState : Type 0 where
  pub queue : ℕ → List KMessage
  pub wait_q : ℕ → List ℕ
  pub closed : ℕ → Bool
  pub ref_count : ℕ

-- `peer_id`
abbrev pub peer_of : ℕ → ℕ
peer_of my_id = if my_id == 0 then 1 else 0

-- `kchannel_create`: the state, or an error when an out pointer is null, or when `kmalloc` or one of
-- the two `new` fails.
unfoldable pub kchannel_create : Bool → Bool → Bool → Bool → Error × Option ChannelState
kchannel_create has_out state_ok a_ok b_ok =
    if not has_out
    then (invalid_type, none)
    else if not state_ok
    then (no_memory, none)
    else if not a_ok || not b_ok
    then (no_memory, none)
    else (
      ok,
      some (record { queue = λ _. []; wait_q = λ _. []; closed = λ _. false; ref_count = 2 }),
    )

-- `~KChannelEndpoint`: whether the state is freed, the task that is woken, and the state.
unfoldable pub destroy : (ℕ → Bool) → ChannelState → ℕ → Bool × Option ℕ × ChannelState
destroy is_dead c my_id =
    let peer_id = peer_of my_id in
    let (waiting_peer, _, rest) = wait_queue_pop_safe is_dead (c.wait_q peer_id) in
    (
      c.ref_count - 1 == 0,
      waiting_peer,
      record {
        queue = update c.queue my_id [];
        wait_q = update c.wait_q peer_id rest;
        closed = update c.closed my_id true;
        ref_count = c.ref_count - 1;
      },
    )

-- Whether each `kmalloc` of `write` succeeds.
pub record Heap : Type 0 where
  pub message_ok : Bool
  pub content_ok : Bool
  pub handles_ok : Bool

abbrev pub is_null : Option (List ℕ) → Bool
is_null none = true
is_null (some _) = false

-- `memcpy` of the first `n` from a buffer.
abbrev pub copy : ℕ → Option (List ℕ) → List ℕ
copy n none = []
copy n (some xs) = take n xs

-- The error, the task that is woken, and the state.
unfoldable pub write :
    Heap
    → (ℕ → Bool)
    → ChannelState
    → ℕ
    → Option (List ℕ)
    → ℕ
    → Option (List ℕ)
    → ℕ
    → Error × Option ℕ × ChannelState
write heap is_dead c my_id content data_size handles handle_count =
    let peer_id = peer_of my_id in
    let msg : KMessage = record {
      content = copy data_size content;
      data_size = data_size;
      handles = copy handle_count handles;
      handle_count = handle_count;
    } in
    let (waiting_peer, _, rest) = wait_queue_pop_safe is_dead (c.wait_q peer_id) in
    if ltb 0 data_size && is_null content
    then (invalid_type, none, c)
    else if ltb 0 handle_count && is_null handles
    then (invalid_type, none, c)
    else if not heap.message_ok
    then (no_memory, none, c)
    else if ltb 0 data_size && not heap.content_ok
    then (no_memory, none, c)
    else if ltb 0 handle_count && not heap.handles_ok
    then (no_memory, none, c)
    else if c.closed peer_id
    then (peer_closed, none, c)
    else (
      ok,
      waiting_peer,
      record c {
        queue = update c.queue peer_id (c.queue peer_id ++ (msg ∷ []));
        wait_q = update c.wait_q peer_id rest;
      },
    )

-- What a round of `read` does: it returns an error with the two sizes and what it copied, `none` for
-- a buffer that it left alone, or it blocks and then makes another round.
pub data ReadRound : Type 0 where
  returns : Error → ℕ → ℕ → Option (List ℕ) → Option (List ℕ) → ChannelState → ReadRound
  blocks : ChannelState → ReadRound

-- `has_data` and `has_handles` say that the two buffers are not null; `data_size` and
-- `handle_count` are null or point to the sizes of the buffers.
unfoldable pub read_round : ChannelState → ℕ → ℕ → Bool → Option ℕ → Bool → Option ℕ → ReadRound
read_round c my_id proc has_data none has_handles handle_count =
    returns invalid_type 0 0 none none c
read_round c my_id proc has_data (some data_size) has_handles none =
    returns invalid_type data_size 0 none none c
read_round c my_id proc has_data (some data_size) has_handles (some handle_count) =
    elim (c.queue my_id) [
      | msg ∷ rest ↦
          if ltb data_size msg.data_size || ltb handle_count msg.handle_count
          then returns buffer_too_small msg.data_size msg.handle_count none none c
          else returns ok msg.data_size msg.handle_count
              (if ltb 0 msg.data_size && has_data then some msg.content else none)
              (if ltb 0 msg.handle_count && has_handles then some msg.handles else none)
              (record c { queue = update c.queue my_id rest })
      | [] ↦
          if c.closed (peer_of my_id)
          then returns peer_closed data_size handle_count none none c
          else blocks
              (record c { wait_q = update c.wait_q my_id (wait_queue_push (c.wait_q my_id) proc) })
    ]
