-- ===== src/Kom/Channel/Tests.antt =====
-- A new channel, on which endpoint 0 writes the bytes 1 and 2 with the handle 9.
use singularity.Common.{
  ℕ, ◌<◌, ◌≡◌, refl, Bool, true, false, none, some, arith, update, List, [], ◌∷◌, ◌⊎◌,
}
use singularity.Kom.Error.{ok, buffer_too_small, peer_closed}
use singularity.Sync.WaitQueue.{wait_queue_pop_safe, living}
use singularity.Kom.Channel.{
  KMessage, ChannelState, Heap, kchannel_create, destroy, write, read_round, returns,
}
use singularity.Kom.Channel.Delivery.{Scene, Reach, created, after, writes, IsDelivered}
use singularity.Kom.Channel.Invariant.{Reach-IsDelivered}
use singularity.Kom.Channel.Calls.{read-write, read-retry, destroy-strands}

abbrev new_channel : ChannelState
new_channel = record { queue = λ _. []; wait_q = λ _. []; closed = λ _. false; ref_count = 2 }

abbrev full : Heap
full = record { message_ok = true; content_ok = true; handles_ok = true }

abbrev none_dead : ℕ → Bool
none_dead _ = false

abbrev greeting : KMessage
greeting = record { content = 1 ∷ 2 ∷ []; data_size = 2; handles = 9 ∷ []; handle_count = 1 }

abbrev written : ChannelState
written = (write full none_dead new_channel 0 (some (1 ∷ 2 ∷ [])) 2 (some (9 ∷ [])) 1).2

write_ok :
    write full none_dead new_channel 0 (some (1 ∷ 2 ∷ [])) 2 (some (9 ∷ [])) 1 ≡ (ok, none, written)
unfolding write wait_queue_pop_safe
write_ok = refl

write_test : written.queue 1 ≡ greeting ∷ []
unfolding write
write_test = refl

closed_test :
    (write full none_dead (destroy none_dead new_channel 1).2 0 none 0 none 0).0 ≡ peer_closed
unfolding write destroy
closed_test = refl

abbrev greeted : Scene
greeted = record {
  channel = written;
  sent = update (λ _. []) 1 (greeting ∷ []);
  received = λ _. [];
  freed = false;
}

greeted-Reach : Reach greeted
unfolding kchannel_create
greeted-Reach = after (created new_channel refl) (
    writes full none_dead 0 (some (1 ∷ 2 ∷ [])) 2 (some (9 ∷ [])) 1 none written (omega arith) refl
      write_ok)

Reach-IsDelivered_example : IsDelivered greeted
Reach-IsDelivered_example = Reach-IsDelivered greeted greeted-Reach

read-write_test :
    read_round written 1 5 true (some 8) true (some 4)
    ≡ returns ok 2 1
        (some (1 ∷ 2 ∷ []))
        (some (9 ∷ []))
        (record written { queue = update written.queue 1 [] })
read-write_test =
    read-write full none_dead new_channel written 0 (some (1 ∷ 2 ∷ [])) 2 (some (9 ∷ [])) 1 none 5 8
      4 refl write_ok (omega arith) (omega arith)

too_small :
    read_round written 1 5 true (some 1) true (some 4)
    ≡ returns buffer_too_small 2 1 none none written
unfolding read_round write
too_small = refl

read-retry_test :
    (written ≡ written)
    × ((1 < 2) ⊎ (4 < 1))
    × (m : KMessage) × (rest : List KMessage) × (written.queue 1 ≡ m ∷ rest)
    × (read_round written 1 5 true (some 2) true (some 1)
        ≡ returns ok 2 1
            (some m.content)
            (some m.handles)
            (record written { queue = update written.queue 1 rest }))
read-retry_test = read-retry written written 1 5 1 4 2 1 none none too_small

abbrev two_wait : ChannelState
two_wait = record new_channel { wait_q = λ _. 4 ∷ 5 ∷ [] }

destroy-strands_test :
    let (_, woken, c) = destroy none_dead two_wait 0 in
    (woken ≡ some 4) × (living none_dead (c.wait_q 1) ≡ 5 ∷ []) × (c.closed 0 ≡ true)
destroy-strands_test = destroy-strands none_dead two_wait 0 4 5 [] (omega arith) refl
