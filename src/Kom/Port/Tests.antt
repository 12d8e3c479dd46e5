-- ===== src/Kom/Port/Tests.antt =====
-- A port with one packet, and one that tasks 4 and 5 wait for.
use singularity.Common.{ℕ, ◌≡◌, refl, Bool, true, false, some, List, [], ◌∷◌, ◌++◌}
use singularity.Sync.WaitQueue.{living, to_list}
use singularity.Kom.Port.{Packet, KPort, new_port, queue, wait_round, destroy}
use singularity.Kom.Port.Packets.{
  Scene, Call, queues, waits, step, run, IsFifo, run-IsFifo, wakes-living,
}

abbrev tick : Packet
tick = record { key = 1; kind = 2; status = 0 }

abbrev none_dead : ℕ → Bool
none_dead _ = false

abbrev start : Scene
start = record { port = new_port; queued = []; given = [] }

abbrev calls : List Call
calls = queues true none_dead (some tick) ∷ waits 4 true ∷ waits 4 true ∷ []

run_test : (run start calls).given ≡ tick ∷ []
unfolding run step queue wait_round
run_test = refl

run-IsFifo_example : IsFifo (run start calls)
run-IsFifo_example = run-IsFifo start calls refl

abbrev awaited : KPort
awaited = record { packets = []; wait_q = 4 ∷ 5 ∷ [] }

wakes-living_test :
    (let (_, waiter, p') = queue true none_dead awaited (some tick) in
      4 ∷ 5 ∷ [] ≡ to_list waiter ++ living none_dead p'.wait_q)
    × (destroy none_dead awaited ≡ (4 ∷ 5 ∷ [], new_port))
wakes-living_test = wakes-living none_dead awaited tick
