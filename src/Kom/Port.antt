-- ===== src/Kom/Port.antt =====
-- archs/kom/common/kport.cpp and kport.hpp: a queue of packets with blocking readers.
-- The linked list is a list. The part of a method that holds the spinlock is one step.
pub mod Packets
mod Tests
use singularity.Common.{
  ℕ, zero, suc, Bool, true, false, not, Option, none, some, if◌then◌else◌, List, [], ◌∷◌, ◌++◌,
  length,
}
use singularity.Kom.Error.{Error, ok, invalid_type, no_memory}
use singularity.Sync.WaitQueue.{wait_queue_push, wait_queue_pop_safe, wake_all}

-- `kom_port_packet_t`; `kind` is its field `type`, `status` is the bits of an `int32_t`.
pub record Packet : Type 0 where
  pub key : ℕ
  pub kind : ℕ
  pub status : ℕ

pub record KPort : Type 0 where
  pub packets : List Packet
  pub wait_q : List ℕ

abbrev pub new_port : KPort
new_port = record { packets = []; wait_q = [] }

-- `~KPort`: the tasks that are woken, and the port.
unfoldable pub destroy : (ℕ → Bool) → KPort → List ℕ × KPort
destroy is_dead p =
    let (woken, left) = wake_all (suc (length p.wait_q)) is_dead p.wait_q in
    (woken, record { packets = []; wait_q = left })

-- The error, the task that is woken, and the port.
unfoldable pub queue : Bool → (ℕ → Bool) → KPort → Option Packet → Error × Option ℕ × KPort
queue allocated is_dead p none = (invalid_type, none, p)
queue allocated is_dead p (some packet) =
    let (waiter, _, rest) = wait_queue_pop_safe is_dead p.wait_q in
    if not allocated
    then (no_memory, none, p)
    else (ok, waiter, record { packets = p.packets ++ (packet ∷ []); wait_q = rest })

-- A round of `wait`: it returns with a packet, or blocks and then makes another round.
pub data WaitRound : Type 0 where
  returns : Error → Option Packet → KPort → WaitRound
  blocks : KPort → WaitRound

-- `has_out` says that `out_packet` is not null.
unfoldable pub wait_round : KPort → ℕ → Bool → WaitRound
wait_round p proc false = returns invalid_type none p
wait_round p proc true = elim p.packets [
  | packet ∷ rest ↦ returns ok (some packet) (record p { packets = rest })
  | [] ↦ blocks (record p { wait_q = wait_queue_push p.wait_q proc })
]
