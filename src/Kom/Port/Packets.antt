-- ===== src/Kom/Port/Packets.antt =====
-- kport.cpp: which packets come out of a port, and whom its destruction wakes.
use singularity.Common.{
  ℕ, suc, ◌≡◌, refl, Bool, true, false, Option, none, some, arith, List, [], ◌∷◌, ◌++◌, length, ap,
  sym, ◌∙◌,
}
use mathlib.Core.List.{append_assoc, append-nil}
use singularity.Sync.WaitQueue.{living, to_list, wake_all-living, pop-living}
use singularity.Kom.Error.{Error, ok}
use singularity.Kom.Port.{
  Packet, KPort, new_port, queue, WaitRound, returns, blocks, wait_round, destroy,
}

-- A port, the packets for which `queue` returned `KOM_OK` and those that `wait` gave out.
pub record Scene : Type 0 where
  pub port : KPort
  pub queued : List Packet
  pub given : List Packet

-- A call by some task.
pub data Call : Type 0 where
  queues : Bool → (ℕ → Bool) → Option Packet → Call
  waits : ℕ → Bool → Call

-- The packet that a call of `queue` took, by the error that it returned: its caller has no other
-- sign that the packet is in the port.
abbrev pub accepted : Error → Option Packet → List Packet
accepted ok (some packet) = packet ∷ []
accepted _ _ = []

abbrev pub given_by : WaitRound → List Packet
given_by (returns _ none _) = []
given_by (returns _ (some packet) _) = packet ∷ []
given_by (blocks _) = []

abbrev pub port_after : WaitRound → KPort
port_after (returns _ _ p) = p
port_after (blocks p) = p

unfoldable pub step : Scene → Call → Scene
step s (queues allocated is_dead packet) =
    let (error, _, port) = queue allocated is_dead s.port packet in
    record s { port = port; queued = s.queued ++ accepted error packet }
step s (waits proc has_out) =
    let r = wait_round s.port proc has_out in
    record s { port = port_after r; given = s.given ++ given_by r }

unfoldable pub run : Scene → List Call → Scene
run s [] = s
run s (c ∷ cs) = run (step s c) cs

-- What was given out and what is in the port make up what was queued.
abbrev pub IsFifo : Scene → Type 0
IsFifo s = s.given ++ s.port.packets ≡ s.queued

queue-packets :
    (allocated : Bool) (is_dead : ℕ → Bool) (p : KPort) (packet : Option Packet)
    → let (error, _, p') = queue allocated is_dead p packet in
      p'.packets ≡ p.packets ++ accepted error packet
unfolding queue
queue-packets allocated is_dead p none = sym (append-nil p.packets)
queue-packets false is_dead p (some packet) = sym (append-nil p.packets)
queue-packets true is_dead p (some packet) = refl

wait-packets :
    (p : KPort) (proc : ℕ) (has_out : Bool)
    → given_by (wait_round p proc has_out) ++ (port_after (wait_round p proc has_out)).packets
      ≡ p.packets
unfolding wait_round
wait-packets p proc false = refl
wait-packets p proc true = go p.packets refl
  where
    go :
        (ps : List Packet)
        → p.packets ≡ ps
        → given_by (wait_round p proc true) ++ (port_after (wait_round p proc true)).packets
          ≡ p.packets
    go [] e = rw (e, wait_round) (ground arith)
    go (packet ∷ rest) e = rw (e, wait_round) (ground arith)

step-IsFifo : (s : Scene) (c : Call) → IsFifo s → IsFifo (step s c)
unfolding step
step-IsFifo s (queues allocated is_dead packet) v =
    let taken = accepted (queue allocated is_dead s.port packet).0 packet in
    rw (queue-packets allocated is_dead s.port packet)
      (sym (append_assoc s.given s.port.packets taken) ∙ ap (λ ps. ps ++ taken) v)
step-IsFifo s (waits proc has_out) v =
    let r = wait_round s.port proc has_out in
    append_assoc s.given (given_by r) (port_after r).packets
    ∙ ap (λ ps. s.given ++ ps) (wait-packets s.port proc has_out)
    ∙ v

-- However a port is used from a state where this holds, as in a new one, the packets that `wait` gave
-- out, followed by those still in the port, are the packets for which `queue` returned `KOM_OK`, in
-- order: none is lost, doubled or overtaken.
pub run-IsFifo : (s : Scene) (cs : List Call) → IsFifo s → IsFifo (run s cs)
unfolding run
run-IsFifo s [] v = v
run-IsFifo s (c ∷ cs) v = run-IsFifo (step s c) cs (step-IsFifo s c v)

-- `queue` wakes the first living task that waits, whenever it accepts a packet, and `~KPort` wakes
-- all of them, in order, so that none is left waiting.
pub wakes-living :
    (is_dead : ℕ → Bool) (p : KPort) (packet : Packet)
    → (let (_, waiter, p') = queue true is_dead p (some packet) in
        living is_dead p.wait_q ≡ to_list waiter ++ living is_dead p'.wait_q)
      × (destroy is_dead p ≡ (living is_dead p.wait_q, new_port))
unfolding queue destroy
wakes-living is_dead p packet = (
  pop-living is_dead p.wait_q,
  (let all = wake_all-living (suc (length p.wait_q)) is_dead p.wait_q (omega arith) in
      rw (all, destroy) refl),
)
