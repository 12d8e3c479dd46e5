-- ===== src/Kom/Syscall.antt =====
-- archs/kom/common/kom_syscalls.cpp: the system calls on channels and ports. Each finds an object by
-- its handle, which takes a reference, checks its type, runs its method and drops the reference.
pub mod References
pub mod Creation
pub mod Runs
pub mod Use
pub mod Accounts
pub mod Transfers
pub mod Conversation
pub mod Closing
pub mod Full
mod Tests
use singularity.Common.{
  ℕ, ◌+◌, Bool, true, false, not, ◌&&◌, ◌||◌, Option, none, some, ltb, if◌then◌else◌, update, List,
  [], ◌∷◌, ◌++◌, take,
}
use singularity.Kom.Error.{Error, ok, stale_handle, cap_denied, invalid_type, no_memory}
use singularity.Kom.Handle.{Kom, alloc, resolve, transfer}
use singularity.Kom.Container.{with_new}
use singularity.Kom.Channel
use singularity.Kom.Channel.{ChannelState, Heap, ReadRound, read_round}
use singularity.Kom.Port
use singularity.Kom.Port.{Packet, WaitRound, wait_round, new_port}
use singularity.Kom.System.{
  KObjectType, port, System, kap_read, kap_write, kap_wait, is_channel, is_port, maybe, ◌>>=◌,
  with_kom, unref,
}

abbrev pub returning : Error → Option System → Option (Error × System)
returning err none = none
returning err (some s) = some (err, s)

-- What a reader is given: the two sizes, and what was copied.
pub record Received : Type 0 where
  pub data_size : ℕ
  pub handle_count : ℕ
  pub content : Option (List ℕ)
  pub handles : Option (List ℕ)

-- A call returns (`none` is a panic), or blocks inside the method of an object.
pub data Outcome : Type 0 where
  returned : Option (Error × Received × System) → Outcome
  blocked : ℕ → System → Outcome

abbrev pub nothing : Received
nothing = record { data_size = 0; handle_count = 0; content = none; handles = none }

abbrev pub refused : Error → System → Outcome
refused err s = returned (some (err, nothing, s))

abbrev pub refused_with : Error → Option System → Outcome
refused_with err none = returned none
refused_with err (some s) = refused err s

pub data PortOutcome : Type 0 where
  returned : Option (Error × Option Packet × System) → PortOutcome
  blocked : ℕ → System → PortOutcome

abbrev pub with_channel : System → ℕ → ChannelState → Option ℕ → System
with_channel s obj c waiter = record s {
  channels = update s.channels (s.state obj) c;
  woken = s.woken ++ maybe waiter;
}

-- `is_dead` says which tasks are zombies or dead.
module _ (is_dead : ℕ → Bool) where
  -- The loop over `handles[0..handle_count)`.
  unfoldable pub transfer_all : Kom → List ℕ → Option (List ℕ × Kom)
  transfer_all k [] = some ([], k)
  transfer_all k (h ∷ hs) = do
    (h', k1) ← transfer k h
    (hs', k2) ← transfer_all k1 hs
    some (h' ∷ hs', k2)

  -- `moved_handles`, null when there is nothing to move.
  unfoldable pub move_handles : Kom → Option (List ℕ) → ℕ → Option (Option (List ℕ) × Kom)
  move_handles k none handle_count = some (none, k)
  move_handles k (some handles) handle_count =
      let moved = (do (hs, k') ← transfer_all k (take handle_count handles); some (some hs, k')) in
      if ltb 0 handle_count then moved else some (none, k)

  -- `ep->write(...)` on the endpoint `obj`.
  unfoldable pub write_at :
      Heap → System → ℕ → Option (List ℕ) → ℕ → Option (List ℕ) → ℕ → Error × System
  write_at heap s obj content data_size handles handle_count =
      let (err, waiter, c) =
        Channel.write heap is_dead (s.channels (s.state obj)) (s.my_id obj) content data_size
          handles handle_count in
      (err, with_channel s obj c waiter)

  -- `moved_ok` says that the `kmalloc` of `moved_handles` succeeds.
  unfoldable pub kom_channel_write :
      Heap → Bool → System → ℕ → Option (List ℕ) → ℕ → Option (List ℕ) → ℕ → Option (Error × System)
  kom_channel_write heap moved_ok s handle content data_size handles handle_count =
      let (found, k) = resolve s.kom handle kap_write in
      if not s.ready then some (stale_handle, s) else elim found [
        | none ↦ some (cap_denied, s)
        | some obj ↦
            let sent = (do
              (moved, k') ← move_handles k handles handle_count
              let r = write_at heap (with_kom s k') obj content data_size moved handle_count
              returning r.0 (unref is_dead r.1 obj)) in
            if not (is_channel (s.kind obj))
            then returning invalid_type (unref is_dead (with_kom s k) obj)
            else if ltb 0 handle_count && not (Channel.is_null handles) && not moved_ok
            then returning no_memory (unref is_dead (with_kom s k) obj)
            else sent
      ]

  -- What a round of `ep->read(...)` at `obj` leads to: a read that blocks goes on with a round at the
  -- same object once it is woken.
  unfoldable pub read_at : System → ℕ → ℕ → Bool → Option ℕ → Bool → Option ℕ → Outcome
  read_at s obj proc has_data data_size has_handles handle_count =
      elim (read_round (s.channels (s.state obj)) (s.my_id obj) proc has_data data_size has_handles
        handle_count) [
          | ReadRound.returns err size count content handles c ↦
              let got : Received = record {
                data_size = size;
                handle_count = count;
                content = content;
                handles = handles;
              } in
              returned (do s' ← unref is_dead (with_channel s obj c none) obj; some (err, got, s'))
          | ReadRound.blocks c ↦ blocked obj (with_channel s obj c none)
        ]

  unfoldable pub kom_channel_read : System → ℕ → ℕ → Bool → Option ℕ → Bool → Option ℕ → Outcome
  kom_channel_read s handle proc has_data data_size has_handles handle_count =
      let (found, k) = resolve s.kom handle kap_read in
      if not s.ready then refused stale_handle s else elim found [
        | none ↦ refused cap_denied s
        | some obj ↦
            if not (is_channel (s.kind obj))
            then refused_with invalid_type (unref is_dead (with_kom s k) obj)
            else read_at (with_kom s k) obj proc has_data data_size has_handles handle_count
      ]

  -- `port` is the address that `new` gives, `none` if it fails.
  unfoldable pub kom_port_create : Bool → System → Option ℕ → Option (Error × ℕ × System)
  kom_port_create has_out s none =
      if not s.ready || not has_out then some (invalid_type, 0, s) else some (no_memory, 0, s)
  kom_port_create has_out s (some p) =
      let s1 = record s {
        kom = record s.kom { objects = with_new s.kom.objects p };
        kind = update s.kind p port;
        ports = update s.ports p new_port;
      } in
      let (h, k) = alloc s1.kom (some p) (kap_read + kap_write + kap_wait) in
      let made = (do s2 ← unref is_dead (with_kom s1 k) p; some (ok, h, s2)) in
      if not s.ready || not has_out then some (invalid_type, 0, s) else made

  unfoldable pub kom_port_queue : Bool → System → ℕ → Option Packet → Option (Error × System)
  kom_port_queue allocated s handle packet =
      let (found, k) = resolve s.kom handle kap_write in
      if not s.ready then some (stale_handle, s) else elim found [
        | none ↦ some (cap_denied, s)
        | some obj ↦
            let (err, waiter, p) = Port.queue allocated is_dead (s.ports obj) packet in
            let s1 = record s {
              kom = k;
              ports = update s.ports obj p;
              woken = s.woken ++ maybe waiter;
            } in
            if not (is_port (s.kind obj))
            then returning invalid_type (unref is_dead (with_kom s k) obj)
            else returning err (unref is_dead s1 obj)
      ]

  -- What a round of `port->wait(...)` at `obj` leads to.
  unfoldable pub wait_at : System → ℕ → ℕ → Bool → PortOutcome
  wait_at s obj proc has_out = elim (wait_round (s.ports obj) proc has_out) [
    | WaitRound.returns err packet p ↦ PortOutcome.returned (do
      s' ← unref is_dead (record s { ports = update s.ports obj p }) obj
      some (err, packet, s'))
    | WaitRound.blocks p ↦ PortOutcome.blocked obj (record s { ports = update s.ports obj p })
  ]

  unfoldable pub kom_port_wait : System → ℕ → ℕ → Bool → PortOutcome
  kom_port_wait s handle proc has_out =
      let (found, k) = resolve s.kom handle (kap_wait + kap_read) in
      if not s.ready then PortOutcome.returned (some (stale_handle, none, s)) else elim found [
        | none ↦ PortOutcome.returned (some (cap_denied, none, s))
        | some obj ↦
            let mistyped = (do
              s' ← unref is_dead (with_kom s k) obj
              some (invalid_type, none, s')) in
            if not (is_port (s.kind obj))
            then PortOutcome.returned mistyped
            else wait_at (with_kom s k) obj proc has_out
      ]
