-- ===== src/Kom/Syscall/Runs.antt =====
-- kom_syscalls.cpp: the system calls as one step of a thread, and what a call may be given.
use singularity.Common.{ℕ, ◌^◌, ◌<◌, ◌≡◌, Bool, Option, none, some, List, ◌≢◌}
use singularity.Kom.Error.{Error}
use singularity.Kom.Channel.{Heap}
use singularity.Kom.Port.{Packet}
use singularity.Kom.System.{System, kom_open, kom_close, kom_duplicate, kom_channel_create}
use singularity.Kom.Syscall.{
  kom_channel_write, Outcome, PortOutcome, kom_channel_read, kom_port_create, kom_port_queue,
  kom_port_wait,
}

-- A system call by some thread, `proc` where it may block. `writes` passes no handles.
pub data SystemCall : Type 0 where
  opens : Option ℕ → ℕ → SystemCall
  closes : ℕ → SystemCall
  duplicates : ℕ → ℕ → SystemCall
  creates_channel : Bool → Bool → Bool → Bool → ℕ → ℕ → ℕ → SystemCall
  writes : Heap → Bool → ℕ → Option (List ℕ) → ℕ → Option (List ℕ) → SystemCall
  reads : ℕ → ℕ → Bool → Option ℕ → Bool → Option ℕ → SystemCall
  creates_port : Bool → Option ℕ → SystemCall
  queues : Bool → ℕ → Option Packet → SystemCall
  waits : ℕ → ℕ → Bool → SystemCall

-- What a call leaves: the object that a thread which blocks keeps a reference on, and the system.
abbrev pub after_outcome : Outcome → Option (Option ℕ × System)
after_outcome (Outcome.returned none) = none
after_outcome (Outcome.returned (some (err, got, s))) = some (none, s)
after_outcome (Outcome.blocked o s) = some (some o, s)

abbrev pub after_port : PortOutcome → Option (Option ℕ × System)
after_port (PortOutcome.returned none) = none
after_port (PortOutcome.returned (some (err, packet, s))) = some (none, s)
after_port (PortOutcome.blocked o s) = some (some o, s)

abbrev pub after_error : Option (Error × System) → Option (Option ℕ × System)
after_error none = none
after_error (some (err, s)) = some (none, s)

abbrev pub after_open : Option (ℕ × System) → Option (Option ℕ × System)
after_open none = none
after_open (some (h, s)) = some (none, s)

abbrev pub after_channel : Option (Error × ℕ × ℕ × System) → Option (Option ℕ × System)
after_channel none = none
after_channel (some (err, ha, hb, s)) = some (none, s)

abbrev pub after_create : Option (Error × ℕ × System) → Option (Option ℕ × System)
after_create none = none
after_create (some (err, h, s)) = some (none, s)

module _ (is_dead : ℕ → Bool) where
  unfoldable pub after : System → SystemCall → Option (Option ℕ × System)
  after s (opens target caps) = after_open (kom_open is_dead s target caps)
  after s (closes h) = after_error (kom_close is_dead s h)
  after s (duplicates h caps) = some (none, (kom_duplicate s h caps).1)
  after s (creates_channel has_out state_ok a_ok b_ok st a b) =
      after_channel (kom_channel_create is_dead has_out state_ok a_ok b_ok s st a b)
  after s (writes heap moved_ok h content size handles) =
      after_error (kom_channel_write is_dead heap moved_ok s h content size handles 0)
  after s (reads h proc has_data size has_handles count) =
      after_outcome (kom_channel_read is_dead s h proc has_data size has_handles count)
  after s (creates_port has_out p) = after_create (kom_port_create is_dead has_out s p)
  after s (queues allocated h packet) = after_error (kom_port_queue is_dead allocated s h packet)
  after s (waits h proc has_out) = after_port (kom_port_wait is_dead s h proc has_out)

-- Objects are made at addresses that nothing refers to, and rights are a `uint16_t`.
abbrev pub IsHonest : System → SystemCall → Type 0
IsHonest s (opens none caps) = Unit {0}
IsHonest s (opens (some target) caps) = (0 < s.kom.objects.ref_count target) × (caps < 2 ^ 16)
IsHonest s (duplicates h caps) = caps < 2 ^ 16
IsHonest s (creates_channel has_out state_ok a_ok b_ok st a b) =
    (s.kom.objects.ref_count a ≡ 0) × (s.kom.objects.ref_count b ≡ 0) × (a ≢ b)
IsHonest s (creates_port has_out (some p)) = s.kom.objects.ref_count p ≡ 0
IsHonest s _ = Unit {0}
