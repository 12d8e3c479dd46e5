-- ===== src/Kom/Syscall/Tests.antt =====
-- A channel with the endpoints 20 and 21 over the state 30, made in a system with an empty table.
use singularity.Common.{
  ℕ, ◌-◌, ◌≡◌, refl, Bool, true, false, Option, none, some, arith, ◌≢◌, ◌==◌, if◌then◌else◌, [],
  ◌∷◌, count_below-none, ◌⊎◌, sym, ap, subst, update,
}
use singularity.Kom.Object.{kobject_ref, kobject_unref}
use singularity.Kom.Error.{Error, ok, peer_closed}
use singularity.Kom.Handle.{
  HandleTable, capacity, empty_entry, alloc, live_object, resolve, has_caps,
}
use singularity.Kom.Handle.Inv.{Filled, Filled-Inv}
use singularity.Kom.Handle.Count.{names, gained}
use singularity.Kom.Channel
use singularity.Sync.WaitQueue.{wait_queue_pop_safe}
use singularity.Kom.Channel.{ChannelState, Heap, kchannel_create, peer_of}
use singularity.Kom.Channel.Delivery.{message}
use singularity.Kom.Port.{new_port}
use singularity.Kom.System.{
  System, process, unref, kom_channel_create, kap_read, kap_write, kom_close,
}
use singularity.Kom.Syscall.{kom_channel_write, kom_channel_read, Outcome}
use singularity.Kom.Syscall.References.{IsSound}
use singularity.Kom.Syscall.Runs.{after, creates_channel, SystemCall}
use singularity.Kom.Syscall.Use.{Sound}
use singularity.Kom.Syscall.Accounts.{after-Sound}
use singularity.Kom.Syscall.Transfers.{write-moves}
use singularity.Kom.Syscall.Conversation.{read-write_calls, received}
use singularity.Kom.Syscall.Closing.{read-close_call}
use singularity.Kom.Syscall.Full.{create-full}

abbrev no_channel : ChannelState
no_channel = record { queue = λ _. []; wait_q = λ _. []; closed = λ _. false; ref_count = 0 }

abbrev empty_table : HandleTable
empty_table = record {
  entries = λ i. empty_entry (if i == 0 then 0 else 1);
  freelist = λ i. capacity - 1 - i;
  freelist_top = capacity - 1;
}

abbrev empty : System
empty = record {
  ready = true;
  kom = record {
    table = empty_table;
    objects = record { ref_count = λ _. 0; deleted = λ _. false };
  };
  kind = λ _. process;
  state = λ _. 0;
  my_id = λ _. 0;
  channels = λ _. no_channel;
  ports = λ _. new_port;
  woken = [];
}

abbrev all_alive : ℕ → Bool
all_alive t = false

abbrev nobody : ℕ → ℕ
nobody o = 0

empty-Filled : Filled 0 empty_table
empty-Filled = record {
  top = refl;
  stack = λ i b. omega arith;
  empty = λ i. refl;
  plain = λ i. refl;
  first = λ i a b. ground arith;
}

empty-IsSound : IsSound nobody empty.kom
empty-IsSound = record {
  table = Filled-Inv empty_table empty-Filled;
  accounts = record {
    counted =
        λ o. ground (arith, count_below-none (names o) empty_table.entries capacity (λ i b. refl));
    kept = λ o pos. refl;
  };
}

abbrev creation : SystemCall
creation = creates_channel true true true true 30 20 21

after-Sound_example :
    Sound all_alive nobody (λ o. omega arith) empty empty-IsSound (after all_alive empty creation)
after-Sound_example =
    after-Sound all_alive nobody (λ o. omega arith) empty empty-IsSound creation
      (refl, refl, omega arith)

abbrev result : Option (Option ℕ × System) → Option ℕ × System
result none = (none, empty)
result (some r) = r

abbrev connected : System
connected = (result (after all_alive empty creation)).1

connected-IsSound : IsSound nobody connected.kom
unfolding after kom_channel_create kchannel_create unref kobject_unref alloc kobject_ref
connected-IsSound =
    let (held, s', e, v) =
      after-Sound all_alive nobody (λ o. omega arith) empty empty-IsSound creation
        (refl, refl, omega arith) in
    subst (λ (r : Option ℕ × System). IsSound (gained nobody r.0) r.1.kom) (sym (ap result e)) v

abbrev handle_a : ℕ
handle_a = 0xc400_0001_0000_0001

abbrev handle_b : ℕ
handle_b = 0xc400_0001_0000_0002

a_live : live_object connected.kom.table handle_a ≡ some 20
unfolding after kom_channel_create kchannel_create unref kobject_unref alloc kobject_ref live_object
a_live = refl

b_live : live_object connected.kom.table handle_b ≡ some 21
unfolding after kom_channel_create kchannel_create unref kobject_unref alloc kobject_ref live_object
b_live = refl

a_writes : (resolve connected.kom handle_a kap_write).0 ≡ some 20
unfolding after kom_channel_create kchannel_create unref kobject_unref alloc kobject_ref live_object
    resolve has_caps
a_writes = refl

b_reads : (resolve connected.kom handle_b kap_read).0 ≡ some 21
unfolding after kom_channel_create kchannel_create unref kobject_unref alloc kobject_ref live_object
    resolve has_caps
b_reads = refl

abbrev memory : Heap
memory = record { message_ok = true; content_ok = true; handles_ok = true }

-- The handle of `b` is sent through `a`.
write-moves_example :
    (moved : ℕ) × (err : Error) × (s' : System) × (kom_channel_write all_alive memory true connected
        handle_a
        (some (7 ∷ []))
        1
        (some (handle_b ∷ []))
        1
      ≡ some (err, s'))
    × (live_object s'.kom.table handle_b ≡ none)
    × (live_object s'.kom.table moved ≡ some 21)
    × (((err ≡ ok)
          × ((s'.channels 30).queue 1 ≡ message (some (7 ∷ [])) 1 (some (moved ∷ [])) 1 ∷ []))
        ⊎ ((err ≢ ok) × ((i : ℕ) → s'.channels i ≡ connected.channels i)))
unfolding after kom_channel_create kchannel_create unref kobject_unref alloc kobject_ref
write-moves_example =
    write-moves all_alive nobody (λ o. omega arith) connected connected-IsSound memory handle_a 20
      handle_b 21 (some (7 ∷ [])) 1 refl a_writes refl b_live

read-write_calls_example :
    (s1 : System) × (s2 : System) × (kom_channel_write all_alive memory true connected handle_a
        (some (7 ∷ []))
        1
        none
        0
      ≡ some (ok, s1))
    × (kom_channel_read all_alive s1 handle_b 5 true (some 4) true (some 0)
        ≡ Outcome.returned (some (ok, received 1 0 (some (7 ∷ [])) none, s2)))
unfolding after kom_channel_create kchannel_create unref kobject_unref alloc kobject_ref
    Channel.write wait_queue_pop_safe
read-write_calls_example =
    read-write_calls all_alive nobody (λ o. omega arith) connected connected-IsSound refl memory
      handle_a handle_b 20 21 5 (some (7 ∷ [])) 1 4 none
      (record (connected.channels 30) {
        queue = update (connected.channels 30).queue 1 (message (some (7 ∷ [])) 1 none 0 ∷ []);
        wait_q = update (connected.channels 30).wait_q 1 [];
      })
      a_writes b_reads refl refl refl refl refl (omega arith) refl

read-close_call_example :
    (s1 : System) × (s2 : System) × (kom_close all_alive connected handle_a ≡ some (ok, s1))
    × (s1.kom.objects.deleted 20 ≡ true)
    × (kom_channel_read all_alive s1 handle_b 5 true (some 4) true (some 2)
        ≡ Outcome.returned (some (peer_closed, received 4 2 none none, s2)))
unfolding after kom_channel_create kchannel_create unref kobject_unref alloc kobject_ref
read-close_call_example =
    read-close_call all_alive nobody (λ o. omega arith) connected connected-IsSound refl handle_a
      handle_b 20 21 5 4 2 a_live refl b_reads (omega arith) refl refl refl (omega arith) refl refl

abbrev full : System
full = record empty {
  kom = record { table = record empty_table { freelist_top = 0 }; objects = empty.kom.objects };
}

create-full_test :
    (s' : System) × (kom_channel_create all_alive true true true true full 30 20 21
      ≡ some (ok, 0, 0, s'))
    × (s'.kom.objects.deleted 20 ≡ true)
    × (s'.kom.objects.deleted 21 ≡ true)
create-full_test = create-full all_alive full 30 20 21 refl refl (omega arith)
