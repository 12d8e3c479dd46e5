-- ===== src/Kom/System.antt =====
-- archs/kom/common/kom_syscalls.cpp: what the system calls share, `System`: the handle table with the
-- reference counts, and the states of the channels and the ports; and the calls that make and drop
-- handles. Objects of other types have no state here, so nothing
-- follows from their `delete`. `none` is the panic of `kobject_unref`.
use singularity.Common.{
  ℕ, ◌+◌, ◌^◌, Bool, true, false, not, ◌||◌, Option, none, some, ◌==◌, if◌then◌else◌, update, List,
  [], ◌∷◌, ◌++◌,
}
use singularity.Kom.Error.{Error, ok, stale_handle, invalid_type}
use singularity.Kom.Object.{kobject_ref, kobject_unref}
use singularity.Kom.Handle
use singularity.Kom.Handle.{Kom, live_object, alloc, resolve, dup, transfer}
use singularity.Kom.Container.{with_new}
use singularity.Kom.Channel
use singularity.Kom.Channel.{ChannelState, Heap, ReadRound, read_round, kchannel_create}
use singularity.Kom.Port
use singularity.Kom.Port.{KPort, Packet, WaitRound, wait_round, new_port}

pub data KObjectType : Type 0 where
  process thread memory_object event interrupt timer channel port blob container : KObjectType
  device block_device char_device net_device gpu_device : KObjectType

-- An endpoint is an object with the address of the channel's state and its `my_id`. `ready` says
-- that `kernel_handle_table` is not null, `woken` lists the tasks that were made ready.
pub record System : Type 0 where
  pub ready : Bool
  pub kom : Kom
  pub kind : ℕ → KObjectType
  pub state : ℕ → ℕ
  pub my_id : ℕ → ℕ
  pub channels : ℕ → ChannelState
  pub ports : ℕ → KPort
  pub woken : List ℕ

abbrev pub kap_read : ℕ
kap_read = 2 ^ 15

abbrev pub kap_write : ℕ
kap_write = 2 ^ 14

abbrev pub kap_xfer : ℕ
kap_xfer = 2 ^ 10

abbrev pub kap_wait : ℕ
kap_wait = 2 ^ 9

abbrev pub is_channel : KObjectType → Bool
is_channel channel = true
is_channel _ = false

abbrev pub is_port : KObjectType → Bool
is_port port = true
is_port _ = false

abbrev pub maybe : Option ℕ → List ℕ
maybe none = []
maybe (some t) = t ∷ []

infixl 5 ◌>>=◌
abbrev pub ◌>>=◌ {ℓ κ} : {A : Type ℓ} {B : Type κ} → Option A → (A → Option B) → Option B
none >>= f = none
some a >>= f = f a

unfoldable pub kom_init : System → System
kom_init s = record s { ready = true; kom = record s.kom { table = Handle.init s.kom.table } }

abbrev pub with_kom : System → Kom → System
with_kom s k = record s { kom = k }

unfoldable pub kom_duplicate : System → ℕ → ℕ → ℕ × System
kom_duplicate s h caps =
    let (h', k) = dup s.kom h caps in if not s.ready then (0, s) else (h', with_kom s k)

-- Whether `close` drops the last reference.
abbrev pub deletes_last : Kom → ℕ → Bool
deletes_last k h = elim (live_object k.table h) [
  | none ↦ false
  | some o ↦ k.objects.ref_count o == 1
]

abbrev pub object_at : Kom → ℕ → ℕ
object_at k h = elim (live_object k.table h) [ none ↦ 0 | some o ↦ o ]

-- The objects `a` and `b` over a new state at `st`, with a reference each.
abbrev pub with_endpoints : System → ℕ → ℕ → ℕ → ChannelState → System
with_endpoints s st a b c = record s {
  kom = record s.kom { objects = with_new (with_new s.kom.objects a) b };
  kind = update (update s.kind a channel) b channel;
  state = update (update s.state a st) b st;
  my_id = update (update s.my_id a 0) b 1;
  channels = update s.channels st c;
}

abbrev pub channel_caps : ℕ
channel_caps = kap_read + kap_write + kap_xfer

-- `is_dead` says which tasks are zombies or dead.
module _ (is_dead : ℕ → Bool) where
  -- `~KChannelEndpoint` and `~KPort`.
  unfoldable pub delete : System → ℕ → System
  delete s obj =
      let (_, waiter, c) = Channel.destroy is_dead (s.channels (s.state obj)) (s.my_id obj) in
      let (waiters, p) = Port.destroy is_dead (s.ports obj) in
      if is_channel (s.kind obj)
      then record s {
        channels = update s.channels (s.state obj) c;
        woken = s.woken ++ maybe waiter;
      }
      else if is_port (s.kind obj)
      then record s { ports = update s.ports obj p; woken = s.woken ++ waiters }
      else s

  -- `kobject_unref` with the destructor that it runs at the last reference.
  unfoldable pub unref : System → ℕ → Option System
  unref s obj = do
    objects ← kobject_unref s.kom.objects obj
    let s' = with_kom s (record s.kom { objects = objects })
    some (if s.kom.objects.ref_count obj == 1 then delete s' obj else s')

  -- `target` is what `ons_resolve` found, with the reference that it takes.
  unfoldable pub kom_open : System → Option ℕ → ℕ → Option (ℕ × System)
  kom_open s none caps = some (0, s)
  kom_open s (some target) caps =
      let held = record s.kom { objects = kobject_ref s.kom.objects target } in
      let (h, k) = alloc held (some target) caps in
      let opened = (do s' ← unref (with_kom s k) target; some (h, s')) in
      if not s.ready then some (0, s) else opened

  unfoldable pub kom_close : System → ℕ → Option (Error × System)
  kom_close s h =
      let closed = (do
        k ← Handle.close s.kom h
        let s' = with_kom s k
        some (ok, if deletes_last s.kom h then delete s' (object_at s.kom h) else s')) in
      if not s.ready then some (stale_handle, s) else closed

  -- `has_out` says that neither out pointer is null; `state_ok`, `a_ok` and `b_ok` that the memory
  -- at `st`, `a` and `b` is given. The error with the two handles.
  unfoldable pub kom_channel_create :
      Bool → Bool → Bool → Bool → System → ℕ → ℕ → ℕ → Option (Error × ℕ × ℕ × System)
  kom_channel_create has_out state_ok a_ok b_ok s st a b =
      let (err, made) = kchannel_create true state_ok a_ok b_ok in
      if not s.ready || not has_out then some (invalid_type, 0, 0, s) else elim made [
        | none ↦ some (err, 0, 0, s)
        | some c ↦
            let s1 = with_endpoints s st a b c in
            let (ha, ka) = alloc s1.kom (some a) channel_caps in
            let (hb, kb) = alloc ka (some b) channel_caps in
            do s2 ← unref (with_kom s1 kb) a; s3 ← unref s2 b; some (ok, ha, hb, s3)
      ]
