-- ===== src/Client/Threads.antt =====
-- The network thread of a UdpClient beside the thread that owns it: udp_client.cpp. The client is the only
-- one of its process. A step is what one thread does between two points at which the other may come
-- in: the network thread's are named by `Pc`, and the owner waits only in `join`. The owner keeps a
-- state of its own of type X, which the data callback changes on the network thread.
pub mod Inv
pub mod Connections
pub mod Safety
pub mod Join
use Prim.Native.String.{String}
use kb_networking_cpp.Prelude.{
  ℕ, ◌≡◌, Bool, true, false, not, ◌||◌, List, [], ◌∷◌, Option, none, some, if◌then◌else◌, ◌==◌,
}
use kb_networking_cpp.Prelude.Int.{pos}
use kb_networking_cpp.Packet.Bytes.{Bytes}
use kb_networking_cpp.Packet.Header.{k_invalid_connection}
use kb_networking_cpp.Steam.{Steam, Message, StatusChange, Received, messages, invalid_handle}
use kb_networking_cpp.Client.Object.{
  UdpClient, ClientHost, k_default_poll_message_count, connect, send_raw,
  on_connection_status_changed,
}
use kb_networking_cpp.Client.Poll.{IncomingViewMessage, view}

-- Where the network thread stands: it has ended, or was not started; before the test of its loop;
-- before the test of `poll`; in poll_messages, before it receives; in the loop of the callbacks, with
-- the messages left and all messages; in the loop of the releases; before RunCallbacks; in it.
pub data Pc : Type 0 where
  ended at_test at_running at_receive at_callbacks : Pc
  at_calls : List Message → List Message → Pc
  at_releases : List Message → Pc
  at_changes : List StatusChange → Pc

abbrev pub is_ended : Pc → Bool
is_ended ended = true
is_ended pc = false

-- Is the owner in `stop`, in the call of `join`?
pub data Owner : Type 0 where
  ready joining : Owner

pub record System (steam : Steam) (D X : Type 0) : Type 0 where
  pub client : UdpClient D
  pub state : X
  pub host : ClientHost steam
  pub pc : Pc
  pub owner : Owner

-- What the network thread reads and writes: where it stands, the client, the owner's state and the
-- world with s_instance.
abbrev pub View : Steam → Type 0 → Type 0 → Type 0
View steam D X = Pc × UdpClient D × X × ClientHost steam

module _ (steam : Steam) {D X : Type 0}
    (call : D → IncomingViewMessage → X × steam.World → X × steam.World) where
  open steam use {World}

  -- if (m_callbacks.m_on_data_received)
  unfoldable pub loop_at : Option D → List Message → Pc
  loop_at none received = at_releases received
  loop_at (some callback) received = at_calls received received

  unfoldable pub received_at : Option D → Received → Option Pc
  unfolding loop_at
  received_at callback invalid_handle = none
  received_at callback (messages received) = some (loop_at callback received)

  -- A call of a callback that is not set throws, and poll_messages is noexcept: a fault.
  unfoldable pub called : Option D → ℕ → Message → X × World → Option (X × World)
  called (some callback) conn message e = some (call callback (view conn message) e)
  called none conn message e = none

  unfoldable pub then_at : Option Pc → UdpClient D → X → ClientHost steam → Option (View steam D X)
  then_at none c x h = none
  then_at (some pc) c x h = some (pc, c, x, h)

  unfoldable pub then_calls :
      Option (X × World)
      → List Message
      → List Message
      → UdpClient D
      → ClientHost steam
      → Option (View steam D X)
  then_calls none rest received c h = none
  then_calls (some (x, w)) rest received c h =
      some (at_calls rest received, c, x, record h { world = w })

  -- connection_status_changed_callback
  unfoldable pub changed :
      Option ℕ → StatusChange → UdpClient D → ClientHost steam → UdpClient D × ClientHost steam
  changed none p_info c h = (c, h)
  changed (some p) p_info c h =
      let (c', w) = on_connection_status_changed steam p_info c h.world in
      (c', record h { world = w })

  -- One step of the network thread; none is a fault.
  unfoldable pub thread_step : Pc → UdpClient D → X → ClientHost steam → Option (View steam D X)
  unfolding received_at called then_at then_calls changed
  thread_step ended c x h = some (ended, c, x, h)
  thread_step at_test c x h = some (if c.running then at_running else ended, c, x, h)
  thread_step at_running c x h = some (if c.running then at_receive else at_test, c, x, h)
  thread_step at_receive c x h =
      let (received, w) =
        steam.receive_messages_on_connection c.conn k_default_poll_message_count h.world in
      let polled = then_at (received_at c.on_data_received received) c x (record h { world = w }) in
      if not c.has_interface || c.conn == k_invalid_connection
      then some (at_callbacks, c, x, h)
      else polled
  thread_step (at_calls [] received) c x h = some (at_releases received, c, x, h)
  thread_step (at_calls (message ∷ rest) received) c x h =
      then_calls (called c.on_data_received c.conn message (x, h.world)) rest received c h
  thread_step (at_releases []) c x h = some (at_callbacks, c, x, h)
  thread_step (at_releases (message ∷ rest)) c x h =
      some (at_releases rest, c, x, record h { world = steam.release message h.world })
  thread_step at_callbacks c x h =
      let (changes, w) = steam.run_callbacks h.world in
      if c.has_interface
      then some (at_changes changes, c, x, record h { world = w })
      else some (at_test, c, x, h)
  thread_step (at_changes []) c x h = some (at_test, c, x, h)
  thread_step (at_changes (change ∷ changes)) c x h =
      let (c', h') = changed h.instance_ptr change c h in some (at_changes changes, c', x, h')

module _ (steam : Steam) {D : Type 0} where
  -- `stop` up to the join.
  unfoldable pub stop_begin : UdpClient D → ClientHost steam → UdpClient D × ClientHost steam
  stop_begin c h = (record c { running = false }, record h { instance_ptr = none })

  -- `stop` behind the join.
  unfoldable pub stop_rest : UdpClient D → ClientHost steam → UdpClient D × ClientHost steam
  stop_rest c h =
      let joined = record c { network_thread = false } in
      let closed =
        steam.close_connection c.conn (pos 0) (some "UdpClient disconnecting") true h.world in
      if c.conn == k_invalid_connection
      then (joined, h)
      else (record joined { conn = k_invalid_connection }, record h { world = closed })

-- `connect` starts the thread whether or not it has a connection, unless the client runs.
abbrev pub started_at : Bool → Pc → Pc
started_at was_running pc = if was_running then pc else at_test

module _ (steam : Steam) {D X : Type 0} where
  abbrev pub new_system : UdpClient D → X → ClientHost steam → System steam D X
  new_system c x h = record { client = c; state = x; host = h; pc = ended; owner = ready }

module _ (steam : Steam) {D X : Type 0}
    (call : D → IncomingViewMessage → X × steam.World → X × steam.World) where
  -- A step of either thread. The owner gets past the join of `stop` when the network thread has ended.
  pub data Step (y : System steam D X) : System steam D X → Type 0 where
    thread_moves :
        (pc : Pc) (c : UdpClient D) (x : X) (h : ClientHost steam)
        → thread_step steam call y.pc y.client y.state y.host ≡ some (pc, c, x, h)
        → Step y (record y { client = c; state = x; host = h; pc = pc })
    connects :
        (address : String) (port : ℕ) (ok : Bool) (c : UdpClient D) (h : ClientHost steam)
        → y.owner ≡ ready
        → connect steam address port y.client y.host ≡ some (ok, c, h)
        → Step y (record y { client = c; host = h; pc = started_at y.client.running y.pc })
    sends :
        (d : Bytes) (n : ℕ) (reliable : Bool)
        → y.owner ≡ ready
        → Step y (record y {
          host = record y.host { world = (send_raw steam d n reliable y.client y.host.world).1 };
        })
    stops_idle :
        y.owner ≡ ready
        → y.client.running ≡ false
        → Step y (record y { host = record y.host { instance_ptr = none } })
    stop_begins :
        y.owner ≡ ready
        → y.client.running ≡ true
        → Step y (record y {
          client = (stop_begin steam y.client y.host).0;
          host = (stop_begin steam y.client y.host).1;
          owner = joining;
        })
    stop_ends :
        y.owner ≡ joining
        → is_ended y.pc ≡ true
        → Step y (record y {
          client = (stop_rest steam y.client y.host).0;
          host = (stop_rest steam y.client y.host).1;
          owner = ready;
        })

  -- From a client that was created, with its callback set, and not connected.
  pub data Reach (c : UdpClient D) (x : X) (h : ClientHost steam) : System steam D X → Type 0 where
    here : Reach c x h (new_system steam c x h)
    next : {y z : System steam D X} → Reach c x h y → Step y z → Reach c x h z
