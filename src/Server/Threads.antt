-- ===== src/Server/Threads.antt =====
-- The network thread of a UdpServer beside the thread that owns it: udp_server.cpp. The server is the
-- only one of its process, and has its interface. A step is what one thread does between two points at which the other
-- may come in: the network thread's are named by `Pc`, and the owner waits only in `join`.
pub mod Inv
pub mod Groups
pub mod Live
pub mod Safety
pub mod Join
pub mod Dangling
use kb_networking_cpp.Prelude.{
  ℕ, ◌≡◌, Bool, true, false, List, [], ◌∷◌, Option, none, some, if◌then◌else◌, ◌==◌,
}
use kb_networking_cpp.Prelude.Int.{ℤ, pos}
use kb_networking_cpp.Prelude.Table.{find, keys}
use kb_networking_cpp.Packet.Bytes.{Bytes}
use kb_networking_cpp.Steam.{Steam, Message, StatusChange, Received, messages, invalid_handle}
use kb_networking_cpp.Server.Object.{
  UdpServer, ClientInfo, Host, k_message_count, k_invalid_listen_socket, k_invalid_poll_group,
  get_client_info, close_all, start_async, send, broadcast, disconnect,
}
use kb_networking_cpp.Server.Status.{on_connection_status_changed}

-- Where the network thread stands: it has ended, or was not started; before the test of its loop; in
-- `poll`, before it receives; in the loop over the messages; between get_client_info and the call with
-- the pointer that it gave; before a release; before RunCallbacks; and in RunCallbacks.
pub data Pc : Type 0 where
  ended at_test at_receive at_callbacks : Pc
  at_messages : List Message → Pc
  at_call at_release : Message → List Message → Pc
  at_changes : List StatusChange → Pc

abbrev pub is_ended : Pc → Bool
is_ended ended = true
is_ended pc = false

-- Is the owner in `stop`, in the call of `join`?
pub data Owner : Type 0 where
  ready joining : Owner

pub record System (steam : Steam) (D : Type 0) : Type 0 where
  pub server : UdpServer steam D
  pub host : Host steam
  pub pc : Pc
  pub owner : Owner

module _ (steam : Steam) {D : Type 0}
    (call : D → ClientInfo → Bytes → steam.World → steam.World) where
  open steam use {World}

  unfoldable pub received_at : Received → Option Pc
  received_at (messages received) = some (at_messages received)
  received_at invalid_handle = none

  -- if (const auto* client = get_client_info(conn); client)
  unfoldable pub looked_up : Option ClientInfo → Message → List Message → Pc
  looked_up none message rest = at_release message rest
  looked_up (some client) message rest = at_call message rest

  -- if (m_data_received_callback)
  unfoldable pub with_callback : Option D → Option ClientInfo → Message → List Message → Pc
  unfolding looked_up
  with_callback none found message rest = at_release message rest
  with_callback (some callback) found message rest = looked_up found message rest

  -- m_data_received_callback(*client, ...): the pointer leads to the node of the map, and calling
  -- through it when the node is gone is a fault.
  unfoldable pub called : Option D → Option ClientInfo → Message → World → Option World
  called (some callback) (some client) message w = some (call callback client message.payload w)
  called (some callback) none message w = none
  called none found message w = none

  unfoldable pub then_at :
      Option Pc → UdpServer steam D → Host steam → Option (Pc × UdpServer steam D × Host steam)
  then_at none s h = none
  then_at (some pc) s h = some (pc, s, h)

  unfoldable pub then_release :
      Option World
      → Message
      → List Message
      → UdpServer steam D
      → Host steam
      → Option (Pc × UdpServer steam D × Host steam)
  then_release none message rest s h = none
  then_release (some w) message rest s h = some (at_release message rest, s, record h { world = w })

  -- connection_status_changed_callback
  unfoldable pub changed :
      Option ℕ → StatusChange → UdpServer steam D → Host steam → UdpServer steam D × Host steam
  changed none p_info s h = (s, h)
  changed (some p) p_info s h =
      let (s', w) = on_connection_status_changed steam p_info s h.world in
      (s', record h { world = w })

  -- One step of the network thread; none is a fault.
  unfoldable pub thread_step :
      Pc → UdpServer steam D → Host steam → Option (Pc × UdpServer steam D × Host steam)
  unfolding received_at with_callback called then_at then_release changed get_client_info
  thread_step ended s h = some (ended, s, h)
  thread_step at_test s h = some (if s.is_running then at_receive else ended, s, h)
  thread_step at_receive s h =
      let (received, w) =
        steam.receive_messages_on_poll_group s.poll_group k_message_count h.world in
      then_at (received_at received) s (record h { world = w })
  thread_step (at_messages []) s h = some (at_callbacks, s, h)
  thread_step (at_messages (message ∷ rest)) s h = some (
    with_callback s.data_received_callback (get_client_info steam message.conn s) message rest,
    s,
    h,
  )
  thread_step (at_call message rest) s h =
      then_release (called s.data_received_callback (find message.conn s.clients) message h.world)
        message rest s h
  thread_step (at_release message rest) s h =
      some (at_messages rest, s, record h { world = steam.release message h.world })
  thread_step at_callbacks s h =
      let (changes, w) = steam.run_callbacks h.world in
      some (at_changes changes, s, record h { world = w })
  thread_step (at_changes []) s h = some (at_test, s, h)
  thread_step (at_changes (change ∷ changes)) s h =
      let (s', h') = changed h.instance_ptr change s h in some (at_changes changes, s', h')

module _ (steam : Steam) {D : Type 0} where
  -- `stop` up to the join.
  unfoldable pub stop_begin : UdpServer steam D → Host steam → UdpServer steam D × Host steam
  stop_begin s h = (record s { is_running = false }, record h { instance_ptr = none })

  -- `stop` behind the join.
  unfoldable pub stop_rest : UdpServer steam D → Host steam → UdpServer steam D × Host steam
  unfolding close_all
  stop_rest s h =
      let w = close_all steam (keys s.clients) h.world in
      let w' =
        if s.listen_socket == k_invalid_listen_socket
        then w
        else steam.close_listen_socket s.listen_socket w in
      let w'' =
        if s.poll_group == k_invalid_poll_group
        then w'
        else steam.destroy_poll_group s.poll_group w' in
      (
        record s {
          network_thread = false;
          clients = [];
          listen_socket = k_invalid_listen_socket;
          poll_group = k_invalid_poll_group;
        },
        record h { world = w'' },
      )

  abbrev pub new_system : UdpServer steam D → Host steam → System steam D
  new_system s h = record { server = s; host = h; pc = ended; owner = ready }

module _ (steam : Steam) {D : Type 0}
    (call : D → ClientInfo → Bytes → steam.World → steam.World) where
  -- A step of either thread. The owner gets past the join of `stop` when the network thread has ended.
  pub data Step (y : System steam D) : System steam D → Type 0 where
    thread_moves :
        (pc : Pc) (s : UdpServer steam D) (h : Host steam)
        → thread_step steam call y.pc y.server y.host ≡ some (pc, s, h)
        → Step y (record y { server = s; host = h; pc = pc })
    starts :
        (port : ℕ) (ok : Bool) (s : UdpServer steam D) (h : Host steam)
        → y.owner ≡ ready
        → start_async steam port y.server y.host ≡ some (ok, s, h)
        → Step y (record y { server = s; host = h; pc = if ok then at_test else y.pc })
    sends :
        (conn : ℕ) (d : Bytes) (n : ℕ) (reliable : Bool)
        → y.owner ≡ ready
        → Step y (record y {
          host = record y.host { world = (send steam conn d n reliable y.host.world).1 };
        })
    broadcasts :
        (d : Bytes) (n : ℕ) (reliable : Bool)
        → y.owner ≡ ready
        → Step y (record y {
          host = record y.host { world = (broadcast steam d n reliable y.server y.host.world).1 };
        })
    disconnects :
        (conn : ℕ) (reason : ℤ)
        → y.owner ≡ ready
        → Step y (record y {
          server = (disconnect steam conn reason y.server y.host.world).0;
          host = record y.host { world = (disconnect steam conn reason y.server y.host.world).1 };
        })
    stops_idle :
        y.owner ≡ ready
        → y.server.is_running ≡ false
        → Step y (record y { host = record y.host { instance_ptr = none } })
    stop_begins :
        y.owner ≡ ready
        → y.server.is_running ≡ true
        → Step y (record y {
          server = (stop_begin steam y.server y.host).0;
          host = (stop_begin steam y.server y.host).1;
          owner = joining;
        })
    stop_ends :
        y.owner ≡ joining
        → is_ended y.pc ≡ true
        → Step y (record y {
          server = (stop_rest steam y.server y.host).0;
          host = (stop_rest steam y.server y.host).1;
          owner = ready;
        })

  -- From a server that was created, with its callbacks set, and not started.
  pub data Reach (s : UdpServer steam D) (h : Host steam) : System steam D → Type 0 where
    here : Reach s h (new_system steam s h)
    next : {y z : System steam D} → Reach s h y → Step y z → Reach s h z
