-- ===== src/Server/Object.antt =====
-- The state of a UdpServer, and the methods that do not dispatch callbacks.
use kb_networking_cpp.Prelude.{
  ℕ, Bool, true, false, List, [], ◌∷◌, Option, none, some, if◌then◌else◌, ◌==◌,
}
use kb_networking_cpp.Prelude.Int.{ℤ, pos}
use kb_networking_cpp.Prelude.Table.{Table, find, erase, keys}
use kb_networking_cpp.Packet.Bytes.{Bytes}
use kb_networking_cpp.Steam.{Steam}
use kb_networking_cpp.Address.{IpAddress}

-- client_info_t
pub record ClientInfo : Type 0 where
  pub conn : ℕ
  pub addr : IpAddress

-- k_HSteamListenSocket_Invalid, k_HSteamNetPollGroup_Invalid
abbrev pub k_invalid_listen_socket : ℕ
k_invalid_listen_socket = 0

abbrev pub k_invalid_poll_group : ℕ
k_invalid_poll_group = 0

-- k_message_count of poll
abbrev pub k_message_count : ℕ
k_message_count = 32

-- `self` is the address of the object. A data callback is a value of D, and what it does is told
-- where it is called, since the closure of a packet server reads the packet server's state then.
pub record UdpServer (steam : Steam) (D : Type 0) : Type 0 where
  pub self : ℕ
  -- m_interface is not null
  pub has_interface : Bool
  -- joinable()
  pub network_thread : Bool
  pub is_running : Bool
  pub port : ℕ
  pub data_received_callback : Option D
  pub client_connected_callback : Option (ClientInfo → Steam.World steam → Steam.World steam)
  pub client_disconnected_callback : Option (ClientInfo → Steam.World steam → Steam.World steam)
  pub clients : Table ClientInfo
  pub listen_socket : ℕ
  pub poll_group : ℕ

-- What a server shares with the others: the world, and s_instance.
pub record Host (steam : Steam) : Type 0 where
  pub world : Steam.World steam
  pub instance_ptr : Option ℕ

unfoldable pub is_empty : Table ClientInfo → Bool
is_empty [] = true
is_empty (c ∷ m) = false

module _ (steam : Steam) where
  open steam use {World}

  unfoldable pub close_all : List ℕ → World → World
  close_all [] w = w
  close_all (conn ∷ conns) w =
      close_all conns (steam.close_connection conn (pos 0) (some "UdpServer shutting down") true w)

  -- The bytes at p_data, and p_size.
  unfoldable pub send : ℕ → Bytes → ℕ → Bool → World → Bool × World
  send p_conn p_data p_size p_reliable w =
      let flags = if p_reliable then steam.send_reliable else steam.send_unreliable in
      let (result, w') = steam.send_message_to_connection p_conn p_data p_size flags w in
      (result == steam.result_ok, w')

  unfoldable pub send_each : List ℕ → Bytes → ℕ → Bool → Bool → World → Bool × World
  send_each [] p_data p_size p_reliable ok w = (ok, w)
  send_each (conn ∷ conns) p_data p_size p_reliable ok w =
      let (sent, w') = send conn p_data p_size p_reliable w in
      send_each conns p_data p_size p_reliable (if sent then ok else false) w'

module _ (steam : Steam) {D : Type 0} where
  open steam use {World}

  -- UdpServer::UdpServer, at a new address: m_interface = SteamNetworkingSockets()
  unfoldable pub new_server : ℕ → UdpServer steam D
  new_server self = record {
    self = self;
    has_interface = steam.is_started;
    network_thread = false;
    is_running = false;
    port = 0;
    data_received_callback = none;
    client_connected_callback = none;
    client_disconnected_callback = none;
    clients = [];
    listen_socket = k_invalid_listen_socket;
    poll_group = k_invalid_poll_group;
  }

  unfoldable pub set_on_data_callback : D → UdpServer steam D → UdpServer steam D
  set_on_data_callback p_call s = record s { data_received_callback = some p_call }

  unfoldable pub set_on_client_connected_callback :
      (ClientInfo → World → World) → UdpServer steam D → UdpServer steam D
  set_on_client_connected_callback p_call s = record s { client_connected_callback = some p_call }

  unfoldable pub set_on_client_disconnected_callback :
      (ClientInfo → World → World) → UdpServer steam D → UdpServer steam D
  set_on_client_disconnected_callback p_call s = record s {
    client_disconnected_callback = some p_call;
  }

  unfoldable pub get_client_info : ℕ → UdpServer steam D → Option ClientInfo
  unfolding find
  get_client_info p_conn s = find p_conn s.clients

  unfoldable pub on_fatal_message : UdpServer steam D → UdpServer steam D
  on_fatal_message s = record s { is_running = false }

  unfoldable pub start_manual :
      ℕ → UdpServer steam D → Host steam → Bool × UdpServer steam D × Host steam
  unfolding on_fatal_message
  start_manual p_port s h =
      let (socket, w) = steam.create_listen_socket_ip (steam.any_addr p_port) h.world in
      let listening = record s { listen_socket = socket } in
      let (group, w') = steam.create_poll_group w in
      let grouped = record listening { poll_group = group } in
      if s.is_running
      then (false, s, h)
      else if socket == k_invalid_listen_socket
      then (false, on_fatal_message listening, record h { world = w })
      else if group == k_invalid_poll_group
      then (false, on_fatal_message grouped, record h { world = w' })
      else (
        true,
        record grouped { port = p_port; is_running = true },
        record { world = w'; instance_ptr = some s.self },
      )

  -- Assigning to a thread that is joinable calls std::terminate: none.
  start_thread :
      Bool × UdpServer steam D × Host steam → Option (Bool × UdpServer steam D × Host steam)
  start_thread (false, s, h) = some (false, s, h)
  start_thread (true, s, h) =
      if s.network_thread then none else some (true, record s { network_thread = true }, h)

  unfoldable pub start_async :
      ℕ → UdpServer steam D → Host steam → Option (Bool × UdpServer steam D × Host steam)
  unfolding start_manual start_thread
  start_async p_port s h = start_thread (start_manual p_port s h)

  unfoldable pub stop : UdpServer steam D → Host steam → UdpServer steam D × Host steam
  unfolding close_all
  stop s h =
      let w = close_all steam (keys s.clients) h.world in
      let w' =
        if s.listen_socket == k_invalid_listen_socket
        then w
        else steam.close_listen_socket s.listen_socket w in
      let w'' =
        if s.poll_group == k_invalid_poll_group
        then w'
        else steam.destroy_poll_group s.poll_group w' in
      if s.is_running
      then (
        record s {
          is_running = false;
          network_thread = false;
          clients = [];
          listen_socket = k_invalid_listen_socket;
          poll_group = k_invalid_poll_group;
        },
        record { world = w''; instance_ptr = none },
      )
      else (s, record h { instance_ptr = none })

  unfoldable pub broadcast : Bytes → ℕ → Bool → UdpServer steam D → World → Bool × World
  unfolding is_empty
  broadcast p_data p_size p_reliable s w =
      let sent = send_each steam (keys s.clients) p_data p_size p_reliable true w in
      if is_empty s.clients then (false, w) else sent

  unfoldable pub disconnect : ℕ → ℤ → UdpServer steam D → World → UdpServer steam D × World
  disconnect p_conn p_reason s w = (
    record s { clients = erase p_conn s.clients },
    steam.close_connection p_conn p_reason (some "Disconnected") false w,
  )
