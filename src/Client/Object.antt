-- ===== src/Client/Object.antt =====
-- The state of a UdpClient; connecting, sending and stopping.
use Prim.Native.String.{String}
use kb_networking_cpp.Prelude.{
  ℕ, Bool, true, false, not, ◌||◌, Option, none, some, if◌then◌else◌, ◌==◌,
}
use kb_networking_cpp.Prelude.Int.{pos}
use kb_networking_cpp.Packet.Bytes.{Bytes, u32}
use kb_networking_cpp.Packet.Header.{k_invalid_connection}
use kb_networking_cpp.Steam.{
  Steam, StatusChange, ConnectionState, none_state, closed_by_peer, problem_detected_locally, other,
}
use kb_networking_cpp.Address.{is_valid_ip_address}

-- enum class connection_status_t
pub data ConnectionStatus : Type 0 where
  disconnected connecting connected failed_to_connect : ConnectionStatus

-- k_default_poll_message_count
abbrev pub k_default_poll_message_count : ℕ
k_default_poll_message_count = 16

-- `has_interface`: m_interface is not null. A data callback is a value of D, and what it does is
-- told where it is called.
pub record UdpClient (D : Type 0) : Type 0 where
  pub self : ℕ
  pub running : Bool
  pub connection_status : ConnectionStatus
  -- joinable()
  pub network_thread : Bool
  pub on_data_received : Option D
  pub has_interface : Bool
  pub conn : ℕ

-- The world, and the s_instance of the clients.
pub record ClientHost (steam : Steam) : Type 0 where
  pub world : Steam.World steam
  pub instance_ptr : Option ℕ

abbrev pub new_client : {D : Type 0} → ℕ → UdpClient D
new_client self = record {
  self = self;
  running = false;
  connection_status = disconnected;
  network_thread = false;
  on_data_received = none;
  has_interface = false;
  conn = k_invalid_connection;
}

unfoldable pub set_on_data_callback : {D : Type 0} → D → UdpClient D → UdpClient D
set_on_data_callback p_on_data_received c = record c { on_data_received = some p_on_data_received }

module _ (steam : Steam) where
  -- The address that ParseString leaves in a new SteamNetworkingIPAddr.
  abbrev pub parsed : Option steam.Addr → steam.Addr
  parsed (some addr) = addr
  parsed none = steam.any_addr 0

module _ (steam : Steam) {D : Type 0} where
  open steam use {World}

  -- m_interface = SteamNetworkingSockets(), of a library that was started.
  unfoldable pub try_connect :
      String → ℕ → UdpClient D → ClientHost steam → Bool × UdpClient D × ClientHost steam
  try_connect p_address p_port c h =
      let started = record c {
        connection_status = ConnectionStatus.connecting;
        has_interface = true;
      } in
      let failed = record started { connection_status = failed_to_connect } in
      let address_with_port = steam.format_address p_address p_port in
      let server_address = parsed steam (steam.parse_string address_with_port) in
      let (conn, w) = steam.connect_by_ip_address server_address h.world in
      if not (is_valid_ip_address steam address_with_port)
      then (false, failed, record h { instance_ptr = some c.self })
      else if conn == k_invalid_connection
      then (false, record failed { conn = conn }, record { world = w; instance_ptr = some c.self })
      else (true, record started { conn = conn }, record { world = w; instance_ptr = some c.self })

  -- m_network_thread = std::thread(...): over a thread that is joinable it calls std::terminate.
  start_thread :
      Bool × UdpClient D × ClientHost steam → Option (Bool × UdpClient D × ClientHost steam)
  start_thread (res, c, h) =
      if c.network_thread
      then none
      else some (res, record c { running = res; network_thread = true }, h)

  unfoldable pub connect :
      String → ℕ → UdpClient D → ClientHost steam → Option (Bool × UdpClient D × ClientHost steam)
  unfolding start_thread
  connect p_address p_port c h =
      let tried = start_thread (try_connect p_address p_port c h) in
      if c.running then some (false, c, h) else tried

  unfoldable pub stop : UdpClient D → ClientHost steam → UdpClient D × ClientHost steam
  stop c h =
      let joined = record c { running = false; network_thread = false } in
      let closed =
        steam.close_connection c.conn (pos 0) (some "UdpClient disconnecting") true h.world in
      if not c.running
      then (c, record h { instance_ptr = none })
      else if c.conn == k_invalid_connection
      then (joined, record h { instance_ptr = none })
      else (
        record joined { conn = k_invalid_connection },
        record { world = closed; instance_ptr = none },
      )

  -- ~UdpClient: stop, and then the destructor of the thread, which calls std::terminate if it is
  -- joinable.
  unfoldable pub destroy : UdpClient D → ClientHost steam → Option (ClientHost steam)
  destroy c h = let (c', h') = stop c h in if c'.network_thread then none else some h'

  -- The bytes at p_data; the size goes into an argument of 32 bits.
  unfoldable pub send_raw : Bytes → ℕ → Bool → UdpClient D → World → Bool × World
  send_raw p_data p_len p_reliable c w =
      let flags = if p_reliable then steam.send_reliable else steam.send_unreliable in
      let (res, w') = steam.send_message_to_connection c.conn p_data (u32 p_len) flags w in
      if not c.has_interface || c.conn == k_invalid_connection
      then (false, w)
      else (res == steam.result_ok, w')

  unfoldable pub on_closed : StatusChange → UdpClient D → World → UdpClient D × World
  on_closed p_info c w =
      let failed = record c { running = false; connection_status = failed_to_connect } in
      (
        record failed { conn = k_invalid_connection; connection_status = disconnected },
        steam.close_connection p_info.conn (pos 0) none false w,
      )

  -- The switch of on_connection_status_changed.
  unfoldable pub on_state :
      ConnectionState → StatusChange → UdpClient D → World → UdpClient D × World
  unfolding on_closed
  on_state none_state p_info c w = (c, w)
  on_state closed_by_peer p_info c w = on_closed p_info c w
  on_state problem_detected_locally p_info c w = on_closed p_info c w
  on_state ConnectionState.connecting p_info c w =
      (record c { connection_status = ConnectionStatus.connecting }, w)
  on_state ConnectionState.connected p_info c w =
      (record c { connection_status = ConnectionStatus.connected }, w)
  on_state (other n) p_info c w = (c, w)

  unfoldable pub on_connection_status_changed :
      StatusChange → UdpClient D → World → UdpClient D × World
  unfolding on_state
  on_connection_status_changed p_info c w = on_state p_info.state p_info c w
