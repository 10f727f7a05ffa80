-- ===== src/Server/Status.antt =====
-- The connection status handler of a UdpServer.
use kb_networking_cpp.Prelude.{ℕ, Bool, true, false, not, Option, none, some, if◌then◌else◌, ◌==◌}
use kb_networking_cpp.Prelude.Int.{pos}
use kb_networking_cpp.Prelude.Table.{find, insert}
use kb_networking_cpp.Steam.{
  Steam, StatusChange, ConnectionState, none_state, connecting, connected, closed_by_peer,
  problem_detected_locally, other,
}
use kb_networking_cpp.Address.{empty_address, assign_address}
use kb_networking_cpp.Server.Object.{UdpServer, ClientInfo, get_client_info}

-- m_clients[conn], which makes an empty entry where there is none
client_entry : Option ClientInfo → ClientInfo
client_entry (some client) = client
client_entry none = record { conn = 0; addr = empty_address }

unfoldable pub was_connected : ConnectionState → Bool
was_connected connected = true
was_connected state = false

module _ (steam : Steam) where
  open steam use {World}

  abbrev pub call_client_callback :
      Option (ClientInfo → World → World) → Option ClientInfo → World → World
  call_client_callback (some callback) (some client) w = callback client w
  call_client_callback (some callback) none w = w
  call_client_callback none client w = w

  -- The entry of m_clients for a connection, with its handle and remote address assigned.
  unfoldable pub entered_client : ℕ → Option ClientInfo → steam.Addr → ClientInfo
  unfolding client_entry
  entered_client conn found remote = record {
    conn = conn;
    addr = assign_address steam (client_entry found).addr remote;
  }

module _ (steam : Steam) {D : Type 0} where
  open steam use {World}

  unfoldable pub on_closed : StatusChange → UdpServer steam D → World → UdpServer steam D × World
  unfolding was_connected get_client_info
  on_closed p_info s w =
      let notified =
        if was_connected p_info.old_state
        then call_client_callback steam s.client_disconnected_callback
            (get_client_info steam p_info.conn s) w
        else w in
      (s, steam.close_connection p_info.conn (pos 0) none false notified)

  unfoldable pub on_connecting : ℕ → UdpServer steam D → World → UdpServer steam D × World
  on_connecting conn s w =
      let (accepted, w1) = steam.accept_connection conn w in
      let (grouped, w2) = steam.set_connection_poll_group conn s.poll_group w1 in
      let (remote, w3) = steam.get_connection_info conn w2 in
      let client = entered_client steam conn (find conn s.clients) remote in
      let added = record s { clients = insert conn client s.clients } in
      if not (accepted == steam.result_ok)
      then (s, steam.close_connection conn (pos 0) none false w1)
      else if not grouped
      then (s, steam.close_connection conn (pos 0) none false w2)
      else (added, call_client_callback steam s.client_connected_callback (some client) w3)

  -- The switch of on_connection_status_changed.
  unfoldable pub on_state :
      ConnectionState → StatusChange → UdpServer steam D → World → UdpServer steam D × World
  on_state none_state p_info s w = (s, w)
  on_state closed_by_peer p_info s w = on_closed p_info s w
  on_state problem_detected_locally p_info s w = on_closed p_info s w
  on_state connecting p_info s w = on_connecting p_info.conn s w
  on_state connected p_info s w = (s, w)
  on_state (other n) p_info s w = (s, w)

  unfoldable pub on_connection_status_changed :
      StatusChange → UdpServer steam D → World → UdpServer steam D × World
  unfolding on_state
  on_connection_status_changed p_info s w = on_state p_info.state p_info s w

  state_cases {ℓ} :
      (P : UdpServer steam D × World → Type ℓ) (state : ConnectionState) (change : StatusChange)
      (s : UdpServer steam D) (w : World)
      → P (s, w)
      → P (on_closed change s w)
      → P (on_connecting change.conn s w)
      → P (on_state state change s w)
  unfolding on_state
  state_cases P none_state change s w same closed attempt = same
  state_cases P closed_by_peer change s w same closed attempt = closed
  state_cases P problem_detected_locally change s w same closed attempt = closed
  state_cases P connecting change s w same closed attempt = attempt
  state_cases P connected change s w same closed attempt = same
  state_cases P (other n) change s w same closed attempt = same

  -- A status change is ignored, closes a connection, or is an attempt to connect.
  pub status_cases {ℓ} :
      (P : UdpServer steam D × World → Type ℓ) (change : StatusChange) (s : UdpServer steam D)
      (w : World)
      → P (s, w)
      → P (on_closed change s w)
      → P (on_connecting change.conn s w)
      → P (on_connection_status_changed change s w)
  unfolding on_connection_status_changed
  status_cases P change = state_cases P change.state change
