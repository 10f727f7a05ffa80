-- ===== src/Server/StatusReentrant.antt =====
-- The connection status handler of a UdpServer, udp_server.cpp, with callbacks that call methods of the
-- server itself: they take the server and the world as they are and give both back. The handler
-- holds no mutex when it calls them.
pub mod Policy
use kb_networking_cpp.Prelude.{
  ◌≡◌, refl, Bool, true, false, not, Option, none, some, List, [], ◌∷◌, if◌then◌else◌, ◌==◌, arith,
}
use kb_networking_cpp.Prelude.Int.{pos}
use kb_networking_cpp.Prelude.Table.{find, insert}
use kb_networking_cpp.Steam.{
  Steam, StatusChange, ConnectionState, none_state, connecting, connected, closed_by_peer,
  problem_detected_locally, other,
}
use kb_networking_cpp.Server.Object.{UdpServer, ClientInfo, get_client_info}
use kb_networking_cpp.Server.Status.{
  was_connected, entered_client, on_closed, on_connecting, on_state, call_client_callback,
}

-- What the connected and the disconnected callback do.
pub record Callbacks (steam : Steam) (D : Type 0) : Type 0 where
  pub connected_callback :
      ClientInfo → UdpServer steam D × Steam.World steam → UdpServer steam D × Steam.World steam
  pub disconnected_callback :
      ClientInfo → UdpServer steam D × Steam.World steam → UdpServer steam D × Steam.World steam

module _ (steam : Steam) {D : Type 0} (callbacks : Callbacks steam D) where
  open steam use {World}
  open callbacks use {connected_callback, disconnected_callback}

  -- A callback is called if it is set and there is a client to call it for.
  abbrev pub call_with :
      (ClientInfo → UdpServer steam D × World → UdpServer steam D × World)
      → Option (ClientInfo → World → World)
      → Option ClientInfo
      → UdpServer steam D × World
      → UdpServer steam D × World
  call_with callback (some set) (some client) e = callback client e
  call_with callback (some set) none e = e
  call_with callback none client e = e

  unfoldable pub closed_reentrant :
      StatusChange → UdpServer steam D → World → UdpServer steam D × World
  unfolding was_connected get_client_info
  closed_reentrant p_info s w =
      let (s', w') =
        if was_connected p_info.old_state
        then call_with disconnected_callback s.client_disconnected_callback
            (get_client_info steam p_info.conn s) (s, w)
        else (s, w) in
      (s', steam.close_connection p_info.conn (pos 0) none false w')

  unfoldable pub connecting_reentrant :
      StatusChange → UdpServer steam D → World → UdpServer steam D × World
  connecting_reentrant p_info s w =
      let conn = p_info.conn in
      let (accepted, w1) = steam.accept_connection conn w in
      let (grouped, w2) = steam.set_connection_poll_group conn s.poll_group w1 in
      let (remote, w3) = steam.get_connection_info conn w2 in
      let client = entered_client steam conn (find conn s.clients) remote in
      let added = record s { clients = insert conn client s.clients } in
      if not (accepted == steam.result_ok)
      then (s, steam.close_connection conn (pos 0) none false w1)
      else if not grouped
      then (s, steam.close_connection conn (pos 0) none false w2)
      else call_with connected_callback s.client_connected_callback (some client) (added, w3)

  -- The switch of on_connection_status_changed.
  unfoldable pub state_reentrant :
      ConnectionState → StatusChange → UdpServer steam D → World → UdpServer steam D × World
  unfolding closed_reentrant connecting_reentrant
  state_reentrant none_state p_info s w = (s, w)
  state_reentrant closed_by_peer p_info s w = closed_reentrant p_info s w
  state_reentrant problem_detected_locally p_info s w = closed_reentrant p_info s w
  state_reentrant connecting p_info s w = connecting_reentrant p_info s w
  state_reentrant connected p_info s w = (s, w)
  state_reentrant (other n) p_info s w = (s, w)

  -- One status change after the other.
  unfoldable pub all_reentrant :
      List StatusChange → UdpServer steam D → World → UdpServer steam D × World
  unfolding state_reentrant
  all_reentrant [] s w = (s, w)
  all_reentrant (change ∷ changes) s w =
      let (s', w') = state_reentrant change.state change s w in all_reentrant changes s' w'

module _ (steam : Steam) {D : Type 0} where
  open steam use {World}

  -- The callbacks that are set, which leave the server as it is.
  abbrev pub set_callbacks : Callbacks steam D
  set_callbacks = record {
    connected_callback = λ client (s, w).
        (s, call_client_callback steam s.client_connected_callback (some client) w);
    disconnected_callback = λ client (s, w).
        (s, call_client_callback steam s.client_disconnected_callback (some client) w);
  }

  closed_alone :
      (change : StatusChange) (s : UdpServer steam D) (w : World)
      → closed_reentrant steam set_callbacks change s w ≡ on_closed steam change s w
  unfolding closed_reentrant on_closed
  closed_alone change s w = ground arith

  connecting_alone :
      (change : StatusChange) (s : UdpServer steam D) (w : World)
      → connecting_reentrant steam set_callbacks change s w ≡ on_connecting steam change.conn s w
  unfolding connecting_reentrant on_connecting
  connecting_alone change s w = ground arith

  -- With callbacks that leave the server as it is, the handler is the one without such calls.
  pub state_reentrant_alone :
      (state : ConnectionState) (change : StatusChange) (s : UdpServer steam D) (w : World)
      → state_reentrant steam set_callbacks state change s w ≡ on_state steam state change s w
  unfolding state_reentrant on_state
  state_reentrant_alone none_state change s w = refl
  state_reentrant_alone closed_by_peer change s w = closed_alone change s w
  state_reentrant_alone problem_detected_locally change s w = closed_alone change s w
  state_reentrant_alone connecting change s w = connecting_alone change s w
  state_reentrant_alone connected change s w = refl
  state_reentrant_alone (other n) change s w = refl
