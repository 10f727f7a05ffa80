-- ===== src/Server/Lifecycle.antt =====
-- Starting and stopping a UdpServer.
use kb_networking_cpp.Prelude.{ℕ, ◌≡◌, ◌≢◌, ◌↔◌, true, false, [], none, some, arith, if◌then◌else◌}
use kb_networking_cpp.Prelude.Table.{keys}
use kb_networking_cpp.Steam.{Steam}
use kb_networking_cpp.Server.Object.{
  UdpServer, Host, k_invalid_listen_socket, k_invalid_poll_group, start_manual, start_async, stop,
  close_all,
}

-- Between two calls of methods: the thread runs only while the server does, a server that runs has
-- its socket and its poll group, and one that does not run has no clients.
pub record IsValid {steam : Steam} {D : Type 0} (s : UdpServer steam D) : Type 0 where
  pub thread_runs : s.network_thread ≡ true → s.is_running ≡ true
  pub has_socket : s.is_running ≡ true → s.listen_socket ≢ k_invalid_listen_socket
  pub has_group : s.is_running ≡ true → s.poll_group ≢ k_invalid_poll_group
  pub idle_empty : s.is_running ≡ false → s.clients ≡ []

module _ (steam : Steam) {D : Type 0} (port : ℕ) (s : UdpServer steam D) (h : Host steam) where
  pub start_manual-IsValid : IsValid s → IsValid (start_manual steam port s h).1
  unfolding start_manual
  start_manual-IsValid v = ground arith

  -- Starting succeeds exactly if the server was stopped and got a socket and a poll group; then it
  -- runs on the port and is the instance, and otherwise the instance, the port and whether it runs
  -- stay; the clients stay in any case.
  pub start_manual_lem :
      let (ok, s', h') = start_manual steam port s h in
      let made = steam.create_listen_socket_ip (steam.any_addr port) h.world in
      ((ok ≡ true) ↔ (
        (s.is_running ≡ false)
        × (made.0 ≢ k_invalid_listen_socket)
        × ((steam.create_poll_group made.1).0 ≢ k_invalid_poll_group)))
      × (ok ≡ true → (s'.is_running ≡ true) × (s'.port ≡ port) × (h'.instance_ptr ≡ some s.self))
      × (ok ≡ false
          → (s'.is_running ≡ s.is_running)
            × (s'.port ≡ s.port)
            × (h'.instance_ptr ≡ h.instance_ptr))
      × (s'.clients ≡ s.clients)
  unfolding start_manual
  start_manual_lem = ground arith

  -- A valid server never assigns to a thread that is joinable: `start_async` does what
  -- `start_manual` does, with a thread if that succeeds, and leaves the server valid.
  pub start_async_total :
      IsValid s
      → let (ok, s', h') = start_manual steam port s h in
        let threaded = record s' { network_thread = if ok then true else s.network_thread } in
        (start_async steam port s h ≡ some (ok, threaded, h')) × IsValid threaded
  unfolding start_async start_manual
  start_async_total v = (ground arith, ground arith)

module _ (steam : Steam) {D : Type 0} (s : UdpServer steam D) (h : Host steam) where
  pub stop-IsValid : IsValid s → IsValid (stop steam s h).0
  unfolding stop
  stop-IsValid v = ground arith

  -- After `stop` of a valid server nothing runs, no thread is left, there are no clients and no
  -- instance, and stopping again changes nothing.
  pub stop_lem :
      IsValid s
      → let (s', h') = stop steam s h in
        (s'.is_running ≡ false)
        × (s'.network_thread ≡ false)
        × (s'.clients ≡ [])
        × (h'.instance_ptr ≡ none)
        × (stop steam s' h' ≡ (s', h'))
  unfolding stop
  stop_lem v = ground arith

  -- Stopping a running server closes every connection, then the socket, then the poll group.
  pub stop_releases :
      IsValid s
      → s.is_running ≡ true
      → (stop steam s h).1.world
        ≡ steam.destroy_poll_group s.poll_group
            (steam.close_listen_socket s.listen_socket (close_all steam (keys s.clients) h.world))
  unfolding stop
  stop_releases v r = ground arith

module _ (steam : Steam) {D : Type 0} (port : ℕ) (s : UdpServer steam D) (h : Host steam) where
  -- If the poll group of a starting server cannot be made, the listen socket that was made is
  -- kept, and `stop` does not close it.
  pub failed_start_keeps_socket :
      let made = steam.create_listen_socket_ip (steam.any_addr port) h.world in
      let (ok, s', h') = start_manual steam port s h in
      s.is_running ≡ false
      → made.0 ≢ k_invalid_listen_socket
      → (steam.create_poll_group made.1).0 ≡ k_invalid_poll_group
      → (ok ≡ false)
        × (s'.listen_socket ≡ made.0)
        × ((stop steam s' h').0.listen_socket ≡ made.0)
        × ((stop steam s' h').1.world ≡ h'.world)
  unfolding start_manual stop
  failed_start_keeps_socket r a b = ground arith
