-- ===== src/Server/Calls.antt =====
-- Methods called through a pointer to a server of the process, and the life of a server.
use kb_networking_cpp.Prelude.{ℕ, Bool, Option, none, some, if◌then◌else◌, ◌||◌}
use kb_networking_cpp.Prelude.Int.{ℤ}
use kb_networking_cpp.Prelude.Table.{find, insert, erase}
use kb_networking_cpp.Packet.Bytes.{Bytes}
use kb_networking_cpp.Steam.{Steam}
use kb_networking_cpp.Server.Object.{
  UdpServer, Host, new_server, start_manual, start_async, stop, send, broadcast, disconnect,
}
use kb_networking_cpp.Server.Process.{Process}

abbrev pub Method : Steam → Type 0 → Type 0 → Type 0
Method steam D A = UdpServer steam D → Host steam → Option (A × UdpServer steam D × Host steam)

module _ {steam : Steam} {D A : Type 0} where
  unfoldable pub write_back :
      ℕ
      → Option (A × UdpServer steam D × Host steam)
      → Process steam D
      → Option (A × Process steam D)
  write_back p none process = none
  write_back p (some (a, s, h)) process =
      some (a, record { host = h; servers = insert p s process.servers })

  unfoldable pub apply_method :
      Method steam D A
      → ℕ
      → Option (UdpServer steam D)
      → Process steam D
      → Option (A × Process steam D)
  apply_method method p none process = none
  apply_method method p (some s) process = write_back p (method s process.host) process

  -- A method of the server at p; a pointer to none is a fault.
  unfoldable pub call_method : Method steam D A → ℕ → Process steam D → Option (A × Process steam D)
  call_method method p process = apply_method method p (find p process.servers) process

-- A call through m_interface where it is null is a fault. `stop` and `broadcast` call through it only
-- for a server that runs or has clients, which was started, and so has its interface.
abbrev pub through_interface : {A : Type 0} → Bool → Option A → Option A
through_interface has_interface r = if has_interface then r else none

module _ (steam : Steam) {D : Type 0} where
  abbrev pub start_manual_method : ℕ → Method steam D Bool
  start_manual_method port s h =
      through_interface (s.is_running || s.has_interface) (some (start_manual steam port s h))

  abbrev pub start_async_method : ℕ → Method steam D Bool
  start_async_method port s h =
      through_interface (s.is_running || s.has_interface) (start_async steam port s h)

  abbrev pub stop_method : Method steam D (Unit {0})
  stop_method s h = let (s', h') = stop steam s h in some (tt, s', h')

  abbrev pub send_method : ℕ → Bytes → ℕ → Bool → Method steam D Bool
  send_method conn d size reliable s h =
      let (ok, w) = send steam conn d size reliable h.world in
      through_interface s.has_interface (some (ok, s, record h { world = w }))

  abbrev pub broadcast_method : Bytes → ℕ → Bool → Method steam D Bool
  broadcast_method d size reliable s h =
      let (ok, w) = broadcast steam d size reliable s h.world in
      some (ok, s, record h { world = w })

  abbrev pub disconnect_method : ℕ → ℤ → Method steam D (Unit {0})
  disconnect_method conn reason s h =
      let (s', w) = disconnect steam conn reason s h.world in
      through_interface s.has_interface (some (tt, s', record h { world = w }))

  -- new UdpServer{}, at an address that is not in use
  unfoldable pub create_server : ℕ → Process steam D → Process steam D
  create_server p process = record process {
    servers = insert p (new_server steam p) process.servers;
  }

  -- The members go after the body of the destructor: that of a joinable thread calls
  -- std::terminate, none.
  unfoldable pub release_server :
      ℕ → Option (UdpServer steam D × Host steam) → Process steam D → Option (Process steam D)
  release_server p none process = none
  release_server p (some (s, h)) process =
      if s.network_thread
      then none
      else some (record { host = h; servers = erase p process.servers })

  stopped : Option (UdpServer steam D) → Host steam → Option (UdpServer steam D × Host steam)
  stopped none h = none
  stopped (some s) h = some (stop steam s h)

  -- delete server, with UdpServer::~UdpServer
  unfoldable pub delete_server : ℕ → Process steam D → Option (Process steam D)
  unfolding stopped
  delete_server p process = release_server p (stopped (find p process.servers) process.host) process
