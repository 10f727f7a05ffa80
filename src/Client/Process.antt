-- ===== src/Client/Process.antt =====
-- The clients of a process, and the static s_instance of udp_client.cpp that they share.
pub mod Inv
pub mod Instance
pub mod Crosstalk
use Prim.Native.String.{String}
use kb_networking_cpp.Prelude.{
  ℕ, ◌≡◌, Bool, true, false, not, ◌&&◌, List, [], ◌∷◌, Option, none, some, if◌then◌else◌,
}
use kb_networking_cpp.Prelude.Table.{Table, find, insert, erase}
use kb_networking_cpp.Steam.{
  Steam, StatusChange, ConnectionState, closed_by_peer, problem_detected_locally,
}
use kb_networking_cpp.Client.Object.{
  UdpClient, ClientHost, new_client, connect, stop, destroy, on_connection_status_changed,
}
use kb_networking_cpp.Client.Poll.{IncomingViewMessage, poll_messages}

-- The clients by their addresses.
pub record Process (steam : Steam) (D : Type 0) : Type 0 where
  pub host : ClientHost steam
  pub open host use *
  pub clients : Table (UdpClient D)

-- The states whose handler calls m_interface.
abbrev calls_interface : ConnectionState → Bool
calls_interface closed_by_peer = true
calls_interface problem_detected_locally = true
calls_interface state = false

module _ (steam : Steam) {D : Type 0} where
  open steam use {World}

  -- std::make_shared<UdpClient>(), at an address that is not in use
  unfoldable pub create_client : ℕ → Process steam D → Process steam D
  create_client p process = record process { clients = insert p (new_client p) process.clients }

  abbrev pub connected_to :
      ℕ
      → Process steam D
      → Option (Bool × UdpClient D × ClientHost steam)
      → Option (Bool × Process steam D)
  connected_to p process none = none
  connected_to p process (some (ok, c, h)) =
      some (ok, record { host = h; clients = insert p c process.clients })

  -- connect of the client at p
  abbrev pub connect_found :
      Option (UdpClient D) → ℕ → String → ℕ → Process steam D → Option (Bool × Process steam D)
  connect_found none p p_address p_port process = none
  connect_found (some c) p p_address p_port process =
      connected_to p process (connect steam p_address p_port c process.host)

  unfoldable pub connect_at : ℕ → String → ℕ → Process steam D → Option (Bool × Process steam D)
  connect_at p p_address p_port process =
      connect_found (find p process.clients) p p_address p_port process

  abbrev pub stop_found : Option (UdpClient D) → ℕ → Process steam D → Option (Process steam D)
  stop_found none p process = none
  stop_found (some c) p process =
      let (c', h') = stop steam c process.host in
      some (record { host = h'; clients = insert p c' process.clients })

  -- stop of the client at p
  unfoldable pub stop_at : ℕ → Process steam D → Option (Process steam D)
  stop_at p process = stop_found (find p process.clients) p process

  abbrev pub destroyed : ℕ → Process steam D → Option (ClientHost steam) → Option (Process steam D)
  destroyed p process none = none
  destroyed p process (some h) = some (record { host = h; clients = erase p process.clients })

  abbrev pub destroy_found : Option (UdpClient D) → ℕ → Process steam D → Option (Process steam D)
  destroy_found none p process = none
  destroy_found (some c) p process = destroyed p process (destroy steam c process.host)

  -- ~UdpClient of the client at p
  unfoldable pub destroy_at : ℕ → Process steam D → Option (Process steam D)
  destroy_at p process = destroy_found (find p process.clients) p process

  -- A pointer to a client that is gone is a fault, and so is a call through a null m_interface: none.
  unfoldable pub notify :
      ℕ → Option (UdpClient D) → StatusChange → Process steam D → Option (Process steam D)
  notify p none p_info process = none
  notify p (some c) p_info process =
      let (c', w') = on_connection_status_changed steam p_info c process.world in
      if calls_interface p_info.state && not c.has_interface
      then none
      else some (record {
        host = record process.host { world = w' };
        clients = insert p c' process.clients;
      })

  unfoldable pub notify_instance :
      Option ℕ → StatusChange → Process steam D → Option (Process steam D)
  notify_instance none p_info process = some process
  notify_instance (some p) p_info process = notify p (find p process.clients) p_info process

  unfoldable pub connection_status_changed_callback :
      StatusChange → Process steam D → Option (Process steam D)
  connection_status_changed_callback p_info process =
      notify_instance process.instance_ptr p_info process

  -- RunCallbacks, for the status changes that it dispatches.
  unfoldable pub dispatch_all : List StatusChange → Process steam D → Option (Process steam D)
  dispatch_all [] process = some process
  dispatch_all (change ∷ changes) process =
      elim (connection_status_changed_callback change process) [
        | none ↦ none
        | some process' ↦ dispatch_all changes process'
      ]
