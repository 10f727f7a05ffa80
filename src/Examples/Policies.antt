-- ===== src/Examples/Policies.antt =====
-- Callbacks that call methods of their server, and the handlers that packet types are left with.
use kb_networking_cpp.Prelude.{
  ℕ, ◌≡◌, refl, Bool, true, false, List, [], ◌∷◌, ◌++◌, some, arith, drop, ◌==◌,
}
use kb_networking_cpp.Prelude.Int.{pos}
use kb_networking_cpp.Prelude.Table.{find}
use kb_networking_cpp.Packet.Bytes.{Bytes}
use kb_networking_cpp.Packet.Header.{k_header_size, header_of, unpack_internal_packet_header}
use kb_networking_cpp.Packet.SerializationType
use kb_networking_cpp.Serde.Serializer.{deserialize_packet}
use kb_networking_cpp.Serde.Msgpack.{msgpack_serializer}
use kb_networking_cpp.Address.{empty_address}
use kb_networking_cpp.Steam.{Steam, StatusChange, none_state, connecting, connected, closed_by_peer}
use kb_networking_cpp.Server.Object.{UdpServer, ClientInfo, new_server}
use kb_networking_cpp.Server.ClientSet.{after_events, client_set}
use kb_networking_cpp.Server.StatusReentrant.{all_reentrant}
use kb_networking_cpp.Server.StatusReentrant.Policy.{IsReady, policy, policy_events, policy_refines}
use kb_networking_cpp.PacketServer.Object.{create, bind_packet_handler, handle_packet}
use kb_networking_cpp.PacketServer.Bindings.{BindOp, binds, run_bind_ops, handled_by, bindings_lem}
use kb_networking_cpp.Examples.Base.{example_memory, example_msgpack, example_steam}

abbrev steam : Steam
steam = example_steam 8 1 [] []

abbrev attempt : ℕ → StatusChange
attempt conn = record { conn = conn; state = connecting; old_state = none_state }

abbrev closed : ℕ → StatusChange
closed conn = record { conn = conn; state = closed_by_peer; old_state = connected }

abbrev log_client : ClientInfo → List ℕ → List ℕ
log_client client w = w ++ client.conn ∷ []

abbrev seven : ℕ → Bool
seven conn = conn == 7

abbrev server : UdpServer steam (Unit {0})
server = record (new_server steam 1) {
  is_running = true;
  client_connected_callback = some log_client;
  client_disconnected_callback = some log_client;
  listen_socket = 7;
  poll_group = 8;
}

server-IsReady : IsReady steam seven (pos 0) log_client server
unfolding new_server
server-IsReady = record {
  indexed = record { sorted = tt; own_handle = λ k c e. unfold find in ground arith };
  connected_set = refl;
  disconnected_set = refl;
}

-- Two peers connect, of which one is banned, and a third, which is closed.
abbrev changes : List StatusChange
changes = attempt 4 ∷ attempt 7 ∷ attempt 5 ∷ closed 5 ∷ []

policy_refines_example :
    client_set steam
      (all_reentrant steam (policy steam seven (pos 0) log_client) changes server []).0
      4
    ≡ after_events
        (policy_events steam seven (pos 0) log_client changes server [])
        (client_set steam server)
        4
policy_refines_example =
    policy_refines steam seven (pos 0) log_client changes server [] 4 server-IsReady

abbrev log_number : ℕ → ℕ → List ℕ → List ℕ
log_number conn n w = w ++ conn ∷ n ∷ []

abbrev drop_number : ℕ → ℕ → List ℕ → List ℕ
drop_number conn n w = w

-- The second binding is refused, and the last one is of another type.
abbrev history : List (BindOp steam ℕ)
history = binds 5 log_number ∷ binds 5 drop_number ∷ binds 6 drop_number ∷ []

abbrev client : ClientInfo
client = record { conn = 4; addr = empty_address }

abbrev wire : Bytes
wire = 0x4B ∷ 0x42 ∷ 0x4C ∷ 1 ∷ 5 ∷ 0 ∷ 0 ∷ 0 ∷ 0xCD ∷ 42 ∷ []

bindings_lem_example :
    let serializer = msgpack_serializer example_memory example_msgpack in
    let s = run_bind_ops steam history (create steam 1) in
    (handle_packet steam serializer client wire s []
      ≡ handled_by steam serializer
          (some log_number)
          (deserialize_packet serializer (drop k_header_size wire))
          4
          [])
    × ((bind_packet_handler steam 6 log_number s).0 ≡ false)
unfolding unpack_internal_packet_header
bindings_lem_example =
    bindings_lem steam (msgpack_serializer example_memory example_msgpack) history 1 client wire
      (header_of SerializationType.msgpack 5) [] 6 log_number refl refl
