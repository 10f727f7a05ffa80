-- ===== src/Examples/Rounds.antt =====
-- Rounds of messages, their bounds, and histories of a server.
use kb_networking_cpp.Prelude.{
  ℕ, suc, ◌+◌, ◌<◌, ◌≡◌, refl, sym, ap, ◌∙◌, inl, inr, true, List, [], ◌∷◌, ◌++◌, Option, none,
  some, arith, ◌==◌, Bool-cases,
}
use kb_networking_cpp.Prelude.Int.{pos, negsuc}
use kb_networking_cpp.Prelude.Table.{find}
use kb_networking_cpp.Packet.Bytes.{Bytes}
use kb_networking_cpp.Packet.Header.{header_of, unpack_internal_packet_header}
use kb_networking_cpp.Packet.Bounds.{payload_size, payload_size_bounds}
use kb_networking_cpp.Serde.Serializer.{Serializer}
use kb_networking_cpp.Serde.Msgpack.{msgpack_serializer}
use kb_networking_cpp.Address.{empty_address}
use kb_networking_cpp.Steam.{
  Steam, StatusChange, Message, messages, invalid_handle, connecting, none_state,
}
use kb_networking_cpp.Server.Object.{UdpServer, ClientInfo, Host, new_server}
use kb_networking_cpp.Server.Process.{deliver}
use kb_networking_cpp.Server.MessageLoop.{message_loop, message_loop_bounds}
use kb_networking_cpp.Server.ClientSet.{
  Op, status_changes, starts, disconnects, client_set, run_ops, events_of_ops, after_events,
  ops_refine,
}
use kb_networking_cpp.Client.Object.{UdpClient, new_client}
use kb_networking_cpp.Client.Poll.{IncomingViewMessage, handle_received}
use kb_networking_cpp.Client.MessageLoop.{message_loops, message_loops_bounds}
use kb_networking_cpp.PacketServer.Object.{PacketServer, weak_self, data_callback}
use kb_networking_cpp.PacketServer.Delivery.{notes_of, packets_delivered}
use kb_networking_cpp.Examples.Base.{example_memory, example_msgpack, example_steam}

abbrev steam : Steam
steam = example_steam 8 1 [] []

abbrev wire : Bytes
wire = 0x4B ∷ 0x42 ∷ 0x4C ∷ 1 ∷ 5 ∷ 0 ∷ 0 ∷ 0 ∷ 0xCD ∷ 42 ∷ []

wire-unpacks : unpack_internal_packet_header wire ≡ some (header_of 1 5)
unfolding unpack_internal_packet_header
wire-unpacks = refl

payload_size_bounds_example :
    (payload_size 10 < 10) × (payload_size 10 ≡ 2) × (8 + payload_size 10 ≡ 10)
payload_size_bounds_example = payload_size_bounds wire (header_of 1 5) (omega arith) wire-unpacks

abbrev message_4 : Message
message_4 = record { conn = 4; payload = wire }

abbrev message_6 : Message
message_6 = record { conn = 6; payload = wire }

abbrev client_4 : ClientInfo
client_4 = record { conn = 4; addr = empty_address }

abbrev server : UdpServer steam (Unit {0})
server = record {
  self = 1;
  has_interface = true;
  network_thread = true;
  is_running = true;
  port = 80;
  data_received_callback = some tt;
  client_connected_callback = none;
  client_disconnected_callback = none;
  clients = (4, client_4) ∷ [];
  listen_socket = 7;
  poll_group = 8;
}

abbrev log_client : Unit {0} → ClientInfo → Bytes → List ℕ → List ℕ
log_client u client d w = w ++ client.conn ∷ []

message_loop_bounds_example :
    (message_loop steam log_client server (pos 2) (message_4 ∷ message_6 ∷ []) []
      ≡ some (deliver steam log_client (message_4 ∷ message_6 ∷ []) server []))
    × (message_loop steam log_client server (negsuc 0) (message_4 ∷ message_6 ∷ []) [] ≡ none)
message_loop_bounds_example =
    message_loop_bounds steam log_client server (message_4 ∷ message_6 ∷ []) [] (omega arith)

abbrev client : UdpClient (Unit {0})
client = record (new_client 1) { on_data_received = some tt; conn = 9 }

abbrev count_messages : Unit {0} → IncomingViewMessage → ℕ × List ℕ → ℕ × List ℕ
count_messages u m (n, w) = (suc n, w)

message_loops_bounds_example :
    (message_loops steam count_messages (pos 1) (message_4 ∷ []) client (0, [])
      ≡ handle_received steam count_messages client (messages (message_4 ∷ [])) (0, []))
    × (message_loops steam count_messages (negsuc 0) (message_4 ∷ []) client (0, [])
        ≡ handle_received steam count_messages client invalid_handle (0, []))
message_loops_bounds_example =
    message_loops_bounds steam count_messages (message_4 ∷ []) client (0, []) (omega arith)

abbrev attempt : StatusChange
attempt = record { conn = 5; state = connecting; old_state = none_state }

abbrev history : List Op
history = starts 80 ∷ status_changes attempt ∷ disconnects 4 (pos 0) ∷ []

abbrev host : Host steam
host = record { world = []; instance_ptr = some 1 }

ops_refine_example :
    client_set steam (run_ops steam history server host).0 5
    ≡ after_events (events_of_ops steam history server host) (client_set steam server) 5
ops_refine_example = ops_refine steam history server host 5

abbrev log_number : ℕ → ℕ → List ℕ → List ℕ
log_number conn n w = w ++ n ∷ []

abbrev serializer : Serializer example_memory
serializer = msgpack_serializer example_memory example_msgpack

abbrev packet_server : PacketServer steam ℕ
packet_server = record {
  server = record (new_server steam 1) {
    data_received_callback = some weak_self;
    clients = (4, client_4) ∷ [];
  };
  packet_handlers = (5, log_number) ∷ [];
}

abbrev run_found : Option (ℕ → ℕ → List ℕ → List ℕ) → ℕ → ℕ → List ℕ → List ℕ
run_found none conn n w = log_number conn n w
run_found (some handler) conn n w = handler conn n w

log_number-logs :
    (t conn payload : ℕ) (w : List ℕ) (handler : ℕ → ℕ → List ℕ → List ℕ)
    → find t packet_server.packet_handlers ≡ some handler
    → handler conn payload w ≡ w ++ payload ∷ []
unfolding find
log_number-logs t conn payload w handler e =
    ap (λ o. run_found o conn payload w) (sym e)
    ∙ elim (Bool-cases (5 == t)) [ inl same ↦ rw same refl | inr other ↦ rw other refl ]

packets_delivered_example :
    deliver steam
      (data_callback steam serializer packet_server)
      (message_4 ∷ message_6 ∷ [])
      packet_server.server
      []
    ≡ []
      ++ notes_of steam serializer packet_server
          (λ w. w)
          (λ conn t payload. payload)
          (message_4 ∷ message_6 ∷ [])
packets_delivered_example =
    packets_delivered steam serializer packet_server (λ w. w) (λ conn t payload. payload)
      log_number-logs (λ m w. refl) refl (message_4 ∷ message_6 ∷ []) []
