-- ===== src/Examples/ClientSession.antt =====
-- Packets to packet clients that keep what they get.
use kb_networking_cpp.Prelude.{
  ℕ, ◌≡◌, refl, sym, ap, ◌∙◌, inl, inr, true, List, [], ◌∷◌, ◌++◌, Option, none, some, arith, map,
  length, Bool-cases, ◌==◌, ==_iff,
}
use kb_networking_cpp.Prelude.Table.{find, keys}
use kb_networking_cpp.Packet.Bytes.{Bytes}
use kb_networking_cpp.Serde.Serializer.{payload_as}
use kb_networking_cpp.Serde.Msgpack
use kb_networking_cpp.Serde.Msgpack.{msgpack_serializer}
use kb_networking_cpp.Address.{empty_address}
use kb_networking_cpp.Steam.{Steam, Message}
use kb_networking_cpp.Server.Object.{ClientInfo, new_server}
use kb_networking_cpp.Client.Object.{new_client}
use kb_networking_cpp.Client.Poll.{poll_messages}
use kb_networking_cpp.PacketServer.Object.{PacketServer, broadcast_object}
use kb_networking_cpp.PacketServer.Session.{sent_message}
use kb_networking_cpp.PacketClient.Object.{PacketClient, weak_self, handle_message, data_callback}
use kb_networking_cpp.PacketClient.Session.{wire, client_session_lem}
use kb_networking_cpp.PacketClient.Session.Broadcast.{broadcast_session_lem}
use kb_networking_cpp.Examples.Base.{example_memory, example_msgpack, noting_steam}

-- The packet type and the object of a packet.
abbrev Noted : Type 0
Noted = ℕ × Option ℕ

abbrev sent : List (ℕ × ℕ)
sent = (5, 42) ∷ (6, 43) ∷ (5, 44) ∷ []

-- Their bytes in messages; the library is not looked at for them.
abbrev sent_messages : List Message
sent_messages =
    map
      (λ packet.
        sent_message (noting_steam Noted (λ conn d n. []) []) example_memory example_msgpack 9
          packet)
      sent

abbrev steam : Steam
steam = noting_steam Noted (λ conn d n. []) sent_messages

abbrev keep : ℕ → ℕ → List Noted → List Noted
keep t payload w =
    w ++ (t, payload_as (msgpack_serializer example_memory example_msgpack) payload) ∷ []

-- Handlers for the packet types 5 and 6.
abbrev client : PacketClient steam (Unit {0}) ℕ
client = record {
  client = record (new_client 2) {
    on_data_received = some weak_self;
    has_interface = true;
    conn = 9;
  };
  handlers = (5, keep 5) ∷ (6, keep 6) ∷ [];
  pre_handler = none;
}

abbrev run_found : Option (ℕ → List Noted → List Noted) → ℕ → ℕ → List Noted → List Noted
run_found none t n w = keep t n w
run_found (some handler) t n w = handler n w

found-keep :
    (t payload : ℕ) (w : List Noted)
    → run_found (find t client.handlers) t payload w ≡ keep t payload w
unfolding find
found-keep t payload w = elim (Bool-cases (5 == t)) [
  | inl five ↦ rw five (ap (λ i. keep i payload w) ((==_iff 5 t).0 five))
  | inr other ↦ elim (Bool-cases (6 == t)) [
    | inl six ↦ rw (other, six) (ap (λ i. keep i payload w) ((==_iff 6 t).0 six))
    | inr rest ↦ rw (other, rest) refl
  ]
]

client-keeps :
    (t payload : ℕ) (w : List Noted) (handler : ℕ → List Noted → List Noted)
    → find t client.handlers ≡ some handler
    → handler payload w ≡ keep t payload w
client-keeps t payload w handler e =
    ap (λ o. run_found o t payload w) (sym e) ∙ found-keep t payload w

client_session_lem_example :
    (w : List Noted) × (poll_messages steam
        (data_callback steam (msgpack_serializer example_memory example_msgpack) client)
        client.client
        tt
        []
      ≡ some (tt, w))
    × (w ≡ [] ++ map (λ (t, object). (t, some object)) sent)
unfolding find Msgpack.serialize_packet_internal
client_session_lem_example =
    client_session_lem steam example_memory example_msgpack client refl (λ w. w) client-keeps
      (λ m w. refl) sent tt [] [] refl refl (ground arith) refl refl
      (
        (omega arith, refl, omega arith),
        ((omega arith, refl, omega arith), ((omega arith, refl, omega arith), tt)),
      )

-- The world is what the library is given to send.
abbrev sending_steam : Steam
sending_steam = noting_steam (ℕ × Bytes × ℕ) (λ conn d n. (conn, d, n) ∷ []) []

abbrev client_of : ℕ → ClientInfo
client_of conn = record { conn = conn; addr = empty_address }

abbrev server : PacketServer sending_steam ℕ
server = record {
  server = record (new_server sending_steam 1) {
    clients = (4, client_of 4) ∷ (7, client_of 7) ∷ [];
  };
  packet_handlers = [];
}

abbrev same_log : ℕ → List (ℕ × Bytes × ℕ) → List (ℕ × Bytes × ℕ)
same_log payload w = w

abbrev receiver : PacketClient sending_steam (Unit {0}) ℕ
receiver = record { client = new_client 2; handlers = (5, same_log) ∷ []; pre_handler = none }

broadcast_session_lem_example :
    let bytes = wire sending_steam example_memory example_msgpack (5, 42) in
    ((broadcast_object sending_steam
        (msgpack_serializer example_memory example_msgpack)
        5
        42
        true
        server
        []).1
      ≡ [] ++ map (λ k. (k, bytes, length bytes)) (keys server.server.clients))
    × ((payload : ℕ) × (payload_as (msgpack_serializer example_memory example_msgpack) payload
          ≡ some 42)
        × (handle_message sending_steam
              (msgpack_serializer example_memory example_msgpack)
              (record { conn = 9; buffer = bytes })
              receiver
              (tt, [])
            ≡ (true, tt, same_log payload [])))
unfolding find Msgpack.serialize_packet_internal
broadcast_session_lem_example =
    broadcast_session_lem sending_steam example_memory example_msgpack (λ w. w)
      (λ conn d n flags w. refl) server 5 42 true [] receiver 9 tt [] same_log (omega arith)
      (omega arith) refl refl
