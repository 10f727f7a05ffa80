-- ===== src/Examples/Awaiting.antt =====
-- Messages to a packet client and its awaiters.
use kb_networking_cpp.Prelude.{ℕ, ◌≡◌, refl, List, [], ◌∷◌, ◌++◌, none, some}
use kb_networking_cpp.Prelude.Table.{find}
use kb_networking_cpp.Packet.Header.{header_of, unpack_internal_packet_header}
use kb_networking_cpp.Serde.Serializer.{Serializer, payload_as}
use kb_networking_cpp.Serde.Msgpack
use kb_networking_cpp.Serde.Msgpack.{msgpack_serializer}
use kb_networking_cpp.Steam.{Steam}
use kb_networking_cpp.Client.Object.{new_client}
use kb_networking_cpp.Client.Poll.{IncomingViewMessage}
use kb_networking_cpp.PacketClient.Object.{PacketClient}
use kb_networking_cpp.PacketClient.Async.{AwaitingPacket, Awaiters, notify}
use kb_networking_cpp.PacketClient.Fifo.{serve, serve_lem}
use kb_networking_cpp.PacketClient.Awaiters.{waiting, IsPacket}
use kb_networking_cpp.Examples.Base.{example_memory, example_msgpack, example_steam}

abbrev steam : Steam
steam = example_steam 8 1 [] []

abbrev serializer : Serializer example_memory
serializer = msgpack_serializer example_memory example_msgpack

abbrev set_event : ℕ → List ℕ → List ℕ
set_event event w = w ++ event ∷ []

-- Two packets of type 5.
abbrev message_42 : IncomingViewMessage
message_42 = record { conn = 9; buffer = 0x4B ∷ 0x42 ∷ 0x4C ∷ 1 ∷ 5 ∷ 0 ∷ 0 ∷ 0 ∷ 0xCD ∷ 42 ∷ [] }

abbrev message_43 : IncomingViewMessage
message_43 = record { conn = 9; buffer = 0x4B ∷ 0x42 ∷ 0x4C ∷ 1 ∷ 5 ∷ 0 ∷ 0 ∷ 0 ∷ 0xCD ∷ 43 ∷ [] }

unpack_42 : unpack_internal_packet_header message_42.buffer ≡ some (header_of 1 5)
unfolding unpack_internal_packet_header
unpack_42 = refl

message_42-IsPacket : IsPacket serializer 5 message_42
message_42-IsPacket = record {
  header = header_of 1 5;
  unpacked = unpack_42;
  same_serde = refl;
  same_type = refl;
}

message_43-IsPacket : IsPacket serializer 5 message_43
message_43-IsPacket = record {
  header = header_of 1 5;
  unpacked = unfold unpack_internal_packet_header in refl;
  same_serde = refl;
  same_type = refl;
}

abbrev log_number : ℕ → List ℕ → List ℕ
log_number n w = w ++ n ∷ []

-- A packet client with a handler for the packet type 5, and no pre-handler.
abbrev client : PacketClient steam (Unit {0}) ℕ
client = record { client = new_client 1; handlers = (5, log_number) ∷ []; pre_handler = none }

abbrev first : AwaitingPacket ℕ
first = record { event = some 1; payload = none }

abbrev second : AwaitingPacket ℕ
second = record { event = some 2; payload = none }

abbrev two_wait : Awaiters ℕ
two_wait = (5, first ∷ second ∷ []) ∷ []

serve_lem_example :
    let packets : List (IncomingViewMessage × ℕ) = (message_42, 42) ∷ (message_43, 43) ∷ [] in
    let (results, m', w') = serve steam set_event serializer 5 packets two_wait [] in
    (results ≡ payload_as serializer 42 ∷ payload_as serializer 43 ∷ [])
    × (waiting 5 m' ≡ [])
    × (w' ≡ 1 ∷ 2 ∷ [])
unfolding notify
serve_lem_example =
    serve_lem steam set_event serializer 5 ((message_42, 42) ∷ (message_43, 43) ∷ [])
      (first ∷ second ∷ []) two_wait []
      (
        (message_42-IsPacket, unfold Msgpack.deserialize_packet_internal in refl),
        ((message_43-IsPacket, unfold Msgpack.deserialize_packet_internal in refl), tt),
      )
      refl (unfold find in refl)
