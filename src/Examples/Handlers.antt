-- ===== src/Examples/Handlers.antt =====
-- Packet servers, and the start and end of the library.
use kb_networking_cpp.Prelude.{ℕ, ◌≡◌, true, false, List, [], ◌∷◌, ◌++◌, none, some, arith}
use kb_networking_cpp.Prelude.Table.{find}
use kb_networking_cpp.Packet.Bytes.{Bytes}
use kb_networking_cpp.Serde.Binary
use kb_networking_cpp.Serde.Binary.{binary_serializer}
use kb_networking_cpp.Address.{empty_address}
use kb_networking_cpp.Steam.{Steam}
use kb_networking_cpp.Server.Object.{ClientInfo, new_server}
use kb_networking_cpp.PacketServer.Object.{PacketServer, handle_packet}
use kb_networking_cpp.PacketServer.EndToEnd.{binary_end_to_end}
use kb_networking_cpp.PacketClient.Object.{PacketClient, handle_message}
use kb_networking_cpp.Serde.Serializer.{serialize_packet}
use kb_networking_cpp.Factories.{create_binary_server, create_msgpack_client, factories_apart}
use kb_networking_cpp.Library.{Platform}
use kb_networking_cpp.Library.History.{inits, shuts_down, make_calls, calls_lem}
use kb_networking_cpp.Examples.Base.{example_memory, example_msgpack, example_steam}

abbrev steam : Steam
steam = example_steam 8 1 [] []

abbrev client : ClientInfo
client = record { conn = 4; addr = empty_address }

abbrev log_number : ℕ → ℕ → List ℕ → List ℕ
log_number conn n w = w ++ conn ∷ n ∷ []

abbrev log_bytes : ℕ → Bytes → List ℕ → List ℕ
log_bytes conn d w = w ++ d

abbrev binary_bound_5 : PacketServer steam Bytes
binary_bound_5 = record { server = new_server steam 1; packet_handlers = (5, log_bytes) ∷ [] }

abbrev wire : Bytes
wire = 0x4B ∷ 0x42 ∷ 0x4C ∷ 1 ∷ 5 ∷ 0 ∷ 0 ∷ 0 ∷ 0xCD ∷ 42 ∷ []

binary_end_to_end_example :
    let packet = Binary.serialize_packet_internal example_memory 0 5 (1 ∷ 2 ∷ []) in
    let handled =
      handle_packet steam
        (binary_serializer example_memory 2)
        client
        (example_memory.contents packet.buffer)
        binary_bound_5
        [] in
    (find 0 binary_bound_5.packet_handlers ≡ none → handled ≡ (false, []))
    × ((handler : ℕ → Bytes → List ℕ → List ℕ)
        → find 0 binary_bound_5.packet_handlers ≡ some handler
        → handled ≡ (true, handler 4 (1 ∷ 2 ∷ []) []))
binary_end_to_end_example =
    binary_end_to_end steam example_memory 2 0 5 (1 ∷ 2 ∷ []) client binary_bound_5 []

-- The world counts what was started and what was ended.
abbrev platform : Platform
platform = record {
  World = List ℕ;
  logger_init = λ w. w ++ 1 ∷ [];
  logger_shutdown = λ w. w ++ 4 ∷ [];
  sockets_init = λ w. (true, w ++ 2 ∷ []);
  sockets_kill = λ w. w ++ 3 ∷ [];
}

-- The sockets and the logger are started once, and ended twice.
calls_lem_example :
    make_calls platform
      (shuts_down ∷ inits ∷ shuts_down ∷ inits ∷ shuts_down ∷ [])
      (record { initialized = false; world = [] })
    ≡ some record { initialized = true; world = 1 ∷ 2 ∷ 3 ∷ 4 ∷ 3 ∷ 4 ∷ [] }
calls_lem_example =
    calls_lem platform (shuts_down ∷ inits ∷ shuts_down ∷ inits ∷ shuts_down ∷ []) []

factories_apart_example :
    let server = create_binary_server steam example_memory 1 2 in
    let msgpack_client =
      create_msgpack_client steam example_memory {X = Unit {0}} 2 example_msgpack in
    ((s : PacketServer steam Bytes)
      → let packet = serialize_packet msgpack_client.serializer 9 5 42 in
        handle_packet steam server.serializer client (example_memory.contents packet.buffer) s []
        ≡ (false, []))
    × ((c : PacketClient steam (Unit {0}) ℕ)
        → let packet = serialize_packet server.serializer 9 5 (1 ∷ 2 ∷ []) in
          handle_message steam msgpack_client.serializer
            (record { conn = 9; buffer = example_memory.contents packet.buffer })
            c
            (tt, [])
          ≡ (false, tt, []))
factories_apart_example =
    factories_apart steam example_memory example_msgpack 9 5 1 2 client 42 (1 ∷ 2 ∷ []) []
      (omega arith)
