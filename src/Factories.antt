-- ===== src/Factories.antt =====
-- src/kb/net/udp/udp.hpp: servers and clients with the serializer that their type argument selects.
use kb_networking_cpp.Prelude.{ℕ, ◌≡◌, ◌<◌, ◌^◌, refl, sym, false, ◌==◌, some}
use kb_networking_cpp.Packet.Bytes.{Bytes}
use kb_networking_cpp.Packet.OwningBuffer.{Memory}
use kb_networking_cpp.Packet.SerializationType
use kb_networking_cpp.Packet.InternalPacketId
use kb_networking_cpp.Packet.Header.{InternalPacketHeader, header_of, unpack_internal_packet_header}
use kb_networking_cpp.Serde.Serializer.{Serializer, serialize_packet}
use kb_networking_cpp.Serde.Binary.{binary_serializer}
use kb_networking_cpp.Serde.Msgpack.{Msgpack, msgpack_serializer}
use kb_networking_cpp.Serde.RoundTrip.{msgpack_roundtrip, binary_roundtrip}
use kb_networking_cpp.Serde.Frame.{serialize_packet_internal_fields}
use kb_networking_cpp.Steam.{Steam}
use kb_networking_cpp.Server.Object.{ClientInfo}
use kb_networking_cpp.PacketServer.Object.{PacketServer, create as create_server, handle_packet}
use kb_networking_cpp.PacketClient.Object.{PacketClient, create as create_client, handle_message}
use kb_networking_cpp.PacketClient.AsyncClient.{AsyncClient, new_async}

-- A packet server, a packet client and an asynchronous client, each with the serializer that its type
-- argument selects.
pub record SerdeServer (steam : Steam) (memory : Memory) : Type 1 where
  pub serializer : Serializer memory
  pub object : PacketServer steam serializer.Payload

pub record SerdeClient (steam : Steam) (memory : Memory) (X : Type 0) : Type 1 where
  pub serializer : Serializer memory
  pub object : PacketClient steam X serializer.Payload

pub record SerdeAsyncClient (steam : Steam) (memory : Memory) : Type 1 where
  pub serializer : Serializer memory
  pub object : AsyncClient steam serializer.Payload

-- The first number is the address of the object. For the binary serializer the size is that of the type
-- that the receivers convert to.
module _ (steam : Steam) (memory : Memory) where
  abbrev pub create_binary_server : ℕ → ℕ → SerdeServer steam memory
  create_binary_server self size = record {
    serializer = binary_serializer memory size;
    object = create_server steam self;
  }

  abbrev pub create_msgpack_server : ℕ → Msgpack → SerdeServer steam memory
  create_msgpack_server self lib = record {
    serializer = msgpack_serializer memory lib;
    object = create_server steam self;
  }

  module _ {X : Type 0} where
    abbrev pub create_binary_client : ℕ → ℕ → SerdeClient steam memory X
    create_binary_client self size = record {
      serializer = binary_serializer memory size;
      object = create_client steam self;
    }

    abbrev pub create_msgpack_client : ℕ → Msgpack → SerdeClient steam memory X
    create_msgpack_client self lib = record {
      serializer = msgpack_serializer memory lib;
      object = create_client steam self;
    }

  module _ (set_event : ℕ → steam.World → steam.World) where
    abbrev pub create_async_binary_client : ℕ → ℕ → SerdeAsyncClient steam memory
    create_async_binary_client self size = record {
      serializer = binary_serializer memory size;
      object = new_async steam set_event (binary_serializer memory size) self;
    }

    abbrev pub create_async_msgpack_client : ℕ → Msgpack → SerdeAsyncClient steam memory
    create_async_msgpack_client self lib = record {
      serializer = msgpack_serializer memory lib;
      object = new_async steam set_event (msgpack_serializer memory lib) self;
    }

module _ (steam : Steam) {memory : Memory} (serializer : Serializer memory)
    (header : InternalPacketHeader) (d : Bytes)
    (unpacked : unpack_internal_packet_header d ≡ some header)
    (other : (header.serde_type == serializer.serde_type) ≡ false) where
  handle_packet-refused :
      (client : ClientInfo) (s : PacketServer steam serializer.Payload) (w : steam.World)
      → handle_packet steam serializer client d s w ≡ (false, w)
  unfolding handle_packet
  handle_packet-refused client s w = simp (unpacked, other)

  handle_message-refused :
      {X : Type 0} (conn : ℕ) (c : PacketClient steam X serializer.Payload) (x : X)
      (w : steam.World)
      → handle_message steam serializer (record { conn = conn; buffer = d }) c (x, w)
        ≡ (false, x, w)
  unfolding handle_message
  handle_message-refused conn c x w = simp (unpacked, other)

module _ (steam : Steam) (memory : Memory) (lib : Msgpack) (p_conn t : ℕ) where
  pub msgpack-unpacks :
      (x : lib.Object)
      → t < 2 ^ 32
      → unpack_internal_packet_header
          (memory.contents (serialize_packet (msgpack_serializer memory lib) p_conn t x).buffer)
        ≡ some (header_of SerializationType.msgpack t)
  msgpack-unpacks x small =
      rw (sym (serialize_packet_internal_fields memory lib p_conn t x).0)
        (msgpack_roundtrip memory lib p_conn t x small).0

  -- Servers and clients made for different serializers do not understand each other: whatever
  -- handlers are bound, a server made for binary packets refuses every msgpack packet of a type
  -- below 2^32 with no effect, and so does a client made for msgpack packets every binary one.
  pub factories_apart :
      (self size : ℕ) (client : ClientInfo) (x : lib.Object) (d : Bytes) (w : steam.World)
      → t < 2 ^ 32
      → let server = create_binary_server steam memory self size in
        let msgpack_client = create_msgpack_client steam memory {X = Unit {0}} self lib in
        ((s : PacketServer steam server.serializer.Payload)
          → let packet = serialize_packet msgpack_client.serializer p_conn t x in
            handle_packet steam server.serializer client (memory.contents packet.buffer) s w
            ≡ (false, w))
        × ((c : PacketClient steam (Unit {0}) msgpack_client.serializer.Payload)
            → let packet = serialize_packet server.serializer p_conn t d in
              handle_message steam msgpack_client.serializer
                (record { conn = p_conn; buffer = memory.contents packet.buffer })
                c
                (tt, w)
              ≡ (false, tt, w))
  factories_apart self size client x d w small = (
    λ s.
        handle_packet-refused steam (binary_serializer memory size)
          (header_of SerializationType.msgpack t) _ (msgpack-unpacks x small) refl client s w,
    λ c.
        handle_message-refused steam (msgpack_serializer memory lib)
          (header_of SerializationType.bin InternalPacketId.unknown) _
          (binary_roundtrip memory p_conn t d).0 refl p_conn c tt w,
  )
