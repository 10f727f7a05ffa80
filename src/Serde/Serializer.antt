-- ===== src/Serde/Serializer.antt =====
-- BasePacketSerializer of base_packet_serializer.hpp: what a packet server or client needs of its
-- serializer. The static dispatch to the derived class is the choice of a record.
use kb_networking_cpp.Prelude.{ℕ, Option}
use kb_networking_cpp.Packet.Bytes.{Bytes}
use kb_networking_cpp.Packet.OwningBuffer.{Memory}
use kb_networking_cpp.Packet.Internal.{InternalPacket}

pub record Serializer (memory : Memory) : Type 1 where
  -- What an application sends, what its packet handlers get, and the target of payload_as.
  pub Object : Type 0
  pub Payload : Type 0
  pub Target : Type 0
  -- The serialization type that the header of its packets names: SerdeT.
  pub serde_type : ℕ
  pub serialize_packet_internal : ℕ → ℕ → Object → InternalPacket memory
  pub deserialize_packet_internal : Bytes → Option Payload
  pub payload_as_internal : Payload → Option Target

module _ {memory : Memory} (derived : Serializer memory) where
  open derived use {
    Object, Payload, Target, serialize_packet_internal, deserialize_packet_internal,
    payload_as_internal,
  }

  abbrev pub serialize_packet : ℕ → ℕ → Object → InternalPacket memory
  serialize_packet p_conn p_packet_type p_obj = serialize_packet_internal p_conn p_packet_type p_obj

  abbrev pub deserialize_packet : Bytes → Option Payload
  deserialize_packet p_payload = deserialize_packet_internal p_payload

  abbrev pub payload_as : Payload → Option Target
  payload_as p_payload = payload_as_internal p_payload
