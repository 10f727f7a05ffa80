-- ===== src/Serde/Binary.antt =====
-- binary_packet_serializer.hpp. A trivially copyable object is the bytes of its representation, and
-- a type T is here its size. The payload is the bytes behind the header.
use kb_networking_cpp.Prelude.{
  ℕ, zero, suc, ◌+◌, [], ◌∷◌, Option, none, some, length, ◌==◌, if◌then◌else◌,
}
use kb_networking_cpp.Packet.Bytes.{Bytes, write_bytes}
use kb_networking_cpp.Packet.OwningBuffer.{Memory}
use kb_networking_cpp.Packet.SerializationType
use kb_networking_cpp.Packet.InternalPacketId
use kb_networking_cpp.Packet.Header.{header_of, create, k_header_size}
use kb_networking_cpp.Packet.Internal.{InternalPacket}
use kb_networking_cpp.Serde.Base.{write_internal_packet_header}
use kb_networking_cpp.Serde.Serializer.{Serializer}

-- T temp{}
unfoldable pub zeros : ℕ → Bytes
zeros zero = []
zeros (suc n) = 0 ∷ zeros n

-- payload_as_internal< T >, with sizeof(T)
unfoldable pub payload_as_internal : ℕ → Bytes → Option Bytes
unfolding zeros write_bytes
payload_as_internal size p_payload =
    if length p_payload == size then some (write_bytes (zeros size) 0 p_payload) else none

-- deserialize_packet_internal
unfoldable pub deserialize_packet_internal : Bytes → Option Bytes
deserialize_packet_internal p_payload = some p_payload

module _ (memory : Memory) where
  -- BinaryPacketSerializer::serialize
  unfoldable pub serialize : ℕ → Bytes → ℕ → InternalPacket memory
  unfolding write_bytes write_internal_packet_header create
  serialize p_conn p_data p_packet_type =
      let data_size = k_header_size + length p_data in
      let buffer = memory.new_u8 data_size in
      let (with_header, cursor) =
        write_internal_packet_header buffer
          (create SerializationType.bin InternalPacketId.unknown) in
      record {
        header = header_of SerializationType.bin p_packet_type;
        buffer = memory.consume (write_bytes with_header cursor p_data) data_size;
        conn = p_conn;
      }

  -- serialize_packet_internal
  unfoldable pub serialize_packet_internal : ℕ → ℕ → Bytes → InternalPacket memory
  serialize_packet_internal p_conn p_packet_type p_payload =
      serialize p_conn p_payload p_packet_type

  -- serializer_traits< serialization_type_t::bin >, for receivers of a T of the given size
  abbrev pub binary_serializer : ℕ → Serializer memory
  binary_serializer size = record {
    Object = Bytes;
    Payload = Bytes;
    Target = Bytes;
    serde_type = SerializationType.bin;
    serialize_packet_internal = serialize_packet_internal;
    deserialize_packet_internal = deserialize_packet_internal;
    payload_as_internal = payload_as_internal size;
  }
