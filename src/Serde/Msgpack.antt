-- ===== src/Serde/Msgpack.antt =====
-- msgpack_packet_serializer.hpp, over the msgpack library. The library is a parameter; the law that
-- is asked of it is its documented round trip.
use kb_networking_cpp.Prelude.{ℕ, ◌+◌, ◌≡◌, Option, some, length}
use kb_networking_cpp.Packet.Bytes.{Bytes, write_bytes}
use kb_networking_cpp.Packet.OwningBuffer.{Memory}
use kb_networking_cpp.Packet.SerializationType
use kb_networking_cpp.Packet.Header.{create, k_header_size}
use kb_networking_cpp.Packet.Internal.{InternalPacket}
use kb_networking_cpp.Serde.Base.{write_internal_packet_header}
use kb_networking_cpp.Serde.Serializer.{Serializer}

pub record Msgpack : Type 1 where
  -- The application's types with MSGPACK_DEFINE, and msgpack::object_handle.
  pub Object : Type 0
  pub ObjectHandle : Type 0
  -- packer.pack, msgpack::unpack and object.convert; none where they throw.
  pub pack : Object → Bytes
  pub unpack : Bytes → Option ObjectHandle
  pub convert : ObjectHandle → Option Object
  pub unpack-pack :
      (x : Object)
      → (handle : ObjectHandle) × (unpack (pack x) ≡ some handle) × (convert handle ≡ some x)

module _ (memory : Memory) (lib : Msgpack) where
  open lib use {Object, ObjectHandle, pack, unpack, convert}

  unfoldable pub serialize_packet_internal : ℕ → ℕ → Object → InternalPacket memory
  unfolding write_bytes write_internal_packet_header create
  serialize_packet_internal p_conn p_packet_type p_object =
      let header = create SerializationType.msgpack p_packet_type in
      let packed = pack p_object in
      let write_size = length packed in
      let packet_buffer_size = write_size + k_header_size in
      let packet_buffer = memory.new_u8 packet_buffer_size in
      let (with_header, cursor) = write_internal_packet_header packet_buffer header in
      record {
        header = header;
        buffer = memory.consume (write_bytes with_header cursor packed) packet_buffer_size;
        conn = p_conn;
      }

  -- An exception is caught, and gives no payload.
  unfoldable pub deserialize_packet_internal : Bytes → Option ObjectHandle
  deserialize_packet_internal p_payload = unpack p_payload

  -- payload_as_internal< T >
  unfoldable pub payload_as_internal : ObjectHandle → Option Object
  payload_as_internal p_payload = convert p_payload

  -- serializer_traits< serialization_type_t::msgpack >
  abbrev pub msgpack_serializer : Serializer memory
  msgpack_serializer = record {
    Object = Object;
    Payload = ObjectHandle;
    Target = Object;
    serde_type = SerializationType.msgpack;
    serialize_packet_internal = serialize_packet_internal;
    deserialize_packet_internal = deserialize_packet_internal;
    payload_as_internal = payload_as_internal;
  }
