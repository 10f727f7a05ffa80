-- ===== src/Serde/RoundTrip.antt =====
-- What is serialized, sent, and read by the other side.
use kb_networking_cpp.Prelude.{
  ℕ, zero, suc, ◌<◌, ◌^◌, ◌≡◌, ◌≢◌, refl, ap, none, some, arith, length, drop, ◌==◌, if◌then◌else◌,
  ==_refl,
}
use kb_networking_cpp.Packet.Bytes.{Bytes}
use kb_networking_cpp.Packet.OwningBuffer.{Memory}
use kb_networking_cpp.Packet.SerializationType
use kb_networking_cpp.Packet.InternalPacketId
use kb_networking_cpp.Packet.Header.{header_of, k_header_size, unpack_internal_packet_header}
use kb_networking_cpp.Packet.Layout.{unpack-layout}
use kb_networking_cpp.Serde.Fill.{write_bytes_all}
use kb_networking_cpp.Serde.Binary
use kb_networking_cpp.Serde.Binary.{zeros}
use kb_networking_cpp.Serde.Msgpack
use kb_networking_cpp.Serde.Msgpack.{Msgpack}
use kb_networking_cpp.Serde.Frame.{
  serialize_fields, serialize_packet_internal_fields, contents-serialize, unpack-serialize,
  contents-serialize_packet_internal,
}

length-zeros : (n : ℕ) → length (zeros n) ≡ n
unfolding zeros
length-zeros zero = refl
length-zeros (suc n) = ap suc (length-zeros n)

-- A binary payload converts to a type exactly if it has the size of the type, and then to an
-- object with the bytes of the payload.
pub payload_as_internal_exact :
    (size : ℕ) (payload : Bytes)
    → Binary.payload_as_internal size payload
      ≡ (if length payload == size then some payload else none)
unfolding Binary.payload_as_internal
payload_as_internal_exact size payload =
    ground (arith, length-zeros size, write_bytes_all (zeros size) payload)

module _ (memory : Memory) (p_conn p_packet_type : ℕ) (d : Bytes) where
  -- What the binary serializer makes of an object unpacks to a header of the type `unknown`,
  -- whatever the packet type; behind it the payload arrives whole and converts to a type of its
  -- size, and the size of the packet is that of the bytes.
  pub binary_roundtrip :
      let packet = Binary.serialize_packet_internal memory p_conn p_packet_type d in
      let wire = memory.contents packet.buffer in
      (unpack_internal_packet_header wire
        ≡ some (header_of SerializationType.bin InternalPacketId.unknown))
      × (Binary.deserialize_packet_internal (drop k_header_size wire) ≡ some d)
      × (Binary.payload_as_internal (length d) (drop k_header_size wire) ≡ some d)
      × (memory.size packet.buffer ≡ length wire)
  unfolding Binary.serialize_packet_internal Binary.deserialize_packet_internal
  binary_roundtrip =
      let whole = ap (λ (o : Bytes). drop 8 o) (contents-serialize memory p_conn p_packet_type d) in
      (
        unpack-serialize memory p_conn p_packet_type d,
        ap (λ (o : Bytes). some o) whole,
        rw whole (rw (payload_as_internal_exact (length d) d, ==_refl (length d)) refl),
        omega (
          arith,
          (serialize_fields memory p_conn p_packet_type d).2,
          ap length (contents-serialize memory p_conn p_packet_type d),
        ),
      )

  -- The bytes of a binary packet whose type is not `unknown` do not unpack to the header of the
  -- packet object.
  pub binary_packet_type_lost :
      p_packet_type ≢ InternalPacketId.unknown
      → let packet = Binary.serialize_packet_internal memory p_conn p_packet_type d in
        unpack_internal_packet_header (memory.contents packet.buffer) ≢ some packet.header
  unfolding Binary.serialize_packet_internal
  binary_packet_type_lost h e = ground (
    arith,
    unpack-serialize memory p_conn p_packet_type d,
    serialize_fields memory p_conn p_packet_type d,
  )

module _ (memory : Memory) (lib : Msgpack) (p_conn p_packet_type : ℕ) (x : lib.Object)
    (small : p_packet_type < 2 ^ 32) where
  -- What the msgpack serializer makes of an object and a packet type below 2^32 unpacks to the
  -- header of the packet, with a payload behind it that reads and converts back to the object; the
  -- size and the connection of the packet are those of the bytes and of the caller.
  pub msgpack_roundtrip :
      let packet = Msgpack.serialize_packet_internal memory lib p_conn p_packet_type x in
      let wire = memory.contents packet.buffer in
      (unpack_internal_packet_header wire ≡ some packet.header)
      × ((handle : lib.ObjectHandle) × (Msgpack.deserialize_packet_internal memory lib
              (drop k_header_size wire)
            ≡ some handle)
          × (Msgpack.payload_as_internal memory lib handle ≡ some x))
      × (memory.size packet.buffer ≡ length wire)
      × (packet.conn ≡ p_conn)
  unfolding Msgpack.deserialize_packet_internal Msgpack.payload_as_internal
  msgpack_roundtrip =
      let wire = contents-serialize_packet_internal memory lib p_conn p_packet_type x in
      let fields = serialize_packet_internal_fields memory lib p_conn p_packet_type x in
      let (handle, unpacked, converted) = lib.unpack-pack x in
      (
        rw (wire, fields.0)
            (unpack-layout SerializationType.msgpack p_packet_type (lib.pack x) (omega arith)
              small),
        (handle, rw wire unpacked, converted),
        omega (arith, fields.2, ap length wire),
        fields.1,
      )
