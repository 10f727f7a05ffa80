-- ===== src/Serde/Frame.antt =====
-- What the serializers put on the wire, and what a receiver gets back from it.
use kb_networking_cpp.Prelude.{ℕ, ◌+◌, ◌≡◌, refl, ◌++◌, some, arith, length, drop, length-drop}
use kb_networking_cpp.Packet.Bytes.{Bytes, write_bytes}
use kb_networking_cpp.Packet.OwningBuffer.{Memory}
use kb_networking_cpp.Packet.SerializationType
use kb_networking_cpp.Packet.InternalPacketId
use kb_networking_cpp.Packet.Header.{
  InternalPacketHeader, header_of, create, unpack_internal_packet_header,
}
use kb_networking_cpp.Packet.Layout.{layout, unpack-layout}
use kb_networking_cpp.Serde.Base.{write_internal_packet_header}
use kb_networking_cpp.Serde.Fill.{write_bytes_rest, write_internal_packet_header_lem}
use kb_networking_cpp.Serde.Binary
use kb_networking_cpp.Serde.Msgpack
use kb_networking_cpp.Serde.Msgpack.{Msgpack}

module _ (memory : Memory) (h : InternalPacketHeader) (body : Bytes) (n : ℕ)
    (e : n ≡ 8 + length body) where
  -- The header and then the body, over a new buffer of just their length.
  framed :
      write_bytes
        (write_internal_packet_header (memory.new_u8 n) h).0
        (write_internal_packet_header (memory.new_u8 n) h).1
        body
      ≡ layout (header_of h.serde_type h.packet_type) ++ body
  framed =
      rw
        (write_internal_packet_header_lem (memory.new_u8 n) h
          (omega (arith, memory.length-new_u8 n)))
        (write_bytes_rest (layout (header_of h.serde_type h.packet_type)) (drop 8 (memory.new_u8 n))
          body (omega (arith, memory.length-new_u8 n, length-drop 8 (memory.new_u8 n))))

  contents_framed :
      memory.contents (
        memory.consume
          (write_bytes
            (write_internal_packet_header (memory.new_u8 n) h).0
            (write_internal_packet_header (memory.new_u8 n) h).1
            body)
          n)
      ≡ layout (header_of h.serde_type h.packet_type) ++ body
  contents_framed =
      let e' : n ≡ length (layout (header_of h.serde_type h.packet_type) ++ body) = omega arith in
      rw (framed, e')
        (memory.contents-consume (layout (header_of h.serde_type h.packet_type) ++ body))

module _ (memory : Memory) (p_conn p_packet_type : ℕ) (d : Bytes) where
  -- The binary serializer's buffer: the header always names the packet type `unknown`.
  pub contents-serialize :
      memory.contents (Binary.serialize memory p_conn d p_packet_type).buffer
      ≡ layout (header_of SerializationType.bin InternalPacketId.unknown) ++ d
  unfolding Binary.serialize
  contents-serialize =
      contents_framed memory (create SerializationType.bin InternalPacketId.unknown) d _ refl

  pub serialize_fields :
      let packet = Binary.serialize memory p_conn d p_packet_type in
      (packet.header ≡ header_of SerializationType.bin p_packet_type)
      × (packet.conn ≡ p_conn)
      × (memory.size packet.buffer ≡ 8 + length d)
  unfolding Binary.serialize
  serialize_fields = (refl, refl, memory.size-consume _ _)

  pub unpack-serialize :
      unpack_internal_packet_header
        (memory.contents (Binary.serialize memory p_conn d p_packet_type).buffer)
      ≡ some (header_of SerializationType.bin InternalPacketId.unknown)
  unpack-serialize =
      rw contents-serialize
        (unpack-layout SerializationType.bin InternalPacketId.unknown d (omega arith) (omega arith))

module _ (memory : Memory) (lib : Msgpack) (p_conn p_packet_type : ℕ) (x : lib.Object) where
  pub contents-serialize_packet_internal :
      memory.contents (Msgpack.serialize_packet_internal memory lib p_conn p_packet_type x).buffer
      ≡ layout (header_of SerializationType.msgpack p_packet_type) ++ lib.pack x
  unfolding Msgpack.serialize_packet_internal
  contents-serialize_packet_internal =
      contents_framed memory (create SerializationType.msgpack p_packet_type) (lib.pack x) _
        (omega arith)

  -- The packet object has the header that is on the wire, the connection, and the size of its buffer.
  pub serialize_packet_internal_fields :
      let packet = Msgpack.serialize_packet_internal memory lib p_conn p_packet_type x in
      (packet.header ≡ header_of SerializationType.msgpack p_packet_type)
      × (packet.conn ≡ p_conn)
      × (memory.size packet.buffer ≡ length (lib.pack x) + 8)
  unfolding Msgpack.serialize_packet_internal
  serialize_packet_internal_fields = (refl, refl, memory.size-consume _ _)
