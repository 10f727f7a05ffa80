-- ===== src/PacketServer/EndToEnd.antt =====
-- A packet from the serializer of one side to the handler of the other.
use kb_networking_cpp.Prelude.{
  ℕ, ◌+◌, ◌++◌, ◌<◌, ◌^◌, ◌≡◌, refl, sym, ap, Bool, true, false, none, some, arith, length,
}
use kb_networking_cpp.Prelude.Table.{find}
use kb_networking_cpp.Packet.Bytes.{Bytes}
use kb_networking_cpp.Packet.OwningBuffer.{Memory}
use kb_networking_cpp.Packet.SerializationType
use kb_networking_cpp.Packet.InternalPacketId
use kb_networking_cpp.Packet.Header.{header_of, k_invalid_connection}
use kb_networking_cpp.Serde.Binary
use kb_networking_cpp.Serde.Binary.{binary_serializer}
use kb_networking_cpp.Serde.Msgpack
use kb_networking_cpp.Serde.Msgpack.{Msgpack, msgpack_serializer}
use kb_networking_cpp.Serde.RoundTrip.{msgpack_roundtrip, binary_roundtrip}
use kb_networking_cpp.Serde.Frame.{
  serialize_packet_internal_fields, contents-serialize_packet_internal,
}
use kb_networking_cpp.Packet.Layout.{layout}
use kb_networking_cpp.Steam.{Steam}
use kb_networking_cpp.Server.Object.{ClientInfo, send, broadcast}
use kb_networking_cpp.PacketServer.Object.{
  PacketServer, handle_packet, send_object, broadcast_object, send_packet_internal,
  broadcast_packet_internal,
}
use kb_networking_cpp.PacketServer.Handlers.{handle_packet-accepted, handle_packet_unbound}

module _ (steam : Steam) (memory : Memory) (lib : Msgpack) where
  open steam use {World}

  -- An object serialized by the msgpack serializer as a packet of a type below 2^32 that is bound
  -- reaches the handler of that type, once, with the connection of the client it came from and a
  -- payload that converts back to the object.
  pub msgpack_end_to_end :
      (p_conn t : ℕ) (x : lib.Object)
      → t < 2 ^ 32
      → (client : ClientInfo) (s : PacketServer steam lib.ObjectHandle)
      → (handler : ℕ → lib.ObjectHandle → World → World) → find t s.packet_handlers ≡ some handler
      → let packet = Msgpack.serialize_packet_internal memory lib p_conn t x in
        (payload : lib.ObjectHandle) × (Msgpack.payload_as_internal memory lib payload ≡ some x)
        × ((w : World)
            → handle_packet steam
                (msgpack_serializer memory lib)
                client
                (memory.contents packet.buffer)
                s
                w
              ≡ (true, handler client.conn payload w))
  msgpack_end_to_end p_conn t x small client s handler bound =
      let (unpacked, (payload, read, converted), _, _) =
        msgpack_roundtrip memory lib p_conn t x small in
      let fields = serialize_packet_internal_fields memory lib p_conn t x in
      (
        payload,
        converted,
        λ w.
            handle_packet-accepted steam (msgpack_serializer memory lib) client _ s w handler
              payload
              record {
                header = header_of SerializationType.msgpack t;
                unpacked = rw (sym fields.0) unpacked;
                same_serde = refl;
                bound = bound;
                read = read;
              },
      )

module _ (steam : Steam) (memory : Memory) (size : ℕ) where
  open steam use {World}

  -- A binary packet of any type is handled as one of the type `unknown`: without a handler for
  -- that type it is dropped, whatever handler its own type has, and otherwise that handler gets
  -- it.
  pub binary_end_to_end :
      (p_conn t : ℕ) (d : Bytes) (client : ClientInfo) (s : PacketServer steam Bytes) (w : World)
      → let packet = Binary.serialize_packet_internal memory p_conn t d in
        let handled =
          handle_packet steam
            (binary_serializer memory size)
            client
            (memory.contents packet.buffer)
            s
            w in
        (find InternalPacketId.unknown s.packet_handlers ≡ none → handled ≡ (false, w))
        × ((handler : ℕ → Bytes → World → World)
            → find InternalPacketId.unknown s.packet_handlers ≡ some handler
            → handled ≡ (true, handler client.conn d w))
  binary_end_to_end p_conn t d client s w =
      let (unpacked, read, _, _) = binary_roundtrip memory p_conn t d in
      (
        λ unbound.
            handle_packet_unbound steam (binary_serializer memory size) client _ s w
              (header_of SerializationType.bin InternalPacketId.unknown) unpacked unbound,
        λ handler bound.
            handle_packet-accepted steam (binary_serializer memory size) client _ s w handler d
              record {
                header = header_of SerializationType.bin InternalPacketId.unknown;
                unpacked = unpacked;
                same_serde = refl;
                bound = bound;
                read = read;
              },
      )

module _ (steam : Steam) (memory : Memory) (lib : Msgpack) where
  open steam use {World}

  -- Sending an object from a msgpack packet server sends the header of the packet type and the
  -- packed object to the given connection, all of it while it is shorter than 4 GiB.
  pub send_object_lem :
      (p_conn t : ℕ) (x : lib.Object) (p_reliable : Bool) (w : World)
      → 8 + length (lib.pack x) < 2 ^ 32
      → send_object steam (msgpack_serializer memory lib) p_conn t x p_reliable w ≡ (
          let wire = layout (header_of SerializationType.msgpack t) ++ lib.pack x in
          send steam p_conn wire (length wire) p_reliable w)
  unfolding send_object send_packet_internal
  send_object_lem p_conn t x p_reliable w small =
      let fields = serialize_packet_internal_fields memory lib p_conn t x in
      rw (fields.1, fields.2, contents-serialize_packet_internal memory lib p_conn t x)
        (ap
          (λ n.
            send steam p_conn (layout (header_of SerializationType.msgpack t) ++ lib.pack x) n
              p_reliable w)
          (omega arith))

  -- Broadcasting an object from a msgpack packet server broadcasts the header of the packet type
  -- and the packed object, all of it while it is shorter than 4 GiB.
  pub broadcast_object_lem :
      (t : ℕ) (x : lib.Object) (p_reliable : Bool) (s : PacketServer steam lib.ObjectHandle)
      (w : World)
      → 8 + length (lib.pack x) < 2 ^ 32
      → broadcast_object steam (msgpack_serializer memory lib) t x p_reliable s w ≡ (
          let wire = layout (header_of SerializationType.msgpack t) ++ lib.pack x in
          broadcast steam wire (length wire) p_reliable s.server w)
  unfolding broadcast_object broadcast_packet_internal
  broadcast_object_lem t x p_reliable s w small =
      let fields = serialize_packet_internal_fields memory lib k_invalid_connection t x in
      rw (fields.2, contents-serialize_packet_internal memory lib k_invalid_connection t x)
        (ap
          (λ n.
            broadcast steam (layout (header_of SerializationType.msgpack t) ++ lib.pack x) n
              p_reliable s.server w)
          (omega arith))
