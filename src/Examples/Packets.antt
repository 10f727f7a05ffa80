-- ===== src/Examples/Packets.antt =====
-- Headers, serializers and addresses.
use kb_networking_cpp.Prelude.{
  ℕ, ◌<◌, ◌^◌, ◌≤◌, ◌≡◌, refl, [], ◌∷◌, ◌++◌, some, arith, length, drop,
}
use kb_networking_cpp.Packet.Bytes.{Bytes}
use kb_networking_cpp.Packet.Header.{header_of, k_magic_bytes, unpack_internal_packet_header}
use kb_networking_cpp.Packet.Layout.{layout, unpack_sound}
use kb_networking_cpp.Serde.Msgpack
use kb_networking_cpp.Serde.RoundTrip.{msgpack_roundtrip}
use kb_networking_cpp.Examples.Base.{example_memory, example_msgpack}

-- A msgpack packet of type 5 with one object.
abbrev wire : Bytes
wire = 0x4B ∷ 0x42 ∷ 0x4C ∷ 1 ∷ 5 ∷ 0 ∷ 0 ∷ 0 ∷ 0xCD ∷ 42 ∷ []

unpack_wire : unpack_internal_packet_header wire ≡ some (header_of 1 5)
unfolding unpack_internal_packet_header
unpack_wire = refl

unpack_sound_example :
    (wire ≡ layout (header_of 1 5) ++ drop 8 wire)
    × (k_magic_bytes ≡ k_magic_bytes)
    × (1 < 256)
    × (5 < 2 ^ 32)
    × (8 ≤ length wire)
unpack_sound_example = unpack_sound wire (header_of 1 5) (ground arith) unpack_wire

msgpack_roundtrip_example :
    let packet = Msgpack.serialize_packet_internal example_memory example_msgpack 4 5 42 in
    let sent = example_memory.contents packet.buffer in
    (unpack_internal_packet_header sent ≡ some packet.header)
    × ((handle : ℕ) × (Msgpack.deserialize_packet_internal example_memory example_msgpack
            (drop 8 sent)
          ≡ some handle)
        × (Msgpack.payload_as_internal example_memory example_msgpack handle ≡ some 42))
    × (example_memory.size packet.buffer ≡ length sent)
    × (packet.conn ≡ 4)
msgpack_roundtrip_example = msgpack_roundtrip example_memory example_msgpack 4 5 42 (omega arith)
