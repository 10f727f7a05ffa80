-- ===== src/Packet/Layout.antt =====
-- What bytes the decoder takes for a header, against the layout of the header in memory.
use kb_networking_cpp.Prelude.{ℕ, ◌<◌, ◌^◌, ◌≤◌, ◌≡◌, ◌∷◌, ◌++◌, some, arith, length, drop}
use kb_networking_cpp.Packet.Bytes.{Bytes, IsBytes, u8, u32_bytes}
use kb_networking_cpp.Packet.Header.{
  InternalPacketHeader, header_of, k_magic_bytes, unpack_internal_packet_header,
}

-- The eight bytes of a header, as the struct lies in memory.
abbrev pub layout : InternalPacketHeader → Bytes
layout h = h.magic_header ++ u8 h.serde_type ∷ u32_bytes h.packet_type

-- A header written out as it lies in memory, with a serialization type below 256 and a packet type
-- below 2^32, is unpacked again, whatever bytes follow it.
pub unpack-layout :
    (serde packet : ℕ) (payload : Bytes)
    → serde < 256
    → packet < 2 ^ 32
    → unpack_internal_packet_header (layout (header_of serde packet) ++ payload)
      ≡ some (header_of serde packet)
unfolding unpack_internal_packet_header
unpack-layout serde packet payload hs hp = ground arith

-- Bytes that unpack to a header start with the eight bytes of that header in memory: the magic
-- bytes, a serialization type below 256, and a packet type below 2^32.
pub unpack_sound :
    (d : Bytes) (h : InternalPacketHeader)
    → IsBytes d
    → unpack_internal_packet_header d ≡ some h
    → (d ≡ layout h ++ drop 8 d)
      × (h.magic_header ≡ k_magic_bytes)
      × (h.serde_type < 256)
      × (h.packet_type < 2 ^ 32)
      × (8 ≤ length d)
unfolding unpack_internal_packet_header
unpack_sound (a ∷ b ∷ c ∷ s ∷ p ∷ q ∷ r ∷ t ∷ d) h bytes e = ground arith
unpack_sound d h bytes e = ground arith
