-- ===== src/Packet/Header.antt =====
-- The internal packet header and its decoder: packet.hpp, network_types.h.
use kb_networking_cpp.Prelude.{
  ℕ, ◌+◌, [], ◌∷◌, Option, none, some, length, get_or, ltb, ◌==◌, if◌then◌else◌,
}
use kb_networking_cpp.Packet.Bytes.{Bytes, load_u32}
use kb_networking_cpp.Packet.SerializationType
use kb_networking_cpp.Packet.InternalPacketId

-- 'K', 'B', 'L'
abbrev pub k_magic_bytes : Bytes
k_magic_bytes = 0x4B ∷ 0x42 ∷ 0x4C ∷ []

-- kb_connection_t
abbrev pub k_invalid_connection : ℕ
k_invalid_connection = 0

pub record InternalPacketHeader : Type 0 where
  pub magic_header : Bytes
  pub serde_type : ℕ
  pub packet_type : ℕ

abbrev pub header_of : ℕ → ℕ → InternalPacketHeader
header_of serde packet = record {
  magic_header = k_magic_bytes;
  serde_type = serde;
  packet_type = packet;
}

-- internal_packet_header_t::create
unfoldable pub create : ℕ → ℕ → InternalPacketHeader
create p_serde_type p_packet_type =
    let header = header_of SerializationType.bin InternalPacketId.unknown in
    record header { serde_type = p_serde_type; packet_type = p_packet_type }

-- sizeof(internal_packet_header_t)
abbrev pub k_header_size : ℕ
k_header_size = 8

-- The loop over the magic bytes: the cursor behind them, or none at the first that differs.
unfoldable pub scan_magic : Bytes → ℕ → Bytes → Option ℕ
scan_magic [] cursor d = some cursor
scan_magic (m ∷ magic) cursor d =
    let rest = scan_magic magic (cursor + 1) d in if get_or d cursor 0 == m then rest else none

read_fields : Bytes → Option ℕ → Option InternalPacketHeader
read_fields d none = none
read_fields d (some cursor) = some (header_of (get_or d cursor 0) (load_u32 d (cursor + 1)))

unfoldable pub unpack_internal_packet_header : Bytes → Option InternalPacketHeader
unfolding scan_magic read_fields
unpack_internal_packet_header d =
    if ltb (length d) k_header_size then none else read_fields d (scan_magic k_magic_bytes 0 d)
