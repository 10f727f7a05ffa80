-- ===== src/Packet/InternalPacketId.antt =====
-- enum class internal_packet_id_t of network_types.h, with the values of kb_network_types.h.
use kb_networking_cpp.Prelude.{ℕ}

abbrev pub unknown : ℕ
unknown = 0

abbrev pub reserved : ℕ
reserved = 127
