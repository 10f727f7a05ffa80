-- ===== src/Packet/Internal.antt =====
-- internal_packet_t of packet.hpp.
use kb_networking_cpp.Prelude.{ℕ}
use kb_networking_cpp.Packet.Bytes.{Bytes}
use kb_networking_cpp.Packet.OwningBuffer.{Memory}
use kb_networking_cpp.Packet.Header.{InternalPacketHeader, k_invalid_connection}

pub record InternalPacket (memory : Memory) : Type 0 where
  pub header : InternalPacketHeader
  pub buffer : Memory.OwningBuffer memory
  pub conn : ℕ

-- internal_packet_t::create; the connection, which it leaves out, is set to zero.
unfoldable pub create_packet :
    (memory : Memory) → InternalPacketHeader → Bytes → ℕ → InternalPacket memory
create_packet memory p_header p_data p_size = record {
  header = p_header;
  buffer = memory.consume p_data p_size;
  conn = k_invalid_connection;
}
