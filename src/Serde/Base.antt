-- ===== src/Serde/Base.antt =====
-- base_packet_serializer.hpp: the header writer.
use kb_networking_cpp.Prelude.{ℕ, ◌+◌, length, set}
use kb_networking_cpp.Packet.Bytes.{Bytes, u8, u32, u32_bytes, write_bytes}
use kb_networking_cpp.Packet.Header.{InternalPacketHeader, k_magic_bytes}

-- The buffer after the writes, and the cursor behind them.
unfoldable pub write_internal_packet_header : Bytes → InternalPacketHeader → Bytes × ℕ
unfolding write_bytes
write_internal_packet_header p_buffer p_header =
    let cursor = length k_magic_bytes in
    let with_magic = write_bytes p_buffer 0 k_magic_bytes in
    let with_serde = set with_magic cursor (u8 p_header.serde_type) in
    let packet_type_bytes = u32_bytes (u32 p_header.packet_type) in
    (write_bytes with_serde (cursor + 1) packet_type_bytes, cursor + 1 + length packet_type_bytes)
