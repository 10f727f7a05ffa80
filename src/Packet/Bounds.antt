-- ===== src/Packet/Bounds.antt =====
-- The size of a payload behind its header, as udp_packet_server.inl, udp_packet_client.inl and
-- async_udp_packet_client.inl compute it.
use kb_networking_cpp.Prelude.{
  ℕ, ◌+◌, ◌-◌, ◌%◌, ◌^◌, ◌<◌, ◌≤◌, ◌≡◌, some, arith, length, length-drop, drop,
}
use kb_networking_cpp.Packet.Bytes.{Bytes}
use kb_networking_cpp.Packet.Header.{
  InternalPacketHeader, k_header_size, unpack_internal_packet_header,
}

-- p_len - sizeof(internal_packet_header_t), of std::size_t: modulo 2^64
unfoldable pub payload_size : ℕ → ℕ
payload_size p_len = (p_len + 2 ^ 64 - k_header_size) % 2 ^ 64

k_header_size_fits :
    (d : Bytes) (h : InternalPacketHeader)
    → unpack_internal_packet_header d ≡ some h
    → k_header_size ≤ length d
unfolding unpack_internal_packet_header
k_header_size_fits d h e = ground arith

-- Where a buffer of less than 2^64 bytes unpacks to a header, the size computed for the payload
-- did not wrap around: it is less than that of the buffer, which is what the code asserts, and it
-- is the number of the bytes behind the header, so that reading as many of them stays in the
-- buffer.
pub payload_size_bounds :
    (d : Bytes) (h : InternalPacketHeader)
    → length d < 2 ^ 64
    → unpack_internal_packet_header d ≡ some h
    → (payload_size (length d) < length d)
      × (payload_size (length d) ≡ length (drop k_header_size d))
      × (k_header_size + payload_size (length d) ≡ length d)
unfolding payload_size
payload_size_bounds d h small e =
    let fits = k_header_size_fits d h e in
    let behind = length-drop k_header_size d in
    (omega (arith, fits), omega (arith, fits, behind), omega (arith, fits))
