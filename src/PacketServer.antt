-- ===== src/PacketServer.antt =====
-- src/kb/net/udp/server/udp_packet_server.hpp and udp_packet_server.inl: UdpPacketServer, over a
-- serializer.
pub mod Object
pub mod Handlers
pub mod Delivery
pub mod EndToEnd
pub mod Session
pub mod Bindings
