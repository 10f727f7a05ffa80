-- ===== src/PacketClient.antt =====
-- UdpPacketClient and AsyncUdpPacketClient: src/kb/net/udp/client/udp_packet_client.hpp and
-- async_udp_packet_client.hpp with their .inl files.
pub mod Object
pub mod Tasks
pub mod Messages
pub mod Async
pub mod AsyncClient
pub mod Awaiters
pub mod ConnectWait
pub mod Fifo
pub mod Session
