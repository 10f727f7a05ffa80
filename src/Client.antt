-- ===== src/Client.antt =====
-- src/kb/net/udp/client/udp_client.hpp and udp_client.cpp: UdpClient. A method takes the object and
-- its host and returns the next ones; std::terminate and undefined behaviour are none.
pub mod Object
pub mod Poll
pub mod MessageLoop
pub mod Process
pub mod Lifecycle
pub mod Unrecoverable
pub mod Threads
