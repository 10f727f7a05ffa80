-- ===== src/Api.antt =====
-- src/kb/net/udp/kb_server.cpp and include/kb/net/kb_server.h: the C interface of the server. A
-- pointer is an address or null; what is behind one that is not null must be there, or the call
-- faults. An allocation gives an address that was never in use.
pub mod Exec
pub mod Calls
pub mod Total
pub mod Handles
pub mod Histories
pub mod Reachable
pub mod Contract
