-- ===== src/Server.antt =====
-- src/kb/net/udp/server/udp_server.hpp and udp_server.cpp: UdpServer. A method takes the object and
-- the world behind it and returns the next ones. A method is one step, but for
-- those of the network thread and `stop` in Server.Threads.
pub mod Object
pub mod Status
pub mod Process
pub mod Broadcast
pub mod Lifecycle
pub mod Clients
pub mod ClientSet
pub mod Delivery
pub mod MessageLoop
pub mod Reentrant
pub mod StatusReentrant
pub mod Invariant
pub mod Dispatch
pub mod Calls
pub mod History
pub mod Instance
pub mod Threads
