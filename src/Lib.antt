-- ===== src/Lib.antt =====
-- kb-networking-cpp: a UDP networking library over GameNetworkingSockets. A server (UdpServer) keeps
-- the connections that the library hands it and calls back with their messages; a client
-- (UdpClient) keeps one connection. Packet servers and packet clients put a header of eight bytes
-- and a serialized object into each message, and lead a message by the packet type in its header to
-- the handler that is bound to that type. An asynchronous packet client lets coroutines wait for
-- the next packet of a type. kb_server.cpp is a C interface to the server.
--
-- The parts and their files (paths from the root of the repository):
--   Packet: src/kb/net/udp/packet.hpp and the types of src/kb/net/network_types.h. Packet.Header has
--     the header and unpack_internal_packet_header; a byte is a number below 256, a buffer a list
--     of bytes, and integers are cast by a remainder. Packet.OwningBuffer is a parameter.
--   Serde: src/kb/net/serde/*.hpp and src/kb/net/udp/serde.hpp, with write_internal_packet_header
--     in Serde.Base and the two serializers in Serde.Binary and Serde.Msgpack.
--   Steam: the interface of GameNetworkingSockets as a record. Its calls take the world, which holds
--     all that is outside the objects, and give the next one.
--   Address: src/kb/net/network_types.cpp and src/kb/net/network_utils.cpp.
--   Server: src/kb/net/udp/server/udp_server.hpp and udp_server.cpp. Server.Object has the state and
--     the methods that take no callbacks, Server.Status the connection status handler, Server.Process
--     the servers of a process with the static s_instance, poll and the network loop, Server.Calls
--     the calls of methods through a pointer and the destructor, Server.MessageLoop the loop of poll
--     over its array, Server.Reentrant the same loop with a data callback that calls methods of its
--     server, Server.StatusReentrant the status handler with callbacks that do, Server.Threads the
--     network thread beside the thread that owns the server, and Server.ClientSet the clients as a
--     set, for a user of the server. The other files hold proofs.
--   Api: src/kb/net/udp/kb_server.cpp. A handle is a number; Api.Calls has the functions, and
--     Api.Contract what a user sees of the servers and what each call does to it, and
--     Api.Contract.Runs whole runs of calls and rounds of polling.
--   Client: src/kb/net/udp/client/udp_client.hpp and udp_client.cpp. Client.Process has the clients of
--     a process with the static s_instance that they share, Client.MessageLoop the loops of poll over
--     their array, Client.Threads the network thread beside the thread that owns the client.
--   PacketServer: src/kb/net/udp/server/udp_packet_server.hpp and .inl; PacketServer.Bindings has the
--     handlers as a history of bindings leaves them.
--   PacketClient: src/kb/net/udp/client/udp_packet_client.hpp and .inl in PacketClient.Object;
--     async_udp_packet_client.hpp and .inl in PacketClient.Async, PacketClient.AsyncClient and
--     PacketClient.ConnectWait; PacketClient.Tasks has any number of waiting coroutines,
--     PacketClient.Tasks.Race the pre-handler in the two parts inside and outside of its mutex,
--     and PacketClient.Session packets on their way from a server to the handlers of a client.
--   Factories: src/kb/net/udp/udp.hpp.
--   Abi: the constants of the headers under include/kb.
--   Library: src/kb/kb_networking.cpp; Library.History whole histories of its two calls.
--   Prelude: numbers, lists and tables (std::map and std::unordered_map by integer keys).
--   Examples: instances of the parameters, and runs.
--
-- A method takes the object and what it shares with others and gives both back; an early return is
-- a branch of an if. None stands for what the program does not survive: a null pointer, a read out
-- of bounds, an assignment to a joinable thread or its destruction (std::terminate). A loop over a
-- list is a recursion on it. A network loop runs a given number of rounds. The wait of the
-- asynchronous connect has fuel for 21 rounds, which is enough since the code gives up in the 21st.
-- Steam is the object that SteamNetworkingSockets() gives while the library is started. Its field
-- is_started says whether it was started before the run that is looked at; in a run it is neither
-- started nor ended. A server that was created before the library's start has no interface, and a
-- start, a poll, a send or a disconnect through a pointer to it is a fault. Server.Threads and the
-- client are of a library that was started.
-- That the handles of the library stay good is a hypothesis where a theorem needs it: the records
-- Server.Threads.Groups and Client.Threads.Connections say which calls end a poll group or a
-- connection.
-- A thread and a coroutine are step relations: a step is what runs between two points at which
-- another one may come in. In Server.Threads those are the test of the loop, the receipt, the lookup
-- of a client, the call with its pointer, each release, and each status change; in Client.Threads the
-- two tests of m_running, the receipt, each callback, each release, and each status change.
--
-- Not modelled: logging; callbacks that call methods of the object that calls them, other than those
-- of a server in Server.Reentrant and Server.StatusReentrant (elsewhere a callback changes the world
-- only); the mutexes, so that a method of the owner is one step, and races inside of it; times of sleep
-- other than their number; the coroutine library and its scheduler: a coroutine is split into the
-- steps before and after it suspends, coro::event::set is a change of the world, and what the
-- coroutine does when it is resumed, on the thread that set its event or on another, is the step
-- behind its suspension, which follows the setting; the declarations without a definition in
-- include/kb/net/kb_client.h and kb_server.h; the Rust example, the tests and the build files.
pub mod Prelude
pub mod Packet
pub mod Serde
pub mod Steam
pub mod Address
pub mod Server
pub mod Api
pub mod Client
pub mod PacketServer
pub mod PacketClient
pub mod Library
pub mod Factories
pub mod Abi
pub mod Examples
