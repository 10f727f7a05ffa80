-- ===== src/Packet.antt =====
-- src/kb/net/udp/packet.hpp, and the types and constants of src/kb/net/network_types.h and
-- include/kb/kb_networking.h that it uses. A byte is a number below 256 and a buffer is a list of
-- bytes; a pointer with a size is the list of the bytes that it points to. Of an enumeration with a
-- fixed underlying type every value of that type may stand for it, so that an enumeration is its
-- number. The byte order is that of tests/net/test_serde.cpp, the low byte first.
pub mod Bytes
pub mod SerializationType
pub mod InternalPacketId
pub mod Header
pub mod Bounds
pub mod Layout
pub mod OwningBuffer
pub mod Internal
