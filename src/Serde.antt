-- ===== src/Serde.antt =====
-- src/kb/net/serde and src/kb/net/udp/serde.hpp: the two packet serializers, over the header writer
-- that they share.
pub mod Base
pub mod Fill
pub mod Serializer
pub mod Binary
pub mod Msgpack
pub mod Frame
pub mod RoundTrip
