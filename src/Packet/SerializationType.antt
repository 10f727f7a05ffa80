-- ===== src/Packet/SerializationType.antt =====
-- enum class serialization_type_t : u8 of network_types.h.
use kb_networking_cpp.Prelude.{ℕ}

abbrev pub bin : ℕ
bin = 0

abbrev pub msgpack : ℕ
msgpack = 1

abbrev pub custom : ℕ
custom = 7
