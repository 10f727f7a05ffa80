-- ===== src/Packet/Bytes.antt =====
-- Buffers of bytes: the integer casts, and std::memcpy of an integer to and from a buffer.
use kb_networking_cpp.Prelude.{ℕ, ◌+◌, ◌*◌, ◌/◌, ◌%◌, ◌^◌, ◌<◌, List, [], ◌∷◌, All, set, get_or}

abbrev pub Bytes : Type 0
Bytes = List ℕ

abbrev pub IsBytes : Bytes → Type 0
IsBytes = All (λ b. b < 256)

-- static_cast<u8>, static_cast<u32>
abbrev pub u8 : ℕ → ℕ
u8 n = n % 256

abbrev pub u32 : ℕ → ℕ
u32 n = n % 2 ^ 32

-- The bytes of a 32-bit integer in memory, low byte first.
abbrev pub u32_bytes : ℕ → Bytes
u32_bytes n = n % 256 ∷ n / 256 % 256 ∷ n / 65536 % 256 ∷ n / 16777216 % 256 ∷ []

-- std::memcpy(&n, data + cursor, 4)
abbrev pub load_u32 : Bytes → ℕ → ℕ
load_u32 d c =
    get_or d c 0
    + 256 * get_or d (c + 1) 0
    + 65536 * get_or d (c + 2) 0
    + 16777216 * get_or d (c + 3) 0

-- std::memcpy(buffer + cursor, bytes, size), and the loops that copy byte by byte
unfoldable pub write_bytes : Bytes → ℕ → Bytes → Bytes
write_bytes buffer c [] = buffer
write_bytes buffer c (b ∷ bs) = write_bytes (set buffer c b) (c + 1) bs
