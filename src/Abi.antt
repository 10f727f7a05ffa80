-- ===== src/Abi.antt =====
-- The constants of the C headers: include/kb/net/kb_network_types.h, include/kb/net/kb_client.h,
-- include/kb/net/kb_client_info.h and include/kb/kb_networking.h.
use kb_networking_cpp.Prelude.{ℕ, ◌≡◌, refl, [], ◌∷◌, take}
use kb_networking_cpp.Prelude.Int.{ℤ, pos, negsuc}
use kb_networking_cpp.Packet.Bytes.{Bytes}
use kb_networking_cpp.Packet.InternalPacketId
use kb_networking_cpp.Packet.Header.{k_magic_bytes, k_invalid_connection}
use kb_networking_cpp.Client.Object.{
  ConnectionStatus, disconnected, connecting, connected, failed_to_connect,
}

-- kb_status_t
pub data KbStatus : Type 0 where
  status_ok error_invalid_arg error_bad_state error_alloc error_io : KbStatus
  error_timeout error_not_implemented error_internal : KbStatus

abbrev pub status_value : KbStatus → ℤ
status_value status_ok = pos 0
status_value error_invalid_arg = negsuc 0
status_value error_bad_state = negsuc 1
status_value error_alloc = negsuc 2
status_value error_io = negsuc 3
status_value error_timeout = negsuc 4
status_value error_not_implemented = negsuc 5
status_value error_internal = negsuc 126

-- kb_packet_id_t
pub data KbPacketId : Type 0 where
  packet_id_unknown packet_id_reserved : KbPacketId

abbrev pub packet_id_value : KbPacketId → ℕ
packet_id_value packet_id_unknown = 0
packet_id_value packet_id_reserved = 127

abbrev pub kb_connection_invalid : ℕ
kb_connection_invalid = 0

-- kb_client_connection_status_t
pub data KbClientConnectionStatus : Type 0 where
  client_disconnected client_connecting client_connected client_failed : KbClientConnectionStatus

abbrev pub client_connection_status_value : KbClientConnectionStatus → ℕ
client_connection_status_value client_disconnected = 0
client_connection_status_value client_connecting = 1
client_connection_status_value client_connected = 2
client_connection_status_value client_failed = 3

-- kb_client_info_t
pub record KbClientInfo : Type 0 where
  pub conn : ℕ
  pub ip_v4 : ℕ
  pub port : ℕ
  pub padding : Bytes

-- KB_NETWORKING_VERSION_MAJOR, _MINOR and _PATCH
abbrev pub kb_networking_version : ℕ × ℕ × ℕ
kb_networking_version = (0, 1, 0)

-- KB_MAGIC_BYTE_0 to KB_MAGIC_BYTE_3
abbrev pub kb_magic_bytes : Bytes
kb_magic_bytes = 0x4B ∷ 0x42 ∷ 0x4C ∷ 0x4B ∷ []

-- The values of UdpClient::connection_status_t
abbrev pub connection_status_value : ConnectionStatus → ℕ
connection_status_value disconnected = 0
connection_status_value connecting = 1
connection_status_value connected = 2
connection_status_value failed_to_connect = 3

-- The C status of a status of the client, by its name
abbrev status_named : ConnectionStatus → KbClientConnectionStatus
status_named disconnected = client_disconnected
status_named connecting = client_connecting
status_named connected = client_connected
status_named failed_to_connect = client_failed

-- The C header and the class give the statuses of a client the same values.
client_status_agrees :
    (s : ConnectionStatus)
    → client_connection_status_value (status_named s) ≡ connection_status_value s
client_status_agrees disconnected = refl
client_status_agrees connecting = refl
client_status_agrees connected = refl
client_status_agrees failed_to_connect = refl

-- The C++ code takes its packet ids, its invalid connection and its magic bytes from the headers; the
-- fourth magic byte is not used.
constants_agree :
    (InternalPacketId.unknown ≡ packet_id_value packet_id_unknown)
    × (InternalPacketId.reserved ≡ packet_id_value packet_id_reserved)
    × (k_invalid_connection ≡ kb_connection_invalid)
    × (take 3 kb_magic_bytes ≡ k_magic_bytes)
constants_agree = (refl, refl, refl, refl)
