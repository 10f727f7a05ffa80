-- ===== src/Steam.antt =====
-- ISteamNetworkingSockets of the GameNetworkingSockets library, with fmt::format: what the server
-- and the client call and the repository does not hold. It is a parameter of the models. All that
-- lies outside their objects is the `World`: the library's own state, the network, and what the
-- application's callbacks change. A call takes the world and gives the next one. A handle is a
-- number, and zero is the invalid handle of its kind.
use Prim.Native.String.{String}
use kb_networking_cpp.Prelude.{ℕ, Bool, List, Option}
use kb_networking_cpp.Prelude.Int.{ℤ}
use kb_networking_cpp.Packet.Bytes.{Bytes}

-- ESteamNetworkingConnectionState; `other` stands for the states that the code does not name.
pub data ConnectionState : Type 0 where
  none_state connecting connected closed_by_peer problem_detected_locally : ConnectionState
  other : ℕ → ConnectionState

-- SteamNetConnectionStatusChangedCallback_t
pub record StatusChange : Type 0 where
  pub conn : ℕ
  pub state : ConnectionState
  pub old_state : ConnectionState

-- SteamNetworkingMessage_t
pub record Message : Type 0 where
  pub conn : ℕ
  pub payload : Bytes

-- What a call that receives messages returns: a count and so many messages, or -1 for a handle
-- that is not valid.
pub data Received : Type 0 where
  messages : List Message → Received
  invalid_handle : Received

pub record Steam : Type 1 where
  pub World : Type 0
  -- SteamNetworkingSockets() is not null: the library was started before the run that is looked
  -- at. In the run it is neither started nor ended.
  pub is_started : Bool
  -- SteamNetworkingIPAddr, and its Clear() with a port
  pub Addr : Type 0
  pub any_addr : ℕ → Addr
  pub parse_string : String → Option Addr
  pub addr_port : Addr → ℕ
  pub is_ipv4 : Addr → Bool
  pub addr_ipv4 : Addr → Bytes
  pub addr_ipv6 : Addr → Bytes
  -- fmt::format("{}:{}", address, port)
  pub format_address : String → ℕ → String
  -- k_EResultOK, k_nSteamNetworkingSend_Reliable, k_nSteamNetworkingSend_Unreliable
  pub result_ok : ℕ
  pub send_reliable : ℕ
  pub send_unreliable : ℕ
  pub create_listen_socket_ip : Addr → World → ℕ × World
  pub close_listen_socket : ℕ → World → World
  pub create_poll_group : World → ℕ × World
  pub destroy_poll_group : ℕ → World → World
  pub connect_by_ip_address : Addr → World → ℕ × World
  pub accept_connection : ℕ → World → ℕ × World
  pub set_connection_poll_group : ℕ → ℕ → World → Bool × World
  pub get_connection_info : ℕ → World → Addr × World
  pub close_connection : ℕ → ℤ → Option String → Bool → World → World
  -- The connection, the bytes at the pointer, the size and the flags.
  pub send_message_to_connection : ℕ → Bytes → ℕ → ℕ → World → ℕ × World
  pub receive_messages_on_poll_group : ℕ → ℕ → World → Received × World
  pub receive_messages_on_connection : ℕ → ℕ → World → Received × World
  pub release : Message → World → World
  -- The status changes that RunCallbacks takes from its queue and dispatches, in their order.
  pub run_callbacks : World → List StatusChange × World
