-- ===== src/Examples/Base.antt =====
-- Instances of the parameters, for the examples.
use kb_networking_cpp.Prelude.{
  ℕ, zero, suc, ◌≡◌, refl, ap, true, List, [], ◌∷◌, ◌++◌, Option, none, some, length, if◌then◌else◌,
  ◌==◌,
}
use kb_networking_cpp.Packet.Bytes.{Bytes}
use kb_networking_cpp.Packet.OwningBuffer.{Memory}
use kb_networking_cpp.Serde.Msgpack.{Msgpack}
use kb_networking_cpp.Steam.{Steam, StatusChange, Message, messages}

abbrev pub filled : ℕ → Bytes
filled zero = []
filled (suc n) = 0xCD ∷ filled n

pub length-filled : (n : ℕ) → length (filled n) ≡ n
length-filled zero = refl
length-filled (suc n) = ap suc (length-filled n)

-- A buffer is its bytes and its size.
abbrev pub example_memory : Memory
example_memory = record {
  new_u8 = filled;
  length-new_u8 = length-filled;
  OwningBuffer = Bytes × ℕ;
  consume = λ d n. (d, n);
  contents = λ b. b.0;
  size = λ b. b.1;
  contents-consume = λ d. refl;
  size-consume = λ d n. refl;
}

abbrev pub unpack_number : Bytes → Option ℕ
unpack_number (tag ∷ n ∷ []) = if tag == 0xCD then some n else none
unpack_number d = none

-- Objects are numbers, packed behind a tag.
abbrev pub example_msgpack : Msgpack
example_msgpack = record {
  Object = ℕ;
  ObjectHandle = ℕ;
  pack = λ n. 0xCD ∷ n ∷ [];
  unpack = unpack_number;
  convert = λ n. some n;
  unpack-pack = λ x. (x, refl, refl);
}

abbrev pub sixteen_bytes : Bytes
sixteen_bytes = 0 ∷ 0 ∷ 0 ∷ 0 ∷ 0 ∷ 0 ∷ 0 ∷ 0 ∷ 0 ∷ 0 ∷ 0 ∷ 0 ∷ 10 ∷ 0 ∷ 0 ∷ 1 ∷ []

-- A library that gives the poll group `group`, answers sends with `result`, and has some status
-- changes and messages at hand. The world is a log of numbers, in which the callbacks and the
-- sends write; an address is its port.
abbrev pub example_steam : ℕ → ℕ → List StatusChange → List Message → Steam
example_steam group result changes received = record {
  World = List ℕ;
  Addr = ℕ;
  is_started = true;
  any_addr = λ port. port;
  parse_string = λ s. some 80;
  addr_port = λ port. port;
  is_ipv4 = λ a. true;
  addr_ipv4 = λ a. sixteen_bytes;
  addr_ipv6 = λ a. sixteen_bytes;
  format_address = λ s port. s;
  result_ok = 1;
  send_reliable = 8;
  send_unreliable = 0;
  create_listen_socket_ip = λ a w. (7, w);
  close_listen_socket = λ s w. w ++ 107 ∷ [];
  create_poll_group = λ w. (group, w);
  destroy_poll_group = λ g w. w ++ 108 ∷ [];
  connect_by_ip_address = λ a w. (9, w);
  accept_connection = λ conn w. (1, w);
  set_connection_poll_group = λ conn g w. (true, w);
  get_connection_info = λ conn w. (80, w);
  close_connection = λ conn reason text linger w. w ++ 109 ∷ [];
  send_message_to_connection = λ conn d n flags w. (result, w ++ conn ∷ []);
  receive_messages_on_poll_group = λ g n w. (messages received, w);
  receive_messages_on_connection = λ c n w. (messages received, w);
  release = λ m w. w;
  run_callbacks = λ w. (changes, w);
}

-- A library whose world is a log, in which the handlers write, and `noted` what is sent.
abbrev pub noting_steam : (A : Type 0) → (ℕ → Bytes → ℕ → List A) → List Message → Steam
noting_steam A noted received = record {
  World = List A;
  Addr = ℕ;
  is_started = true;
  any_addr = λ port. port;
  parse_string = λ s. some 80;
  addr_port = λ port. port;
  is_ipv4 = λ a. true;
  addr_ipv4 = λ a. sixteen_bytes;
  addr_ipv6 = λ a. sixteen_bytes;
  format_address = λ s port. s;
  result_ok = 1;
  send_reliable = 8;
  send_unreliable = 0;
  create_listen_socket_ip = λ a w. (7, w);
  close_listen_socket = λ s w. w;
  create_poll_group = λ w. (8, w);
  destroy_poll_group = λ g w. w;
  connect_by_ip_address = λ a w. (9, w);
  accept_connection = λ conn w. (1, w);
  set_connection_poll_group = λ conn g w. (true, w);
  get_connection_info = λ conn w. (80, w);
  close_connection = λ conn reason text linger w. w;
  send_message_to_connection = λ conn d n flags w. (1, w ++ noted conn d n);
  receive_messages_on_poll_group = λ g n w. (messages received, w);
  receive_messages_on_connection = λ c n w. (messages received, w);
  release = λ m w. w;
  run_callbacks = λ w. ([], w);
}
