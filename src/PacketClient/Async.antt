-- ===== src/PacketClient/Async.antt =====
-- The awaiters of an AsyncUdpPacketClient. A coroutine that waits for a packet is two steps here:
-- what async_wait_for_packet does before it suspends on its event, and what it does when it resumes.
use kb_networking_cpp.Prelude.{
  ℕ, Bool, true, false, not, List, [], ◌∷◌, ◌++◌, Option, none, some, if◌then◌else◌, ◌==◌, drop,
}
use kb_networking_cpp.Prelude.Table.{Table, find, insert}
use kb_networking_cpp.Packet.OwningBuffer.{Memory}
use kb_networking_cpp.Packet.Header.{
  InternalPacketHeader, k_header_size, unpack_internal_packet_header,
}
use kb_networking_cpp.Serde.Serializer.{Serializer, deserialize_packet, payload_as}
use kb_networking_cpp.Steam.{Steam}
use kb_networking_cpp.Client.Poll.{IncomingViewMessage}
use kb_networking_cpp.PacketClient.Object.{
  PacketClient, create, register_on_data_received_pre_handler_callback,
}

-- awaiting_packet_t, with m_data as `payload`; an event is the number of a coro::event, or none for a null pointer.
pub record AwaitingPacket (Payload : Type 0) : Type 0 where
  pub event : Option ℕ
  pub payload : Option Payload

-- m_awaiters, each queue from the front to the back.
abbrev pub Awaiters : Type 0 → Type 0
Awaiters Payload = Table (List (AwaitingPacket Payload))

module _ {Payload : Type 0} where
  push_to :
      Option (List (AwaitingPacket Payload))
      → AwaitingPacket Payload
      → List (AwaitingPacket Payload)
  push_to none p_awaiting = p_awaiting ∷ []
  push_to (some queue) p_awaiting = queue ++ p_awaiting ∷ []

  unfoldable pub register_packet_awaiter :
      ℕ → AwaitingPacket Payload → Awaiters Payload → Awaiters Payload
  unfolding push_to
  register_packet_awaiter p_packet_type p_awaiting m =
      insert p_packet_type (push_to (find p_packet_type m) p_awaiting) m

  pop_from :
      Option (List (AwaitingPacket Payload))
      → ℕ
      → Awaiters Payload
      → Option (AwaitingPacket Payload) × Awaiters Payload
  pop_from none t m = (none, insert t [] m)
  pop_from (some []) t m = (none, m)
  pop_from (some (a ∷ queue)) t m = (some a, insert t queue m)

  -- operator[] makes an empty queue for a type that has none.
  unfoldable pub get_packet_awaiter :
      ℕ → Awaiters Payload → Option (AwaitingPacket Payload) × Awaiters Payload
  unfolding pop_from
  get_packet_awaiter p_packet_type m = pop_from (find p_packet_type m) p_packet_type m

-- coro::event::set, of the coroutine library.
module _ (steam : Steam) (set_event : ℕ → Steam.World steam → Steam.World steam) where
  open steam use {World}

  -- What the coroutine does when it is resumed is not in it: that is a step of its own.
  unfoldable pub notify : Option ℕ → World → World
  notify none w = w
  notify (some event) w = set_event event w

  module _ {memory : Memory} (serializer : Serializer memory) where
    open serializer use {Payload, Target, serde_type}

    -- What the pre-handler does at the front of a queue, with the payload that was read.
    unfoldable pub wake :
        AwaitingPacket Payload
        → List (AwaitingPacket Payload)
        → Option Payload
        → ℕ
        → Awaiters Payload
        → World
        → Bool × Awaiters Payload × World
    unfolding notify
    wake a queue none t m w = (true, m, notify a.event w)
    wake a queue (some payload) t m w =
        (true, insert t (record a { payload = some payload } ∷ queue) m, notify a.event w)

    unfoldable pub wake_front :
        Option (List (AwaitingPacket Payload))
        → Option Payload
        → ℕ
        → Awaiters Payload
        → World
        → Bool × Awaiters Payload × World
    unfolding wake
    wake_front none payload t m w = (false, m, w)
    wake_front (some []) payload t m w = (false, m, w)
    wake_front (some (a ∷ queue)) payload t m w = wake a queue payload t m w

    unfoldable pub pre_handle_header :
        Option InternalPacketHeader
        → IncomingViewMessage
        → Awaiters Payload
        → World
        → Bool × Awaiters Payload × World
    unfolding wake_front
    pre_handle_header none p_message m w = (false, m, w)
    pre_handle_header (some header) p_message m w =
        if not (header.serde_type == serde_type)
        then (false, m, w)
        else wake_front (find header.packet_type m)
            (deserialize_packet serializer (drop k_header_size p_message.buffer)) header.packet_type
            m w

    unfoldable pub on_data_received_pre_handler :
        IncomingViewMessage → Awaiters Payload → World → Bool × Awaiters Payload × World
    unfolding pre_handle_header
    on_data_received_pre_handler p_message m w =
        pre_handle_header (unpack_internal_packet_header p_message.buffer) p_message m w

    -- async_wait_for_packet, up to the suspension on its event
    unfoldable pub begin_wait : ℕ → ℕ → Awaiters Payload → Awaiters Payload
    unfolding register_packet_awaiter
    begin_wait p_packet_type event m =
        register_packet_awaiter p_packet_type (record { event = some event; payload = none }) m

    unfoldable pub awaited_data : Option Payload → Option Target
    awaited_data none = none
    awaited_data (some payload) = payload_as serializer payload

    -- The value that async_wait_for_packet returns for the awaiter that it popped.
    unfoldable pub awaited : Option (AwaitingPacket Payload) → Option Target
    unfolding awaited_data
    awaited none = none
    awaited (some a) = awaited_data a.payload

    -- async_wait_for_packet, behind the suspension
    unfoldable pub resume_wait : ℕ → Awaiters Payload → Option Target × Awaiters Payload
    unfolding awaited get_packet_awaiter
    resume_wait p_packet_type m =
        let (awaiter, m') = get_packet_awaiter p_packet_type m in (awaited awaiter, m')

    -- AsyncUdpPacketClient::create: a packet client whose pre-handler serves the awaiters.
    unfoldable pub create_async :
        ℕ → PacketClient steam (Awaiters Payload) Payload × Awaiters Payload
    unfolding create register_on_data_received_pre_handler_callback on_data_received_pre_handler
    create_async self = (
      register_on_data_received_pre_handler_callback steam on_data_received_pre_handler
          (create steam self),
      [],
    )
