-- ===== src/PacketClient/Object.antt =====
-- The state of a UdpPacketClient and its operations.
use Prim.Native.String.{String}
use kb_networking_cpp.Prelude.{
  ℕ, Bool, true, false, not, [], Option, none, some, if◌then◌else◌, ◌==◌, drop,
}
use kb_networking_cpp.Prelude.Table.{Table, find, contains, insert, erase}
use kb_networking_cpp.Packet.Bytes.{Bytes}
use kb_networking_cpp.Packet.OwningBuffer.{Memory}
use kb_networking_cpp.Packet.Internal.{InternalPacket}
use kb_networking_cpp.Packet.Header.{
  InternalPacketHeader, k_header_size, k_invalid_connection, unpack_internal_packet_header,
}
use kb_networking_cpp.Serde.Serializer.{Serializer, serialize_packet, deserialize_packet}
use kb_networking_cpp.Steam.{Steam}
use kb_networking_cpp.Client.Object.{
  UdpClient, ClientHost, new_client, set_on_data_callback, connect, stop, send_raw,
}
use kb_networking_cpp.Client.Poll.{IncomingViewMessage, poll}

-- The data callback that `create` sets; it locks a weak pointer to the packet client.
pub data WeakSelf : Type 0 where
  weak_self : WeakSelf

-- m_on_data_received_pre_handler_callback, over a state of type X of its owner.
abbrev pub PreHandler : Steam → Type 0 → Type 0
PreHandler steam X = IncomingViewMessage → X → steam.World → Bool × X × steam.World

pub record PacketClient (steam : Steam) (X : Type 0) (Payload : Type 0) : Type 0 where
  pub client : UdpClient WeakSelf
  pub handlers : Table (Payload → Steam.World steam → Steam.World steam)
  pub pre_handler : Option (PreHandler steam X)

module _ (steam : Steam) {X Payload : Type 0} where
  open steam use {World}

  unfoldable pub create : ℕ → PacketClient steam X Payload
  unfolding set_on_data_callback
  create self = record {
    client = set_on_data_callback weak_self (new_client self);
    handlers = [];
    pre_handler = none;
  }

  unfoldable pub register_on_data_received_pre_handler_callback :
      PreHandler steam X → PacketClient steam X Payload → PacketClient steam X Payload
  register_on_data_received_pre_handler_callback p_callback c = record c {
    pre_handler = some p_callback;
  }

  unfoldable pub bind_packet_handler :
      ℕ
      → (Payload → World → World)
      → PacketClient steam X Payload
      → Bool × PacketClient steam X Payload
  bind_packet_handler p_packet_type p_handler c =
      if contains p_packet_type c.handlers
      then (false, c)
      else (true, record c { handlers = insert p_packet_type p_handler c.handlers })

  unfoldable pub unbind_packet_handler :
      ℕ → PacketClient steam X Payload → PacketClient steam X Payload
  unbind_packet_handler p_packet_type c = record c { handlers = erase p_packet_type c.handlers }

  with_client :
      PacketClient steam X Payload
      → Option (Bool × UdpClient WeakSelf × ClientHost steam)
      → Option (Bool × PacketClient steam X Payload × ClientHost steam)
  with_client c none = none
  with_client c (some (ok, client, h)) = some (ok, record c { client = client }, h)

  unfoldable pub connect_packets :
      String
      → ℕ
      → PacketClient steam X Payload
      → ClientHost steam
      → Option (Bool × PacketClient steam X Payload × ClientHost steam)
  unfolding with_client
  connect_packets p_address p_port c h = with_client c (connect steam p_address p_port c.client h)

  unfoldable pub stop_packets :
      PacketClient steam X Payload
      → ClientHost steam
      → PacketClient steam X Payload × ClientHost steam
  stop_packets c h = let (client, h') = stop steam c.client h in (record c { client = client }, h')

module _ (steam : Steam) {X : Type 0} where
  -- The optional early part of handle_message: has the pre-handler taken the message?
  unfoldable pub call_pre_handler :
      Option (PreHandler steam X) → IncomingViewMessage → X × steam.World → Bool × X × steam.World
  call_pre_handler none p_message (x, w) = (false, x, w)
  call_pre_handler (some call) p_message (x, w) = call p_message x w

module _ (steam : Steam) {memory : Memory} (serializer : Serializer memory) where
  open steam use {World}
  open serializer use {Object, Payload, serde_type}

  abbrev Handler : Type 0
  Handler = Payload → World → World

  unfoldable pub invoke : Handler → Option Payload → World → Bool × World
  invoke handler none w = (false, w)
  invoke handler (some payload) w = (true, handler payload w)

  -- What handle_message does with the handler that it found, and the bytes behind the header.
  unfoldable pub handle_found : Option Handler → Bytes → World → Bool × World
  unfolding invoke
  handle_found none payload_bytes w = (false, w)
  handle_found (some handler) payload_bytes w =
      invoke handler (deserialize_packet serializer payload_bytes) w

  module _ {X : Type 0} where
    unfoldable pub after_pre_handler : Option Handler → Bytes → Bool × X × World → Bool × X × World
    unfolding handle_found
    after_pre_handler found payload_bytes (true, x, w) = (true, x, w)
    after_pre_handler found payload_bytes (false, x, w) =
        let (handled, w') = handle_found found payload_bytes w in (handled, x, w')

    unfoldable pub handle_header :
        Option InternalPacketHeader
        → PacketClient steam X Payload
        → IncomingViewMessage
        → X × World
        → Bool × X × World
    unfolding after_pre_handler call_pre_handler
    handle_header none c p_message e = (false, e.0, e.1)
    handle_header (some header) c p_message e =
        if not (header.serde_type == serde_type)
        then (false, e.0, e.1)
        else after_pre_handler (find header.packet_type c.handlers)
            (drop k_header_size p_message.buffer) (call_pre_handler steam c.pre_handler p_message e)

    unfoldable pub handle_message :
        IncomingViewMessage → PacketClient steam X Payload → X × World → Bool × X × World
    unfolding handle_header
    handle_message p_message c e =
        handle_header (unpack_internal_packet_header p_message.buffer) c p_message e

    -- What the data callback does.
    unfoldable pub data_callback :
        PacketClient steam X Payload → WeakSelf → IncomingViewMessage → X × World → X × World
    data_callback c weak_self p_message e =
        let (handled, x, w) = handle_message p_message c e in (x, w)

    -- Polling the client, with the packet client's callback.
    unfoldable pub poll_packets :
        PacketClient steam X Payload
        → X
        → ClientHost steam
        → Option (UdpClient WeakSelf × X × ClientHost steam)
    unfolding data_callback
    poll_packets c x h = poll steam (data_callback c) c.client x h

    unfoldable pub send_packet_internal :
        InternalPacket memory → Bool → PacketClient steam X Payload → World → Bool × World
    send_packet_internal p_packet p_reliable c w =
        send_raw steam (memory.contents p_packet.buffer) (memory.size p_packet.buffer) p_reliable
          c.client w

    unfoldable pub send_packet :
        ℕ → Object → Bool → PacketClient steam X Payload → World → Bool × World
    unfolding send_packet_internal
    send_packet p_packet_type p_object p_reliable c w =
        send_packet_internal
          (serialize_packet serializer k_invalid_connection p_packet_type p_object) p_reliable c w
