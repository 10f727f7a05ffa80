-- ===== src/PacketServer/Object.antt =====
-- The state of a UdpPacketServer and its operations.
use kb_networking_cpp.Prelude.{
  ℕ, Bool, true, false, not, [], Option, none, some, if◌then◌else◌, ◌==◌, drop,
}
use kb_networking_cpp.Prelude.Table.{Table, find, contains, insert, erase}
use kb_networking_cpp.Packet.Bytes.{Bytes, u32}
use kb_networking_cpp.Packet.OwningBuffer.{Memory}
use kb_networking_cpp.Packet.Internal.{InternalPacket}
use kb_networking_cpp.Packet.Header.{
  InternalPacketHeader, k_header_size, k_invalid_connection, unpack_internal_packet_header,
}
use kb_networking_cpp.Serde.Serializer.{Serializer, serialize_packet, deserialize_packet}
use kb_networking_cpp.Steam.{Steam}
use kb_networking_cpp.Server.Object.{
  UdpServer, ClientInfo, Host, new_server, set_on_data_callback, start_async, stop, send, broadcast,
}
use kb_networking_cpp.Server.Process.{Process, poll}

-- The data callback that `create` sets: it locks a weak pointer to the packet server, and so acts on
-- the packet server as it is when the callback is called.
pub data WeakSelf : Type 0 where
  weak_self : WeakSelf

-- Table of packet handlers: packet_handler_func_t by packet type.
pub record PacketServer (steam : Steam) (Payload : Type 0) : Type 0 where
  pub server : UdpServer steam WeakSelf
  pub packet_handlers : Table (ℕ → Payload → Steam.World steam → Steam.World steam)

module _ (steam : Steam) {Payload : Type 0} where
  open steam use {World}

  unfoldable pub create : ℕ → PacketServer steam Payload
  unfolding set_on_data_callback new_server
  create self = record {
    server = set_on_data_callback steam weak_self (new_server steam self);
    packet_handlers = [];
  }

  unfoldable pub bind_packet_handler :
      ℕ
      → (ℕ → Payload → World → World)
      → PacketServer steam Payload
      → Bool × PacketServer steam Payload
  bind_packet_handler p_packet_type packet_handler_func s =
      if contains p_packet_type s.packet_handlers then (false, s) else (
        true,
        record s { packet_handlers = insert p_packet_type packet_handler_func s.packet_handlers },
      )

  unfoldable pub unbind_packet_handler : ℕ → PacketServer steam Payload → PacketServer steam Payload
  unbind_packet_handler p_packet_type s = record s {
    packet_handlers = erase p_packet_type s.packet_handlers;
  }

  with_server :
      PacketServer steam Payload
      → Option (Bool × UdpServer steam WeakSelf × Host steam)
      → Option (Bool × PacketServer steam Payload × Host steam)
  with_server s none = none
  with_server s (some (ok, server, h)) = some (ok, record s { server = server }, h)

  unfoldable pub start :
      ℕ
      → PacketServer steam Payload
      → Host steam
      → Option (Bool × PacketServer steam Payload × Host steam)
  unfolding with_server
  start p_port s h = with_server s (start_async steam p_port s.server h)

  unfoldable pub stop_packets :
      PacketServer steam Payload → Host steam → PacketServer steam Payload × Host steam
  stop_packets s h = let (server, h') = stop steam s.server h in (record s { server = server }, h')

module _ (steam : Steam) {memory : Memory} (serializer : Serializer memory) where
  open steam use {World}
  open serializer use {Object, Payload, serde_type}

  abbrev Handler : Type 0
  Handler = ℕ → Payload → World → World

  -- The last part of handle_packet: the handler gets the payload, if there is one.
  unfoldable pub invoke : Handler → Option Payload → ℕ → World → Bool × World
  invoke handler none conn w = (false, w)
  invoke handler (some payload) conn w = (true, handler conn payload w)

  -- What handle_packet does with the handler that it found, and the bytes behind the header.
  unfoldable pub handle_found : Option Handler → Bytes → ℕ → World → Bool × World
  unfolding invoke
  handle_found none payload_bytes conn w = (false, w)
  handle_found (some handler) payload_bytes conn w =
      invoke handler (deserialize_packet serializer payload_bytes) conn w

  unfoldable pub handle_header :
      Option InternalPacketHeader → Table Handler → ClientInfo → Bytes → World → Bool × World
  unfolding handle_found
  handle_header none handlers p_client p_data w = (false, w)
  handle_header (some header) handlers p_client p_data w =
      if not (header.serde_type == serde_type)
      then (false, w)
      else handle_found (find header.packet_type handlers) (drop k_header_size p_data) p_client.conn
          w

  unfoldable pub handle_packet :
      ClientInfo → Bytes → PacketServer steam Payload → World → Bool × World
  unfolding handle_header
  handle_packet p_client p_data s w =
      handle_header (unpack_internal_packet_header p_data) s.packet_handlers p_client p_data w

  -- What the data callback does.
  unfoldable pub data_callback :
      PacketServer steam Payload → WeakSelf → ClientInfo → Bytes → World → World
  data_callback s weak_self client payload w = (handle_packet client payload s w).1

  -- Polling the server in a process, with the packet server's callback.
  unfoldable pub poll_packets :
      PacketServer steam Payload → ℕ → Process steam WeakSelf → Option (Process steam WeakSelf)
  unfolding data_callback
  poll_packets s p process = poll steam (data_callback s) p process

  unfoldable pub send_packet_internal : InternalPacket memory → Bool → World → Bool × World
  send_packet_internal p_packet p_reliable w =
      send steam p_packet.conn (memory.contents p_packet.buffer) (u32 (memory.size p_packet.buffer))
        p_reliable w

  unfoldable pub broadcast_packet_internal :
      InternalPacket memory → Bool → PacketServer steam Payload → World → Bool × World
  broadcast_packet_internal p_packet p_reliable s w =
      broadcast steam (memory.contents p_packet.buffer) (u32 (memory.size p_packet.buffer))
        p_reliable s.server w

  -- UdpPacketServer::send and UdpPacketServer::broadcast
  unfoldable pub send_object : ℕ → ℕ → Object → Bool → World → Bool × World
  unfolding send_packet_internal
  send_object p_conn p_packet_type p_obj p_reliable w =
      send_packet_internal (serialize_packet serializer p_conn p_packet_type p_obj) p_reliable w

  unfoldable pub broadcast_object :
      ℕ → Object → Bool → PacketServer steam Payload → World → Bool × World
  unfolding broadcast_packet_internal
  broadcast_object p_packet_type p_obj p_reliable s w =
      broadcast_packet_internal
        (serialize_packet serializer k_invalid_connection p_packet_type p_obj) p_reliable s w
