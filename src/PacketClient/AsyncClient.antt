-- ===== src/PacketClient/AsyncClient.antt =====
-- AsyncUdpPacketClient as an object, async_udp_packet_client.hpp: its packet client and its awaiters, and
-- which of the two a message goes to.
use kb_networking_cpp.Prelude.{ℕ, ◌≡◌, refl, ap, ◌∙◌, Bool, true, List, [], ◌∷◌, some}
use kb_networking_cpp.Prelude.Table.{find}
use kb_networking_cpp.Packet.OwningBuffer.{Memory}
use kb_networking_cpp.Serde.Serializer.{Serializer}
use kb_networking_cpp.Steam.{Steam}
use kb_networking_cpp.Client.Object.{ClientHost, ConnectionStatus}
use kb_networking_cpp.Client.Poll.{IncomingViewMessage}
use kb_networking_cpp.PacketClient.Object.{
  PacketClient, register_on_data_received_pre_handler_callback, stop_packets, send_packet,
  handle_message, call_pre_handler,
}
use kb_networking_cpp.PacketClient.Messages.{handle_message-taken, handle_message-left}
use kb_networking_cpp.PacketClient.Async.{
  AwaitingPacket, Awaiters, notify, on_data_received_pre_handler, create_async,
}
use kb_networking_cpp.PacketClient.Awaiters.{
  waiting, IsPacket, payload_of, pre_handler-unawaited, pre_handler-awaited,
}

module _ (steam : Steam) {X Payload : Type 0} where
  -- UdpPacketClient::get_connection_status and UdpPacketClient::is_running
  abbrev pub get_connection_status : PacketClient steam X Payload → ConnectionStatus
  get_connection_status c = c.client.connection_status

  abbrev pub is_client_running : PacketClient steam X Payload → Bool
  is_client_running c = c.client.running

-- m_client and m_awaiters
pub record AsyncClient (steam : Steam) (Payload : Type 0) : Type 0 where
  pub packet_client : PacketClient steam (Awaiters Payload) Payload
  pub awaiters : Awaiters Payload

module _ (steam : Steam) {Payload : Type 0} where
  unfoldable pub stop_async :
      AsyncClient steam Payload → ClientHost steam → AsyncClient steam Payload × ClientHost steam
  stop_async c h =
      let (packet_client, h') = stop_packets steam c.packet_client h in
      (record c { packet_client = packet_client }, h')

  abbrev pub async_connection_status : AsyncClient steam Payload → ConnectionStatus
  async_connection_status c = get_connection_status steam c.packet_client

  abbrev pub is_async_running : AsyncClient steam Payload → Bool
  is_async_running c = is_client_running steam c.packet_client

module _ (steam : Steam) (set_event : ℕ → Steam.World steam → Steam.World steam) {memory : Memory}
    (serializer : Serializer memory) where
  open steam use {World}
  open serializer use {Object, Payload}

  unfoldable pub new_async : ℕ → AsyncClient steam Payload
  unfolding create_async
  new_async self =
      let (packet_client, awaiters) = create_async steam set_event serializer self in
      record { packet_client = packet_client; awaiters = awaiters }

  unfoldable pub send_packet_async :
      ℕ → Object → Bool → AsyncClient steam Payload → World → Bool × World
  send_packet_async p_packet_type p_object p_reliable c w =
      send_packet steam serializer p_packet_type p_object p_reliable c.packet_client w

  -- A message to the client: the callback that the packet client of `create` sets.
  unfoldable pub receive_async :
      IncomingViewMessage
      → AsyncClient steam Payload
      → World
      → Bool × AsyncClient steam Payload × World
  receive_async p_message c w =
      let (handled, awaiters, w') =
        handle_message steam serializer p_message c.packet_client (c.awaiters, w) in
      (handled, record c { awaiters = awaiters }, w')

  -- The pre-handler is the one that `create` registers.
  abbrev pub ServesAwaiters : AsyncClient steam Payload → Type 0
  ServesAwaiters c =
      c.packet_client.pre_handler ≡ some (on_data_received_pre_handler steam set_event serializer)

  pub new_async-ServesAwaiters : (self : ℕ) → ServesAwaiters (new_async self)
  unfolding new_async create_async register_on_data_received_pre_handler_callback
  new_async-ServesAwaiters self = refl

  module _ (t : ℕ) (p_message : IncomingViewMessage) (c : AsyncClient steam Payload) (w : World)
      (v : Payload) (serves : ServesAwaiters c) (is_packet : IsPacket serializer t p_message)
      (read : payload_of serializer p_message ≡ some v) where
    taken :
        let served =
          on_data_received_pre_handler steam set_event serializer p_message c.awaiters w in
        served.0 ≡ true
        → handle_message steam serializer p_message c.packet_client (c.awaiters, w)
          ≡ (true, served.1, served.2)
    taken served =
        let r = on_data_received_pre_handler steam set_event serializer p_message c.awaiters w in
        handle_message-taken steam serializer p_message c.packet_client is_packet.header
          is_packet.unpacked is_packet.same_serde
          (on_data_received_pre_handler steam set_event serializer) c.awaiters r.1 w r.2 serves
          (ap (λ b. (b, r.1, r.2)) served)

    left :
        (handler : Payload → World → World)
        → waiting t c.awaiters ≡ []
        → find t c.packet_client.handlers ≡ some handler
        → handle_message steam serializer p_message c.packet_client (c.awaiters, w)
          ≡ (true, c.awaiters, handler v w)
    unfolding call_pre_handler
    left handler e bound =
        ((handle_message-left steam serializer p_message c.packet_client is_packet.header
              is_packet.unpacked is_packet.same_serde c.awaiters c.awaiters w w
              (ap (λ pre. call_pre_handler steam pre p_message (c.awaiters, w)) serves
                ∙ pre_handler-unawaited steam set_event serializer t p_message c.awaiters w
                    is_packet e)).1
            handler (ap (λ k. find k c.packet_client.handlers) is_packet.same_type ∙ bound)).1
          v read

    -- A packet with a payload that can be read comes to an asynchronous client. If a coroutine
    -- waits for its type, the first to wait gets the payload and has its event set, and no handler
    -- is called; if none waits, the handler of its type is called once with the payload, and the
    -- awaiters stay.
    pub awaiter_or_handler :
        ((a : AwaitingPacket Payload) (queue : List (AwaitingPacket Payload))
          → waiting t c.awaiters ≡ a ∷ queue
          → let (handled, c', w') = receive_async p_message c w in
            (handled ≡ true)
            × (waiting t c'.awaiters ≡ record a { payload = some v } ∷ queue)
            × (w' ≡ notify steam set_event a.event w))
        × ((handler : Payload → World → World)
            → waiting t c.awaiters ≡ []
            → find t c.packet_client.handlers ≡ some handler
            → receive_async p_message c w ≡ (true, c, handler v w))
    unfolding receive_async
    awaiter_or_handler = (
      λ a queue e.
          let served =
            pre_handler-awaited steam set_event serializer t p_message c.awaiters w is_packet a
              queue v e read in
          rw (taken served.0) (refl, served.1, served.2),
      λ handler e bound. rw (left handler e bound) refl,
    )
