-- ===== src/PacketClient/Session.antt =====
-- Packets from a msgpack sender to the handlers of a packet client: UdpClient::poll_messages of
-- udp_client.cpp and handle_message of udp_packet_client.inl.
pub mod Broadcast
use kb_networking_cpp.Prelude.{
  ℕ, ◌<◌, ◌^◌, ◌≡◌, ◌≢◌, refl, sym, ap, ◌∙◌, Bool, true, false, none, List, [], ◌∷◌, ◌++◌, Option,
  some, map, All, is_some, length, take, take-length, Option-cases, inl, inr, arith,
}
use mathlib.Core.List.{append-nil, append_assoc}
use kb_networking_cpp.Prelude.Table.{find, keys}
use kb_networking_cpp.Packet.Bytes.{Bytes, u32}
use kb_networking_cpp.Packet.OwningBuffer.{Memory}
use kb_networking_cpp.Packet.Header.{k_invalid_connection}
use kb_networking_cpp.Serde.Serializer.{payload_as}
use kb_networking_cpp.Serde.Msgpack.{Msgpack, msgpack_serializer}
use kb_networking_cpp.Serde.RoundTrip.{msgpack_roundtrip}
use kb_networking_cpp.Steam.{Steam, Message, messages}
use kb_networking_cpp.Server.Object.{send}
use kb_networking_cpp.Server.Broadcast.{after_sends, broadcast_lem}
use kb_networking_cpp.Client.Object.{k_default_poll_message_count}
use kb_networking_cpp.Client.Poll.{
  view, release_all, call_each, call_messages, handle_received, poll_messages,
}
use kb_networking_cpp.Factories.{msgpack-unpacks}
use kb_networking_cpp.PacketClient.Object.{
  PacketClient, weak_self, call_pre_handler, handle_message, data_callback,
}
use kb_networking_cpp.PacketClient.Messages.{handle_message-left}
use kb_networking_cpp.PacketServer.Object.{PacketServer, broadcast_object}
use kb_networking_cpp.PacketServer.Session.{sent_message}

module _ (steam : Steam) (memory : Memory) (lib : Msgpack) where
  open steam use {World}

  -- The bytes of a packet on the wire.
  abbrev pub wire : ℕ × lib.Object → Bytes
  wire packet = (sent_message steam memory lib k_invalid_connection packet).payload

  module _ {X : Type 0} (c : PacketClient steam X lib.ObjectHandle)
      (unfiltered : c.pre_handler ≡ none) where
    -- A packet goes to the handler of its type, with a payload that converts to the object.
    pub packet_handled :
        (t : ℕ) (object : lib.Object) (conn : ℕ) (x : X) (w : World)
        (handler : lib.ObjectHandle → World → World)
        → t < 2 ^ 32
        → find t c.handlers ≡ some handler
        → (payload : lib.ObjectHandle) × (payload_as (msgpack_serializer memory lib) payload
            ≡ some object)
          × (handle_message steam
                (msgpack_serializer memory lib)
                (record { conn = conn; buffer = wire (t, object) })
                c
                (x, w)
              ≡ (true, x, handler payload w))
    unfolding call_pre_handler
    packet_handled t object conn x w handler small bound =
        let unpacked = msgpack-unpacks steam memory lib k_invalid_connection t object small in
        let (payload, read, converted) =
          (msgpack_roundtrip memory lib k_invalid_connection t object small).1 in
        let left : call_pre_handler steam c.pre_handler
              (record { conn = conn; buffer = wire (t, object) }) (x, w)
            ≡ (false, x, w) =
          rw unfiltered refl in
        (
          payload,
          converted,
          ((handle_message-left steam (msgpack_serializer memory lib)
                  (record { conn = conn; buffer = wire (t, object) }) c _ unpacked refl x x w w
                  left).1
                handler bound).1
              payload read,
        )

    -- The packet types are below 2^32 and bound, and the packets shorter than 2^32 bytes.
    abbrev pub Fits : ℕ × lib.Object → Type 0
    Fits (t, object) =
        (t < 2 ^ 32) × (is_some (find t c.handlers) ≡ true) × (length (wire (t, object)) < 2 ^ 32)

    view-wire :
        (packet : ℕ × lib.Object) (conn : ℕ)
        → length (wire packet) < 2 ^ 32
        → view conn (sent_message steam memory lib conn packet)
          ≡ record { conn = conn; buffer = wire packet }
    unfolding view
    view-wire packet conn short =
        let whole : u32 (length (wire packet)) ≡ length (wire packet) = omega arith in
        ap (λ b. record { conn = conn; buffer = b })
          (ap (λ n. take n (wire packet)) whole ∙ take-length (wire packet))

    module _ (log : World → List (ℕ × Option lib.Object))
        (handles : (t : ℕ) (payload : lib.ObjectHandle) (w : World)
            (handler : lib.ObjectHandle → World → World)
          → find t c.handlers ≡ some handler
          → log (handler payload w)
            ≡ log w ++ (t, payload_as (msgpack_serializer memory lib) payload) ∷ [])
        (releases : (m : Message) (w : World) → log (steam.release m w) ≡ log w) where
      -- What a call of the data callback does for a packet.
      packet_noted :
          (packet : ℕ × lib.Object) (conn : ℕ) (x : X) (w : World)
          → Fits packet
          → (w' : World) × (data_callback steam
                (msgpack_serializer memory lib)
                c
                weak_self
                (view conn (sent_message steam memory lib conn packet))
                (x, w)
              ≡ (x, w'))
            × (log w' ≡ log w ++ (packet.0, some packet.1) ∷ [])
      unfolding data_callback
      packet_noted (t, object) conn x w (small, bound, short) =
          elim (Option-cases (find t c.handlers)) [
            | inl unbound ↦ absurd (ground arith)
            | inr (handler, found) ↦
                let (payload, converted, handled) =
                  packet_handled t object conn x w handler small found in
                (
                  handler payload w,
                  ap
                        (λ m.
                          let r = handle_message steam (msgpack_serializer memory lib) m c (x, w) in
                          (r.1, r.2))
                        (view-wire (t, object) conn short)
                      ∙ ap (λ r. (r.1, r.2)) handled,
                  handles t payload w handler found ∙ ap (λ o. log w ++ (t, o) ∷ []) converted,
                )
          ]

      packets_noted :
          (sent : List (ℕ × lib.Object)) (conn : ℕ) (x : X) (w : World)
          → All Fits sent
          → (w' : World) × (call_each steam
                (data_callback steam (msgpack_serializer memory lib) c)
                weak_self
                conn
                (map (λ packet. sent_message steam memory lib conn packet) sent)
                (x, w)
              ≡ (x, w'))
            × (log w' ≡ log w ++ map (λ (t, object). (t, some object)) sent)
      unfolding call_each
      packets_noted [] conn x w fit = (w, refl, sym (append-nil (log w)))
      packets_noted (packet ∷ sent) conn x w (fits, fit) =
          let (w1, called, noted) = packet_noted packet conn x w fits in
          let (w2, rest, logged) = packets_noted sent conn x w1 fit in
          (
            w2,
            ap
                  (λ e.
                    call_each steam (data_callback steam (msgpack_serializer memory lib) c)
                      weak_self conn (map (λ p. sent_message steam memory lib conn p) sent) e)
                  called
                ∙ rest,
            logged
                ∙ ap (λ l. l ++ map (λ (t, object). (t, some object)) sent) noted
                ∙ append_assoc (log w) ((packet.0, some packet.1) ∷ [])
                    (map (λ (t, object). (t, some object)) sent),
          )

      log-release_all :
          (received : List Message) (x : X) (w : World)
          → (log (release_all steam received (x, w)).1 ≡ log w)
            × ((release_all steam received (x, w)).0 ≡ x)
      unfolding release_all
      log-release_all [] x w = (refl, refl)
      log-release_all (message ∷ rest) x w =
          let (same, kept) = log-release_all rest x (steam.release message w) in
          (same ∙ releases message w, kept)

      handled_noted :
          (sent : List (ℕ × lib.Object)) (x : X) (w : World)
          → c.client.on_data_received ≡ some weak_self
          → All Fits sent
          → (w' : World) × (handle_received steam
                (data_callback steam (msgpack_serializer memory lib) c)
                c.client
                (messages (map (λ packet. sent_message steam memory lib c.client.conn packet) sent))
                (x, w)
              ≡ some (x, w'))
            × (log w' ≡ log w ++ map (λ (t, object). (t, some object)) sent)
      unfolding handle_received call_messages
      handled_noted sent x w created fit =
          let received = map (λ packet. sent_message steam memory lib c.client.conn packet) sent in
          let (w1, called, noted) = packets_noted sent c.client.conn x w fit in
          let (same, kept) = log-release_all received x w1 in
          (
            (release_all steam received (x, w1)).1,
            ap
                  (λ o. some (
                    release_all steam received (
                      call_messages steam (data_callback steam (msgpack_serializer memory lib) c) o
                        c.client.conn received (x, w))))
                  created
                ∙ ap (λ e. some (release_all steam received e)) called
                ∙ ap (λ y. some (y, (release_all steam received (x, w1)).1)) kept,
            same ∙ noted,
          )

      -- A packet client without a pre-handler, made with the data callback of its `create`, with
      -- an interface and a connection; its handlers append the packet type and the object that the
      -- payload converts to to a log that releasing a message leaves alone. When it polls and the
      -- library has the messages of packets that a msgpack sender made, each of a type below 2^32
      -- that is bound and shorter than 2^32 bytes, the log grows by just the objects that were
      -- sent, in their order and each under its type, and the owner's state stays.
      pub client_session_lem :
          (sent : List (ℕ × lib.Object)) (x : X) (w received : World)
          → c.client.on_data_received ≡ some weak_self
          → c.client.has_interface ≡ true
          → c.client.conn ≢ k_invalid_connection
          → steam.receive_messages_on_connection c.client.conn k_default_poll_message_count w ≡ (
            messages (map (λ packet. sent_message steam memory lib c.client.conn packet) sent),
            received,
          )
          → log received ≡ log w
          → All Fits sent
          → (w' : World) × (poll_messages steam
                (data_callback steam (msgpack_serializer memory lib) c)
                c.client
                x
                w
              ≡ some (x, w'))
            × (log w' ≡ log w ++ map (λ (t, object). (t, some object)) sent)
      unfolding poll_messages
      client_session_lem sent x w received created set open_conn came kept fit =
          let (w', handled, noted) = handled_noted sent x received created fit in
          (
            w',
            ground (arith, came, handled),
            noted ∙ ap (λ l. l ++ map (λ (t, object). (t, some object)) sent) kept,
          )
