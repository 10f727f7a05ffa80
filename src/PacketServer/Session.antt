-- ===== src/PacketServer/Session.antt =====
-- A round of packets from a msgpack sender to the handlers of a packet server.
use kb_networking_cpp.Prelude.{
  ℕ, ◌<◌, ◌≤◌, ◌≢◌, Bool, if◌then◌else◌, ◌==◌, length, ◌^◌, ◌≡◌, inl, inr, Option-cases, refl, ap,
  ◌∙◌, List, [], ◌∷◌, ◌++◌, Option, some, map, All, is_some, true, arith,
}
use kb_networking_cpp.Prelude.Table.{find}
use kb_networking_cpp.Packet.OwningBuffer.{Memory}
use kb_networking_cpp.Packet.Header.{k_invalid_connection}
use kb_networking_cpp.Serde.Serializer.{serialize_packet, payload_as}
use kb_networking_cpp.Serde.Msgpack.{Msgpack, msgpack_serializer}
use kb_networking_cpp.Serde.RoundTrip.{msgpack_roundtrip}
use kb_networking_cpp.Steam.{Steam, Message, messages}
use kb_networking_cpp.Server.Object.{ClientInfo, k_message_count}
use kb_networking_cpp.Server.Process.{Process, deliver, poll, poll_received, dispatch}
use kb_networking_cpp.Client.Object.{send_raw}
use kb_networking_cpp.Client.Lifecycle.{send_raw_lem}
use kb_networking_cpp.PacketClient.Object.{PacketClient, send_packet, send_packet_internal}
use kb_networking_cpp.Factories.{msgpack-unpacks}
use kb_networking_cpp.PacketServer.Object.{
  PacketServer, WeakSelf, weak_self, data_callback, poll_packets,
}
use kb_networking_cpp.PacketServer.Delivery.{packets_in, notes, notes_of, packets_delivered}

module _ (steam : Steam) (memory : Memory) (lib : Msgpack) where
  open steam use {World}

  -- What a packet client sends for an object, as the message that it becomes at the server.
  abbrev pub sent_message : ℕ → ℕ × lib.Object → Message
  sent_message conn (t, x) = record {
    conn = conn;
    payload =
        memory.contents
          (serialize_packet (msgpack_serializer memory lib) k_invalid_connection t x).buffer;
  }

  module _ (s : PacketServer steam lib.ObjectHandle) where
    abbrev Note : Type 0
    Note = ℕ × ℕ × Option lib.Object

    -- What a handler sees of a packet: the connection, the type, and the object that it converts to.
    abbrev pub note : ℕ → ℕ → lib.ObjectHandle → Note
    note conn t payload = (conn, t, payload_as (msgpack_serializer memory lib) payload)

    packet_noted :
        (log : World → List Note) (conn t : ℕ) (x : lib.Object)
        → t < 2 ^ 32
        → is_some (find t s.packet_handlers) ≡ true
        → notes steam
            (msgpack_serializer memory lib)
            s
            log
            note
            conn
            (packets_in steam (msgpack_serializer memory lib) s (sent_message conn (t, x)).payload)
          ≡ (conn, t, some x) ∷ []
    packet_noted log conn t x small bound =
        let unpacked = msgpack-unpacks steam memory lib k_invalid_connection t x small in
        let (payload, read, converted) =
          (msgpack_roundtrip memory lib k_invalid_connection t x small).1 in
        elim (Option-cases (find t s.packet_handlers)) [
          | inl unbound ↦ absurd (ground arith)
          | inr (handler, found) ↦
              rw (unpacked, found, read) (ap (λ o. (conn, t, o) ∷ []) converted)
        ]

    -- The packet types are below 2^32 and bound.
    abbrev pub Bound : ℕ × lib.Object → Type 0
    Bound (t, x) = (t < 2 ^ 32) × (is_some (find t s.packet_handlers) ≡ true)

    session_noted :
        (log : World → List Note) (client : ClientInfo) (sent : List (ℕ × lib.Object))
        → find client.conn s.server.clients ≡ some client
        → All Bound sent
        → notes_of steam
            (msgpack_serializer memory lib)
            s
            log
            note
            (map (λ packet. sent_message client.conn packet) sent)
          ≡ map (λ (t, x). (client.conn, t, some x)) sent
    session_noted log client [] known bound = refl
    session_noted log client ((t, x) ∷ sent) known ((small, has_handler), bound) = rw known (
        ap
          (λ l.
            l
            ++ notes_of steam (msgpack_serializer memory lib) s log note
                (map (λ packet. sent_message client.conn packet) sent))
          (packet_noted log client.conn t x small has_handler)
        ∙ ap (λ l. (client.conn, t, some x) ∷ l) (session_noted log client sent known bound))

    -- The loop over the messages.
    delivered_session :
        (log : World → List Note) (client : ClientInfo) (sent : List (ℕ × lib.Object)) (w : World)
        → ((t conn : ℕ) (payload : lib.ObjectHandle) (w' : World)
              (handler : ℕ → lib.ObjectHandle → World → World)
            → find t s.packet_handlers ≡ some handler
            → log (handler conn payload w') ≡ log w' ++ note conn t payload ∷ [])
        → ((m : Message) (w' : World) → log (steam.release m w') ≡ log w')
        → s.server.data_received_callback ≡ some weak_self
        → find client.conn s.server.clients ≡ some client
        → All Bound sent
        → log (
            deliver steam
              (data_callback steam (msgpack_serializer memory lib) s)
              (map (λ packet. sent_message client.conn packet) sent)
              s.server
              w)
          ≡ log w ++ map (λ (t, x). (client.conn, t, some x)) sent
    delivered_session log client sent w handles releases created known bound =
        packets_delivered steam (msgpack_serializer memory lib) s log note handles releases created
          (map (λ packet. sent_message client.conn packet) sent) w
        ∙ ap (λ l. log w ++ l) (session_noted log client sent known bound)

    -- In a round of a poll a msgpack packet server, whose interface is not null, receives the
    -- messages in which one of its clients sent objects, at most 32, as packets of types below
    -- 2^32 that are bound, and no status change comes. Where the handlers append the connection,
    -- the packet type and the object that the payload converts to to a log that receiving,
    -- releasing a message and RunCallbacks leave alone, the poll returns, leaves the servers as
    -- they were, and has appended just the objects that were sent, in their order, each under its
    -- type and the connection of the client.
    pub session_lem :
        (log : World → List Note) (client : ClientInfo) (sent : List (ℕ × lib.Object)) (p : ℕ)
        (process : Process steam WeakSelf) (received : World)
        → ((t conn : ℕ) (payload : lib.ObjectHandle) (w' : World)
              (handler : ℕ → lib.ObjectHandle → World → World)
            → find t s.packet_handlers ≡ some handler
            → log (handler conn payload w') ≡ log w' ++ note conn t payload ∷ [])
        → ((m : Message) (w' : World) → log (steam.release m w') ≡ log w')
        → ((w' : World)
            → ((steam.run_callbacks w').0 ≡ []) × (log (steam.run_callbacks w').1 ≡ log w'))
        → s.server.data_received_callback ≡ some weak_self
        → find client.conn s.server.clients ≡ some client
        → All Bound sent
        → find p process.servers ≡ some s.server
        → s.server.has_interface ≡ true
        → length sent ≤ k_message_count
        → steam.receive_messages_on_poll_group s.server.poll_group k_message_count process.world
          ≡ (messages (map (λ packet. sent_message client.conn packet) sent), received)
        → log received ≡ log process.world
        → (process' : Process steam WeakSelf) × (poll_packets steam
              (msgpack_serializer memory lib)
              s
              p
              process
            ≡ some process')
          × (process'.servers ≡ process.servers)
          × (log process'.world
              ≡ log process.world ++ map (λ (t, x). (client.conn, t, some x)) sent)
    unfolding poll_packets poll poll_received dispatch
    session_lem log client sent p process received handles releases quiet created known bound found
          set at_most came kept =
        let w =
          deliver steam (data_callback steam (msgpack_serializer memory lib) s)
            (map (λ packet. sent_message client.conn packet) sent) s.server received in
        let (none_changed, quiet_log) = quiet w in
        (
          record process { host = record process.host { world = (steam.run_callbacks w).1 } },
          simp (found, set, came, none_changed),
          refl,
          quiet_log
              ∙ delivered_session log client sent received handles releases created known bound
              ∙ ap (λ l. l ++ map (λ (t, x). (client.conn, t, some x)) sent) kept,
        )

  -- A packet client with an interface and a connection that sends an object as a msgpack packet of
  -- a type below 2^32 hands the bytes of the packet to the library, with their number, if that is
  -- below 2^32, and reports whether the library took them.
  pub send_packet_lem :
      {X : Type 0} (t : ℕ) (x : lib.Object) (reliable : Bool)
      (c : PacketClient steam X lib.ObjectHandle) (w : World)
      → c.client.has_interface ≡ true
      → c.client.conn ≢ k_invalid_connection
      → length (sent_message c.client.conn (t, x)).payload < 2 ^ 32
      → t < 2 ^ 32
      → let wire = (sent_message c.client.conn (t, x)).payload in
        let sent =
          steam.send_message_to_connection c.client.conn wire
            (length wire)
            (if reliable then steam.send_reliable else steam.send_unreliable)
            w in
        send_packet steam (msgpack_serializer memory lib) t x reliable c w
        ≡ (sent.0 == steam.result_ok, sent.1)
  unfolding send_packet send_packet_internal
  send_packet_lem t x reliable c w set connected small small_type =
      let wire = (sent_message c.client.conn (t, x)).payload in
      let size = (msgpack_roundtrip memory lib k_invalid_connection t x small_type).2 in
      ap (λ n. send_raw steam wire n reliable c.client w) size
      ∙ (send_raw_lem steam wire (length wire) reliable c.client w).1 set connected small
