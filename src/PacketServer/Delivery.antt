-- ===== src/PacketServer/Delivery.antt =====
-- What one round of messages to a packet server does: UdpServer::poll with the data callback of
-- udp_packet_server.inl.
use kb_networking_cpp.Prelude.{
  ℕ, ◌≡◌, sym, ap, ◌∙◌, inl, inr, List, [], ◌∷◌, ◌++◌, Option, none, some, drop, if◌then◌else◌,
  ◌==◌, Option-cases, Bool-cases,
}
use mathlib.Core.List.{append-nil, append_assoc}
use kb_networking_cpp.Prelude.Table.{find}
use kb_networking_cpp.Packet.Bytes.{Bytes}
use kb_networking_cpp.Packet.OwningBuffer.{Memory}
use kb_networking_cpp.Packet.Header.{
  InternalPacketHeader, k_header_size, unpack_internal_packet_header,
}
use kb_networking_cpp.Serde.Serializer.{Serializer, deserialize_packet}
use kb_networking_cpp.Steam.{Steam, Message}
use kb_networking_cpp.Server.Object.{ClientInfo, get_client_info}
use kb_networking_cpp.Server.Process.{deliver, call_data_callback}
use kb_networking_cpp.PacketServer.Object.{weak_self, PacketServer, handle_packet, data_callback}

module _ (steam : Steam) {memory : Memory} (serializer : Serializer memory)
    (s : PacketServer steam serializer.Payload) where
  open steam use {World}
  open serializer use {Payload, serde_type}

  -- The packet type and the payload of a packet, for which there is a handler.
  abbrev with_payload : ℕ → Option Payload → List (ℕ × Payload)
  with_payload t none = []
  with_payload t (some payload) = (t, payload) ∷ []

  abbrev with_handler : Option (ℕ → Payload → World → World) → ℕ → Bytes → List (ℕ × Payload)
  with_handler none t d = []
  with_handler (some handler) t d =
      with_payload t (deserialize_packet serializer (drop k_header_size d))

  abbrev with_header : Option InternalPacketHeader → Bytes → List (ℕ × Payload)
  with_header none d = []
  with_header (some header) d =
      if header.serde_type == serde_type
      then with_handler (find header.packet_type s.packet_handlers) header.packet_type d
      else []

  -- The packet that the bytes are, if the server takes it: none or one.
  abbrev pub packets_in : Bytes → List (ℕ × Payload)
  packets_in d = with_header (unpack_internal_packet_header d) d

  module _ {A : Type 0} (log : World → List A) (note : ℕ → ℕ → Payload → A) where
    abbrev pub notes : ℕ → List (ℕ × Payload) → List A
    notes conn [] = []
    notes conn ((t, payload) ∷ packets) = note conn t payload ∷ notes conn packets

    -- The notes of the messages that come from clients, in the order of arrival.
    abbrev from_client : Option ClientInfo → Bytes → List A
    from_client none d = []
    from_client (some client) d = notes client.conn (packets_in d)

    abbrev pub notes_of : List Message → List A
    notes_of [] = []
    notes_of (message ∷ rest) =
        from_client (find message.conn s.server.clients) message.payload ++ notes_of rest

    module _
        (handles : (t conn : ℕ) (payload : Payload) (w : World)
            (handler : ℕ → Payload → World → World)
          → find t s.packet_handlers ≡ some handler
          → log (handler conn payload w) ≡ log w ++ note conn t payload ∷ [])
        (releases : (m : Message) (w : World) → log (steam.release m w) ≡ log w) where
      log-handle_packet :
          (client : ClientInfo) (d : Bytes) (w : World)
          → log (handle_packet steam serializer client d s w).1
            ≡ log w ++ notes client.conn (packets_in d)
      unfolding handle_packet
      log-handle_packet client d w = elim (Option-cases (unpack_internal_packet_header d)) [
        | inl none_header ↦ rw none_header (sym (append-nil (log w)))
        | inr (header, e) ↦ elim (Bool-cases (header.serde_type == serde_type)) [
          | inr other ↦ rw (e, other) (sym (append-nil (log w)))
          | inl same ↦ elim (Option-cases (find header.packet_type s.packet_handlers)) [
            | inl unbound ↦ rw (e, same, unbound) (sym (append-nil (log w)))
            | inr (handler, bound) ↦
                elim (Option-cases (deserialize_packet serializer (drop k_header_size d))) [
                  | inl unread ↦ rw (e, same, bound, unread) (sym (append-nil (log w)))
                  | inr (payload, read) ↦
                      rw (e, same, bound, read)
                        (handles header.packet_type client.conn payload w handler bound)
                ]
          ]
        ]
      ]

      log-called :
          (found : Option ClientInfo) (d : Bytes) (w : World)
          → log (
              call_data_callback steam
                (data_callback steam serializer s)
                (some weak_self)
                found
                d
                w)
            ≡ log w ++ from_client found d
      unfolding data_callback
      log-called none d w = sym (append-nil (log w))
      log-called (some client) d w = log-handle_packet client d w

      -- A packet server with the data callback of its `create`, whose handlers append a note of
      -- the connection, the packet type and the payload to a log that releasing a message leaves
      -- alone: one round of a poll appends the packets of the messages that come from clients, in
      -- order, each once, and nothing for a message without a client, a header of the server's
      -- serialization type, a handler or a payload that can be read.
      pub packets_delivered :
          s.server.data_received_callback ≡ some weak_self
          → (received : List Message) (w : World)
          → log (deliver steam (data_callback steam serializer s) received s.server w)
            ≡ log w ++ notes_of received
      unfolding deliver get_client_info
      packets_delivered created [] w = sym (append-nil (log w))
      packets_delivered created (message ∷ rest) w =
          let found = find message.conn s.server.clients in
          let called =
            call_data_callback steam (data_callback steam serializer s)
              s.server.data_received_callback found message.payload w in
          let first : log called ≡ log w ++ from_client found message.payload =
            ap
              (λ o. log (
                call_data_callback steam (data_callback steam serializer s) o found message.payload
                  w))
              created
            ∙ log-called found message.payload w in
          packets_delivered created rest (steam.release message called)
          ∙ ap (λ l. l ++ notes_of rest) (releases message called ∙ first)
          ∙ append_assoc (log w) (from_client found message.payload) (notes_of rest)
