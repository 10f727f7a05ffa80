-- ===== src/PacketServer/Handlers.antt =====
-- Which handler a packet reaches, and binding and unbinding handlers.
use kb_networking_cpp.Prelude.{
  ap, is_some, ℕ, ◌≡◌, ◌≢◌, ◌⊎◌, inl, inr, true, false, Option, none, some, ◌==◌, ==_refl, ==_iff,
  drop, Option-cases, Bool-cases, ==_of_ne,
}
use kb_networking_cpp.Prelude.Table.{
  contains, find, erase, find-insert, find-erase, find-insert_self,
}
use kb_networking_cpp.Packet.Bytes.{Bytes}
use kb_networking_cpp.Packet.OwningBuffer.{Memory}
use kb_networking_cpp.Packet.Header.{
  InternalPacketHeader, k_header_size, unpack_internal_packet_header,
}
use kb_networking_cpp.Serde.Serializer.{Serializer, deserialize_packet}
use kb_networking_cpp.Steam.{Steam}
use kb_networking_cpp.Server.Object.{ClientInfo}
use kb_networking_cpp.PacketServer.Object.{
  PacketServer, bind_packet_handler, unbind_packet_handler, handle_packet,
}

module _ (steam : Steam) {memory : Memory} (serializer : Serializer memory) where
  open steam use {World}
  open serializer use {Payload, serde_type}

  -- The packet names the serialization type of the server and a packet type that is bound, and its
  -- payload can be read: what its handler is to be called with.
  pub record Accepts (s : PacketServer steam Payload) (d : Bytes)
      (handler : ℕ → Payload → World → World) (payload : Payload) : Type 0 where
    pub header : InternalPacketHeader
    pub unpacked : unpack_internal_packet_header d ≡ some header
    pub same_serde : header.serde_type ≡ serde_type
    pub bound : find header.packet_type s.packet_handlers ≡ some handler
    pub read : deserialize_packet serializer (drop k_header_size d) ≡ some payload

  module _ (client : ClientInfo) (d : Bytes) (s : PacketServer steam Payload) (w : World) where
    -- An accepted packet reaches its handler, with the connection of the client.
    pub handle_packet-accepted :
        (handler : ℕ → Payload → World → World) (payload : Payload)
        → Accepts s d handler payload
        → handle_packet steam serializer client d s w ≡ (true, handler client.conn payload w)
    unfolding handle_packet
    handle_packet-accepted handler payload a =
        simp (a.unpacked, a.same_serde, ==_refl, a.bound, a.read)

    pub handle_packet_unbound :
        (header : InternalPacketHeader)
        → unpack_internal_packet_header d ≡ some header
        → find header.packet_type s.packet_handlers ≡ none
        → handle_packet steam serializer client d s w ≡ (false, w)
    unfolding handle_packet
    handle_packet_unbound header e unbound = elim (Bool-cases (header.serde_type == serde_type)) [
      | inl same ↦ simp (e, same, unbound)
      | inr other ↦ simp (e, other)
    ]

    -- A packet server refuses a packet with no effect, or the packet has a header with the
    -- serialization type of the server, a packet type that is bound, and a payload that can be
    -- read, and the handler of that type is called with the payload and the connection of the
    -- client.
    pub handle_packet_cases :
        (handle_packet steam serializer client d s w ≡ (false, w))
        ⊎ ((handler : ℕ → Payload → World → World) × (payload : Payload) × Accepts s d handler
              payload
            × (handle_packet steam serializer client d s w ≡ (true, handler client.conn payload w)))
    unfolding handle_packet
    handle_packet_cases = elim (Option-cases (unpack_internal_packet_header d)) [
      | inl none_header ↦ inl (simp (none_header))
      | inr (header, e) ↦ elim (Bool-cases (header.serde_type == serde_type)) [
        | inr other ↦ inl (simp (e, other))
        | inl same ↦ elim (Option-cases (find header.packet_type s.packet_handlers)) [
          | inl unbound ↦ inl (simp (e, same, unbound))
          | inr (handler, bound) ↦
              elim (Option-cases (deserialize_packet serializer (drop k_header_size d))) [
                | inl unread ↦ inl (simp (e, same, bound, unread))
                | inr (payload, read) ↦ inr (
                  handler,
                  payload,
                  record {
                    header = header;
                    unpacked = e;
                    same_serde = (==_iff header.serde_type serde_type).0 same;
                    bound = bound;
                    read = read;
                  },
                  simp (e, same, bound, read),
                )
              ]
        ]
      ]
    ]

module _ (steam : Steam) {Payload : Type 0} where
  open steam use {World}

  module _ (t : ℕ) (handler : ℕ → Payload → World → World) (s : PacketServer steam Payload) where
    -- Binding a packet type that is bound is refused and changes nothing; one that is not bound
    -- gets the handler, and the other packet types and the server stay.
    pub bind_packet_handler_lem :
        let after = bind_packet_handler steam t handler s in
        (contains t s.packet_handlers ≡ true → after ≡ (false, s))
        × (contains t s.packet_handlers ≡ false
            → (after.0 ≡ true)
              × (find t after.1.packet_handlers ≡ some handler)
              × ((j : ℕ) → t ≢ j → find j after.1.packet_handlers ≡ find j s.packet_handlers)
              × (after.1.server ≡ s.server))
    unfolding bind_packet_handler
    bind_packet_handler_lem = (
      λ e. simp (e),
      λ e. (
        simp (e),
        simp (e, find-insert_self t handler s.packet_handlers),
        λ j h. simp (e, find-insert t j handler s.packet_handlers, ==_of_ne t j h),
        simp (e),
      ),
    )

module _ (steam : Steam) {Payload : Type 0} where
  open steam use {World}

  module _ (t : ℕ) (handler : ℕ → Payload → World → World) (s : PacketServer steam Payload) where
    -- After an unbind the packet type has no handler and can be bound to any; the other packet
    -- types keep theirs.
    pub unbind_packet_handler_lem :
        let unbound = unbind_packet_handler steam t s in
        (find t unbound.packet_handlers ≡ none)
        × ((j : ℕ) → t ≢ j → find j unbound.packet_handlers ≡ find j s.packet_handlers)
        × ((bind_packet_handler steam t handler unbound).0 ≡ true)
        × (find t (bind_packet_handler steam t handler unbound).1.packet_handlers ≡ some handler)
    unfolding unbind_packet_handler
    unbind_packet_handler_lem =
        let gone : find t (erase t s.packet_handlers) ≡ none =
          simp (find-erase t t s.packet_handlers, ==_refl) in
        let bound = bind_packet_handler_lem steam t handler (unbind_packet_handler steam t s) in
        let now_bound =
          bound.1 (ap (λ (o : Option (ℕ → Payload → World → World)). is_some o) gone) in
        (
          gone,
          λ j h. simp (find-erase t j s.packet_handlers, ==_of_ne t j h),
          now_bound.0,
          now_bound.1,
        )
