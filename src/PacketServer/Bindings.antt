-- ===== src/PacketServer/Bindings.antt =====
-- Which handler a packet type has, over a history of bind_packet_handler and unbind_packet_handler of
-- udp_packet_server.inl.
use kb_networking_cpp.Prelude.{
  ℕ, ◌≡◌, refl, ap, ◌∙◌, Bool, true, false, not, List, [], ◌∷◌, Option, none, some, drop, is_some,
  if◌then◌else◌, ◌==◌, ==_iff, ==_refl, arith, Option-cases, inl, inr,
}
use kb_networking_cpp.Prelude.Table.{find, find-insert, find-erase}
use kb_networking_cpp.Packet.Bytes.{Bytes}
use kb_networking_cpp.Packet.OwningBuffer.{Memory}
use kb_networking_cpp.Packet.Header.{
  InternalPacketHeader, k_header_size, unpack_internal_packet_header,
}
use kb_networking_cpp.Serde.Serializer.{Serializer, deserialize_packet}
use kb_networking_cpp.Steam.{Steam}
use kb_networking_cpp.Server.Object.{ClientInfo}
use kb_networking_cpp.PacketServer.Object.{
  PacketServer, create, bind_packet_handler, unbind_packet_handler, handle_packet, handle_found,
}

module _ (steam : Steam) (Payload : Type 0) where
  abbrev pub Handler : Type 0
  Handler = ℕ → Payload → steam.World → steam.World

  pub data BindOp : Type 0 where
    binds : ℕ → Handler → BindOp
    unbinds : ℕ → BindOp

module _ (steam : Steam) {Payload : Type 0} where
  abbrev pub run_bind_ops :
      List (BindOp steam Payload) → PacketServer steam Payload → PacketServer steam Payload
  run_bind_ops [] s = s
  run_bind_ops (binds t handler ∷ ops) s =
      run_bind_ops ops (bind_packet_handler steam t handler s).1
  run_bind_ops (unbinds t ∷ ops) s = run_bind_ops ops (unbind_packet_handler steam t s)

  abbrev first_of : Option (Handler steam Payload) → Handler steam Payload → Handler steam Payload
  first_of none handler = handler
  first_of (some earlier) handler = earlier

  -- The handler that a packet type is left with: the first that was bound to it since it was last
  -- unbound, if any was.
  abbrev pub owner_from :
      Option (Handler steam Payload)
      → List (BindOp steam Payload)
      → ℕ
      → Option (Handler steam Payload)
  owner_from owner [] t = owner
  owner_from owner (binds k handler ∷ ops) t =
      owner_from (if k == t then some (first_of owner handler) else owner) ops t
  owner_from owner (unbinds k ∷ ops) t = owner_from (if k == t then none else owner) ops t

  bind_result :
      (t : ℕ) (handler : Handler steam Payload) (s : PacketServer steam Payload)
      → (bind_packet_handler steam t handler s).0 ≡ not (is_some (find t s.packet_handlers))
  unfolding bind_packet_handler
  bind_result t handler s = ground arith

  bind_found :
      (k t : ℕ) (handler : Handler steam Payload) (s : PacketServer steam Payload)
      → find t (bind_packet_handler steam k handler s).1.packet_handlers ≡ (
          if k == t
          then some (first_of (find t s.packet_handlers) handler)
          else find t s.packet_handlers)
  unfolding bind_packet_handler
  bind_found k t handler s = elim (Option-cases (find k s.packet_handlers)) [
    | inl unbound ↦
        ground (arith, unbound, find-insert k t handler s.packet_handlers, (==_iff k t).0)
    | inr (earlier, bound) ↦ ground (arith, bound, (==_iff k t).0)
  ]

  unbind_found :
      (k t : ℕ) (s : PacketServer steam Payload)
      → find t (unbind_packet_handler steam k s).packet_handlers
        ≡ (if k == t then none else find t s.packet_handlers)
  unfolding unbind_packet_handler
  unbind_found k t s = find-erase k t s.packet_handlers

  ops_found :
      (ops : List (BindOp steam Payload)) (t : ℕ) (s : PacketServer steam Payload)
      → find t (run_bind_ops ops s).packet_handlers ≡ owner_from (find t s.packet_handlers) ops t
  ops_found [] t s = refl
  ops_found (binds k handler ∷ ops) t s =
      ops_found ops t (bind_packet_handler steam k handler s).1
      ∙ ap (λ o. owner_from o ops t) (bind_found k t handler s)
  ops_found (unbinds k ∷ ops) t s =
      ops_found ops t (unbind_packet_handler steam k s)
      ∙ ap (λ o. owner_from o ops t) (unbind_found k t s)

module _ (steam : Steam) {memory : Memory} (serializer : Serializer memory) where
  open serializer use {Payload}

  -- What the handler of a type does with a payload; without either, nothing is done.
  abbrev pub handled_by :
      Option (Handler steam Payload) → Option Payload → ℕ → steam.World → Bool × steam.World
  handled_by none payload conn w = (false, w)
  handled_by (some handler) none conn w = (false, w)
  handled_by (some handler) (some payload) conn w = (true, handler conn payload w)

  found_handled :
      (owner : Option (Handler steam Payload)) (d : Bytes) (conn : ℕ) (w : steam.World)
      → handle_found steam serializer owner d conn w
        ≡ handled_by owner (deserialize_packet serializer d) conn w
  unfolding handle_found
  found_handled none d conn w = refl
  found_handled (some handler) d conn w = elim (Option-cases (deserialize_packet serializer d)) [
    | inl unread ↦ rw unread refl
    | inr (payload, read) ↦ rw read refl
  ]

  -- Over every history of binding and unbinding handlers of a new packet server, a packet with a
  -- header of the server's serialization type is handled by the first handler that was bound to
  -- its type since that was last unbound, with its payload and the connection of the client, and
  -- by none if there is none or the payload cannot be read; and binding a further handler succeeds
  -- exactly if its type has none.
  pub bindings_lem :
      (ops : List (BindOp steam Payload)) (self : ℕ) (client : ClientInfo) (d : Bytes)
      (header : InternalPacketHeader) (w : steam.World) (t : ℕ) (handler : Handler steam Payload)
      → unpack_internal_packet_header d ≡ some header
      → header.serde_type ≡ serializer.serde_type
      → let s = run_bind_ops steam ops (create steam self) in
        (handle_packet steam serializer client d s w
          ≡ handled_by
              (owner_from steam none ops header.packet_type)
              (deserialize_packet serializer (drop k_header_size d))
              client.conn
              w)
        × ((bind_packet_handler steam t handler s).0 ≡ not (is_some (owner_from steam none ops t)))
  unfolding handle_packet create find
  bindings_lem ops self client d header w t handler unpacked same =
      let found = ops_found steam ops header.packet_type (create steam self) in
      (
        simp (unpacked, same, ==_refl)
            (ap (λ o. handle_found steam serializer o (drop k_header_size d) client.conn w) found
              ∙ found_handled _ (drop k_header_size d) client.conn w),
        bind_result steam t handler (run_bind_ops steam ops (create steam self))
            ∙ ap (λ o. not (is_some o)) (ops_found steam ops t (create steam self)),
      )
