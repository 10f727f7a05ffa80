-- ===== src/PacketClient/Messages.antt =====
-- What becomes of a message to a packet client.
use kb_networking_cpp.Prelude.{◌≡◌, true, false, none, some, ==_refl, drop}
use kb_networking_cpp.Prelude.Table.{find}
use kb_networking_cpp.Packet.OwningBuffer.{Memory}
use kb_networking_cpp.Packet.Header.{
  InternalPacketHeader, k_header_size, unpack_internal_packet_header,
}
use kb_networking_cpp.Serde.Serializer.{Serializer, deserialize_packet}
use kb_networking_cpp.Steam.{Steam}
use kb_networking_cpp.Client.Poll.{IncomingViewMessage}
use kb_networking_cpp.PacketClient.Object.{
  PacketClient, PreHandler, call_pre_handler, handle_message,
}

module _ (steam : Steam) {memory : Memory} (serializer : Serializer memory) {X : Type 0}
    (p_message : IncomingViewMessage) (c : PacketClient steam X serializer.Payload)
    (header : InternalPacketHeader)
    (unpacked : unpack_internal_packet_header p_message.buffer ≡ some header)
    (same_serde : header.serde_type ≡ serializer.serde_type) where
  open steam use {World}

  -- A pre-handler that takes the message is the only one to see it, even if a handler is bound.
  pub handle_message-taken :
      (pre : PreHandler steam X) (x x' : X) (w w' : World)
      → c.pre_handler ≡ some pre
      → pre p_message x w ≡ (true, x', w')
      → handle_message steam serializer p_message c (x, w) ≡ (true, x', w')
  unfolding handle_message
  handle_message-taken pre x x' w w' has_pre takes =
      simp (unpacked, same_serde, ==_refl, has_pre, takes)

  -- A message with a valid header that no pre-handler takes goes to the handler bound to its
  -- packet type with its payload; without a handler, or if the payload cannot be read, only the
  -- effect of the pre-handler stays.
  pub handle_message-left :
      (x x' : X) (w w' : World)
      → call_pre_handler steam c.pre_handler p_message (x, w) ≡ (false, x', w')
      → let payload = deserialize_packet serializer (drop k_header_size p_message.buffer) in
        (find header.packet_type c.handlers ≡ none
          → handle_message steam serializer p_message c (x, w) ≡ (false, x', w'))
        × ((handler : serializer.Payload → World → World)
            → find header.packet_type c.handlers ≡ some handler
            → (payload ≡ none
                → handle_message steam serializer p_message c (x, w) ≡ (false, x', w'))
              × ((v : serializer.Payload)
                  → payload ≡ some v
                  → handle_message steam serializer p_message c (x, w) ≡ (true, x', handler v w')))
  unfolding handle_message
  handle_message-left x x' w w' left = (
    λ unbound. simp (unpacked, same_serde, ==_refl, left, unbound),
    λ handler bound. (
      λ unread. simp (unpacked, same_serde, ==_refl, left, bound, unread),
      λ v read. simp (unpacked, same_serde, ==_refl, left, bound, read),
    ),
  )
