-- ===== src/PacketClient/Awaiters.antt =====
-- The awaiters of an AsyncUdpPacketClient as one queue for each packet type.
use kb_networking_cpp.Prelude.{
  ℕ, ◌≡◌, ◌≢◌, sym, ap, ◌∙◌, inl, inr, true, false, List, [], ◌∷◌, ◌++◌, Option, none, some,
  ==_refl, ==_of_ne, drop, Option-cases,
}
use kb_networking_cpp.Prelude.Table.{find, insert, find-insert, find-insert_self}
use kb_networking_cpp.Packet.OwningBuffer.{Memory}
use kb_networking_cpp.Packet.Header.{
  InternalPacketHeader, k_header_size, unpack_internal_packet_header,
}
use kb_networking_cpp.Serde.Serializer.{Serializer, deserialize_packet, payload_as}
use kb_networking_cpp.Steam.{Steam}
use kb_networking_cpp.Client.Poll.{IncomingViewMessage}
use kb_networking_cpp.PacketClient.Async.{
  AwaitingPacket, Awaiters, register_packet_awaiter, get_packet_awaiter, notify, awaited,
  on_data_received_pre_handler, begin_wait, resume_wait,
}

module _ {Payload : Type 0} where
  abbrev pub queue_of : Option (List (AwaitingPacket Payload)) → List (AwaitingPacket Payload)
  queue_of none = []
  queue_of (some queue) = queue

  -- The awaiters of a packet type, the next to be served first.
  abbrev pub waiting : ℕ → Awaiters Payload → List (AwaitingPacket Payload)
  waiting t m = queue_of (find t m)

  abbrev pub front : List (AwaitingPacket Payload) → Option (AwaitingPacket Payload)
  front [] = none
  front (a ∷ queue) = some a

  abbrev pub behind_front : List (AwaitingPacket Payload) → List (AwaitingPacket Payload)
  behind_front [] = []
  behind_front (a ∷ queue) = queue

  module _ (t : ℕ) (m : Awaiters Payload) where
    -- A new awaiter goes to the end of the queue of its packet type, and to no other queue.
    pub register_packet_awaiter_lem :
        (a : AwaitingPacket Payload)
        → (waiting t (register_packet_awaiter t a m) ≡ waiting t m ++ a ∷ [])
          × ((j : ℕ) → t ≢ j → waiting j (register_packet_awaiter t a m) ≡ waiting j m)
    unfolding register_packet_awaiter
    register_packet_awaiter_lem a = elim (Option-cases (find t m)) [
      | inl e ↦ (simp (e, find-insert_self), λ j h. simp (find-insert, ==_of_ne t j h))
      | inr (queue, e) ↦ (simp (e, find-insert_self), λ j h. simp (find-insert, ==_of_ne t j h))
    ]

    -- The awaiter at the front of the queue of its packet type is taken, if there is one, and no
    -- other.
    pub get_packet_awaiter_lem :
        ((get_packet_awaiter t m).0 ≡ front (waiting t m))
        × (waiting t (get_packet_awaiter t m).1 ≡ behind_front (waiting t m))
        × ((j : ℕ) → t ≢ j → waiting j (get_packet_awaiter t m).1 ≡ waiting j m)
    unfolding get_packet_awaiter
    get_packet_awaiter_lem = elim (Option-cases (find t m)) [
      | inl e ↦ (simp (e), simp (e, find-insert_self), λ j h. simp (e, find-insert, ==_of_ne t j h))
      | inr ([], e) ↦ (simp (e), simp (e), λ j h. simp (e))
      | inr (a ∷ queue, e) ↦
          (simp (e), simp (e, find-insert_self), λ j h. simp (e, find-insert, ==_of_ne t j h))
    ]

find-waiting :
    {Payload : Type 0} (t : ℕ) (m : Awaiters Payload) (a : AwaitingPacket Payload)
    → (queue : List (AwaitingPacket Payload)) → waiting t m ≡ a ∷ queue
    → find t m ≡ some (a ∷ queue)
find-waiting t m a queue e = elim (Option-cases (find t m)) [ inl f ↦ cc | inr (q, f) ↦ cc ]

module _ {memory : Memory} (serializer : Serializer memory) where
  open serializer use {Payload}

  -- The message names the serialization type of the client and the packet type t.
  pub record IsPacket (t : ℕ) (p_message : IncomingViewMessage) : Type 0 where
    pub header : InternalPacketHeader
    pub unpacked : unpack_internal_packet_header p_message.buffer ≡ some header
    pub same_serde : header.serde_type ≡ serializer.serde_type
    pub same_type : header.packet_type ≡ t

  abbrev pub payload_of : IncomingViewMessage → Option Payload
  payload_of p_message = deserialize_packet serializer (drop k_header_size p_message.buffer)

module _ (steam : Steam) (set_event : ℕ → Steam.World steam → Steam.World steam) {memory : Memory}
    (serializer : Serializer memory) where
  open serializer use {Payload}

  module _ (t : ℕ) (p_message : IncomingViewMessage) (m : Awaiters Payload) (w : steam.World)
      (is_packet : IsPacket serializer t p_message) where
    -- Nobody waits for the type: the pre-handler leaves the message to the handlers.
    pub pre_handler-unawaited :
        waiting t m ≡ []
        → on_data_received_pre_handler steam set_event serializer p_message m w ≡ (false, m, w)
    unfolding on_data_received_pre_handler
    pre_handler-unawaited e = elim (Option-cases (find t m)) [
      | inl none_found ↦
          simp (is_packet.unpacked, is_packet.same_serde, is_packet.same_type, ==_refl, none_found)
      | inr (queue, found) ↦
          let empty : queue ≡ [] = sym (ap queue_of found) ∙ e in
          simp
            (is_packet.unpacked, is_packet.same_serde, is_packet.same_type, ==_refl, found, empty)
    ]

    -- Somebody waits for the type: the message goes to the front of the queue, whose event is set.
    pub pre_handler-awaited :
        (a : AwaitingPacket Payload) (queue : List (AwaitingPacket Payload)) (v : Payload)
        → waiting t m ≡ a ∷ queue
        → payload_of serializer p_message ≡ some v
        → let after = on_data_received_pre_handler steam set_event serializer p_message m w in
          (after.0 ≡ true)
          × (waiting t after.1 ≡ record a { payload = some v } ∷ queue)
          × (after.2 ≡ notify steam set_event a.event w)
          × ((j : ℕ) → t ≢ j → waiting j after.1 ≡ waiting j m)
    unfolding on_data_received_pre_handler
    pre_handler-awaited a queue v e read =
        let found = find-waiting t m a queue e in
        let run : on_data_received_pre_handler steam set_event serializer p_message m w ≡ (
          true,
          insert t (record a { payload = some v } ∷ queue) m,
          notify steam set_event a.event w,
        ) =
          simp
            (is_packet.unpacked, is_packet.same_serde, is_packet.same_type, ==_refl, found, read) in
        (
          ap (λ r. r.0) run,
          rw run (simp (find-insert_self)),
          ap (λ r. r.2) run,
          λ j h. rw run (simp (find-insert, ==_of_ne t j h)),
        )

module _ (steam : Steam) (set_event : ℕ → Steam.World steam → Steam.World steam) {memory : Memory}
    (serializer : Serializer memory) (t : ℕ) (p_message : IncomingViewMessage)
    (m : Awaiters serializer.Payload) (w : steam.World)
    (is_packet : IsPacket serializer t p_message) where
  open serializer use {Payload}

  -- A coroutine that waits alone for its packet type gets the payload of the next message of that
  -- type, converted to what it asked for, after its event was set, and leaves no awaiter behind.
  pub awaited_packet :
      (event : ℕ) (v : Payload)
      → waiting t m ≡ []
      → payload_of serializer p_message ≡ some v
      → let after =
          on_data_received_pre_handler steam set_event serializer p_message
            (begin_wait steam set_event serializer t event m)
            w in
        (after.0 ≡ true)
        × (after.2 ≡ set_event event w)
        × ((resume_wait steam set_event serializer t after.1).0 ≡ payload_as serializer v)
        × (waiting t (resume_wait steam set_event serializer t after.1).1 ≡ [])
  unfolding begin_wait resume_wait awaited notify
  awaited_packet event v e read =
      let new : AwaitingPacket Payload = record { event = some event; payload = none } in
      let begun = begin_wait steam set_event serializer t event m in
      let queued : waiting t begun ≡ new ∷ [] =
        (register_packet_awaiter_lem t m new).0 ∙ ap (λ q. q ++ new ∷ []) e in
      let after =
        pre_handler-awaited steam set_event serializer t p_message begun w is_packet new [] v queued
          read in
      let next = on_data_received_pre_handler steam set_event serializer p_message begun w in
      let popped = get_packet_awaiter_lem t next.1 in
      (
        after.0,
        after.2,
        ap (λ o. awaited steam set_event serializer o) (popped.0 ∙ ap front after.1),
        popped.1 ∙ ap behind_front after.1,
      )
