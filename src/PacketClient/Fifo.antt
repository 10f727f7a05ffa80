-- ===== src/PacketClient/Fifo.antt =====
-- Several awaiters of one packet type, each resumed before the next message.
use kb_networking_cpp.Prelude.{
  ℕ, ◌≡◌, refl, ap, ◌∙◌, List, [], ◌∷◌, Option, some, arith, length, map, All,
}
use kb_networking_cpp.Packet.OwningBuffer.{Memory}
use kb_networking_cpp.Serde.Serializer.{Serializer, payload_as}
use kb_networking_cpp.Steam.{Steam}
use kb_networking_cpp.Client.Poll.{IncomingViewMessage}
use kb_networking_cpp.PacketClient.Async.{
  AwaitingPacket, Awaiters, notify, awaited, on_data_received_pre_handler, resume_wait,
}
use kb_networking_cpp.PacketClient.Awaiters.{
  waiting, front, behind_front, IsPacket, payload_of, get_packet_awaiter_lem, pre_handler-awaited,
}

module _ (steam : Steam) (set_event : ℕ → Steam.World steam → Steam.World steam) {memory : Memory}
    (serializer : Serializer memory) (t : ℕ) where
  open steam use {World}
  open serializer use {Payload, Target}

  -- Each message is handled, and the coroutine that it woke resumes; the results of the coroutines.
  unfoldable pub serve :
      List (IncomingViewMessage × Payload)
      → Awaiters Payload
      → World
      → List (Option Target) × Awaiters Payload × World
  serve [] m w = ([], m, w)
  serve ((p_message, v) ∷ rest) m w =
      let handled = on_data_received_pre_handler steam set_event serializer p_message m w in
      let (result, m') = resume_wait steam set_event serializer t handled.1 in
      let (results, m'', w') = serve rest m' handled.2 in (result ∷ results, m'', w')

  abbrev pub set_all : List (AwaitingPacket Payload) → World → World
  set_all [] w = w
  set_all (a ∷ queue) w = set_all queue (notify steam set_event a.event w)

  -- One message, with the coroutine at the front of the queue.
  serve_one :
      (p_message : IncomingViewMessage) (v : Payload) (a : AwaitingPacket Payload)
      → (queue : List (AwaitingPacket Payload)) (m : Awaiters Payload) (w : World)
      → IsPacket serializer t p_message
      → payload_of serializer p_message ≡ some v
      → waiting t m ≡ a ∷ queue
      → let handled = on_data_received_pre_handler steam set_event serializer p_message m w in
        ((resume_wait steam set_event serializer t handled.1).0 ≡ payload_as serializer v)
        × (waiting t (resume_wait steam set_event serializer t handled.1).1 ≡ queue)
        × (handled.2 ≡ notify steam set_event a.event w)
  unfolding resume_wait awaited
  serve_one p_message v a queue m w is_packet read e =
      let after =
        pre_handler-awaited steam set_event serializer t p_message m w is_packet a queue v e read in
      let next = on_data_received_pre_handler steam set_event serializer p_message m w in
      let popped = get_packet_awaiter_lem t next.1 in
      (
        ap (λ o. awaited steam set_event serializer o) (popped.0 ∙ ap front after.1),
        popped.1 ∙ ap behind_front after.1,
        after.2,
      )

  -- As many coroutines as messages wait for a packet type and each resumes before the next
  -- message: each gets, in the order in which they wait, the payload of its message converted to
  -- what it asked for, their events are set in that order, and nobody is left waiting.
  pub serve_lem :
      (packets : List (IncomingViewMessage × Payload)) (queue : List (AwaitingPacket Payload))
      → (m : Awaiters Payload) (w : World)
      → All
          (λ packet.
            IsPacket serializer t packet.0 × (payload_of serializer packet.0 ≡ some packet.1))
          packets
      → length packets ≡ length queue
      → waiting t m ≡ queue
      → let (results, m', w') = serve packets m w in
        (results ≡ map (λ packet. payload_as serializer packet.1) packets)
        × (waiting t m' ≡ [])
        × (w' ≡ set_all queue w)
  unfolding serve
  serve_lem [] [] m w all n e = (refl, e, refl)
  serve_lem [] (a ∷ queue) m w all n e = absurd (omega arith)
  serve_lem (packet ∷ rest) [] m w all n e = absurd (omega arith)
  serve_lem ((p_message, v) ∷ rest) (a ∷ queue) m w ((is_packet, read), all) n e =
      let one = serve_one p_message v a queue m w is_packet read e in
      let handled = on_data_received_pre_handler steam set_event serializer p_message m w in
      let resumed = resume_wait steam set_event serializer t handled.1 in
      let others = serve_lem rest queue resumed.1 handled.2 all (omega arith) one.1 in
      (
        ap (λ r. r ∷ (serve rest resumed.1 handled.2).0) one.0
            ∙ ap (λ rs. payload_as serializer v ∷ rs) others.0,
        others.1,
        others.2 ∙ ap (λ w'. set_all queue w') one.2,
      )
