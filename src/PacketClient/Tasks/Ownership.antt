-- ===== src/PacketClient/Tasks/Ownership.antt =====
-- Whose awaiter a coroutine of async_udp_packet_client.inl takes when it goes on.
use kb_networking_cpp.Prelude.{ℕ, ◌≡◌, ◌∙◌, ap, true, List, ◌∷◌, ◌++◌, some}
use kb_networking_cpp.Packet.OwningBuffer.{Memory}
use kb_networking_cpp.Serde.Serializer.{Serializer}
use kb_networking_cpp.Steam.{Steam}
use kb_networking_cpp.PacketClient.Async.{AwaitingPacket, get_packet_awaiter, resume_wait, awaited}
use kb_networking_cpp.PacketClient.Awaiters.{waiting, get_packet_awaiter_lem}
use kb_networking_cpp.PacketClient.Tasks.{Events, Task, Coroutines, Reach}
use kb_networking_cpp.PacketClient.Tasks.Order.{events_of}
use kb_networking_cpp.PacketClient.Tasks.Invariant.{
  pointers, somes, Reach-Inv, set_at_front, behind_pointer,
}

module _ (steam : Steam) (events : Events steam) {memory : Memory}
    (serializer : Serializer memory) where
  open serializer use {Payload}

  module _ {s : Coroutines steam Payload} (reached : Reach steam events serializer s) where
    -- In every state that the coroutines and the messages reach, with the pre-handler of a message
    -- as one step, each event pointer in the queue of a packet type is that of a coroutine that
    -- still waits for that type, in the order in which they began to wait.
    pub pointers_live : (t : ℕ) → pointers (waiting t s.awaiters) ≡ somes (events_of t s.tasks)
    pointers_live t = (Reach-Inv steam events serializer reached).queues t

    -- However many coroutines wait, for whatever packet types, one whose event is set takes its
    -- own awaiter from the queue, with the payload that was put there for it, and returns that.
    pub resumes_own_awaiter :
        (earlier later : List Task) (t e : ℕ)
        → s.tasks ≡ earlier ++ (t, e) ∷ later
        → events.is_set e s.world ≡ true
        → (a : AwaitingPacket Payload) × ((get_packet_awaiter t s.awaiters).0 ≡ some a)
          × (a.event ≡ some e)
          × ((resume_wait steam events.set serializer t s.awaiters).0
              ≡ awaited steam events.set serializer (some a))
    unfolding resume_wait
    resumes_own_awaiter earlier later t e split set =
        let v = Reach-Inv steam events serializer reached in
        let at_front = set_at_front steam events serializer s earlier later t e split set v in
        let (a, first, own) =
          (behind_pointer steam events serializer (waiting t s.awaiters) e (events_of t later)
            at_front.0).1 in
        let popped = (get_packet_awaiter_lem t s.awaiters).0 ∙ first in
        (a, popped, own, ap (λ o. awaited steam events.set serializer o) popped)
