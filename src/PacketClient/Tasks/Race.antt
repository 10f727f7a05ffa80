-- ===== src/PacketClient/Tasks/Race.antt =====
-- The pre-handler of async_udp_packet_client.inl in its two parts: under m_awaiters_mutex it takes a
-- pointer to the front of a queue, and writes through that pointer without the mutex.
use mathlib.Core.Path.{subst}
use kb_networking_cpp.Prelude.{
  ℕ, ◌≡◌, ◌≢◌, refl, sym, ap, ◌∙◌, Bool, true, false, List, [], ◌∷◌, ◌++◌, Option, none, some, All,
  inl, inr, Bool-cases, arith, if◌then◌else◌, ◌==◌, ==_refl, ==_of_ne,
}
use kb_networking_cpp.Prelude.Table.{find}
use kb_networking_cpp.Packet.OwningBuffer.{Memory}
use kb_networking_cpp.Serde.Serializer.{Serializer}
use kb_networking_cpp.Steam.{Steam}
use kb_networking_cpp.PacketClient.Async.{AwaitingPacket, Awaiters, wake, wake_front, resume_wait}
use kb_networking_cpp.PacketClient.Awaiters.{queue_of}
use kb_networking_cpp.PacketClient.Tasks.{Events, Task, Coroutines, Reach, resumes}
use kb_networking_cpp.PacketClient.Tasks.Order.{events_of, Ordered, Behind}
use kb_networking_cpp.PacketClient.Tasks.Invariant.{
  pointers, somes, Reach-Inv, Step-Inv, set_at_front,
}

-- Two pointers to events
abbrev same_event : Option ℕ → Option ℕ → Bool
same_event none none = true
same_event (some e) (some d) = e == d
same_event o p = false

module _ {Payload : Type 0} where
  -- The part under the mutex: the front of the queue of a type, if it is not empty. A pointer to an
  -- awaiter is named by the event of the awaiter, which is that of no other.
  abbrev front_of : Option (List (AwaitingPacket Payload)) → Option (Option ℕ)
  front_of none = none
  front_of (some []) = none
  front_of (some (a ∷ queue)) = some a.event

  unfoldable pub front_pointer : ℕ → Awaiters Payload → Option (Option ℕ)
  front_pointer t m = front_of (find t m)

module _ (steam : Steam) (events : Events steam) {memory : Memory}
    (serializer : Serializer memory) where
  open steam use {World}
  open serializer use {Payload}

  abbrev serve_at :
      Option (List (AwaitingPacket Payload))
      → Option ℕ
      → Option Payload
      → ℕ
      → Awaiters Payload
      → World
      → Option (Bool × Awaiters Payload × World)
  serve_at none pointer payload t m w = none
  serve_at (some []) pointer payload t m w = none
  serve_at (some (a ∷ queue)) pointer payload t m w =
      if same_event a.event pointer
      then some (wake steam events.set serializer a queue payload t m w)
      else none

  -- The part behind the mutex: a write through a pointer to an awaiter that is no longer the front of
  -- its queue, and so was popped, is a fault.
  unfoldable pub serve_pointer :
      ℕ
      → Option ℕ
      → Option Payload
      → Awaiters Payload
      → World
      → Option (Bool × Awaiters Payload × World)
  serve_pointer t pointer payload m w = serve_at (find t m) pointer payload t m w

  same_event_refl : (o : Option ℕ) → same_event o o ≡ true
  same_event_refl none = refl
  same_event_refl (some e) = ==_refl e

  -- With nothing in between the two parts are the pre-handler's handling of a packet of the type.
  pub pre_handler_parts :
      (t : ℕ) (a : AwaitingPacket Payload) (queue : List (AwaitingPacket Payload))
      (payload : Option Payload) (m : Awaiters Payload) (w : World)
      → find t m ≡ some (a ∷ queue)
      → (front_pointer t m ≡ some a.event)
        × (serve_pointer t a.event payload m w
            ≡ some (wake_front steam events.set serializer (find t m) payload t m w))
  unfolding front_pointer serve_pointer wake_front
  pre_handler_parts t a queue payload m w found =
      (rw found refl, rw (found, same_event_refl a.event) refl)

-- The events of the coroutines behind one are not its own.
events-Behind :
    (is_set : ℕ → Bool) (t j e : ℕ) (ys : List Task)
    → All (Behind is_set (j, e)) ys
    → All (λ d. e ≢ d) (events_of t ys)
unfolding events_of
events-Behind is_set t j e [] behind = tt
events-Behind is_set t j e ((i, d) ∷ ys) (apart, behind) = elim (Bool-cases (i == t)) [
  | inl same ↦ rw same (apart.0, events-Behind is_set t j e ys behind)
  | inr other ↦ rw other (events-Behind is_set t j e ys behind)
]

later-Apart :
    (is_set : ℕ → Bool) (t e : ℕ) (xs ys : List Task)
    → Ordered is_set (xs ++ (t, e) ∷ ys)
    → All (λ d. e ≢ d) (events_of t ys)
later-Apart is_set t e [] ys (behind, v) = events-Behind is_set t t e ys behind
later-Apart is_set t e (x ∷ xs) ys (behind, v) = later-Apart is_set t e xs ys v

module _ (steam : Steam) (events : Events steam) {memory : Memory}
    (serializer : Serializer memory) where
  open steam use {World}
  open serializer use {Payload}

  pointers_front :
      (found : Option (List (AwaitingPacket Payload))) (e : ℕ) (es : List ℕ)
      → pointers (queue_of found) ≡ somes (e ∷ es)
      → front_of found ≡ some (some e)
  pointers_front none e es same = absurd (ground arith)
  pointers_front (some []) e es same = absurd (ground arith)
  pointers_front (some (a ∷ queue)) e es same = ground arith

  popped_faults :
      (found : Option (List (AwaitingPacket Payload))) (es : List ℕ) (t e : ℕ)
      (payload : Option Payload) (m : Awaiters Payload) (w : World)
      → pointers (queue_of found) ≡ somes es
      → All (λ d. e ≢ d) es
      → serve_at steam events serializer found (some e) payload t m w ≡ none
  popped_faults none es t e payload m w same apart = refl
  popped_faults (some []) es t e payload m w same apart = refl
  popped_faults (some (a ∷ queue)) [] t e payload m w same apart = absurd (ground arith)
  popped_faults (some (a ∷ queue)) (d ∷ es) t e payload m w same apart =
      let at : a.event ≡ some d = ground arith in
      let apart_0 = apart.0 in
      let different : (d == e) ≡ false = ==_of_ne d e (λ h. apart_0 (sym h)) in
      rw (at, different) refl

  -- In every state that the coroutines and the messages reach: the event of a coroutine is set,
  -- its awaiter is the front of its queue, and a further message of its packet type takes a
  -- pointer to that front; if the coroutine goes on before the pre-handler writes through the
  -- pointer, the write is a fault, since the awaiter was popped.
  pub stale_pointer_faults :
      {s : Coroutines steam Payload}
      → Reach steam events serializer s
      → (earlier later : List Task) (t e : ℕ) (payload : Option Payload)
      → s.tasks ≡ earlier ++ (t, e) ∷ later
      → events.is_set e s.world ≡ true
      → (front_pointer t s.awaiters ≡ some (some e))
        × (serve_pointer steam events serializer t
              (some e)
              payload
              (resume_wait steam events.set serializer t s.awaiters).1
              s.world
            ≡ none)
  unfolding serve_pointer front_pointer
  stale_pointer_faults {s} reached earlier later t e payload split set =
      let v = Reach-Inv steam events serializer reached in
      let (at_front, rest) = set_at_front steam events serializer s earlier later t e split set v in
      let v' = Step-Inv steam events serializer (resumes earlier later t e split set) v in
      let m' = (resume_wait steam events.set serializer t s.awaiters).1 in
      (
        pointers_front (find t s.awaiters) e (events_of t later) at_front,
        popped_faults (find t m') (events_of t later) t e payload m' s.world
            (v'.queues t ∙ ap somes rest)
            (later-Apart (λ d. events.is_set d s.world) t e earlier later
              (subst (Ordered (λ d. events.is_set d s.world)) split v.ordered)),
      )
