-- ===== src/PacketClient/Tasks/Invariant.antt =====
-- What holds of the awaiters and the waiting coroutines in every state.
use kb_networking_cpp.Prelude.{
  ℕ, ◌≡◌, ◌⊎◌, refl, sym, ap, ◌∙◌, Bool, true, List, [], ◌∷◌, ◌++◌, Option, none, some, arith, ◌==◌,
  Bool-cases, inl, inr, All-map, All-of_forall, ==_iff,
}
use mathlib.Core.Path.{subst}
use kb_networking_cpp.Prelude.Table.{find, find-insert, find-insert_self}
use kb_networking_cpp.Packet.OwningBuffer.{Memory}
use kb_networking_cpp.Packet.Header.{InternalPacketHeader, unpack_internal_packet_header}
use kb_networking_cpp.Serde.Serializer.{Serializer}
use kb_networking_cpp.Steam.{Steam}
use kb_networking_cpp.Client.Poll.{IncomingViewMessage}
use kb_networking_cpp.PacketClient.Async.{
  AwaitingPacket, Awaiters, notify, wake, wake_front, pre_handle_header,
  on_data_received_pre_handler, begin_wait, resume_wait,
}
use kb_networking_cpp.PacketClient.Awaiters.{
  waiting, front, behind_front, register_packet_awaiter_lem, get_packet_awaiter_lem,
}
use kb_networking_cpp.PacketClient.Tasks.{
  Events, Task, Coroutines, Step, begins, receives, resumes, elsewhere, Reach, created, next,
}
use kb_networking_cpp.PacketClient.Tasks.Order.{
  events_of, events_of-last, events_of-first, events_of-other, Ordered, Ordered-append,
  Ordered-remove, Ordered-agree, Ordered-set, set_is_first,
}

-- The event pointers in a queue.
module _ {Payload : Type 0} where
  abbrev pub pointers : List (AwaitingPacket Payload) → List (Option ℕ)
  pointers [] = []
  pointers (a ∷ queue) = a.event ∷ pointers queue

  pointers-append :
      (xs ys : List (AwaitingPacket Payload)) → pointers (xs ++ ys) ≡ pointers xs ++ pointers ys
  pointers-append [] ys = refl
  pointers-append (x ∷ xs) ys = ap (λ r. x.event ∷ r) (pointers-append xs ys)

abbrev pub somes : List ℕ → List (Option ℕ)
somes [] = []
somes (e ∷ events) = some e ∷ somes events

somes-append : (xs ys : List ℕ) → somes (xs ++ ys) ≡ somes xs ++ somes ys
somes-append [] ys = refl
somes-append (x ∷ xs) ys = ap (λ r. some x ∷ r) (somes-append xs ys)

module _ (steam : Steam) (events : Events steam) {Payload : Type 0} where
  -- The queue of each packet type holds the events of the coroutines that wait for it, in their
  -- order; and the events are distinct and set only at the front of a queue.
  pub record Inv (s : Coroutines steam Payload) : Type 0 where
    pub queues : (t : ℕ) → pointers (waiting t s.awaiters) ≡ somes (events_of t s.tasks)
    pub ordered : Ordered (λ e. events.is_set e s.world) s.tasks

module _ (steam : Steam) (events : Events steam) {memory : Memory}
    (serializer : Serializer memory) where
  open serializer use {Payload}

  begins-queues :
      (t e j : ℕ) (tasks : List Task) (m : Awaiters Payload)
      → pointers (waiting j m) ≡ somes (events_of j tasks)
      → pointers (waiting j (begin_wait steam events.set serializer t e m))
        ≡ somes (events_of j (tasks ++ (t, e) ∷ []))
  unfolding begin_wait
  begins-queues t e j tasks m old =
      let registered =
        register_packet_awaiter_lem t m (record { event = some e; payload = none }) in
      elim (Bool-cases (t == j)) [
        | inl same ↦
            let at : j ≡ t = sym ((==_iff t j).0 same) in
            rw (events_of-last j t e tasks, same, at, registered.0, pointers-append, somes-append)
              (ap (λ q. q ++ some e ∷ [])
                (subst (λ i. pointers (waiting i m) ≡ somes (events_of i tasks)) at old))
        | inr other ↦ rw (events_of-last j t e tasks, other, registered.1 j (ground arith)) old
      ]

  -- The front of the queue of some packet type was woken.
  abbrev Woken : Awaiters Payload → steam.World → steam.World → Type 0
  Woken m w w' =
      (t : ℕ) × (a : AwaitingPacket Payload) × (queue : List (AwaitingPacket Payload)) × (waiting t
          m
        ≡ a ∷ queue)
      × (w' ≡ notify steam events.set a.event w)

  -- What the pre-handler may do to the queues and to the world.
  abbrev Served : Awaiters Payload → steam.World → Bool × Awaiters Payload × steam.World → Type 0
  Served m w r =
      ((j : ℕ) → pointers (waiting j r.1) ≡ pointers (waiting j m)) × ((r.2 ≡ w) ⊎ Woken m w r.2)

  module _ (t : ℕ) (m : Awaiters Payload) (w : steam.World) where
    wake-Served :
        (a : AwaitingPacket Payload) (queue : List (AwaitingPacket Payload))
        (payload : Option Payload)
        → find t m ≡ some (a ∷ queue)
        → Served m w (wake steam events.set serializer a queue payload t m w)
    unfolding wake
    wake-Served a queue none found = (λ j. refl, inr (t, a, queue, rw found refl, refl))
    wake-Served a queue (some payload) found = (
      λ j. elim (Bool-cases (t == j)) [
        | inl same ↦
            let at : j ≡ t = sym ((==_iff t j).0 same) in rw (at, find-insert_self, found) refl
        | inr other ↦ rw (find-insert, other) refl
      ],
      inr (t, a, queue, rw found refl, refl),
    )

    wake_front-Served :
        (found : Option (List (AwaitingPacket Payload))) (payload : Option Payload)
        → find t m ≡ found
        → Served m w (wake_front steam events.set serializer found payload t m w)
    unfolding wake_front
    wake_front-Served none payload e = (λ j. refl, inl refl)
    wake_front-Served (some []) payload e = (λ j. refl, inl refl)
    wake_front-Served (some (a ∷ queue)) payload e = wake-Served a queue payload e

  header-Served :
      (header : Option InternalPacketHeader) (p_message : IncomingViewMessage)
      (m : Awaiters Payload) (w : steam.World)
      → Served m w (pre_handle_header steam events.set serializer header p_message m w)
  unfolding pre_handle_header
  header-Served none p_message m w = (λ j. refl, inl refl)
  header-Served (some header) p_message m w =
      elim (Bool-cases (header.serde_type == serializer.serde_type)) [
        | inl same ↦
            rw same (wake_front-Served header.packet_type m w (find header.packet_type m) _ refl)
        | inr other ↦ rw other (λ j. refl, inl refl)
      ]

  pre_handler-Served :
      (p_message : IncomingViewMessage) (m : Awaiters Payload) (w : steam.World)
      → Served m w (on_data_received_pre_handler steam events.set serializer p_message m w)
  unfolding on_data_received_pre_handler
  pre_handler-Served p_message =
      header-Served (unpack_internal_packet_header p_message.buffer) p_message

  first_pointer :
      (o : Option ℕ) (rest : List (Option ℕ)) (es : List ℕ)
      → o ∷ rest ≡ somes es
      → (e : ℕ) × (later : List ℕ) × (es ≡ e ∷ later) × (o ≡ some e)
  first_pointer o rest [] h = absurd (ground arith)
  first_pointer o rest (e ∷ later) h = (e, later, refl, ground arith)

  pub behind_pointer :
      (queue : List (AwaitingPacket Payload)) (e : ℕ) (later : List ℕ)
      → pointers queue ≡ somes (e ∷ later)
      → (pointers (behind_front queue) ≡ somes later)
        × ((a : AwaitingPacket Payload) × (front queue ≡ some a) × (a.event ≡ some e))
  behind_pointer [] e later h = absurd (ground arith)
  behind_pointer (a ∷ queue) e later h = (ground arith, (a, refl, ground arith))

  notified : (e : ℕ) (w : steam.World) → notify steam events.set (some e) w ≡ events.set e w
  unfolding notify
  notified e w = refl

  receives-Ordered :
      (s : Coroutines steam Payload) (w : steam.World)
      → (w ≡ s.world) ⊎ Woken s.awaiters s.world w
      → Inv steam events s
      → Ordered (λ e. events.is_set e w) s.tasks
  receives-Ordered s w (inl same) v = rw same v.ordered
  receives-Ordered s w (inr (t, a, queue, found, woken)) v =
      let (e, later, first, pointer) =
        first_pointer a.event (pointers queue) (events_of t s.tasks)
          (sym (ap pointers found) ∙ v.queues t) in
      let set : w ≡ events.set e s.world =
        woken ∙ ap (λ o. notify steam events.set o s.world) pointer ∙ notified e s.world in
      rw set (
        Ordered-set (λ d. events.is_set d s.world) (λ d. events.is_set d (events.set e s.world)) t e
          later s.tasks (λ d. events.is_set-set e d s.world) first v.ordered)

  -- A coroutine whose event is set is the one at the front of its queue.
  pub set_at_front :
      (s : Coroutines steam Payload) (earlier later : List Task) (t e : ℕ)
      → s.tasks ≡ earlier ++ (t, e) ∷ later
      → events.is_set e s.world ≡ true
      → Inv steam events s
      → (pointers (waiting t s.awaiters) ≡ somes (e ∷ events_of t later))
        × (events_of t (earlier ++ later) ≡ events_of t later)
  set_at_front s earlier later t e split set v =
      let ordered = subst (Ordered (λ d. events.is_set d s.world)) split v.ordered in
      let first =
        events_of-first t e earlier later
          (set_is_first (λ d. events.is_set d s.world) t e earlier later ordered set) in
      (v.queues t ∙ ap (λ l. somes (events_of t l)) split ∙ ap somes first.0, first.1)

  resumes-queues :
      (s : Coroutines steam Payload) (earlier later : List Task) (t e j : ℕ)
      → s.tasks ≡ earlier ++ (t, e) ∷ later
      → events.is_set e s.world ≡ true
      → Inv steam events s
      → pointers (waiting j (resume_wait steam events.set serializer t s.awaiters).1)
        ≡ somes (events_of j (earlier ++ later))
  unfolding resume_wait
  resumes-queues s earlier later t e j split set v =
      let at_front = set_at_front s earlier later t e split set v in
      let popped = get_packet_awaiter_lem t s.awaiters in
      elim (Bool-cases (t == j)) [
        | inl same ↦
            let at : j ≡ t = sym ((==_iff t j).0 same) in
            let behind = behind_pointer (waiting t s.awaiters) e (events_of t later) at_front.0 in
            rw (at, popped.1, at_front.1) behind.0
        | inr other ↦
            let kept = v.queues j ∙ ap (λ l. somes (events_of j l)) split in
            rw (popped.2 j (ground arith))
              (kept ∙ ap somes (events_of-other j t e earlier later (ground arith)))
      ]

  -- Every step of the coroutines and of the messages keeps each queue to the events of the coroutines
  -- that wait for its packet type, in their order, all distinct and set only at the front.
  pub Step-Inv :
      {s s' : Coroutines steam Payload}
      → Step steam events serializer s s'
      → Inv steam events s
      → Inv steam events s'
  Step-Inv {s} (begins t e fresh) v = record {
    queues = λ j. begins-queues t e j s.tasks s.awaiters (v.queues j);
    ordered =
        Ordered-append _ t e s.tasks fresh (ground (arith, events.is_set-new_event e e s.world)) (
          Ordered-agree _ _ s.tasks
            (All-map s.tasks (λ task h. ground (arith, events.is_set-new_event e task.1 s.world))
              fresh)
            v.ordered);
  }
  Step-Inv {s} (receives p_message) v =
      let served = pre_handler-Served p_message s.awaiters s.world in
      record { queues = λ j. served.0 j ∙ v.queues j; ordered = receives-Ordered s _ served.1 v }
  Step-Inv {s} (resumes earlier later t e split set) v = record {
    queues = λ j. resumes-queues s earlier later t e j split set v;
    ordered = Ordered-remove _ earlier (t, e) later (subst (Ordered _) split v.ordered);
  }
  Step-Inv {s} (elsewhere w same) v = record {
    queues = v.queues;
    ordered = Ordered-agree _ _ s.tasks (All-of_forall s.tasks (λ task. same task.1)) v.ordered;
  }

  pub Reach-Inv :
      {s : Coroutines steam Payload} → Reach steam events serializer s → Inv steam events s
  unfolding find events_of
  Reach-Inv (created w) = record { queues = λ t. refl; ordered = tt }
  Reach-Inv (next r step) = Step-Inv step (Reach-Inv r)
