-- ===== src/PacketClient/Tasks.antt =====
-- The coroutines of an AsyncUdpPacketClient, async_udp_packet_client.inl: any number of them wait in
-- async_wait_for_packet while messages arrive, and each goes on when its event is set.
pub mod Order
pub mod Invariant
pub mod Ownership
pub mod Race
use kb_networking_cpp.Prelude.{
  ℕ, ◌≡◌, ◌≢◌, Bool, true, false, List, [], ◌∷◌, ◌++◌, All, if◌then◌else◌, ◌==◌,
}
use kb_networking_cpp.Packet.OwningBuffer.{Memory}
use kb_networking_cpp.Serde.Serializer.{Serializer}
use kb_networking_cpp.Steam.{Steam}
use kb_networking_cpp.Client.Poll.{IncomingViewMessage}
use kb_networking_cpp.PacketClient.Async.{
  Awaiters, on_data_received_pre_handler, begin_wait, resume_wait,
}

-- coro::event of the coroutine library, named by a number: a new event is not set, `set` sets the event
-- and no other.
pub record Events (steam : Steam) : Type 0 where
  pub new_event : ℕ → Steam.World steam → Steam.World steam
  pub set : ℕ → Steam.World steam → Steam.World steam
  pub is_set : ℕ → Steam.World steam → Bool
  pub is_set-new_event :
      (e d : ℕ) (w : Steam.World steam)
      → is_set d (new_event e w) ≡ (if e == d then false else is_set d w)
  pub is_set-set :
      (e d : ℕ) (w : Steam.World steam) → is_set d (set e w) ≡ (if e == d then true else is_set d w)

-- A coroutine in async_wait_for_packet, between register_packet_awaiter and get_packet_awaiter: the
-- packet type that it waits for, and its event.
abbrev pub Task : Type 0
Task = ℕ × ℕ

pub record Coroutines (steam : Steam) (Payload : Type 0) : Type 0 where
  pub awaiters : Awaiters Payload
  pub tasks : List Task
  pub world : Steam.World steam

module _ (steam : Steam) (events : Events steam) {memory : Memory}
    (serializer : Serializer memory) where
  open serializer use {Payload}

  -- A coroutine begins to wait, with an event of its own; a message comes to the pre-handler; a
  -- coroutine goes on, which waits for its event; and the world moves on without setting an event.
  pub data Step (s : Coroutines steam Payload) : Coroutines steam Payload → Type 0 where
    begins :
        (t e : ℕ)
        → All (λ (task : Task). e ≢ task.1) s.tasks
        → Step s (record {
          awaiters = begin_wait steam events.set serializer t e s.awaiters;
          tasks = s.tasks ++ (t, e) ∷ [];
          world = events.new_event e s.world;
        })
    receives :
        (p_message : IncomingViewMessage)
        → Step s (record s {
          awaiters =
              (on_data_received_pre_handler steam events.set serializer p_message s.awaiters
                s.world).1;
          world =
              (on_data_received_pre_handler steam events.set serializer p_message s.awaiters
                s.world).2;
        })
    resumes :
        (earlier later : List Task) (t e : ℕ)
        → s.tasks ≡ earlier ++ (t, e) ∷ later
        → events.is_set e s.world ≡ true
        → Step s (record s {
          awaiters = (resume_wait steam events.set serializer t s.awaiters).1;
          tasks = earlier ++ later;
        })
    elsewhere :
        (w : steam.World)
        → ((e : ℕ) → events.is_set e w ≡ events.is_set e s.world)
        → Step s (record s { world = w })

  -- From a client that was just created.
  pub data Reach : Coroutines steam Payload → Type 0 where
    created : (w : steam.World) → Reach (record { awaiters = []; tasks = []; world = w })
    next : {s s' : Coroutines steam Payload} → Reach s → Step s s' → Reach s'
