-- ===== src/Examples/Tasks.antt =====
-- Coroutines that wait for packets.
use kb_networking_cpp.Prelude.{
  ℕ, ◌≡◌, refl, Bool, true, false, List, [], ◌∷◌, ◌++◌, none, some, arith, if◌then◌else◌, ◌==◌,
}
use kb_networking_cpp.Prelude.Table.{find, insert}
use kb_networking_cpp.Packet.Header.{header_of, unpack_internal_packet_header}
use kb_networking_cpp.Serde.Serializer.{Serializer}
use kb_networking_cpp.Serde.Msgpack
use kb_networking_cpp.Serde.Msgpack.{msgpack_serializer}
use kb_networking_cpp.Steam.{Steam}
use kb_networking_cpp.Client.Object.{new_client}
use kb_networking_cpp.Client.Poll.{IncomingViewMessage}
use kb_networking_cpp.PacketClient.Async.{
  AwaitingPacket, get_packet_awaiter, resume_wait, awaited, begin_wait,
  on_data_received_pre_handler, register_packet_awaiter, notify,
}
use kb_networking_cpp.PacketClient.AsyncClient.{AsyncClient, receive_async, awaiter_or_handler}
use kb_networking_cpp.PacketClient.Awaiters.{waiting, IsPacket}
use kb_networking_cpp.PacketClient.Tasks.{
  Events, Coroutines, Reach, created, next, begins, receives,
}
use kb_networking_cpp.PacketClient.Tasks.Race.{front_pointer, serve_pointer, stale_pointer_faults}
use kb_networking_cpp.PacketClient.Tasks.Order.{events_of}
use kb_networking_cpp.PacketClient.Tasks.Invariant.{pointers, somes}
use kb_networking_cpp.PacketClient.Tasks.Ownership.{pointers_live, resumes_own_awaiter}
use kb_networking_cpp.Examples.Base.{example_memory, example_msgpack, example_steam}

abbrev steam : Steam
steam = example_steam 8 1 [] []

abbrev serializer : Serializer example_memory
serializer = msgpack_serializer example_memory example_msgpack

-- The world is a list of the events that are set.
abbrev is_in : ℕ → List ℕ → Bool
is_in d [] = false
is_in d (e ∷ w) = if e == d then true else is_in d w

abbrev without : ℕ → List ℕ → List ℕ
without e [] = []
without e (d ∷ w) = let rest = without e w in if d == e then rest else d ∷ rest

is_in-without :
    (e d : ℕ) (w : List ℕ) → is_in d (without e w) ≡ (if e == d then false else is_in d w)
is_in-without e d [] = ground arith
is_in-without e d (x ∷ w) = ground (arith, is_in-without e d w)

abbrev events : Events steam
events = record {
  new_event = without;
  set = λ e w. e ∷ w;
  is_set = is_in;
  is_set-new_event = is_in-without;
  is_set-set = λ e d w. refl;
}

-- A packet of type 5.
abbrev message_42 : IncomingViewMessage
message_42 = record { conn = 9; buffer = 0x4B ∷ 0x42 ∷ 0x4C ∷ 1 ∷ 5 ∷ 0 ∷ 0 ∷ 0 ∷ 0xCD ∷ 42 ∷ [] }

-- Two coroutines begin to wait for the type 5, and one for the type 6.
abbrev three_wait : Coroutines steam ℕ
three_wait = record {
  awaiters =
      (
        5,
        record { event = some 1; payload = none } ∷ record { event = some 3; payload = none } ∷ [],
      )
      ∷ (6, record { event = some 2; payload = none } ∷ [])
      ∷ [];
  tasks = (5, 1) ∷ (6, 2) ∷ (5, 3) ∷ [];
  world = [];
}

abbrev first_woken : Coroutines steam ℕ
first_woken = record {
  awaiters =
      (
        5,
        record { event = some 1; payload = some 42 }
            ∷ record { event = some 3; payload = none }
            ∷ [],
      )
      ∷ (6, record { event = some 2; payload = none } ∷ [])
      ∷ [];
  tasks = (5, 1) ∷ (6, 2) ∷ (5, 3) ∷ [];
  world = 1 ∷ [];
}

three_wait-Reach : Reach steam events serializer three_wait
unfolding begin_wait register_packet_awaiter find insert
three_wait-Reach =
    next (next (next (created []) (begins 5 1 tt)) (begins 6 2 (ground arith, tt)))
      (begins 5 3 (ground arith, (ground arith, tt)))

first_woken-Reach : Reach steam events serializer first_woken
unfolding on_data_received_pre_handler unpack_internal_packet_header find insert notify
    Msgpack.deserialize_packet_internal
first_woken-Reach = next three_wait-Reach (receives message_42)

pointers_live_example :
    pointers (waiting 5 first_woken.awaiters) ≡ somes (events_of 5 first_woken.tasks)
pointers_live_example = pointers_live steam events serializer first_woken-Reach 5

resumes_own_awaiter_example :
    (a : AwaitingPacket ℕ) × ((get_packet_awaiter 5 first_woken.awaiters).0 ≡ some a)
    × (a.event ≡ some 1)
    × ((resume_wait steam events.set serializer 5 first_woken.awaiters).0
        ≡ awaited steam events.set serializer (some a))
resumes_own_awaiter_example =
    resumes_own_awaiter steam events serializer first_woken-Reach [] ((6, 2) ∷ (5, 3) ∷ []) 5 1 refl
      refl

abbrev log_number : ℕ → List ℕ → List ℕ
log_number n w = w ++ n ∷ []

-- A client with a handler for the type 5, for which two coroutines wait.
abbrev waiting_client : AsyncClient steam ℕ
waiting_client = record {
  packet_client = record {
    client = new_client 1;
    handlers = (5, log_number) ∷ [];
    pre_handler = some (on_data_received_pre_handler steam events.set serializer);
  };
  awaiters = three_wait.awaiters;
}

message_42-IsPacket : IsPacket serializer 5 message_42
message_42-IsPacket = record {
  header = header_of 1 5;
  unpacked = unfold unpack_internal_packet_header in refl;
  same_serde = refl;
  same_type = refl;
}

awaiter_or_handler_example :
    ((a : AwaitingPacket ℕ) (queue : List (AwaitingPacket ℕ))
      → waiting 5 waiting_client.awaiters ≡ a ∷ queue
      → let (handled, c', w') =
          receive_async steam events.set serializer message_42 waiting_client [] in
        (handled ≡ true)
        × (waiting 5 c'.awaiters ≡ record a { payload = some 42 } ∷ queue)
        × (w' ≡ notify steam events.set a.event []))
    × ((handler : ℕ → List ℕ → List ℕ)
        → waiting 5 waiting_client.awaiters ≡ []
        → find 5 waiting_client.packet_client.handlers ≡ some handler
        → receive_async steam events.set serializer message_42 waiting_client []
          ≡ (true, waiting_client, handler 42 []))
awaiter_or_handler_example =
    awaiter_or_handler steam events.set serializer 5 message_42 waiting_client [] 42 refl
      message_42-IsPacket (unfold Msgpack.deserialize_packet_internal in refl)

stale_pointer_faults_example :
    (front_pointer 5 first_woken.awaiters ≡ some (some 1))
    × (serve_pointer steam events serializer 5
          (some 1)
          (some 43)
          (resume_wait steam events.set serializer 5 first_woken.awaiters).1
          (1 ∷ [])
        ≡ none)
stale_pointer_faults_example =
    stale_pointer_faults steam events serializer first_woken-Reach [] ((6, 2) ∷ (5, 3) ∷ []) 5 1
      (some 43) refl refl
