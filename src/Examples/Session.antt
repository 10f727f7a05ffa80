-- ===== src/Examples/Session.antt =====
-- A round of packets to a packet server that keeps what it gets.
use kb_networking_cpp.Prelude.{
  ℕ, ◌≡◌, refl, sym, ap, ◌∙◌, inl, inr, List, [], ◌∷◌, ◌++◌, Option, none, some, arith, map,
  Bool-cases, ◌==◌, ==_iff,
}
use kb_networking_cpp.Prelude.Table.{find}
use kb_networking_cpp.Serde.Serializer.{payload_as}
use kb_networking_cpp.Serde.Msgpack.{msgpack_serializer}
use kb_networking_cpp.Address.{empty_address}
use kb_networking_cpp.Steam.{Steam, Message}
use kb_networking_cpp.Server.Object.{ClientInfo, new_server}
use kb_networking_cpp.Server.Process.{Process}
use kb_networking_cpp.PacketServer.Object.{PacketServer, WeakSelf, weak_self, poll_packets}
use kb_networking_cpp.PacketServer.Session.{note, sent_message, session_lem}
use kb_networking_cpp.Examples.Base.{example_memory, example_msgpack, noting_steam}

-- The connection, the packet type and the object of a packet.
abbrev Noted : Type 0
Noted = ℕ × ℕ × Option ℕ

abbrev sent : List (ℕ × ℕ)
sent = (5, 42) ∷ (6, 43) ∷ (5, 44) ∷ []

-- Their messages; the library is not looked at for them.
abbrev sent_messages : List Message
sent_messages =
    map
      (λ packet.
        sent_message (noting_steam Noted (λ conn d n. []) []) example_memory example_msgpack 4
          packet)
      sent

-- The world is what the handlers noted.
abbrev steam : Steam
steam = noting_steam Noted (λ conn d n. []) sent_messages

abbrev keep : ℕ → ℕ → ℕ → List Noted → List Noted
keep t conn payload w =
    w ++ (conn, t, payload_as (msgpack_serializer example_memory example_msgpack) payload) ∷ []

abbrev client_4 : ClientInfo
client_4 = record { conn = 4; addr = empty_address }

-- Handlers for the packet types 5 and 6.
abbrev server : PacketServer steam ℕ
server = record {
  server = record (new_server steam 1) {
    data_received_callback = some weak_self;
    clients = (4, client_4) ∷ [];
  };
  packet_handlers = (5, keep 5) ∷ (6, keep 6) ∷ [];
}

abbrev run_found : Option (ℕ → ℕ → List Noted → List Noted) → ℕ → ℕ → ℕ → List Noted → List Noted
run_found none t conn n w = keep t conn n w
run_found (some handler) t conn n w = handler conn n w

found-keep :
    (t conn payload : ℕ) (w : List Noted)
    → run_found (find t server.packet_handlers) t conn payload w ≡ keep t conn payload w
unfolding find
found-keep t conn payload w = elim (Bool-cases (5 == t)) [
  | inl five ↦ rw five (ap (λ i. keep i conn payload w) ((==_iff 5 t).0 five))
  | inr other ↦ elim (Bool-cases (6 == t)) [
    | inl six ↦ rw (other, six) (ap (λ i. keep i conn payload w) ((==_iff 6 t).0 six))
    | inr rest ↦ rw (other, rest) refl
  ]
]

server-keeps :
    (t conn payload : ℕ) (w : List Noted) (handler : ℕ → ℕ → List Noted → List Noted)
    → find t server.packet_handlers ≡ some handler
    → handler conn payload w
      ≡ w ++ note steam example_memory example_msgpack server conn t payload ∷ []
server-keeps t conn payload w handler e =
    ap (λ o. run_found o t conn payload w) (sym e) ∙ found-keep t conn payload w

abbrev process : Process steam WeakSelf
process = record {
  host = record { world = []; instance_ptr = some 1 };
  servers = (1, server.server) ∷ [];
}

session_lem_example :
    (process' : Process steam WeakSelf) × (poll_packets steam
        (msgpack_serializer example_memory example_msgpack)
        server
        1
        process
      ≡ some process')
    × (process'.servers ≡ process.servers)
    × (process'.world ≡ [] ++ map (λ (t, x). (client_4.conn, t, some x)) sent)
unfolding find new_server
session_lem_example =
    session_lem steam example_memory example_msgpack server (λ w. w) client_4 sent 1 process []
      server-keeps (λ m w. refl) (λ w. (refl, refl)) refl refl
      ((omega arith, refl), ((omega arith, refl), ((omega arith, refl), tt))) refl refl
      (omega arith) refl refl
