-- ===== src/Examples/Servers.antt =====
-- Servers, their process and the C interface.
use kb_networking_cpp.Prelude.{
  inr, ◌==◌, Bool-cases, ℕ, ◌≡◌, ◌≢◌, ◌↔◌, refl, inl, true, false, List, [], ◌∷◌, ◌++◌, none, some,
  arith,
}
use kb_networking_cpp.Prelude.Int.{pos}
use kb_networking_cpp.Prelude.Table.{find}
use kb_networking_cpp.Packet.Bytes.{Bytes}
use kb_networking_cpp.Address.{empty_address}
use kb_networking_cpp.Steam.{Steam, StatusChange, Message, connecting, closed_by_peer, none_state}
use kb_networking_cpp.Server.Object.{UdpServer, ClientInfo, Host, send, broadcast}
use kb_networking_cpp.Server.Status.{on_connection_status_changed}
use kb_networking_cpp.Server.Process.{Process}
use kb_networking_cpp.Server.Broadcast.{after_sends, AllSent, broadcast_lem}
use kb_networking_cpp.Server.Lifecycle.{IsValid}
use kb_networking_cpp.Server.Clients.{
  IsIndexed, on_connection_status_changed-IsIndexed, closed_client_fails_broadcast,
}
use kb_networking_cpp.Server.ClientSet.{client_set}
use kb_networking_cpp.Server.Reentrant.{
  Distinct, calls_made, drops_client, disconnecting_callback_lem,
}
use kb_networking_cpp.Server.Invariant.{IsSound}
use kb_networking_cpp.Examples.Base.{example_steam}

-- A peer connects, and a message comes from connection 4.
abbrev attempt : StatusChange
attempt = record { conn = 5; state = connecting; old_state = none_state }

abbrev message_4 : Message
message_4 = record { conn = 4; payload = 1 ∷ 2 ∷ [] }

abbrev message_6 : Message
message_6 = record { conn = 6; payload = 3 ∷ [] }

abbrev steam : Steam
steam = example_steam 8 1 (attempt ∷ []) (message_4 ∷ message_6 ∷ [])

-- Every send fails.
abbrev no_sends : Steam
no_sends = example_steam 8 2 [] []

abbrev client_4 : ClientInfo
client_4 = record { conn = 4; addr = empty_address }

abbrev running_on : (s : Steam) → ℕ → UdpServer s (Unit {0})
running_on s self = record {
  self = self;
  has_interface = true;
  network_thread = true;
  is_running = true;
  port = 80;
  data_received_callback = some tt;
  client_connected_callback = none;
  client_disconnected_callback = none;
  clients = (4, client_4) ∷ [];
  listen_socket = 7;
  poll_group = 8;
}

abbrev running : UdpServer steam (Unit {0})
running = running_on steam 1

abbrev idle : UdpServer steam (Unit {0})
idle = record running { network_thread = false; is_running = false; clients = [] }

abbrev host : Host steam
host = record { world = []; instance_ptr = some 1 }

running-IsValid : IsValid running
running-IsValid = ground arith

running-IsIndexed : IsIndexed running.clients
running-IsIndexed = record { sorted = (tt, tt); own_handle = λ k c e. unfold find in ground arith }

running-IsSound : IsSound 1 running
running-IsSound = record {
  valid = running-IsValid;
  indexed = running-IsIndexed;
  own_address = refl;
  interface_set = refl;
}

abbrev process : Process steam (Unit {0})
process = record { host = host; servers = (1, running) ∷ [] }

broadcast_lem_example :
    (((broadcast steam (9 ∷ []) 1 true running []).0 ≡ true)
      ↔ ((running.clients ≢ []) × AllSent steam (9 ∷ []) 1 true (4 ∷ []) []))
    × ((broadcast steam (9 ∷ []) 1 true running []).1
        ≡ after_sends steam (9 ∷ []) 1 true (4 ∷ []) [])
broadcast_lem_example = broadcast_lem steam (9 ∷ []) 1 true running []

abbrev log_client : Unit {0} → ClientInfo → Bytes → List ℕ → List ℕ
log_client u client d w = w ++ client.conn ∷ []

on_connection_status_changed-IsIndexed_example :
    IsIndexed (on_connection_status_changed steam attempt running []).0.clients
on_connection_status_changed-IsIndexed_example =
    on_connection_status_changed-IsIndexed steam running [] attempt running-IsIndexed

closed_client_fails_broadcast_example :
    let s = running_on no_sends 1 in
    let closed = record attempt { conn = 4; state = closed_by_peer } in
    let (s', w') = on_connection_status_changed no_sends closed s [] in
    (s' ≡ s) × ((broadcast no_sends (9 ∷ []) 1 true s' w').0 ≡ false)
closed_client_fails_broadcast_example =
    closed_client_fails_broadcast no_sends (running_on no_sends 1) []
      (record attempt { conn = 4; state = closed_by_peer }) client_4 (9 ∷ []) 1 true (inl refl)
      (unfold find in refl) (λ w. unfold send in refl)

-- The same connection, with another address.
abbrev moved : UdpServer steam (Unit {0})
moved = record running {
  clients = (4, record { conn = 4; addr = record empty_address { port = 81 } }) ∷ [];
}

moved-IsIndexed : IsIndexed moved.clients
moved-IsIndexed = record { sorted = (tt, tt); own_handle = λ k c e. unfold find in ground arith }

same_set : (j : ℕ) → client_set steam running j ≡ client_set steam moved j
unfolding find
same_set j = elim (Bool-cases (4 == j)) [ inl same ↦ rw same refl | inr other ↦ rw other refl ]

disconnecting_callback_lem_example : Distinct (
    calls_made steam
      (drops_client steam log_client (pos 0))
      (message_4 ∷ message_6 ∷ message_4 ∷ [])
      running
      [])
disconnecting_callback_lem_example =
    disconnecting_callback_lem steam log_client (pos 0) (message_4 ∷ message_6 ∷ message_4 ∷ [])
      running [] running-IsIndexed
