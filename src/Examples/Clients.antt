-- ===== src/Examples/Clients.antt =====
-- Clients, their polling, and the wait for a connection.
use kb_networking_cpp.Prelude.{
  ℕ, zero, suc, ◌*◌, ◌<◌, ◌≤◌, ◌≡◌, ◌≢◌, ◌↔◌, if◌then◌else◌, ◌⊎◌, refl, inl, Bool, true, false, not,
  ◌||◌, List, [], ◌∷◌, none, some, arith,
}
use kb_networking_cpp.Steam.{Steam, StatusChange, Message, closed_by_peer, none_state}
use kb_networking_cpp.Address.{is_valid_ip_address}
use kb_networking_cpp.Client.Object.{
  send_raw, stop, stop, UdpClient, ClientHost, ConnectionStatus, connecting, connected,
  disconnected, failed_to_connect, new_client, connect, destroy, on_connection_status_changed,
  try_connect,
}
use kb_networking_cpp.Client.Poll.{IncomingViewMessage}
use kb_networking_cpp.Client.Lifecycle.{IsValid, connect_lem}
use kb_networking_cpp.Client.Unrecoverable.{
  Op, stops, sends, run_ops, IsLeft, connection_closed, unjoined_terminates,
}
use kb_networking_cpp.PacketClient.ConnectWait.{
  is_connecting, is_connected, connect_async, connect_async_lem,
}
use kb_networking_cpp.Examples.Base.{example_steam}

abbrev closed : StatusChange
closed = record { conn = 9; state = closed_by_peer; old_state = none_state }

abbrev message : Message
message = record { conn = 9; payload = 1 ∷ 2 ∷ [] }

abbrev steam : Steam
steam = example_steam 8 1 (closed ∷ []) (message ∷ [])

abbrev client : UdpClient (Unit {0})
client = new_client 1

abbrev running : UdpClient (Unit {0})
running = record client {
  running = true;
  connection_status = connecting;
  network_thread = true;
  has_interface = true;
  conn = 9;
}

abbrev host : ClientHost steam
host = record { world = []; instance_ptr = none }

running-IsValid : IsValid running
running-IsValid = ground arith

-- The connection that the library gives.
abbrev tried_conn : ℕ
tried_conn = 9

connect_lem_example :
    (r : Bool × UdpClient (Unit {0}) × ClientHost steam) × (connect steam "10.0.0.1" 80 client host
      ≡ some r)
    × IsValid r.1
    × (r.1.running ≡ r.0)
    × (r.1.network_thread ≡ true)
    × (r.2.instance_ptr ≡ some 1)
    × ((r.0 ≡ true) ↔ ((is_valid_ip_address steam "10.0.0.1" ≡ true) × (tried_conn ≢ 0)))
    × (r.1.connection_status ≡ (if r.0 then connecting else failed_to_connect))
connect_lem_example = connect_lem steam "10.0.0.1" 80 client host refl refl

abbrev count_messages : Unit {0} → IncomingViewMessage → ℕ × List ℕ → ℕ × List ℕ
count_messages u m (n, w) = (suc n, w)

-- The third status that is read is `connected`.
abbrev statuses : ℕ → ConnectionStatus
statuses zero = connecting
statuses (suc zero) = connecting
statuses (suc (suc i)) = connected

abbrev tried : Bool × UdpClient (Unit {0}) × ClientHost steam
tried = (true, running, record { world = []; instance_ptr = some 1 })

connects : connect steam "10.0.0.1" 80 client host ≡ some tried
unfolding connect try_connect is_valid_ip_address
connects = refl

connect_async_lem_example :
    let run = connect_async steam 21 statuses "10.0.0.1" 80 client host in
    (client.running || not true ≡ true → run ≡ some (false, 0))
    × (client.running || not true ≡ false
        → (n sleeps : ℕ) × (run ≡ some (is_connected (statuses n), sleeps))
          × (sleeps * 50 ≤ 1000)
          × (n ≤ 20)
          × ((i : ℕ) → i < n → is_connecting (statuses i) ≡ true)
          × ((n ≡ 20) ⊎ (is_connecting (statuses n) ≡ false)))
connect_async_lem_example =
    connect_async_lem steam statuses "10.0.0.1" 80 client tried.1 host tried.2 true connects

-- After the peer closed the connection.
abbrev left_behind : UdpClient (Unit {0})
left_behind = record running { running = false; connection_status = disconnected; conn = 0 }

left_behind-IsLeft : IsLeft steam left_behind
unfolding on_connection_status_changed
left_behind-IsLeft = connection_closed closed running [] (inl refl) running-IsValid refl refl

abbrev attempts : List Op
attempts = stops ∷ sends (7 ∷ []) 1 true ∷ stops ∷ []

attempts-run : run_ops steam attempts left_behind host ≡ some (left_behind, host)
unfolding stop send_raw
attempts-run = refl

unjoined_terminates_example : destroy steam left_behind host ≡ none
unjoined_terminates_example =
    unjoined_terminates steam attempts left_behind left_behind host host left_behind-IsLeft
      attempts-run
