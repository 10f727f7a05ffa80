-- ===== src/Examples/Processes.antt =====
-- Several clients of one process.
use kb_networking_cpp.Prelude.{ℕ, ◌≡◌, refl, inl, true, false, [], ◌∷◌, none, some, arith}
use kb_networking_cpp.Prelude.Table.{find, insert}
use kb_networking_cpp.Steam.{Steam, StatusChange, closed_by_peer, none_state}
use kb_networking_cpp.Address.{is_valid_ip_address}
use kb_networking_cpp.Client.Object.{UdpClient, connecting, new_client, connect, try_connect}
use kb_networking_cpp.Client.Process.{
  Process, create_client, connect_at, dispatch_all, connection_status_changed_callback,
}
use kb_networking_cpp.Client.Process.Instance.{
  Reach, begun, next, creates, connects, instance_is_live,
}
use kb_networking_cpp.Client.Process.Crosstalk.{second_client_takes_events}
use kb_networking_cpp.Examples.Base.{example_steam}

abbrev steam : Steam
steam = example_steam 8 1 [] []

abbrev closed : StatusChange
closed = record { conn = 9; state = closed_by_peer; old_state = none_state }

abbrev idle : ℕ → UdpClient (Unit {0})
idle p = new_client p

abbrev running : ℕ → UdpClient (Unit {0})
running p = record {
  self = p;
  running = true;
  connection_status = connecting;
  network_thread = true;
  on_data_received = none;
  has_interface = true;
  conn = 9;
}

abbrev created : Process steam (Unit {0})
created = record {
  host = record { world = []; instance_ptr = none };
  clients = (1, idle 1) ∷ (2, idle 2) ∷ [];
}

abbrev one_runs : Process steam (Unit {0})
one_runs = record {
  host = record { world = []; instance_ptr = some 1 };
  clients = (1, running 1) ∷ (2, idle 2) ∷ [];
}

connected : connect_at steam 1 "10.0.0.1" 80 created ≡ some (true, one_runs)
unfolding connect_at find insert connect try_connect is_valid_ip_address
connected = refl

one_runs-Reach : Reach steam one_runs
unfolding create_client find insert
one_runs-Reach =
    next (next (next (begun []) (creates 1 refl)) (creates 2 refl))
      (connects 1 "10.0.0.1" 80 true one_runs connected)

instance_is_live_example :
    ((p : ℕ)
      → one_runs.instance_ptr ≡ some p
      → (c : UdpClient (Unit {0})) × (find p one_runs.clients ≡ some c) × (c.has_interface ≡ true))
    × ((process' : Process steam (Unit {0})) × (dispatch_all steam (closed ∷ []) one_runs
          ≡ some process'))
instance_is_live_example = instance_is_live steam one_runs-Reach (closed ∷ [])

second_connects :
    connect steam "10.0.0.2" 80 (idle 2) one_runs.host
    ≡ some (true, running 2, record { world = []; instance_ptr = some 2 })
unfolding connect try_connect is_valid_ip_address
second_connects = refl

second_client_takes_events_example :
    (after : Process steam (Unit {0})) × (last : Process steam (Unit {0})) × (b : UdpClient
      (Unit {0}))
    × (connect_at steam 2 "10.0.0.2" 80 one_runs ≡ some (true, after))
    × (connection_status_changed_callback steam closed after ≡ some last)
    × (find 1 last.clients ≡ some (running 1))
    × (find 2 last.clients ≡ some b)
    × (b.running ≡ false)
    × (b.conn ≡ 0)
second_client_takes_events_example =
    second_client_takes_events steam 1 2 (running 1) (idle 2) (running 2) "10.0.0.2" 80 one_runs
      (record { world = []; instance_ptr = some 2 }) closed (ground arith) (unfold find in refl)
      (unfold find in refl) refl refl second_connects (inl refl)
