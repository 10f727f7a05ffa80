-- ===== src/Examples/Threads.antt =====
-- The two threads of a server.
use kb_networking_cpp.Prelude.{
  ℕ, ◌≡◌, ◌≢◌, refl, Bool, true, false, List, [], ◌∷◌, ◌++◌, none, some, arith,
}
use kb_networking_cpp.Prelude.Table.{find}
use kb_networking_cpp.Prelude.Int.{pos}
use kb_networking_cpp.Packet.Bytes.{Bytes}
use kb_networking_cpp.Address.{empty_address}
use kb_networking_cpp.Steam.{Steam, Message, messages, invalid_handle, Received}
use kb_networking_cpp.Server.Object.{
  UdpServer, ClientInfo, Host, start_manual, start_async, disconnect,
}
use kb_networking_cpp.Server.Threads.{
  Pc, ended, at_test, at_messages, at_call, is_ended, ready, joining, System, thread_step,
  stop_begin, starts, stop_begins, Reach, here, next,
}
use kb_networking_cpp.Server.Threads.Inv.{Held}
use kb_networking_cpp.Server.Threads.Groups.{Groups, Keeps, CallbacksKeep, unset}
use kb_networking_cpp.Server.Threads.Safety.{threads_safe}
use kb_networking_cpp.Server.Threads.Join.{thread_run, join_returns}
use kb_networking_cpp.Server.Threads.Dangling.{disconnect_dangles}
use kb_networking_cpp.Examples.Base.{example_steam}

abbrev message_4 : Message
message_4 = record { conn = 4; payload = 1 ∷ 2 ∷ [] }

-- Nothing can be received on a group that was destroyed.
abbrev received_in : List ℕ → List Message → Received
received_in [] received = invalid_handle
received_in (a ∷ w) received = messages received

-- A library with one poll group at a time, which is there while the log is not empty.
abbrev steam : Steam
steam = record (example_steam 8 1 [] (message_4 ∷ [])) {
  create_poll_group = λ w. (8, w ++ 8 ∷ []);
  destroy_poll_group = λ g w. [];
  receive_messages_on_poll_group = λ g n w. (received_in w (message_4 ∷ []), w);
}

abbrev client_4 : ClientInfo
client_4 = record { conn = 4; addr = empty_address }

abbrev log_client : Unit {0} → ClientInfo → Bytes → List ℕ → List ℕ
log_client u client d w = w ++ client.conn ∷ []

abbrev idle : UdpServer steam (Unit {0})
idle = record {
  self = 1;
  has_interface = true;
  network_thread = false;
  is_running = false;
  port = 0;
  data_received_callback = some tt;
  client_connected_callback = none;
  client_disconnected_callback = none;
  clients = [];
  listen_socket = 0;
  poll_group = 0;
}

abbrev running : UdpServer steam (Unit {0})
running = record idle {
  network_thread = true;
  is_running = true;
  port = 90;
  listen_socket = 7;
  poll_group = 8;
}

abbrev host : Host steam
host = record { world = []; instance_ptr = none }

abbrev running_host : Host steam
running_host = record { world = 8 ∷ []; instance_ptr = some 1 }

abbrev stopping_host : Host steam
stopping_host = record { world = 8 ∷ []; instance_ptr = none }

abbrev IsThere : ℕ → List ℕ → Type 0
IsThere g w = w ≢ []

longer : (a : ℕ) (w : List ℕ) → w ++ a ∷ [] ≢ []
longer a [] e = absurd (ground (arith, e))
longer a (b ∷ w) e = absurd (ground (arith, e))

there_known :
    (w : List ℕ) (received : List Message) → w ≢ [] → received_in w received ≢ invalid_handle
there_known [] received there = absurd (there refl)
there_known (a ∷ w) received there = λ e. ground (arith, e)

abbrev groups : Groups steam
groups = record {
  IsGroup = IsThere;
  created = λ w given. longer 8 w;
  known = λ g w v. there_known w (message_4 ∷ []) v;
  destroyed = λ g w v. v refl;
  behind_receive = λ g n w v. v;
  behind_release = λ g m w v. v;
  behind_callbacks = λ g w v. v;
  behind_close = λ g conn reason text linger w v. longer 109 w;
  behind_accept = λ g conn w v. v;
  behind_set = λ g conn group w v. v;
  behind_info = λ g conn w v. v;
  behind_send = λ g conn d n flags w v. longer conn w;
}

log_client-Keeps :
    (u : Unit {0}) (client : ClientInfo) (payload : Bytes)
    → Keeps groups (log_client u client payload)
log_client-Keeps u client payload g w v = longer client.conn w

idle-CallbacksKeep : CallbacksKeep groups idle
idle-CallbacksKeep = record { connected = unset; disconnected = unset }

started : start_async steam 90 idle host ≡ some (true, running, running_host)
unfolding start_async start_manual
started = refl

abbrev running_system : System steam (Unit {0})
running_system = record { server = running; host = running_host; pc = at_test; owner = ready }

running-Reach : Reach steam log_client idle host running_system
running-Reach = next here (starts 90 true running running_host refl started)

threads_safe_example :
    (Held at_test running
      → (r : Pc × UdpServer steam (Unit {0}) × Host steam) × (thread_step steam log_client at_test
            running running_host
          ≡ some r))
    × (is_ended at_test ≡ false → running.poll_group ≢ 0)
    × ((port : ℕ)
        → ready ≡ ready
        → (r : Bool × UdpServer steam (Unit {0}) × Host steam) × (start_async steam port running
              running_host
            ≡ some r))
threads_safe_example =
    threads_safe steam log_client groups log_client-Keeps idle-CallbacksKeep refl refl running-Reach

stopping-Reach : Reach steam log_client idle host (record {
  server = record running { is_running = false };
  host = stopping_host;
  pc = at_test;
  owner = joining;
})
unfolding stop_begin
stopping-Reach = next running-Reach (stop_begins refl refl)

join_returns_example :
    (n : ℕ) × (s' : UdpServer steam (Unit {0})) × (h' : Host steam) × (thread_run steam log_client n
        at_test
        (record running { is_running = false })
        stopping_host
      ≡ some (ended, s', h'))
join_returns_example =
    join_returns steam log_client groups log_client-Keeps idle-CallbacksKeep refl refl
      stopping-Reach refl tt

disconnect_dangles_example :
    let s = record running { clients = (4, client_4) ∷ [] } in
    (thread_step steam log_client (at_messages (message_4 ∷ [])) s running_host
      ≡ some (at_call message_4 [], s, running_host))
    × (thread_step steam log_client
          (at_call message_4 [])
          (disconnect steam 4 (pos 0) s (8 ∷ [])).0
          running_host
        ≡ none)
disconnect_dangles_example =
    disconnect_dangles steam log_client message_4 [] tt client_4 (pos 0)
      (record running { clients = (4, client_4) ∷ [] }) running_host running_host refl
      (unfold find in refl)
