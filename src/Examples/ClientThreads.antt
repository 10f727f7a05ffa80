-- ===== src/Examples/ClientThreads.antt =====
-- The two threads of a client.
use kb_networking_cpp.Prelude.{
  ℕ, suc, ◌≡◌, ◌≢◌, refl, true, false, List, [], ◌∷◌, ◌++◌, none, some, arith,
}
use kb_networking_cpp.Steam.{Steam, Message, Received, messages, invalid_handle}
use kb_networking_cpp.Client.Object.{
  UdpClient, ClientHost, connecting, new_client, connect, try_connect,
}
use kb_networking_cpp.Client.Poll.{IncomingViewMessage, poll_messages, dispatch, call_each, poll}
use kb_networking_cpp.Client.Threads.{
  ended, at_test, is_ended, ready, joining, System, View, thread_step, stop_begin, connects,
  stop_begins, Reach, here, next,
}
use kb_networking_cpp.Client.Threads.Safety.{client_threads_safe}
use kb_networking_cpp.Client.Threads.Join.{thread_run, client_thread_ends}
use kb_networking_cpp.Client.Threads.Connections.{Connections, Keeps}
use kb_networking_cpp.Address.{is_valid_ip_address}
use kb_networking_cpp.Examples.Base.{example_steam}

abbrev message : Message
message = record { conn = 9; payload = 1 ∷ 2 ∷ [] }

-- Nothing can be received on a connection that was closed.
abbrev received_in : List ℕ → List Message → Received
received_in [] received = invalid_handle
received_in (a ∷ w) received = messages received

-- A library with one connection at a time, which is there while the log is not empty.
abbrev steam : Steam
steam = record (example_steam 8 1 [] (message ∷ [])) {
  connect_by_ip_address = λ addr w. (9, w ++ 9 ∷ []);
  close_connection = λ conn reason text linger w. [];
  receive_messages_on_connection = λ conn n w. (received_in w (message ∷ []), w);
}

-- The owner's state is the number of the messages that came.
abbrev count : Unit {0} → IncomingViewMessage → ℕ × List ℕ → ℕ × List ℕ
count u m (n, w) = (suc n, w)

abbrev idle : UdpClient (Unit {0})
idle = record (new_client 1) { on_data_received = some tt }

abbrev running : UdpClient (Unit {0})
running = record idle {
  running = true;
  connection_status = connecting;
  network_thread = true;
  has_interface = true;
  conn = 9;
}

abbrev host : ClientHost steam
host = record { world = []; instance_ptr = none }

abbrev running_host : ClientHost steam
running_host = record { world = 9 ∷ []; instance_ptr = some 1 }

abbrev stopping_host : ClientHost steam
stopping_host = record { world = 9 ∷ []; instance_ptr = none }

longer : (a : ℕ) (w : List ℕ) → w ++ a ∷ [] ≢ []
longer a [] e = absurd (ground (arith, e))
longer a (b ∷ w) e = absurd (ground (arith, e))

there_known :
    (w : List ℕ) (received : List Message) → w ≢ [] → received_in w received ≢ invalid_handle
there_known [] received there = absurd (there refl)
there_known (a ∷ w) received there = λ e. ground (arith, e)

abbrev connections : Connections steam
connections = record {
  IsConnection = λ conn w. w ≢ [];
  given = λ addr w made. longer 9 w;
  known = λ conn w v. there_known w (message ∷ []) v;
  closed = λ conn reason text linger w v. v refl;
  behind_receive = λ conn k n w v. v;
  behind_release = λ conn m w v. v;
  behind_callbacks = λ conn w v. v;
  behind_send = λ conn k d n flags w v. longer k w;
}

count-Keeps : (u : Unit {0}) (m : IncomingViewMessage) → Keeps connections {X = ℕ} (count u m)
count-Keeps u m conn e v = v

connected : connect steam "10.0.0.1" 80 idle host ≡ some (true, running, running_host)
unfolding connect try_connect is_valid_ip_address
connected = refl

abbrev running_system : System steam (Unit {0}) ℕ
running_system = record {
  client = running;
  state = 0;
  host = running_host;
  pc = at_test;
  owner = ready;
}

running-Reach : Reach steam count idle 0 host running_system
running-Reach = next here (connects "10.0.0.1" 80 true running running_host refl connected)

client_threads_safe_example :
    ((r : View steam (Unit {0}) ℕ) × (thread_step steam count at_test running 0 running_host
        ≡ some r))
    × (running.running ≡ true
        → (running.has_interface ≡ true) × (running.conn ≢ 0) × (is_ended at_test ≡ false))
client_threads_safe_example =
    client_threads_safe steam count connections count-Keeps refl refl refl running-Reach

stopping-Reach : Reach steam count idle 0 host (record {
  client = record running { running = false };
  state = 0;
  host = stopping_host;
  pc = at_test;
  owner = joining;
})
unfolding stop_begin
stopping-Reach = next running-Reach (stop_begins refl refl)

client_thread_ends_example :
    (n : ℕ) × (c : UdpClient (Unit {0})) × (x : ℕ) × (h : ClientHost steam) × (thread_run steam
        count n at_test
        (record running { running = false })
        0
        stopping_host
      ≡ some (ended, c, x, h))
client_thread_ends_example =
    client_thread_ends steam count connections count-Keeps refl refl refl stopping-Reach refl

-- The callback is called for the message.
polled : poll steam count running 0 running_host ≡ some (running, 1, running_host)
unfolding poll poll_messages dispatch call_each
polled = refl
