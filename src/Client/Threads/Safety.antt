-- ===== src/Client/Threads/Safety.antt =====
-- What holds of the two threads of udp_client.cpp in every state that they reach.
use kb_networking_cpp.Prelude.{◌≡◌, ◌≢◌, true, false, some}
use kb_networking_cpp.Packet.Header.{k_invalid_connection}
use kb_networking_cpp.Steam.{Steam}
use kb_networking_cpp.Client.Object.{UdpClient, ClientHost}
use kb_networking_cpp.Client.Poll.{IncomingViewMessage}
use kb_networking_cpp.Client.Threads.{is_ended, System, View, thread_step, Reach}
use kb_networking_cpp.Client.Threads.Inv.{Inv, reachable-Inv, thread_step_total}
use kb_networking_cpp.Client.Threads.Connections.{Connections, Keeps, reachable-known}

module _ (steam : Steam) {D X : Type 0}
    (call : D → IncomingViewMessage → X × steam.World → X × steam.World) where
  -- Where a connection that the library gave can be received on until it is closed, which no other
  -- call of it does and not the data callback: from a client that does not run and has neither a
  -- thread nor a connection, in every state that the two threads reach, the next step of the
  -- network thread is no fault; and while the client runs, it has its interface and a connection,
  -- and its network thread has not ended.
  pub client_threads_safe :
      {c : UdpClient D} {x : X} {h : ClientHost steam} {y : System steam D X}
      → (connections : Connections steam)
      → ((callback : D) (m : IncomingViewMessage) → Keeps connections (call callback m))
      → c.conn ≡ k_invalid_connection
      → c.running ≡ false
      → c.network_thread ≡ false
      → Reach steam call c x h y
      → ((r : View steam D X) × (thread_step steam call y.pc y.client y.state y.host ≡ some r))
        × (y.client.running ≡ true
            → (y.client.has_interface ≡ true)
              × (y.client.conn ≢ k_invalid_connection)
              × (is_ended y.pc ≡ false))
  client_threads_safe {y = y} connections calls_keep unconnected idle unthreaded r =
      let v : Inv y = reachable-Inv steam call idle unthreaded r in
      (
        thread_step_total steam call y.pc y.client y.state y.host y.owner
            (reachable-known steam connections call calls_keep unconnected r) v,
        λ runs. (v.valid.interface_set runs, v.valid.has_conn runs, v.served runs),
      )
