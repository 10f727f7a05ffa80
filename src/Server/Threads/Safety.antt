-- ===== src/Server/Threads/Safety.antt =====
-- What holds of the two threads of udp_server.cpp in every state that they reach.
use kb_networking_cpp.Prelude.{ℕ, ◌≡◌, ◌≢◌, Bool, false, some}
use kb_networking_cpp.Packet.Bytes.{Bytes}
use kb_networking_cpp.Steam.{Steam}
use kb_networking_cpp.Server.Object.{UdpServer, ClientInfo, Host, k_invalid_poll_group, start_async}
use kb_networking_cpp.Server.Threads.{Pc, is_ended, ready, System, thread_step, Reach}
use kb_networking_cpp.Server.Threads.Inv.{Inv, Held, reachable-Inv, thread_step_total, start_total}
use kb_networking_cpp.Server.Threads.Groups.{Groups, Keeps, CallbacksKeep}
use kb_networking_cpp.Server.Threads.Live.{reachable-known}

module _ (steam : Steam) {D : Type 0}
    (call : D → ClientInfo → Bytes → steam.World → steam.World) where
  -- Where a poll group that the library gave can be received on until it is destroyed, which no
  -- other call of it does and no callback of the application: from a server that does not run and
  -- has no thread, in every state that the two threads reach, the network thread faults only where
  -- it is about to call the data callback with a pointer to a client that is no longer in the
  -- table; while it lives, the server has its poll group; and the owner, when it is not in `stop`,
  -- can start the server on any port without assigning to a joinable thread.
  pub threads_safe :
      {s : UdpServer steam D} {h : Host steam} {y : System steam D}
      → (groups : Groups steam)
      → ((callback : D) (client : ClientInfo) (payload : Bytes)
          → Keeps groups (call callback client payload))
      → CallbacksKeep groups s
      → s.is_running ≡ false
      → s.network_thread ≡ false
      → Reach steam call s h y
      → (Held y.pc y.server
          → (r : Pc × UdpServer steam D × Host steam) × (thread_step steam call y.pc y.server y.host
              ≡ some r))
        × (is_ended y.pc ≡ false → y.server.poll_group ≢ k_invalid_poll_group)
        × ((port : ℕ)
            → y.owner ≡ ready
            → (r : Bool × UdpServer steam D × Host steam) × (start_async steam port y.server y.host
                ≡ some r))
  threads_safe {y = y} groups calls_keep k idle unthreaded r =
      let v : Inv y = reachable-Inv steam call idle unthreaded r in
      (
        thread_step_total steam call y.pc y.server y.host y.owner
            (reachable-known steam groups call calls_keep idle unthreaded k r) v,
        v.group,
        λ port o. start_total steam call port y.server y.host (v.idle o),
      )
