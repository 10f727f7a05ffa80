-- ===== src/Client/Threads/Join.antt =====
-- That the network thread of udp_client.cpp ends once the client does not run.
use kb_networking_cpp.Prelude.{
  ℕ, zero, suc, ◌≡◌, ◌≢◌, refl, true, false, List, [], ◌∷◌, Option, none, some, arith,
}
use kb_networking_cpp.Packet.Header.{k_invalid_connection}
use kb_networking_cpp.Steam.{Steam, Message, StatusChange, invalid_handle}
use kb_networking_cpp.Client.Object.{UdpClient, ClientHost, k_default_poll_message_count, stop}
use kb_networking_cpp.Client.Poll.{IncomingViewMessage}
use kb_networking_cpp.Client.Threads.{
  Pc, ended, at_test, at_running, at_receive, at_callbacks, at_calls, at_releases, at_changes,
  joining, System, View, Reach, thread_step, loop_at, changed, stop_begin, stop_rest,
}
use kb_networking_cpp.Client.Threads.Inv.{
  Inv, thread_step-Inv, receive_step, call_step, reachable-Inv,
}
use kb_networking_cpp.Client.Threads.Connections.{Connections, Keeps, reachable-known}

module _ (steam : Steam) {D : Type 0} (c : UdpClient D) (h : ClientHost steam) where
  -- On one thread the two halves of `stop` are `stop`.
  pub stop_halves :
      c.running ≡ true
      → (let (c', h') = stop_begin steam c h in stop_rest steam c' h') ≡ stop steam c h
  unfolding stop stop_begin stop_rest
  stop_halves runs = ground arith

module _ (steam : Steam) {D X : Type 0}
    (call : D → IncomingViewMessage → X × steam.World → X × steam.World) where
  open steam use {World}

  abbrev run_on :
      (Pc → UdpClient D → X → ClientHost steam → Option (View steam D X))
      → Option (View steam D X)
      → Option (View steam D X)
  run_on run none = none
  run_on run (some (pc, c, x, h)) = run pc c x h

  -- So many steps of the network thread alone.
  unfoldable pub thread_run : ℕ → Pc → UdpClient D → X → ClientHost steam → Option (View steam D X)
  thread_run zero pc c x h = some (pc, c, x, h)
  thread_run (suc n) pc c x h = run_on (thread_run n) (thread_step steam call pc c x h)

  abbrev Ends : Pc → UdpClient D → X → ClientHost steam → Type 0
  Ends pc c x h =
      (n : ℕ) × (c' : UdpClient D) × (x' : X) × (h' : ClientHost steam) × (thread_run n pc c x h
        ≡ some (ended, c', x', h'))

  -- The invariant with an owner in `stop` says that the client does not run.
  abbrev Stopping : Pc → UdpClient D → X → ClientHost steam → Type 0
  Stopping pc c x h = Inv (record { client = c; state = x; host = h; pc = pc; owner = joining })

  -- Behind one step of the thread, it ends if it ends from there.
  step-Ends :
      (pc pc' : Pc) (c c' : UdpClient D) (x x' : X) (h h' : ClientHost steam)
      → thread_step steam call pc c x h ≡ some (pc', c', x', h')
      → (Stopping pc' c' x' h' → Ends pc' c' x' h')
      → Stopping pc c x h
      → Ends pc c x h
  unfolding thread_run
  step-Ends pc pc' c c' x x' h h' e then v =
      let (n, c'', x'', h'', r) =
        then (thread_step-Inv steam call pc pc' c c' x x' h h' joining e v) in
      (suc n, c'', x'', h'', rw (e, thread_run) r)

  at_test-Ends :
      (c : UdpClient D) (x : X) (h : ClientHost steam) → Stopping at_test c x h → Ends at_test c x h
  unfolding thread_run thread_step
  at_test-Ends c x h v = (1, c, x, h, rw (v.stopping refl, thread_run) refl)

  at_running-Ends :
      (c : UdpClient D) (x : X) (h : ClientHost steam)
      → Stopping at_running c x h
      → Ends at_running c x h
  unfolding thread_step
  at_running-Ends c x h v =
      step-Ends at_running at_test c c x x h h (rw (v.stopping refl) refl) (at_test-Ends c x h) v

  at_changes-Ends :
      (changes : List StatusChange) (c : UdpClient D) (x : X) (h : ClientHost steam)
      → Stopping (at_changes changes) c x h
      → Ends (at_changes changes) c x h
  unfolding thread_step
  at_changes-Ends [] c x h = step-Ends (at_changes []) at_test c c x x h h refl (at_test-Ends c x h)
  at_changes-Ends (change ∷ changes) c x h =
      let (c', h') = changed steam call h.instance_ptr change c h in
      step-Ends (at_changes (change ∷ changes)) (at_changes changes) c c' x x h h' refl
        (at_changes-Ends changes c' x h')

  at_callbacks-Ends :
      (c : UdpClient D) (x : X) (h : ClientHost steam)
      → Stopping at_callbacks c x h
      → Ends at_callbacks c x h
  unfolding thread_step
  at_callbacks-Ends c x h v =
      let (changes, w) = steam.run_callbacks h.world in
      let h' = record h { world = w } in
      step-Ends at_callbacks (at_changes changes) c c x x h h' (rw (v.interface_live refl) refl)
        (at_changes-Ends changes c x h') v

  at_releases-Ends :
      (received : List Message) (c : UdpClient D) (x : X) (h : ClientHost steam)
      → Stopping (at_releases received) c x h
      → Ends (at_releases received) c x h
  unfolding thread_step
  at_releases-Ends [] c x h =
      step-Ends (at_releases []) at_callbacks c c x x h h refl (at_callbacks-Ends c x h)
  at_releases-Ends (message ∷ rest) c x h =
      step-Ends (at_releases (message ∷ rest)) (at_releases rest) c c x x h _ refl
        (at_releases-Ends rest c x _)

  at_calls-Ends :
      (rest received : List Message) (c : UdpClient D) (x : X) (h : ClientHost steam)
      → Stopping (at_calls rest received) c x h
      → Ends (at_calls rest received) c x h
  unfolding thread_step
  at_calls-Ends [] received c x h v =
      step-Ends (at_calls [] received) (at_releases received) c c x x h h refl
        (at_releases-Ends received c x h) v
  at_calls-Ends (message ∷ rest) received c x h v =
      let (e, called) = call_step steam call message rest received c x h v.has_callback in
      step-Ends (at_calls (message ∷ rest) received) (at_calls rest received) c c x e.0 h _ called
        (at_calls-Ends rest received c e.0 _) v

  loop-Ends :
      (callback : Option D) (received : List Message) (c : UdpClient D) (x : X)
      (h : ClientHost steam)
      → Stopping (loop_at steam call callback received) c x h
      → Ends (loop_at steam call callback received) c x h
  unfolding loop_at
  loop-Ends none received c x h = at_releases-Ends received c x h
  loop-Ends (some callback) received c x h = at_calls-Ends received received c x h

  at_receive-Ends :
      (c : UdpClient D) (x : X) (h : ClientHost steam)
      → (c.conn ≢ k_invalid_connection
          → (steam.receive_messages_on_connection c.conn k_default_poll_message_count h.world).0
            ≢ invalid_handle)
      → Stopping at_receive c x h
      → Ends at_receive c x h
  at_receive-Ends c x h known v =
      let (received, e) =
        receive_step steam call c x h (known v.open_conn) (v.interface_live refl) v.open_conn in
      step-Ends at_receive (loop_at steam call c.on_data_received received) c c x x h _ e
        (loop-Ends c.on_data_received received c x _) v

  Stopping-Ends :
      (pc : Pc) (c : UdpClient D) (x : X) (h : ClientHost steam)
      → (c.conn ≢ k_invalid_connection
          → (steam.receive_messages_on_connection c.conn k_default_poll_message_count h.world).0
            ≢ invalid_handle)
      → Stopping pc c x h
      → Ends pc c x h
  unfolding thread_run
  Stopping-Ends ended c x h known v = (0, c, x, h, refl)
  Stopping-Ends at_test c x h known v = at_test-Ends c x h v
  Stopping-Ends at_running c x h known v = at_running-Ends c x h v
  Stopping-Ends at_callbacks c x h known v = at_callbacks-Ends c x h v
  Stopping-Ends (at_calls rest received) c x h known v = at_calls-Ends rest received c x h v
  Stopping-Ends (at_releases received) c x h known v = at_releases-Ends received c x h v
  Stopping-Ends (at_changes changes) c x h known v = at_changes-Ends changes c x h v
  Stopping-Ends at_receive c x h known v = at_receive-Ends c x h known v

  -- Where a connection that the library gave can be received on until it is closed, which no other
  -- call of it does and not the data callback: from a client that does not run and has neither a
  -- thread nor a connection, and from every state that the two threads reach in which the client
  -- does not run, finitely many steps of the network thread alone end it. So the join of every
  -- `stop` returns, and a thread that nobody joins ends, too.
  pub client_thread_ends :
      {c : UdpClient D} {x : X} {h : ClientHost steam} {y : System steam D X}
      → (connections : Connections steam)
      → ((callback : D) (m : IncomingViewMessage) → Keeps connections (call callback m))
      → c.conn ≡ k_invalid_connection
      → c.running ≡ false
      → c.network_thread ≡ false
      → Reach steam call c x h y
      → y.client.running ≡ false
      → (n : ℕ) × (c' : UdpClient D) × (x' : X) × (h' : ClientHost steam) × (thread_run n y.pc
            y.client y.state y.host
          ≡ some (ended, c', x', h'))
  client_thread_ends {y = y} connections calls_keep unconnected idle unthreaded r stopped =
      let v : Inv y = reachable-Inv steam call idle unthreaded r in
      Stopping-Ends y.pc y.client y.state y.host
        (reachable-known steam connections call calls_keep unconnected r) (ground arith)
