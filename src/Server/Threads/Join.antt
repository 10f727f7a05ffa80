-- ===== src/Server/Threads/Join.antt =====
-- That `stop` of udp_server.cpp gets past its join.
use kb_networking_cpp.Prelude.{
  ℕ, zero, suc, ◌≡◌, ◌≢◌, refl, true, false, List, [], ◌∷◌, Option, none, some, arith,
}
use kb_networking_cpp.Packet.Bytes.{Bytes}
use kb_networking_cpp.Steam.{Steam, Message, StatusChange, invalid_handle}
use kb_networking_cpp.Server.Object.{
  UdpServer, ClientInfo, Host, k_message_count, get_client_info, stop,
}
use kb_networking_cpp.Server.Threads.Groups.{Groups, Keeps, CallbacksKeep}
use kb_networking_cpp.Server.Threads.Live.{reachable-known}
use mathlib.Core.Path.{subst}
use kb_networking_cpp.Server.Threads.{
  Pc, ended, at_test, at_receive, at_callbacks, at_messages, at_call, at_release, at_changes,
  is_ended, joining, System, Reach, thread_step, with_callback, looked_up, changed, stop_begin,
  stop_rest,
}
use kb_networking_cpp.Server.Threads.Inv.{
  Inv, Held, thread_step-Held, thread_step-Inv, receive_step, call_step, reachable-Inv,
}

module _ (steam : Steam) {D : Type 0} (s : UdpServer steam D) (h : Host steam) where
  -- On one thread the two halves of `stop` are `stop`.
  pub stop_halves :
      s.is_running ≡ true
      → (let (s', h') = stop_begin steam s h in stop_rest steam s' h') ≡ stop steam s h
  unfolding stop stop_begin stop_rest
  stop_halves runs = ground arith

module _ (steam : Steam) {D : Type 0}
    (call : D → ClientInfo → Bytes → steam.World → steam.World) where
  open steam use {World}

  run_on :
      (Pc → UdpServer steam D → Host steam → Option (Pc × UdpServer steam D × Host steam))
      → Option (Pc × UdpServer steam D × Host steam)
      → Option (Pc × UdpServer steam D × Host steam)
  run_on run none = none
  run_on run (some (pc, s, h)) = run pc s h

  -- So many steps of the network thread alone.
  unfoldable pub thread_run :
      ℕ → Pc → UdpServer steam D → Host steam → Option (Pc × UdpServer steam D × Host steam)
  unfolding run_on
  thread_run zero pc s h = some (pc, s, h)
  thread_run (suc n) pc s h = run_on (thread_run n) (thread_step steam call pc s h)

  abbrev Ends : Pc → UdpServer steam D → Host steam → Type 0
  Ends pc s h =
      (n : ℕ) × (s' : UdpServer steam D) × (h' : Host steam) × (thread_run n pc s h
        ≡ some (ended, s', h'))

  abbrev Joining : Pc → UdpServer steam D → Host steam → Type 0
  Joining pc s h = Inv (record { server = s; host = h; pc = pc; owner = joining }) × Held pc s

  -- Behind one step of the thread, it ends if it ends from there.
  step-Ends :
      (pc pc' : Pc) (s s' : UdpServer steam D) (h h' : Host steam)
      → thread_step steam call pc s h ≡ some (pc', s', h')
      → (Joining pc' s' h' → Ends pc' s' h')
      → Joining pc s h
      → Ends pc s h
  unfolding thread_run
  step-Ends pc pc' s s' h h' e then v =
      let (n, s'', h'', r) = then (
        thread_step-Inv steam call pc pc' s s' h h' joining e v.0,
        thread_step-Held steam call pc pc' s s' h h' e,
      ) in
      (suc n, s'', h'', rw (e, thread_run) r)

  at_test-Ends : (s : UdpServer steam D) (h : Host steam) → Joining at_test s h → Ends at_test s h
  unfolding thread_run thread_step
  at_test-Ends s h v = (1, s, h, rw (v.0.stopping refl, thread_run) refl)

  at_changes-Ends :
      (changes : List StatusChange) (s : UdpServer steam D) (h : Host steam)
      → Joining (at_changes changes) s h
      → Ends (at_changes changes) s h
  unfolding thread_step
  at_changes-Ends [] s h = step-Ends (at_changes []) at_test s s h h refl (at_test-Ends s h)
  at_changes-Ends (change ∷ changes) s h =
      let (s', h') = changed steam call h.instance_ptr change s h in
      step-Ends (at_changes (change ∷ changes)) (at_changes changes) s s' h h' refl
        (at_changes-Ends changes s' h')

  at_callbacks-Ends :
      (s : UdpServer steam D) (h : Host steam) → Joining at_callbacks s h → Ends at_callbacks s h
  unfolding thread_step
  at_callbacks-Ends s h =
      step-Ends at_callbacks _ s s h _ refl (at_changes-Ends (steam.run_callbacks h.world).0 s _)

  module _ (message : Message) (rest : List Message) (s : UdpServer steam D)
      (after : (h : Host steam)
        → Joining (at_messages rest) s h
        → Ends (at_messages rest) s h) where
    at_release-Ends :
        (h : Host steam)
        → Joining (at_release message rest) s h
        → Ends (at_release message rest) s h
    unfolding thread_step
    at_release-Ends h =
        step-Ends (at_release message rest) (at_messages rest) s s h _ refl (after _)

    at_call-Ends :
        (h : Host steam) → Joining (at_call message rest) s h → Ends (at_call message rest) s h
    at_call-Ends h v =
        let (w, e) = call_step steam call message rest s h v.1 v.0.has_callback in
        step-Ends (at_call message rest) (at_release message rest) s s h _ e (at_release-Ends _) v

    -- A message is looked up, and is then at the callback or at the release.
    looked_up-Ends :
        (callback : Option D) (client : Option ClientInfo) (h : Host steam)
        → let pc = with_callback steam call callback client message rest in
          Joining pc s h → Ends pc s h
    unfolding with_callback looked_up
    looked_up-Ends none client h = at_release-Ends h
    looked_up-Ends (some callback) none h = at_release-Ends h
    looked_up-Ends (some callback) (some client) h = at_call-Ends h

  at_messages-Ends :
      (received : List Message) (s : UdpServer steam D) (h : Host steam)
      → Joining (at_messages received) s h
      → Ends (at_messages received) s h
  unfolding thread_step
  at_messages-Ends [] s h =
      step-Ends (at_messages []) at_callbacks s s h h refl (at_callbacks-Ends s h)
  at_messages-Ends (message ∷ rest) s h = step-Ends (at_messages (message ∷ rest)) _ s s h h refl (
      looked_up-Ends message rest s (at_messages-Ends rest s) s.data_received_callback
        (get_client_info steam message.conn s) h)

  at_receive-Ends :
      (s : UdpServer steam D) (h : Host steam)
      → (steam.receive_messages_on_poll_group s.poll_group k_message_count h.world).0
        ≢ invalid_handle
      → Joining at_receive s h
      → Ends at_receive s h
  at_receive-Ends s h known v =
      let (received, e) = receive_step steam call s h known in
      step-Ends at_receive (at_messages received) s s h _ e (at_messages-Ends received s _) v

  Joining-Ends :
      (pc : Pc) (s : UdpServer steam D) (h : Host steam)
      → (is_ended pc ≡ false
          → (steam.receive_messages_on_poll_group s.poll_group k_message_count h.world).0
            ≢ invalid_handle)
      → Joining pc s h
      → Ends pc s h
  unfolding thread_run
  Joining-Ends ended s h known v = (0, s, h, refl)
  Joining-Ends at_test s h known v = at_test-Ends s h v
  Joining-Ends at_receive s h known v = at_receive-Ends s h (known refl) v
  Joining-Ends at_callbacks s h known v = at_callbacks-Ends s h v
  Joining-Ends (at_messages received) s h known v = at_messages-Ends received s h v
  Joining-Ends (at_call message rest) s h known v =
      at_call-Ends message rest s (at_messages-Ends rest s) h v
  Joining-Ends (at_release message rest) s h known v =
      at_release-Ends message rest s (at_messages-Ends rest s) h v
  Joining-Ends (at_changes changes) s h known v = at_changes-Ends changes s h v

  -- Where a poll group that the library gave can be received on until it is destroyed, which no
  -- other call of it does and no callback of the application: from a server that does not run and
  -- has no thread, whenever the two threads come to a state where the owner is in `stop`, waiting
  -- in `join`, and the network thread holds no pointer to a client that is gone, finitely many
  -- steps of the network thread alone end it, so that the join returns.
  pub join_returns :
      {s : UdpServer steam D} {h : Host steam} {y : System steam D}
      → (groups : Groups steam)
      → ((callback : D) (client : ClientInfo) (payload : Bytes)
          → Keeps groups (call callback client payload))
      → CallbacksKeep groups s
      → s.is_running ≡ false
      → s.network_thread ≡ false
      → Reach steam call s h y
      → y.owner ≡ joining
      → Held y.pc y.server
      → (n : ℕ) × (s' : UdpServer steam D) × (h' : Host steam) × (thread_run n y.pc y.server y.host
          ≡ some (ended, s', h'))
  join_returns {y = y} groups calls_keep k idle unthreaded r waits held =
      let v : Inv y = reachable-Inv steam call idle unthreaded r in
      Joining-Ends y.pc y.server y.host
        (reachable-known steam groups call calls_keep idle unthreaded k r)
        (
          subst (λ o. Inv (record { server = y.server; host = y.host; pc = y.pc; owner = o })) waits
              v,
          held,
        )
