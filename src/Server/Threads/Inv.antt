-- ===== src/Server/Threads/Inv.antt =====
-- The invariant of the two threads of udp_server.cpp.
use kb_networking_cpp.Prelude.{
  ℕ, ◌≡◌, ◌≢◌, ◌⊎◌, inl, inr, refl, Bool, true, false, List, [], ◌∷◌, Option, none, some, arith,
  if◌then◌else◌, Option-cases,
}
use kb_networking_cpp.Prelude.Table.{find}
use kb_networking_cpp.Packet.Bytes.{Bytes}
use kb_networking_cpp.Steam.{Steam, Message, StatusChange, Received, messages, invalid_handle}
use kb_networking_cpp.Server.Object.{
  UdpServer, ClientInfo, get_client_info, Host, k_message_count, k_invalid_poll_group, start_manual,
  start_async, disconnect,
}
use kb_networking_cpp.Server.Status.{
  on_connection_status_changed, on_closed, on_connecting, status_cases,
}
use kb_networking_cpp.Server.Threads.{
  Pc, ended, at_test, at_receive, at_callbacks, at_messages, at_call, at_release, at_changes,
  is_ended, Owner, ready, joining, System, new_system, thread_step, received_at, with_callback,
  looked_up, called, then_at, then_release, stop_begin, stop_rest, Step, thread_moves, starts,
  sends, broadcasts, disconnects, stops_idle, stop_begins, stop_ends, Reach, here, next,
}

-- What a status change leaves alone.
pub record SameBut {steam : Steam} {D : Type 0} (s s' : UdpServer steam D) : Type 0 where
  pub same_running : s'.is_running ≡ s.is_running
  pub same_thread : s'.network_thread ≡ s.network_thread
  pub same_group : s'.poll_group ≡ s.poll_group
  pub same_callback : s'.data_received_callback ≡ s.data_received_callback

module _ {steam : Steam} {D : Type 0} where
  -- A pointer that the thread holds leads to a client.
  abbrev pub Held : Pc → UdpServer steam D → Type 0
  Held (at_call message rest) s = find message.conn s.clients ≢ none
  Held pc s = Unit {0}

  -- Where the thread is about to call the data callback, there is one.
  abbrev HasCallback : Pc → UdpServer steam D → Type 0
  HasCallback (at_call message rest) s = s.data_received_callback ≢ none
  HasCallback pc s = Unit {0}

  pub record Inv (y : System steam D) : Type 0 where
    pub joined : y.server.network_thread ≡ false → is_ended y.pc ≡ true
    pub live : is_ended y.pc ≡ false → (y.server.is_running ≡ true) ⊎ (y.owner ≡ joining)
    pub idle : y.owner ≡ ready → y.server.is_running ≡ false → y.server.network_thread ≡ false
    pub stopping : y.owner ≡ joining → y.server.is_running ≡ false
    pub group : is_ended y.pc ≡ false → y.server.poll_group ≢ k_invalid_poll_group
    pub has_callback : HasCallback y.pc y.server

module _ (steam : Steam) {D : Type 0} where
  pub status-SameBut :
      (change : StatusChange) (s : UdpServer steam D) (w : steam.World)
      → SameBut s (on_connection_status_changed steam change s w).0
  status-SameBut change s w =
      status_cases steam (λ r. SameBut s r.0) change s w (ground arith)
        (unfold on_closed in ground arith) (unfold on_connecting in ground arith)

module _ (steam : Steam) {D : Type 0}
    (call : D → ClientInfo → Bytes → steam.World → steam.World) where
  open steam use {World}

  pub thread_step-Inv :
      (pc pc' : Pc) (s s' : UdpServer steam D) (h h' : Host steam) (owner : Owner)
      → thread_step steam call pc s h ≡ some (pc', s', h')
      → Inv (record { server = s; host = h; pc = pc; owner = owner })
      → Inv (record { server = s'; host = h'; pc = pc'; owner = owner })
  unfolding thread_step
  thread_step-Inv ended pc' s s' h h' owner e v = ground arith
  thread_step-Inv at_test pc' s s' h h' owner e v = ground arith
  thread_step-Inv at_receive pc' s s' h h' owner e v = ground arith
  thread_step-Inv (at_messages []) pc' s s' h h' owner e v = ground arith
  thread_step-Inv (at_messages (message ∷ rest)) pc' s s' h h' owner e v = ground arith
  thread_step-Inv (at_call message rest) pc' s s' h h' owner e v = ground arith
  thread_step-Inv (at_release message rest) pc' s s' h h' owner e v = ground arith
  thread_step-Inv at_callbacks pc' s s' h h' owner e v = ground arith
  thread_step-Inv (at_changes []) pc' s s' h h' owner e v = ground arith
  thread_step-Inv (at_changes (change ∷ changes)) pc' s s' h h' owner e v =
      ground (arith, status-SameBut steam change s h.world)

  receive_total :
      (r : Received) (s : UdpServer steam D) (h : Host steam)
      → r ≢ invalid_handle
      → (received : List Message) × (then_at steam call (received_at steam call r) s h
          ≡ some (at_messages received, s, h))
  unfolding then_at received_at
  receive_total (messages received) s h known = (_, refl)
  receive_total invalid_handle s h known = absurd (known refl)

  call_total :
      (callback : Option D) (client : Option ClientInfo) (message : Message) (rest : List Message)
      (s : UdpServer steam D) (h : Host steam)
      → client ≢ none
      → callback ≢ none
      → (w : World) × (then_release steam call
            (called steam call callback client message h.world)
            message
            rest
            s
            h
          ≡ some (at_release message rest, s, record h { world = w }))
  unfolding then_release called
  call_total (some callback) (some client) message rest s h there set = (_, refl)
  call_total none client message rest s h there set = absurd (set refl)
  call_total (some callback) none message rest s h there set = absurd (there refl)

  pub receive_step :
      (s : UdpServer steam D) (h : Host steam)
      → (steam.receive_messages_on_poll_group s.poll_group k_message_count h.world).0
        ≢ invalid_handle
      → let w = (steam.receive_messages_on_poll_group s.poll_group k_message_count h.world).1 in
        (received : List Message) × (thread_step steam call at_receive s h
          ≡ some (at_messages received, s, record h { world = w }))
  unfolding thread_step
  receive_step s h known =
      receive_total (steam.receive_messages_on_poll_group s.poll_group k_message_count h.world).0 s
        _ known

  pub call_step :
      (message : Message) (rest : List Message) (s : UdpServer steam D) (h : Host steam)
      → Held (at_call message rest) s
      → s.data_received_callback ≢ none
      → (w : World) × (thread_step steam call (at_call message rest) s h
          ≡ some (at_release message rest, s, record h { world = w }))
  unfolding thread_step
  call_step message rest s h held set =
      call_total s.data_received_callback (find message.conn s.clients) message rest s h held set

  -- A pointer that the thread has just got leads to a client.
  pub thread_step-Held :
      (pc pc' : Pc) (s s' : UdpServer steam D) (h h' : Host steam)
      → thread_step steam call pc s h ≡ some (pc', s', h')
      → Held pc' s'
  unfolding thread_step with_callback looked_up get_client_info
  thread_step-Held ended pc' s s' h h' e = ground arith
  thread_step-Held at_test pc' s s' h h' e = ground arith
  thread_step-Held at_receive pc' s s' h h' e = ground arith
  thread_step-Held (at_messages []) pc' s s' h h' e = ground arith
  thread_step-Held (at_messages (message ∷ rest)) pc' s s' h h' e = ground arith
  thread_step-Held (at_call message rest) pc' s s' h h' e = ground arith
  thread_step-Held (at_release message rest) pc' s s' h h' e = ground arith
  thread_step-Held at_callbacks pc' s s' h h' e = ground arith
  thread_step-Held (at_changes []) pc' s s' h h' e = ground arith
  thread_step-Held (at_changes (change ∷ changes)) pc' s s' h h' e = ground arith

  -- The network thread faults only on a pointer whose client is gone.
  pub thread_step_total :
      (pc : Pc) (s : UdpServer steam D) (h : Host steam) (owner : Owner)
      → (is_ended pc ≡ false
          → (steam.receive_messages_on_poll_group s.poll_group k_message_count h.world).0
            ≢ invalid_handle)
      → Inv (record { server = s; host = h; pc = pc; owner = owner })
      → Held pc s
      → (r : Pc × UdpServer steam D × Host steam) × (thread_step steam call pc s h ≡ some r)
  unfolding thread_step
  thread_step_total at_receive s h owner known v held = (_, (receive_step s h (known refl)).1)
  thread_step_total (at_call message rest) s h owner known v held =
      (_, (call_step message rest s h held v.has_callback).1)
  thread_step_total ended s h owner known v held = (_, refl)
  thread_step_total at_test s h owner known v held = (_, refl)
  thread_step_total (at_messages []) s h owner known v held = (_, refl)
  thread_step_total (at_messages (message ∷ rest)) s h owner known v held = (_, refl)
  thread_step_total (at_release message rest) s h owner known v held = (_, refl)
  thread_step_total at_callbacks s h owner known v held = (_, refl)
  thread_step_total (at_changes []) s h owner known v held = (_, refl)
  thread_step_total (at_changes (change ∷ changes)) s h owner known v held = (_, refl)

  start_async-Inv :
      (port : ℕ) (y : System steam D) (ok : Bool) (s : UdpServer steam D) (h : Host steam)
      → y.owner ≡ ready
      → start_async steam port y.server y.host ≡ some (ok, s, h)
      → Inv y
      → Inv (record y { server = s; host = h; pc = if ok then at_test else y.pc })
  unfolding start_async start_manual
  start_async-Inv port y ok s h r e v = ground arith

  pub start_total :
      (port : ℕ) (s : UdpServer steam D) (h : Host steam)
      → (s.is_running ≡ false → s.network_thread ≡ false)
      → (r : Bool × UdpServer steam D × Host steam) × (start_async steam port s h ≡ some r)
  unfolding start_async start_manual
  start_total port s h idle = elim (Option-cases (start_async steam port s h)) [
    | inl e ↦ absurd (ground (arith, e))
    | inr r ↦ r
  ]

  pub Step-Inv : {y z : System steam D} → Step steam call y z → Inv y → Inv z
  Step-Inv {y} (thread_moves pc s h e) v = thread_step-Inv y.pc pc y.server s y.host h y.owner e v
  Step-Inv {y} (starts port ok s h r e) v = start_async-Inv port y ok s h r e v
  Step-Inv (sends conn d n reliable r) v = ground arith
  Step-Inv (broadcasts d n reliable r) v = ground arith
  Step-Inv {y} (disconnects conn reason r) v = unfold disconnect in ground arith
  Step-Inv (stops_idle r i) v = ground arith
  Step-Inv {y} (stop_begins r i) v = unfold stop_begin in ground arith
  Step-Inv {y} (stop_ends r i) v = unfold stop_rest in ground arith

  pub Reach-Inv :
      {s : UdpServer steam D} {h : Host steam} {y : System steam D}
      → Reach steam call s h y
      → Inv (new_system steam s h)
      → Inv y
  Reach-Inv here v = v
  Reach-Inv (next r step) v = Step-Inv step (Reach-Inv r v)

  pub reachable-Inv :
      {s : UdpServer steam D} {h : Host steam} {y : System steam D}
      → s.is_running ≡ false
      → s.network_thread ≡ false
      → Reach steam call s h y
      → Inv y
  reachable-Inv idle unthreaded r = Reach-Inv r (record {
    joined = λ e. refl;
    live = λ e. absurd (ground (arith, e));
    idle = λ e f. unthreaded;
    stopping = λ e. idle;
    group = λ e. absurd (ground (arith, e));
    has_callback = tt;
  })
