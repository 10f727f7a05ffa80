-- ===== src/Client/Threads/Inv.antt =====
-- The invariant of the two threads of udp_client.cpp.
use Prim.Native.String.{String}
use kb_networking_cpp.Prelude.{
  ℕ, ◌≡◌, ◌≢◌, refl, Bool, true, false, List, [], ◌∷◌, Option, none, some, arith,
}
use kb_networking_cpp.Packet.Header.{k_invalid_connection}
use kb_networking_cpp.Steam.{
  Steam, Message, StatusChange, ConnectionState, none_state, closed_by_peer,
  problem_detected_locally, other, Received, messages, invalid_handle,
}
use kb_networking_cpp.Client.Object.{
  UdpClient, ClientHost, k_default_poll_message_count, try_connect, connect,
  on_connection_status_changed, on_state,
}
use kb_networking_cpp.Client.Poll.{IncomingViewMessage}
use kb_networking_cpp.Client.Lifecycle.{IsValid, status-IsValid}
use kb_networking_cpp.Client.Threads.{
  Pc, ended, at_test, at_running, at_receive, at_callbacks, at_calls, at_releases, at_changes,
  is_ended, Owner, ready, joining, System, View, new_system, started_at, thread_step, loop_at,
  called, then_at, then_calls, stop_begin, stop_rest, Step, thread_moves, connects, sends,
  stops_idle, stop_begins, stop_ends, Reach, here, next,
}

-- What a status change leaves alone; it may end the run of the client, and starts none.
record SameBut {D : Type 0} (c c' : UdpClient D) : Type 0 where
  same_thread : c'.network_thread ≡ c.network_thread
  same_interface : c'.has_interface ≡ c.has_interface
  same_callback : c'.on_data_received ≡ c.on_data_received
  no_start : c'.running ≡ true → c.running ≡ true

module _ {D : Type 0} where
  -- In a poll, behind the test that the client runs, there is a connection.
  abbrev HasConn : Pc → UdpClient D → Type 0
  HasConn ended c = Unit {0}
  HasConn at_test c = Unit {0}
  HasConn (at_changes changes) c = Unit {0}
  HasConn pc c = c.conn ≢ k_invalid_connection

  -- Where the thread is about to call the data callback, there is one.
  abbrev HasCallback : Pc → UdpClient D → Type 0
  HasCallback (at_calls rest received) c = c.on_data_received ≢ none
  HasCallback pc c = Unit {0}

module _ {steam : Steam} {D X : Type 0} where
  pub record Inv (y : System steam D X) : Type 0 where
    pub valid : IsValid y.client
    pub joined : y.client.network_thread ≡ false → is_ended y.pc ≡ true
    pub served : y.client.running ≡ true → is_ended y.pc ≡ false
    pub stopping : y.owner ≡ joining → y.client.running ≡ false
    pub interface_live : is_ended y.pc ≡ false → y.client.has_interface ≡ true
    pub open_conn : HasConn y.pc y.client
    pub has_callback : HasCallback y.pc y.client

module _ (steam : Steam) {D : Type 0} where
  state-SameBut :
      (state : ConnectionState) (change : StatusChange) (c : UdpClient D) (w : steam.World)
      → SameBut c (on_state steam state change c w).0
  unfolding on_state
  state-SameBut none_state change c w = ground arith
  state-SameBut closed_by_peer change c w = ground arith
  state-SameBut problem_detected_locally change c w = ground arith
  state-SameBut ConnectionState.connecting change c w = ground arith
  state-SameBut ConnectionState.connected change c w = ground arith
  state-SameBut (other n) change c w = ground arith

  status-SameBut :
      (change : StatusChange) (c : UdpClient D) (w : steam.World)
      → SameBut c (on_connection_status_changed steam change c w).0
  unfolding on_connection_status_changed
  status-SameBut change c w = state-SameBut change.state change c w

  changed-IsValid :
      (change : StatusChange) (c : UdpClient D) (w : steam.World)
      → IsValid c
      → IsValid (on_connection_status_changed steam change c w).0
  unfolding on_connection_status_changed
  changed-IsValid change c w v = status-IsValid steam change.state change c w v

module _ (steam : Steam) {D X : Type 0}
    (call : D → IncomingViewMessage → X × steam.World → X × steam.World) where
  open steam use {World}

  pub thread_step-Inv :
      (pc pc' : Pc) (c c' : UdpClient D) (x x' : X) (h h' : ClientHost steam) (owner : Owner)
      → thread_step steam call pc c x h ≡ some (pc', c', x', h')
      → Inv (record { client = c; state = x; host = h; pc = pc; owner = owner })
      → Inv (record { client = c'; state = x'; host = h'; pc = pc'; owner = owner })
  unfolding thread_step
  thread_step-Inv ended pc' c c' x x' h h' owner e v = ground arith
  thread_step-Inv at_test pc' c c' x x' h h' owner e v = ground arith
  thread_step-Inv at_running pc' c c' x x' h h' owner e v = ground arith
  thread_step-Inv at_receive pc' c c' x x' h h' owner e v = ground arith
  thread_step-Inv (at_calls [] received) pc' c c' x x' h h' owner e v = ground arith
  thread_step-Inv (at_calls (message ∷ rest) received) pc' c c' x x' h h' owner e v = ground arith
  thread_step-Inv (at_releases []) pc' c c' x x' h h' owner e v = ground arith
  thread_step-Inv (at_releases (message ∷ rest)) pc' c c' x x' h h' owner e v = ground arith
  thread_step-Inv at_callbacks pc' c c' x x' h h' owner e v = ground arith
  thread_step-Inv (at_changes []) pc' c c' x x' h h' owner e v = ground arith
  thread_step-Inv (at_changes (change ∷ changes)) pc' c c' x x' h h' owner e v =
      ground (arith, status-SameBut steam change c h.world, changed-IsValid steam change c h.world)

  connect-Inv :
      (address : String) (port : ℕ) (y : System steam D X) (ok : Bool) (c : UdpClient D)
      (h : ClientHost steam)
      → y.owner ≡ ready
      → connect steam address port y.client y.host ≡ some (ok, c, h)
      → Inv y
      → Inv (record y { client = c; host = h; pc = started_at y.client.running y.pc })
  unfolding connect try_connect
  connect-Inv address port y ok c h r e v = ground arith

  pub Step-Inv : {y z : System steam D X} → Step steam call y z → Inv y → Inv z
  Step-Inv {y} (thread_moves pc c x h e) v =
      thread_step-Inv y.pc pc y.client c y.state x y.host h y.owner e v
  Step-Inv {y} (connects address port ok c h r e) v = connect-Inv address port y ok c h r e v
  Step-Inv (sends d n reliable r) v = ground arith
  Step-Inv (stops_idle r i) v = ground arith
  Step-Inv {y} (stop_begins r i) v = unfold stop_begin in ground arith
  Step-Inv {y} (stop_ends r i) v = unfold stop_rest in ground arith

  Reach-Inv :
      {c : UdpClient D} {x : X} {h : ClientHost steam} {y : System steam D X}
      → Reach steam call c x h y
      → Inv (new_system steam c x h)
      → Inv y
  Reach-Inv here v = v
  Reach-Inv (next r step) v = Step-Inv step (Reach-Inv r v)

  pub reachable-Inv :
      {c : UdpClient D} {x : X} {h : ClientHost steam} {y : System steam D X}
      → c.running ≡ false
      → c.network_thread ≡ false
      → Reach steam call c x h y
      → Inv y
  reachable-Inv {c} {x} {h} idle unthreaded r = Reach-Inv r (ground arith)

  received_total :
      (r : Received) → r ≢ invalid_handle → (received : List Message) × (r ≡ messages received)
  received_total (messages received) known = (received, refl)
  received_total invalid_handle known = absurd (known refl)

  called_total :
      (callback : Option D) (conn : ℕ) (message : Message) (e : X × World)
      → callback ≢ none
      → (r : X × World) × (called steam call callback conn message e ≡ some r)
  unfolding called
  called_total (some callback) conn message e set = (_, refl)
  called_total none conn message e set = absurd (set refl)

  -- A receipt behind which the thread stands at its loops.
  pub receive_step :
      (c : UdpClient D) (x : X) (h : ClientHost steam)
      → (steam.receive_messages_on_connection c.conn k_default_poll_message_count h.world).0
        ≢ invalid_handle
      → c.has_interface ≡ true
      → c.conn ≢ k_invalid_connection
      → let w =
          (steam.receive_messages_on_connection c.conn k_default_poll_message_count h.world).1 in
        (received : List Message) × (thread_step steam call at_receive c x h
          ≡ some (loop_at steam call c.on_data_received received, c, x, record h { world = w }))
  unfolding thread_step then_at
  receive_step c x h known set open_conn =
      let r = steam.receive_messages_on_connection c.conn k_default_poll_message_count h.world in
      let (received, e) = received_total r.0 known in (received, ground (arith, e))

  pub call_step :
      (message : Message) (rest received : List Message) (c : UdpClient D) (x : X)
      (h : ClientHost steam)
      → c.on_data_received ≢ none
      → (e : X × World) × (thread_step steam call (at_calls (message ∷ rest) received) c x h
          ≡ some (at_calls rest received, c, e.0, record h { world = e.1 }))
  unfolding thread_step
  call_step message rest received c x h set =
      let (e, called) = called_total c.on_data_received c.conn message (x, h.world) set in
      (e, rw (called, then_calls) refl)

  pub thread_step_total :
      (pc : Pc) (c : UdpClient D) (x : X) (h : ClientHost steam) (owner : Owner)
      → (c.conn ≢ k_invalid_connection
          → (steam.receive_messages_on_connection c.conn k_default_poll_message_count h.world).0
            ≢ invalid_handle)
      → Inv (record { client = c; state = x; host = h; pc = pc; owner = owner })
      → (r : View steam D X) × (thread_step steam call pc c x h ≡ some r)
  unfolding thread_step
  thread_step_total at_receive c x h owner known v =
      (_, (receive_step c x h (known v.open_conn) (v.interface_live refl) v.open_conn).1)
  thread_step_total (at_calls (message ∷ rest) received) c x h owner known v =
      (_, (call_step message rest received c x h v.has_callback).1)
  thread_step_total at_callbacks c x h owner known v =
      let (changes, w) = steam.run_callbacks h.world in
      ((at_changes changes, c, x, record h { world = w }), rw (v.interface_live refl) refl)
  thread_step_total ended c x h owner known v = (_, refl)
  thread_step_total at_test c x h owner known v = (_, refl)
  thread_step_total at_running c x h owner known v = (_, refl)
  thread_step_total (at_calls [] received) c x h owner known v = (_, refl)
  thread_step_total (at_releases []) c x h owner known v = (_, refl)
  thread_step_total (at_releases (message ∷ rest)) c x h owner known v = (_, refl)
  thread_step_total (at_changes []) c x h owner known v = (_, refl)
  thread_step_total (at_changes (change ∷ changes)) c x h owner known v = (_, refl)
