-- ===== src/Client/Threads/Connections.antt =====
-- The connection that the network thread of udp_client.cpp receives on: that it is not closed while the
-- client has it.
use Prim.Native.String.{String}
use mathlib.Core.Path.{subst}
use kb_networking_cpp.Prelude.{
  ℕ, ◌≡◌, ◌≢◌, refl, sym, ◌∙◌, Bool, true, false, not, List, [], ◌∷◌, Option, none, some, arith,
  Bool-cases, inl, inr, ◌==◌, ◌||◌,
}
use kb_networking_cpp.Prelude.Int.{ℤ}
use kb_networking_cpp.Packet.Bytes.{Bytes, u32}
use kb_networking_cpp.Packet.Header.{k_invalid_connection}
use kb_networking_cpp.Steam.{
  Steam, Message, StatusChange, ConnectionState, none_state, closed_by_peer,
  problem_detected_locally, other, Received, messages, invalid_handle,
}
use kb_networking_cpp.Address.{is_valid_ip_address}
use kb_networking_cpp.Client.Object.{
  UdpClient, ClientHost, k_default_poll_message_count, parsed, try_connect, connect, send_raw,
  on_connection_status_changed, on_state,
}
use kb_networking_cpp.Client.Poll.{IncomingViewMessage, view}
use kb_networking_cpp.Client.Threads.{
  Pc, ended, at_test, at_running, at_receive, at_callbacks, at_calls, at_releases, at_changes,
  System, View, thread_step, received_at, called, changed, then_at, then_calls, stop_begin,
  stop_rest, Step, thread_moves, connects, sends, stops_idle, stop_begins, stop_ends, Reach, here,
  next,
}

-- What the library documents of connections: one that ConnectByIPAddress gave can be received on until it is
-- closed, and CloseConnection alone ends it, whatever the peer does.
pub record Connections (steam : Steam) : Type 1 where
  pub IsConnection : ℕ → steam.World → Type 0
  pub given :
      (addr : steam.Addr) (w : steam.World)
      → (steam.connect_by_ip_address addr w).0 ≢ k_invalid_connection
      → IsConnection (steam.connect_by_ip_address addr w).0 (steam.connect_by_ip_address addr w).1
  pub known :
      (conn : ℕ) (w : steam.World)
      → IsConnection conn w
      → (steam.receive_messages_on_connection conn k_default_poll_message_count w).0
        ≢ invalid_handle
  pub closed :
      (conn : ℕ) (reason : ℤ) (text : Option String) (linger : Bool) (w : steam.World)
      → ¬ IsConnection conn (steam.close_connection conn reason text linger w)
  pub behind_receive :
      (conn k n : ℕ) (w : steam.World)
      → IsConnection conn w
      → IsConnection conn (steam.receive_messages_on_connection k n w).1
  pub behind_release :
      (conn : ℕ) (m : Message) (w : steam.World)
      → IsConnection conn w
      → IsConnection conn (steam.release m w)
  pub behind_callbacks :
      (conn : ℕ) (w : steam.World)
      → IsConnection conn w
      → IsConnection conn (steam.run_callbacks w).1
  pub behind_send :
      (conn k : ℕ) (d : Bytes) (n flags : ℕ) (w : steam.World)
      → IsConnection conn w
      → IsConnection conn (steam.send_message_to_connection k d n flags w).1

module _ {steam : Steam} (connections : Connections steam) {X : Type 0} where
  -- The data callback closes no connection.
  abbrev pub Keeps : (X × steam.World → X × steam.World) → Type 0
  Keeps f =
      (conn : ℕ) (e : X × steam.World)
      → connections.IsConnection conn e.1
      → connections.IsConnection conn (f e).1

module _ {steam : Steam} (connections : Connections steam) {D : Type 0} where
  -- The connection that the client has is there.
  abbrev pub Open : UdpClient D → steam.World → Type 0
  Open c w = c.conn ≢ k_invalid_connection → connections.IsConnection c.conn w

module _ (steam : Steam) (connections : Connections steam) {D X : Type 0}
    (call : D → IncomingViewMessage → X × steam.World → X × steam.World)
    (calls_keep : (callback : D) (m : IncomingViewMessage)
      → Keeps connections (call callback m)) where
  open steam use {World}

  abbrev OpenView : View steam D X → Type 0
  OpenView (pc, c, x, h) = Open connections c h.world

  reached :
      (r r' : View steam D X)
      → ◌≡◌ {A = Option (View steam D X)} (some r) (some r')
      → OpenView r
      → OpenView r'
  reached r r' e v = let same : r ≡ r' = cc e in subst OpenView same v

  received-Open :
      (received : Received) (c : UdpClient D) (x : X) (h : ClientHost steam) (r : View steam D X)
      → then_at steam call (received_at steam call c.on_data_received received) c x h ≡ some r
      → Open connections c h.world
      → OpenView r
  unfolding then_at received_at
  received-Open invalid_handle c x h r e v = absurd (ground (arith, e))
  received-Open (messages received) c x h r e v = reached _ r e v

  called-Open :
      (callback : Option D) (message : Message) (rest received : List Message) (c : UdpClient D)
      (x : X) (h : ClientHost steam) (r : View steam D X)
      → then_calls steam call
          (called steam call callback c.conn message (x, h.world))
          rest
          received
          c
          h
        ≡ some r
      → Open connections c h.world
      → OpenView r
  unfolding then_calls called
  called-Open none message rest received c x h r e v = absurd (ground (arith, e))
  called-Open (some callback) message rest received c x h r e v =
      reached _ r e (λ o. calls_keep callback (view c.conn message) c.conn (x, h.world) (v o))

  state-Open :
      (state : ConnectionState) (change : StatusChange) (c : UdpClient D) (w : World)
      → Open connections c w
      → let (c', w') = on_state steam state change c w in Open connections c' w'
  unfolding on_state
  state-Open none_state change c w v = v
  state-Open closed_by_peer change c w v = λ o. absurd (o refl)
  state-Open problem_detected_locally change c w v = λ o. absurd (o refl)
  state-Open ConnectionState.connecting change c w v = v
  state-Open ConnectionState.connected change c w v = v
  state-Open (other n) change c w v = v

  changed-Open :
      (i : Option ℕ) (change : StatusChange) (c : UdpClient D) (h : ClientHost steam)
      → Open connections c h.world
      → let (c', h') = changed steam call i change c h in Open connections c' h'.world
  unfolding changed on_connection_status_changed
  changed-Open none change c h v = v
  changed-Open (some p) change c h v = state-Open change.state change c h.world v

  thread_step-Open :
      (pc : Pc) (c : UdpClient D) (x : X) (h : ClientHost steam) (r : View steam D X)
      → thread_step steam call pc c x h ≡ some r
      → Open connections c h.world
      → OpenView r
  unfolding thread_step
  thread_step-Open ended c x h r e v = reached _ r e v
  thread_step-Open at_test c x h r e v = reached _ r e v
  thread_step-Open at_running c x h r e v = reached _ r e v
  thread_step-Open at_receive c x h r e v =
      elim (Bool-cases (not c.has_interface || c.conn == k_invalid_connection)) [
        | inl skipped ↦
            let run : thread_step steam call at_receive c x h ≡ some (at_callbacks, c, x, h) =
              rw skipped refl in
            reached _ r (sym run ∙ e) v
        | inr open_conn ↦
            let got =
              steam.receive_messages_on_connection c.conn k_default_poll_message_count h.world in
            let run : thread_step steam call at_receive c x h
                ≡ then_at steam call (received_at steam call c.on_data_received got.0) c x
                    (record h { world = got.1 }) =
              rw open_conn refl in
            received-Open got.0 c x _ r (sym run ∙ e)
              (λ o. connections.behind_receive c.conn c.conn _ h.world (v o))
      ]
  thread_step-Open (at_calls [] received) c x h r e v = reached _ r e v
  thread_step-Open (at_calls (message ∷ rest) received) c x h r e v =
      called-Open c.on_data_received message rest received c x h r e v
  thread_step-Open (at_releases []) c x h r e v = reached _ r e v
  thread_step-Open (at_releases (message ∷ rest)) c x h r e v =
      reached _ r e (λ o. connections.behind_release c.conn message h.world (v o))
  thread_step-Open at_callbacks c x h r e v = elim (Bool-cases c.has_interface) [
    | inl set ↦
        let called = steam.run_callbacks h.world in
        let run : thread_step steam call at_callbacks c x h
            ≡ some (at_changes called.0, c, x, record h { world = called.1 }) =
          rw set refl in
        reached _ r (sym run ∙ e) (λ o. connections.behind_callbacks c.conn h.world (v o))
    | inr unset ↦
        let run : thread_step steam call at_callbacks c x h ≡ some (at_test, c, x, h) =
          rw unset refl in
        reached _ r (sym run ∙ e) v
  ]
  thread_step-Open (at_changes []) c x h r e v = reached _ r e v
  thread_step-Open (at_changes (change ∷ changes)) c x h r e v =
      reached _ r e (changed-Open h.instance_ptr change c h v)

  tried-Open :
      (address : String) (port : ℕ) (c : UdpClient D) (h : ClientHost steam)
      → Open connections c h.world
      → let (ok, c', h') = try_connect steam address port c h in Open connections c' h'.world
  unfolding try_connect
  tried-Open address port c h v =
      let text = steam.format_address address port in
      let addr = parsed steam (steam.parse_string text) in
      let made = steam.connect_by_ip_address addr h.world in
      elim (Bool-cases (not (is_valid_ip_address steam text))) [
        | inl bad ↦ rw bad v
        | inr good ↦ elim (Bool-cases (made.0 == k_invalid_connection)) [
          | inl refused ↦ rw (good, refused) (λ o. absurd (ground (arith, refused, o)))
          | inr kept ↦ rw (good, kept) (λ o. connections.given addr h.world o)
        ]
      ]

  connect-Open :
      (address : String) (port : ℕ) (c : UdpClient D) (h : ClientHost steam)
      (r : Bool × UdpClient D × ClientHost steam)
      → connect steam address port c h ≡ some r
      → Open connections c h.world
      → Open connections r.1 r.2.world
  unfolding connect
  connect-Open address port c h r e v =
      let tried = try_connect steam address port c h in
      elim (Bool-cases c.running) [
        | inl runs ↦
            let run : connect steam address port c h ≡ some (false, c, h) = rw runs refl in
            let same : (false, c, h) ≡ r = cc (sym run ∙ e) in
            subst (λ (q : Bool × UdpClient D × ClientHost steam). Open connections q.1 q.2.world)
              same v
        | inr idle ↦ elim (Bool-cases tried.1.network_thread) [
          | inl threaded ↦
              let run : connect steam address port c h ≡ none = simp (idle, threaded) in
              absurd (ground (arith, sym run ∙ e))
          | inr free ↦
              let run : connect steam address port c h
                  ≡ some (
                    tried.0,
                    record tried.1 { running = tried.0; network_thread = true },
                    tried.2,
                  ) =
                simp (idle, free) in
              let same : ◌≡◌ {A = Bool × UdpClient D × ClientHost steam}
                  (tried.0, record tried.1 { running = tried.0; network_thread = true }, tried.2)
                  r =
                cc (sym run ∙ e) in
              subst (λ (q : Bool × UdpClient D × ClientHost steam). Open connections q.1 q.2.world)
                same (tried-Open address port c h v)
        ]
      ]

  sent-Open :
      (d : Bytes) (n : ℕ) (reliable : Bool) (c : UdpClient D) (w : World)
      → Open connections c w
      → Open connections c (send_raw steam d n reliable c w).1
  unfolding send_raw
  sent-Open d n reliable c w v =
      elim (Bool-cases (not c.has_interface || c.conn == k_invalid_connection)) [
        | inl skipped ↦ rw skipped v
        | inr open_conn ↦
            rw open_conn (λ o. connections.behind_send c.conn c.conn d (u32 n) _ w (v o))
      ]

  stopped-Open :
      (c : UdpClient D) (h : ClientHost steam)
      → Open connections c h.world
      → let (c', h') = stop_rest steam c h in Open connections c' h'.world
  unfolding stop_rest
  stopped-Open c h v = elim (Bool-cases (c.conn == k_invalid_connection)) [
    | inl unset ↦ rw unset v
    | inr set ↦ rw set (λ o. absurd (o refl))
  ]

  Step-Open :
      {y z : System steam D X}
      → Step steam call y z
      → Open connections y.client y.host.world
      → Open connections z.client z.host.world
  Step-Open {y} (thread_moves pc c x h e) v =
      thread_step-Open y.pc y.client y.state y.host (pc, c, x, h) e v
  Step-Open {y} (connects address port ok c h r e) v =
      connect-Open address port y.client y.host (ok, c, h) e v
  Step-Open {y} (sends d n reliable r) v = sent-Open d n reliable y.client y.host.world v
  Step-Open (stops_idle r i) v = v
  Step-Open {y} (stop_begins r i) v = unfold stop_begin in v
  Step-Open {y} (stop_ends r i) v = stopped-Open y.client y.host v

  Reach-Open :
      {c : UdpClient D} {x : X} {h : ClientHost steam} {y : System steam D X}
      → c.conn ≡ k_invalid_connection
      → Reach steam call c x h y
      → Open connections y.client y.host.world
  Reach-Open unconnected here = λ o. absurd (o unconnected)
  Reach-Open unconnected (next r step) = Step-Open step (Reach-Open unconnected r)

  -- In every state that the two threads reach, a receipt on the client's connection gets no -1.
  pub reachable-known :
      {c : UdpClient D} {x : X} {h : ClientHost steam} {y : System steam D X}
      → c.conn ≡ k_invalid_connection
      → Reach steam call c x h y
      → y.client.conn ≢ k_invalid_connection
      → (steam.receive_messages_on_connection y.client.conn k_default_poll_message_count
          y.host.world).0
        ≢ invalid_handle
  reachable-known {y = y} unconnected r o =
      connections.known y.client.conn y.host.world (Reach-Open unconnected r o)
