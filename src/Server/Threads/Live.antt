-- ===== src/Server/Threads/Live.antt =====
-- That the poll group of the network thread of udp_server.cpp is there while the thread lives.
use mathlib.Core.Path.{subst}
use kb_networking_cpp.Prelude.{
  ℕ, ◌≡◌, ◌≢◌, refl, sym, ◌∙◌, Bool, true, false, List, [], ◌∷◌, Option, none, some, arith,
  Bool-cases, inl, inr, if◌then◌else◌, ◌==◌,
}
use kb_networking_cpp.Packet.Bytes.{Bytes}
use kb_networking_cpp.Prelude.Table.{find}
use kb_networking_cpp.Steam.{Steam, Message, StatusChange, Received, messages, invalid_handle}
use kb_networking_cpp.Server.Object.{
  UdpServer, ClientInfo, Host, k_message_count, k_invalid_poll_group, k_invalid_listen_socket,
  start_manual, start_async, disconnect,
}
use kb_networking_cpp.Server.Status.{on_connection_status_changed}
use kb_networking_cpp.Server.Threads.{
  Pc, ended, at_test, at_receive, at_callbacks, at_messages, at_call, at_release, at_changes,
  is_ended, ready, System, thread_step, received_at, called, changed, then_at, then_release,
  stop_begin, stop_rest, Step, thread_moves, starts, sends, broadcasts, disconnects, stops_idle,
  stop_begins, stop_ends, Reach, here, next,
}
use kb_networking_cpp.Server.Threads.Inv.{Inv, reachable-Inv, SameBut, status-SameBut}
use kb_networking_cpp.Server.Threads.Groups.{
  Groups, Keeps, CallbacksKeep, status-IsGroup, status-CallbacksKeep, send-IsGroup,
  broadcast-IsGroup,
}

module _ (steam : Steam) (groups : Groups steam) {D : Type 0}
    (call : D → ClientInfo → Bytes → steam.World → steam.World)
    (calls_keep : (callback : D) (client : ClientInfo) (payload : Bytes)
      → Keeps groups (call callback client payload)) where
  open steam use {World}

  -- While the thread lives, its group is there; no callback destroys one.
  abbrev pub LiveGroup : Pc × UdpServer steam D × Host steam → Type 0
  LiveGroup (pc, s, h) =
      CallbacksKeep groups s × (is_ended pc ≡ false → groups.IsGroup s.poll_group h.world)

  reached :
      (r r' : Pc × UdpServer steam D × Host steam)
      → ◌≡◌ {A = Option (Pc × UdpServer steam D × Host steam)} (some r) (some r')
      → LiveGroup r
      → LiveGroup r'
  reached r r' e v = let same : r ≡ r' = cc e in subst LiveGroup same v

  received-LiveGroup :
      (received : Received) (s : UdpServer steam D) (h : Host steam)
      (r : Pc × UdpServer steam D × Host steam)
      → then_at steam call (received_at steam call received) s h ≡ some r
      → CallbacksKeep groups s
      → groups.IsGroup s.poll_group h.world
      → LiveGroup r
  unfolding then_at received_at
  received-LiveGroup invalid_handle s h r e k v = absurd (ground (arith, e))
  received-LiveGroup (messages received) s h r e k v = reached _ r e (k, λ live. v)

  called-LiveGroup :
      (callback : Option D) (client : Option ClientInfo) (message : Message) (rest : List Message)
      (s : UdpServer steam D) (h : Host steam) (r : Pc × UdpServer steam D × Host steam)
      → then_release steam call (called steam call callback client message h.world) message rest s h
        ≡ some r
      → CallbacksKeep groups s
      → groups.IsGroup s.poll_group h.world
      → LiveGroup r
  unfolding then_release called
  called-LiveGroup none client message rest s h r e k v = absurd (ground (arith, e))
  called-LiveGroup (some callback) none message rest s h r e k v = absurd (ground (arith, e))
  called-LiveGroup (some callback) (some client) message rest s h r e k v =
      reached _ r e (k, λ live. calls_keep callback client message.payload _ h.world v)

  changed-LiveGroup :
      (i : Option ℕ) (change : StatusChange) (changes : List StatusChange) (s : UdpServer steam D)
      (h : Host steam)
      → CallbacksKeep groups s
      → groups.IsGroup s.poll_group h.world
      → let (s', h') = changed steam call i change s h in LiveGroup (at_changes changes, s', h')
  unfolding changed
  changed-LiveGroup none change changes s h k v = (k, λ live. v)
  changed-LiveGroup (some p) change changes s h k v = (
    status-CallbacksKeep steam groups change s h.world k,
    λ live.
        subst (λ g. groups.IsGroup g (on_connection_status_changed steam change s h.world).1)
          (sym (SameBut.same_group (status-SameBut steam change s h.world)))
          (status-IsGroup steam groups s.poll_group change s h.world k v),
  )

  thread_step-LiveGroup :
      (pc : Pc) (s : UdpServer steam D) (h : Host steam) (r : Pc × UdpServer steam D × Host steam)
      → thread_step steam call pc s h ≡ some r
      → LiveGroup (pc, s, h)
      → LiveGroup r
  unfolding thread_step
  thread_step-LiveGroup ended s h r e (k, v) = reached _ r e (k, v)
  thread_step-LiveGroup at_test s h r e (k, v) = reached _ r e (k, λ live. v refl)
  thread_step-LiveGroup at_receive s h r e (k, v) =
      received-LiveGroup _ s _ r e k (groups.behind_receive _ _ h.world (v refl))
  thread_step-LiveGroup (at_messages []) s h r e (k, v) = reached _ r e (k, λ live. v refl)
  thread_step-LiveGroup (at_messages (message ∷ rest)) s h r e (k, v) =
      reached _ r e (k, λ live. v refl)
  thread_step-LiveGroup (at_call message rest) s h r e (k, v) =
      called-LiveGroup s.data_received_callback (find message.conn s.clients) message rest s h r e k
        (v refl)
  thread_step-LiveGroup (at_release message rest) s h r e (k, v) =
      reached _ r e (k, λ live. groups.behind_release _ message h.world (v refl))
  thread_step-LiveGroup at_callbacks s h r e (k, v) =
      reached _ r e (k, λ live. groups.behind_callbacks _ h.world (v refl))
  thread_step-LiveGroup (at_changes []) s h r e (k, v) = reached _ r e (k, λ live. v refl)
  thread_step-LiveGroup (at_changes (change ∷ changes)) s h r e (k, v) =
      reached _ r e (changed-LiveGroup h.instance_ptr change changes s h k (v refl))

  started :
      (pc : Pc) (r r' : Bool × UdpServer steam D × Host steam)
      → ◌≡◌ {A = Option (Bool × UdpServer steam D × Host steam)} (some r) (some r')
      → LiveGroup (if r.0 then at_test else pc, r.1, r.2)
      → LiveGroup (if r'.0 then at_test else pc, r'.1, r'.2)
  started pc r r' e v =
      let same : r ≡ r' = cc e in
      subst
        (λ (q : Bool × UdpServer steam D × Host steam).
          LiveGroup (if q.0 then at_test else pc, q.1, q.2))
        same v

  start_async-LiveGroup :
      (port : ℕ) (y : System steam D) (ok : Bool) (s : UdpServer steam D) (h : Host steam)
      → y.owner ≡ ready
      → start_async steam port y.server y.host ≡ some (ok, s, h)
      → Inv y
      → LiveGroup (y.pc, y.server, y.host)
      → LiveGroup (if ok then at_test else y.pc, s, h)
  unfolding start_async start_manual
  start_async-LiveGroup port y ok s h r e v (k, live) =
      let t = y.server in
      let socket = steam.create_listen_socket_ip (steam.any_addr port) y.host.world in
      let group = steam.create_poll_group socket.1 in
      elim (Bool-cases t.is_running) [
        | inl runs ↦
            let run : start_async steam port t y.host ≡ some (false, t, y.host) = rw runs refl in
            started y.pc _ _ (sym run ∙ e) (k, live)
        | inr idle ↦
            let over : is_ended y.pc ≡ true = v.joined (v.idle r idle) in
            let none_live : is_ended y.pc ≡ false → ⊥ = λ l. ground (arith, over, l) in
            elim (Bool-cases (socket.0 == k_invalid_listen_socket)) [
              | inl refused ↦
                  let run : start_async steam port t y.host
                      ≡ some (
                        false,
                        record t { listen_socket = socket.0; is_running = false },
                        record y.host { world = socket.1 },
                      ) =
                    rw (idle, refused) refl in
                  started y.pc _ _ (sym run ∙ e) (
                    record { connected = k.connected; disconnected = k.disconnected },
                    λ l. absurd (none_live l),
                  )
              | inr listening ↦ elim (Bool-cases (group.0 == k_invalid_poll_group)) [
                | inl ungrouped ↦
                    let run : start_async steam port t y.host
                        ≡ some (
                          false,
                          record t {
                            listen_socket = socket.0;
                            poll_group = group.0;
                            is_running = false;
                          },
                          record y.host { world = group.1 },
                        ) =
                      rw (idle, listening, ungrouped) refl in
                    started y.pc _ _ (sym run ∙ e) (
                      record { connected = k.connected; disconnected = k.disconnected },
                      λ l. absurd (none_live l),
                    )
                | inr grouped ↦
                    let run : start_async steam port t y.host
                        ≡ some (
                          true,
                          record t {
                            listen_socket = socket.0;
                            poll_group = group.0;
                            port = port;
                            is_running = true;
                            network_thread = true;
                          },
                          record { world = group.1; instance_ptr = some t.self },
                        ) =
                      rw (idle, listening, grouped, v.idle r idle) refl in
                    let given : group.0 ≢ k_invalid_poll_group = ground (arith, grouped) in
                    started y.pc _ _ (sym run ∙ e) (
                      record { connected = k.connected; disconnected = k.disconnected },
                      λ l. groups.created socket.1 given,
                    )
              ]
            ]
      ]

  Step-LiveGroup :
      {y z : System steam D}
      → Step steam call y z
      → Inv y
      → LiveGroup (y.pc, y.server, y.host)
      → LiveGroup (z.pc, z.server, z.host)
  Step-LiveGroup {y} (thread_moves pc s h e) v live =
      thread_step-LiveGroup y.pc y.server y.host (pc, s, h) e live
  Step-LiveGroup {y} (starts port ok s h r e) v live =
      start_async-LiveGroup port y ok s h r e v live
  Step-LiveGroup {y} (sends conn d n reliable r) v (k, live) =
      (k, λ l. send-IsGroup steam groups _ conn d n reliable y.host.world (live l))
  Step-LiveGroup {y} (broadcasts d n reliable r) v (k, live) =
      (k, λ l. broadcast-IsGroup steam groups _ d n reliable y.server y.host.world (live l))
  Step-LiveGroup {y} (disconnects conn reason r) v (k, live) =
      unfold disconnect in
      (
        record { connected = k.connected; disconnected = k.disconnected },
        λ l. groups.behind_close _ conn reason (some "Disconnected") false y.host.world (live l),
      )
  Step-LiveGroup (stops_idle r i) v live = live
  Step-LiveGroup {y} (stop_begins r i) v (k, live) =
      unfold stop_begin in (record { connected = k.connected; disconnected = k.disconnected }, live)
  Step-LiveGroup {y} (stop_ends r i) v (k, live) =
      unfold stop_rest in
      (
        record { connected = k.connected; disconnected = k.disconnected },
        λ l. absurd (ground (arith, i, l)),
      )

  Reach-LiveGroup :
      {s : UdpServer steam D} {h : Host steam} {y : System steam D}
      → s.is_running ≡ false
      → s.network_thread ≡ false
      → CallbacksKeep groups s
      → Reach steam call s h y
      → LiveGroup (y.pc, y.server, y.host)
  Reach-LiveGroup idle unthreaded k here = (k, λ l. absurd (ground (arith, l)))
  Reach-LiveGroup idle unthreaded k (next r step) =
      Step-LiveGroup step (reachable-Inv steam call idle unthreaded r)
        (Reach-LiveGroup idle unthreaded k r)

  -- In every state that the two threads reach, the network thread's receipt gets no -1.
  pub reachable-known :
      {s : UdpServer steam D} {h : Host steam} {y : System steam D}
      → s.is_running ≡ false
      → s.network_thread ≡ false
      → CallbacksKeep groups s
      → Reach steam call s h y
      → is_ended y.pc ≡ false
      → (steam.receive_messages_on_poll_group y.server.poll_group k_message_count y.host.world).0
        ≢ invalid_handle
  reachable-known {y = y} idle unthreaded k r l =
      groups.known y.server.poll_group y.host.world ((Reach-LiveGroup idle unthreaded k r).1 l)
