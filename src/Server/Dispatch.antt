-- ===== src/Server/Dispatch.antt =====
-- Status changes and polling of udp_server.cpp, against the invariant of the process.
use kb_networking_cpp.Prelude.{
  ℕ, ◌≡◌, inl, inr, refl, sym, ap, ◌∙◌, true, List, [], ◌∷◌, Option, none, some, arith,
  Option-cases, Bool, Bool-cases, ◌==◌, ==_iff,
}
use kb_networking_cpp.Prelude.Table.{Table, find, insert, find-insert}
use mathlib.Core.Path.{subst}
use kb_networking_cpp.Packet.Bytes.{Bytes}
use kb_networking_cpp.Steam.{Steam, StatusChange, Received, messages, invalid_handle}
use kb_networking_cpp.Server.Object.{UdpServer, ClientInfo, k_message_count}
use kb_networking_cpp.Server.Status.{
  on_connection_status_changed, on_closed, on_connecting, status_cases,
}
use kb_networking_cpp.Server.Process.{
  Process, connection_status_changed_callback, notify, notify_instance, poll_received, dispatch,
  deliver, poll,
}
use kb_networking_cpp.Server.Clients.{on_connection_status_changed-IsIndexed}
use kb_networking_cpp.Server.Invariant.{Inv, IsSound, kept, update-Inv}

-- Whether a server runs, and its port.
abbrev pub seen_server :
    {steam : Steam} {D : Type 0} → Option (UdpServer steam D) → Option (Bool × ℕ)
seen_server none = none
seen_server (some s) = some (s.is_running, s.port)

module _ (steam : Steam) {D : Type 0} where
  -- A status change leaves alone what is not the table of clients.
  record SameBut (s s' : UdpServer steam D) : Type 0 where
    same_self : s'.self ≡ s.self
    same_running : s'.is_running ≡ s.is_running
    same_port : s'.port ≡ s.port
    same_interface : s'.has_interface ≡ s.has_interface
    same_thread : s'.network_thread ≡ s.network_thread
    same_socket : s'.listen_socket ≡ s.listen_socket
    same_group : s'.poll_group ≡ s.poll_group

  status-SameBut :
      (change : StatusChange) (s : UdpServer steam D) (w : steam.World)
      → SameBut s (on_connection_status_changed steam change s w).0
  status-SameBut change s w =
      status_cases steam (λ r. SameBut s r.0) change s w (ground arith)
        (unfold on_closed in ground arith) (unfold on_connecting in ground arith)

  status-IsSound :
      (p : ℕ) (change : StatusChange) (s : UdpServer steam D) (w : steam.World)
      → IsSound p s
      → s.is_running ≡ true
      → IsSound p (on_connection_status_changed steam change s w).0
  status-IsSound p change s w v r =
      let same = status-SameBut change s w in
      record {
        valid = ground arith;
        indexed = on_connection_status_changed-IsIndexed steam s w change v.indexed;
        own_address = same.same_self ∙ v.own_address;
        interface_set = same.same_interface ∙ v.interface_set;
      }

  -- The same pointers lead to a server, which runs or not as before, on the same port.
  abbrev pub SameServers : Process steam D → Process steam D → Type 0
  SameServers process process' =
      (q : ℕ) → seen_server (find q process'.servers) ≡ seen_server (find q process.servers)

  updated_seen :
      (p q : ℕ) (s s' : UdpServer steam D) (servers : Table (UdpServer steam D))
      → find p servers ≡ some s
      → SameBut s s'
      → seen_server (find q (insert p s' servers)) ≡ seen_server (find q servers)
  updated_seen p q s s' servers found same = elim (Bool-cases (p == q)) [
    | inl here ↦
        let at_q : find q servers ≡ some s =
          ap (λ i. find i servers) (sym ((==_iff p q).0 here)) ∙ found in
        rw (find-insert p q s' servers, here, at_q, same.same_running, same.same_port) refl
    | inr different ↦ rw (find-insert p q s' servers, different) refl
  ]

  -- A status change finds its server, and keeps the servers sound and the instance.
  callback_total :
      (change : StatusChange) (process : Process steam D)
      → Inv process
      → (process' : Process steam D) × (connection_status_changed_callback steam change process
          ≡ some process')
        × Inv process'
        × SameServers process process'
  unfolding connection_status_changed_callback notify_instance notify
  callback_total change process v = elim (Option-cases process.instance_ptr) [
    | inl e ↦ (process, ap (λ i. notify_instance steam i change process) e, v, λ q. refl)
    | inr (p, e) ↦
        let (s, found, runs) = v.live p e in
        let moved = on_connection_status_changed steam change s process.world in
        (
          record {
            host = record process.host { world = moved.1 };
            servers = insert p moved.0 process.servers;
          },
          ap (λ i. notify_instance steam i change process) e
              ∙ ap (λ o. notify steam p o change process) found,
          update-Inv process _ p s moved.0 v found
              (status-IsSound p change s process.world (v.sound p s found) runs)
              (kept refl (status-SameBut change s process.world).same_running),
          λ q.
              updated_seen p q s moved.0 process.servers found
                (status-SameBut change s process.world),
        )
  ]

  dispatch_total :
      (changes : List StatusChange) (process : Process steam D)
      → Inv process
      → (process' : Process steam D) × (dispatch steam changes process ≡ some process')
        × Inv process'
        × SameServers process process'
  unfolding dispatch
  dispatch_total [] process v = (process, refl, v, λ q. refl)
  dispatch_total (change ∷ changes) process v =
      let (process', e, v', same) = callback_total change process v in
      let (process'', e', v'', same') = dispatch_total changes process' v' in
      (process'', rw (e, dispatch) e', v'', λ q. same' q ∙ same q)

  -- With no instance every status change is dropped.
  pub dispatch_dropped :
      (changes : List StatusChange) (process : Process steam D)
      → process.instance_ptr ≡ none
      → dispatch steam changes process ≡ some process
  unfolding dispatch connection_status_changed_callback notify_instance
  dispatch_dropped [] process e = refl
  dispatch_dropped (change ∷ changes) process e =
      let dropped : connection_status_changed_callback steam change process ≡ some process =
        ap (λ i. notify_instance steam i change process) e in
      rw (dropped, dispatch) (dispatch_dropped changes process e)

  Inv-world :
      (process : Process steam D) (w : steam.World)
      → Inv process
      → Inv (record process { host = record process.host { world = w } })
  Inv-world process w v = record { sound = v.sound; live = v.live }

  module _ (call : D → ClientInfo → Bytes → steam.World → steam.World) where
    received_sound :
        (s : UdpServer steam D) (received : Received × steam.World)
        → (process process' : Process steam D) → Inv process
        → poll_received steam call s received process ≡ some process'
        → Inv process' × SameServers process process'
    unfolding poll_received
    received_sound s (invalid_handle, w) process process' v e = cc
    received_sound s (messages received, w) process process' v e =
        let (changes, world') = steam.run_callbacks (deliver steam call received s w) in
        let polled : Process steam D = record process {
          host = record process.host { world = world' };
        } in
        let (after, e', v', same) = dispatch_total changes polled (Inv-world process world' v) in
        let reached : after ≡ process' = cc in
        subst (λ r. Inv r × SameServers process r) reached (v', same)

    -- A poll that does not fault keeps the servers of the process sound.
    pub poll_sound :
        (p : ℕ) (process process' : Process steam D)
        → Inv process
        → poll steam call p process ≡ some process'
        → Inv process' × SameServers process process'
    unfolding poll
    poll_sound p process process' v e = elim (Option-cases (find p process.servers)) [
      | inl missing ↦ cc
      | inr (s, found) ↦ elim (Bool-cases s.has_interface) [
        | inr unset ↦
            let run : poll steam call p process ≡ none = simp (found, unset) in
            absurd (ground (arith, sym run ∙ e))
        | inl set ↦
            let received =
              steam.receive_messages_on_poll_group s.poll_group k_message_count process.world in
            let run : poll steam call p process ≡ poll_received steam call s received process =
              simp (found, set) in
            received_sound s received process process' v (sym run ∙ e)
      ]
    ]
