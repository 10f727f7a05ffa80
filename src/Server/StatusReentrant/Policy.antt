-- ===== src/Server/StatusReentrant/Policy.antt =====
-- A server whose callbacks turn clients away and forget those that are gone: the methods of udp_server.cpp
-- called from within its connection status handler.
use kb_networking_cpp.Prelude.{
  ℕ, ◌≡◌, refl, ap, ◌∙◌, Bool, true, false, List, [], ◌∷◌, Option, none, some, if◌then◌else◌, ◌==◌,
  is_some, arith, Bool-cases, inl, inr, ==_iff, sym,
}
use kb_networking_cpp.Prelude.Int.{ℤ}
use kb_networking_cpp.Prelude.Table.{find, insert, find-insert, find-erase}
use kb_networking_cpp.Steam.{
  Steam, StatusChange, ConnectionState, none_state, connecting, connected, closed_by_peer,
  problem_detected_locally, other,
}
use kb_networking_cpp.Server.Object.{UdpServer, ClientInfo, get_client_info, disconnect}
use kb_networking_cpp.Server.Status.{was_connected, entered_client}
use kb_networking_cpp.Server.Clients.{
  IsIndexed, is_admitted, entered, insert-IsIndexed, conn-entered, disconnect-IsIndexed,
}
use kb_networking_cpp.Server.ClientSet.{
  Event, admits, drops, keeps, after_event, after_events, after_events_agree, client_set,
}
use kb_networking_cpp.Server.StatusReentrant.{
  Callbacks, call_with, closed_reentrant, connecting_reentrant, state_reentrant, all_reentrant,
}

module _ (steam : Steam) {D : Type 0} (banned : ℕ → Bool) (reason : ℤ)
    (act : ClientInfo → steam.World → steam.World) where
  open steam use {World}

  -- The connected callback disconnects a client that is banned, and the disconnected callback the
  -- client that it is called for; both do something to the world first.
  abbrev pub policy : Callbacks steam D
  policy = record {
    connected_callback = λ client (s, w).
        if banned client.conn
        then disconnect steam client.conn reason s (act client w)
        else (s, act client w);
    disconnected_callback = λ client (s, w). disconnect steam client.conn reason s (act client w);
  }

  -- What a status change is to the set of the clients.
  abbrev pub policy_event : ConnectionState → StatusChange → UdpServer steam D → World → Event
  policy_event connecting change s w =
      if is_admitted steam s.poll_group change.conn w
      then if banned change.conn then drops change.conn else admits change.conn
      else keeps
  policy_event closed_by_peer change s w =
      if was_connected change.old_state then drops change.conn else keeps
  policy_event problem_detected_locally change s w =
      if was_connected change.old_state then drops change.conn else keeps
  policy_event state change s w = keeps

  abbrev pub policy_events : List StatusChange → UdpServer steam D → World → List Event
  policy_events [] s w = []
  policy_events (change ∷ changes) s w =
      let (s', w') = state_reentrant steam policy change.state change s w in
      policy_event change.state change s w ∷ policy_events changes s' w'

  -- What holds of the server between the status changes.
  pub record IsReady (s : UdpServer steam D) : Type 0 where
    pub indexed : IsIndexed s.clients
    pub connected_set : is_some s.client_connected_callback ≡ true
    pub disconnected_set : is_some s.client_disconnected_callback ≡ true

  -- A callback that disconnects the client at a key.
  called_drops :
      (set : Option (ClientInfo → World → World)) (found : Option ClientInfo) (conn : ℕ)
      (s : UdpServer steam D) (w : World) (j : ℕ)
      → is_some set ≡ true
      → find conn s.clients ≡ found
      → IsIndexed s.clients
      → client_set steam (call_with steam policy policy.disconnected_callback set found (s, w)).0 j
        ≡ after_event (drops conn) (client_set steam s) j
  unfolding disconnect
  called_drops none found conn s w j set e v = absurd (ground arith)
  called_drops (some callback) none conn s w j set e v = elim (Bool-cases (conn == j)) [
    | inl same ↦
        rw same (ap is_some (ap (λ k. find k s.clients) (sym ((==_iff conn j).0 same)) ∙ e))
    | inr different ↦ rw different refl
  ]
  called_drops (some callback) (some client) conn s w j set e v =
      ground (arith, v.own_handle conn client e, find-erase client.conn j s.clients)

  closed_policy :
      (change : StatusChange) (s : UdpServer steam D) (w : World) (j : ℕ)
      → IsReady s
      → client_set steam (closed_reentrant steam policy change s w).0 j
        ≡ after_event
            (if was_connected change.old_state then drops change.conn else keeps)
            (client_set steam s)
            j
  unfolding closed_reentrant get_client_info
  closed_policy change s w j v = elim (Bool-cases (was_connected change.old_state)) [
    | inl was ↦ rw was (
        called_drops s.client_disconnected_callback (find change.conn s.clients) change.conn s w j
          v.disconnected_set refl v.indexed)
    | inr not_yet ↦ rw not_yet refl
  ]

  -- A new client that is banned is gone again, and any other stays.
  called_admits :
      (set : Option (ClientInfo → World → World)) (client : ClientInfo) (s : UdpServer steam D)
      (w : World) (j : ℕ)
      → is_some set ≡ true
      → let added = record s { clients = insert client.conn client s.clients } in
        client_set steam
          (call_with steam policy policy.connected_callback set (some client) (added, w)).0
          j
        ≡ after_event
            (if banned client.conn then drops client.conn else admits client.conn)
            (client_set steam s)
            j
  unfolding disconnect
  called_admits none client s w j set = absurd (ground arith)
  called_admits (some callback) client s w j set = ground (
    arith,
    find-insert client.conn j client s.clients,
    find-erase client.conn j (insert client.conn client s.clients),
  )

  -- An attempt that the library does not admit leaves the server; any other enters the client and
  -- calls the callback for it.
  connecting_refused :
      (change : StatusChange) (s : UdpServer steam D) (w : World)
      → is_admitted steam s.poll_group change.conn w ≡ false
      → (connecting_reentrant steam policy change s w).0 ≡ s
  unfolding connecting_reentrant
  connecting_refused change s w refused = ground arith

  connecting_admitted :
      (change : StatusChange) (s : UdpServer steam D) (w : World)
      → is_admitted steam s.poll_group change.conn w ≡ true
      → let client = entered steam s w change.conn in
        (w' : World) × (connecting_reentrant steam policy change s w
          ≡ call_with steam policy policy.connected_callback s.client_connected_callback
              (some client)
              (record s { clients = insert change.conn client s.clients }, w'))
  unfolding connecting_reentrant entered
  connecting_admitted change s w admitted =
      let accepted = steam.accept_connection change.conn w in
      let grouped = steam.set_connection_poll_group change.conn s.poll_group accepted.1 in
      ((steam.get_connection_info change.conn grouped.1).1, ground arith)

  connecting_policy :
      (change : StatusChange) (s : UdpServer steam D) (w : World) (j : ℕ)
      → IsReady s
      → client_set steam (connecting_reentrant steam policy change s w).0 j
        ≡ after_event (policy_event connecting change s w) (client_set steam s) j
  unfolding entered entered_client
  connecting_policy change s w j v =
      elim (Bool-cases (is_admitted steam s.poll_group change.conn w)) [
        | inl admitted ↦
            let (w', called) = connecting_admitted change s w admitted in
            rw (admitted, called)
              (called_admits s.client_connected_callback (entered steam s w change.conn) s w' j
                v.connected_set)
        | inr refused ↦ rw (refused, connecting_refused change s w refused) refl
      ]

  -- The server stays ready.
  disconnect-IsReady :
      (conn : ℕ) (s : UdpServer steam D) (w : World)
      → IsReady s
      → IsReady (disconnect steam conn reason s w).0
  unfolding disconnect
  disconnect-IsReady conn s w v = record {
    indexed = disconnect-IsIndexed steam s w conn reason v.indexed;
    connected_set = v.connected_set;
    disconnected_set = v.disconnected_set;
  }

  dropped-IsReady :
      (set : Option (ClientInfo → World → World)) (found : Option ClientInfo)
      (s : UdpServer steam D) (w : World)
      → IsReady s
      → IsReady (call_with steam policy policy.disconnected_callback set found (s, w)).0
  dropped-IsReady none found s w v = v
  dropped-IsReady (some callback) none s w v = v
  dropped-IsReady (some callback) (some client) s w v =
      disconnect-IsReady client.conn s (act client w) v

  admitted-IsReady :
      (set : Option (ClientInfo → World → World)) (client : ClientInfo) (s : UdpServer steam D)
      (w : World)
      → IsReady s
      → IsReady (call_with steam policy policy.connected_callback set (some client) (s, w)).0
  admitted-IsReady none client s w v = v
  admitted-IsReady (some callback) client s w v = elim (Bool-cases (banned client.conn)) [
    | inl out ↦ rw out (disconnect-IsReady client.conn s (act client w) v)
    | inr stays ↦ rw stays v
  ]

  entered-IsReady :
      (conn : ℕ) (s : UdpServer steam D) (w : World)
      → IsReady s
      → IsReady (record s { clients = insert conn (entered steam s w conn) s.clients })
  entered-IsReady conn s w v = record {
    indexed =
        insert-IsIndexed steam s w conn (entered steam s w conn) (conn-entered steam s w conn)
          v.indexed;
    connected_set = v.connected_set;
    disconnected_set = v.disconnected_set;
  }

  closed-IsReady :
      (change : StatusChange) (s : UdpServer steam D) (w : World)
      → IsReady s
      → IsReady (closed_reentrant steam policy change s w).0
  unfolding closed_reentrant
  closed-IsReady change s w v = elim (Bool-cases (was_connected change.old_state)) [
    | inl was ↦ rw was (dropped-IsReady s.client_disconnected_callback _ s w v)
    | inr not_yet ↦ rw not_yet v
  ]

  connecting-IsReady :
      (change : StatusChange) (s : UdpServer steam D) (w : World)
      → IsReady s
      → IsReady (connecting_reentrant steam policy change s w).0
  connecting-IsReady change s w v =
      elim (Bool-cases (is_admitted steam s.poll_group change.conn w)) [
        | inl admitted ↦
            let (w', called) = connecting_admitted change s w admitted in
            rw called (
              admitted-IsReady s.client_connected_callback (entered steam s w change.conn) _ w'
                (entered-IsReady change.conn s w v))
        | inr refused ↦ rw (connecting_refused change s w refused) v
      ]

  -- One status change, to the set and to what holds of the server.
  state_policy :
      (state : ConnectionState) (change : StatusChange) (s : UdpServer steam D) (w : World)
      → IsReady s
      → ((j : ℕ)
          → client_set steam (state_reentrant steam policy state change s w).0 j
            ≡ after_event (policy_event state change s w) (client_set steam s) j)
        × IsReady (state_reentrant steam policy state change s w).0
  unfolding state_reentrant
  state_policy none_state change s w v = (λ j. refl, v)
  state_policy connected change s w v = (λ j. refl, v)
  state_policy (other n) change s w v = (λ j. refl, v)
  state_policy closed_by_peer change s w v =
      (λ j. closed_policy change s w j v, closed-IsReady change s w v)
  state_policy problem_detected_locally change s w v =
      (λ j. closed_policy change s w j v, closed-IsReady change s w v)
  state_policy connecting change s w v =
      (λ j. connecting_policy change s w j v, connecting-IsReady change s w v)

  -- A server with both callbacks set, of which the connected one disconnects the clients that are
  -- banned and the disconnected one the client that it is called for, after doing anything to the
  -- world: over every sequence of status changes, whatever the library answers, the set of the
  -- connections of its clients is the one that the changes leave, in their order. An attempt to
  -- connect that the library admits adds its connection, unless it is banned, which removes it;
  -- the closing or breaking down of a connection that was connected removes it; and everything
  -- else keeps the set.
  pub policy_refines :
      (changes : List StatusChange) (s : UdpServer steam D) (w : World) (j : ℕ)
      → IsReady s
      → client_set steam (all_reentrant steam policy changes s w).0 j
        ≡ after_events (policy_events changes s w) (client_set steam s) j
  unfolding all_reentrant
  policy_refines [] s w j v = refl
  policy_refines (change ∷ changes) s w j v =
      let (s', w') = state_reentrant steam policy change.state change s w in
      let (same, v') = state_policy change.state change s w v in
      policy_refines changes s' w' j v'
      ∙ after_events_agree (policy_events changes s' w') (client_set steam s')
          (after_event (policy_event change.state change s w) (client_set steam s)) j same
