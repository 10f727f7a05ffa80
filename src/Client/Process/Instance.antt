-- ===== src/Client/Process/Instance.antt =====
-- That a status change finds a live client: s_instance of udp_client.cpp over every history of the
-- clients of a process.
use Prim.Native.String.{String}
use mathlib.Core.Path.{subst}
use kb_networking_cpp.Prelude.{
  ℕ, ◌≡◌, inl, inr, refl, sym, ap, ◌∙◌, Bool, true, List, [], ◌∷◌, Option, none, some, arith,
  Option-cases,
}
use kb_networking_cpp.Prelude.Table.{find, insert}
use kb_networking_cpp.Steam.{Steam, StatusChange}
use kb_networking_cpp.Client.Object.{
  UdpClient, ClientHost, connect, destroy, on_connection_status_changed,
}
use kb_networking_cpp.Client.Process.{
  Process, connected_to, connect_found, stop_found, destroyed, destroy_found, create_client,
  connect_at, stop_at, destroy_at, notify, notify_instance, connection_status_changed_callback,
  dispatch_all,
}
use kb_networking_cpp.Client.Process.Inv.{
  Inv, update-Inv, connect-Moved, stop-Moved, status-Moved, create-Inv, destroy_clears, erase-Inv,
}

module _ (steam : Steam) {D : Type 0} where
  module _ (p : ℕ) (process process' : Process steam D) (v : Inv process) where
    connected-Inv :
        (address : String) (port : ℕ) (c : UdpClient D) (ok : Bool)
        (r : Option (Bool × UdpClient D × ClientHost steam))
        → find p process.clients ≡ some c
        → connect steam address port c process.host ≡ r
        → connected_to steam p process r ≡ some (ok, process')
        → Inv process'
    connected-Inv address port c ok none found done e = absurd (ground arith)
    connected-Inv address port c ok (some (res, c', h')) found done e = subst Inv (ground arith) (
        update-Inv process h' p c c' v found
          (connect-Moved steam address port c c' process.host h' res done))

    connect_at-Inv :
        (address : String) (port : ℕ) (ok : Bool) (o : Option (UdpClient D))
        → find p process.clients ≡ o
        → connect_found steam o p address port process ≡ some (ok, process')
        → Inv process'
    connect_at-Inv address port ok none found e = absurd (ground arith)
    connect_at-Inv address port ok (some c) found e =
        connected-Inv address port c ok (connect steam address port c process.host) found refl e

    stop_at-Inv :
        (o : Option (UdpClient D))
        → find p process.clients ≡ o
        → stop_found steam o p process ≡ some process'
        → Inv process'
    stop_at-Inv none found e = absurd (ground arith)
    stop_at-Inv (some c) found e =
        subst Inv (ground arith)
          (update-Inv process _ p c _ v found (stop-Moved steam c process.host))

    destroyed-Inv :
        (c : UdpClient D) (r : Option (ClientHost steam))
        → destroy steam c process.host ≡ r
        → destroyed steam p process r ≡ some process'
        → Inv process'
    destroyed-Inv c none done e = absurd (ground arith)
    destroyed-Inv c (some h') done e =
        subst Inv (ground arith)
          (erase-Inv steam p process h' (destroy_clears steam c process.host h' done) v)

    destroy_at-Inv :
        (o : Option (UdpClient D)) → destroy_found steam o p process ≡ some process' → Inv process'
    destroy_at-Inv none e = absurd (ground arith)
    destroy_at-Inv (some c) e = destroyed-Inv c (destroy steam c process.host) refl e

  -- A status change finds the instance, which has its interface.
  callback_total :
      (change : StatusChange) (process : Process steam D)
      → Inv process
      → (process' : Process steam D) × (connection_status_changed_callback steam change process
          ≡ some process')
        × Inv process'
  unfolding connection_status_changed_callback notify_instance notify on_connection_status_changed
  callback_total change process v = elim (Option-cases process.instance_ptr) [
    | inl e ↦ (process, ap (λ i. notify_instance steam i change process) e, v)
    | inr (p, e) ↦
        let (c, found, set) = v.live p e in
        let moved = on_connection_status_changed steam change c process.world in
        let h' = record process.host { world = moved.1 } in
        (
          record { host = h'; clients = insert p moved.0 process.clients },
          ap (λ i. notify_instance steam i change process) e
              ∙ ap (λ o. notify steam p o change process) found
              ∙ ground (arith, set),
          update-Inv process h' p c moved.0 v found
              (status-Moved steam change.state change c process.host),
        )
  ]

  pub dispatch_all_total :
      (changes : List StatusChange) (process : Process steam D)
      → Inv process
      → (process' : Process steam D) × (dispatch_all steam changes process ≡ some process')
        × Inv process'
  unfolding dispatch_all
  dispatch_all_total [] process v = (process, refl, v)
  dispatch_all_total (change ∷ changes) process v =
      let (process', e, v') = callback_total change process v in
      let (process'', e', v'') = dispatch_all_total changes process' v' in
      (process'', rw (e, dispatch_all) e', v'')

  -- A call of a method of some client that returns, or status changes that were dispatched, or the
  -- world moves on.
  pub data Step (process : Process steam D) : Process steam D → Type 0 where
    creates : (p : ℕ) → find p process.clients ≡ none → Step process (create_client steam p process)
    connects :
        (p : ℕ) (address : String) (port : ℕ) (ok : Bool) (process' : Process steam D)
        → connect_at steam p address port process ≡ some (ok, process')
        → Step process process'
    stops :
        (p : ℕ) (process' : Process steam D)
        → stop_at steam p process ≡ some process'
        → Step process process'
    destroys :
        (p : ℕ) (process' : Process steam D)
        → destroy_at steam p process ≡ some process'
        → Step process process'
    changes_status :
        (changes : List StatusChange) (process' : Process steam D)
        → dispatch_all steam changes process ≡ some process'
        → Step process process'
    elsewhere :
        (w : steam.World)
        → Step process (record process { host = record process.host { world = w } })

  -- From a process without clients.
  pub data Reach : Process steam D → Type 0 where
    begun :
        (w : steam.World)
        → Reach (record { host = record { world = w; instance_ptr = none }; clients = [] })
    next :
        {process process' : Process steam D}
        → Reach process
        → Step process process'
        → Reach process'

  dispatched-Inv :
      (changes : List StatusChange) (process process' : Process steam D)
      → dispatch_all steam changes process ≡ some process'
      → Inv process
      → Inv process'
  dispatched-Inv changes process process' e v =
      let (after, done, v') = dispatch_all_total changes process v in
      let same : some after ≡ some process' = sym done ∙ e in subst Inv (ground arith) v'

  Step-Inv :
      {process process' : Process steam D} → Step process process' → Inv process → Inv process'
  unfolding connect_at stop_at destroy_at
  Step-Inv {process} (creates p fresh) v = create-Inv steam p process fresh v
  Step-Inv {process} (connects p address port ok process' e) v =
      connect_at-Inv p process process' v address port ok (find p process.clients) refl e
  Step-Inv {process} (stops p process' e) v =
      stop_at-Inv p process process' v (find p process.clients) refl e
  Step-Inv {process} (destroys p process' e) v =
      destroy_at-Inv p process process' v (find p process.clients) e
  Step-Inv {process} (changes_status changes process' e) v =
      dispatched-Inv changes process process' e v
  Step-Inv (elsewhere w) v = record { own_address = v.own_address; live = v.live }

  Reach-Inv : {process : Process steam D} → Reach process → Inv process
  unfolding find
  Reach-Inv (begun w) = record { own_address = λ p c e. cc; live = λ p e. cc }
  Reach-Inv (next r step) = Step-Inv step (Reach-Inv r)

  -- However the clients of a process were created, connected, stopped and destroyed, and whatever
  -- status changes came, s_instance is null or a client that lives and has its interface, and the
  -- next status changes, however many, are dispatched without a fault.
  pub instance_is_live :
      {process : Process steam D}
      → Reach process
      → (changes : List StatusChange)
      → ((p : ℕ)
          → process.instance_ptr ≡ some p
          → (c : UdpClient D) × (find p process.clients ≡ some c) × (c.has_interface ≡ true))
        × ((process' : Process steam D) × (dispatch_all steam changes process ≡ some process'))
  instance_is_live {process} r changes =
      let v = Reach-Inv r in
      let (process', e, v') = dispatch_all_total changes process v in (v.live, (process', e))
