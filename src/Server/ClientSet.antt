-- ===== src/Server/ClientSet.antt =====
-- The clients of a UdpServer as the set of connections that they stand for, which forgets the addresses
-- and the order of m_clients: what a user of udp_server.hpp is promised.
use kb_networking_cpp.Prelude.{
  ℕ, ◌≡◌, refl, ap, ◌∙◌, Bool, true, false, List, [], ◌∷◌, if◌then◌else◌, ◌==◌, is_some, arith,
  Bool-cases, inl, inr,
}
use kb_networking_cpp.Prelude.Int.{ℤ}
use kb_networking_cpp.Prelude.Table.{Table, find, keys, find-insert, find-erase}
use kb_networking_cpp.Prelude.Table.Sorted.{keys_unique}
use kb_networking_cpp.Packet.Bytes.{Bytes}
use kb_networking_cpp.Steam.{
  Steam, StatusChange, ConnectionState, none_state, connecting, connected, closed_by_peer,
  problem_detected_locally, other,
}
use kb_networking_cpp.Server.Object.{
  UdpServer, ClientInfo, Host, is_empty, start_manual, stop, broadcast, disconnect,
}
use kb_networking_cpp.Server.Status.{on_connection_status_changed, on_state, on_closed}
use kb_networking_cpp.Server.Clients.{IsIndexed, is_admitted, entered, clients-on_connecting}
use kb_networking_cpp.Server.Lifecycle.{start_manual_lem}

abbrev pub ClientSet : Type 0
ClientSet = ℕ → Bool

-- What a method or a status change is to the set.
pub data Event : Type 0 where
  admits drops : ℕ → Event
  clears keeps : Event

abbrev pub after_event : Event → ClientSet → ClientSet
after_event (admits conn) set j = if conn == j then true else set j
after_event (drops conn) set j = if conn == j then false else set j
after_event clears set j = false
after_event keeps set j = set j

abbrev pub after_events : List Event → ClientSet → ClientSet
after_events [] set = set
after_events (event ∷ events) set = after_events events (after_event event set)

event_agree :
    (event : Event) (f g : ClientSet)
    → ((i : ℕ) → f i ≡ g i)
    → (i : ℕ) → after_event event f i ≡ after_event event g i
event_agree (admits conn) f g same i = ground (arith, same i)
event_agree (drops conn) f g same i = ground (arith, same i)
event_agree clears f g same i = refl
event_agree keeps f g same i = same i

pub after_events_agree :
    (events : List Event) (f g : ClientSet) (j : ℕ)
    → ((i : ℕ) → f i ≡ g i)
    → after_events events f j ≡ after_events events g j
after_events_agree [] f g j same = same j
after_events_agree (event ∷ events) f g j same =
    after_events_agree events (after_event event f) (after_event event g) j
      (event_agree event f g same)

-- The methods that may be called, and the status changes that may come.
pub data Op : Type 0 where
  status_changes : StatusChange → Op
  starts : ℕ → Op
  stops : Op
  broadcasts : Bytes → ℕ → Bool → Op
  disconnects : ℕ → ℤ → Op

module _ (steam : Steam) {D : Type 0} where
  abbrev pub client_set : UdpServer steam D → ClientSet
  client_set s j = is_some (find j s.clients)

  abbrev pub run_op : Op → UdpServer steam D → Host steam → UdpServer steam D × Host steam
  run_op (status_changes change) s h =
      let (s', w) = on_connection_status_changed steam change s h.world in
      (s', record h { world = w })
  run_op (starts port) s h = let (ok, s', h') = start_manual steam port s h in (s', h')
  run_op stops s h = stop steam s h
  run_op (broadcasts d n reliable) s h =
      let (ok, w) = broadcast steam d n reliable s h.world in (s, record h { world = w })
  run_op (disconnects conn reason) s h =
      let (s', w) = disconnect steam conn reason s h.world in (s', record h { world = w })

  abbrev pub run_ops : List Op → UdpServer steam D → Host steam → UdpServer steam D × Host steam
  run_ops [] s h = (s, h)
  run_ops (op ∷ ops) s h = let (s', h') = run_op op s h in run_ops ops s' h'

  abbrev pub state_event : ConnectionState → ℕ → UdpServer steam D → steam.World → Event
  state_event connecting conn s w =
      if is_admitted steam s.poll_group conn w then admits conn else keeps
  state_event state conn s w = keeps

  -- What it is to the set: a connection is admitted where the library accepts an attempt to connect,
  -- and no other status change matters.
  abbrev pub event_of : Op → UdpServer steam D → Host steam → Event
  event_of (status_changes change) s h = state_event change.state change.conn s h.world
  event_of (starts port) s h = keeps
  event_of stops s h = if s.is_running then clears else keeps
  event_of (broadcasts d n reliable) s h = keeps
  event_of (disconnects conn reason) s h = drops conn

  abbrev pub events_of_ops : List Op → UdpServer steam D → Host steam → List Event
  events_of_ops [] s h = []
  events_of_ops (op ∷ ops) s h =
      let (s', h') = run_op op s h in event_of op s h ∷ events_of_ops ops s' h'

  state_refines :
      (state : ConnectionState) (change : StatusChange) (s : UdpServer steam D) (w : steam.World)
      (j : ℕ)
      → client_set (on_state steam state change s w).0 j
        ≡ after_event (state_event state change.conn s w) (client_set s) j
  unfolding on_state on_closed
  state_refines none_state change s w j = refl
  state_refines closed_by_peer change s w j = refl
  state_refines problem_detected_locally change s w j = refl
  state_refines connected change s w j = refl
  state_refines (other n) change s w j = refl
  state_refines connecting change s w j =
      rw (clients-on_connecting steam s w change.conn)
        (elim (Bool-cases (is_admitted steam s.poll_group change.conn w)) [
          | inl e ↦
              ground (arith, e, find-insert change.conn j (entered steam s w change.conn) s.clients)
          | inr e ↦ ground (arith, e)
        ])

  op_refines :
      (op : Op) (s : UdpServer steam D) (h : Host steam) (j : ℕ)
      → client_set (run_op op s h).0 j ≡ after_event (event_of op s h) (client_set s) j
  unfolding on_connection_status_changed stop disconnect
  op_refines (status_changes change) s h j = state_refines change.state change s h.world j
  op_refines (starts port) s h j = ap (λ m. is_some (find j m)) (start_manual_lem steam port s h).3
  op_refines stops s h j = unfold find in ground arith
  op_refines (broadcasts d n reliable) s h j = refl
  op_refines (disconnects conn reason) s h j = ground (arith, find-erase conn j s.clients)

  -- Over every history of starts, stops, broadcasts, disconnects and status changes, whatever the
  -- library answers, the set of the connections of a server's clients is the one that the events
  -- of the history leave, in their order: an attempt to connect that the library admits adds its
  -- connection, a disconnect removes one, the stop of a running server empties the set, and
  -- everything else keeps it.
  pub ops_refine :
      (ops : List Op) (s : UdpServer steam D) (h : Host steam) (j : ℕ)
      → client_set (run_ops ops s h).0 j ≡ after_events (events_of_ops ops s h) (client_set s) j
  ops_refine [] s h j = refl
  ops_refine (op ∷ ops) s h j =
      let (s', h') = run_op op s h in
      ops_refine ops s' h' j
      ∙ after_events_agree (events_of_ops ops s' h') (client_set s')
          (after_event (event_of op s h) (client_set s)) j (op_refines op s h)

no_keys : List ℕ → Bool
no_keys [] = true
no_keys (k ∷ ks) = false

is_empty-keys : (m : Table ClientInfo) → is_empty m ≡ no_keys (keys m)
unfolding is_empty no_keys
is_empty-keys [] = refl
is_empty-keys (c ∷ m) = refl

module _ (steam : Steam) {D : Type 0} (s s' : UdpServer steam D) (v : IsIndexed s.clients)
    (v' : IsIndexed s'.clients)
    (same : (j : ℕ) → client_set steam s j ≡ client_set steam s' j) where
  -- What `broadcast` sends, to whom, in which order and with which result depends on the set of
  -- the connections of the clients only: two servers with tables in order and the same set do the
  -- same.
  pub broadcast_by_set :
      (p_data : Bytes) (p_size : ℕ) (p_reliable : Bool) (w : steam.World)
      → broadcast steam p_data p_size p_reliable s w ≡ broadcast steam p_data p_size p_reliable s' w
  unfolding broadcast
  broadcast_by_set p_data p_size p_reliable w =
      rw
        (
          is_empty-keys s.clients,
          is_empty-keys s'.clients,
          keys_unique s.clients s'.clients v.sorted v'.sorted same,
        )
        refl
