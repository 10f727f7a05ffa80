-- ===== src/Server/Clients.antt =====
-- The table of clients under status changes.
use kb_networking_cpp.Prelude.{
  ℕ, ◌≡◌, ◌≢◌, ◌⊎◌, inl, inr, refl, Bool, true, false, ◌&&◌, some, arith, if◌then◌else◌, ◌==◌,
  ==_refl, Bool-cases,
}
use kb_networking_cpp.Prelude.Table.{Table, find, insert, find-insert, find-erase, IsSorted}
use kb_networking_cpp.Prelude.Table.Sorted.{insert-IsSorted, erase-IsSorted}
use kb_networking_cpp.Prelude.Int.{ℤ}
use kb_networking_cpp.Packet.Bytes.{Bytes}
use kb_networking_cpp.Steam.{
  Steam, StatusChange, connecting, closed_by_peer, problem_detected_locally,
}
use kb_networking_cpp.Server.Object.{UdpServer, ClientInfo, send, broadcast, disconnect}
use kb_networking_cpp.Server.Status.{
  on_connection_status_changed, on_connecting, on_closed, on_state, entered_client, status_cases,
}
use kb_networking_cpp.Server.Broadcast.{broadcast_refused}

-- Each client stands once, in the order of the handles, and under its own handle.
pub record IsIndexed (clients : Table ClientInfo) : Type 0 where
  pub sorted : IsSorted clients
  pub own_handle : (k : ℕ) (c : ClientInfo) → find k clients ≡ some c → c.conn ≡ k

-- The library accepted the connection and put it into the poll group.
abbrev pub is_admitted : (steam : Steam) → ℕ → ℕ → steam.World → Bool
is_admitted steam group conn w =
    let accepted = steam.accept_connection conn w in
    (accepted.0 == steam.result_ok) && (steam.set_connection_poll_group conn group accepted.1).0

module _ (steam : Steam) {D : Type 0} (s : UdpServer steam D) (w : steam.World) where
  -- What on_connecting enters for a connection.
  unfoldable pub entered : ℕ → ClientInfo
  entered conn =
      let accepted = steam.accept_connection conn w in
      let grouped = steam.set_connection_poll_group conn s.poll_group accepted.1 in
      entered_client steam conn (find conn s.clients) (steam.get_connection_info conn grouped.1).0

  pub conn-entered : (conn : ℕ) → (entered conn).conn ≡ conn
  unfolding entered entered_client
  conn-entered conn = refl

  pub clients-on_connecting :
      (conn : ℕ)
      → (on_connecting steam conn s w).0.clients ≡ (
          if is_admitted steam s.poll_group conn w
          then insert conn (entered conn) s.clients
          else s.clients)
  unfolding on_connecting entered
  clients-on_connecting conn = ground arith

  pub insert-IsIndexed :
      (k : ℕ) (c : ClientInfo) → c.conn ≡ k → IsIndexed s.clients → IsIndexed (insert k c s.clients)
  insert-IsIndexed k c e v = record {
    sorted = insert-IsSorted k c s.clients v.sorted;
    own_handle = λ j d f. ground (arith, find-insert k j c s.clients, v.own_handle j d);
  }

  on_connecting-IsIndexed :
      (conn : ℕ) → IsIndexed s.clients → IsIndexed (on_connecting steam conn s w).0.clients
  on_connecting-IsIndexed conn v =
      rw (clients-on_connecting conn) (elim (Bool-cases (is_admitted steam s.poll_group conn w)) [
        | inl e ↦ rw e (insert-IsIndexed conn (entered conn) (conn-entered conn) v)
        | inr e ↦ rw e v
      ])

  -- Every status change keeps the table of clients in order and each client under its own handle.
  pub on_connection_status_changed-IsIndexed :
      (change : StatusChange)
      → IsIndexed s.clients
      → IsIndexed (on_connection_status_changed steam change s w).0.clients
  on_connection_status_changed-IsIndexed change v =
      status_cases steam (λ r. IsIndexed r.0.clients) change s w v (unfold on_closed in v)
        (on_connecting-IsIndexed change.conn v)

  pub disconnect-IsIndexed :
      (conn : ℕ) (reason : ℤ)
      → IsIndexed s.clients
      → IsIndexed (disconnect steam conn reason s w).0.clients
  unfolding disconnect
  disconnect-IsIndexed conn reason v = record {
    sorted = erase-IsSorted conn s.clients v.sorted;
    own_handle = λ k c e. ground (arith, find-erase conn k s.clients, v.own_handle k c);
  }

  -- A connection attempt that the library admits makes its connection a client under its own
  -- handle and leaves the other clients as they are; one that is not admitted leaves the table as
  -- it is.
  pub connecting_lem :
      (change : StatusChange)
      → change.state ≡ connecting
      → let clients = (on_connection_status_changed steam change s w).0.clients in
        (is_admitted steam s.poll_group change.conn w ≡ true
          → ((c : ClientInfo) × (find change.conn clients ≡ some c) × (c.conn ≡ change.conn))
            × ((j : ℕ) → change.conn ≢ j → find j clients ≡ find j s.clients))
        × (is_admitted steam s.poll_group change.conn w ≡ false → clients ≡ s.clients)
  unfolding on_connection_status_changed
  connecting_lem change e =
      let conn = change.conn in
      rw (e, on_state, clients-on_connecting conn)
        (
          λ admitted. rw admitted (
            (entered conn, simp (find-insert, ==_refl), conn-entered conn),
            λ j h. ground (arith, find-insert conn j (entered conn) s.clients),
          ),
          λ refused. rw refused refl,
        )

  status-closed :
      (change : StatusChange)
      → (change.state ≡ closed_by_peer) ⊎ (change.state ≡ problem_detected_locally)
      → on_connection_status_changed steam change s w ≡ on_closed steam change s w
  unfolding on_connection_status_changed
  status-closed change (inl e) = rw (e, on_state)
  status-closed change (inr e) = rw (e, on_state)

  -- A client whose connection was closed by the peer, or broke down, stays in the table; if the
  -- library refuses to send to it from then on, every broadcast reports failure.
  pub closed_client_fails_broadcast :
      (change : StatusChange) (client : ClientInfo) (p_data : Bytes) (p_size : ℕ)
      (p_reliable : Bool)
      → (change.state ≡ closed_by_peer) ⊎ (change.state ≡ problem_detected_locally)
      → find change.conn s.clients ≡ some client
      → ((w' : steam.World) → (send steam change.conn p_data p_size p_reliable w').0 ≡ false)
      → let (s', w') = on_connection_status_changed steam change s w in
        (s' ≡ s) × ((broadcast steam p_data p_size p_reliable s' w').0 ≡ false)
  unfolding on_closed
  closed_client_fails_broadcast change client d n r e f refused = rw (status-closed change e) (
    refl,
    broadcast_refused steam d n r s (on_closed steam change s w).1 change.conn client refused f,
  )
