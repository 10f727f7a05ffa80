-- ===== src/Client/Process/Crosstalk.antt =====
-- Status changes of one client of udp_client.cpp that come to another.
use Prim.Native.String.{String}
use kb_networking_cpp.Prelude.{ℕ, ◌≡◌, ◌≢◌, ◌⊎◌, inl, inr, refl, ap, ◌∙◌, true, false, some, arith}
use kb_networking_cpp.Prelude.Table.{find, insert, find-insert, find-insert_self}
use kb_networking_cpp.Packet.Header.{k_invalid_connection}
use kb_networking_cpp.Steam.{Steam, StatusChange, closed_by_peer, problem_detected_locally}
use kb_networking_cpp.Client.Object.{
  UdpClient, ClientHost, connect, try_connect, on_connection_status_changed, on_state, on_closed,
}
use kb_networking_cpp.Client.Process.{
  Process, connect_at, connect_found, connected_to, notify, notify_instance,
  connection_status_changed_callback,
}

module _ (steam : Steam) {D : Type 0} where
  connect_claims :
      (address : String) (port : ℕ) (c c' : UdpClient D) (h h' : ClientHost steam)
      → c.running ≡ false
      → connect steam address port c h ≡ some (true, c', h')
      → (h'.instance_ptr ≡ some c.self) × (c'.has_interface ≡ true)
  unfolding connect try_connect
  connect_claims address port c c' h h' stopped e = ground arith

  closes :
      (change : StatusChange) (c : UdpClient D) (w : steam.World)
      → (change.state ≡ closed_by_peer) ⊎ (change.state ≡ problem_detected_locally)
      → let c' = (on_connection_status_changed steam change c w).0 in
        (c'.running ≡ false) × (c'.conn ≡ k_invalid_connection)
  unfolding on_connection_status_changed on_closed
  closes change c w (inl e) = rw (e, on_state) (refl, refl)
  closes change c w (inr e) = rw (e, on_state) (refl, refl)

  -- One client runs, and another one of the process, which is stopped, connects: from then on a
  -- status change that says that a connection was closed, even that of the first client, stops the
  -- second one and takes its connection, while the first stays as it is and keeps running.
  pub second_client_takes_events :
      (p q : ℕ) (a b b' : UdpClient D) (address : String) (port : ℕ) (process : Process steam D)
      (h' : ClientHost steam) (change : StatusChange)
      → p ≢ q
      → find p process.clients ≡ some a
      → find q process.clients ≡ some b
      → b.self ≡ q
      → b.running ≡ false
      → connect steam address port b process.host ≡ some (true, b', h')
      → (change.state ≡ closed_by_peer) ⊎ (change.state ≡ problem_detected_locally)
      → (after : Process steam D) × (last : Process steam D) × (b'' : UdpClient D) × (connect_at
            steam q address port process
          ≡ some (true, after))
        × (connection_status_changed_callback steam change after ≡ some last)
        × (find p last.clients ≡ some a)
        × (find q last.clients ≡ some b'')
        × (b''.running ≡ false)
        × (b''.conn ≡ k_invalid_connection)
  unfolding connect_at connection_status_changed_callback notify_instance notify
  second_client_takes_events p q a b b' address port process h' change apart at_p at_q own stopped
        done closed =
      let claimed = connect_claims address port b b' process.host h' stopped done in
      let after : Process steam D = record { host = h'; clients = insert q b' process.clients } in
      let moved = on_connection_status_changed steam change b' h'.world in
      let last : Process steam D = record {
        host = record h' { world = moved.1 };
        clients = insert q moved.0 (insert q b' process.clients);
      } in
      let pointed : h'.instance_ptr ≡ some q = claimed.0 ∙ ap some own in
      let closing = closes change b' h'.world closed in
      (
        after,
        last,
        moved.0,
        ap (λ o. connect_found steam o q address port process) at_q
            ∙ ap (λ r. connected_to steam q process r) done,
        ap (λ i. notify_instance steam i change after) pointed
            ∙ ap (λ o. notify steam q o change after) (find-insert_self q b' process.clients)
            ∙ ground (arith, claimed.1),
        ground (
          arith,
          find-insert q p moved.0 (insert q b' process.clients),
          find-insert q p b' process.clients,
        ),
        find-insert_self q moved.0 (insert q b' process.clients),
        closing.0,
        closing.1,
      )
