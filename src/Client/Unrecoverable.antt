-- ===== src/Client/Unrecoverable.antt =====
-- A UdpClient, udp_client.cpp, that does not run and whose thread was not joined.
use Prim.Native.String.{String}
use mathlib.Core.Path.{subst}
use kb_networking_cpp.Prelude.{
  ℕ, ◌≡◌, ◌⊎◌, inl, inr, refl, sym, ap, ◌∙◌, Bool, true, false, List, [], ◌∷◌, Option, none, some,
  arith, Option-cases,
}
use kb_networking_cpp.Packet.Bytes.{Bytes}
use kb_networking_cpp.Steam.{
  Steam, StatusChange, ConnectionState, none_state, closed_by_peer, problem_detected_locally, other,
}
use kb_networking_cpp.Client.Object.{
  UdpClient, ClientHost, connect, stop, destroy, send_raw, on_connection_status_changed, on_state,
  on_closed,
}
use kb_networking_cpp.Client.Lifecycle.{IsValid, connect_terminates, destroy_unjoined}

abbrev pub Unjoined : {D : Type 0} → UdpClient D → Type 0
Unjoined c = (c.running ≡ false) × (c.network_thread ≡ true)

-- What may be done with a client, and what may come to it.
pub data Op : Type 0 where
  stops : Op
  connects : String → ℕ → Op
  sends : Bytes → ℕ → Bool → Op
  status_changes : StatusChange → Op

module _ (steam : Steam) {D : Type 0} where
  abbrev connected :
      Option (Bool × UdpClient D × ClientHost steam) → Option (UdpClient D × ClientHost steam)
  connected none = none
  connected (some (ok, c, h)) = some (c, h)

  abbrev pub run_op : Op → UdpClient D → ClientHost steam → Option (UdpClient D × ClientHost steam)
  run_op stops c h = some (stop steam c h)
  run_op (connects address port) c h = connected (connect steam address port c h)
  run_op (sends d n reliable) c h =
      some (c, record h { world = (send_raw steam d n reliable c h.world).1 })
  run_op (status_changes change) c h =
      let (c', w) = on_connection_status_changed steam change c h.world in
      some (c', record h { world = w })

  abbrev next_op :
      (UdpClient D → ClientHost steam → Option (UdpClient D × ClientHost steam))
      → Option (UdpClient D × ClientHost steam)
      → Option (UdpClient D × ClientHost steam)
  next_op run none = none
  next_op run (some (c, h)) = run c h

  abbrev pub run_ops :
      List Op → UdpClient D → ClientHost steam → Option (UdpClient D × ClientHost steam)
  run_ops [] c h = some (c, h)
  run_ops (op ∷ ops) c h = next_op (run_ops ops) (run_op op c h)

  state-Unjoined :
      (state : ConnectionState) (change : StatusChange) (c : UdpClient D) (w : steam.World)
      → Unjoined c
      → Unjoined (on_state steam state change c w).0
  unfolding on_state on_closed
  state-Unjoined none_state change c w v = v
  state-Unjoined closed_by_peer change c w v = ground arith
  state-Unjoined problem_detected_locally change c w v = ground arith
  state-Unjoined ConnectionState.connecting change c w v = ground arith
  state-Unjoined ConnectionState.connected change c w v = ground arith
  state-Unjoined (other n) change c w v = v

  op-Unjoined :
      (op : Op) (c c' : UdpClient D) (h h' : ClientHost steam)
      → Unjoined c
      → run_op op c h ≡ some (c', h')
      → Unjoined c'
  unfolding stop on_connection_status_changed
  op-Unjoined stops c c' h h' v e = ground arith
  op-Unjoined (connects address port) c c' h h' v e =
      absurd (ground (arith, connect_terminates steam address port c h v.0 v.1))
  op-Unjoined (sends d n reliable) c c' h h' v e = ground arith
  op-Unjoined (status_changes change) c c' h h' v e =
      ground (arith, state-Unjoined change.state change c h.world v)

  ops-Unjoined :
      (ops : List Op) (c c' : UdpClient D) (h h' : ClientHost steam)
      → Unjoined c
      → run_ops ops c h ≡ some (c', h')
      → Unjoined c'
  ops-Unjoined [] c c' h h' v e = ground arith
  ops-Unjoined (op ∷ ops) c c' h h' v e = elim (Option-cases (run_op op c h)) [
    | inl fault ↦ absurd (ground (arith, fault))
    | inr ((c1, h1), ran) ↦
        ops-Unjoined ops c1 c' h1 h' (op-Unjoined op c c1 h h1 v ran)
          (sym (ap (next_op (run_ops ops)) ran) ∙ e)
  ]

  failed-Unjoined :
      (address : String) (port : ℕ) (c c' : UdpClient D) (h h' : ClientHost steam)
      → c.running ≡ false
      → connect steam address port c h ≡ some (false, c', h')
      → Unjoined c'
  unfolding connect
  failed-Unjoined address port c c' h h' stopped e = ground arith

  closed-Unjoined :
      (change : StatusChange) (c : UdpClient D) (w : steam.World)
      → (change.state ≡ closed_by_peer) ⊎ (change.state ≡ problem_detected_locally)
      → IsValid c
      → c.running ≡ true
      → Unjoined (on_connection_status_changed steam change c w).0
  unfolding on_connection_status_changed on_closed
  closed-Unjoined change c w (inl e) v r = rw (e, on_state) (refl, v.has_thread r)
  closed-Unjoined change c w (inr e) v r = rw (e, on_state) (refl, v.has_thread r)

  -- A stopped client whose connect failed without a fault, or a valid client that ran and whose
  -- connection was closed by the peer or broke down.
  pub data IsLeft (c : UdpClient D) : Type 0 where
    connect_failed :
        (address : String) (port : ℕ) (before : UdpClient D) (h h' : ClientHost steam)
        → before.running ≡ false
        → connect steam address port before h ≡ some (false, c, h')
        → IsLeft c
    connection_closed :
        (change : StatusChange) (before : UdpClient D) (w : steam.World)
        → (change.state ≡ closed_by_peer) ⊎ (change.state ≡ problem_detected_locally)
        → IsValid before
        → before.running ≡ true
        → (on_connection_status_changed steam change before w).0 ≡ c
        → IsLeft c

  IsLeft-Unjoined : (c : UdpClient D) → IsLeft c → Unjoined c
  IsLeft-Unjoined c (connect_failed address port before h h' stopped e) =
      failed-Unjoined address port before c h h' stopped e
  IsLeft-Unjoined c (connection_closed change before w closed v r e) =
      subst (λ b. Unjoined b) e (closed-Unjoined change before w closed v r)

  -- A stopped client whose connect failed without a fault, or a valid client that ran and whose
  -- connection was closed by the peer or broke down: whatever is done with it then and whatever
  -- status changes come to it, stops, connects and sends in any order, if all of it returns,
  -- destroying the client terminates the process.
  pub unjoined_terminates :
      (ops : List Op) (c c' : UdpClient D) (h h' : ClientHost steam)
      → IsLeft c
      → run_ops ops c h ≡ some (c', h')
      → destroy steam c' h' ≡ none
  unjoined_terminates ops c c' h h' left e =
      let v = ops-Unjoined ops c c' h h' (IsLeft-Unjoined c left) e in
      destroy_unjoined steam c' h' v.0 v.1
