-- ===== src/Client/Process/Inv.antt =====
-- What each method of udp_client.cpp does to s_instance and to the interface of its client.
use Prim.Native.String.{String}
use mathlib.Core.Path.{subst}
use kb_networking_cpp.Prelude.{
  ℕ, ◌≡◌, ◌⊎◌, inl, inr, sym, Bool, true, none, some, arith, ◌==◌, Bool-cases,
}
use kb_networking_cpp.Prelude.Table.{find, insert, erase, find-insert, find-erase, find_unique}
use kb_networking_cpp.Steam.{
  Steam, StatusChange, ConnectionState, none_state, closed_by_peer, problem_detected_locally, other,
}
use kb_networking_cpp.Client.Object.{
  UdpClient, ClientHost, new_client, connect, try_connect, stop, destroy, on_state, on_closed,
}
use kb_networking_cpp.Client.Process.{Process, create_client}

module _ {steam : Steam} {D : Type 0} where
  -- Every client has its own address, and the instance is a client with an interface.
  pub record Inv (process : Process steam D) : Type 0 where
    pub own_address : (p : ℕ) (c : UdpClient D) → find p process.clients ≡ some c → c.self ≡ p
    pub live :
        (p : ℕ)
        → process.instance_ptr ≡ some p
        → (c : UdpClient D) × (find p process.clients ≡ some c) × (c.has_interface ≡ true)

  -- What a method may do to the instance, and to the interface of its client.
  pub record Moved (c c' : UdpClient D) (h h' : ClientHost steam) : Type 0 where
    same_self : c'.self ≡ c.self
    keeps_interface : c.has_interface ≡ true → c'.has_interface ≡ true
    instance_moves :
        (h'.instance_ptr ≡ none)
        ⊎ ((h'.instance_ptr ≡ h.instance_ptr)
            ⊎ ((h'.instance_ptr ≡ some c.self) × (c'.has_interface ≡ true)))

  update-live :
      (process : Process steam D) (h' : ClientHost steam) (p q : ℕ) (c c' : UdpClient D)
      → Inv process
      → find p process.clients ≡ some c
      → Moved c c' process.host h'
      → h'.instance_ptr ≡ some q
      → (d : UdpClient D) × (find q (insert p c' process.clients) ≡ some d)
        × (d.has_interface ≡ true)
  update-live process h' p q c c' v found moved i = elim moved.instance_moves [
    | inl cleared ↦ absurd (ground arith)
    | inr (inl kept) ↦
        let (d, at_q, set) = v.live q (ground arith) in
        elim (Bool-cases (p == q)) [
          | inl same ↦ (
            c',
            ground (arith, find-insert p q c' process.clients),
            moved.keeps_interface (
                subst (λ (u : UdpClient D). u.has_interface ≡ true)
                  (sym (find_unique p q c d process.clients same found at_q)) set),
          )
          | inr different ↦ (d, ground (arith, find-insert p q c' process.clients), set)
        ]
    | inr (inr (claimed, set)) ↦
        (c', ground (arith, v.own_address p c found, find-insert p q c' process.clients), set)
  ]

  pub update-Inv :
      (process : Process steam D) (h' : ClientHost steam) (p : ℕ) (c c' : UdpClient D)
      → Inv process
      → find p process.clients ≡ some c
      → Moved c c' process.host h'
      → Inv (record { host = h'; clients = insert p c' process.clients })
  update-Inv process h' p c c' v found moved = record {
    own_address = λ q d e. ground (
      arith,
      find-insert p q c' process.clients,
      v.own_address p c found,
      v.own_address q d,
      moved.same_self,
    );
    live = λ q i. update-live process h' p q c c' v found moved i;
  }

module _ (steam : Steam) {D : Type 0} where
  pub connect-Moved :
      (address : String) (port : ℕ) (c c' : UdpClient D) (h h' : ClientHost steam) (ok : Bool)
      → connect steam address port c h ≡ some (ok, c', h')
      → Moved c c' h h'
  unfolding connect try_connect
  connect-Moved address port c c' h h' ok e = ground arith

  pub stop-Moved :
      (c : UdpClient D) (h : ClientHost steam) → Moved c (stop steam c h).0 h (stop steam c h).1
  unfolding stop
  stop-Moved c h = ground arith

  pub status-Moved :
      (state : ConnectionState) (change : StatusChange) (c : UdpClient D) (h : ClientHost steam)
      → let (c', w) = on_state steam state change c h.world in Moved c c' h (record h { world = w })
  unfolding on_state on_closed
  status-Moved none_state change c h = ground arith
  status-Moved closed_by_peer change c h = ground arith
  status-Moved problem_detected_locally change c h = ground arith
  status-Moved ConnectionState.connecting change c h = ground arith
  status-Moved ConnectionState.connected change c h = ground arith
  status-Moved (other n) change c h = ground arith

  pub create-Inv :
      (p : ℕ) (process : Process steam D)
      → find p process.clients ≡ none
      → Inv process
      → Inv (create_client steam p process)
  unfolding create_client
  create-Inv p process fresh v = record {
    own_address =
        λ q c e. ground (arith, find-insert p q (new_client p) process.clients, v.own_address q c);
    live = λ q i.
        let (c, found, set) = v.live q i in
        (c, ground (arith, find-insert p q (new_client p) process.clients), set);
  }

  pub destroy_clears :
      (c : UdpClient D) (h h' : ClientHost steam)
      → destroy steam c h ≡ some h'
      → h'.instance_ptr ≡ none
  unfolding destroy stop
  destroy_clears c h h' e = ground arith

  pub erase-Inv :
      (p : ℕ) (process : Process steam D) (h : ClientHost steam)
      → h.instance_ptr ≡ none
      → Inv process
      → Inv (record { host = h; clients = erase p process.clients })
  erase-Inv p process h cleared v = record {
    own_address = λ q c e. ground (arith, find-erase p q process.clients, v.own_address q c);
    live = λ q i. absurd (ground arith);
  }
