-- ===== src/Server/Invariant.antt =====
-- What holds of the servers of a process between two calls.
use kb_networking_cpp.Prelude.{
  ℕ, ◌≡◌, inl, inr, ap, ◌∙◌, true, none, some, arith, ◌==◌, ==_iff, Bool-cases,
}
use kb_networking_cpp.Prelude.Table.{
  Table, find, insert, find-insert, find-insert_self, find_unique,
}
use mathlib.Core.Path.{subst}
use kb_networking_cpp.Steam.{Steam}
use kb_networking_cpp.Server.Object.{UdpServer, Host}
use kb_networking_cpp.Server.Process.{Process}
use kb_networking_cpp.Server.Lifecycle.{IsValid}
use kb_networking_cpp.Server.Clients.{IsIndexed}

module _ {steam : Steam} {D : Type 0} where
  pub record IsSound (p : ℕ) (s : UdpServer steam D) : Type 0 where
    pub valid : IsValid s
    pub indexed : IsIndexed s.clients
    pub own_address : s.self ≡ p
    pub interface_set : s.has_interface ≡ true

  -- Every server is valid, and the instance is one of them, and runs.
  pub record Inv (process : Process steam D) : Type 0 where
    pub sound : (p : ℕ) (s : UdpServer steam D) → find p process.servers ≡ some s → IsSound p s
    pub live :
        (p : ℕ)
        → process.instance_ptr ≡ some p
        → (s : UdpServer steam D) × (find p process.servers ≡ some s) × (s.is_running ≡ true)

  -- What a method may do to the instance.
  pub data InstanceMove (s s' : UdpServer steam D) (h h' : Host steam) : Type 0 where
    cleared : h'.instance_ptr ≡ none → InstanceMove s s' h h'
    claimed : h'.instance_ptr ≡ some s.self → s'.is_running ≡ true → InstanceMove s s' h h'
    kept : h'.instance_ptr ≡ h.instance_ptr → s'.is_running ≡ s.is_running → InstanceMove s s' h h'

  live_after :
      (process : Process steam D) (h' : Host steam) (p q : ℕ) (s s' : UdpServer steam D)
      → Inv process
      → find p process.servers ≡ some s
      → InstanceMove s s' process.host h'
      → h'.instance_ptr ≡ some q
      → (t : UdpServer steam D) × (find q (insert p s' process.servers) ≡ some t)
        × (t.is_running ≡ true)
  live_after process h' p q s s' v e (cleared c) i = cc
  live_after process h' p q s s' v e (claimed c r) i =
      (s', ground (arith, v.sound p s e, find-insert p q s' process.servers), r)
  live_after process h' p q s s' v e (kept c r) i =
      let (t, found, runs) = v.live q (ground arith) in
      elim (Bool-cases (p == q)) [
        | inl same ↦ (
          s',
          ground (arith, find-insert p q s' process.servers),
          r
              ∙ ap (λ (u : UdpServer steam D). u.is_running)
                  (find_unique p q s t process.servers same e found)
              ∙ runs,
        )
        | inr different ↦ (t, ground (arith, find-insert p q s' process.servers), runs)
      ]

  pub insert-IsSound :
      (p : ℕ) (s : UdpServer steam D) (servers : Table (UdpServer steam D))
      → ((q : ℕ) (t : UdpServer steam D) → find q servers ≡ some t → IsSound q t)
      → IsSound p s
      → (q : ℕ) (t : UdpServer steam D) → find q (insert p s servers) ≡ some t
      → IsSound q t
  insert-IsSound p s servers old new q t f = elim (Bool-cases (p == q)) [
    | inl same ↦
        subst (λ k. IsSound k t) ((==_iff p q).0 same)
          (subst (IsSound p)
            (find_unique p q s t (insert p s servers) same (find-insert_self p s servers) f) new)
    | inr different ↦ old q t (ground (arith, find-insert p q s servers))
  ]

  pub update-Inv :
      (process : Process steam D) (h' : Host steam) (p : ℕ) (s s' : UdpServer steam D)
      → Inv process
      → find p process.servers ≡ some s
      → IsSound p s'
      → InstanceMove s s' process.host h'
      → Inv (record { host = h'; servers = insert p s' process.servers })
  update-Inv process h' p s s' v e sound move = record {
    sound = insert-IsSound p s' process.servers v.sound sound;
    live = λ q i. live_after process h' p q s s' v e move i;
  }
