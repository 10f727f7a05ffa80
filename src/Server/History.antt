-- ===== src/Server/History.antt =====
-- The methods of udp_server.cpp called through a pointer, against the invariant of the process.
use kb_networking_cpp.Prelude.{
  ℕ, ◌≡◌, ◌||◌, refl, ap, ◌∙◌, Bool, true, false, [], none, some, arith, if◌then◌else◌, ◌==◌,
  Bool-cases, inl, inr, ==_iff,
}
use kb_networking_cpp.Prelude.Int.{ℤ}
use kb_networking_cpp.Prelude.Table.{find, insert, erase, find-insert, find-erase}
use kb_networking_cpp.Packet.Bytes.{Bytes}
use kb_networking_cpp.Steam.{Steam}
use kb_networking_cpp.Server.Object.{
  UdpServer, Host, new_server, start_manual, stop, send, disconnect,
}
use kb_networking_cpp.Server.Process.{Process}
use kb_networking_cpp.Server.Calls.{
  Method, call_method, apply_method, write_back, start_manual_method, start_async_method,
  stop_method, send_method, broadcast_method, disconnect_method, create_server, delete_server,
  release_server,
}
use kb_networking_cpp.Server.Lifecycle.{
  IsValid, start_manual-IsValid, start_async_total, stop-IsValid, start_manual_lem, stop_lem,
}
use kb_networking_cpp.Server.Clients.{IsIndexed, disconnect-IsIndexed}
use kb_networking_cpp.Server.Invariant.{
  Inv, IsSound, InstanceMove, cleared, claimed, kept, update-Inv, insert-IsSound,
}

module _ {steam : Steam} {D A : Type 0} where
  -- A method that does not fault on a sound server, and leaves it sound.
  pub record Keeps (method : Method steam D A) : Type 0 where
    pub at :
        (p : ℕ) (s : UdpServer steam D) (h : Host steam)
        → IsSound p s
        → (r : A × UdpServer steam D × Host steam) × (method s h ≡ some r)
          × IsSound p r.1
          × InstanceMove s r.1 h r.2

  pub call_method-Inv :
      (method : Method steam D A) (p : ℕ) (s : UdpServer steam D) (process : Process steam D)
      → Keeps method
      → Inv process
      → find p process.servers ≡ some s
      → (r : A × Process steam D) × (call_method method p process ≡ some r)
        × Inv r.1
        × (s' : UdpServer steam D) × (r.1.servers ≡ insert p s' process.servers)
  unfolding call_method apply_method write_back
  call_method-Inv method p s process keeps v e =
      let (r, e', sound, move) = keeps.at p s process.host (v.sound p s e) in
      (
        (r.0, record { host = r.2; servers = insert p r.1 process.servers }),
        ap (λ o. apply_method method p o process) e ∙ ap (λ o. write_back p o process) e',
        update-Inv process r.2 p s r.1 v e sound move,
        r.1,
        refl,
      )

empty-IsIndexed : IsIndexed []
unfolding find
empty-IsIndexed = record { sorted = tt; own_handle = λ k c e. cc }

module _ (steam : Steam) {D : Type 0} (s : UdpServer steam D) (h : Host steam) where
  self-start_manual : (port : ℕ) → (start_manual steam port s h).1.self ≡ s.self
  unfolding start_manual
  self-start_manual port = ground arith

  start_manual-InstanceMove :
      (port : ℕ) → let r = start_manual steam port s h in InstanceMove s r.1 h r.2
  start_manual-InstanceMove port =
      let facts = start_manual_lem steam port s h in
      elim (Bool-cases (start_manual steam port s h).0) [
        | inl ok ↦ claimed (facts.1 ok).2 (facts.1 ok).0
        | inr failed ↦ kept (facts.2 failed).2 (facts.2 failed).0
      ]

  self-stop : (stop steam s h).0.self ≡ s.self
  unfolding stop
  self-stop = ground arith

  clients-stop : (stop steam s h).0.clients ≡ (if s.is_running then [] else s.clients)
  unfolding stop
  clients-stop = ground arith

  instance_ptr-stop : (stop steam s h).1.instance_ptr ≡ none
  unfolding stop
  instance_ptr-stop = ground arith

  network_thread-stop : IsValid s → (stop steam s h).0.network_thread ≡ false
  network_thread-stop v = (stop_lem steam s h v).1

  stop-IsIndexed : IsIndexed s.clients → IsIndexed (stop steam s h).0.clients
  stop-IsIndexed v =
      rw clients-stop
        (elim (Bool-cases s.is_running) [ inl e ↦ rw e empty-IsIndexed | inr e ↦ rw e v ])

  module _ (p : ℕ) (v : IsSound p s) where
    start_manual-IsSound : (port : ℕ) → IsSound p (start_manual steam port s h).1
    start_manual-IsSound port = record {
      valid = start_manual-IsValid steam port s h v.valid;
      indexed = rw (start_manual_lem steam port s h).3 v.indexed;
      own_address = self-start_manual port ∙ v.own_address;
      interface_set = unfold start_manual in ground (arith, v.interface_set);
    }

    stop-IsSound : IsSound p (stop steam s h).0
    stop-IsSound = record {
      valid = stop-IsValid steam s h v.valid;
      indexed = stop-IsIndexed v.indexed;
      own_address = self-stop ∙ v.own_address;
      interface_set = unfold stop in ground (arith, v.interface_set);
    }

    disconnect-IsSound :
        (conn : ℕ) (reason : ℤ) → IsSound p (disconnect steam conn reason s h.world).0
    disconnect-IsSound conn reason = record {
      valid =
          unfold disconnect erase in
          ground
            (arith, λ (e : s.is_running ≡ false). ap (λ m. erase conn m) (v.valid.idle_empty e));
      indexed = disconnect-IsIndexed steam s h.world conn reason v.indexed;
      own_address = unfold disconnect in v.own_address;
      interface_set = unfold disconnect in v.interface_set;
    }

InstanceMove-thread :
    {steam : Steam} {D : Type 0} (s s' : UdpServer steam D) (h h' : Host steam) (b : Bool)
    → InstanceMove s s' h h'
    → InstanceMove s (record s' { network_thread = b }) h h'
InstanceMove-thread s s' h h' b (cleared e) = cleared e
InstanceMove-thread s s' h h' b (claimed e r) = claimed e r
InstanceMove-thread s s' h h' b (kept e r) = kept e r

or-true : (b : Bool) → (b || true) ≡ true
or-true true = refl
or-true false = refl

module _ (steam : Steam) {D : Type 0} where
  pub start_manual-Keeps : (port : ℕ) → Keeps (start_manual_method steam {D = D} port)
  start_manual-Keeps port = record {
    at = λ p s h v.
        let r = start_manual steam port s h in
        (
          r,
          simp (v.interface_set, or-true s.is_running),
          start_manual-IsSound steam s h p v port,
          start_manual-InstanceMove steam s h port,
        );
  }

  pub start_async-Keeps : (port : ℕ) → Keeps (start_async_method steam {D = D} port)
  start_async-Keeps port = record {
    at = λ p s h v.
        let r = start_manual steam port s h in
        let started = start_manual-IsSound steam s h p v port in
        let total = start_async_total steam port s h v.valid in
        let s' = record r.1 { network_thread = if r.0 then true else s.network_thread } in
        (
          (r.0, s', r.2),
          simp (v.interface_set, or-true s.is_running, total.0),
          record {
            valid = total.1;
            indexed = started.indexed;
            own_address = started.own_address;
            interface_set = started.interface_set;
          },
          InstanceMove-thread s r.1 h r.2 _ (start_manual-InstanceMove steam s h port),
        );
  }

  pub stop-Keeps : Keeps (stop_method steam {D = D})
  stop-Keeps = record {
    at = λ p s h v.
        let (s', h') = stop steam s h in
        ((tt, s', h'), refl, stop-IsSound steam s h p v, cleared (instance_ptr-stop steam s h));
  }

  pub send-Keeps :
      (conn : ℕ) (d : Bytes) (n : ℕ) (r : Bool) → Keeps (send_method steam {D = D} conn d n r)
  send-Keeps conn d n r = record {
    at = λ p s h v.
        let (ok, w) = send steam conn d n r h.world in
        ((ok, s, record h { world = w }), simp (v.interface_set), v, kept refl refl);
  }

  pub broadcast-Keeps :
      (d : Bytes) (n : ℕ) (r : Bool) → Keeps (broadcast_method steam {D = D} d n r)
  broadcast-Keeps d n r = record { at = λ p s h v. (_, refl, v, kept refl refl) }

  pub disconnect-Keeps :
      (conn : ℕ) (reason : ℤ) → Keeps (disconnect_method steam {D = D} conn reason)
  disconnect-Keeps conn reason = record {
    at = λ p s h v.
        let (s', w) = disconnect steam conn reason s h.world in
        (
          (tt, s', record h { world = w }),
          simp (v.interface_set),
          disconnect-IsSound steam s h p v conn reason,
          kept refl (unfold disconnect in refl),
        );
  }

  pub create_server-Inv :
      (p : ℕ) (process : Process steam D)
      → steam.is_started ≡ true
      → Inv process
      → find p process.servers ≡ none
      → Inv (create_server steam p process)
  unfolding create_server new_server
  create_server-Inv p process is_started v fresh = record {
    sound = insert-IsSound p (new_server steam p) process.servers v.sound (record {
      valid = ground arith;
      indexed = empty-IsIndexed;
      own_address = refl;
      interface_set = is_started;
    });
    live = λ q i.
        let (t, found, runs) = v.live q i in
        let other : (p == q) ≡ false = elim (Bool-cases (p == q)) [
          | inl same ↦ cc ((==_iff p q).0 same)
          | inr different ↦ different
        ] in
        (t, ground (arith, find-insert p q (new_server steam p) process.servers), runs);
  }

  pub delete_server-Inv :
      (p : ℕ) (s : UdpServer steam D) (process : Process steam D)
      → Inv process
      → find p process.servers ≡ some s
      → (process' : Process steam D) × (delete_server steam p process ≡ some process')
        × Inv process'
        × (process'.servers ≡ erase p process.servers)
  unfolding delete_server release_server
  delete_server-Inv p s process v e =
      let h = (stop steam s process.host).1 in
      (
        record { host = h; servers = erase p process.servers },
        rw (e, network_thread-stop steam s process.host (v.sound p s e).valid),
        record {
          sound = λ q t f. v.sound q t (ground (arith, find-erase p q process.servers));
          live = λ q i. cc (instance_ptr-stop steam s process.host);
        },
        refl,
      )
