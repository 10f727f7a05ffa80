-- ===== src/Api/Contract/Methods.antt =====
-- The calls of kb_server.cpp that call one method, against their contract.
use mathlib.Core.Path.{subst}
use kb_networking_cpp.Prelude.{
  ℕ, ◌≡◌, refl, sym, ap, ◌∙◌, Bool, true, false, Option, none, some, ◌==◌, ==_iff, arith,
  Bool-cases, inl, inr,
}
use kb_networking_cpp.Prelude.Table.{find}
use kb_networking_cpp.Prelude.Int.{ℤ}
use kb_networking_cpp.Packet.Bytes.{Bytes}
use kb_networking_cpp.Steam.{Steam}
use kb_networking_cpp.Server.Object.{start_manual, stop, disconnect}
use kb_networking_cpp.Server.Calls.{
  Method, start_manual_method, stop_method, send_method, broadcast_method, disconnect_method,
}
use kb_networking_cpp.Api.Exec.{then_with}
use kb_networking_cpp.Api.Calls.{Api, KbServer, load, call_impl, query_method}
use kb_networking_cpp.Api.Total.{ApiInv, with_load}
use kb_networking_cpp.Api.Histories.{
  Call, stops, asks_running, asks_port, starts_manual, sends, broadcasts, disconnects,
}
use kb_networking_cpp.Api.Contract.{
  Reply, nothing, boolean, number, after_call, Says, seen, replied,
}
use kb_networking_cpp.Api.Contract.Seen.{Called, call_impl-Called}

module _ {steam : Steam} {D : Type 0} where
  -- What a call does to the contract, and what its reply says.
  abbrev pub Meets : Call → Reply → Api steam D → Api steam D → Type 0
  Meets call reply api api' =
      ((q : ℕ) → seen api' q ≡ after_call call reply (seen api) q) × Says call reply (seen api)

  module _ (p : ℕ) (k : KbServer) (api : Api steam D) (v : ApiInv api)
      (e : find p api.handles ≡ some k) where
    -- What a method called through the handle meets, its call meets.
    pub call-Meets :
        {A : Type 0} (call : Call) (method : Method steam D A) (f : A → Reply) (reply : Reply)
        (api' : Api steam D) (r : Option (A × Api steam D))
        → ((a : A) (after : Api steam D)
            → Called p k api v e method a after
            → Meets call (f a) api after)
        → call_impl steam method k.impl api ≡ r
        → replied f r ≡ some (reply, api')
        → Meets call reply api api'
    call-Meets call method f reply api' none meets c ended = absurd (ground (arith, ended))
    call-Meets {A} call method f reply api' (some (a, after)) meets c ended =
        let same : ◌≡◌ {A = Reply × Api steam D} (f a, after) (reply, api') = cc in
        subst (λ r. Meets call r.0 api r.1) same
          (meets a after (call_impl-Called p k api v e method a after c))

    -- So does a call that loads the handle first.
    pub through_handle :
        {A : Type 0} (call : Call) (method : Method steam D A) (f : A → Reply) (reply : Reply)
        (api' : Api steam D)
        → ((a : A) (after : Api steam D)
            → Called p k api v e method a after
            → Meets call (f a) api after)
        → replied f (then_with (load steam p api) (λ j. call_impl steam method j.impl))
          ≡ some (reply, api')
        → Meets call reply api api'
    through_handle call method f reply api' meets ended =
        call-Meets call method f reply api' (call_impl steam method k.impl api) meets refl
          (sym (ap (replied f) (with_load (λ j. call_impl steam method j.impl) p k api e)) ∙ ended)

    -- Behind a call that leaves the server in the state it was seen in, all is seen as before.
    seen_at : (q : ℕ) (o : Option (Bool × ℕ)) → (p == q) ≡ true → seen api p ≡ o → seen api q ≡ o
    seen_at q o same before = ap (seen api) (sym ((==_iff p q).0 same)) ∙ before

    seen_kept :
        {A : Type 0} (method : Method steam D A) (a : A) (after : Api steam D)
        (c : Called p k api v e method a after)
        → c.after.is_running ≡ c.before.is_running
        → c.after.port ≡ c.before.port
        → (q : ℕ) → seen after q ≡ seen api q
    seen_kept method a after c same_running same_port q = elim (Bool-cases (p == q)) [
      | inl same ↦ ground (arith, c.now_seen q, same, seen_at q _ same c.was_seen)
      | inr different ↦ ground (arith, c.now_seen q, different)
    ]

    pub stop-Meets :
        (a : Unit {0}) (after : Api steam D)
        → Called p k api v e (stop_method steam) a after
        → Meets (stops (some p)) nothing api after
    unfolding stop
    stop-Meets a after c =
        let facts : (c.after.is_running ≡ false) × (c.after.port ≡ c.before.port) =
          ground (arith, c.ran) in
        (
          λ q. elim (Bool-cases (p == q)) [
            | inl same ↦ ground (arith, c.now_seen q, same, seen_at q _ same c.was_seen)
            | inr different ↦ ground (arith, c.now_seen q, different)
          ],
          tt,
        )

    -- A start, of either kind, that returned true or false.
    pub start-Meets :
        (method : Method steam D Bool) (port : ℕ) (a : Bool) (after : Api steam D)
        (c : Called p k api v e method a after)
        → (a ≡ true
            → (c.before.is_running ≡ false) × (c.after.is_running ≡ true) × (c.after.port ≡ port))
        → (a ≡ false → (c.after.is_running ≡ c.before.is_running) × (c.after.port ≡ c.before.port))
        → Meets (starts_manual (some p) port) (boolean a) api after
    start-Meets method port false after c ok failed =
        (seen_kept method false after c (failed refl).0 (failed refl).1, tt)
    start-Meets method port true after c ok failed = (
      λ q. elim (Bool-cases (p == q)) [
        | inl same ↦ ground (arith, c.now_seen q, same, ok refl)
        | inr different ↦ ground (arith, c.now_seen q, different)
      ],
      (c.before.port, ground (arith, c.was_seen, ok refl)),
    )

    pub start_manual-Meets :
        (port : ℕ) (a : Bool) (after : Api steam D)
        → Called p k api v e (start_manual_method steam port) a after
        → Meets (starts_manual (some p) port) (boolean a) api after
    unfolding start_manual
    start_manual-Meets port a after c =
        start-Meets (start_manual_method steam port) port a after c
          (λ ok. ground (arith, c.ran, ok)) (λ failed. ground (arith, c.ran, failed))

    pub send-Meets :
        (conn : ℕ) (d : Bytes) (n : ℕ) (reliable a : Bool) (after : Api steam D)
        → Called p k api v e (send_method steam conn d n reliable) a after
        → Meets (sends (some p) conn d n reliable) (boolean a) api after
    send-Meets conn d n reliable a after c = (
      seen_kept (send_method steam conn d n reliable) a after c (ground (arith, c.ran))
          (ground (arith, c.ran)),
      tt,
    )

    pub broadcast-Meets :
        (d : Bytes) (n : ℕ) (reliable a : Bool) (after : Api steam D)
        → Called p k api v e (broadcast_method steam d n reliable) a after
        → Meets (broadcasts (some p) d n reliable) (boolean a) api after
    broadcast-Meets d n reliable a after c = (
      seen_kept (broadcast_method steam d n reliable) a after c (ground (arith, c.ran))
          (ground (arith, c.ran)),
      tt,
    )

    pub disconnect-Meets :
        (conn : ℕ) (reason : ℤ) (a : Unit {0}) (after : Api steam D)
        → Called p k api v e (disconnect_method steam conn reason) a after
        → Meets (disconnects (some p) conn reason) nothing api after
    unfolding disconnect
    disconnect-Meets conn reason a after c = (
      seen_kept (disconnect_method steam conn reason) a after c (ground (arith, c.ran))
          (ground (arith, c.ran)),
      tt,
    )

    pub running-Meets :
        (a : Bool) (after : Api steam D)
        → Called p k api v e (query_method steam (λ s. s.is_running)) a after
        → Meets (asks_running (some p)) (boolean a) api after
    running-Meets a after c =
        let facts : (a ≡ c.before.is_running) × (c.after ≡ c.before) = ground (arith, c.ran) in
        (
          seen_kept (query_method steam (λ s. s.is_running)) a after c
              (ap (λ s. s.is_running) facts.1) (ap (λ s. s.port) facts.1),
          (c.before.port, rw facts.0 c.was_seen),
        )

    pub port-Meets :
        (a : ℕ) (after : Api steam D)
        → Called p k api v e (query_method steam (λ s. s.port)) a after
        → Meets (asks_port (some p)) (number a) api after
    port-Meets a after c =
        let facts : (a ≡ c.before.port) × (c.after ≡ c.before) = ground (arith, c.ran) in
        (
          seen_kept (query_method steam (λ s. s.port)) a after c (ap (λ s. s.is_running) facts.1)
              (ap (λ s. s.port) facts.1),
          (c.before.is_running, rw facts.0 c.was_seen),
        )
