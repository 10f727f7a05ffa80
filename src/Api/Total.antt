-- ===== src/Api/Total.antt =====
-- What holds of the handles of kb_server.cpp between two calls, and calls through a handle.
use kb_networking_cpp.Prelude.{
  ℕ, suc, ◌≤◌, ◌≡◌, refl, ap, ◌∙◌, none, some, arith, ◌==◌, Bool-cases, inl, inr,
}
use kb_networking_cpp.Prelude.Table.{find, find-insert}
use kb_networking_cpp.Steam.{Steam}
use kb_networking_cpp.Server.Object.{UdpServer}
use kb_networking_cpp.Server.Calls.{Method, call_method}
use kb_networking_cpp.Server.Invariant.{Inv}
use kb_networking_cpp.Server.History.{Keeps, call_method-Inv}
use kb_networking_cpp.Api.Exec.{then_with}
use kb_networking_cpp.Api.Calls.{Api, KbServer, M, load, loaded, call_impl, on_process}

module _ {steam : Steam} {D : Type 0} where
  -- Each handle has a server of its own, and no address that is yet to be given is in use.
  pub record ApiInv (api : Api steam D) : Type 0 where
    pub servers_sound : Inv api.process
    pub own_impl :
        (p : ℕ) (k : KbServer)
        → find p api.handles ≡ some k
        → (k.impl ≡ suc p) × (s : UdpServer steam D) × (find (suc p) api.process.servers ≡ some s)
    pub fresh :
        (p : ℕ)
        → api.next_address ≤ p
        → (find p api.handles ≡ none) × (find p api.process.servers ≡ none)

  -- A call that ends, and after which all holds as before it.
  abbrev pub Ends : {A : Type 0} → M steam D A → Api steam D → Type 0
  Ends {A} m api = (r : A × Api steam D) × (m api ≡ some r) × ApiInv r.1

  pub with_load :
      {A : Type 0} (f : KbServer → M steam D A) (p : ℕ) (k : KbServer) (api : Api steam D)
      → find p api.handles ≡ some k
      → then_with (load steam p api) f ≡ f k api
  unfolding load
  with_load f p k api e = ap (λ o. then_with (loaded steam o api) f) e

  pub call_impl_total :
      {A : Type 0} (method : Method steam D A) (p : ℕ) (k : KbServer) (api : Api steam D)
      → Keeps method
      → ApiInv api
      → find p api.handles ≡ some k
      → (r : A × Api steam D) × (call_impl steam method k.impl api ≡ some r)
        × ApiInv r.1
        × (r.1.handles ≡ api.handles)
  unfolding call_impl on_process
  call_impl_total method p k api keeps v e =
      let (impl, s, found) = v.own_impl p k e in
      let (r, called, sound, s', servers) =
        call_method-Inv method (suc p) s api.process keeps v.servers_sound found in
      (
        (r.0, record api { process = r.1 }),
        ap (λ i. on_process steam (call_method method i api.process) api) impl
            ∙ ap (λ o. on_process steam o api) called,
        record {
          servers_sound = sound;
          own_impl = λ q j f.
              let (impl', t, found') = v.own_impl q j f in
              elim (Bool-cases (suc p == suc q)) [
                | inl same ↦ (
                  impl',
                  s',
                  rw servers (ground (arith, find-insert (suc p) (suc q) s' api.process.servers)),
                )
                | inr different ↦ (
                  impl',
                  t,
                  rw servers (ground (arith, find-insert (suc p) (suc q) s' api.process.servers)),
                )
              ];
          fresh = λ q le. (
            (v.fresh q le).0,
            rw servers
                (ground (arith, find-insert (suc p) q s' api.process.servers, v.fresh q le, found)),
          );
        },
        refl,
      )

  pub load_then_call :
      {A : Type 0} (method : Method steam D A) (p : ℕ) (k : KbServer) (api : Api steam D)
      → Keeps method
      → ApiInv api
      → find p api.handles ≡ some k
      → (r : A × Api steam D) × (then_with (load steam p api) (λ j. call_impl steam method j.impl)
          ≡ some r)
        × ApiInv r.1
        × (r.1.handles ≡ api.handles)
  load_then_call method p k api keeps v e =
      let (r, called, sound, handles) = call_impl_total method p k api keeps v e in
      (r, with_load (λ j. call_impl steam method j.impl) p k api e ∙ called, sound, handles)
