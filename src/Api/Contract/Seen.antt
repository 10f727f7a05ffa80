-- ===== src/Api/Contract/Seen.antt =====
-- A method called through a handle of kb_server.cpp, as the user sees it.
use mathlib.Core.Path.{subst}
use kb_networking_cpp.Prelude.{
  ℕ, suc, ◌≡◌, refl, sym, ap, ◌∙◌, false, Option, none, some, if◌then◌else◌, ◌==◌, ==_iff, ==_refl,
  arith, Bool-cases, Option-cases, inl, inr,
}
use kb_networking_cpp.Prelude.Table.{find, insert, find-insert}
use kb_networking_cpp.Steam.{Steam}
use kb_networking_cpp.Server.Object.{UdpServer, Host}
use kb_networking_cpp.Server.Calls.{Method, call_method, apply_method, write_back}
use kb_networking_cpp.Api.Calls.{Api, KbServer, call_impl, on_process}
use kb_networking_cpp.Api.Total.{ApiInv}
use kb_networking_cpp.Api.Contract.{seen}

module _ {steam : Steam} {D : Type 0} (p : ℕ) (k : KbServer) (api : Api steam D) (v : ApiInv api)
    (e : find p api.handles ≡ some k) where
  -- The state behind a method that leaves the server `s` and the host `h`.
  abbrev pub moved : UdpServer steam D → Host steam → Api steam D
  moved s h = record api {
    process = record { host = h; servers = insert (suc p) s api.process.servers };
  }

  seen_at_first :
      (s : UdpServer steam D)
      → find (suc p) api.process.servers ≡ some s
      → seen api p ≡ some (s.is_running, s.port)
  unfolding seen
  seen_at_first s found = let impl = (v.own_impl p k e).0 in rw (e, impl, found) refl

  seen_self :
      (s : UdpServer steam D) (h : Host steam) → seen (moved s h) p ≡ some (s.is_running, s.port)
  unfolding seen
  seen_self s h =
      let impl = (v.own_impl p k e).0 in
      rw (e, impl, find-insert (suc p) (suc p) s api.process.servers, ==_refl (suc p)) refl

  seen_other :
      (q : ℕ) (s : UdpServer steam D) (h : Host steam)
      → (p == q) ≡ false
      → seen (moved s h) q ≡ seen api q
  unfolding seen
  seen_other q s h different = elim (Option-cases (find q api.handles)) [
    | inl absent ↦ rw absent refl
    | inr (j, found) ↦
        let impl = (v.own_impl q j found).0 in
        let unlike : (suc p == suc q) ≡ false = ground arith in
        rw (found, impl, find-insert (suc p) (suc q) s api.process.servers, unlike) refl
  ]

  pub seen-moved :
      (q : ℕ) (s : UdpServer steam D) (h : Host steam)
      → seen (moved s h) q ≡ (if p == q then some (s.is_running, s.port) else seen api q)
  seen-moved q s h = elim (Bool-cases (p == q)) [
    | inl same ↦ rw same (ap (seen (moved s h)) (sym ((==_iff p q).0 same)) ∙ seen_self s h)
    | inr different ↦ rw different (seen_other q s h different)
  ]

  -- What a method called through the handle did: it ran on the server behind the handle, and that
  -- server is all that changed.
  pub record Called {A : Type 0} (method : Method steam D A) (a : A) (api' : Api steam D)
      : Type 0 where
    pub before : UdpServer steam D
    pub after : UdpServer steam D
    pub host_after : Host steam
    pub ran : method before api.process.host ≡ some (a, after, host_after)
    pub was_seen : seen api p ≡ some (before.is_running, before.port)
    pub now_seen :
        (q : ℕ) → seen api' q ≡ (if p == q then some (after.is_running, after.port) else seen api q)

  result-Called :
      {A : Type 0} (method : Method steam D A) (s s' : UdpServer steam D) (h' : Host steam) (a : A)
      → find (suc p) api.process.servers ≡ some s
      → method s api.process.host ≡ some (a, s', h')
      → Called method a (moved s' h')
  result-Called method s s' h' a found ran = record {
    before = s;
    after = s';
    host_after = h';
    ran = ran;
    was_seen = seen_at_first s found;
    now_seen = λ q. seen-moved q s' h';
  }

  ended-Called :
      {A : Type 0} (method : Method steam D A) (a : A) (api' : Api steam D) (s : UdpServer steam D)
      → find (suc p) api.process.servers ≡ some s
      → (r : Option (A × UdpServer steam D × Host steam)) → method s api.process.host ≡ r
      → on_process steam (write_back (suc p) r api.process) api ≡ some (a, api')
      → Called method a api'
  unfolding on_process write_back
  ended-Called {A} method a api' s found none ran ended = absurd (ground (arith, ended))
  ended-Called {A} method a api' s found (some (b, s', h')) ran ended =
      let same : ◌≡◌ {A = A × Api steam D} (b, moved s' h') (a, api') = cc in
      subst (λ r. Called method r.0 r.1) same (result-Called method s s' h' b found ran)

  pub call_impl-Called :
      {A : Type 0} (method : Method steam D A) (a : A) (api' : Api steam D)
      → call_impl steam method k.impl api ≡ some (a, api')
      → Called method a api'
  unfolding call_impl on_process call_method apply_method write_back
  call_impl-Called {A} method a api' ended =
      let (impl, s, found) = v.own_impl p k e in
      let here : call_impl steam method k.impl api
          ≡ on_process steam (write_back (suc p) (method s api.process.host) api.process) api =
        rw (impl, found) refl in
      ended-Called method a api' s found (method s api.process.host) refl (sym here ∙ ended)
