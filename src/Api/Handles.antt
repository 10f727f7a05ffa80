-- ===== src/Api/Handles.antt =====
-- Creating, starting and destroying a server through its handle.
use kb_networking_cpp.Prelude.{
  ℕ, suc, ◌≡◌, refl, sym, ap, ◌∙◌, true, false, none, some, arith, ◌==◌, Bool-cases, inl, inr,
  ==_iff,
}
use kb_networking_cpp.Prelude.Table.{
  find, insert, erase, find-insert, find-erase, find-insert_self, find_unique,
}
use kb_networking_cpp.Steam.{Steam}
use kb_networking_cpp.Server.Calls.{start_async_method, stop_method, create_server, delete_server}
use kb_networking_cpp.Server.Object.{UdpServer, new_server}
use kb_networking_cpp.Server.History.{
  start_async-Keeps, stop-Keeps, create_server-Inv, delete_server-Inv,
}
use kb_networking_cpp.Api.Exec.{then_with}
use kb_networking_cpp.Api.Calls.{
  Api, KbServer, M, load, store, with_process, delete_impl, delete_handle, kb_server_create,
  kb_server_destroy, kb_server_stop, kb_server_start_async,
}
use kb_networking_cpp.Api.Total.{ApiInv, Ends, with_load, call_impl_total, load_then_call}

module _ {steam : Steam} {D : Type 0} where
  pub create_total :
      (api : Api steam D) → steam.is_started ≡ true → ApiInv api → Ends (kb_server_create steam) api
  unfolding kb_server_create create_server
  create_total api is_started v =
      let p = api.next_address in
      let server : UdpServer steam D = new_server steam (suc p) in
      let k : KbServer = record {
        impl = suc p;
        on_data = none;
        on_connect = none;
        on_disconnect = none;
        is_async = false;
      } in
      let unused = v.fresh (suc p) (omega arith) in
      (
        _,
        refl,
        record {
          servers_sound =
              create_server-Inv steam (suc p) api.process is_started v.servers_sound unused.1;
          own_impl = λ q j f. elim (Bool-cases (p == q)) [
            | inl same ↦
                let new =
                  find_unique p q k j (insert p k api.handles) same
                    (find-insert_self p k api.handles) f in
                (
                  ap (λ (i : KbServer). i.impl) (sym new) ∙ ap suc ((==_iff p q).0 same),
                  server,
                  ground (arith, find-insert (suc p) (suc q) server api.process.servers),
                )
            | inr different ↦
                let (impl, s, found) =
                  v.own_impl q j (ground (arith, find-insert p q k api.handles)) in
                (impl, s, ground (arith, find-insert (suc p) (suc q) server api.process.servers))
          ];
          fresh = λ q le. (
            ground (arith, v.fresh q, find-insert p q k api.handles),
            ground (arith, v.fresh q, find-insert (suc p) q server api.process.servers),
          );
        },
      )

  pub store-ApiInv :
      (p : ℕ) (k : KbServer) (api : Api steam D)
      → ApiInv api
      → find p api.handles ≡ some k
      → ApiInv (record api { handles = insert p (record k { is_async = true }) api.handles })
  store-ApiInv p k api v e =
      let k' = record k { is_async = true } in
      record {
        servers_sound = v.servers_sound;
        own_impl = λ q j f. elim (Bool-cases (p == q)) [
          | inl same ↦
              let stored =
                find_unique p q k' j (insert p k' api.handles) same
                  (find-insert_self p k' api.handles) f in
              let (impl, s, found) = v.own_impl q k (rw (← (==_iff p q).0 same) e) in
              (ap (λ (i : KbServer). i.impl) (sym stored) ∙ impl, s, found)
          | inr different ↦ v.own_impl q j (ground (arith, find-insert p q k' api.handles))
        ];
        fresh = λ q le.
            (ground (arith, v.fresh q, find-insert p q k' api.handles, e), (v.fresh q le).1);
      }

  pub start_async_total :
      (p port : ℕ) (k : KbServer) (api : Api steam D)
      → ApiInv api
      → find p api.handles ≡ some k
      → Ends (kb_server_start_async steam (some p) port) api
  unfolding kb_server_start_async store
  start_async_total p port k api v e =
      let k' = record k { is_async = true } in
      let handles = insert p k' api.handles in
      let (r, called, sound, _) =
        call_impl_total (start_async_method steam port) p k' (record api { handles = handles })
          (start_async-Keeps steam port) (store-ApiInv p k api v e)
          (find-insert_self p k' api.handles) in
      (r, with_load _ p k api e ∙ called, sound)

  abbrev delete_both : ℕ → KbServer → M steam D (Unit {0})
  delete_both p k a = then_with (delete_impl steam k.impl a) (λ _. delete_handle steam p)

  -- Destroying ends, and is a stop behind which the handle and its server go.
  pub destroy_halves :
      (p : ℕ) (k : KbServer) (api : Api steam D)
      → ApiInv api
      → find p api.handles ≡ some k
      → (r : Unit {0} × Api steam D) × (kb_server_destroy steam (some p) api ≡ some r)
        × ApiInv r.1
        × (mid : Unit {0} × Api steam D) × (kb_server_stop steam (some p) api ≡ some mid)
        × ApiInv mid.1
        × (r.1.handles ≡ erase p mid.1.handles)
        × (r.1.process.servers ≡ erase (suc p) mid.1.process.servers)
  unfolding kb_server_destroy kb_server_stop delete_handle delete_impl
  destroy_halves p k api v e =
      let (r, stopped, v', handles) =
        load_then_call (stop_method steam) p k api (stop-Keeps steam) v e in
      let e' : find p r.1.handles ≡ some k = ap (λ m. find p m) handles ∙ e in
      let (impl, s, found) = v'.own_impl p k e' in
      let (process, deleted, sound, servers) =
        delete_server-Inv steam (suc p) s r.1.process v'.servers_sound found in
      (
        (tt, record r.1 { process = process; handles = erase p r.1.handles }),
        ap (λ o. then_with o (λ _. λ a. then_with (load steam p a) (delete_both p))) stopped
            ∙ with_load (delete_both p) p k r.1 e'
            ∙ ap
                (λ i.
                  then_with (with_process steam (delete_server steam i r.1.process) r.1)
                    (λ _. delete_handle steam p))
                impl
            ∙ ap (λ o. then_with (with_process steam o r.1) (λ _. delete_handle steam p)) deleted,
        record {
          servers_sound = sound;
          own_impl = λ q j f.
              let f' : find q r.1.handles ≡ some j = ground (arith, find-erase p q r.1.handles) in
              let (impl', t, found') = v'.own_impl q j f' in
              (
                impl',
                t,
                rw servers (
                    ground (
                      arith,
                      find-erase (suc p) (suc q) r.1.process.servers,
                      find-erase p q r.1.handles,
                    )),
              );
          fresh = λ q le. (
            ground (arith, v'.fresh q, find-erase p q r.1.handles),
            rw servers (ground (arith, v'.fresh q, find-erase (suc p) q r.1.process.servers)),
          );
        },
        r,
        stopped,
        v',
        refl,
        servers,
      )

  pub destroy_total :
      (p : ℕ) (k : KbServer) (api : Api steam D)
      → ApiInv api
      → find p api.handles ≡ some k
      → Ends (kb_server_destroy steam (some p)) api
  destroy_total p k api v e = let h = destroy_halves p k api v e in (h.0, h.1, h.2)
