-- ===== src/Api/Contract/Lifetimes.antt =====
-- Creating, starting and destroying through kb_server.cpp, against the contract.
use mathlib.Core.Path.{subst}
use kb_networking_cpp.Prelude.{
  ℕ, suc, ◌≡◌, refl, sym, ap, ◌∙◌, Bool, true, false, Option, none, some, if◌then◌else◌, ◌==◌,
  ==_iff, arith, Bool-cases, Option-cases, inl, inr,
}
use kb_networking_cpp.Prelude.Table.{find, insert, erase, find-insert, find-erase, find-insert_self}
use kb_networking_cpp.Steam.{Steam}
use kb_networking_cpp.Server.Object.{UdpServer, new_server, start_manual, start_async}
use kb_networking_cpp.Server.Calls.{start_async_method, stop_method, create_server}
use kb_networking_cpp.Api.Calls.{
  Api, KbServer, store, call_impl, kb_server_start_async, kb_server_stop, kb_server_destroy,
}
use kb_networking_cpp.Api.Total.{ApiInv, with_load}
use kb_networking_cpp.Api.Handles.{store-ApiInv, destroy_halves}
use kb_networking_cpp.Api.Histories.{creates, destroys, stops, starts_async, starts_manual}
use kb_networking_cpp.Api.Contract.{
  Reply, pointer, boolean, number, nothing, stopped_entry, seen, seen_handle, replied, Says,
}
use kb_networking_cpp.Api.Contract.Seen.{Called}
use kb_networking_cpp.Api.Contract.Methods.{
  Meets, call-Meets, through_handle, start-Meets, stop-Meets,
}

module _ {steam : Steam} {D : Type 0} (api : Api steam D) (v : ApiInv api) (p : ℕ) where
  -- Without the handle and its server.
  erased_seen :
      (api' : Api steam D) (q : ℕ)
      → api'.handles ≡ erase p api.handles
      → api'.process.servers ≡ erase (suc p) api.process.servers
      → seen api' q ≡ (if p == q then none else seen api q)
  unfolding seen
  erased_seen api' q handles servers =
      ap (λ m. seen_handle (find q m) api'.process.servers) handles
      ∙ ap (λ m. seen_handle (find q (erase p api.handles)) m) servers
      ∙ elim (Bool-cases (p == q)) [
        | inl same ↦ ground (arith, find-erase p q api.handles, same)
        | inr different ↦ elim (Option-cases (find q api.handles)) [
          | inl absent ↦ ground (arith, find-erase p q api.handles, different, absent)
          | inr (j, found) ↦ ground (
            arith,
            find-erase p q api.handles,
            different,
            found,
            (v.own_impl q j found).0,
            find-erase (suc p) j.impl api.process.servers,
          )
        ]
      ]

module _ {steam : Steam} {D : Type 0} (api : Api steam D) (v : ApiInv api) where
  -- Creating shows a server that does not run at a pointer that showed nothing.
  abbrev pub new_handle : KbServer
  new_handle = record {
    impl = suc api.next_address;
    on_data = none;
    on_connect = none;
    on_disconnect = none;
    is_async = false;
  }

  abbrev pub with_new : Api steam D
  with_new = record {
    process = create_server steam (suc api.next_address) api.process;
    handles = insert api.next_address new_handle api.handles;
    next_address = suc (suc api.next_address);
  }

  pub create-Meets : Meets creates (pointer (some api.next_address)) api with_new
  unfolding seen create_server new_server
  create-Meets =
      let p = api.next_address in
      let server : UdpServer steam D = new_server steam (suc p) in
      (
        λ q. elim (Bool-cases (p == q)) [
          | inl same ↦ ground (
            arith,
            same,
            find-insert p q new_handle api.handles,
            find-insert (suc p) (suc p) server api.process.servers,
          )
          | inr different ↦ elim (Option-cases (find q api.handles)) [
            | inl absent ↦ ground (arith, different, absent, find-insert p q new_handle api.handles)
            | inr (j, found) ↦ ground (
              arith,
              different,
              found,
              (v.own_impl q j found).0,
              find-insert p q new_handle api.handles,
              find-insert (suc p) j.impl server api.process.servers,
            )
          ]
        ],
        rw (v.fresh p (omega arith)).0 refl,
      )

  module _ (p : ℕ) where
    module _ (k : KbServer) (e : find p api.handles ≡ some k) where
      abbrev pub async_handle : KbServer
      async_handle = record k { is_async = true }

      abbrev pub with_async : Api steam D
      with_async = record api { handles = insert p async_handle api.handles }

      -- That a server is asynchronous is not seen.
      stored_seen : (q : ℕ) → seen with_async q ≡ seen api q
      unfolding seen
      stored_seen q = elim (Bool-cases (p == q)) [
        | inl same ↦
            let here : find q api.handles ≡ some k =
              ap (λ i. find i api.handles) (sym ((==_iff p q).0 same)) ∙ e in
            ground (arith, find-insert p q async_handle api.handles, same, here)
        | inr different ↦ ground (arith, find-insert p q async_handle api.handles, different)
      ]

      start_async-Meets :
          (port : ℕ) (a : Bool) (after : Api steam D)
          → Called p async_handle with_async
              (store-ApiInv p k api v e)
              (find-insert_self p async_handle api.handles)
              (start_async_method steam port)
              a
              after
          → Meets (starts_manual (some p) port) (boolean a) with_async after
      unfolding start_async start_manual
      start_async-Meets port a after c =
          start-Meets p async_handle with_async (store-ApiInv p k api v e)
            (find-insert_self p async_handle api.handles) (start_async_method steam port) port a
            after c (λ ok. ground (arith, c.ran, ok)) (λ failed. ground (arith, c.ran, failed))

      -- What is met behind the store is met before it.
      from_stored :
          (port : ℕ) (reply : Reply) (after : Api steam D)
          → Meets (starts_manual (some p) port) reply with_async after
          → Meets (starts_async (some p) port) reply api after
      from_stored port nothing after m = absurd m.1
      from_stored port (pointer o) after m = absurd m.1
      from_stored port (number n) after m = absurd m.1
      from_stored port (boolean false) after m = (λ q. m.0 q ∙ stored_seen q, tt)
      from_stored port (boolean true) after m = (
        λ q. m.0 q ∙ ap (λ o. if p == q then some (true, port) else o) (stored_seen q),
        (m.1.0, sym (stored_seen p) ∙ m.1.1),
      )

      pub start_async_call-Meets :
          (port : ℕ) (reply : Reply) (api' : Api steam D)
          → replied boolean (kb_server_start_async steam (some p) port api) ≡ some (reply, api')
          → Meets (starts_async (some p) port) reply api api'
      unfolding kb_server_start_async store
      start_async_call-Meets port reply api' ended = from_stored port reply api' (
          call-Meets p async_handle with_async (store-ApiInv p k api v e)
            (find-insert_self p async_handle api.handles) (starts_manual (some p) port)
            (start_async_method steam port) boolean reply api'
            (call_impl steam (start_async_method steam port) k.impl with_async)
            (start_async-Meets port) refl
            (sym (ap (replied boolean) (with_load _ p k api e)) ∙ ended))

      -- Destroying stops the server, and takes it from what is seen.
      pub destroy-Meets :
          (reply : Reply) (api' : Api steam D)
          → replied (λ a. nothing) (kb_server_destroy steam (some p) api) ≡ some (reply, api')
          → Meets (destroys (some p)) reply api api'
      unfolding kb_server_stop
      destroy-Meets reply api' ended =
          let h = destroy_halves p k api v e in
          let mid = h.3.1 in
          let stopped =
            through_handle p k api v e (stops (some p)) (stop_method steam) (λ a. nothing) nothing
              mid (stop-Meets p k api v e) (ap (replied (λ a. nothing)) h.4) in
          let gone = sym (ap (replied (λ a. nothing)) h.1) ∙ ended in
          let same : h.0.1 ≡ api' = cc gone in
          let returned : nothing ≡ reply = cc gone in
          (
            λ q.
                ap (λ a. seen a q) (sym same)
                ∙ erased_seen mid h.5 p h.0.1 q h.6 h.7
                ∙ without q (seen mid q) (stopped.0 q),
            subst (λ r. Says (destroys (some p)) r (seen api)) returned tt,
          )
        where
          without :
              (q : ℕ) (o : Option (Bool × ℕ))
              → o ≡ (if p == q then stopped_entry (seen api q) else seen api q)
              → (if p == q then none else o) ≡ (if p == q then none else seen api q)
          without q o h = ground arith
