-- ===== src/Api/Contract/Refinement.antt =====
-- Every call of kb_server.cpp meets the contract.
use mathlib.Core.Path.{subst}
use kb_networking_cpp.Prelude.{true, ℕ, ◌≡◌, refl, Option, none, some, arith}
use kb_networking_cpp.Packet.Bytes.{Bytes}
use kb_networking_cpp.Steam.{Steam}
use kb_networking_cpp.Server.Object.{ClientInfo}
use kb_networking_cpp.Server.Calls.{
  start_manual_method, stop_method, send_method, broadcast_method, disconnect_method,
}
use kb_networking_cpp.Api.Calls.{
  Api, query_method, kb_server_create, kb_server_destroy, kb_server_stop, kb_server_start_async,
  kb_server_start_manual, kb_server_send_raw, kb_server_broadcast_raw, kb_server_disconnect,
  kb_server_is_running, kb_server_port,
}
use kb_networking_cpp.Api.Total.{ApiInv}
use kb_networking_cpp.Api.Histories.{
  Call, creates, destroys, stops, asks_running, asks_port, starts_async, starts_manual, sends,
  broadcasts, disconnects, target, IsLive, perform, perform_total, state_of,
}
use kb_networking_cpp.Api.Reachable.{Reachable, Reachable-ApiInv}
use kb_networking_cpp.Api.Contract.{
  Reply, nothing, pointer, boolean, number, reply_of, replied, seen, after_call, Says,
}
use kb_networking_cpp.Api.Contract.Methods.{
  Meets, through_handle, stop-Meets, start_manual-Meets, send-Meets, broadcast-Meets,
  disconnect-Meets, running-Meets, port-Meets,
}
use kb_networking_cpp.Api.Contract.Lifetimes.{create-Meets, start_async_call-Meets, destroy-Meets}

module _ {steam : Steam} {D : Type 0} where
  -- A call that ends returns something.
  state_replied :
      {A : Type 0} (f : A → Reply) (r : Option (A × Api steam D)) (api' : Api steam D)
      → state_of r ≡ some api'
      → (reply : Reply) × (after : Api steam D) × (replied f r ≡ some (reply, after))
  state_replied f none api' e = absurd (ground (arith, e))
  state_replied f (some (a, after)) api' e = (f a, after, refl)

  perform_replies :
      (call : Call) (api api' : Api steam D)
      → perform call api ≡ some api'
      → (reply : Reply) × (after : Api steam D) × (reply_of call api ≡ some (reply, after))
  unfolding perform reply_of
  perform_replies creates api api' e = state_replied pointer _ api' e
  perform_replies (destroys p) api api' e = state_replied (λ a. nothing) _ api' e
  perform_replies (stops p) api api' e = state_replied (λ a. nothing) _ api' e
  perform_replies (asks_running p) api api' e = state_replied boolean _ api' e
  perform_replies (asks_port p) api api' e = state_replied number _ api' e
  perform_replies (starts_async p port) api api' e = state_replied boolean _ api' e
  perform_replies (starts_manual p port) api api' e = state_replied boolean _ api' e
  perform_replies (sends p c d n r) api api' e = state_replied boolean _ api' e
  perform_replies (broadcasts p d n r) api api' e = state_replied boolean _ api' e
  perform_replies (disconnects p c r) api api' e = state_replied (λ a. nothing) _ api' e

  -- What is met with the result that was computed.
  met_as :
      (call : Call) (reply0 reply : Reply) (api api0 api' : Api steam D)
      → ◌≡◌ {A = Option (Reply × Api steam D)} (some (reply0, api0)) (some (reply, api'))
      → Meets call reply0 api api0
      → Meets call reply api api'
  met_as call reply0 reply api api0 api' e m =
      let same : ◌≡◌ {A = Reply × Api steam D} (reply0, api0) (reply, api') = cc in
      subst (λ r. Meets call r.0 api r.1) same m

  -- A call that returned met the contract.
  pub met :
      (call : Call) (reply : Reply) (api api' : Api steam D)
      → ApiInv api
      → IsLive (target call) api
      → reply_of call api ≡ some (reply, api')
      → Meets call reply api api'
  unfolding reply_of kb_server_create kb_server_destroy kb_server_stop kb_server_start_async
      kb_server_start_manual kb_server_send_raw kb_server_broadcast_raw kb_server_disconnect
      kb_server_is_running kb_server_port
  met creates reply api api' v l e = met_as creates _ reply api _ api' e (create-Meets api v)
  met (destroys none) reply api api' v l e =
      met_as (destroys none) _ reply api _ api' e (λ q. refl, tt)
  met (stops none) reply api api' v l e = met_as (stops none) _ reply api _ api' e (λ q. refl, tt)
  met (asks_running none) reply api api' v l e =
      met_as (asks_running none) _ reply api _ api' e (λ q. refl, refl)
  met (asks_port none) reply api api' v l e =
      met_as (asks_port none) _ reply api _ api' e (λ q. refl, refl)
  met (starts_async none port) reply api api' v l e =
      met_as (starts_async none port) _ reply api _ api' e (λ q. refl, refl)
  met (starts_manual none port) reply api api' v l e =
      met_as (starts_manual none port) _ reply api _ api' e (λ q. refl, refl)
  met (sends none c d n r) reply api api' v l e =
      met_as (sends none c d n r) _ reply api _ api' e (λ q. refl, refl)
  met (broadcasts none d n r) reply api api' v l e =
      met_as (broadcasts none d n r) _ reply api _ api' e (λ q. refl, refl)
  met (disconnects none c r) reply api api' v l e =
      met_as (disconnects none c r) _ reply api _ api' e (λ q. refl, tt)
  met (destroys (some p)) reply api api' v (k, f) e = destroy-Meets api v p k f reply api' e
  met (starts_async (some p) port) reply api api' v (k, f) e =
      start_async_call-Meets api v p k f port reply api' e
  met (stops (some p)) reply api api' v (k, f) e =
      through_handle p k api v f (stops (some p)) (stop_method steam) (λ a. nothing) reply api'
        (stop-Meets p k api v f) e
  met (asks_running (some p)) reply api api' v (k, f) e =
      through_handle p k api v f (asks_running (some p)) (query_method steam (λ s. s.is_running))
        boolean reply api' (running-Meets p k api v f) e
  met (asks_port (some p)) reply api api' v (k, f) e =
      through_handle p k api v f (asks_port (some p)) (query_method steam (λ s. s.port)) number
        reply api' (port-Meets p k api v f) e
  met (starts_manual (some p) port) reply api api' v (k, f) e =
      through_handle p k api v f (starts_manual (some p) port) (start_manual_method steam port)
        boolean reply api' (start_manual-Meets p k api v f port) e
  met (sends (some p) c d n r) reply api api' v (k, f) e =
      through_handle p k api v f (sends (some p) c d n r) (send_method steam c d n r) boolean reply
        api' (send-Meets p k api v f c d n r) e
  met (broadcasts (some p) d n r) reply api api' v (k, f) e =
      through_handle p k api v f (broadcasts (some p) d n r) (broadcast_method steam d n r) boolean
        reply api' (broadcast-Meets p k api v f d n r) e
  met (disconnects (some p) c r) reply api api' v (k, f) e =
      through_handle p k api v f (disconnects (some p) c r) (disconnect_method steam c r)
        (λ a. nothing) reply api' (disconnect-Meets p k api v f c r) e

module _ (steam : Steam) {D : Type 0}
    (call : D → ClientInfo → Bytes → steam.World → steam.World) where
  -- In every state that a program reaches with the C interface, a call through null or through a
  -- pointer to a server that was created and not destroyed returns, and meets the contract that is
  -- told in whether each server runs and on which port: creating gives a pointer that led to
  -- nothing, to a server that does not run, with port 0; a start that returns true was of a server
  -- that did not run, which then runs on the port; a stop ends the run and keeps the port;
  -- destroying removes the server; the two queries return what is seen, or false and 0 for null;
  -- and nothing else is changed by any call, least of all another server.
  pub contract_lem :
      steam.is_started ≡ true
      → (api : Api steam D) (c : Call) → Reachable steam call api
      → IsLive (target c) api
      → (reply : Reply) × (api' : Api steam D) × (reply_of c api ≡ some (reply, api'))
        × ((q : ℕ) → seen api' q ≡ after_call c reply (seen api) q)
        × Says c reply (seen api)
  contract_lem is_started api c reached live =
      let v = Reachable-ApiInv steam call is_started api reached in
      let performed = perform_total is_started c api v live in
      let (reply, api', e) = perform_replies c api performed.0 performed.1 in
      let m = met c reply api api' v live e in (reply, api', e, m.0, m.1)
