-- ===== src/Api/Histories.antt =====
-- The calls of the C interface as steps of a history.
use kb_networking_cpp.Prelude.{true, ℕ, ◌≡◌, refl, ap, Bool, Option, none, some}
use kb_networking_cpp.Prelude.Int.{ℤ}
use kb_networking_cpp.Prelude.Table.{find}
use kb_networking_cpp.Packet.Bytes.{Bytes}
use kb_networking_cpp.Steam.{Steam}
use kb_networking_cpp.Server.Calls.{
  Method, start_manual_method, stop_method, send_method, broadcast_method, disconnect_method,
}
use kb_networking_cpp.Server.Object.{UdpServer}
use kb_networking_cpp.Server.Invariant.{kept}
use kb_networking_cpp.Server.History.{
  Keeps, start_manual-Keeps, stop-Keeps, send-Keeps, broadcast-Keeps, disconnect-Keeps,
}
use kb_networking_cpp.Api.Exec.{then_with}
use kb_networking_cpp.Api.Calls.{
  Api, KbServer, M, load, call_impl, kb_server_create, kb_server_destroy, kb_server_stop,
  kb_server_start_async, kb_server_start_manual, kb_server_send_raw, kb_server_broadcast_raw,
  kb_server_disconnect, kb_server_is_running, kb_server_port, query_method,
}
use kb_networking_cpp.Api.Handles.{create_total, start_async_total, destroy_total}
use kb_networking_cpp.Api.Total.{ApiInv, Ends, load_then_call}

pub data Call : Type 0 where
  creates : Call
  destroys stops asks_running asks_port : Option ℕ → Call
  starts_async starts_manual : Option ℕ → ℕ → Call
  sends : Option ℕ → ℕ → Bytes → ℕ → Bool → Call
  broadcasts : Option ℕ → Bytes → ℕ → Bool → Call
  disconnects : Option ℕ → ℕ → ℤ → Call

abbrev pub target : Call → Option ℕ
target creates = none
target (destroys p) = p
target (stops p) = p
target (asks_running p) = p
target (asks_port p) = p
target (starts_async p port) = p
target (starts_manual p port) = p
target (sends p c d n r) = p
target (broadcasts p d n r) = p
target (disconnects p c r) = p

module _ {steam : Steam} {D : Type 0} where
  -- The pointer is null, or leads to a server that was created and not destroyed.
  abbrev pub IsLive : Option ℕ → Api steam D → Type 0
  IsLive none api = Unit {0}
  IsLive (some p) api = (k : KbServer) × (find p api.handles ≡ some k)

  abbrev pub state_of : {A : Type 0} → Option (A × Api steam D) → Option (Api steam D)
  state_of none = none
  state_of (some (a, api)) = some api

  unfoldable pub perform : Call → Api steam D → Option (Api steam D)
  perform creates api = state_of (kb_server_create steam api)
  perform (destroys p) api = state_of (kb_server_destroy steam p api)
  perform (asks_running p) api = state_of (kb_server_is_running steam p api)
  perform (asks_port p) api = state_of (kb_server_port steam p api)
  perform (stops p) api = state_of (kb_server_stop steam p api)
  perform (starts_async p port) api = state_of (kb_server_start_async steam p port api)
  perform (starts_manual p port) api = state_of (kb_server_start_manual steam p port api)
  perform (sends p c d n r) api = state_of (kb_server_send_raw steam p c d n r api)
  perform (broadcasts p d n r) api = state_of (kb_server_broadcast_raw steam p d n r api)
  perform (disconnects p c r) api = state_of (kb_server_disconnect steam p c r api)

  query-Keeps : {A : Type 0} (f : UdpServer steam D → A) → Keeps (query_method steam f)
  query-Keeps f = record { at = λ p s h v. (_, refl, v, kept refl refl) }

  called_total :
      {A : Type 0} (m : M steam D A) (api : Api steam D)
      → Ends m api
      → (api' : Api steam D) × (state_of (m api) ≡ some api') × ApiInv api'
  called_total m api ends = (ends.0.1, ap state_of ends.1, ends.2)

  through :
      {A : Type 0} (method : Method steam D A) (p : ℕ) (k : KbServer) (api : Api steam D)
      → Keeps method
      → ApiInv api
      → find p api.handles ≡ some k
      → (api' : Api steam D) × (state_of
            (then_with (load steam p api) (λ j. call_impl steam method j.impl))
          ≡ some api')
        × ApiInv api'
  through method p k api keeps v e =
      let (r, called, sound, _) = load_then_call method p k api keeps v e in
      (r.1, ap state_of called, sound)

  -- A call through null or a live pointer ends without a fault, and keeps what holds of the servers.
  pub perform_total :
      steam.is_started ≡ true
      → (call : Call) (api : Api steam D) → ApiInv api
      → IsLive (target call) api
      → (api' : Api steam D) × (perform call api ≡ some api') × ApiInv api'
  unfolding perform kb_server_is_running kb_server_port kb_server_destroy kb_server_stop
      kb_server_start_async kb_server_start_manual kb_server_send_raw kb_server_broadcast_raw
      kb_server_disconnect
  perform_total is_started creates api v l =
      called_total (kb_server_create steam) api (create_total api is_started v)
  perform_total is_started (destroys none) api v l = (api, refl, v)
  perform_total is_started (stops none) api v l = (api, refl, v)
  perform_total is_started (asks_running none) api v l = (api, refl, v)
  perform_total is_started (asks_port none) api v l = (api, refl, v)
  perform_total is_started (starts_async none port) api v l = (api, refl, v)
  perform_total is_started (starts_manual none port) api v l = (api, refl, v)
  perform_total is_started (sends none c d n r) api v l = (api, refl, v)
  perform_total is_started (broadcasts none d n r) api v l = (api, refl, v)
  perform_total is_started (disconnects none c r) api v l = (api, refl, v)
  perform_total is_started (destroys (some p)) api v (k, e) =
      called_total (kb_server_destroy steam (some p)) api (destroy_total p k api v e)
  perform_total is_started (starts_async (some p) port) api v (k, e) =
      called_total (kb_server_start_async steam (some p) port) api
        (start_async_total p port k api v e)
  perform_total is_started (asks_running (some p)) api v (k, e) =
      through (query_method steam (λ s. s.is_running)) p k api (query-Keeps (λ s. s.is_running)) v e
  perform_total is_started (asks_port (some p)) api v (k, e) =
      through (query_method steam (λ s. s.port)) p k api (query-Keeps (λ s. s.port)) v e
  perform_total is_started (stops (some p)) api v (k, e) =
      through (stop_method steam) p k api (stop-Keeps steam) v e
  perform_total is_started (starts_manual (some p) port) api v (k, e) =
      through (start_manual_method steam port) p k api (start_manual-Keeps steam port) v e
  perform_total is_started (sends (some p) c d n r) api v (k, e) =
      through (send_method steam c d n r) p k api (send-Keeps steam c d n r) v e
  perform_total is_started (broadcasts (some p) d n r) api v (k, e) =
      through (broadcast_method steam d n r) p k api (broadcast-Keeps steam d n r) v e
  perform_total is_started (disconnects (some p) c r) api v (k, e) =
      through (disconnect_method steam c r) p k api (disconnect-Keeps steam c r) v e
