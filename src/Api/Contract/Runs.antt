-- ===== src/Api/Contract/Runs.antt =====
-- Whole runs of a program against the C interface of kb_server.cpp: its calls with what they returned,
-- and between them the rounds of the network threads and of kb_server_poll.
use mathlib.Core.Path.{subst}
use kb_networking_cpp.Prelude.{
  true, ℕ, ◌≡◌, refl, ap, ◌∙◌, Bool, List, [], ◌∷◌, Option, none, some, arith, Option-cases, inl,
  inr,
}
use std.Path.{fun_ext}
use kb_networking_cpp.Prelude.Table.{find}
use kb_networking_cpp.Packet.Bytes.{Bytes}
use kb_networking_cpp.Steam.{Steam}
use kb_networking_cpp.Server.Object.{ClientInfo}
use kb_networking_cpp.Server.Process.{Process, poll}
use kb_networking_cpp.Server.Dispatch.{poll_sound}
use kb_networking_cpp.Api.Calls.{Api}
use kb_networking_cpp.Api.Total.{ApiInv}
use kb_networking_cpp.Api.Histories.{
  Call, creates, destroys, stops, asks_running, asks_port, starts_async, starts_manual, sends,
  broadcasts, disconnects, target, IsLive, perform, state_of,
}
use kb_networking_cpp.Api.Reachable.{
  new_api, Reachable, begun, then_step, performed, polled, Reachable-ApiInv,
}
use kb_networking_cpp.Api.Contract.{
  Contract, Reply, reply_of, replied, seen, seen_handle, after_call, Says,
}
use kb_networking_cpp.Api.Contract.Refinement.{contract_lem, met}

-- What the calls and replies of a run, the last one first, tell of each handle: nothing, or whether
-- its server runs, and its port.
abbrev pub told : List (Call × Reply) → Contract
told [] p = none
told ((call, reply) ∷ before) p = after_call call reply (told before) p

-- The pointer is null, or one that the contract has.
abbrev pub IsTold : Option ℕ → Contract → Type 0
IsTold none f = Unit {0}
IsTold (some p) f = (o : Bool × ℕ) × (f p ≡ some o)

module _ {steam : Steam} {D : Type 0} where
  replied_state :
      {A : Type 0} (f : A → Reply) (r : Option (A × Api steam D)) (reply : Reply)
      (api' : Api steam D)
      → replied f r ≡ some (reply, api')
      → state_of r ≡ some api'
  replied_state f none reply api' e = absurd (ground (arith, e))
  replied_state f (some (a, after)) reply api' e = cc

  reply_of-perform :
      (call : Call) (api api' : Api steam D) (reply : Reply)
      → reply_of call api ≡ some (reply, api')
      → perform call api ≡ some api'
  unfolding perform reply_of
  reply_of-perform creates api api' reply e = replied_state _ _ reply api' e
  reply_of-perform (destroys p) api api' reply e = replied_state _ _ reply api' e
  reply_of-perform (stops p) api api' reply e = replied_state _ _ reply api' e
  reply_of-perform (asks_running p) api api' reply e = replied_state _ _ reply api' e
  reply_of-perform (asks_port p) api api' reply e = replied_state _ _ reply api' e
  reply_of-perform (starts_async p port) api api' reply e = replied_state _ _ reply api' e
  reply_of-perform (starts_manual p port) api api' reply e = replied_state _ _ reply api' e
  reply_of-perform (sends p c d n r) api api' reply e = replied_state _ _ reply api' e
  reply_of-perform (broadcasts p d n r) api api' reply e = replied_state _ _ reply api' e
  reply_of-perform (disconnects p c r) api api' reply e = replied_state _ _ reply api' e

  -- A handle that is seen is live.
  seen-IsLive :
      (p : ℕ) (o : Bool × ℕ) (api : Api steam D) → seen api p ≡ some o → IsLive (some p) api
  unfolding seen
  seen-IsLive p o api e = elim (Option-cases (find p api.handles)) [
    | inl absent ↦
        let gone : seen_handle (find p api.handles) api.process.servers ≡ none = rw absent refl in
        cc
    | inr found ↦ found
  ]

  target-IsLive :
      (t : Option ℕ) (f : Contract) (api : Api steam D)
      → ((q : ℕ) → seen api q ≡ f q)
      → IsTold t f
      → IsLive t api
  target-IsLive none f api same known = tt
  target-IsLive (some p) f api same (o, e) = seen-IsLive p o api (same p ∙ e)

module _ (steam : Steam) {D : Type 0}
    (call : D → ClientInfo → Bytes → steam.World → steam.World) where
  -- A run from the start, with its calls and what they returned, the last one first.
  pub data Run : List (Call × Reply) → Api steam D → Type 0 where
    started : (w : steam.World) → Run [] (new_api steam call w)
    then_call :
        (events : List (Call × Reply)) (api api' : Api steam D) (c : Call) (reply : Reply)
        → Run events api
        → IsLive (target c) api
        → reply_of c api ≡ some (reply, api')
        → Run ((c, reply) ∷ events) api'
    then_poll :
        (events : List (Call × Reply)) (api : Api steam D) (p : ℕ) (process : Process steam D)
        → Run events api
        → poll steam call p api.process ≡ some process
        → Run events (record api { process = process })

  Run-Reachable :
      (events : List (Call × Reply)) (api : Api steam D) → Run events api → Reachable steam call api
  Run-Reachable _ _ (started w) = begun w
  Run-Reachable _ _ (then_call events api api' c reply run live e) =
      then_step api api' (Run-Reachable events api run)
        (performed c api' live (reply_of-perform c api api' reply e))
  Run-Reachable _ _ (then_poll events api p process run e) =
      then_step api (record api { process = process }) (Run-Reachable events api run)
        (polled p process e)

  polled_seen :
      (api : Api steam D) (p : ℕ) (process : Process steam D)
      → ApiInv api
      → poll steam call p api.process ≡ some process
      → (q : ℕ) → seen (record api { process = process }) q ≡ seen api q
  unfolding seen
  polled_seen api p process v e q = elim (Option-cases (find q api.handles)) [
    | inl absent ↦ rw absent refl
    | inr (k, found) ↦
        rw found ((poll_sound steam call p api.process process v.servers_sound e).1 k.impl)
  ]

  -- What is seen of the servers is what the calls and their replies tell.
  Run-told :
      steam.is_started ≡ true
      → (events : List (Call × Reply)) (api : Api steam D) → Run events api
      → (q : ℕ) → seen api q ≡ told events q
  unfolding seen find
  Run-told is_started _ _ (started w) q = refl
  Run-told is_started _ _ (then_call events api api' c reply run live e) q =
      let v = Reachable-ApiInv steam call is_started api (Run-Reachable events api run) in
      (met c reply api api' v live e).0 q
      ∙ ap (λ f. after_call c reply f q) (fun_ext (Run-told is_started events api run))
  Run-told is_started _ _ (then_poll events api p process run e) q =
      let v = Reachable-ApiInv steam call is_started api (Run-Reachable events api run) in
      polled_seen api p process v e q ∙ Run-told is_started events api run q

  -- Where the library was started, so that SteamNetworkingSockets() gives its interface, and is
  -- not ended: over every run of a program against the C interface from its start, with its calls,
  -- what they returned, and between them any rounds of the network threads and of kb_server_poll
  -- that do not fault: a call through null or through a pointer that the calls and replies tell of
  -- returns, and the run goes on with it. Behind it, whether each server runs and on which port is
  -- what the calls and replies tell, to which the rounds add nothing: creating gives a pointer
  -- that nothing was told of, to a server that does not run, with port 0; a start that returns
  -- true was of a server that did not run, which then runs on the port; a stop ends the run and
  -- keeps the port; destroying removes the server; the two queries return what was told, or false
  -- and 0 for null; a start, a send or a broadcast through null returns false; and nothing else is
  -- changed by any call, least of all another server.
  pub run_lem :
      steam.is_started ≡ true
      → (events : List (Call × Reply)) (api : Api steam D) (c : Call) → Run events api
      → IsTold (target c) (told events)
      → (reply : Reply) × (api' : Api steam D) × (reply_of c api ≡ some (reply, api'))
        × Run ((c, reply) ∷ events) api'
        × Says c reply (told events)
        × ((q : ℕ) → seen api' q ≡ told ((c, reply) ∷ events) q)
  run_lem is_started events api c run known =
      let same = Run-told is_started events api run in
      let live = target-IsLive (target c) (told events) api same known in
      let (reply, api', e, kept, says) =
        contract_lem steam call is_started api c (Run-Reachable events api run) live in
      let next = then_call events api api' c reply run live e in
      (
        reply,
        api',
        e,
        next,
        subst (λ f. Says c reply f) (fun_ext same) says,
        Run-told is_started ((c, reply) ∷ events) api' next,
      )
