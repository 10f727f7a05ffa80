-- ===== src/Api/Reachable.antt =====
-- Every state that a program reaches with the C interface and its network threads.
use mathlib.Core.Path.{subst}
use kb_networking_cpp.Prelude.{
  true, ℕ, suc, ◌≡◌, refl, sym, ◌∙◌, inl, inr, [], none, some, arith, Option-cases,
}
use kb_networking_cpp.Prelude.Table.{find}
use kb_networking_cpp.Packet.Bytes.{Bytes}
use kb_networking_cpp.Steam.{Steam}
use kb_networking_cpp.Server.Object.{ClientInfo, UdpServer}
use kb_networking_cpp.Server.Process.{Process, poll}
use kb_networking_cpp.Server.Invariant.{Inv}
use kb_networking_cpp.Server.Dispatch.{SameServers, poll_sound}
use kb_networking_cpp.Api.Calls.{Api}
use kb_networking_cpp.Api.Total.{ApiInv}
use kb_networking_cpp.Api.Histories.{Call, target, IsLive, perform, perform_total}

module _ (steam : Steam) {D : Type 0}
    (call : D → ClientInfo → Bytes → steam.World → steam.World) where
  -- Before the first call.
  abbrev pub new_api : steam.World → Api steam D
  new_api w = record {
    process = record { host = record { world = w; instance_ptr = none }; servers = [] };
    handles = [];
    next_address = 0;
  }

  -- A call through a pointer that is null or live, or a round of the network thread of a server, or
  -- of kb_server_poll.
  pub data Step (api : Api steam D) : Api steam D → Type 0 where
    performed :
        (c : Call) (api' : Api steam D)
        → IsLive (target c) api
        → perform c api ≡ some api'
        → Step api api'
    polled :
        (p : ℕ) (process : Process steam D)
        → poll steam call p api.process ≡ some process
        → Step api (record api { process = process })

  pub data Reachable : Api steam D → Type 0 where
    begun : (w : steam.World) → Reachable (new_api w)
    then_step : (api api' : Api steam D) → Reachable api → Step api api' → Reachable api'

  new_api-ApiInv : (w : steam.World) → ApiInv (new_api w)
  unfolding find
  new_api-ApiInv w = record {
    servers_sound = record { sound = λ p s e. cc; live = λ p e. cc };
    own_impl = λ p k e. cc;
    fresh = λ p h. (refl, refl);
  }

  find_kept :
      (process process' : Process steam D) (q : ℕ) (s : UdpServer steam D)
      → SameServers steam process process'
      → find q process.servers ≡ some s
      → (t : UdpServer steam D) × (find q process'.servers ≡ some t)
  find_kept process process' q s same e = elim (Option-cases (find q process'.servers)) [
    | inl gone ↦ ground (arith, same q)
    | inr found ↦ found
  ]

  find_absent :
      (process process' : Process steam D) (q : ℕ)
      → SameServers steam process process'
      → find q process.servers ≡ none
      → find q process'.servers ≡ none
  find_absent process process' q same e = elim (Option-cases (find q process'.servers)) [
    | inl gone ↦ gone
    | inr (t, found) ↦ ground (arith, same q)
  ]

  polled-ApiInv :
      (api : Api steam D) (process : Process steam D)
      → ApiInv api
      → Inv process
      → SameServers steam api.process process
      → ApiInv (record api { process = process })
  polled-ApiInv api process v sound same = record {
    servers_sound = sound;
    own_impl = λ p k e.
        let (impl, s, found) = v.own_impl p k e in
        let (t, kept) = find_kept api.process process (suc p) s same found in (impl, t, kept);
    fresh = λ p h. ((v.fresh p h).0, find_absent api.process process p same (v.fresh p h).1);
  }

  Step-ApiInv :
      steam.is_started ≡ true → (api api' : Api steam D) → Step api api' → ApiInv api → ApiInv api'
  Step-ApiInv is_started api _ (performed c api' live e) v =
      let (after, e', v') = perform_total is_started c api v live in
      let reached : after ≡ api' = cc (sym e' ∙ e) in subst ApiInv reached v'
  Step-ApiInv is_started api _ (polled p process e) v =
      let (sound, same) = poll_sound steam call p api.process process v.servers_sound e in
      polled-ApiInv api process v sound same

  pub Reachable-ApiInv : steam.is_started ≡ true → (api : Api steam D) → Reachable api → ApiInv api
  Reachable-ApiInv is_started _ (begun w) = new_api-ApiInv w
  Reachable-ApiInv is_started _ (then_step before api reached step) =
      Step-ApiInv is_started before api step (Reachable-ApiInv is_started before reached)

  -- Where the library was started, so that SteamNetworkingSockets() gives its interface, and is
  -- not ended: in every state that is reached from the start by calls of the C interface through
  -- null or through pointers to servers that were created and not destroyed, and by polls that do
  -- not fault, in any order, each further call through such a pointer, other than a poll, ends
  -- without a fault, in a state that is reached again and in which the servers are sound.
  pub calls_total :
      steam.is_started ≡ true
      → (api : Api steam D) (c : Call) → Reachable api
      → IsLive (target c) api
      → (api' : Api steam D) × (perform c api ≡ some api') × Reachable api' × ApiInv api'
  calls_total is_started api c reached live =
      let (api', e, v) =
        perform_total is_started c api (Reachable-ApiInv is_started api reached) live in
      (api', e, then_step api api' reached (performed c api' live e), v)
