-- ===== src/Server/Instance.antt =====
-- What stopping one server does to the status changes of another one.
use kb_networking_cpp.Prelude.{ℕ, ◌≡◌, ◌≢◌, ap, true, List, some, ==_of_ne, arith}
use kb_networking_cpp.Prelude.Table.{find, insert, find-insert}
use kb_networking_cpp.Steam.{Steam, StatusChange}
use kb_networking_cpp.Server.Object.{UdpServer, stop}
use kb_networking_cpp.Server.Process.{Process, dispatch}
use kb_networking_cpp.Server.Calls.{call_method, apply_method, write_back, stop_method}
use kb_networking_cpp.Server.Dispatch.{dispatch_dropped}

module _ (steam : Steam) {D : Type 0} where
  -- Stopping one server, even one that was never started, makes every later status change of
  -- another server that runs go unseen.
  pub stop_silences_others :
      (p q : ℕ) (s runner : UdpServer steam D) (process : Process steam D)
      → (changes : List StatusChange) → find p process.servers ≡ some s
      → find q process.servers ≡ some runner
      → runner.is_running ≡ true
      → p ≢ q
      → (after : Process steam D) × (call_method (stop_method steam) p process ≡ some (tt, after))
        × (find q after.servers ≡ some runner)
        × (dispatch steam changes after ≡ some after)
  unfolding call_method apply_method write_back
  stop_silences_others p q s runner process changes at_p at_q runs other =
      let (s', h') = stop steam s process.host in
      let after : Process steam D = record { host = h'; servers = insert p s' process.servers } in
      (
        after,
        ap (λ o. apply_method (stop_method steam) p o process) at_p,
        simp (find-insert, ==_of_ne p q other, at_q),
        dispatch_dropped steam changes after (unfold stop in ground arith),
      )
