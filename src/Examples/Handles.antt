-- ===== src/Examples/Handles.antt =====
-- The C interface.
use kb_networking_cpp.Prelude.{ℕ, ◌≡◌, refl, false, List, [], ◌∷◌, ◌++◌, none, some}
use kb_networking_cpp.Prelude.Table.{find, insert}
use kb_networking_cpp.Packet.Bytes.{Bytes}
use kb_networking_cpp.Steam.{Steam}
use kb_networking_cpp.Server.Object.{ClientInfo, new_server}
use kb_networking_cpp.Server.Calls.{create_server}
use kb_networking_cpp.Server.Process.{poll, poll_received, dispatch, deliver}
use kb_networking_cpp.Api.Calls.{Api, KbServer, kb_server_create}
use kb_networking_cpp.Api.Total.{ApiInv}
use kb_networking_cpp.Api.Histories.{creates, starts_async, perform}
use kb_networking_cpp.Api.Reachable.{new_api, Reachable, begun, then_step, performed, calls_total}
use kb_networking_cpp.Api.Contract.{Reply, pointer, reply_of, seen, Says}
use kb_networking_cpp.Api.Contract.Runs.{told, Run, started, then_call, then_poll, run_lem}
use kb_networking_cpp.Examples.Base.{example_steam}

abbrev steam : Steam
steam = example_steam 8 1 [] []

abbrev log_client : Unit {0} → ClientInfo → Bytes → List ℕ → List ℕ
log_client u client d w = w ++ client.conn ∷ []

abbrev handle : KbServer
handle = record {
  impl = 1;
  on_data = none;
  on_connect = none;
  on_disconnect = none;
  is_async = false;
}

-- After kb_server_create.
abbrev created : Api steam (Unit {0})
created = record {
  process = record {
    host = record { world = []; instance_ptr = none };
    servers = (1, new_server steam 1) ∷ [];
  };
  handles = (0, handle) ∷ [];
  next_address = 2;
}

create_first : perform creates (new_api steam log_client []) ≡ some created
unfolding perform kb_server_create create_server insert
create_first = refl

created-Reachable : Reachable steam log_client created
created-Reachable =
    then_step (new_api steam log_client []) created (begun [])
      (performed creates created tt create_first)

calls_total_example :
    (api' : Api steam (Unit {0})) × (perform (starts_async (some 0) 90) created ≡ some api')
    × Reachable steam log_client api'
    × ApiInv api'
calls_total_example =
    calls_total steam log_client refl created (starts_async (some 0) 90) created-Reachable
      (handle, unfold find in refl)

reply_first : reply_of creates (new_api steam log_client []) ≡ some (pointer (some 0), created)
unfolding reply_of kb_server_create create_server insert
reply_first = refl

-- A round of the network thread that brings nothing.
polled_first : poll steam log_client 1 created.process ≡ some created.process
unfolding poll poll_received dispatch deliver find new_server
polled_first = refl

created-Run : Run steam log_client ((creates, pointer (some 0)) ∷ []) created
created-Run =
    then_poll ((creates, pointer (some 0)) ∷ []) created 1 created.process
      (then_call [] (new_api steam log_client []) created creates (pointer (some 0)) (started []) tt
        reply_first)
      polled_first

run_lem_example :
    (reply : Reply) × (api' : Api steam (Unit {0})) × (reply_of (starts_async (some 0) 90) created
      ≡ some (reply, api'))
    × Run steam log_client
        ((starts_async (some 0) 90, reply) ∷ (creates, pointer (some 0)) ∷ [])
        api'
    × Says (starts_async (some 0) 90) reply (told ((creates, pointer (some 0)) ∷ []))
    × ((q : ℕ)
        → seen api' q
          ≡ told ((starts_async (some 0) 90, reply) ∷ (creates, pointer (some 0)) ∷ []) q)
run_lem_example =
    run_lem steam log_client refl ((creates, pointer (some 0)) ∷ []) created
      (starts_async (some 0) 90) created-Run ((false, 0), refl)
