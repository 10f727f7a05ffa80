-- ===== src/Api/Contract.antt =====
-- What a user of the C interface, kb_server.cpp, sees of its servers: for each handle whether the
-- server runs and on which port, and how the calls change that.
pub mod Seen
pub mod Methods
pub mod Lifetimes
pub mod Refinement
pub mod Runs
use kb_networking_cpp.Prelude.{ℕ, ◌≡◌, Bool, true, false, Option, none, some, if◌then◌else◌, ◌==◌}
use kb_networking_cpp.Prelude.Table.{Table, find}
use kb_networking_cpp.Steam.{Steam}
use kb_networking_cpp.Server.Object.{UdpServer}
use kb_networking_cpp.Server.Dispatch.{seen_server}
use kb_networking_cpp.Api.Calls.{
  Api, KbServer, kb_server_create, kb_server_destroy, kb_server_stop, kb_server_start_async,
  kb_server_start_manual, kb_server_send_raw, kb_server_broadcast_raw, kb_server_disconnect,
  kb_server_is_running, kb_server_port,
}
use kb_networking_cpp.Api.Histories.{
  Call, creates, destroys, stops, asks_running, asks_port, starts_async, starts_manual, sends,
  broadcasts, disconnects,
}

-- What a call returns.
pub data Reply : Type 0 where
  nothing : Reply
  pointer : Option ℕ → Reply
  boolean : Bool → Reply
  number : ℕ → Reply

-- By the handles: nothing, or whether the server runs, and its port.
abbrev pub Contract : Type 0
Contract = ℕ → Option (Bool × ℕ)

abbrev pub stopped_entry : Option (Bool × ℕ) → Option (Bool × ℕ)
stopped_entry none = none
stopped_entry (some (running, port)) = some (false, port)

-- How a call that returned the reply changes what is seen.
abbrev pub started_contract : Option ℕ → ℕ → Reply → Contract → Contract
started_contract (some p) port (boolean true) f q = if p == q then some (true, port) else f q
started_contract p port reply f q = f q

abbrev pub created_contract : Reply → Contract → Contract
created_contract (pointer (some p)) f q = if p == q then some (false, 0) else f q
created_contract reply f q = f q

abbrev pub at_pointer : Option ℕ → (Option (Bool × ℕ) → Option (Bool × ℕ)) → Contract → Contract
at_pointer none change f q = f q
at_pointer (some p) change f q = if p == q then change (f q) else f q

abbrev pub after_call : Call → Reply → Contract → Contract
after_call creates reply f = created_contract reply f
after_call (destroys p) reply f = at_pointer p (λ o. none) f
after_call (stops p) reply f = at_pointer p stopped_entry f
after_call (starts_async p port) reply f = started_contract p port reply f
after_call (starts_manual p port) reply f = started_contract p port reply f
after_call call reply f = f

-- What a reply to a start of what was seen says: it failed, or the server did not run.
abbrev pub SaysStart : Reply → Option (Bool × ℕ) → Type 0
SaysStart (boolean true) o = (n : ℕ) × (o ≡ some (false, n))
SaysStart (boolean false) o = Unit {0}
SaysStart reply o = ⊥

abbrev pub SaysBoolean : Reply → Type 0
SaysBoolean (boolean b) = Unit {0}
SaysBoolean reply = ⊥

-- What a reply to a call says of what was seen before it. No call replies in another way.
abbrev pub Says : Call → Reply → Contract → Type 0
Says creates (pointer (some p)) f = f p ≡ none
Says (starts_async (some p) port) reply f = SaysStart reply (f p)
Says (starts_async none port) reply f = reply ≡ boolean false
Says (starts_manual (some p) port) reply f = SaysStart reply (f p)
Says (starts_manual none port) reply f = reply ≡ boolean false
Says (asks_running (some p)) (boolean b) f = (n : ℕ) × (f p ≡ some (b, n))
Says (asks_running none) reply f = reply ≡ boolean false
Says (asks_port (some p)) (number n) f = (b : Bool) × (f p ≡ some (b, n))
Says (asks_port none) reply f = reply ≡ number 0
Says (sends (some p) c d n r) reply f = SaysBoolean reply
Says (sends none c d n r) reply f = reply ≡ boolean false
Says (broadcasts (some p) d n r) reply f = SaysBoolean reply
Says (broadcasts none d n r) reply f = reply ≡ boolean false
Says (destroys p) nothing f = Unit {0}
Says (stops p) nothing f = Unit {0}
Says (disconnects p c r) nothing f = Unit {0}
Says call reply f = ⊥

module _ {steam : Steam} {D : Type 0} where
  abbrev pub seen_handle : Option KbServer → Table (UdpServer steam D) → Option (Bool × ℕ)
  seen_handle none servers = none
  seen_handle (some k) servers = seen_server (find k.impl servers)

  unfoldable pub seen : Api steam D → Contract
  seen api p = seen_handle (find p api.handles) api.process.servers

  abbrev pub replied :
      {A : Type 0} → (A → Reply) → Option (A × Api steam D) → Option (Reply × Api steam D)
  replied f none = none
  replied f (some (a, api)) = some (f a, api)

  -- A call, with what it returns.
  unfoldable pub reply_of : Call → Api steam D → Option (Reply × Api steam D)
  reply_of creates api = replied pointer (kb_server_create steam api)
  reply_of (destroys p) api = replied (λ a. nothing) (kb_server_destroy steam p api)
  reply_of (asks_running p) api = replied boolean (kb_server_is_running steam p api)
  reply_of (asks_port p) api = replied number (kb_server_port steam p api)
  reply_of (stops p) api = replied (λ a. nothing) (kb_server_stop steam p api)
  reply_of (starts_async p port) api = replied boolean (kb_server_start_async steam p port api)
  reply_of (starts_manual p port) api = replied boolean (kb_server_start_manual steam p port api)
  reply_of (sends p c d n r) api = replied boolean (kb_server_send_raw steam p c d n r api)
  reply_of (broadcasts p d n r) api = replied boolean (kb_server_broadcast_raw steam p d n r api)
  reply_of (disconnects p c r) api = replied (λ a. nothing) (kb_server_disconnect steam p c r api)
