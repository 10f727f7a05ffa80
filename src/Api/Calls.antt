-- ===== src/Api/Calls.antt =====
-- The functions of kb_server.cpp.
use kb_networking_cpp.Prelude.{ℕ, suc, Bool, true, false, Option, none, some}
use kb_networking_cpp.Prelude.Int.{ℤ}
use kb_networking_cpp.Prelude.Table.{Table, find, insert, erase}
use kb_networking_cpp.Packet.Bytes.{Bytes}
use kb_networking_cpp.Steam.{Steam}
use kb_networking_cpp.Server.Object.{UdpServer, ClientInfo}
use kb_networking_cpp.Server.Process.{Process, poll}
use kb_networking_cpp.Server.Calls.{
  Method, call_method, start_manual_method, start_async_method, stop_method, send_method,
  broadcast_method, disconnect_method, create_server, delete_server,
}
use kb_networking_cpp.Api.Exec.{Exec, pure, ◌>>=◌, ◌>>◌}

-- struct kb_server. Its callbacks are function pointers, which nothing sets or calls.
pub record KbServer : Type 0 where
  pub impl : ℕ
  pub on_data : Option ℕ
  pub on_connect : Option ℕ
  pub on_disconnect : Option ℕ
  pub is_async : Bool

pub record Api (steam : Steam) (D : Type 0) : Type 0 where
  pub process : Process steam D
  pub handles : Table KbServer
  pub next_address : ℕ

abbrev pub M : Steam → Type 0 → Type 0 → Type 0
M steam D A = Exec (Api steam D) A

module _ (steam : Steam) {D : Type 0} where
  -- *p_server
  unfoldable pub loaded : Option KbServer → Api steam D → Option (KbServer × Api steam D)
  loaded none api = none
  loaded (some k) api = some (k, api)

  unfoldable pub load : ℕ → M steam D KbServer
  unfolding loaded
  load p api = loaded (find p api.handles) api

  unfoldable pub store : ℕ → KbServer → M steam D (Unit {0})
  store p k api = some (tt, record api { handles = insert p k api.handles })

  unfoldable pub on_process :
      {A : Type 0} → Option (A × Process steam D) → Api steam D → Option (A × Api steam D)
  on_process none api = none
  on_process (some (a, process)) api = some (a, record api { process = process })

  -- p_server->m_impl->method(...)
  unfoldable pub call_impl : {A : Type 0} → Method steam D A → ℕ → M steam D A
  unfolding on_process
  call_impl method impl api = on_process (call_method method impl api.process) api

  unfoldable pub with_process : Option (Process steam D) → M steam D (Unit {0})
  with_process none api = none
  with_process (some process) api = some (tt, record api { process = process })

  -- delete p_server->m_impl
  unfoldable pub delete_impl : ℕ → M steam D (Unit {0})
  unfolding with_process
  delete_impl impl api = with_process (delete_server steam impl api.process) api

  unfoldable pub poll_impl :
      (D → ClientInfo → Bytes → steam.World → steam.World) → ℕ → M steam D (Unit {0})
  unfolding with_process
  poll_impl call impl api = with_process (poll steam call impl api.process) api

  unfoldable pub delete_handle : ℕ → M steam D (Unit {0})
  delete_handle p api = some (tt, record api { handles = erase p api.handles })

  unfoldable pub kb_server_create : M steam D (Option ℕ)
  kb_server_create api =
      let p = api.next_address in
      let k : KbServer = record {
        impl = suc p;
        on_data = none;
        on_connect = none;
        on_disconnect = none;
        is_async = false;
      } in
      some (
        some p,
        record {
          process = create_server steam (suc p) api.process;
          handles = insert p k api.handles;
          next_address = suc (suc p);
        },
      )

  unfoldable pub kb_server_stop : Option ℕ → M steam D (Unit {0})
  kb_server_stop none = pure tt
  kb_server_stop (some p) = do k ← load p; call_impl (stop_method steam) k.impl

  unfoldable pub kb_server_destroy : Option ℕ → M steam D (Unit {0})
  unfolding kb_server_stop
  kb_server_destroy none = pure tt
  kb_server_destroy (some p) = do
    kb_server_stop (some p)
    k ← load p
    delete_impl k.impl
    delete_handle p

  unfoldable pub kb_server_start_async : Option ℕ → ℕ → M steam D Bool
  kb_server_start_async none p_port = pure false
  kb_server_start_async (some p) p_port = do
    k ← load p
    store p (record k { is_async = true })
    call_impl (start_async_method steam p_port) k.impl

  unfoldable pub kb_server_start_manual : Option ℕ → ℕ → M steam D Bool
  kb_server_start_manual none p_port = pure false
  kb_server_start_manual (some p) p_port = do
    k ← load p
    call_impl (start_manual_method steam p_port) k.impl

  unfoldable pub kb_server_poll :
      (D → ClientInfo → Bytes → steam.World → steam.World) → Option ℕ → M steam D (Unit {0})
  kb_server_poll call none = pure tt
  kb_server_poll call (some p) = do k ← load p; poll_impl call k.impl

  unfoldable pub kb_server_send_raw : Option ℕ → ℕ → Bytes → ℕ → Bool → M steam D Bool
  kb_server_send_raw none p_conn p_data p_len p_reliable = pure false
  kb_server_send_raw (some p) p_conn p_data p_len p_reliable = do
    k ← load p
    call_impl (send_method steam p_conn p_data p_len p_reliable) k.impl

  unfoldable pub kb_server_broadcast_raw : Option ℕ → Bytes → ℕ → Bool → M steam D Bool
  kb_server_broadcast_raw none p_data p_len p_reliable = pure false
  kb_server_broadcast_raw (some p) p_data p_len p_reliable = do
    k ← load p
    call_impl (broadcast_method steam p_data p_len p_reliable) k.impl

  unfoldable pub kb_server_disconnect : Option ℕ → ℕ → ℤ → M steam D (Unit {0})
  kb_server_disconnect none p_conn p_reason_code = pure tt
  kb_server_disconnect (some p) p_conn p_reason_code = do
    k ← load p
    call_impl (disconnect_method steam p_conn p_reason_code) k.impl

  abbrev pub query_method : {A : Type 0} → (UdpServer steam D → A) → Method steam D A
  query_method f s h = some (f s, s, h)

  unfoldable pub kb_server_is_running : Option ℕ → M steam D Bool
  kb_server_is_running none = pure false
  kb_server_is_running (some p) = do k ← load p; call_impl (query_method (λ s. s.is_running)) k.impl

  unfoldable pub kb_server_port : Option ℕ → M steam D ℕ
  kb_server_port none = pure 0
  kb_server_port (some p) = do k ← load p; call_impl (query_method (λ s. s.port)) k.impl
