-- ===== src/Server/Threads/Groups.antt =====
-- The poll group that the network thread of udp_server.cpp receives on: that it is not destroyed while the
-- thread lives.
use Prim.Native.String.{String}
use kb_networking_cpp.Prelude.{
  ℕ, ◌≢◌, Bool, true, false, List, [], ◌∷◌, Option, none, some, Bool-cases, inl, inr, if◌then◌else◌,
  ◌==◌, not,
}
use kb_networking_cpp.Prelude.Int.{ℤ, pos}
use kb_networking_cpp.Packet.Bytes.{Bytes}
use kb_networking_cpp.Prelude.Table.{keys}
use kb_networking_cpp.Steam.{Steam, Message, StatusChange, invalid_handle}
use kb_networking_cpp.Server.Object.{
  UdpServer, ClientInfo, k_message_count, k_invalid_poll_group, send, send_each, broadcast,
  get_client_info, is_empty,
}
use kb_networking_cpp.Server.Status.{
  on_connection_status_changed, on_closed, on_connecting, status_cases, call_client_callback,
  was_connected,
}

-- What the library documents of poll groups: a group that CreatePollGroup gave can be received on
-- until it is destroyed, and DestroyPollGroup alone destroys it.
pub record Groups (steam : Steam) : Type 1 where
  pub IsGroup : ℕ → steam.World → Type 0
  pub created :
      (w : steam.World)
      → (steam.create_poll_group w).0 ≢ k_invalid_poll_group
      → IsGroup (steam.create_poll_group w).0 (steam.create_poll_group w).1
  pub known :
      (g : ℕ) (w : steam.World)
      → IsGroup g w
      → (steam.receive_messages_on_poll_group g k_message_count w).0 ≢ invalid_handle
  pub destroyed : (g : ℕ) (w : steam.World) → ¬ IsGroup g (steam.destroy_poll_group g w)
  pub behind_receive :
      (g n : ℕ) (w : steam.World)
      → IsGroup g w
      → IsGroup g (steam.receive_messages_on_poll_group g n w).1
  pub behind_release :
      (g : ℕ) (m : Message) (w : steam.World) → IsGroup g w → IsGroup g (steam.release m w)
  pub behind_callbacks :
      (g : ℕ) (w : steam.World) → IsGroup g w → IsGroup g (steam.run_callbacks w).1
  pub behind_close :
      (g conn : ℕ) (reason : ℤ) (text : Option String) (linger : Bool) (w : steam.World)
      → IsGroup g w
      → IsGroup g (steam.close_connection conn reason text linger w)
  pub behind_accept :
      (g conn : ℕ) (w : steam.World) → IsGroup g w → IsGroup g (steam.accept_connection conn w).1
  pub behind_set :
      (g conn group : ℕ) (w : steam.World)
      → IsGroup g w
      → IsGroup g (steam.set_connection_poll_group conn group w).1
  pub behind_info :
      (g conn : ℕ) (w : steam.World) → IsGroup g w → IsGroup g (steam.get_connection_info conn w).1
  pub behind_send :
      (g conn : ℕ) (d : Bytes) (n flags : ℕ) (w : steam.World)
      → IsGroup g w
      → IsGroup g (steam.send_message_to_connection conn d n flags w).1

-- What holds of both branches holds of the test.
either {ℓ ℓ'} :
    {A : Type ℓ} (P : A → Type ℓ') (b : Bool) {x y : A} → P x → P y → P (if b then x else y)
either P true v u = v
either P false v u = u

module _ {steam : Steam} (groups : Groups steam) where
  open steam use {World}

  -- The callbacks of the application destroy no poll group.
  abbrev pub Keeps : (World → World) → Type 0
  Keeps f = (g : ℕ) (w : World) → groups.IsGroup g w → groups.IsGroup g (f w)

  pub data KeepsEach : Option (ClientInfo → World → World) → Type 0 where
    unset : KeepsEach none
    keeping :
        (f : ClientInfo → World → World)
        → ((client : ClientInfo) → Keeps (f client))
        → KeepsEach (some f)

  call-Keeps :
      (callback : Option (ClientInfo → World → World)) (client : Option ClientInfo)
      → KeepsEach callback
      → Keeps (call_client_callback steam callback client)
  call-Keeps none client k g w v = v
  call-Keeps (some f) none k g w v = v
  call-Keeps (some f) (some client) (keeping _ k) g w v = k client g w v

  module _ {D : Type 0} where
    pub record CallbacksKeep (s : UdpServer steam D) : Type 0 where
      pub connected : KeepsEach s.client_connected_callback
      pub disconnected : KeepsEach s.client_disconnected_callback

module _ (steam : Steam) (groups : Groups steam) where
  open steam use {World}

  pub send-IsGroup :
      (g conn : ℕ) (d : Bytes) (n : ℕ) (reliable : Bool) (w : World)
      → groups.IsGroup g w
      → groups.IsGroup g (send steam conn d n reliable w).1
  unfolding send
  send-IsGroup g conn d n reliable w v = groups.behind_send g conn d n _ w v

  send_each-IsGroup :
      (g : ℕ) (conns : List ℕ) (d : Bytes) (n : ℕ) (reliable ok : Bool) (w : World)
      → groups.IsGroup g w
      → groups.IsGroup g (send_each steam conns d n reliable ok w).1
  unfolding send_each
  send_each-IsGroup g [] d n reliable ok w v = v
  send_each-IsGroup g (conn ∷ conns) d n reliable ok w v =
      send_each-IsGroup g conns d n reliable _ _ (send-IsGroup g conn d n reliable w v)

module _ (steam : Steam) (groups : Groups steam) {D : Type 0} where
  open steam use {World}

  -- The group is left, or one that was given.
  closed-IsGroup :
      (g : ℕ) (change : StatusChange) (s : UdpServer steam D) (w : World)
      → CallbacksKeep groups s
      → groups.IsGroup g w
      → groups.IsGroup g (on_closed steam change s w).1
  unfolding on_closed
  closed-IsGroup g change s w k v = groups.behind_close g change.conn _ _ _ _ (
      either (λ w'. groups.IsGroup g w') (was_connected change.old_state)
        (call-Keeps groups s.client_disconnected_callback (get_client_info steam change.conn s)
          k.disconnected g w v)
        v)

  connecting-IsGroup :
      (g conn : ℕ) (s : UdpServer steam D) (w : World)
      → CallbacksKeep groups s
      → groups.IsGroup g w
      → groups.IsGroup g (on_connecting steam conn s w).1
  unfolding on_connecting
  connecting-IsGroup g conn s w k v =
      let v1 = groups.behind_accept g conn w v in
      let v2 = groups.behind_set g conn s.poll_group _ v1 in
      let v3 = groups.behind_info g conn _ v2 in
      let accepted = steam.accept_connection conn w in
      let grouped = steam.set_connection_poll_group conn s.poll_group accepted.1 in
      elim (Bool-cases (not (accepted.0 == steam.result_ok))) [
        | inl refused ↦ rw refused (groups.behind_close g conn (pos 0) none false accepted.1 v1)
        | inr kept ↦ elim (Bool-cases (not grouped.0)) [
          | inl ungrouped ↦
              rw (kept, ungrouped) (groups.behind_close g conn (pos 0) none false grouped.1 v2)
          | inr stays ↦
              rw (kept, stays)
                (call-Keeps groups s.client_connected_callback (some _) k.connected g _ v3)
        ]
      ]

  pub status-IsGroup :
      (g : ℕ) (change : StatusChange) (s : UdpServer steam D) (w : World)
      → CallbacksKeep groups s
      → groups.IsGroup g w
      → groups.IsGroup g (on_connection_status_changed steam change s w).1
  status-IsGroup g change s w k v =
      status_cases steam (λ r. groups.IsGroup g r.1) change s w v (closed-IsGroup g change s w k v)
        (connecting-IsGroup g change.conn s w k v)

  connecting-CallbacksKeep :
      (conn : ℕ) (s : UdpServer steam D) (w : World)
      → CallbacksKeep groups s
      → CallbacksKeep groups (on_connecting steam conn s w).0
  unfolding on_connecting
  connecting-CallbacksKeep conn s w k =
      let accepted = steam.accept_connection conn w in
      let grouped = steam.set_connection_poll_group conn s.poll_group accepted.1 in
      elim (Bool-cases (not (accepted.0 == steam.result_ok))) [
        | inl refused ↦ rw refused k
        | inr kept ↦ elim (Bool-cases (not grouped.0)) [
          | inl ungrouped ↦ rw (kept, ungrouped) k
          | inr stays ↦
              rw (kept, stays) (record { connected = k.connected; disconnected = k.disconnected })
        ]
      ]

  pub status-CallbacksKeep :
      (change : StatusChange) (s : UdpServer steam D) (w : World)
      → CallbacksKeep groups s
      → CallbacksKeep groups (on_connection_status_changed steam change s w).0
  status-CallbacksKeep change s w k =
      status_cases steam (λ r. CallbacksKeep groups r.0) change s w k (unfold on_closed in k)
        (connecting-CallbacksKeep change.conn s w k)

  pub broadcast-IsGroup :
      (g : ℕ) (d : Bytes) (n : ℕ) (reliable : Bool) (s : UdpServer steam D) (w : World)
      → groups.IsGroup g w
      → groups.IsGroup g (broadcast steam d n reliable s w).1
  unfolding broadcast
  broadcast-IsGroup g d n reliable s w v = elim (Bool-cases (is_empty s.clients)) [
    | inl empty ↦ rw empty v
    | inr some_client ↦
        rw some_client (send_each-IsGroup steam groups g (keys s.clients) d n reliable true w v)
  ]
