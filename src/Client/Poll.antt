-- ===== src/Client/Poll.antt =====
-- Polling a UdpClient, and its network loop. The owner of the client may keep a state of its own of
-- type X, which the data callback changes.
use kb_networking_cpp.Prelude.{
  ℕ, zero, suc, not, ◌||◌, List, [], ◌∷◌, Option, none, some, if◌then◌else◌, ◌==◌, length, take,
}
use kb_networking_cpp.Packet.Bytes.{Bytes, u32}
use kb_networking_cpp.Packet.Header.{k_invalid_connection}
use kb_networking_cpp.Steam.{Steam, Message, StatusChange, Received, messages, invalid_handle}
use kb_networking_cpp.Client.Object.{
  UdpClient, ClientHost, k_default_poll_message_count, on_connection_status_changed,
}

-- incoming_view_message_t
pub record IncomingViewMessage : Type 0 where
  pub conn : ℕ
  pub buffer : Bytes

abbrev pub if_polled : {A : Type 0} → (A → Option A) → Option A → Option A
if_polled again none = none
if_polled again (some r) = again r

unfoldable pub view : ℕ → Message → IncomingViewMessage
view conn message = record {
  conn = conn;
  buffer = take (u32 (length message.payload)) message.payload;
}

module _ (steam : Steam) {X : Type 0} where
  unfoldable pub release_all : List Message → X × steam.World → X × steam.World
  release_all [] e = e
  release_all (message ∷ rest) (x, w) = release_all rest (x, steam.release message w)

module _ (steam : Steam) {D : Type 0} where
  -- The static callback: a status change goes to the instance. The host has no other client.
  unfoldable pub dispatch :
      Option ℕ → List StatusChange → UdpClient D → steam.World → UdpClient D × steam.World
  dispatch none changes c w = (c, w)
  dispatch (some p) [] c w = (c, w)
  dispatch (some p) (change ∷ changes) c w =
      let (c', w') = on_connection_status_changed steam change c w in
      dispatch (some p) changes c' w'

module _ (steam : Steam) {D X : Type 0} where
  open steam use {World}

  module _ (call : D → IncomingViewMessage → X × World → X × World) where
    unfoldable pub call_each : D → ℕ → List Message → X × World → X × World
    unfolding view
    call_each callback conn [] e = e
    call_each callback conn (message ∷ rest) e =
        call_each callback conn rest (call callback (view conn message) e)

    unfoldable pub call_messages : Option D → ℕ → List Message → X × World → X × World
    call_messages none conn received e = e
    call_messages (some callback) conn received e = call_each callback conn received e

    -- The loops over the messages: all callbacks, and then all releases. A count of -1 is compared as
    -- an unsigned number, and the loops run out of the array: none.
    unfoldable pub handle_received : UdpClient D → Received → X × World → Option (X × World)
    unfolding call_messages release_all
    handle_received c invalid_handle e = none
    handle_received c (messages received) e =
        some (release_all steam received (call_messages c.on_data_received c.conn received e))

    unfoldable pub poll_messages : UdpClient D → X → World → Option (X × World)
    unfolding handle_received
    poll_messages c x w =
        let (received, w') =
          steam.receive_messages_on_connection c.conn k_default_poll_message_count w in
        let handled = handle_received c received (x, w') in
        if not c.has_interface || c.conn == k_invalid_connection then some (x, w) else handled

  module _ (call : D → IncomingViewMessage → X × World → X × World) where
    unfoldable pub run_callbacks :
        UdpClient D
        → ClientHost steam
        → Option (X × World)
        → Option (UdpClient D × X × ClientHost steam)
    run_callbacks c h none = none
    run_callbacks c h (some (x, w)) =
        let (changes, w') = steam.run_callbacks w in
        let (c', w'') = dispatch steam h.instance_ptr changes c w' in
        if c.has_interface
        then some (c', x, record h { world = w'' })
        else some (c, x, record h { world = w })

    unfoldable pub poll :
        UdpClient D → X → ClientHost steam → Option (UdpClient D × X × ClientHost steam)
    unfolding run_callbacks
    poll c x h =
        let polled = run_callbacks c h (poll_messages call c x h.world) in
        if not c.running then some (c, x, h) else polled

    -- At most so many rounds of the loop of the network thread.
    unfoldable pub network_loop :
        ℕ → UdpClient D → X → ClientHost steam → Option (UdpClient D × X × ClientHost steam)
    network_loop zero c x h = some (c, x, h)
    network_loop (suc rounds) c x h =
        let again = λ (r : UdpClient D × X × ClientHost steam). network_loop rounds r.0 r.1 r.2 in
        let rest = if_polled again (poll c x h) in if c.running then rest else some (c, x, h)
