-- ===== src/Server/Delivery.antt =====
-- Which messages reach the data callback.
use kb_networking_cpp.Prelude.{
  ◌≡◌, sym, ◌∙◌, List, [], ◌∷◌, ◌++◌, Option, none, some, Option-cases, inl, inr, map,
}
use mathlib.Core.List.{append-nil, append_assoc}
use kb_networking_cpp.Prelude.Table.{find}
use kb_networking_cpp.Packet.Bytes.{Bytes}
use kb_networking_cpp.Steam.{Steam, Message}
use kb_networking_cpp.Server.Object.{UdpServer, ClientInfo, get_client_info}
use kb_networking_cpp.Server.Process.{deliver}

with_client : Option ClientInfo → Bytes → List (ClientInfo × Bytes) → List (ClientInfo × Bytes)
with_client none payload rest = rest
with_client (some client) payload rest = (client, payload) ∷ rest

module _ (steam : Steam) {D : Type 0} (s : UdpServer steam D) where
  -- The payloads of the messages whose connection is a client, each with its client, in the order
  -- of arrival.
  pub from_clients : List Message → List (ClientInfo × Bytes)
  unfolding with_client
  from_clients [] = []
  from_clients (message ∷ rest) =
      with_client (find message.conn s.clients) message.payload (from_clients rest)

  module _ {A : Type 0} (log : steam.World → List A) (note : ClientInfo → Bytes → A)
      (call : D → ClientInfo → Bytes → steam.World → steam.World) (callback : D)
      (set : s.data_received_callback ≡ some callback) where
    -- Where the data callback appends its arguments to a log that releasing a message leaves
    -- alone, one round of a poll appends the messages whose connection is a client, once each and
    -- in order, and nothing else.
    pub deliver_lem :
        ((c : ClientInfo) (d : Bytes) (w : steam.World)
          → log (call callback c d w) ≡ log w ++ note c d ∷ [])
        → ((m : Message) (w : steam.World) → log (steam.release m w) ≡ log w)
        → (received : List Message) (w : steam.World)
        → log (deliver steam call received s w)
          ≡ log w ++ map (λ (c, d). note c d) (from_clients received)
    unfolding deliver from_clients get_client_info
    deliver_lem calls releases [] w = sym (append-nil (log w))
    deliver_lem calls releases (m ∷ received) w = elim (Option-cases (find m.conn s.clients)) [
      | inl e ↦
          simp (set, e) (deliver_lem calls releases received (steam.release m w) ∙ simp releases)
      | inr (c, e) ↦
          simp (set, e)
            (deliver_lem calls releases received (steam.release m (call callback c m.payload w))
              ∙ simp (releases, calls, append_assoc))
    ]
