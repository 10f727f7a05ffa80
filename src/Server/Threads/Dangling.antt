-- ===== src/Server/Threads/Dangling.antt =====
-- The pointer that get_client_info of udp_server.hpp returns, while the owner disconnects its client.
use kb_networking_cpp.Prelude.{◌≡◌, refl, List, ◌∷◌, Option, none, some, arith}
use kb_networking_cpp.Prelude.Int.{ℤ}
use kb_networking_cpp.Prelude.Table.{find, erase, find-erase}
use kb_networking_cpp.Packet.Bytes.{Bytes}
use kb_networking_cpp.Steam.{Steam, Message}
use kb_networking_cpp.Server.Object.{UdpServer, ClientInfo, Host, get_client_info, disconnect}
use kb_networking_cpp.Server.Threads.{
  at_messages, at_call, thread_step, with_callback, looked_up, called, then_release,
}

module _ (steam : Steam) {D : Type 0}
    (call : D → ClientInfo → Bytes → steam.World → steam.World) where
  fault :
      (callback : D) (found : Option ClientInfo) (message : Message) (rest : List Message)
      (s : UdpServer steam D) (h : Host steam)
      → found ≡ none
      → then_release steam call
          (called steam call (some callback) found message h.world)
          message
          rest
          s
          h
        ≡ none
  unfolding then_release called
  fault callback found message rest s h e = rw (e, called) refl

  -- The network thread looks the client of a message up, and the owner disconnects that client
  -- before the thread calls the data callback: then the call faults, whatever the library did
  -- meanwhile, since the pointer leads to an erased node.
  pub disconnect_dangles :
      (message : Message) (rest : List Message) (callback : D) (client : ClientInfo) (reason : ℤ)
      (s : UdpServer steam D) (h h' : Host steam)
      → s.data_received_callback ≡ some callback
      → find message.conn s.clients ≡ some client
      → (thread_step steam call (at_messages (message ∷ rest)) s h
          ≡ some (at_call message rest, s, h))
        × (thread_step steam call
              (at_call message rest)
              (disconnect steam message.conn reason s h.world).0
              h'
            ≡ none)
  unfolding thread_step with_callback looked_up disconnect get_client_info
  disconnect_dangles message rest callback client reason s h h' set found = (
    rw (set, found, with_callback, looked_up) refl,
    rw set (
        fault callback (find message.conn (erase message.conn s.clients)) message rest _ h'
          (ground (arith, find-erase message.conn message.conn s.clients))),
  )
