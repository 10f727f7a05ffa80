-- ===== src/Server/MessageLoop.antt =====
-- The loop of UdpServer::poll over its array of messages, udp_server.cpp, index by index and with its
-- unsigned count, against the list of messages that `deliver` goes through.
use kb_networking_cpp.Prelude.{
  ℕ, ◌≡◌, ◌-◌, ◌%◌, ◌^◌, ◌≤◌, refl, ◌∙◌, ap, List, [], ◌∷◌, Option, none, some, arith, length,
  index_loop, each, index_loop_all, index_loop_beyond,
}
use kb_networking_cpp.Prelude.Int.{ℤ, pos, negsuc}
use kb_networking_cpp.Packet.Bytes.{Bytes}
use kb_networking_cpp.Steam.{Steam, Message}
use kb_networking_cpp.Server.Object.{UdpServer, ClientInfo, k_message_count, get_client_info}
use kb_networking_cpp.Server.Process.{call_data_callback, deliver}

-- const u32 message_count = ..., of a result of type int: modulo 2^32.
unfoldable pub message_count : ℤ → ℕ
message_count (pos n) = n % 2 ^ 32
message_count (negsuc n) = 2 ^ 32 - 1 - n % 2 ^ 32

module _ (steam : Steam) {D : Type 0} (call : D → ClientInfo → Bytes → steam.World → steam.World)
    (s : UdpServer steam D) where
  open steam use {World}

  -- The body of the loop.
  unfoldable pub poll_body : Message → World → World
  poll_body message w = steam.release message (
      call_data_callback steam call s.data_received_callback (get_client_info steam message.conn s)
        message.payload w)

  -- The loop over the array, whose first elements the library has written. An index outside of them is a
  -- fault: none.
  unfoldable pub message_loop : ℤ → List Message → World → Option World
  unfolding message_count poll_body
  message_loop result array w = index_loop poll_body (message_count result) 0 array w

  each-deliver :
      (received : List Message) (w : World)
      → each poll_body received w ≡ deliver steam call received s w
  unfolding deliver poll_body
  each-deliver [] w = refl
  each-deliver (message ∷ rest) w = each-deliver rest _

  -- Where the library returns the number of the messages that it has put into the array of 32, the
  -- loop of the server's poll stays inside of them and handles each of them once, in order; where
  -- it returns -1, the count is 2^32 - 1, and the loop leaves the array whatever it holds.
  pub message_loop_bounds :
      (array : List Message) (w : World)
      → length array ≤ k_message_count
      → (message_loop (pos (length array)) array w ≡ some (deliver steam call array s w))
        × (message_loop (negsuc 0) array w ≡ none)
  unfolding message_loop message_count
  message_loop_bounds array w small =
      let whole : length array % 2 ^ 32 ≡ length array = omega arith in
      (
        rw whole (index_loop_all poll_body array w ∙ ap some (each-deliver array w)),
        index_loop_beyond poll_body (2 ^ 32 - 1) 0 array w (omega arith) (omega arith),
      )
