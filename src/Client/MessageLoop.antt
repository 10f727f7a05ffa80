-- ===== src/Client/MessageLoop.antt =====
-- The two loops of UdpClient::poll_messages over its array of messages, udp_client.cpp, index by index
-- and with their unsigned bound, against the lists that `handle_received` goes through.
use kb_networking_cpp.Prelude.{
  ℕ, ◌≡◌, ◌-◌, ◌%◌, ◌^◌, ◌≤◌, refl, ◌∙◌, ap, List, [], ◌∷◌, Option, none, some, arith, length,
  index_loop, each, index_loop_all, index_loop_beyond,
}
use kb_networking_cpp.Prelude.Int.{ℤ, pos, negsuc}
use kb_networking_cpp.Steam.{Steam, Message, messages, invalid_handle}
use kb_networking_cpp.Client.Object.{UdpClient, k_default_poll_message_count}
use kb_networking_cpp.Client.Poll.{
  IncomingViewMessage, view, call_each, call_messages, release_all, handle_received,
}

-- The i32 message_count, compared with a size_t: modulo 2^64.
unfoldable pub message_bound : ℤ → ℕ
message_bound (pos n) = n % 2 ^ 64
message_bound (negsuc n) = 2 ^ 64 - 1 - n % 2 ^ 64

module _ (steam : Steam) {D X : Type 0}
    (call : D → IncomingViewMessage → X × steam.World → X × steam.World) where
  open steam use {World}

  -- The bodies of the loops.
  unfoldable pub view_body : D → ℕ → Message → X × World → X × World
  view_body callback conn message e = call callback (view conn message) e

  unfoldable pub release_body : Message → X × World → X × World
  release_body message (x, w) = (x, steam.release message w)

  abbrev then_release : ℤ → List Message → Option (X × World) → Option (X × World)
  then_release result array none = none
  then_release result array (some e) = index_loop release_body (message_bound result) 0 array e

  abbrev view_loop : Option D → ℕ → ℤ → List Message → X × World → Option (X × World)
  view_loop none conn result array e = some e
  view_loop (some callback) conn result array e =
      index_loop (view_body callback conn) (message_bound result) 0 array e

  -- Both loops over the array, whose first elements the library has written; an index outside of
  -- them is a fault: none.
  unfoldable pub message_loops : ℤ → List Message → UdpClient D → X × World → Option (X × World)
  unfolding message_bound view_body release_body
  message_loops result array c e =
      then_release result array (view_loop c.on_data_received c.conn result array e)

  each-call_each :
      (callback : D) (conn : ℕ) (received : List Message) (e : X × World)
      → each (view_body callback conn) received e ≡ call_each steam call callback conn received e
  unfolding call_each view_body
  each-call_each callback conn [] e = refl
  each-call_each callback conn (message ∷ rest) e = each-call_each callback conn rest _

  each-release_all :
      (received : List Message) (e : X × World)
      → each release_body received e ≡ release_all steam received e
  unfolding release_all release_body
  each-release_all [] e = refl
  each-release_all (message ∷ rest) e = each-release_all rest _

  view_loop-inside :
      (found : Option D) (conn : ℕ) (array : List Message) (e : X × World)
      → message_bound (pos (length array)) ≡ length array
      → view_loop found conn (pos (length array)) array e
        ≡ some (call_messages steam call found conn array e)
  unfolding call_messages
  view_loop-inside none conn array e whole = refl
  view_loop-inside (some callback) conn array e whole = rw whole (
      index_loop_all (view_body callback conn) array e
      ∙ ap some (each-call_each callback conn array e))

  release-inside :
      (array : List Message) (e : X × World)
      → message_bound (pos (length array)) ≡ length array
      → then_release (pos (length array)) array (some e) ≡ some (release_all steam array e)
  release-inside array e whole =
      rw whole (index_loop_all release_body array e ∙ ap some (each-release_all array e))

  view_loop-outside :
      (found : Option D) (conn : ℕ) (array : List Message) (e : X × World)
      → length array ≤ k_default_poll_message_count
      → then_release (negsuc 0) array (view_loop found conn (negsuc 0) array e) ≡ none
  unfolding message_bound
  view_loop-outside none conn array e small =
      index_loop_beyond release_body (2 ^ 64 - 1) 0 array e (omega arith) (omega arith)
  view_loop-outside (some callback) conn array e small = ap (then_release (negsuc 0) array) (
      index_loop_beyond (view_body callback conn) (2 ^ 64 - 1) 0 array e (omega arith)
        (omega arith))

  -- Where the library returns the number of the messages that it has put into the array of 16, the
  -- loops of the client's poll stay inside of them: all callbacks, and then all releases, in
  -- order; where it returns -1, they leave the array, whatever it holds and whether or not there
  -- is a callback.
  pub message_loops_bounds :
      (array : List Message) (c : UdpClient D) (e : X × World)
      → length array ≤ k_default_poll_message_count
      → (message_loops (pos (length array)) array c e
          ≡ handle_received steam call c (messages array) e)
        × (message_loops (negsuc 0) array c e ≡ handle_received steam call c invalid_handle e)
  unfolding message_loops handle_received
  message_loops_bounds array c e small =
      let whole : message_bound (pos (length array)) ≡ length array =
        unfold message_bound in omega arith in
      (
        ap (then_release (pos (length array)) array)
              (view_loop-inside c.on_data_received c.conn array e whole)
            ∙ release-inside array (call_messages steam call c.on_data_received c.conn array e)
                whole,
        view_loop-outside c.on_data_received c.conn array e small,
      )
