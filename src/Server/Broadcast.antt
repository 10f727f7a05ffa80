-- ===== src/Server/Broadcast.antt =====
-- UdpServer::broadcast against the sends that it stands for.
use kb_networking_cpp.Prelude.{
  ℕ, ◌≡◌, ◌≢◌, ◌↔◌, refl, Bool, true, false, List, [], ◌∷◌, some, arith, if◌then◌else◌, ◌==◌,
  ==_iff, Bool-cases, inl, inr,
}
use kb_networking_cpp.Prelude.Table.{find, keys, Table}
use kb_networking_cpp.Packet.Bytes.{Bytes}
use kb_networking_cpp.Steam.{Steam}
use kb_networking_cpp.Server.Object.{UdpServer, ClientInfo, send, send_each, broadcast}

module _ (steam : Steam) (p_data : Bytes) (p_size : ℕ) (p_reliable : Bool) where
  open steam use {World}

  -- The world behind a message to each connection in turn, whether or not it could be sent.
  abbrev pub after_sends : List ℕ → World → World
  after_sends [] w = w
  after_sends (conn ∷ conns) w = after_sends conns (send steam conn p_data p_size p_reliable w).1

  -- Each of the messages could be sent.
  abbrev pub AllSent : List ℕ → World → Type 0
  AllSent [] w = Unit {0}
  AllSent (conn ∷ conns) w =
      let sent = send steam conn p_data p_size p_reliable w in
      (sent.0 ≡ true) × AllSent conns sent.1

  world-send_each :
      (conns : List ℕ) (ok : Bool) (w : World)
      → (send_each steam conns p_data p_size p_reliable ok w).1 ≡ after_sends conns w
  unfolding send_each
  world-send_each [] ok w = refl
  world-send_each (conn ∷ conns) ok w = world-send_each conns _ _

  send_each-false :
      (conns : List ℕ) (w : World)
      → (send_each steam conns p_data p_size p_reliable false w).0 ≡ false
  unfolding send_each
  send_each-false [] w = refl
  send_each-false (conn ∷ conns) w =
      let sent = send steam conn p_data p_size p_reliable w in
      elim (Bool-cases sent.0) [
        | inl e ↦ rw (e, send_each) (send_each-false conns sent.1)
        | inr e ↦ rw (e, send_each) (send_each-false conns sent.1)
      ]

  send_each-AllSent :
      (conns : List ℕ) (w : World)
      → ((send_each steam conns p_data p_size p_reliable true w).0 ≡ true) ↔ AllSent conns w
  unfolding send_each
  send_each-AllSent [] w = (λ _. tt, λ _. refl)
  send_each-AllSent (conn ∷ conns) w =
      let sent = send steam conn p_data p_size p_reliable w in
      elim (Bool-cases sent.0) [
        | inl e ↦ ground (arith, send_each-AllSent conns sent.1)
        | inr e ↦ ground (arith, send_each-false conns sent.1)
      ]

  -- A connection to which nothing can be sent makes the whole fail.
  send_each_refused :
      (c : ℕ)
      → ((w : World) → (send steam c p_data p_size p_reliable w).0 ≡ false)
      → (m : Table ClientInfo) (v : ClientInfo) (ok : Bool) (w : World) → find c m ≡ some v
      → (send_each steam (keys m) p_data p_size p_reliable ok w).0 ≡ false
  unfolding send_each find
  send_each_refused c refused [] v ok w e = cc
  send_each_refused c refused ((k, x) ∷ m) v ok w e =
      let sent = send steam k p_data p_size p_reliable w in
      elim (Bool-cases (k == c)) [
        | inl hit ↦
            let failed : sent.0 ≡ false = rw ((==_iff k c).0 hit) (refused w) in
            rw (failed, send_each) (send_each-false (keys m) sent.1)
        | inr miss ↦
            send_each_refused c refused m v (if sent.0 then ok else false) sent.1 (ground arith)
      ]

  module _ {D : Type 0} (s : UdpServer steam D) (w : World) where
    -- `broadcast` sends to every client once, in the order of their handles and whether or not the
    -- sends before could be made, and reports true exactly if there is a client and all were sent.
    pub broadcast_lem :
        (((broadcast steam p_data p_size p_reliable s w).0 ≡ true)
          ↔ ((s.clients ≢ []) × AllSent (keys s.clients) w))
        × ((broadcast steam p_data p_size p_reliable s w).1 ≡ after_sends (keys s.clients) w)
    unfolding broadcast
    broadcast_lem =
        ground
          (arith, send_each-AllSent (keys s.clients) w, world-send_each (keys s.clients) true w)

    pub broadcast_refused :
        (c : ℕ) (v : ClientInfo)
        → ((w' : World) → (send steam c p_data p_size p_reliable w').0 ≡ false)
        → find c s.clients ≡ some v
        → (broadcast steam p_data p_size p_reliable s w).0 ≡ false
    unfolding broadcast
    broadcast_refused c v refused e =
        ground (arith, send_each_refused c refused s.clients v true w e)
