-- ===== src/Server/Reentrant.antt =====
-- The message loop of UdpServer::poll, udp_server.cpp, with a data callback that calls methods of the
-- server itself: it takes the server and the world as they are and gives both back. Each message is looked
-- up in the table of clients as the callbacks before it left it.
use kb_networking_cpp.Prelude.{
  ℕ, ◌≡◌, ◌≢◌, refl, sym, ap, ◌∙◌, List, [], ◌∷◌, Option, none, some, All, arith,
}
use kb_networking_cpp.Prelude.Int.{ℤ}
use kb_networking_cpp.Prelude.Table.{find, find-erase}
use kb_networking_cpp.Packet.Bytes.{Bytes}
use kb_networking_cpp.Steam.{Steam, Message}
use kb_networking_cpp.Server.Object.{UdpServer, ClientInfo, get_client_info, disconnect}
use kb_networking_cpp.Server.Process.{call_data_callback, deliver}
use kb_networking_cpp.Server.Clients.{IsIndexed, disconnect-IsIndexed}

module _ (steam : Steam) {D : Type 0}
    (call : D
      → ClientInfo
      → Bytes
      → UdpServer steam D × steam.World
      → UdpServer steam D × steam.World) where
  open steam use {World}

  abbrev call_reentrant :
      Option D → Option ClientInfo → Bytes → UdpServer steam D × World → UdpServer steam D × World
  call_reentrant (some callback) (some client) payload e = call callback client payload e
  call_reentrant (some callback) none payload e = e
  call_reentrant none client payload e = e

  unfoldable pub deliver_reentrant :
      List Message → UdpServer steam D → World → UdpServer steam D × World
  unfolding get_client_info
  deliver_reentrant [] s w = (s, w)
  deliver_reentrant (message ∷ rest) s w =
      let (s', w') =
        call_reentrant s.data_received_callback (get_client_info steam message.conn s)
          message.payload (s, w) in
      deliver_reentrant rest s' (steam.release message w')

  abbrev called_for : Option D → Option ClientInfo → ℕ → List ℕ → List ℕ
  called_for (some callback) (some client) conn rest = conn ∷ rest
  called_for (some callback) none conn rest = rest
  called_for none client conn rest = rest

  -- The connections for whose messages the loop calls the callback, in order.
  unfoldable pub calls_made : List Message → UdpServer steam D → World → List ℕ
  calls_made [] s w = []
  calls_made (message ∷ rest) s w =
      let found = find message.conn s.clients in
      let (s', w') = call_reentrant s.data_received_callback found message.payload (s, w) in
      called_for s.data_received_callback found message.conn
        (calls_made rest s' (steam.release message w'))

  call_alone :
      (callback : Option D) (found : Option ClientInfo) (payload : Bytes) (s : UdpServer steam D)
      (w : World)
      → ((d : D) (client : ClientInfo) (b : Bytes) (v : World) → (call d client b (s, v)).0 ≡ s)
      → (call_reentrant callback found payload (s, w) ≡ (
        s,
        call_data_callback steam
            (λ d client b v. (call d client b (s, v)).1)
            callback
            found
            payload
            w,
      ))
  call_alone none found payload s w alone = refl
  call_alone (some callback) none payload s w alone = refl
  call_alone (some callback) (some client) payload s w alone =
      ap (λ r. (r, (call callback client payload (s, w)).1)) (alone callback client payload w)

  -- A callback that leaves the server as it is: the loop is the one without such calls.
  pub deliver_reentrant_alone :
      (received : List Message) (s : UdpServer steam D) (w : World)
      → ((d : D) (client : ClientInfo) (b : Bytes) (v : World) → (call d client b (s, v)).0 ≡ s)
      → deliver_reentrant received s w
        ≡ (s, deliver steam (λ d client b v. (call d client b (s, v)).1) received s w)
  unfolding deliver_reentrant deliver
  deliver_reentrant_alone [] s w alone = refl
  deliver_reentrant_alone (message ∷ rest) s w alone =
      let called =
        call_alone s.data_received_callback (find message.conn s.clients) message.payload s w
          alone in
      ap (λ r. deliver_reentrant rest r.0 (steam.release message r.1)) called
      ∙ deliver_reentrant_alone rest s _ alone

-- Each number stands once.
abbrev pub Distinct : List ℕ → Type 0
Distinct [] = Unit {0}
Distinct (k ∷ ks) = All (λ j. k ≢ j) ks × Distinct ks

module _ (steam : Steam) {D : Type 0} (act : D → ClientInfo → Bytes → steam.World → steam.World)
    (reason : ℤ) where
  open steam use {World}

  -- A callback that does something to the world and then disconnects the client of the message.
  abbrev pub drops_client :
      D → ClientInfo → Bytes → UdpServer steam D × World → UdpServer steam D × World
  drops_client callback client payload (s, w) =
      disconnect steam client.conn reason s (act callback client payload w)

  gone_stays :
      (conn : ℕ) (callback : Option D) (found : Option ClientInfo) (payload : Bytes)
      (s : UdpServer steam D) (w : World)
      → find conn s.clients ≡ none
      → find conn (call_reentrant steam drops_client callback found payload (s, w)).0.clients ≡ none
  unfolding disconnect
  gone_stays conn none found payload s w gone = gone
  gone_stays conn (some callback) none payload s w gone = gone
  gone_stays conn (some callback) (some client) payload s w gone =
      ground (arith, find-erase client.conn conn s.clients)

  called_apart :
      (conn other : ℕ) (callback : Option D) (found : Option ClientInfo) (rest : List ℕ)
      → (found ≢ none → conn ≢ other)
      → All (λ k. conn ≢ k) rest
      → All (λ k. conn ≢ k) (called_for steam drops_client callback found other rest)
  called_apart conn other none found rest h all = all
  called_apart conn other (some callback) none rest h all = all
  called_apart conn other (some callback) (some client) rest h all = (h (λ e. cc), all)

  -- For a connection that is no client, the callback is not called.
  gone_uncalled :
      (conn : ℕ) (received : List Message) (s : UdpServer steam D) (w : World)
      → find conn s.clients ≡ none
      → All (λ k. conn ≢ k) (calls_made steam drops_client received s w)
  unfolding calls_made
  gone_uncalled conn [] s w gone = tt
  gone_uncalled conn (message ∷ rest) s w gone =
      let found = find message.conn s.clients in
      called_apart conn message.conn s.data_received_callback found _
        (λ there same. there (ap (λ k. find k s.clients) (sym same) ∙ gone))
        (gone_uncalled conn rest _ _
          (gone_stays conn s.data_received_callback found message.payload s w gone))

  call_keeps-IsIndexed :
      (callback : Option D) (found : Option ClientInfo) (payload : Bytes) (s : UdpServer steam D)
      (w : World)
      → IsIndexed s.clients
      → IsIndexed (call_reentrant steam drops_client callback found payload (s, w)).0.clients
  call_keeps-IsIndexed none found payload s w v = v
  call_keeps-IsIndexed (some callback) none payload s w v = v
  call_keeps-IsIndexed (some callback) (some client) payload s w v =
      disconnect-IsIndexed steam s (act callback client payload w) client.conn reason v

  -- Behind a call for a connection there is none for it.
  called-Distinct :
      (conn : ℕ) (callback : Option D) (found : Option ClientInfo) (payload : Bytes)
      (rest : List Message) (s : UdpServer steam D) (w : World)
      → find conn s.clients ≡ found
      → IsIndexed s.clients
      → let (s', w') = call_reentrant steam drops_client callback found payload (s, w) in
        (v : World)
        → Distinct (calls_made steam drops_client rest s' v)
        → Distinct (
            called_for steam drops_client callback found conn
              (calls_made steam drops_client rest s' v))
  unfolding disconnect
  called-Distinct conn none found payload rest s w e v u apart = apart
  called-Distinct conn (some callback) none payload rest s w e v u apart = apart
  called-Distinct conn (some callback) (some client) payload rest s w e v u apart = (
    gone_uncalled conn rest _ u
        (ground (arith, find-erase client.conn conn s.clients, v.own_handle conn client e)),
    apart,
  )

  -- A data callback that disconnects the client whose message it gets is called at most once for
  -- each connection in a round of a poll, however many messages of that connection came.
  pub disconnecting_callback_lem :
      (received : List Message) (s : UdpServer steam D) (w : World)
      → IsIndexed s.clients
      → Distinct (calls_made steam drops_client received s w)
  unfolding calls_made
  disconnecting_callback_lem [] s w v = tt
  disconnecting_callback_lem (message ∷ rest) s w v =
      let found = find message.conn s.clients in
      let after =
        call_reentrant steam drops_client s.data_received_callback found message.payload (s, w) in
      called-Distinct message.conn s.data_received_callback found message.payload rest s w refl v _
        (disconnecting_callback_lem rest after.0 _
          (call_keeps-IsIndexed s.data_received_callback found message.payload s w v))
