-- ===== src/Client/Lifecycle.antt =====
-- Connecting, status changes, stopping and destroying a UdpClient.
use Prim.Native.String.{String}
use kb_networking_cpp.Prelude.{
  ℕ, ◌<◌, ◌^◌, ◌≡◌, ◌≢◌, ◌↔◌, ◌⊎◌, inl, inr, refl, Bool, true, false, List, [], ◌∷◌, Option, none,
  some, arith, if◌then◌else◌, ◌==◌,
}
use kb_networking_cpp.Packet.Bytes.{Bytes, u32}
use kb_networking_cpp.Packet.Header.{k_invalid_connection}
use kb_networking_cpp.Steam.{
  Steam, StatusChange, ConnectionState, none_state, closed_by_peer, problem_detected_locally, other,
}
use kb_networking_cpp.Address.{is_valid_ip_address}
use kb_networking_cpp.Client.Object.{
  UdpClient, ClientHost, ConnectionStatus, disconnected, failed_to_connect, try_connect, parsed,
  connect, stop, destroy, send_raw, on_connection_status_changed, on_state, on_closed,
}
use kb_networking_cpp.Client.Poll.{dispatch}

-- A client that runs has its interface, a connection and a thread.
pub record IsValid {D : Type 0} (c : UdpClient D) : Type 0 where
  pub has_conn : c.running ≡ true → c.conn ≢ k_invalid_connection
  pub interface_set : c.running ≡ true → c.has_interface ≡ true
  pub has_thread : c.running ≡ true → c.network_thread ≡ true

module _ (steam : Steam) {D : Type 0} (address : String) (port : ℕ) (c : UdpClient D)
    (h : ClientHost steam) where
  network_thread-try_connect :
      (try_connect steam address port c h).1.network_thread ≡ c.network_thread
  unfolding try_connect
  network_thread-try_connect = ground arith

  connect_stopped :
      c.running ≡ false
      → c.network_thread ≡ false
      → let (res, c', h') = try_connect steam address port c h in
        connect steam address port c h
        ≡ some (res, record c' { running = res; network_thread = true }, h')
  unfolding connect
  connect_stopped stopped idle = ground (arith, network_thread-try_connect)

  -- A client that is stopped and has no thread connects without a fault, and succeeds exactly if
  -- the address is valid and the library gives a connection; then it runs, connecting, and
  -- otherwise it has failed to connect; either way it is valid, has a thread and is the instance.
  pub connect_lem :
      c.running ≡ false
      → c.network_thread ≡ false
      → (r : Bool × UdpClient D × ClientHost steam) × (connect steam address port c h ≡ some r)
        × IsValid r.1
        × (r.1.running ≡ r.0)
        × (r.1.network_thread ≡ true)
        × (r.2.instance_ptr ≡ some c.self)
        × ((r.0 ≡ true) ↔ (
            (is_valid_ip_address steam (steam.format_address address port) ≡ true)
            × ((steam.connect_by_ip_address
                  (parsed steam (steam.parse_string (steam.format_address address port)))
                  h.world).0
                ≢ k_invalid_connection)))
        × (r.1.connection_status ≡ (if r.0 then ConnectionStatus.connecting else failed_to_connect))
  unfolding try_connect
  connect_lem stopped idle =
      let (res, c', h') = try_connect steam address port c h in
      (
        (res, record c' { running = res; network_thread = true }, h'),
        connect_stopped stopped idle,
        ground arith,
        refl,
        refl,
        ground arith,
        ground arith,
        ground arith,
      )

  -- A client whose thread was not joined terminates the process when it connects again.
  pub connect_terminates :
      c.running ≡ false → c.network_thread ≡ true → connect steam address port c h ≡ none
  unfolding connect
  connect_terminates stopped joinable = ground (arith, network_thread-try_connect)

module _ (steam : Steam) {D : Type 0} (c : UdpClient D) (h : ClientHost steam) where
  -- Stopping a valid client that runs joins its thread, closes its connection and clears the
  -- instance, stopping again changes nothing, and destroying it does not terminate the process.
  pub stop_running :
      IsValid c
      → c.running ≡ true
      → let (c', h') = stop steam c h in
        (c'.running ≡ false)
        × (c'.network_thread ≡ false)
        × (c'.conn ≡ k_invalid_connection)
        × (h'.instance_ptr ≡ none)
        × (stop steam c' h' ≡ (c', h'))
        × (destroy steam c h ≡ some h')
  unfolding stop destroy
  stop_running v r = ground arith

  -- `stop` does nothing to a client that does not run, and leaves its thread joinable: destroying
  -- such a client terminates the process.
  pub destroy_unjoined : c.running ≡ false → c.network_thread ≡ true → destroy steam c h ≡ none
  unfolding destroy stop
  destroy_unjoined stopped joinable = ground arith

module _ (steam : Steam) {D : Type 0} where
  pub status-IsValid :
      (state : ConnectionState) (change : StatusChange) (c : UdpClient D) (w : steam.World)
      → IsValid c
      → IsValid (on_state steam state change c w).0
  unfolding on_state
  status-IsValid none_state change c w v = v
  status-IsValid closed_by_peer change c w v = ground arith
  status-IsValid problem_detected_locally change c w v = ground arith
  status-IsValid ConnectionState.connecting change c w v = ground arith
  status-IsValid ConnectionState.connected change c w v = ground arith
  status-IsValid (other n) change c w v = v

  pub dispatch-IsValid :
      (instance_ptr : Option ℕ) (changes : List StatusChange) (c : UdpClient D) (w : steam.World)
      → IsValid c
      → IsValid (dispatch steam instance_ptr changes c w).0
  unfolding dispatch on_connection_status_changed
  dispatch-IsValid none changes c w v = v
  dispatch-IsValid (some p) [] c w v = v
  dispatch-IsValid (some p) (change ∷ changes) c w v =
      dispatch-IsValid (some p) changes _ _ (status-IsValid change.state change c w v)

  -- When the peer closes the connection of a valid client that runs, or it breaks down, the client
  -- stops running with its thread joinable and reports `disconnected`; destroying it, or
  -- connecting it again, then terminates the process.
  pub closed_client_terminates :
      (change : StatusChange) (c : UdpClient D) (h : ClientHost steam) (address : String) (port : ℕ)
      → (change.state ≡ closed_by_peer) ⊎ (change.state ≡ problem_detected_locally)
      → IsValid c
      → c.running ≡ true
      → let (c', w') = on_connection_status_changed steam change c h.world in
        let h' = record h { world = w' } in
        (c'.running ≡ false)
        × (c'.connection_status ≡ disconnected)
        × (c'.conn ≡ k_invalid_connection)
        × (destroy steam c' h' ≡ none)
        × (connect steam address port c' h' ≡ none)
  closed_client_terminates change c h address port e v r = rw (status_closed e) (
    unfold on_closed in refl,
    unfold on_closed in refl,
    unfold on_closed in refl,
    destroy_unjoined steam _ _ (unfold on_closed in refl) (unfold on_closed in v.has_thread r),
    connect_terminates steam address port _ _ (unfold on_closed in refl)
        (unfold on_closed in v.has_thread r),
  )
    where
      status_closed :
          (change.state ≡ closed_by_peer) ⊎ (change.state ≡ problem_detected_locally)
          → on_connection_status_changed steam change c h.world ≡ on_closed steam change c h.world
      status_closed (inl p) = unfold on_connection_status_changed in rw (p, on_state)
      status_closed (inr p) = unfold on_connection_status_changed in rw (p, on_state)

  -- Without an interface or a connection a client sends nothing and reports failure; with both,
  -- the bytes go to the connection with their size, if that is below 2^32, and the result is
  -- whether the library took them.
  pub send_raw_lem :
      (d : Bytes) (size : ℕ) (reliable : Bool) (c : UdpClient D) (w : steam.World)
      → (((c.has_interface ≡ false) ⊎ (c.conn ≡ k_invalid_connection))
          → send_raw steam d size reliable c w ≡ (false, w))
        × (c.has_interface ≡ true
            → c.conn ≢ k_invalid_connection
            → size < 2 ^ 32
            → let sent =
                steam.send_message_to_connection c.conn d size
                  (if reliable then steam.send_reliable else steam.send_unreliable)
                  w in
              send_raw steam d size reliable c w ≡ (sent.0 == steam.result_ok, sent.1))
  unfolding send_raw
  send_raw_lem d size reliable c w = (
    λ missing. ground arith,
    λ set open_conn small. let whole : u32 size ≡ size = omega arith in rw whole (ground arith),
  )
