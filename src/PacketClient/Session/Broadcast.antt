-- ===== src/PacketClient/Session/Broadcast.antt =====
-- An object that UdpPacketServer::broadcast of udp_packet_server.inl sends to every client, up to their
-- handlers.
use kb_networking_cpp.Prelude.{
  ℕ, ◌<◌, ◌^◌, ◌≡◌, sym, ap, ◌∙◌, Bool, true, none, List, [], ◌∷◌, ◌++◌, some, map, length, arith,
}
use mathlib.Core.List.{append-nil, append_assoc}
use kb_networking_cpp.Prelude.Table.{find, keys}
use kb_networking_cpp.Packet.Bytes.{Bytes, u32}
use kb_networking_cpp.Packet.OwningBuffer.{Memory}
use kb_networking_cpp.Packet.Header.{k_invalid_connection}
use kb_networking_cpp.Serde.Serializer.{payload_as}
use kb_networking_cpp.Serde.Msgpack.{Msgpack, msgpack_serializer}
use kb_networking_cpp.Serde.RoundTrip.{msgpack_roundtrip}
use kb_networking_cpp.Steam.{Steam}
use kb_networking_cpp.Server.Object.{send}
use kb_networking_cpp.Server.Broadcast.{after_sends, broadcast_lem}
use kb_networking_cpp.PacketClient.Object.{PacketClient, handle_message}
use kb_networking_cpp.PacketServer.Object.{PacketServer, broadcast_object}
use kb_networking_cpp.PacketClient.Session.{wire, packet_handled}

module _ (steam : Steam) (memory : Memory) (lib : Msgpack) where
  open steam use {World}

  module _ (log : World → List (ℕ × Bytes × ℕ))
      (sends : (conn : ℕ) (d : Bytes) (n flags : ℕ) (w : World)
        → log (steam.send_message_to_connection conn d n flags w).1
          ≡ log w ++ (conn, d, n) ∷ []) where
    log-after_sends :
        (d : Bytes) (n : ℕ) (reliable : Bool) (conns : List ℕ) (w : World)
        → log (after_sends steam d n reliable conns w) ≡ log w ++ map (λ conn. (conn, d, n)) conns
    unfolding send
    log-after_sends d n reliable [] w = sym (append-nil (log w))
    log-after_sends d n reliable (conn ∷ conns) w =
        log-after_sends d n reliable conns _
        ∙ ap (λ l. l ++ map (λ k. (k, d, n)) conns) (sends conn d n _ w)
        ∙ append_assoc (log w) ((conn, d, n) ∷ []) (map (λ k. (k, d, n)) conns)

    -- Where the library keeps a log of what it is given to send: a broadcast of an object by a
    -- msgpack packet server, as a packet of a type below 2^32 that is shorter than 2^32 bytes,
    -- gives it the bytes of one packet, with their number, once for each client in the order of
    -- their handles; and a packet client without a pre-handler that gets those bytes in a message
    -- calls its handler of that type, with a payload that converts to the object.
    pub broadcast_session_lem :
        {X : Type 0} (s : PacketServer steam lib.ObjectHandle) (t : ℕ) (object : lib.Object)
        (reliable : Bool) (w : World) (c : PacketClient steam X lib.ObjectHandle) (conn : ℕ) (x : X)
        (w' : World) (handler : lib.ObjectHandle → World → World)
        → t < 2 ^ 32
        → length (wire steam memory lib (t, object)) < 2 ^ 32
        → c.pre_handler ≡ none
        → find t c.handlers ≡ some handler
        → let bytes = wire steam memory lib (t, object) in
          (log (broadcast_object steam (msgpack_serializer memory lib) t object reliable s w).1
            ≡ log w ++ map (λ k. (k, bytes, length bytes)) (keys s.server.clients))
          × ((payload : lib.ObjectHandle) × (payload_as (msgpack_serializer memory lib) payload
                ≡ some object)
              × (handle_message steam
                    (msgpack_serializer memory lib)
                    (record { conn = conn; buffer = bytes })
                    c
                    (x, w')
                  ≡ (true, x, handler payload w')))
    unfolding broadcast_object
    broadcast_session_lem s t object reliable w c conn x w' handler small short unfiltered bound =
        let bytes = wire steam memory lib (t, object) in
        let size = (msgpack_roundtrip memory lib k_invalid_connection t object small).2 in
        let whole : u32 (length bytes) ≡ length bytes = omega arith in
        (
          ap log (broadcast_lem steam bytes _ reliable s.server w).1
              ∙ log-after_sends bytes _ reliable (keys s.server.clients) w
              ∙ ap (λ n. log w ++ map (λ k. (k, bytes, n)) (keys s.server.clients))
                  (ap u32 size ∙ whole),
          packet_handled steam memory lib c unfiltered t object conn x w' handler small bound,
        )
