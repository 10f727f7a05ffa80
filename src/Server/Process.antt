-- ===== src/Server/Process.antt =====
-- The servers of a process, and the static s_instance that status changes are dispatched to.
use kb_networking_cpp.Prelude.{
  ℕ, zero, suc, Bool, true, false, List, [], ◌∷◌, Option, none, some, if◌then◌else◌,
}
use kb_networking_cpp.Prelude.Table.{Table, find, insert}
use kb_networking_cpp.Packet.Bytes.{Bytes}
use kb_networking_cpp.Steam.{Steam, Message, StatusChange, Received, messages, invalid_handle}
use kb_networking_cpp.Server.Object.{UdpServer, ClientInfo, Host, k_message_count, get_client_info}
use kb_networking_cpp.Server.Status.{on_connection_status_changed}

-- The servers by their addresses.
pub record Process (steam : Steam) (D : Type 0) : Type 0 where
  pub host : Host steam
  pub open host use *
  pub servers : Table (UdpServer steam D)

module _ (steam : Steam) {D : Type 0} where
  open steam use {World}

  module _ (call : D → ClientInfo → Bytes → World → World) where
    abbrev pub call_data_callback : Option D → Option ClientInfo → Bytes → World → World
    call_data_callback (some callback) (some client) payload w = call callback client payload w
    call_data_callback (some callback) none payload w = w
    call_data_callback none client payload w = w

    -- The loop over the messages that were received.
    unfoldable pub deliver : List Message → UdpServer steam D → World → World
    unfolding get_client_info
    deliver [] s w = w
    deliver (message ∷ rest) s w =
        let called =
          call_data_callback s.data_received_callback (get_client_info steam message.conn s)
            message.payload w in
        deliver rest s (steam.release message called)

  -- A pointer to a server that is gone is a fault: none.
  unfoldable pub notify :
      ℕ → Option (UdpServer steam D) → StatusChange → Process steam D → Option (Process steam D)
  notify p none p_info process = none
  notify p (some s) p_info process =
      let (s', w') = on_connection_status_changed steam p_info s process.world in
      some (record {
        host = record process.host { world = w' };
        servers = insert p s' process.servers;
      })

  unfoldable pub notify_instance :
      Option ℕ → StatusChange → Process steam D → Option (Process steam D)
  notify_instance none p_info process = some process
  notify_instance (some p) p_info process = notify p (find p process.servers) p_info process

  unfoldable pub connection_status_changed_callback :
      StatusChange → Process steam D → Option (Process steam D)
  connection_status_changed_callback p_info process =
      notify_instance process.instance_ptr p_info process

  -- RunCallbacks, for the status changes that it dispatches.
  unfoldable pub dispatch : List StatusChange → Process steam D → Option (Process steam D)
  dispatch [] process = some process
  dispatch (change ∷ changes) process = elim (connection_status_changed_callback change process) [
    | none ↦ none
    | some process' ↦ dispatch changes process'
  ]

  module _ (call : D → ClientInfo → Bytes → World → World) where
    -- The rest of `poll`. Where the library returns -1 the count, an unsigned number, is 2^32 - 1,
    -- and the loop reads the array of messages out of its bounds: none.
    unfoldable pub poll_received :
        UdpServer steam D → Received × World → Process steam D → Option (Process steam D)
    poll_received s (invalid_handle, w) process = none
    poll_received s (messages received, w) process =
        let (changes, w') = steam.run_callbacks (deliver call received s w) in
        dispatch changes (record process { host = record process.host { world = w' } })

    unfoldable pub poll_server :
        Option (UdpServer steam D) → Process steam D → Option (Process steam D)
    poll_server none process = none
    poll_server (some s) process =
        if s.has_interface
        then poll_received s
            (steam.receive_messages_on_poll_group s.poll_group k_message_count process.world)
            process
        else none

    -- `poll` of the server at p.
    unfoldable pub poll : ℕ → Process steam D → Option (Process steam D)
    unfolding poll_server
    poll p process = poll_server (find p process.servers) process

    unfoldable pub is_running_at : Option (UdpServer steam D) → Bool
    is_running_at none = false
    is_running_at (some s) = s.is_running

    -- At most so many rounds of the loop of the network thread of the server at p, which ends when
    -- is_running is false.
    unfoldable pub network_loop : ℕ → ℕ → Process steam D → Option (Process steam D)
    unfolding is_running_at
    network_loop zero p process = some process
    network_loop (suc rounds) p process = elim (is_running_at (find p process.servers)) [
      | false ↦ some process
      | true ↦ elim (poll p process) [
        | none ↦ none
        | some process' ↦ network_loop rounds p process'
      ]
    ]
