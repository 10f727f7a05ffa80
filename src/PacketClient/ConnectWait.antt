-- ===== src/PacketClient/ConnectWait.antt =====
-- AsyncUdpPacketClient::connect: the wait for the status of the connection.
use Prim.Native.String.{String}
use kb_networking_cpp.Prelude.{
  ℕ, zero, suc, ◌+◌, ◌*◌, ◌≤◌, ◌<◌, ◌≡◌, ◌⊎◌, inl, inr, Bool, true, false, Option, none, some,
  arith, if◌then◌else◌, not, ◌||◌, leb, ltb, Bool-cases,
}
use kb_networking_cpp.Steam.{Steam}
use kb_networking_cpp.Client.Object.{
  ConnectionStatus, connecting, connected, UdpClient, ClientHost, connect,
}

abbrev pub k_max_wait_ms : ℕ
k_max_wait_ms = 1000

abbrev pub k_sleep_duration : ℕ
k_sleep_duration = 50

-- k_max_wait_ms / k_sleep_duration
abbrev pub max_iters : ℕ
max_iters = 20

unfoldable pub is_connecting : ConnectionStatus → Bool
is_connecting connecting = true
is_connecting s = false

unfoldable pub is_connected : ConnectionStatus → Bool
is_connected connected = true
is_connected s = false

-- The do-while loop, on fuel. The status that is read the i-th time is `statuses i`, since the network
-- thread sets it meanwhile. The result is the last status that was read and the number of sleeps.
unfoldable pub wait_loop : ℕ → (ℕ → ConnectionStatus) → ℕ → Option (ConnectionStatus × ℕ)
unfolding is_connecting
wait_loop zero statuses iter = none
wait_loop (suc fuel) statuses iter =
    let rest = wait_loop fuel statuses (suc iter) in
    if leb max_iters iter
    then some (statuses iter, iter)
    else if is_connecting (statuses iter)
    then rest
    else some (statuses iter, suc iter)

wait_result : Option (ConnectionStatus × ℕ) → Option (Bool × ℕ)
wait_result none = none
wait_result (some (status, sleeps)) = some (is_connected status, sleeps)

module _ (steam : Steam) {D : Type 0} where
  after_connect :
      ℕ
      → (ℕ → ConnectionStatus)
      → Option (Bool × UdpClient D × ClientHost steam)
      → Option (Bool × ℕ)
  unfolding wait_loop wait_result
  after_connect fuel statuses none = none
  after_connect fuel statuses (some (false, c, h)) = some (false, 0)
  after_connect fuel statuses (some (true, c, h)) = wait_result (wait_loop fuel statuses 0)

  -- The whole: what the coroutine returns, and how often it slept.
  unfoldable pub connect_async :
      ℕ → (ℕ → ConnectionStatus) → String → ℕ → UdpClient D → ClientHost steam → Option (Bool × ℕ)
  unfolding after_connect
  connect_async fuel statuses p_address p_port c h =
      let tried = after_connect fuel statuses (connect steam p_address p_port c h) in
      if c.running then some (false, 0) else tried

-- Where the loop stops: at the first read that is not `connecting`, or after the last.
pub wait_loop_lem :
    (statuses : ℕ → ConnectionStatus) (n : ℕ)
    → n ≤ max_iters
    → ((i : ℕ) → i < n → is_connecting (statuses i) ≡ true)
    → (n ≡ max_iters) ⊎ (is_connecting (statuses n) ≡ false)
    → (fuel iter : ℕ) → iter ≤ n
    → n < iter + fuel
    → (sleeps : ℕ) × (wait_loop fuel statuses iter ≡ some (statuses n, sleeps))
      × (sleeps ≤ max_iters)
unfolding wait_loop
wait_loop_lem statuses n small before stops zero iter h fuel_is = ground arith
wait_loop_lem statuses n small before stops (suc fuel) iter h fuel_is =
    elim (Bool-cases (ltb iter n)) [
      | inl earlier ↦
          let (sleeps, e, few) =
            wait_loop_lem statuses n small before stops fuel (suc iter) (ground arith)
              (ground arith) in
          let early : leb max_iters iter ≡ false = ground arith in
          let waits : is_connecting (statuses iter) ≡ true = before iter (ground arith) in
          (sleeps, simp (early, waits, e), few)
      | inr reached ↦
          let here : iter ≡ n = ground arith in
          elim (Bool-cases (leb max_iters iter)) [
            | inl late ↦
                let late_n : leb max_iters n ≡ true = ground arith in
                (iter, simp (here, late_n), ground arith)
            | inr early ↦
                let early_n : leb max_iters n ≡ false = ground arith in
                let settled : is_connecting (statuses n) ≡ false = ground arith in
                (suc iter, simp (here, early_n, settled), ground arith)
          ]
    ]

-- Where the loop stops exists.
first_settled :
    (statuses : ℕ → ConnectionStatus) (left done : ℕ)
    → done + left ≡ max_iters
    → ((i : ℕ) → i < done → is_connecting (statuses i) ≡ true)
    → (n : ℕ) × (n ≤ max_iters)
      × ((i : ℕ) → i < n → is_connecting (statuses i) ≡ true)
      × ((n ≡ max_iters) ⊎ (is_connecting (statuses n) ≡ false))
first_settled statuses zero done e before = (done, omega arith, before, inl (omega arith))
first_settled statuses (suc left) done e before =
    elim (Bool-cases (is_connecting (statuses done))) [
      | inr settled ↦ (done, omega arith, before, inr settled)
      | inl waits ↦ first_settled statuses left (suc done) (omega arith) (λ i h.
          elim (Bool-cases (ltb i done)) [
            | inl old ↦ before i (ground arith)
            | inr now ↦ (let same : i ≡ done = ground arith in rw same waits)
          ])
    ]

-- The wait of connect ends within 20 sleeps of 50 ms, which is its limit of 1000 ms. The status it
-- judges is the first that it read that is not `connecting`, or the one it read last.
pub wait_loop_terminates :
    (statuses : ℕ → ConnectionStatus)
    → (n sleeps : ℕ) × (wait_loop (suc max_iters) statuses 0 ≡ some (statuses n, sleeps))
      × (sleeps * k_sleep_duration ≤ k_max_wait_ms)
      × (n ≤ max_iters)
      × ((i : ℕ) → i < n → is_connecting (statuses i) ≡ true)
      × ((n ≡ max_iters) ⊎ (is_connecting (statuses n) ≡ false))
wait_loop_terminates statuses =
    let (n, small, before, stops) =
      first_settled statuses max_iters 0 (omega arith) (λ i h. ground arith) in
    let (sleeps, e, few) =
      wait_loop_lem statuses n small before stops (suc max_iters) 0 (omega arith) (omega arith) in
    (n, sleeps, e, omega arith, small, before, stops)

module _ (steam : Steam) {D : Type 0} where
  -- Where the client's connect does not fault, the asynchronous connect with fuel for 21 rounds
  -- returns: at once and with failure if the client runs or refuses, and otherwise within 1000 ms
  -- of sleeps, with success exactly if the first status read that is not `connecting`, or else the
  -- last one read, is `connected`.
  pub connect_async_lem :
      (statuses : ℕ → ConnectionStatus) (p_address : String) (p_port : ℕ)
      → (c c' : UdpClient D) (h h' : ClientHost steam) (ok : Bool)
      → connect steam p_address p_port c h ≡ some (ok, c', h')
      → let run = connect_async steam (suc max_iters) statuses p_address p_port c h in
        (c.running || not ok ≡ true → run ≡ some (false, 0))
        × (c.running || not ok ≡ false
            → (n sleeps : ℕ) × (run ≡ some (is_connected (statuses n), sleeps))
              × (sleeps * k_sleep_duration ≤ k_max_wait_ms)
              × (n ≤ max_iters)
              × ((i : ℕ) → i < n → is_connecting (statuses i) ≡ true)
              × ((n ≡ max_iters) ⊎ (is_connecting (statuses n) ≡ false)))
  unfolding connect_async
  connect_async_lem statuses p_address p_port c c' h h' true e = (
    λ f. elim (Bool-cases c.running) [ inl r ↦ simp (r) | inr r ↦ ground arith ],
    λ f.
        let (n, sleeps, done, few, small, before, stops) = wait_loop_terminates statuses in
        let idle : c.running ≡ false = ground arith in
        (n, sleeps, simp (idle, e, done), few, small, before, stops),
  )
  connect_async_lem statuses p_address p_port c c' h h' false e = (
    λ f. elim (Bool-cases c.running) [ inl r ↦ simp (r) | inr r ↦ simp (r, e) ],
    λ f. ground arith,
  )
