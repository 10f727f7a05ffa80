-- ===== src/Library.antt =====
-- The library's start and end: src/kb/kb_networking.cpp. The logger and Steam's library are
-- parameters.
pub mod History
use kb_networking_cpp.Prelude.{
  ◌≡◌, Bool, true, false, not, Option, none, some, if◌then◌else◌, arith, Bool-cases, inl, inr,
}

pub record Platform : Type 1 where
  pub World : Type 0
  -- Logger::init and Logger::shutdown
  pub logger_init : World → World
  pub logger_shutdown : World → World
  -- GameNetworkingSockets_Init, with its result, and GameNetworkingSockets_Kill
  pub sockets_init : World → Bool × World
  pub sockets_kill : World → World

-- s_initialized, and the rest of the process
pub record LibraryState (platform : Platform) : Type 0 where
  pub initialized : Bool
  pub world : Platform.World platform

module _ (platform : Platform) where
  open platform use {World}

  -- KB_ABORT gives none.
  unfoldable pub after_sockets_init : Bool × World → Option (LibraryState platform)
  after_sockets_init (true, w) = some record { initialized = true; world = w }
  after_sockets_init (false, w) = none

  unfoldable pub kb_networking_init : LibraryState platform → Option (LibraryState platform)
  unfolding after_sockets_init
  kb_networking_init s =
      if s.initialized
      then some s
      else after_sockets_init (platform.sockets_init (platform.logger_init s.world))

  unfoldable pub kb_networking_shutdown : LibraryState platform → LibraryState platform
  kb_networking_shutdown s =
      if not s.initialized
      then s
      else record s { world = platform.logger_shutdown (platform.sockets_kill s.world) }

  after_sockets_init_lem :
      (r : Bool × World) (s : LibraryState platform)
      → after_sockets_init r ≡ some s
      → s.initialized ≡ true
  unfolding after_sockets_init
  after_sockets_init_lem (true, w) s e = ground arith
  after_sockets_init_lem (false, w) s e = ground arith

  -- Once the library was started, it is marked as started, and starting it again changes nothing.
  pub kb_networking_init_idempotent :
      (s s' : LibraryState platform)
      → kb_networking_init s ≡ some s'
      → (s'.initialized ≡ true) × (kb_networking_init s' ≡ some s')
  unfolding kb_networking_init
  kb_networking_init_idempotent s s' e =
      let started : s'.initialized ≡ true = elim (Bool-cases s.initialized) [
        | inl e' ↦ ground arith
        | inr e' ↦
            after_sockets_init_lem (platform.sockets_init (platform.logger_init s.world)) s'
              (ground arith)
      ] in
      (started, simp (started))

  -- A shutdown leaves the library marked as started: a new start after it starts nothing, and a
  -- second shutdown ends the logger and the sockets again.
  shutdown_keeps_initialized :
      (s : LibraryState platform)
      → s.initialized ≡ true
      → let ended = kb_networking_shutdown s in
        let kill = λ (w : World). platform.logger_shutdown (platform.sockets_kill w) in
        (kb_networking_init ended ≡ some ended)
        × (ended.world ≡ kill s.world)
        × ((kb_networking_shutdown ended).world ≡ kill (kill s.world))
  unfolding kb_networking_init kb_networking_shutdown
  shutdown_keeps_initialized s e = (simp (e), simp (e), simp (e))
