-- ===== src/Library/History.antt =====
-- Every history of kb_networking_init and kb_networking_shutdown, of kb_networking.cpp.
use kb_networking_cpp.Prelude.{
  ℕ, zero, suc, ◌≡◌, refl, Bool, true, false, List, [], ◌∷◌, Option, none, some,
}
use kb_networking_cpp.Library.{
  Platform, LibraryState, after_sockets_init, kb_networking_init, kb_networking_shutdown,
}

pub data LibraryCall : Type 0 where
  inits : LibraryCall
  shuts_down : LibraryCall

-- What comes behind the first init, if there is one.
abbrev pub behind_init : List LibraryCall → Option (List LibraryCall)
behind_init [] = none
behind_init (inits ∷ rest) = some rest
behind_init (shuts_down ∷ rest) = behind_init rest

abbrev pub shutdowns : List LibraryCall → ℕ
shutdowns [] = 0
shutdowns (inits ∷ rest) = shutdowns rest
shutdowns (shuts_down ∷ rest) = suc (shutdowns rest)

module _ (platform : Platform) where
  open platform use {World}

  -- The calls in their order; an abort ends them.
  unfoldable pub make_calls :
      List LibraryCall → LibraryState platform → Option (LibraryState platform)
  unfolding kb_networking_shutdown
  make_calls [] s = some s
  make_calls (inits ∷ rest) s = elim (kb_networking_init platform s) [
    | none ↦ none
    | some s' ↦ make_calls rest s'
  ]
  make_calls (shuts_down ∷ rest) s = make_calls rest (kb_networking_shutdown platform s)

  abbrev pub ended : ℕ → World → World
  ended zero w = w
  ended (suc n) w = ended n (platform.logger_shutdown (platform.sockets_kill w))

  -- What is left of a first start with this result, and so many shutdowns.
  abbrev pub started_once : Bool × World → ℕ → Option (LibraryState platform)
  started_once (true, w) n = some record { initialized = true; world = ended n w }
  started_once (false, w) n = none

  abbrev pub outcome : Option (List LibraryCall) → World → Option (LibraryState platform)
  outcome none w = some record { initialized = false; world = w }
  outcome (some rest) w =
      started_once (platform.sockets_init (platform.logger_init w)) (shutdowns rest)

  -- Behind the first start.
  started_calls :
      (calls : List LibraryCall) (w : World)
      → make_calls calls (record { initialized = true; world = w })
        ≡ some record { initialized = true; world = ended (shutdowns calls) w }
  unfolding make_calls kb_networking_init
  started_calls [] w = refl
  started_calls (inits ∷ rest) w = started_calls rest w
  started_calls (shuts_down ∷ rest) w =
      started_calls rest (platform.logger_shutdown (platform.sockets_kill w))

  first_start :
      (rest : List LibraryCall) (r : Bool × World)
      → elim (after_sockets_init platform r) [ none ↦ none | some s' ↦ make_calls rest s' ]
        ≡ started_once r (shutdowns rest)
  unfolding after_sockets_init
  first_start rest (true, w) = started_calls rest w
  first_start rest (false, w) = refl

  -- Over every history of inits and shutdowns of a process that has not started the library:
  -- shutdowns before the first init do nothing; the first init starts the logger and then the
  -- sockets, and the process ends if the sockets refuse; behind it every init does nothing, and
  -- every shutdown ends the sockets and the logger once more, also where they were ended before,
  -- and leaves the library marked as started.
  pub calls_lem :
      (calls : List LibraryCall) (w : World)
      → make_calls calls (record { initialized = false; world = w }) ≡ outcome (behind_init calls) w
  unfolding make_calls kb_networking_init
  calls_lem [] w = refl
  calls_lem (inits ∷ rest) w = first_start rest (platform.sockets_init (platform.logger_init w))
  calls_lem (shuts_down ∷ rest) w = calls_lem rest w
