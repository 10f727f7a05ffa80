-- ===== src/Prelude/Table.antt =====
-- std::map and std::unordered_map with integer keys: an association list in the order of the keys,
-- which is the order in which std::map is iterated. The program never iterates an unordered map.
pub mod Sorted
use Prim.Native.Nat.{ℕ, ◌<◌}
use mathlib.Core.Path.{◌≡◌, refl}
use mathlib.Core.Bool.{Bool, true}
use mathlib.Core.Option.{Option, none, some}
use mathlib.Core.List.{List, [], ◌∷◌}
use native.Mathlib.Omega.{arith}
use kb_networking_cpp.Prelude.Tests.{ltb, ◌==◌, ==_iff, ==_refl, if◌then◌else◌, is_some}
use kb_networking_cpp.Prelude.Lists.{All}

abbrev pub Table {ℓ} : Type ℓ → Type ℓ
Table V = List (ℕ × V)

module _ {ℓ} {V : Type ℓ} where
  unfoldable pub find : ℕ → Table V → Option V
  find k [] = none
  find k ((j, v) ∷ m) = if j == k then some v else find k m

  abbrev pub contains : ℕ → Table V → Bool
  contains k m = is_some (find k m)

  -- m[k] = v
  unfoldable pub insert : ℕ → V → Table V → Table V
  insert k v [] = (k, v) ∷ []
  insert k v ((j, w) ∷ m) =
      if ltb k j then (k, v) ∷ (j, w) ∷ m else if j == k then (k, v) ∷ m else (j, w) ∷ insert k v m

  unfoldable pub erase : ℕ → Table V → Table V
  erase k [] = []
  erase k ((j, v) ∷ m) = let rest = erase k m in if j == k then rest else (j, v) ∷ rest

  abbrev pub keys : Table V → List ℕ
  keys [] = []
  keys ((k, v) ∷ m) = k ∷ keys m

  pub find-insert :
      (k j : ℕ) (v : V) (m : Table V)
      → find j (insert k v m) ≡ (if k == j then some v else find j m)
  unfolding find insert
  find-insert k j v [] = refl
  find-insert k j v ((i, w) ∷ m) = ground (arith, find-insert k j v m)

  pub find-erase :
      (k j : ℕ) (m : Table V) → find j (erase k m) ≡ (if k == j then none else find j m)
  unfolding find erase
  find-erase k j [] = ground arith
  find-erase k j ((i, w) ∷ m) = ground (arith, find-erase k j m)

  -- A key leads to one value.
  pub find_unique :
      (k j : ℕ) (v w : V) (m : Table V)
      → (k == j) ≡ true
      → find k m ≡ some v
      → find j m ≡ some w
      → v ≡ w
  find_unique k j v w m h e f = cc ((==_iff k j).0 h)

  pub find-insert_self : (k : ℕ) (v : V) (m : Table V) → find k (insert k v m) ≡ some v
  find-insert_self k v m = simp (find-insert, ==_refl)

  -- The keys rise along the list, so each stands there once.
  abbrev pub IsSorted : Table V → Type 0
  IsSorted [] = Unit {0}
  IsSorted ((k, v) ∷ m) = All (λ j. k < j) (keys m) × IsSorted m
