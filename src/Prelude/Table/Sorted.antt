-- ===== src/Prelude/Table/Sorted.antt =====
-- The order of the keys of a table under its writes.
use kb_networking_cpp.Prelude.Lists.{All}
use kb_networking_cpp.Prelude.Table.{Table, find, contains, insert, erase, keys, IsSorted}
use Prim.Native.Nat.{ℕ, ◌<◌}
use mathlib.Core.Path.{◌≡◌, refl}
use mathlib.Core.Option.{none}
use mathlib.Core.List.{List, [], ◌∷◌}
use native.Mathlib.Omega.{arith}

All-lt_trans : (j k : ℕ) (l : List ℕ) → j < k → All (λ i. k < i) l → All (λ i. j < i) l
All-lt_trans j k [] h a = tt
All-lt_trans j k (x ∷ l) h a = (omega arith, All-lt_trans j k l h a.1)

module _ {ℓ} {V : Type ℓ} where
  keys-insert :
      (j k : ℕ) (v : V) (m : Table V)
      → j < k
      → All (λ i. j < i) (keys m)
      → All (λ i. j < i) (keys (insert k v m))
  unfolding insert
  keys-insert j k v [] h a = (h, tt)
  keys-insert j k v ((i, w) ∷ m) h a = ground (arith, keys-insert j k v m h a.1)

  keys-erase :
      (j k : ℕ) (m : Table V) → All (λ i. j < i) (keys m) → All (λ i. j < i) (keys (erase k m))
  unfolding erase
  keys-erase j k [] a = tt
  keys-erase j k ((i, w) ∷ m) a = ground (arith, keys-erase j k m a.1)

  pub insert-IsSorted : (k : ℕ) (v : V) (m : Table V) → IsSorted m → IsSorted (insert k v m)
  unfolding insert
  insert-IsSorted k v [] s = (tt, tt)
  insert-IsSorted k v ((i, w) ∷ m) s =
      ground (arith, insert-IsSorted k v m s.1, keys-insert i k v m, All-lt_trans k i (keys m))

  pub erase-IsSorted : (k : ℕ) (m : Table V) → IsSorted m → IsSorted (erase k m)
  unfolding erase
  erase-IsSorted k [] s = tt
  erase-IsSorted k ((i, w) ∷ m) s = ground (arith, erase-IsSorted k m s.1, keys-erase i k m s.0)

  -- Erasing a key that is not there changes nothing.
  pub erase_absent : (k : ℕ) (m : Table V) → find k m ≡ none → erase k m ≡ m
  unfolding find erase
  erase_absent k [] h = refl
  erase_absent k ((i, w) ∷ m) h = ground (arith, erase_absent k m)

  find_below : (j : ℕ) (m : Table V) → All (λ i. j < i) (keys m) → find j m ≡ none
  unfolding find
  find_below j [] a = refl
  find_below j ((i, w) ∷ m) a = ground (arith, find_below j m a.1)

  -- Tables in order that have the same keys have them in the same list.
  pub keys_unique :
      (m m' : Table V)
      → IsSorted m
      → IsSorted m'
      → ((j : ℕ) → contains j m ≡ contains j m')
      → keys m ≡ keys m'
  unfolding find
  keys_unique [] [] s s' h = refl
  keys_unique [] ((k, v) ∷ m') s s' h = absurd (ground (arith, h k))
  keys_unique ((k, v) ∷ m) [] s s' h = absurd (ground (arith, h k))
  keys_unique ((k, v) ∷ m) ((k', v') ∷ m') s s' h =
      let same : k ≡ k' = ground (
        arith,
        h k,
        h k',
        find_below k m',
        find_below k' m,
        All-lt_trans k k' (keys m'),
        All-lt_trans k' k (keys m),
      ) in
      let rest : (j : ℕ) → contains j m ≡ contains j m' =
        λ j. ground (arith, h j, find_below k m s.0, find_below k' m' s'.0) in
      ground (arith, keys_unique m m' s.1 s'.1 rest)
