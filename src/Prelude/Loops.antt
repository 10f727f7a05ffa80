-- ===== src/Prelude/Loops.antt =====
-- A loop over an array by an index of its own, `for (i = 0; i < count; ++i) body(array[i])`. An index out
-- of bounds is a fault: none.
use Prim.Native.Nat.{ℕ, zero, suc, ◌+◌, ◌≤◌, ◌<◌}
use mathlib.Core.Path.{◌≡◌, refl, ◌∙◌, subst}
use mathlib.Core.Logic.{inl, inr}
use mathlib.Core.Option.{Option, none, some}
use mathlib.Core.List.{List, [], ◌∷◌, ◌++◌, append_assoc}
use native.Mathlib.Omega.{arith}
use kb_networking_cpp.Prelude.Tests.{Option-cases}
use kb_networking_cpp.Prelude.Lists.{length, length-append}

module _ {ℓ} {A : Type ℓ} where
  abbrev pub get_elem? : List A → ℕ → Option A
  get_elem? [] i = none
  get_elem? (x ∷ xs) zero = some x
  get_elem? (x ∷ xs) (suc i) = get_elem? xs i

  get_elem?-beyond : (xs : List A) (i : ℕ) → length xs ≤ i → get_elem? xs i ≡ none
  get_elem?-beyond [] i h = refl
  get_elem?-beyond (x ∷ xs) zero h = absurd (omega arith)
  get_elem?-beyond (x ∷ xs) (suc i) h = get_elem?-beyond xs i (omega arith)

  get_elem?-append :
      (xs : List A) (y : A) (ys : List A) → get_elem? (xs ++ y ∷ ys) (length xs) ≡ some y
  get_elem?-append [] y ys = refl
  get_elem?-append (x ∷ xs) y ys = get_elem?-append xs y ys

  module _ {κ} {W : Type κ} (body : A → W → W) where
    -- The rounds that are left, and the index.
    unfoldable pub index_loop : ℕ → ℕ → List A → W → Option W
    index_loop zero i array w = some w
    index_loop (suc left) i array w = elim (get_elem? array i) [
      | none ↦ none
      | some x ↦ index_loop left (suc i) array (body x w)
    ]

    abbrev pub each : List A → W → W
    each [] w = w
    each (x ∷ xs) w = each xs (body x w)

    index_loop_rest :
        (xs ys : List A) (w : W)
        → index_loop (length ys) (length xs) (xs ++ ys) w ≡ some (each ys w)
    unfolding index_loop
    index_loop_rest xs [] w = refl
    index_loop_rest xs (y ∷ ys) w =
        let longer : length (xs ++ y ∷ []) ≡ suc (length xs) =
          length-append xs (y ∷ []) ∙ omega arith in
        let moved : (xs ++ y ∷ []) ++ ys ≡ xs ++ y ∷ ys = append_assoc xs (y ∷ []) ys in
        let rest = index_loop_rest (xs ++ y ∷ []) ys (body y w) in
        rw (get_elem?-append xs y ys, index_loop)
          (subst
            (λ i. index_loop (length ys) i (xs ++ y ∷ ys) (body y w) ≡ some (each ys (body y w)))
            longer
            (subst
              (λ l.
                index_loop (length ys) (length (xs ++ y ∷ [])) l (body y w)
                ≡ some (each ys (body y w)))
              moved rest))

    -- With the count of the elements, the loop is over each of them in turn.
    pub index_loop_all : (xs : List A) (w : W) → index_loop (length xs) 0 xs w ≡ some (each xs w)
    index_loop_all xs w = index_loop_rest [] xs w

    -- With a greater count it leaves the array.
    pub index_loop_beyond :
        (left i : ℕ) (xs : List A) (w : W)
        → length xs < i + left
        → i ≤ length xs
        → index_loop left i xs w ≡ none
    unfolding index_loop
    index_loop_beyond zero i xs w h below = absurd (omega arith)
    index_loop_beyond (suc left) i xs w h below = elim (Option-cases (get_elem? xs i)) [
      | inl e ↦ rw (e, index_loop) refl
      | inr (x, e) ↦
          rw (e, index_loop)
            (index_loop_beyond left (suc i) xs (body x w) (omega arith)
              (ground (arith, get_elem?-beyond xs i)))
    ]
