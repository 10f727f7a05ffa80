-- ===== src/Api/Exec.antt =====
-- Calls that change a state and may fault.
use kb_networking_cpp.Prelude.{Option, none, some}

abbrev pub Exec : Type 0 → Type 0 → Type 0
Exec S A = S → Option (A × S)

module _ {S : Type 0} where
  abbrev pub pure : {A : Type 0} → A → Exec S A
  pure a s = some (a, s)

  abbrev pub then_with : {A B : Type 0} → Option (A × S) → (A → Exec S B) → Option (B × S)
  then_with none f = none
  then_with (some (a, s)) f = f a s

  infixl 5 ◌>>=◌ ◌>>◌
  abbrev pub ◌>>=◌ : {A B : Type 0} → Exec S A → (A → Exec S B) → Exec S B
  ◌>>=◌ m f s = then_with (m s) f

  abbrev pub ◌>>◌ : {B : Type 0} → Exec S (Unit {0}) → Exec S B → Exec S B
  m >> k = m >>= λ _. k
