-- ===== src/Common/Results.antt =====
-- Rust's `Result`, and a predicate for every element of a list.
use koc_core.Common.{List, [], ◌∷◌}

pub data Result {ℓ κ} (A : Type ℓ) (E : Type κ) : Type (ℓ ⊔ κ) where
  ok : A → Result A E
  err : E → Result A E

-- `e?`
infixl 5 ◌>>=◌
abbrev pub ◌>>=◌ {ℓ κ} : {A B : Type ℓ} {E : Type κ} → Result A E → (A → Result B E) → Result B E
ok a >>= f = f a
err e >>= f = err e

abbrev pub All {ℓ κ} : {A : Type ℓ} → (A → Type κ) → List A → Type κ
All P [] = Unit
All P (x ∷ xs) = P x × All P xs
