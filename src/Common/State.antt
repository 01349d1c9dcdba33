-- ===== src/Common/State.antt =====
-- Methods that change an object and may give up: Rust's `fn f(&mut self) -> Option<A>`.
use koc_core.Common.{Option, none, some}

-- After `none` the state is not looked at: each caller passes the `None` on by `?`.
abbrev pub M : Type 0 → Type 0 → Type 0
M S A = S → Option (A × S)

infixl 5 ◌>>=◌ ◌>>◌
abbrev pub ◌>>=◌ : {S A B : Type 0} → M S A → (A → M S B) → M S B
◌>>=◌ m f s = elim (m s) [ none ↦ none | some (a, s') ↦ f a s' ]

abbrev pub ◌>>◌ : {S A B : Type 0} → M S A → M S B → M S B
m >> k = m >>= λ _. k

abbrev pub pure : {S A : Type 0} → A → M S A
pure a s = some (a, s)

abbrev pub fail : {S A : Type 0} → M S A
fail s = none

-- `let a = o?;` for a value that does not depend on the object.
abbrev pub ok_or_return : {S A : Type 0} → Option A → M S A
ok_or_return o s = elim o [ none ↦ none | some a ↦ some (a, s) ]
