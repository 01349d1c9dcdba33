-- ===== src/Kpi/Session.antt =====
-- How the methods of src/kpi.rs talk to the server: each `await` of a command is one exchange. The
-- server is any function that answers a request by all that was exchanged before.
use koc_core.Common.{ℕ, zero, suc, ◌+◌, Bool, true, false, Option, none, some, List, ◌∷◌}
use koc_core.Common.Results.{Result, ok, err}
use koc_core.Json.{Text, Value}
use koc_core.Kpi.Request.{Request}

abbrev pub Answer : Type 0 → Type 0
Answer N = Result (Value N) Text

pub record Exchange (N : Type 0) : Type 0 where
  pub request : Request N
  pub answer : Answer N

-- The latest exchange stands first.
abbrev pub Server : Type 0 → Type 0
Server N = List (Exchange N) → Request N → Answer N

-- What was exchanged, and the variables that a method changes.
pub record Session (N S : Type 0) : Type 0 where
  pub sent : List (Exchange N)
  pub vars : S

abbrev pub M : Type 0 → Type 0 → Type 0 → Type 0
M N S A = Session N S → A × Session N S

module _ {N S : Type 0} where
  unfoldable pub pure : {A : Type 0} → A → M N S A
  pure a s = (a, s)

  unfoldable pub gets : {A : Type 0} → (S → A) → M N S A
  gets f s = (f s.vars, s)

  unfoldable pub modify : (S → S) → M N S (Unit {0})
  modify f s = (tt, record s { vars = f s.vars })

  -- `.await` on a command
  unfoldable pub call : Server N → Request N → M N S (Answer N)
  call server request s =
      let answer = server s.sent request in
      (answer, record s { sent = record { request = request; answer = answer } ∷ s.sent })

  -- `match`, on a `Result` and on an `Option`
  unfoldable pub match_result :
      {A B : Type 0} → Result A Text → (A → M N S B) → (Text → M N S B) → M N S B
  match_result (ok a) f g = f a
  match_result (err e) f g = g e

  unfoldable pub match_option : {A B : Type 0} → Option A → (A → M N S B) → M N S B → M N S B
  match_option (some a) f m = f a
  match_option none f m = m

module _ {N S : Type 0} where
  infix 1 if◌then◌else◌
  unfoldable pub if◌then◌else◌ : {A : Type 0} → Bool → M N S A → M N S A → M N S A
  if true then m else n = m
  if false then m else n = n

module _ {N S A B : Type 0} where
  infixl 5 ◌>>=◌ ◌>>◌
  unfoldable pub ◌>>=◌ : M N S A → (A → M N S B) → M N S B
  unfolding pure gets modify call match_result match_option if◌then◌else◌
  ◌>>=◌ m f s = let (a, s') = m s in f a s'

  abbrev pub ◌>>◌ : M N S A → M N S B → M N S B
  m >> k = m >>= λ _. k

  -- `e?`
  abbrev pub try : Result A Text → (A → M N S (Result B Text)) → M N S (Result B Text)
  try r f = match_result r f (λ e. pure (err e))

module _ {N S : Type 0} where
  -- `for i in first..first + n`
  unfoldable pub repeat : ℕ → ℕ → (ℕ → M N S (Unit {0})) → M N S (Unit {0})
  unfolding ◌>>=◌
  repeat first zero body = pure tt
  repeat first (suc n) body = body first >> repeat (first + 1) n body
