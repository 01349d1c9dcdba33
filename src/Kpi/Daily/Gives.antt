-- ===== src/Kpi/Daily/Gives.antt =====
-- What the results of a method of src/kpi.rs satisfy, whatever the server answers: the rules for
-- each way in which a method is written.
use koc_core.Common.{◌≡◌, refl, Bool, true, false, List}
use koc_core.Common.Results.{Result, ok, err}
use koc_core.Json.{Text}
use koc_core.Kpi.Request.{Request}
use koc_core.Kpi.Session.{
  if◌then◌else◌, Answer, Exchange, Server, Session, M, ◌>>=◌, pure, call, match_result,
}
use koc_core.Kpi.Daily.{TaskRun}

-- Every result of `m` satisfies `Q`.
pub record Gives {N A : Type 0} (Q : A → Type 0) (m : M N TaskRun A) : Type 0 where
  pub at : (s : Session N TaskRun) → Q (m s).0

module _ {N A : Type 0} {Q : A → Type 0} where
  pub Gives-pure : (a : A) → Q a → Gives {N = N} Q (pure a)
  unfolding pure
  Gives-pure a h = record { at = λ s. h }

  pub Gives-bind_of :
      {B : Type 0} {R : B → Type 0} (m : M N TaskRun B) (k : B → M N TaskRun A)
      → Gives R m
      → ((b : B) → R b → Gives Q (k b))
      → Gives Q (m >>= k)
  unfolding ◌>>=◌
  Gives-bind_of m k hm hk = record { at = λ s. (hk _ (hm.at s)).at _ }

  pub Gives-bind :
      {B : Type 0} (m : M N TaskRun B) (k : B → M N TaskRun A)
      → ((b : B) → Gives Q (k b))
      → Gives Q (m >>= k)
  unfolding ◌>>=◌
  Gives-bind m k hk = record { at = λ s. (hk _).at _ }

  pub Gives-if :
      (b : Bool) (m n : M N TaskRun A)
      → (b ≡ true → Gives Q m)
      → (b ≡ false → Gives Q n)
      → Gives Q (if b then m else n)
  unfolding if◌then◌else◌
  Gives-if true m n hm hn = hm refl
  Gives-if false m n hm hn = hn refl

  pub Gives-match_result :
      {B : Type 0} (r : Result B Text) (f : B → M N TaskRun A) (g : Text → M N TaskRun A)
      → ((b : B) → Gives Q (f b))
      → ((e : Text) → Gives Q (g e))
      → Gives Q (match_result r f g)
  unfolding match_result
  Gives-match_result (ok b) f g hf hg = hf b
  Gives-match_result (err e) f g hf hg = hg e

pub Gives-call :
    {N : Type 0} {R : Answer N → Type 0} (server : Server N) (r : Request N)
    → ((es : List (Exchange N)) → R (server es r))
    → Gives R (call {S = TaskRun} server r)
unfolding call
Gives-call server r h = record { at = λ s. h s.sent }
