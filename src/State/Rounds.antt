-- ===== src/State/Rounds.antt =====
-- The rounds of a day, and the daily reset.
use koc_core.Common.{ℕ, zero, suc, ◌+◌, ◌%◌, ◌^◌, ◌<◌, ◌≡◌, refl, true, false, some, arith, ap, ◌∙◌}
use koc_core.Json.{Text}
use koc_core.Bon.Table.{text_eq_refl}
use koc_core.State.{AppState, differs, next_round}

module _ {F : Type 0} where
  -- The state after `n` rounds on one day.
  unfoldable pub rounds : ℕ → Text → AppState F → AppState F
  rounds zero today s = s
  rounds (suc n) today s = (next_round today (rounds n today s)).1

  first_round :
      (today : Text) (s : AppState F)
      → differs s.round_date today ≡ true
      → (next_round today s).1 ≡ record s { round_date = some today; round_count = 1 }
  unfolding next_round
  first_round today s h = rw h refl

  next_again :
      (today : Text) (s : AppState F)
      → differs s.round_date today ≡ false
      → (next_round today s).1 ≡ record s { round_count = (s.round_count + 1) % 2 ^ 32 }
  unfolding next_round
  next_again today s h = rw h refl

  -- After n + 1 calls of `next_round` on one day, the first of which meets another date, the
  -- date is that day and the count n + 1, as long as n + 1 is below 2 ^ 32.
  pub rounds-count :
      (n : ℕ) (today : Text) (s : AppState F)
      → differs s.round_date today ≡ true
      → suc n < 2 ^ 32
      → rounds (suc n) today s ≡ record s { round_date = some today; round_count = suc n }
  unfolding rounds next_round
  rounds-count zero today s h k = first_round today s h
  rounds-count (suc n) today s h k =
      let count : (suc n + 1) % 2 ^ 32 ≡ suc (suc n) = omega arith in
      ap (λ u. (next_round today u).1) (rounds-count n today s h (omega arith))
      ∙ next_again today (record s { round_date = some today; round_count = suc n })
          (rw (text_eq_refl today) refl)
      ∙ ap (λ c. record s { round_date = some today; round_count = c }) count
