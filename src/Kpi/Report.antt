-- ===== src/Kpi/Report.antt =====
-- `DailyTaskReport` of src/kpi.rs: what became of each task.
use koc_core.Common.{ℕ, ◌+◌, Bool, true, false, none, some, List, [], ◌∷◌, ◌++◌, if◌then◌else◌}
use koc_core.Common.Results.{Result, ok, err}
use koc_core.Json.{Text, Value}
use koc_core.ErrorCodes.{extract_code_from_error, is_done_error}

pub data TaskResult : Type 0 where
  succeeded : Text → TaskResult
  skipped : Text → TaskResult
  failed : Text → Text → TaskResult

pub record DailyTaskReport : Type 0 where
  pub results : List TaskResult

abbrev pub new_report : DailyTaskReport
new_report = record { results = [] }

unfoldable pub push : TaskResult → DailyTaskReport → DailyTaskReport
push r self = record { results = self.results ++ r ∷ [] }

unfoldable pub failure_of : Text → Text → TaskResult
failure_of name e = elim (extract_code_from_error e) [
  | some code ↦ if is_done_error code then skipped name else failed name e
  | none ↦ failed name e
]

-- `run` and `run_with_prefix` differ in what they log.
unfoldable pub run : {N : Type 0} → Text → Result (Value N) Text → DailyTaskReport → DailyTaskReport
unfolding push failure_of
run name (ok v) self = push (succeeded name) self
run name (err e) self = push (failure_of name e) self

unfoldable pub skip : Text → DailyTaskReport → DailyTaskReport
unfolding push
skip name self = push (skipped name) self

unfoldable pub fail : Text → Text → DailyTaskReport → DailyTaskReport
unfolding push
fail name e self = push (failed name e) self

-- The filters of `ok_count`, `skip_count` and `fail_count`.
abbrev is_ok : TaskResult → Bool
is_ok (succeeded name) = true
is_ok r = false

abbrev is_skipped : TaskResult → Bool
is_skipped (skipped name) = true
is_skipped r = false

abbrev is_failed : TaskResult → Bool
is_failed (failed name e) = true
is_failed r = false

abbrev pub count : (TaskResult → Bool) → List TaskResult → ℕ
count p [] = 0
count p (r ∷ rs) = (if p r then 1 else 0) + count p rs

unfoldable pub ok_count : DailyTaskReport → ℕ
ok_count self = count is_ok self.results

unfoldable pub skip_count : DailyTaskReport → ℕ
skip_count self = count is_skipped self.results

unfoldable pub fail_count : DailyTaskReport → ℕ
fail_count self = count is_failed self.results
