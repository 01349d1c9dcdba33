-- ===== src/ErrorCodes/Tests.antt =====
-- The theorems about src/error_codes.rs at concrete inputs.
use koc_core.Common.{◌≡◌, refl, some, arith, true}
use koc_core.Common.Codes.{codes}
use koc_core.Common.Int.{pos}
use koc_core.Common.Results.{err}
use koc_core.Json.Sample.{Num}
use koc_core.ErrorCodes.{contains, is_done_error, format_error, is_done_result}
use koc_core.ErrorCodes.Format.{is_done_result-format_error}

is_done_result-format_error_example :
    is_done_result {N = Num} (err (format_error (pos 77) (some (codes "wait]"))))
    ≡ is_done_error (pos 77)
is_done_result-format_error_example =
    is_done_result-format_error Num (pos 77) (some (codes "wait]")) (omega arith)

arena_is_done : is_done_error (pos 200_750) ≡ true
unfolding is_done_error contains
arena_is_done = refl
