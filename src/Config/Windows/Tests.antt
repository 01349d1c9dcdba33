-- ===== src/Config/Windows/Tests.antt =====
-- The theorems about times and maintenance windows at concrete inputs.
use Prim.Native.String.{String}
use koc_core.Common.{ℕ, ◌/◌, ◌%◌, ◌≡◌, some, List, [], ◌∷◌, if◌then◌else◌, arith}
use koc_core.Common.Codes.{codes}
use koc_core.Config.Times.{
  fri, parse_hhmm_strict, minutes_to_hhmm, parse_hhmm_strict-minutes_to_hhmm,
}
use koc_core.Config.Windows.{
  MaintenanceWindowConfig, Interval, default_maintenance_windows, sort_by_start, merge_all,
  normalize_maintenance_windows,
}
use koc_core.Config.Windows.Merge.{IsSeparated, IsProper, covers, merge_all-sort_by_start}
use koc_core.Config.Windows.Coverage.{any_valid, in_maintenance}
use koc_core.Config.Windows.Normalize.{in_maintenance-normalize}

parse_hhmm_strict-minutes_to_hhmm_example :
    parse_hhmm_strict (minutes_to_hhmm 1275) ≡ some (1275 / 60, 1275 % 60)
parse_hhmm_strict-minutes_to_hhmm_example = parse_hhmm_strict-minutes_to_hhmm 1275 (omega arith)

abbrev overlapping : List Interval
overlapping = (420, 480) ∷ (300, 420) ∷ (600, 660) ∷ (310, 330) ∷ []

overlapping-IsProper : IsProper overlapping
overlapping-IsProper = omega arith

merge_all-sort_by_start_example :
    ((t : ℕ) → covers t (merge_all [] (sort_by_start overlapping)) ≡ covers t overlapping)
    × IsSeparated 0 (merge_all [] (sort_by_start overlapping))
merge_all-sort_by_start_example = merge_all-sort_by_start overlapping overlapping-IsProper

abbrev window : String → String → String → MaintenanceWindowConfig
window day start stop = record {
  weekday = codes day;
  start_time = codes start;
  end_time = codes stop;
}

-- The second window is not valid, and the others overlap.
abbrev windows : List MaintenanceWindowConfig
windows =
    window "friday" "06:30" "08:00" ∷ window "Sat" "9:00" "08:00" ∷ window "Fri" "5:00" "07:00" ∷ []

in_maintenance-normalize_example :
    in_maintenance fri 400 (normalize_maintenance_windows windows) ≡ (
      if any_valid windows
      then in_maintenance fri 400 windows
      else in_maintenance fri 400 default_maintenance_windows)
in_maintenance-normalize_example = in_maintenance-normalize fri 400 windows
