-- ===== src/Config/Windows.antt =====
-- The maintenance windows of src/config.rs: `normalize_maintenance_windows` and
-- `parse_maintenance_windows`. The counts that the code only logs are left out.
pub mod Merge
pub mod Read
pub mod Coverage
pub mod Normalize
pub mod Tests
use koc_core.Common.{
  ℕ, ◌+◌, ◌*◌, Bool, true, false, Option, none, some, List, [], ◌∷◌, ◌++◌, ltb, leb, if◌then◌else◌,
}
use Prim.Native.String.{String}
use koc_core.Common.Codes.{codes}
use koc_core.Json.{Text}
use koc_core.Config.Times.{
  Weekday, mon, tue, wed, thu, fri, sat, sun, parse_weekday, weekday_to_short, parse_hhmm_strict,
  minutes_to_hhmm,
}

pub record MaintenanceWindowConfig : Type 0 where
  pub weekday : Text
  pub start_time : Text
  pub end_time : Text

abbrev window : String → String → String → MaintenanceWindowConfig
window day start stop = record {
  weekday = codes day;
  start_time = codes start;
  end_time = codes stop;
}

abbrev pub default_maintenance_windows : List MaintenanceWindowConfig
default_maintenance_windows =
    window "Fri" "05:00" "07:00" ∷ window "Sat" "19:15" "21:15" ∷ window "Sun" "19:15" "20:45" ∷ []

abbrev pub Interval : Type 0
Interval = ℕ × ℕ

-- What the loop reads of a window, or none where it drops the window.
abbrev pub minutes : ℕ × ℕ → ℕ
minutes (h, m) = h * 60 + m

abbrev pub checked_interval : Weekday → ℕ → ℕ → Option (Weekday × Interval)
checked_interval w start stop = if leb stop start then none else some (w, (start, stop))

unfoldable pub read_window : MaintenanceWindowConfig → Option (Weekday × Interval)
read_window w = elim (parse_weekday w.weekday) [
  | none ↦ none
  | some day ↦ elim (parse_hhmm_strict w.start_time) [
    | none ↦ none
    | some start ↦ elim (parse_hhmm_strict w.end_time) [
      | none ↦ none
      | some stop ↦ checked_interval day (minutes start) (minutes stop)
    ]
  ]
]

abbrev pub weekday_eq : Weekday → Weekday → Bool
weekday_eq mon mon = true
weekday_eq tue tue = true
weekday_eq wed wed = true
weekday_eq thu thu = true
weekday_eq fri fri = true
weekday_eq sat sat = true
weekday_eq sun sun = true
weekday_eq a b = false

-- The map from weekdays to intervals: a weekday without an entry has no intervals.
abbrev pub Grouped : Type 0
Grouped = Weekday → List Interval

-- `grouped.entry(weekday).or_default().push((start, end))`
abbrev pub push_interval : Weekday → Interval → Grouped → Grouped
push_interval w i g v = if weekday_eq w v then g v ++ i ∷ [] else g v

-- The loop over the windows.
unfoldable pub group_windows : Grouped → List MaintenanceWindowConfig → Grouped
unfolding read_window
group_windows g [] = g
group_windows g (w ∷ ws) = elim (read_window w) [
  | none ↦ group_windows g ws
  | some (day, i) ↦ group_windows (push_interval day i g) ws
]

-- `intervals.sort_by_key(|(s, _)| *s)`, a stable sort.
unfoldable pub insert_by_start : Interval → List Interval → List Interval
insert_by_start i [] = i ∷ []
insert_by_start (s, e) ((s', e') ∷ is') =
    let rest = insert_by_start (s, e) is' in
    if leb s s' then (s, e) ∷ (s', e') ∷ is' else (s', e') ∷ rest

unfoldable pub sort_by_start : List Interval → List Interval
unfolding insert_by_start
sort_by_start [] = []
sort_by_start (i ∷ is') = insert_by_start i (sort_by_start is')

-- The body of the merging loop; `merged` grows at its end, and `last_mut` is its last element.
unfoldable pub merge_into : List Interval → ℕ → ℕ → List Interval
merge_into [] s e = (s, e) ∷ []
merge_into ((a, b) ∷ []) s e =
    if leb s b then (if ltb b e then (a, e) ∷ [] else (a, b) ∷ []) else (a, b) ∷ (s, e) ∷ []
merge_into ((a, b) ∷ i ∷ is') s e = (a, b) ∷ merge_into (i ∷ is') s e

unfoldable pub merge_all : List Interval → List Interval → List Interval
unfolding merge_into
merge_all merged [] = merged
merge_all merged ((s, e) ∷ is') = merge_all (merge_into merged s e) is'

-- `MaintenanceWindowConfig { … }` for an interval.
abbrev pub to_config : Weekday → Interval → MaintenanceWindowConfig
to_config w (s, e) = record {
  weekday = weekday_to_short w;
  start_time = minutes_to_hhmm s;
  end_time = minutes_to_hhmm e;
}

unfoldable pub to_configs : Weekday → List Interval → List MaintenanceWindowConfig
to_configs w [] = []
to_configs w (i ∷ is') = to_config w i ∷ to_configs w is'

unfoldable pub merged_of : Grouped → Weekday → List Interval
unfolding sort_by_start merge_all
merged_of g w = merge_all [] (sort_by_start (g w))

-- The weekdays in the order of `num_days_from_monday`.
abbrev pub week : List Weekday
week = mon ∷ tue ∷ wed ∷ thu ∷ fri ∷ sat ∷ sun ∷ []

-- The loop over the sorted groups; a weekday without intervals adds nothing.
unfoldable pub emit : Grouped → List Weekday → List MaintenanceWindowConfig
unfolding to_configs merged_of
emit g [] = []
emit g (w ∷ days) = to_configs w (merged_of g w) ++ emit g days

abbrev pub or_defaults : List MaintenanceWindowConfig → List MaintenanceWindowConfig
or_defaults [] = default_maintenance_windows
or_defaults (w ∷ ws) = w ∷ ws

unfoldable pub normalize_maintenance_windows :
    List MaintenanceWindowConfig → List MaintenanceWindowConfig
unfolding group_windows emit
normalize_maintenance_windows [] = default_maintenance_windows
normalize_maintenance_windows (w ∷ ws) = or_defaults (emit (group_windows (λ v. []) (w ∷ ws)) week)

-- `(Some(weekday), Some((sh, sm)), Some((eh, em)))`
unfoldable pub parse_maintenance_windows :
    List MaintenanceWindowConfig → List (Weekday × (ℕ × ℕ) × (ℕ × ℕ))
parse_maintenance_windows [] = []
parse_maintenance_windows (w ∷ ws) =
    let rest = parse_maintenance_windows ws in
    elim (parse_weekday w.weekday) [
      | none ↦ rest
      | some day ↦ elim (parse_hhmm_strict w.start_time) [
        | none ↦ rest
        | some start ↦ elim (parse_hhmm_strict w.end_time) [
          | none ↦ rest
          | some stop ↦ (day, start, stop) ∷ rest
        ]
      ]
    ]
