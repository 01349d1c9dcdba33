-- ===== src/Scheduler/Policy.antt =====
-- `TimeWindowPolicy` of src/scheduler.rs, on the weekday, hour and minute of the local time.
use koc_core.Common.{
  ℕ, Bool, Option, none, some, List, [], ◌∷◌, ltb, leb, ◌==◌, ◌&&◌, ◌||◌, if◌then◌else◌,
}
use koc_core.Json.{Text}
use koc_core.Config.Times.{Weekday, fri, parse_hhmm_with_fallback}
use koc_core.Config.Windows.{MaintenanceWindowConfig, weekday_eq, parse_maintenance_windows}

-- `chrono::DateTime<Local>`, by the methods that are called on it.
pub record LocalTime : Type 0 where
  pub weekday : Weekday
  pub hour : ℕ
  pub minute : ℕ

-- The fields of `BatchConfig` that the policy reads.
pub record Schedule : Type 0 where
  pub schedule_time : Text
  pub friday_daily_start_time : Text
  pub maintenance_windows : List MaintenanceWindowConfig

pub record MaintenanceHit : Type 0 where
  pub hit_weekday : Weekday
  pub start_h : ℕ
  pub start_m : ℕ
  pub end_h : ℕ
  pub end_m : ℕ

pub record TimeWindowPolicy : Type 0 where
  pub hit : Option MaintenanceHit
  pub daily_time_reached : Bool

abbrev pub is_time_reached : LocalTime → ℕ → ℕ → Bool
is_time_reached now hour minute = ltb hour now.hour || ((now.hour == hour) && leb minute now.minute)

abbrev pub is_time_before : LocalTime → ℕ → ℕ → Bool
is_time_before now hour minute = ltb now.hour hour || ((now.hour == hour) && ltb now.minute minute)

unfoldable pub parse_schedule_time : Schedule → ℕ × ℕ
unfolding parse_hhmm_with_fallback
parse_schedule_time config = parse_hhmm_with_fallback config.schedule_time (6, 0)

unfoldable pub parse_friday_daily_start_time : Schedule → ℕ × ℕ
unfolding parse_hhmm_with_fallback
parse_friday_daily_start_time config =
    parse_hhmm_with_fallback config.friday_daily_start_time (12, 10)

unfoldable pub effective_daily_start : LocalTime → Schedule → ℕ × ℕ
unfolding parse_schedule_time parse_friday_daily_start_time
effective_daily_start now config =
    if weekday_eq now.weekday fri
    then parse_friday_daily_start_time config
    else parse_schedule_time config

unfoldable pub daily_time_reached_at : LocalTime → Schedule → Bool
unfolding effective_daily_start
daily_time_reached_at now config =
    let (daily_h, daily_m) = effective_daily_start now config in is_time_reached now daily_h daily_m

-- The loop over the parsed windows, up to the first that is hit.
unfoldable pub first_hit : LocalTime → List (Weekday × (ℕ × ℕ) × (ℕ × ℕ)) → Option MaintenanceHit
first_hit now [] = none
first_hit now ((day, (sh, sm), (eh, em)) ∷ windows) =
    let rest = first_hit now windows in
    if weekday_eq now.weekday day && (is_time_reached now sh sm && is_time_before now eh em)
    then some (record { hit_weekday = day; start_h = sh; start_m = sm; end_h = eh; end_m = em })
    else rest

unfoldable pub maintenance_hit : LocalTime → Schedule → Option MaintenanceHit
unfolding first_hit parse_maintenance_windows
maintenance_hit now config = first_hit now (parse_maintenance_windows config.maintenance_windows)

unfoldable pub new_policy : LocalTime → Schedule → TimeWindowPolicy
unfolding maintenance_hit daily_time_reached_at
new_policy now config = record {
  hit = maintenance_hit now config;
  daily_time_reached = daily_time_reached_at now config;
}
