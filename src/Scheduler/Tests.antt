-- ===== src/Scheduler/Tests.antt =====
-- The theorems about the scheduler at a concrete time, and a round in which one role is idle.
use koc_core.Common.{
  ℕ, ◌-◌, ◌*◌, ◌≡◌, refl, true, false, none, [], ◌∷◌, List, map, ltb, leb, if◌then◌else◌, arith,
}
use koc_core.Common.Results.{All}
use koc_core.Json.{Text}
use koc_core.State.{RoleState, AppState, default_role, default_periodic}
use koc_core.State.Periodic.{F64}
use koc_core.Scheduler.Planner.{RoleTask, PlanConfig, Moment, collect}
use koc_core.Scheduler.Planner.Due.{IsDue, IsServed, collect-IsDue}
use koc_core.Common.Codes.{codes}
use koc_core.Config.Times.{sat}
use koc_core.Config.Windows.{
  MaintenanceWindowConfig, default_maintenance_windows, normalize_maintenance_windows,
}
use koc_core.Config.Windows.Coverage.{any_valid, in_maintenance}
use koc_core.Scheduler.Policy.{LocalTime, Schedule, maintenance_hit}
use koc_core.Scheduler.Maintenance.{is_hit, time, maintenance_hit-normalize}

abbrev saturday_evening : LocalTime
saturday_evening = record { weekday = sat; hour = 20; minute = 30 }

abbrev windows : List MaintenanceWindowConfig
windows =
    record { weekday = codes "Saturday"; start_time = codes "20:00"; end_time = codes "21:00" } ∷ []

abbrev schedule : Schedule
schedule = record {
  schedule_time = codes "06:00";
  friday_daily_start_time = codes "12:10";
  maintenance_windows = normalize_maintenance_windows windows;
}

maintenance_hit-normalize_example : is_hit (maintenance_hit saturday_evening schedule) ≡ (
    if any_valid windows
    then in_maintenance sat (time saturday_evening) windows
    else in_maintenance sat (time saturday_evening) default_maintenance_windows)
maintenance_hit-normalize_example =
    maintenance_hit-normalize saturday_evening schedule windows (omega arith) refl

-- A float is a number of seconds.
abbrev seconds : F64 ℕ
seconds = record {
  zero = 0;
  hour = 3600;
  le = leb;
  lt = ltb;
  minus = λ a b. a - b;
  times = λ a b. a * b;
}

abbrev plan_config : PlanConfig ℕ
plan_config = record {
  study_enabled = true;
  car_enabled = false;
  tower_enabled = true;
  evotower_enabled = false;
  hangup_threshold_hours = 6;
  bottle_threshold_hours = 2;
  legacy_interval_hours = 6;
}

-- Before the daily time.
abbrev early : Moment ℕ
early = record {
  today = codes "2025-01-06";
  week = codes "2025-W02";
  now = 100000;
  daily_time_reached = false;
  is_weekly_day = true;
  car_send_window = false;
  evotower_active = false;
}

abbrev task_of : Text → RoleTask
task_of key = record {
  key = key;
  display = key;
  bin_path = codes "a.bin";
  server_id = 1;
  role_name = key;
}

abbrev rested : RoleState ℕ
rested = record (default_role 0) {
  periodic = record (default_periodic 0) {
    hangup_next_check = 100001;
    bottle_stop_time = 200000;
    legacy_last_claim = 99000;
    tower_cleared = true;
  };
}

abbrev app : AppState ℕ
app = record { round_date = none; round_count = 0; roles = (codes "old", rested) ∷ [] }

abbrev tasks : List RoleTask
tasks = task_of (codes "old") ∷ task_of (codes "new") ∷ []

idle_role_test :
    map (λ p. (p.role).key) (collect seconds plan_config early false tasks app).0 ≡ codes "new" ∷ []
unfolding collect
idle_role_test = refl

collect-IsDue_example :
    let plans = (collect seconds plan_config early false tasks app).0 in
    All (IsDue seconds plan_config early) plans
    × All (IsServed seconds plan_config early app.roles plans) tasks
collect-IsDue_example = collect-IsDue seconds plan_config early false tasks app
