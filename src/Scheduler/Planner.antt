-- ===== src/Scheduler/Planner.antt =====
-- `PendingPlanner` of src/scheduler.rs: which roles a round runs, and for what.
pub mod Due
use koc_core.Common.{
  Bool, true, false, ◌&&◌, ◌||◌, not, Option, none, some, List, [], ◌∷◌, ℕ, if◌then◌else◌,
}
use koc_core.Json.{Text}
use koc_core.State.{RoleState, AppState, ensure_today, ensure_this_week, all_done, find}
use koc_core.State.Periodic.{
  F64, needs_hangup, needs_bottle, needs_legacy, needs_tower, needs_evotower,
}

pub record RoleTask : Type 0 where
  pub key : Text
  pub display : Text
  pub bin_path : Text
  pub server_id : ℕ
  pub role_name : Text

pub record RoleRunPlan : Type 0 where
  pub role : RoleTask
  pub needs_daily : Bool
  pub needs_periodic : Bool
  pub needs_weekly : Bool

-- The fields of `BatchConfig` that the planner reads.
pub record PlanConfig (F : Type 0) : Type 0 where
  pub study_enabled : Bool
  pub car_enabled : Bool
  pub tower_enabled : Bool
  pub evotower_enabled : Bool
  pub hangup_threshold_hours : F
  pub bottle_threshold_hours : F
  pub legacy_interval_hours : F

-- What the clock says: the day, the week, the time, whether the daily tasks may run, whether it is
-- the day of the weekly ones, and `is_car_send_window` and `is_evotower_active`.
pub record Moment (F : Type 0) : Type 0 where
  pub today : Text
  pub week : Text
  pub now : F
  pub daily_time_reached : Bool
  pub is_weekly_day : Bool
  pub car_send_window : Bool
  pub evotower_active : Bool

module _ {F : Type 0} (float : F64 F) (config : PlanConfig F) (moment : Moment F) where
  -- The loop that resets what has expired.
  unfoldable pub reset_expired : List (Text × RoleState F) → List (Text × RoleState F)
  unfolding ensure_today ensure_this_week
  reset_expired [] = []
  reset_expired ((key, rs) ∷ roles) =
      (
        key,
        record rs {
          daily = ensure_today float.zero moment.today rs.daily;
          weekly = ensure_this_week moment.week rs.weekly;
        },
      )
      ∷ reset_expired roles

  -- `role_state.map(…).unwrap_or(default)`
  abbrev pub map_or : Bool → (RoleState F → Bool) → Option (RoleState F) → Bool
  map_or default f none = default
  map_or default f (some rs) = f rs

  unfoldable pub daily_due : Option (RoleState F) → Bool
  unfolding all_done
  daily_due rs =
      (moment.daily_time_reached && not (map_or false (λ r. all_done r.daily) rs))
      || (moment.daily_time_reached
          && (config.car_enabled
              && (moment.car_send_window && not (map_or false (λ r. (r.daily).car_send_done) rs))))

  unfoldable pub periodic_due : Option (RoleState F) → Bool
  unfolding needs_hangup needs_bottle needs_legacy needs_tower needs_evotower
  periodic_due rs =
      map_or true
        (λ r.
          needs_hangup float moment.now config.hangup_threshold_hours r.periodic
          || (needs_bottle float moment.now config.bottle_threshold_hours r.periodic
              || (needs_legacy float moment.now config.legacy_interval_hours r.periodic
                  || ((config.tower_enabled && needs_tower float moment.now r.periodic)
                      || (config.evotower_enabled
                          && (moment.evotower_active
                              && needs_evotower float moment.now r.periodic))))))
        rs

  unfoldable pub weekly_due : Option (RoleState F) → Bool
  weekly_due rs =
      config.study_enabled
      && (moment.is_weekly_day
          && (moment.daily_time_reached && not (map_or false (λ r. (r.weekly).study) rs)))

  abbrev pub forced_plan : RoleTask → RoleRunPlan
  forced_plan role = record {
    role = role;
    needs_daily = moment.daily_time_reached;
    needs_periodic = true;
    needs_weekly = config.study_enabled && (moment.is_weekly_day && moment.daily_time_reached);
  }

  unfoldable pub plan_of : RoleTask → Option (RoleState F) → RoleRunPlan
  unfolding daily_due periodic_due weekly_due
  plan_of role rs = record {
    role = role;
    needs_daily = daily_due rs;
    needs_periodic = periodic_due rs;
    needs_weekly = weekly_due rs;
  }

  -- `if needs_daily || needs_periodic || needs_weekly`
  abbrev pub is_needed : RoleRunPlan → Bool
  is_needed p = p.needs_daily || (p.needs_periodic || p.needs_weekly)

  -- The loop over the roles.
  unfoldable pub plan_roles : Bool → List (Text × RoleState F) → List RoleTask → List RoleRunPlan
  unfolding plan_of find
  plan_roles force_all st [] = []
  plan_roles force_all st (role ∷ roles) =
      let rest = plan_roles force_all st roles in
      let plan = plan_of role (find role.key st) in
      if force_all then forced_plan role ∷ rest else if is_needed plan then plan ∷ rest else rest

  unfoldable pub collect : Bool → List RoleTask → AppState F → List RoleRunPlan × AppState F
  unfolding plan_roles reset_expired
  collect force_all roles state =
      let st = reset_expired state.roles in
      (plan_roles force_all st roles, record state { roles = st })
