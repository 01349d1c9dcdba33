-- ===== src/State/Periodic.antt =====
-- The checks of `RolePeriodicState` in src/state.rs. `F` is `f64` with the operations that the code
-- uses, and the clock's time is an argument.
use koc_core.Common.{Bool, true, ◌&&◌, ◌||◌, not, if◌then◌else◌}
use koc_core.State.{RolePeriodicState}

pub record F64 (F : Type 0) : Type 0 where
  -- 0.0 and 3600.0
  pub zero : F
  pub hour : F
  -- `<=` and `<`
  pub le : F → F → Bool
  pub lt : F → F → Bool
  pub minus : F → F → F
  pub times : F → F → F

module _ {F : Type 0} (float : F64 F) (now : F) where
  unfoldable pub needs_hangup : F → RolePeriodicState F → Bool
  needs_hangup threshold_hours p =
      if float.lt float.zero p.hangup_next_check
      then float.le p.hangup_next_check now
      else if float.le p.hangup_last_time float.zero
      then true
      else float.le (float.times threshold_hours float.hour) (float.minus now p.hangup_last_time)

  unfoldable pub needs_bottle : F → RolePeriodicState F → Bool
  needs_bottle threshold_hours p =
      if float.le p.bottle_stop_time float.zero
      then true
      else float.le (float.minus p.bottle_stop_time now) (float.times threshold_hours float.hour)

  unfoldable pub needs_legacy : F → RolePeriodicState F → Bool
  needs_legacy interval_hours p =
      if float.le p.legacy_last_claim float.zero
      then true
      else float.le (float.times interval_hours float.hour) (float.minus now p.legacy_last_claim)

  unfoldable pub needs_tower : RolePeriodicState F → Bool
  needs_tower p =
      not p.tower_cleared
      && (float.le p.tower_next_check float.zero || float.le p.tower_next_check now)

  unfoldable pub needs_evotower : RolePeriodicState F → Bool
  needs_evotower p = float.le p.evo_next_check float.zero || float.le p.evo_next_check now
