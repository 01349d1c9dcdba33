-- ===== src/Scheduler/Planner/Due.antt =====
-- What the plans of a round are for, and for which roles there are plans.
use koc_core.Common.{
  ◌≡◌, refl, sym, ap, subst, ◌∙◌, inl, inr, Bool, true, false, ◌&&◌, ◌||◌, not, Option, none, some,
  List, [], ◌∷◌, Bool-cases, arith,
}
use koc_core.Common.Results.{All}
use koc_core.Json.{Text}
use koc_core.Bon.Encoder.{text_eq}
use koc_core.State.{RoleState, AppState, find}
use koc_core.State.Periodic.{F64}
use koc_core.Bon.Table.{text_eq_refl}
use koc_core.Scheduler.Planner.{
  RoleTask, RoleRunPlan, PlanConfig, Moment, reset_expired, daily_due, periodic_due, weekly_due,
  forced_plan, plan_of, is_needed, plan_roles, collect,
}

module _ {F : Type 0} (float : F64 F) (config : PlanConfig F) (moment : Moment F) where
  -- A plan is for something; for daily tasks only when their time has come, and for weekly ones
  -- only if they are enabled, on their day, when the daily time has come.
  abbrev pub IsDue : RoleRunPlan → Type 0
  IsDue p =
      (is_needed float config moment p ≡ true)
      × ((not p.needs_daily || moment.daily_time_reached) ≡ true)
      × ((not p.needs_weekly
            || (config.study_enabled && (moment.is_weekly_day && moment.daily_time_reached)))
          ≡ true)

  -- The role has a state already.
  abbrev pub is_known : Option (RoleState F) → Bool
  is_known none = false
  is_known (some rs) = true

  abbrev pub is_planned : Text → List RoleRunPlan → Bool
  is_planned key [] = false
  is_planned key (p ∷ ps) = text_eq key (p.role).key || is_planned key ps

  daily_only : (d x y : Bool) → (not ((d && x) || (d && y)) || d) ≡ true
  daily_only true x y = ground arith
  daily_only false x y = refl

  weekly_only : (s w d x : Bool) → (not (s && (w && (d && x))) || (s && (w && d))) ≡ true
  weekly_only true true true x = ground arith
  weekly_only true true false x = refl
  weekly_only true false d x = refl
  weekly_only false w d x = refl

  self_or : (a : Bool) → (not a || a) ≡ true
  self_or true = refl
  self_or false = refl

  with_true : (a b : Bool) → (a || (true || b)) ≡ true
  with_true true b = refl
  with_true false b = refl

  or_more : (a b c : Bool) → (a || c) ≡ true → (a || (b || c)) ≡ true
  or_more true b c h = refl
  or_more false true c h = refl
  or_more false false c h = h

  or_first : (a b c : Bool) → b ≡ true → (a || (b || c)) ≡ true
  or_first true b c h = refl
  or_first false b c h = rw h refl

  forced_plan-IsDue : (role : RoleTask) → IsDue (forced_plan float config moment role)
  forced_plan-IsDue role = (
    with_true moment.daily_time_reached
        (config.study_enabled && (moment.is_weekly_day && moment.daily_time_reached)),
    self_or moment.daily_time_reached,
    self_or (config.study_enabled && (moment.is_weekly_day && moment.daily_time_reached)),
  )

  plan_of-IsDue :
      (role : RoleTask) (rs : Option (RoleState F))
      → is_needed float config moment (plan_of float config moment role rs) ≡ true
      → IsDue (plan_of float config moment role rs)
  unfolding plan_of daily_due weekly_due
  plan_of-IsDue role rs h = (
    h,
    daily_only moment.daily_time_reached _ _,
    weekly_only config.study_enabled moment.is_weekly_day moment.daily_time_reached _,
  )

  plan_roles-IsDue :
      (force_all : Bool) (st : List (Text × RoleState F)) (roles : List RoleTask)
      → All IsDue (plan_roles float config moment force_all st roles)
  unfolding plan_roles
  plan_roles-IsDue force_all st [] = tt
  plan_roles-IsDue true st (role ∷ roles) = (forced_plan-IsDue role, plan_roles-IsDue true st roles)
  plan_roles-IsDue false st (role ∷ roles) =
      let plan = plan_of float config moment role (find role.key st) in
      elim (Bool-cases (is_needed float config moment plan)) [
        | inl needed ↦
            rw needed
              (plan_of-IsDue role (find role.key st) needed, plan_roles-IsDue false st roles)
        | inr idle ↦ rw idle (plan_roles-IsDue false st roles)
      ]

  find-reset_expired :
      (key : Text) (st : List (Text × RoleState F))
      → is_known (find key (reset_expired float config moment st)) ≡ is_known (find key st)
  unfolding find reset_expired
  find-reset_expired key [] = refl
  find-reset_expired key ((k, rs) ∷ st) = elim (Bool-cases (text_eq k key)) [
    | inl same ↦ rw same refl
    | inr other ↦ rw other (find-reset_expired key st)
  ]

  -- A role is known or planned.
  abbrev pub IsServed : List (Text × RoleState F) → List RoleRunPlan → RoleTask → Type 0
  IsServed st plans role = (is_known (find role.key st) || is_planned role.key plans) ≡ true

  or_left : (a b : Bool) → a ≡ true → (a || b) ≡ true
  or_left a b h = rw h refl

  idle-is_known :
      (role : RoleTask) (rs : Option (RoleState F))
      → is_needed float config moment (plan_of float config moment role rs) ≡ false
      → is_known rs ≡ true
  unfolding plan_of periodic_due
  idle-is_known role none h =
      let busy =
        with_true (daily_due float config moment none) (weekly_due float config moment none) in
      cc
  idle-is_known role (some rs) h = refl

  IsServed-more :
      (st : List (Text × RoleState F)) (plans : List RoleRunPlan) (p : RoleRunPlan)
      (roles : List RoleTask)
      → All (IsServed st plans) roles
      → All (IsServed st (p ∷ plans)) roles
  IsServed-more st plans p [] h = tt
  IsServed-more st plans p (role ∷ roles) (a, h) = (
    or_more (is_known (find role.key st)) (text_eq role.key (p.role).key)
        (is_planned role.key plans) a,
    IsServed-more st plans p roles h,
  )

  plan_roles-needed :
      (st : List (Text × RoleState F)) (role : RoleTask) (roles : List RoleTask)
      → is_needed float config moment (plan_of float config moment role (find role.key st)) ≡ true
      → plan_roles float config moment false st (role ∷ roles)
        ≡ plan_of float config moment role (find role.key st)
          ∷ plan_roles float config moment false st roles
  unfolding plan_roles
  plan_roles-needed st role roles h = rw h refl

  plan_roles-idle :
      (st : List (Text × RoleState F)) (role : RoleTask) (roles : List RoleTask)
      → is_needed float config moment (plan_of float config moment role (find role.key st)) ≡ false
      → plan_roles float config moment false st (role ∷ roles)
        ≡ plan_roles float config moment false st roles
  unfolding plan_roles
  plan_roles-idle st role roles h = rw h refl

  plan_roles-IsServed :
      (force_all : Bool) (st : List (Text × RoleState F)) (roles : List RoleTask)
      → All (IsServed st (plan_roles float config moment force_all st roles)) roles
  unfolding plan_roles plan_of
  plan_roles-IsServed force_all st [] = tt
  plan_roles-IsServed true st (role ∷ roles) = (
    or_first (is_known (find role.key st)) (text_eq role.key role.key)
        (is_planned role.key (plan_roles float config moment true st roles))
        (text_eq_refl role.key),
    IsServed-more st (plan_roles float config moment true st roles)
        (forced_plan float config moment role) roles (plan_roles-IsServed true st roles),
  )
  plan_roles-IsServed false st (role ∷ roles) =
      let plan = plan_of float config moment role (find role.key st) in
      let plans = plan_roles float config moment false st roles in
      elim (Bool-cases (is_needed float config moment plan)) [
        | inl needed ↦
            subst (λ ps. All (IsServed st ps) (role ∷ roles))
              (sym (plan_roles-needed st role roles needed))
              (
                or_first (is_known (find role.key st)) (text_eq role.key role.key)
                    (is_planned role.key plans) (text_eq_refl role.key),
                IsServed-more st plans plan roles (plan_roles-IsServed false st roles),
              )
        | inr idle ↦
            subst (λ ps. All (IsServed st ps) (role ∷ roles))
              (sym (plan_roles-idle st role roles idle))
              (
                or_left (is_known (find role.key st)) (is_planned role.key plans)
                    (idle-is_known role (find role.key st) idle),
                plan_roles-IsServed false st roles,
              )
      ]

  IsServed-reset :
      (st : List (Text × RoleState F)) (plans : List RoleRunPlan) (roles : List RoleTask)
      → All (IsServed (reset_expired float config moment st) plans) roles
      → All (IsServed st plans) roles
  IsServed-reset st plans [] h = tt
  IsServed-reset st plans (role ∷ roles) (a, h) = (
    sym (ap (λ b. b || is_planned role.key plans) (find-reset_expired role.key st)) ∙ a,
    IsServed-reset st plans roles h,
  )

  -- Whatever the roles, their states, the configuration and the time, forced or not: each plan of
  -- the round is for something, for daily tasks only when the daily time has come, and for weekly
  -- ones only if they are enabled, on their day, when the daily time has come; and each of the
  -- roles has a state already or is planned, so that no new role is missed.
  pub collect-IsDue :
      (force_all : Bool) (roles : List RoleTask) (state : AppState F)
      → let plans = (collect float config moment force_all roles state).0 in
        All IsDue plans × All (IsServed state.roles plans) roles
  unfolding collect
  collect-IsDue force_all roles state =
      let st = reset_expired float config moment state.roles in
      (
        plan_roles-IsDue force_all st roles,
        IsServed-reset state.roles (plan_roles float config moment force_all st roles) roles
            (plan_roles-IsServed force_all st roles),
      )
