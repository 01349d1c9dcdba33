-- ===== src/Kpi/Daily/Evidence.antt =====
-- What the flags of src/kpi.rs say after a run: none is lost, and none is set without its reason.
use koc_core.Common.{ℕ, ◌≡◌, refl, sym, ◌∙◌, true, List, ◌∷◌, ◌⊎◌, inl, inr, arith}
use koc_core.State.{RoleDailyState, ensure_today}
use koc_core.Kpi.Env.{Env}
use koc_core.Kpi.Request.{GameClient}
use koc_core.Kpi.Session.{Exchange, Server, Session, ◌>>=◌}
use koc_core.Kpi.Status.{DailyTaskStatus, get_daily_task_status}
use koc_core.Kpi.Daily.{Flag, TaskRun, is_set, mark}
use koc_core.Kpi.Daily.Run.{DailyTaskConfig, start_day, run_daily_tasks_stateful}
use koc_core.Kpi.Daily.Keeps.{Justified, IsStable, with_mark}
use koc_core.Kpi.Daily.Order.{Keeps-all_tasks}

is_set-mark : (f g : Flag) (d : RoleDailyState ℕ) → (f ≡ g) ⊎ (is_set f (mark g d) ≡ is_set f d)
unfolding is_set mark
is_set-mark Flag.signin Flag.signin d = inl refl
is_set-mark f g d = ground arith

-- What a run notes of the vehicles is none of the flags.
pub is_set-cars :
    (f : Flag) (t : ℕ) (d : RoleDailyState ℕ)
    → is_set f (record d { car_send_done = true; next_car_claim_time = t }) ≡ is_set f d
unfolding is_set
is_set-cars Flag.signin t d = refl
is_set-cars f t d = refl

pub is_set-mark_self : (f : Flag) (d : RoleDailyState ℕ) → is_set f (mark f d) ≡ true
unfolding is_set mark
is_set-mark_self Flag.signin d = refl
is_set-mark_self f d = refl

pub is_set-mark_mono :
    (f g : Flag) (d : RoleDailyState ℕ) → is_set f d ≡ true → is_set f (mark g d) ≡ true
is_set-mark_mono f g d h = elim (is_set-mark f g d) [
  | inl same ↦ rw (← same) (is_set-mark_self f d)
  | inr other ↦ other ∙ h
]

module _ {N : Type 0} where
  Justified-cons :
      (status : DailyTaskStatus) (f : Flag) (e : Exchange N) (es : List (Exchange N))
      → Justified status f es
      → Justified status f (e ∷ es)
  Justified-cons status Flag.signin e es h = inr h
  Justified-cons status f e es h = ground arith

  -- A flag that is set stays so.
  abbrev pub FlagSet : Flag → Session N TaskRun → Type 0
  FlagSet f s = is_set f s.vars.daily ≡ true

  pub FlagSet-IsStable : (status : DailyTaskStatus) (f : Flag) → IsStable status (FlagSet f)
  FlagSet-IsStable status f = record {
    on_call = λ s e h. h;
    on_report = λ s r h. h;
    on_mark = λ s g reason h. is_set-mark_mono f g _ h;
    on_cars = λ s t h. is_set-cars f t _ ∙ h;
  }

  -- A flag that is set was set in `d`, or has its reason.
  abbrev IsJustified : DailyTaskStatus → RoleDailyState ℕ → Flag → Session N TaskRun → Type 0
  IsJustified status d f s = FlagSet f s → (is_set f d ≡ true) ⊎ Justified status f s.sent

  still-Justified :
      (status : DailyTaskStatus) (d : RoleDailyState ℕ) (f : Flag) (s : Session N TaskRun)
      (e : Exchange N)
      → (is_set f d ≡ true) ⊎ Justified status f s.sent
      → (is_set f d ≡ true) ⊎ Justified status f (e ∷ s.sent)
  still-Justified status d f s e (inl h) = inl h
  still-Justified status d f s e (inr h) = inr (Justified-cons status f e s.sent h)

  IsJustified-mark :
      (status : DailyTaskStatus) (d : RoleDailyState ℕ) (f g : Flag) (s : Session N TaskRun)
      → Justified status g s.sent
      → IsJustified status d f s
      → IsJustified status d f (with_mark g s)
  IsJustified-mark status d f g s reason h now = elim (is_set-mark f g s.vars.daily) [
    | inl same ↦ inr (rw same reason)
    | inr other ↦ h (sym other ∙ now)
  ]

  IsJustified-IsStable :
      (status : DailyTaskStatus) (d : RoleDailyState ℕ) (f : Flag)
      → IsStable status (IsJustified status d f)
  IsJustified-IsStable status d f = record {
    on_call = λ s e h now. still-Justified status d f s e (h now);
    on_report = λ s r h. h;
    on_mark = λ s g reason h. IsJustified-mark status d f g s reason h;
    on_cars = λ s t h now. h (sym (is_set-cars f t s.vars.daily) ∙ now);
  }

  module _ (env : Env N) (server : Server N) where
    -- The state of the day that the tasks start from.
    abbrev pub today_of : RoleDailyState ℕ → RoleDailyState ℕ
    today_of d = ensure_today env.float.zero env.date d

    -- Whatever the server answers, a run loses no flag of today's state.
    pub run_daily_tasks_stateful-keeps :
        (rounds : ℕ) (self : GameClient N) (config : DailyTaskConfig) (f : Flag)
        (s : Session N TaskRun)
        → is_set f (today_of s.vars.daily) ≡ true
        → is_set f (run_daily_tasks_stateful env server rounds self config s).1.vars.daily ≡ true
    unfolding run_daily_tasks_stateful start_day ◌>>=◌
    run_daily_tasks_stateful-keeps rounds self config f s h =
        (Keeps-all_tasks (FlagSet-IsStable (get_daily_task_status env self) f) env server rounds
            self config).at
          _ h

    -- Whatever the server answers, a flag is set after a run only if it was set in today's state, the
    -- information on the role reports the task as complete, or the flag's command was answered by
    -- success or by a code that says it is done. This says nothing of the flags that need no reason.
    pub run_daily_tasks_stateful-Justified :
        (rounds : ℕ) (self : GameClient N) (config : DailyTaskConfig) (f : Flag)
        (s : Session N TaskRun)
        → is_set f (run_daily_tasks_stateful env server rounds self config s).1.vars.daily ≡ true
        → (is_set f (today_of s.vars.daily) ≡ true)
          ⊎ Justified
              (get_daily_task_status env self)
              f
              (run_daily_tasks_stateful env server rounds self config s).1.sent
    unfolding run_daily_tasks_stateful start_day ◌>>=◌
    run_daily_tasks_stateful-Justified rounds self config f s =
        (Keeps-all_tasks
            (IsJustified-IsStable (get_daily_task_status env self) (today_of s.vars.daily) f) env
            server rounds self config).at
          _ inl
