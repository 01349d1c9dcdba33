-- ===== src/Kpi/Daily/Run.antt =====
-- `run_daily_tasks_stateful` of src/kpi.rs.
use mathlib.Core.Bool.{cond}
use koc_core.Common.{ℕ, Bool, true, false, not, ◌&&◌, Option, none, some, List}
use koc_core.Common.Codes.{utf8}
use koc_core.Json.{Text}
use koc_core.State.{ensure_today}
use koc_core.Kpi.Env.{Env}
use koc_core.Kpi.Request.{GameClient}
use koc_core.Kpi.Session.{if◌then◌else◌, Server, M, ◌>>=◌, ◌>>◌, pure, gets, match_result, modify}
use koc_core.Kpi.Status.{DailyTaskStatus, get_daily_task_status}
use koc_core.Kpi.Team.{current_team_id}
use koc_core.Kpi.Cars.{is_car_send_window}
use koc_core.Kpi.Daily.{TaskRun, Task, skip_report, fail_report, set_car_sent}
use koc_core.Kpi.Daily.Vehicles.{four_hours, claim_all_cars}
use koc_core.Kpi.Daily.Vehicles.Sending.{smart_send_car}
use koc_core.Kpi.Daily.Fights.{DailyFormationPlan, boss_task, legion_boss_task}
use koc_core.Kpi.Daily.Main.{main_tasks}
use koc_core.Kpi.Daily.Extra.{extra_tasks}

-- Of the shop only the list is read.
pub record DailyTaskConfig : Type 0 where
  pub formations : Option DailyFormationPlan
  pub dream_shop : Option (List Text)
  pub gacha_enabled : Bool
  pub car_enabled : Bool

module _ {N : Type 0} (env : Env N) (server : Server N) where
  -- The team in use, where a plan may change it.
  unfoldable pub original_team : Option DailyFormationPlan → M N TaskRun (Option ℕ)
  original_team none = pure none
  original_team (some plan) = do
    team ← current_team_id env server
    match_result team (λ team_id. pure (some team_id))
        (λ e. fail_report (utf8 "读取当前阵容") e >> pure none)

  unfoldable pub start_day : Task N
  start_day = modify (λ v. record v { daily = ensure_today env.float.zero env.date v.daily })

  -- When the cars are next to be claimed.
  unfoldable pub claim_time_after : ℕ → ℕ
  claim_time_after next_claim =
      let post_send = env.plus env.now_secs four_hours in
      cond (env.float.lt env.float.zero next_claim && env.float.lt next_claim post_send) next_claim
        post_send

  -- The vehicles: `false` when the code has not returned within the rounds.
  unfoldable pub car_task : ℕ → Bool → M N TaskRun Bool
  unfolding claim_time_after
  car_task rounds car_enabled = if not car_enabled then pure true else do
    done ← gets (λ v. v.daily.car_send_done)
    if done
        then skip_report (utf8 "发车/收车") >> pure true
        else if is_car_send_window env
        then (do
          next_claim ← claim_all_cars env server
          returned ← smart_send_car env server rounds
          if returned then set_car_sent (claim_time_after next_claim) >> pure true else pure false)
        else skip_report (utf8 "发车 (不在发车窗口)") >> pure true

  -- The tasks after `ensure_today`. `rounds` bounds the refreshes of one car.
  unfoldable pub all_tasks : ℕ → GameClient N → DailyTaskStatus → DailyTaskConfig → M N TaskRun Bool
  all_tasks rounds self status config = do
    team ← original_team config.formations
    main_tasks env server self status config.formations team
    boss_task env server self config.formations team
    legion_boss_task env server self status config.formations team
    extra_tasks env server self status config.gacha_enabled config.dream_shop
    car_task rounds config.car_enabled

  -- The result says whether the code has returned.
  unfoldable pub run_daily_tasks_stateful : ℕ → GameClient N → DailyTaskConfig → M N TaskRun Bool
  run_daily_tasks_stateful rounds self config =
      start_day >> all_tasks rounds self (get_daily_task_status env self) config
