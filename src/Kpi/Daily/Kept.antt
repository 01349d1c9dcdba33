-- ===== src/Kpi/Daily/Kept.antt =====
-- Each task of src/kpi.rs before and in the fights keeps every stable property of the session.
use koc_core.Common.{ℕ, zero, suc, ◌+◌, Bool, true, false, Option, none, some}
use koc_core.Json.{Text, Value}
use koc_core.Kpi.Env.{Env}
use koc_core.Kpi.Request.{GameClient}
use koc_core.Kpi.Session.{Server, Session}
use koc_core.Kpi.Status.{DailyTaskStatus}
use koc_core.Kpi.Team.{
  current_team_id, switch_team, switch_to_context_formation, restore_context_formation,
}
use koc_core.Kpi.Daily.{TaskRun, Task}
use koc_core.Kpi.Daily.Fights.{
  DailyFormationPlan, switched_for, restore_after, arena_fight, arena_loop, arena_fights,
  arena_task, boss_task, legion_boss_task,
}
use koc_core.Kpi.Daily.Main.{smart_hangup, smart_bottle}
use koc_core.Kpi.Daily.Keeps.{
  IsStable, Keeps, control_rules, Keeps-bind, Keeps-unless, Keeps-pure, Keeps-if,
  Keeps-match_result, Keeps-skip_report, Keeps-fail_report, Keeps-call, Keeps-report_call,
  Keeps-set_flag,
}

module _ {N : Type 0} {status : DailyTaskStatus} {P : Session N TaskRun → Type 0}
    (stable : IsStable status P) (env : Env N) (server : Server N) where
  pub Keeps-current_team_id : Keeps P (current_team_id env server)
  unfolding current_team_id
  Keeps-current_team_id = search (control_rules, Keeps-call stable) depth 20 fits 4000

  Keeps-switch_team : (team : ℕ) → Keeps P (switch_team env server team)
  unfolding switch_team
  Keeps-switch_team team = search (control_rules, Keeps-call stable) depth 20 fits 4000

  Keeps-switch_to_context_formation :
      (team : ℕ) (original : Option ℕ)
      → Keeps P (switch_to_context_formation env server team original)
  unfolding switch_to_context_formation
  Keeps-switch_to_context_formation team none = Keeps-pure _
  Keeps-switch_to_context_formation team (some o) =
      search (control_rules, Keeps-switch_team) depth 20 fits 4000

  Keeps-restore_context_formation :
      (switched : Bool) (original : Option ℕ)
      → Keeps P (restore_context_formation env server switched original)
  unfolding restore_context_formation
  Keeps-restore_context_formation false original = Keeps-pure _
  Keeps-restore_context_formation true none = Keeps-pure _
  Keeps-restore_context_formation true (some o) =
      search (control_rules, Keeps-current_team_id, Keeps-switch_team) depth 20 fits 4000

  Keeps-switched_for :
      (failure : Text) (team original : Option ℕ)
      → Keeps P (switched_for env server failure team original)
  unfolding switched_for
  Keeps-switched_for failure none original = Keeps-pure _
  Keeps-switched_for failure (some team) original =
      search (control_rules, Keeps-switch_to_context_formation, Keeps-fail_report stable) depth 20
        fits 4000

  Keeps-restore_after :
      (failure : Text) (switched : Bool) (original : Option ℕ)
      → Keeps P (restore_after env server failure switched original)
  unfolding restore_after
  Keeps-restore_after failure switched original =
      search (control_rules, Keeps-restore_context_formation, Keeps-fail_report stable) depth 20
        fits 4000

  Keeps-arena_fight :
      (self : GameClient N) (total i : ℕ) (rest : Task N) (targets : Value N)
      → Keeps P rest
      → Keeps P (arena_fight env server self total i rest targets)
  unfolding arena_fight
  Keeps-arena_fight self total i rest targets k =
      Keeps-if _ _ _
        (Keeps-bind _ _ (Keeps-report_call stable server _ _) λ _. Keeps-if _ _ _ (Keeps-pure _) k)
        k

  Keeps-arena_loop :
      (self : GameClient N) (total i n : ℕ) → Keeps P (arena_loop env server self total i n)
  unfolding arena_loop
  Keeps-arena_loop self total i zero = Keeps-pure _
  Keeps-arena_loop self total i (suc n) = Keeps-bind _ _ (Keeps-call stable server _) λ a.
      Keeps-match_result a _ _
        (λ targets.
          Keeps-arena_fight self total i _ targets (Keeps-arena_loop self total (i + 1) n))
        (λ e. Keeps-fail_report stable _ e)

  Keeps-arena_fights :
      (self : GameClient N) (n : ℕ) (team original : Option ℕ)
      → Keeps P (arena_fights env server self n team original)
  unfolding arena_fights
  Keeps-arena_fights self n team original =
      search
        (
          control_rules,
          Keeps-switched_for,
          Keeps-restore_after,
          Keeps-report_call stable,
          Keeps-arena_loop,
        )
        depth 20 fits 4000

  pub Keeps-arena_task :
      (self : GameClient N) (reported : DailyTaskStatus) (plan : Option DailyFormationPlan)
      (original : Option ℕ)
      → Keeps P (arena_task env server self reported plan original)
  unfolding arena_task
  Keeps-arena_task self reported plan original = Keeps-unless _ _ _ (Keeps-skip_report stable _) (
      search (control_rules, Keeps-skip_report stable, Keeps-arena_fights, Keeps-set_flag stable)
        depth 20)

  pub Keeps-boss_task :
      (self : GameClient N) (plan : Option DailyFormationPlan) (original : Option ℕ)
      → Keeps P (boss_task env server self plan original)
  unfolding boss_task
  Keeps-boss_task self plan original = Keeps-unless _ _ _ (Keeps-skip_report stable _) (
      search
        (
          control_rules,
          Keeps-switched_for,
          Keeps-restore_after,
          Keeps-report_call stable,
          Keeps-set_flag stable,
        )
        depth 20)

  pub Keeps-legion_boss_task :
      (self : GameClient N) (reported : DailyTaskStatus) (plan : Option DailyFormationPlan)
      (original : Option ℕ)
      → Keeps P (legion_boss_task env server self reported plan original)
  unfolding legion_boss_task
  Keeps-legion_boss_task self reported plan original =
      Keeps-unless _ _ _ (Keeps-skip_report stable _) (
        search
          (
            control_rules,
            Keeps-switched_for,
            Keeps-restore_after,
            Keeps-report_call stable,
            Keeps-set_flag stable,
          )
          depth 20)

  pub Keeps-smart_hangup : (self : GameClient N) → Keeps P (smart_hangup env server self)
  unfolding smart_hangup
  Keeps-smart_hangup self = search (control_rules, Keeps-report_call stable) depth 20 fits 4000

  pub Keeps-smart_bottle : Keeps P (smart_bottle env server)
  unfolding smart_bottle
  Keeps-smart_bottle = search (control_rules, Keeps-report_call stable) depth 20 fits 4000
