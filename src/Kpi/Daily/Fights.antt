-- ===== src/Kpi/Daily/Fights.antt =====
-- The fights of the daily tasks in src/kpi.rs, and the team that each is fought with.
use koc_core.Common.{
  ℕ, zero, suc, ◌+◌, ◌-◌, ◌==◌, Bool, true, false, ◌&&◌, ◌||◌, Option, none, some, [], ◌∷◌, ◌++◌,
  ltb, get_or,
}
use koc_core.Common.Codes.{codes, utf8}
use koc_core.Common.Results.{ok, err}
use koc_core.Json.{Text, Value}
use koc_core.Protocol.Message.{and_then, unwrap_or}
use koc_core.ErrorCodes.{digits}
use koc_core.Kpi.Env.{Env, as_u64, pointer_or}
use koc_core.Kpi.Request.{GameClient}
use koc_core.Kpi.Session.{
  if◌then◌else◌, Answer, Server, M, ◌>>=◌, ◌>>◌, pure, match_result, call, repeat,
}
use koc_core.Kpi.Status.{DailyTaskStatus, level_id}
use koc_core.Kpi.Team.{switch_to_context_formation, restore_context_formation}
use koc_core.Kpi.Daily.{
  Flag, TaskRun, Task, set_flag, flag_state, skip_report, fail_report, report_call,
}
use koc_core.Kpi.Commands.Account.{
  arena_startarea, arena_getareatarget, fight_startareaarena, fight_startboss,
  fight_startlegionboss,
}

pub record DailyFormationPlan : Type 0 where
  pub arena : ℕ
  pub boss_daily : ℕ
  pub boss_legion : ℕ

-- A number in `format!`
abbrev pub shown : ℕ → Text
shown n = digits 20 n

abbrev pub numbered : Text → ℕ → Text → Text
numbered before n after = before ++ shown n ++ after

-- `e.contains("200750")`
abbrev starts_with : Text → Text → Bool
starts_with [] s = true
starts_with (p ∷ ps) [] = false
starts_with (p ∷ ps) (c ∷ cs) = p == c && starts_with ps cs

unfoldable pub text_contains : Text → Text → Bool
text_contains [] p = starts_with p []
text_contains (c ∷ cs) p = starts_with p (c ∷ cs) || text_contains cs p

module _ {N : Type 0} (env : Env N) (server : Server N) where
  -- The team for a fight, when there is a plan; an error is reported.
  unfoldable pub switched_for : Text → Option ℕ → Option ℕ → M N TaskRun Bool
  switched_for failure none original_team = pure false
  switched_for failure (some team) original_team = do
    switched ← switch_to_context_formation env server team original_team
    match_result switched pure (λ e. fail_report failure e >> pure false)

  unfoldable pub restore_after : Text → Bool → Option ℕ → Task N
  restore_after failure switched original_team = do
    restored ← restore_context_formation env server switched original_team
    match_result restored pure (fail_report failure)

  abbrev first_role_id : Value N → ℕ
  first_role_id targets =
      unwrap_or
        (and_then (pointer_or env (codes "/roleList/0/roleId") (codes "/0/roleId") targets)
          (as_u64 env))
        0

  abbrev is_exhausted : Answer N → Bool
  is_exhausted (ok v) = false
  is_exhausted (err e) = text_contains e (codes "200750")

  -- One fight against the first target, if there is one; `rest` goes on with the loop.
  unfoldable pub arena_fight : GameClient N → ℕ → ℕ → Task N → Value N → Task N
  arena_fight self total i rest targets =
      let target_id = first_role_id targets in
      let name =
        numbered (utf8 "竞技场战斗 #") i
          (numbered (codes "/") total (numbered (codes " (vs ") target_id (codes ")"))) in
      if ltb 0 target_id
      then (do
        fight ← report_call server name (fight_startareaarena env.json self target_id)
        if is_exhausted fight then pure tt else rest)
      else rest

  -- The fights in the arena; an error in place of targets, and the code 200750, end the loop.
  unfoldable pub arena_loop : GameClient N → ℕ → ℕ → ℕ → Task N
  arena_loop self total i zero = pure tt
  arena_loop self total i (suc n) =
      let rest = arena_loop self total (i + 1) n in
      do
        answer ← call server arena_getareatarget
        match_result answer (arena_fight self total i rest)
            (fail_report (numbered (utf8 "获取对手 #") i (numbered (codes "/") total [])))

  unfoldable pub arena_fights : GameClient N → ℕ → Option ℕ → Option ℕ → Task N
  arena_fights self remaining team original_team = do
    switched ← switched_for (utf8 "切换竞技场阵容") team original_team
    entered ←
        report_call server (numbered (utf8 "进入竞技场 (剩余") remaining (codes "/3)")) arena_startarea
    match_result entered (λ _. arena_loop self remaining 1 remaining) (λ _. pure tt)
    restore_after (utf8 "恢复竞技场阵容") switched original_team

  abbrev team_of : (DailyFormationPlan → ℕ) → Option DailyFormationPlan → Option ℕ
  team_of f none = none
  team_of f (some plan) = some (f plan)

  -- Task 13: three free fights a day.
  unfoldable pub arena_task :
      GameClient N → DailyTaskStatus → Option DailyFormationPlan → Option ℕ → Task N
  arena_task self status formations original_team = do
    done ← flag_state Flag.arena
    if done
        then skip_report (utf8 "竞技场")
        else if ltb (level_id env self) 400
        then skip_report (utf8 "竞技场 (关卡<400)") >> set_flag Flag.arena
        else (let remaining = 3 - status.arena_done_today in
            (if remaining == 0
              then skip_report (numbered (utf8 "竞技场 (已打") status.arena_done_today (codes "/3)"))
              else arena_fights self remaining (team_of (λ plan. plan.arena) formations)
                  original_team)
            >> set_flag Flag.arena)

  -- `DAY_BOSS_MAP[day_of_week]`, from Sunday to Saturday
  abbrev pub day_boss : ℕ → ℕ
  day_boss day = get_or (9904 ∷ 9905 ∷ 9901 ∷ 9902 ∷ 9903 ∷ 9904 ∷ 9905 ∷ []) day 0

  unfoldable pub boss_task : GameClient N → Option DailyFormationPlan → Option ℕ → Task N
  boss_task self formations original_team = do
    done ← flag_state Flag.boss
    if done then skip_report (utf8 "Boss战") else do
      let boss_id = day_boss env.days_from_sunday
      switched ←
          switched_for (utf8 "切换每日BOSS阵容") (team_of (λ plan. plan.boss_daily) formations)
            original_team
      repeat 1 3 (λ i.
          report_call server
            (numbered (utf8 "Boss战 #") i (numbered (codes "/3 (id=") boss_id (codes ")")))
            (fight_startboss env.json self boss_id)
          >> pure tt)
      restore_after (utf8 "恢复每日BOSS阵容") switched original_team
      set_flag Flag.boss

  -- Two free fights a day.
  unfoldable pub legion_boss_task :
      GameClient N → DailyTaskStatus → Option DailyFormationPlan → Option ℕ → Task N
  legion_boss_task self status formations original_team = do
    done ← flag_state Flag.legion_boss
    if done then skip_report (utf8 "俱乐部Boss") else do
      let remaining = 2 - status.legion_boss_done
      switched ←
          (if ltb 0 remaining
            then switched_for (utf8 "切换军团BOSS阵容") (team_of (λ plan. plan.boss_legion) formations)
                original_team
            else pure false)
      repeat 1 remaining (λ i.
          report_call server (numbered (utf8 "俱乐部Boss #") i (numbered (codes "/") remaining []))
            (fight_startlegionboss env.json self)
          >> pure tt)
      restore_after (utf8 "恢复军团BOSS阵容") switched original_team
      set_flag Flag.legion_boss
