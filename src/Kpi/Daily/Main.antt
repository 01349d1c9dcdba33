-- ===== src/Kpi/Daily/Main.antt =====
-- The main daily tasks of `run_daily_tasks_stateful` in src/kpi.rs, up to the arena, and the two
-- methods for the hangup and the bottle.
use koc_core.Common.{ℕ, zero, suc, ◌+◌, Bool, true, not, ◌&&◌, ◌||◌, Option}
use koc_core.Common.Codes.{codes, utf8}
use koc_core.Json.{Text}
use koc_core.ErrorCodes.{is_done_result}
use koc_core.Kpi.Env.{Env}
use koc_core.Kpi.Request.{GameClient}
use koc_core.Kpi.Session.{if◌then◌else◌, Server, M, ◌>>=◌, ◌>>◌, pure, repeat}
use koc_core.Kpi.Status.{DailyTaskStatus, get_hangup_status}
use koc_core.Kpi.Daily.Fights.{DailyFormationPlan, numbered, arena_task}
use koc_core.Kpi.Daily.{
  Flag, TaskRun, Task, set_flag, set_flag_if, flag_state, skip_report, report_call, do_task,
}
use koc_core.Kpi.Commands.Account.{
  system_buygold, system_claimhangupreward, system_mysharecallback, friend_batch, hero_recruit,
  item_openbox, store_purchase as buy,
}
use koc_core.Kpi.Commands.Club.{bottlehelper_start, bottlehelper_stop}

-- 8.0 * 3600.0
abbrev eight_hours : ℕ
eight_hours = 0x40DC200000000000

module _ {N : Type 0} (env : Env N) (server : Server N) where
  unfoldable pub smart_hangup : GameClient N → Task N
  smart_hangup self =
      let status = get_hangup_status env self in
      let need_claim = not status.is_active || env.float.le status.remaining env.float.hour in
      let extend = λ (before : Text). repeat 1 4 (λ i.
        report_call server (numbered before i (codes "/4")) (system_mysharecallback env.json)
        >> pure tt) in
      if need_claim
      then report_call server (codes "Claim rewards for Hangup") system_claimhangupreward
        >> extend (codes "Extend hangup time #")
      else if env.float.le status.hangup_time eight_hours
      then extend (codes "Extend time #")
      else pure tt

  unfoldable pub smart_bottle : Task N
  smart_bottle =
      report_call server (codes "STOP Bottle") (bottlehelper_stop env.json)
      >> report_call server (codes "START Bottle") (bottlehelper_start env.json)
      >> pure tt

  -- Task 6: every one of the three answers must be done.
  unfoldable pub buy_gold_loop : ℕ → ℕ → Bool → M N TaskRun Bool
  buy_gold_loop i zero all_done = pure all_done
  buy_gold_loop i (suc n) all_done = do
    answer ← report_call server (numbered (utf8 "免费点金 #") i (codes "/3")) (system_buygold env.json)
    buy_gold_loop (i + 1) n (all_done && is_done_result answer)

  unfoldable pub buy_gold_task : Task N
  buy_gold_task = do
    done ← flag_state Flag.buy_gold
    if done
        then skip_report (utf8 "免费点金")
        else do all_done ← buy_gold_loop 1 3 true; set_flag_if all_done Flag.buy_gold

  -- The tasks by their numbers: 2 to 7, 12, 14 and 13.
  unfoldable pub main_tasks :
      GameClient N → DailyTaskStatus → Option DailyFormationPlan → Option ℕ → Task N
  main_tasks self status formations original_team = do
    set_flag_if status.share Flag.share
    do_task server Flag.share (utf8 "分享游戏") (system_mysharecallback env.json)
    set_flag_if status.friend_gift Flag.friend_gift
    do_task server Flag.friend_gift (utf8 "赠送好友金币") (friend_batch env.json)
    set_flag_if status.recruit Flag.recruit
    do_task server Flag.recruit (utf8 "免费招募") (hero_recruit env.json 3 1)
    set_flag_if status.hangup_reward Flag.hangup_reward
    smart_hangup self
    set_flag Flag.hangup_reward
    set_flag_if status.buy_gold Flag.buy_gold
    buy_gold_task
    set_flag_if status.open_box Flag.open_box
    do_task server Flag.open_box (utf8 "开启宝箱x10") (item_openbox env.json 2001 10)
    set_flag_if status.store_purchase Flag.store_purchase
    do_task server Flag.store_purchase (utf8 "黑市采购") (buy env.json 1)
    set_flag_if status.bottle Flag.bottle_task
    smart_bottle
    set_flag Flag.bottle_task
    set_flag_if status.arena Flag.arena
    arena_task env server self status formations original_team
