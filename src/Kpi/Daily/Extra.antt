-- ===== src/Kpi/Daily/Extra.antt =====
-- The tasks of `run_daily_tasks_stateful` in src/kpi.rs after the fights.
use koc_core.Common.{ℕ, ◌==◌, Bool, not, ◌&&◌, ◌||◌, Option, none, some, List, [], ◌∷◌, ltb}
use koc_core.Common.Codes.{codes, utf8}
use koc_core.Common.Int.{pos}
use koc_core.Json.{Text}
use koc_core.ErrorCodes.{is_done_result}
use koc_core.Kpi.Env.{Env}
use koc_core.Kpi.Request.{GameClient, json, int}
use koc_core.Kpi.Session.{if◌then◌else◌, Server, ◌>>=◌, ◌>>◌, pure, repeat}
use koc_core.Kpi.Status.{DailyTaskStatus, level_id}
use koc_core.Kpi.Daily.{
  Flag, Task, set_flag, set_flag_if, flag_state, skip_report, report_call, do_task,
}
use koc_core.Kpi.Daily.Fights.{numbered}
use koc_core.Kpi.Daily.Dream.{run_dream_shop_daily}
use koc_core.Kpi.Commands.Account.{
  system_signinreward, task_claimdailypoint, task_claimdailyreward, task_claimweekreward,
}
use koc_core.Kpi.Commands.Club.{
  legion_signin, mail_claimallattachment, artifact_lottery, genie_sweep, genie_buysweep,
  gacha_drawreward, discount_claimreward, collection_claimfreereward, card_claimfree,
  card_claimreward,
}
use koc_core.Kpi.Commands.Event.{dungeon_selecthero, activity_recyclewarorderrewardclaim}

-- Sunday, Monday, Wednesday and Thursday
abbrev pub is_nightmare_day : ℕ → Bool
is_nightmare_day day = day == 0 || day == 1 || day == 3 || day == 4

module _ {N : Type 0} (env : Env N) (server : Server N) where
  unfoldable pub card_task : Task N
  card_task = do
    done ← flag_state Flag.card
    if done then skip_report (utf8 "卡牌礼包") else do
      r1 ← report_call server (utf8 "免费礼包卡") (card_claimfree env.json)
      r2 ← report_call server (utf8 "永久卡礼包") (card_claimreward env.json 4003)
      set_flag_if (is_done_result r1 && is_done_result r2) Flag.card

  unfoldable pub artifact_task : DailyTaskStatus → Task N
  artifact_task status = do
    done ← flag_state Flag.artifact
    if not done && not status.artifact_lottery_today
        then repeat 1 3 (λ i.
          report_call server (numbered (utf8 "免费钓鱼 #") i (codes "/3")) (artifact_lottery env.json)
          >> pure tt)
          >> set_flag Flag.artifact
        else set_flag_if status.artifact_lottery_today Flag.artifact >> skip_report (utf8 "免费钓鱼")

  unfoldable pub sweep : ℕ → Text → Bool → Task N
  sweep id name done =
      if done then pure tt else report_call server name (genie_sweep env.json id) >> pure tt

  unfoldable pub genie_task : GameClient N → DailyTaskStatus → Task N
  genie_task self status = do
    done ← flag_state Flag.genie
    if done
        then skip_report (utf8 "灯神扫荡")
        else if ltb (level_id env self) 3000
        then skip_report (utf8 "灯神扫荡 (关卡<3000)") >> set_flag Flag.genie
        else do
          sweep 1 (utf8 "魏国灯神扫荡") status.genie_1_today
          sweep 2 (utf8 "蜀国灯神扫荡") status.genie_2_today
          sweep 3 (utf8 "吴国灯神扫荡") status.genie_3_today
          sweep 4 (utf8 "群雄灯神扫荡") status.genie_4_today
          repeat 1 3 (λ i.
              report_call server (numbered (utf8 "免费扫荡卷 #") i (codes "/3")) genie_buysweep
              >> pure tt)
          set_flag Flag.genie

  unfoldable pub gacha_task : Bool → DailyTaskStatus → Task N
  gacha_task gacha_enabled status = do
    done ← flag_state Flag.gacha
    if gacha_enabled && not done
        then ((if status.gacha_today
              then skip_report (utf8 "免费扭蛋 (已完成)")
              else report_call server (utf8 "免费扭蛋") (gacha_drawreward env.json) >> pure tt)
            >> set_flag Flag.gacha)
        else pure tt

  unfoldable pub rewards_task : Task N
  rewards_task = do
    done ← flag_state Flag.task_rewards
    if done then skip_report (utf8 "任务奖励") else do
      repeat 1 10 (λ i.
          report_call server (numbered (utf8 "领取任务") i (utf8 "积分"))
            (task_claimdailypoint env.json i)
          >> pure tt)
      report_call server (utf8 "领取每日任务奖励") (task_claimdailyreward env.json)
      report_call server (utf8 "领取每周任务奖励") (task_claimweekreward env.json)
      report_call server (utf8 "领取战令奖励") activity_recyclewarorderrewardclaim
      set_flag Flag.task_rewards

  unfoldable pub nightmare_task : Task N
  nightmare_task = do
    done ← flag_state Flag.nightmare
    if done
        then skip_report (utf8 "咸王梦境")
        else if is_nightmare_day env.days_from_sunday
        then (do
          answer ← report_call server (utf8 "咸王梦境") (
              dungeon_selecthero
                (json ((codes "battleTeam", json ((codes "0", int env.json (pos 107)) ∷ [])) ∷ [])))
          set_flag_if (is_done_result answer) Flag.nightmare)
        else skip_report (utf8 "咸王梦境 (当前未开放)")

  -- The list of purchases, where the configuration has a shop.
  unfoldable pub dream_shop_task : GameClient N → Option (List Text) → Task N
  dream_shop_task self none = pure tt
  dream_shop_task self (some purchase_list) = do
    done ← flag_state Flag.dream_shop
    if done
        then skip_report (utf8 "梦境商店购买")
        else if is_nightmare_day env.days_from_sunday
        then run_dream_shop_daily env server self purchase_list >> set_flag Flag.dream_shop
        else skip_report (utf8 "梦境商店购买 (当前未开放)")

  unfoldable pub extra_tasks : GameClient N → DailyTaskStatus → Bool → Option (List Text) → Task N
  extra_tasks self status gacha_enabled dream_shop = do
    do_task server Flag.signin (utf8 "福利签到") system_signinreward
    do_task server Flag.legion_signin (utf8 "俱乐部签到") legion_signin
    do_task server Flag.discount (utf8 "每日折扣礼包") (discount_claimreward env.json)
    card_task
    do_task server Flag.collection (utf8 "珍宝阁免费奖励") collection_claimfreereward
    artifact_task status
    genie_task self status
    gacha_task gacha_enabled status
    rewards_task
    do_task server Flag.mail (utf8 "领取邮件") (mail_claimallattachment env.json (pos 0))
    nightmare_task
    dream_shop_task self dream_shop
