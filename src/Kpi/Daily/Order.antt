-- ===== src/Kpi/Daily/Order.antt =====
-- The whole of a run in src/kpi.rs: the tasks with a command of their own, and their order.
use koc_core.Common.{ℕ, Bool, Option, List, inl, inr}
use koc_core.Common.Int.{pos}
use koc_core.Json.{Text}
use koc_core.Kpi.Env.{Env}
use koc_core.Kpi.Request.{GameClient, cmd, cmd_with_timeout}
use koc_core.Kpi.Session.{Server, Session}
use koc_core.Kpi.Status.{DailyTaskStatus}
use koc_core.Kpi.Daily.{Flag, TaskRun, do_task, set_flag_if}
use koc_core.Kpi.Daily.Fights.{DailyFormationPlan}
use koc_core.Kpi.Daily.Main.{main_tasks}
use koc_core.Kpi.Daily.Extra.{extra_tasks}
use koc_core.Kpi.Daily.Run.{DailyTaskConfig, all_tasks}
use koc_core.Kpi.Daily.Keeps.{
  IsStable, Keeps, Keeps-bind, Keeps-set_flag, Keeps-set_flag_if, Keeps-do_task,
}
use koc_core.Kpi.Daily.Kept.{
  Keeps-arena_task, Keeps-boss_task, Keeps-legion_boss_task, Keeps-smart_hangup, Keeps-smart_bottle,
}
use koc_core.Kpi.Daily.Whole.{
  Keeps-buy_gold_task, Keeps-card_task, Keeps-artifact_task, Keeps-genie_task, Keeps-gacha_task,
  Keeps-rewards_task, Keeps-nightmare_task, Keeps-dream_shop_task, Keeps-original_team,
}
use koc_core.Kpi.Daily.Vehicles.Kept.{Keeps-car_task}
use koc_core.Kpi.Commands.Account.{
  system_mysharecallback, friend_batch, hero_recruit, item_openbox, store_purchase as buy,
  system_signinreward,
}
use koc_core.Kpi.Commands.Club.{
  legion_signin, mail_claimallattachment, discount_claimreward, collection_claimfreereward,
}

module _ {N : Type 0} {status : DailyTaskStatus} {P : Session N TaskRun → Type 0}
    (stable : IsStable status P) (env : Env N) (server : Server N) where
  Keeps-share :
      (name : Text) → Keeps P (do_task server Flag.share name (system_mysharecallback env.json))
  unfolding system_mysharecallback cmd cmd_with_timeout
  Keeps-share name = Keeps-do_task stable server _ name _ (λ es h. inr h)

  Keeps-friend_gift :
      (name : Text) → Keeps P (do_task server Flag.friend_gift name (friend_batch env.json))
  unfolding friend_batch cmd cmd_with_timeout
  Keeps-friend_gift name = Keeps-do_task stable server _ name _ (λ es h. inr h)

  Keeps-recruit :
      (name : Text) → Keeps P (do_task server Flag.recruit name (hero_recruit env.json 3 1))
  unfolding hero_recruit cmd cmd_with_timeout
  Keeps-recruit name = Keeps-do_task stable server _ name _ (λ es h. inr h)

  Keeps-open_box :
      (name : Text) → Keeps P (do_task server Flag.open_box name (item_openbox env.json 2001 10))
  unfolding item_openbox cmd cmd_with_timeout
  Keeps-open_box name = Keeps-do_task stable server _ name _ (λ es h. inr h)

  Keeps-store_purchase :
      (name : Text) → Keeps P (do_task server Flag.store_purchase name (buy env.json 1))
  unfolding buy cmd cmd_with_timeout
  Keeps-store_purchase name = Keeps-do_task stable server _ name _ (λ es h. inr h)

  Keeps-signin : (name : Text) → Keeps P (do_task server Flag.signin name system_signinreward)
  unfolding system_signinreward cmd cmd_with_timeout
  Keeps-signin name = Keeps-do_task stable server _ name _ (λ es h. h)

  Keeps-legion_signin :
      (name : Text) → Keeps P (do_task server Flag.legion_signin name legion_signin)
  unfolding legion_signin cmd cmd_with_timeout
  Keeps-legion_signin name = Keeps-do_task stable server _ name _ (λ es h. h)

  Keeps-discount :
      (name : Text) → Keeps P (do_task server Flag.discount name (discount_claimreward env.json))
  unfolding discount_claimreward cmd cmd_with_timeout
  Keeps-discount name = Keeps-do_task stable server _ name _ (λ es h. h)

  Keeps-collection :
      (name : Text) → Keeps P (do_task server Flag.collection name collection_claimfreereward)
  unfolding collection_claimfreereward cmd cmd_with_timeout
  Keeps-collection name = Keeps-do_task stable server _ name _ (λ es h. h)

  Keeps-mail :
      (name : Text)
      → Keeps P (do_task server Flag.mail name (mail_claimallattachment env.json (pos 0)))
  unfolding mail_claimallattachment cmd cmd_with_timeout
  Keeps-mail name = Keeps-do_task stable server _ name _ (λ es h. h)

  reported_share : Keeps P (set_flag_if status.share Flag.share)
  reported_share = Keeps-set_flag_if stable _ _ (λ b s. inl b)

  reported_friend_gift : Keeps P (set_flag_if status.friend_gift Flag.friend_gift)
  reported_friend_gift = Keeps-set_flag_if stable _ _ (λ b s. inl b)

  reported_recruit : Keeps P (set_flag_if status.recruit Flag.recruit)
  reported_recruit = Keeps-set_flag_if stable _ _ (λ b s. inl b)

  reported_hangup_reward : Keeps P (set_flag_if status.hangup_reward Flag.hangup_reward)
  reported_hangup_reward = Keeps-set_flag_if stable _ _ (λ b s. tt)

  reported_buy_gold : Keeps P (set_flag_if status.buy_gold Flag.buy_gold)
  reported_buy_gold = Keeps-set_flag_if stable _ _ (λ b s. inl b)

  reported_open_box : Keeps P (set_flag_if status.open_box Flag.open_box)
  reported_open_box = Keeps-set_flag_if stable _ _ (λ b s. inl b)

  reported_store_purchase : Keeps P (set_flag_if status.store_purchase Flag.store_purchase)
  reported_store_purchase = Keeps-set_flag_if stable _ _ (λ b s. inl b)

  reported_bottle : Keeps P (set_flag_if status.bottle Flag.bottle_task)
  reported_bottle = Keeps-set_flag_if stable _ _ (λ b s. tt)

  reported_arena : Keeps P (set_flag_if status.arena Flag.arena)
  reported_arena = Keeps-set_flag_if stable _ _ (λ b s. tt)

  Keeps-main_tasks :
      (self : GameClient N) (plan : Option DailyFormationPlan) (team : Option ℕ)
      → Keeps P (main_tasks env server self status plan team)
  unfolding main_tasks
  Keeps-main_tasks self plan team =
      search
        (
          Keeps-bind,
          Keeps-set_flag stable,
          Keeps-share,
          Keeps-friend_gift,
          Keeps-recruit,
          Keeps-open_box,
          Keeps-store_purchase,
          reported_share,
          reported_friend_gift,
          reported_recruit,
          reported_hangup_reward,
          reported_buy_gold,
          reported_open_box,
          reported_store_purchase,
          reported_bottle,
          reported_arena,
          Keeps-smart_hangup stable,
          Keeps-smart_bottle stable,
          Keeps-buy_gold_task stable,
          Keeps-arena_task stable,
        )
        depth 60 fits 4000

  Keeps-extra_tasks :
      (self : GameClient N) (gacha : Bool) (shop : Option (List Text))
      → Keeps P (extra_tasks env server self status gacha shop)
  unfolding extra_tasks
  Keeps-extra_tasks self gacha shop =
      search
        (
          Keeps-bind,
          Keeps-signin,
          Keeps-legion_signin,
          Keeps-discount,
          Keeps-collection,
          Keeps-mail,
          Keeps-card_task stable,
          Keeps-artifact_task stable,
          Keeps-genie_task stable,
          Keeps-gacha_task stable,
          Keeps-rewards_task stable,
          Keeps-nightmare_task stable,
          Keeps-dream_shop_task stable,
        )
        depth 60 fits 4000

  pub Keeps-all_tasks :
      (rounds : ℕ) (self : GameClient N) (config : DailyTaskConfig)
      → Keeps P (all_tasks env server rounds self status config)
  unfolding all_tasks
  Keeps-all_tasks rounds self config =
      search
        (
          Keeps-bind,
          Keeps-original_team stable,
          Keeps-main_tasks,
          Keeps-boss_task stable,
          Keeps-legion_boss_task stable,
          Keeps-extra_tasks,
          Keeps-car_task stable,
        )
        depth 20
