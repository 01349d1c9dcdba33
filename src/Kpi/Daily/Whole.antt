-- ===== src/Kpi/Daily/Whole.antt =====
-- All tasks of a run in src/kpi.rs keep every stable property of the session.
use koc_core.Common.{
  ℕ, zero, suc, ◌+◌, ◌≡◌, refl, Bool, true, false, ◌&&◌, Option, none, some, List, [], ◌∷◌, inl,
  inr, Bool-cases, ltb,
}
use koc_core.Common.Codes.{codes}
use koc_core.Json.{Text, Value}
use koc_core.ErrorCodes.{is_done_result}
use koc_core.Kpi.Env.{Env}
use koc_core.Kpi.Request.{GameClient, cmd, cmd_with_timeout}
use koc_core.Kpi.Session.{Server, Session, ◌>>=◌}
use koc_core.Kpi.Status.{DailyTaskStatus, level_id}
use koc_core.Kpi.Daily.{Flag, TaskRun, run_report, report_call}
use koc_core.Kpi.Daily.Fights.{DailyFormationPlan}
use koc_core.Kpi.Daily.Main.{buy_gold_loop, buy_gold_task}
use koc_core.Kpi.Daily.Dream.{
  Operation, Counts, buy_all, buy_operations, buy_from, run_dream_shop_daily,
}
use koc_core.Kpi.Daily.Extra.{
  card_task, artifact_task, sweep, genie_task, gacha_task, rewards_task, nightmare_task,
  dream_shop_task,
}
use koc_core.Kpi.Daily.Run.{original_team}
use koc_core.Kpi.Daily.Keeps.{
  HasDone, IsStable, Keeps, control_rules, Keeps-bind, Keeps-pure, Keeps-if, Keeps-unless,
  Keeps-run_report, Keeps-skip_report, Keeps-fail_report, Keeps-call, Keeps-report_call,
  Keeps-set_flag, Keeps-set_flag_if, at-set_flag_if, Keeps-report_set, Keeps-match_result,
}
use koc_core.Kpi.Daily.Kept.{Keeps-current_team_id}
use koc_core.Kpi.Commands.Account.{system_buygold}
use koc_core.Kpi.Commands.Club.{card_claimreward}
use koc_core.Kpi.Commands.Event.{dungeon_selecthero}

and-right : (a b : Bool) → (a && b) ≡ true → b ≡ true
and-right true b h = h
and-right false b h = cc

module _ {N : Type 0} {status : DailyTaskStatus} {P : Session N TaskRun → Type 0}
    (stable : IsStable status P) (env : Env N) (server : Server N) where
  Keeps-buy_gold_loop : (n i : ℕ) (b : Bool) → Keeps P (buy_gold_loop env server i n b)
  unfolding buy_gold_loop
  Keeps-buy_gold_loop zero i b = Keeps-pure b
  Keeps-buy_gold_loop (suc n) i b =
      Keeps-bind _ _ (Keeps-report_call stable server _ _) (λ _. Keeps-buy_gold_loop n (i + 1) _)

  -- When the loop returns true, the last answer was done.
  buy_gold_loop-HasDone :
      (n i : ℕ) (b : Bool) (s : Session N TaskRun)
      → (buy_gold_loop env server i (suc n) b s).0 ≡ true
      → HasDone (codes "system_buygold") (buy_gold_loop env server i (suc n) b s).1.sent
  unfolding buy_gold_loop report_call ◌>>=◌ run_report system_buygold cmd cmd_with_timeout
  buy_gold_loop-HasDone zero i b s h = inl (refl, and-right b _ h)
  buy_gold_loop-HasDone (suc n) i b s h = buy_gold_loop-HasDone n (i + 1) _ _ h

  pub Keeps-buy_gold_task : Keeps P (buy_gold_task env server)
  unfolding buy_gold_task
  Keeps-buy_gold_task = Keeps-unless _ _ _ (Keeps-skip_report stable _) (record {
    at = λ s h.
        unfold ◌>>=◌ in
        at-set_flag_if stable _ Flag.buy_gold _ (λ e. inr (buy_gold_loop-HasDone 2 1 true s e))
          ((Keeps-buy_gold_loop 3 1 true).at s h);
  })

  Keeps-buy_all : (ops : List Operation) (c : Counts) → Keeps P (buy_all env server ops c)
  unfolding buy_all
  Keeps-buy_all [] c = Keeps-pure c
  Keeps-buy_all (op ∷ ops) c =
      Keeps-bind _ _ (Keeps-call stable server _) (λ _. Keeps-buy_all ops _)

  Keeps-buy_operations : (ops : List Operation) → Keeps P (buy_operations env server ops)
  unfolding buy_operations
  Keeps-buy_operations [] = Keeps-skip_report stable _
  Keeps-buy_operations (op ∷ ops) =
      search (control_rules, Keeps-buy_all, Keeps-run_report stable) depth 20

  Keeps-buy_from :
      (self : GameClient N) (keys : List Text) (info : Value N)
      → Keeps P (buy_from env server self keys info)
  unfolding buy_from
  Keeps-buy_from self keys info = elim (Bool-cases (ltb (level_id env self) 1000)) [
    | inl low ↦ rw low (Keeps-skip_report stable _)
    | inr high ↦
        rw high (search (control_rules, Keeps-skip_report stable, Keeps-buy_operations) depth 20)
  ]

  Keeps-run_dream_shop_daily :
      (self : GameClient N) (keys : List Text) → Keeps P (run_dream_shop_daily env server self keys)
  unfolding run_dream_shop_daily
  Keeps-run_dream_shop_daily self [] = Keeps-skip_report stable _
  Keeps-run_dream_shop_daily self (k ∷ ks) =
      search (control_rules, Keeps-call stable, Keeps-fail_report stable, Keeps-buy_from) depth 20

  pub Keeps-card_task : Keeps P (card_task env server)
  unfolding card_task card_claimreward cmd cmd_with_timeout
  Keeps-card_task = Keeps-unless _ _ _ (Keeps-skip_report stable _) (
      Keeps-bind _ _ (Keeps-report_call stable server _ _) λ r1.
        Keeps-report_set stable server Flag.card _ (card_claimreward env.json 4003) _
          (λ a. and-right (is_done_result r1) _) (λ es h. h))

  pub Keeps-artifact_task :
      (reported : DailyTaskStatus) → Keeps P (artifact_task env server reported)
  unfolding artifact_task
  Keeps-artifact_task reported =
      search
        (
          control_rules,
          Keeps-report_call stable,
          Keeps-set_flag stable,
          Keeps-set_flag_if stable,
          Keeps-skip_report stable,
        )
        depth 20

  Keeps-sweep : (id : ℕ) (name : Text) (done : Bool) → Keeps P (sweep env server id name done)
  unfolding sweep
  Keeps-sweep id name done = search (control_rules, Keeps-report_call stable) depth 20

  pub Keeps-genie_task :
      (self : GameClient N) (reported : DailyTaskStatus)
      → Keeps P (genie_task env server self reported)
  unfolding genie_task
  Keeps-genie_task self reported =
      search
        (
          control_rules,
          Keeps-sweep,
          Keeps-report_call stable,
          Keeps-set_flag stable,
          Keeps-skip_report stable,
        )
        depth 30 fits 4000

  pub Keeps-gacha_task :
      (enabled : Bool) (reported : DailyTaskStatus)
      → Keeps P (gacha_task env server enabled reported)
  unfolding gacha_task
  Keeps-gacha_task enabled reported =
      search
        (control_rules, Keeps-report_call stable, Keeps-set_flag stable, Keeps-skip_report stable)
        depth 20

  pub Keeps-rewards_task : Keeps P (rewards_task env server)
  unfolding rewards_task
  Keeps-rewards_task =
      search
        (control_rules, Keeps-report_call stable, Keeps-set_flag stable, Keeps-skip_report stable)
        depth 30 fits 4000

  pub Keeps-nightmare_task : Keeps P (nightmare_task env server)
  unfolding nightmare_task dungeon_selecthero cmd cmd_with_timeout
  Keeps-nightmare_task = Keeps-unless _ _ _ (Keeps-skip_report stable _) (
      Keeps-if _ _ _
        (Keeps-report_set stable server Flag.nightmare _ (dungeon_selecthero _) is_done_result
          (λ a d. d) (λ es h. h))
        (Keeps-skip_report stable _))

  pub Keeps-dream_shop_task :
      (self : GameClient N) (shop : Option (List Text))
      → Keeps P (dream_shop_task env server self shop)
  unfolding dream_shop_task
  Keeps-dream_shop_task self none = Keeps-pure _
  Keeps-dream_shop_task self (some keys) =
      search
        (control_rules, Keeps-skip_report stable, Keeps-run_dream_shop_daily, Keeps-set_flag stable)
        depth 20

  pub Keeps-original_team :
      (plan : Option DailyFormationPlan) → Keeps P (original_team env server plan)
  unfolding original_team
  Keeps-original_team none = Keeps-pure _
  Keeps-original_team (some plan) = Keeps-bind _ _ (Keeps-current_team_id stable env server) λ r.
      Keeps-match_result r _ _ (λ _. Keeps-pure _)
        (λ e. Keeps-bind _ _ (Keeps-fail_report stable _ e) (λ _. Keeps-pure _))
