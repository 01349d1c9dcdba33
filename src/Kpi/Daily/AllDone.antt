-- ===== src/Kpi/Daily/AllDone.antt =====
-- A run of src/kpi.rs finishes the day, when the server calls every command done.
use koc_core.Common.{ℕ, ◌≡◌, Bool, true, false, Option, List, [], ◌∷◌, arith}
use koc_core.Json.{Text}
use koc_core.ErrorCodes.{is_done_result}
use koc_core.State.{all_done}
use koc_core.Kpi.Env.{Env}
use koc_core.Kpi.Request.{GameClient, Request}
use koc_core.Kpi.Session.{Exchange, Server, Session, M, ◌>>=◌, pure, modify, if◌then◌else◌}
use koc_core.Kpi.Status.{DailyTaskStatus, default_status, get_daily_task_status}
use koc_core.Kpi.Daily.{Flag, TaskRun, is_set, set_flag, set_flag_if, do_task}
use koc_core.Kpi.Daily.Fights.{DailyFormationPlan}
use koc_core.Kpi.Daily.Main.{main_tasks}
use koc_core.Kpi.Daily.Extra.{extra_tasks}
use koc_core.Kpi.Daily.Run.{DailyTaskConfig, start_day, all_tasks, run_daily_tasks_stateful}
use koc_core.Kpi.Daily.Keeps.{Keeps, Keeps-bind, Keeps-unless, Keeps-skip_report, Keeps-report_call}
use koc_core.Kpi.Daily.Kept.{
  Keeps-arena_task, Keeps-boss_task, Keeps-legion_boss_task, Keeps-smart_hangup, Keeps-smart_bottle,
}
use koc_core.Kpi.Daily.Whole.{
  Keeps-buy_gold_task, Keeps-card_task, Keeps-artifact_task, Keeps-genie_task, Keeps-gacha_task,
  Keeps-rewards_task, Keeps-nightmare_task, Keeps-dream_shop_task, Keeps-original_team,
}
use koc_core.Kpi.Daily.Vehicles.Kept.{Keeps-car_task}
use koc_core.Kpi.Daily.Sets.{
  AllSet, AllSet-mark, AllSet-IsStable, Sets, Sets-set_flag, Sets-arena_task, Sets-boss_task,
  Sets-legion_boss_task, Sets-genie_task, Sets-rewards_task, Sets-artifact_task, Sets-do_task,
  Sets-buy_gold_task, Sets-card_task,
}

-- After `m` the flags of `gs` are set, if those of `fs` were.
record Marks {N A : Type 0} (fs : List Flag) (m : M N TaskRun A) (gs : List Flag) : Type 0 where
  at : (s : Session N TaskRun) → AllSet fs s → AllSet gs (m s).1

module _ {N : Type 0} where
  Marks-bind :
      {A B : Type 0} {fs gs hs : List Flag} (m : M N TaskRun A) (k : A → M N TaskRun B)
      → Marks fs m gs
      → ((a : A) → Marks gs (k a) hs)
      → Marks fs (m >>= k) hs
  unfolding ◌>>=◌
  Marks-bind m k hm hk = record { at = λ s h. (hk (m s).0).at (m s).1 (hm.at s h) }

  keep :
      {A : Type 0} {fs : List Flag} {m : M N TaskRun A}
      → ((gs : List Flag) → Keeps (AllSet gs) m)
      → Marks fs m fs
  keep {fs = fs} k = record { at = (k fs).at }

  add :
      {A : Type 0} {fs : List Flag} {f : Flag} {m : M N TaskRun A}
      → ((gs : List Flag) → Keeps (AllSet gs) m)
      → Sets f m
      → Marks fs m (f ∷ fs)
  add {fs = fs} k h = record { at = λ s all. (h.at s, (k fs).at s all) }

  Keeps-AllSet-set_flag_if :
      (fs : List Flag) (b : Bool) (f : Flag) → Keeps {N = N} (AllSet fs) (set_flag_if b f)
  unfolding set_flag_if if◌then◌else◌ set_flag modify pure
  Keeps-AllSet-set_flag_if fs true f = record { at = λ s h. AllSet-mark fs f s h }
  Keeps-AllSet-set_flag_if fs false f = record { at = λ s h. h }

  Marks-set_flag : {fs : List Flag} (f : Flag) → Marks {N = N} fs (set_flag f) (f ∷ fs)
  unfolding set_flag_if if◌then◌else◌
  Marks-set_flag f = add (λ fs. Keeps-AllSet-set_flag_if fs true f) (Sets-set_flag f)

  Marks-set_flag_if : {fs : List Flag} (b : Bool) (f : Flag) → Marks {N = N} fs (set_flag_if b f) fs
  Marks-set_flag_if b f = keep (λ fs. Keeps-AllSet-set_flag_if fs b f)

module _ {N : Type 0} (env : Env N) (server : Server N)
    (done : (es : List (Exchange N)) (r : Request N) → is_done_result (server es r) ≡ true) where
  Keeps-AllSet-do_task :
      (fs : List Flag) (f : Flag) (name : Text) (request : Request N)
      → Keeps (AllSet fs) (do_task server f name request)
  unfolding do_task
  Keeps-AllSet-do_task fs f name request =
      let stable = AllSet-IsStable {N = N} default_status fs in
      Keeps-unless f _ _ (Keeps-skip_report stable name) (
        Keeps-bind _ _ (Keeps-report_call stable server name request)
          (λ a. Keeps-AllSet-set_flag_if fs (is_done_result a) f))

  Marks-do_task :
      {fs : List Flag} (f : Flag) (name : Text) (request : Request N)
      → Marks fs (do_task server f name request) (f ∷ fs)
  Marks-do_task f name request =
      add (λ fs. Keeps-AllSet-do_task fs f name request)
        (Sets-do_task env server done f name request)

  abbrev main_flags : List Flag
  main_flags =
      Flag.arena ∷ Flag.bottle_task ∷ Flag.store_purchase ∷ Flag.open_box ∷ Flag.buy_gold
      ∷ Flag.hangup_reward ∷ Flag.recruit ∷ Flag.friend_gift ∷ Flag.share ∷ []

  abbrev all_flags : List Flag
  all_flags =
      Flag.mail ∷ Flag.task_rewards ∷ Flag.genie ∷ Flag.artifact ∷ Flag.collection ∷ Flag.card
      ∷ Flag.discount ∷ Flag.legion_signin ∷ Flag.signin ∷ Flag.legion_boss ∷ Flag.boss ∷ main_flags

  Marks-main_tasks :
      (self : GameClient N) (status : DailyTaskStatus) (plan : Option DailyFormationPlan)
      (team : Option ℕ)
      → Marks [] (main_tasks env server self status plan team) main_flags
  unfolding main_tasks
  Marks-main_tasks self status plan team = Marks-bind _ _ (Marks-set_flag_if _ _) λ _.
      Marks-bind _ _ (Marks-do_task _ _ _) λ _. Marks-bind _ _ (Marks-set_flag_if _ _) λ _.
        Marks-bind _ _ (Marks-do_task _ _ _) λ _. Marks-bind _ _ (Marks-set_flag_if _ _) λ _.
          Marks-bind _ _ (Marks-do_task _ _ _) λ _. Marks-bind _ _ (Marks-set_flag_if _ _) λ _.
            Marks-bind _ _
              (keep (λ fs. Keeps-smart_hangup (AllSet-IsStable status fs) env server self))
              λ _. Marks-bind _ _ (Marks-set_flag _) λ _.
                Marks-bind _ _ (Marks-set_flag_if _ _) λ _.
                  Marks-bind _ _
                    (add (λ fs. Keeps-buy_gold_task (AllSet-IsStable status fs) env server)
                      (Sets-buy_gold_task env server done))
                    λ _. Marks-bind _ _ (Marks-set_flag_if _ _) λ _.
                      Marks-bind _ _ (Marks-do_task _ _ _) λ _.
                        Marks-bind _ _ (Marks-set_flag_if _ _) λ _.
                          Marks-bind _ _ (Marks-do_task _ _ _) λ _.
                            Marks-bind _ _ (Marks-set_flag_if _ _) λ _.
                              Marks-bind _ _
                                (keep
                                  (λ fs. Keeps-smart_bottle (AllSet-IsStable status fs) env server))
                                λ _. Marks-bind _ _ (Marks-set_flag _) λ _.
                                  Marks-bind _ _ (Marks-set_flag_if _ _) λ _.
                                    add
                                      (λ fs.
                                        Keeps-arena_task (AllSet-IsStable status fs) env server self
                                          status plan team)
                                      (Sets-arena_task env server self status plan team)

  Marks-extra_tasks :
      (self : GameClient N) (status : DailyTaskStatus) (gacha : Bool) (shop : Option (List Text))
      → Marks
          (Flag.legion_boss ∷ Flag.boss ∷ main_flags)
          (extra_tasks env server self status gacha shop)
          all_flags
  unfolding extra_tasks
  Marks-extra_tasks self status gacha shop = Marks-bind _ _ (Marks-do_task _ _ _) λ _.
      Marks-bind _ _ (Marks-do_task _ _ _) λ _. Marks-bind _ _ (Marks-do_task _ _ _) λ _.
        Marks-bind _ _
          (add (λ fs. Keeps-card_task (AllSet-IsStable status fs) env server)
            (Sets-card_task env server done))
          λ _. Marks-bind _ _ (Marks-do_task _ _ _) λ _.
            Marks-bind _ _
              (add (λ fs. Keeps-artifact_task (AllSet-IsStable status fs) env server status)
                (Sets-artifact_task env server status))
              λ _.
                Marks-bind _ _
                  (add (λ fs. Keeps-genie_task (AllSet-IsStable status fs) env server self status)
                    (Sets-genie_task env server self status))
                  λ _.
                    Marks-bind _ _
                      (keep (λ fs.
                        Keeps-gacha_task (AllSet-IsStable status fs) env server gacha status))
                      λ _.
                        Marks-bind _ _
                          (add (λ fs. Keeps-rewards_task (AllSet-IsStable status fs) env server)
                            (Sets-rewards_task env server))
                          λ _. Marks-bind _ _ (Marks-do_task _ _ _) λ _.
                            Marks-bind _ _
                              (keep
                                (λ fs. Keeps-nightmare_task (AllSet-IsStable status fs) env server))
                              λ _. keep (λ fs.
                                Keeps-dream_shop_task (AllSet-IsStable status fs) env server self
                                  shop)

  Marks-all_tasks :
      (rounds : ℕ) (self : GameClient N) (status : DailyTaskStatus) (config : DailyTaskConfig)
      → Marks [] (all_tasks env server rounds self status config) all_flags
  unfolding all_tasks
  Marks-all_tasks rounds self status config =
      Marks-bind _ _ (keep (λ fs. Keeps-original_team (AllSet-IsStable status fs) env server _))
        λ team. Marks-bind _ _ (Marks-main_tasks self status _ team) λ _.
          Marks-bind _ _
            (add (λ fs. Keeps-boss_task (AllSet-IsStable status fs) env server self _ team)
              (Sets-boss_task env server self _ team))
            λ _.
              Marks-bind _ _
                (add
                  (λ fs.
                    Keeps-legion_boss_task (AllSet-IsStable status fs) env server self status _
                      team)
                  (Sets-legion_boss_task env server self status _ team))
                λ _.
                  Marks-bind _ _ (Marks-extra_tasks self status _ _)
                    λ _. keep (λ fs. Keeps-car_task (AllSet-IsStable status fs) env server rounds _)

  all_done-AllSet : (s : Session N TaskRun) → AllSet all_flags s → all_done s.vars.daily ≡ true
  unfolding all_done is_set
  all_done-AllSet s h = ground arith

  -- When the server calls every command done, by success or by a code that says so, every task of
  -- the day is done after the run, whatever the state was before.
  pub run_daily_tasks_stateful-all_done :
      (rounds : ℕ) (self : GameClient N) (config : DailyTaskConfig) (s : Session N TaskRun)
      → all_done (run_daily_tasks_stateful env server rounds self config s).1.vars.daily ≡ true
  unfolding run_daily_tasks_stateful start_day ◌>>=◌
  run_daily_tasks_stateful-all_done rounds self config s =
      all_done-AllSet (run_daily_tasks_stateful env server rounds self config s).1
        ((Marks-all_tasks rounds self (get_daily_task_status env self) config).at _ tt)
