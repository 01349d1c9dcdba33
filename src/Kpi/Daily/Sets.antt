-- ===== src/Kpi/Daily/Sets.antt =====
-- Which flags of src/kpi.rs a task sets, when the server calls every command done.
use koc_core.Common.{
  ℕ, zero, suc, ◌+◌, ◌≡◌, refl, ◌∙◌, Bool, true, false, ◌&&◌, Option, List, [], ◌∷◌, inl, inr,
  Bool-cases, arith,
}
use koc_core.Common.Results.{All}
use koc_core.Json.{Text}
use koc_core.ErrorCodes.{is_done_result}
use koc_core.Kpi.Env.{Env}
use koc_core.Kpi.Request.{GameClient, Request}
use koc_core.Kpi.Session.{Exchange, Server, Session, M, ◌>>=◌, modify, if◌then◌else◌}
use koc_core.Kpi.Status.{DailyTaskStatus}
use koc_core.Kpi.Daily.{
  Flag, TaskRun, Task, is_set, mark, flag_state, set_flag, set_flag_if, run_report, skip_report,
  report_call, do_task,
}
use koc_core.Kpi.Daily.Fights.{DailyFormationPlan, arena_task, boss_task, legion_boss_task}
use koc_core.Kpi.Daily.Main.{buy_gold_loop, buy_gold_task}
use koc_core.Kpi.Daily.Extra.{card_task, artifact_task, genie_task, rewards_task}
use koc_core.Kpi.Commands.Account.{system_buygold}
use koc_core.Kpi.Commands.Club.{card_claimfree, card_claimreward}
use koc_core.Kpi.Daily.Keeps.{IsStable, with_exchange, with_report, with_mark, with_cars}
use koc_core.Kpi.Daily.Evidence.{is_set-mark_mono, is_set-mark_self, is_set-cars, FlagSet}

-- The flags of the list are set.
abbrev pub AllSet : {N : Type 0} → List Flag → Session N TaskRun → Type 0
AllSet fs s = All (λ f. FlagSet f s) fs

pub AllSet-mark :
    {N : Type 0} (fs : List Flag) (g : Flag) (s : Session N TaskRun)
    → AllSet fs s
    → AllSet fs (with_mark g s)
AllSet-mark [] g s h = tt
AllSet-mark (f ∷ fs) g s h = (is_set-mark_mono f g _ h.0, AllSet-mark fs g s h.1)

AllSet-same :
    {N : Type 0} (fs : List Flag) (s t : Session N TaskRun)
    → s.vars.daily ≡ t.vars.daily
    → AllSet fs s
    → AllSet fs t
AllSet-same [] s t e h = tt
AllSet-same (f ∷ fs) s t e h = (rw (← e) h.0, AllSet-same fs s t e h.1)

AllSet-cars :
    {N : Type 0} (fs : List Flag) (s : Session N TaskRun) (t : ℕ)
    → AllSet fs s
    → AllSet fs (with_cars t s)
AllSet-cars [] s t h = tt
AllSet-cars (f ∷ fs) s t h = (is_set-cars f t _ ∙ h.0, AllSet-cars fs s t h.1)

pub AllSet-IsStable :
    {N : Type 0} (status : DailyTaskStatus) (fs : List Flag) → IsStable {N = N} status (AllSet fs)
AllSet-IsStable status fs = record {
  on_call = λ s e h. AllSet-same fs s (with_exchange e s) refl h;
  on_report = λ s r h. AllSet-same fs s (with_report r s) refl h;
  on_mark = λ s g reason h. AllSet-mark fs g s h;
  on_cars = λ s t h. AllSet-cars fs s t h;
}

-- The flag is set after `m`.
pub record Sets {N A : Type 0} (f : Flag) (m : M N TaskRun A) : Type 0 where
  pub at : (s : Session N TaskRun) → is_set f (m s).1.vars.daily ≡ true

module _ {N : Type 0} where
  pub Sets-set_flag : (f : Flag) → Sets {N = N} f (set_flag f)
  unfolding set_flag modify
  Sets-set_flag f = record { at = λ s. is_set-mark_self f _ }

  pub Sets-last :
      {A B : Type 0} (f : Flag) (m : M N TaskRun A) (k : A → M N TaskRun B)
      → ((a : A) → Sets f (k a))
      → Sets f (m >>= k)
  unfolding ◌>>=◌
  Sets-last f m k h = record { at = λ s. (h (m s).0).at (m s).1 }

  pub Sets-if :
      {A : Type 0} (f : Flag) (b : Bool) (m n : M N TaskRun A)
      → Sets f m
      → Sets f n
      → Sets f (if b then m else n)
  unfolding if◌then◌else◌
  Sets-if f true m n hm hn = hm
  Sets-if f false m n hm hn = hn

  pub Sets-unless :
      (f : Flag) (name : Text) (n : Task N)
      → Sets f n
      → Sets f (flag_state f >>= λ done. if done then skip_report name else n)
  unfolding ◌>>=◌ skip_report
  Sets-unless f name n h = record {
    at = λ s. elim (Bool-cases (is_set f s.vars.daily)) [
      | inl done ↦ rw done done
      | inr open_ ↦ rw open_ (h.at s)
    ];
  }

and-true : {a b : Bool} → a ≡ true → b ≡ true → (a && b) ≡ true
and-true h k = rw (h, k) refl

at-set_true :
    {N : Type 0} (b : Bool) (f : Flag) (s : Session N TaskRun)
    → b ≡ true
    → is_set f (set_flag_if b f s).1.vars.daily ≡ true
unfolding set_flag_if if◌then◌else◌
at-set_true true f s h = (Sets-set_flag f).at s
at-set_true false f s h = cc

pub ruleset set_rules = (Sets-set_flag, Sets-last, Sets-if)

module _ {N : Type 0} (env : Env N) (server : Server N) where
  pub Sets-arena_task :
      (self : GameClient N) (status : DailyTaskStatus) (plan : Option DailyFormationPlan)
      (team : Option ℕ)
      → Sets Flag.arena (arena_task env server self status plan team)
  unfolding arena_task
  Sets-arena_task self status plan team = Sets-unless _ _ _ (search set_rules depth 20)

  pub Sets-boss_task :
      (self : GameClient N) (plan : Option DailyFormationPlan) (team : Option ℕ)
      → Sets Flag.boss (boss_task env server self plan team)
  unfolding boss_task
  Sets-boss_task self plan team = Sets-unless _ _ _ (search set_rules depth 20)

  pub Sets-legion_boss_task :
      (self : GameClient N) (status : DailyTaskStatus) (plan : Option DailyFormationPlan)
      (team : Option ℕ)
      → Sets Flag.legion_boss (legion_boss_task env server self status plan team)
  unfolding legion_boss_task
  Sets-legion_boss_task self status plan team = Sets-unless _ _ _ (search set_rules depth 20)

  pub Sets-genie_task :
      (self : GameClient N) (status : DailyTaskStatus)
      → Sets Flag.genie (genie_task env server self status)
  unfolding genie_task
  Sets-genie_task self status = Sets-unless _ _ _ (search set_rules depth 20)

  pub Sets-rewards_task : Sets Flag.task_rewards (rewards_task env server)
  unfolding rewards_task
  Sets-rewards_task = Sets-unless _ _ _ (search set_rules depth 20)

  -- Fished today, or fished now.
  pub Sets-artifact_task :
      (status : DailyTaskStatus) → Sets Flag.artifact (artifact_task env server status)
  unfolding artifact_task ◌>>=◌ set_flag_if set_flag skip_report is_set mark
  Sets-artifact_task status = record { at = λ s. ground arith }

  -- The server calls every command done: it succeeds, or its code says so.
  module _
      (done : (es : List (Exchange N)) (r : Request N) → is_done_result (server es r) ≡ true) where
    Sets-report_set :
        (f : Flag) (name : Text) (request : Request N) (test : Bool → Bool)
        → test true ≡ true
        → Sets f (report_call server name request >>= λ a. set_flag_if (test (is_done_result a)) f)
    unfolding report_call ◌>>=◌ run_report
    Sets-report_set f name request test h = record {
      at = λ s. at-set_true _ f _ (rw (done s.sent request) h);
    }

    pub Sets-do_task :
        (f : Flag) (name : Text) (request : Request N) → Sets f (do_task server f name request)
    unfolding do_task
    Sets-do_task f name request =
        Sets-unless f name _ (Sets-report_set f name request (λ b. b) refl)

    buy_gold_loop-true :
        (n i : ℕ) (b : Bool) (s : Session N TaskRun)
        → b ≡ true
        → (buy_gold_loop env server i n b s).0 ≡ true
    unfolding buy_gold_loop report_call ◌>>=◌
    buy_gold_loop-true zero i b s h = h
    buy_gold_loop-true (suc n) i b s h =
        buy_gold_loop-true n (i + 1) _ _ (and-true h (done s.sent (system_buygold env.json)))

    pub Sets-buy_gold_task : Sets Flag.buy_gold (buy_gold_task env server)
    unfolding buy_gold_task
    Sets-buy_gold_task = Sets-unless _ _ _ (record {
      at = λ s. unfold ◌>>=◌ in at-set_true _ Flag.buy_gold _ (buy_gold_loop-true 3 1 true s refl);
    })

    pub Sets-card_task : Sets Flag.card (card_task env server)
    unfolding card_task report_call ◌>>=◌ run_report
    Sets-card_task = Sets-unless _ _ _ (record {
      at = λ s. at-set_true _ Flag.card _ (
          and-true (done s.sent (card_claimfree env.json))
            (done _ (card_claimreward env.json 4003)));
    })
