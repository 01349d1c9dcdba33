-- ===== src/Kpi/Daily/Keeps.antt =====
-- Properties of the session that the daily tasks of src/kpi.rs keep: the rules for each way in which
-- a task is written. A flag may only be set for a reason.
use koc_core.Common.{
  ℕ, zero, suc, ◌+◌, ◌≡◌, refl, Bool, true, false, Option, none, some, List, [], ◌∷◌, ◌⊎◌, inl,
}
use koc_core.Common.Codes.{codes}
use koc_core.Common.Results.{Result, ok, err}
use koc_core.Json.{Text}
use koc_core.ErrorCodes.{is_done_result}
use koc_core.Kpi.Request.{Request}
use koc_core.Kpi.Session.{
  if◌then◌else◌, Answer, Exchange, Server, Session, M, ◌>>=◌, pure, gets, modify, call,
  match_result, match_option, repeat,
}
use koc_core.Kpi.Status.{DailyTaskStatus}
use koc_core.Kpi.Report.{DailyTaskReport}
use koc_core.Kpi.Daily.{
  Flag, TaskRun, Task, mark, flag_state, set_flag, set_flag_if, set_car_sent, run_report,
  skip_report, fail_report, report_call, do_task,
}

-- The command was answered by success, or by a code which says that it is done.
abbrev pub HasDone : {N : Type 0} → Text → List (Exchange N) → Type 0
HasDone name [] = ⊥
HasDone name (e ∷ es) =
    ((e.request.name ≡ name) × (is_done_result e.answer ≡ true)) ⊎ HasDone name es

-- What must have happened when the flag is set: the server's report on the role, or an exchange. The
-- other flags are set whatever the answers are.
abbrev pub Justified : {N : Type 0} → DailyTaskStatus → Flag → List (Exchange N) → Type 0
Justified status Flag.share es = (status.share ≡ true) ⊎ HasDone (codes "system_mysharecallback") es
Justified status Flag.friend_gift es =
    (status.friend_gift ≡ true) ⊎ HasDone (codes "friend_batch") es
Justified status Flag.recruit es = (status.recruit ≡ true) ⊎ HasDone (codes "hero_recruit") es
Justified status Flag.buy_gold es = (status.buy_gold ≡ true) ⊎ HasDone (codes "system_buygold") es
Justified status Flag.open_box es = (status.open_box ≡ true) ⊎ HasDone (codes "item_openbox") es
Justified status Flag.store_purchase es =
    (status.store_purchase ≡ true) ⊎ HasDone (codes "store_purchase") es
Justified status Flag.signin es = HasDone (codes "system_signinreward") es
Justified status Flag.legion_signin es = HasDone (codes "legion_signin") es
Justified status Flag.discount es = HasDone (codes "discount_claimreward") es
Justified status Flag.card es = HasDone (codes "card_claimreward") es
Justified status Flag.collection es = HasDone (codes "collection_claimfreereward") es
Justified status Flag.mail es = HasDone (codes "mail_claimallattachment") es
Justified status Flag.nightmare es = HasDone (codes "dungeon_selecthero") es
Justified status f es = Unit {0}

abbrev pub with_exchange : {N : Type 0} → Exchange N → Session N TaskRun → Session N TaskRun
with_exchange e s = record s { sent = e ∷ s.sent }

abbrev pub with_report : {N : Type 0} → DailyTaskReport → Session N TaskRun → Session N TaskRun
with_report r s = record s { vars = record s.vars { report = r } }

abbrev pub with_mark : {N : Type 0} → Flag → Session N TaskRun → Session N TaskRun
with_mark f s = record s { vars = record s.vars { daily = mark f s.vars.daily } }

abbrev pub with_cars : {N : Type 0} → ℕ → Session N TaskRun → Session N TaskRun
with_cars t s = record s {
  vars = record s.vars {
    daily = record s.vars.daily { car_send_done = true; next_car_claim_time = t };
  };
}

-- The four changes that a task makes keep `P`.
pub record IsStable {N : Type 0} (status : DailyTaskStatus) (P : Session N TaskRun → Type 0)
    : Type 0 where
  pub on_call : (s : Session N TaskRun) (e : Exchange N) → P s → P (with_exchange e s)
  pub on_report : (s : Session N TaskRun) (r : DailyTaskReport) → P s → P (with_report r s)
  pub on_mark :
      (s : Session N TaskRun) (f : Flag) → Justified status f s.sent → P s → P (with_mark f s)
  pub on_cars : (s : Session N TaskRun) (t : ℕ) → P s → P (with_cars t s)

pub record Keeps {N A : Type 0} (P : Session N TaskRun → Type 0) (m : M N TaskRun A) : Type 0 where
  pub at : (s : Session N TaskRun) → P s → P (m s).1

module _ {N : Type 0} {P : Session N TaskRun → Type 0} where
  pub Keeps-pure : {A : Type 0} (a : A) → Keeps P (pure a)
  unfolding pure
  Keeps-pure a = record { at = λ s h. h }

  pub Keeps-gets : {A : Type 0} (f : TaskRun → A) → Keeps P (gets f)
  unfolding gets
  Keeps-gets f = record { at = λ s h. h }

  pub Keeps-bind :
      {A B : Type 0} (m : M N TaskRun A) (f : A → M N TaskRun B)
      → Keeps P m
      → ((a : A) → Keeps P (f a))
      → Keeps P (m >>= f)
  unfolding ◌>>=◌
  Keeps-bind m f km kf = record { at = λ s h. (kf (m s).0).at (m s).1 (km.at s h) }

  pub Keeps-if :
      {A : Type 0} (b : Bool) (m n : M N TaskRun A)
      → Keeps P m
      → Keeps P n
      → Keeps P (if b then m else n)
  unfolding if◌then◌else◌
  Keeps-if true m n km kn = km
  Keeps-if false m n km kn = kn

  pub Keeps-match_result :
      {A B : Type 0} (r : Result A Text) (f : A → M N TaskRun B) (g : Text → M N TaskRun B)
      → ((a : A) → Keeps P (f a))
      → ((e : Text) → Keeps P (g e))
      → Keeps P (match_result r f g)
  unfolding match_result
  Keeps-match_result (ok a) f g kf kg = kf a
  Keeps-match_result (err e) f g kf kg = kg e

  pub Keeps-match_option :
      {A B : Type 0} (o : Option A) (f : A → M N TaskRun B) (m : M N TaskRun B)
      → ((a : A) → Keeps P (f a))
      → Keeps P m
      → Keeps P (match_option o f m)
  unfolding match_option
  Keeps-match_option (some a) f m kf km = kf a
  Keeps-match_option none f m kf km = km

  pub Keeps-repeat :
      (n first : ℕ) (body : ℕ → Task N)
      → ((i : ℕ) → Keeps P (body i))
      → Keeps P (repeat first n body)
  unfolding repeat
  Keeps-repeat zero first body k = Keeps-pure tt
  Keeps-repeat (suc n) first body k =
      Keeps-bind (body first) _ (k first) (λ _. Keeps-repeat n (first + 1) body k)

  -- `if daily.flag { m } else { n }`
  pub Keeps-unless :
      (f : Flag) (m n : Task N)
      → Keeps P m
      → Keeps P n
      → Keeps P (flag_state f >>= λ done. if done then m else n)
  Keeps-unless f m n km kn = Keeps-bind _ _ (Keeps-gets _) (λ done. Keeps-if done m n km kn)

pub ruleset control_rules = (
  Keeps-pure, Keeps-gets, Keeps-bind, Keeps-if, Keeps-match_result, Keeps-match_option,
  Keeps-repeat,
)

module _ {N : Type 0} {status : DailyTaskStatus} {P : Session N TaskRun → Type 0}
    (stable : IsStable status P) where
  pub Keeps-run_report : (name : Text) (answer : Answer N) → Keeps P (run_report name answer)
  unfolding run_report modify
  Keeps-run_report name answer = record { at = λ s h. stable.on_report s _ h }

  pub Keeps-skip_report : (name : Text) → Keeps P (skip_report name)
  unfolding skip_report modify
  Keeps-skip_report name = record { at = λ s h. stable.on_report s _ h }

  pub Keeps-fail_report : (name e : Text) → Keeps P (fail_report name e)
  unfolding fail_report modify
  Keeps-fail_report name e = record { at = λ s h. stable.on_report s _ h }

  pub Keeps-set_car_sent : (t : ℕ) → Keeps P (set_car_sent t)
  unfolding set_car_sent modify
  Keeps-set_car_sent t = record { at = λ s h. stable.on_cars s t h }

  pub Keeps-call : (server : Server N) (request : Request N) → Keeps P (call server request)
  unfolding call
  Keeps-call server request = record { at = λ s h. stable.on_call s _ h }

  pub Keeps-report_call :
      (server : Server N) (name : Text) (request : Request N)
      → Keeps P (report_call server name request)
  unfolding report_call
  Keeps-report_call server name request =
      Keeps-bind _ _ (Keeps-call server request)
        λ a. Keeps-bind _ _ (Keeps-run_report name a) (λ _. Keeps-pure a)

  -- A flag that needs no reason, or has one.
  pub Keeps-set_flag :
      (f : Flag) → ((s : Session N TaskRun) → Justified status f s.sent) → Keeps P (set_flag f)
  unfolding set_flag modify
  Keeps-set_flag f reason = record { at = λ s h. stable.on_mark s f (reason s) h }

  pub Keeps-set_flag_if :
      (b : Bool) (f : Flag)
      → (b ≡ true → (s : Session N TaskRun) → Justified status f s.sent)
      → Keeps P (set_flag_if b f)
  unfolding set_flag_if if◌then◌else◌
  Keeps-set_flag_if true f reason = Keeps-set_flag f (reason refl)
  Keeps-set_flag_if false f reason = Keeps-pure tt

  -- The flag is set after an answer that is done.
  pub at-set_flag_if :
      (b : Bool) (f : Flag) (s : Session N TaskRun)
      → (b ≡ true → Justified status f s.sent)
      → P s
      → P (set_flag_if b f s).1
  unfolding set_flag_if if◌then◌else◌ set_flag modify pure
  at-set_flag_if true f s reason h = stable.on_mark s f (reason refl) h
  at-set_flag_if false f s reason h = h

  -- A flag that is set by the answer which has just come.
  pub Keeps-report_set :
      (server : Server N) (f : Flag) (name : Text) (request : Request N) (test : Answer N → Bool)
      → ((a : Answer N) → test a ≡ true → is_done_result a ≡ true)
      → ((es : List (Exchange N)) → HasDone request.name es → Justified status f es)
      → Keeps P (report_call server name request >>= λ a. set_flag_if (test a) f)
  unfolding ◌>>=◌ report_call run_report
  Keeps-report_set server f name request test done reason = record {
    at = λ s h.
        at-set_flag_if _ f _ (λ d. reason _ (inl (refl, done _ d)))
          (stable.on_report _ _ (stable.on_call s _ h));
  }

  pub Keeps-do_task :
      (server : Server N) (f : Flag) (name : Text) (request : Request N)
      → ((es : List (Exchange N)) → HasDone request.name es → Justified status f es)
      → Keeps P (do_task server f name request)
  unfolding do_task
  Keeps-do_task server f name request reason =
      Keeps-unless f _ _ (Keeps-skip_report name)
        (Keeps-report_set server f name request is_done_result (λ a d. d) reason)
