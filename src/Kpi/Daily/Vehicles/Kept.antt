-- ===== src/Kpi/Daily/Vehicles/Kept.antt =====
-- The vehicles of src/kpi.rs keep every stable property of the session.
use koc_core.Common.{ℕ, zero, suc, Bool, Option, List, [], ◌∷◌}
use koc_core.Common.Results.{ok, err}
use koc_core.Json.{Text, Value}
use koc_core.Kpi.Env.{Env}
use koc_core.Kpi.Session.{Answer, Server, Session, M}
use koc_core.Kpi.Status.{DailyTaskStatus}
use koc_core.Kpi.Cars.{Car}
use koc_core.Kpi.Daily.{TaskRun}
use koc_core.Kpi.Daily.Run.{car_task}
use koc_core.Kpi.Daily.Vehicles.{research, spend_pieces, claim_cars, claim_all_cars}
use koc_core.Kpi.Daily.Vehicles.Helpers.{Helper}
use koc_core.Kpi.Daily.Vehicles.Sending.{
  Garage, CarState, after_refresh, refresh_loop, send_one, send_cars, send_list, send_from,
  smart_send_car,
}
use koc_core.Kpi.Daily.Keeps.{
  IsStable, Keeps, control_rules, Keeps-bind, Keeps-pure, Keeps-if, Keeps-match_result,
  Keeps-match_option, Keeps-run_report, Keeps-skip_report, Keeps-fail_report, Keeps-call,
  Keeps-report_call, Keeps-set_car_sent,
}

module _ {N : Type 0} {status : DailyTaskStatus} {P : Session N TaskRun → Type 0}
    (stable : IsStable status P) (env : Env N) (server : Server N) where
  Keeps-research :
      (costs : List ℕ) (level pieces : ℕ) → Keeps P (research env server costs level pieces)
  unfolding research
  Keeps-research [] level pieces = Keeps-pure _
  Keeps-research (cost ∷ costs) level pieces = Keeps-if _ _ _ (Keeps-pure _) (
      Keeps-bind _ _ (Keeps-call stable server _) λ a.
        Keeps-match_result a _ _
          (λ v. Keeps-bind _ _ (Keeps-call stable server _) λ info. Keeps-research costs _ _)
          (λ e. Keeps-bind _ _ (Keeps-fail_report stable _ e) λ _. Keeps-pure _))

  Keeps-spend_pieces : (level : ℕ) → Keeps P (spend_pieces env server level)
  unfolding spend_pieces
  Keeps-spend_pieces level =
      search (control_rules, Keeps-call stable, Keeps-research) depth 20 fits 4000

  Keeps-claim_cars :
      (cars : List (Car N)) (level claimed : ℕ) → Keeps P (claim_cars env server cars level claimed)
  unfolding claim_cars
  Keeps-claim_cars [] level claimed = Keeps-pure _
  Keeps-claim_cars (car ∷ cars) level claimed =
      Keeps-if _ _ _ (Keeps-claim_cars cars level claimed) (
        Keeps-bind _ _ (Keeps-call stable server _) λ a.
          Keeps-match_result a _ _
            (λ v.
              Keeps-bind _ _ (Keeps-run_report stable _ _)
                λ _. Keeps-bind _ _ (Keeps-spend_pieces level) λ _. Keeps-claim_cars cars _ _)
            (λ e. Keeps-bind _ _ (Keeps-fail_report stable _ e) λ _. Keeps-claim_cars cars _ _))

  Keeps-claim_all_cars : Keeps P (claim_all_cars env server)
  unfolding claim_all_cars
  Keeps-claim_all_cars =
      search
        (
          control_rules,
          Keeps-call stable,
          Keeps-claim_cars,
          Keeps-skip_report stable,
          Keeps-fail_report stable,
        )
        depth 20 fits 4000

  Keeps-after_refresh :
      (car_id : Text) (helper : ℕ) (c : CarState N) (tickets : ℕ)
      (rest : CarState N → ℕ → M N TaskRun (Option ℕ)) (a : Answer N)
      → ((c' : CarState N) (t : ℕ) → Keeps P (rest c' t))
      → Keeps P (after_refresh env server car_id helper c tickets rest a)
  unfolding after_refresh
  Keeps-after_refresh car_id helper c tickets rest (err e) k =
      Keeps-bind _ _ (Keeps-fail_report stable _ e) λ _. Keeps-pure _
  Keeps-after_refresh car_id helper c tickets rest (ok v) k =
      Keeps-if _ _ _
        (Keeps-bind _ _ (Keeps-bind _ _ (Keeps-report_call stable server _ _) λ _. Keeps-pure _)
          λ _. Keeps-pure _)
        (k _ _)

  Keeps-refresh_loop :
      (rounds : ℕ) (car_id : Text) (helper : ℕ) (c : CarState N) (tickets : ℕ)
      → Keeps P (refresh_loop env server rounds car_id helper c tickets)
  unfolding refresh_loop
  Keeps-refresh_loop zero car_id helper c tickets = Keeps-pure _
  Keeps-refresh_loop (suc rounds) car_id helper c tickets =
      Keeps-if _ _ _
        (Keeps-bind _ _ (Keeps-bind _ _ (Keeps-report_call stable server _ _) λ _. Keeps-pure _)
          λ _. Keeps-pure _)
        (Keeps-bind _ _ (Keeps-call stable server _) λ a.
          Keeps-after_refresh car_id helper c tickets _ a
            (λ c' t. Keeps-refresh_loop rounds car_id helper c' t))

  Keeps-send_one :
      (rounds : ℕ) (car : Car N) (helper tickets : ℕ)
      → Keeps P (send_one env server rounds car helper tickets)
  unfolding send_one
  Keeps-send_one rounds car helper tickets =
      search (control_rules, Keeps-report_call stable, Keeps-refresh_loop) depth 20 fits 4000

  Keeps-send_cars :
      (rounds : ℕ) (helpers : List Helper) (cars : List (Car N)) (g : Garage)
      → Keeps P (send_cars env server rounds helpers cars g)
  unfolding send_cars
  Keeps-send_cars rounds helpers [] g = Keeps-pure _
  Keeps-send_cars rounds helpers (car ∷ cars) g =
      Keeps-if _ _ _ (Keeps-send_cars rounds helpers cars g) (
        Keeps-bind _ _ (Keeps-send_one rounds car _ _) λ left.
          Keeps-match_option left _ _ (λ t. Keeps-send_cars rounds helpers cars _) (Keeps-pure _))

  Keeps-send_list : (rounds : ℕ) (cars : List (Car N)) → Keeps P (send_list env server rounds cars)
  unfolding send_list
  Keeps-send_list rounds cars =
      search (control_rules, Keeps-call stable, Keeps-send_cars) depth 20 fits 4000

  Keeps-send_from : (rounds : ℕ) (resp : Value N) → Keeps P (send_from env server rounds resp)
  unfolding send_from
  Keeps-send_from rounds resp =
      search (control_rules, Keeps-skip_report stable, Keeps-send_list) depth 20 fits 4000

  Keeps-smart_send_car : (rounds : ℕ) → Keeps P (smart_send_car env server rounds)
  unfolding smart_send_car
  Keeps-smart_send_car rounds =
      search
        (
          control_rules,
          Keeps-call stable,
          Keeps-skip_report stable,
          Keeps-fail_report stable,
          Keeps-send_from,
        )
        depth 20 fits 4000

  pub Keeps-car_task : (rounds : ℕ) (on : Bool) → Keeps P (car_task env server rounds on)
  unfolding car_task
  Keeps-car_task rounds on =
      search
        (
          control_rules,
          Keeps-skip_report stable,
          Keeps-claim_all_cars,
          Keeps-smart_send_car,
          Keeps-set_car_sent stable,
        )
        depth 20 fits 4000
