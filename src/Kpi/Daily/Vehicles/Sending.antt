-- ===== src/Kpi/Daily/Vehicles/Sending.antt =====
-- `smart_send_car` of src/kpi.rs. The loop of refreshes ends when the server lets it: `rounds`
-- bounds the refreshes of one car that are followed. The result says whether the code returned;
-- where it did not, the session is the one after that many refreshes.
use koc_core.Common.{
  ℕ, zero, suc, ◌+◌, ◌-◌, ◌%◌, ◌^◌, ◌==◌, Bool, true, false, not, ◌&&◌, Option, none, some, List,
  [], ◌∷◌, ◌++◌, leb, length,
}
use mathlib.Core.Bool.{cond}
use koc_core.Common.Codes.{codes}
use koc_core.Common.Results.{ok, err}
use koc_core.Json.{Text, Value, Items}
use koc_core.Protocol.Message.{and_then, unwrap_or}
use koc_core.Kpi.Env.{Env, field, as_u64}
use koc_core.Kpi.Session.{
  if◌then◌else◌, Answer, Server, M, ◌>>=◌, ◌>>◌, pure, call, match_result, match_option,
}
use koc_core.Kpi.Cars.{
  Car, normalize_car_list, is_big_prize, should_send, days_from_monday, is_car_send_window,
}
use koc_core.Kpi.Daily.{TaskRun, Task, skip_report, fail_report, report_call}
use koc_core.Kpi.Daily.Dream.{as_array}
use koc_core.Kpi.Daily.Vehicles.Helpers.{
  Helper, assign_helper, helper_map_of, sorted_helpers_of, current_role_id,
}
use koc_core.Kpi.Daily.Vehicles.{role_car, quantity_or, graded}
use koc_core.Kpi.Commands.Account.{role_getroleinfo}
use koc_core.Kpi.Commands.Club.{legion_getinfo}
use koc_core.Kpi.Commands.Event.{car_getrolecar, car_refresh, car_send, car_getmemberhelpingcnt}

-- The variables of the loop over the cars.
pub record Garage : Type 0 where
  pub refresh_tickets : ℕ
  pub helper_map : List (Text × ℕ)

-- The variables of the loop on one car.
pub record CarState (N : Type 0) : Type 0 where
  pub car_color : ℕ
  pub car_refresh_count : ℕ
  pub car_rewards : Items N

module _ {N : Type 0} (env : Env N) where
  -- What a refresh changes of the car.
  unfoldable pub refreshed : Value N → CarState N → CarState N
  refreshed resp c =
      let car_data = unwrap_or (field (codes "car") resp) resp in
      record {
        car_color = elim (and_then (field (codes "color") car_data) (as_u64 env)) [
          | none ↦ c.car_color
          | some n ↦ n % 2 ^ 32
        ];
        car_refresh_count = elim (and_then (field (codes "refreshCount") car_data) (as_u64 env)) [
          | none ↦ c.car_refresh_count
          | some n ↦ n % 2 ^ 32
        ];
        car_rewards =
            unwrap_or (and_then (field (codes "rewards") car_data) (as_array env)) c.car_rewards;
      }

  abbrev is_wed : Bool
  is_wed = days_from_monday env == 2

  abbrev reason : Items N → Text
  reason rewards = cond (is_big_prize env rewards) (codes "BINGO") (codes "tickets")

  -- `sendCnt`, which counts for the day on which it was reset.
  unfoldable pub effective_send_cnt : Value N → ℕ
  effective_send_cnt resp =
      let of = λ (k : Text).
        unwrap_or (and_then (and_then (role_car env resp) (field k)) (as_u64 env)) 0 in
      cond (leb env.today_start (of (codes "sendCntResetTime"))) (of (codes "sendCnt") % 2 ^ 32) 0

  abbrev unsent_cars : List (Car N) → ℕ
  unsent_cars [] = 0
  unsent_cars (car ∷ cars) = cond (car.send_at == 0) 1 0 + unsent_cars cars

  module _ (server : Server N) where
    -- One car is sent, and what the report says of it.
    abbrev send_car : Text → ℕ → ℕ → Text → Task N
    send_car car_id helper color after =
        report_call server (graded (codes "CarSend [") color after)
          (car_send env.json car_id helper [])
        >> pure tt

    -- What follows an answer to a refresh; `rest` goes on with the loop.
    unfoldable pub after_refresh :
        Text
        → ℕ
        → CarState N
        → ℕ
        → (CarState N → ℕ → M N TaskRun (Option ℕ))
        → Answer N
        → M N TaskRun (Option ℕ)
    unfolding refreshed should_send
    after_refresh car_id helper c tickets rest (err e) =
        fail_report (codes "Car Refresh") e >> pure (some tickets)
    after_refresh car_id helper c tickets rest (ok resp) =
        let c' = refreshed resp c in
        let left = cond (c.car_refresh_count == 0) tickets (tickets - 1) in
        if should_send env is_wed c'.car_rewards
        then send_car car_id helper c'.car_color (codes "] After Refresh" ++ reason c'.car_rewards)
          >> pure (some left)
        else rest c' left

    -- The loop on one car: the tickets that are left, if it ended.
    unfoldable pub refresh_loop : ℕ → Text → ℕ → CarState N → ℕ → M N TaskRun (Option ℕ)
    refresh_loop zero car_id helper c tickets = pure none
    refresh_loop (suc rounds) car_id helper c tickets =
        let rest = refresh_loop rounds car_id helper in
        if not (c.car_refresh_count == 0) && (tickets == 0)
        then send_car car_id helper c.car_color (codes "] tickets exhausted") >> pure (some tickets)
        else do
          answer ← call server (car_refresh car_id)
          after_refresh car_id helper c tickets rest answer

    -- One car that is not sent yet.
    unfoldable pub send_one : ℕ → Car N → ℕ → ℕ → M N TaskRun (Option ℕ)
    unfolding should_send
    send_one rounds car helper tickets =
        if should_send env is_wed car.rewards
        then send_car car.car_id helper car.color (codes "] " ++ reason car.rewards)
          >> pure (some tickets)
        else refresh_loop rounds car.car_id helper
            (record {
              car_color = car.color;
              car_refresh_count = car.refresh_count;
              car_rewards = car.rewards;
            })
            tickets

    -- The loop over the cars.
    unfoldable pub send_cars : ℕ → List Helper → List (Car N) → Garage → M N TaskRun Bool
    unfolding assign_helper
    send_cars rounds helpers [] g = pure true
    send_cars rounds helpers (car ∷ cars) g =
        let rest = send_cars rounds helpers cars in
        let assigned = assign_helper car.color helpers g.helper_map in
        if not (car.send_at == 0) then rest g else do
          tickets ← send_one rounds car assigned.0 g.refresh_tickets
          match_option tickets (λ t. rest (record { refresh_tickets = t; helper_map = assigned.1 }))
              (pure false)

    unfoldable pub send_list : ℕ → List (Car N) → M N TaskRun Bool
    send_list rounds cars = do
      role_info ← call server (role_getroleinfo env.json)
      usage ← call server car_getmemberhelpingcnt
      legion ← call server legion_getinfo
      send_cars rounds (sorted_helpers_of env (current_role_id env role_info) legion) cars (record {
        refresh_tickets = quantity_or env 0 (codes "/role/items/35002/quantity") role_info;
        helper_map = helper_map_of env usage;
      })

    unfoldable pub send_from : ℕ → Value N → M N TaskRun Bool
    unfolding effective_send_cnt
    send_from rounds resp =
        let cars = normalize_car_list env resp in
        if leb (length cars) (effective_send_cnt resp)
        then skip_report (codes "Smart CarSend (already done)") >> pure true
        else if unsent_cars cars == 0
        then skip_report (codes "Smart CarSend (no pending car)") >> pure true
        else send_list rounds cars

    unfoldable pub smart_send_car : ℕ → M N TaskRun Bool
    smart_send_car rounds =
        if is_car_send_window env
        then (do
          answer ← call server car_getrolecar
          match_result answer (send_from rounds)
              (λ e. fail_report (codes "acquire car infomation") e >> pure true))
        else skip_report (codes "Smart CarSend (invalid time)") >> pure true
