-- ===== src/Kpi/Daily/Vehicles.antt =====
-- The vehicles at the end of the daily tasks: `claim_all_cars` of src/kpi.rs. The two methods' own
-- reports are appended to the run's one after the other; here they are written to it at once.
pub mod Helpers
pub mod Sending
pub mod Kept
pub mod Rounds
use mathlib.Core.Bool.{cond}
use koc_core.Common.{
  ℕ, suc, ◌+◌, ◌%◌, ◌^◌, ◌==◌, Bool, true, false, not, ◌&&◌, ◌||◌, Option, none, some, List, [],
  ◌∷◌, ◌++◌, ltb, leb, drop,
}
use koc_core.Common.Codes.{codes}
use koc_core.Common.Int.{pos}
use koc_core.Common.Results.{Result, ok, err}
use koc_core.Json.{Text, Value}
use koc_core.Protocol.Message.{and_then, unwrap_or}
use koc_core.Kpi.Env.{Env, or_else, field, as_u64}
use koc_core.Kpi.Request.{json, int}
use koc_core.Kpi.Session.{if◌then◌else◌, Answer, Server, M, ◌>>=◌, ◌>>◌, pure, call, match_result}
use koc_core.Kpi.Cars.{Car, car_research_costs, grade_label, normalize_car_list, can_claim_car}
use koc_core.Kpi.Daily.{TaskRun, Task, run_report, skip_report, fail_report}
use koc_core.Kpi.Commands.Account.{role_getroleinfo}
use koc_core.Kpi.Commands.Event.{
  car_getrolecar, car_claim, car_research, car_claimpartconsumereward,
}

abbrev graded : Text → ℕ → Text → Text
graded before color after = before ++ grade_label color ++ after

-- `4.0 * 3600.0` and `1000.0`
abbrev pub four_hours : ℕ
four_hours = 0x40CC200000000000

abbrev thousand : ℕ
thousand = 0x408F400000000000

abbrev pieces_path : Text
pieces_path = codes "/role/items/35009/quantity"

module _ {N : Type 0} (env : Env N) where
  -- `resp.get("roleCar").or_else(|| resp.get("body").and_then(|b| b.get("roleCar")))`
  abbrev pub role_car : Value N → Option (Value N)
  role_car resp =
      or_else (field (codes "roleCar") resp)
        (and_then (field (codes "body") resp) (field (codes "roleCar")))

  -- The quantity of an item, as `u32`.
  abbrev pub quantity : Text → Value N → ℕ
  quantity path info = unwrap_or (and_then (env.pointer path info) (as_u64 env)) 0 % 2 ^ 32

  -- The quantity that an answer gives, or the one before.
  abbrev pub quantity_or : ℕ → Text → Answer N → ℕ
  quantity_or n path (ok info) = quantity path info
  quantity_or n path (err e) = n

  abbrev research_level_of : Value N → ℕ
  research_level_of resp =
      unwrap_or
        (and_then (and_then (role_car resp) (env.pointer (codes "/research/1"))) (as_u64 env)) 0
      % 2 ^ 32

  abbrev claim_time : ℕ → ℕ
  claim_time send_at =
      let t = env.from_nat send_at in
      env.plus (cond (ltb send_at 1000000000000) t (env.divide t thousand)) four_hours

  -- `|a, b| if a == 0.0 || b < a { b } else { a }`; `a == 0.0` is `<=` both ways.
  abbrev earlier_claim : ℕ → ℕ → ℕ
  earlier_claim a b =
      cond (env.float.le a env.float.zero && env.float.le env.float.zero a || env.float.lt b a) b a

  -- The `fold` over the cars that are under way.
  unfoldable pub next_claim_of : ℕ → List (Car N) → ℕ
  next_claim_of a [] = a
  next_claim_of a (car ∷ cars) =
      next_claim_of (cond (car.send_at == 0) a (earlier_claim a (claim_time car.send_at))) cars

  module _ (server : Server N) where
    -- The loop over the costs from the present level on: the level that it ends with.
    unfoldable pub research : List ℕ → ℕ → ℕ → M N TaskRun ℕ
    research [] level pieces = pure level
    research (cost ∷ costs) level pieces =
        let rest = research costs in
        if ltb pieces cost then pure level else do
          answer ←
              call server (car_research (json ((codes "researchId", int env.json (pos 1)) ∷ [])))
          match_result answer
              (λ _. do
                info ← call server (role_getroleinfo env.json)
                rest (level + 1) (quantity_or pieces pieces_path info))
              (λ e. fail_report (codes "Update engine") e >> pure level)

    -- After a car has been claimed.
    unfoldable pub spend_pieces : ℕ → M N TaskRun ℕ
    spend_pieces level = do
      info ← call server (role_getroleinfo env.json)
      level' ← research (drop level car_research_costs) level (quantity_or 0 pieces_path info)
      call server car_claimpartconsumereward
      pure level'

    -- The loop over the cars: how many were claimed.
    unfoldable pub claim_cars : List (Car N) → ℕ → ℕ → M N TaskRun ℕ
    claim_cars [] level claimed = pure claimed
    claim_cars (car ∷ cars) level claimed =
        let rest = claim_cars cars in
        let name = graded (codes "CarClaim [") car.color (codes "]") in
        if not (can_claim_car env car.send_at) then rest level claimed else do
          answer ← call server (car_claim car.car_id)
          match_result answer
              (λ _. do
                run_report name (ok (json []))
                level' ← spend_pieces level
                rest level' (claimed + 1))
              (λ e. fail_report name e >> rest level claimed)

    -- The time of the next claim.
    unfoldable pub claim_all_cars : M N TaskRun ℕ
    claim_all_cars = do
      answer ← call server car_getrolecar
      match_result answer
          (λ resp. do
            claimed ← claim_cars (normalize_car_list env resp) (research_level_of resp) 0
            (if claimed == 0 then skip_report (codes "Car Cliaim (No Car)") else pure tt)
            pure (next_claim_of env.float.zero (normalize_car_list env resp)))
          (λ e. fail_report (codes "Obtail Car Info") e >> pure env.float.zero)
