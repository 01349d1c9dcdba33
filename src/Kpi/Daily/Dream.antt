-- ===== src/Kpi/Daily/Dream.antt =====
-- The purchases in the dream shop: `run_dream_shop_daily` of src/kpi.rs.
pub mod Sorted
pub mod Wanted
pub mod Bought
use koc_core.Common.{
  ℕ, suc, ◌+◌, ◌^◌, ◌-◌, ◌==◌, Bool, true, false, ◌||◌, ◌&&◌, Option, none, some, List, [], ◌∷◌,
  ◌++◌, ltb, leb, if◌then◌else◌,
}
use koc_core.Common.Codes.{codes}
use koc_core.Common.Results.{Result, ok, err}
use koc_core.Json.{Text, Value, Items, no_items, item, JsonMap, array}
use koc_core.Json.Maps.{get}
use koc_core.Protocol.Message.{and_then, as_object}
use koc_core.ErrorCodes.{parse_magnitude, is_done_result, digits}
use koc_core.Kpi.Env.{Env, field, as_u64}
use koc_core.Kpi.Request.{GameClient, Request, json, nat}
use koc_core.Kpi.Session.{Answer, Server, M, ◌>>=◌, ◌>>◌, pure, match_result, match_option, call}
use koc_core.Kpi.Status.{level_id}
use koc_core.Kpi.Daily.{TaskRun, Task, run_report, skip_report, fail_report}
use koc_core.Kpi.Daily.Fights.{shown, numbered}
use koc_core.Kpi.Commands.Account.{role_getroleinfo}
use koc_core.Kpi.Commands.Event.{dungeon_buymerchant}

-- The merchant, the item, and its position in the merchant's list.
pub record Operation : Type 0 where
  pub merchant_id : ℕ
  pub item_index : ℕ
  pub pos : ℕ

-- `raw.split_once('-')`
unfoldable pub split_dash : Text → Option (Text × Text)
split_dash [] = none
split_dash (c ∷ cs) =
    let rest = split_dash cs in
    if c == 45 then some ([], cs) else elim rest [ none ↦ none | some (a, b) ↦ some (c ∷ a, b) ]

-- `parse::<u64>()`, which takes a leading `+`.
abbrev pub parse_u64 : Text → Option ℕ
parse_u64 [] = none
parse_u64 (c ∷ cs) = parse_magnitude (2 ^ 64 - 1) (if c == 43 then cs else c ∷ cs)

unfoldable pub parse_dream_purchase_key : Text → Option (ℕ × ℕ)
unfolding split_dash
parse_dream_purchase_key raw = elim (split_dash raw) [
  | none ↦ none
  | some (a, b) ↦ elim (parse_u64 a) [
    | none ↦ none
    | some m ↦ elim (parse_u64 b) [ none ↦ none | some i ↦ some (m, i) ]
  ]
]

-- The order by which the operations are sorted.
abbrev pub before : Operation → Operation → Bool
before a b = ltb a.merchant_id b.merchant_id || (a.merchant_id == b.merchant_id) && leb b.pos a.pos

unfoldable pub insert_operation : Operation → List Operation → List Operation
insert_operation a [] = a ∷ []
insert_operation a (b ∷ bs) =
    let rest = insert_operation a bs in if before a b then a ∷ b ∷ bs else b ∷ rest

-- `sort_by` is stable, and so is this.
unfoldable pub sort_operations : List Operation → List Operation
unfolding insert_operation
sort_operations [] = []
sort_operations (a ∷ as') = insert_operation a (sort_operations as')

pub record Counts : Type 0 where
  pub success : ℕ
  pub skipped : ℕ
  pub failed : ℕ

module _ {N : Type 0} (env : Env N) where
  abbrev pub is_item : ℕ → Option ℕ → Bool
  is_item i none = false
  is_item i (some j) = i == j

  -- The positions at which the merchant has the item.
  unfoldable pub positions : ℕ → ℕ → ℕ → Items N → List Operation
  positions m i pos no_items = []
  positions m i pos (item v vs) =
      let rest = positions m i (suc pos) vs in
      if is_item i (as_u64 env v)
      then record { merchant_id = m; item_index = i; pos = pos } ∷ rest
      else rest

  abbrev pub as_array : Value N → Option (Items N)
  as_array (array vs) = some vs
  as_array v = none

  -- What one key of the list asks for.
  unfoldable pub operations_of : JsonMap N → Text → List Operation
  unfolding parse_dream_purchase_key positions
  operations_of merchant key = elim (parse_dream_purchase_key key) [
    | none ↦ []
    | some (m, i) ↦ elim (and_then (get (shown m) merchant) as_array) [
      | none ↦ []
      | some vs ↦ positions m i 0 vs
    ]
  ]

  unfoldable pub collect_operations : JsonMap N → List Text → List Operation
  unfolding operations_of
  collect_operations merchant [] = []
  collect_operations merchant (key ∷ keys) =
      operations_of merchant key ++ collect_operations merchant keys

  abbrev count_answer : Answer N → Counts → Counts
  count_answer (ok resp) c = elim (field (codes "reward") resp) [
    | some r ↦ record c { success = c.success + 1 }
    | none ↦ record c { skipped = c.skipped + 1 }
  ]
  count_answer (err e) c =
      if is_done_result {N = N} (err e)
      then record c { skipped = c.skipped + 1 }
      else record c { failed = c.failed + 1 }

  abbrev pub purchase : Operation → Request N
  purchase op = dungeon_buymerchant (
      json (
        (codes "id", nat env.json op.merchant_id)
        ∷ (codes "index", nat env.json op.item_index)
        ∷ (codes "pos", nat env.json op.pos)
        ∷ []))

  module _ (server : Server N) where
    unfoldable pub buy_all : List Operation → Counts → M N TaskRun Counts
    buy_all [] c = pure c
    buy_all (op ∷ ops) c = do
      answer ← call server (purchase op)
      buy_all ops (count_answer answer c)

    abbrev summary_of : Counts → Text
    summary_of c =
        numbered (codes "dream_shopping (Success") c.success
          (numbered (codes " Skipped") c.skipped (numbered (codes " Failed") c.failed (codes ")")))

    unfoldable pub buy_operations : List Operation → Task N
    buy_operations [] = skip_report (codes "dream_shopping (no goods matching)")
    buy_operations (op ∷ ops) = do
      counts ←
          buy_all (sort_operations (op ∷ ops)) (record { success = 0; skipped = 0; failed = 0 })
      run_report (summary_of counts) (ok (json []))

    unfoldable pub buy_from : GameClient N → List Text → Value N → Task N
    buy_from self purchase_list role_info =
        if ltb (level_id env self) 1000
        then skip_report (codes "dream_shopping (level_id < 1000)")
        else match_option
            (and_then (env.pointer (codes "/role/dungeon/merchant") role_info) as_object)
            (λ merchant. buy_operations (collect_operations merchant purchase_list))
            (skip_report (codes "dream_shopping (no shop info)"))

    unfoldable pub run_dream_shop_daily : GameClient N → List Text → Task N
    run_dream_shop_daily self [] = skip_report (codes "dream_shopping (empty list)")
    run_dream_shop_daily self (key ∷ keys) = do
      answer ← call server (role_getroleinfo env.json)
      match_result answer (buy_from self (key ∷ keys))
          (fail_report (codes "dream_shopping (get role_info)"))
