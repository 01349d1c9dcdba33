-- ===== src/Kpi/Daily/Dream/Bought.antt =====
-- The requests by which `run_dream_shop_daily` of src/kpi.rs buys.
use mathlib.Core.List.{Perm}
use koc_core.Common.{◌≡◌, refl, sym, ◌∙◌, some, List, [], ◌∷◌, ◌++◌, map, append_assoc, append-nil}
use koc_core.Common.Codes.{codes}
use koc_core.Common.Results.{All}
use koc_core.Json.{Text, number, object, JsonMap}
use koc_core.Json.Maps.{get, insert, compare_text}
use koc_core.Kpi.Env.{Env}
use koc_core.Kpi.Request.{Request, cmd, cmd_with_timeout}
use koc_core.Kpi.Session.{Exchange, Server, Session, ◌>>=◌, call}
use koc_core.Kpi.Commands.Event.{dungeon_buymerchant}
use koc_core.Kpi.Daily.{TaskRun, run_report, skip_report}
use koc_core.Kpi.Daily.Dream.{
  Operation, Counts, sort_operations, collect_operations, purchase, buy_all, buy_operations,
}
use koc_core.Kpi.Daily.Dream.Sorted.{
  IsOrdered, sort_operations-IsOrdered, sort_operations-perm, All-sort_operations,
}
use koc_core.Kpi.Daily.Dream.Wanted.{IsWanted, collect_operations-IsWanted}

-- The requests of a session, the first one first.
abbrev pub requests : {N : Type 0} → List (Exchange N) → List (Request N)
requests [] = []
requests (e ∷ es) = requests es ++ e.request ∷ []

module _ {N : Type 0} (env : Env N) where
  -- The request buys what the operation says.
  abbrev pub Asks : Request N → Operation → Type 0
  Asks r op =
      (r.name ≡ codes "dungeon_buymerchant")
      × ((m : JsonMap N) × (r.params ≡ object m)
          × (get (codes "id") m ≡ some (number (env.json.from_u64 op.merchant_id)))
          × (get (codes "index") m ≡ some (number (env.json.from_u64 op.item_index)))
          × (get (codes "pos") m ≡ some (number (env.json.from_u64 op.pos))))

  abbrev pub AskAll : List (Request N) → List Operation → Type 0
  AskAll [] [] = Unit
  AskAll (r ∷ rs) (op ∷ ops) = Asks r op × AskAll rs ops
  AskAll rs ops = ⊥

  purchase-Asks : (op : Operation) → Asks (purchase env op) op
  unfolding dungeon_buymerchant cmd cmd_with_timeout insert get compare_text
  purchase-Asks op = (refl, (_, refl, refl, refl, refl))

  map-AskAll : (ops : List Operation) → AskAll (map (purchase env) ops) ops
  map-AskAll [] = tt
  map-AskAll (op ∷ ops) = (purchase-Asks op, map-AskAll ops)

  module _ (server : Server N) where
    buy_all-requests :
        (ops : List Operation) (c : Counts) (s : Session N TaskRun)
        → requests (buy_all env server ops c s).1.sent ≡ requests s.sent ++ map (purchase env) ops
    unfolding buy_all ◌>>=◌ call
    buy_all-requests [] c s = sym (append-nil _)
    buy_all-requests (op ∷ ops) c s =
        buy_all-requests ops _ _
        ∙ append_assoc (requests s.sent) (purchase env op ∷ []) (map (purchase env) ops)

    buy_operations-requests :
        (ops : List Operation) (s : Session N TaskRun)
        → requests (buy_operations env server ops s).1.sent
          ≡ requests s.sent ++ map (purchase env) (sort_operations ops)
    unfolding buy_operations ◌>>=◌ run_report skip_report
    buy_operations-requests [] s = unfold sort_operations in sym (append-nil _)
    buy_operations-requests (op ∷ ops) s = buy_all-requests (sort_operations (op ∷ ops)) _ s

    -- The purchases by a list of keys from the merchants' goods: the requests that are added buy,
    -- one each, the operations that are collected from the list, a merchant with a smaller number
    -- first, and at one merchant the later positions first. Each of them is for a merchant and an
    -- item that a key of the list names, at a position at which that merchant has that item.
    pub buy_operations-IsWanted :
        (merchant : JsonMap N) (keys : List Text) (s : Session N TaskRun)
        → let collected = collect_operations env merchant keys in
          (rs : List (Request N)) × (ops : List Operation) × (requests
              (buy_operations env server collected s).1.sent
            ≡ requests s.sent ++ rs)
          × AskAll rs ops
          × Perm ops collected
          × IsOrdered ops
          × All (IsWanted env merchant keys) ops
    buy_operations-IsWanted merchant keys s =
        let collected = collect_operations env merchant keys in
        (
          map (purchase env) (sort_operations collected),
          sort_operations collected,
          buy_operations-requests collected s,
          map-AskAll (sort_operations collected),
          sort_operations-perm collected,
          sort_operations-IsOrdered collected,
          All-sort_operations (IsWanted env merchant keys) collected
              (collect_operations-IsWanted env merchant keys keys (λ k h. h)),
        )
