-- ===== src/Kpi/Daily/Vehicles/Helpers.antt =====
-- The helpers of the cars in `smart_send_car` of src/kpi.rs.
use koc_core.Common.{ℕ, suc, ◌%◌, ◌^◌, Bool, false, Option, none, some, List, [], ◌∷◌, ltb, leb}
use mathlib.Core.Bool.{cond}
use koc_core.Common.Codes.{codes}
use koc_core.Common.Results.{ok, err}
use koc_core.Json.{Text, Value, JsonMap, no_entries, entry}
use koc_core.Protocol.Message.{and_then, unwrap_or, as_object}
use koc_core.Bon.Encoder.{text_eq}
use koc_core.Capture.Tree.{get, modify, or_insert}
use koc_core.Kpi.Env.{Env, or_else, field, as_u64}
use koc_core.Kpi.Session.{Answer}
use koc_core.Kpi.Cars.{u64_at}
use koc_core.Kpi.Daily.Dream.{parse_u64}
use koc_core.Kpi.Daily.Fights.{shown}

-- A member of the club: the id, and how many red quenches the member has. The name is only logged.
pub record Helper : Type 0 where
  pub id : Text
  pub red_quench : ℕ

-- `sort_by(|a, b| b.2.cmp(&a.2))`, which is stable
unfoldable pub insert_helper : Helper → List Helper → List Helper
insert_helper a [] = a ∷ []
insert_helper a (b ∷ bs) =
    let rest = insert_helper a bs in cond (leb b.red_quench a.red_quench) (a ∷ b ∷ bs) (b ∷ rest)

unfoldable pub sort_helpers : List Helper → List Helper
unfolding insert_helper
sort_helpers [] = []
sort_helpers (a ∷ as') = insert_helper a (sort_helpers as')

-- The first helper that has helped fewer than four times.
unfoldable pub best_helper : List (Text × ℕ) → List Helper → Option Helper
best_helper m [] = none
best_helper m (h ∷ hs) = cond (ltb (unwrap_or (get h.id m) 0) 4) (some h) (best_helper m hs)

-- `*helper_map.entry(id).or_insert(0) += 1`
unfoldable pub count_help : Text → List (Text × ℕ) → List (Text × ℕ)
count_help id m = modify id suc (or_insert id 0 m)

-- The helper of a car, 0 for none: a car has one from the fifth grade on.
unfoldable pub assign_helper : ℕ → List Helper → List (Text × ℕ) → ℕ × List (Text × ℕ)
unfolding best_helper count_help
assign_helper color helpers m = elim (cond (leb 5 color) (best_helper m helpers) none) [
  | none ↦ (0, m)
  | some h ↦ (unwrap_or (parse_u64 h.id) 0, count_help h.id m)
]

module _ {N : Type 0} (env : Env N) where
  -- The members other than the role itself. `id.to_string() != *rid` compares the decimals.
  abbrev is_self : Option Text → Value N → Bool
  is_self none m = false
  is_self (some rid) m = elim (and_then (field (codes "roleId") m) (as_u64 env)) [
    | none ↦ false
    | some id ↦ text_eq (shown id) rid
  ]

  unfoldable pub helpers_of : Option Text → JsonMap N → List Helper
  helpers_of rid no_entries = []
  helpers_of rid (entry k m ms) =
      let rest = helpers_of rid ms in
      cond (is_self rid m) rest (
        record {
          id = shown (u64_at env (codes "roleId") m);
          red_quench =
              unwrap_or (and_then (env.pointer (codes "/custom/red_quench_cnt") m) (as_u64 env)) 0
              % 2 ^ 32;
        }
        ∷ rest)

  unfoldable pub helping_counts : JsonMap N → List (Text × ℕ)
  helping_counts no_entries = []
  helping_counts (entry k v m) = (k, unwrap_or (as_u64 env v) 0 % 2 ^ 32) ∷ helping_counts m

  abbrev pub helper_map_of : Answer N → List (Text × ℕ)
  helper_map_of (err e) = []
  helper_map_of (ok usage) = elim (and_then (field (codes "memberHelpingCntMap") usage) as_object) [
    | none ↦ []
    | some m ↦ helping_counts m
  ]

  abbrev pub sorted_helpers_of : Option Text → Answer N → List Helper
  sorted_helpers_of rid (err e) = []
  sorted_helpers_of rid (ok legion) =
      elim (and_then
        (or_else (env.pointer (codes "/info/members") legion)
          (env.pointer (codes "/body/info/members") legion))
        as_object) [ none ↦ [] | some m ↦ sort_helpers (helpers_of rid m) ]

  abbrev pub current_role_id : Answer N → Option Text
  current_role_id (err e) = none
  current_role_id (ok info) =
      elim (and_then (env.pointer (codes "/role/roleId") info) (as_u64 env)) [
        | none ↦ none
        | some id ↦ some (shown id)
      ]
