-- ===== src/Kpi/Cars.antt =====
-- The vehicles' helper functions in src/kpi.rs: how the list of cars is read, and what a car's
-- rewards and times decide.
use koc_core.Common.{
  ℕ, ◌+◌, ◌-◌, ◌*◌, ◌%◌, ◌^◌, ◌==◌, Bool, false, ◌&&◌, ◌||◌, Option, none, some, List, [], ◌∷◌, ltb,
  leb, if◌then◌else◌,
}
use koc_core.Common.Codes.{codes, utf8}
use koc_core.Common.Int.{ℤ, pos, ℤ_eq}
use koc_core.Json.{Text, Value, null, Items, no_items, item, JsonMap, no_entries, entry}
use koc_core.Protocol.Message.{and_then, as_object, unwrap_or}
use koc_core.Kpi.Env.{Env, to_u32, or_else, field, as_i64, as_u64}
use koc_core.Kpi.Daily.Dream.{as_array}

-- The tuple of `normalize_car_list`.
pub record Car (N : Type 0) : Type 0 where
  pub car_id : Text
  pub color : ℕ
  pub send_at : ℕ
  pub refresh_count : ℕ
  pub rewards : Items N
  pub helper_id : ℕ

-- The type, the item and the least amount.
record Prize : Type 0 where
  prize_type : ℕ
  prize_item : ℕ
  prize_value : ℕ

abbrev prize : ℕ → ℕ → ℕ → Prize
prize t i v = record { prize_type = t; prize_item = i; prize_value = v }

abbrev big_prizes : List Prize
big_prizes =
    prize 3 3201 10
    ∷ prize 3 1001 10
    ∷ prize 3 1022 2000
    ∷ prize 2 0 2000
    ∷ prize 3 1023 5
    ∷ prize 3 1022 2500
    ∷ prize 3 1001 12
    ∷ []

abbrev pub car_research_costs : List ℕ
car_research_costs =
    20 ∷ 21 ∷ 22 ∷ 23 ∷ 24 ∷ 26 ∷ 28 ∷ 30 ∷ 32 ∷ 34 ∷ 36 ∷ 38 ∷ 40 ∷ 42 ∷ 44 ∷ 47 ∷ 50 ∷ 53 ∷ 56
    ∷ 59 ∷ 62 ∷ 65 ∷ 68 ∷ 71 ∷ 74 ∷ 78 ∷ 82 ∷ 86 ∷ 90 ∷ 94 ∷ 99 ∷ 104 ∷ 109 ∷ 114 ∷ 119 ∷ 126 ∷ 133
    ∷ 140 ∷ 147 ∷ 154 ∷ 163 ∷ 172 ∷ 181 ∷ 190 ∷ 199 ∷ 210 ∷ 221 ∷ 232 ∷ 243 ∷ 369 ∷ 393 ∷ 422 ∷ 457
    ∷ 498 ∷ 548 ∷ 607 ∷ 678 ∷ 763 ∷ 865 ∷ 1011 ∷ []

unfoldable pub grade_label : ℕ → Text
grade_label color =
    if color == 1
    then utf8 "Green · Common"
    else if color == 2
    then utf8 "Blue · Rare"
    else if color == 3
    then utf8 "Purple · Epic"
    else if color == 4
    then utf8 "Orange · Legend"
    else if color == 5
    then utf8 "Red · Mythic"
    else if color == 6
    then utf8 "Gold · Legendary"
    else codes "Unknown"

module _ {N : Type 0} (env : Env N) where
  abbrev pub u64_at : Text → Value N → ℕ
  u64_at k v = unwrap_or (and_then (field k v) (as_u64 env)) 0

  -- `as u32`
  abbrev pub u32_at : Text → Value N → ℕ
  u32_at k v = u64_at k v % 2 ^ 32

  -- `as i32`, as the `u32` of the same bits
  abbrev i32_field : Text → Value N → ℕ
  i32_field k v = to_u32 (unwrap_or (and_then (field k v) (as_i64 env)) (pos 0))

  abbrev wins_any : Value N → List Prize → Bool
  wins_any r [] = false
  wins_any r (p ∷ ps) =
      (i32_field (codes "type") r == p.prize_type)
        && ((i32_field (codes "itemId") r == p.prize_item)
            && leb p.prize_value (u32_at (codes "value") r))
      || wins_any r ps

  unfoldable pub is_big_prize : Items N → Bool
  is_big_prize no_items = false
  is_big_prize (item r rs) = wins_any r big_prizes || is_big_prize rs

  abbrev is_some_i64 : ℤ → Option ℤ → Bool
  is_some_i64 i none = false
  is_some_i64 i (some j) = ℤ_eq i j

  unfoldable pub has_refresh_ticket : Items N → Bool
  has_refresh_ticket no_items = false
  has_refresh_ticket (item r rs) =
      is_some_i64 (pos 3) (and_then (field (codes "type") r) (as_i64 env))
        && (is_some_i64 (pos 35002) (and_then (field (codes "itemId") r) (as_i64 env))
            && ltb 0 (u64_at (codes "value") r))
      || has_refresh_ticket rs

  -- What a car is sent for: on Wednesday the great prizes only.
  unfoldable pub should_send : Bool → Items N → Bool
  unfolding is_big_prize has_refresh_ticket
  should_send is_wed rewards =
      if is_wed then is_big_prize rewards else has_refresh_ticket rewards || is_big_prize rewards

  unfoldable pub car_of : Text → Value N → Car N
  car_of id info = record {
    car_id = id;
    color = u32_at (codes "color") info;
    send_at = u64_at (codes "sendAt") info;
    refresh_count = u32_at (codes "refreshCount") info;
    rewards = unwrap_or (and_then (field (codes "rewards") info) (as_array env)) no_items;
    helper_id = u64_at (codes "helperId") info;
  }

  unfoldable pub cars_of : JsonMap N → List (Car N)
  unfolding car_of
  cars_of no_entries = []
  cars_of (entry id info m) = car_of id info ∷ cars_of m

  unfoldable pub normalize_car_list : Value N → List (Car N)
  unfolding cars_of
  normalize_car_list resp =
      let root = unwrap_or (field (codes "body") resp) resp in
      let role_car =
        unwrap_or (or_else (field (codes "roleCar") root) (field (codes "rolecar") root)) null in
      let car_map =
        or_else (field (codes "carDataMap") role_car) (field (codes "cardatamap") role_car) in
      elim (and_then car_map as_object) [ none ↦ [] | some m ↦ cars_of m ]

  -- Four hours after the car was sent. A time below 10^12 is in seconds.
  unfoldable pub can_claim_car : ℕ → Bool
  can_claim_car send_at =
      if send_at == 0
      then false
      else leb 14400000
          (env.now_ms - (if ltb send_at 1000000000000 then send_at * 1000 else send_at))

  -- `num_days_from_monday`
  abbrev pub days_from_monday : ℕ
  days_from_monday = (env.days_from_sunday + 6) % 7

  unfoldable pub is_car_send_window : Bool
  is_car_send_window = leb days_from_monday 2 && ltb env.hour 20
