-- ===== src/Kpi/Tests.antt =====
-- Runs of the daily tasks at concrete servers, and the theorems of src/kpi.rs at concrete values.
use mathlib.Core.List.{Perm}
use koc_core.Common.{
  map, ◌++◌, arith, ℕ, ◌+◌, ◌/◌, ◌-◌, ◌*◌, ◌^◌, ◌≤◌, ◌≡◌, refl, true, false, Option, none, some,
  List, [], ◌∷◌, ◌⊎◌, ◌↔◌, ltb, leb,
}
use koc_core.Common.Codes.{codes}
use koc_core.Common.Int.{pos}
use koc_core.Common.Results.{ok, err, All}
use koc_core.Json.{
  Text, Value, JsonMap, array, item, no_items, null, number, object, no_entries, entry,
}
use koc_core.Json.Sample.{Num, whole, sample_lib}
use koc_core.ErrorCodes.{is_done_result, parse_digits, digits}
use koc_core.State.{RoleDailyState, default_daily, default_periodic, all_done, ensure_today}
use koc_core.State.Periodic.{F64}
use koc_core.Kpi.Env.{Env}
use koc_core.Kpi.Request.{GameClient, Request}
use koc_core.Kpi.Session.{Exchange, Server, Session, if◌then◌else◌, ◌>>=◌}
use koc_core.Kpi.Report.{new_report}
use koc_core.Kpi.Status.{get_daily_task_status}
use koc_core.Kpi.Daily.{Flag, TaskRun, is_set, report_call, run_report}
use koc_core.Kpi.Daily.Keeps.{Justified}
use koc_core.Kpi.Daily.Run.{DailyTaskConfig, run_daily_tasks_stateful}
use koc_core.Kpi.Daily.Evidence.{
  today_of, run_daily_tasks_stateful-keeps, run_daily_tasks_stateful-Justified,
}
use koc_core.Kpi.Daily.Dream.{
  Operation, insert_operation, sort_operations, buy_operations, collect_operations, operations_of,
  positions, parse_dream_purchase_key, split_dash,
}
use koc_core.Kpi.Daily.Dream.Sorted.{IsOrdered}
use koc_core.Kpi.Daily.Dream.Wanted.{IsWanted, IsIn, collect_operations_iff}
use koc_core.Kpi.Daily.Dream.Bought.{requests, AskAll, buy_operations-IsWanted}
use koc_core.Kpi.Commands.Event.{car_send, car_refresh, car_getmemberhelpingcnt, car_getrolecar}
use koc_core.Kpi.Commands.Account.{role_getroleinfo}
use koc_core.Kpi.Commands.Club.{legion_getinfo}
use koc_core.Kpi.Cars.{is_car_send_window, normalize_car_list}
use koc_core.Json.Maps.{get, compare_text}
use koc_core.Kpi.Daily.Vehicles.Sending.{
  refreshed, smart_send_car, send_from, send_list, send_cars, send_one, refresh_loop, after_refresh,
}
use koc_core.Kpi.Daily.Vehicles.Rounds.{IsCounted, run_daily_tasks_stateful-returns}
use koc_core.Kpi.Daily.AllDone.{run_daily_tasks_stateful-all_done}

-- Whole numbers in place of floats.
abbrev whole_float : F64 ℕ
whole_float = record {
  zero = 0;
  hour = 3600;
  le = leb;
  lt = ltb;
  minus = λ a b. a - b;
  times = λ a b. a * b;
}

-- A pointer finds nothing but the whole value.
abbrev root_only : Text → Value Num → Option (Value Num)
root_only [] v = some v
root_only (c ∷ cs) v = none

abbrev sample_env : Env Num
sample_env = record {
  json = sample_lib;
  pointer = root_only;
  float = whole_float;
  truncate = pos;
  local_date = λ t. none;
  today = 0;
  date = codes "2026-01-05";
  days_from_sunday = 1;
  hour = 9;
  now = 1000;
  now_ms = 1000000;
  now_secs = 1000;
  today_start = 0;
  from_nat = λ n. n;
  plus = λ a b. a + b;
  divide = λ a b. a / b;
}

abbrev accepting : Server Num
accepting es r = ok null

abbrev fresh : Session Num TaskRun
fresh = record {
  sent = [];
  vars = record { daily = default_daily 0; periodic = default_periodic 0; report = new_report };
}

abbrev client : GameClient Num
client = record { role_info = some (object no_entries); battle_version = none }

abbrev config : DailyTaskConfig
config = record { formations = none; dream_shop = none; gacha_enabled = true; car_enabled = true }

accepting-done :
    (es : List (Exchange Num)) (r : Request Num) → is_done_result (accepting es r) ≡ true
unfolding is_done_result
accepting-done es r = refl

run_daily_tasks_stateful-all_done_example :
    all_done (run_daily_tasks_stateful sample_env accepting 3 client config fresh).1.vars.daily
    ≡ true
run_daily_tasks_stateful-all_done_example =
    run_daily_tasks_stateful-all_done sample_env accepting accepting-done 3 client config fresh

-- The mail flag is among those of `all_done`.
all_done-mail : (d : RoleDailyState ℕ) → all_done d ≡ true → is_set Flag.mail d ≡ true
unfolding all_done is_set
all_done-mail d h = ground arith

-- No request is answered, and the game is shared already.
abbrev failing : Server Num
failing es r = err (codes "timeout")

abbrev shared_today : Session Num TaskRun
shared_today = record fresh {
  vars = record fresh.vars {
    daily = record (default_daily 0) { date = some (codes "2026-01-05"); share = true };
  };
}

share_today : is_set Flag.share (today_of sample_env failing shared_today.vars.daily) ≡ true
unfolding is_set ensure_today
share_today = refl

run_daily_tasks_stateful-keeps_example :
    is_set Flag.share
      (run_daily_tasks_stateful sample_env failing 3 client config shared_today).1.vars.daily
    ≡ true
run_daily_tasks_stateful-keeps_example =
    run_daily_tasks_stateful-keeps sample_env failing 3 client config Flag.share shared_today
      share_today

run_daily_tasks_stateful-Justified_example :
    (is_set Flag.mail (today_of sample_env accepting fresh.vars.daily) ≡ true)
    ⊎ Justified
        (get_daily_task_status sample_env client)
        Flag.mail
        (run_daily_tasks_stateful sample_env accepting 3 client config fresh).1.sent
run_daily_tasks_stateful-Justified_example =
    run_daily_tasks_stateful-Justified sample_env accepting 3 client config Flag.mail fresh
      (all_done-mail _ run_daily_tasks_stateful-all_done_example)

-- One car, which is not sent yet; an answer to a refresh counts it.
abbrev one_car : Value Num
one_car = object (
    entry (codes "carDataMap") (object (entry (codes "7") (object no_entries) no_entries))
      no_entries)

abbrev counting : Server Num
counting es r = ok (
    object (
      entry (codes "refreshCount") (number (whole (pos 1)))
        (entry (codes "roleCar") one_car no_entries)))

counting-IsCounted :
    (es : List (Exchange Num)) (id : Text) → IsCounted sample_env (counting es (car_refresh id))
unfolding refreshed get compare_text
counting-IsCounted es id c = refl

enough : 2 ^ 32 + 1 ≤ 2 ^ 32 + 1
enough = omega arith

run_daily_tasks_stateful-returns_example :
    (run_daily_tasks_stateful sample_env counting (2 ^ 32 + 1) client config fresh).0 ≡ true
run_daily_tasks_stateful-returns_example =
    run_daily_tasks_stateful-returns sample_env counting counting-IsCounted (2 ^ 32 + 1) client
      config fresh enough

-- The car is refreshed once and then sent; without the count the refreshes go on.
abbrev names : Session Num TaskRun → List Text
names s = map (λ e. e.request.name) s.sent

car_sent : names (smart_send_car sample_env counting 3 fresh).1 ≡ (
    codes "car_send"
    ∷ codes "car_refresh"
    ∷ codes "legion_getinfo"
    ∷ codes "car_getmemberhelpingcnt"
    ∷ codes "role_getroleinfo"
    ∷ codes "car_getrolecar"
    ∷ [])
unfolding smart_send_car if◌then◌else◌ is_car_send_window ◌>>=◌ send_from normalize_car_list get
    compare_text send_list send_cars send_one refresh_loop after_refresh report_call run_report
    car_send car_refresh legion_getinfo car_getmemberhelpingcnt role_getroleinfo car_getrolecar
car_sent = refl

abbrev uncounting : Server Num
uncounting es r = ok (object (entry (codes "roleCar") one_car no_entries))

car_not_sent : (smart_send_car sample_env uncounting 3 fresh).0 ≡ false
unfolding smart_send_car if◌then◌else◌ is_car_send_window ◌>>=◌ send_from normalize_car_list get
    compare_text send_list send_cars send_one refresh_loop after_refresh
car_not_sent = refl

-- Merchant 1 has the item 3 at the positions 0 and 2, merchant 2 the item 5 at 0.
abbrev merchant : JsonMap Num
merchant =
    entry (codes "1")
      (array (
        item (number (whole (pos 3)))
          (item (number (whole (pos 4))) (item (number (whole (pos 3))) no_items))))
      (entry (codes "2") (array (item (number (whole (pos 5))) no_items)) no_entries)

abbrev wanted : List Text
wanted = codes "2-5" ∷ codes "1-3" ∷ codes "1-7" ∷ codes "x" ∷ []

buy_operations-IsWanted_example :
    (rs : List (Request Num)) × (ops : List Operation) × (requests
        (buy_operations sample_env accepting
          (collect_operations sample_env merchant wanted)
          fresh).1.sent
      ≡ requests fresh.sent ++ rs)
    × AskAll sample_env rs ops
    × Perm ops (collect_operations sample_env merchant wanted)
    × IsOrdered ops
    × All (IsWanted sample_env merchant wanted) ops
buy_operations-IsWanted_example = buy_operations-IsWanted sample_env accepting merchant wanted fresh

abbrev second_find : Operation
second_find = record { merchant_id = 1; item_index = 3; pos = 2 }

collect_operations_iff_example :
    IsIn second_find (collect_operations sample_env merchant wanted)
    ↔ IsWanted sample_env merchant wanted second_find
collect_operations_iff_example = collect_operations_iff sample_env merchant wanted second_find

-- Merchant 1 comes first, with the later position.
goods_sorted :
    map (λ o. o.pos) (sort_operations (collect_operations sample_env merchant wanted))
    ≡ 2 ∷ 0 ∷ 0 ∷ []
unfolding sort_operations insert_operation collect_operations operations_of positions
    parse_dream_purchase_key split_dash get compare_text parse_digits digits
goods_sorted = refl
