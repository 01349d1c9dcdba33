-- ===== src/Kpi/Daily.antt =====
-- The daily tasks of src/kpi.rs: the flags of a role's state that a run sets, and the macro
-- `do_task!`, which runs one task.
pub mod Fights
pub mod Main
pub mod Dream
pub mod Extra
pub mod Run
pub mod Vehicles
pub mod Keeps
pub mod Kept
pub mod Whole
pub mod Order
pub mod Evidence
pub mod Gives
pub mod Sets
pub mod AllDone
use koc_core.Common.{ℕ, Bool, true}
use koc_core.Json.{Text}
use koc_core.State.{RoleDailyState, RolePeriodicState}
use koc_core.ErrorCodes.{is_done_result}
use koc_core.Kpi.Request.{Request}
use koc_core.Kpi.Session.{if◌then◌else◌, Answer, Server, M, ◌>>=◌, ◌>>◌, pure, gets, modify, call}
use koc_core.Kpi.Report.{DailyTaskReport, run, skip, fail}

-- The fields that are set when a task is done.
pub data Flag : Type 0 where
  signin : Flag
  buy_gold : Flag
  share : Flag
  friend_gift : Flag
  recruit : Flag
  hangup_reward : Flag
  open_box : Flag
  store_purchase : Flag
  arena : Flag
  bottle_task : Flag
  boss : Flag
  legion_boss : Flag
  legion_signin : Flag
  artifact : Flag
  genie : Flag
  gacha : Flag
  discount : Flag
  card : Flag
  collection : Flag
  task_rewards : Flag
  mail : Flag
  nightmare : Flag
  dream_shop : Flag

-- The variables that a run changes.
pub record TaskRun : Type 0 where
  pub daily : RoleDailyState ℕ
  pub periodic : RolePeriodicState ℕ
  pub report : DailyTaskReport

unfoldable pub is_set : Flag → RoleDailyState ℕ → Bool
is_set signin d = d.signin
is_set buy_gold d = d.buy_gold
is_set share d = d.share
is_set friend_gift d = d.friend_gift
is_set recruit d = d.recruit
is_set hangup_reward d = d.hangup_reward
is_set open_box d = d.open_box
is_set store_purchase d = d.store_purchase
is_set arena d = d.arena
is_set bottle_task d = d.bottle_task
is_set boss d = d.boss
is_set legion_boss d = d.legion_boss
is_set legion_signin d = d.legion_signin
is_set artifact d = d.artifact
is_set genie d = d.genie
is_set gacha d = d.gacha
is_set discount d = d.discount
is_set card d = d.card
is_set collection d = d.collection
is_set task_rewards d = d.task_rewards
is_set mail d = d.mail
is_set nightmare d = d.nightmare
is_set dream_shop d = d.dream_shop

unfoldable pub mark : Flag → RoleDailyState ℕ → RoleDailyState ℕ
mark signin d = record d { signin = true }
mark buy_gold d = record d { buy_gold = true }
mark share d = record d { share = true }
mark friend_gift d = record d { friend_gift = true }
mark recruit d = record d { recruit = true }
mark hangup_reward d = record d { hangup_reward = true }
mark open_box d = record d { open_box = true }
mark store_purchase d = record d { store_purchase = true }
mark arena d = record d { arena = true }
mark bottle_task d = record d { bottle_task = true }
mark boss d = record d { boss = true }
mark legion_boss d = record d { legion_boss = true }
mark legion_signin d = record d { legion_signin = true }
mark artifact d = record d { artifact = true }
mark genie d = record d { genie = true }
mark gacha d = record d { gacha = true }
mark discount d = record d { discount = true }
mark card d = record d { card = true }
mark collection d = record d { collection = true }
mark task_rewards d = record d { task_rewards = true }
mark mail d = record d { mail = true }
mark nightmare d = record d { nightmare = true }
mark dream_shop d = record d { dream_shop = true }

abbrev pub Task : Type 0 → Type 0
Task N = M N TaskRun (Unit {0})

module _ {N : Type 0} where
  -- `report.run`, `report.skip` and `report.fail`, with a prefix or without
  unfoldable pub run_report : Text → Answer N → Task N
  run_report name answer = modify (λ v. record v { report = run name answer v.report })

  unfoldable pub skip_report : Text → Task N
  skip_report name = modify (λ v. record v { report = skip name v.report })

  unfoldable pub fail_report : Text → Text → Task N
  fail_report name e = modify (λ v. record v { report = fail name e v.report })

  -- `daily.flag = true;`
  unfoldable pub set_flag : Flag → Task N
  set_flag f = modify (λ v. record v { daily = mark f v.daily })

  -- `if b { daily.flag = true; }`
  unfoldable pub set_flag_if : Bool → Flag → Task N
  set_flag_if b f = if b then set_flag f else pure tt

  -- `daily.car_send_done = true;` and the time of the next claim
  unfoldable pub set_car_sent : ℕ → Task N
  set_car_sent t =
      modify
        (λ v. record v { daily = record v.daily { car_send_done = true; next_car_claim_time = t } })

  abbrev pub flag_state : Flag → M N TaskRun Bool
  flag_state f = gets (λ v. is_set f v.daily)

  -- A request whose answer is reported.
  unfoldable pub report_call : Server N → Text → Request N → M N TaskRun (Answer N)
  report_call server name request = do
    answer ← call server request
    run_report name answer
    pure answer

  -- The macro `do_task!`
  unfoldable pub do_task : Server N → Flag → Text → Request N → Task N
  do_task server f name request = do
    done ← flag_state f
    if done
        then skip_report name
        else do answer ← report_call server name request; set_flag_if (is_done_result answer) f
