-- ===== src/Kpi/Status.antt =====
-- What src/kpi.rs reads from the information on a role: the state of the daily tasks, and of the
-- hangup.
use koc_core.Common.{
  ℕ, ◌-◌, ◌^◌, ◌==◌, Bool, true, false, not, Option, none, some, [], ◌∷◌, if◌then◌else◌,
}
use koc_core.Common.Codes.{codes}
use koc_core.Common.Int.{ℤ, negsuc, ℤ_eq}
use koc_core.Json.{Text, Value, JsonMap, no_entries, entry}
use koc_core.Protocol.Message.{and_then, as_object, unwrap_or}
use koc_core.ErrorCodes.{parse_magnitude}
use koc_core.Kpi.Request.{GameClient}
use koc_core.Kpi.Env.{Env, to_u32, or_else, field, as_i64, as_u64, as_f64, pointer_or}

pub record HangUpStatus : Type 0 where
  pub last_time : ℕ
  pub hangup_time : ℕ
  pub remaining : ℕ
  pub elapsed : ℕ
  pub is_active : Bool

pub record DailyTaskStatus : Type 0 where
  pub login : Bool
  pub share : Bool
  pub friend_gift : Bool
  pub recruit : Bool
  pub hangup_reward : Bool
  pub buy_gold : Bool
  pub open_box : Bool
  pub store_purchase : Bool
  pub arena : Bool
  pub bottle : Bool
  pub legion_boss_done : ℕ
  pub arena_done_today : ℕ
  pub buy_gold_today : Bool
  pub artifact_lottery_today : Bool
  pub genie_1_today : Bool
  pub genie_2_today : Bool
  pub genie_3_today : Bool
  pub genie_4_today : Bool
  pub gacha_today : Bool

abbrev pub default_status : DailyTaskStatus
default_status = record {
  login = false;
  share = false;
  friend_gift = false;
  recruit = false;
  hangup_reward = false;
  buy_gold = false;
  open_box = false;
  store_purchase = false;
  arena = false;
  bottle = false;
  legion_boss_done = 0;
  arena_done_today = 0;
  buy_gold_today = false;
  artifact_lottery_today = false;
  genie_1_today = false;
  genie_2_today = false;
  genie_3_today = false;
  genie_4_today = false;
  gacha_today = false;
}

-- `k.parse::<u32>().unwrap_or(0)`
abbrev parse_task_id : Text → ℕ
parse_task_id [] = 0
parse_task_id (c ∷ cs) = unwrap_or (parse_magnitude (2 ^ 32 - 1) (if c == 43 then cs else c ∷ cs)) 0

-- The `match task_id`.
unfoldable pub complete_task : ℕ → Bool → DailyTaskStatus → DailyTaskStatus
complete_task task_id done s =
    if task_id == 1
    then record s { login = done }
    else if task_id == 2
    then record s { share = done }
    else if task_id == 3
    then record s { friend_gift = done }
    else if task_id == 4
    then record s { recruit = done }
    else if task_id == 5
    then record s { hangup_reward = done }
    else if task_id == 6
    then record s { buy_gold = done }
    else if task_id == 7
    then record s { open_box = done }
    else if task_id == 12
    then record s { store_purchase = done }
    else if task_id == 13
    then record s { arena = done }
    else if task_id == 14
    then record s { bottle = done }
    else s

module _ {N : Type 0} (env : Env N) where
  abbrev timestamp : Value N → Option ℤ
  timestamp v = or_else (as_i64 env v) (and_then (as_f64 env v) (λ f. some (env.truncate f)))

  -- The local day of the timestamp is not today.
  unfoldable pub is_today_available : Option (Value N) → Bool
  is_today_available ts = elim (and_then ts timestamp) [
    | none ↦ true
    | some t ↦ elim (env.local_date t) [ none ↦ true | some d ↦ not (env.today == d) ]
  ]

  abbrev is_minus_one : Option ℤ → Bool
  is_minus_one none = false
  is_minus_one (some i) = ℤ_eq i (negsuc 0)

  -- The loop over the entries of `complete`.
  unfoldable pub complete_tasks : JsonMap N → DailyTaskStatus → DailyTaskStatus
  unfolding complete_task
  complete_tasks no_entries s = s
  complete_tasks (entry k v m) s =
      complete_tasks m (complete_task (parse_task_id k) (is_minus_one (as_i64 env v)) s)

  unfoldable pub read_complete : Option (Value N) → DailyTaskStatus → DailyTaskStatus
  unfolding complete_tasks
  read_complete complete s = elim (and_then complete as_object) [
    | none ↦ s
    | some obj ↦ complete_tasks obj s
  ]

  abbrev count_or : Option (Value N) → ℕ → ℕ
  count_or v old = elim (and_then v (as_i64 env)) [ none ↦ old | some i ↦ to_u32 i ]

  unfoldable pub read_statistics : Option (Value N) → DailyTaskStatus → DailyTaskStatus
  read_statistics none s = s
  read_statistics (some stats) s = record s {
    legion_boss_done = count_or (field (codes "legion:boss") stats) s.legion_boss_done;
    arena_done_today = count_or (field (codes "area:arena:last") stats) s.arena_done_today;
  }

  unfoldable pub read_times :
      Option (Value N) → Option (Value N) → DailyTaskStatus → DailyTaskStatus
  unfolding is_today_available
  read_times statistics none s = s
  read_times statistics (some st) s =
      let available = λ (k : Text). is_today_available (field k st) in
      record s {
        buy_gold_today = not (available (codes "buy:gold"));
        artifact_lottery_today = not (available (codes "artifact:normal:lottery:time"));
        genie_1_today = not (available (codes "genie:daily:free:1"));
        genie_2_today = not (available (codes "genie:daily:free:2"));
        genie_3_today = not (available (codes "genie:daily:free:3"));
        genie_4_today = not (available (codes "genie:daily:free:4"));
        gacha_today = not (
            is_today_available (
              or_else (field (codes "gacha:free") st)
                (and_then statistics (field (codes "gacha:free")))));
        legion_boss_done = if available (codes "legion:boss") then 0 else s.legion_boss_done;
        arena_done_today = if available (codes "area:arena:last") then 0 else s.arena_done_today;
      }

  unfoldable pub get_daily_task_status : GameClient N → DailyTaskStatus
  unfolding read_complete read_statistics read_times
  get_daily_task_status self = elim self.role_info [
    | none ↦ default_status
    | some info ↦
        let complete =
          (pointer_or env) (codes "/role/dailyTask/complete") (codes "/dailyTask/complete") info in
        let statistics = pointer_or env (codes "/role/statistics") (codes "/statistics") info in
        let times = pointer_or env (codes "/role/statisticsTime") (codes "/statisticsTime") info in
        read_times statistics times
          (read_statistics statistics (read_complete complete default_status))
  ]

  unfoldable pub level_id : GameClient N → ℕ
  level_id self =
      unwrap_or
        (and_then
          (and_then self.role_info (pointer_or env (codes "/role/levelId") (codes "/levelId")))
          (as_u64 env))
        0

  abbrev default_hangup : HangUpStatus
  default_hangup = record {
    last_time = env.float.zero;
    hangup_time = env.float.zero;
    remaining = env.float.zero;
    elapsed = env.float.zero;
    is_active = false;
  }

  abbrev float_field : Text → Value N → ℕ
  float_field k obj = unwrap_or (and_then (field k obj) (as_f64 env)) env.float.zero

  unfoldable pub hangup_at : ℕ → ℕ → HangUpStatus
  hangup_at last_time hangup_time =
      let elapsed = env.float.minus env.now last_time in
      if env.float.le elapsed hangup_time
      then record {
        last_time = last_time;
        hangup_time = hangup_time;
        remaining = env.float.minus hangup_time elapsed;
        elapsed = elapsed;
        is_active = true;
      }
      else record {
        last_time = last_time;
        hangup_time = hangup_time;
        remaining = env.float.zero;
        elapsed = hangup_time;
        is_active = false;
      }

  unfoldable pub get_hangup_status : GameClient N → HangUpStatus
  unfolding hangup_at
  get_hangup_status self =
      elim (and_then self.role_info (pointer_or env (codes "/role/hangUp") (codes "/hangUp"))) [
        | none ↦ default_hangup
        | some obj ↦
            hangup_at (float_field (codes "lastTime") obj) (float_field (codes "hangUpTime") obj)
      ]
