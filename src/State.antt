-- ===== src/State.antt =====
-- src/state.rs: the state of the roles and of the rounds. Today's date and week, which the code
-- takes from the clock, are arguments. A `HashMap` is its entries, in the order of its iteration.
pub mod Rounds
pub mod Sync
pub mod Migration
pub mod Periodic
pub mod Tests
use koc_core.Common.{
  ℕ, ◌+◌, ◌%◌, ◌^◌, Bool, true, false, not, ◌&&◌, Option, none, some, List, [], ◌∷◌, if◌then◌else◌,
}
use koc_core.Json.{Text}
use koc_core.Bon.Encoder.{text_eq}

-- `F` is `f64`, and `zero` is 0.0.
pub record RolePeriodicState (F : Type 0) : Type 0 where
  pub hangup_last_time : F
  pub hangup_time : F
  pub bottle_stop_time : F
  pub legacy_last_claim : F
  pub hangup_next_check : F
  pub tower_next_check : F
  pub tower_cleared : Bool
  pub evo_next_check : F

pub record RoleWeeklyState : Type 0 where
  pub week : Option Text
  pub study : Bool

pub record RoleDailyState (F : Type 0) : Type 0 where
  pub date : Option Text
  pub retry_count : ℕ
  pub signin : Bool
  pub buy_gold : Bool
  pub share : Bool
  pub friend_gift : Bool
  pub recruit : Bool
  pub hangup_reward : Bool
  pub open_box : Bool
  pub store_purchase : Bool
  pub arena : Bool
  pub bottle_task : Bool
  pub boss : Bool
  pub legion_boss : Bool
  pub legion_signin : Bool
  pub artifact : Bool
  pub genie : Bool
  pub gacha : Bool
  pub discount : Bool
  pub card : Bool
  pub collection : Bool
  pub task_rewards : Bool
  pub mail : Bool
  pub nightmare : Bool
  pub dream_shop : Bool
  pub car_send_done : Bool
  pub next_car_claim_time : F
  pub car_claimed_today : Bool

pub record RoleState (F : Type 0) : Type 0 where
  pub role_name : Text
  pub server_display : Text
  pub daily : RoleDailyState F
  pub periodic : RolePeriodicState F
  pub weekly : RoleWeeklyState

pub record AppState (F : Type 0) : Type 0 where
  pub round_date : Option Text
  pub round_count : ℕ
  pub roles : List (Text × RoleState F)

pub record RoundAdvance : Type 0 where
  pub round : ℕ
  pub reset_happened : Bool
  pub previous_date : Option Text
  pub current_date : Text

-- `date.as_deref() != Some(&today)`
abbrev pub differs : Option Text → Text → Bool
differs none today = true
differs (some d) today = not (text_eq d today)

abbrev pub default_weekly : RoleWeeklyState
default_weekly = record { week = none; study = false }

unfoldable pub ensure_this_week : Text → RoleWeeklyState → RoleWeeklyState
ensure_this_week week w =
    if differs w.week week then record default_weekly { week = some week } else w

module _ {F : Type 0} where
  unfoldable pub all_main_done : RoleDailyState F → Bool
  all_main_done d =
      d.signin && d.buy_gold && d.share && d.friend_gift && d.recruit && d.hangup_reward
      && d.open_box && d.store_purchase && d.arena && d.bottle_task

  unfoldable pub all_done : RoleDailyState F → Bool
  unfolding all_main_done
  all_done d =
      all_main_done d
      && d.boss
      && d.legion_boss
      && d.legion_signin
      && d.artifact
      && d.genie
      && d.discount
      && d.card
      && d.collection
      && d.task_rewards
      && d.mail

  -- `round_count` is a `u32`.
  unfoldable pub next_round : Text → AppState F → RoundAdvance × AppState F
  next_round today s =
      if differs s.round_date today
      then (
        record {
          round = 1;
          reset_happened = true;
          previous_date = s.round_date;
          current_date = today;
        },
        record s { round_date = some today; round_count = 1 },
      )
      else (
        record {
          round = (s.round_count + 1) % 2 ^ 32;
          reset_happened = false;
          previous_date = s.round_date;
          current_date = elim s.round_date [ none ↦ [] | some d ↦ d ];
        },
        record s { round_count = (s.round_count + 1) % 2 ^ 32 },
      )

  -- `HashMap::get`, `insert` and `remove`.
  unfoldable pub find : Text → List (Text × RoleState F) → Option (RoleState F)
  find k [] = none
  find k ((j, r) ∷ m) = let rest = find k m in if text_eq j k then some r else rest

  unfoldable pub put : Text → RoleState F → List (Text × RoleState F) → List (Text × RoleState F)
  put k v [] = (k, v) ∷ []
  put k v ((j, r) ∷ m) = let rest = put k v m in if text_eq j k then (j, v) ∷ m else (j, r) ∷ rest

  unfoldable pub remove : Text → List (Text × RoleState F) → List (Text × RoleState F)
  remove k [] = []
  remove k ((j, r) ∷ m) = let rest = remove k m in if text_eq j k then rest else (j, r) ∷ rest

  abbrev pub keys : List (Text × RoleState F) → List Text
  keys [] = []
  keys ((k, r) ∷ m) = k ∷ keys m

-- `HashSet::contains`, and `a.difference(&b)`.
unfoldable pub has : Text → List Text → Bool
has k [] = false
has k (j ∷ js) = let rest = has k js in if text_eq j k then true else rest

unfoldable pub difference : List Text → List Text → List Text
unfolding has
difference [] bs = []
difference (a ∷ as') bs = let rest = difference as' bs in if has a bs then rest else a ∷ rest

module _ {F : Type 0} (zero : F) where
  abbrev pub default_periodic : RolePeriodicState F
  default_periodic = record {
    hangup_last_time = zero;
    hangup_time = zero;
    bottle_stop_time = zero;
    legacy_last_claim = zero;
    hangup_next_check = zero;
    tower_next_check = zero;
    tower_cleared = false;
    evo_next_check = zero;
  }

  abbrev pub default_daily : RoleDailyState F
  default_daily = record {
    date = none;
    retry_count = 0;
    signin = false;
    buy_gold = false;
    share = false;
    friend_gift = false;
    recruit = false;
    hangup_reward = false;
    open_box = false;
    store_purchase = false;
    arena = false;
    bottle_task = false;
    boss = false;
    legion_boss = false;
    legion_signin = false;
    artifact = false;
    genie = false;
    gacha = false;
    discount = false;
    card = false;
    collection = false;
    task_rewards = false;
    mail = false;
    nightmare = false;
    dream_shop = false;
    car_send_done = false;
    next_car_claim_time = zero;
    car_claimed_today = false;
  }

  unfoldable pub ensure_today : Text → RoleDailyState F → RoleDailyState F
  ensure_today today d =
      if differs d.date today then record default_daily { date = some today } else d

  abbrev pub default_role : RoleState F
  default_role = record {
    role_name = [];
    server_display = [];
    daily = default_daily;
    periodic = default_periodic;
    weekly = default_weekly;
  }

  -- The state of the role, and the map that holds it.
  unfoldable pub get_or_create : Text → AppState F → RoleState F × AppState F
  unfolding find put
  get_or_create key s = elim (find key s.roles) [
    | some r ↦ (r, s)
    | none ↦ (default_role, record s { roles = put key default_role s.roles })
  ]

  -- The two loops of `sync_with_roles`.
  unfoldable pub put_all : List Text → List (Text × RoleState F) → List (Text × RoleState F)
  unfolding put
  put_all [] m = m
  put_all (k ∷ ks) m = put_all ks (put k default_role m)

  unfoldable pub remove_all : List Text → List (Text × RoleState F) → List (Text × RoleState F)
  unfolding remove
  remove_all [] m = m
  remove_all (k ∷ ks) m = remove_all ks (remove k m)

  unfoldable pub sync_with_roles : List Text → AppState F → (List Text × List Text) × AppState F
  unfolding put_all remove_all difference
  sync_with_roles new_keys s =
      let added = difference new_keys (keys s.roles) in
      let removed = difference (keys s.roles) new_keys in
      ((added, removed), record s { roles = remove_all removed (put_all added s.roles) })
