-- ===== src/Kpi/Daily/Vehicles/Rounds.antt =====
-- How many refreshes are enough for `smart_send_car` of src/kpi.rs to return, when the server counts
-- every refresh.
use koc_core.Common.{
  ℕ, zero, suc, ◌+◌, ◌-◌, ◌^◌, ◌≤◌, ◌≡◌, refl, sym, ◌∙◌, ◌==◌, Bool, true, false, not, ◌&&◌, Option,
  none, some, List, [], ◌∷◌, inl, inr, Bool-cases, arith,
}
use mathlib.Core.Bool.{cond}
use koc_core.Common.Results.{ok, err}
use koc_core.Json.{Text, Value}
use koc_core.Kpi.Env.{Env}
use koc_core.Kpi.Request.{GameClient}
use koc_core.Kpi.Session.{Answer, Exchange, Server, Session, M, ◌>>=◌, pure, match_option}
use koc_core.Kpi.Cars.{Car}
use koc_core.Kpi.Daily.{TaskRun}
use koc_core.Kpi.Status.{DailyTaskStatus}
use koc_core.Kpi.Daily.Run.{DailyTaskConfig, car_task, all_tasks, run_daily_tasks_stateful}
use koc_core.Kpi.Commands.Event.{car_refresh}
use koc_core.Kpi.Daily.Gives.{
  Gives, Gives-pure, Gives-bind_of, Gives-bind, Gives-if, Gives-match_result, Gives-call,
}
use koc_core.Kpi.Daily.Vehicles.{quantity_or}
use koc_core.Kpi.Daily.Vehicles.Helpers.{Helper}
use koc_core.Kpi.Daily.Vehicles.Sending.{
  Garage, CarState, refreshed, after_refresh, refresh_loop, send_one, send_cars, send_list,
  send_from, smart_send_car,
}

-- The loop ended, with no more tickets than before.
abbrev Ends : ℕ → Option ℕ → Type 0
Ends n none = ⊥
Ends n (some t) = t ≤ n

-- The tickets after a refresh.
abbrev left_after : {N : Type 0} → CarState N → ℕ → ℕ
left_after c tickets = cond (c.car_refresh_count == 0) tickets (tickets - 1)

left_after-le : {N : Type 0} (c : CarState N) (tickets : ℕ) → left_after c tickets ≤ tickets
left_after-le c tickets = elim (Bool-cases (c.car_refresh_count == 0)) [
  | inl free ↦ rw free (omega arith)
  | inr paid ↦ rw paid (omega arith)
]

Ends-le : (m n : ℕ) (o : Option ℕ) → m ≤ n → Ends m o → Ends n o
Ends-le m n none h e = elim e [ ]
Ends-le m n (some t) h e = omega arith

weaken :
    {N : Type 0} {m n : ℕ} (l : M N TaskRun (Option ℕ))
    → Gives (Ends m) l
    → m ≤ n
    → Gives (Ends n) l
weaken {m = m} {n = n} l g h = record { at = λ s. Ends-le m n (l s).0 h (g.at s) }

-- The refreshes that a car may still need.
abbrev needed : {N : Type 0} → CarState N → ℕ → ℕ
needed c tickets = cond (c.car_refresh_count == 0) (tickets + 2) (tickets + 1)

needed-pos : {N : Type 0} (c : CarState N) (tickets : ℕ) → needed c tickets ≤ 0 → ⊥
needed-pos c tickets h = ground arith

-- A refresh that is counted leaves one less to need.
needed-left_after :
    {N : Type 0} (c c' : CarState N) (tickets rounds : ℕ)
    → (not (c.car_refresh_count == 0) && (tickets == 0)) ≡ false
    → (c'.car_refresh_count == 0) ≡ false
    → needed c tickets ≤ suc rounds
    → needed c' (left_after c tickets) ≤ rounds
needed-left_after c c' tickets rounds more h' h = ground arith

module _ {N : Type 0} (env : Env N) where
  -- After the refresh the car is no longer free to refresh.
  abbrev pub IsCounted : Answer N → Type 0
  IsCounted (err e) = Unit {0}
  IsCounted (ok resp) = (c : CarState N) → ((refreshed env resp c).car_refresh_count == 0) ≡ false

  tickets_bound :
      (rounds : ℕ) (path : Text) (info : Answer N)
      → 2 ^ 32 + 1 ≤ rounds
      → quantity_or env 0 path info + 2 ≤ rounds
  tickets_bound rounds path (err e) h = omega arith
  tickets_bound rounds path (ok v) h = omega arith

  module _ (server : Server N)
      (counted : (es : List (Exchange N)) (id : Text)
        → IsCounted (server es (car_refresh id))) where
    after_refresh-Ends :
        (car_id : Text) (helper : ℕ) (c : CarState N) (tickets : ℕ)
        (rest : CarState N → ℕ → M N TaskRun (Option ℕ)) (a : Answer N)
        → IsCounted a
        → ((c' : CarState N)
            → (c'.car_refresh_count == 0) ≡ false
            → Gives (Ends tickets) (rest c' (left_after c tickets)))
        → Gives (Ends tickets) (after_refresh env server car_id helper c tickets rest a)
    unfolding after_refresh
    after_refresh-Ends car_id helper c tickets rest (err e) h k =
        Gives-bind _ _ λ _. Gives-pure _ (omega arith)
    after_refresh-Ends car_id helper c tickets rest (ok resp) h k =
        Gives-if _ _ _ (λ _. Gives-bind _ _ λ _. Gives-pure _ (left_after-le c tickets))
          (λ _. k _ (h c))

    refresh_loop-Ends :
        (rounds : ℕ) (car_id : Text) (helper : ℕ) (c : CarState N) (tickets : ℕ)
        → needed c tickets ≤ rounds
        → Gives (Ends tickets) (refresh_loop env server rounds car_id helper c tickets)
    unfolding refresh_loop
    refresh_loop-Ends zero car_id helper c tickets h = elim (needed-pos c tickets h) [ ]
    refresh_loop-Ends (suc rounds) car_id helper c tickets h =
        Gives-if _ _ _ (λ _. Gives-bind _ _ λ _. Gives-pure _ (omega arith))
          (λ more.
            Gives-bind_of _ _ (Gives-call server (car_refresh car_id) (λ es. counted es car_id))
              λ a ha. after_refresh-Ends car_id helper c tickets _ a ha λ c' h'.
                weaken _
                  (refresh_loop-Ends rounds car_id helper c' (left_after c tickets)
                    (needed-left_after c c' tickets rounds more h' h))
                  (left_after-le c tickets))

    send_one-Ends :
        (rounds : ℕ) (car : Car N) (helper tickets : ℕ)
        → tickets + 2 ≤ rounds
        → Gives (Ends tickets) (send_one env server rounds car helper tickets)
    unfolding send_one
    send_one-Ends rounds car helper tickets h =
        Gives-if _ _ _ (λ _. Gives-bind _ _ λ _. Gives-pure _ (omega arith))
          (λ _. refresh_loop-Ends rounds car.car_id helper _ tickets (ground arith))

    abbrev Returned : Bool → Type 0
    Returned b = b ≡ true

    Returned-match :
        (tickets : ℕ) (o : Option ℕ) (k : ℕ → M N TaskRun Bool)
        → Ends tickets o
        → ((t : ℕ) → t ≤ tickets → Gives Returned (k t))
        → Gives Returned (match_option o k (pure false))
    unfolding match_option
    Returned-match tickets none k h hk = elim h [ ]
    Returned-match tickets (some t) k h hk = hk t h

    send_cars-Returned :
        (rounds : ℕ) (helpers : List Helper) (cars : List (Car N)) (g : Garage)
        → g.refresh_tickets + 2 ≤ rounds
        → Gives Returned (send_cars env server rounds helpers cars g)
    unfolding send_cars
    send_cars-Returned rounds helpers [] g h = Gives-pure _ refl
    send_cars-Returned rounds helpers (car ∷ cars) g h =
        Gives-if _ _ _ (λ _. send_cars-Returned rounds helpers cars g h)
          (λ _. Gives-bind_of _ _ (send_one-Ends rounds car _ g.refresh_tickets h) λ o e.
            Returned-match g.refresh_tickets o _ e
              λ t le. send_cars-Returned rounds helpers cars _ (omega arith))

    send_list-Returned :
        (rounds : ℕ) (cars : List (Car N))
        → 2 ^ 32 + 1 ≤ rounds
        → Gives Returned (send_list env server rounds cars)
    unfolding send_list
    send_list-Returned rounds cars h = Gives-bind _ _ λ info. Gives-bind _ _ λ usage.
        Gives-bind _ _ λ legion. send_cars-Returned rounds _ cars _ (tickets_bound rounds _ _ h)

    send_from-Returned :
        (rounds : ℕ) (resp : Value N)
        → 2 ^ 32 + 1 ≤ rounds
        → Gives Returned (send_from env server rounds resp)
    unfolding send_from
    send_from-Returned rounds resp h =
        Gives-if _ _ _ (λ _. Gives-bind _ _ λ _. Gives-pure _ refl)
          (λ _.
            Gives-if _ _ _ (λ _. Gives-bind _ _ λ _. Gives-pure _ refl)
              (λ _. send_list-Returned rounds _ h))

    smart_send_car-Returned :
        (rounds : ℕ) → 2 ^ 32 + 1 ≤ rounds → Gives Returned (smart_send_car env server rounds)
    unfolding smart_send_car
    smart_send_car-Returned rounds h =
        Gives-if _ _ _
          (λ _. Gives-bind _ _ λ a.
            Gives-match_result a _ _ (λ resp. send_from-Returned rounds resp h)
              (λ e. Gives-bind _ _ λ _. Gives-pure _ refl))
          (λ _. Gives-bind _ _ λ _. Gives-pure _ refl)

    car_task-Returned :
        (rounds : ℕ) (on : Bool)
        → 2 ^ 32 + 1 ≤ rounds
        → Gives Returned (car_task env server rounds on)
    unfolding car_task
    car_task-Returned rounds on h =
        Gives-if _ _ _ (λ _. Gives-pure _ refl)
          λ _. Gives-bind _ _ λ done.
            Gives-if _ _ _ (λ _. Gives-bind _ _ λ _. Gives-pure _ refl)
              λ _.
                Gives-if _ _ _
                  (λ _. Gives-bind _ _ λ next.
                    Gives-bind_of _ _ (smart_send_car-Returned rounds h) λ b e.
                      Gives-if _ _ _ (λ _. Gives-bind _ _ λ _. Gives-pure _ refl)
                        (λ no. Gives-pure _ (sym no ∙ e)))
                  (λ _. Gives-bind _ _ λ _. Gives-pure _ refl)

    all_tasks-Returned :
        (rounds : ℕ) (self : GameClient N) (status : DailyTaskStatus) (config : DailyTaskConfig)
        → 2 ^ 32 + 1 ≤ rounds
        → Gives Returned (all_tasks env server rounds self status config)
    unfolding all_tasks
    all_tasks-Returned rounds self status config h = Gives-bind _ _ λ team. Gives-bind _ _ λ _.
        Gives-bind _ _ λ _. Gives-bind _ _ λ _. Gives-bind _ _ λ _. car_task-Returned rounds _ h

    -- When every refresh of a car that succeeds is counted by the server, a run returns, within
    -- 2^32 + 1 refreshes of each car.
    pub run_daily_tasks_stateful-returns :
        (rounds : ℕ) (self : GameClient N) (config : DailyTaskConfig) (s : Session N TaskRun)
        → 2 ^ 32 + 1 ≤ rounds
        → (run_daily_tasks_stateful env server rounds self config s).0 ≡ true
    unfolding run_daily_tasks_stateful ◌>>=◌
    run_daily_tasks_stateful-returns rounds self config s h =
        (all_tasks-Returned rounds self _ config h).at _
