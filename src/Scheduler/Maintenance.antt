-- ===== src/Scheduler/Maintenance.antt =====
-- The scheduler is in maintenance exactly within the windows of the configuration.
use koc_core.Common.{
  ℕ, ◌+◌, ◌*◌, ◌<◌, ◌≡◌, refl, ◌∙◌, ap, Bool, true, false, Option, none, some, List, [], ◌∷◌, ltb,
  leb, ◌&&◌, ◌||◌, if◌then◌else◌, Bool-cases, Option-cases, inl, inr, arith,
}
use koc_core.Config.Times.{
  Weekday, mon, tue, wed, thu, fri, sat, sun, parse_weekday, parse_hhmm_strict,
}
use koc_core.Config.Windows.{
  MaintenanceWindowConfig, checked_interval, read_window, weekday_eq, parse_maintenance_windows,
  normalize_maintenance_windows, default_maintenance_windows,
}
use koc_core.Config.Windows.Read.{parse_hhmm_strict-bounds}
use koc_core.Config.Windows.Coverage.{hits, any_valid, in_maintenance}
use koc_core.Config.Windows.Normalize.{in_maintenance-normalize}
use koc_core.Scheduler.Policy.{
  LocalTime, Schedule, MaintenanceHit, is_time_reached, is_time_before, first_hit, maintenance_hit,
}

abbrev pub is_hit : Option MaintenanceHit → Bool
is_hit none = false
is_hit (some h) = true

is_hit-if :
    (b : Bool) (h : MaintenanceHit) (o : Option MaintenanceHit)
    → is_hit (if b then some h else o) ≡ (b || is_hit o)
is_hit-if true h o = refl
is_hit-if false h o = refl

abbrev pub time : LocalTime → ℕ
time now = now.hour * 60 + now.minute

reached_iff :
    (now : LocalTime) (h m : ℕ)
    → now.minute < 60
    → m < 60
    → is_time_reached now h m ≡ leb (h * 60 + m) (time now)
reached_iff now h m k l = ground arith

before_iff :
    (now : LocalTime) (h m : ℕ)
    → now.minute < 60
    → m < 60
    → is_time_before now h m ≡ ltb (time now) (h * 60 + m)
before_iff now h m k l = ground arith

and_false : (a : Bool) → (a && false) ≡ false
and_false true = refl
and_false false = refl

weekday_eq_sym : (w v : Weekday) → weekday_eq w v ≡ weekday_eq v w
weekday_eq_sym mon v = elim v as (λ k. weekday_eq mon k ≡ weekday_eq k mon) [
  | mon ↦ refl
  | tue ↦ refl
  | wed ↦ refl
  | thu ↦ refl
  | fri ↦ refl
  | sat ↦ refl
  | sun ↦ refl
]
weekday_eq_sym tue v = elim v as (λ k. weekday_eq tue k ≡ weekday_eq k tue) [
  | mon ↦ refl
  | tue ↦ refl
  | wed ↦ refl
  | thu ↦ refl
  | fri ↦ refl
  | sat ↦ refl
  | sun ↦ refl
]
weekday_eq_sym wed v = elim v as (λ k. weekday_eq wed k ≡ weekday_eq k wed) [
  | mon ↦ refl
  | tue ↦ refl
  | wed ↦ refl
  | thu ↦ refl
  | fri ↦ refl
  | sat ↦ refl
  | sun ↦ refl
]
weekday_eq_sym thu v = elim v as (λ k. weekday_eq thu k ≡ weekday_eq k thu) [
  | mon ↦ refl
  | tue ↦ refl
  | wed ↦ refl
  | thu ↦ refl
  | fri ↦ refl
  | sat ↦ refl
  | sun ↦ refl
]
weekday_eq_sym fri v = elim v as (λ k. weekday_eq fri k ≡ weekday_eq k fri) [
  | mon ↦ refl
  | tue ↦ refl
  | wed ↦ refl
  | thu ↦ refl
  | fri ↦ refl
  | sat ↦ refl
  | sun ↦ refl
]
weekday_eq_sym sat v = elim v as (λ k. weekday_eq sat k ≡ weekday_eq k sat) [
  | mon ↦ refl
  | tue ↦ refl
  | wed ↦ refl
  | thu ↦ refl
  | fri ↦ refl
  | sat ↦ refl
  | sun ↦ refl
]
weekday_eq_sym sun v = elim v as (λ k. weekday_eq sun k ≡ weekday_eq k sun) [
  | mon ↦ refl
  | tue ↦ refl
  | wed ↦ refl
  | thu ↦ refl
  | fri ↦ refl
  | sat ↦ refl
  | sun ↦ refl
]

-- A window that ends before it starts holds no minute.
hits-checked_interval :
    (v w : Weekday) (t a b : ℕ)
    → (weekday_eq w v && (leb a t && ltb t b)) ≡ hits v t (checked_interval w a b)
hits-checked_interval v w t a b = elim (Bool-cases (leb b a)) [
  | inr proper ↦ rw proper refl
  | inl empty ↦
      let none_in : (leb a t && ltb t b) ≡ false = ground arith in
      rw (empty, none_in) (and_false (weekday_eq w v))
]

-- The loop hits a window exactly where a valid window covers the minute.
first_hit-parse_maintenance_windows :
    (now : LocalTime) (ws : List MaintenanceWindowConfig)
    → now.minute < 60
    → is_hit (first_hit now (parse_maintenance_windows ws))
      ≡ in_maintenance now.weekday (time now) ws
unfolding first_hit parse_maintenance_windows read_window
first_hit-parse_maintenance_windows now [] k = refl
first_hit-parse_maintenance_windows now (w ∷ ws) k = elim (Option-cases (parse_weekday w.weekday)) [
  | inl bad ↦
      rw (bad, read_window, parse_maintenance_windows)
        (first_hit-parse_maintenance_windows now ws k)
  | inr (day, known) ↦ elim (Option-cases (parse_hhmm_strict w.start_time)) [
    | inl bad ↦
        rw (known, read_window, parse_maintenance_windows, bad)
          (first_hit-parse_maintenance_windows now ws k)
    | inr ((a, b), start) ↦ elim (Option-cases (parse_hhmm_strict w.end_time)) [
      | inl bad ↦
          rw (known, read_window, parse_maintenance_windows, start, bad)
            (first_hit-parse_maintenance_windows now ws k)
      | inr ((c, d), stop) ↦
          let low = (parse_hhmm_strict-bounds w.start_time a b start).1 in
          let high = (parse_hhmm_strict-bounds w.end_time c d stop).1 in
          rw
            (
              known,
              read_window,
              parse_maintenance_windows,
              start,
              stop,
              is_hit-if,
              first_hit-parse_maintenance_windows now ws k,
              reached_iff now a b k low,
              before_iff now c d k high,
              weekday_eq_sym now.weekday day,
              hits-checked_interval now.weekday day (time now) (a * 60 + b) (c * 60 + d),
            )
            refl
    ]
  ]
]

-- With normalized windows, and at a time with a minute below 60, the scheduler is in maintenance
-- exactly if a valid configured window covers the time, or a default window if no configured one
-- is valid.
pub maintenance_hit-normalize :
    (now : LocalTime) (config : Schedule) (ws : List MaintenanceWindowConfig)
    → now.minute < 60
    → config.maintenance_windows ≡ normalize_maintenance_windows ws
    → is_hit (maintenance_hit now config) ≡ (
        if any_valid ws
        then in_maintenance now.weekday (time now) ws
        else in_maintenance now.weekday (time now) default_maintenance_windows)
unfolding maintenance_hit
maintenance_hit-normalize now config ws k e =
    first_hit-parse_maintenance_windows now config.maintenance_windows k
    ∙ ap (λ l. in_maintenance now.weekday (time now) l) e
    ∙ in_maintenance-normalize now.weekday (time now) ws
