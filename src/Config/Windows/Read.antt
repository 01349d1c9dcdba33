-- ===== src/Config/Windows/Read.antt =====
-- What the loop of `normalize_maintenance_windows` keeps of a window, and reads of its own output.
use koc_core.Common.{
  ℕ, ◌+◌, ◌*◌, ◌/◌, ◌%◌, ◌<◌, ◌≡◌, false, some, List, [], ◌∷◌, leb, Option-cases, inl, inr, arith,
}
use koc_core.Json.{Text}
use koc_core.Config.Times.{
  in_day, parse_parts, parse_u32, split_colon, Weekday, parse_weekday, parse_hhmm_strict,
  parse_hhmm_strict-minutes_to_hhmm, parse_weekday-weekday_to_short,
}
use koc_core.Config.Windows.{
  MaintenanceWindowConfig, minutes, checked_interval, read_window, to_config,
}

in_day-bounds : (h m a b : ℕ) → in_day h m ≡ some (a, b) → (a * 60 + b < 1440) × (b < 60)
in_day-bounds h m a b e = ground arith

parse_parts-bounds :
    (parts : List Text) (a b : ℕ) → parse_parts parts ≡ some (a, b) → (a * 60 + b < 1440) × (b < 60)
parse_parts-bounds [] a b e = cc
parse_parts-bounds (x ∷ []) a b e = cc
parse_parts-bounds (x ∷ y ∷ z ∷ rest) a b e = cc
parse_parts-bounds (x ∷ y ∷ []) a b e = elim (Option-cases (parse_u32 x)) [
  | inl bad ↦ absurd (cc (rw (bad, parse_parts) at e))
  | inr (h, good) ↦ elim (Option-cases (parse_u32 y)) [
    | inl bad ↦ absurd (cc (rw (good, bad, parse_parts) at e))
    | inr (m, fine) ↦ in_day-bounds h m a b (rw (good, fine, parse_parts) at e)
  ]
]

pub parse_hhmm_strict-bounds :
    (raw : Text) (a b : ℕ)
    → parse_hhmm_strict raw ≡ some (a, b)
    → (minutes (a, b) < 1440) × (b < 60)
unfolding parse_hhmm_strict
parse_hhmm_strict-bounds raw a b e = parse_parts-bounds (split_colon raw) a b e

checked_interval-bounds :
    (w v : Weekday) (a b s e : ℕ)
    → b < 1440
    → checked_interval w a b ≡ some (v, (s, e))
    → (s < e) × (e < 1440)
checked_interval-bounds w v a b s e h k = ground arith

-- A window that is kept is not empty and ends within the day.
pub read_window-bounds :
    (w : MaintenanceWindowConfig) (v : Weekday) (s e : ℕ)
    → read_window w ≡ some (v, (s, e))
    → (s < e) × (e < 1440)
unfolding read_window
read_window-bounds w v s e h = elim (Option-cases (parse_weekday w.weekday)) [
  | inl bad ↦ absurd (cc (rw (bad, read_window) at h))
  | inr (day, known) ↦ elim (Option-cases (parse_hhmm_strict w.start_time)) [
    | inl bad ↦ absurd (cc (rw (known, bad, read_window) at h))
    | inr ((a, b), start) ↦ elim (Option-cases (parse_hhmm_strict w.end_time)) [
      | inl bad ↦ absurd (cc (rw (known, start, bad, read_window) at h))
      | inr ((c, d), stop) ↦
          checked_interval-bounds day v (minutes (a, b)) (minutes (c, d)) s e
            (parse_hhmm_strict-bounds w.end_time c d stop).0
            (rw (known, start, stop, read_window) at h)
    ]
  ]
]

-- The text of an interval is read as that interval.
pub read_window-to_config :
    (w : Weekday) (s e : ℕ) → s < e → e < 1440 → read_window (to_config w (s, e)) ≡ some (w, (s, e))
unfolding read_window
read_window-to_config w s e h k =
    let start : s / 60 * 60 + s % 60 ≡ s = omega arith in
    let stop : e / 60 * 60 + e % 60 ≡ e = omega arith in
    let order : leb e s ≡ false = ground arith in
    rw (
      parse_weekday-weekday_to_short w,
      read_window,
      parse_hhmm_strict-minutes_to_hhmm s (omega arith),
      parse_hhmm_strict-minutes_to_hhmm e k,
      start,
      stop,
      order,
    )
