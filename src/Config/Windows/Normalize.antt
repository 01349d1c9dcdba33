-- ===== src/Config/Windows/Normalize.antt =====
-- `normalize_maintenance_windows` keeps the times of maintenance, or falls back to the defaults.
use koc_core.Common.{
  ℕ, ◌≡◌, refl, ◌∙◌, true, false, List, [], ◌∷◌, ltb, leb, if◌then◌else◌, Bool-cases, Option-cases,
  inl, inr, arith,
}
use koc_core.Config.Times.{Weekday, mon, tue, wed, thu, fri, sat, sun}
use koc_core.Config.Windows.{
  MaintenanceWindowConfig, default_maintenance_windows, read_window, weekday_eq, Grouped,
  group_windows, sort_by_start, merge_all, to_configs, merged_of, week, emit, or_defaults,
  normalize_maintenance_windows,
}
use koc_core.Config.Windows.Read.{read_window-bounds}
use koc_core.Config.Windows.Coverage.{
  any_valid, in_maintenance, covers-group_windows, group_windows-IsProper, occurs-week,
  in_maintenance-emit,
}

-- With no valid window nothing is emitted.
group_windows-invalid :
    (g : Grouped) (ws : List MaintenanceWindowConfig)
    → any_valid ws ≡ false
    → group_windows g ws ≡ g
unfolding group_windows
group_windows-invalid g [] h = refl
group_windows-invalid g (w ∷ ws) h = elim (Option-cases (read_window w)) [
  | inl dropped ↦ rw (dropped, group_windows) (group_windows-invalid g ws (rw dropped at h))
  | inr (i, kept) ↦ absurd (cc (rw kept at h))
]

emit-nothing : emit (λ v. []) week ≡ []
unfolding emit to_configs merged_of sort_by_start merge_all
emit-nothing = refl

weekday_eq_refl : (v : Weekday) → weekday_eq v v ≡ true
weekday_eq_refl mon = refl
weekday_eq_refl tue = refl
weekday_eq_refl wed = refl
weekday_eq_refl thu = refl
weekday_eq_refl fri = refl
weekday_eq_refl sat = refl
weekday_eq_refl sun = refl

-- A valid window covers the minute at which it starts.
any_valid-hit :
    (ws : List MaintenanceWindowConfig)
    → any_valid ws ≡ true
    → (v : Weekday) × (t : ℕ) × (in_maintenance v t ws ≡ true)
any_valid-hit [] h = absurd (cc h)
any_valid-hit (w ∷ ws) h = elim (Option-cases (read_window w)) [
  | inl dropped ↦ let (v, t, later) = any_valid-hit ws (rw dropped at h) in (v, t, rw dropped later)
  | inr ((v, (s, e)), kept) ↦
      let bounds = read_window-bounds w v s e kept in
      let first : leb s s ≡ true = ground arith in
      let last : ltb s e ≡ true = ground arith in (v, s, rw (kept, weekday_eq_refl v, first, last))
]

-- What is emitted covers what the windows cover.
emit-grouped :
    (v : Weekday) (t : ℕ) (ws : List MaintenanceWindowConfig)
    → in_maintenance v t (emit (group_windows (λ w. []) ws) week) ≡ in_maintenance v t ws
emit-grouped v t ws =
    in_maintenance-emit v t (group_windows (λ w. []) ws) week
      (λ w. group_windows-IsProper w (λ u. []) ws tt)
    ∙ rw (occurs-week v) (covers-group_windows v t (λ w. []) ws)

or_defaults-hit :
    (v : Weekday) (t : ℕ) (ws : List MaintenanceWindowConfig)
    → in_maintenance v t ws ≡ true
    → or_defaults ws ≡ ws
or_defaults-hit v t [] h = absurd (cc h)
or_defaults-hit v t (w ∷ ws) h = refl

normalize-emit :
    (ws : List MaintenanceWindowConfig)
    → normalize_maintenance_windows ws ≡ or_defaults (emit (group_windows (λ v. []) ws) week)
unfolding normalize_maintenance_windows
normalize-emit [] = unfold group_windows in rw emit-nothing refl
normalize-emit (w ∷ ws) = refl

-- Normalizing keeps, for each minute of each weekday, whether a valid window covers it; if no
-- window is valid, the result covers what the default windows cover.
pub in_maintenance-normalize :
    (v : Weekday) (t : ℕ) (ws : List MaintenanceWindowConfig)
    → in_maintenance v t (normalize_maintenance_windows ws) ≡ (
        if any_valid ws
        then in_maintenance v t ws
        else in_maintenance v t default_maintenance_windows)
in_maintenance-normalize v t ws = elim (Bool-cases (any_valid ws)) [
  | inr invalid ↦
      rw (invalid, normalize-emit ws, group_windows-invalid (λ w. []) ws invalid, emit-nothing) refl
  | inl valid ↦
      let (u, s, hit) = any_valid-hit ws valid in
      let emitted = emit-grouped u s ws ∙ hit in
      let kept = or_defaults-hit u s (emit (group_windows (λ w. []) ws) week) emitted in
      rw (valid, normalize-emit ws, kept) (emit-grouped v t ws)
]
