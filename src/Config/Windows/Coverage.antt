-- ===== src/Config/Windows/Coverage.antt =====
-- The windows that `normalize_maintenance_windows` leaves cover what the valid ones cover.
use koc_core.Common.{
  ℕ, suc, ◌<◌, ◌≡◌, refl, sym, ◌∙◌, ap, Bool, true, false, Option, none, some, List, [], ◌∷◌, ◌++◌,
  ◌&&◌, ◌||◌, Bool-cases, Option-cases, inl, inr,
}
use koc_core.Config.Times.{Weekday, mon, tue, wed, thu, fri, sat, sun}
use koc_core.Config.Windows.{
  MaintenanceWindowConfig, Interval, read_window, weekday_eq, Grouped, push_interval, group_windows,
  sort_by_start, merge_all, to_configs, merged_of, week, emit,
}
use koc_core.Config.Windows.Read.{read_window-bounds, read_window-to_config}
use koc_core.Config.Windows.Merge.{
  within, covers, IsSeparated, IsProper, EndsInDay, IsProper-EndsInDay, or_assoc, or_false,
  merge_all-sort_by_start, merged-EndsInDay,
}

-- A window is valid, and some window is.
abbrev pub is_valid : Option (Weekday × Interval) → Bool
is_valid none = false
is_valid (some i) = true

abbrev pub any_valid : List MaintenanceWindowConfig → Bool
any_valid [] = false
any_valid (w ∷ ws) = is_valid (read_window w) || any_valid ws

-- A valid window covers a minute of a weekday.
abbrev pub hits : Weekday → ℕ → Option (Weekday × Interval) → Bool
hits v t none = false
hits v t (some (w, (s, e))) = weekday_eq w v && within t s e

abbrev pub in_maintenance : Weekday → ℕ → List MaintenanceWindowConfig → Bool
in_maintenance v t [] = false
in_maintenance v t (w ∷ ws) = hits v t (read_window w) || in_maintenance v t ws

covers-append :
    (t : ℕ) (as' bs : List Interval) → covers t (as' ++ bs) ≡ (covers t as' || covers t bs)
covers-append t [] bs = refl
covers-append t ((s, e) ∷ as') bs =
    rw (covers-append t as' bs) (sym (or_assoc (within t s e) (covers t as') (covers t bs)))

covers-push :
    (v : Weekday) (t : ℕ) (day : Weekday) (s e : ℕ) (g : Grouped)
    → covers t (push_interval day (s, e) g v)
      ≡ (covers t (g v) || (weekday_eq day v && within t s e))
covers-push v t day s e g = elim (Bool-cases (weekday_eq day v)) [
  | inl same ↦ rw same (
      covers-append t (g v) ((s, e) ∷ []) ∙ ap (λ b. covers t (g v) || b) (or_false (within t s e)))
  | inr other ↦ rw other (sym (or_false (covers t (g v))))
]

-- What the loop over the windows adds to the intervals of a weekday.
pub covers-group_windows :
    (v : Weekday) (t : ℕ) (g : Grouped) (ws : List MaintenanceWindowConfig)
    → covers t (group_windows g ws v) ≡ (covers t (g v) || in_maintenance v t ws)
unfolding group_windows
covers-group_windows v t g [] = sym (or_false (covers t (g v)))
covers-group_windows v t g (w ∷ ws) = elim (Option-cases (read_window w)) [
  | inl dropped ↦ rw (dropped, group_windows) (covers-group_windows v t g ws)
  | inr ((day, (s, e)), kept) ↦
      rw (kept, group_windows)
        (covers-group_windows v t (push_interval day (s, e) g) ws
          ∙ ap (λ b. b || in_maintenance v t ws) (covers-push v t day s e g)
          ∙ or_assoc (covers t (g v)) (hits v t (some (day, (s, e)))) (in_maintenance v t ws))
]

append-IsProper :
    (is' : List Interval) (s e : ℕ)
    → IsProper is'
    → s < e
    → e < 1440
    → IsProper (is' ++ (s, e) ∷ [])
append-IsProper [] s e p h k = (h, k, tt)
append-IsProper ((a, b) ∷ is') s e (q, r, p) h k = (q, r, append-IsProper is' s e p h k)

push-IsProper :
    (v day : Weekday) (s e : ℕ) (g : Grouped)
    → IsProper (g v)
    → (s < e) × (e < 1440)
    → IsProper (push_interval day (s, e) g v)
push-IsProper v day s e g p (h, k) = elim (Bool-cases (weekday_eq day v)) [
  | inl same ↦ rw same (append-IsProper (g v) s e p h k)
  | inr other ↦ rw other p
]

pub group_windows-IsProper :
    (v : Weekday) (g : Grouped) (ws : List MaintenanceWindowConfig)
    → IsProper (g v)
    → IsProper (group_windows g ws v)
unfolding group_windows
group_windows-IsProper v g [] p = p
group_windows-IsProper v g (w ∷ ws) p = elim (Option-cases (read_window w)) [
  | inl dropped ↦ rw (dropped, group_windows) (group_windows-IsProper v g ws p)
  | inr ((day, (s, e)), kept) ↦
      rw (kept, group_windows)
        (group_windows-IsProper v (push_interval day (s, e) g) ws
          (push-IsProper v day s e g p (read_window-bounds w day s e kept)))
]

in_maintenance-append :
    (v : Weekday) (t : ℕ) (as' bs : List MaintenanceWindowConfig)
    → in_maintenance v t (as' ++ bs) ≡ (in_maintenance v t as' || in_maintenance v t bs)
in_maintenance-append v t [] bs = refl
in_maintenance-append v t (w ∷ as') bs =
    rw (in_maintenance-append v t as' bs)
      (sym (or_assoc (hits v t (read_window w)) (in_maintenance v t as') (in_maintenance v t bs)))

and_or : (a b c : Bool) → ((a && b) || (a && c)) ≡ (a && (b || c))
and_or true b c = refl
and_or false b c = refl

and_false : (a : Bool) → (a && false) ≡ false
and_false true = refl
and_false false = refl

or_absorb : (a b : Bool) → (a || (b && a)) ≡ a
or_absorb true b = refl
or_absorb false b = and_false b

in_maintenance-to_configs :
    (w v : Weekday) (t lo : ℕ) (is' : List Interval)
    → IsSeparated lo is'
    → EndsInDay is'
    → in_maintenance v t (to_configs w is') ≡ (weekday_eq w v && covers t is')
unfolding to_configs
in_maintenance-to_configs w v t lo [] q p = sym (and_false (weekday_eq w v))
in_maintenance-to_configs w v t lo ((s, e) ∷ is') (_, h, q) (k, p) =
    rw (read_window-to_config w s e h k, in_maintenance-to_configs w v t (suc e) is' q p)
      (and_or (weekday_eq w v) (within t s e) (covers t is'))

-- A weekday is among some.
abbrev pub occurs : Weekday → List Weekday → Bool
occurs v [] = false
occurs v (w ∷ days) = weekday_eq w v || occurs v days

weekday_eq→eq : (w v : Weekday) → weekday_eq w v ≡ true → w ≡ v
weekday_eq→eq mon v h =
    elim v as (λ k. weekday_eq mon k ≡ true → mon ≡ k) [ mon ↦ λ e. refl | _ ↦ λ e. cc ] h
weekday_eq→eq tue v h =
    elim v as (λ k. weekday_eq tue k ≡ true → tue ≡ k) [ tue ↦ λ e. refl | _ ↦ λ e. cc ] h
weekday_eq→eq wed v h =
    elim v as (λ k. weekday_eq wed k ≡ true → wed ≡ k) [ wed ↦ λ e. refl | _ ↦ λ e. cc ] h
weekday_eq→eq thu v h =
    elim v as (λ k. weekday_eq thu k ≡ true → thu ≡ k) [ thu ↦ λ e. refl | _ ↦ λ e. cc ] h
weekday_eq→eq fri v h =
    elim v as (λ k. weekday_eq fri k ≡ true → fri ≡ k) [ fri ↦ λ e. refl | _ ↦ λ e. cc ] h
weekday_eq→eq sat v h =
    elim v as (λ k. weekday_eq sat k ≡ true → sat ≡ k) [ sat ↦ λ e. refl | _ ↦ λ e. cc ] h
weekday_eq→eq sun v h =
    elim v as (λ k. weekday_eq sun k ≡ true → sun ≡ k) [ sun ↦ λ e. refl | _ ↦ λ e. cc ] h

pub occurs-week : (v : Weekday) → occurs v week ≡ true
occurs-week mon = refl
occurs-week tue = refl
occurs-week wed = refl
occurs-week thu = refl
occurs-week fri = refl
occurs-week sat = refl
occurs-week sun = refl

one_day :
    (v : Weekday) (t : ℕ) (g : Grouped) (w : Weekday) (later : Bool)
    → ((weekday_eq w v && covers t (g w)) || (later && covers t (g v)))
      ≡ ((weekday_eq w v || later) && covers t (g v))
one_day v t g w later = elim (Bool-cases (weekday_eq w v)) [
  | inr other ↦ rw other refl
  | inl same ↦ rw (same, weekday_eq→eq w v same) (or_absorb (covers t (g v)) later)
]

pub in_maintenance-emit :
    (v : Weekday) (t : ℕ) (g : Grouped) (days : List Weekday)
    → ((w : Weekday) → IsProper (g w))
    → in_maintenance v t (emit g days) ≡ (occurs v days && covers t (g v))
unfolding emit merged_of
in_maintenance-emit v t g [] p = refl
in_maintenance-emit v t g (w ∷ days) p =
    let merged = merge_all [] (sort_by_start (g w)) in
    let (same, apart) = merge_all-sort_by_start (g w) (p w) in
    let inside = merged-EndsInDay (g w) (IsProper-EndsInDay (g w) (p w)) in
    in_maintenance-append v t (to_configs w merged) (emit g days)
    ∙ rw
        (
          in_maintenance-to_configs w v t 0 merged apart inside,
          same t,
          in_maintenance-emit v t g days p,
        )
        (one_day v t g w (occurs v days))
