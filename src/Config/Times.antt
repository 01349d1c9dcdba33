-- ===== src/Config/Times.antt =====
-- `parse_weekday`, `weekday_to_short`, `parse_hhmm_strict` and `minutes_to_hhmm` of src/config.rs.
use koc_core.Common.{
  ℕ, ◌+◌, ◌-◌, ◌/◌, ◌%◌, ◌^◌, ◌<◌, ◌≡◌, refl, Bool, true, false, Option, none, some, List, [], ◌∷◌,
  ◌++◌, map, ltb, leb, ◌==◌, ◌&&◌, ◌||◌, if◌then◌else◌, arith,
}
use koc_core.Common.Bits.{all_below, all_below_sound}
use koc_core.Common.Codes.{codes}
use koc_core.Json.{Text}
use koc_core.Bon.Encoder.{text_eq}
use koc_core.ErrorCodes.{digits, parse_digits, parse_magnitude}

-- `chrono::Weekday`
pub data Weekday : Type 0 where
  mon tue wed thu fri sat sun : Weekday

abbrev pub to_ascii_lowercase : Text → Text
to_ascii_lowercase s = map (λ c. if leb 65 c && leb c 90 then c + 32 else c) s

-- The names of one arm of the `match`.
abbrev pub one_of : Text → List Text → Bool
one_of s [] = false
one_of s (name ∷ names) = text_eq s name || one_of s names

unfoldable pub parse_weekday : Text → Option Weekday
parse_weekday raw =
    let s = to_ascii_lowercase raw in
    if one_of s (codes "mon" ∷ codes "monday" ∷ [])
    then some mon
    else if one_of s (codes "tue" ∷ codes "tues" ∷ codes "tuesday" ∷ [])
    then some tue
    else if one_of s (codes "wed" ∷ codes "wednesday" ∷ [])
    then some wed
    else if one_of s (codes "thu" ∷ codes "thur" ∷ codes "thurs" ∷ codes "thursday" ∷ [])
    then some thu
    else if one_of s (codes "fri" ∷ codes "friday" ∷ [])
    then some fri
    else if one_of s (codes "sat" ∷ codes "saturday" ∷ [])
    then some sat
    else if one_of s (codes "sun" ∷ codes "sunday" ∷ [])
    then some sun
    else none

unfoldable pub weekday_to_short : Weekday → Text
weekday_to_short mon = codes "Mon"
weekday_to_short tue = codes "Tue"
weekday_to_short wed = codes "Wed"
weekday_to_short thu = codes "Thu"
weekday_to_short fri = codes "Fri"
weekday_to_short sat = codes "Sat"
weekday_to_short sun = codes "Sun"

-- `raw.split(':').collect()`
abbrev pub cons_first : ℕ → List Text → List Text
cons_first c [] = (c ∷ []) ∷ []
cons_first c (part ∷ parts) = (c ∷ part) ∷ parts

unfoldable pub split_colon : Text → List Text
split_colon [] = [] ∷ []
split_colon (c ∷ cs) = let rest = split_colon cs in if c == 58 then [] ∷ rest else cons_first c rest

-- `parse::<u32>`
unfoldable pub parse_u32 : Text → Option ℕ
unfolding parse_digits
parse_u32 [] = none
parse_u32 (c ∷ cs) = parse_magnitude (2 ^ 32 - 1) (if c == 43 then cs else c ∷ cs)

-- `if h > 23 || m > 59 { return None; } Some((h, m))`
abbrev pub in_day : ℕ → ℕ → Option (ℕ × ℕ)
in_day h m = if ltb 23 h || ltb 59 m then none else some (h, m)

abbrev pub parse_parts : List Text → Option (ℕ × ℕ)
parse_parts (hours ∷ minutes ∷ []) = elim (parse_u32 hours) [
  | none ↦ none
  | some h ↦ elim (parse_u32 minutes) [ none ↦ none | some m ↦ in_day h m ]
]
parse_parts other = none

unfoldable pub parse_hhmm_strict : Text → Option (ℕ × ℕ)
unfolding split_colon parse_u32
parse_hhmm_strict raw = parse_parts (split_colon raw)

unfoldable pub parse_hhmm_with_fallback : Text → ℕ × ℕ → ℕ × ℕ
unfolding parse_hhmm_strict
parse_hhmm_with_fallback raw fallback = elim (parse_hhmm_strict raw) [
  | none ↦ fallback
  | some t ↦ t
]

-- `{:02}` on a `u32`
abbrev pub two_digits : ℕ → Text
two_digits n = if ltb n 10 then 48 ∷ (48 + n) ∷ [] else digits 10 n

unfoldable pub minutes_to_hhmm : ℕ → Text
unfolding digits
minutes_to_hhmm total = two_digits (total / 60) ++ 58 ∷ two_digits (total % 60)

abbrev pair_is : ℕ → ℕ → Option (ℕ × ℕ) → Bool
pair_is h m none = false
pair_is h m (some (h', m')) = (h' == h) && (m' == m)

-- Every minute of a day.
day_table :
    all_below 1440 (λ t. pair_is (t / 60) (t % 60) (parse_hhmm_strict (minutes_to_hhmm t))) ≡ true
unfolding all_below parse_hhmm_strict minutes_to_hhmm
day_table = refl

pair_is_sound : (h m : ℕ) (o : Option (ℕ × ℕ)) → pair_is h m o ≡ true → o ≡ some (h, m)
pair_is_sound h m none e = cc
pair_is_sound h m (some (h', m')) e = ground arith

-- The text of a minute of the day is read as its hour and minute.
pub parse_hhmm_strict-minutes_to_hhmm :
    (t : ℕ) → t < 1440 → parse_hhmm_strict (minutes_to_hhmm t) ≡ some (t / 60, t % 60)
parse_hhmm_strict-minutes_to_hhmm t h =
    pair_is_sound (t / 60) (t % 60) _ (all_below_sound 1440 t _ h day_table)

-- The short name of a weekday is read as that weekday.
pub parse_weekday-weekday_to_short : (w : Weekday) → parse_weekday (weekday_to_short w) ≡ some w
unfolding parse_weekday weekday_to_short
parse_weekday-weekday_to_short mon = refl
parse_weekday-weekday_to_short tue = refl
parse_weekday-weekday_to_short wed = refl
parse_weekday-weekday_to_short thu = refl
parse_weekday-weekday_to_short fri = refl
parse_weekday-weekday_to_short sat = refl
parse_weekday-weekday_to_short sun = refl
