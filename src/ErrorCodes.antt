-- ===== src/ErrorCodes.antt =====
-- src/error_codes.rs: descriptions of the server's codes, and the codes that end a task.
pub mod Table
pub mod Format
pub mod Tests
use koc_core.Common.{
  ℕ, zero, suc, ◌+◌, ◌-◌, ◌*◌, ◌/◌, ◌%◌, ◌^◌, ◌<◌, Bool, true, false, Option, none, some, List, [],
  ◌∷◌, ◌++◌, ltb, leb, ◌==◌, ◌&&◌, if◌then◌else◌,
}
use koc_core.Common.Codes.{codes}
use koc_core.Common.Int.{ℤ, pos, negsuc, ℤ_eq}
use koc_core.Common.Results.{Result, ok, err}
use koc_core.Json.{Text, Value}
use koc_core.ErrorCodes.Table.{error_code_map, done_error_codes}

-- A later `insert` under the same code would win.
unfoldable pub find_last : ℤ → List (ℤ × Text) → Option Text
find_last c [] = none
find_last c ((k, desc) ∷ m) =
    let rest = find_last c m in
    elim rest [ some d ↦ some d | none ↦ if ℤ_eq k c then some desc else none ]

unfoldable pub lookup : ℤ → Option Text
unfolding find_last
lookup code = find_last code error_code_map

unfoldable pub contains : ℤ → List ℤ → Bool
contains c [] = false
contains c (k ∷ ks) = let rest = contains c ks in if ℤ_eq k c then true else rest

unfoldable pub is_done_error : ℤ → Bool
unfolding contains
is_done_error code = contains code done_error_codes

-- `{}` on an integer. Fuel bounds the number of digits: an `i32` has at most ten.
unfoldable pub digits : ℕ → ℕ → Text
digits zero n = []
digits (suc fuel) n =
    let rest = digits fuel (n / 10) in
    if ltb n 10 then (48 + n) ∷ [] else rest ++ (48 + n % 10) ∷ []

unfoldable pub show_i32 : ℤ → Text
unfolding digits
show_i32 (pos n) = digits 10 n
show_i32 (negsuc n) = 45 ∷ digits 10 (suc n)

-- `format!("[{}] {}", code, text)`
abbrev pub bracketed : ℤ → Text → Text
bracketed code text = 91 ∷ (show_i32 code ++ 93 ∷ 32 ∷ text)

unfoldable pub format_error : ℤ → Option Text → Text
unfolding lookup show_i32
format_error code hint = elim (lookup code) [
  | some desc ↦ bracketed code desc
  | none ↦ elim hint [ some h ↦ bracketed code h | none ↦ bracketed code (codes "unknown code") ]
]

-- `err[..].find(']')`, with the text before the bracket.
unfoldable pub before_bracket : Text → Option Text
before_bracket [] = none
before_bracket (c ∷ cs) =
    let rest = before_bracket cs in
    if c == 93 then some [] else elim rest [ none ↦ none | some t ↦ some (c ∷ t) ]

-- `parse::<i32>` on digits: every prefix must stay in range, and each character must be a digit.
unfoldable pub parse_digits : ℕ → ℕ → Text → Option ℕ
parse_digits limit acc [] = some acc
parse_digits limit acc (c ∷ cs) =
    let acc' = acc * 10 + (c - 48) in
    let rest = parse_digits limit acc' cs in
    if leb 48 c && leb c 57 then if leb acc' limit then rest else none else none

abbrev pub parse_magnitude : ℕ → Text → Option ℕ
parse_magnitude limit [] = none
parse_magnitude limit (c ∷ cs) = parse_digits limit 0 (c ∷ cs)

-- `-n`
abbrev pub negated : ℕ → ℤ
negated zero = pos zero
negated (suc n) = negsuc n

-- One sign may stand before the digits.
unfoldable pub parse_i32 : Text → Option ℤ
unfolding parse_digits
parse_i32 [] = none
parse_i32 (c ∷ cs) =
    if c == 45
    then elim (parse_magnitude (2 ^ 31) cs) [ none ↦ none | some n ↦ some (negated n) ]
    else elim (parse_magnitude (2 ^ 31 - 1) (if c == 43 then cs else c ∷ cs)) [
      | none ↦ none
      | some n ↦ some (pos n)
    ]

-- The slice `err[1..end]` starts after the opening bracket.
unfoldable pub extract_code_from_error : Text → Option ℤ
unfolding before_bracket parse_i32
extract_code_from_error [] = none
extract_code_from_error (c ∷ cs) =
    if c == 91 then elim (before_bracket cs) [ none ↦ none | some t ↦ parse_i32 t ] else none

unfoldable pub is_done_result : {N : Type 0} → Result (Value N) Text → Bool
unfolding extract_code_from_error is_done_error
is_done_result (ok v) = true
is_done_result (err e) = elim (extract_code_from_error e) [
  | some code ↦ is_done_error code
  | none ↦ false
]
