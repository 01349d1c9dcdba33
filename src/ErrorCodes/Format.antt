-- ===== src/ErrorCodes/Format.antt =====
-- The code of a formatted error is found again in its text.
use koc_core.Common.{
  ℕ, zero, suc, ◌+◌, ◌-◌, ◌*◌, ◌/◌, ◌%◌, ◌^◌, ◌≤◌, ◌<◌, ◌≡◌, refl, ap, ◌∙◌, Bool, true, false,
  Option, none, some, List, [], ◌∷◌, ◌++◌, append_assoc, append-nil, ltb, leb, ◌==◌, ◌&&◌,
  Bool-cases, Option-cases, inl, inr, arith,
}
use koc_core.Common.Int.{ℤ, pos, negsuc, ℤ_eq, eq_of_parts}
use koc_core.Common.Results.{err, All}
use koc_core.Json.{Text}
use koc_core.Bon.Integers.{IsI32}
use koc_core.ErrorCodes.Table.{done_error_codes}
use koc_core.ErrorCodes.{
  lookup, find_last, contains, is_done_error, digits, show_i32, bracketed, format_error,
  before_bracket, parse_digits, parse_i32, parse_magnitude, extract_code_from_error, is_done_result,
}

-- The sign and the digits: no bracket among them.
abbrev IsPlain : ℕ → Type 0
IsPlain c = c < 93

append-IsPlain : (s t : Text) → All IsPlain s → All IsPlain t → All IsPlain (s ++ t)
append-IsPlain [] t h k = k
append-IsPlain (c ∷ s) t (hc, h) k = (hc, append-IsPlain s t h k)

digits-IsPlain : (fuel n : ℕ) → All IsPlain (digits fuel n)
unfolding digits
digits-IsPlain zero n = tt
digits-IsPlain (suc fuel) n = elim (Bool-cases (ltb n 10)) [
  | inl last ↦ rw last (ground arith, tt)
  | inr more ↦ rw more (
      append-IsPlain (digits fuel (n / 10)) ((48 + n % 10) ∷ []) (digits-IsPlain fuel (n / 10))
        (omega arith, tt))
]

show_i32-IsPlain : (c : ℤ) → All IsPlain (show_i32 c)
unfolding show_i32
show_i32-IsPlain (pos n) = digits-IsPlain 10 n
show_i32-IsPlain (negsuc n) = (omega arith, digits-IsPlain 10 (suc n))

before_bracket-plain : (s t : Text) → All IsPlain s → before_bracket (s ++ 93 ∷ t) ≡ some s
unfolding before_bracket
before_bracket-plain [] t h = refl
before_bracket-plain (c ∷ s) t (hc, h) =
    let other : (c == 93) ≡ false = ground arith in rw (other, before_bracket-plain s t h)

-- One digit of a number within the limit is read.
parse_digit :
    (limit acc d : ℕ) (t : Text)
    → d < 10
    → acc * 10 + d ≤ limit
    → parse_digits limit acc ((48 + d) ∷ t) ≡ parse_digits limit (acc * 10 + d) t
unfolding parse_digits
parse_digit limit acc d t hd h =
    let low : leb 48 (48 + d) ≡ true = ground arith in
    let high : leb (48 + d) 57 ≡ true = ground arith in
    let back : 48 + d - 48 ≡ d = omega arith in
    let within : leb (acc * 10 + d) limit ≡ true = ground arith in rw (low, high, back, within)

parse_digits-digits :
    (limit fuel n : ℕ) (t : Text)
    → n < 10 ^ fuel
    → n ≤ limit
    → parse_digits limit 0 (digits fuel n ++ t) ≡ parse_digits limit n t
unfolding digits
parse_digits-digits limit zero n t hf h = let none_left : n ≡ 0 = omega arith in rw none_left
parse_digits-digits limit (suc fuel) n t hf h = elim (Bool-cases (ltb n 10)) [
  | inl last ↦
      let start : 0 * 10 + n ≡ n = omega arith in
      let one = parse_digit limit 0 n t (ground arith) (omega arith) in rw last (rw start at one)
  | inr more ↦
      let rest =
        parse_digits-digits limit fuel (n / 10) ((48 + n % 10) ∷ t) (omega arith) (omega arith) in
      let one = parse_digit limit (n / 10) (n % 10) t (omega arith) (omega arith) in
      let whole : n / 10 * 10 + n % 10 ≡ n = omega arith in
      rw (more, append_assoc, rest, one, whole)
]

-- A text of digits is not empty.
digits-cons : (fuel n : ℕ) → (c : ℕ) × (s : Text) × (digits (suc fuel) n ≡ c ∷ s) × (47 < c)
unfolding digits
digits-cons zero n = elim (Bool-cases (ltb n 10)) [
  | inl last ↦ rw last (48 + n, [], refl, omega arith)
  | inr more ↦ rw more (48 + n % 10, [], refl, omega arith)
]
digits-cons (suc fuel) n = elim (Bool-cases (ltb n 10)) [
  | inl last ↦ rw last (48 + n, [], refl, omega arith)
  | inr more ↦
      let (c, s, e, h) = digits-cons fuel (n / 10) in
      rw more (c, s ++ (48 + n % 10) ∷ [], ap (λ d. d ++ (48 + n % 10) ∷ []) e, h)
]

parse_magnitude-digits :
    (limit n : ℕ) → n < 10 ^ 10 → n ≤ limit → parse_magnitude limit (digits 10 n) ≡ some n
parse_magnitude-digits limit n hf h =
    let (c, s, e, _) = digits-cons 9 n in
    let whole : parse_digits limit 0 (digits 10 n) ≡ some n =
      rw (append-nil (digits 10 n)) at (parse_digits-digits limit 10 n [] hf h)
      ∙ (unfold parse_digits in refl) in
    let spelled : parse_digits limit 0 (c ∷ s) ≡ some n = rw e at whole in rw e spelled

parse_i32-show_i32 : (c : ℤ) → IsI32 c → parse_i32 (show_i32 c) ≡ some c
unfolding parse_i32 show_i32
parse_i32-show_i32 (pos n) h =
    let (c, s, e, hc) = digits-cons 9 n in
    let read : parse_magnitude (2 ^ 31 - 1) (c ∷ s) ≡ some n =
      rw e at (parse_magnitude-digits (2 ^ 31 - 1) n (omega arith) (omega arith)) in
    let minus : (c == 45) ≡ false = ground arith in
    let plus : (c == 43) ≡ false = ground arith in rw (e, minus, plus, read)
parse_i32-show_i32 (negsuc n) h =
    rw (parse_magnitude-digits (2 ^ 31) (suc n) (omega arith) (omega arith))

extract_code-bracketed :
    (c : ℤ) (t : Text) → IsI32 c → extract_code_from_error (bracketed c t) ≡ some c
unfolding extract_code_from_error
extract_code-bracketed c t h =
    let found = before_bracket-plain (show_i32 c) (32 ∷ t) (show_i32-IsPlain c) in
    rw (found, parse_i32-show_i32 c h)

-- The code of an error, an i32, is read back from its formatted text, whatever the description or hint.
pub extract_code_from_error-format_error :
    (c : ℤ) (hint : Option Text) → IsI32 c → extract_code_from_error (format_error c hint) ≡ some c
unfolding format_error
extract_code_from_error-format_error c hint h = elim (Option-cases (lookup c)) [
  | inr (d, known) ↦ rw (known, format_error) (extract_code-bracketed c d h)
  | inl unknown ↦ elim (Option-cases hint) [
    | inr (t, given) ↦ rw (unknown, format_error, given) (extract_code-bracketed c t h)
    | inl missing ↦ rw (unknown, format_error, missing) (extract_code-bracketed c _ h)
  ]
]

-- A task that failed with a formatted error counts as done exactly when its code, an i32, is a done code.
pub is_done_result-format_error :
    (N : Type 0) (c : ℤ) (hint : Option Text)
    → IsI32 c
    → is_done_result {N = N} (err (format_error c hint)) ≡ is_done_error c
unfolding is_done_result
is_done_result-format_error N c hint h =
    rw (is_done_result, extract_code_from_error-format_error c hint h)

unfoldable is_described : ℤ → Bool
is_described c = elim (lookup c) [ none ↦ false | some d ↦ true ]

abbrev all_described : List ℤ → Bool
all_described [] = true
all_described (c ∷ cs) = is_described c && all_described cs

table_described : all_described done_error_codes ≡ true
unfolding lookup find_last is_described
table_described = refl

contains-described :
    (c : ℤ) (ks : List ℤ) → all_described ks ≡ true → contains c ks ≡ true → is_described c ≡ true
unfolding contains
contains-described c [] h e = cc
contains-described c (k ∷ ks) h e = elim (Bool-cases (ℤ_eq k c)) [
  | inl same ↦ let k≡c : k ≡ c = eq_of_parts k c (ground arith) in rw (← k≡c) (ground arith)
  | inr other ↦ contains-described c ks (ground arith) (rw other at e)
]

-- Every code that ends a task has a description.
pub is_done_error-described : (c : ℤ) → is_done_error c ≡ true → (d : Text) × (lookup c ≡ some d)
unfolding is_done_error is_described
is_done_error-described c e = elim (Option-cases (lookup c)) [
  | inr found ↦ found
  | inl missing ↦
      let described = contains-described c done_error_codes table_described e in
      absurd (cc (rw (missing, is_described) at described))
]
