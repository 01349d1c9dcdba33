-- ===== src/Capture/Lines/Progress.antt =====
-- What `read_bounded_line` takes from a reader.
use koc_core.Common.{
  ℕ, ◌+◌, ◌<◌, ◌≡◌, sym, ap, subst, inl, inr, true, false, Option, none, some, List, [], ◌∷◌, ◌++◌,
  take-append-drop, length, length-append, take, drop, ltb, Bool-cases, arith,
}
use koc_core.Common.Results.{Result, ok, err}
use koc_core.Capture.Lines.{
  Reader, at_end, broken, buffered, LineError, line_take, ends_line, read_bounded_line,
}
use koc_core.Capture.Lines.Correct.{
  bytes, NeverFails, buffer-cases, length-take-line_take, ends_line-longer, longer, length-longer,
  read-over, read-ends, read-goes_on,
}

-- A line has a byte at least, and its bytes are those that the reader has no longer.
abbrev pub IsTaken : ℕ → Option (List ℕ) → Reader → Type 0
IsTaken before none rest = Unit
IsTaken before (some line) rest = (0 < length line) × (length line + length (bytes rest) ≡ before)

abbrev pub IsReadFrom : ℕ → Reader → Result (Option (List ℕ) × Reader) LineError → Type 0
IsReadFrom before reader (err e) = Unit
IsReadFrom before reader (ok (line, rest)) =
    IsTaken before line rest × (NeverFails reader → NeverFails rest)

longer-bytes :
    (max_bytes : ℕ) (line : List ℕ) (b : ℕ) (bs : List ℕ) (reader : Reader)
    → length (longer max_bytes line b bs reader)
        + length (drop (line_take (b ∷ bs)) (b ∷ bs) ++ bytes reader)
      ≡ length line + length ((b ∷ bs) ++ bytes reader)
unfolding longer
longer-bytes max_bytes line b bs reader =
    let w = line_take (b ∷ bs) in
    omega (
      arith,
      length-append line (take w (b ∷ bs)),
      length-append (take w (b ∷ bs)) (drop w (b ∷ bs)),
      ap length (take-append-drop w (b ∷ bs)),
      length-append (drop w (b ∷ bs)) (bytes reader),
      length-append (b ∷ bs) (bytes reader),
    )

-- A buffer without the end of the line is taken whole.
longer-whole :
    (max_bytes : ℕ) (line : List ℕ) (b : ℕ) (bs : List ℕ) (reader : Reader)
    → ends_line (longer max_bytes line b bs reader) ≡ false
    → length (longer max_bytes line b bs reader) + length (bytes reader)
      ≡ length line + length ((b ∷ bs) ++ bytes reader)
longer-whole max_bytes line b bs reader h = elim (buffer-cases b bs (bytes reader)) [
  | inl (ends, e) ↦ let last = ends_line-longer max_bytes line b bs reader in cc
  | inr (t, goes, e) ↦ omega (
    arith,
    length-longer max_bytes line b bs reader,
    length-take-line_take (b ∷ bs),
    ap length t,
    length-append (b ∷ bs) (bytes reader),
  )
]

ends_line-pos : (line : List ℕ) → ends_line line ≡ true → 0 < length line
unfolding ends_line
ends_line-pos [] h = cc
ends_line-pos (b ∷ bs) h = omega arith

read_bounded_line-IsReadFrom :
    (max_bytes : ℕ) (line : List ℕ) (reader : Reader)
    → IsReadFrom
        (length line + length (bytes reader))
        reader
        (read_bounded_line max_bytes line reader)
unfolding read_bounded_line
read_bounded_line-IsReadFrom max_bytes [] at_end = (tt, λ n. n)
read_bounded_line-IsReadFrom max_bytes (a ∷ line) at_end = ((omega arith, omega arith), λ n. n)
read_bounded_line-IsReadFrom max_bytes line broken = tt
read_bounded_line-IsReadFrom max_bytes line (buffered [] reader) =
    read_bounded_line-IsReadFrom max_bytes line reader
read_bounded_line-IsReadFrom max_bytes line (buffered (b ∷ bs) reader) =
    let l = longer max_bytes line b bs reader in
    let before = length line + length ((b ∷ bs) ++ bytes reader) in
    elim (Bool-cases (ltb max_bytes (length line + line_take (b ∷ bs)))) [
      | inl over ↦
          subst (λ x. IsReadFrom before (buffered (b ∷ bs) reader) x)
            (sym (read-over max_bytes line b bs reader over)) tt
      | inr fits ↦ elim (Bool-cases (ends_line l)) [
        | inl ends ↦
            subst (λ x. IsReadFrom before (buffered (b ∷ bs) reader) x)
              (sym (read-ends max_bytes line b bs reader fits ends))
              ((ends_line-pos l ends, longer-bytes max_bytes line b bs reader), λ n. n)
        | inr goes ↦
            subst (λ x. IsReadFrom before (buffered (b ∷ bs) reader) x)
              (sym (read-goes_on max_bytes line b bs reader fits goes))
              (subst (λ k. IsReadFrom k reader (read_bounded_line max_bytes l reader))
                (longer-whole max_bytes line b bs reader goes)
                (read_bounded_line-IsReadFrom max_bytes l reader))
      ]
    ]

pub read_bounded_line-IsReadFrom_start :
    (max_bytes : ℕ) (reader : Reader)
    → IsReadFrom (length (bytes reader)) reader (read_bounded_line max_bytes [] reader)
read_bounded_line-IsReadFrom_start max_bytes reader =
    let start : 0 + length (bytes reader) ≡ length (bytes reader) = omega arith in
    subst (λ k. IsReadFrom k reader (read_bounded_line max_bytes [] reader)) start
      (read_bounded_line-IsReadFrom max_bytes [] reader)
