-- ===== src/Capture/Lines/Correct.antt =====
-- A line that is read in pieces, and the line of the whole text.
use koc_core.Common.{
  ℕ, suc, ◌+◌, ◌==◌, ◌≤◌, ◌≡◌, refl, sym, ap, ◌∙◌, ◌⊎◌, inl, inr, true, false, Option, some, List,
  [], ◌∷◌, ◌++◌, append_assoc, append-nil, ltb→lt, lt→ltb, length, length-append, take, drop, ltb,
  if◌then◌else◌, Bool-cases, arith,
}
use koc_core.Common.Results.{Result, ok, err}
use koc_core.Capture.Lines.{
  newline, Reader, at_end, broken, buffered, LineError, line_exceeds, line_take, ends_line,
  line_or_none, read_bounded_line,
}

-- All bytes that are still to be read.
abbrev pub bytes : Reader → List ℕ
bytes at_end = []
bytes broken = []
bytes (buffered bs reader) = bs ++ bytes reader

abbrev pub NeverFails : Reader → Type 0
NeverFails at_end = Unit
NeverFails broken = ⊥
NeverFails (buffered bs reader) = NeverFails reader

-- The first line, with its end, and what follows it.
abbrev pub split_line : List ℕ → List ℕ × List ℕ
split_line [] = ([], [])
split_line (b ∷ bs) =
    let (line, rest) = split_line bs in if b == newline then (b ∷ [], bs) else (b ∷ line, rest)

-- What is read, with the reader seen as its bytes.
abbrev pub seen :
    Result (Option (List ℕ) × Reader) LineError → Result (Option (List ℕ) × List ℕ) LineError
seen (err e) = err e
seen (ok (line, reader)) = ok (line, bytes reader)

abbrev pub bounded : ℕ → List ℕ → List ℕ → Result (Option (List ℕ) × List ℕ) LineError
bounded max_bytes line rest =
    if ltb max_bytes (length line)
    then err (line_exceeds max_bytes)
    else ok (line_or_none line, rest)

-- A buffer holds the end of the line, or all of it belongs to the line.
abbrev pub EndsIn : List ℕ → List ℕ → Type 0
EndsIn bs rest =
    (ends_line (take (line_take bs) bs) ≡ true)
    × (split_line (bs ++ rest) ≡ (take (line_take bs) bs, drop (line_take bs) bs ++ rest))

abbrev pub GoesOn : List ℕ → List ℕ → Type 0
GoesOn bs rest =
    (take (line_take bs) bs ≡ bs)
    × (ends_line bs ≡ false)
    × (split_line (bs ++ rest) ≡ (bs ++ (split_line rest).0, (split_line rest).1))

ends_line-append :
    (line : List ℕ) (b : ℕ) (bs : List ℕ) → ends_line (line ++ b ∷ bs) ≡ ends_line (b ∷ bs)
unfolding ends_line
ends_line-append [] b bs = refl
ends_line-append (a ∷ []) b bs = refl
ends_line-append (a ∷ c ∷ line) b bs = ends_line-append (c ∷ line) b bs

ends_line-cons : (b : ℕ) (bs : List ℕ) → ends_line bs ≡ true → ends_line (b ∷ bs) ≡ true
unfolding ends_line
ends_line-cons b [] h = cc
ends_line-cons b (c ∷ bs) h = h

pub buffer-cases : (b : ℕ) (bs rest : List ℕ) → EndsIn (b ∷ bs) rest ⊎ GoesOn (b ∷ bs) rest
unfolding line_take ends_line
buffer-cases b [] rest = elim (Bool-cases (b == newline)) [
  | inl end ↦ inl (rw end (end, refl))
  | inr more ↦ inr (rw more (refl, refl, refl))
]
buffer-cases b (c ∷ cs) rest = elim (Bool-cases (b == newline)) [
  | inl end ↦ inl (rw end (end, refl))
  | inr more ↦ elim (buffer-cases c cs rest) [
    | inl (h, e) ↦ inl (
        rw more
          (ends_line-cons b (take (line_take (c ∷ cs)) (c ∷ cs)) h, ap (λ p. (b ∷ p.0, p.1)) e))
    | inr (t, h, e) ↦ inr (rw more (ap (λ xs. b ∷ xs) t, h, ap (λ p. (b ∷ p.0, p.1)) e))
  ]
]

ends_line-some : (line : List ℕ) → ends_line line ≡ true → line_or_none line ≡ some line
unfolding ends_line
ends_line-some [] h = cc
ends_line-some (b ∷ bs) h = refl

pub length-take-line_take : (bs : List ℕ) → length (take (line_take bs) bs) ≡ line_take bs
unfolding line_take
length-take-line_take [] = refl
length-take-line_take (b ∷ bs) = elim (Bool-cases (b == newline)) [
  | inl end ↦ rw end refl
  | inr more ↦ rw more (ap suc (length-take-line_take bs))
]

bounded-over :
    (max_bytes : ℕ) (line rest : List ℕ)
    → ltb max_bytes (length line) ≡ true
    → bounded max_bytes line rest ≡ err (line_exceeds max_bytes)
bounded-over max_bytes line rest h = rw h refl

bounded-within :
    (max_bytes : ℕ) (line rest : List ℕ)
    → ltb max_bytes (length line) ≡ false
    → bounded max_bytes line rest ≡ ok (line_or_none line, rest)
bounded-within max_bytes line rest h = rw h refl

module _ (max_bytes : ℕ) (line : List ℕ) (b : ℕ) (bs : List ℕ) (reader : Reader) where
  unfoldable pub longer : List ℕ
  longer = line ++ take (line_take (b ∷ bs)) (b ∷ bs)

  pub length-longer : length longer ≡ length line + line_take (b ∷ bs)
  unfolding longer
  length-longer = omega (
    arith,
    length-append line (take (line_take (b ∷ bs)) (b ∷ bs)),
    length-take-line_take (b ∷ bs),
  )

  pub ends_line-longer : ends_line longer ≡ ends_line (take (line_take (b ∷ bs)) (b ∷ bs))
  unfolding longer line_take
  ends_line-longer = elim (Bool-cases (b == newline)) [
    | inl end ↦ rw end (ends_line-append line b [])
    | inr more ↦ rw more (ends_line-append line b (take (line_take bs) bs))
  ]

  pub read-over :
      ltb max_bytes (length line + line_take (b ∷ bs)) ≡ true
      → read_bounded_line max_bytes line (buffered (b ∷ bs) reader) ≡ err (line_exceeds max_bytes)
  unfolding read_bounded_line
  read-over h = rw h refl

  pub read-ends :
      ltb max_bytes (length line + line_take (b ∷ bs)) ≡ false
      → ends_line longer ≡ true
      → read_bounded_line max_bytes line (buffered (b ∷ bs) reader)
        ≡ ok (some longer, buffered (drop (line_take (b ∷ bs)) (b ∷ bs)) reader)
  unfolding read_bounded_line longer
  read-ends h e = rw (h, e) refl

  pub read-goes_on :
      ltb max_bytes (length line + line_take (b ∷ bs)) ≡ false
      → ends_line longer ≡ false
      → read_bounded_line max_bytes line (buffered (b ∷ bs) reader)
        ≡ read_bounded_line max_bytes longer reader
  unfolding read_bounded_line longer
  read-goes_on h e = rw (h, e) refl

read_bounded_line-seen :
    (max_bytes : ℕ) (line : List ℕ) (reader : Reader)
    → NeverFails reader
    → length line ≤ max_bytes
    → seen (read_bounded_line max_bytes line reader)
      ≡ bounded max_bytes (line ++ (split_line (bytes reader)).0) (split_line (bytes reader)).1
unfolding read_bounded_line longer
read_bounded_line-seen max_bytes line at_end n h =
    rw (append-nil line) (sym (bounded-within max_bytes line [] (ground arith)))
read_bounded_line-seen max_bytes line broken n h = elim n [ ]
read_bounded_line-seen max_bytes line (buffered [] reader) n h =
    read_bounded_line-seen max_bytes line reader n h
read_bounded_line-seen max_bytes line (buffered (b ∷ bs) reader) n h =
    let w = line_take (b ∷ bs) in
    let l = longer max_bytes line b bs reader in
    let r = split_line (bytes reader) in
    let size = length-longer max_bytes line b bs reader in
    let last = ends_line-longer max_bytes line b bs reader in
    elim (buffer-cases b bs (bytes reader)) [
      | inl (ends, e) ↦ elim (Bool-cases (ltb max_bytes (length line + w))) [
        | inl over ↦
            ap seen (read-over max_bytes line b bs reader over)
            ∙ sym (
                ap (λ p. bounded max_bytes (line ++ p.0) p.1) e
                ∙ bounded-over max_bytes l _ (ap (ltb max_bytes) size ∙ over))
        | inr fits ↦
            ap seen (read-ends max_bytes line b bs reader fits (last ∙ ends))
            ∙ sym (
                ap (λ p. bounded max_bytes (line ++ p.0) p.1) e
                ∙ bounded-within max_bytes l _ (ap (ltb max_bytes) size ∙ fits)
                ∙ ap (λ o. ok (o, drop w (b ∷ bs) ++ bytes reader))
                    (ends_line-some l (last ∙ ends)))
      ]
      | inr (t, goes, e) ↦
          let long : length (b ∷ bs) ≡ w = sym (ap length t) ∙ length-take-line_take (b ∷ bs) in
          elim (Bool-cases (ltb max_bytes (length line + w))) [
            | inl over ↦
                ap seen (read-over max_bytes line b bs reader over)
                ∙ sym (
                    ap (λ p. bounded max_bytes (line ++ p.0) p.1) e
                    ∙ bounded-over max_bytes _ _ (
                        lt→ltb _ _ (
                          omega (
                            arith,
                            ltb→lt _ _ over,
                            long,
                            length-append line ((b ∷ bs) ++ r.0),
                            length-append (b ∷ bs) r.0,
                          ))))
            | inr fits ↦
                ap seen
                  (read-goes_on max_bytes line b bs reader fits (last ∙ ap ends_line t ∙ goes))
                ∙ read_bounded_line-seen max_bytes l reader n (ground (arith, size))
                ∙ sym (
                    ap (λ p. bounded max_bytes (line ++ p.0) p.1) e
                    ∙ ap (λ x. bounded max_bytes x r.1)
                        (sym (ap (λ x. (line ++ x) ++ r.0) t ∙ append_assoc line (b ∷ bs) r.0)))
          ]
    ]

-- From a reader that never fails, `read_bounded_line` reads what the whole of its bytes says,
-- however they are cut into buffers: the bytes up to the first newline, which is read as well, or
-- up to the end; nothing if none are left; and the error if these bytes are more than the bound.
-- What follows them is left to be read.
pub read_bounded_line-split_line :
    (max_bytes : ℕ) (reader : Reader)
    → NeverFails reader
    → seen (read_bounded_line max_bytes [] reader)
      ≡ bounded max_bytes (split_line (bytes reader)).0 (split_line (bytes reader)).1
read_bounded_line-split_line max_bytes reader n =
    read_bounded_line-seen max_bytes [] reader n (omega arith)
