-- ===== src/Capture/Lines.antt =====
-- `read_bounded_line` of src/proxy_capture.rs: one line of a buffered reader.
pub mod Correct
pub mod Progress
use koc_core.Common.{
  ℕ, zero, suc, ◌+◌, ◌==◌, Bool, true, false, Option, none, some, List, [], ◌∷◌, ◌++◌, length, take,
  drop, ltb, if◌then◌else◌,
}
use koc_core.Common.Results.{Result, ok, err}

abbrev pub newline : ℕ
newline = 0x0a

-- A `BufRead`: the buffers that `fill_buf` returns one after the other, and then the end of the
-- file or an error. An empty buffer is one that is consumed.
pub data Reader : Type 0 where
  at_end broken : Reader
  buffered : List ℕ → Reader → Reader

pub data LineError : Type 0 where
  read_failed : LineError
  line_exceeds : ℕ → LineError

-- `available.iter().position(…).map(|p| p + 1).unwrap_or(available.len())`
unfoldable pub line_take : List ℕ → ℕ
line_take [] = 0
line_take (b ∷ bs) = let rest = line_take bs in if b == newline then 1 else suc rest

-- `line.last() == Some(&b'\n')`
unfoldable pub ends_line : List ℕ → Bool
ends_line [] = false
ends_line (b ∷ []) = b == newline
ends_line (b ∷ c ∷ bs) = ends_line (c ∷ bs)

abbrev pub line_or_none : List ℕ → Option (List ℕ)
line_or_none [] = none
line_or_none (b ∷ bs) = some (b ∷ bs)

-- The line so far is the second argument, empty at first. No buffer is longer than `isize::MAX`,
-- so that `saturating_add` is the sum.
unfoldable pub read_bounded_line : ℕ → List ℕ → Reader → Result (Option (List ℕ) × Reader) LineError
unfolding line_take ends_line
read_bounded_line max_bytes line at_end = ok (line_or_none line, at_end)
read_bounded_line max_bytes line broken = err read_failed
read_bounded_line max_bytes line (buffered [] reader) = read_bounded_line max_bytes line reader
read_bounded_line max_bytes line (buffered (b ∷ bs) reader) =
    let wanted = line_take (b ∷ bs) in
    let longer = line ++ take wanted (b ∷ bs) in
    let rest = read_bounded_line max_bytes longer reader in
    if ltb max_bytes (length line + wanted)
    then err (line_exceeds max_bytes)
    else if ends_line longer
    then ok (some longer, buffered (drop wanted (b ∷ bs)) reader)
    else rest
