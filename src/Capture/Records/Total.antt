-- ===== src/Capture/Records/Total.antt =====
-- `read_records` on the bytes of a reader: its end, and its result.
use koc_core.Common.{
  ℕ, zero, suc, ◌<◌, ◌≡◌, refl, sym, ap, subst, ◌∙◌, Option, none, some, List, [], length, arith,
}
use koc_core.Common.Results.{Result, ok, err}
use koc_core.Capture.Record.{CaptureRecord}
use koc_core.Capture.Lines.{Reader, LineError, read_bounded_line}
use koc_core.Capture.Lines.Correct.{
  bytes, NeverFails, seen, bounded, split_line, read_bounded_line-split_line,
}
use koc_core.Capture.Lines.Progress.{IsReadFrom, read_bounded_line-IsReadFrom_start}
use koc_core.Capture.Records.{
  ReadError, LineParser, Round, finished, continues, after_line, after_read, read_records,
  max_capture_line_bytes, handle_line,
}

module _ {S E : Type 0} (lib : LineParser) (callback : CaptureRecord → S → S × Option E) where
  abbrev Shrinks : ℕ → Round S E → Type 0
  Shrinks n (finished out) = Unit
  Shrinks n (continues s rest) = length (bytes rest) < n

  after_line-Shrinks :
      (n : ℕ) (rest : Reader) (o : S × Option (ReadError E))
      → length (bytes rest) < n
      → Shrinks n (after_line lib callback rest o)
  after_line-Shrinks n rest (s, none) h = h
  after_line-Shrinks n rest (s, some e) h = tt

  after_read-Shrinks :
      (line_number : ℕ) (s : S) (reader : Reader)
      (read : Result (Option (List ℕ) × Reader) LineError)
      → IsReadFrom (length (bytes reader)) reader read
      → Shrinks (length (bytes reader)) (after_read lib callback line_number s read)
  after_read-Shrinks line_number s reader (err e) h = tt
  after_read-Shrinks line_number s reader (ok (none, rest)) h = tt
  after_read-Shrinks line_number s reader (ok (some line, rest)) ((pos, size), n) =
      after_line-Shrinks (length (bytes reader)) rest
        (handle_line lib callback (suc line_number) line s) (omega (arith, pos, size))

  -- `read_records` returns whatever the reader holds, the callback answers and the parser reads:
  -- with more fuel than the reader has bytes it never runs out.
  pub read_records-Returns :
      (fuel line_number : ℕ) (s : S) (reader : Reader)
      → length (bytes reader) < fuel
      → (out : S × Option (ReadError E)) × (read_records lib callback fuel line_number s reader
          ≡ some out)
  unfolding read_records
  read_records-Returns zero line_number s reader h = elim h [ ]
  read_records-Returns (suc fuel) line_number s reader h =
      let read = read_bounded_line max_capture_line_bytes [] reader in
      elim (after_read lib callback line_number s read)
          as (λ o.
            Shrinks (length (bytes reader)) o
            → (out : S × Option (ReadError E)) × (elim o [
              | finished end ↦ some end
              | continues s' rest ↦ read_records lib callback fuel (suc line_number) s' rest
            ]
                ≡ some out)) [
                  | finished end ↦ λ _. (end, refl)
                  | continues s' rest ↦ λ below.
                      read_records-Returns fuel (suc line_number) s' rest (omega (arith, h, below))
                ]
        (after_read-Shrinks line_number s reader read
          (read_bounded_line-IsReadFrom_start max_capture_line_bytes reader))

  abbrev IsSame : Round S E → Round S E → Type 0
  IsSame (finished x) (finished y) = x ≡ y
  IsSame (finished x) (continues s r) = ⊥
  IsSame (continues s r) (finished x) = ⊥
  IsSame (continues s r) (continues s' r') =
      (s ≡ s') × (bytes r ≡ bytes r') × NeverFails r × NeverFails r'

  after_line-IsSame :
      (r r' : Reader) (o : S × Option (ReadError E))
      → bytes r ≡ bytes r'
      → NeverFails r
      → NeverFails r'
      → IsSame (after_line lib callback r o) (after_line lib callback r' o)
  after_line-IsSame r r' (s, none) e n n' = (refl, e, n, n')
  after_line-IsSame r r' (s, some x) e n n' = refl

  after_read-IsSame :
      (line_number : ℕ) (s : S) (before : ℕ) (r r' : Reader)
      (a b : Result (Option (List ℕ) × Reader) LineError)
      → seen a ≡ seen b
      → NeverFails r
      → NeverFails r'
      → IsReadFrom before r a
      → IsReadFrom before r' b
      → IsSame (after_read lib callback line_number s a) (after_read lib callback line_number s b)
  after_read-IsSame k s before r r' (err x) (err y) e n n' h h' = cc
  after_read-IsSame k s before r r' (err x) (ok y) e n n' h h' = cc
  after_read-IsSame k s before r r' (ok x) (err y) e n n' h h' = cc
  after_read-IsSame k s before r r' (ok (none, x)) (ok (none, y)) e n n' h h' = refl
  after_read-IsSame k s before r r' (ok (none, x)) (ok (some l, y)) e n n' h h' = cc
  after_read-IsSame k s before r r' (ok (some l, x)) (ok (none, y)) e n n' h h' = cc
  after_read-IsSame k s before r r' (ok (some l, x)) (ok (some m, y)) e n n' (t, h) (t', h') =
      let same : l ≡ m = cc in
      let rests : bytes x ≡ bytes y = cc in
      subst
        (λ z.
          IsSame (after_line lib callback x (handle_line lib callback (suc k) l s))
            (after_line lib callback y (handle_line lib callback (suc k) z s)))
        same (after_line-IsSame x y (handle_line lib callback (suc k) l s) rests (h n) (h' n'))

  next-IsSame :
      (f : S → Reader → Option (S × Option (ReadError E))) (x y : Round S E)
      → ((s : S) (r r' : Reader)
          → bytes r ≡ bytes r'
          → NeverFails r
          → NeverFails r'
          → f s r ≡ f s r')
      → IsSame x y
      → elim x [ finished end ↦ some end | continues s rest ↦ f s rest ]
        ≡ elim y [ finished end ↦ some end | continues s rest ↦ f s rest ]
  next-IsSame f (finished x) (finished y) ih e = ap some e
  next-IsSame f (finished x) (continues s r) ih e = elim e [ ]
  next-IsSame f (continues s r) (finished x) ih e = elim e [ ]
  next-IsSame f (continues s r) (continues s' r') ih (e, b, n, n') =
      ih s r r' b n n' ∙ ap (λ z. f z r') e

  -- On two readers that never fail and hold the same bytes, cut into buffers in whatever way,
  -- `read_records` does the same: the callback sees the same records in the same order, and the
  -- result is the same.
  pub read_records-bytes :
      (fuel line_number : ℕ) (s : S) (r r' : Reader)
      → bytes r ≡ bytes r'
      → NeverFails r
      → NeverFails r'
      → read_records lib callback fuel line_number s r
        ≡ read_records lib callback fuel line_number s r'
  unfolding read_records
  read_records-bytes zero line_number s r r' e n n' = refl
  read_records-bytes (suc fuel) line_number s r r' e n n' =
      let limit = max_capture_line_bytes in
      next-IsSame (read_records lib callback fuel (suc line_number))
        (after_read lib callback line_number s (read_bounded_line limit [] r))
        (after_read lib callback line_number s (read_bounded_line limit [] r'))
        (read_records-bytes fuel (suc line_number))
        (after_read-IsSame line_number s (length (bytes r)) r r' (read_bounded_line limit [] r)
          (read_bounded_line limit [] r')
          (read_bounded_line-split_line limit r n
            ∙ ap (λ x. bounded limit (split_line x).0 (split_line x).1) e
            ∙ sym (read_bounded_line-split_line limit r' n'))
          n n' (read_bounded_line-IsReadFrom_start limit r)
          (subst (λ x. IsReadFrom (length x) r' (read_bounded_line limit [] r')) (sym e)
            (read_bounded_line-IsReadFrom_start limit r')))
