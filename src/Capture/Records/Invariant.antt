-- ===== src/Capture/Records/Invariant.antt =====
-- Predicates on the state that the callback of `read_records` keeps.
use koc_core.Common.{
  ℕ, zero, suc, ◌≡◌, subst, Option, none, some, List, [], ltb, length, ◌==◌, not, inl, inr,
  Bool-cases, Option-cases,
}
use koc_core.Common.Results.{Result, ok, err}
use koc_core.Json.{Text}
use koc_core.Capture.Record.{CaptureRecord, capture_schema_version}
use koc_core.Capture.Lines.{Reader, LineError, read_bounded_line}
use koc_core.Capture.Records.{
  ReadError, LineParser, Round, finished, continues, from_callback, accept_record, parse_record,
  handle_line, after_line, after_read, read_records, max_capture_line_bytes,
  max_connection_id_bytes,
}

module _ {S E : Type 0} (lib : LineParser) (callback : CaptureRecord → S → S × Option E)
    (P : S → Type 0) (keeps : (r : CaptureRecord) (s : S) → P s → P (callback r s).0) where
  from_callback-keeps : (o : S × Option E) → P o.0 → P (from_callback lib callback o).0
  from_callback-keeps (s, none) h = h
  from_callback-keeps (s, some e) h = h

  accept_record-keeps :
      (n : ℕ) (r : CaptureRecord) (s : S) → P s → P (accept_record lib callback n r s).0
  accept_record-keeps n r s h = elim (Bool-cases (not (r.version == capture_schema_version))) [
    | inl other ↦ rw other h
    | inr same ↦ elim (Bool-cases (ltb max_connection_id_bytes (length r.connection_id))) [
      | inl long ↦ rw (same, long) h
      | inr short ↦ rw (same, short) (from_callback-keeps (callback r s) (keeps r s h))
    ]
  ]

  parse_record-keeps :
      (n : ℕ) (line : Text) (s : S) → P s → P (parse_record lib callback n line s).0
  parse_record-keeps n line s h = elim (Option-cases (lib.from_str line)) [
    | inl invalid ↦ rw (invalid, parse_record) h
    | inr (r, parsed) ↦ rw (parsed, parse_record) (accept_record-keeps n r s h)
  ]

  handle_line-keeps :
      (n : ℕ) (line : List ℕ) (s : S) → P s → P (handle_line lib callback n line s).0
  unfolding handle_line
  handle_line-keeps n line s h = elim (Option-cases (lib.from_utf8 line)) [
    | inl invalid ↦ rw (invalid, handle_line) h
    | inr (t, decoded) ↦ elim (Bool-cases (lib.is_blank t)) [
      | inl blank ↦ rw (decoded, blank, handle_line) h
      | inr filled ↦ rw (decoded, filled, handle_line) (parse_record-keeps n t s h)
    ]
  ]

  abbrev Keeps : Round S E → Type 0
  Keeps (finished out) = P out.0
  Keeps (continues s rest) = P s

  after_line-Keeps :
      (rest : Reader) (o : S × Option (ReadError E))
      → P o.0
      → Keeps (after_line lib callback rest o)
  after_line-Keeps rest (s, none) h = h
  after_line-Keeps rest (s, some e) h = h

  after_read-Keeps :
      (n : ℕ) (s : S) (read : Result (Option (List ℕ) × Reader) LineError)
      → P s
      → Keeps (after_read lib callback n s read)
  after_read-Keeps n s (err e) h = h
  after_read-Keeps n s (ok (none, rest)) h = h
  after_read-Keeps n s (ok (some line, rest)) h =
      after_line-Keeps rest (handle_line lib callback (suc n) line s)
        (handle_line-keeps (suc n) line s h)

  -- What holds of the state at first and is kept by the callback holds of the state at the end.
  pub read_records-keeps :
      (fuel n : ℕ) (s : S) (reader : Reader) (out : S × Option (ReadError E))
      → P s
      → read_records lib callback fuel n s reader ≡ some out
      → P out.0
  unfolding read_records
  read_records-keeps zero n s reader out h e = cc
  read_records-keeps (suc fuel) n s reader out h e =
      elim (after_read lib callback n s (read_bounded_line max_capture_line_bytes [] reader))
          as (λ o.
            Keeps o
            → elim o [
              | finished end ↦ some end
              | continues s' rest ↦ read_records lib callback fuel (suc n) s' rest
            ]
              ≡ some out
            → P out.0) [
              | finished end ↦
                  λ kept is_out. let same : end ≡ out = cc in subst (λ x. P x.0) same kept
              | continues s' rest ↦
                  λ kept is_out. read_records-keeps fuel (suc n) s' rest out kept is_out
            ]
        (after_read-Keeps n s (read_bounded_line max_capture_line_bytes [] reader) h) e
