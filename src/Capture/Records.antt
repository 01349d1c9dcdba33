-- ===== src/Capture/Records.antt =====
-- `read_records` of src/proxy_capture.rs: a capture file, one record to a line.
pub mod Total
pub mod Invariant
use koc_core.Common.{
  ℕ, zero, suc, ◌*◌, ◌==◌, Bool, Option, none, some, List, [], length, ltb, if◌then◌else◌, not,
}
use koc_core.Common.Results.{Result, ok, err}
use koc_core.Json.{Text}
use koc_core.Capture.Record.{CaptureRecord, capture_schema_version}
use koc_core.Capture.Lines.{Reader, LineError, read_bounded_line}

abbrev pub max_capture_line_bytes : ℕ
max_capture_line_bytes = 48 * 1024 * 1024

abbrev pub max_connection_id_bytes : ℕ
max_connection_id_bytes = 256

-- A message names the number of its line. `E` is what the callback fails with.
pub data ReadError (E : Type 0) : Type 0 where
  line_failed : LineError → ReadError E
  not_utf8 invalid_record connection_id_too_long : ℕ → ReadError E
  unsupported_version : ℕ → ℕ → ReadError E
  callback_failed : E → ReadError E

-- What is called of the standard library and serde_json: `String::from_utf8`,
-- `trim().is_empty()` and `serde_json::from_str`.
pub record LineParser : Type 0 where
  pub from_utf8 : List ℕ → Option Text
  pub is_blank : Text → Bool
  pub from_str : Text → Option CaptureRecord

-- What a round hands on: the state and the rest of the input, or the result of the call.
pub data Round (S E : Type 0) : Type 0 where
  finished : S × Option (ReadError E) → Round S E
  continues : S → Reader → Round S E

-- `S` is what the callback keeps from one call to the next; `none` stands for `Ok(())`.
module _ {S E : Type 0} (lib : LineParser) (callback : CaptureRecord → S → S × Option E) where
  abbrev pub from_callback : S × Option E → S × Option (ReadError E)
  from_callback (s, none) = (s, none)
  from_callback (s, some e) = (s, some (callback_failed e))

  abbrev pub accept_record : ℕ → CaptureRecord → S → S × Option (ReadError E)
  accept_record line_number r s =
      if not (r.version == capture_schema_version)
      then (s, some (unsupported_version r.version line_number))
      else if ltb max_connection_id_bytes (length r.connection_id)
      then (s, some (connection_id_too_long line_number))
      else from_callback (callback r s)

  abbrev pub parse_record : ℕ → Text → S → S × Option (ReadError E)
  parse_record line_number line s = elim (lib.from_str line) [
    | none ↦ (s, some (invalid_record line_number))
    | some r ↦ accept_record line_number r s
  ]

  -- The loop's body after the line is read.
  unfoldable pub handle_line : ℕ → List ℕ → S → S × Option (ReadError E)
  handle_line line_number line s = elim (lib.from_utf8 line) [
    | none ↦ (s, some (not_utf8 line_number))
    | some t ↦ if lib.is_blank t then (s, none) else parse_record line_number t s
  ]

  abbrev pub after_line : Reader → S × Option (ReadError E) → Round S E
  after_line rest (s, none) = continues s rest
  after_line rest (s, some e) = finished (s, some e)

  abbrev pub after_read : ℕ → S → Result (Option (List ℕ) × Reader) LineError → Round S E
  after_read line_number s (err e) = finished (s, some (line_failed e))
  after_read line_number s (ok (none, rest)) = finished (s, none)
  after_read line_number s (ok (some line, rest)) =
      after_line rest (handle_line (suc line_number) line s)

  -- The loop on fuel: the lines so far, the state and the reader.
  unfoldable pub read_records : ℕ → ℕ → S → Reader → Option (S × Option (ReadError E))
  read_records zero line_number s reader = none
  read_records (suc fuel) line_number s reader =
      elim (after_read line_number s (read_bounded_line max_capture_line_bytes [] reader)) [
        | finished out ↦ some out
        | continues s' rest ↦ read_records fuel (suc line_number) s' rest
      ]
