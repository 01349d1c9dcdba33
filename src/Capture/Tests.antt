-- ===== src/Capture/Tests.antt =====
-- The theorems about src/proxy_capture.rs and src/proxy.rs at concrete inputs.
pub mod Exchange
use koc_core.Common.{
  ℕ, ◌+◌, ◌≤◌, ◌<◌, ◌≡◌, ◌↔◌, refl, Bool, true, false, Option, none, some, List, [], ◌∷◌, length,
  ◌==◌, arith,
}
use koc_core.Common.Codes.{codes}
use koc_core.Common.Int.{ℤ, pos}
use koc_core.Common.Results.{ok, err}
use koc_core.Json.{
  Value, null, bool, number, string, array, object, no_items, item, no_entries, entry,
}
use koc_core.Json.Sample.{Num, whole, sample_lib}
use koc_core.Crypto.Tests.{stored_frame}
use koc_core.Capture.Redact.{redact_value, redact_value_iff, IsRedacted}
use koc_core.Capture.Shape.{value_shape}
use koc_core.Capture.Shape.Bounds.{IsForm}
use koc_core.Capture.Shape.Forms.{value_shape-IsForm_root}
use koc_core.Capture.Record.{
  client_to_server, Message, Base64Engine, IsBase64Engine, CaptureRecord, FrameOpcode,
  binary_payload, record_from_message, binary_bytes, binary_payload-record,
}
use koc_core.Capture.Lines.{Reader, at_end, broken, buffered, read_bounded_line}
use koc_core.Capture.Lines.Correct.{bytes, seen, bounded, split_line, read_bounded_line-split_line}
use koc_core.Capture.Records.{LineParser, ReadError, read_records}
use koc_core.Capture.Records.Total.{read_records-Returns, read_records-bytes}
use koc_core.Capture.Inspector.{Inspector}
use koc_core.Capture.Catalog.{CommandCatalog, Printer}
use koc_core.Capture.Analyzer.{catalog_reader}
use koc_core.Capture.Analyzer.Files.{IsBounded, catalog_reader-IsBounded}

abbrev pub num_eq : Num → Num → Bool
num_eq (whole (pos m)) (whole (pos n)) = m == n
num_eq m n = false

-- An engine that writes bytes as they are.
abbrev pub plain_engine : Base64Engine
plain_engine = record { encode = λ bs. bs; decode = λ t. some t }

pub plain_engine_laws : IsBase64Engine plain_engine
plain_engine_laws = record { encode-bytes = λ bs h. h; decode-encode = λ bs h. refl }

-- {"list": ["b", {"Access-Token": "a"}], "name": 5}
abbrev login : Value Num
login = object (
    entry (codes "list")
      (array (
        item (string (codes "b"))
          (item (object (entry (codes "Access-Token") (string (codes "a")) no_entries)) no_items)))
      (entry (codes "name") (number (whole (pos 5))) no_entries))

redact_value_iff_example :
    IsRedacted (redact_value login) × ((redact_value login ≡ login) ↔ IsRedacted login)
redact_value_iff_example = redact_value_iff login

value_shape-IsForm_root_example : IsForm 17 (value_shape sample_lib num_eq 0 login)
value_shape-IsForm_root_example = value_shape-IsForm_root sample_lib num_eq login

-- Two lines in three buffers.
abbrev two_lines : Reader
two_lines = buffered (97 ∷ []) (buffered (98 ∷ 10 ∷ 99 ∷ []) (buffered (10 ∷ []) at_end))

abbrev one_buffer : Reader
one_buffer = buffered (97 ∷ 98 ∷ 10 ∷ 99 ∷ 10 ∷ []) at_end

read_bounded_line-split_line_example :
    seen (read_bounded_line 9 [] two_lines)
    ≡ bounded 9 (split_line (bytes two_lines)).0 (split_line (bytes two_lines)).1
read_bounded_line-split_line_example = read_bounded_line-split_line 9 two_lines tt

abbrev pub frame_of : List ℕ → CaptureRecord
frame_of payload = record {
  version = 1;
  connection_id = codes "c";
  frame_index = 1;
  timestamp_ms = 1000;
  direction = client_to_server;
  opcode = FrameOpcode.binary;
  payload_base64 = some payload;
}

-- Every line is a record with the line as its payload.
abbrev line_parser : LineParser
line_parser = record {
  from_utf8 = λ bs. some bs;
  is_blank = λ t. false;
  from_str = λ t. some (frame_of t);
}

abbrev collect_record : CaptureRecord → List CaptureRecord → List CaptureRecord × Option Bool
collect_record r rs = (r ∷ rs, none)

read_records-bytes_example :
    read_records line_parser collect_record 6 0 [] two_lines
    ≡ read_records line_parser collect_record 6 0 [] one_buffer
read_records-bytes_example =
    read_records-bytes line_parser collect_record 6 0 [] two_lines one_buffer refl tt tt

abbrev pub printer : Printer Num
printer = record { code_text = λ c. codes "0"; to_vec = λ v. some [] }

catalog_reader-IsBounded_example :
    (out : (Inspector × CommandCatalog Num) × Option (ReadError Bool)) × (catalog_reader sample_lib
        num_eq printer stored_frame plain_engine line_parser 6 false two_lines
      ≡ some out)
    × IsBounded sample_lib num_eq printer stored_frame plain_engine out.0
catalog_reader-IsBounded_example =
    catalog_reader-IsBounded sample_lib num_eq printer stored_frame plain_engine line_parser 6 false
      two_lines (omega arith)
