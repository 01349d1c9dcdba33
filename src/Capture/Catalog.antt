-- ===== src/Capture/Catalog.antt =====
-- `CommandCatalog` of src/proxy_capture.rs: per command, how often it is seen and in what shapes.
pub mod Bounds
pub mod Invariant
pub mod Commands
use koc_core.Common.{
  ℕ, ◌+◌, ◌-◌, ◌*◌, ◌^◌, min, ◌==◌, Bool, true, false, ◌&&◌, ◌||◌, not, Option, none, some, List,
  [], ◌∷◌, ◌++◌, length, ltb, leb, if◌then◌else◌,
}
use koc_core.Common.Int.{ℤ}
use koc_core.Json.{Text, Value, SerdeJson}
use koc_core.Capture.Record.{
  capture_schema_version, Direction, client_to_server, server_to_client, FrameOpcode,
}
use koc_core.Capture.Inspector.{DecodedEvent}
use koc_core.Capture.Shape.{value_shape, contains_value}
use koc_core.Capture.Tree.{get, contains_key, modify, or_insert}

abbrev pub max_catalog_commands : ℕ
max_catalog_commands = 4096

abbrev pub max_catalog_shapes : ℕ
max_catalog_shapes = 32

abbrev pub max_response_codes : ℕ
max_response_codes = 64

abbrev pub max_catalog_shape_count : ℕ
max_catalog_shape_count = 4096

abbrev pub max_catalog_schema_bytes : ℕ
max_catalog_schema_bytes = 16 * 1024 * 1024

abbrev pub max_single_shape_bytes : ℕ
max_single_shape_bytes = 64 * 1024

-- The counters are `u64`s that only count events; they are not bounded here.
pub record CommandSummary (N : Type 0) : Type 0 where
  pub requests : ℕ
  pub responses : ℕ
  pub pushes : ℕ
  pub codes : List (Text × ℕ)
  pub request_shapes : List (Value N)
  pub response_shapes : List (Value N)
  pub push_shapes : List (Value N)
  pub overflow_shapes : ℕ

pub record CommandCatalog (N : Type 0) : Type 0 where
  pub version : ℕ
  pub unmatched_responses : ℕ
  pub overflow_commands : ℕ
  pub overflow_shapes : ℕ
  pub shape_count : ℕ
  pub schema_bytes_used : ℕ
  pub commands : List (Text × CommandSummary N)

pub data ShapeKind : Type 0 where
  request response push : ShapeKind

-- What is called of the standard library and serde_json: `i32::to_string`, and `to_vec` on a
-- shape.
pub record Printer (N : Type 0) : Type 0 where
  pub code_text : ℤ → Text
  pub to_vec : Value N → Option (List ℕ)

abbrev pub is_binary : FrameOpcode → Bool
is_binary FrameOpcode.binary = true
is_binary other = false

abbrev pub is_some {ℓ} : {A : Type ℓ} → Option A → Bool
is_some none = false
is_some (some a) = true

-- `entry(code).or_default()` is increased.
unfoldable pub count_code : Text → List (Text × ℕ) → List (Text × ℕ)
unfolding modify
count_code code codes = modify code (λ n. n + 1) (or_insert code 0 codes)

module _ {N : Type 0} where
  abbrev pub new_catalog : CommandCatalog N
  new_catalog = record {
    version = capture_schema_version;
    unmatched_responses = 0;
    overflow_commands = 0;
    overflow_shapes = 0;
    shape_count = 0;
    schema_bytes_used = 0;
    commands = [];
  }

  abbrev pub default_summary : CommandSummary N
  default_summary = record {
    requests = 0;
    responses = 0;
    pushes = 0;
    codes = [];
    request_shapes = [];
    response_shapes = [];
    push_shapes = [];
    overflow_shapes = 0;
  }

  abbrev pub shapes : ShapeKind → CommandSummary N → List (Value N)
  shapes request s = s.request_shapes
  shapes response s = s.response_shapes
  shapes push s = s.push_shapes

  -- `kind.shapes_mut(summary).push(shape)`
  abbrev pub push_shape : ShapeKind → Value N → CommandSummary N → CommandSummary N
  push_shape request v s = record s { request_shapes = s.request_shapes ++ v ∷ [] }
  push_shape response v s = record s { response_shapes = s.response_shapes ++ v ∷ [] }
  push_shape push v s = record s { push_shapes = s.push_shapes ++ v ∷ [] }

  -- The increase of the counter before a shape is recorded.
  abbrev pub count_event : ShapeKind → CommandSummary N → CommandSummary N
  count_event request s = record s { requests = s.requests + 1 }
  count_event response s = record s { responses = s.responses + 1 }
  count_event push s = record s { pushes = s.pushes + 1 }

  unfoldable pub ensure_command : Text → CommandCatalog N → CommandCatalog N × Bool
  ensure_command cmd self =
      if not (contains_key cmd self.commands) && leb max_catalog_commands (length self.commands)
      then (record self { overflow_commands = self.overflow_commands + 1 }, false)
      else (record self { commands = or_insert cmd default_summary self.commands }, true)

module _ {N : Type 0} (lib : SerdeJson N) (number_eq : N → N → Bool) (printer : Printer N) where
  unfoldable pub add_response_code : ℤ → CommandSummary N → CommandSummary N
  unfolding count_code
  add_response_code code summary =
      let key = printer.code_text code in
      if contains_key key summary.codes || ltb (length summary.codes) max_response_codes
      then record summary { codes = count_code key summary.codes }
      else summary

  -- `unwrap_or(usize::MAX)`
  abbrev pub bytes_or_max : Option (List ℕ) → ℕ
  bytes_or_max none = 2 ^ 64 - 1
  bytes_or_max (some bs) = length bs

  abbrev pub shape_size : Value N → ℕ
  shape_size shape = bytes_or_max (printer.to_vec shape)

  abbrev pub over_limit : ShapeKind → Value N → CommandSummary N → CommandCatalog N → Bool
  over_limit kind shape summary self =
      leb max_catalog_shapes (length (shapes kind summary))
      || (ltb max_single_shape_bytes (shape_size shape)
          || (leb max_catalog_shape_count self.shape_count
              || ltb max_catalog_schema_bytes
                  (min (self.schema_bytes_used + shape_size shape) (2 ^ 64 - 1))))

  abbrev pub count_overflow : CommandSummary N → CommandSummary N
  count_overflow s = record s { overflow_shapes = s.overflow_shapes + 1 }

  abbrev pub keep_shape :
      Text → ShapeKind → Value N → CommandSummary N → CommandCatalog N → CommandCatalog N
  keep_shape cmd kind shape summary self =
      if contains_value number_eq shape (shapes kind summary)
      then self
      else if over_limit kind shape summary self
      then record self {
        overflow_shapes = self.overflow_shapes + 1;
        commands = modify cmd count_overflow self.commands;
      }
      else record self {
        shape_count = self.shape_count + 1;
        schema_bytes_used = self.schema_bytes_used + shape_size shape;
        commands = modify cmd (push_shape kind shape) self.commands;
      }

  -- The command has a summary where this is called: `expect("command initialized")`.
  unfoldable pub record_shape :
      Text → ShapeKind → Option (Value N) → CommandCatalog N → CommandCatalog N
  unfolding get modify value_shape contains_value
  record_shape cmd kind none self = self
  record_shape cmd kind (some body) self = elim (get cmd self.commands) [
    | none ↦ self
    | some summary ↦ keep_shape cmd kind (value_shape lib number_eq 0 body) summary self
  ]

  abbrev pub add_code : Option ℤ → CommandSummary N → CommandSummary N
  add_code none summary = summary
  add_code (some code) summary = add_response_code code summary

  -- The change of the summary: only responses and pushes have their code counted.
  unfoldable pub count_summary : ShapeKind → Option ℤ → CommandSummary N → CommandSummary N
  unfolding add_response_code
  count_summary request code s = count_event request s
  count_summary response code s = add_code code (count_event response s)
  count_summary push code s = add_code code (count_event push s)

  -- What the three branches of `observe` do once they have a command.
  unfoldable pub observe_command :
      Text → ShapeKind → DecodedEvent N → CommandCatalog N → CommandCatalog N
  unfolding ensure_command record_shape count_summary modify
  observe_command cmd kind event self =
      let (ready, known) = ensure_command cmd self in
      let counted : CommandCatalog N = record ready {
        commands = modify cmd (count_summary kind event.code) ready.commands;
      } in
      if known then record_shape cmd kind event.body counted else ready

  abbrev pub observe_named :
      Option Text → ShapeKind → DecodedEvent N → CommandCatalog N → CommandCatalog N
  observe_named none kind event self = self
  observe_named (some cmd) kind event self = observe_command cmd kind event self

  abbrev pub observe_response : DecodedEvent N → CommandCatalog N → CommandCatalog N
  observe_response event self = elim event.matched_request [
    | none ↦ record self { unmatched_responses = self.unmatched_responses + 1 }
    | some cmd ↦ observe_command cmd response event self
  ]

  abbrev pub observe_direction : Direction → DecodedEvent N → CommandCatalog N → CommandCatalog N
  observe_direction client_to_server event self =
      if event.seq == 0 then self else observe_named event.cmd request event self
  observe_direction server_to_client event self =
      if ltb 0 event.resp
      then observe_response event self
      else observe_named event.cmd push event self

  unfoldable pub observe : DecodedEvent N → CommandCatalog N → CommandCatalog N
  unfolding observe_command
  observe event self =
      if is_some event.decode_error || not (is_binary event.opcode)
      then self
      else observe_direction event.direction event self
