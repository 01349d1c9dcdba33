-- ===== src/Capture/Inspector.antt =====
-- `Inspector` of src/proxy_capture.rs: what a record holds, and which request a response answers.
pub mod Requests
pub mod Pending
pub mod Matching
pub mod History
pub mod Hiding
pub use koc_core.Capture.Inspector.Requests.{
  max_pending, pending_age_ms, PendingRequest, PendingEntry, is_key,
}
unfoldable pub use koc_core.Capture.Inspector.Requests.{
  find_request, remove_request, insert_request, retain_since, make_room,
}
use koc_core.Common.{
  ℕ, ◌-◌, ◌*◌, ◌==◌, Bool, true, false, ◌&&◌, not, Option, none, some, List, [], ◌∷◌, length, ltb,
  leb, if◌then◌else◌,
}
use koc_core.Common.Codes.{codes}
use koc_core.Common.Int.{ℤ}
use koc_core.Common.Results.{Result, ok, err}
use koc_core.Json.{Text, Value, SerdeJson}
use koc_core.Bon.Encoder.{text_eq}
use koc_core.Crypto.Lz4.{Lz4Frame, default_max_decompressed_size}
use koc_core.Protocol.Message.{
  ProtoError, ProtoMsg, default_max_wire_size, cmd, seq, ack, resp, code_opt, raw_data_result,
  parse_message_limited, unwrap_or,
}
use koc_core.Capture.Record.{
  CaptureRecord, Direction, client_to_server, server_to_client, FrameOpcode, PayloadError,
  Base64Engine, binary_payload,
}
use koc_core.Capture.Redact.{redact_value}

abbrev pub max_command_bytes : ℕ
max_command_bytes = 256

pub data PayloadEncoding : Type 0 where
  x lx plain : PayloadEncoding

pub data InspectError : Type 0 where
  payload_failed : PayloadError → InspectError
  message_failed : ProtoError → InspectError
  command_exceeds : ℕ → ℕ → InspectError

pub record DecodedEvent (N : Type 0) : Type 0 where
  pub connection_id : Text
  pub frame_index : ℕ
  pub timestamp_ms : ℕ
  pub direction : Direction
  pub opcode : FrameOpcode
  pub wire_size : ℕ
  pub encoding : Option PayloadEncoding
  pub cmd : Option Text
  pub seq : ℕ
  pub ack : ℕ
  pub resp : ℕ
  pub code : Option ℤ
  pub body : Option (Value N)
  pub matched_request : Option Text
  pub latency_ms : Option ℕ
  pub decode_error : Option InspectError
  pub body_decode_error : Option ProtoError

pub data Decoded (N : Type 0) : Type 0 where
  stopped decoded : DecodedEvent N → Decoded N

pub record Inspector : Type 0 where
  pub pending : List PendingEntry
  pub redact_sensitive : Bool

abbrev pub new_inspector : Bool → Inspector
new_inspector redact_sensitive = record { pending = []; redact_sensitive = redact_sensitive }

unfoldable pub detect_encoding : List ℕ → PayloadEncoding
detect_encoding [] = plain
detect_encoding (a ∷ []) = plain
detect_encoding (a ∷ b ∷ bs) =
    if (a == 112) && (b == 120) then x else if (a == 112) && (b == 108) then lx else plain

-- `record.direction == … && event.resp > 0`, and the test on a request.
abbrev pub answers : Direction → ℕ → Bool
answers server_to_client resp = ltb 0 resp
answers client_to_server resp = false

abbrev pub asks : Direction → ℕ → Bool
asks client_to_server seq = ltb 0 seq
asks server_to_client seq = false

-- `event.cmd` and `event.decode_error` by what `proto.cmd()` returns.
unfoldable pub limit_command : Option Text → Option Text × Option InspectError
limit_command none = (none, none)
limit_command (some c) =
    if ltb max_command_bytes (length c)
    then (none, some (command_exceeds (length c) max_command_bytes))
    else (some c, none)

module _ {N : Type 0} where
  abbrev pub blank_event : CaptureRecord → DecodedEvent N
  blank_event r = record {
    connection_id = r.connection_id;
    frame_index = r.frame_index;
    timestamp_ms = r.timestamp_ms;
    direction = r.direction;
    opcode = r.opcode;
    wire_size = 0;
    encoding = none;
    cmd = none;
    seq = 0;
    ack = 0;
    resp = 0;
    code = none;
    body = none;
    matched_request = none;
    latency_ms = none;
    decode_error = none;
    body_decode_error = none;
  }

  abbrev pub sized_event : CaptureRecord → List ℕ → DecodedEvent N
  sized_event r payload = record (blank_event r) {
    wire_size = length payload;
    encoding = some (detect_encoding payload);
  }

  abbrev body_of : Result (Option (Value N)) ProtoError → Option (Value N) × Option ProtoError
  body_of (ok body) = (body, none)
  body_of (err e) = (none, some e)

  -- The event with the removed request's latency and command.
  abbrev pub answered : CaptureRecord → DecodedEvent N → Option PendingRequest → DecodedEvent N
  answered r event none = event
  answered r event (some request) = record event {
    latency_ms = some (r.timestamp_ms - request.timestamp_ms);
    matched_request = some request.cmd;
  }

  unfoldable pub match_response :
      CaptureRecord → DecodedEvent N → List PendingEntry → List PendingEntry × DecodedEvent N
  unfolding find_request remove_request
  match_response r event pending =
      if answers r.direction event.resp
      then (
        remove_request r.connection_id event.resp pending,
        answered r event (find_request r.connection_id event.resp pending),
      )
      else (pending, event)

  unfoldable pub note_request :
      CaptureRecord → DecodedEvent N → List PendingEntry → List PendingEntry
  unfolding make_room insert_request
  note_request r event pending =
      let request : PendingRequest = record {
        cmd = unwrap_or event.cmd (codes "<unknown>");
        timestamp_ms = r.timestamp_ms;
      } in
      if asks r.direction event.seq
      then insert_request r.connection_id event.seq request (make_room r.timestamp_ms pending)
      else pending

  abbrev pub redact_body : Option (Value N) → Option (Value N)
  redact_body none = none
  redact_body (some v) = some (redact_value v)

  abbrev pub redact_event : Bool → DecodedEvent N → DecodedEvent N
  redact_event redact_sensitive event =
      if redact_sensitive then record event { body = redact_body event.body } else event

  -- What follows on a message that parses.
  unfoldable pub inspect_message :
      CaptureRecord → DecodedEvent N → Inspector → Inspector × DecodedEvent N
  unfolding match_response note_request
  inspect_message r event self =
      let (left, matched) = match_response r event self.pending in
      (
        record self { pending = note_request r matched left },
        redact_event self.redact_sensitive matched,
      )

module _ {N : Type 0} (lib : SerdeJson N) where
  -- The fields that are read off the message.
  unfoldable pub message_event : CaptureRecord → List ℕ → ProtoMsg N → DecodedEvent N
  unfolding limit_command cmd seq ack resp code_opt raw_data_result
  message_event r payload proto =
      let (command, error) = limit_command (cmd proto) in
      let (body, body_error) = body_of (raw_data_result lib proto) in
      record (sized_event r payload) {
        cmd = command;
        decode_error = error;
        seq = seq lib proto;
        ack = ack lib proto;
        resp = resp lib proto;
        code = code_opt lib proto;
        body = body;
        body_decode_error = body_error;
      }

  -- The part of `inspect` that does not read the state: an event that is returned early, or one
  -- that goes on with its message's fields.
  module _ (lz4 : Lz4Frame) (engine : Base64Engine) where
    abbrev pub decode_message : CaptureRecord → List ℕ → Decoded N
    decode_message r payload =
        elim (parse_message_limited lib lz4 payload default_max_wire_size
          default_max_decompressed_size) [
            | err e ↦
                stopped (record (sized_event r payload) { decode_error = some (message_failed e) })
            | ok proto ↦ decoded (message_event r payload proto)
          ]

    unfoldable pub decode_record : CaptureRecord → Decoded N
    unfolding binary_payload message_event parse_message_limited
    decode_record r = elim (binary_payload engine r) [
      | err e ↦ stopped (record (blank_event r) { decode_error = some (payload_failed e) })
      | ok none ↦ stopped (blank_event r)
      | ok (some payload) ↦ decode_message r payload
    ]

    unfoldable pub inspect : CaptureRecord → Inspector → Inspector × DecodedEvent N
    unfolding decode_record inspect_message
    inspect r self = elim (decode_record r) [
      | stopped event ↦ (self, event)
      | decoded event ↦ inspect_message r event self
    ]

    -- The calls for the records of a file, one after the other.
    unfoldable pub inspect_all : List CaptureRecord → Inspector → Inspector
    unfolding inspect
    inspect_all [] self = self
    inspect_all (r ∷ rs) self = inspect_all rs (inspect r self).0
