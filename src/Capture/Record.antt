-- ===== src/Capture/Record.antt =====
-- The records of src/proxy_capture.rs and how a frame becomes one.
use koc_core.Common.{ℕ, ◌≡◌, ◌<◌, refl, Option, none, some, List}
use koc_core.Common.Results.{Result, ok, err, All}
use koc_core.Json.{Text}

abbrev pub capture_schema_version : ℕ
capture_schema_version = 1

pub data Direction : Type 0 where
  client_to_server server_to_client : Direction

pub data FrameOpcode : Type 0 where
  binary text ping pong close frame : FrameOpcode

-- tungstenite's `Message`; `P` is what a close or a raw frame holds, which no code here reads.
pub data Message (P : Type 0) : Type 0 where
  binary text ping pong : List ℕ → Message P
  close frame : P → Message P

pub record CaptureRecord : Type 0 where
  pub version : ℕ
  pub connection_id : Text
  pub frame_index : ℕ
  pub timestamp_ms : ℕ
  pub direction : Direction
  pub opcode : FrameOpcode
  pub payload_base64 : Option Text

-- The permit of the queue is not read; Proxy.Queue keeps account of it.
pub record ObservedFrame (P : Type 0) : Type 0 where
  pub connection_id : Text
  pub frame_index : ℕ
  pub timestamp_ms : ℕ
  pub direction : Direction
  pub message : Message P

pub data PayloadError : Type 0 where
  no_payload invalid_base64 : PayloadError

-- The `STANDARD` engine of the base64 crate.
pub record Base64Engine : Type 0 where
  pub encode : List ℕ → Text
  pub decode : Text → Option (List ℕ)

pub record IsBase64Engine (engine : Base64Engine) : Type 0 where
  -- a text is bytes
  pub encode-bytes : (bs : List ℕ) → All (λ b. b < 256) bs → All (λ b. b < 256) (engine.encode bs)
  -- what it encodes it decodes
  pub decode-encode :
      (bs : List ℕ) → All (λ b. b < 256) bs → engine.decode (engine.encode bs) ≡ some bs

unfoldable pub message_payload : {P : Type 0} → Message P → FrameOpcode × Option (List ℕ)
message_payload (binary d) = (FrameOpcode.binary, some d)
message_payload (text d) = (FrameOpcode.text, some d)
message_payload (ping d) = (FrameOpcode.ping, some d)
message_payload (pong d) = (FrameOpcode.pong, some d)
message_payload (close p) = (FrameOpcode.close, none)
message_payload (frame p) = (FrameOpcode.frame, none)

-- The clock's reading is an argument, here and in `record_from_message`.
abbrev pub observe_message : {P : Type 0} → ℕ → Text → ℕ → Direction → Message P → ObservedFrame P
observe_message now id index side m = record {
  connection_id = id;
  frame_index = index;
  timestamp_ms = now;
  direction = side;
  message = m;
}

module _ (engine : Base64Engine) where
  abbrev pub encoded : Option (List ℕ) → Option Text
  encoded none = none
  encoded (some d) = some (engine.encode d)

  unfoldable pub into_record : {P : Type 0} → ObservedFrame P → CaptureRecord
  into_record self =
      let (code, payload) = message_payload self.message in
      record {
        version = capture_schema_version;
        connection_id = self.connection_id;
        frame_index = self.frame_index;
        timestamp_ms = self.timestamp_ms;
        direction = self.direction;
        opcode = code;
        payload_base64 = encoded payload;
      }

  abbrev pub record_from_message :
      {P : Type 0} → ℕ → Text → ℕ → Direction → Message P → CaptureRecord
  record_from_message now id index side m = into_record (observe_message now id index side m)

  abbrev decode_payload : Option Text → Result (Option (List ℕ)) PayloadError
  decode_payload none = err no_payload
  decode_payload (some t) = elim (engine.decode t) [
    | none ↦ err invalid_base64
    | some bs ↦ ok (some bs)
  ]

  abbrev payload_of : FrameOpcode → Option Text → Result (Option (List ℕ)) PayloadError
  payload_of FrameOpcode.binary p = decode_payload p
  payload_of other p = ok none

  unfoldable pub binary_payload : CaptureRecord → Result (Option (List ℕ)) PayloadError
  binary_payload self = payload_of self.opcode self.payload_base64

  -- The bytes that a record of the message gives back: those of a binary message, and no others.
  abbrev pub binary_bytes : {P : Type 0} → Message P → Option (List ℕ)
  binary_bytes (binary d) = some d
  binary_bytes m = none

  -- What a message holds are bytes.
  abbrev pub HoldsBytes : {P : Type 0} → Message P → Type 0
  HoldsBytes (binary d) = All (λ b. b < 256) d
  HoldsBytes m = Unit

  -- When the base64 engine decodes what it encodes, a record that is made from a message gives
  -- back, without an error, the bytes of a binary message and nothing for every other message.
  pub binary_payload-record :
      {P : Type 0} (now index : ℕ) (id : Text) (side : Direction) (m : Message P)
      → IsBase64Engine engine
      → HoldsBytes m
      → binary_payload (record_from_message now id index side m) ≡ ok (binary_bytes m)
  unfolding binary_payload into_record message_payload
  binary_payload-record now index id side (binary d) laws h = rw (laws.decode-encode d h)
  binary_payload-record now index id side (text d) laws h = refl
  binary_payload-record now index id side (ping d) laws h = refl
  binary_payload-record now index id side (pong d) laws h = refl
  binary_payload-record now index id side (close p) laws h = refl
  binary_payload-record now index id side (frame p) laws h = refl
