-- ===== src/WebSocket.antt =====
-- `WebSocketClient` of src/websocket.rs: how requests are numbered, and which response is handed
-- to which of the callers that wait.
pub mod Reply
pub mod Answers
pub mod Tests
use koc_core.Common.{
  ℕ, ◌+◌, ◌%◌, ◌^◌, ◌==◌, Bool, true, false, Option, none, some, List, [], ◌∷◌, ltb, if◌then◌else◌,
}
use koc_core.Common.Codes.{codes}
use koc_core.Common.Int.{ℤ, pos, negsuc}
use koc_core.Common.Results.{Result, ok, err}
use koc_core.Json.{Text, Value, string, number, object, JsonMap, no_entries, SerdeJson}
use koc_core.Json.Maps.{insert}
use koc_core.Bon.Packet.{encode_game_packet}
use koc_core.Crypto.Lz4.{Lz4Frame}
use koc_core.Crypto.Auto.{get_encryptor, encrypt}
use koc_core.Protocol.Message.{
  ProtoMsg, ProtoError, cmd, hint, seq, resp, code, raw_data, get_data, parse_message, unwrap_or,
}
use koc_core.ErrorCodes.{format_error}

-- A waiter stands for the sender of a `oneshot` channel. The order of the `HashMap` is not read.
pub record WebSocketClient (W : Type 0) : Type 0 where
  pub seq : ℕ
  pub ack : ℕ
  pub pending : List (ℕ × W)

-- The state that `connect` sets up.
abbrev pub new_client : {W : Type 0} → WebSocketClient W
new_client = record { seq = 1; ack = 0; pending = [] }

-- The state after a frame, what a waiter is sent, and what is forwarded to the caller.
pub record Received (W N : Type 0) : Type 0 where
  pub client : WebSocketClient W
  pub reply : Option (W × Result (Value N) Text)
  pub forwarded : Option (Value N)

module _ {W : Type 0} where
  unfoldable pub find_waiter : ℕ → List (ℕ × W) → Option W
  find_waiter n [] = none
  find_waiter n ((k, w) ∷ ws) = let rest = find_waiter n ws in if k == n then some w else rest

  unfoldable pub remove_waiter : ℕ → List (ℕ × W) → List (ℕ × W)
  remove_waiter n [] = []
  remove_waiter n ((k, w) ∷ ws) =
      let rest = remove_waiter n ws in if k == n then rest else (k, w) ∷ rest

  abbrev pub insert_waiter : ℕ → W → List (ℕ × W) → List (ℕ × W)
  insert_waiter n w ws = (n, w) ∷ remove_waiter n ws

  -- `let v = *s; *s += 1; v` on a `u32`
  abbrev pub next_seq : WebSocketClient W → ℕ × WebSocketClient W
  next_seq self = (self.seq, record self { seq = (self.seq + 1) % (2 ^ 32) })

  abbrev pub update_ack : ℕ → WebSocketClient W → WebSocketClient W
  update_ack server_seq self = if ltb 0 server_seq then record self { ack = server_seq } else self

  abbrev pub reply_to : {R : Type 0} → Option W → R → Option (W × R)
  reply_to none response = none
  reply_to (some w) response = some (w, response)

  -- What happens when the time is over.
  unfoldable pub time_out : ℕ → WebSocketClient W → WebSocketClient W
  unfolding remove_waiter
  time_out assigned_seq self = record self { pending = remove_waiter assigned_seq self.pending }

module _ {N : Type 0} (lib : SerdeJson N) (lz4 : Lz4Frame) where
  -- The clock, the mask and the padding are arguments.
  unfoldable pub build_packet : ℤ → ℕ → ℕ → Text → Option (Value N) → ℕ → ℕ → List ℕ
  unfolding encrypt encode_game_packet
  build_packet now mask rnd cmd params ack seq =
      encrypt lz4 (get_encryptor (codes "x")) mask rnd
        (encode_game_packet lib cmd ack seq now params)

  -- What a waiter is sent: the data, or the message of the error.
  unfoldable pub response_of : ProtoMsg N → Value N → Result (Value N) Text
  unfolding code hint format_error
  response_of proto resp_value = elim (code lib proto) [
    | pos n ↦ if n == 0 then ok resp_value else err (format_error (pos n) (hint proto))
    | negsuc n ↦ err (format_error (negsuc n) (hint proto))
  ]

  -- `proto.raw_data().unwrap_or_else(…)`
  unfoldable pub response_value : ProtoMsg N → Value N
  unfolding raw_data get_data
  response_value proto = unwrap_or (raw_data lib proto) (object (get_data proto))

  abbrev pub full_message : ProtoMsg N → Value N → Value N
  full_message proto resp_value = object (
      insert (codes "data") resp_value (
        insert (codes "code") (number (lib.from_i64 (code lib proto)))
          (insert (codes "cmd") (string (unwrap_or (cmd proto) [])) no_entries)))

  module _ {W : Type 0} where
    -- The number, the packet that is sent, and the state.
    unfoldable pub send :
        ℤ → ℕ → ℕ → Text → Option (Value N) → WebSocketClient W → (ℕ × List ℕ) × WebSocketClient W
    unfolding build_packet
    send now mask rnd cmd params self =
        let (assigned_seq, next) = next_seq self in
        ((assigned_seq, build_packet now mask rnd cmd params self.ack assigned_seq), next)

    -- `send_with_response` up to the wait; the waiter is that of a fresh channel.
    unfoldable pub start_request :
        ℤ
        → ℕ
        → ℕ
        → Text
        → Option (Value N)
        → W
        → WebSocketClient W
        → (ℕ × List ℕ) × WebSocketClient W
    unfolding build_packet remove_waiter
    start_request now mask rnd cmd params waiter self =
        let (assigned_seq, next) = next_seq self in
        let packet = build_packet now mask rnd cmd params self.ack assigned_seq in
        (
          (assigned_seq, packet),
          record next { pending = insert_waiter assigned_seq waiter next.pending },
        )

    unfoldable pub dispatch : ProtoMsg N → WebSocketClient W → Received W N
    unfolding response_of response_value find_waiter remove_waiter resp seq cmd code
    dispatch proto self =
        let updated = update_ack (seq lib proto) self in
        let value = response_value proto in
        let number = resp lib proto in
        if ltb 0 number
        then record {
          client = record updated { pending = remove_waiter number updated.pending };
          reply = reply_to (find_waiter number updated.pending) (response_of proto value);
          forwarded = some (full_message proto value);
        }
        else record { client = updated; reply = none; forwarded = some (full_message proto value) }

    -- The read task on one binary frame; a frame that does not parse is skipped.
    unfoldable pub receive : List ℕ → WebSocketClient W → Received W N
    unfolding parse_message dispatch
    receive bytes self = elim (parse_message lib lz4 bytes) [
      | ok proto ↦ dispatch proto self
      | err e ↦ record { client = self; reply = none; forwarded = none }
    ]
