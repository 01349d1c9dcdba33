-- ===== src/WebSocket/Tests.antt =====
-- The theorem about src/websocket.rs at concrete inputs.
use koc_core.Common.{
  ◌≤◌, ◌*◌, ◌≡◌, refl, none, some, List, ℕ, [], ◌∷◌, length, arith, Bool, true, false,
}
use koc_core.Common.Codes.{codes}
use koc_core.Common.Int.{pos}
use koc_core.Common.Results.{Result, ok}
use koc_core.Json.{Text, Value, number, object, no_entries, entry, JsonMap}
use koc_core.Json.Maps.{compare_text, get}
use koc_core.Json.Sample.{Num, whole, sample_lib, sample_laws}
use koc_core.Utf8.{IsUtf8, one, done}
use koc_core.Bon.Encoder.{encode, index_of}
use koc_core.Bon.Varint.{groups}
use koc_core.Bon.Decoder.{default_limits}
use koc_core.Bon.Tests.{default_limits-IsBounded}
use koc_core.Bon.Wire.{Fits, int, nodes, cost, levels, wire, table, wire_string, table_string}
use koc_core.Bon.Wire.Encode.{encode-wire}
use koc_core.Crypto.Lz4.{default_max_decompressed_size}
use koc_core.Crypto.Tests.{stored_frame}
use koc_core.Protocol.Message.{ProtoMsg, resp, msg_with_limits, parse_message, create_message}
use koc_core.Protocol.Message.Delivery.{parse_message_with_limits-create_message}
use koc_core.WebSocket.{WebSocketClient, find_waiter, start_request, receive}
use koc_core.WebSocket.Reply.{IsReplyTo}
use koc_core.WebSocket.Answers.{Event, starts, times_out, apply_all, start_request-answered}

-- {"resp": 7}
abbrev fields : JsonMap Num
fields = entry (codes "resp") (number (whole (pos 7))) no_entries

fields-Fits : Fits sample_lib default_limits (object fields)
unfolding compare_text
fields-Fits =
    let key : IsUtf8 (codes "resp") =
      one _ (omega arith) (one _ (omega arith) (one _ (omega arith) (one _ (omega arith) done))) in
    (omega arith, (tt, tt), ((key, omega arith), int (pos 7) refl (λ h. omega arith), tt))

length-encode-fields : length (encode sample_lib (object fields)) ≤ 200
unfolding wire table wire_string table_string index_of groups
length-encode-fields =
    rw
      (encode-wire sample_lib default_limits default_limits-IsBounded (object fields) fields-Fits
        (unfold nodes in omega arith))
      (omega arith)

abbrev packet : List ℕ
packet = create_message sample_lib stored_frame 90 77777777 fields none

abbrev response : ProtoMsg Num
response = msg_with_limits fields default_limits

packet_parses : parse_message sample_lib stored_frame packet ≡ ok response
unfolding parse_message
packet_parses =
    parse_message_with_limits-create_message sample_lib stored_frame 90 77777777 (32 * 1024 * 1024)
      default_max_decompressed_size default_limits fields sample_laws default_limits-IsBounded
      fields-Fits (unfold levels in omega arith) (unfold nodes in omega arith)
      (unfold cost in omega arith) (omega arith) (omega (arith, length-encode-fields))
      (omega (arith, length-encode-fields))

response_number : resp sample_lib response ≡ 7
unfolding resp get compare_text
response_number = refl

-- Six requests are over; the waiter is the flag `true`.
abbrev client : WebSocketClient Bool
client = record { seq = 7; ack = 3; pending = [] }

-- Another request, which is given up before the response comes.
abbrev between : List (Event Num Bool)
between = starts (pos 5) 90 77777777 (codes "b") none false ∷ times_out 8 ∷ []

start_request-answered_example :
    let started =
      start_request sample_lib stored_frame (pos 0) 90 77777777 (codes "a") none true client in
    let got =
      receive sample_lib stored_frame packet
        (apply_all sample_lib stored_frame between started.1) in
    (started.0.0 ≡ 7)
    × ((r : Result (Value Num) Text) × (got.reply ≡ some (true, r))
        × IsReplyTo sample_lib response r)
    × (find_waiter 7 got.client.pending ≡ none)
start_request-answered_example =
    start_request-answered sample_lib stored_frame (pos 0) 90 77777777 (codes "a") none true between
      packet response client (omega arith) (omega arith) (tt, ((λ e. omega (arith, e)), tt))
      packet_parses response_number
