-- ===== src/Capture/Tests/Exchange.antt =====
-- The theorems about the inspector and the catalogue on a request and its response.
use koc_core.Common.{ℕ, ◌-◌, ◌≤◌, ◌≡◌, refl, true, none, some, List, [], ◌∷◌, length, arith}
use koc_core.Common.Codes.{codes}
use koc_core.Common.Int.{pos}
use koc_core.Common.Results.{ok}
use koc_core.Json.{number, string, object, no_entries, entry, JsonMap}
use koc_core.Json.Maps.{compare_text, get}
use koc_core.Json.Sample.{Num, whole, sample_lib, sample_laws}
use koc_core.Utf8.{IsUtf8, one, done}
use koc_core.Bon.Encoder.{encode, index_of}
use koc_core.Bon.Varint.{groups}
use koc_core.Bon.Decoder.{proxy_limits}
use koc_core.Bon.Wire.{
  Fits, IsBounded, int, nodes, cost, levels, wire, table, wire_string, table_string,
}
use koc_core.Bon.Wire.Encode.{encode-wire}
use koc_core.Crypto.Lz4.{default_max_decompressed_size}
use koc_core.Crypto.Tests.{stored_frame}
use koc_core.Protocol.Message.{
  unwrap_or, seq, resp, msg_with_limits, default_max_wire_size, parse_message_limited,
  create_message,
}
use koc_core.Protocol.Message.Delivery.{parse_message_with_limits-create_message}
use koc_core.Capture.Record.{CaptureRecord, server_to_client, binary_payload}
use koc_core.Capture.Inspector.{
  DecodedEvent, decoded, new_inspector, find_request, asks, answers, message_event, decode_record,
  inspect, inspect_all,
}
use koc_core.Capture.Inspector.History.{decode_record-parses, inspect-matches}
use koc_core.Capture.Inspector.Hiding.{IsHidden, inspect-IsRedacted}
use koc_core.Capture.Catalog.{new_catalog, observe}
use koc_core.Capture.Catalog.Bounds.{IsCatalog}
use koc_core.Capture.Catalog.Invariant.{observe-IsCatalog, new_catalog-IsCatalog}
use koc_core.Capture.Tests.{frame_of, plain_engine, num_eq, printer}

-- {"cmd": "b", "resp": 7, "seq": 7}
abbrev fields : JsonMap Num
fields = entry (codes "cmd") (string (codes "b")) (
    entry (codes "resp") (number (whole (pos 7)))
      (entry (codes "seq") (number (whole (pos 7))) no_entries))

ascii : IsUtf8 (codes "b") × IsUtf8 (codes "cmd") × IsUtf8 (codes "resp") × IsUtf8 (codes "seq")
ascii = (
  one _ (omega arith) done,
  one _ (omega arith) (one _ (omega arith) (one _ (omega arith) done)),
  one _ (omega arith) (one _ (omega arith) (one _ (omega arith) (one _ (omega arith) done))),
  one _ (omega arith) (one _ (omega arith) (one _ (omega arith) done)),
)

fields-Fits : Fits sample_lib proxy_limits (object fields)
unfolding compare_text
fields-Fits =
    let (b, c, r, s) = ascii in
    let seven = int (pos 7) refl (λ h. omega arith) in
    (
      omega arith,
      ((refl, (refl, tt)), ((refl, tt), (tt, tt))),
      (
        (c, omega arith),
        (b, omega arith),
        ((r, omega arith), seven, ((s, omega arith), seven, tt)),
      ),
    )

proxy_limits-IsBounded : IsBounded proxy_limits
proxy_limits-IsBounded = omega arith

length-encode-fields : length (encode sample_lib (object fields)) ≤ 200
unfolding wire table wire_string table_string index_of groups
length-encode-fields =
    rw
      (encode-wire sample_lib proxy_limits proxy_limits-IsBounded (object fields) fields-Fits
        (unfold nodes in omega arith))
      (omega arith)

abbrev packet : List ℕ
packet = create_message sample_lib stored_frame 90 77777777 fields none

packet_parses :
    parse_message_limited sample_lib stored_frame packet default_max_wire_size
      default_max_decompressed_size
    ≡ ok (msg_with_limits fields proxy_limits)
unfolding parse_message_limited
packet_parses =
    parse_message_with_limits-create_message sample_lib stored_frame 90 77777777
      default_max_wire_size default_max_decompressed_size proxy_limits fields sample_laws
      proxy_limits-IsBounded fields-Fits (unfold levels in omega arith)
      (unfold nodes in omega arith) (unfold cost in omega arith) (omega arith)
      (omega (arith, length-encode-fields)) (omega (arith, length-encode-fields))

abbrev request : CaptureRecord
request = frame_of packet

abbrev response : CaptureRecord
response = record request { timestamp_ms = 1250; direction = server_to_client }

abbrev event_of : CaptureRecord → DecodedEvent Num
event_of r = message_event sample_lib r packet (msg_with_limits fields proxy_limits)

request_decodes :
    decode_record sample_lib stored_frame plain_engine request ≡ decoded (event_of request)
unfolding binary_payload
request_decodes =
    decode_record-parses sample_lib stored_frame plain_engine request packet
      (msg_with_limits fields proxy_limits) refl packet_parses

response_decodes :
    decode_record sample_lib stored_frame plain_engine response ≡ decoded (event_of response)
unfolding binary_payload
response_decodes =
    decode_record-parses sample_lib stored_frame plain_engine response packet
      (msg_with_limits fields proxy_limits) refl packet_parses

same_number : (event_of response).resp ≡ (event_of request).seq
unfolding message_event seq resp get compare_text
same_number = refl

request_asks : asks request.direction (event_of request).seq ≡ true
unfolding message_event seq get compare_text
request_asks = refl

response_replies : answers response.direction (event_of response).resp ≡ true
unfolding message_event resp get compare_text
response_replies = refl

inspect-matches_example :
    let out =
      inspect sample_lib stored_frame plain_engine response
        (inspect_all sample_lib stored_frame plain_engine (request ∷ []) (new_inspector true)) in
    (out.1.matched_request ≡ some (unwrap_or (event_of request).cmd (codes "<unknown>")))
    × (out.1.latency_ms ≡ some (1250 - 1000))
    × (find_request (codes "c") (event_of request).seq out.0.pending ≡ none)
inspect-matches_example =
    inspect-matches sample_lib stored_frame plain_engine request response (event_of request)
      (event_of response) [] (new_inspector true) request_decodes response_decodes request_asks
      response_replies refl same_number tt (omega arith)

inspect-IsRedacted_example :
    IsHidden sample_lib stored_frame plain_engine
      (inspect sample_lib stored_frame plain_engine request (new_inspector true)).1.body
inspect-IsRedacted_example =
    inspect-IsRedacted sample_lib stored_frame plain_engine request (new_inspector true) refl

observe-IsCatalog_example :
    IsCatalog sample_lib num_eq printer
      (observe sample_lib num_eq printer (event_of request) new_catalog)
observe-IsCatalog_example =
    observe-IsCatalog sample_lib num_eq printer (event_of request) new_catalog
      (new_catalog-IsCatalog sample_lib num_eq printer)
