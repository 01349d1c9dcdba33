-- ===== src/Protocol/Message/Tests.antt =====
-- The theorems about src/protocol.rs at concrete inputs, and the unit tests of the source.
use koc_core.Common.{◌-◌, ◌^◌, ◌≤◌, ◌≡◌, refl, none, some, [], ◌∷◌, length, arith}
use koc_core.Common.Codes.{codes}
use koc_core.Common.Int.{pos}
use koc_core.Common.Results.{ok}
use koc_core.Json.{number, string, JsonMap, no_entries, entry}
use koc_core.Json.Maps.{compare_text, get}
use koc_core.Json.Sample.{Num, whole, sample_lib, sample_laws}
use koc_core.Bon.Base64.{base64_encode}
use koc_core.Bon.Encoder.{encode, index_of}
use koc_core.Bon.Varint.{groups}
use koc_core.Bon.Wire.Encode.{encode-wire}
use koc_core.Bon.Decoder.{default_limits}
use koc_core.Bon.Wire.{wire, table, wire_string, table_string, nodes, cost, levels}
use koc_core.Bon.Tests.{message_fields, message, message-Fits, default_limits-IsBounded}
use koc_core.Crypto.Tests.{stored_frame}
use koc_core.Protocol.Base64.{base64_decode}
use koc_core.Protocol.Base64.RoundTrip.{base64_decode-base64_encode}
use koc_core.Protocol.Message.{
  ProtoMsg, new_msg, msg_with_limits, ack, seq, code_opt, body, raw_data_result,
  parse_message_with_limits, create_message,
}
use koc_core.Protocol.Message.Delivery.{
  parse_message_with_limits-create_message, raw_data_result-encode,
}

base64_decode-base64_encode_example :
    base64_decode (base64_encode (104 ∷ 105 ∷ 255 ∷ 0 ∷ [])) ≡ some (104 ∷ 105 ∷ 255 ∷ 0 ∷ [])
base64_decode-base64_encode_example =
    base64_decode-base64_encode (104 ∷ 105 ∷ 255 ∷ 0 ∷ [])
      (omega arith, (omega arith, (omega arith, (omega arith, tt))))

-- {"ack": 2^64 - 1, "code": 2^63 - 1, "seq": 7}
abbrev large_fields : JsonMap Num
large_fields = entry (codes "ack") (number (whole (pos (2 ^ 64 - 1)))) (
    entry (codes "code") (number (whole (pos (2 ^ 63 - 1))))
      (entry (codes "seq") (number (whole (pos 7))) no_entries))

abbrev large : ProtoMsg Num
large = new_msg large_fields

large_fields_test :
    (ack sample_lib large ≡ 0) × (seq sample_lib large ≡ 7) × (code_opt sample_lib large ≡ none)
unfolding ack seq code_opt get compare_text
large_fields_test = (refl, refl, refl)

length-encode-message : length (encode sample_lib message) ≤ 200
unfolding wire table wire_string table_string index_of groups
length-encode-message =
    rw
      (encode-wire sample_lib default_limits default_limits-IsBounded message message-Fits
        (unfold nodes in omega arith))
      (omega arith)

parse_message_with_limits-create_message_example :
    parse_message_with_limits sample_lib stored_frame
      (create_message sample_lib stored_frame 90 77777777 message_fields none)
      1000
      1000
      default_limits
    ≡ ok (msg_with_limits message_fields default_limits)
parse_message_with_limits-create_message_example =
    parse_message_with_limits-create_message sample_lib stored_frame 90 77777777 1000 1000
      default_limits message_fields sample_laws default_limits-IsBounded message-Fits
      (unfold levels in omega arith) (unfold nodes in omega arith) (unfold cost in omega arith)
      (omega arith) (omega (arith, length-encode-message)) (omega (arith, length-encode-message))

abbrev with_body : ProtoMsg Num
with_body =
    new_msg (entry (codes "body") (string (base64_encode (encode sample_lib message))) no_entries)

with_body_test : body with_body ≡ some (string (base64_encode (encode sample_lib message)))
unfolding body get compare_text
with_body_test = refl

raw_data_result-encode_example : raw_data_result sample_lib with_body ≡ ok (some message)
raw_data_result-encode_example =
    raw_data_result-encode sample_lib with_body message sample_laws default_limits-IsBounded
      message-Fits (unfold levels in omega arith) (unfold nodes in omega arith)
      (unfold cost in omega arith) with_body_test
