-- ===== src/Protocol/Message/Delivery.antt =====
-- What a receiver gets from the packets of `create_message`, and what it refuses.
use koc_core.Common.{
  ℕ, ◌+◌, ◌^◌, ◌≤◌, ◌<◌, ◌≡◌, refl, false, Option, none, some, [], append-nil, length, ltb,
  Bool-cases, inl, inr, arith,
}
use koc_core.Common.Results.{ok}
use koc_core.Json.{Text, Value, object, JsonMap, SerdeJson, IsSerdeJson}
use koc_core.Json.Maps.{get}
use koc_core.Bon.Encoder.{encode}
use koc_core.Bon.Decoder.{BonDecodeLimits, decode_with_limits}
use koc_core.Bon.Wire.{Fits, IsBounded, nodes, cost, levels}
use koc_core.Bon.Wire.Bytes.{encode-bytes}
use koc_core.Bon.RoundTrip.{decode_with_limits-encode}
use koc_core.Crypto.Xor.{xor_encrypt, xor_encrypt_header}
use koc_core.Crypto.Lz4.{Lz4Frame}
use koc_core.Crypto.Auto.{encrypt, get_encryptor}
use koc_core.Crypto.Auto.Limits.{try_auto_decrypt-xor_encrypt}
use koc_core.Bon.Base64.{base64_encode}
use koc_core.Protocol.Base64.RoundTrip.{base64_decode-base64_encode}
use koc_core.Json.{string}
use koc_core.Protocol.Message.{
  body, body_data, raw_data_result, ProtoMsg, msg_with_limits, u32_field, ack, seq, resp,
  parse_message_with_limits, create_message, unwrap_or, u32_try_from, and_then, value_as_u64,
}

u32_or_zero-lt : (o : Option ℕ) → unwrap_or (and_then o u32_try_from) 0 < 2 ^ 32
u32_or_zero-lt none = omega arith
u32_or_zero-lt (some v) = elim (Bool-cases (ltb v (2 ^ 32))) [
  | inl fits ↦ rw fits (ground arith)
  | inr over ↦ rw over (omega arith)
]

module _ {N : Type 0} (lib : SerdeJson N) where
  u32_field-lt : (key : Text) (m : ProtoMsg N) → u32_field lib key m < 2 ^ 32
  unfolding u32_field
  u32_field-lt key m = u32_or_zero-lt (and_then (get key m.raw) (value_as_u64 lib))

  -- The fields ack, seq and resp never leave the range of a u32, whatever the message holds.
  pub acks-lt :
      (m : ProtoMsg N) → (ack lib m < 2 ^ 32) × (seq lib m < 2 ^ 32) × (resp lib m < 2 ^ 32)
  unfolding ack seq resp
  acks-lt m = (u32_field-lt _ m, u32_field-lt _ m, u32_field-lt _ m)

  module _ (lz4 : Lz4Frame) where
    create_message-x :
        (mask rnd : ℕ) (fields : JsonMap N)
        → create_message lib lz4 mask rnd fields none
          ≡ xor_encrypt mask rnd (encode lib (object fields))
    unfolding create_message get_encryptor encrypt
    create_message-x mask rnd fields = refl

    -- Let the fields of a message fit the format: UTF-8 texts, maps sorted by their keys, and
    -- numbers that are an i64 other than a negative multiple of 2 ^ 32, or else a float that
    -- `Number` gives back, where `Number` behaves as documented. Let them be within the receiver's
    -- limits on the nesting, the collections, the texts and the counts of nodes and bytes, where
    -- those on collections, texts and nodes are below 2 ^ 32, and let the encoding be within the
    -- limits on the wire and on decrypted data. Then the packet of `create_message` with the
    -- default encryptor and a mask byte is parsed to a message with exactly these fields, whatever
    -- mask and padding the encryptor drew.
    pub parse_message_with_limits-create_message :
        (mask rnd max_wire max_out : ℕ) (limits : BonDecodeLimits) (fields : JsonMap N)
        → IsSerdeJson lib
        → IsBounded limits
        → Fits lib limits (object fields)
        → levels (object fields) ≤ limits.max_depth + 1
        → nodes (object fields) ≤ limits.max_total_nodes
        → cost (object fields) ≤ limits.max_total_value_bytes
        → mask < 256
        → length (encode lib (object fields)) + 4 ≤ max_wire
        → length (encode lib (object fields)) ≤ max_out
        → parse_message_with_limits lib lz4
            (create_message lib lz4 mask rnd fields none)
            max_wire
            max_out
            limits
          ≡ ok (msg_with_limits fields limits)
    unfolding parse_message_with_limits
    parse_message_with_limits-create_message mask rnd max_wire max_out limits fields laws bounded f
          hl hn hc hm hw ho =
        let bs = encode lib (object fields) in
        let few : nodes (object fields) < 2 ^ 32 = omega (arith, bounded.nodes_bound) in
        let bytes = encode-bytes lib limits bounded (object fields) f few in
        let size = (xor_encrypt_header mask rnd bs).0 in
        let small : ltb max_wire (length (xor_encrypt mask rnd bs)) ≡ false =
          ground (arith, size) in
        let fits : ltb max_out (length bs) ≡ false = ground arith in
        let whole : decode_with_limits lib bs limits ≡ some (object fields) =
          rw (append-nil bs) at
            (decode_with_limits-encode lib limits (object fields) [] laws bounded f hl hn hc) in
        rw (
          create_message-x mask rnd fields,
          small,
          try_auto_decrypt-xor_encrypt lz4 mask rnd max_out bs hm bytes,
          fits,
          whole,
        )

  -- The decoder hands a binary body on as base64 text. Let the body be the encoding of a value that
  -- fits the format: UTF-8 texts, maps sorted by their keys, and numbers that are an i64 other than
  -- a negative multiple of 2 ^ 32, or else a float that `Number` gives back, where `Number` behaves
  -- as documented. Let the value be within the message's limits on the nesting, the collections,
  -- the texts and the counts of nodes and bytes, where those on collections, texts and nodes are
  -- below 2 ^ 32. Then `raw_data_result` returns that value.
  pub raw_data_result-encode :
      (m : ProtoMsg N) (v : Value N)
      → IsSerdeJson lib
      → IsBounded m.body_decode_limits
      → Fits lib m.body_decode_limits v
      → levels v ≤ m.body_decode_limits.max_depth + 1
      → nodes v ≤ m.body_decode_limits.max_total_nodes
      → cost v ≤ m.body_decode_limits.max_total_value_bytes
      → body m ≡ some (string (base64_encode (encode lib v)))
      → raw_data_result lib m ≡ ok (some v)
  unfolding raw_data_result
  raw_data_result-encode m v laws bounded f hl hn hc e =
      let limits = m.body_decode_limits in
      let bytes = encode-bytes lib limits bounded v f (omega (arith, bounded.nodes_bound)) in
      let whole : decode_with_limits lib (encode lib v) limits ≡ some v =
        rw (append-nil (encode lib v)) at
          (decode_with_limits-encode lib limits v [] laws bounded f hl hn hc) in
      rw (e, raw_data_result, body_data, base64_decode-base64_encode (encode lib v) bytes, whole)
