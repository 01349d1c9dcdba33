-- ===== src/WebSocket/Reply.antt =====
-- What a caller of src/websocket.rs is sent for a message, described on the fields of the message.
use koc_core.Common.{
  ℕ, ◌==◌, if◌then◌else◌, ◌≡◌, ◌≢◌, refl, ap, Option, none, some, List, inl, inr, ◌⊎◌, Option-cases,
  Bool-cases, arith,
}
use koc_core.Common.Int.{ℤ, pos, negsuc}
use koc_core.Common.Results.{Result, ok, err}
use koc_core.Json.{Text, Value, null, bool, number, string, array, object, JsonMap, SerdeJson}
use koc_core.Bon.Decoder.{BonDecodeLimits, decode_with_limits}
use koc_core.Crypto.Lz4.{Lz4Frame}
use koc_core.ErrorCodes.{format_error}
use koc_core.Protocol.Base64.{base64_decode}
use koc_core.Protocol.Message.{
  ProtoMsg, code, hint, body, body_data, raw_data, raw_data_result, get_data, unwrap_or, and_then,
  as_object, ok_flatten,
}
use koc_core.WebSocket.{response_of, response_value}

module _ {N : Type 0} (lib : SerdeJson N) where
  -- The text is the base64 of an encoding of the value.
  abbrev pub Carries : BonDecodeLimits → Text → Value N → Type 0
  Carries limits s v =
      (bytes : List ℕ) × (base64_decode s ≡ some bytes)
      × (decode_with_limits lib bytes limits ≡ some v)

  -- The data of a message: an object in the body, or the value that a text in the body carries;
  -- otherwise all fields of the message.
  abbrev pub IsDataOf : BonDecodeLimits → JsonMap N → Option (Value N) → Value N → Type 0
  IsDataOf limits raw (some (object m)) v = v ≡ object m
  IsDataOf limits raw (some (string s)) v =
      Carries limits s v ⊎ (¬ ((u : Value N) × Carries limits s u) × (v ≡ object raw))
  IsDataOf limits raw (some null) v = v ≡ object raw
  IsDataOf limits raw (some (bool b)) v = v ≡ object raw
  IsDataOf limits raw (some (number n)) v = v ≡ object raw
  IsDataOf limits raw (some (array vs)) v = v ≡ object raw
  IsDataOf limits raw none v = v ≡ object raw

  -- Code 0 gives the data, any other code the error's text.
  abbrev pub IsReplyWith : ℤ → ProtoMsg N → Result (Value N) Text → Type 0
  IsReplyWith c proto (ok v) =
      (c ≡ pos 0) × IsDataOf proto.body_decode_limits proto.raw (body proto) v
  IsReplyWith c proto (err e) = (c ≢ pos 0) × (e ≡ format_error c (hint proto))

  abbrev pub IsReplyTo : ProtoMsg N → Result (Value N) Text → Type 0
  IsReplyTo proto r = IsReplyWith (code lib proto) proto r

  -- The data that the code takes from a body, if it has one.
  abbrev data_of : BonDecodeLimits → JsonMap N → Option (Value N) → Value N
  data_of limits raw o =
      unwrap_or (ok_flatten (elim o [ none ↦ ok none | some v ↦ body_data lib limits v ]))
        (object (unwrap_or (and_then o as_object) raw))

  data_of-text :
      (limits : BonDecodeLimits) (raw : JsonMap N) (s : Text)
      → IsDataOf limits raw (some (string s)) (data_of limits raw (some (string s)))
  unfolding body_data
  data_of-text limits raw s = elim (Option-cases (base64_decode s)) [
    | inl bad ↦ rw bad (inr ((λ (u, (bytes, found, whole)). cc), refl))
    | inr (bytes, found) ↦ elim (Option-cases (decode_with_limits lib bytes limits)) [
      | inl bad ↦ rw (found, bad) (inr ((λ (u, (bytes', found', whole)). cc), refl))
      | inr (v, whole) ↦ rw (found, whole) (inl (bytes, refl, whole))
    ]
  ]

  data_of-IsDataOf :
      (limits : BonDecodeLimits) (raw : JsonMap N) (o : Option (Value N))
      → IsDataOf limits raw o (data_of limits raw o)
  unfolding body_data
  data_of-IsDataOf limits raw none = refl
  data_of-IsDataOf limits raw (some (string s)) = data_of-text limits raw s
  data_of-IsDataOf limits raw (some v) = refl

  module _ (lz4 : Lz4Frame) where
    response_value-IsDataOf :
        (proto : ProtoMsg N)
        → IsDataOf proto.body_decode_limits proto.raw (body proto) (response_value lib lz4 proto)
    unfolding response_value raw_data raw_data_result get_data
    response_value-IsDataOf proto = data_of-IsDataOf proto.body_decode_limits proto.raw (body proto)

    coded-IsReplyWith :
        (c : ℤ) (proto : ProtoMsg N) (v : Value N)
        → IsDataOf proto.body_decode_limits proto.raw (body proto) v
        → IsReplyWith c proto (elim c [
          | pos n ↦ if n == 0 then ok v else err (format_error (pos n) (hint proto))
          | negsuc n ↦ err (format_error (negsuc n) (hint proto))
        ])
    coded-IsReplyWith (pos n) proto v h = elim (Bool-cases (n == 0)) [
      | inl done ↦ rw done (ap pos (ground arith), h)
      | inr failed ↦ rw failed ((λ z. let same : n ≡ 0 = cc in ground arith), refl)
    ]
    coded-IsReplyWith (negsuc n) proto v h = ((λ z. cc), refl)

    pub response_of-IsReplyTo :
        (proto : ProtoMsg N)
        → IsReplyTo proto (response_of lib lz4 proto (response_value lib lz4 proto))
    unfolding response_of
    response_of-IsReplyTo proto =
        coded-IsReplyWith (code lib proto) proto _ (response_value-IsDataOf proto)
