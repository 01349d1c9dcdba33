-- ===== src/Protocol/Message.antt =====
-- `ProtoMsg`, `parse_message` and its variants, and `create_message` of src/protocol.rs.
pub mod Delivery
pub mod Tests
use koc_core.Common.{ℕ, ◌*◌, ◌^◌, Bool, Option, none, some, List, length, ltb, if◌then◌else◌}
use koc_core.Common.Codes.{codes}
use koc_core.Common.Int.{ℤ, pos, negsuc}
use koc_core.Common.Results.{Result, ok, err, ◌>>=◌}
use koc_core.Json.{Text, Value, null, bool, number, string, array, object, JsonMap, SerdeJson}
use koc_core.Json.Maps.{get}
use koc_core.Bon.Encoder.{encode}
use koc_core.Bon.Decoder.{BonDecodeLimits, default_limits, proxy_limits, decode, decode_with_limits}
use koc_core.Crypto.Lz4.{CryptoError, Lz4Frame, default_max_decompressed_size}
use koc_core.Crypto.Auto.{get_encryptor, encrypt, decrypt, try_auto_decrypt}
use koc_core.Protocol.Base64.{base64_decode}

abbrev pub default_max_wire_size : ℕ
default_max_wire_size = 8 * 1024 * 1024

-- The error messages of this file, and those of src/crypto.rs that it passes on.
pub data ProtoError : Type 0 where
  wire_exceeds : ℕ → ℕ → ProtoError
  crypto_failed : CryptoError → ProtoError
  bon_decode_failed expected_object : ProtoError
  body_base64_failed body_bon_failed body_is_neither : ProtoError

pub record ProtoMsg (N : Type 0) : Type 0 where
  pub raw : JsonMap N
  pub body_decode_limits : BonDecodeLimits

-- `ok_or_else`, and `?` where the error is a message of src/crypto.rs.
abbrev pub ok_or {ℓ} : {A : Type ℓ} → ProtoError → Option A → Result A ProtoError
ok_or e none = err e
ok_or e (some a) = ok a

abbrev pub from_crypto {ℓ} : {A : Type ℓ} → Result A CryptoError → Result A ProtoError
from_crypto (ok a) = ok a
from_crypto (err e) = err (crypto_failed e)

-- `.ok().flatten()`
abbrev pub ok_flatten {ℓ} : {A : Type ℓ} → Result (Option A) ProtoError → Option A
ok_flatten (ok o) = o
ok_flatten (err e) = none

abbrev pub unwrap_or {ℓ} : {A : Type ℓ} → Option A → A → A
unwrap_or none a = a
unwrap_or (some b) a = b

-- `u32::try_from(v).ok()` and `i32::try_from(v).ok()`
abbrev pub u32_try_from : ℕ → Option ℕ
u32_try_from v = if ltb v (2 ^ 32) then some v else none

abbrev pub i32_try_from : ℤ → Option ℤ
i32_try_from (pos n) = if ltb n (2 ^ 31) then some (pos n) else none
i32_try_from (negsuc n) = if ltb n (2 ^ 31) then some (negsuc n) else none

abbrev pub and_then {ℓ κ} : {A : Type ℓ} {B : Type κ} → Option A → (A → Option B) → Option B
and_then none f = none
and_then (some a) f = f a

module _ {N : Type 0} where
  abbrev pub as_str : Value N → Option Text
  as_str (string s) = some s
  as_str v = none

  abbrev pub as_object : Value N → Option (JsonMap N)
  as_object (object m) = some m
  as_object v = none

  abbrev pub new_msg : JsonMap N → ProtoMsg N
  new_msg raw = record { raw = raw; body_decode_limits = default_limits }

  abbrev pub msg_with_limits : JsonMap N → BonDecodeLimits → ProtoMsg N
  msg_with_limits raw limits = record { raw = raw; body_decode_limits = limits }

  unfoldable pub text_field : Text → ProtoMsg N → Option Text
  text_field key m = and_then (get key m.raw) as_str

  unfoldable pub cmd : ProtoMsg N → Option Text
  unfolding text_field
  cmd m = text_field (codes "cmd") m

  unfoldable pub error : ProtoMsg N → Option Text
  unfolding text_field
  error m = text_field (codes "error") m

  unfoldable pub hint : ProtoMsg N → Option Text
  unfolding text_field
  hint m = text_field (codes "hint") m

  unfoldable pub body : ProtoMsg N → Option (Value N)
  body m = get (codes "body") m.raw

  -- The object in the body, or the whole message.
  unfoldable pub get_data : ProtoMsg N → JsonMap N
  unfolding body
  get_data m = unwrap_or (and_then (body m) as_object) m.raw

  abbrev pub into_data : ProtoMsg N → JsonMap N
  into_data m = m.raw

module _ {N : Type 0} (lib : SerdeJson N) where
  abbrev pub value_as_u64 : Value N → Option ℕ
  value_as_u64 (number n) = lib.as_u64 n
  value_as_u64 v = none

  abbrev pub value_as_i64 : Value N → Option ℤ
  value_as_i64 (number n) = lib.as_i64 n
  value_as_i64 v = none

  unfoldable pub u32_field : Text → ProtoMsg N → ℕ
  u32_field key m = unwrap_or (and_then (and_then (get key m.raw) value_as_u64) u32_try_from) 0

  unfoldable pub ack : ProtoMsg N → ℕ
  unfolding u32_field
  ack m = u32_field (codes "ack") m

  unfoldable pub seq : ProtoMsg N → ℕ
  unfolding u32_field
  seq m = u32_field (codes "seq") m

  unfoldable pub resp : ProtoMsg N → ℕ
  unfolding u32_field
  resp m = u32_field (codes "resp") m

  unfoldable pub time : ProtoMsg N → ℤ
  time m = unwrap_or (and_then (get (codes "time") m.raw) value_as_i64) (pos 0)

  unfoldable pub code_opt : ProtoMsg N → Option ℤ
  code_opt m = and_then (and_then (get (codes "code") m.raw) value_as_i64) i32_try_from

  unfoldable pub code : ProtoMsg N → ℤ
  unfolding code_opt
  code m = unwrap_or (code_opt m) (pos 0)

  -- `match body { … }` of `raw_data_result`
  unfoldable pub body_data : BonDecodeLimits → Value N → Result (Option (Value N)) ProtoError
  body_data limits (string s) = do
    bytes ← ok_or body_base64_failed (base64_decode s)
    v ← ok_or body_bon_failed (decode_with_limits lib bytes limits)
    ok (some v)
  body_data limits (object m) = ok (some (object m))
  body_data limits null = ok none
  body_data limits (bool b) = err body_is_neither
  body_data limits (number n) = err body_is_neither
  body_data limits (array vs) = err body_is_neither

  unfoldable pub raw_data_result : ProtoMsg N → Result (Option (Value N)) ProtoError
  unfolding body body_data
  raw_data_result m = elim (body m) [ none ↦ ok none | some v ↦ body_data m.body_decode_limits v ]

  unfoldable pub raw_data : ProtoMsg N → Option (Value N)
  unfolding raw_data_result
  raw_data m = ok_flatten (raw_data_result m)

  -- `match value { Value::Object(obj) => …, _ => Err(…) }`
  abbrev pub message_of : BonDecodeLimits → Value N → Result (ProtoMsg N) ProtoError
  message_of limits (object m) = ok (msg_with_limits m limits)
  message_of limits v = err expected_object

  module _ (lz4 : Lz4Frame) where
    unfoldable pub parse_message_with_limits :
        List ℕ → ℕ → ℕ → BonDecodeLimits → Result (ProtoMsg N) ProtoError
    parse_message_with_limits bs max_wire max_out limits =
        if ltb max_wire (length bs)
        then err (wire_exceeds (length bs) max_wire)
        else from_crypto (try_auto_decrypt lz4 bs max_out)
          >>= (λ decrypted. ok_or bon_decode_failed (decode_with_limits lib decrypted limits))
          >>= message_of limits

    unfoldable pub parse_message : List ℕ → Result (ProtoMsg N) ProtoError
    unfolding parse_message_with_limits
    parse_message bs =
        parse_message_with_limits bs (32 * 1024 * 1024) default_max_decompressed_size default_limits

    unfoldable pub parse_message_limited : List ℕ → ℕ → ℕ → Result (ProtoMsg N) ProtoError
    unfolding parse_message_with_limits
    parse_message_limited bs max_wire max_out =
        parse_message_with_limits bs max_wire max_out proxy_limits

    unfoldable pub parse_message_enc : List ℕ → Text → Result (ProtoMsg N) ProtoError
    parse_message_enc bs name =
        ok_or bon_decode_failed (decode lib (decrypt lz4 (get_encryptor name) bs))
        >>= message_of default_limits

    -- The mask and padding that the encryptor draws are arguments.
    unfoldable pub create_message : ℕ → ℕ → JsonMap N → Option Text → List ℕ
    create_message mask rnd fields name =
        encrypt lz4 (get_encryptor (unwrap_or name (codes "x"))) mask rnd
          (encode lib (object fields))
