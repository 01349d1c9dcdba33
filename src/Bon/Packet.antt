-- ===== src/Bon/Packet.antt =====
-- `encode_game_packet` of src/bon.rs.
use koc_core.Common.{ℕ, Option, none, some, List}
use koc_core.Common.Codes.{codes}
use koc_core.Common.Int.{ℤ, pos}
use koc_core.Json.{Text, Value, string, number, SerdeJson}
use koc_core.Bon.Writer.{write_u8, write_7bit_int}
use koc_core.Bon.Encoder.{BonEncoder, new_encoder, encode_value, encode, encode_binary}

module _ {N : Type 0} (lib : SerdeJson N) where
  -- A key and an integer or a text.
  abbrev pub text_entry : Text → Text → BonEncoder → BonEncoder
  text_entry key s e = encode_value lib (encode_value lib e (string key)) (string s)

  abbrev pub int_entry : Text → ℤ → BonEncoder → BonEncoder
  int_entry key i e = encode_value lib (encode_value lib e (string key)) (number (lib.from_i64 i))

  abbrev pub field_count : Option (Value N) → ℕ
  field_count none = 4
  field_count (some v) = 5

  abbrev pub body_entry : Option (Value N) → BonEncoder → BonEncoder
  body_entry none e = e
  body_entry (some params) e =
      encode_binary (encode_value lib e (string (codes "body"))) (encode lib params)

  unfoldable pub encode_game_packet : Text → ℕ → ℕ → ℤ → Option (Value N) → List ℕ
  unfolding encode_value encode encode_binary
  encode_game_packet cmd ack seq time body_params =
      let e0 = record new_encoder {
        dw = write_7bit_int (write_u8 new_encoder.dw 8) (field_count body_params);
      } in
      let e1 = text_entry (codes "cmd") cmd e0 in
      let e2 = int_entry (codes "ack") (pos ack) e1 in
      let e3 = int_entry (codes "seq") (pos seq) e2 in
      let e4 = int_entry (codes "time") time e3 in (body_entry body_params e4).dw.bytes
