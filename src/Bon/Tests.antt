-- ===== src/Bon/Tests.antt =====
-- The theorems about src/bon.rs at concrete inputs, and runs of the code.
use koc_core.Common.{◌+◌, ◌^◌, ◌≡◌, refl, none, some, [], ◌∷◌, ◌++◌, arith, true}
use koc_core.Common.Codes.{codes}
use koc_core.Common.Int.{negsuc}
use koc_core.Json.{
  JsonMap, Value, bool, number, string, array, object, item, no_items, entry, no_entries,
}
use koc_core.Json.Maps.{compare_text}
use koc_core.Json.Sample.{Num, whole, sample_lib, sample_laws}
use koc_core.Utf8.{IsUtf8, one, done}
use koc_core.Bon.Reader.{new_reader, read_7bit_int, read_7bit_loop, read_u8, read_i64}
use koc_core.Bon.Writer.{new_writer, write_i64}
use koc_core.Bon.Encoder.{encode}
use koc_core.Bon.Decoder.{default_limits, decode_with_limits}
use koc_core.Bon.Wire.{Fits, IsBounded, int, nodes, cost, levels}
use koc_core.Bon.RoundTrip.{
  decode_with_limits-encode, read_i64-write_i64, read_i64-write_i64_skewed,
}

-- The unit test of the source.
overwide_7bit_integer :
    read_7bit_int (new_reader (0xff ∷ 0xff ∷ 0xff ∷ 0xff ∷ 0xff ∷ 0x00 ∷ [])) ≡ none
unfolding read_7bit_int read_7bit_loop read_u8
overwide_7bit_integer = refl

-- {"a": ["b", "a", -5000000000], "c": true}
abbrev pub message_fields : JsonMap Num
message_fields =
    entry (codes "a")
      (array (
        item (string (codes "b"))
          (item (string (codes "a")) (item (number (whole (negsuc 4_999_999_999))) no_items))))
      (entry (codes "c") (bool true) no_entries)

abbrev pub message : Value Num
message = object message_fields

letter-IsUtf8 : IsUtf8 (codes "a") × IsUtf8 (codes "b") × IsUtf8 (codes "c")
letter-IsUtf8 = (one _ (omega arith) done, one _ (omega arith) done, one _ (omega arith) done)

pub message-Fits : Fits sample_lib default_limits message
unfolding compare_text
message-Fits =
    let (a, b, c) = letter-IsUtf8 in
    let number_fits = int (negsuc 4_999_999_999) refl (λ h. omega arith) in
    (
      omega arith,
      ((refl, tt), (tt, tt)),
      (
        (a, omega arith),
        (omega arith, ((b, omega arith), ((a, omega arith), (number_fits, tt)))),
        ((c, omega arith), tt, tt),
      ),
    )

pub default_limits-IsBounded : IsBounded default_limits
default_limits-IsBounded = omega arith

decode_with_limits-encode_example :
    decode_with_limits sample_lib (encode sample_lib message ++ 7 ∷ []) default_limits
    ≡ some message
decode_with_limits-encode_example =
    decode_with_limits-encode sample_lib default_limits message (7 ∷ []) sample_laws
      default_limits-IsBounded message-Fits (unfold levels in omega arith)
      (unfold nodes in omega arith) (unfold cost in omega arith)

read_i64-write_i64_example :
    read_i64 (new_reader (write_i64 new_writer (negsuc 4_999_999_999)).bytes)
    ≡ some (
      negsuc 4_999_999_999,
      record { bytes = (write_i64 new_writer (negsuc 4_999_999_999)).bytes; position = 8 },
    )
read_i64-write_i64_example =
    read_i64-write_i64 (negsuc 4_999_999_999) (omega arith) (λ h. omega arith)

-- -4294967296 is read back as -8589934592.
read_i64-write_i64_skewed_example :
    read_i64 (new_reader (write_i64 new_writer (negsuc 4_294_967_295)).bytes)
    ≡ some (
      negsuc (4_294_967_295 + 2 ^ 32),
      record { bytes = (write_i64 new_writer (negsuc 4_294_967_295)).bytes; position = 8 },
    )
read_i64-write_i64_skewed_example =
    read_i64-write_i64_skewed 4_294_967_295 (omega arith) (omega arith)
