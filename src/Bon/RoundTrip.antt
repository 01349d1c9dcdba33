-- ===== src/Bon/RoundTrip.antt =====
-- What is encoded decodes to itself, and the integers for which that fails.
use koc_core.Common.{
  ◌-◌, sym, ℕ, suc, ◌+◌, ◌^◌, ◌≤◌, ◌<◌, ◌≡◌, ap, ◌∙◌, some, List, [], ◌++◌, append-nil, arith,
}
use koc_core.Common.Int.{ℤ, negsuc}
use koc_core.Json.{Value, SerdeJson, IsSerdeJson, IsI64}
use koc_core.Bon.Reader.{join_i64, new_reader, read_i64}
use koc_core.Bon.Writer.{new_writer, write_i64, as_i32}
use koc_core.Bon.Encoder.{encode}
use koc_core.Bon.Decoder.{BonDecodeLimits, decode_with_limits}
use koc_core.Bon.Integers.{
  IsSkewed, i32_bytes, high_half, join_halves, join_halves_skewed, write_i64-bytes, read_i64-Reads,
}
use koc_core.Bon.Wire.{Fits, IsBounded, nodes, cost, levels}
use koc_core.Bon.Wire.Encode.{encode-wire}
use koc_core.Bon.Wire.Values.{decode_value-wire}

-- Let a value fit the decoder's limits: its numbers are kept by the format, its texts are UTF-8 and
-- within the limit on a text, its collections within the limit on items, its maps sorted by key;
-- and its nesting, its count of nodes and the bytes of its texts are within the limits. Then
-- `decode_with_limits` returns the value from the bytes of `encode`, whatever follows them.
pub decode_with_limits-encode :
    {N : Type 0} (lib : SerdeJson N) (limits : BonDecodeLimits) (v : Value N) (ts : List ℕ)
    → IsSerdeJson lib
    → IsBounded limits
    → Fits lib limits v
    → levels v ≤ limits.max_depth + 1
    → nodes v ≤ limits.max_total_nodes
    → cost v ≤ limits.max_total_value_bytes
    → decode_with_limits lib (encode lib v ++ ts) limits ≡ some v
unfolding decode_with_limits
decode_with_limits-encode lib limits v ts laws bounded f hl hn hc =
    let bytes = encode-wire lib limits bounded v f (omega (arith, bounded.nodes_bound)) in
    let run =
      decode_value-wire lib laws limits bounded v limits.max_depth (new_reader (encode lib v ++ ts))
        ts [] limits.max_total_nodes limits.max_total_value_bytes (limits.max_total_nodes - nodes v)
        (limits.max_total_value_bytes - cost v) f tt (omega (arith, bounded.nodes_bound))
        (omega arith) (omega arith) (omega arith) (ap (λ b. b ++ ts) bytes) in
    rw (run, decode_with_limits)

halves-Reads :
    (v : ℤ)
    → read_i64 (new_reader (write_i64 new_writer v).bytes)
      ≡ some (
        join_i64 (as_i32 v) (high_half v),
        record { bytes = (write_i64 new_writer v).bytes; position = 8 },
      )
halves-Reads v =
    let words = i32_bytes (as_i32 v) ++ i32_bytes (high_half v) in
    read_i64-Reads v (new_reader (write_i64 new_writer v).bytes) []
      (ap (λ w. w.bytes) (write_i64-bytes new_writer v) ∙ sym (append-nil words))

-- `read_i64` returns the `i64` that `write_i64` wrote, and reads all eight bytes, unless the number
-- is negative and a multiple of 2 ^ 32.
pub read_i64-write_i64 :
    (v : ℤ)
    → IsI64 v
    → ¬ IsSkewed v
    → read_i64 (new_reader (write_i64 new_writer v).bytes)
      ≡ some (v, record { bytes = (write_i64 new_writer v).bytes; position = 8 })
read_i64-write_i64 v h k = halves-Reads v ∙ rw (join_halves v h k)

-- A negative multiple of 2 ^ 32 above the least `i64` is read back as a number that is 2 ^ 32 less.
pub read_i64-write_i64_skewed :
    (n : ℕ)
    → IsSkewed (negsuc n)
    → suc n < 2 ^ 63
    → read_i64 (new_reader (write_i64 new_writer (negsuc n)).bytes)
      ≡ some (
        negsuc (n + 2 ^ 32),
        record { bytes = (write_i64 new_writer (negsuc n)).bytes; position = 8 },
      )
read_i64-write_i64_skewed n k h = halves-Reads (negsuc n) ∙ rw (join_halves_skewed n k h)
