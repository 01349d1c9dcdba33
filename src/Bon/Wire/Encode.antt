-- ===== src/Bon/Wire/Encode.antt =====
-- `BonEncoder` writes the wire format.
use koc_core.Common.{
  ℕ, ◌+◌, ◌^◌, ◌<◌, ◌≡◌, refl, ap, Bool, true, false, List, [], ◌∷◌, ◌++◌, append_assoc, append-nil,
  length, arith, if◌then◌else◌, Option-cases, inl, inr,
}
use koc_core.Common.Int.{ℤ}
use koc_core.Json.{
  Text, Value, null, bool, number, string, array, object, Items, no_items, item, JsonMap,
  no_entries, entry, SerdeJson,
}
use koc_core.Json.Maps.{items_len, map_len}
use koc_core.Bon.Writer.{DataWriter, new_writer, extend, write_u8, write_i32, write_i64, as_i32}
use koc_core.Bon.Encoder.{
  StrMap, index_of, fits_i32, BonEncoder, encode_string, encode_number, encode_value, encode_items,
  encode_entries, encode,
}
use koc_core.Bon.Decoder.{BonDecodeLimits}
use koc_core.Bon.Integers.{i32_bytes, high_half, write_i32-bytes, write_i64-bytes}
use koc_core.Bon.Varint.{varint, write_7bit_int-varint}
use koc_core.Bon.Blobs.{write_utf-counted, write_f64-bytes}
use koc_core.Bon.Table.{IsNumbered, index_of-get_elem?}
use koc_core.Bon.Wire.{
  wire_string, table_string, table, table_items, table_entries, nodes, nodes_items, nodes_entries,
  wire_number, wire, wire_items, wire_entries, FitsNumber, int, float, Fits, FitsItems, FitsEntries,
  IsBounded,
}
use koc_core.Bon.Wire.Tables.{table_string-IsNumbered, table_string-le, table-IsNumbered, table-le}

-- The encoder after it has written `bs` to `w`.
abbrev pub wrote : DataWriter → List ℕ → StrMap → BonEncoder
wrote w bs m = record { dw = extend w bs; str_map = m }

abbrev at : DataWriter → StrMap → BonEncoder
at w m = record { dw = w; str_map = m }

pub encode_string-wire :
    (w : DataWriter) (m : StrMap) (s : Text)
    → IsNumbered m
    → length m < 2 ^ 32
    → length s < 2 ^ 32
    → encode_string (at w m) s ≡ wrote w (wire_string m s) (table_string m s)
unfolding encode_string wire_string table_string
encode_string-wire w m s h hm hs = elim (Option-cases (index_of s m)) [
  | inl new ↦ rw (
    new,
    encode_string,
    wire_string,
    table_string,
    write_utf-counted (write_u8 w 5) s hs,
    append_assoc,
  )
  | inr (i, old) ↦
      let below = (index_of-get_elem? s m i h old).0 in
      rw (
        old,
        encode_string,
        wire_string,
        table_string,
        write_7bit_int-varint (write_u8 w 99) i (omega arith),
        append_assoc,
      )
]

-- The two forms of an integer.
encode_int-wire :
    (w : DataWriter) (m : StrMap) (i : ℤ) (small : Bool)
    → (if small
        then at (write_i32 (write_u8 w 1) (as_i32 i)) m
        else at (write_i64 (write_u8 w 2) i) m)
      ≡ wrote w
          (if small
            then 1 ∷ i32_bytes (as_i32 i)
            else 2 ∷ (i32_bytes (as_i32 i) ++ i32_bytes (high_half i)))
          m
encode_int-wire w m i true = rw (write_i32-bytes (write_u8 w 1) (as_i32 i), append_assoc)
encode_int-wire w m i false = rw (write_i64-bytes (write_u8 w 2) i, append_assoc)

module _ {N : Type 0} (lib : SerdeJson N) (limits : BonDecodeLimits)
    (bounded : IsBounded limits) where
  encode_number-wire :
      (w : DataWriter) (m : StrMap) (n : N)
      → FitsNumber lib n
      → encode_number lib (at w m) n ≡ wrote w (wire_number lib n) m
  unfolding encode_number
  encode_number-wire w m n (int i e k) =
      rw (e, encode_number, wire_number) (encode_int-wire w m i (fits_i32 i))
  encode_number-wire w m n (float f e g b) =
      rw (e, encode_number, wire_number, g, write_f64-bytes (write_u8 w 4) f, append_assoc)

  mutual
    unfolding encode_value wire table nodes

    pub encode_value-wire :
        (v : Value N) (w : DataWriter) (m : StrMap)
        → Fits lib limits v
        → IsNumbered m
        → length m + nodes v < 2 ^ 32
        → encode_value lib (at w m) v ≡ wrote w (wire lib m v) (table m v)
    encode_value-wire null w m f h b = refl
    encode_value-wire (bool t) w m f h b = rw append_assoc
    encode_value-wire (number n) w m f h b = encode_number-wire w m n f
    encode_value-wire (string s) w m f h b =
        encode_string-wire w m s h (omega arith) (omega (arith, bounded.bytes_bound))
    encode_value-wire (array vs) w m f h b =
        let count =
          write_7bit_int-varint (write_u8 w 9) (items_len vs)
            (omega (arith, bounded.items_bound, f.0)) in
        let start = extend (write_u8 w 9) (varint (items_len vs)) in
        rw (count, encode_items-wire vs start m f.1 h (omega arith), append_assoc, append_assoc)
    encode_value-wire (object e) w m f h b =
        let count =
          write_7bit_int-varint (write_u8 w 8) (map_len e)
            (omega (arith, bounded.items_bound, f.0)) in
        let start = extend (write_u8 w 8) (varint (map_len e)) in
        rw (count, encode_entries-wire e start m f.2 h (omega arith), append_assoc, append_assoc)

    pub encode_items-wire :
        (vs : Items N) (w : DataWriter) (m : StrMap)
        → FitsItems lib limits vs
        → IsNumbered m
        → length m + nodes_items vs < 2 ^ 32
        → encode_items lib (at w m) vs ≡ wrote w (wire_items lib m vs) (table_items m vs)
    encode_items-wire no_items w m f h b = rw append-nil
    encode_items-wire (item v vs) w m f h b = rw (
      encode_value-wire v w m f.0 h (omega arith),
      encode_items-wire vs (extend w (wire lib m v)) (table m v) f.1 (table-IsNumbered v m h)
          (omega (arith, table-le v m)),
      append_assoc,
    )

    pub encode_entries-wire :
        (e : JsonMap N) (w : DataWriter) (m : StrMap)
        → FitsEntries lib limits e
        → IsNumbered m
        → length m + nodes_entries e < 2 ^ 32
        → encode_entries lib (at w m) e ≡ wrote w (wire_entries lib m e) (table_entries m e)
    encode_entries-wire no_entries w m f h b = rw append-nil
    encode_entries-wire (entry k v e) w m f h b =
        let named = extend w (wire_string m k) in
        let m' = table_string m k in
        let h' = table_string-IsNumbered m k h in
        rw (
          encode_string-wire w m k h (omega arith) (omega (arith, bounded.bytes_bound, f.0.1)),
          encode_value-wire v named m' f.1 h' (omega (arith, table_string-le m k)),
          encode_entries-wire e (extend named (wire lib m' v)) (table m' v) f.2
              (table-IsNumbered v m' h') (omega (arith, table_string-le m k, table-le v m')),
          append_assoc,
          append_assoc,
        )

  -- `encode` writes the wire format of its argument.
  pub encode-wire :
      (v : Value N) → Fits lib limits v → nodes v < 2 ^ 32 → encode lib v ≡ wire lib [] v
  unfolding encode
  encode-wire v f b = ap (λ e. e.dw.bytes) (encode_value-wire v new_writer [] f tt (omega arith))
