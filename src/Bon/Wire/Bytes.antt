-- ===== src/Bon/Wire/Bytes.antt =====
-- The wire format consists of bytes: a table below 2 ^ 32 entries and texts of UTF-8 keep it so.
use koc_core.Common.{
  ℕ, zero, suc, ◌+◌, ◌*◌, ◌/◌, ◌^◌, ◌<◌, List, [], ◌∷◌, ◌++◌, length, arith, Option-cases,
  Bool-cases, inl, inr, ltb,
}
use koc_core.Common.{true, false}
use koc_core.Common.Int.{ℤ}
use koc_core.Common.Results.{All}
use koc_core.Json.{
  Text, Value, null, bool, number, string, array, object, Items, no_items, item, JsonMap,
  no_entries, entry, SerdeJson,
}
use koc_core.Json.Maps.{items_len, map_len}
use koc_core.Utf8.{IsUtf8, done, one, two, three, four}
use koc_core.Bon.Writer.{to_le_bytes, as_i32, low}
use koc_core.Bon.Encoder.{StrMap, index_of, fits_i32, encode}
use koc_core.Bon.Decoder.{BonDecodeLimits}
use koc_core.Bon.Integers.{i32_bytes, high_half}
use koc_core.Bon.Varint.{groups, varint}
use koc_core.Bon.Blobs.{counted}
use koc_core.Bon.Table.{IsNumbered, index_of-get_elem?}
use koc_core.Bon.Wire.{
  wire_string, table_string, table, nodes, nodes_items, nodes_entries, wire_int, wire_number, wire,
  wire_items, wire_entries, FitsNumber, int, float, Fits, FitsItems, FitsEntries, IsBounded,
}
use koc_core.Bon.Wire.Tables.{table_string-IsNumbered, table_string-le, table-IsNumbered, table-le}
use koc_core.Bon.Wire.Encode.{encode-wire}

abbrev pub AllBytes : List ℕ → Type 0
AllBytes bs = All (λ b. b < 256) bs

bytes_append : (as' bs : List ℕ) → AllBytes as' → AllBytes bs → AllBytes (as' ++ bs)
bytes_append [] bs h k = k
bytes_append (a ∷ as') bs (ha, h) k = (ha, bytes_append as' bs h k)

text-bytes : {s : Text} → IsUtf8 s → AllBytes s
text-bytes done = tt
text-bytes (one a p h) = (omega arith, text-bytes h)
text-bytes (two a b p q r h) = (omega arith, (omega arith, text-bytes h))
text-bytes (three a b c p q r s h) = (omega arith, (omega arith, (omega arith, text-bytes h)))
text-bytes (four a b c d p q r s u h) =
    (omega arith, (omega arith, (omega arith, (omega arith, text-bytes h))))

le-bytes : (n v : ℕ) → AllBytes (to_le_bytes n v)
le-bytes zero v = tt
le-bytes (suc n) v = (omega arith, le-bytes n (v / 256))

groups-bytes : (k n : ℕ) → n < 128 ^ k * 128 → AllBytes (groups k n)
unfolding groups
groups-bytes zero n h = (omega arith, tt)
groups-bytes (suc k) n h = elim (Bool-cases (ltb n 128)) [
  | inl small ↦ rw small (ground arith, tt)
  | inr large ↦ rw large (omega arith, groups-bytes k (n / 128) (omega arith))
]

varint-bytes : (n : ℕ) → n < 2 ^ 32 → AllBytes (varint n)
varint-bytes n h = groups-bytes 4 n (omega arith)

counted-bytes : (s : Text) → IsUtf8 s → length s < 2 ^ 32 → AllBytes (counted s)
counted-bytes s u h = bytes_append (varint (length s)) s (varint-bytes (length s) h) (text-bytes u)

wire_string-bytes :
    (m : StrMap) (s : Text)
    → IsNumbered m
    → length m < 2 ^ 32
    → IsUtf8 s
    → length s < 2 ^ 32
    → AllBytes (wire_string m s)
unfolding wire_string
wire_string-bytes m s h hm u hs = elim (Option-cases (index_of s m)) [
  | inl new ↦ rw (new, wire_string) (omega arith, counted-bytes s u hs)
  | inr (i, old) ↦
      let below = (index_of-get_elem? s m i h old).0 in
      rw (old, wire_string) (omega arith, varint-bytes i (omega arith))
]

wire_int-bytes : (i : ℤ) → AllBytes (wire_int i)
wire_int-bytes i = elim (Bool-cases (fits_i32 i)) [
  | inl small ↦ rw small (omega arith, le-bytes 4 (low (2 ^ 32) (as_i32 i)))
  | inr large ↦ rw large (
    omega arith,
    bytes_append (i32_bytes (as_i32 i)) (i32_bytes (high_half i))
        (le-bytes 4 (low (2 ^ 32) (as_i32 i))) (le-bytes 4 (low (2 ^ 32) (high_half i))),
  )
]

module _ {N : Type 0} (lib : SerdeJson N) (limits : BonDecodeLimits)
    (bounded : IsBounded limits) where
  number-bytes : (n : N) → FitsNumber lib n → AllBytes (wire_number lib n)
  number-bytes n (int i e k) = rw (e, wire_number) (wire_int-bytes i)
  number-bytes n (float f e g b) = rw (e, wire_number, g) (omega arith, le-bytes 8 f)

  mutual
    unfolding wire table nodes

    wire-bytes :
        (v : Value N) (m : StrMap)
        → Fits lib limits v
        → IsNumbered m
        → length m + nodes v < 2 ^ 32
        → AllBytes (wire lib m v)
    wire-bytes null m f h b = (omega arith, tt)
    wire-bytes (bool true) m f h b = (omega arith, (omega arith, tt))
    wire-bytes (bool false) m f h b = (omega arith, (omega arith, tt))
    wire-bytes (number n) m f h b = number-bytes n f
    wire-bytes (string s) m f h b =
        wire_string-bytes m s h (omega arith) f.0 (omega (arith, f.1, bounded.bytes_bound))
    wire-bytes (array vs) m f h b = (
      omega arith,
      bytes_append (varint (items_len vs)) (wire_items lib m vs)
          (varint-bytes (items_len vs) (omega (arith, bounded.items_bound, f.0)))
          (items-bytes vs m f.1 h (omega arith)),
    )
    wire-bytes (object e) m f h b = (
      omega arith,
      bytes_append (varint (map_len e)) (wire_entries lib m e)
          (varint-bytes (map_len e) (omega (arith, bounded.items_bound, f.0)))
          (entries-bytes e m f.2 h (omega arith)),
    )

    items-bytes :
        (vs : Items N) (m : StrMap)
        → FitsItems lib limits vs
        → IsNumbered m
        → length m + nodes_items vs < 2 ^ 32
        → AllBytes (wire_items lib m vs)
    items-bytes no_items m f h b = tt
    items-bytes (item v vs) m (f, fs) h b =
        bytes_append (wire lib m v) (wire_items lib (table m v) vs)
          (wire-bytes v m f h (omega arith))
          (items-bytes vs (table m v) fs (table-IsNumbered v m h) (omega (arith, table-le v m)))

    entries-bytes :
        (e : JsonMap N) (m : StrMap)
        → FitsEntries lib limits e
        → IsNumbered m
        → length m + nodes_entries e < 2 ^ 32
        → AllBytes (wire_entries lib m e)
    entries-bytes no_entries m f h b = tt
    entries-bytes (entry k v e) m (fk, fv, fe) h b =
        let mk = table_string m k in
        let hk = table_string-IsNumbered m k h in
        let short = table_string-le m k in
        bytes_append (wire_string m k) (wire lib mk v ++ wire_entries lib (table mk v) e)
          (wire_string-bytes m k h (omega arith) fk.0 (omega (arith, fk.1, bounded.bytes_bound)))
          (bytes_append (wire lib mk v) (wire_entries lib (table mk v) e)
            (wire-bytes v mk fv hk (omega arith))
            (entries-bytes e (table mk v) fe (table-IsNumbered v mk hk)
              (omega (arith, table-le v mk))))

  -- A value within the limits is encoded as bytes.
  pub encode-bytes : (v : Value N) → Fits lib limits v → nodes v < 2 ^ 32 → AllBytes (encode lib v)
  encode-bytes v f b =
      rw (encode-wire lib limits bounded v f b) (wire-bytes v [] f tt (omega arith))
