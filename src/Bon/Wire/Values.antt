-- ===== src/Bon/Wire/Values.antt =====
-- `BonDecoder` reads back every value that fits, its loops included.
use koc_core.Common.{
  ℕ, zero, suc, ◌+◌, ◌^◌, ◌≤◌, ◌<◌, ◌≡◌, refl, ◌∙◌, true, false, some, List, [], ◌∷◌, ◌++◌,
  append_assoc, length, ltb, arith,
}
use koc_core.Common.State.{◌>>=◌}
use koc_core.Json.{
  Value, null, bool, number, string, array, object, Items, no_items, item, JsonMap, no_entries,
  entry, SerdeJson, IsSerdeJson,
}
use koc_core.Json.Maps.{items_len, map_len, IsSorted, append_map}
use koc_core.Json.Maps.Order.{
  insert-Below, AllAbove, AllAbove-push, AllAbove-nothing, append_map_assoc, append_map-nothing,
}
use koc_core.Bon.Reader.{DataReader, advance}
use koc_core.Bon.Reader.Rest.{Rest, read_u8-Reads, advance-Rest, advance-advance, advance_thrice}
use koc_core.Bon.Encoder.{StrMap}
use koc_core.Bon.Decoder.{
  BonDecodeLimits, decode_at, decode_tag, decode_items, decode_entries, decode_array, decode_object,
}
use koc_core.Bon.Varint.{varint, read_7bit_int-Reads}
use koc_core.Bon.Blobs.{advance-zero}
use koc_core.Bon.Table.{IsNumbered}
use koc_core.Bon.Wire.{
  wire_string, table_string, table, table_items, table_entries, nodes, nodes_items, nodes_entries,
  cost, cost_items, cost_entries, levels, levels_items, levels_entries, wire, wire_items,
  wire_entries, Fits, FitsItems, FitsEntries, IsBounded,
}
use koc_core.Bon.Wire.Decode.{with_budget, decode_at-tag, decode_string-wire, decode_number-wire}
use koc_core.Bon.Wire.Tables.{table_string-IsNumbered, table_string-le, table-IsNumbered, table-le}

module _ {N : Type 0} where
  levels-pos : (v : Value N) → 1 ≤ levels v
  unfolding levels
  levels-pos null = omega arith
  levels-pos _ = omega arith

module _ {N : Type 0} (lib : SerdeJson N) (laws : IsSerdeJson lib) (limits : BonDecodeLimits)
    (bounded : IsBounded limits) where
  -- From a decoder that holds `n0` nodes and `b0` bytes, `n` and `b` are left.
  mutual
    unfolding wire table nodes cost levels decode_tag decode_items decode_entries decode_array
        decode_object

    pub decode_value-wire :
        (v : Value N) (l : ℕ) (r : DataReader) (ts : List ℕ) (m : StrMap) (n0 b0 n b : ℕ)
        → Fits lib limits v
        → IsNumbered m
        → length m + nodes v < 2 ^ 32
        → levels v ≤ suc l
        → n0 ≡ nodes v + n
        → b0 ≡ cost v + b
        → Rest r (wire lib m v ++ ts)
        → decode_at lib (suc l) (with_budget limits r m n0 b0)
          ≡ some (v, with_budget limits (advance r (length (wire lib m v))) (table m v) n b)
    decode_value-wire null l r ts m n0 b0 n b f h hm hl en eb k =
        let en' : n0 ≡ suc n = omega arith in
        let eb' : b0 ≡ b = omega arith in
        rw (en', eb') (decode_at-tag lib laws limits bounded l 0 r ts m n b k)
    decode_value-wire (bool true) l r ts m n0 b0 n b f h hm hl en eb k =
        let en' : n0 ≡ suc n = omega arith in
        let eb' : b0 ≡ b = omega arith in
        let flag = read_u8-Reads 1 (advance r 1) ts (advance-Rest r (6 ∷ []) (1 ∷ ts) k) in
        rw (en', eb')
          (decode_at-tag lib laws limits bounded l 6 r (1 ∷ ts) m n b k
            ∙ rw (◌>>=◌, flag, advance-advance r (6 ∷ []) (1 ∷ [])))
    decode_value-wire (bool false) l r ts m n0 b0 n b f h hm hl en eb k =
        let en' : n0 ≡ suc n = omega arith in
        let eb' : b0 ≡ b = omega arith in
        let flag = read_u8-Reads 0 (advance r 1) ts (advance-Rest r (6 ∷ []) (0 ∷ ts) k) in
        rw (en', eb')
          (decode_at-tag lib laws limits bounded l 6 r (0 ∷ ts) m n b k
            ∙ rw (◌>>=◌, flag, advance-advance r (6 ∷ []) (0 ∷ [])))
    decode_value-wire (number i) l r ts m n0 b0 n b f h hm hl en eb k =
        let en' : n0 ≡ suc n = omega arith in
        let eb' : b0 ≡ b = omega arith in
        rw (en', eb') (decode_number-wire lib laws limits bounded i l r ts m n b f k)
    decode_value-wire (string s) l r ts m n0 b0 n b f h hm hl en eb k =
        let en' : n0 ≡ suc n = omega arith in
        rw (en', eb) (decode_string-wire lib laws limits bounded s l r ts m n b f h (omega arith) k)
    decode_value-wire (array vs) l r ts m n0 b0 n b f h hm hl en eb k =
        let count = varint (items_len vs) in
        let later = wire_items lib m vs in
        let en' : n0 ≡ suc (nodes_items vs + n) = omega arith in
        let k' : Rest r (9 ∷ (count ++ (later ++ ts))) = rw append_assoc at k in
        let k1 = advance-Rest r (9 ∷ []) (count ++ (later ++ ts)) k' in
        let read =
          read_7bit_int-Reads (items_len vs) (omega (arith, bounded.items_bound, f.0)) (advance r 1)
            (later ++ ts) k1 in
        let within : ltb limits.max_collection_items (items_len vs) ≡ false = ground (arith, f.0) in
        let rest =
          decode_items-wire vs l (advance (advance r 1) (length count)) ts m (nodes_items vs + n)
            (cost_items vs + b) n b f.1 h (omega arith) (omega arith) refl refl
            (advance-Rest (advance r 1) count (later ++ ts) k1) in
        rw (en', eb)
          (decode_at-tag lib laws limits bounded l 9 r (count ++ (later ++ ts)) m
              (nodes_items vs + n) (cost_items vs + b) k'
            ∙ rw (◌>>=◌, read, within, rest, advance_thrice r (9 ∷ []) count later))
    decode_value-wire (object e) l r ts m n0 b0 n b f h hm hl en eb k =
        let count = varint (map_len e) in
        let later = wire_entries lib m e in
        let en' : n0 ≡ suc (nodes_entries e + n) = omega arith in
        let k' : Rest r (8 ∷ (count ++ (later ++ ts))) = rw append_assoc at k in
        let k1 = advance-Rest r (8 ∷ []) (count ++ (later ++ ts)) k' in
        let read =
          read_7bit_int-Reads (map_len e) (omega (arith, bounded.items_bound, f.0)) (advance r 1)
            (later ++ ts) k1 in
        let within : ltb limits.max_collection_items (map_len e) ≡ false = ground (arith, f.0) in
        let rest =
          decode_entries-wire e no_entries l (advance (advance r 1) (length count)) ts m
            (nodes_entries e + n) (cost_entries e + b) n b f.2 f.1 (AllAbove-nothing e) h
            (omega arith) (omega arith) refl refl
            (advance-Rest (advance r 1) count (later ++ ts) k1) in
        rw (en', eb)
          (decode_at-tag lib laws limits bounded l 8 r (count ++ (later ++ ts)) m
              (nodes_entries e + n) (cost_entries e + b) k'
            ∙ rw (◌>>=◌, read, within, rest, advance_thrice r (8 ∷ []) count later))

    pub decode_items-wire :
        (vs : Items N) (l : ℕ) (r : DataReader) (ts : List ℕ) (m : StrMap) (n0 b0 n b : ℕ)
        → FitsItems lib limits vs
        → IsNumbered m
        → length m + nodes_items vs < 2 ^ 32
        → levels_items vs ≤ l
        → n0 ≡ nodes_items vs + n
        → b0 ≡ cost_items vs + b
        → Rest r (wire_items lib m vs ++ ts)
        → decode_items lib (decode_at lib l) (items_len vs) (with_budget limits r m n0 b0)
          ≡ some (
            vs,
            with_budget limits (advance r (length (wire_items lib m vs))) (table_items m vs) n b,
          )
    decode_items-wire no_items l r ts m n0 b0 n b f h hm hl en eb k =
        let en' : n0 ≡ n = omega arith in
        let eb' : b0 ≡ b = omega arith in rw (en', eb', advance-zero r)
    decode_items-wire (item v vs) zero r ts m n0 b0 n b f h hm hl en eb k =
        absurd (omega (arith, levels-pos v))
    decode_items-wire (item v vs) (suc l) r ts m n0 b0 n b f h hm hl en eb k =
        let bs = wire lib m v in
        let later = wire_items lib (table m v) vs in
        let k' : Rest r (bs ++ (later ++ ts)) = rw append_assoc at k in
        let first =
          decode_value-wire v l r (later ++ ts) m n0 b0 (nodes_items vs + n) (cost_items vs + b) f.0
            h (omega arith) (omega arith) (omega arith) (omega arith) k' in
        let rest =
          decode_items-wire vs (suc l) (advance r (length bs)) ts (table m v) (nodes_items vs + n)
            (cost_items vs + b) n b f.1 (table-IsNumbered v m h) (omega (arith, table-le v m))
            (omega arith) refl refl (advance-Rest r bs _ k') in
        rw (first, ◌>>=◌, rest, advance-advance r bs later)

    pub decode_entries-wire :
        (e : JsonMap N) (acc : JsonMap N) (l : ℕ) (r : DataReader) (ts : List ℕ) (m : StrMap)
        (n0 b0 n b : ℕ)
        → FitsEntries lib limits e
        → IsSorted e
        → AllAbove acc e
        → IsNumbered m
        → length m + nodes_entries e < 2 ^ 32
        → levels_entries e ≤ l
        → n0 ≡ nodes_entries e + n
        → b0 ≡ cost_entries e + b
        → Rest r (wire_entries lib m e ++ ts)
        → decode_entries lib (decode_at lib l) (map_len e) acc (with_budget limits r m n0 b0)
          ≡ some (
            append_map acc e,
            with_budget limits (advance r (length (wire_entries lib m e))) (table_entries m e) n b,
          )
    decode_entries-wire no_entries acc l r ts m n0 b0 n b f sorted above h hm hl en eb k =
        let en' : n0 ≡ n = omega arith in
        let eb' : b0 ≡ b = omega arith in rw (en', eb', advance-zero r, append_map-nothing acc)
    decode_entries-wire (entry key v e) acc zero r ts m n0 b0 n b f sorted above h hm hl en eb k =
        absurd (omega (arith, levels-pos v))
    decode_entries-wire (entry key v e) acc (suc l) r ts m n0 b0 n b f sorted above h hm hl en eb
          k =
        let ks = wire_string m key in
        let m' = table_string m key in
        let bs = wire lib m' v in
        let later = wire_entries lib (table m' v) e in
        let k' : Rest r (ks ++ (bs ++ (later ++ ts))) = simp append_assoc at k in
        let k'' = advance-Rest r ks (bs ++ (later ++ ts)) k' in
        let h' = table_string-IsNumbered m key h in
        let n1 = nodes_entries e + n in
        let b1 = cost_entries e + b in
        let en' : n0 ≡ suc (nodes v + n1) = omega arith in
        let eb' : b0 ≡ length key + (cost v + b1) = omega arith in
        let named =
          decode_string-wire lib laws limits bounded key l r (bs ++ (later ++ ts)) m (nodes v + n1)
            (cost v + b1) f.0 h (omega arith) k' in
        let valued =
          decode_value-wire v l (advance r (length ks)) (later ++ ts) m' (nodes v + n1)
            (cost v + b1) n1 b1 f.1 h' (omega (arith, table_string-le m key)) (omega arith) refl
            refl k'' in
        let rest =
          decode_entries-wire e (append_map acc (entry key v no_entries)) (suc l)
            (advance (advance r (length ks)) (length bs)) ts (table m' v) n1 b1 n b f.2 sorted.1
            (AllAbove-push key v acc e above.1 sorted.0) (table-IsNumbered v m' h')
            (omega (arith, table_string-le m key, table-le v m')) (omega arith) refl refl
            (advance-Rest (advance r (length ks)) bs (later ++ ts) k'') in
        rw (
          en',
          eb',
          ◌>>=◌,
          named,
          valued,
          insert-Below key v acc above.0,
          rest,
          append_map_assoc acc (entry key v no_entries) e,
          advance_thrice r ks bs later,
        )
