-- ===== src/Bon/Wire.antt =====
-- The wire format of BON, described on its own: the bytes of a value under a string table, the
-- table after it, and what decoding it costs.
pub mod Tables
pub mod Encode
pub mod Decode
pub mod Values
pub mod Bytes
use koc_core.Common.{
  ℕ, zero, suc, ◌+◌, ◌^◌, ◌≤◌, ◌<◌, max, ◌≡◌, refl, Bool, true, false, Option, none, some, List, [],
  ◌∷◌, ◌++◌, length, arith, if◌then◌else◌,
}
use koc_core.Common.Int.{ℤ}
use koc_core.Json.{
  Text, Value, null, bool, number, string, array, object, Items, no_items, item, JsonMap,
  no_entries, entry, SerdeJson,
}
use koc_core.Json.Maps.{items_len, map_len, IsSorted}
use koc_core.Utf8.{IsUtf8}
use koc_core.Bon.Writer.{as_i32, to_le_bytes}
use koc_core.Bon.Encoder.{StrMap, index_of, fits_i32}
use koc_core.Bon.Decoder.{BonDecodeLimits}
use koc_core.Bon.Integers.{i32_bytes, high_half, IsSkewed}
use koc_core.Bon.Varint.{varint}
use koc_core.Bon.Blobs.{counted}

unfoldable pub wire_string : StrMap → Text → List ℕ
wire_string m s = elim (index_of s m) [ some i ↦ 99 ∷ varint i | none ↦ 5 ∷ counted s ]

unfoldable pub table_string : StrMap → Text → StrMap
table_string m s = elim (index_of s m) [ some i ↦ m | none ↦ (s, length m) ∷ m ]

abbrev pub wire_int : ℤ → List ℕ
wire_int i =
    if fits_i32 i
    then 1 ∷ i32_bytes (as_i32 i)
    else 2 ∷ (i32_bytes (as_i32 i) ++ i32_bytes (high_half i))

module _ {N : Type 0} where
  unfoldable mutual
    pub table : StrMap → Value N → StrMap
    table m null = m
    table m (bool b) = m
    table m (number n) = m
    table m (string s) = table_string m s
    table m (array vs) = table_items m vs
    table m (object e) = table_entries m e

    pub table_items : StrMap → Items N → StrMap
    table_items m no_items = m
    table_items m (item v vs) = table_items (table m v) vs

    pub table_entries : StrMap → JsonMap N → StrMap
    table_entries m no_entries = m
    table_entries m (entry k v e) = table_entries (table (table_string m k) v) e

  -- The calls of `decode_at` that a value takes.
  unfoldable mutual
    pub nodes : Value N → ℕ
    nodes null = 1
    nodes (bool b) = 1
    nodes (number n) = 1
    nodes (string s) = 1
    nodes (array vs) = suc (nodes_items vs)
    nodes (object e) = suc (nodes_entries e)

    pub nodes_items : Items N → ℕ
    nodes_items no_items = 0
    nodes_items (item v vs) = nodes v + nodes_items vs

    pub nodes_entries : JsonMap N → ℕ
    nodes_entries no_entries = 0
    nodes_entries (entry k v e) = suc (nodes v + nodes_entries e)

  -- The bytes of all its texts, a repeated text counted each time.
  unfoldable mutual
    pub cost : Value N → ℕ
    cost null = 0
    cost (bool b) = 0
    cost (number n) = 0
    cost (string s) = length s
    cost (array vs) = cost_items vs
    cost (object e) = cost_entries e

    pub cost_items : Items N → ℕ
    cost_items no_items = 0
    cost_items (item v vs) = cost v + cost_items vs

    pub cost_entries : JsonMap N → ℕ
    cost_entries no_entries = 0
    cost_entries (entry k v e) = length k + (cost v + cost_entries e)

  -- The nesting: a leaf has one level.
  unfoldable mutual
    pub levels : Value N → ℕ
    levels null = 1
    levels (bool b) = 1
    levels (number n) = 1
    levels (string s) = 1
    levels (array vs) = suc (levels_items vs)
    levels (object e) = suc (levels_entries e)

    pub levels_items : Items N → ℕ
    levels_items no_items = 0
    levels_items (item v vs) = max (levels v) (levels_items vs)

    pub levels_entries : JsonMap N → ℕ
    levels_entries no_entries = 0
    levels_entries (entry k v e) = max 1 (max (levels v) (levels_entries e))

module _ {N : Type 0} (lib : SerdeJson N) where
  abbrev pub wire_number : N → List ℕ
  wire_number n = elim (lib.as_i64 n) [
    | some i ↦ wire_int i
    | none ↦ elim (lib.as_f64 n) [ some f ↦ 4 ∷ to_le_bytes 8 f | none ↦ [] ]
  ]

  unfoldable mutual
    unfolding table

    pub wire : StrMap → Value N → List ℕ
    wire m null = 0 ∷ []
    wire m (bool b) = 6 ∷ (if b then 1 else 0) ∷ []
    wire m (number n) = wire_number n
    wire m (string s) = wire_string m s
    wire m (array vs) = 9 ∷ (varint (items_len vs) ++ wire_items m vs)
    wire m (object e) = 8 ∷ (varint (map_len e) ++ wire_entries m e)

    pub wire_items : StrMap → Items N → List ℕ
    wire_items m no_items = []
    wire_items m (item v vs) = wire m v ++ wire_items (table m v) vs

    pub wire_entries : StrMap → JsonMap N → List ℕ
    wire_entries m no_entries = []
    wire_entries m (entry k v e) =
        wire_string m k
        ++ (wire (table_string m k) v ++ wire_entries (table (table_string m k) v) e)

  -- A number that the format keeps: an `i64` outside the skewed ones, or a finite `f64`.
  pub data FitsNumber (n : N) : Type 0 where
    int : (i : ℤ) → lib.as_i64 n ≡ some i → ¬ IsSkewed i → FitsNumber n
    float :
        (f : ℕ)
        → lib.as_i64 n ≡ none
        → lib.as_f64 n ≡ some f
        → lib.from_f64 f ≡ some n
        → FitsNumber n

  module _ (limits : BonDecodeLimits) where
    abbrev pub FitsText : Text → Type 0
    FitsText s = IsUtf8 s × (length s ≤ limits.max_value_bytes)

    -- The numbers, texts and collections of a value are within the limits, its maps sorted.
    abbrev mutual
      pub Fits : Value N → Type 0
      Fits null = Unit
      Fits (bool b) = Unit
      Fits (number n) = FitsNumber n
      Fits (string s) = FitsText s
      Fits (array vs) = (items_len vs ≤ limits.max_collection_items) × FitsItems vs
      Fits (object e) = (map_len e ≤ limits.max_collection_items) × IsSorted e × FitsEntries e

      pub FitsItems : Items N → Type 0
      FitsItems no_items = Unit
      FitsItems (item v vs) = Fits v × FitsItems vs

      pub FitsEntries : JsonMap N → Type 0
      FitsEntries no_entries = Unit
      FitsEntries (entry k v e) = FitsText k × Fits v × FitsEntries e

-- The counts that are written in seven-bit groups stay below 2 ^ 32, as with both sets of limits
-- of the source.
pub record IsBounded (limits : BonDecodeLimits) : Type 0 where
  pub items_bound : limits.max_collection_items < 2 ^ 32
  pub bytes_bound : limits.max_value_bytes < 2 ^ 32
  pub nodes_bound : limits.max_total_nodes < 2 ^ 32
