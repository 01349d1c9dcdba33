-- ===== src/Capture/Shape.antt =====
-- `value_shape` of src/proxy_capture.rs: the form of a value, with the names of its fields and with
-- none of its texts and numbers.
pub mod Bounds
pub mod Forms
use koc_core.Common.{
  ℕ, zero, suc, ◌+◌, ◌*◌, Bool, true, false, ◌&&◌, List, [], ◌∷◌, ◌++◌, ◌==◌, ltb, leb, length,
  if◌then◌else◌,
}
use Prim.Native.Nat.{Ordering}
use koc_core.Common.Codes.{codes}
use koc_core.Json.{
  Text, Value, null, bool, number, string, array, object, Items, no_items, item, JsonMap,
  no_entries, entry, SerdeJson,
}
use koc_core.Json.Maps.{compare_text, insert, map_len}
use koc_core.Bon.Encoder.{text_eq}

abbrev pub max_shape_depth : ℕ
max_shape_depth = 16

abbrev pub max_shape_fields : ℕ
max_shape_fields = 256

abbrev pub max_array_variants : ℕ
max_array_variants = 16

abbrev pub max_array_items_inspected : ℕ
max_array_items_inspected = 256

abbrev pub max_schema_key_chars : ℕ
max_schema_key_chars = 256

-- `key.chars().take(n)`: a byte of a character's rest belongs to the character before it.
unfoldable pub take_chars : ℕ → Text → Text
take_chars n [] = []
take_chars zero (c ∷ s) =
    let rest = take_chars zero s in if leb 0x80 c && ltb c 0xc0 then c ∷ rest else []
take_chars (suc n) (c ∷ s) =
    let inner = take_chars (suc n) s in
    let next = take_chars n s in if leb 0x80 c && ltb c 0xc0 then c ∷ inner else c ∷ next

unfoldable pub schema_key : Text → Text
unfolding take_chars
schema_key key =
    if ltb max_schema_key_chars (length key)
    then take_chars max_schema_key_chars key ++ codes "..."
    else key

-- `PartialEq` on values; that on numbers is the library's.
module _ {N : Type 0} (number_eq : N → N → Bool) where
  unfoldable mutual
    pub value_eq : Value N → Value N → Bool
    value_eq null null = true
    value_eq (bool true) (bool b) = b
    value_eq (bool false) (bool true) = false
    value_eq (bool false) (bool false) = true
    value_eq (number m) (number n) = number_eq m n
    value_eq (string s) (string t) = text_eq s t
    value_eq (array vs) (array ws) = items_eq vs ws
    value_eq (object m) (object n) = entries_eq m n
    value_eq v w = false

    pub items_eq : Items N → Items N → Bool
    items_eq no_items no_items = true
    items_eq (item v vs) (item w ws) = value_eq v w && items_eq vs ws
    items_eq vs ws = false

    pub entries_eq : JsonMap N → JsonMap N → Bool
    entries_eq no_entries no_entries = true
    entries_eq (entry k v m) (entry j w n) = text_eq k j && (value_eq v w && entries_eq m n)
    entries_eq m n = false

  unfoldable pub contains_value : Value N → List (Value N) → Bool
  unfolding value_eq
  contains_value v [] = false
  contains_value v (w ∷ ws) = let rest = contains_value v ws in if value_eq w v then true else rest

module _ {N : Type 0} where
  abbrev pub to_items : List (Value N) → Items N
  to_items [] = no_items
  to_items (v ∷ vs) = item v (to_items vs)

-- `variants.sort_by_key(Value::to_string)`, a stable sort.
module _ {N : Type 0} (lib : SerdeJson N) where
  unfoldable pub insert_variant : Value N → List (Value N) → List (Value N)
  insert_variant v [] = v ∷ []
  insert_variant v (w ∷ ws) =
      let rest = insert_variant v ws in
      elim (compare_text (lib.to_string v) (lib.to_string w)) [
        | Ordering.gt ↦ w ∷ rest
        | _ ↦ v ∷ w ∷ ws
      ]

  unfoldable pub sort_variants : List (Value N) → List (Value N)
  unfolding insert_variant
  sort_variants [] = []
  sort_variants (v ∷ vs) = insert_variant v (sort_variants vs)

  module _ (number_eq : N → N → Bool) where
    -- One round of the loop over an array: the shapes so far, and whether the loop goes on.
    abbrev pub add_variant : Value N → List (Value N) → List (Value N) × Bool
    add_variant shape variants =
        if contains_value number_eq shape variants
        then (variants, true)
        else if leb max_array_variants (length variants)
        then (variants ++ string (codes "variant_limit") ∷ [], false)
        else (variants ++ shape ∷ [], true)

    -- `if depth >= MAX_SHAPE_DEPTH`, the first test of the function.
    abbrev pub limit_depth : ℕ → Value N → Value N
    limit_depth depth shape =
        if leb max_shape_depth depth then string (codes "depth_limit") else shape

    abbrev pub finish_object : ℕ → JsonMap N → Value N
    finish_object fields shape =
        if ltb max_shape_fields fields
        then object (insert (codes "$truncated") (bool true) shape)
        else object shape

    unfoldable mutual
      unfolding contains_value sort_variants schema_key insert

      pub value_shape : ℕ → Value N → Value N
      value_shape depth null = limit_depth depth (string (codes "null"))
      value_shape depth (bool b) = limit_depth depth (string (codes "boolean"))
      value_shape depth (number n) = limit_depth depth (string (codes "number"))
      value_shape depth (string s) = limit_depth depth (string (codes "string"))
      value_shape depth (array vs) =
          let shape =
            array (
              to_items (sort_variants (item_shapes (suc depth) max_array_items_inspected [] vs))) in
          limit_depth depth shape
      value_shape depth (object m) =
          let shape =
            finish_object (map_len m) (field_shapes (suc depth) max_shape_fields no_entries m) in
          limit_depth depth shape

      -- The loop over an array, with the count of the items that are still inspected.
      pub item_shapes : ℕ → ℕ → List (Value N) → Items N → List (Value N)
      item_shapes depth left variants no_items = variants
      item_shapes depth zero variants (item v vs) = variants
      item_shapes depth (suc left) variants (item v vs) =
          let added = add_variant (value_shape depth v) variants in
          let rest = item_shapes depth left added.0 vs in if added.1 then rest else added.0

      pub field_shapes : ℕ → ℕ → JsonMap N → JsonMap N → JsonMap N
      field_shapes depth left shape no_entries = shape
      field_shapes depth zero shape (entry key v m) = shape
      field_shapes depth (suc left) shape (entry key v m) =
          field_shapes depth left (insert (schema_key key) (value_shape depth v) shape) m
