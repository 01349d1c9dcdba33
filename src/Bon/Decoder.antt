-- ===== src/Bon/Decoder.antt =====
-- `BonDecodeLimits` and `BonDecoder` of src/bon.rs, `decode` and `decode_with_limits`.
-- `levels` stands for the argument `depth`: it is `max_depth + 1 - depth`, so the guard
-- `depth > max_depth` reads `levels` at 0, and the recursion on it shows that decoding ends.
use koc_core.Common.{
  ℕ, zero, suc, ◌-◌, ◌*◌, Option, none, some, List, [], ◌∷◌, ◌++◌, length, get_elem?, ltb, ◌==◌,
  if◌then◌else◌,
}
use koc_core.Common.State.{M, ◌>>=◌, ◌>>◌, pure, fail}
use koc_core.Json.{
  Text, Value, null, bool, number, string, array, object, Items, no_items, item, JsonMap,
  no_entries, SerdeJson,
}
use koc_core.Json.Maps.{insert}
use koc_core.Bon.Base64.{base64_encode}
use koc_core.Bon.Reader.{
  DataReader, new_reader, read_u8, read_i32, read_i64, read_f32, read_f64, read_7bit_int,
  read_utf_bytes, read_bytes,
}

pub record BonDecodeLimits : Type 0 where
  pub max_depth : ℕ
  pub max_collection_items : ℕ
  pub max_value_bytes : ℕ
  pub max_total_nodes : ℕ
  pub max_total_value_bytes : ℕ

abbrev pub proxy_limits : BonDecodeLimits
proxy_limits = record {
  max_depth = 64;
  max_collection_items = 100_000;
  max_value_bytes = 16 * 1024 * 1024;
  max_total_nodes = 200_000;
  max_total_value_bytes = 32 * 1024 * 1024;
}

abbrev pub default_limits : BonDecodeLimits
default_limits = record {
  max_depth = 128;
  max_collection_items = 1_000_000;
  max_value_bytes = 64 * 1024 * 1024;
  max_total_nodes = 2_000_000;
  max_total_value_bytes = 256 * 1024 * 1024;
}

pub record BonDecoder : Type 0 where
  pub dr : DataReader
  pub str_arr : List Text
  pub limits : BonDecodeLimits
  pub nodes_remaining : ℕ
  pub value_bytes_remaining : ℕ

abbrev pub with_limits : BonDecodeLimits → BonDecoder
with_limits l = record {
  dr = new_reader [];
  str_arr = [];
  limits = l;
  nodes_remaining = l.max_total_nodes;
  value_bytes_remaining = l.max_total_value_bytes;
}

abbrev pub reset : BonDecoder → List ℕ → BonDecoder
reset d bs = record d {
  dr = new_reader bs;
  str_arr = [];
  nodes_remaining = d.limits.max_total_nodes;
  value_bytes_remaining = d.limits.max_total_value_bytes;
}

-- A method of the field `dr`.
abbrev pub on_reader : {A : Type 0} → M DataReader A → M BonDecoder A
on_reader m d = elim (m d.dr) [ none ↦ none | some (a, r) ↦ some (a, record d { dr = r }) ]

-- `self.nodes_remaining = self.nodes_remaining.checked_sub(1)?`
abbrev pub take_node : M BonDecoder (Unit {0})
take_node d =
    if ltb d.nodes_remaining 1
    then none
    else some (tt, record d { nodes_remaining = d.nodes_remaining - 1 })

-- `self.value_bytes_remaining = self.value_bytes_remaining.checked_sub(len)?`
abbrev pub take_value_bytes : ℕ → M BonDecoder (Unit {0})
take_value_bytes len d =
    if ltb d.value_bytes_remaining len
    then none
    else some (tt, record d { value_bytes_remaining = d.value_bytes_remaining - len })

-- `if len > limit { return None; }`
abbrev pub at_most : ℕ → (BonDecodeLimits → ℕ) → M BonDecoder (Unit {0})
at_most len limit d = if ltb (limit d.limits) len then none else some (tt, d)

abbrev pub push_str : Text → M BonDecoder (Unit {0})
push_str s d = some (tt, record d { str_arr = d.str_arr ++ s ∷ [] })

module _ {N : Type 0} (lib : SerdeJson N) where
  -- `Number::from_f64(v).map(Value::Number).unwrap_or(Value::Null)`
  abbrev pub float_value : ℕ → Value N
  float_value bits = elim (lib.from_f64 bits) [ none ↦ null | some n ↦ number n ]

  -- The arms of `match tag`, one definition for each group.
  unfoldable pub decode_new_string : M BonDecoder (Value N)
  decode_new_string = do
    len ← on_reader read_7bit_int
    at_most len (λ l. l.max_value_bytes)
    take_value_bytes len
    s ← on_reader (read_utf_bytes len)
    push_str s
    pure (string s)

  unfoldable pub decode_binary : M BonDecoder (Value N)
  decode_binary = do
    len ← on_reader read_7bit_int
    at_most len (λ l. l.max_value_bytes)
    take_value_bytes len
    v ← on_reader (read_bytes len)
    pure (string (base64_encode v))

  -- `self.str_arr.get(idx)?` and the rest of that arm.
  abbrev pub known_string : ℕ → M BonDecoder (Value N)
  known_string idx d = elim (get_elem? d.str_arr idx) [
    | none ↦ none
    | some s ↦ (take_value_bytes (length s) >> pure (string s)) d
  ]

  unfoldable pub decode_string_ref : M BonDecoder (Value N)
  decode_string_ref = do idx ← on_reader read_7bit_int; known_string idx

  -- `match self.decode_at(depth + 1)? { Value::String(s) => s, other => format!("{}", other) }`
  abbrev pub key_of : Value N → Text
  key_of (string s) = s
  key_of null = lib.to_string null
  key_of (bool b) = lib.to_string (bool b)
  key_of (number n) = lib.to_string (number n)
  key_of (array vs) = lib.to_string (array vs)
  key_of (object m) = lib.to_string (object m)

  -- The two loops, with the call of `decode_at(depth + 1)` as an argument.
  module _ (decode_next : M BonDecoder (Value N)) where
    unfoldable pub decode_items : ℕ → M BonDecoder (Items N)
    decode_items zero = pure no_items
    decode_items (suc n) = do v ← decode_next; vs ← decode_items n; pure (item v vs)

    unfoldable pub decode_entries : ℕ → JsonMap N → M BonDecoder (JsonMap N)
    decode_entries zero obj = pure obj
    decode_entries (suc n) obj = do
      k ← decode_next
      v ← decode_next
      decode_entries n (insert (key_of k) v obj)

    unfoldable pub decode_object : M BonDecoder (Value N)
    decode_object = do
      count ← on_reader read_7bit_int
      at_most count (λ l. l.max_collection_items)
      obj ← decode_entries count no_entries
      pure (object obj)

    unfoldable pub decode_array : M BonDecoder (Value N)
    decode_array = do
      len ← on_reader read_7bit_int
      at_most len (λ l. l.max_collection_items)
      arr ← decode_items len
      pure (array arr)

    -- `match tag { … }`
    unfoldable pub decode_tag : ℕ → M BonDecoder (Value N)
    decode_tag tag =
        if tag == 0
        then pure null
        else if tag == 1
        then (do v ← on_reader read_i32; pure (number (lib.from_i64 v)))
        else if tag == 2
        then (do v ← on_reader read_i64; pure (number (lib.from_i64 v)))
        else if tag == 3
        then (do v ← on_reader read_f32; pure (float_value (lib.widen_f32 v)))
        else if tag == 4
        then (do v ← on_reader read_f64; pure (float_value v))
        else if tag == 5
        then decode_new_string
        else if tag == 6
        then (do v ← on_reader read_u8; pure (bool (v == 1)))
        else if tag == 7
        then decode_binary
        else if tag == 8
        then decode_object
        else if tag == 9
        then decode_array
        else if tag == 99
        then decode_string_ref
        else if tag == 10
        then (do v ← on_reader read_i64; pure (number (lib.from_i64 v)))
        else fail

  unfoldable pub decode_at : ℕ → M BonDecoder (Value N)
  decode_at zero = fail
  decode_at (suc levels) = do take_node; tag ← on_reader read_u8; decode_tag (decode_at levels) tag

  unfoldable pub decoder_decode : BonDecoder → Option (Value N × BonDecoder)
  decoder_decode d = decode_at (suc d.limits.max_depth) d

  unfoldable pub decode_with_limits : List ℕ → BonDecodeLimits → Option (Value N)
  unfolding decoder_decode
  decode_with_limits bs limits = elim (decoder_decode (reset (with_limits limits) bs)) [
    | none ↦ none
    | some (v, d) ↦ some v
  ]

  unfoldable pub decode : List ℕ → Option (Value N)
  unfolding decode_with_limits
  decode bs = decode_with_limits bs default_limits
