-- ===== src/Bon/Encoder.antt =====
-- `BonEncoder` of src/bon.rs, and `encode`.
use koc_core.Common.{
  ℕ, Bool, true, false, Option, none, some, List, [], ◌∷◌, length, ◌==◌, if◌then◌else◌, ◌&&◌,
}
use koc_core.Common.Int.{ℤ, ℤ_eq}
use koc_core.Json.{
  Text, Value, null, bool, number, string, array, object, Items, no_items, item, JsonMap,
  no_entries, entry, SerdeJson,
}
use koc_core.Json.Maps.{items_len, map_len}
use koc_core.Bon.Writer.{
  DataWriter, new_writer, reset_writer, as_i32, write_u8, write_i32, write_i64, write_f64,
  write_7bit_int, write_utf, write_bytes,
}

-- `HashMap<String, usize>`, as its entries, the latest first.
abbrev pub StrMap : Type 0
StrMap = List (Text × ℕ)

abbrev pub text_eq : Text → Text → Bool
text_eq [] [] = true
text_eq [] (b ∷ bs) = false
text_eq (a ∷ as') [] = false
text_eq (a ∷ as') (b ∷ bs) = (a == b) && text_eq as' bs

unfoldable pub index_of : Text → StrMap → Option ℕ
index_of s [] = none
index_of s ((t, i) ∷ m) = if text_eq t s then some i else index_of s m

pub record BonEncoder : Type 0 where
  pub dw : DataWriter
  pub str_map : StrMap

abbrev pub new_encoder : BonEncoder
new_encoder = record { dw = new_writer; str_map = [] }

abbrev pub reset_encoder : BonEncoder → BonEncoder
reset_encoder e = record e { dw = reset_writer e.dw; str_map = [] }

-- `encode` on a string: a back reference, or the text, which enters the table.
unfoldable pub encode_string : BonEncoder → Text → BonEncoder
encode_string e s = elim (index_of s e.str_map) [
  | some idx ↦ record e { dw = write_7bit_int (write_u8 e.dw 99) idx }
  | none ↦ record e {
    dw = write_utf (write_u8 e.dw 5) s;
    str_map = (s, length e.str_map) ∷ e.str_map;
  }
]

-- `i as i32 as i64 == i`
abbrev pub fits_i32 : ℤ → Bool
fits_i32 i = ℤ_eq (as_i32 i) i

module _ {N : Type 0} (lib : SerdeJson N) where
  unfoldable pub encode_number : BonEncoder → N → BonEncoder
  encode_number e n = elim (lib.as_i64 n) [
    | some i ↦
        if fits_i32 i
        then record e { dw = write_i32 (write_u8 e.dw 1) (as_i32 i) }
        else record e { dw = write_i64 (write_u8 e.dw 2) i }
    | none ↦ elim (lib.as_f64 n) [
      | some f ↦ record e { dw = write_f64 (write_u8 e.dw 4) f }
      | none ↦ e
    ]
  ]

  -- `encode`, by the constructors of `Value`, with its two loops.
  unfoldable mutual
    unfolding encode_number encode_string

    pub encode_value : BonEncoder → Value N → BonEncoder
    encode_value e null = record e { dw = write_u8 e.dw 0 }
    encode_value e (bool b) = record e { dw = write_u8 (write_u8 e.dw 6) (if b then 1 else 0) }
    encode_value e (number n) = encode_number e n
    encode_value e (string s) = encode_string e s
    encode_value e (array vs) =
        encode_items (record e { dw = write_7bit_int (write_u8 e.dw 9) (items_len vs) }) vs
    encode_value e (object m) =
        encode_entries (record e { dw = write_7bit_int (write_u8 e.dw 8) (map_len m) }) m

    pub encode_items : BonEncoder → Items N → BonEncoder
    encode_items e no_items = e
    encode_items e (item v vs) = encode_items (encode_value e v) vs

    pub encode_entries : BonEncoder → JsonMap N → BonEncoder
    encode_entries e no_entries = e
    encode_entries e (entry k v m) = encode_entries (encode_value (encode_string e k) v) m

  unfoldable pub encode : Value N → List ℕ
  unfolding encode_value
  encode v = (encode_value new_encoder v).dw.bytes

-- A blob, tag 7.
unfoldable pub encode_binary : BonEncoder → List ℕ → BonEncoder
encode_binary e src = record e {
  dw = write_bytes (write_7bit_int (write_u8 e.dw 7) (length src)) src;
}
