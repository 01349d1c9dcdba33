-- ===== src/Bon/Wire/Decode.antt =====
-- `BonDecoder` reads the wire format.
use koc_core.Common.{
  ℕ, suc, ◌+◌, ◌-◌, ◌^◌, ◌<◌, ◌≡◌, ap, ◌∙◌, false, Option, some, List, [], ◌∷◌, ◌++◌, append_assoc,
  length, ltb, get_elem?, arith, Option-cases, Bool-cases, inl, inr,
}
use koc_core.Common.State.{M, ◌>>=◌}
use koc_core.Json.{Text, Value, number, string, SerdeJson, IsSerdeJson}
use koc_core.Bon.Reader.{join_i64, DataReader, advance}
use koc_core.Bon.Reader.Rest.{Rest, Reads, read_u8-Reads, advance-Rest, advance-advance}
use koc_core.Bon.Encoder.{StrMap, index_of}
use koc_core.Bon.Decoder.{
  BonDecodeLimits, BonDecoder, on_reader, decode_at, decode_tag, decode_new_string,
  decode_string_ref, known_string, float_value,
}
use koc_core.Common.{==_iff}
use koc_core.Common.Int.{ℤ, eq_of_parts}
use koc_core.Bon.Encoder.{fits_i32}
use koc_core.Bon.Integers.{
  i32_bytes, high_half, as_i32-IsI32, read_i32-Reads, read_i64-Reads, join_halves,
}
use koc_core.Bon.Writer.{as_i32, to_le_bytes}
use koc_core.Bon.Varint.{varint, read_7bit_int-Reads}
use koc_core.Bon.Blobs.{counted, read_f64-Reads, read_utf_bytes-Reads}
use koc_core.Bon.Table.{IsNumbered, strings, index_of-get_elem?}
use koc_core.Bon.Wire.{
  wire_string, table_string, FitsText, wire_number, FitsNumber, int, float, IsBounded,
}
use koc_core.Bon.Wire.Tables.{table_string-new, table_string-old}

module _ (limits : BonDecodeLimits) where
  -- A decoder with a budget of `n` nodes and `b` bytes.
  abbrev pub with_budget : DataReader → StrMap → ℕ → ℕ → BonDecoder
  with_budget r m n b = record {
    dr = r;
    str_arr = strings m;
    limits = limits;
    nodes_remaining = n;
    value_bytes_remaining = b;
  }

-- The reader's methods, as steps of the decoder.
pub on_reader-Reads :
    {A : Type 0} (m : M DataReader A) (bs ts : List ℕ) (a : A) (d : BonDecoder)
    → Reads m bs a
    → Rest d.dr (bs ++ ts)
    → on_reader m d ≡ some (a, record d { dr = advance d.dr (length bs) })
on_reader-Reads m bs ts a d h k = rw (h d.dr ts k, on_reader)

module _ {N : Type 0} (lib : SerdeJson N) (laws : IsSerdeJson lib) (limits : BonDecodeLimits)
    (bounded : IsBounded limits) where
  decode_new_string-wire :
      (s : Text) (r : DataReader) (ts : List ℕ) (m : StrMap) (n b : ℕ)
      → FitsText lib limits s
      → Rest r (counted s ++ ts)
      → decode_new_string lib (with_budget limits r m n (length s + b))
        ≡ some
            (string s, with_budget limits (advance r (length (counted s))) ((s, length m) ∷ m) n b)
  unfolding decode_new_string
  decode_new_string-wire s r ts m n b f h =
      let h' : Rest r (varint (length s) ++ (s ++ ts)) = rw append_assoc at h in
      let len =
        read_7bit_int-Reads (length s) (omega (arith, bounded.bytes_bound)) r (s ++ ts) h' in
      let within : ltb limits.max_value_bytes (length s) ≡ false = ground arith in
      let paid : ltb (length s + b) (length s) ≡ false = ground arith in
      let left : length s + b - length s ≡ b = omega arith in
      let text =
        read_utf_bytes-Reads s f.0 (advance r (length (varint (length s)))) ts
          (advance-Rest r (varint (length s)) (s ++ ts) h') in
      rw (◌>>=◌, len, within, paid, text, left, advance-advance r (varint (length s)) s)

  decode_string_ref-wire :
      (s : Text) (i : ℕ) (r : DataReader) (ts : List ℕ) (m : StrMap) (n b : ℕ)
      → i < 2 ^ 32
      → get_elem? (strings m) i ≡ some s
      → Rest r (varint i ++ ts)
      → decode_string_ref lib (with_budget limits r m n (length s + b))
        ≡ some (string s, with_budget limits (advance r (length (varint i))) m n b)
  unfolding decode_string_ref
  decode_string_ref-wire s i r ts m n b small there h =
      let paid : ltb (length s + b) (length s) ≡ false = ground arith in
      let left : length s + b - length s ≡ b = omega arith in
      rw (◌>>=◌, read_7bit_int-Reads i small r ts h, there, known_string, ◌>>=◌, paid, left)

  -- Entering a value: a node of the budget, and the tag.
  pub decode_at-tag :
      (l tag : ℕ) (r : DataReader) (ts : List ℕ) (m : StrMap) (n b : ℕ)
      → Rest r (tag ∷ ts)
      → decode_at lib (suc l) (with_budget limits r m (suc n) b)
        ≡ decode_tag lib (decode_at lib l) tag (with_budget limits (advance r 1) m n b)
  unfolding decode_at
  decode_at-tag l tag r ts m n b h =
      let node : ltb (suc n) 1 ≡ false = ground arith in
      let left : suc n - 1 ≡ n = omega arith in
      rw (◌>>=◌, node, ◌>>=◌, read_u8-Reads tag r ts h, left)

  pub decode_string-wire :
      (s : Text) (l : ℕ) (r : DataReader) (ts : List ℕ) (m : StrMap) (n b : ℕ)
      → FitsText lib limits s
      → IsNumbered m
      → length m < 2 ^ 32
      → Rest r (wire_string m s ++ ts)
      → decode_at lib (suc l) (with_budget limits r m (suc n) (length s + b))
        ≡ some (
          string s,
          with_budget limits (advance r (length (wire_string m s))) (table_string m s) n b,
        )
  unfolding decode_tag
  decode_string-wire s l r ts m n b f h hm k = elim (Option-cases (index_of s m)) [
    | inl new ↦
        let bytes : wire_string m s ≡ 5 ∷ counted s = unfold wire_string in rw (new, wire_string) in
        let k' : Rest r (5 ∷ (counted s ++ ts)) = rw bytes at k in
        rw (bytes, table_string-new m s new)
          (decode_at-tag l 5 r (counted s ++ ts) m n (length s + b) k'
            ∙ decode_new_string-wire s (advance r 1) ts m n b f (advance-Rest r (5 ∷ []) _ k')
            ∙ rw (advance-advance r (5 ∷ []) (counted s)))
    | inr (i, old) ↦
        let bytes : wire_string m s ≡ 99 ∷ varint i = unfold wire_string in rw (old, wire_string) in
        let k' : Rest r (99 ∷ (varint i ++ ts)) = rw bytes at k in
        let (below, there) = index_of-get_elem? s m i h old in
        rw (bytes, table_string-old m s i old)
          (decode_at-tag l 99 r (varint i ++ ts) m n (length s + b) k'
            ∙ decode_string_ref-wire s i (advance r 1) ts m n b (omega arith) there
                (advance-Rest r (99 ∷ []) _ k')
            ∙ rw (advance-advance r (99 ∷ []) (varint i)))
  ]

  -- The decoder, once it has read `bs` as `v` and grown its table to `m'`.
  abbrev pub decoded :
      Value N → DataReader → List ℕ → StrMap → ℕ → ℕ → Option (Value N × BonDecoder)
  decoded v r bs m' n b = some (v, with_budget limits (advance r (length bs)) m' n b)

  decode_small-wire :
      (i : ℤ) (l : ℕ) (r : DataReader) (ts : List ℕ) (m : StrMap) (n b : ℕ)
      → Rest r (1 ∷ (i32_bytes (as_i32 i) ++ ts))
      → decode_at lib (suc l) (with_budget limits r m (suc n) b)
        ≡ decoded (number (lib.from_i64 (as_i32 i))) r (1 ∷ i32_bytes (as_i32 i)) m n b
  unfolding decode_tag
  decode_small-wire i l r ts m n b h =
      let word =
        read_i32-Reads (as_i32 i) (as_i32-IsI32 i) (advance r 1) ts (advance-Rest r (1 ∷ []) _ h) in
      decode_at-tag l 1 r (i32_bytes (as_i32 i) ++ ts) m n b h
      ∙ rw (◌>>=◌, word, advance-advance r (1 ∷ []) (i32_bytes (as_i32 i)))

  decode_large-wire :
      (i : ℤ) (l : ℕ) (r : DataReader) (ts : List ℕ) (m : StrMap) (n b : ℕ)
      → let words = i32_bytes (as_i32 i) ++ i32_bytes (high_half i) in
        Rest r (2 ∷ (words ++ ts))
        → decode_at lib (suc l) (with_budget limits r m (suc n) b)
          ≡ decoded (number (lib.from_i64 (join_i64 (as_i32 i) (high_half i)))) r (2 ∷ words) m n b
  unfolding decode_tag
  decode_large-wire i l r ts m n b h =
      let words = i32_bytes (as_i32 i) ++ i32_bytes (high_half i) in
      let read = read_i64-Reads i (advance r 1) ts (advance-Rest r (2 ∷ []) _ h) in
      decode_at-tag l 2 r (words ++ ts) m n b h ∙ rw (◌>>=◌, read, advance-advance r (2 ∷ []) words)

  decode_float-wire :
      (k : N) (f l : ℕ) (r : DataReader) (ts : List ℕ) (m : StrMap) (n b : ℕ)
      → f < 2 ^ 64
      → lib.from_f64 f ≡ some k
      → Rest r (4 ∷ (to_le_bytes 8 f ++ ts))
      → decode_at lib (suc l) (with_budget limits r m (suc n) b)
        ≡ decoded (number k) r (4 ∷ to_le_bytes 8 f) m n b
  unfolding decode_tag
  decode_float-wire k f l r ts m n b small back h =
      let read = read_f64-Reads f small (advance r 1) ts (advance-Rest r (4 ∷ []) _ h) in
      decode_at-tag l 4 r (to_le_bytes 8 f ++ ts) m n b h
      ∙ rw (◌>>=◌, read, float_value, back, advance-advance r (4 ∷ []) (to_le_bytes 8 f))

  pub decode_number-wire :
      (k : N) (l : ℕ) (r : DataReader) (ts : List ℕ) (m : StrMap) (n b : ℕ)
      → FitsNumber lib k
      → Rest r (wire_number lib k ++ ts)
      → decode_at lib (suc l) (with_budget limits r m (suc n) b)
        ≡ decoded (number k) r (wire_number lib k) m n b
  decode_number-wire k l r ts m n b (float f e g back) h =
      let bytes : wire_number lib k ≡ 4 ∷ to_le_bytes 8 f = rw (e, wire_number, g) in
      rw bytes (decode_float-wire k f l r ts m n b (laws.as_f64-lt k f g) back (rw bytes at h))
  decode_number-wire k l r ts m n b (int i e skew) h = elim (Bool-cases (fits_i32 i)) [
    | inl small ↦
        let bytes : wire_number lib k ≡ 1 ∷ i32_bytes (as_i32 i) = rw (e, wire_number, small) in
        let same : as_i32 i ≡ i = eq_of_parts _ _ ((==_iff _ _).0 small) in
        let whole : lib.from_i64 (as_i32 i) ≡ k =
          ap lib.from_i64 same ∙ laws.from_i64-as_i64 k i e in
        rw (bytes, ← whole) (decode_small-wire i l r ts m n b (rw bytes at h))
    | inr large ↦
        let words = i32_bytes (as_i32 i) ++ i32_bytes (high_half i) in
        let bytes : wire_number lib k ≡ 2 ∷ words = rw (e, wire_number, large) in
        let whole : lib.from_i64 (join_i64 (as_i32 i) (high_half i)) ≡ k =
          ap lib.from_i64 (join_halves i (laws.as_i64-IsI64 k i e) skew)
          ∙ laws.from_i64-as_i64 k i e in
        rw (bytes, ← whole) (decode_large-wire i l r ts m n b (rw bytes at h))
  ]
