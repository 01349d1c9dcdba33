-- ===== src/Bon/Integers.antt =====
-- What the integer methods of `DataReader` and `DataWriter` write and read back.
use koc_core.Common.{
  ℕ, suc, ◌+◌, ◌-◌, ◌*◌, ◌/◌, ◌%◌, ◌^◌, ◌<◌, bit_or, ◌≡◌, refl, ap, ◌∙◌, Bool, true, false, List,
  [], ◌∷◌, ◌++◌, append_assoc, arith, if◌then◌else◌,
}
use native.Mathlib.Numerals.{add-one, add-two, add-three}
use koc_core.Common.Bits.{bit_or-shift}
use koc_core.Common.Int.{ℤ, pos, negsuc, ◌≤ℤ◌, ◌+ℤ◌, ◌*ℤ◌, ltb_ℤ}
use koc_core.Common.State.{◌>>=◌}
use koc_core.Json.{IsI64}
use koc_core.Bon.Reader.{advance, signed, read_i32, join_i64, read_i64}
use koc_core.Bon.Reader.Rest.{Reads, drop-cons, validate-Rest, advance-Rest, advance-advance}
use koc_core.Bon.Writer.{
  DataWriter, extend, push, low, as_i32, complement, neg_i64, div_ℤ, to_le_bytes, write_i32,
  write_i64,
}

-- The range of `i32`.
abbrev pub IsI32 : ℤ → Type 0
IsI32 v = (negsuc (2 ^ 31 - 1) ≤ℤ v) × (v ≤ℤ pos (2 ^ 31 - 1))

-- An `i32` or `i64` as its bytes, least byte first.
abbrev pub i32_bytes : ℤ → List ℕ
i32_bytes v = to_le_bytes 4 (low (2 ^ 32) v)

abbrev pub i64_bytes : ℤ → List ℕ
i64_bytes v = to_le_bytes 8 (low (2 ^ 64) v)

push_four :
    (w : DataWriter) {a b c d a' b' c' d' : ℕ}
    → a ≡ a'
    → b ≡ b'
    → c ≡ c'
    → d ≡ d'
    → push (push (push (push w a) b) c) d ≡ extend w (a' ∷ b' ∷ c' ∷ d' ∷ [])
push_four w p q r s = simp (append_assoc, p, q, r, s)

pub write_i32-bytes : (w : DataWriter) (v : ℤ) → write_i32 w v ≡ extend w (i32_bytes v)
unfolding write_i32
write_i32-bytes w (pos n) = push_four w (omega arith) (omega arith) (omega arith) (omega arith)
write_i32-bytes w (negsuc n) = push_four w (omega arith) (omega arith) (omega arith) (omega arith)

join_word :
    (b0 b1 b2 b3 : ℕ)
    → b0 < 256
    → b1 < 256
    → b2 < 256
    → bit_or (bit_or (bit_or b0 (b1 * 2 ^ 8)) (b2 * 2 ^ 16)) (b3 * 2 ^ 24)
      ≡ b0 + b1 * 2 ^ 8 + b2 * 2 ^ 16 + b3 * 2 ^ 24
join_word b0 b1 b2 b3 h0 h1 h2 =
    rw
      (
        bit_or-shift 8 b1 b0 h0,
        bit_or-shift 16 b2 (b0 + b1 * 2 ^ 8) (omega arith),
        bit_or-shift 24 b3 (b0 + b1 * 2 ^ 8 + b2 * 2 ^ 16) (omega arith),
      )
      refl

-- The four bytes of a word are read as that word.
read_word : (w : ℕ) → w < 2 ^ 32 → Reads read_i32 (to_le_bytes 4 w) (signed (2 ^ 31) w)
unfolding read_i32
read_word w hw r ts h =
    let (_, e0, h1) = drop-cons r.position r.bytes h in
    let (_, e1, h2) = drop-cons (suc r.position) r.bytes h1 in
    let (_, e2, h3) = drop-cons (suc (suc r.position)) r.bytes h2 in
    let (_, e3, _) = drop-cons (suc (suc (suc r.position))) r.bytes h3 in
    let word =
      join_word (w % 256) (w / 256 % 256) (w / 256 / 256 % 256) (w / 256 / 256 / 256 % 256)
        (omega arith) (omega arith) (omega arith) in
    let same : w % 256
          + w / 256 % 256 * 2 ^ 8
          + w / 256 / 256 % 256 * 2 ^ 16
          + w / 256 / 256 / 256 % 256 * 2 ^ 24
        ≡ w =
      omega arith in
    rw (
      validate-Rest r (to_le_bytes 4 w) ts h (omega arith),
      add-one,
      add-two,
      add-three,
      e0,
      e1,
      e2,
      e3,
      word,
      same,
    )

signed-low : (v : ℤ) → IsI32 v → signed (2 ^ 31) (low (2 ^ 32) v) ≡ v
signed-low v h = ground arith

pub read_i32-Reads : (v : ℤ) → IsI32 v → Reads read_i32 (i32_bytes v) v
read_i32-Reads v h r ts k = rw (read_word (low (2 ^ 32) v) (ground arith) r ts k, signed-low v h)

pub as_i32-IsI32 : (v : ℤ) → IsI32 (as_i32 v)
as_i32-IsI32 v = ground arith

-- The second word that `write_i64` writes.
abbrev pub high_half : ℤ → ℤ
high_half v =
    if ltb_ℤ v (pos 0)
    then complement (as_i32 (div_ℤ (neg_i64 v) 0x100000000))
    else as_i32 (div_ℤ v 0x100000000)

high_half-IsI32 : (v : ℤ) → IsI32 (high_half v)
high_half-IsI32 v =
    ground (arith, as_i32-IsI32 (div_ℤ (neg_i64 v) 0x100000000), as_i32-IsI32 (div_ℤ v 0x100000000))

high_half-pos : (n : ℕ) → n < 2 ^ 63 → high_half (pos n) ≡ pos (n / 2 ^ 32)
high_half-pos n h = ground arith

high_half-negsuc : (n : ℕ) → suc n < 2 ^ 63 → high_half (negsuc n) ≡ negsuc (suc n / 2 ^ 32)
high_half-negsuc n h = ground arith

-- A word read as an `i32` and lifted by 2 ^ 32 if negative is that word.
lift_signed :
    (w : ℕ)
    → w < 2 ^ 32
    → (if ltb_ℤ (signed (2 ^ 31) w) (pos 0)
        then signed (2 ^ 31) w +ℤ pos 0x100000000
        else signed (2 ^ 31) w)
      ≡ pos w
unfolding ◌+ℤ◌
lift_signed w h = ground arith

join_low : (v hi : ℤ) → join_i64 (as_i32 v) hi ≡ pos (low (2 ^ 32) v) +ℤ pos 0x100000000 *ℤ hi
unfolding join_i64
join_low v hi = ap (λ t. t +ℤ pos 0x100000000 *ℤ hi) (lift_signed (low (2 ^ 32) v) (ground arith))

-- `v` is negative and a multiple of 2 ^ 32.
abbrev pub IsSkewed : ℤ → Type 0
IsSkewed (pos n) = ⊥
IsSkewed (negsuc n) = suc n % 2 ^ 32 ≡ 0

sum_pos : (a b : ℕ) → pos a +ℤ pos 0x100000000 *ℤ pos b ≡ pos (a + 0x100000000 * b)
unfolding ◌+ℤ◌ ◌*ℤ◌
sum_pos a b = ground arith

sum_negsuc :
    (a b n : ℕ) → suc n + a ≡ 0x100000000 * suc b → pos a +ℤ pos 0x100000000 *ℤ negsuc b ≡ negsuc n
unfolding ◌+ℤ◌ ◌*ℤ◌
sum_negsuc a b n h = ground arith

pub join_halves : (v : ℤ) → IsI64 v → ¬ IsSkewed v → join_i64 (as_i32 v) (high_half v) ≡ v
join_halves (pos n) h k =
    join_low (pos n) (high_half (pos n))
    ∙ rw (high_half-pos n (omega arith), sum_pos) (ap pos (omega arith))
join_halves (negsuc n) h k =
    join_low (negsuc n) (high_half (negsuc n))
    ∙ rw (high_half-negsuc n (omega arith)) (sum_negsuc _ _ n (omega arith))

-- At a multiple of 2 ^ 32 below 0 the words stand for a number that is 2 ^ 32 less.
pub join_halves_skewed :
    (n : ℕ)
    → IsSkewed (negsuc n)
    → suc n < 2 ^ 63
    → join_i64 (as_i32 (negsuc n)) (high_half (negsuc n)) ≡ negsuc (n + 2 ^ 32)
join_halves_skewed n k h =
    join_low (negsuc n) (high_half (negsuc n))
    ∙ rw (high_half-negsuc n h) (sum_negsuc _ _ (n + 2 ^ 32) (omega arith))

two_words :
    (w : DataWriter) (a b : ℤ) → write_i32 (write_i32 w a) b ≡ extend w (i32_bytes a ++ i32_bytes b)
two_words w a b = simp (write_i32-bytes, append_assoc)

write_i32-if :
    (w : DataWriter) (t : Bool) (a b : ℤ)
    → (if t then write_i32 w a else write_i32 w b) ≡ write_i32 w (if t then a else b)
write_i32-if w true a b = refl
write_i32-if w false a b = refl

-- What `write_i64` appends.
pub write_i64-bytes :
    (w : DataWriter) (v : ℤ)
    → write_i64 w v ≡ extend w (i32_bytes (as_i32 v) ++ i32_bytes (high_half v))
unfolding write_i64
write_i64-bytes w v =
    write_i32-if (write_i32 w (as_i32 v)) (ltb_ℤ v (pos 0))
      (complement (as_i32 (div_ℤ (neg_i64 v) 0x100000000))) (as_i32 (div_ℤ v 0x100000000))
    ∙ two_words w (as_i32 v) (high_half v)

-- `read_i64` reads the two words that `write_i64` writes.
pub read_i64-Reads :
    (v : ℤ)
    → Reads read_i64
        (i32_bytes (as_i32 v) ++ i32_bytes (high_half v))
        (join_i64 (as_i32 v) (high_half v))
unfolding read_i64
read_i64-Reads v r ts h = rw (
  read_i32-Reads (as_i32 v) (as_i32-IsI32 v) r (i32_bytes (high_half v) ++ ts) h,
  ◌>>=◌,
  read_i32-Reads (high_half v) (high_half-IsI32 v) (advance r 4) ts
      (advance-Rest r (i32_bytes (as_i32 v)) (i32_bytes (high_half v) ++ ts) h),
  ◌>>=◌,
  advance-advance r (i32_bytes (as_i32 v)) (i32_bytes (high_half v)),
)
