-- ===== src/Bon/Writer.antt =====
-- `DataWriter` of src/bon.rs: a buffer that the methods append to.
use koc_core.Common.{
  ℕ, zero, suc, ◌-◌, ◌/◌, ◌%◌, ◌^◌, ◌<◌, bit_or, List, [], ◌∷◌, ◌++◌, length, if◌then◌else◌, arith,
}
use koc_core.Common.Int.{ℤ, pos, negsuc, ltb_ℤ}
use koc_core.Common.Order.{lt_wf}
use koc_core.Bon.Reader.{signed}
use koc_core.Json.{Text}
use mathlib.Core.Logic.{dite}
use mathlib.Core.WellFounded.{Acc}
use native.Mathlib.Decide.{dec_le}

pub record DataWriter : Type 0 where
  pub bytes : List ℕ

abbrev pub new_writer : DataWriter
new_writer = record { bytes = [] }

abbrev pub reset_writer : DataWriter → DataWriter
reset_writer w = record w { bytes = [] }

-- `self.data.push(v)`
abbrev pub push : DataWriter → ℕ → DataWriter
push w v = record { bytes = w.bytes ++ v ∷ [] }

-- `self.data.extend_from_slice(src)`
abbrev pub extend : DataWriter → List ℕ → DataWriter
extend w src = record { bytes = w.bytes ++ src }

-- `v as u8`, `v as u32` and the like, for a signed `v`: the low bits of its two's complement.
abbrev pub low : ℕ → ℤ → ℕ
low m (pos n) = n % m
low m (negsuc n) = m - 1 - n % m

-- `v as i32`
abbrev pub as_i32 : ℤ → ℤ
as_i32 v = signed (2 ^ 31) (low (2 ^ 32) v)

-- `v >> k`, an arithmetic shift
abbrev pub shr : ℤ → ℕ → ℤ
shr (pos n) k = pos (n / 2 ^ k)
shr (negsuc n) k = negsuc (n / 2 ^ k)

-- `!v`
abbrev pub complement : ℤ → ℤ
complement (pos n) = negsuc n
complement (negsuc n) = pos n

-- `-v` on `i64`, which wraps at the least value (a debug build stops there)
abbrev pub neg_i64 : ℤ → ℤ
neg_i64 (pos zero) = pos 0
neg_i64 (pos (suc n)) = negsuc n
neg_i64 (negsuc n) = signed (2 ^ 63) (suc n)

-- `v / d`, which rounds towards 0
abbrev pub div_ℤ : ℤ → ℕ → ℤ
div_ℤ (pos n) d = pos (n / d)
div_ℤ (negsuc n) d = neg_i64 (pos (suc n / d))

abbrev pub write_u8 : DataWriter → ℕ → DataWriter
write_u8 w v = push w v

unfoldable pub write_i16 : DataWriter → ℤ → DataWriter
write_i16 w v = push (push w (low (2 ^ 8) v)) (low (2 ^ 8) (shr v 8))

unfoldable pub write_i32 : DataWriter → ℤ → DataWriter
write_i32 w v =
    let w0 = push w (low (2 ^ 8) v) in
    let w1 = push w0 (low (2 ^ 8) (shr v 8)) in
    let w2 = push w1 (low (2 ^ 8) (shr v 16)) in push w2 (low (2 ^ 8) (shr v 24))

unfoldable pub write_i64 : DataWriter → ℤ → DataWriter
write_i64 w v =
    let w' = write_i32 w (as_i32 v) in
    if ltb_ℤ v (pos 0)
    then write_i32 w' (complement (as_i32 (div_ℤ (neg_i64 v) 0x100000000)))
    else write_i32 w' (as_i32 (div_ℤ v 0x100000000))

-- The `n` low bytes of a bit pattern, least byte first.
abbrev pub to_le_bytes : ℕ → ℕ → List ℕ
to_le_bytes zero v = []
to_le_bytes (suc n) v = (v % 256) ∷ to_le_bytes n (v / 256)

unfoldable pub write_f32 : DataWriter → ℕ → DataWriter
write_f32 w v = extend w (to_le_bytes 4 v)

unfoldable pub write_f64 : DataWriter → ℕ → DataWriter
write_f64 w v = extend w (to_le_bytes 8 v)

-- `while n >= 0x80 { … }` and the last push; the recursion is on `n`, which falls.
unfoldable pub write_7bit_loop : DataWriter → (n : ℕ) → Acc ◌<◌ n → DataWriter
write_7bit_loop w n (Acc.intro _ smaller) =
    dite (dec_le 0x80 n)
      (λ h.
        write_7bit_loop (push w (bit_or (n % 256) 0x80)) (n / 2 ^ 7)
          (smaller (n / 2 ^ 7) (omega arith)))
      (λ _. push w (n % 256))

-- `v as u32` cuts a `usize` down to 32 bits.
unfoldable pub write_7bit_int : DataWriter → ℕ → DataWriter
write_7bit_int w v = write_7bit_loop w (v % 2 ^ 32) (lt_wf.apply (v % 2 ^ 32))

unfoldable pub write_utf : DataWriter → Text → DataWriter
write_utf w [] = write_7bit_int w 0
write_utf w (b ∷ bs) = extend (write_7bit_int w (length (b ∷ bs))) (b ∷ bs)

abbrev pub write_bytes : DataWriter → List ℕ → DataWriter
write_bytes w src = extend w src

abbrev pub get_bytes : DataWriter → List ℕ
get_bytes w = w.bytes
