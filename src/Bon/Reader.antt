-- ===== src/Bon/Reader.antt =====
-- `DataReader` of src/bon.rs: a buffer and the position of the next byte.
-- An `i16`, `i32` or `i64` is an integer in its range; an `f32` or `f64` is its bit pattern.
pub mod Rest
use koc_core.Common.{
  ℕ, zero, suc, ◌+◌, ◌-◌, ◌*◌, ◌%◌, ◌^◌, bit_and, bit_or, Bool, none, some, List, [], ◌∷◌, length,
  get_or, take, drop, ltb, leb, ◌==◌, if◌then◌else◌, ◌&&◌, not,
}
use koc_core.Common.Int.{ℤ, pos, negsuc, ◌+ℤ◌, ◌*ℤ◌, ltb_ℤ}
use koc_core.Common.State.{M, ◌>>=◌, pure, fail}
use koc_core.Json.{Text}
use koc_core.Utf8.{from_utf8_lossy}

pub record DataReader : Type 0 where
  pub bytes : List ℕ
  pub position : ℕ

abbrev pub new_reader : List ℕ → DataReader
new_reader bs = record { bytes = bs; position = 0 }

-- `self.position + n` stays below 2 ^ 64: a buffer is shorter than 2 ^ 63, and `n` below 2 ^ 32.
unfoldable pub validate : DataReader → ℕ → Bool
validate r n = leb (r.position + n) (length r.bytes)

-- `self.data[i]`; the methods index only behind `validate`, so the default is not reached.
abbrev pub byte_at : DataReader → ℕ → ℕ
byte_at r i = get_or r.bytes i 0

abbrev pub advance : DataReader → ℕ → DataReader
advance r n = record r { position = r.position + n }

-- `self.data[self.position..self.position + n]`
abbrev pub window : DataReader → ℕ → List ℕ
window r n = take n (drop r.position r.bytes)

-- The integer that a bit pattern of an `i16`, `i32` or `i64` stands for; `m` is 2 ^ (width - 1).
abbrev pub signed : ℕ → ℕ → ℤ
signed m w = if ltb w m then pos w else negsuc (m + m - w - 1)

unfoldable pub read_u8 : M DataReader ℕ
unfolding validate
read_u8 r = if validate r 1 then some (byte_at r r.position, advance r 1) else none

unfoldable pub read_i16 : M DataReader ℤ
unfolding validate
read_i16 r =
    let lo = byte_at r r.position in
    let hi = byte_at r (r.position + 1) in
    if validate r 2 then some (signed (2 ^ 15) (bit_or lo (hi * 2 ^ 8)), advance r 2) else none

unfoldable pub read_i32 : M DataReader ℤ
unfolding validate
read_i32 r =
    let b0 = byte_at r r.position in
    let b1 = byte_at r (r.position + 1) in
    let b2 = byte_at r (r.position + 2) in
    let b3 = byte_at r (r.position + 3) in
    let word = bit_or (bit_or (bit_or b0 (b1 * 2 ^ 8)) (b2 * 2 ^ 16)) (b3 * 2 ^ 24) in
    if validate r 4 then some (signed (2 ^ 31) word, advance r 4) else none

-- The `i64` sum does not overflow: `lo` is below 2 ^ 32 and `hi` is an `i32`.
unfoldable pub join_i64 : ℤ → ℤ → ℤ
join_i64 lo hi =
    let lo' = if ltb_ℤ lo (pos 0) then lo +ℤ pos 0x100000000 else lo in lo' +ℤ pos 0x100000000 *ℤ hi

unfoldable pub read_i64 : M DataReader ℤ
unfolding join_i64
read_i64 = do lo ← read_i32; hi ← read_i32; pure (join_i64 lo hi)

-- `f32::from_le_bytes` and `f64::from_le_bytes`: the bit pattern, least byte first.
abbrev pub from_le_bytes : List ℕ → ℕ
from_le_bytes [] = 0
from_le_bytes (b ∷ bs) = b + 256 * from_le_bytes bs

unfoldable pub read_f32 : M DataReader ℕ
unfolding validate
read_f32 r = if validate r 4 then some (from_le_bytes (window r 4), advance r 4) else none

unfoldable pub read_f64 : M DataReader ℕ
unfolding validate
read_f64 r = if validate r 8 then some (from_le_bytes (window r 8), advance r 8) else none

-- The loop of `read_7bit_int` with `rounds` of its five rounds left; `<<` is on `u32`.
unfoldable pub read_7bit_loop : ℕ → ℕ → ℕ → M DataReader ℕ
read_7bit_loop zero index value = fail
read_7bit_loop (suc rounds) index value = do
  b ← read_u8
  let value' = bit_or value (bit_and b 0x7f * 2 ^ (index * 7) % 2 ^ 32)
  let more = read_7bit_loop rounds (index + 1) value'
  if (index == 4) && not (bit_and b 0xf0 == 0)
      then fail
      else if bit_and b 0x80 == 0
      then pure value'
      else more

unfoldable pub read_7bit_int : M DataReader ℕ
read_7bit_int = read_7bit_loop 5 0 0

unfoldable pub read_utf_bytes : ℕ → M DataReader Text
unfolding validate
read_utf_bytes len r =
    if len == 0
    then some ([], r)
    else if validate r len
    then some (from_utf8_lossy (window r len), advance r len)
    else none

unfoldable pub read_utf : M DataReader Text
read_utf = do len ← read_7bit_int; read_utf_bytes len

unfoldable pub read_bytes : ℕ → M DataReader (List ℕ)
unfolding validate
read_bytes len r = if validate r len then some (window r len, advance r len) else none
