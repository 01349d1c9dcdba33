-- ===== src/Crypto/Mask.antt =====
-- The mask byte that both encodings of src/crypto.rs spread over bytes 2 and 3 of a packet.
use koc_core.Common.{
  ℕ, ◌+◌, ◌*◌, ◌/◌, ◌%◌, ◌^◌, ◌<◌, bit_and, bit_or, bit_xor, ◌≡◌, refl, true, Option, none, some,
  List, length, get_or, ltb, ◌==◌, if◌then◌else◌, arith, ◌&&◌,
}
use koc_core.Common.Bits.{all_below, all_pairs_sound}

-- `((mask >> k) & 1) << j` and `((byte >> k) & 1) << j`
abbrev pub move_bit : ℕ → ℕ → ℕ → ℕ
move_bit x k j = bit_and (x / 2 ^ k) 1 * 2 ^ j

-- Byte 2 of a packet takes the four high bits of the mask.
unfoldable pub hide_high : ℕ → ℕ → ℕ
hide_high byte mask =
    bit_or
      (bit_or (bit_or (bit_or (bit_and byte 0b10101010) (move_bit mask 7 6)) (move_bit mask 6 4))
        (move_bit mask 5 2))
      (bit_and (mask / 2 ^ 4) 1)

-- Byte 3 takes the four low bits.
unfoldable pub hide_low : ℕ → ℕ → ℕ
hide_low byte mask =
    bit_or
      (bit_or (bit_or (bit_or (bit_and byte 0b10101010) (move_bit mask 3 6)) (move_bit mask 2 4))
        (move_bit mask 1 2))
      (bit_and mask 1)

-- The bytes of `extract_mask`, four bits from each.
unfoldable pub join_mask : ℕ → ℕ → ℕ
join_mask b2 b3 =
    bit_or
      (bit_or
        (bit_or
          (bit_or
            (bit_or (bit_or (bit_or (move_bit b2 6 7) (move_bit b2 4 6)) (move_bit b2 2 5))
              (bit_and b2 1 * 2 ^ 4))
            (move_bit b3 6 3))
          (move_bit b3 4 2))
        (move_bit b3 2 1))
      (bit_and b3 1)

unfoldable pub extract_mask : List ℕ → Option ℕ
extract_mask bytes =
    if ltb (length bytes) 4 then none else some (join_mask (get_or bytes 2 0) (get_or bytes 3 0))

-- The four bits that a byte carries, as a number.
high_four : ℕ → ℕ
high_four b =
    bit_or (bit_or (bit_or (move_bit b 6 7) (move_bit b 4 6)) (move_bit b 2 5))
      (bit_and b 1 * 2 ^ 4)

low_four : ℕ → ℕ
low_four b =
    bit_or (bit_or (bit_or (move_bit b 6 3) (move_bit b 4 2)) (move_bit b 2 1)) (bit_and b 1)

mask_table :
    all_below 256 (λ b. all_below 256 (λ k.
      (high_four (hide_high b k) == k / 16 * 16)
      && (low_four (hide_low b k) == k % 16)
      && ltb (hide_high b k) 256
      && ltb (hide_low b k) 256))
    ≡ true
unfolding all_below high_four hide_high low_four hide_low
mask_table = refl

join_table :
    all_below 256 (λ b2. all_below 256 (λ b3. join_mask b2 b3 == high_four b2 + low_four b3)) ≡ true
unfolding all_below join_mask high_four low_four
join_table = refl

-- A mask that was hidden in two bytes, whatever they held, is found again.
pub join_mask-hide :
    (b2 b3 mask : ℕ)
    → b2 < 256
    → b3 < 256
    → mask < 256
    → join_mask (hide_high b2 mask) (hide_low b3 mask) ≡ mask
join_mask-hide b2 b3 mask h2 h3 hm =
    let high = all_pairs_sound _ b2 mask mask_table h2 hm in
    let low = all_pairs_sound _ b3 mask mask_table h3 hm in
    let joined =
      all_pairs_sound (λ x y. join_mask x y == high_four x + low_four y) (hide_high b2 mask)
        (hide_low b3 mask) join_table (ground arith) (ground arith) in
    ground arith

xor_table :
    all_below 256 (λ x.
      all_below 256 (λ mask. (bit_xor (bit_xor x mask) mask == x) && ltb (bit_xor x mask) 256))
    ≡ true
unfolding all_below
xor_table = refl

-- Masking a byte gives a byte, and masking it twice gives it back.
pub xor_twice :
    (x mask : ℕ)
    → x < 256
    → mask < 256
    → (bit_xor (bit_xor x mask) mask ≡ x) × (bit_xor x mask < 256)
xor_twice x mask hx hm = let both = all_pairs_sound _ x mask xor_table hx hm in ground arith
