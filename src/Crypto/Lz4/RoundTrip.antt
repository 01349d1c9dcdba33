-- ===== src/Crypto/Lz4/RoundTrip.antt =====
-- Decrypting what `Lz4Crypto` encrypted, under a limit on the output.
use koc_core.Common.{
  ℕ, zero, suc, ◌+◌, ◌≤◌, ◌<◌, bit_xor, ◌≡◌, refl, ap, some, List, [], ◌∷◌, length, take, ltb,
  if◌then◌else◌, arith, length-take,
}
use native.Mathlib.Decide.{dec_lt}
use koc_core.Common.Results.{ok, err, All}
use koc_core.Crypto.Mask.{extract_mask, join_mask-hide, xor_twice, hide_high, hide_low}
use koc_core.Crypto.Xor.{IsByte}
use koc_core.Crypto.Lz4.{
  lz4_exceeds, Lz4Frame, IsLz4Frame, xor_first, lz4_encrypt, check_output, decrypt_lz4_checked,
}

xor_first_twice :
    (n mask : ℕ) (bs : List ℕ)
    → mask < 256
    → All IsByte bs
    → xor_first n mask (xor_first n mask bs) ≡ bs
unfolding xor_first
xor_first_twice zero mask bs hm h = refl
xor_first_twice (suc n) mask [] hm h = refl
xor_first_twice (suc n) mask (b ∷ bs) hm (hb, h) =
    ground (arith, xor_twice b mask hb hm, xor_first_twice n mask bs hm h)

take-all : (n : ℕ) (bs : List ℕ) → length bs ≤ n → take n bs ≡ bs
take-all zero [] h = refl
take-all zero (b ∷ bs) h = absurd (omega arith)
take-all (suc n) [] h = refl
take-all (suc n) (b ∷ bs) h = ap (λ t. b ∷ t) (take-all n bs (omega arith))

-- The packet of a frame: magic bytes, the hidden mask, and 96 masked bytes with the rest.
abbrev packet : ℕ → List ℕ → List ℕ
packet mask body =
    112
    ∷ 108
    ∷ hide_high (bit_xor 77 mask) mask
    ∷ hide_low (bit_xor 24 mask) mask
    ∷ xor_first 96 mask body

extract_mask-packet :
    (mask : ℕ) (body : List ℕ) → mask < 256 → extract_mask (packet mask body) ≡ some mask
unfolding extract_mask
extract_mask-packet mask body hm =
    let found =
      join_mask-hide (bit_xor 77 mask) (bit_xor 24 mask) mask (xor_twice 77 mask (omega arith) hm).1
        (xor_twice 24 mask (omega arith) hm).1 hm in
    rw found (ground arith)

-- A reader that stops one byte above the limit shows whether the limit is kept.
check_output-take :
    (limit : ℕ) (bs : List ℕ)
    → check_output limit (take (limit + 1) bs)
      ≡ (if ltb limit (length bs) then err (lz4_exceeds (limit + 1) limit) else ok bs)
check_output-take limit bs = elim (dec_lt limit (length bs)) [
  | yes over ↦
      let cut : length (take (limit + 1) bs) ≡ limit + 1 =
        omega (arith, length-take (limit + 1) bs) in
      rw cut (ground arith)
  | no within ↦ rw (take-all (limit + 1) bs (omega arith)) (ground arith)
]

module _ (lz4 : Lz4Frame) (laws : IsLz4Frame lz4) where
  lz4_encrypt-packet :
      (mask : ℕ) (bs body : List ℕ)
      → lz4.compress bs ≡ some (4 ∷ 34 ∷ 77 ∷ 24 ∷ body)
      → lz4_encrypt lz4 mask bs ≡ packet mask body
  unfolding lz4_encrypt
  lz4_encrypt-packet mask bs body e = rw (e, lz4_encrypt)

  decrypt-packet :
      (mask limit : ℕ) (bs body : List ℕ)
      → mask < 256
      → All IsByte body
      → lz4.compress bs ≡ some (4 ∷ 34 ∷ 77 ∷ 24 ∷ body)
      → decrypt_lz4_checked lz4 (packet mask body) limit ≡ check_output limit (take (limit + 1) bs)
  unfolding decrypt_lz4_checked
  decrypt-packet mask limit bs body hm h e =
      let found = extract_mask-packet mask body hm in
      rw (
        found,
        decrypt_lz4_checked,
        xor_first_twice 96 mask body hm h,
        laws.read-compress bs (4 ∷ 34 ∷ 77 ∷ 24 ∷ body) (limit + 1) e,
      )

  -- Let the frame codec keep its laws and compress the data, and the mask be a byte. Then
  -- `decrypt_lz4_checked` returns the data that `Lz4Crypto` encrypted if they are within the limit,
  -- and otherwise an error that names a size above the limit.
  pub decrypt_lz4_checked-lz4_encrypt :
      (mask limit : ℕ) (bs c : List ℕ)
      → mask < 256
      → lz4.compress bs ≡ some c
      → decrypt_lz4_checked lz4 (lz4_encrypt lz4 mask bs) limit
        ≡ (if ltb limit (length bs) then err (lz4_exceeds (limit + 1) limit) else ok bs)
  decrypt_lz4_checked-lz4_encrypt mask limit bs c hm e =
      let (body, shape, bytes) = laws.frame_magic bs c e in
      let e' : lz4.compress bs ≡ some (4 ∷ 34 ∷ 77 ∷ 24 ∷ body) = rw shape at e in
      rw (lz4_encrypt-packet mask bs body e', decrypt-packet mask limit bs body hm bytes e')
        (check_output-take limit bs)
