-- ===== src/Crypto/Xor.antt =====
-- `XorCrypto` of src/crypto.rs. The random mask and the four random bytes are arguments.
use koc_core.Common.{
  ℕ, ◌+◌, ◌/◌, ◌%◌, ◌^◌, ◌<◌, bit_xor, ◌≡◌, refl, ◌++◌, none, some, List, [], ◌∷◌, length,
  length-map, get_or, set, drop, map, arith,
}
use koc_core.Common.Results.{All}
use koc_core.Crypto.Mask.{hide_high, hide_low, extract_mask, join_mask-hide, xor_twice}

-- `for b in n.iter_mut() { *b ^= mask; }`
abbrev pub xor_all : ℕ → List ℕ → List ℕ
xor_all mask bs = map (λ b. bit_xor b mask) bs

-- `rnd as u8`, `(rnd >> 8) as u8` and so on.
abbrev pub random_prefix : ℕ → List ℕ
random_prefix rnd =
    (rnd % 256) ∷ (rnd / 2 ^ 8 % 256) ∷ (rnd / 2 ^ 16 % 256) ∷ (rnd / 2 ^ 24 % 256) ∷ []

-- The assignments to `n[0]` to `n[3]`, of the magic bytes and the hidden mask.
unfoldable pub stamp : ℕ → ℕ → ℕ → List ℕ → List ℕ
stamp magic0 magic1 mask n =
    let n0 = set n 0 magic0 in
    let n1 = set n0 1 magic1 in
    let n2 = set n1 2 (hide_high (get_or n1 2 0) mask) in set n2 3 (hide_low (get_or n2 3 0) mask)

unfoldable pub xor_encrypt : ℕ → ℕ → List ℕ → List ℕ
unfolding stamp
xor_encrypt mask rnd bs = stamp 112 120 mask (xor_all mask (random_prefix rnd ++ bs))

unfoldable pub xor_decrypt : List ℕ → List ℕ
xor_decrypt bs = elim (extract_mask bs) [ none ↦ [] | some mask ↦ xor_all mask (drop 4 bs) ]

abbrev pub IsByte : ℕ → Type 0
IsByte b = b < 256

xor_all_twice :
    (mask : ℕ) (bs : List ℕ) → mask < 256 → All IsByte bs → xor_all mask (xor_all mask bs) ≡ bs
xor_all_twice mask [] hm h = refl
xor_all_twice mask (b ∷ bs) hm (hb, h) =
    ground (arith, xor_twice b mask hb hm, xor_all_twice mask bs hm h)

-- What `encrypt` returns: the magic bytes, two bytes that hide the mask, and the masked data.
pub xor_encrypt-shape :
    (mask rnd : ℕ) (bs : List ℕ)
    → xor_encrypt mask rnd bs
      ≡ 112
        ∷ 120
        ∷ hide_high (bit_xor (rnd / 2 ^ 16 % 256) mask) mask
        ∷ hide_low (bit_xor (rnd / 2 ^ 24 % 256) mask) mask
        ∷ xor_all mask bs
unfolding xor_encrypt
xor_encrypt-shape mask rnd bs = refl

-- A packet is four bytes longer than its data, and starts with the magic bytes of `x`.
pub xor_encrypt_header :
    (mask rnd : ℕ) (bs : List ℕ)
    → (length (xor_encrypt mask rnd bs) ≡ length bs + 4)
      × (get_or (xor_encrypt mask rnd bs) 0 0 ≡ 112)
      × (get_or (xor_encrypt mask rnd bs) 1 0 ≡ 120)
xor_encrypt_header mask rnd bs =
    rw (xor_encrypt-shape mask rnd bs)
      (omega (arith, length-map bs (λ b. bit_xor b mask)), refl, refl)

extract_mask-xor_encrypt :
    (mask rnd : ℕ) (bs : List ℕ) → mask < 256 → extract_mask (xor_encrypt mask rnd bs) ≡ some mask
unfolding extract_mask
extract_mask-xor_encrypt mask rnd bs hm =
    let b2 = bit_xor (rnd / 2 ^ 16 % 256) mask in
    let b3 = bit_xor (rnd / 2 ^ 24 % 256) mask in
    let found =
      join_mask-hide b2 b3 mask (xor_twice (rnd / 2 ^ 16 % 256) mask (omega arith) hm).1
        (xor_twice (rnd / 2 ^ 24 % 256) mask (omega arith) hm).1 hm in
    rw (xor_encrypt-shape mask rnd bs, found) (ground arith)

-- `decrypt` returns the bytes that `encrypt` was given, whatever mask byte and padding it drew.
pub xor_decrypt-xor_encrypt :
    (mask rnd : ℕ) (bs : List ℕ)
    → mask < 256
    → All IsByte bs
    → xor_decrypt (xor_encrypt mask rnd bs) ≡ bs
unfolding xor_decrypt
xor_decrypt-xor_encrypt mask rnd bs hm h =
    rw (extract_mask-xor_encrypt mask rnd bs hm, xor_decrypt, xor_encrypt-shape mask rnd bs)
      (xor_all_twice mask bs hm h)
