-- ===== src/Crypto/Auto/Limits.antt =====
-- Detection and limits: what `try_auto_decrypt` returns.
use koc_core.Common.{
  ℕ, ◌-◌, ◌≤◌, ◌<◌, ◌≡◌, true, false, List, length, length-map, length-drop, drop, ltb,
  if◌then◌else◌, bit_xor, Option-cases, inl, inr, arith,
}
use koc_core.Common.Results.{ok, err, All}
use koc_core.Crypto.Mask.{extract_mask}
use koc_core.Crypto.Xor.{
  IsByte, xor_encrypt, xor_decrypt, xor_encrypt_header, xor_decrypt-xor_encrypt, xor_encrypt-shape,
}
use koc_core.Crypto.Lz4.{x_exceeds, Lz4Frame, decrypt_lz4_checked}
use koc_core.Crypto.Auto.{begins_with, try_auto_decrypt}

length-xor_decrypt : (bs : List ℕ) → length (xor_decrypt bs) ≤ length bs - 4
unfolding xor_decrypt
length-xor_decrypt bs = elim (Option-cases (extract_mask bs)) [
  | inl cut ↦ rw (cut, xor_decrypt, length) (omega arith)
  | inr (mask, found) ↦
      rw (found, xor_decrypt, length)
        (omega (arith, length-map (drop 4 bs) (λ b. bit_xor b mask), length-drop 4 bs))
]

module _ (lz4 : Lz4Frame) where
  length-decrypt_lz4_checked :
      (bs out : List ℕ) (limit : ℕ) → decrypt_lz4_checked lz4 bs limit ≡ ok out → length out ≤ limit
  unfolding decrypt_lz4_checked
  length-decrypt_lz4_checked bs out limit e = ground arith

  -- Whatever arrives, decrypted data are never longer than the limit.
  pub try_auto_decrypt-within :
      (bs out : List ℕ) (limit : ℕ) → try_auto_decrypt lz4 bs limit ≡ ok out → length out ≤ limit
  unfolding try_auto_decrypt
  try_auto_decrypt-within bs out limit e =
      ground (arith, length-xor_decrypt bs, length-decrypt_lz4_checked bs out limit)

  -- A packet of `XorCrypto`, of bytes and with a mask byte, is recognised, and its data come back
  -- exactly when they are within the limit; otherwise the error names their size.
  pub try_auto_decrypt-xor_encrypt :
      (mask rnd limit : ℕ) (bs : List ℕ)
      → mask < 256
      → All IsByte bs
      → try_auto_decrypt lz4 (xor_encrypt mask rnd bs) limit
        ≡ (if ltb limit (length bs) then err (x_exceeds (length bs) limit) else ok bs)
  unfolding try_auto_decrypt
  try_auto_decrypt-xor_encrypt mask rnd limit bs hm h =
      let packet = xor_encrypt mask rnd bs in
      let shape = xor_encrypt-shape mask rnd bs in
      let not_lx : begins_with 112 108 packet ≡ false = rw shape in
      let is_x : begins_with 112 120 packet ≡ true = rw shape in
      let size = (xor_encrypt_header mask rnd bs).0 in
      let long : ltb (length packet) 4 ≡ false = ground (arith, size) in
      let net : length packet - 4 ≡ length bs = omega (arith, size) in
      rw (not_lx, is_x, long, net, xor_decrypt-xor_encrypt mask rnd bs hm h)
