-- ===== src/Crypto/Auto.antt =====
-- `try_auto_decrypt`, `auto_decrypt` and `get_encryptor` of src/crypto.rs.
pub mod Limits
use koc_core.Common.{
  ℕ, ◌-◌, Bool, true, false, List, [], ◌∷◌, length, ltb, ◌==◌, ◌&&◌, if◌then◌else◌,
}
use koc_core.Common.Codes.{codes}
use koc_core.Common.Results.{Result, ok, err}
use koc_core.Json.{Text}
use koc_core.Bon.Encoder.{text_eq}
use koc_core.Crypto.Xor.{xor_encrypt, xor_decrypt}
use koc_core.Crypto.Lz4.{
  CryptoError, truncated_x, x_exceeds, plain_exceeds, Lz4Frame, decrypt_lz4_checked, lz4_encrypt,
  lz4_decrypt, or_empty, default_max_decompressed_size,
}

-- `data.get(..2)` is `Some([a, b])`.
abbrev pub begins_with : ℕ → ℕ → List ℕ → Bool
begins_with a b (x ∷ y ∷ rest) = (x == a) && (y == b)
begins_with a b other = false

-- `Box<dyn Encryptor>`, by the type behind it.
pub data Encryptor : Type 0 where
  x lx : Encryptor

unfoldable pub get_encryptor : Text → Encryptor
get_encryptor name =
    if text_eq name (codes "x") then x else if text_eq name (codes "lx") then lx else x

module _ (lz4 : Lz4Frame) where
  unfoldable pub try_auto_decrypt : List ℕ → ℕ → Result (List ℕ) CryptoError
  try_auto_decrypt bs limit =
      if begins_with 112 108 bs
      then decrypt_lz4_checked lz4 bs limit
      else if begins_with 112 120 bs
      then if ltb (length bs) 4
        then err truncated_x
        else if ltb limit (length bs - 4)
        then err (x_exceeds (length bs - 4) limit)
        else ok (xor_decrypt bs)
      else if ltb limit (length bs)
      then err (plain_exceeds (length bs) limit)
      else ok bs

  unfoldable pub auto_decrypt : List ℕ → List ℕ
  unfolding try_auto_decrypt
  auto_decrypt bs = or_empty (try_auto_decrypt bs default_max_decompressed_size)

  -- `Encryptor::encrypt` with the random mask and padding, and `Encryptor::decrypt`.
  unfoldable pub encrypt : Encryptor → ℕ → ℕ → List ℕ → List ℕ
  encrypt x mask rnd bs = xor_encrypt mask rnd bs
  encrypt lx mask rnd bs = lz4_encrypt lz4 mask bs

  unfoldable pub decrypt : Encryptor → List ℕ → List ℕ
  decrypt x bs = xor_decrypt bs
  decrypt lx bs = lz4_decrypt lz4 bs
