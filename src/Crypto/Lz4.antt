-- ===== src/Crypto/Lz4.antt =====
-- `Lz4Crypto` and `decrypt_lz4_checked` of src/crypto.rs. The LZ4 frame codec is the crate
-- `lz4_flex`, which is not part of the repository: an interface stands for it.
pub mod RoundTrip
use koc_core.Common.{
  ℕ, zero, suc, ◌+◌, ◌-◌, ◌*◌, ◌/◌, ◌%◌, ◌^◌, ◌≤◌, ◌<◌, bit_xor, ◌≡◌, refl, ◌∙◌, ap, Option, none,
  some, List, [], ◌∷◌, ◌++◌, length, get_or, take, drop, map, ltb, if◌then◌else◌, arith,
}
use koc_core.Common.Results.{Result, ok, err, All, ◌>>=◌}
use koc_core.Crypto.Mask.{extract_mask, join_mask-hide, xor_twice, hide_high, hide_low}
use koc_core.Crypto.Xor.{stamp, IsByte}

-- The errors of this file, each a message in the source.
pub data CryptoError : Type 0 where
  truncated_lx lz4_decode_failed truncated_x : CryptoError
  lz4_exceeds x_exceeds plain_exceeds : ℕ → ℕ → CryptoError

pub record Lz4Frame : Type 0 where
  -- the bytes of a `FrameEncoder` after `write_all` and `finish`, if neither fails
  pub compress : List ℕ → Option (List ℕ)
  -- `FrameDecoder::new(frame).take(limit).read_to_end(…)`, if reading does not fail
  pub read_up_to : ℕ → List ℕ → Option (List ℕ)

-- The frame format: a frame begins with the magic number 0x184D2204, least byte first, and a
-- frame that was written decodes to its data, of which `take` hands out a prefix.
pub record IsLz4Frame (lz4 : Lz4Frame) : Type 0 where
  pub frame_magic :
      (bs c : List ℕ)
      → lz4.compress bs ≡ some c
      → (body : List ℕ) × (c ≡ 4 ∷ 34 ∷ 77 ∷ 24 ∷ body) × All IsByte body
  pub read-compress :
      (bs c : List ℕ) (limit : ℕ)
      → lz4.compress bs ≡ some c
      → lz4.read_up_to limit c ≡ some (take limit bs)

-- `for (i, b) in encrypted.iter_mut().enumerate() { if i < n { *b ^= mask; } }`
unfoldable pub xor_first : ℕ → ℕ → List ℕ → List ℕ
xor_first zero mask bs = bs
xor_first (suc n) mask [] = []
xor_first (suc n) mask (b ∷ bs) = bit_xor b mask ∷ xor_first n mask bs

-- `for b in decrypted.iter_mut().take(skip + n).skip(skip) { *b ^= mask; }`
unfoldable pub xor_window : ℕ → ℕ → ℕ → List ℕ → List ℕ
unfolding xor_first
xor_window zero n mask bs = xor_first n mask bs
xor_window (suc skip) n mask [] = []
xor_window (suc skip) n mask (b ∷ bs) = b ∷ xor_window skip n mask bs

-- `decrypted[..4].copy_from_slice(&[4, 34, 77, 24])`, on four bytes or more.
abbrev pub restore_magic : List ℕ → List ℕ
restore_magic bs = 4 ∷ 34 ∷ 77 ∷ 24 ∷ drop 4 bs

-- `output.len() > max_decompressed_size` and the result; `max + 1` saturates in the source only
-- at the greatest `usize`.
abbrev pub check_output : ℕ → List ℕ → Result (List ℕ) CryptoError
check_output limit output =
    if ltb limit (length output) then err (lz4_exceeds (length output) limit) else ok output

module _ (lz4 : Lz4Frame) where
  -- The random mask is an argument.
  unfoldable pub lz4_encrypt : ℕ → List ℕ → List ℕ
  unfolding xor_first stamp
  lz4_encrypt mask bs = elim (lz4.compress bs) [
    | none ↦ []
    | some compressed ↦ stamp 112 108 mask (xor_first 100 mask compressed)
  ]

  unfoldable pub decrypt_lz4_checked : List ℕ → ℕ → Result (List ℕ) CryptoError
  unfolding xor_window
  decrypt_lz4_checked bs limit = elim (extract_mask bs) [
    | none ↦ err truncated_lx
    | some mask ↦ elim (lz4.read_up_to (limit + 1) (restore_magic (xor_window 2 98 mask bs))) [
      | none ↦ err lz4_decode_failed
      | some output ↦ check_output limit output
    ]
  ]

abbrev pub default_max_decompressed_size : ℕ
default_max_decompressed_size = 32 * 1024 * 1024

-- `result.unwrap_or_default()`
abbrev pub or_empty : Result (List ℕ) CryptoError → List ℕ
or_empty (ok bs) = bs
or_empty (err e) = []

module _ (lz4 : Lz4Frame) where
  unfoldable pub lz4_decrypt : List ℕ → List ℕ
  lz4_decrypt bs = or_empty (decrypt_lz4_checked lz4 bs default_max_decompressed_size)
