-- ===== src/Crypto/Tests.antt =====
-- The theorems about src/crypto.rs at concrete inputs. The frame codec of the tests writes the
-- magic number and the data as they are.
use koc_core.Common.{
  ℕ, ◌+◌, ◌≤◌, ◌≡◌, refl, Option, none, some, List, [], ◌∷◌, length, take, drop, ltb, if◌then◌else◌,
  ◌&&◌, arith, true, Bool, Bool-cases, inl, inr,
}
use koc_core.Common.Results.{ok, err, All}
use koc_core.Crypto.Xor.{IsByte, xor_encrypt, xor_decrypt, xor_decrypt-xor_encrypt}
use koc_core.Crypto.Lz4.{
  Lz4Frame, IsLz4Frame, lz4_encrypt, decrypt_lz4_checked, lz4_exceeds, x_exceeds,
}
use koc_core.Crypto.Lz4.RoundTrip.{decrypt_lz4_checked-lz4_encrypt}
use koc_core.Crypto.Auto.{try_auto_decrypt}
use koc_core.Crypto.Auto.Limits.{try_auto_decrypt-within, try_auto_decrypt-xor_encrypt}

abbrev all_bytes : List ℕ → Bool
all_bytes [] = true
all_bytes (b ∷ bs) = ltb b 256 && all_bytes bs

-- Only bytes are compressed.
abbrev stored : List ℕ → Option (List ℕ)
stored bs = if all_bytes bs then some (4 ∷ 34 ∷ 77 ∷ 24 ∷ bs) else none

abbrev pub stored_frame : Lz4Frame
stored_frame = record { compress = stored; read_up_to = λ limit c. some (take limit (drop 4 c)) }

all_bytes-All : (bs : List ℕ) → all_bytes bs ≡ true → All IsByte bs
all_bytes-All [] h = tt
all_bytes-All (b ∷ bs) h = elim (Bool-cases (ltb b 256)) [
  | inl small ↦ (ground arith, all_bytes-All bs (rw small at h))
  | inr large ↦ absurd (cc (rw large at h))
]

stored_magic :
    (bs c : List ℕ)
    → stored bs ≡ some c
    → (body : List ℕ) × (c ≡ 4 ∷ 34 ∷ 77 ∷ 24 ∷ body) × All IsByte body
stored_magic bs c e = elim (Bool-cases (all_bytes bs)) [
  | inl small ↦ (bs, cc (rw small at e), all_bytes-All bs small)
  | inr large ↦ absurd (cc (rw large at e))
]

stored_read :
    (bs c : List ℕ) (limit : ℕ)
    → stored bs ≡ some c
    → some (take limit (drop 4 c)) ≡ some (take limit bs)
stored_read bs c limit e =
    let (body, shape, _) = stored_magic bs c e in
    elim (Bool-cases (all_bytes bs)) [
      | inl small ↦ let same : 4 ∷ 34 ∷ 77 ∷ 24 ∷ bs ≡ c = cc (rw small at e) in rw (← same)
      | inr large ↦ absurd (cc (rw large at e))
    ]

stored_laws : IsLz4Frame stored_frame
stored_laws = record { frame_magic = stored_magic; read-compress = stored_read }

abbrev greeting : List ℕ
greeting = 104 ∷ 105 ∷ 200 ∷ []

greeting-IsByte : All IsByte greeting
greeting-IsByte = (omega arith, (omega arith, (omega arith, tt)))

xor_decrypt-xor_encrypt_example : xor_decrypt (xor_encrypt 90 77777777 greeting) ≡ greeting
xor_decrypt-xor_encrypt_example =
    xor_decrypt-xor_encrypt 90 77777777 greeting (omega arith) greeting-IsByte

decrypt_lz4_checked-lz4_encrypt_example :
    decrypt_lz4_checked stored_frame (lz4_encrypt stored_frame 90 greeting) 2
    ≡ (if ltb 2 (length greeting) then err (lz4_exceeds (2 + 1) 2) else ok greeting)
decrypt_lz4_checked-lz4_encrypt_example =
    decrypt_lz4_checked-lz4_encrypt stored_frame stored_laws 90 2 greeting
      (4 ∷ 34 ∷ 77 ∷ 24 ∷ greeting) (omega arith) refl

try_auto_decrypt-within_example : length greeting ≤ 10
try_auto_decrypt-within_example =
    try_auto_decrypt-within stored_frame (xor_encrypt 90 77777777 greeting) greeting 10 (
      try_auto_decrypt-xor_encrypt stored_frame 90 77777777 10 greeting (omega arith)
        greeting-IsByte)

try_auto_decrypt-xor_encrypt_example :
    try_auto_decrypt stored_frame (xor_encrypt 90 77777777 greeting) 2
    ≡ (if ltb 2 (length greeting) then err (x_exceeds (length greeting) 2) else ok greeting)
try_auto_decrypt-xor_encrypt_example =
    try_auto_decrypt-xor_encrypt stored_frame 90 77777777 2 greeting (omega arith) greeting-IsByte
