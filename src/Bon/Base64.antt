-- ===== src/Bon/Base64.antt =====
-- The private `base64` module of src/bon.rs.
use koc_core.Common.{ℕ, ◌*◌, ◌/◌, ◌^◌, bit_and, bit_or, List, [], ◌∷◌, get_or}
use koc_core.Common.Codes.{codes}
use koc_core.Json.{Text}

abbrev pub chars : List ℕ
chars = codes "ABCDEFGHIJKLMNOPQRSTUVWXYZabcdefghijklmnopqrstuvwxyz0123456789+/"

-- `CHARS[i]`; every index is below 64.
abbrev pub char_of : ℕ → ℕ
char_of i = get_or chars i 0

abbrev pub pad : ℕ
pad = b'='

-- The four indices of a group of three bytes.
abbrev pub first_six : ℕ → ℕ
first_six b0 = b0 / 2 ^ 2

abbrev pub second_six : ℕ → ℕ → ℕ
second_six b0 b1 = bit_or (bit_and b0 0x03 * 2 ^ 4) (b1 / 2 ^ 4)

abbrev pub third_six : ℕ → ℕ → ℕ
third_six b1 b2 = bit_or (bit_and b1 0x0f * 2 ^ 2) (b2 / 2 ^ 6)

abbrev pub fourth_six : ℕ → ℕ
fourth_six b2 = bit_and b2 0x3f

-- The loop over `data.chunks(3)`: a last chunk of one or two bytes is padded.
unfoldable pub base64_encode : List ℕ → Text
base64_encode [] = []
base64_encode (b0 ∷ []) = char_of (first_six b0) ∷ char_of (second_six b0 0) ∷ pad ∷ pad ∷ []
base64_encode (b0 ∷ b1 ∷ []) =
    char_of (first_six b0) ∷ char_of (second_six b0 b1) ∷ char_of (third_six b1 0) ∷ pad ∷ []
base64_encode (b0 ∷ b1 ∷ b2 ∷ rest) =
    char_of (first_six b0)
    ∷ char_of (second_six b0 b1)
    ∷ char_of (third_six b1 b2)
    ∷ char_of (fourth_six b2)
    ∷ base64_encode rest
