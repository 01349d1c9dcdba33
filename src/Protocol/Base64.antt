-- ===== src/Protocol/Base64.antt =====
-- `base64_decode` of src/protocol.rs.
pub mod RoundTrip
use koc_core.Common.{
  ℕ, ◌+◌, ◌-◌, ◌*◌, ◌/◌, ◌%◌, ◌^◌, bit_or, Bool, true, false, Option, none, some, List, [], ◌∷◌,
  leb, ◌==◌, ◌&&◌, if◌then◌else◌,
}
use koc_core.Json.{Text}

is_empty : List ℕ → Bool
is_empty [] = true
is_empty (c ∷ cs) = false

-- `s.trim_end_matches('=')`
unfoldable pub trim_end_pad : Text → Text
unfolding is_empty
trim_end_pad [] = []
trim_end_pad (c ∷ cs) =
    let rest = trim_end_pad cs in if (c == b'=') && is_empty rest then [] else c ∷ rest

-- The closure `table`.
unfoldable pub sextet_of : ℕ → Option ℕ
sextet_of c =
    if leb b'A' c && leb c b'Z'
    then some (c - b'A')
    else if leb b'a' c && leb c b'z'
    then some (c - b'a' + 26)
    else if leb b'0' c && leb c b'9'
    then some (c - b'0' + 52)
    else if c == b'+'
    then some 62
    else if c == b'/'
    then some 63
    else none

-- The three bytes of a group of four characters; `<<` on `u8` drops the high bits.
abbrev pub byte_one : ℕ → ℕ → ℕ
byte_one a b = bit_or (a * 2 ^ 2 % 256) (b / 2 ^ 4)

abbrev pub byte_two : ℕ → ℕ → ℕ
byte_two b c = bit_or (b * 2 ^ 4 % 256) (c / 2 ^ 2)

abbrev pub byte_three : ℕ → ℕ → ℕ
byte_three c d = bit_or (c * 2 ^ 6 % 256) d

infixl 5 ◌>>=◌
abbrev ◌>>=◌ : {A B : Type 0} → Option A → (A → Option B) → Option B
none >>= f = none
some a >>= f = f a

-- The loop over `bytes.chunks(4)`.
unfoldable pub decode_chunks : List ℕ → Option (List ℕ)
decode_chunks [] = some []
decode_chunks (a ∷ []) = do a' ← sextet_of a; none
decode_chunks (a ∷ b ∷ []) = do a' ← sextet_of a; b' ← sextet_of b; some (byte_one a' b' ∷ [])
decode_chunks (a ∷ b ∷ c ∷ []) = do
  a' ← sextet_of a
  b' ← sextet_of b
  c' ← sextet_of c
  some (byte_one a' b' ∷ byte_two b' c' ∷ [])
decode_chunks (a ∷ b ∷ c ∷ d ∷ rest) = do
  a' ← sextet_of a
  b' ← sextet_of b
  c' ← sextet_of c
  d' ← sextet_of d
  out ← decode_chunks rest
  some (byte_one a' b' ∷ byte_two b' c' ∷ byte_three c' d' ∷ out)

unfoldable pub base64_decode : Text → Option (List ℕ)
unfolding trim_end_pad decode_chunks
base64_decode s = decode_chunks (trim_end_pad s)
