-- ===== src/Hortor.antt =====
-- src/hortor_crypto.rs: the encryption of the payload of the login.
pub mod Table
pub mod RoundTrip
pub mod Tests
use koc_core.Common.{
  ℕ, zero, suc, ◌+◌, ◌-◌, ◌/◌, ◌%◌, ◌^◌, ◌*◌, ◌==◌, ◌||◌, bit_xor, Bool, not, Option, some, none,
  List, [], ◌∷◌, ◌++◌, length, take, drop, get_or, ltb, if◌then◌else◌,
}
use koc_core.Json.{Text}
use koc_core.Capture.Record.{Base64Engine}
use koc_core.Hortor.Table.{cipher_table}

-- "ABCDEFGH" times=1 → "EFGHABCD"
unfoldable pub trans_code : Text → ℕ → Text
trans_code s zero = s
trans_code s (suc times) =
    let mid = length s / 2 in
    let new_right = trans_code (drop mid s) times in
    let new_left = trans_code (take mid s) times in
    if not (length s % 2 == 0) then s else new_right ++ new_left

-- The characters at 0, `step`, 2 * `step` and so on; the text is ASCII. The loop has the index
-- and the count of rounds that are left.
unfoldable pub pick_chars : Text → ℕ → ℕ → ℕ → Text
pick_chars s step i zero = []
pick_chars s step i (suc left) = get_or s (i * step) 0 ∷ pick_chars s step (i + 1) left

unfoldable pub get_code_key : Text → ℕ → Text
unfolding pick_chars
get_code_key s step = pick_chars s step 0 (length s / step)

-- The loop over the bytes, with the index into the key.
unfoldable pub xor_from : List ℕ → ℕ → List ℕ → List ℕ
xor_from key idx [] = []
xor_from key idx (b ∷ src) =
    let i = if ltb idx (length key) then idx else 0 in
    bit_xor b (get_or key i 0) ∷ xor_from key (i + 1) src

unfoldable pub deal_with_string : List ℕ → List ℕ → ℕ → List ℕ
unfolding xor_from
deal_with_string [] key shift = []
deal_with_string (b ∷ src) [] shift = []
deal_with_string (b ∷ src) (k ∷ key) shift =
    xor_from (k ∷ key) (length (k ∷ key) / 2 ^ shift) (b ∷ src)

unfoldable pub payload_key : Text
unfolding trans_code get_code_key
payload_key = get_code_key (trans_code cipher_table 6) 3

module _ (engine : Base64Engine) where
  unfoldable pub encode_payload : Text → Text
  unfolding payload_key deal_with_string
  encode_payload text = engine.encode (deal_with_string (engine.encode text) payload_key 1)
