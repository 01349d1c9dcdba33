-- ===== src/Hortor/RoundTrip.antt =====
-- The key of the payload, and how a payload is read back.
use koc_core.Common.{
  ℕ, zero, suc, ◌+◌, ◌/◌, ◌%◌, ◌^◌, ◌*◌, ◌==◌, ◌<◌, ◌≡◌, refl, ap, ap₂, ◌∙◌, inl, inr, Bool, true,
  some, List, [], ◌∷◌, ◌++◌, length, length-append, length-take, length-drop, take, drop, get_or,
  ltb, if◌then◌else◌, ◌&&◌, Bool-cases, arith,
}
use koc_core.Common.Results.{All}
use koc_core.Json.{Text}
use koc_core.Crypto.Xor.{IsByte}
use koc_core.Crypto.Mask.{xor_twice}
use koc_core.Capture.Record.{Base64Engine, IsBase64Engine}
use koc_core.Hortor.Table.{cipher_table}
use koc_core.Hortor.{
  trans_code, pick_chars, get_code_key, xor_from, deal_with_string, payload_key, encode_payload,
}

all_bytes : List ℕ → Bool
all_bytes [] = true
all_bytes (b ∷ bs) = ltb b 256 && all_bytes bs

all_bytes-All : (bs : List ℕ) → all_bytes bs ≡ true → All IsByte bs
unfolding all_bytes
all_bytes-All [] h = tt
all_bytes-All (b ∷ bs) h = elim (Bool-cases (ltb b 256)) [
  | inl small ↦ (ground (arith, small), all_bytes-All bs (rw small at h))
  | inr large ↦ absurd (cc (rw large at h))
]

cipher_table-bytes : All IsByte cipher_table
unfolding cipher_table all_bytes
cipher_table-bytes = all_bytes-All cipher_table refl

length-cipher_table : length cipher_table ≡ 4096
unfolding cipher_table
length-cipher_table = refl

length-trans_code : (s : Text) (times : ℕ) → length (trans_code s times) ≡ length s
unfolding trans_code
length-trans_code s zero = refl
length-trans_code s (suc times) =
    let mid = length s / 2 in
    elim (Bool-cases (length s % 2 == 0)) [
      | inr odd ↦ rw odd refl
      | inl even ↦ rw even (
          omega (
            arith,
            length-append (trans_code (drop mid s) times) (trans_code (take mid s) times),
            length-trans_code (drop mid s) times,
            length-trans_code (take mid s) times,
            length-take mid s,
            length-drop mid s,
          ))
    ]

append-All : (xs ys : List ℕ) → All IsByte xs → All IsByte ys → All IsByte (xs ++ ys)
append-All [] ys h k = k
append-All (x ∷ xs) ys (a, h) k = (a, append-All xs ys h k)

take-All : (n : ℕ) (xs : List ℕ) → All IsByte xs → All IsByte (take n xs)
take-All zero xs h = tt
take-All (suc n) [] h = tt
take-All (suc n) (x ∷ xs) (a, h) = (a, take-All n xs h)

drop-All : (n : ℕ) (xs : List ℕ) → All IsByte xs → All IsByte (drop n xs)
drop-All zero xs h = h
drop-All (suc n) [] h = tt
drop-All (suc n) (x ∷ xs) (a, h) = drop-All n xs h

get_or-IsByte : (xs : List ℕ) (i : ℕ) → All IsByte xs → IsByte (get_or xs i 0)
get_or-IsByte [] i h = omega arith
get_or-IsByte (x ∷ xs) zero (a, h) = a
get_or-IsByte (x ∷ xs) (suc i) (a, h) = get_or-IsByte xs i h

trans_code-bytes : (s : Text) (times : ℕ) → All IsByte s → All IsByte (trans_code s times)
unfolding trans_code
trans_code-bytes s zero h = h
trans_code-bytes s (suc times) h = elim (Bool-cases (length s % 2 == 0)) [
  | inr odd ↦ rw odd h
  | inl even ↦ rw even (
      append-All (trans_code (drop (length s / 2) s) times)
        (trans_code (take (length s / 2) s) times)
        (trans_code-bytes (drop (length s / 2) s) times (drop-All (length s / 2) s h))
        (trans_code-bytes (take (length s / 2) s) times (take-All (length s / 2) s h)))
]

pick_chars-bytes :
    (s : Text) (step i left : ℕ)
    → All IsByte s
    → All IsByte (pick_chars s step i left) × (length (pick_chars s step i left) ≡ left)
unfolding pick_chars
pick_chars-bytes s step i zero h = (tt, refl)
pick_chars-bytes s step i (suc left) h =
    let (all, size) = pick_chars-bytes s step (i + 1) left h in
    ((get_or-IsByte s (i * step) h, all), ap suc size)

payload_key-bytes : All IsByte payload_key × (length payload_key ≡ 1365)
unfolding payload_key get_code_key
payload_key-bytes =
    let shuffled = trans_code cipher_table 6 in
    let size : length shuffled ≡ 4096 = length-trans_code cipher_table 6 ∙ length-cipher_table in
    let (all, long) =
      pick_chars-bytes shuffled 3 0 (length shuffled / 3)
        (trans_code-bytes cipher_table 6 cipher_table-bytes) in
    (all, omega (arith, long, size))

xor_from-bytes :
    (key : List ℕ) (i : ℕ) (src : List ℕ)
    → All IsByte key
    → All IsByte src
    → All IsByte (xor_from key i src)
unfolding xor_from
xor_from-bytes key i [] hk h = tt
xor_from-bytes key i (b ∷ src) hk (hb, h) =
    let j = if ltb i (length key) then i else 0 in
    (
      (xor_twice b (get_or key j 0) hb (get_or-IsByte key j hk)).1,
      xor_from-bytes key (j + 1) src hk h,
    )

xor_from_twice :
    (key : List ℕ) (i : ℕ) (src : List ℕ)
    → All IsByte key
    → All IsByte src
    → xor_from key i (xor_from key i src) ≡ src
unfolding xor_from
xor_from_twice key i [] hk h = refl
xor_from_twice key i (b ∷ src) hk (hb, h) =
    let j = if ltb i (length key) then i else 0 in
    ap₂ (λ x xs. x ∷ xs) (xor_twice b (get_or key j 0) hb (get_or-IsByte key j hk)).0
      (xor_from_twice key (j + 1) src hk h)

deal_with_string-key :
    (src key : List ℕ) (shift : ℕ)
    → 0 < length key
    → deal_with_string src key shift ≡ xor_from key (length key / 2 ^ shift) src
unfolding deal_with_string xor_from
deal_with_string-key [] [] shift h = elim h [ ]
deal_with_string-key [] (k ∷ key) shift h = refl
deal_with_string-key (b ∷ src) [] shift h = elim h [ ]
deal_with_string-key (b ∷ src) (k ∷ key) shift h = refl

-- Let the base64 engine write bytes as bytes and decode what it encodes. Then a payload is a text
-- from which the text of the login, if it is bytes, comes back: decode it, apply `deal_with_string`
-- once more with the same key, and decode what this gives. The key has 1365 bytes, a third of the
-- table.
pub encode_payload-decodes :
    (engine : Base64Engine) (text : Text)
    → IsBase64Engine engine
    → All IsByte text
    → (raw : List ℕ) × (engine.decode (encode_payload engine text) ≡ some raw)
      × (engine.decode (deal_with_string raw payload_key 1) ≡ some text)
      × (length payload_key ≡ 1365)
unfolding encode_payload
encode_payload-decodes engine text laws h =
    let (key, size) = payload_key-bytes in
    let inner = engine.encode text in
    let bytes = laws.encode-bytes text h in
    let start = length payload_key / 2 ^ 1 in
    let masked = xor_from payload_key start inner in
    let dealt : deal_with_string inner payload_key 1 ≡ masked =
      deal_with_string-key inner payload_key 1 (omega (arith, size)) in
    (
      masked,
      ap (λ x. engine.decode (engine.encode x)) dealt
          ∙ laws.decode-encode masked (xor_from-bytes payload_key start inner key bytes),
      ap engine.decode (
            deal_with_string-key masked payload_key 1 (omega (arith, size))
            ∙ xor_from_twice payload_key start inner key bytes)
          ∙ laws.decode-encode text h,
      size,
    )
