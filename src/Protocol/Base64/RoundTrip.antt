-- ===== src/Protocol/Base64/RoundTrip.antt =====
-- The decoder of src/protocol.rs inverts the encoder of src/bon.rs.
use koc_core.Common.{
  ℕ, ◌+◌, ◌*◌, ◌/◌, ◌%◌, ◌<◌, ◌≡◌, refl, Bool, true, false, none, some, List, [], ◌∷◌, ◌==◌, ==_iff,
  ◌&&◌, arith, not,
}
use koc_core.Common.Bits.{all_below, all_below_sound, all_below-eq, all_pairs_sound}
use koc_core.Common.Results.{All}
use koc_core.Crypto.Xor.{IsByte}
use koc_core.Json.{Text}
use koc_core.Bon.Base64.{char_of, first_six, second_six, third_six, fourth_six, pad, base64_encode}
use koc_core.Protocol.Base64.{
  ◌>>=◌, trim_end_pad, sextet_of, byte_one, byte_two, byte_three, decode_chunks, base64_decode,
}

abbrev reads : ℕ → Bool
reads i = elim (sextet_of (char_of i)) [
  | none ↦ false
  | some j ↦ (i == j) && not (char_of i == pad)
]

six_table : all_below 64 reads ≡ true
unfolding all_below sextet_of
six_table = refl

-- Each character stands for its index, and none is the padding.
sextet_of-char_of :
    (i : ℕ) → i < 64 → (sextet_of (char_of i) ≡ some i) × ((char_of i == pad) ≡ false)
sextet_of-char_of i h = let r = all_below_sound 64 i reads h six_table in ground arith

second_table :
    all_below 256 (λ a. all_below 256 (λ b. second_six a b == a % 4 * 16 + b / 16)) ≡ true
unfolding all_below
second_table = refl

third_table : all_below 256 (λ a. all_below 256 (λ b. third_six a b == a % 16 * 4 + b / 64)) ≡ true
unfolding all_below
third_table = refl

join_table :
    all_below 64 (λ a. all_below 64 (λ b.
      (byte_one a b == a * 4 + b / 16)
      && (byte_two a b == a % 16 * 16 + b / 4)
      && (byte_three a b == a % 4 * 64 + b)))
    ≡ true
unfolding all_below
join_table = refl

abbrev joins : ℕ → ℕ → Bool
joins a b =
    (byte_one a b == a * 4 + b / 16)
    && (byte_two a b == a % 16 * 16 + b / 4)
    && (byte_three a b == a % 4 * 64 + b)

second_sum : (a b : ℕ) → a < 256 → b < 256 → second_six a b ≡ a % 4 * 16 + b / 16
second_sum a b ha hb = (==_iff _ _).0 (all_pairs_sound _ a b second_table ha hb)

third_sum : (a b : ℕ) → a < 256 → b < 256 → third_six a b ≡ a % 16 * 4 + b / 64
third_sum a b ha hb = (==_iff _ _).0 (all_pairs_sound _ a b third_table ha hb)

fourth_sum : (b : ℕ) → b < 256 → fourth_six b ≡ b % 64
unfolding all_below
fourth_sum b = all_below-eq 256 fourth_six (λ i. i % 64) b refl

joined :
    (a b : ℕ)
    → a < 64
    → b < 64
    → (byte_one a b ≡ a * 4 + b / 16)
      × (byte_two a b ≡ a % 16 * 16 + b / 4)
      × (byte_three a b ≡ a % 4 * 64 + b)
joined a b ha hb =
    let row = all_below_sound 64 b (joins a) hb (all_below_sound 64 a _ ha join_table) in
    ground arith

-- The four indices of a group, and the bytes that they give.
sextets :
    (b0 b1 b2 : ℕ)
    → b0 < 256
    → b1 < 256
    → b2 < 256
    → (first_six b0 < 64) × (second_six b0 b1 < 64) × (third_six b1 b2 < 64) × (fourth_six b2 < 64)
sextets b0 b1 b2 h0 h1 h2 =
    omega (arith, second_sum b0 b1 h0 h1, third_sum b1 b2 h1 h2, fourth_sum b2 h2)

group_bytes :
    (b0 b1 b2 : ℕ)
    → b0 < 256
    → b1 < 256
    → b2 < 256
    → (byte_one (first_six b0) (second_six b0 b1) ≡ b0)
      × (byte_two (second_six b0 b1) (third_six b1 b2) ≡ b1)
      × (byte_three (third_six b1 b2) (fourth_six b2) ≡ b2)
group_bytes b0 b1 b2 h0 h1 h2 =
    let (s0, s1, s2, s3) = sextets b0 b1 b2 h0 h1 h2 in
    let e1 = second_sum b0 b1 h0 h1 in
    let e2 = third_sum b1 b2 h1 h2 in
    let e3 = fourth_sum b2 h2 in
    let j1 = (joined (first_six b0) (second_six b0 b1) s0 s1).0 in
    let j2 = (joined (second_six b0 b1) (third_six b1 b2) s1 s2).1 in
    let j3 = (joined (third_six b1 b2) (fourth_six b2) s2 s3).2 in
    (omega (arith, e1, e2, e3, j1), omega (arith, e1, e2, e3, j2), omega (arith, e1, e2, e3, j3))

-- The text without its padding.
unpadded : List ℕ → Text
unpadded [] = []
unpadded (b0 ∷ []) = char_of (first_six b0) ∷ char_of (second_six b0 0) ∷ []
unpadded (b0 ∷ b1 ∷ []) =
    char_of (first_six b0) ∷ char_of (second_six b0 b1) ∷ char_of (third_six b1 0) ∷ []
unpadded (b0 ∷ b1 ∷ b2 ∷ rest) =
    char_of (first_six b0)
    ∷ char_of (second_six b0 b1)
    ∷ char_of (third_six b1 b2)
    ∷ char_of (fourth_six b2)
    ∷ unpadded rest

trim-char : (i : ℕ) (s : Text) → i < 64 → trim_end_pad (char_of i ∷ s) ≡ char_of i ∷ trim_end_pad s
unfolding trim_end_pad
trim-char i s h = rw (sextet_of-char_of i h).1

trim-pads : (trim_end_pad (pad ∷ pad ∷ []) ≡ []) × (trim_end_pad (pad ∷ []) ≡ [])
unfolding trim_end_pad
trim-pads = (refl, refl)

trim-base64_encode : (bs : List ℕ) → All IsByte bs → trim_end_pad (base64_encode bs) ≡ unpadded bs
unfolding base64_encode unpadded
trim-base64_encode [] h = unfold trim_end_pad in refl
trim-base64_encode (b0 ∷ []) (h0, h) =
    let (s0, s1, _, _) = sextets b0 0 0 h0 (omega arith) (omega arith) in
    rw (trim-char _ _ s0, trim-char _ _ s1, trim-pads.0)
trim-base64_encode (b0 ∷ b1 ∷ []) (h0, (h1, h)) =
    let (s0, s1, s2, _) = sextets b0 b1 0 h0 h1 (omega arith) in
    rw (trim-char _ _ s0, trim-char _ _ s1, trim-char _ _ s2, trim-pads.1)
trim-base64_encode (b0 ∷ b1 ∷ b2 ∷ rest) (h0, (h1, (h2, h))) =
    let (s0, s1, s2, s3) = sextets b0 b1 b2 h0 h1 h2 in
    rw (
      trim-char _ _ s0,
      trim-char _ _ s1,
      trim-char _ _ s2,
      trim-char _ _ s3,
      trim-base64_encode rest h,
    )

decode-unpadded : (bs : List ℕ) → All IsByte bs → decode_chunks (unpadded bs) ≡ some bs
unfolding decode_chunks unpadded
decode-unpadded [] h = refl
decode-unpadded (b0 ∷ []) (h0, h) =
    let (s0, s1, _, _) = sextets b0 0 0 h0 (omega arith) (omega arith) in
    rw (
      (sextet_of-char_of _ s0).0,
      ◌>>=◌,
      (sextet_of-char_of _ s1).0,
      (group_bytes b0 0 0 h0 (omega arith) (omega arith)).0,
    )
decode-unpadded (b0 ∷ b1 ∷ []) (h0, (h1, h)) =
    let (s0, s1, s2, _) = sextets b0 b1 0 h0 h1 (omega arith) in
    let (e0, e1, _) = group_bytes b0 b1 0 h0 h1 (omega arith) in
    rw (
      (sextet_of-char_of _ s0).0,
      ◌>>=◌,
      (sextet_of-char_of _ s1).0,
      (sextet_of-char_of _ s2).0,
      e0,
      e1,
    )
decode-unpadded (b0 ∷ b1 ∷ b2 ∷ rest) (h0, (h1, (h2, h))) =
    let (s0, s1, s2, s3) = sextets b0 b1 b2 h0 h1 h2 in
    let (e0, e1, e2) = group_bytes b0 b1 b2 h0 h1 h2 in
    rw (
      (sextet_of-char_of _ s0).0,
      ◌>>=◌,
      (sextet_of-char_of _ s1).0,
      (sextet_of-char_of _ s2).0,
      (sextet_of-char_of _ s3).0,
      decode-unpadded rest h,
      e0,
      e1,
      e2,
    )

-- `base64_decode` returns the list of bytes that `base64::encode` of src/bon.rs was given.
pub base64_decode-base64_encode :
    (bs : List ℕ) → All IsByte bs → base64_decode (base64_encode bs) ≡ some bs
unfolding base64_decode
base64_decode-base64_encode bs h = rw (trim-base64_encode bs h) (decode-unpadded bs h)
