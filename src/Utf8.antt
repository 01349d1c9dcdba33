-- ===== src/Utf8.antt =====
-- `String::from_utf8_lossy` of Rust's standard library, which src/bon.rs decodes text by, and the
-- well-formed byte sequences of Unicode (table 3-7), which are the contents of a `String`.
use koc_core.Common.{
  ℕ, zero, suc, ◌==◌, ◌<◌, ◌≤◌, ◌≡◌, refl, List, [], ◌∷◌, ◌++◌, ltb, leb, ◌&&◌, if◌then◌else◌,
  arith,
}

-- What is still expected of a sequence: `more bytes lo hi n` has read `bytes`, wants the next byte
-- in `lo..=hi`, and `n` continuation bytes after that.
pub data Pending : Type 0 where
  start : Pending
  more : List ℕ → ℕ → ℕ → ℕ → Pending

-- U+FFFD
abbrev replacement : List ℕ
replacement = 0xef ∷ 0xbf ∷ 0xbd ∷ []

-- What one byte adds to the output, and what is pending after it.
lead : ℕ → List ℕ × Pending
lead b =
    if ltb b 0x80
    then (b ∷ [], start)
    else if leb 0xc2 b && leb b 0xdf
    then ([], more (b ∷ []) 0x80 0xbf 0)
    else if b == 0xe0
    then ([], more (b ∷ []) 0xa0 0xbf 1)
    else if b == 0xed
    then ([], more (b ∷ []) 0x80 0x9f 1)
    else if leb 0xe1 b && leb b 0xef
    then ([], more (b ∷ []) 0x80 0xbf 1)
    else if b == 0xf0
    then ([], more (b ∷ []) 0x90 0xbf 2)
    else if leb 0xf1 b && leb b 0xf3
    then ([], more (b ∷ []) 0x80 0xbf 2)
    else if b == 0xf4
    then ([], more (b ∷ []) 0x80 0x8f 2)
    else (replacement, start)

step : Pending → ℕ → List ℕ × Pending
unfolding lead
step start b = lead b
step (more bs lo hi zero) b =
    if leb lo b && leb b hi then (bs ++ b ∷ [], start) else (replacement ++ (lead b).0, (lead b).1)
step (more bs lo hi (suc n)) b =
    if leb lo b && leb b hi
    then ([], more (bs ++ b ∷ []) 0x80 0xbf n)
    else (replacement ++ (lead b).0, (lead b).1)

-- An incomplete sequence becomes one replacement character, and so does a byte that starts none.
lossy_from : Pending → List ℕ → List ℕ
unfolding step
lossy_from start [] = []
lossy_from (more _ _ _ _) [] = replacement
lossy_from p (b ∷ bs) = (step p b).0 ++ lossy_from (step p b).1 bs

unfoldable pub from_utf8_lossy : List ℕ → List ℕ
unfolding lossy_from
from_utf8_lossy bs = lossy_from start bs

abbrev IsCont : ℕ → Type 0
IsCont b = (0x80 ≤ b) × (b ≤ 0xbf)

-- A sequence of three bytes may not spell a short code or a surrogate, one of four bytes neither a
-- short code nor one above U+10FFFF.
abbrev IsSecond3 : ℕ → ℕ → Type 0
IsSecond3 a b = IsCont b × (a ≡ 0xe0 → 0xa0 ≤ b) × (a ≡ 0xed → b ≤ 0x9f)

abbrev IsSecond4 : ℕ → ℕ → Type 0
IsSecond4 a b = IsCont b × (a ≡ 0xf0 → 0x90 ≤ b) × (a ≡ 0xf4 → b ≤ 0x8f)

-- Well-formed UTF-8.
pub data IsUtf8 : List ℕ → Type 0 where
  done : IsUtf8 []
  one : (a : ℕ) {t : List ℕ} → a < 0x80 → IsUtf8 t → IsUtf8 (a ∷ t)
  two : (a b : ℕ) {t : List ℕ} → 0xc2 ≤ a → a ≤ 0xdf → IsCont b → IsUtf8 t → IsUtf8 (a ∷ b ∷ t)
  three :
      (a b c : ℕ) {t : List ℕ}
      → 0xe0 ≤ a
      → a ≤ 0xef
      → IsSecond3 a b
      → IsCont c
      → IsUtf8 t
      → IsUtf8 (a ∷ b ∷ c ∷ t)
  four :
      (a b c d : ℕ) {t : List ℕ}
      → 0xf0 ≤ a
      → a ≤ 0xf4
      → IsSecond4 a b
      → IsCont c
      → IsCont d
      → IsUtf8 t
      → IsUtf8 (a ∷ b ∷ c ∷ d ∷ t)

lossy_from-IsUtf8 : {t : List ℕ} → IsUtf8 t → lossy_from start t ≡ t
unfolding lossy_from
lossy_from-IsUtf8 done = refl
lossy_from-IsUtf8 (one a p h) = ground (arith, lossy_from-IsUtf8 h)
lossy_from-IsUtf8 (two a b p q r h) = ground (arith, lossy_from-IsUtf8 h)
lossy_from-IsUtf8 (three a b c p q r s h) = ground (arith, lossy_from-IsUtf8 h)
lossy_from-IsUtf8 (four a b c d p q r s u h) = ground (arith, lossy_from-IsUtf8 h)

-- Well-formed text is read as it is.
pub from_utf8_lossy-IsUtf8 : (bs : List ℕ) → IsUtf8 bs → from_utf8_lossy bs ≡ bs
unfolding from_utf8_lossy
from_utf8_lossy-IsUtf8 bs h = lossy_from-IsUtf8 h
