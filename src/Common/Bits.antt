-- ===== src/Common/Bits.antt =====
-- Facts about the bit operations at variables, which the tactics take for unknowns.
use Prim.Native.Nat.{max, digits, bit_or-bitwise}
use native.Mathlib.Nat.{pow-suc}
use koc_core.Common.{
  false, ◌∙◌, ℕ, zero, suc, ◌+◌, ◌*◌, ◌/◌, ◌%◌, ◌^◌, ◌≤◌, ◌<◌, bit_or, ◌≡◌, ap, Bool, true, arith,
  ◌==◌, ==_iff,
}

-- A test of every number below `n`, by evaluation.
unfoldable pub all_below : ℕ → (ℕ → Bool) → Bool
all_below zero test = true
all_below (suc n) test = elim (test n) [ true ↦ all_below n test | false ↦ false ]

pub all_below_sound : (n i : ℕ) (test : ℕ → Bool) → i < n → all_below n test ≡ true → test i ≡ true
unfolding all_below
all_below_sound zero i test small passed = elim small [ ]
all_below_sound (suc n) i test small passed = ground (arith, all_below_sound n i test)

-- Two functions that agree at every value below `n`.
pub all_below-eq :
    (n : ℕ) (f g : ℕ → ℕ) (i : ℕ) → all_below n (λ k. f k == g k) ≡ true → i < n → f i ≡ g i
all_below-eq n f g i passed small = (==_iff _ _).0 (all_below_sound n i _ small passed)

-- A test of every pair of bytes.
pub all_pairs_sound :
    (test : ℕ → ℕ → Bool) (a b : ℕ)
    → all_below 256 (λ x. all_below 256 (test x)) ≡ true
    → a < 256
    → b < 256
    → test a b ≡ true
all_pairs_sound test a b passed ha hb =
    all_below_sound 256 b (test a) hb (all_below_sound 256 a _ ha passed)

-- The digits of a disjoint `|`: at each step the shifted operand has a zero digit.
or_digits-shift :
    (n k q r : ℕ) → r < 2 ^ k → r ≤ n → digits (λ y. y) max n r (q * 2 ^ k) ≡ r + q * 2 ^ k
or_digits-shift zero k q zero fits h = omega arith
or_digits-shift zero k q (suc r) fits h = absurd (omega arith)
or_digits-shift (suc n) k q zero fits h = omega arith
or_digits-shift (suc n) zero q (suc r) fits h = absurd (omega arith)
or_digits-shift (suc n) (suc k) q (suc r) fits h =
    let double : q * 2 ^ suc k ≡ q * 2 ^ k * 2 =
      omega (arith, ap (λ (t : ℕ). q * t) (pow-suc 2 k)) in
    let half : q * 2 ^ suc k / 2 ≡ q * 2 ^ k = omega (arith, double) in
    let even : q * 2 ^ suc k % 2 ≡ 0 = omega (arith, double) in
    let rest = or_digits-shift n k q (suc r / 2) (omega arith) (omega arith) in
    rw (half, even, rest) (omega (arith, double))

-- `r | (q << k)` is a sum when `r` fits `k` bits.
pub bit_or-shift : (k q r : ℕ) → r < 2 ^ k → bit_or r (q * 2 ^ k) ≡ r + q * 2 ^ k
bit_or-shift k q r fits = bit_or-bitwise r (q * 2 ^ k) ∙ or_digits-shift r k q r fits (omega arith)
