-- ===== src/Bon/Varint.antt =====
-- The seven-bit groups that `write_7bit_int` writes and `read_7bit_int` reads.
use native.Mathlib.Numerals.{towards_suc}
use native.Mathlib.Nat.{div-add-mod, mod-eq_of_lt}
use mathlib.Core.WellFounded.{Acc}
use native.Mathlib.Decide.{dec_lt}
use koc_core.Common.{
  ℕ, zero, suc, ◌+◌, ◌*◌, ◌/◌, ◌%◌, ◌^◌, ◌≤◌, ◌<◌, bit_or, bit_and, ◌≡◌, refl, ap, List, [], ◌∷◌,
  ◌++◌, append_assoc, arith, ltb, ◌≢◌, if◌then◌else◌, ◌==◌, ◌&&◌, not,
}
use koc_core.Common.Bits.{bit_or-shift, all_below, all_below-eq}
use koc_core.Common.State.{◌>>=◌, pure, fail}
use koc_core.Bon.Reader.{DataReader, advance, read_7bit_loop, read_7bit_int}
use koc_core.Bon.Reader.Rest.{Rest, Reads, read_u8-Reads, advance-Rest, advance-advance}
use koc_core.Bon.Writer.{DataWriter, extend, push, write_7bit_loop, write_7bit_int}

-- The groups of `n`, lowest first, each but the last with the top bit set; `n` is below 128 ^ (k + 1).
unfoldable pub groups : ℕ → ℕ → List ℕ
groups zero n = n ∷ []
groups (suc k) n =
    let rest = groups k (n / 128) in if ltb n 128 then n ∷ [] else (n % 128 + 128) ∷ rest

-- A 32-bit number has at most five groups.
abbrev pub varint : ℕ → List ℕ
varint n = groups 4 n

low_seven : (b : ℕ) → b < 256 → bit_and b 0x7f ≡ b % 128
unfolding all_below
low_seven b = all_below-eq 256 (λ i. bit_and i 0x7f) (λ i. i % 128) b refl

top_bit : (b : ℕ) → b < 256 → bit_and b 0x80 ≡ b / 128 * 128
unfolding all_below
top_bit b = all_below-eq 256 (λ i. bit_and i 0x80) (λ i. i / 128 * 128) b refl

top_four : (b : ℕ) → b < 256 → bit_and b 0xf0 ≡ b / 16 * 16
unfolding all_below
top_four b = all_below-eq 256 (λ i. bit_and i 0xf0) (λ i. i / 16 * 16) b refl

set_top_bit : (b : ℕ) → b < 256 → bit_or b 0x80 ≡ b % 128 + 128
unfolding all_below
set_top_bit b = all_below-eq 256 (λ i. bit_or i 0x80) (λ i. i % 128 + 128) b refl

write_7bit_loop-groups :
    (k : ℕ) (w : DataWriter) (n : ℕ) (a : Acc ◌<◌ n)
    → n < 128 ^ suc k
    → write_7bit_loop w n a ≡ extend w (groups k n)
unfolding write_7bit_loop groups
write_7bit_loop-groups zero w n (Acc.intro _ smaller) h = ground arith
write_7bit_loop-groups (suc k) w n (Acc.intro _ smaller) h = grind (
  arith,
  set_top_bit (n % 256),
  λ (a : Acc ◌<◌ (n / 2 ^ 7)).
      write_7bit_loop-groups k (push w (n % 128 + 128)) (n / 2 ^ 7) a (omega arith),
  append_assoc w.bytes ((n % 128 + 128) ∷ []) (groups k (n / 128)),
)

-- What `write_7bit_int` appends.
pub write_7bit_int-varint :
    (w : DataWriter) (n : ℕ) → n < 2 ^ 32 → write_7bit_int w n ≡ extend w (varint n)
unfolding write_7bit_int
write_7bit_int-varint w n h = rw (mod-eq_of_lt h) (write_7bit_loop-groups 4 w n _ (omega arith))

-- One round on the byte `b`, in plain arithmetic.
round :
    (rounds j acc b : ℕ) (r : DataReader) (ts : List ℕ)
    → b < 256
    → acc < 2 ^ (j * 7)
    → b % 128 * 2 ^ (j * 7) < 2 ^ 32
    → Rest r (b ∷ ts)
    → read_7bit_loop (suc rounds) j acc r
      ≡ (if (j == 4) && not (b / 16 * 16 == 0)
            then fail
            else if b / 128 * 128 == 0
            then pure (acc + b % 128 * 2 ^ (j * 7))
            else read_7bit_loop rounds (j + 1) (acc + b % 128 * 2 ^ (j * 7)))
          (advance r 1)
unfolding read_7bit_loop
round rounds j acc b r ts hb ha fits h = rw (
  read_u8-Reads b r ts h,
  ◌>>=◌,
  low_seven b hb,
  top_bit b hb,
  top_four b hb,
  mod-eq_of_lt fits,
  bit_or-shift (j * 7) (b % 128) acc ha,
)

last_round :
    (rounds j acc n : ℕ)
    → n < 128
    → (j ≡ 4 → n < 16)
    → acc < 2 ^ (j * 7)
    → n * 2 ^ (j * 7) < 2 ^ 32
    → Reads (read_7bit_loop (suc rounds) j acc) (n ∷ []) (acc + n * 2 ^ (j * 7))
last_round rounds j acc n hn small ha fits r ts h =
    let m : n % 128 ≡ n = mod-eq_of_lt hn in
    ground (arith, m, round rounds j acc n r ts (omega arith) ha (rw m fits) h)

inner_round :
    (rounds j acc n : ℕ) (r : DataReader) (ts : List ℕ)
    → n < 128
    → j ≢ 4
    → acc < 2 ^ (j * 7)
    → n * 2 ^ (j * 7) < 2 ^ 32
    → Rest r ((n + 128) ∷ ts)
    → read_7bit_loop (suc rounds) j acc r
      ≡ read_7bit_loop rounds (j + 1) (acc + n * 2 ^ (j * 7)) (advance r 1)
inner_round rounds j acc n r ts hn ne ha fits h =
    let m : (n + 128) % 128 ≡ n = omega arith in
    ground (arith, m, round rounds j acc (n + 128) r ts (omega arith) ha (rw m fits) h)

shift_seven : (j : ℕ) → 2 ^ ((j + 1) * 7) ≡ 128 * 2 ^ (j * 7)
shift_seven j =
    let e : (j + 1) * 7 ≡ j * 7 + 7 = omega arith in rw e (simp towards_suc (omega arith))

groups-small : (k n : ℕ) → n < 128 → groups (suc k) n ≡ n ∷ []
unfolding groups
groups-small k n h = ground arith

groups-large : (k n : ℕ) → 128 ≤ n → groups (suc k) n ≡ (n % 128 + 128) ∷ groups k (n / 128)
unfolding groups
groups-large k n h = ground arith

-- The fifth group has four bits.
fifth_group : (j n : ℕ) → n * 2 ^ (j * 7) < 2 ^ 32 → j ≡ 4 → n < 16
fifth_group j n fits e = let fits' : n * 2 ^ (4 * 7) < 2 ^ 32 = rw e at fits in omega arith

-- The lowest group of `n` and the others, at bit `7 * j`.
split_group : (n j : ℕ) → n * 2 ^ (j * 7) ≡ n % 128 * 2 ^ (j * 7) + n / 128 * 2 ^ ((j + 1) * 7)
split_group n j = omega (
  arith,
  ap (λ (t : ℕ). t * 2 ^ (j * 7)) (div-add-mod n 128),
  ap (λ (t : ℕ). n / 128 * t) (shift_seven j),
)

group-lt : (m acc j : ℕ) → m < 128 → acc < 2 ^ (j * 7) → acc + m * 2 ^ (j * 7) < 2 ^ ((j + 1) * 7)
group-lt m acc j h k = grind (arith, shift_seven j)

-- `n` is what is still to be read, and it counts from bit `7 * j` on.
read_7bit_loop-groups :
    (k j acc n : ℕ)
    → j + k ≡ 4
    → n < 128 ^ suc k
    → acc < 2 ^ (j * 7)
    → n * 2 ^ (j * 7) < 2 ^ 32
    → Reads (read_7bit_loop (suc k) j acc) (groups k n) (acc + n * 2 ^ (j * 7))
read_7bit_loop-groups zero j acc n e hn ha fits =
    unfold groups in last_round 0 j acc n (omega arith) (fifth_group j n fits) ha fits
read_7bit_loop-groups (suc k) j acc n e hn ha fits = elim (dec_lt n 128) [
  | yes small ↦
      rw (groups-small k n small) (last_round (suc k) j acc n small (fifth_group j n fits) ha fits)
  | no large ↦ λ r ts h.
      let g = groups-large k n (omega arith) in
      let low = n % 128 in
      let later = groups k (n / 128) in
      let h' : Rest r ((low + 128) ∷ (later ++ ts)) = rw g at h in
      let first : read_7bit_loop (suc (suc k)) j acc r
          ≡ read_7bit_loop (suc k) (j + 1) (acc + low * 2 ^ (j * 7)) (advance r 1) =
        inner_round (suc k) j acc low r (later ++ ts) (omega arith) (omega arith) ha
          (omega (arith, split_group n j)) h' in
      let rest =
        read_7bit_loop-groups k (j + 1) (acc + low * 2 ^ (j * 7)) (n / 128) (omega arith)
          (omega arith) (group-lt low acc j (omega arith) ha) (omega (arith, split_group n j))
          (advance r 1) ts (advance-Rest r ((low + 128) ∷ []) (later ++ ts) h') in
      rw (first, rest, g)
        (ground (arith, split_group n j, advance-advance r ((low + 128) ∷ []) later))
]

-- `read_7bit_int` reads the groups of a 32-bit number as that number.
pub read_7bit_int-Reads : (n : ℕ) → n < 2 ^ 32 → Reads read_7bit_int (varint n) n
unfolding read_7bit_int
read_7bit_int-Reads n h r ts k =
    let whole =
      read_7bit_loop-groups 4 0 0 n (omega arith) (omega arith) (omega arith) (omega arith) r ts
        k in
    let e : 0 + n * 2 ^ (0 * 7) ≡ n = omega arith in rw e at whole
