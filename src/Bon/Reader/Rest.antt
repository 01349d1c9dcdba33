-- ===== src/Bon/Reader/Rest.antt =====
-- What `DataReader` reads, in terms of the bytes that are left.
use koc_core.Common.{
  ℕ, zero, suc, ◌+◌, ◌≤◌, ◌<◌, ◌≡◌, refl, ap, true, some, List, [], ◌∷◌, ◌++◌, append_assoc, length,
  length-append, get_or, take, drop, arith,
}
use native.Mathlib.Nat.{add-zero}
use koc_core.Common.State.{M, ◌>>=◌}
use koc_core.Bon.Reader.{DataReader, advance, validate, window, read_u8}

-- `ts` is what is left to read.
abbrev pub Rest : DataReader → List ℕ → Type 0
Rest r ts = drop r.position r.bytes ≡ ts

-- `m` reads `a` off a buffer that goes on with `bs`, and leaves what follows.
abbrev pub Reads : {A : Type 0} → M DataReader A → List ℕ → A → Type 0
Reads m bs a =
    (r : DataReader) (ts : List ℕ) → Rest r (bs ++ ts) → m r ≡ some (a, advance r (length bs))

pub drop-cons :
    (p : ℕ) (d : List ℕ) {b : ℕ} {ts : List ℕ}
    → drop p d ≡ b ∷ ts
    → (p < length d) × (get_or d p 0 ≡ b) × (drop (suc p) d ≡ ts)
drop-cons zero [] h = cc
drop-cons zero (x ∷ d) h = ground arith
drop-cons (suc p) [] h = cc
drop-cons (suc p) (x ∷ d) h = let (a, b, c) = drop-cons p d h in (omega arith, b, c)

pub drop-append : (p : ℕ) (d xs ts : List ℕ) → drop p d ≡ xs ++ ts → drop (p + length xs) d ≡ ts
drop-append p d [] ts h = rw (add-zero p) h
drop-append p d (x ∷ xs) ts h =
    let next = drop-append (suc p) d xs ts (drop-cons p d h).2 in
    let e : p + suc (length xs) ≡ suc p + length xs = omega arith in rw e next

-- The bytes that are left are inside the buffer.
pub drop-le :
    (p : ℕ) (d xs ts : List ℕ) → drop p d ≡ xs ++ ts → 0 < length xs → p + length xs ≤ length d
drop-le p d [] ts h k = absurd (omega arith)
drop-le p d (x ∷ []) ts h k = omega (arith, (drop-cons p d h).0)
drop-le p d (x ∷ y ∷ xs) ts h k =
    omega (arith, drop-le (suc p) d (y ∷ xs) ts (drop-cons p d h).2 (omega arith))

pub take-append : (xs ts : List ℕ) → take (length xs) (xs ++ ts) ≡ xs
take-append [] ts = refl
take-append (x ∷ xs) ts = ap (λ t. x ∷ t) (take-append xs ts)

pub window-Rest : (r : DataReader) (xs ts : List ℕ) → Rest r (xs ++ ts) → window r (length xs) ≡ xs
window-Rest r xs ts h = rw h (take-append xs ts)

pub advance-Rest :
    (r : DataReader) (xs ts : List ℕ) → Rest r (xs ++ ts) → Rest (advance r (length xs)) ts
advance-Rest r xs ts h = drop-append r.position r.bytes xs ts h

pub advance-advance :
    (r : DataReader) (xs ys : List ℕ)
    → advance (advance r (length xs)) (length ys) ≡ advance r (length (xs ++ ys))
advance-advance r xs ys =
    let e : r.position + length xs + length ys ≡ r.position + length (xs ++ ys) =
      omega (arith, length-append xs ys) in
    rw e

pub advance_thrice :
    (r : DataReader) (xs ys zs : List ℕ)
    → advance (advance (advance r (length xs)) (length ys)) (length zs)
      ≡ advance r (length (xs ++ (ys ++ zs)))
advance_thrice r xs ys zs =
    let e : r.position + length xs + length ys + length zs
        ≡ r.position + length (xs ++ (ys ++ zs)) =
      omega (arith, length-append xs (ys ++ zs), length-append ys zs) in
    rw e

-- A buffer that holds `xs` next is long enough for it.
pub validate-Rest :
    (r : DataReader) (xs ts : List ℕ)
    → Rest r (xs ++ ts)
    → 0 < length xs
    → validate r (length xs) ≡ true
unfolding validate
validate-Rest r xs ts h k = ground (arith, drop-le r.position r.bytes xs ts h k)

module _ {A B : Type 0} where
  -- Reading one thing after the other.
  pub Reads-bind :
      (m : M DataReader A) (f : A → M DataReader B) (xs ys : List ℕ) (a : A) (b : B)
      → Reads m xs a
      → Reads (f a) ys b
      → Reads (m >>= f) (xs ++ ys) b
  Reads-bind m f xs ys a b hm hf r ts h =
      let h' : Rest r (xs ++ (ys ++ ts)) = rw (← append_assoc xs ys ts) h in
      rw (
        hm r (ys ++ ts) h',
        ◌>>=◌,
        hf (advance r (length xs)) ts (advance-Rest r xs (ys ++ ts) h'),
        advance-advance r xs ys,
      )

pub read_u8-Reads : (b : ℕ) → Reads read_u8 (b ∷ []) b
unfolding read_u8
read_u8-Reads b r ts h =
    rw (validate-Rest r (b ∷ []) ts h (omega arith), (drop-cons r.position r.bytes h).1)
