-- ===== src/Capture/Wildcard/Glob.antt =====
-- The meaning of patterns: what a star takes, one byte at a time.
use koc_core.Common.{
  ℕ, ◌≡◌, refl, sym, ◌∙◌, Bool, true, false, ◌&&◌, [], ◌∷◌, ◌==◌, arith, Bool-cases, inl, inr,
}
use koc_core.Json.{Text}
use koc_core.Capture.Wildcard.{only_stars, at_some_suffix, after_byte, glob}

-- The value matches after a star.
abbrev pub any : Text → Text → Bool
any p s = at_some_suffix (glob p) s

pub any_of_glob : (p s : Text) → glob p s ≡ true → any p s ≡ true
any_of_glob p [] h = h
any_of_glob p (c ∷ s) h = rw h

pub any_later : (p : Text) (c : ℕ) (s : Text) → any p s ≡ true → any p (c ∷ s) ≡ true
any_later p c s h = ground arith

pub any_cases :
    (p : Text) (c : ℕ) (s : Text) → glob p (c ∷ s) ≡ false → any p (c ∷ s) ≡ true → any p s ≡ true
any_cases p c s e h = rw e at h

pub glob-star : (q : ℕ) (p s : Text) → (q == b'*') ≡ true → glob (q ∷ p) s ≡ any p s
unfolding glob
glob-star q p s h = rw h

pub glob-byte :
    (q : ℕ) (p s : Text) → (q == b'*') ≡ false → glob (q ∷ p) s ≡ after_byte q (glob p) s
unfolding glob
glob-byte q p s h = rw h

-- Two stars mean what one does.
pub any-star : (q : ℕ) (p s : Text) → (q == b'*') ≡ true → any (q ∷ p) s ≡ true → any p s ≡ true
any-star q p [] e h = rw (glob-star q p [] e) at h
any-star q p (c ∷ s) e h = elim (Bool-cases (any p (c ∷ s))) [
  | inl now ↦ now
  | inr not_now ↦
      let hidden : glob (q ∷ p) (c ∷ s) ≡ false = glob-star q p (c ∷ s) e ∙ not_now in
      any_later p c s (any-star q p s e (any_cases (q ∷ p) c s hidden h))
]

any-byte-now :
    (q : ℕ) (p : Text) (c : ℕ) (s : Text)
    → (q == b'*') ≡ false
    → glob (q ∷ p) (c ∷ s) ≡ true
    → any p s ≡ true
any-byte-now q p c s e h =
    let split : ((q == c) && glob p s) ≡ true = sym (glob-byte q p (c ∷ s) e) ∙ h in
    any_of_glob p s (ground arith)

-- A byte after a star takes at least one byte of the value.
pub any-byte :
    (q : ℕ) (p : Text) (c : ℕ) (s : Text)
    → (q == b'*') ≡ false
    → any (q ∷ p) (c ∷ s) ≡ true
    → any p s ≡ true
any-byte q p c [] e h = elim (Bool-cases (glob (q ∷ p) (c ∷ []))) [
  | inl now ↦ any-byte-now q p c [] e now
  | inr not_now ↦ absurd (cc (sym (any_cases (q ∷ p) c [] not_now h) ∙ glob-byte q p [] e))
]
any-byte q p c (d ∷ s) e h = elim (Bool-cases (glob (q ∷ p) (c ∷ d ∷ s))) [
  | inl now ↦ any-byte-now q p c (d ∷ s) e now
  | inr not_now ↦ any_later p d s (any-byte q p d s e (any_cases (q ∷ p) c (d ∷ s) not_now h))
]

pub only_stars-any : (p : Text) → (only_stars p ≡ glob p []) × (any p [] ≡ glob p [])
unfolding only_stars glob
only_stars-any [] = (refl, refl)
only_stars-any (q ∷ p) = elim (Bool-cases (q == b'*')) [
  | inl star ↦ rw star ((only_stars-any p).0, refl)
  | inr byte ↦ rw byte (refl, refl)
]
