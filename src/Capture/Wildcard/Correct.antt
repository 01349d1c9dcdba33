-- ===== src/Capture/Wildcard/Correct.antt =====
-- The loop of `wildcard_match` and the meaning of the pattern, on values with and without a star of
-- their own.
use koc_core.Common.{
  ℕ, zero, suc, ◌+◌, ◌*◌, ◌≤◌, ◌<◌, ◌≡◌, refl, sym, ap, ◌∙◌, Bool, true, false, none, some, [], ◌∷◌,
  length, ◌==◌, arith, Bool-cases, inl, inr,
}
use koc_core.Common.Results.{All}
use koc_core.Json.{Text}
use koc_core.Capture.Wildcard.{Back, only_stars, retry, wildcard_loop, wildcard_match, glob}
use koc_core.Capture.Wildcard.Glob.{
  any, any_of_glob, any_later, glob-star, glob-byte, any-star, any-byte, only_stars-any,
}

abbrev pub IsNoStar : ℕ → Type 0
IsNoStar c = (c == b'*') ≡ false

pub start_fuel : (m n : ℕ) → m * (n + 1) + n < (m + 1) * (n + 1) + 1
start_fuel m n = grind arith

retry_fuel : (n k f a b : ℕ) → suc n * k + a < suc f → b < k → n * k + b < f
retry_fuel n k f a b h l = grind arith

-- `g` is the answer, and every pattern in play is shorter than `k`.
module _ (g : Bool) (k : ℕ) where
  -- What the place to retry from means: `m` bounds the value that is left.
  abbrev Saved : ℕ → Text → Text → Back → Type 0
  Saved m p s none = g ≡ true → glob p s ≡ true
  Saved m p s (some (after_star, value)) =
      (any after_star value ≡ g)
      × (glob after_star value ≡ true → glob p s ≡ true)
      × (length s ≤ length value)
      × (length value ≤ m)
      × (length after_star < k)
      × All IsNoStar value

  record IsOnCourse (fuel m : ℕ) (p s : Text) (back : Back) : Type 0 where
    now : glob p s ≡ true → g ≡ true
    later : g ≡ true → any p s ≡ true
    saved : Saved m p s back
    value_bound : length s ≤ m
    pattern_bound : length p < k
    fuel_bound : m * k + length p < fuel
    plain : All IsNoStar s

  -- A fresh start after a star.
  restart :
      {fuel m : ℕ} {p s : Text}
      → any p s ≡ g
      → length s ≤ m
      → length p < k
      → m * k + length p < fuel
      → All IsNoStar s
      → IsOnCourse fuel m p s (some (p, s))
  restart {fuel} {m} {p} {s} e hs hp hf hn = record {
    now = λ h. sym e ∙ any_of_glob p s h;
    later = λ h. e ∙ h;
    saved = (e, λ h. h, omega arith, hs, hp, hn);
    value_bound = hs;
    pattern_bound = hp;
    fuel_bound = hf;
    plain = hn;
  }

  Saved-same :
      (m : ℕ) (p s p' s' : Text) (back : Back)
      → glob p s ≡ glob p' s'
      → length s' ≤ length s
      → Saved m p s back
      → Saved m p' s' back
  Saved-same m p s p' s' none e l h = λ a. sym e ∙ h a
  Saved-same m p s p' s' (some (after_star, value)) e l (a, b, w, c, d, f) =
      (a, λ x. sym e ∙ b x, omega arith, c, d, f)

  glob-same :
      (q : ℕ) (p : Text) (c : ℕ) (s : Text)
      → (q == c) ≡ true
      → IsNoStar c
      → ((q == b'*') ≡ false) × (glob (q ∷ p) (c ∷ s) ≡ glob p s)
  glob-same q p c s e n =
      let byte : (q == b'*') ≡ false = ground arith in
      (byte, glob-byte q p (c ∷ s) byte ∙ rw e refl)

  onward :
      {fuel m : ℕ} {p s : Text} {back : Back} (q c : ℕ)
      → (q == c) ≡ true
      → IsOnCourse (suc fuel) m (q ∷ p) (c ∷ s) back
      → IsOnCourse fuel m p s back
  onward {fuel} {m} {p} {s} {back} q c e h =
      let (byte, same) = glob-same q p c s e h.plain.0 in
      record {
        now = λ a. h.now (same ∙ a);
        later = λ a. any-byte q p c s byte (h.later a);
        saved = Saved-same m (q ∷ p) (c ∷ s) p s back same (omega arith) h.saved;
        value_bound = omega (arith, h.value_bound);
        pattern_bound = omega (arith, h.pattern_bound);
        fuel_bound = omega (arith, h.fuel_bound);
        plain = h.plain.1;
      }

  bool_eq : (a b : Bool) → (a ≡ true → b ≡ true) → (b ≡ true → a ≡ true) → a ≡ b
  bool_eq true b h k = sym (h refl)
  bool_eq false true h k = k refl
  bool_eq false false h k = refl

  -- At a star the question becomes what stands after it.
  starred :
      {fuel m : ℕ} {p s : Text} {back : Back} (q c : ℕ)
      → (q == b'*') ≡ true
      → IsOnCourse (suc fuel) m (q ∷ p) (c ∷ s) back
      → IsOnCourse fuel m p (c ∷ s) (some (p, c ∷ s))
  starred {fuel} {m} {p} {s} {back} q c e h =
      let same = glob-star q p (c ∷ s) e in
      let answer =
        bool_eq (any p (c ∷ s)) g (λ a. h.now (same ∙ a))
          (λ a. any-star q p (c ∷ s) e (h.later a)) in
      restart answer h.value_bound (omega (arith, h.pattern_bound)) (omega (arith, h.fuel_bound))
        h.plain

  -- The retry stays on course where the pattern does not match from here.
  retry-answers :
      (fuel m : ℕ) (p s : Text) (back : Back)
      → glob p s ≡ false
      → ((n : ℕ) (p' s' : Text) (b : Back)
          → IsOnCourse fuel n p' s' b
          → wildcard_loop fuel p' s' b ≡ some g)
      → Saved m p s back
      → 0 < length s
      → m * k + length p < suc fuel
      → retry back (wildcard_loop fuel) ≡ some g
  retry-answers fuel m p s none miss run saved hs hf =
      ap some (bool_eq false g (λ a. absurd (cc a)) (λ a. sym miss ∙ saved a))
  retry-answers fuel m p s (some (after_star, [])) miss run (a, b, w, c, d, n) hs hf =
      absurd (omega (arith, w))
  retry-answers fuel zero p s (some (after_star, x ∷ value)) miss run (a, b, w, c, d, n) hs hf =
      absurd (omega (arith, c))
  retry-answers fuel (suc m) p s (some (after_star, x ∷ value)) miss run (a, b, w, c, d, (n0, n)) hs
        hf =
      let gone : glob after_star (x ∷ value) ≡ false =
        bool_eq (glob after_star (x ∷ value)) false (λ h. sym miss ∙ b h) (λ h. absurd (cc h)) in
      let same : any after_star value ≡ g = rw gone at a in
      run m after_star value (some (after_star, value)) (
        restart same (omega (arith, c)) d (retry_fuel m k fuel (length p) (length after_star) hf d)
          n)

  wildcard_loop-answers :
      (fuel m : ℕ) (p s : Text) (back : Back)
      → IsOnCourse fuel m p s back
      → wildcard_loop fuel p s back ≡ some g
  unfolding wildcard_loop
  wildcard_loop-answers zero m p s back h = absurd (omega (arith, h.fuel_bound))
  wildcard_loop-answers (suc fuel) m p [] back h =
      let (stars, rest) = only_stars-any p in
      ap some
        (bool_eq (only_stars p) g (λ a. h.now (sym stars ∙ a)) (λ a. stars ∙ sym rest ∙ h.later a))
  wildcard_loop-answers (suc fuel) m [] (c ∷ s) back h =
      retry-answers fuel m [] (c ∷ s) back (unfold glob in refl) (wildcard_loop-answers fuel)
        h.saved (omega arith) h.fuel_bound
  wildcard_loop-answers (suc fuel) m (q ∷ p) (c ∷ s) back h = elim (Bool-cases (q == c)) [
    | inl same ↦ rw same (wildcard_loop-answers fuel m p s back (onward q c same h))
    | inr other ↦ elim (Bool-cases (q == b'*')) [
      | inl star ↦
          rw (other, star)
            (wildcard_loop-answers fuel m p (c ∷ s) (some (p, c ∷ s)) (starred q c star h))
      | inr byte ↦
          let miss : glob (q ∷ p) (c ∷ s) ≡ false = glob-byte q p (c ∷ s) byte ∙ rw other refl in
          rw (other, byte)
            (retry-answers fuel m (q ∷ p) (c ∷ s) back miss (wildcard_loop-answers fuel) h.saved
              (omega arith) h.fuel_bound)
    ]
  ]

-- For a value with no star byte, `wildcard_match` ends within its fuel, and returns whether the
-- value has the form of the pattern, each star of which stands for any bytes.
pub wildcard_match-glob : (p s : Text) → All IsNoStar s → wildcard_match p s ≡ some (glob p s)
unfolding wildcard_match
wildcard_match-glob p s h =
    wildcard_loop-answers (glob p s) (length p + 1) _ (length s) p s none (record {
      now = λ a. a;
      later = any_of_glob p s;
      saved = λ a. a;
      value_bound = omega arith;
      pattern_bound = omega arith;
      fuel_bound = start_fuel (length s) (length p);
      plain = h;
    })

any_end : (s : Text) → any [] s ≡ true
any_end [] = unfold glob in refl
any_end (c ∷ s) = any_later [] c s (any_end s)

-- The byte test stands before the star test, so a star of the pattern takes a star of the value
-- for itself: the pattern `*` refuses every longer value that begins with a star.
pub wildcard_match-star_value :
    (c : ℕ) (s : Text)
    → (wildcard_match (b'*' ∷ []) (b'*' ∷ c ∷ s) ≡ some false)
      × (glob (b'*' ∷ []) (b'*' ∷ c ∷ s) ≡ true)
unfolding wildcard_match wildcard_loop
wildcard_match-star_value c s =
    let fuel : (suc (suc (length s)) + 1) * 2 + 1 ≡ suc (suc ((length s + 2) * 2 + 1)) =
      omega arith in
    (
      ap (λ f. wildcard_loop f (b'*' ∷ []) (b'*' ∷ c ∷ s) none) fuel,
      glob-star b'*' [] (b'*' ∷ c ∷ s) refl
          ∙ any_later [] b'*' (c ∷ s) (any_later [] c s (any_end s)),
    )
