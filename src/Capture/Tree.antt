-- ===== src/Capture/Tree.antt =====
-- The `BTreeMap`s of a catalogue. Only their serialisation sees the order of their keys; here an
-- entry stands where it was first inserted.
use koc_core.Common.{
  ℕ, suc, ◌+◌, ◌≡◌, refl, ap, subst, inl, inr, Bool, true, false, Option, none, some, List, [], ◌∷◌,
  ◌++◌, length, if◌then◌else◌, Bool-cases, arith,
}
use koc_core.Common.Results.{All}
use koc_core.Json.{Text}
use koc_core.Bon.Encoder.{text_eq}

module _ {A : Type 0} where
  unfoldable pub get : Text → List (Text × A) → Option A
  get k [] = none
  get k ((j, a) ∷ m) = let rest = get k m in if text_eq k j then some a else rest

  abbrev pub contains_key : Text → List (Text × A) → Bool
  contains_key k [] = false
  contains_key k ((j, a) ∷ m) = let rest = contains_key k m in if text_eq k j then true else rest

  -- A change through `get_mut`.
  unfoldable pub modify : Text → (A → A) → List (Text × A) → List (Text × A)
  modify k f [] = []
  modify k f ((j, a) ∷ m) =
      let rest = modify k f m in if text_eq k j then (j, f a) ∷ m else (j, a) ∷ rest

  -- `entry(k).or_insert(a)`, for its effect on the map
  abbrev pub or_insert : Text → A → List (Text × A) → List (Text × A)
  or_insert k a m = if contains_key k m then m else m ++ (k, a) ∷ []

  abbrev pub Values : (A → Type 0) → List (Text × A) → Type 0
  Values P m = All (λ e. P e.1) m

  abbrev pub total : (A → ℕ) → List (Text × A) → ℕ
  total w [] = 0
  total w ((j, a) ∷ m) = w a + total w m

  pub length-modify :
      (k : Text) (f : A → A) (m : List (Text × A)) → length (modify k f m) ≡ length m
  unfolding modify
  length-modify k f [] = refl
  length-modify k f ((j, a) ∷ m) = elim (Bool-cases (text_eq k j)) [
    | inl same ↦ rw same refl
    | inr other ↦ rw other (ap suc (length-modify k f m))
  ]

  pub get-Values :
      (P : A → Type 0) (k : Text) (a : A) (m : List (Text × A))
      → get k m ≡ some a
      → Values P m
      → P a
  unfolding get
  get-Values P k a [] h all = cc
  get-Values P k a ((j, b) ∷ m) h (p, all) = elim (Bool-cases (text_eq k j)) [
    | inl same ↦ let e : b ≡ a = ground (arith, same, h) in subst P e p
    | inr other ↦ get-Values P k a m (rw other at h) all
  ]

  pub modify-Values :
      (P : A → Type 0) (k : Text) (f : A → A) (a : A) (m : List (Text × A))
      → get k m ≡ some a
      → P (f a)
      → Values P m
      → Values P (modify k f m)
  unfolding get modify
  modify-Values P k f a [] h new all = all
  modify-Values P k f a ((j, b) ∷ m) h new (p, all) = elim (Bool-cases (text_eq k j)) [
    | inl same ↦
        let e : a ≡ b = ground (arith, same, h) in rw same (subst (λ x. P (f x)) e new, all)
    | inr other ↦ rw other (p, modify-Values P k f a m (rw other at h) new all)
  ]

  -- A change adds what it adds to the one value that it changes.
  pub total-modify :
      (w : A → ℕ) (k : Text) (f : A → A) (a : A) (m : List (Text × A))
      → get k m ≡ some a
      → total w (modify k f m) + w a ≡ total w m + w (f a)
  unfolding get modify
  total-modify w k f a [] h = cc
  total-modify w k f a ((j, b) ∷ m) h = elim (Bool-cases (text_eq k j)) [
    | inl same ↦
        let e : a ≡ b = ground (arith, same, h) in
        rw same (omega (arith, ap w e, ap (λ x. w (f x)) e))
    | inr other ↦ rw other (omega (arith, total-modify w k f a m (rw other at h)))
  ]

  pub append-Values :
      (P : A → Type 0) (k : Text) (a : A) (m : List (Text × A))
      → P a
      → Values P m
      → Values P (m ++ (k, a) ∷ [])
  append-Values P k a [] p all = (p, tt)
  append-Values P k a (e ∷ m) p (q, all) = (q, append-Values P k a m p all)

  pub total-append :
      (w : A → ℕ) (k : Text) (a : A) (m : List (Text × A))
      → total w (m ++ (k, a) ∷ []) ≡ total w m + w a
  total-append w k a [] = omega arith
  total-append w k a ((j, b) ∷ m) = omega (arith, total-append w k a m)

  pub modify-missing :
      (k : Text) (f : A → A) (m : List (Text × A)) → get k m ≡ none → modify k f m ≡ m
  unfolding get modify
  modify-missing k f [] h = refl
  modify-missing k f ((j, a) ∷ m) h = elim (Bool-cases (text_eq k j)) [
    | inl same ↦ ground (arith, same, h)
    | inr other ↦ rw other (ap (λ x. (j, a) ∷ x) (modify-missing k f m (rw other at h)))
  ]

  pub get-modify :
      (k : Text) (f : A → A) (a : A) (m : List (Text × A))
      → get k m ≡ some a
      → get k (modify k f m) ≡ some (f a)
  unfolding get modify
  get-modify k f a [] h = cc
  get-modify k f a ((j, b) ∷ m) h = elim (Bool-cases (text_eq k j)) [
    | inl same ↦
        let e : b ≡ a = ground (arith, same, h) in rw same (rw same (ap (λ x. some (f x)) e))
    | inr other ↦ rw other (rw other (get-modify k f a m (rw other at h)))
  ]

  pub get-append :
      (k : Text) (a : A) (m : List (Text × A))
      → contains_key k m ≡ false
      → text_eq k k ≡ true
      → get k (m ++ (k, a) ∷ []) ≡ some a
  unfolding get
  get-append k a [] h e = rw e refl
  get-append k a ((j, b) ∷ m) h e = elim (Bool-cases (text_eq k j)) [
    | inl same ↦ ground (arith, same, h)
    | inr other ↦ rw other (get-append k a m (rw other at h) e)
  ]

  pub get-contains_key :
      (k : Text) (m : List (Text × A)) → contains_key k m ≡ true → (a : A) × (get k m ≡ some a)
  unfolding get
  get-contains_key k [] h = cc
  get-contains_key k ((j, b) ∷ m) h = elim (Bool-cases (text_eq k j)) [
    | inl same ↦ (b, rw same refl)
    | inr other ↦ let (a, e) = get-contains_key k m (rw other at h) in (a, rw other e)
  ]
