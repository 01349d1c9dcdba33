-- ===== src/Bon/Table.antt =====
-- The string table: the encoder's `str_map` and the decoder's `str_arr` agree.
use koc_core.Common.{
  ℕ, zero, suc, ◌<◌, ◌≡◌, refl, ◌∙◌, true, some, List, [], ◌∷◌, ◌++◌, length, length-append,
  get_elem?, arith, Bool-cases, inl, inr,
}
use koc_core.Json.{Text}
use koc_core.Bon.Encoder.{StrMap, text_eq, index_of}

-- The texts in the order in which they were numbered.
abbrev pub strings : StrMap → List Text
strings [] = []
strings ((s, i) ∷ m) = strings m ++ s ∷ []

-- Each text has the number of texts before it.
abbrev pub IsNumbered : StrMap → Type 0
IsNumbered [] = Unit
IsNumbered ((s, i) ∷ m) = (i ≡ length m) × IsNumbered m

pub text_eq→eq : (a b : Text) → text_eq a b ≡ true → a ≡ b
text_eq→eq [] [] h = refl
text_eq→eq [] (y ∷ b) h = cc
text_eq→eq (x ∷ a) [] h = cc
text_eq→eq (x ∷ a) (y ∷ b) h = ground (arith, text_eq→eq a b)

pub text_eq_refl : (a : Text) → text_eq a a ≡ true
text_eq_refl [] = refl
text_eq_refl (x ∷ a) = ground (arith, text_eq_refl a)

length-strings : (m : StrMap) → length (strings m) ≡ length m
length-strings [] = refl
length-strings ((s, i) ∷ m) = omega (arith, length-append (strings m) (s ∷ []), length-strings m)

module _ {A : Type 0} where
  pub get_elem?-append :
      (xs ys : List A) (i : ℕ) → i < length xs → get_elem? (xs ++ ys) i ≡ get_elem? xs i
  get_elem?-append [] ys i h = absurd (omega arith)
  get_elem?-append (x ∷ xs) ys zero h = refl
  get_elem?-append (x ∷ xs) ys (suc i) h = get_elem?-append xs ys i (omega arith)

  pub get_elem?-last :
      (xs : List A) (x : A) (i : ℕ) → i ≡ length xs → get_elem? (xs ++ x ∷ []) i ≡ some x
  get_elem?-last [] x i h = rw h
  get_elem?-last (y ∷ xs) x i h = rw h (get_elem?-last xs x (length xs) refl)

-- The number that the encoder finds is the place of the text, and is below their count.
pub index_of-get_elem? :
    (s : Text) (m : StrMap) (i : ℕ)
    → IsNumbered m
    → index_of s m ≡ some i
    → (i < length m) × (get_elem? (strings m) i ≡ some s)
unfolding index_of
index_of-get_elem? s [] i h e = cc
index_of-get_elem? s ((t, j) ∷ m) i h e = elim (Bool-cases (text_eq t s)) [
  | inl same ↦
      let found : some j ≡ some i = rw same at e in
      let place : i ≡ length (strings m) = ground (arith, length-strings m) in
      let t≡s = text_eq→eq t s same in
      (ground (arith, length-strings m), rw (← t≡s) (get_elem?-last (strings m) t i place))
  | inr other ↦
      let later : index_of s m ≡ some i = rw other at e in
      let (below, there) = index_of-get_elem? s m i h.1 later in
      (
        omega arith,
        get_elem?-append (strings m) (t ∷ []) i (omega (arith, length-strings m)) ∙ there,
      )
]
