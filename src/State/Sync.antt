-- ===== src/State/Sync.antt =====
-- What `sync_with_roles` leaves: exactly the new keys, with the states that were there.
use koc_core.Common.{
  ◌≡◌, refl, sym, ◌∙◌, Bool, true, false, ◌&&◌, not, Option, none, some, List, [], ◌∷◌,
  if◌then◌else◌, Bool-cases, inl, inr,
}
use koc_core.Json.{Text}
use koc_core.Bon.Encoder.{text_eq}
use koc_core.Bon.Table.{text_eq→eq, text_eq_refl}
use koc_core.State.{
  RoleState, AppState, default_role, find, put, remove, keys, has, difference, put_all, remove_all,
  sync_with_roles,
}

-- Texts that differ from a text that equals a third differ from the third.
text_eq-false : (i j k : Text) → text_eq i j ≡ false → text_eq i k ≡ true → text_eq j k ≡ false
text_eq-false i j k h e = elim (Bool-cases (text_eq j k)) [
  | inr other ↦ other
  | inl same ↦
      let i≡j = text_eq→eq i k e ∙ sym (text_eq→eq j k same) in
      let equal : text_eq i j ≡ true = rw i≡j (text_eq_refl j) in absurd (cc (sym h ∙ equal))
]

and_false : (a : Bool) → (a && false) ≡ false
and_false true = refl
and_false false = refl

if_same {ℓ} : {A : Type ℓ} {x : A} (b : Bool) → (if b then x else x) ≡ x
if_same true = refl
if_same false = refl

if_twice {ℓ} :
    {A : Type ℓ} (x y z : A) (b : Bool)
    → (if b then x else z) ≡ (if b then x else (if b then y else z))
if_twice x y z true = refl
if_twice x y z false = refl

if_or {ℓ} :
    {A : Type ℓ} (x z : A) (a b : Bool)
    → (if b then x else (if a then x else z)) ≡ (if (if a then true else b) then x else z)
if_or x z true true = refl
if_or x z true false = refl
if_or x z false b = refl

has-difference :
    (k : Text) (as' bs : List Text) → has k (difference as' bs) ≡ (has k as' && not (has k bs))
unfolding has difference
has-difference k [] bs = refl
has-difference k (a ∷ as') bs = elim (Bool-cases (text_eq a k)) [
  | inl here ↦
      let a≡k = text_eq→eq a k here in
      elim (Bool-cases (has k bs)) [
        | inl inside ↦
            rw (here, a≡k, inside, has-difference k as' bs) (rw inside (and_false (has k as')))
        | inr outside ↦ rw (here, a≡k, outside, text_eq_refl k) refl
      ]
  | inr there ↦ elim (Bool-cases (has a bs)) [
    | inl inside ↦ rw (there, inside) (has-difference k as' bs)
    | inr outside ↦ rw (there, outside, there) (has-difference k as' bs)
  ]
]

module _ {F : Type 0} where
  find-put :
      (k j : Text) (v : RoleState F) (m : List (Text × RoleState F))
      → find k (put j v m) ≡ (if text_eq j k then some v else find k m)
  unfolding find put
  find-put k j v [] = refl
  find-put k j v ((i, w) ∷ m) = elim (Bool-cases (text_eq i j)) [
    | inl same ↦ rw (same, text_eq→eq i j same) (if_twice _ _ _ (text_eq j k))
    | inr other ↦ elim (Bool-cases (text_eq i k)) [
      | inl here ↦ rw (other, here, text_eq-false i j k other here)
      | inr there ↦ rw (other, there) (find-put k j v m)
    ]
  ]

  find-remove :
      (k j : Text) (m : List (Text × RoleState F))
      → find k (remove j m) ≡ (if text_eq j k then none else find k m)
  unfolding find remove
  find-remove k j [] = sym (if_same (text_eq j k))
  find-remove k j ((i, w) ∷ m) = elim (Bool-cases (text_eq i j)) [
    | inl same ↦ rw (same, text_eq→eq i j same, find-remove k j m) (if_twice _ _ _ (text_eq j k))
    | inr other ↦ elim (Bool-cases (text_eq i k)) [
      | inl here ↦ rw (other, here, text_eq-false i j k other here)
      | inr there ↦ rw (other, there) (find-remove k j m)
    ]
  ]

  is_found : Option (RoleState F) → Bool
  is_found none = false
  is_found (some r) = true

  has-keys : (k : Text) (m : List (Text × RoleState F)) → has k (keys m) ≡ is_found (find k m)
  unfolding has find is_found
  has-keys k [] = refl
  has-keys k ((j, r) ∷ m) = elim (Bool-cases (text_eq j k)) [
    | inl here ↦ rw here refl
    | inr there ↦ rw there (has-keys k m)
  ]

  module _ (zero : F) where
    find-put_all :
        (k : Text) (ks : List Text) (m : List (Text × RoleState F))
        → find k (put_all zero ks m) ≡ (if has k ks then some (default_role zero) else find k m)
    unfolding put_all has
    find-put_all k [] m = refl
    find-put_all k (j ∷ ks) m =
        rw (find-put_all k ks (put j (default_role zero) m), find-put k j (default_role zero) m)
          (if_or _ _ (text_eq j k) (has k ks))

    find-remove_all :
        (k : Text) (ks : List Text) (m : List (Text × RoleState F))
        → find k (remove_all zero ks m) ≡ (if has k ks then none else find k m)
    unfolding remove_all has
    find-remove_all k [] m = refl
    find-remove_all k (j ∷ ks) m =
        rw (find-remove_all k ks (remove j m), find-remove k j m)
          (if_or _ _ (text_eq j k) (has k ks))

    -- What a key of the new list holds.
    abbrev pub kept_or_default : Option (RoleState F) → RoleState F
    kept_or_default none = default_role zero
    kept_or_default (some r) = r

    settle :
        (new_key : Bool) (o : Option (RoleState F))
        → (if is_found o && not new_key
            then none
            else if new_key && not (is_found o)
            then some (default_role zero)
            else o)
          ≡ (if new_key then some (kept_or_default o) else none)
    unfolding is_found
    settle true none = refl
    settle true (some r) = refl
    settle false none = refl
    settle false (some r) = refl

    -- After `sync_with_roles` a key has a state exactly if it is one of the new keys: the state
    -- that it had before, or the default state if it had none.
    pub find-sync_with_roles :
        (k : Text) (new_keys : List Text) (s : AppState F)
        → find k (sync_with_roles zero new_keys s).1.roles
          ≡ (if has k new_keys then some (kept_or_default (find k s.roles)) else none)
    unfolding sync_with_roles is_found
    find-sync_with_roles k new_keys s =
        let added = difference new_keys (keys s.roles) in
        let removed = difference (keys s.roles) new_keys in
        find-remove_all k removed (put_all zero added s.roles)
        ∙ rw
            (
              find-put_all k added s.roles,
              has-difference k (keys s.roles) new_keys,
              has-difference k new_keys (keys s.roles),
              has-keys k s.roles,
            )
            (settle (has k new_keys) (find k s.roles))
