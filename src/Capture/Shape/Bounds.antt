-- ===== src/Capture/Shape/Bounds.antt =====
-- The forms: small trees of type names.
use Prim.Native.Nat.{Ordering}
use koc_core.Common.{
  ℕ, suc, ◌+◌, ◌-◌, ◌≤◌, ◌<◌, ◌≡◌, refl, ◌⊎◌, Bool, true, List, [], ◌∷◌, ◌++◌, length,
  length-append, if◌then◌else◌, leb, Bool-cases, inl, inr, arith,
}
use koc_core.Common.Codes.{codes}
use koc_core.Common.Results.{All}
use koc_core.Json.{
  Text, Value, null, bool, number, string, array, object, Items, no_items, item, JsonMap,
  no_entries, entry, SerdeJson,
}
use koc_core.Json.Maps.{compare_text, insert, items_len, map_len}
use koc_core.Config.Times.{one_of}
use koc_core.Capture.Shape.{
  contains_value, insert_variant, sort_variants, to_items, add_variant, limit_depth,
  max_array_variants, max_shape_depth,
}

abbrev pub type_names : List Text
type_names =
    codes "null"
    ∷ codes "boolean"
    ∷ codes "number"
    ∷ codes "string"
    ∷ codes "depth_limit"
    ∷ codes "variant_limit"
    ∷ []

-- Two keys that compare as equal are one key.
compare_text-eq : (j k : Text) → compare_text j k ≡ Ordering.eq → j ≡ k
unfolding compare_text
compare_text-eq [] [] h = refl
compare_text-eq [] (c ∷ k) h = cc
compare_text-eq (b ∷ j) [] h = cc
compare_text-eq (b ∷ j) (c ∷ k) h = ground (arith, compare_text-eq j k)

module _ {N : Type 0} where
  -- `n` bounds the nesting.
  abbrev mutual
    pub IsForm : ℕ → Value N → Type 0
    IsForm n null = ⊥
    IsForm n (bool b) = ⊥
    IsForm n (number k) = ⊥
    IsForm n (string s) = (0 < n) × (one_of s type_names ≡ true)
    IsForm n (array vs) = (0 < n) × (items_len vs ≤ 17) × AllForms (n - 1) vs
    IsForm n (object m) = (0 < n) × (map_len m ≤ 257) × FormFields (n - 1) m

    pub AllForms : ℕ → Items N → Type 0
    AllForms n no_items = Unit
    AllForms n (item v vs) = IsForm n v × AllForms n vs

    pub FormFields : ℕ → JsonMap N → Type 0
    FormFields n no_entries = Unit
    FormFields n (entry k v m) =
        (IsForm n v ⊎ ((k ≡ codes "$truncated") × (v ≡ bool true))) × FormFields n m

  pub insert-FormFields :
      (n : ℕ) (k : Text) (v : Value N) (m : JsonMap N)
      → IsForm n v ⊎ ((k ≡ codes "$truncated") × (v ≡ bool true))
      → FormFields n m
      → FormFields n (insert k v m)
  unfolding insert
  insert-FormFields n k v no_entries h a = (h, a)
  insert-FormFields n k v (entry j w m) h (b, a) =
      elim (compare_text k j)
          as (λ o.
            compare_text k j ≡ o
            → FormFields n (elim o [
              | Ordering.lt ↦ entry k v (entry j w m)
              | Ordering.eq ↦ entry j v m
              | Ordering.gt ↦ entry j w (insert k v m)
            ])) [
              | Ordering.lt ↦ λ e. (h, (b, a))
              | Ordering.eq ↦ λ e. (rw (← compare_text-eq k j e) h, a)
              | Ordering.gt ↦ λ e. (b, insert-FormFields n k v m h a)
            ]
        refl

  pub map_len-insert :
      (k : Text) (v : Value N) (m : JsonMap N) → map_len (insert k v m) ≤ suc (map_len m)
  unfolding insert
  map_len-insert k v no_entries = omega arith
  map_len-insert k v (entry j w m) =
      elim (compare_text k j)
        as (λ o.
          map_len (elim o [
            | Ordering.lt ↦ entry k v (entry j w m)
            | Ordering.eq ↦ entry j v m
            | Ordering.gt ↦ entry j w (insert k v m)
          ])
          ≤ suc (suc (map_len m))) [
            | Ordering.lt ↦ omega arith
            | Ordering.eq ↦ omega arith
            | Ordering.gt ↦ omega (arith, map_len-insert k v m)
          ]

  pub All-append :
      (n : ℕ) (vs ws : List (Value N))
      → All (IsForm n) vs
      → All (IsForm n) ws
      → All (IsForm n) (vs ++ ws)
  All-append n [] ws h k = k
  All-append n (v ∷ vs) ws (a, h) k = (a, All-append n vs ws h k)

  pub to_items-AllForms :
      (n : ℕ) (vs : List (Value N)) → All (IsForm n) vs → AllForms n (to_items vs)
  to_items-AllForms n [] h = tt
  to_items-AllForms n (v ∷ vs) (a, h) = (a, to_items-AllForms n vs h)

  pub items_len-to_items : (vs : List (Value N)) → items_len (to_items vs) ≡ length vs
  items_len-to_items [] = refl
  items_len-to_items (v ∷ vs) = omega (arith, items_len-to_items vs)

module _ {N : Type 0} (lib : SerdeJson N) where
  insert_variant-forms :
      (n : ℕ) (v : Value N) (vs : List (Value N))
      → IsForm n v
      → All (IsForm n) vs
      → All (IsForm n) (insert_variant lib v vs)
        × (length (insert_variant lib v vs) ≡ suc (length vs))
  unfolding insert_variant
  insert_variant-forms n v [] h a = ((h, a), refl)
  insert_variant-forms n v (w ∷ ws) h (b, a) =
      let (rest, size) = insert_variant-forms n v ws h a in
      elim (compare_text (lib.to_string v) (lib.to_string w))
        as (λ o.
          let out : List (Value N) = elim o [
            | Ordering.gt ↦ w ∷ insert_variant lib v ws
            | _ ↦ v ∷ w ∷ ws
          ] in
          All (IsForm n) out × (length out ≡ suc (suc (length ws)))) [
            | Ordering.gt ↦ ((b, rest), omega (arith, size))
            | Ordering.lt ↦ ((h, (b, a)), refl)
            | Ordering.eq ↦ ((h, (b, a)), refl)
          ]

  pub sort_variants-forms :
      (n : ℕ) (vs : List (Value N))
      → All (IsForm n) vs
      → All (IsForm n) (sort_variants lib vs) × (length (sort_variants lib vs) ≡ length vs)
  unfolding sort_variants
  sort_variants-forms n [] h = (tt, refl)
  sort_variants-forms n (v ∷ vs) (a, h) =
      let (rest, size) = sort_variants-forms n vs h in
      let (all, long) = insert_variant-forms n v (sort_variants lib vs) a rest in
      (all, omega (arith, long, size))

  module _ (number_eq : N → N → Bool) where
    -- While the loop goes on there are at most sixteen forms, and one more marks its end.
    abbrev pub IsRunning : ℕ → List (Value N) × Bool → Type 0
    IsRunning n (vs, goes_on) = All (IsForm n) vs × (length vs ≤ (if goes_on then 16 else 17))

    pub add_variant-IsRunning :
        (n : ℕ) (shape : Value N) (vs : List (Value N))
        → 0 < n
        → IsForm n shape
        → All (IsForm n) vs
        → length vs ≤ 16
        → IsRunning n (add_variant lib number_eq shape vs)
    add_variant-IsRunning n shape vs hn f a h =
        elim (Bool-cases (contains_value number_eq shape vs)) [
          | inl old ↦ rw old (a, h)
          | inr new ↦ elim (Bool-cases (leb max_array_variants (length vs))) [
            | inl full ↦
                rw (new, full)
                  (
                    All-append n vs (string (codes "variant_limit") ∷ []) a ((hn, refl), tt),
                    omega (arith, length-append vs (string (codes "variant_limit") ∷ [])),
                  )
            | inr room ↦
                rw (new, room)
                  (
                    All-append n vs (shape ∷ []) a (f, tt),
                    ground (arith, length-append vs (shape ∷ [])),
                  )
          ]
        ]

    pub limit_depth-IsForm :
        (depth n : ℕ) (shape : Value N)
        → depth + n ≡ 17
        → 0 < n
        → (1 < n → IsForm n shape)
        → IsForm n (limit_depth lib number_eq depth shape)
    limit_depth-IsForm depth n shape e h f = elim (Bool-cases (leb max_shape_depth depth)) [
      | inl deep ↦ rw deep (h, refl)
      | inr flat ↦ rw flat (f (ground arith))
    ]
