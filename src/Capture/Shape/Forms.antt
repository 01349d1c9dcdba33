-- ===== src/Capture/Shape/Forms.antt =====
-- `value_shape` and the forms of Bounds.
use koc_core.Common.{
  ℕ, zero, suc, ◌+◌, ◌-◌, ◌≤◌, ◌<◌, ◌≡◌, refl, Bool, true, List, [], length, ltb, Bool-cases, inl,
  inr, arith,
}
use koc_core.Common.Codes.{codes}
use koc_core.Common.Results.{All}
use koc_core.Json.{
  Value, null, bool, number, string, array, object, Items, no_items, item, JsonMap, no_entries,
  entry, SerdeJson,
}
use koc_core.Json.Maps.{insert, map_len}
use koc_core.Capture.Shape.{
  to_items, sort_variants, add_variant, finish_object, value_shape, item_shapes, field_shapes,
  schema_key, max_shape_fields,
}
use koc_core.Capture.Shape.Bounds.{
  IsForm, FormFields, insert-FormFields, map_len-insert, to_items-AllForms, items_len-to_items,
  sort_variants-forms, add_variant-IsRunning, limit_depth-IsForm,
}

module _ {N : Type 0} (lib : SerdeJson N) (number_eq : N → N → Bool) where
  finish_object-IsForm :
      (n fields : ℕ) (m : JsonMap N)
      → 0 < n
      → FormFields (n - 1) m
      → map_len m ≤ 256
      → IsForm n (finish_object lib number_eq fields m)
  finish_object-IsForm n fields m h f l = elim (Bool-cases (ltb max_shape_fields fields)) [
    | inl cut ↦ rw cut (
      h,
      omega (arith, l, map_len-insert (codes "$truncated") (bool true) m),
      insert-FormFields (n - 1) (codes "$truncated") (bool true) m (inr (refl, refl)) f,
    )
    | inr whole ↦ rw whole (h, omega (arith, l), f)
  ]

  sorted-IsForm :
      (n : ℕ) (vs : List (Value N))
      → 0 < n
      → All (IsForm (n - 1)) vs
      → length vs ≤ 17
      → IsForm n (array (to_items (sort_variants lib vs)))
  sorted-IsForm n vs h a l =
      let (all, size) = sort_variants-forms lib (n - 1) vs a in
      (
        h,
        omega (arith, size, l, items_len-to_items (sort_variants lib vs)),
        to_items-AllForms (n - 1) (sort_variants lib vs) all,
      )

  mutual
    unfolding value_shape

    value_shape-IsForm :
        (v : Value N) (depth n : ℕ)
        → depth + n ≡ 17
        → 0 < n
        → IsForm n (value_shape lib number_eq depth v)
    value_shape-IsForm null depth n e h =
        limit_depth-IsForm lib number_eq depth n (string (codes "null")) e h (λ _. (h, refl))
    value_shape-IsForm (bool b) depth n e h =
        limit_depth-IsForm lib number_eq depth n (string (codes "boolean")) e h (λ _. (h, refl))
    value_shape-IsForm (number k) depth n e h =
        limit_depth-IsForm lib number_eq depth n (string (codes "number")) e h (λ _. (h, refl))
    value_shape-IsForm (string s) depth n e h =
        limit_depth-IsForm lib number_eq depth n (string (codes "string")) e h (λ _. (h, refl))
    value_shape-IsForm (array vs) depth n e h =
        limit_depth-IsForm lib number_eq depth n _ e h (λ deep.
          let (all, size) =
            item_shapes-forms vs (suc depth) (n - 1) 256 [] (omega (arith, e, deep))
              (omega (arith, deep)) tt (omega arith) in
          sorted-IsForm n (item_shapes lib number_eq (suc depth) 256 [] vs) h all size)
    value_shape-IsForm (object m) depth n e h =
        limit_depth-IsForm lib number_eq depth n _ e h (λ deep.
          let (all, size) =
            field_shapes-forms m (suc depth) (n - 1) 256 no_entries (omega (arith, e, deep))
              (omega (arith, deep)) tt in
          finish_object-IsForm n (map_len m)
            (field_shapes lib number_eq (suc depth) 256 no_entries m) h all size)

    item_shapes-forms :
        (vs : Items N) (depth n left : ℕ) (variants : List (Value N))
        → depth + n ≡ 17
        → 0 < n
        → All (IsForm n) variants
        → length variants ≤ 16
        → All (IsForm n) (item_shapes lib number_eq depth left variants vs)
          × (length (item_shapes lib number_eq depth left variants vs) ≤ 17)
    item_shapes-forms no_items depth n left variants e h a l = (a, omega (arith, l))
    item_shapes-forms (item v vs) depth n zero variants e h a l = (a, omega (arith, l))
    item_shapes-forms (item v vs) depth n (suc left) variants e h a l =
        let shape = value_shape lib number_eq depth v in
        let added = add_variant lib number_eq shape variants in
        let (all, size) =
          add_variant-IsRunning lib number_eq n shape variants h (value_shape-IsForm v depth n e h)
            a l in
        elim (Bool-cases added.1) [
          | inl on ↦ rw on (item_shapes-forms vs depth n left added.0 e h all (rw on at size))
          | inr off ↦ rw off (all, (rw off at size))
        ]

    field_shapes-forms :
        (m : JsonMap N) (depth n left : ℕ) (shape : JsonMap N)
        → depth + n ≡ 17
        → 0 < n
        → FormFields n shape
        → FormFields n (field_shapes lib number_eq depth left shape m)
          × (map_len (field_shapes lib number_eq depth left shape m) ≤ map_len shape + left)
    field_shapes-forms no_entries depth n left shape e h a = (a, omega arith)
    field_shapes-forms (entry key v m) depth n zero shape e h a = (a, omega arith)
    field_shapes-forms (entry key v m) depth n (suc left) shape e h a =
        let form = value_shape lib number_eq depth v in
        let next = insert (schema_key key) form shape in
        let (all, size) = field_shapes-forms m depth n left next e h (
          insert-FormFields n (schema_key key) form shape (inl (value_shape-IsForm v depth n e h))
            a) in
        (all, omega (arith, size, map_len-insert (schema_key key) form shape))

  -- The shape of any value nests at most seventeen deep, its arrays have at most 17 items and its
  -- objects at most 257 fields. Its leaves are the names of types, the two marks of a limit, and
  -- `true` under the key `$truncated`; it says nothing of the names of the fields.
  pub value_shape-IsForm_root : (v : Value N) → IsForm 17 (value_shape lib number_eq 0 v)
  value_shape-IsForm_root v = value_shape-IsForm v 0 17 (omega arith) (omega arith)
