-- ===== src/Kpi/Daily/Dream/Wanted.antt =====
-- What `run_dream_shop_daily` of src/kpi.rs collects: what the list asks for and the merchants have.
use koc_core.Common.{
  ℕ, zero, suc, ◌+◌, ◌≡◌, refl, ap, ◌⊎◌, ◌↔◌, inl, inr, true, Bool-cases, Option, Option-cases,
  none, some, List, [], ◌∷◌, ◌++◌, arith,
}
use koc_core.Common.Results.{All}
use koc_core.Json.{Text, Value, array, Items, no_items, item, JsonMap}
use koc_core.Json.Maps.{get}
use koc_core.Protocol.Message.{and_then}
use koc_core.Kpi.Env.{Env, as_u64}
use koc_core.Kpi.Daily.Fights.{shown}
use koc_core.Kpi.Daily.Dream.{
  Operation, parse_dream_purchase_key, positions, as_array, operations_of, collect_operations,
  is_item,
}

abbrev pub IsAmong : Text → List Text → Type 0
IsAmong key [] = ⊥
IsAmong key (k ∷ ks) = (key ≡ k) ⊎ IsAmong key ks

abbrev pub IsIn : Operation → List Operation → Type 0
IsIn op [] = ⊥
IsIn op (x ∷ xs) = (op ≡ x) ⊎ IsIn op xs

pub All-append :
    {A : Type 0} (P : A → Type 0) (xs ys : List A) → All P xs → All P ys → All P (xs ++ ys)
All-append P [] ys h k = k
All-append P (x ∷ xs) ys (a, h) k = (a, All-append P xs ys h k)

All-map :
    {A : Type 0} (P Q : A → Type 0) (xs : List A) → ((x : A) → P x → Q x) → All P xs → All Q xs
All-map P Q [] f h = tt
All-map P Q (x ∷ xs) f (a, h) = (f x a, All-map P Q xs f h)

module _ {N : Type 0} (env : Env N) where
  abbrev pub IsAt : Items N → ℕ → Value N → Type 0
  IsAt no_items p v = ⊥
  IsAt (item u us) zero v = u ≡ v
  IsAt (item u us) (suc p) v = IsAt us p v

  -- A key of the list names the merchant and the item, and the merchant has the item there.
  abbrev pub IsWanted : JsonMap N → List Text → Operation → Type 0
  IsWanted merchant keys op =
      ((key : Text) × IsAmong key keys
        × (parse_dream_purchase_key key ≡ some (op.merchant_id, op.item_index)))
      × ((goods : Items N) × (get (shown op.merchant_id) merchant ≡ some (array goods))
          × ((v : Value N) × IsAt goods op.pos v × (as_u64 env v ≡ some op.item_index)))

  -- The operation is for an item of the goods, which stand from `start` on.
  abbrev IsFound : ℕ → ℕ → ℕ → Items N → Operation → Type 0
  IsFound m i start goods op =
      (op.merchant_id ≡ m)
      × (op.item_index ≡ i)
      × ((k : ℕ) × (op.pos ≡ start + k)
          × ((v : Value N) × IsAt goods k v × (as_u64 env v ≡ some i)))

  IsFound-item :
      (m i start : ℕ) (u : Value N) (us : Items N) (op : Operation)
      → IsFound m i (suc start) us op
      → IsFound m i start (item u us) op
  IsFound-item m i start u us op (same, index, (k, at, found)) =
      (same, index, (suc k, omega (arith, at), found))

  is_item-some : (i : ℕ) (o : Option ℕ) → is_item env i o ≡ true → o ≡ some i
  is_item-some i none h = cc
  is_item-some i (some j) h = ap some (ground arith)

  positions-IsFound :
      (m i start : ℕ) (goods : Items N)
      → All (IsFound m i start goods) (positions env m i start goods)
  unfolding positions
  positions-IsFound m i start no_items = tt
  positions-IsFound m i start (item u us) =
      let rest =
        All-map (IsFound m i (suc start) us) (IsFound m i start (item u us))
          (positions env m i (suc start) us) (IsFound-item m i start u us)
          (positions-IsFound m i (suc start) us) in
      elim (Bool-cases (is_item env i (as_u64 env u))) [
        | inl here ↦
            rw here
              ((refl, refl, (0, omega arith, (u, refl, is_item-some i (as_u64 env u) here))), rest)
        | inr other ↦ rw other rest
      ]

  as_array-some :
      (o : Option (Value N)) (goods : Items N)
      → and_then o (as_array env) ≡ some goods
      → o ≡ some (array goods)
  as_array-some none goods h = cc
  as_array-some (some (array vs)) goods h = ap (λ o. some (array o)) cc
  as_array-some (some v) goods h = cc

  IsFound-IsWanted :
      (merchant : JsonMap N) (key : Text) (keys : List Text) (m i : ℕ) (goods : Items N)
      → IsAmong key keys
      → parse_dream_purchase_key key ≡ some (m, i)
      → get (shown m) merchant ≡ some (array goods)
      → (op : Operation) → IsFound m i 0 goods op
      → IsWanted merchant keys op
  IsFound-IsWanted merchant key keys m i goods among parsed has op
        (same, index, (k, at, (v, there, reads))) =
      let place : k ≡ op.pos = omega (arith, at) in
      (
        (key, among, rw (same, index) parsed),
        (goods, rw same has, (v, rw (← place) there, rw index reads)),
      )

  operations_of-IsWanted :
      (merchant : JsonMap N) (key : Text) (keys : List Text)
      → IsAmong key keys
      → All (IsWanted merchant keys) (operations_of env merchant key)
  unfolding operations_of
  operations_of-IsWanted merchant key keys among =
      elim (Option-cases (parse_dream_purchase_key key)) [
        | inl none_key ↦ rw (none_key, operations_of) tt
        | inr ((m, i), parsed) ↦
            elim (Option-cases (and_then (get (shown m) merchant) (as_array env))) [
              | inl none_goods ↦ rw (parsed, operations_of, none_goods) tt
              | inr (goods, found) ↦
                  rw (parsed, operations_of, found)
                    (All-map (IsFound m i 0 goods) (IsWanted merchant keys)
                      (positions env m i 0 goods)
                      (IsFound-IsWanted merchant key keys m i goods among parsed
                        (as_array-some _ goods found))
                      (positions-IsFound m i 0 goods))
            ]
      ]

  -- The keys that are left are among all keys.
  pub collect_operations-IsWanted :
      (merchant : JsonMap N) (keys rest : List Text)
      → ((key : Text) → IsAmong key rest → IsAmong key keys)
      → All (IsWanted merchant keys) (collect_operations env merchant rest)
  unfolding collect_operations
  collect_operations-IsWanted merchant keys [] sub = tt
  collect_operations-IsWanted merchant keys (key ∷ rest) sub =
      All-append (IsWanted merchant keys) (operations_of env merchant key) _
        (operations_of-IsWanted merchant key keys (sub key (inl refl)))
        (collect_operations-IsWanted merchant keys rest (λ k h. sub k (inr h)))

  IsIn-append_left : (op : Operation) (xs ys : List Operation) → IsIn op xs → IsIn op (xs ++ ys)
  IsIn-append_left op [] ys h = elim h [ ]
  IsIn-append_left op (x ∷ xs) ys (inl same) = inl same
  IsIn-append_left op (x ∷ xs) ys (inr h) = inr (IsIn-append_left op xs ys h)

  IsIn-append_right : (op : Operation) (xs ys : List Operation) → IsIn op ys → IsIn op (xs ++ ys)
  IsIn-append_right op [] ys h = h
  IsIn-append_right op (x ∷ xs) ys h = inr (IsIn-append_right op xs ys h)

  IsIn-All :
      (P : Operation → Type 0) (op : Operation) (xs : List Operation) → All P xs → IsIn op xs → P op
  IsIn-All P op [] all h = elim h [ ]
  IsIn-All P op (x ∷ xs) (a, all) (inl same) = rw same a
  IsIn-All P op (x ∷ xs) (a, all) (inr h) = IsIn-All P op xs all h

  same_operation :
      (op : Operation) (m i p : ℕ)
      → op.merchant_id ≡ m
      → op.item_index ≡ i
      → op.pos ≡ p
      → op ≡ record { merchant_id = m; item_index = i; pos = p }
  same_operation op m i p same index at = rw (← same, ← index, ← at) refl

  -- Every place at which the goods have the item is found.
  IsFound-IsIn :
      (m i start : ℕ) (goods : Items N) (op : Operation)
      → IsFound m i start goods op
      → IsIn op (positions env m i start goods)
  unfolding positions
  IsFound-IsIn m i start no_items op (same, index, (k, at, (v, there, reads))) = elim there [ ]
  IsFound-IsIn m i start (item u us) op (same, index, (zero, at, (v, there, reads))) =
      let here : is_item env i (as_u64 env u) ≡ true = rw (there, reads) (ground arith) in
      rw here (inl (same_operation op m i start same index (omega (arith, at))))
  IsFound-IsIn m i start (item u us) op (same, index, (suc k, at, (v, there, reads))) =
      let rest =
        IsFound-IsIn m i (suc start) us op
          (same, index, (k, omega (arith, at), (v, there, reads))) in
      elim (Bool-cases (is_item env i (as_u64 env u))) [
        | inl here ↦ rw here (inr rest)
        | inr other ↦ rw other rest
      ]

  operations_of-IsIn :
      (merchant : JsonMap N) (key : Text) (op : Operation) (goods : Items N) (v : Value N)
      → parse_dream_purchase_key key ≡ some (op.merchant_id, op.item_index)
      → get (shown op.merchant_id) merchant ≡ some (array goods)
      → IsAt goods op.pos v
      → as_u64 env v ≡ some op.item_index
      → IsIn op (operations_of env merchant key)
  unfolding operations_of
  operations_of-IsIn merchant key op goods v parsed has there reads =
      rw (parsed, operations_of, has)
        (IsFound-IsIn op.merchant_id op.item_index 0 goods op
          (refl, refl, (op.pos, omega arith, (v, there, reads))))

  collect_operations-IsIn :
      (merchant : JsonMap N) (keys : List Text) (op : Operation)
      → IsWanted merchant keys op
      → IsIn op (collect_operations env merchant keys)
  unfolding collect_operations
  collect_operations-IsIn merchant [] op ((key, among, parsed), found) = elim among [ ]
  collect_operations-IsIn merchant (k ∷ keys) op
        ((key, inl same, parsed), (goods, has, (v, there, reads))) =
      IsIn-append_left op (operations_of env merchant k) _
        (operations_of-IsIn merchant k op goods v (rw (← same) parsed) has there reads)
  collect_operations-IsIn merchant (k ∷ keys) op ((key, inr among, parsed), found) =
      IsIn-append_right op (operations_of env merchant k) _
        (collect_operations-IsIn merchant keys op ((key, among, parsed), found))

  -- A purchase is collected exactly if a key of the list names its merchant and its item and that
  -- merchant has the item at its position.
  pub collect_operations_iff :
      (merchant : JsonMap N) (keys : List Text) (op : Operation)
      → IsIn op (collect_operations env merchant keys) ↔ IsWanted merchant keys op
  collect_operations_iff merchant keys op = (
    IsIn-All (IsWanted merchant keys) op (collect_operations env merchant keys)
        (collect_operations-IsWanted merchant keys keys (λ k h. h)),
    collect_operations-IsIn merchant keys op,
  )
