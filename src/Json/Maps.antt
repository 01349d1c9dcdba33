-- ===== src/Json/Maps.antt =====
-- `serde_json::Map` is a `BTreeMap<String, Value>`: sorted by key, one entry to a key.
pub mod Order
use Prim.Native.Nat.{compare, Ordering}
use koc_core.Common.{ℕ, suc, ◌≡◌, Option, none, some, [], ◌∷◌}
use koc_core.Json.{Text, Value, Items, no_items, item, JsonMap, no_entries, entry}

-- `str` compares by bytes.
unfoldable pub compare_text : Text → Text → Ordering
compare_text [] [] = Ordering.eq
compare_text [] (b ∷ bs) = Ordering.lt
compare_text (a ∷ as') [] = Ordering.gt
compare_text (a ∷ as') (b ∷ bs) = elim (compare a b) [
  | Ordering.lt ↦ Ordering.lt
  | Ordering.eq ↦ compare_text as' bs
  | Ordering.gt ↦ Ordering.gt
]

module _ {N : Type 0} where
  unfoldable pub insert : Text → Value N → JsonMap N → JsonMap N
  insert k v no_entries = entry k v no_entries
  insert k v (entry j w m) = elim (compare_text k j) [
    | Ordering.lt ↦ entry k v (entry j w m)
    | Ordering.eq ↦ entry j v m
    | Ordering.gt ↦ entry j w (insert k v m)
  ]

  unfoldable pub get : Text → JsonMap N → Option (Value N)
  get k no_entries = none
  get k (entry j w m) = elim (compare_text k j) [ Ordering.eq ↦ some w | _ ↦ get k m ]

  abbrev pub items_len : Items N → ℕ
  items_len no_items = 0
  items_len (item v vs) = suc (items_len vs)

  abbrev pub map_len : JsonMap N → ℕ
  map_len no_entries = 0
  map_len (entry k v m) = suc (map_len m)

  -- `m` followed by `m'`.
  abbrev pub append_map : JsonMap N → JsonMap N → JsonMap N
  append_map no_entries m' = m'
  append_map (entry k v m) m' = entry k v (append_map m m')

  -- Every key of `m` is below `k`.
  abbrev pub Below : Text → JsonMap N → Type 0
  Below k no_entries = Unit
  Below k (entry j w m) = (compare_text k j ≡ Ordering.gt) × Below k m

  -- Every key of `m` is above `k`.
  abbrev pub Above : Text → JsonMap N → Type 0
  Above k no_entries = Unit
  Above k (entry j w m) = (compare_text j k ≡ Ordering.gt) × Above k m

  -- The keys ascend, as those of every `BTreeMap` do.
  abbrev pub IsSorted : JsonMap N → Type 0
  IsSorted no_entries = Unit
  IsSorted (entry k v m) = Above k m × IsSorted m
