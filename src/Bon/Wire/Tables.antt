-- ===== src/Bon/Wire/Tables.antt =====
-- How the string table grows along a value.
use koc_core.Common.{
  ℕ, suc, ◌+◌, ◌≤◌, ◌≡◌, refl, none, some, ◌∷◌, length, arith, Option-cases, inl, inr,
}
use koc_core.Json.{
  Text, Value, null, bool, number, string, array, object, Items, no_items, item, JsonMap,
  no_entries, entry,
}
use koc_core.Bon.Encoder.{StrMap, index_of}
use koc_core.Bon.Table.{IsNumbered}
use koc_core.Bon.Wire.{
  table_string, table, table_items, table_entries, nodes, nodes_items, nodes_entries,
}

pub table_string-new :
    (m : StrMap) (s : Text) → index_of s m ≡ none → table_string m s ≡ (s, length m) ∷ m
unfolding table_string
table_string-new m s new = rw (new, table_string)

pub table_string-old :
    (m : StrMap) (s : Text) (i : ℕ) → index_of s m ≡ some i → table_string m s ≡ m
unfolding table_string
table_string-old m s i old = rw (old, table_string)

pub table_string-IsNumbered : (m : StrMap) (s : Text) → IsNumbered m → IsNumbered (table_string m s)
table_string-IsNumbered m s h = elim (Option-cases (index_of s m)) [
  | inl new ↦ rw (table_string-new m s new) (refl, h)
  | inr (i, old) ↦ rw (table_string-old m s i old) h
]

pub table_string-le : (m : StrMap) (s : Text) → length (table_string m s) ≤ suc (length m)
table_string-le m s = elim (Option-cases (index_of s m)) [
  | inl new ↦ rw (table_string-new m s new) (omega arith)
  | inr (i, old) ↦ rw (table_string-old m s i old) (omega arith)
]

module _ {N : Type 0} where
  mutual
    unfolding table

    pub table-IsNumbered : (v : Value N) (m : StrMap) → IsNumbered m → IsNumbered (table m v)
    table-IsNumbered null m h = h
    table-IsNumbered (bool b) m h = h
    table-IsNumbered (number n) m h = h
    table-IsNumbered (string s) m h = table_string-IsNumbered m s h
    table-IsNumbered (array vs) m h = table_items-IsNumbered vs m h
    table-IsNumbered (object e) m h = table_entries-IsNumbered e m h

    pub table_items-IsNumbered :
        (vs : Items N) (m : StrMap) → IsNumbered m → IsNumbered (table_items m vs)
    table_items-IsNumbered no_items m h = h
    table_items-IsNumbered (item v vs) m h =
        table_items-IsNumbered vs (table m v) (table-IsNumbered v m h)

    pub table_entries-IsNumbered :
        (e : JsonMap N) (m : StrMap) → IsNumbered m → IsNumbered (table_entries m e)
    table_entries-IsNumbered no_entries m h = h
    table_entries-IsNumbered (entry k v e) m h =
        table_entries-IsNumbered e (table (table_string m k) v)
          (table-IsNumbered v (table_string m k) (table_string-IsNumbered m k h))

  mutual
    unfolding table nodes

    pub table-le : (v : Value N) (m : StrMap) → length (table m v) ≤ length m + nodes v
    table-le null m = omega arith
    table-le (bool b) m = omega arith
    table-le (number n) m = omega arith
    table-le (string s) m = omega (arith, table_string-le m s)
    table-le (array vs) m = omega (arith, table_items-le vs m)
    table-le (object e) m = omega (arith, table_entries-le e m)

    pub table_items-le :
        (vs : Items N) (m : StrMap) → length (table_items m vs) ≤ length m + nodes_items vs
    table_items-le no_items m = omega arith
    table_items-le (item v vs) m = omega (arith, table-le v m, table_items-le vs (table m v))

    pub table_entries-le :
        (e : JsonMap N) (m : StrMap) → length (table_entries m e) ≤ length m + nodes_entries e
    table_entries-le no_entries m = omega arith
    table_entries-le (entry k v e) m = omega (
      arith,
      table_string-le m k,
      table-le v (table_string m k),
      table_entries-le e (table (table_string m k) v),
    )
