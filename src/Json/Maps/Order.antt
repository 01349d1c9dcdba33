-- ===== src/Json/Maps/Order.antt =====
-- Inserting into a sorted map, and looking up.
use Prim.Native.Nat.{Ordering}
use koc_core.Common.{◌≡◌, refl, ap, [], ◌∷◌, arith}
use koc_core.Json.{Text, Value, JsonMap, no_entries, entry}
use koc_core.Json.Maps.{compare_text, insert, append_map, Below, Above}

pub compare_text_refl : (a : Text) → compare_text a a ≡ Ordering.eq
unfolding compare_text
compare_text_refl [] = refl
compare_text_refl (x ∷ a) = ground (arith, compare_text_refl a)

module _ {N : Type 0} where
  -- A key above all others goes to the end.
  pub insert-Below :
      (k : Text) (v : Value N) (m : JsonMap N)
      → Below k m
      → insert k v m ≡ append_map m (entry k v no_entries)
  unfolding insert
  insert-Below k v no_entries h = refl
  insert-Below k v (entry j w m) h = rw (h.0, insert, insert-Below k v m h.1)

  pub append_map_assoc :
      (a b c : JsonMap N) → append_map (append_map a b) c ≡ append_map a (append_map b c)
  append_map_assoc no_entries b c = refl
  append_map_assoc (entry k v a) b c = ap (entry k v) (append_map_assoc a b c)

  pub Below-append : (k : Text) (a b : JsonMap N) → Below k a → Below k b → Below k (append_map a b)
  Below-append k no_entries b h g = g
  Below-append k (entry j w a) b h g = (h.0, Below-append k a b h.1 g)

  -- Every key of `e` is above all of `acc`.
  abbrev pub AllAbove : JsonMap N → JsonMap N → Type 0
  AllAbove acc no_entries = Unit
  AllAbove acc (entry k v e) = Below k acc × AllAbove acc e

  pub AllAbove-push :
      (k : Text) (v : Value N) (acc e : JsonMap N)
      → AllAbove acc e
      → Above k e
      → AllAbove (append_map acc (entry k v no_entries)) e
  AllAbove-push k v acc no_entries h g = tt
  AllAbove-push k v acc (entry j w e) h g =
      (Below-append j acc (entry k v no_entries) h.0 (g.0, tt), AllAbove-push k v acc e h.1 g.1)

  pub AllAbove-nothing : (e : JsonMap N) → AllAbove no_entries e
  AllAbove-nothing no_entries = tt
  AllAbove-nothing (entry k v e) = (tt, AllAbove-nothing e)

  pub append_map-nothing : (a : JsonMap N) → append_map a no_entries ≡ a
  append_map-nothing no_entries = refl
  append_map-nothing (entry k v a) = ap (entry k v) (append_map-nothing a)
