-- ===== src/Config/Windows/Merge.antt =====
-- Merging intervals: what is covered stays covered, and what is left is separated.
use koc_core.Common.{
  ℕ, suc, ◌≤◌, ◌<◌, ◌≡◌, refl, sym, ◌∙◌, Bool, true, false, List, [], ◌∷◌, ltb, leb, ◌&&◌, ◌||◌,
  Bool-cases, inl, inr, arith,
}
use koc_core.Config.Windows.{Interval, insert_by_start, sort_by_start, merge_into, merge_all}

-- A minute is within an interval, and within one of some intervals.
abbrev pub within : ℕ → ℕ → ℕ → Bool
within t s e = leb s t && ltb t e

abbrev pub covers : ℕ → List Interval → Bool
covers t [] = false
covers t ((s, e) ∷ is') = within t s e || covers t is'

-- Each interval is not empty, and starts above the end of the one before.
abbrev pub IsSeparated : ℕ → List Interval → Type 0
IsSeparated lo [] = Unit
IsSeparated lo ((s, e) ∷ is') = (lo ≤ s) × (s < e) × IsSeparated (suc e) is'

-- The starts rise from `lo`, and no interval is empty.
abbrev pub IsAscending : ℕ → List Interval → Type 0
IsAscending lo [] = Unit
IsAscending lo ((s, e) ∷ is') = (lo ≤ s) × (s < e) × IsAscending s is'

abbrev pub IsProper : List Interval → Type 0
IsProper [] = Unit
IsProper ((s, e) ∷ is') = (s < e) × (e < 1440) × IsProper is'

-- No start is above `hi`.
abbrev StartsBelow : ℕ → List Interval → Type 0
StartsBelow hi [] = Unit
StartsBelow hi ((s, e) ∷ is') = (s ≤ hi) × StartsBelow hi is'

or_swap : (a b c : Bool) → (a || (b || c)) ≡ (b || (a || c))
or_swap true true c = refl
or_swap true false c = refl
or_swap false b c = refl

or_flip : (a b c : Bool) → (a || (b || c)) ≡ ((a || b) || c)
or_flip true b c = refl
or_flip false b c = refl

pub or_false : (a : Bool) → (a || false) ≡ a
or_false true = refl
or_false false = refl

pub or_assoc : (a b c : Bool) → ((a || b) || c) ≡ (a || (b || c))
or_assoc true b c = refl
or_assoc false b c = refl

covers-insert_by_start :
    (t s e : ℕ) (is' : List Interval)
    → covers t (insert_by_start (s, e) is') ≡ (within t s e || covers t is')
unfolding insert_by_start
covers-insert_by_start t s e [] = refl
covers-insert_by_start t s e ((s', e') ∷ is') = elim (Bool-cases (leb s s')) [
  | inl first ↦ rw first refl
  | inr later ↦
      rw (later, covers-insert_by_start t s e is')
        (or_swap (within t s' e') (within t s e) (covers t is'))
]

pub covers-sort_by_start :
    (t : ℕ) (is' : List Interval) → covers t (sort_by_start is') ≡ covers t is'
unfolding sort_by_start
covers-sort_by_start t [] = refl
covers-sort_by_start t ((s, e) ∷ is') =
    rw (covers-insert_by_start t s e (sort_by_start is'), covers-sort_by_start t is')

insert-IsAscending :
    (lo s e : ℕ) (is' : List Interval)
    → lo ≤ s
    → s < e
    → IsAscending lo is'
    → IsAscending lo (insert_by_start (s, e) is')
unfolding insert_by_start
insert-IsAscending lo s e [] h k a = (h, k, tt)
insert-IsAscending lo s e ((s', e') ∷ is') h k (a, b, c) = elim (Bool-cases (leb s s')) [
  | inl first ↦ rw first (h, k, (ground arith, b, c))
  | inr later ↦ rw later (a, b, insert-IsAscending s' s e is' (ground arith) k c)
]

pub sort_by_start-IsAscending :
    (is' : List Interval) → IsProper is' → IsAscending 0 (sort_by_start is')
unfolding sort_by_start
sort_by_start-IsAscending [] p = tt
sort_by_start-IsAscending ((s, e) ∷ is') (k, _, p) =
    insert-IsAscending 0 s e (sort_by_start is') (omega arith) k (sort_by_start-IsAscending is' p)

-- An interval that starts no earlier than the merged ones is added to what they cover.
covers-merge_into :
    (t s e : ℕ) (m : List Interval)
    → s < e
    → StartsBelow s m
    → IsSeparated 0 m
    → covers t (merge_into m s e) ≡ (covers t m || within t s e)
unfolding merge_into
covers-merge_into t s e [] k h q = ground arith
covers-merge_into t s e ((a, b) ∷ []) k (h, _) q = ground arith
covers-merge_into t s e ((a, b) ∷ (c, d) ∷ m) k (h, hs) (_, _, (_, q, qs)) =
    rw (covers-merge_into t s e ((c, d) ∷ m) k hs (omega arith, q, qs))
      (or_flip (within t a b) (covers t ((c, d) ∷ m)) (within t s e))

StartsBelow-mono : (lo hi : ℕ) (m : List Interval) → lo ≤ hi → StartsBelow lo m → StartsBelow hi m
StartsBelow-mono lo hi [] h b = tt
StartsBelow-mono lo hi ((s, e) ∷ m) h (b, bs) = (omega arith, StartsBelow-mono lo hi m h bs)

merge_into-StartsBelow :
    (s e : ℕ) (m : List Interval) → StartsBelow s m → StartsBelow s (merge_into m s e)
unfolding merge_into
merge_into-StartsBelow s e [] h = (omega arith, tt)
merge_into-StartsBelow s e ((a, b) ∷ []) (h, _) = elim (Bool-cases (leb s b)) [
  | inr apart ↦ rw apart (h, (omega arith, tt))
  | inl touching ↦ elim (Bool-cases (ltb b e)) [
    | inl longer ↦ rw (touching, longer) (h, tt)
    | inr shorter ↦ rw (touching, shorter) (h, tt)
  ]
]
merge_into-StartsBelow s e ((a, b) ∷ i ∷ m) (h, hs) = (h, merge_into-StartsBelow s e (i ∷ m) hs)

merge_into-IsSeparated :
    (lo s e : ℕ) (m : List Interval)
    → lo ≤ s
    → s < e
    → StartsBelow s m
    → IsSeparated lo m
    → IsSeparated lo (merge_into m s e)
unfolding merge_into
merge_into-IsSeparated lo s e [] l k h q = (l, k, tt)
merge_into-IsSeparated lo s e ((a, b) ∷ []) l k (h, _) (p, q, _) = elim (Bool-cases (leb s b)) [
  | inr apart ↦ rw apart (p, q, (ground arith, k, tt))
  | inl touching ↦ elim (Bool-cases (ltb b e)) [
    | inl longer ↦ rw (touching, longer) (p, omega arith, tt)
    | inr shorter ↦ rw (touching, shorter) (p, q, tt)
  ]
]
merge_into-IsSeparated lo s e ((a, b) ∷ (c, d) ∷ m) l k (h, (h1, hs)) (p, q, (r, r1, rs)) =
    (p, q, merge_into-IsSeparated (suc b) s e ((c, d) ∷ m) (omega arith) k (h1, hs) (r, r1, rs))

covers-merge_all :
    (t lo : ℕ) (m is' : List Interval)
    → StartsBelow lo m
    → IsSeparated 0 m
    → IsAscending lo is'
    → covers t (merge_all m is') ≡ (covers t m || covers t is')
unfolding merge_all
covers-merge_all t lo m [] h q a = sym (or_false (covers t m))
covers-merge_all t lo m ((s, e) ∷ is') h q (l, k, a) =
    let h' = StartsBelow-mono lo s m l h in
    covers-merge_all t s (merge_into m s e) is' (merge_into-StartsBelow s e m h')
      (merge_into-IsSeparated 0 s e m (omega arith) k h' q) a
    ∙ rw (covers-merge_into t s e m k h' q) (or_assoc (covers t m) (within t s e) (covers t is'))

merge_all-IsSeparated :
    (lo : ℕ) (m is' : List Interval)
    → StartsBelow lo m
    → IsSeparated 0 m
    → IsAscending lo is'
    → IsSeparated 0 (merge_all m is')
unfolding merge_all
merge_all-IsSeparated lo m [] h q a = q
merge_all-IsSeparated lo m ((s, e) ∷ is') h q (l, k, a) =
    let h' = StartsBelow-mono lo s m l h in
    merge_all-IsSeparated s (merge_into m s e) is' (merge_into-StartsBelow s e m h')
      (merge_into-IsSeparated 0 s e m (omega arith) k h' q) a

-- Sorting and merging intervals that are not empty and end within the day keeps the minutes that they cover, and leaves
-- intervals in rising order with a gap between any two.
pub merge_all-sort_by_start :
    (is' : List Interval)
    → IsProper is'
    → ((t : ℕ) → covers t (merge_all [] (sort_by_start is')) ≡ covers t is')
      × IsSeparated 0 (merge_all [] (sort_by_start is'))
merge_all-sort_by_start is' p =
    let a = sort_by_start-IsAscending is' p in
    (
      (λ t. covers-merge_all t 0 [] (sort_by_start is') tt tt a ∙ covers-sort_by_start t is'),
      merge_all-IsSeparated 0 [] (sort_by_start is') tt tt a,
    )

-- No interval reaches the end of the day.
abbrev pub EndsInDay : List Interval → Type 0
EndsInDay [] = Unit
EndsInDay ((s, e) ∷ is') = (e < 1440) × EndsInDay is'

pub IsProper-EndsInDay : (is' : List Interval) → IsProper is' → EndsInDay is'
IsProper-EndsInDay [] p = tt
IsProper-EndsInDay ((s, e) ∷ is') (_, k, p) = (k, IsProper-EndsInDay is' p)

insert-EndsInDay :
    (s e : ℕ) (is' : List Interval)
    → e < 1440
    → EndsInDay is'
    → EndsInDay (insert_by_start (s, e) is')
unfolding insert_by_start
insert-EndsInDay s e [] h p = (h, tt)
insert-EndsInDay s e ((s', e') ∷ is') h (q, p) = elim (Bool-cases (leb s s')) [
  | inl first ↦ rw first (h, (q, p))
  | inr later ↦ rw later (q, insert-EndsInDay s e is' h p)
]

sort-EndsInDay : (is' : List Interval) → EndsInDay is' → EndsInDay (sort_by_start is')
unfolding sort_by_start
sort-EndsInDay [] p = tt
sort-EndsInDay ((s, e) ∷ is') (h, p) =
    insert-EndsInDay s e (sort_by_start is') h (sort-EndsInDay is' p)

merge_into-EndsInDay :
    (s e : ℕ) (m : List Interval) → e < 1440 → EndsInDay m → EndsInDay (merge_into m s e)
unfolding merge_into
merge_into-EndsInDay s e [] h p = (h, tt)
merge_into-EndsInDay s e ((a, b) ∷ []) h (q, _) = elim (Bool-cases (leb s b)) [
  | inr apart ↦ rw apart (q, (h, tt))
  | inl touching ↦ elim (Bool-cases (ltb b e)) [
    | inl longer ↦ rw (touching, longer) (h, tt)
    | inr shorter ↦ rw (touching, shorter) (q, tt)
  ]
]
merge_into-EndsInDay s e ((a, b) ∷ i ∷ m) h (q, p) = (q, merge_into-EndsInDay s e (i ∷ m) h p)

merge_all-EndsInDay :
    (m is' : List Interval) → EndsInDay m → EndsInDay is' → EndsInDay (merge_all m is')
unfolding merge_all
merge_all-EndsInDay m [] p q = p
merge_all-EndsInDay m ((s, e) ∷ is') p (h, q) =
    merge_all-EndsInDay (merge_into m s e) is' (merge_into-EndsInDay s e m h p) q

pub merged-EndsInDay :
    (is' : List Interval) → EndsInDay is' → EndsInDay (merge_all [] (sort_by_start is'))
merged-EndsInDay is' p = merge_all-EndsInDay [] (sort_by_start is') tt (sort-EndsInDay is' p)
