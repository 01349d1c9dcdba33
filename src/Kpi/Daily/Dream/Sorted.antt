-- ===== src/Kpi/Daily/Dream/Sorted.antt =====
-- The order in which `run_dream_shop_daily` of src/kpi.rs buys.
use mathlib.Core.List.{Perm}
use mathlib.Core.List.Perm
use koc_core.Common.{◌<◌, ◌≤◌, ◌⊎◌, ◌≡◌, true, false, List, [], ◌∷◌, inl, inr, Bool-cases, arith}
use koc_core.Common.Results.{All}
use koc_core.Kpi.Daily.Dream.{Operation, before, insert_operation, sort_operations}

-- By merchant, and at one merchant from the last position to the first.
abbrev pub IsBefore : Operation → Operation → Type 0
IsBefore a b = (a.merchant_id < b.merchant_id) ⊎ ((a.merchant_id ≡ b.merchant_id) × (b.pos ≤ a.pos))

abbrev pub IsOrdered : List Operation → Type 0
IsOrdered [] = Unit {0}
IsOrdered (a ∷ as') = All (IsBefore a) as' × IsOrdered as'

before-IsBefore : (a b : Operation) → before a b ≡ true → IsBefore a b
before-IsBefore a b h = ground arith

before_total : (a b : Operation) → before a b ≡ false → IsBefore b a
before_total a b h = ground arith

IsBefore-trans : (a b c : Operation) → IsBefore a b → IsBefore b c → IsBefore a c
IsBefore-trans a b c h k = ground arith

All-IsBefore :
    (a b : Operation) (cs : List Operation)
    → IsBefore a b
    → All (IsBefore b) cs
    → All (IsBefore a) cs
All-IsBefore a b [] h all = tt
All-IsBefore a b (c ∷ cs) h all = (IsBefore-trans a b c h all.0, All-IsBefore a b cs h all.1)

All-insert_operation :
    (P : Operation → Type 0) (a : Operation) (bs : List Operation)
    → P a
    → All P bs
    → All P (insert_operation a bs)
unfolding insert_operation
All-insert_operation P a [] h all = (h, tt)
All-insert_operation P a (b ∷ bs) h all = elim (Bool-cases (before a b)) [
  | inl first ↦ rw first (h, all)
  | inr later ↦ rw later (all.0, All-insert_operation P a bs h all.1)
]

insert_operation-IsOrdered :
    (a : Operation) (bs : List Operation) → IsOrdered bs → IsOrdered (insert_operation a bs)
unfolding insert_operation
insert_operation-IsOrdered a [] h = (tt, tt)
insert_operation-IsOrdered a (b ∷ bs) h = elim (Bool-cases (before a b)) [
  | inl first ↦
      rw first (let now = before-IsBefore a b first in ((now, All-IsBefore a b bs now h.0), h))
  | inr later ↦ rw later (
    All-insert_operation (IsBefore b) a bs (before_total a b later) h.0,
    insert_operation-IsOrdered a bs h.1,
  )
]

pub sort_operations-IsOrdered : (ops : List Operation) → IsOrdered (sort_operations ops)
unfolding sort_operations
sort_operations-IsOrdered [] = tt
sort_operations-IsOrdered (a ∷ as') = insert_operation-IsOrdered a _ (sort_operations-IsOrdered as')

insert_operation-perm :
    (a : Operation) (bs : List Operation) → Perm (insert_operation a bs) (a ∷ bs)
unfolding insert_operation
insert_operation-perm a [] = Perm.refl _
insert_operation-perm a (b ∷ bs) = elim (Bool-cases (before a b)) [
  | inl first ↦ rw first (Perm.refl _)
  | inr later ↦ rw later (Perm.trans (Perm.cons b (insert_operation-perm a bs)) (Perm.swap a b bs))
]

pub sort_operations-perm : (ops : List Operation) → Perm (sort_operations ops) ops
unfolding sort_operations
sort_operations-perm [] = Perm.refl _
sort_operations-perm (a ∷ as') =
    Perm.trans (insert_operation-perm a _) (Perm.cons a (sort_operations-perm as'))

pub All-sort_operations :
    (P : Operation → Type 0) (ops : List Operation) → All P ops → All P (sort_operations ops)
unfolding sort_operations
All-sort_operations P [] all = tt
All-sort_operations P (a ∷ as') (h, all) =
    All-insert_operation P a _ h (All-sort_operations P as' all)
