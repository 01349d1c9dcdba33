-- ===== src/Capture/Inspector/Pending.antt =====
-- The map of pending requests: what its operations look up, and how large it gets.
use koc_core.Common.{
  ℕ, ◌==◌, ◌≤◌, ◌<◌, ◌≡◌, refl, sym, ap₂, ◌∙◌, inl, inr, Bool, true, false, ◌&&◌, none, some, List,
  [], ◌∷◌, length, Bool-cases, arith,
}
use koc_core.Json.{Text}
use koc_core.Bon.Encoder.{text_eq}
use koc_core.Bon.Table.{text_eq→eq, text_eq_refl}
use koc_core.Capture.Inspector.{
  PendingRequest, PendingEntry, is_key, find_request, remove_request, insert_request, make_room,
  max_pending,
}

pub find_request-remove_request :
    (id : Text) (n : ℕ) (es : List PendingEntry) → find_request id n (remove_request id n es) ≡ none
unfolding find_request remove_request
find_request-remove_request id n [] = refl
find_request-remove_request id n (e ∷ es) = elim (Bool-cases (is_key id n e)) [
  | inl same ↦ rw same (find_request-remove_request id n es)
  | inr other ↦ rw other (rw (other, find_request-remove_request id n es) refl)
]

-- Another key: the connection or the number differs.
abbrev pub same_key : Text → ℕ → Text → ℕ → Bool
same_key id n id' n' = text_eq id id' && (n == n')

same_key-eq : (id id' : Text) (n n' : ℕ) → same_key id n id' n' ≡ true → (id ≡ id') × (n ≡ n')
same_key-eq id id' n n' h = elim (Bool-cases (text_eq id id')) [
  | inl same ↦ (text_eq→eq id id' same, ground (arith, same))
  | inr other ↦ ground (arith, other)
]

pub same_key_refl : (id : Text) (n : ℕ) → same_key id n id n ≡ true
same_key_refl id n = ground (arith, text_eq_refl id)

is_key_other :
    (id id' : Text) (n n' : ℕ) (e : PendingEntry)
    → same_key id n id' n' ≡ false
    → is_key id' n' e ≡ true
    → is_key id n e ≡ false
is_key_other id id' n n' e d h = elim (Bool-cases (is_key id n e)) [
  | inr other ↦ other
  | inl same ↦
      let (c, k) = same_key-eq id e.connection_id n e.number same in
      let (c', k') = same_key-eq id' e.connection_id n' e.number h in
      let both : same_key id n id' n' ≡ true =
        sym (ap₂ (λ i m. same_key id n i m) (c ∙ sym c') (k ∙ sym k')) ∙ same_key_refl id n in
      cc
]

pub find_request-remove_other :
    (id id' : Text) (n n' : ℕ) (es : List PendingEntry)
    → same_key id n id' n' ≡ false
    → find_request id n (remove_request id' n' es) ≡ find_request id n es
unfolding find_request remove_request
find_request-remove_other id id' n n' [] d = refl
find_request-remove_other id id' n n' (e ∷ es) d = elim (Bool-cases (is_key id' n' e)) [
  | inl same ↦
      rw (same, is_key_other id id' n n' e d same) (find_request-remove_other id id' n n' es d)
  | inr other ↦ rw other (rw (find_request-remove_other id id' n n' es d) refl)
]

pub find_request-insert_request :
    (id : Text) (n : ℕ) (request : PendingRequest) (es : List PendingEntry)
    → find_request id n (insert_request id n request es) ≡ some request
unfolding find_request insert_request
find_request-insert_request id n request es = rw (same_key_refl id n) refl

pub find_request-insert_other :
    (id id' : Text) (n n' : ℕ) (request : PendingRequest) (es : List PendingEntry)
    → same_key id n id' n' ≡ false
    → find_request id n (insert_request id' n' request es) ≡ find_request id n es
unfolding find_request insert_request
find_request-insert_other id id' n n' request es d =
    rw d (find_request-remove_other id id' n n' es d)

pub length-remove_request :
    (id : Text) (n : ℕ) (es : List PendingEntry) → length (remove_request id n es) ≤ length es
unfolding remove_request
length-remove_request id n [] = omega arith
length-remove_request id n (e ∷ es) = elim (Bool-cases (is_key id n e)) [
  | inl same ↦ rw same (omega (arith, length-remove_request id n es))
  | inr other ↦ rw other (omega (arith, length-remove_request id n es))
]

pub length-make_room :
    (now : ℕ) (es : List PendingEntry)
    → length es ≤ max_pending
    → length (make_room now es) < max_pending
unfolding make_room
length-make_room now es h = ground arith

pub make_room_free :
    (now : ℕ) (es : List PendingEntry) → length es < max_pending → make_room now es ≡ es
unfolding make_room
make_room_free now es h = ground arith
