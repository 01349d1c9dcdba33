-- ===== src/Capture/Catalog/Bounds.antt =====
-- The bounds of a catalogue, and what its two totals count.
use koc_core.Common.{
  ℕ, suc, ◌+◌, ◌≤◌, ◌<◌, ◌≡◌, refl, inl, inr, Bool, true, ◌||◌, Option, none, some, List, [], ◌∷◌,
  ◌++◌, length, length-append, ltb, Bool-cases, arith,
}
use koc_core.Common.Int.{ℤ}
use koc_core.Common.Results.{All}
use koc_core.Json.{Text, Value, SerdeJson}
use koc_core.Capture.Shape.Bounds.{IsForm, All-append}
use koc_core.Capture.Tree.{contains_key, or_insert, Values, total, length-modify}
use koc_core.Capture.Catalog.{
  CommandSummary, CommandCatalog, ShapeKind, request, response, push, Printer, count_code, shapes,
  push_shape, count_event, add_response_code, shape_size, count_summary,
}

pub length-or_insert :
    {A : Type 0} (k : Text) (a : A) (m : List (Text × A)) (n : ℕ)
    → length m ≤ n
    → (contains_key k m || ltb (length m) n) ≡ true
    → length (or_insert k a m) ≤ n
length-or_insert k a m n h room = elim (Bool-cases (contains_key k m)) [
  | inl old ↦ rw old h
  | inr new ↦ rw new (ground (arith, new, room, length-append m ((k, a) ∷ [])))
]

module _ {N : Type 0} where
  -- At most 32 shapes of each kind and 64 codes, and the shapes are forms: they hold no data.
  abbrev pub IsShapes : List (Value N) → Type 0
  IsShapes vs = (length vs ≤ 32) × All (IsForm 17) vs

  abbrev pub IsSummary : CommandSummary N → Type 0
  IsSummary s =
      IsShapes s.request_shapes
      × IsShapes s.response_shapes
      × IsShapes s.push_shapes
      × (length s.codes ≤ 64)

  abbrev pub shapes_of : CommandSummary N → ℕ
  shapes_of s = length s.request_shapes + length s.response_shapes + length s.push_shapes

  abbrev pub sum : (Value N → ℕ) → List (Value N) → ℕ
  sum w [] = 0
  sum w (v ∷ vs) = w v + sum w vs

  sum-append :
      (w : Value N → ℕ) (vs : List (Value N)) (v : Value N) → sum w (vs ++ v ∷ []) ≡ sum w vs + w v
  sum-append w [] v = omega arith
  sum-append w (x ∷ vs) v = omega (arith, sum-append w vs v)

  IsShapes-push :
      (vs : List (Value N)) (v : Value N)
      → IsShapes vs
      → IsForm 17 v
      → length vs < 32
      → IsShapes (vs ++ v ∷ [])
  IsShapes-push vs v (l, a) f room =
      (omega (arith, room, length-append vs (v ∷ [])), All-append 17 vs (v ∷ []) a (f, tt))

  pub push_shape-IsSummary :
      (kind : ShapeKind) (v : Value N) (s : CommandSummary N)
      → IsSummary s
      → IsForm 17 v
      → length (shapes kind s) < 32
      → IsSummary (push_shape kind v s)
  push_shape-IsSummary request v s (a, b, c, d) f room =
      (IsShapes-push s.request_shapes v a f room, b, c, d)
  push_shape-IsSummary response v s (a, b, c, d) f room =
      (a, IsShapes-push s.response_shapes v b f room, c, d)
  push_shape-IsSummary push v s (a, b, c, d) f room =
      (a, b, IsShapes-push s.push_shapes v c f room, d)

  pub shapes_of-push_shape :
      (kind : ShapeKind) (v : Value N) (s : CommandSummary N)
      → shapes_of (push_shape kind v s) ≡ suc (shapes_of s)
  shapes_of-push_shape request v s = omega (arith, length-append s.request_shapes (v ∷ []))
  shapes_of-push_shape response v s = omega (arith, length-append s.response_shapes (v ∷ []))
  shapes_of-push_shape push v s = omega (arith, length-append s.push_shapes (v ∷ []))

module _ {N : Type 0} (lib : SerdeJson N) (number_eq : N → N → Bool) (printer : Printer N) where
  abbrev pub size_of : CommandSummary N → ℕ
  size_of s =
      let w = shape_size lib number_eq printer in
      sum w s.request_shapes + sum w s.response_shapes + sum w s.push_shapes

  pub size_of-push_shape :
      (kind : ShapeKind) (v : Value N) (s : CommandSummary N)
      → size_of (push_shape kind v s) ≡ size_of s + shape_size lib number_eq printer v
  size_of-push_shape request v s =
      omega (arith, sum-append (shape_size lib number_eq printer) s.request_shapes v)
  size_of-push_shape response v s =
      omega (arith, sum-append (shape_size lib number_eq printer) s.response_shapes v)
  size_of-push_shape push v s =
      omega (arith, sum-append (shape_size lib number_eq printer) s.push_shapes v)

  -- The two totals of the catalogue are those of the shapes in it, and all its bounds hold.
  abbrev pub IsCatalog : CommandCatalog N → Type 0
  IsCatalog c =
      (length c.commands ≤ 4096)
      × (c.shape_count ≤ 4096)
      × (c.schema_bytes_used ≤ 16777216)
      × Values IsSummary c.commands
      × (c.shape_count ≡ total shapes_of c.commands)
      × (c.schema_bytes_used ≡ total size_of c.commands)

  -- A change of the summaries that leaves the shapes alone.
  abbrev pub SameShapes : CommandSummary N → CommandSummary N → Type 0
  SameShapes s t =
      (t.request_shapes ≡ s.request_shapes)
      × (t.response_shapes ≡ s.response_shapes)
      × (t.push_shapes ≡ s.push_shapes)
      × (length s.codes ≤ 64 → length t.codes ≤ 64)

  add_response_code-SameShapes :
      (code : ℤ) (s : CommandSummary N)
      → SameShapes s (add_response_code lib number_eq printer code s)
  unfolding add_response_code count_code
  add_response_code-SameShapes code s =
      let key = printer.code_text code in
      elim (Bool-cases (contains_key key s.codes || ltb (length s.codes) 64)) [
        | inl room ↦ rw room (
          refl,
          refl,
          refl,
          λ h. omega (
            arith,
            length-modify key (λ n. n + 1) (or_insert key 0 s.codes),
            length-or_insert key 0 s.codes 64 h room,
          ),
        )
        | inr full ↦ rw full (refl, refl, refl, λ h. h)
      ]

  pub count_summary-SameShapes :
      (kind : ShapeKind) (code : Option ℤ) (s : CommandSummary N)
      → SameShapes s (count_summary lib number_eq printer kind code s)
  unfolding count_summary
  count_summary-SameShapes request code s = (refl, refl, refl, λ h. h)
  count_summary-SameShapes response none s = (refl, refl, refl, λ h. h)
  count_summary-SameShapes response (some c) s =
      add_response_code-SameShapes c (count_event response s)
  count_summary-SameShapes push none s = (refl, refl, refl, λ h. h)
  count_summary-SameShapes push (some c) s = add_response_code-SameShapes c (count_event push s)
