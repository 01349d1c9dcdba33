-- ===== src/Capture/Catalog/Invariant.antt =====
-- The bounds of a catalogue under `observe`.
use koc_core.Common.{
  ◌+◌, ◌==◌, ◌≤◌, ◌<◌, ◌≡◌, refl, ap, inl, inr, Bool, false, ◌||◌, not, Option, none, some, [], ◌∷◌,
  length, length-append, ltb, leb, Bool-cases, Option-cases, arith,
}
use koc_core.Json.{Text, Value, SerdeJson}
use koc_core.Capture.Shape.{value_shape, contains_value}
use koc_core.Capture.Shape.Bounds.{IsForm}
use koc_core.Capture.Shape.Forms.{value_shape-IsForm_root}
use koc_core.Capture.Record.{Direction, client_to_server, server_to_client}
use koc_core.Capture.Inspector.{DecodedEvent}
use koc_core.Capture.Tree.{
  get, contains_key, modify, length-modify, get-Values, modify-Values, total-modify, append-Values,
  total-append, modify-missing,
}
use koc_core.Capture.Catalog.{
  CommandSummary, CommandCatalog, ShapeKind, request, response, push, Printer, default_summary,
  new_catalog, is_some, is_binary, shapes, push_shape, ensure_command, shape_size, over_limit,
  count_overflow, keep_shape, record_shape, count_summary, observe_command, observe_named,
  observe_direction, observe,
}
use koc_core.Capture.Catalog.Bounds.{
  sum, IsSummary, shapes_of, size_of, IsCatalog, SameShapes, count_summary-SameShapes,
  push_shape-IsSummary, shapes_of-push_shape, size_of-push_shape,
}

module _ {N : Type 0} (lib : SerdeJson N) (number_eq : N → N → Bool) (printer : Printer N) where
  abbrev IsGood : CommandCatalog N → Type 0
  IsGood c = IsCatalog lib number_eq printer c

  -- The change of one summary that leaves its shapes alone.
  modify-IsCatalog :
      (cmd : Text) (f : CommandSummary N → CommandSummary N) (self : CommandCatalog N)
      → ((s : CommandSummary N) → SameShapes lib number_eq printer s (f s))
      → IsGood self
      → IsGood (record self { commands = modify cmd f self.commands })
  modify-IsCatalog cmd f self same (l, n, b, all, counted, sized) =
      elim (Option-cases (get cmd self.commands)) [
        | inl missing ↦
            rw (modify-missing cmd f self.commands missing) (l, n, b, all, counted, sized)
        | inr (s, found) ↦
            let (rq, rs, ps, cs) = same s in
            let weight = shape_size lib number_eq printer in
            let (i, j, k, c) = get-Values IsSummary cmd s self.commands found all in
            (
              omega (arith, l, length-modify cmd f self.commands),
              n,
              b,
              modify-Values IsSummary cmd f s self.commands found (rw (rq, rs, ps) (i, j, k, cs c))
                  all,
              omega (
                arith,
                counted,
                total-modify shapes_of cmd f s self.commands found,
                ap length rq,
                ap length rs,
                ap length ps,
              ),
              omega (
                arith,
                sized,
                total-modify (size_of lib number_eq printer) cmd f s self.commands found,
                ap (sum weight) rq,
                ap (sum weight) rs,
                ap (sum weight) ps,
              ),
            )
      ]

  over_limit-room :
      (kind : ShapeKind) (shape : Value N) (s : CommandSummary N) (self : CommandCatalog N)
      → over_limit lib number_eq printer kind shape s self ≡ false
      → (length (shapes kind s) < 32)
        × (self.shape_count < 4096)
        × (self.schema_bytes_used + shape_size lib number_eq printer shape ≤ 16777216)
  over_limit-room kind shape s self h = (ground arith, ground arith, ground arith)

  keep_shape-IsCatalog :
      (cmd : Text) (kind : ShapeKind) (shape : Value N) (s : CommandSummary N)
      (self : CommandCatalog N)
      → get cmd self.commands ≡ some s
      → IsForm 17 shape
      → IsGood self
      → IsGood (keep_shape lib number_eq printer cmd kind shape s self)
  keep_shape-IsCatalog cmd kind shape s self found form (l, n, b, all, counted, sized) =
      elim (Bool-cases (contains_value number_eq shape (shapes kind s))) [
        | inl old ↦ rw old (l, n, b, all, counted, sized)
        | inr new ↦ elim (Bool-cases (over_limit lib number_eq printer kind shape s self)) [
          | inl over ↦
              rw (new, over)
                (modify-IsCatalog cmd (count_overflow lib number_eq printer) self
                  (λ _. (refl, refl, refl, λ h. h)) (l, n, b, all, counted, sized))
          | inr room ↦
              rw (new, room)
                (let (few, under, fits) = over_limit-room kind shape s self room in
                  let f = push_shape kind shape in
                  (
                    omega (arith, l, length-modify cmd f self.commands),
                    omega (arith, under),
                    fits,
                    modify-Values IsSummary cmd f s self.commands found
                        (push_shape-IsSummary kind shape s
                          (get-Values IsSummary cmd s self.commands found all) form few)
                        all,
                    omega (
                      arith,
                      counted,
                      total-modify shapes_of cmd f s self.commands found,
                      shapes_of-push_shape kind shape s,
                    ),
                    omega (
                      arith,
                      sized,
                      total-modify (size_of lib number_eq printer) cmd f s self.commands found,
                      size_of-push_shape lib number_eq printer kind shape s,
                    ),
                  ))
        ]
      ]

  record_shape-IsCatalog :
      (cmd : Text) (kind : ShapeKind) (body : Option (Value N)) (self : CommandCatalog N)
      → IsGood self
      → IsGood (record_shape lib number_eq printer cmd kind body self)
  unfolding record_shape
  record_shape-IsCatalog cmd kind none self h = h
  record_shape-IsCatalog cmd kind (some body) self h = elim (Option-cases (get cmd self.commands)) [
    | inl missing ↦ rw (missing, record_shape) h
    | inr (s, found) ↦
        rw (found, record_shape)
          (keep_shape-IsCatalog cmd kind (value_shape lib number_eq 0 body) s self found
            (value_shape-IsForm_root lib number_eq body) h)
  ]

  ensure_command-IsCatalog :
      (cmd : Text) (self : CommandCatalog N) → IsGood self → IsGood (ensure_command cmd self).0
  unfolding ensure_command
  ensure_command-IsCatalog cmd self (l, n, b, all, counted, sized) =
      elim (Bool-cases (contains_key cmd self.commands)) [
        | inl old ↦ rw old (l, n, b, all, counted, sized)
        | inr new ↦ elim (Bool-cases (leb 4096 (length self.commands))) [
          | inl full ↦ rw (new, full) (l, n, b, all, counted, sized)
          | inr room ↦
              rw (new, room)
                (
                  ground (arith, room, length-append self.commands ((cmd, default_summary) ∷ [])),
                  n,
                  b,
                  append-Values IsSummary cmd default_summary self.commands
                      ((omega arith, tt), (omega arith, tt), (omega arith, tt), omega arith) all,
                  omega (arith, counted, total-append shapes_of cmd default_summary self.commands),
                  omega (
                    arith,
                    sized,
                    total-append (size_of lib number_eq printer) cmd default_summary self.commands,
                  ),
                )
        ]
      ]

  observe_command-IsCatalog :
      (cmd : Text) (kind : ShapeKind) (event : DecodedEvent N) (self : CommandCatalog N)
      → IsGood self
      → IsGood (observe_command lib number_eq printer cmd kind event self)
  unfolding observe_command
  observe_command-IsCatalog cmd kind event self h =
      let ready = (ensure_command cmd self).0 in
      let good = ensure_command-IsCatalog cmd self h in
      elim (Bool-cases (ensure_command cmd self).1) [
        | inl known ↦ rw known (
            record_shape-IsCatalog cmd kind event.body _ (
              modify-IsCatalog cmd (count_summary lib number_eq printer kind event.code) ready
                (count_summary-SameShapes lib number_eq printer kind event.code) good))
        | inr unknown ↦ rw unknown good
      ]

  observe_named-IsCatalog :
      (cmd : Option Text) (kind : ShapeKind) (event : DecodedEvent N) (self : CommandCatalog N)
      → IsGood self
      → IsGood (observe_named lib number_eq printer cmd kind event self)
  observe_named-IsCatalog none kind event self h = h
  observe_named-IsCatalog (some cmd) kind event self h =
      observe_command-IsCatalog cmd kind event self h

  observe_direction-IsCatalog :
      (side : Direction) (event : DecodedEvent N) (self : CommandCatalog N)
      → IsGood self
      → IsGood (observe_direction lib number_eq printer side event self)
  unfolding observe_command
  observe_direction-IsCatalog client_to_server event self h = elim (Bool-cases (event.seq == 0)) [
    | inl unsequenced ↦ rw unsequenced h
    | inr sequenced ↦ rw sequenced (observe_named-IsCatalog event.cmd request event self h)
  ]
  observe_direction-IsCatalog server_to_client event self h = elim (Bool-cases (ltb 0 event.resp)) [
    | inl answer ↦ elim (Option-cases event.matched_request) [
      | inl unmatched ↦ rw (answer, unmatched) h
      | inr (cmd, matched) ↦
          rw (answer, matched) (observe_command-IsCatalog cmd response event self h)
    ]
    | inr pushed ↦ rw pushed (observe_named-IsCatalog event.cmd push event self h)
  ]

  -- Every event keeps a catalogue within its bounds: at most 4096 commands, at most 32 shapes of
  -- each kind and 64 codes to a command, at most 4096 shapes of at most 16 MiB together; the two
  -- totals it keeps are those of the shapes it holds, and each of these shapes is a form,
  -- whose leaves are names of types and marks of limits.
  pub observe-IsCatalog :
      (event : DecodedEvent N) (self : CommandCatalog N)
      → IsCatalog lib number_eq printer self
      → IsCatalog lib number_eq printer (observe lib number_eq printer event self)
  unfolding observe
  observe-IsCatalog event self h =
      elim (Bool-cases (is_some event.decode_error || not (is_binary event.opcode))) [
        | inl skipped ↦ rw skipped h
        | inr seen ↦ rw seen (observe_direction-IsCatalog event.direction event self h)
      ]

  pub new_catalog-IsCatalog : IsCatalog lib number_eq printer new_catalog
  new_catalog-IsCatalog = (omega arith, omega arith, omega arith, tt, refl, refl)
