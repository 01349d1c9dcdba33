-- ===== src/Capture/Catalog/Commands.antt =====
-- The commands of a catalogue.
use koc_core.Common.{
  ◌≤◌, ◌≡◌, refl, inl, inr, ◌⊎◌, leb→le, true, false, some, length, leb, Bool-cases,
}
use koc_core.Json.{Text}
use koc_core.Bon.Table.{text_eq_refl}
use koc_core.Capture.Tree.{get, contains_key, modify, get-modify, get-append, get-contains_key}
use koc_core.Capture.Catalog.{CommandSummary, CommandCatalog, default_summary, ensure_command}

module _ {N : Type 0} where
  -- A command that `ensure_command` admits has a summary, also after its counters are increased:
  -- the `unwrap` and the `expect` that follow find it. It is refused exactly when it is new and
  -- there are 4096 commands already, and then no summary changes.
  pub ensure_command-get :
      (cmd : Text) (f : CommandSummary N → CommandSummary N) (self : CommandCatalog N)
      → let (ready, known) = ensure_command cmd self in
        ((known ≡ true)
          × ((s : CommandSummary N) × (get cmd ready.commands ≡ some s)
              × (get cmd (modify cmd f ready.commands) ≡ some (f s))))
        ⊎ ((known ≡ false)
            × (ready.commands ≡ self.commands)
            × (contains_key cmd self.commands ≡ false)
            × (4096 ≤ length self.commands))
  unfolding ensure_command
  ensure_command-get cmd f self = elim (Bool-cases (contains_key cmd self.commands)) [
    | inl old ↦
        let (s, found) = get-contains_key cmd self.commands old in
        rw old (inl (refl, (s, found, get-modify cmd f s self.commands found)))
    | inr new ↦ elim (Bool-cases (leb 4096 (length self.commands))) [
      | inl full ↦ rw (new, full) (inr (refl, refl, refl, leb→le 4096 (length self.commands) full))
      | inr room ↦
          let found = get-append cmd default_summary self.commands new (text_eq_refl cmd) in
          rw (new, room)
            (inl (refl, (default_summary, found, get-modify cmd f default_summary _ found)))
    ]
  ]
