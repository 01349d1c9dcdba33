-- ===== src/Capture/Analyzer.antt =====
-- What src/koc_proxy.rs does with the records: `Analyzer`, `decode_reader` and `catalog_reader`.
pub mod Files
use koc_core.Common.{
  ℕ, suc, Bool, true, false, ◌&&◌, not, Option, none, some, List, [], length, if◌then◌else◌,
}
use koc_core.Json.{Text, SerdeJson}
use koc_core.Crypto.Lz4.{Lz4Frame}
use koc_core.Protocol.Message.{unwrap_or}
use koc_core.Capture.Wildcard.{wildcard_match}
use koc_core.Capture.Record.{
  CaptureRecord, Direction, client_to_server, server_to_client, Base64Engine,
}
use koc_core.Capture.Lines.{Reader}
use koc_core.Capture.Records.{LineParser, ReadError, read_records}
use koc_core.Capture.Inspector.{DecodedEvent, Inspector, new_inspector, inspect}
use koc_core.Capture.Catalog.{CommandCatalog, Printer, new_catalog, observe, is_some, is_binary}

pub record DisplayArgs : Type 0 where
  pub cmd : Option Text
  pub direction : Option Direction
  pub include_control : Bool
  pub show_sensitive : Bool

-- The writers are seen as whether there are any.
pub record Analyzer (N : Type 0) : Type 0 where
  pub inspector : Inspector
  pub display : DisplayArgs
  pub record_writer : Bool
  pub catalog_writer : Bool
  pub catalog : Option (CommandCatalog N)
  pub realtime_output : Bool

abbrev same_direction : Direction → Direction → Bool
same_direction client_to_server client_to_server = true
same_direction server_to_client server_to_client = true
same_direction a b = false

abbrev or_else {ℓ} : {A : Type ℓ} → Option A → Option A → Option A
or_else none o = o
or_else (some a) o = some a

module _ {N : Type 0} where
  -- `none` would be that `wildcard_match` runs out of fuel.
  unfoldable pub matches_command : Option Text → DecodedEvent N → Option Bool
  unfolding wildcard_match
  matches_command none event = some true
  matches_command (some pattern) event =
      wildcard_match pattern (unwrap_or (or_else event.matched_request event.cmd) [])

  abbrev is_wanted : Option Direction → DecodedEvent N → Bool
  is_wanted none event = true
  is_wanted (some side) event = same_direction event.direction side

  unfoldable pub should_display : DisplayArgs → DecodedEvent N → Option Bool
  unfolding matches_command
  should_display display event =
      if not display.include_control && not (is_binary event.opcode)
      then some false
      else if not (is_wanted display.direction event)
      then some false
      else matches_command display.cmd event

  -- `Analyzer::new` after its files are opened.
  abbrev pub new_analyzer : DisplayArgs → Bool → Bool → Bool → Analyzer N
  new_analyzer display has_records has_catalog realtime_output = record {
    inspector = new_inspector (not display.show_sensitive);
    display = display;
    record_writer = has_records;
    catalog_writer = has_catalog;
    catalog = if has_catalog then some new_catalog else none;
    realtime_output = realtime_output;
  }

module _ {N : Type 0} (lib : SerdeJson N) (number_eq : N → N → Bool) (printer : Printer N)
    (lz4 : Lz4Frame) (engine : Base64Engine) where
  abbrev observe_option : DecodedEvent N → Option (CommandCatalog N) → Option (CommandCatalog N)
  observe_option event none = none
  observe_option event (some c) = some (observe lib number_eq printer event c)

  -- What `process` does to the analyzer once the record is written.
  unfoldable pub analyze : CaptureRecord → Analyzer N → Analyzer N × DecodedEvent N
  unfolding inspect observe
  analyze r self =
      let (inspector, event) = inspect lib lz4 engine r self.inspector in
      (record self { inspector = inspector; catalog = observe_option event self.catalog }, event)

  -- The errors of the three writes, if they fail, are arguments: that of the record, that of the
  -- catalogue and that of the printed event.
  unfoldable pub process :
      {E : Type 0}
      → Option E
      → Option E
      → Option E
      → CaptureRecord
      → Analyzer N
      → Analyzer N × Option E
  unfolding analyze should_display
  process written rewritten printed r self =
      let (next, event) = analyze r self in
      if self.record_writer && is_some written
      then (self, written)
      else if (self.catalog_writer && is_some next.catalog) && is_some rewritten
      then (next, rewritten)
      else if self.realtime_output && unwrap_or (should_display self.display event) false
      then (next, printed)
      else (next, none)

  -- The callback of `catalog_reader`.
  abbrev pub catalogue_record :
      {E : Type 0}
      → CaptureRecord
      → Inspector × CommandCatalog N
      → (Inspector × CommandCatalog N) × Option E
  catalogue_record r (inspector, catalog) =
      let (next, event) = inspect lib lz4 engine r inspector in
      ((next, observe lib number_eq printer event catalog), none)

  -- The catalogue that `catalog_reader` writes, with the error of the reading.
  unfoldable pub catalog_reader :
      {E : Type 0}
      → LineParser
      → ℕ
      → Bool
      → Reader
      → Option ((Inspector × CommandCatalog N) × Option (ReadError E))
  unfolding read_records inspect observe
  catalog_reader parser fuel show_sensitive reader =
      read_records parser catalogue_record fuel 0 (new_inspector (not show_sensitive), new_catalog)
        reader
