-- ===== src/Capture/Analyzer/Files.antt =====
-- `catalog_reader` on any file.
use koc_core.Common.{ℕ, ◌≤◌, ◌<◌, ◌≡◌, Bool, not, Option, some, [], ◌∷◌, length, arith}
use koc_core.Json.{SerdeJson}
use koc_core.Crypto.Lz4.{Lz4Frame}
use koc_core.Capture.Record.{CaptureRecord, Base64Engine}
use koc_core.Capture.Lines.{Reader}
use koc_core.Capture.Lines.Correct.{bytes}
use koc_core.Capture.Records.{LineParser, ReadError}
use koc_core.Capture.Records.Total.{read_records-Returns}
use koc_core.Capture.Records.Invariant.{read_records-keeps}
use koc_core.Capture.Inspector.{Inspector, new_inspector, inspect, inspect_all, max_pending}
use koc_core.Capture.Inspector.History.{inspect_all-length}
use koc_core.Capture.Catalog.{CommandCatalog, Printer, new_catalog}
use koc_core.Capture.Catalog.Bounds.{IsCatalog}
use koc_core.Capture.Catalog.Invariant.{observe-IsCatalog, new_catalog-IsCatalog}
use koc_core.Capture.Analyzer.{catalogue_record, catalog_reader}

module _ {N : Type 0} (lib : SerdeJson N) (number_eq : N → N → Bool) (printer : Printer N)
    (lz4 : Lz4Frame) (engine : Base64Engine) where
  abbrev pub IsBounded : Inspector × CommandCatalog N → Type 0
  IsBounded (inspector, catalog) =
      (length inspector.pending ≤ max_pending) × IsCatalog lib number_eq printer catalog

  catalogue_record-IsBounded :
      (E : Type 0) (r : CaptureRecord) (s : Inspector × CommandCatalog N)
      → IsBounded s
      → IsBounded (catalogue_record lib number_eq printer lz4 engine {E = E} r s).0
  unfolding inspect_all
  catalogue_record-IsBounded E r (inspector, catalog) (pending, good) = (
    inspect_all-length lib lz4 engine (r ∷ []) inspector pending,
    observe-IsCatalog lib number_eq printer (inspect lib lz4 engine r inspector).1 catalog good,
  )

  -- `catalog_reader` returns for every reader, whatever bytes it holds and whether or not it
  -- fails, when its loop's fuel is more than the reader's bytes; and, be the file read to its end
  -- or given up with an error, there are then at most 10 000 requests on record, and the catalogue
  -- is within its bounds and its shapes are forms.
  pub catalog_reader-IsBounded :
      {E : Type 0} (parser : LineParser) (fuel : ℕ) (show_sensitive : Bool) (reader : Reader)
      → length (bytes reader) < fuel
      → (out : (Inspector × CommandCatalog N) × Option (ReadError E)) × (catalog_reader lib
            number_eq printer lz4 engine parser fuel show_sensitive reader
          ≡ some out)
        × IsBounded out.0
  unfolding catalog_reader
  catalog_reader-IsBounded {E} parser fuel show_sensitive reader h =
      let callback = catalogue_record lib number_eq printer lz4 engine {E = E} in
      let start : Inspector × CommandCatalog N =
        (new_inspector (not show_sensitive), new_catalog) in
      let (out, returned) = read_records-Returns parser callback fuel 0 start reader h in
      (
        out,
        returned,
        read_records-keeps parser callback IsBounded (catalogue_record-IsBounded E) fuel 0 start
            reader out (omega arith, new_catalog-IsCatalog lib number_eq printer) returned,
      )
