-- ===== src/Capture/Inspector/Requests.antt =====
-- The map of pending requests of `Inspector` in src/proxy_capture.rs, and its operations.
use koc_core.Common.{
  ℕ, ◌-◌, ◌*◌, ◌==◌, Bool, ◌&&◌, Option, none, some, List, [], ◌∷◌, length, leb, if◌then◌else◌,
}
use koc_core.Json.{Text}
use koc_core.Bon.Encoder.{text_eq}

-- `self.pending.len() >= 10_000`
abbrev pub max_pending : ℕ
max_pending = 10000

-- `10 * 60 * 1000`
abbrev pub pending_age_ms : ℕ
pending_age_ms = 10 * 60 * 1000

pub record PendingRequest : Type 0 where
  pub cmd : Text
  pub timestamp_ms : ℕ

-- An entry of the `HashMap`, whose order no code reads: the key is a connection and a number.
pub record PendingEntry : Type 0 where
  pub connection_id : Text
  pub number : ℕ
  pub request : PendingRequest

-- The operations of the map.
abbrev pub is_key : Text → ℕ → PendingEntry → Bool
is_key id number e = text_eq id e.connection_id && (number == e.number)

unfoldable pub find_request : Text → ℕ → List PendingEntry → Option PendingRequest
find_request id number [] = none
find_request id number (e ∷ es) =
    let rest = find_request id number es in if is_key id number e then some e.request else rest

unfoldable pub remove_request : Text → ℕ → List PendingEntry → List PendingEntry
remove_request id number [] = []
remove_request id number (e ∷ es) =
    let rest = remove_request id number es in if is_key id number e then rest else e ∷ rest

unfoldable pub insert_request : Text → ℕ → PendingRequest → List PendingEntry → List PendingEntry
unfolding remove_request
insert_request id number request es =
    record { connection_id = id; number = number; request = request } ∷ remove_request id number es

-- `retain(|_, request| request.timestamp_ms >= cutoff)`
unfoldable pub retain_since : ℕ → List PendingEntry → List PendingEntry
retain_since cutoff [] = []
retain_since cutoff (e ∷ es) =
    let rest = retain_since cutoff es in
    if leb cutoff (e.request).timestamp_ms then e ∷ rest else rest

-- What is done before an insertion when the map is full.
unfoldable pub make_room : ℕ → List PendingEntry → List PendingEntry
unfolding retain_since
make_room now es =
    let kept = retain_since (now - pending_age_ms) es in
    if leb max_pending (length es) then if leb max_pending (length kept) then [] else kept else es
