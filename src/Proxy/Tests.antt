-- ===== src/Proxy/Tests.antt =====
-- The theorems about src/proxy.rs at concrete inputs, and unit tests of the source.
use koc_core.Common.{
  ℕ, ◌+◌, ◌-◌, ◌≤◌, ◌<◌, ◌^◌, ◌≡◌, ◌↔◌, refl, Bool, true, false, Option, none, some, [], ◌∷◌,
  length, ltb, if◌then◌else◌, arith,
}
use koc_core.Common.Codes.{codes}
use koc_core.Json.{Text}
use koc_core.Bon.Encoder.{text_eq}
use koc_core.Capture.Record.{Message, client_to_server}
use koc_core.Proxy.Queue.{Semaphore, IsSemaphore, Shared, prepare_record}
use koc_core.Proxy.Queue.Budget.{
  World, with_prepared, here, then_step, prepares, captured_bytes, captured_bytes-bound,
}
use koc_core.Proxy.Origin.{
  UrlLib, wrong_scheme, remote_plaintext, validate_upstream_origin, is_loopback_host, RelayConfig,
  check_config,
}
use koc_core.Proxy.Origin.Checks.{IsOrigin, check_config_iff}

-- A semaphore is the number of its permits.
abbrev take_permits : ℕ → ℕ → Option ℕ
take_permits n s = if ltb s n then none else some (s - n)

abbrev counter : Semaphore ℕ
counter = record {
  available_permits = λ s. s;
  try_acquire_many = take_permits;
  add_permits = λ n s. s + n;
}

take_permits-available : (n s left : ℕ) → take_permits n s ≡ some left → left + n ≡ s
take_permits-available n s left h = ground arith

counter_laws : IsSemaphore counter
counter_laws = record {
  try_acquire_many-available = take_permits-available;
  add_permits-available = λ n s. refl;
}

abbrev message_len : Message Bool → ℕ
message_len (Message.binary bs) = length bs
message_len m = 0

abbrev budget_of : ℕ → Shared ℕ
budget_of n = record { capture_budget = n; queue_full = 0; analyzer_closed = 0 }

-- The unit test of the source: five bytes do not fit a budget of four.
too_large_test :
    prepare_record counter message_len
      (some false)
      0
      (codes "c")
      1
      client_to_server
      (Message.binary (0 ∷ 0 ∷ 0 ∷ 0 ∷ 0 ∷ []))
      (budget_of 4)
    ≡ (record { capture_budget = 4; queue_full = 1; analyzer_closed = 0 }, none)
unfolding prepare_record
too_large_test = refl

abbrev one_frame : World counter message_len
one_frame = with_prepared counter message_len [] (
    prepare_record counter message_len (some false) 0 (codes "c") 1 client_to_server
      (Message.binary (0 ∷ 0 ∷ 0 ∷ [])) (budget_of 4))

captured_bytes-bound_example :
    (captured_bytes counter message_len one_frame.frames ≤ 4) × (length one_frame.frames ≤ 4)
captured_bytes-bound_example =
    captured_bytes-bound counter message_len 4 (budget_of 4) counter_laws refl (
      then_step here (
        prepares (some false) 0 1 (codes "c") client_to_server (Message.binary (0 ∷ 0 ∷ 0 ∷ []))
          (record { shared = budget_of 4; frames = [] })))

record PlainUrl : Type 0 where
  scheme : Text
  host : Option Text
  path : Text
  query : Option Text
  fragment : Option Text

abbrev agent : PlainUrl
agent = record {
  scheme = codes "ws";
  host = some (codes "relay.invalid");
  path = codes "/agent";
  query = some (codes "p=1");
  fragment = none;
}

-- Every target is that of one request.
abbrev plain_urls : UrlLib PlainUrl
plain_urls = record {
  parse = λ t. some agent;
  join = λ u t. some agent;
  scheme = λ u. u.scheme;
  host_str = λ u. u.host;
  username = λ u. [];
  password = λ u. none;
  path = λ u. u.path;
  query = λ u. u.query;
  fragment = λ u. u.fragment;
  set_path = λ p u. record u { path = p };
  set_query = λ q u. record u { query = q };
  set_fragment = λ f u. record u { fragment = f };
  is_loopback_ip = λ host. text_eq host (codes "127.0.0.1");
}

abbrev origin_of : Text → Text → PlainUrl
origin_of scheme host = record {
  scheme = scheme;
  host = some host;
  path = codes "/";
  query = none;
  fragment = none;
}

-- The unit tests of the source.
origin_tests :
    (validate_upstream_origin plain_urls (origin_of (codes "https") (codes "example.com"))
      ≡ some wrong_scheme)
    × (validate_upstream_origin plain_urls (origin_of (codes "ws") (codes "example.com"))
        ≡ some remote_plaintext)
    × (validate_upstream_origin plain_urls (origin_of (codes "ws") (codes "127.0.0.1")) ≡ none)
unfolding validate_upstream_origin is_loopback_host
origin_tests = (refl, refl, refl)

abbrev config : RelayConfig plain_urls
config = record {
  listen_is_loopback = true;
  upstream_origin = origin_of (codes "wss") (codes "example.com");
  max_connections = 4;
  max_capture_queue_bytes = 1024;
}

check_config_iff_example : (check_config plain_urls config ≡ none) ↔ (
    IsOrigin plain_urls config.upstream_origin
    × (config.listen_is_loopback ≡ true)
    × (0 < config.max_connections)
    × (0 < config.max_capture_queue_bytes)
    × (config.max_capture_queue_bytes < 2 ^ 32))
check_config_iff_example = check_config_iff plain_urls config

abbrev upstream : PlainUrl
upstream = record {
  scheme = codes "wss";
  host = some (codes "example.com");
  path = codes "/agent";
  query = some (codes "p=1");
  fragment = none;
}
