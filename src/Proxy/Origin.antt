-- ===== src/Proxy/Origin.antt =====
-- `validate_upstream_origin`, `build_upstream_url` and the checks of `run_relay` of src/proxy.rs.
pub mod Checks
use koc_core.Common.{
  ℕ, ◌-◌, ◌+◌, ◌^◌, ◌==◌, ◌≡◌, ◌<◌, refl, sym, ◌∙◌, ap, inl, inr, ◌⊎◌, ◌↔◌, Bool, true, false, ◌&&◌,
  ◌||◌, not, Option, none, some, [], ◌∷◌, leb, ltb, map, if◌then◌else◌, Option-cases, arith,
}
use koc_core.Common.Codes.{codes}
use koc_core.Common.Results.{Result, ok, err, ◌>>=◌}
use koc_core.Json.{Text}
use koc_core.Bon.Encoder.{text_eq}
use koc_core.Protocol.Message.{unwrap_or}
use koc_core.Capture.Catalog.{is_some}

-- The url crate's `Url` and the standard library's `IpAddr`, as far as they are called.
pub record UrlLib (U : Type 0) : Type 0 where
  pub parse : Text → Option U
  pub join : U → Text → Option U
  pub scheme : U → Text
  pub host_str : U → Option Text
  pub username : U → Text
  pub password : U → Option Text
  pub path : U → Text
  pub query : U → Option Text
  pub fragment : U → Option Text
  pub set_path : Text → U → U
  pub set_query : Option Text → U → U
  pub set_fragment : Option Text → U → U
  -- the text is an IP address, and a loopback one
  pub is_loopback_ip : Text → Bool

-- The part of a URL that says with whom one talks, and how.
abbrev pub authority : {U : Type 0} → UrlLib U → U → Text × Option Text × Text × Option Text
authority lib u = (lib.scheme u, lib.host_str u, lib.username u, lib.password u)

pub record IsUrlLib {U : Type 0} (lib : UrlLib U) : Type 0 where
  -- the setters of the path, the query and the fragment leave the rest alone
  pub authority-set_path : (p : Text) (u : U) → authority lib (lib.set_path p u) ≡ authority lib u
  pub authority-set_query :
      (q : Option Text) (u : U) → authority lib (lib.set_query q u) ≡ authority lib u
  pub authority-set_fragment :
      (f : Option Text) (u : U) → authority lib (lib.set_fragment f u) ≡ authority lib u
  -- a query is there after it was set, percent-encoded
  pub is_some-set_query :
      (q : Option Text) (u : U) → is_some (lib.query (lib.set_query q u)) ≡ is_some q
  pub query-set_fragment :
      (f : Option Text) (u : U) → lib.query (lib.set_fragment f u) ≡ lib.query u
  pub fragment-set_fragment : (f : Option Text) (u : U) → lib.fragment (lib.set_fragment f u) ≡ f

pub data OriginError : Type 0 where
  wrong_scheme no_host has_credentials has_query_or_fragment remote_plaintext : OriginError
  invalid_target listen_not_loopback no_connections queue_bytes_out_of_range : OriginError

abbrev ascii_lower : ℕ → ℕ
ascii_lower c = if leb b'A' c && leb c b'Z' then c + 32 else c

-- `host.eq_ignore_ascii_case(…)`
abbrev pub eq_ignore_ascii_case : Text → Text → Bool
eq_ignore_ascii_case s t = text_eq (map ascii_lower s) (map ascii_lower t)

abbrev pub is_empty_text : Text → Bool
is_empty_text [] = true
is_empty_text (c ∷ s) = false

module _ {U : Type 0} (lib : UrlLib U) where
  unfoldable pub is_loopback_host : Text → Bool
  is_loopback_host host = eq_ignore_ascii_case host (codes "localhost") || lib.is_loopback_ip host

  unfoldable pub validate_upstream_origin : U → Option OriginError
  unfolding is_loopback_host
  validate_upstream_origin origin =
      if not (text_eq (lib.scheme origin) (codes "ws") || text_eq (lib.scheme origin) (codes "wss"))
      then some wrong_scheme
      else if not (is_some (lib.host_str origin))
      then some no_host
      else if not (is_empty_text (lib.username origin)) || is_some (lib.password origin)
      then some has_credentials
      else if is_some (lib.query origin) || is_some (lib.fragment origin)
      then some has_query_or_fragment
      else if text_eq (lib.scheme origin) (codes "ws")
          && not (is_loopback_host (unwrap_or (lib.host_str origin) []))
      then some remote_plaintext
      else none

  abbrev ok_or_invalid : Option U → Result U OriginError
  ok_or_invalid none = err invalid_target
  ok_or_invalid (some u) = ok u

  -- `Url::parse("ws://relay.invalid").and_then(|base| base.join(target))`
  abbrev join_base : Text → Option U → Option U
  join_base target none = none
  join_base target (some base) = lib.join base target

  abbrev pub request_url : Text → Result U OriginError
  request_url target = elim (lib.parse target) [
    | some u ↦ ok u
    | none ↦ ok_or_invalid (join_base target (lib.parse (codes "ws://relay.invalid")))
  ]

  -- The URL of the origin with the path and the query of the request.
  abbrev pub redirect : U → U → U
  redirect origin u =
      lib.set_fragment none (lib.set_query (lib.query u) (lib.set_path (lib.path u) origin))

  unfoldable pub build_upstream_url : U → Text → Result U OriginError
  build_upstream_url origin target = request_url target >>= (λ u. ok (redirect origin u))

  -- `RelayConfig`, its address seen as whether it is a loopback one.
  pub record RelayConfig : Type 0 where
    pub listen_is_loopback : Bool
    pub upstream_origin : U
    pub max_connections : ℕ
    pub max_capture_queue_bytes : ℕ

  -- The checks with which `run_relay` begins.
  unfoldable pub check_config : RelayConfig → Option OriginError
  unfolding validate_upstream_origin
  check_config config = elim (validate_upstream_origin config.upstream_origin) [
    | some e ↦ some e
    | none ↦
        if not config.listen_is_loopback
        then some listen_not_loopback
        else if config.max_connections == 0
        then some no_connections
        else if (config.max_capture_queue_bytes == 0)
            || ltb (2 ^ 32 - 1) config.max_capture_queue_bytes
        then some queue_bytes_out_of_range
        else none
  ]
