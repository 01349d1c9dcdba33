-- ===== src/Proxy/Origin/Checks.antt =====
-- What the checks of src/proxy.rs admit, and where its requests go.
use koc_core.Common.{
  ◌^◌, ◌==◌, ◌≡◌, ◌<◌, refl, ap, inl, inr, ◌⊎◌, ◌↔◌, Bool, true, false, ◌&&◌, ◌||◌, not, Option,
  none, some, [], if◌then◌else◌, Bool-cases, Option-cases, arith,
}
use koc_core.Common.Codes.{codes}
use koc_core.Common.Results.{ok}
use koc_core.Json.{Text}
use koc_core.Bon.Encoder.{text_eq}
use koc_core.Protocol.Message.{unwrap_or}
use koc_core.Capture.Catalog.{is_some}
use koc_core.Proxy.Origin.{
  UrlLib, OriginError, wrong_scheme, no_host, has_credentials, has_query_or_fragment,
  remote_plaintext, listen_not_loopback, no_connections, queue_bytes_out_of_range, is_empty_text,
  is_loopback_host, validate_upstream_origin, request_url, RelayConfig, check_config,
}

module _ {U : Type 0} (lib : UrlLib U) where
  -- What an admitted origin is: a URL of a host by the two schemes, without credentials, query
  -- and fragment, the plain scheme only for a loopback host.
  abbrev pub IsOrigin : U → Type 0
  IsOrigin u =
      ((text_eq (lib.scheme u) (codes "wss") ≡ true) ⊎ (text_eq (lib.scheme u) (codes "ws") ≡ true))
      × ((host : Text) × (lib.host_str u ≡ some host)
          × ((text_eq (lib.scheme u) (codes "ws") ≡ false) ⊎ (is_loopback_host lib host ≡ true)))
      × (is_empty_text (lib.username u) ≡ true)
      × (lib.password u ≡ none)
      × (lib.query u ≡ none)
      × (lib.fragment u ≡ none)

  none_of : {A : Type 0} (o : Option A) → is_some o ≡ false → o ≡ none
  none_of none h = refl
  none_of (some a) h = cc

  guard_passed :
      (b : Bool) (e : OriginError) (rest : Option OriginError)
      → (if b then some e else rest) ≡ none
      → (b ≡ false) × (rest ≡ none)
  guard_passed true e rest h = cc
  guard_passed false e rest h = (refl, h)

  or_false : (a b : Bool) → (a || b) ≡ false → (a ≡ false) × (b ≡ false)
  or_false true b h = cc
  or_false false b h = (refl, h)

  either : (a b : Bool) → (a || b) ≡ true → (b ≡ true) ⊎ (a ≡ true)
  either true b h = inr refl
  either false b h = inl h

  of_not : (b : Bool) → not b ≡ false → b ≡ true
  of_not true h = refl
  of_not false h = cc

  host_passed :
      (o : Option Text) (plain : Bool)
      → is_some o ≡ true
      → (plain && not (is_loopback_host lib (unwrap_or o []))) ≡ false
      → (host : Text) × (o ≡ some host) × ((plain ≡ false) ⊎ (is_loopback_host lib host ≡ true))
  host_passed none plain h p = cc
  host_passed (some host) true h p = (host, refl, inr (of_not _ p))
  host_passed (some host) false h p = (host, refl, inl refl)

  validate_upstream_origin-IsOrigin : (u : U) → validate_upstream_origin lib u ≡ none → IsOrigin u
  unfolding validate_upstream_origin
  validate_upstream_origin-IsOrigin u h =
      let (scheme, h₁) = guard_passed _ wrong_scheme _ h in
      let (host, h₂) = guard_passed _ no_host _ h₁ in
      let (credentials, h₃) = guard_passed _ has_credentials _ h₂ in
      let (extras, h₄) = guard_passed _ has_query_or_fragment _ h₃ in
      let (plain, _) = guard_passed _ remote_plaintext none h₄ in
      let (user, password) =
        or_false (not (is_empty_text (lib.username u))) (is_some (lib.password u)) credentials in
      let (query, fragment) = or_false (is_some (lib.query u)) (is_some (lib.fragment u)) extras in
      (
        either (text_eq (lib.scheme u) (codes "ws")) (text_eq (lib.scheme u) (codes "wss"))
            (of_not _ scheme),
        host_passed (lib.host_str u) (text_eq (lib.scheme u) (codes "ws")) (of_not _ host) plain,
        of_not _ user,
        none_of (lib.password u) password,
        none_of (lib.query u) query,
        none_of (lib.fragment u) fragment,
      )

  guard_passes :
      (b : Bool) (e : OriginError) (rest : Option OriginError)
      → b ≡ false
      → rest ≡ none
      → (if b then some e else rest) ≡ none
  guard_passes b e rest h r = rw h r

  IsOrigin-validate_upstream_origin : (u : U) → IsOrigin u → validate_upstream_origin lib u ≡ none
  unfolding validate_upstream_origin
  IsOrigin-validate_upstream_origin u
        (scheme, (host, found, plain), user, password, query, fragment) =
      let ws = text_eq (lib.scheme u) (codes "ws") in
      let wss = text_eq (lib.scheme u) (codes "wss") in
      let known : not (ws || wss) ≡ false = elim scheme [
        | inl secure ↦ elim (Bool-cases ws) [ inl a ↦ rw a refl | inr a ↦ rw (a, secure) refl ]
        | inr bare ↦ rw bare refl
      ] in
      let safe : (ws && not (is_loopback_host lib (unwrap_or (lib.host_str u) []))) ≡ false =
        elim plain [
          | inl other ↦ rw other refl
          | inr local ↦ elim (Bool-cases ws) [
            | inl a ↦ rw (a, found, local) refl
            | inr a ↦ rw a refl
          ]
        ] in
      guard_passes _ wrong_scheme _ known (
        guard_passes _ no_host _ (ap (λ o. not (is_some o)) found) (
          guard_passes _ has_credentials _ (rw (user, password) refl) (
            guard_passes _ has_query_or_fragment _ (rw (query, fragment) refl)
              (guard_passes _ remote_plaintext none safe refl))))

  -- A configuration passes the checks exactly if its origin is the URL of a host by `ws` or `wss`,
  -- without credentials, query and fragment, and by `ws` only if the host is a loopback one, it
  -- listens on a loopback address, it allows a connection, and its byte budget is between 1 and
  -- `u32::MAX`.
  pub check_config_iff :
      (config : RelayConfig lib)
      → (check_config lib config ≡ none) ↔ (
          IsOrigin config.upstream_origin
          × (config.listen_is_loopback ≡ true)
          × (0 < config.max_connections)
          × (0 < config.max_capture_queue_bytes)
          × (config.max_capture_queue_bytes < 2 ^ 32))
  unfolding check_config
  check_config_iff config = (
    (λ h. elim (Option-cases (validate_upstream_origin lib config.upstream_origin)) [
      | inl passed ↦
          let (listen, h₁) =
            guard_passed _ listen_not_loopback _ (rw (passed, check_config) at h) in
          let (many, h₂) = guard_passed _ no_connections _ h₁ in
          let (range, _) = guard_passed _ queue_bytes_out_of_range none h₂ in
          let (low, high) = or_false (config.max_capture_queue_bytes == 0) _ range in
          (
            validate_upstream_origin-IsOrigin config.upstream_origin passed,
            of_not _ listen,
            ground (arith, many),
            ground (arith, low),
            ground (arith, high),
          )
      | inr (e, failed) ↦ let no : some e ≡ none = rw (failed, check_config) at h in cc
    ]),
    (λ (origin, listen, many, low, high).
        rw (IsOrigin-validate_upstream_origin config.upstream_origin origin, check_config)
          (rw listen (ground arith))),
  )

  -- Where a request may be sent: to the origin's host by the origin's scheme, which is `wss`, or
  -- `ws` to a loopback host, without credentials and fragment, and with a query if the request's
  -- URL has one.
  abbrev pub IsUpstream : U → Text → U → Type 0
  IsUpstream origin target u =
      ((text_eq (lib.scheme u) (codes "wss") ≡ true) ⊎ (text_eq (lib.scheme u) (codes "ws") ≡ true))
      × ((host : Text) × (lib.host_str u ≡ some host)
          × (lib.host_str origin ≡ some host)
          × ((text_eq (lib.scheme u) (codes "ws") ≡ false) ⊎ (is_loopback_host lib host ≡ true)))
      × (lib.scheme u ≡ lib.scheme origin)
      × (is_empty_text (lib.username u) ≡ true)
      × (lib.password u ≡ none)
      × (lib.fragment u ≡ none)
      × ((r : U) × (request_url lib target ≡ ok r)
          × (is_some (lib.query u) ≡ is_some (lib.query r)))
