-- ===== src/Capture/Inspector/History.antt =====
-- The inspector over a whole sequence of records.
use koc_core.Common.{
  ℕ, suc, ◌+◌, ◌-◌, ◌≤◌, ◌<◌, ◌≡◌, refl, sym, ap, ap₂, subst, ◌∙◌, Bool, true, false, none, some,
  List, [], ◌∷◌, length, arith,
}
use koc_core.Common.Codes.{codes}
use koc_core.Common.Results.{ok, All}
use koc_core.Json.{Text, SerdeJson}
use koc_core.Crypto.Lz4.{Lz4Frame, default_max_decompressed_size}
use koc_core.Protocol.Message.{ProtoMsg, unwrap_or, parse_message_limited, default_max_wire_size}
use koc_core.Capture.Record.{CaptureRecord, Base64Engine, binary_payload}
use koc_core.Capture.Inspector.{
  DecodedEvent, stopped, decoded, Inspector, find_request, max_pending, answers, asks,
  message_event, decode_message, inspect_message, decode_record, inspect, inspect_all,
}
use koc_core.Capture.Inspector.Matching.{
  concerns, inspect_message-length, inspect_message-grows, inspect_message-find,
  inspect_message-asks, inspect_message-answers,
}

module _ {N : Type 0} (lib : SerdeJson N) (lz4 : Lz4Frame) (engine : Base64Engine) where
  -- Whether the record is a request with this key or a response to one.
  unfoldable pub record_concerns : Text → ℕ → CaptureRecord → Bool
  record_concerns id n r = elim (decode_record lib lz4 engine r) [
    | stopped event ↦ false
    | decoded event ↦ concerns id n r event
  ]

  abbrev pub IsOther : Text → ℕ → CaptureRecord → Type 0
  IsOther id n r = record_concerns id n r ≡ false

  -- Whatever records are inspected, in whatever order, and whether or not they decode: there are
  -- never more than 10 000 requests on record, when there are not more at the start.
  pub inspect_all-length :
      (rs : List CaptureRecord) (self : Inspector)
      → length self.pending ≤ max_pending
      → length (inspect_all lib lz4 engine rs self).pending ≤ max_pending
  unfolding inspect_all inspect
  inspect_all-length [] self h = h
  inspect_all-length (r ∷ rs) self h =
      let after : length (inspect lib lz4 engine r self).0.pending ≤ max_pending =
        elim (decode_record lib lz4 engine r)
          as (λ d.
            length
              (elim d as (λ _. Inspector × DecodedEvent N) [
                | stopped event ↦ (self, event)
                | decoded event ↦ inspect_message r event self
              ]).0.pending
            ≤ max_pending) [
              | stopped event ↦ h
              | decoded event ↦ inspect_message-length r event self h
            ] in
      inspect_all-length rs (inspect lib lz4 engine r self).0 after

  pub decode_record-parses :
      (r : CaptureRecord) (payload : List ℕ) (proto : ProtoMsg N)
      → binary_payload engine r ≡ ok (some payload)
      → parse_message_limited lib lz4 payload default_max_wire_size default_max_decompressed_size
        ≡ ok proto
      → decode_record lib lz4 engine r ≡ decoded (message_event lib r payload proto)
  unfolding decode_record
  decode_record-parses r payload proto h p = rw (h, decode_record) (rw (p, decode_message) refl)

  -- One record that does not concern the key.
  inspect-find :
      (id : Text) (n : ℕ) (r : CaptureRecord) (self : Inspector)
      → length self.pending < max_pending
      → IsOther id n r
      → (find_request id n (inspect lib lz4 engine r self).0.pending
          ≡ find_request id n self.pending)
        × (length (inspect lib lz4 engine r self).0.pending ≤ suc (length self.pending))
  unfolding inspect record_concerns
  inspect-find id n r self h =
      elim (decode_record lib lz4 engine r)
        as (λ d.
          let out : Inspector × DecodedEvent N = elim d [
            | stopped event ↦ (self, event)
            | decoded event ↦ inspect_message r event self
          ] in
          elim d [ stopped event ↦ false | decoded event ↦ concerns id n r event ] ≡ false
          → (find_request id n out.0.pending ≡ find_request id n self.pending)
            × (length out.0.pending ≤ suc (length self.pending))) [
              | stopped event ↦ λ _. (refl, omega arith)
              | decoded event ↦ λ other. (
                inspect_message-find id n r event self h other,
                inspect_message-grows r event self h,
              )
            ]

  inspect_all-find :
      (id : Text) (n : ℕ) (rs : List CaptureRecord) (self : Inspector)
      → length self.pending + length rs ≤ max_pending
      → All (IsOther id n) rs
      → find_request id n (inspect_all lib lz4 engine rs self).pending
        ≡ find_request id n self.pending
  unfolding inspect_all
  inspect_all-find id n [] self h a = refl
  inspect_all-find id n (r ∷ rs) self h (other, a) =
      let (same, grown) = inspect-find id n r self (omega arith) other in
      inspect_all-find id n rs (inspect lib lz4 engine r self).0 (omega (arith, h, grown)) a ∙ same

  inspect-decoded :
      (r : CaptureRecord) (event : DecodedEvent N) (self : Inspector)
      → decode_record lib lz4 engine r ≡ decoded event
      → inspect lib lz4 engine r self ≡ inspect_message r event self
  unfolding inspect
  inspect-decoded r event self e = rw (e, inspect) refl

  -- A request and a response on the same connection, the response with the request's number, and
  -- between them records of which none is a request with that number on that connection or a
  -- response to it, while fewer than 10 000 requests can be on record: the response's event names
  -- the request's command (`<unknown>` when it has none) and the time between the two (0 when the
  -- clock went back), and the request is no longer on record.
  pub inspect-matches :
      (request response : CaptureRecord) (asked reply : DecodedEvent N)
      (between : List CaptureRecord) (self : Inspector)
      → decode_record lib lz4 engine request ≡ decoded asked
      → decode_record lib lz4 engine response ≡ decoded reply
      → asks request.direction asked.seq ≡ true
      → answers response.direction reply.resp ≡ true
      → response.connection_id ≡ request.connection_id
      → reply.resp ≡ asked.seq
      → All (IsOther request.connection_id asked.seq) between
      → suc (length self.pending + length between) ≤ max_pending
      → let out =
          inspect lib lz4 engine response (inspect_all lib lz4 engine (request ∷ between) self) in
        (out.1.matched_request ≡ some (unwrap_or asked.cmd (codes "<unknown>")))
        × (out.1.latency_ms ≡ some (response.timestamp_ms - request.timestamp_ms))
        × (find_request request.connection_id asked.seq out.0.pending ≡ none)
  unfolding inspect_all
  inspect-matches request response asked reply between self d d' a a' same_id same_n others room =
      let noted = inspect lib lz4 engine request self in
      let found = inspect_message-asks request asked self a in
      let grown = inspect_message-grows request asked self (omega (arith, room)) in
      let e = inspect-decoded request asked self d in
      let kept =
        inspect_all-find request.connection_id asked.seq between noted.0
          (omega (arith, room, grown, ap (λ o. length o.0.pending) e)) others
        ∙ ap (λ o. find_request request.connection_id asked.seq o.0.pending) e
        ∙ found in
      let late = inspect_all lib lz4 engine between noted.0 in
      let key : find_request response.connection_id reply.resp late.pending
          ≡ find_request request.connection_id asked.seq late.pending =
        ap₂ (λ id n. find_request id n late.pending) same_id same_n in
      let (cmd_is, latency_is, gone) =
        inspect_message-answers response reply late _ a' (key ∙ kept) in
      subst
        (λ out.
          (out.1.matched_request ≡ some (unwrap_or asked.cmd (codes "<unknown>")))
          × (out.1.latency_ms ≡ some (response.timestamp_ms - request.timestamp_ms))
          × (find_request request.connection_id asked.seq out.0.pending ≡ none))
        (sym (inspect-decoded response reply late d'))
        (
          cmd_is,
          latency_is,
          sym (
                ap₂ (λ id n. find_request id n (inspect_message response reply late).0.pending)
                  same_id same_n)
              ∙ gone,
        )
