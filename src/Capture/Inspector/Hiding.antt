-- ===== src/Capture/Inspector/Hiding.antt =====
-- The bodies of the events of an inspector that redacts.
use koc_core.Common.{ℕ, ◌≡◌, refl, sym, ap, subst, ◌∙◌, true, Option, none, some, List}
use koc_core.Common.Results.{ok, err}
use koc_core.Json.{Value, SerdeJson}
use koc_core.Crypto.Lz4.{Lz4Frame, default_max_decompressed_size}
use koc_core.Protocol.Message.{parse_message_limited, default_max_wire_size}
use koc_core.Capture.Record.{CaptureRecord, Base64Engine, binary_payload}
use koc_core.Capture.Redact.{redact_value, redact_value_iff, IsRedacted}
use koc_core.Capture.Inspector.{
  DecodedEvent, Decoded, stopped, decoded, Inspector, match_response, redact_event, redact_body,
  message_failed, payload_failed, blank_event, sized_event, message_event, decode_message,
  inspect_message, decode_record, inspect,
}

module _ {N : Type 0} (lib : SerdeJson N) (lz4 : Lz4Frame) (engine : Base64Engine) where
  -- A body, if there is one, is redacted.
  abbrev pub IsHidden : Option (Value N) → Type 0
  IsHidden none = Unit
  IsHidden (some v) = IsRedacted v

  every-IsHidden : (o : Option (Value N)) → ((v : Value N) → o ≡ some v → IsRedacted v) → IsHidden o
  every-IsHidden none h = tt
  every-IsHidden (some v) h = h v refl

  abbrev HidesBody : DecodedEvent N → Type 0
  HidesBody event = (v : Value N) → event.body ≡ some v → IsRedacted v

  redact_body-IsRedacted :
      (o : Option (Value N)) (v : Value N) → redact_body o ≡ some v → IsRedacted v
  redact_body-IsRedacted none v h = cc
  redact_body-IsRedacted (some w) v h =
      let same : redact_value w ≡ v = cc in subst IsRedacted same (redact_value_iff w).0

  inspect_message-HidesBody :
      (r : CaptureRecord) (event : DecodedEvent N) (self : Inspector)
      → self.redact_sensitive ≡ true
      → HidesBody (inspect_message r event self).1
  unfolding inspect_message
  inspect_message-HidesBody r event self on v h =
      let out = (match_response r event self.pending).1 in
      redact_body-IsRedacted out.body v (sym (ap (λ b. (redact_event b out).body) on) ∙ h)

  abbrev StopsEmpty : Decoded N → Type 0
  StopsEmpty (stopped event) = event.body ≡ none
  StopsEmpty (decoded event) = Unit

  decode_message-StopsEmpty :
      (r : CaptureRecord) (payload : List ℕ) → StopsEmpty (decode_message lib lz4 engine r payload)
  decode_message-StopsEmpty r payload =
      elim (parse_message_limited lib lz4 payload default_max_wire_size
          default_max_decompressed_size)
        as (λ p. StopsEmpty (elim p [
          | err e ↦
              stopped (record (sized_event r payload) { decode_error = some (message_failed e) })
          | ok proto ↦ decoded (message_event lib r payload proto)
        ])) [ err e ↦ refl | ok proto ↦ tt ]

  decode_record-StopsEmpty : (r : CaptureRecord) → StopsEmpty (decode_record lib lz4 engine r)
  unfolding decode_record
  decode_record-StopsEmpty r =
      elim (binary_payload engine r)
        as (λ p. StopsEmpty (elim p [
          | err e ↦ stopped (record (blank_event r) { decode_error = some (payload_failed e) })
          | ok none ↦ stopped (blank_event r)
          | ok (some payload) ↦ decode_message lib lz4 engine r payload
        ])) [
          | err e ↦ refl
          | ok none ↦ refl
          | ok (some payload) ↦ decode_message-StopsEmpty r payload
        ]

  inspect-HidesBody :
      (r : CaptureRecord) (self : Inspector)
      → self.redact_sensitive ≡ true
      → (v : Value N) → (inspect lib lz4 engine r self).1.body ≡ some v
      → IsRedacted v
  unfolding inspect
  inspect-HidesBody r self on =
      elim (decode_record lib lz4 engine r)
          as (λ d.
            StopsEmpty d
            → HidesBody
                (elim d as (λ _. Inspector × DecodedEvent N) [
                  | stopped event ↦ (self, event)
                  | decoded event ↦ inspect_message r event self
                ]).1) [
                  | stopped event ↦ λ e v h. cc
                  | decoded event ↦ λ _. inspect_message-HidesBody r event self on
                ]
        (decode_record-StopsEmpty r)

  -- The event that an inspector which redacts returns, for any record and in any state, has no body
  -- or one in which each sensitive key, at any depth, holds the mark of the redaction.
  pub inspect-IsRedacted :
      (r : CaptureRecord) (self : Inspector)
      → self.redact_sensitive ≡ true
      → IsHidden (inspect lib lz4 engine r self).1.body
  inspect-IsRedacted r self on =
      every-IsHidden (inspect lib lz4 engine r self).1.body (inspect-HidesBody r self on)
