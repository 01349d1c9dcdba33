-- ===== src/Capture/Inspector/Matching.antt =====
-- Which request a response is matched with, whatever the records between them.
use koc_core.Common.{
  ℕ, suc, ◌-◌, ◌≤◌, ◌<◌, ◌≡◌, refl, ap₂, ◌∙◌, inl, inr, Bool, true, false, ◌&&◌, ◌||◌, none, some,
  List, length, Bool-cases, Option-cases, arith,
}
use koc_core.Common.Codes.{codes}
use koc_core.Json.{Text}
use koc_core.Protocol.Message.{unwrap_or}
use koc_core.Capture.Record.{CaptureRecord, Direction, client_to_server, server_to_client}
use koc_core.Capture.Inspector.{
  DecodedEvent, PendingRequest, PendingEntry, Inspector, find_request, insert_request, make_room,
  max_pending, answers, asks, match_response, note_request, inspect_message,
}
use koc_core.Capture.Inspector.Pending.{
  same_key, find_request-remove_request, find_request-remove_other, find_request-insert_request,
  find_request-insert_other, length-remove_request, length-make_room, make_room_free,
}

asks→not_answers : (side : Direction) (n m : ℕ) → asks side n ≡ true → answers side m ≡ false
asks→not_answers client_to_server n m h = refl
asks→not_answers server_to_client n m h = cc

answers→not_asks : (side : Direction) (n m : ℕ) → answers side m ≡ true → asks side n ≡ false
answers→not_asks client_to_server n m h = cc
answers→not_asks server_to_client n m h = refl

module _ {N : Type 0} where
  note_request-length :
      (r : CaptureRecord) (event : DecodedEvent N) (es : List PendingEntry)
      → length es ≤ max_pending
      → length (note_request r event es) ≤ max_pending
  unfolding note_request insert_request
  note_request-length r event es h = elim (Bool-cases (asks r.direction event.seq)) [
    | inl is_on ↦ rw is_on (
        omega (
          arith,
          length-make_room r.timestamp_ms es h,
          length-remove_request r.connection_id event.seq (make_room r.timestamp_ms es),
        ))
    | inr off ↦ rw off h
  ]

  match_response-length :
      (r : CaptureRecord) (event : DecodedEvent N) (es : List PendingEntry)
      → length (match_response r event es).0 ≤ length es
  unfolding match_response
  match_response-length r event es = elim (Bool-cases (answers r.direction event.resp)) [
    | inl is_on ↦ rw is_on (length-remove_request r.connection_id event.resp es)
    | inr off ↦ rw off (omega arith)
  ]

  -- With room in the map a record adds one entry at most.
  note_request-grows :
      (r : CaptureRecord) (event : DecodedEvent N) (es : List PendingEntry)
      → length es < max_pending
      → length (note_request r event es) ≤ suc (length es)
  unfolding note_request insert_request
  note_request-grows r event es h = elim (Bool-cases (asks r.direction event.seq)) [
    | inl is_on ↦
        rw (is_on, make_room_free r.timestamp_ms es h)
          (omega (arith, length-remove_request r.connection_id event.seq es))
    | inr off ↦ rw off (omega arith)
  ]

  -- A match touches only the two fields of the match.
  pub match_response-fields :
      (r : CaptureRecord) (event : DecodedEvent N) (es : List PendingEntry)
      → let out = (match_response r event es).1 in
        (out.seq ≡ event.seq)
        × (out.resp ≡ event.resp)
        × (out.cmd ≡ event.cmd)
        × (out.body ≡ event.body)
  unfolding match_response
  match_response-fields r event es = elim (Bool-cases (answers r.direction event.resp)) [
    | inl is_on ↦ elim (Option-cases (find_request r.connection_id event.resp es)) [
      | inl missing ↦ rw (is_on, missing) (refl, refl, refl, refl)
      | inr (request, found) ↦ rw (is_on, found) (refl, refl, refl, refl)
    ]
    | inr off ↦ rw off (refl, refl, refl, refl)
  ]

  -- Whether the message is a request with this key or the response to one.
  abbrev pub concerns : Text → ℕ → CaptureRecord → DecodedEvent N → Bool
  concerns id n r event =
      (asks r.direction event.seq && same_key id n r.connection_id event.seq)
      || (answers r.direction event.resp && same_key id n r.connection_id event.resp)

  match_response-find :
      (id : Text) (n : ℕ) (r : CaptureRecord) (event : DecodedEvent N) (es : List PendingEntry)
      → concerns id n r event ≡ false
      → find_request id n (match_response r event es).0 ≡ find_request id n es
  unfolding match_response
  match_response-find id n r event es h = elim (Bool-cases (answers r.direction event.resp)) [
    | inl is_on ↦
        rw is_on
          (find_request-remove_other id r.connection_id n event.resp es (ground (arith, is_on, h)))
    | inr off ↦ rw off refl
  ]

  note_request-find :
      (id : Text) (n : ℕ) (r : CaptureRecord) (event : DecodedEvent N) (es : List PendingEntry)
      → length es < max_pending
      → concerns id n r event ≡ false
      → find_request id n (note_request r event es) ≡ find_request id n es
  unfolding note_request
  note_request-find id n r event es room h = elim (Bool-cases (asks r.direction event.seq)) [
    | inl is_on ↦
        rw (is_on, make_room_free r.timestamp_ms es room)
          (find_request-insert_other id r.connection_id n event.seq _ es (ground (arith, is_on, h)))
    | inr off ↦ rw off refl
  ]

  match_response-concerns :
      (id : Text) (n : ℕ) (r : CaptureRecord) (event : DecodedEvent N) (es : List PendingEntry)
      → concerns id n r (match_response r event es).1 ≡ concerns id n r event
  match_response-concerns id n r event es =
      let (same_seq, same_resp, _, _) = match_response-fields r event es in
      ap₂
        (λ seq resp.
          (asks r.direction seq && same_key id n r.connection_id seq)
          || (answers r.direction resp && same_key id n r.connection_id resp))
        same_seq same_resp

  pub inspect_message-length :
      (r : CaptureRecord) (event : DecodedEvent N) (self : Inspector)
      → length self.pending ≤ max_pending
      → length (inspect_message r event self).0.pending ≤ max_pending
  unfolding inspect_message
  inspect_message-length r event self h =
      note_request-length r (match_response r event self.pending).1
        (match_response r event self.pending).0
        (omega (arith, h, match_response-length r event self.pending))

  pub inspect_message-grows :
      (r : CaptureRecord) (event : DecodedEvent N) (self : Inspector)
      → length self.pending < max_pending
      → length (inspect_message r event self).0.pending ≤ suc (length self.pending)
  unfolding inspect_message
  inspect_message-grows r event self h =
      let (left, matched) = match_response r event self.pending in
      let less = match_response-length r event self.pending in
      omega (arith, less, note_request-grows r matched left (omega (arith, h, less)))

  pub inspect_message-find :
      (id : Text) (n : ℕ) (r : CaptureRecord) (event : DecodedEvent N) (self : Inspector)
      → length self.pending < max_pending
      → concerns id n r event ≡ false
      → find_request id n (inspect_message r event self).0.pending ≡ find_request id n self.pending
  unfolding inspect_message
  inspect_message-find id n r event self h off =
      let (left, matched) = match_response r event self.pending in
      note_request-find id n r matched left
        (omega (arith, h, match_response-length r event self.pending))
        (match_response-concerns id n r event self.pending ∙ off)
      ∙ match_response-find id n r event self.pending off

  -- A request is on record after its message.
  pub inspect_message-asks :
      (r : CaptureRecord) (event : DecodedEvent N) (self : Inspector)
      → asks r.direction event.seq ≡ true
      → find_request r.connection_id event.seq (inspect_message r event self).0.pending
        ≡ some (record {
          cmd = unwrap_or event.cmd (codes "<unknown>");
          timestamp_ms = r.timestamp_ms;
        })
  unfolding inspect_message match_response note_request
  inspect_message-asks r event self h = rw (asks→not_answers r.direction event.seq event.resp h) (
      rw h (
        find_request-insert_request r.connection_id event.seq _
          (make_room r.timestamp_ms self.pending)))

  -- A response takes the request with it.
  pub inspect_message-answers :
      (r : CaptureRecord) (event : DecodedEvent N) (self : Inspector) (request : PendingRequest)
      → answers r.direction event.resp ≡ true
      → find_request r.connection_id event.resp self.pending ≡ some request
      → let out = inspect_message r event self in
        (out.1.matched_request ≡ some request.cmd)
        × (out.1.latency_ms ≡ some (r.timestamp_ms - request.timestamp_ms))
        × (find_request r.connection_id event.resp out.0.pending ≡ none)
  unfolding inspect_message match_response note_request
  inspect_message-answers r event self request h found =
      rw (h, found, answers→not_asks r.direction event.seq event.resp h)
        (elim (Bool-cases self.redact_sensitive) [
          | inl is_on ↦
              rw is_on
                (refl, refl, find_request-remove_request r.connection_id event.resp self.pending)
          | inr off ↦
              rw off
                (refl, refl, find_request-remove_request r.connection_id event.resp self.pending)
        ])
