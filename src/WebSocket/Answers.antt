-- ===== src/WebSocket/Answers.antt =====
-- Which caller that waits gets which response.
use koc_core.Common.{
  ℕ, ◌+◌, ◌^◌, ◌==◌, ◌≤◌, ◌<◌, ◌≡◌, ◌≢◌, refl, sym, ap, ◌∙◌, inl, inr, true, false, Option, none,
  some, List, [], ◌∷◌, ltb, Bool-cases, arith,
}
use koc_core.Common.Int.{ℤ}
use koc_core.Common.Results.{Result, ok, err, All}
use koc_core.Json.{Text, Value, SerdeJson}
use koc_core.Crypto.Lz4.{Lz4Frame}
use koc_core.Protocol.Message.{ProtoMsg, ProtoError, seq, resp, parse_message}
use koc_core.WebSocket.{
  WebSocketClient, Received, find_waiter, remove_waiter, update_ack, time_out, send, start_request,
  response_of, response_value, dispatch, receive,
}
use koc_core.WebSocket.Reply.{IsReplyTo, response_of-IsReplyTo}

module _ {W : Type 0} where
  find_waiter-remove_same : (n : ℕ) (ws : List (ℕ × W)) → find_waiter n (remove_waiter n ws) ≡ none
  unfolding find_waiter remove_waiter
  find_waiter-remove_same n [] = refl
  find_waiter-remove_same n ((k, w) ∷ ws) = elim (Bool-cases (k == n)) [
    | inl same ↦ rw same (find_waiter-remove_same n ws)
    | inr other ↦ rw other (rw (other, find_waiter-remove_same n ws) refl)
  ]

  find_waiter-remove_other :
      (n m : ℕ) (ws : List (ℕ × W)) → n ≢ m → find_waiter n (remove_waiter m ws) ≡ find_waiter n ws
  unfolding find_waiter remove_waiter
  find_waiter-remove_other n m [] d = refl
  find_waiter-remove_other n m ((k, w) ∷ ws) d = elim (Bool-cases (k == m)) [
    | inl same ↦
        let other : (k == n) ≡ false = ground (arith, same) in
        rw (same, other) (find_waiter-remove_other n m ws d)
    | inr different ↦ rw different (rw (find_waiter-remove_other n m ws d) refl)
  ]

-- What can happen between a request and its response: other calls, frames, and timeouts.
pub data Event (N W : Type 0) : Type 0 where
  sends : ℤ → ℕ → ℕ → Text → Option (Value N) → Event N W
  starts : ℤ → ℕ → ℕ → Text → Option (Value N) → W → Event N W
  receives : List ℕ → Event N W
  times_out : ℕ → Event N W

module _ {N : Type 0} (lib : SerdeJson N) where
  abbrev pub NoResponse : ℕ → Result (ProtoMsg N) ProtoError → Type 0
  NoResponse n (ok proto) = n ≢ resp lib proto
  NoResponse n (err e) = Unit

module _ {N W : Type 0} (lib : SerdeJson N) (lz4 : Lz4Frame) where
  abbrev pub apply : Event N W → WebSocketClient W → WebSocketClient W
  apply (sends now mask rnd cmd params) self = (send lib lz4 now mask rnd cmd params self).1
  apply (starts now mask rnd cmd params w) self =
      (start_request lib lz4 now mask rnd cmd params w self).1
  apply (receives bytes) self = (receive lib lz4 bytes self).client
  apply (times_out n) self = time_out n self

  abbrev pub apply_all : List (Event N W) → WebSocketClient W → WebSocketClient W
  apply_all [] self = self
  apply_all (e ∷ es) self = apply_all es (apply e self)

  -- The numbers that the events give away.
  abbrev pub uses : Event N W → ℕ
  uses (sends now mask rnd cmd params) = 1
  uses (starts now mask rnd cmd params w) = 1
  uses (receives bytes) = 0
  uses (times_out n) = 0

  abbrev pub numbers_used : List (Event N W) → ℕ
  numbers_used [] = 0
  numbers_used (e ∷ es) = uses e + numbers_used es

  -- The event is no response to the request of this number and not its timeout.
  abbrev pub IsOtherThan : ℕ → Event N W → Type 0
  IsOtherThan n (sends now mask rnd cmd params) = Unit
  IsOtherThan n (starts now mask rnd cmd params w) = Unit
  IsOtherThan n (receives bytes) = NoResponse lib n (parse_message lib lz4 bytes)
  IsOtherThan n (times_out m) = n ≢ m

  -- The waiter is on record under a number that is given away.
  abbrev pub IsWaiting : ℕ → W → WebSocketClient W → Type 0
  IsWaiting n w self = (find_waiter n self.pending ≡ some w) × (n < self.seq)

  update_ack-IsWaiting :
      (n : ℕ) (w : W) (k : ℕ) (self : WebSocketClient W)
      → IsWaiting n w self
      → IsWaiting n w (update_ack k self) × ((update_ack k self).seq ≡ self.seq)
  update_ack-IsWaiting n w k self h = elim (Bool-cases (ltb 0 k)) [
    | inl new ↦ rw new (h, refl)
    | inr old ↦ rw old (h, refl)
  ]

  dispatch-IsWaiting :
      (n : ℕ) (w : W) (proto : ProtoMsg N) (self : WebSocketClient W)
      → n ≢ resp lib proto
      → IsWaiting n w self
      → IsWaiting n w (dispatch lib lz4 proto self).client
        × ((dispatch lib lz4 proto self).client.seq ≡ self.seq)
  unfolding dispatch
  dispatch-IsWaiting n w proto self d h =
      let updated = update_ack (seq lib proto) self in
      let ((found, below), same) = update_ack-IsWaiting n w (seq lib proto) self h in
      elim (Bool-cases (ltb 0 (resp lib proto))) [
        | inl answer ↦
            rw answer
              ((find_waiter-remove_other n (resp lib proto) updated.pending d ∙ found, below), same)
        | inr push ↦ rw push ((found, below), same)
      ]

  receive-IsWaiting :
      (n : ℕ) (w : W) (bytes : List ℕ) (self : WebSocketClient W)
      → NoResponse lib n (parse_message lib lz4 bytes)
      → IsWaiting n w self
      → IsWaiting n w (receive lib lz4 bytes self).client
        × ((receive lib lz4 bytes self).client.seq ≡ self.seq)
  unfolding receive
  receive-IsWaiting n w bytes self other h =
      elim (parse_message lib lz4 bytes)
          as (λ p.
            let out : Received W N = elim p [
              | ok proto ↦ dispatch lib lz4 proto self
              | err e ↦ record { client = self; reply = none; forwarded = none }
            ] in
            NoResponse lib n p → IsWaiting n w out.client × (out.client.seq ≡ self.seq)) [
              | ok proto ↦ λ d. dispatch-IsWaiting n w proto self d h
              | err e ↦ λ _. (h, refl)
            ]
        other

  -- One event: the waiter stays, and one number at most is given away.
  apply-IsWaiting :
      (n : ℕ) (w : W) (e : Event N W) (self : WebSocketClient W)
      → self.seq + uses e < 2 ^ 32
      → IsOtherThan n e
      → IsWaiting n w self
      → IsWaiting n w (apply e self) × ((apply e self).seq ≤ self.seq + uses e)
  unfolding send start_request time_out find_waiter
  apply-IsWaiting n w (sends now mask rnd cmd params) self room other (found, below) =
      ((found, omega (arith, below, room)), omega (arith, room))
  apply-IsWaiting n w (starts now mask rnd cmd params v) self room other (found, below) =
      let new : (self.seq == n) ≡ false = ground (arith, below) in
      (
        (
          rw new (
              find_waiter-remove_other n self.seq self.pending (λ e. omega (arith, e, below))
              ∙ found),
          omega (arith, below, room),
        ),
        omega (arith, room),
      )
  apply-IsWaiting n w (receives bytes) self room other h =
      let (waits, same) = receive-IsWaiting n w bytes self other h in (waits, omega (arith, same))
  apply-IsWaiting n w (times_out m) self room other (found, below) =
      ((find_waiter-remove_other n m self.pending other ∙ found, below), omega arith)

  apply_all-IsWaiting :
      (n : ℕ) (w : W) (es : List (Event N W)) (self : WebSocketClient W)
      → self.seq + numbers_used es < 2 ^ 32
      → All (IsOtherThan n) es
      → IsWaiting n w self
      → IsWaiting n w (apply_all es self)
  apply_all-IsWaiting n w [] self room others h = h
  apply_all-IsWaiting n w (e ∷ es) self room (other, others) h =
      let (waits, grown) = apply-IsWaiting n w e self (omega (arith, room)) other h in
      apply_all-IsWaiting n w es (apply e self) (omega (arith, room, grown)) others waits

  reply-found :
      (w : W) (proto : ProtoMsg N) (bytes : List ℕ) (self : WebSocketClient W)
      → parse_message lib lz4 bytes ≡ ok proto
      → 0 < resp lib proto
      → find_waiter (resp lib proto) self.pending ≡ some w
      → let got = receive lib lz4 bytes self in
        (got.reply ≡ some (w, response_of lib lz4 proto (response_value lib lz4 proto)))
        × (find_waiter (resp lib proto) got.client.pending ≡ none)
  unfolding receive dispatch
  reply-found w proto bytes self parsed some_resp found =
      let answer : ltb 0 (resp lib proto) ≡ true = ground (arith, some_resp) in
      rw (parsed, receive)
        (elim (Bool-cases (ltb 0 (seq lib proto))) [
          | inl new ↦
              rw (answer, new, found) (refl, find_waiter-remove_same (resp lib proto) self.pending)
          | inr old ↦
              rw (answer, old, found) (refl, find_waiter-remove_same (resp lib proto) self.pending)
        ])

  -- A request is made by a client whose next number is not 0. Whatever follows, other requests,
  -- frames and timeouts in any order, as long as none of it is a response with the request's
  -- number or its timeout, and as long as the counter stays below 2 ^ 32 with this request and the
  -- numbers that the other calls take: when a frame parses to a message that responds to this
  -- number, this request's waiter is sent a reply, and no waiter has the number any more. If the
  -- message's code is 0, the reply is the data: the object in the body, the value whose encoding
  -- the body holds as base64, or all fields when the body is neither. If the code is not 0, the
  -- reply is the error text of the code and the message's hint.
  pub start_request-answered :
      (now : ℤ) (mask rnd : ℕ) (cmd : Text) (params : Option (Value N)) (w : W)
      (es : List (Event N W)) (bytes : List ℕ) (proto : ProtoMsg N) (self : WebSocketClient W)
      → 0 < self.seq
      → self.seq + 1 + numbers_used es < 2 ^ 32
      → All (IsOtherThan self.seq) es
      → parse_message lib lz4 bytes ≡ ok proto
      → resp lib proto ≡ self.seq
      → let started = start_request lib lz4 now mask rnd cmd params w self in
        let got = receive lib lz4 bytes (apply_all es started.1) in
        (started.0.0 ≡ self.seq)
        × ((r : Result (Value N) Text) × (got.reply ≡ some (w, r)) × IsReplyTo lib proto r)
        × (find_waiter self.seq got.client.pending ≡ none)
  unfolding start_request find_waiter
  start_request-answered now mask rnd cmd params w es bytes proto self low room others parsed same =
      let started = (start_request lib lz4 now mask rnd cmd params w self).1 in
      let late = apply_all es started in
      let mine : (self.seq == self.seq) ≡ true = ground arith in
      let waits : IsWaiting self.seq w started = (rw mine refl, omega (arith, room)) in
      let (found, _) =
        apply_all-IsWaiting self.seq w es started (omega (arith, room)) others waits in
      let (reply, gone) =
        reply-found w proto bytes late parsed (omega (arith, low, same))
          (ap (λ n. find_waiter n late.pending) same ∙ found) in
      (
        refl,
        (_, reply, response_of-IsReplyTo lib lz4 proto),
        sym (ap (λ n. find_waiter n (receive lib lz4 bytes late).client.pending) same) ∙ gone,
      )
