-- ===== src/Proxy/Queue.antt =====
-- `prepare_record` and `enqueue_record` of src/proxy.rs: frames that wait for the analyzer hold
-- permits of a byte budget.
pub mod Budget
use koc_core.Common.{
  ℕ, ◌+◌, ◌-◌, ◌^◌, max, ◌≡◌, ◌<◌, ◌≤◌, Bool, true, false, Option, none, some, List, [], ◌∷◌, ◌++◌,
  ltb, if◌then◌else◌,
}
use koc_core.Json.{Text}
use koc_core.Capture.Record.{Direction, Message, ObservedFrame, observe_message}

-- tokio's counting `Semaphore`.
pub record Semaphore (S : Type 0) : Type 0 where
  pub available_permits : S → ℕ
  pub try_acquire_many : ℕ → S → Option S
  -- a permit of so many is dropped
  pub add_permits : ℕ → S → S

pub record IsSemaphore {S : Type 0} (lib : Semaphore S) : Type 0 where
  -- permits are taken only if there are so many, and then there are fewer by them
  pub try_acquire_many-available :
      (n : ℕ) (s s' : S)
      → lib.try_acquire_many n s ≡ some s'
      → lib.available_permits s' + n ≡ lib.available_permits s
  pub add_permits-available :
      (n : ℕ) (s : S) → lib.available_permits (lib.add_permits n s) ≡ lib.available_permits s + n

-- What the connections share: the budget and the two counters.
pub record Shared (S : Type 0) : Type 0 where
  pub capture_budget : S
  pub queue_full : ℕ
  pub analyzer_closed : ℕ

-- A frame with the number of its permits.
pub record Permitted (P : Type 0) : Type 0 where
  pub frame : ObservedFrame P
  pub permits : ℕ

-- `u32::try_from(payload_bytes).ok()`
abbrev pub u32_permits : ℕ → Option ℕ
u32_permits n = if ltb n (2 ^ 32) then some n else none

-- What `try_send` answers; the channel is tokio's.
pub data SendOutcome : Type 0 where
  sent full closed : SendOutcome

module _ {S : Type 0} where
  abbrev pub count_full : Shared S → Shared S
  count_full s = record s { queue_full = s.queue_full + 1 }

  abbrev pub count_closed : Shared S → Shared S
  count_closed s = record s { analyzer_closed = s.analyzer_closed + 1 }

module _ {S P : Type 0} (lib : Semaphore S) (message_len : Message P → ℕ) where
  abbrev pub acquire : ObservedFrame P → Option ℕ → Shared S → Shared S × Option (Permitted P)
  acquire frame none s = (s, none)
  acquire frame (some permits) s = elim (lib.try_acquire_many permits s.capture_budget) [
    | none ↦ (count_full s, none)
    | some left ↦
        (record s { capture_budget = left }, some (record { frame = frame; permits = permits }))
  ]

  -- The sender, if there is one, is seen as whether its channel is closed; `now` is the clock's
  -- reading.
  unfoldable pub prepare_record :
      Option Bool
      → ℕ
      → Text
      → ℕ
      → Direction
      → Message P
      → Shared S
      → Shared S × Option (Permitted P)
  prepare_record none now id index side m s = (s, none)
  prepare_record (some true) now id index side m s = (count_closed s, none)
  prepare_record (some false) now id index side m s =
      acquire (observe_message now id index side m) (u32_permits (max (message_len m) 1)) s

  -- `drop` of a frame
  abbrev pub release : Permitted P → Shared S → Shared S
  release f s = record s { capture_budget = lib.add_permits f.permits s.capture_budget }

  -- A frame that is not sent is dropped with the error that holds it.
  unfoldable pub enqueue_record : SendOutcome → Permitted P → Shared S → Shared S
  enqueue_record sent f s = s
  enqueue_record full f s = release f (count_full s)
  enqueue_record closed f s = release f (count_closed s)
