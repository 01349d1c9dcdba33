-- ===== src/Proxy/Queue/Budget.antt =====
-- The byte budget of the queue under every interleaving of the connections and the analyzer.
use koc_core.Common.{
  ℕ, ◌+◌, ◌^◌, max, ◌≡◌, ◌<◌, ◌≤◌, refl, ap, inl, inr, Bool, true, false, Option, none, some, List,
  [], ◌∷◌, ◌++◌, length, ltb, Bool-cases, Option-cases, arith,
}
use koc_core.Json.{Text}
use koc_core.Common.Results.{All}
use koc_core.Capture.Record.{Direction, Message, ObservedFrame, observe_message}
use koc_core.Proxy.Queue.{
  Semaphore, IsSemaphore, Shared, Permitted, sent, full, closed, u32_permits, acquire,
  prepare_record, release, enqueue_record,
}

module _ {S P : Type 0} (lib : Semaphore S) (message_len : Message P → ℕ) where
  -- What all tasks share, and the frames that hold permits: those that a connection is about to
  -- enqueue, those in the channel and the one that the analyzer has.
  pub record World : Type 0 where
    pub shared : Shared S
    pub frames : List (Permitted P)

  abbrev pub with_prepared : List (Permitted P) → Shared S × Option (Permitted P) → World
  with_prepared fs (s, none) = record { shared = s; frames = fs }
  with_prepared fs (s, some f) = record { shared = s; frames = f ∷ fs }

  -- The steps of the connections and of the analyzer, one at a time, in any order. `before` and
  -- `after` say which of the frames is concerned.
  pub data Step : World → World → Type 0 where
    prepares :
        (sender : Option Bool) (now index : ℕ) (id : Text) (side : Direction) (m : Message P)
        (w : World)
        → Step w (
            with_prepared w.frames
              (prepare_record lib message_len sender now id index side m w.shared))
    -- a frame is sent to the channel and stays, or is refused and dropped
    enqueues :
        (before after : List (Permitted P)) (f : Permitted P) (s : Shared S)
        → Step
            (record { shared = s; frames = before ++ f ∷ after })
            (record {
              shared = enqueue_record lib message_len sent f s;
              frames = before ++ f ∷ after;
            })
    refuses_full :
        (before after : List (Permitted P)) (f : Permitted P) (s : Shared S)
        → Step
            (record { shared = s; frames = before ++ f ∷ after })
            (record { shared = enqueue_record lib message_len full f s; frames = before ++ after })
    refuses_closed :
        (before after : List (Permitted P)) (f : Permitted P) (s : Shared S)
        → Step
            (record { shared = s; frames = before ++ f ∷ after })
            (record {
              shared = enqueue_record lib message_len closed f s;
              frames = before ++ after;
            })
    -- the analyzer has made a record of it, the connection failed before it was enqueued, or the
    -- channel was dropped
    drops :
        (before after : List (Permitted P)) (f : Permitted P) (s : Shared S)
        → Step
            (record { shared = s; frames = before ++ f ∷ after })
            (record { shared = release lib message_len f s; frames = before ++ after })

  pub data Reaches (start : World) : World → Type 0 where
    here : Reaches start start
    then_step : {w w' : World} → Reaches start w → Step w w' → Reaches start w'

  abbrev pub held : List (Permitted P) → ℕ
  held [] = 0
  held (f ∷ fs) = f.permits + held fs

  -- Every frame holds a permit for each byte of its message, and one at least.
  abbrev pub IsPaid : Permitted P → Type 0
  IsPaid f = (message_len (f.frame).message ≤ f.permits) × (0 < f.permits)

  abbrev pub IsWithin : ℕ → World → Type 0
  IsWithin limit w =
      (lib.available_permits (w.shared).capture_budget + held w.frames ≡ limit)
      × All IsPaid w.frames

  held-append : (fs gs : List (Permitted P)) → held (fs ++ gs) ≡ held fs + held gs
  held-append [] gs = omega arith
  held-append (f ∷ fs) gs = omega (arith, held-append fs gs)

  remove-All :
      (fs gs : List (Permitted P)) (f : Permitted P)
      → All IsPaid (fs ++ f ∷ gs)
      → All IsPaid (fs ++ gs)
  remove-All [] gs f (p, a) = a
  remove-All (g ∷ fs) gs f (p, a) = (p, remove-All fs gs f a)

  acquire-IsWithin :
      (limit : ℕ) (laws : IsSemaphore lib) (frame : ObservedFrame P) (w : World)
      → IsWithin limit w
      → IsWithin limit (
          with_prepared w.frames (
            acquire lib message_len frame
              (u32_permits (max (message_len frame.message) 1))
              w.shared))
  acquire-IsWithin limit laws frame w (sum, paid) =
      let n = max (message_len frame.message) 1 in
      elim (Bool-cases (ltb n (2 ^ 32))) [
        | inr large ↦ rw large (sum, paid)
        | inl small ↦ elim (Option-cases (lib.try_acquire_many n (w.shared).capture_budget)) [
          | inl short ↦ rw (small, short, acquire) (sum, paid)
          | inr (left, taken) ↦
              rw (small, taken, acquire)
                (
                  omega (
                    arith,
                    sum,
                    laws.try_acquire_many-available n (w.shared).capture_budget left taken,
                  ),
                  ((omega arith, omega arith), paid),
                )
        ]
      ]

  released-IsWithin :
      (limit : ℕ) (laws : IsSemaphore lib) (before after : List (Permitted P)) (f : Permitted P)
      (s t : Shared S)
      → t.capture_budget ≡ lib.add_permits f.permits s.capture_budget
      → IsWithin limit (record { shared = s; frames = before ++ f ∷ after })
      → IsWithin limit (record { shared = t; frames = before ++ after })
  released-IsWithin limit laws before after f s t e (sum, paid) = (
    omega (
      arith,
      sum,
      ap lib.available_permits e,
      laws.add_permits-available f.permits s.capture_budget,
      held-append before (f ∷ after),
      held-append before after,
    ),
    remove-All before after f paid,
  )

  Step-IsWithin :
      (limit : ℕ)
      → IsSemaphore lib
      → {w w' : World} → Step w w'
      → IsWithin limit w
      → IsWithin limit w'
  unfolding prepare_record enqueue_record
  Step-IsWithin limit laws (prepares none now index id side m w) h = h
  Step-IsWithin limit laws (prepares (some true) now index id side m w) h = h
  Step-IsWithin limit laws (prepares (some false) now index id side m w) h =
      acquire-IsWithin limit laws (observe_message now id index side m) w h
  Step-IsWithin limit laws (enqueues before after f s) h = h
  Step-IsWithin limit laws (refuses_full before after f s) h =
      released-IsWithin limit laws before after f s (enqueue_record lib message_len full f s) refl h
  Step-IsWithin limit laws (refuses_closed before after f s) h =
      released-IsWithin limit laws before after f s (enqueue_record lib message_len closed f s) refl
        h
  Step-IsWithin limit laws (drops before after f s) h =
      released-IsWithin limit laws before after f s (release lib message_len f s) refl h

  -- Under every interleaving of the connections and the analyzer: when the budget and the permits
  -- that frames hold are together the configured bytes, and every frame holds a permit for each
  -- byte of its message and one at least, then it is so after every sequence of steps. No permit
  -- is lost or made up, on whatever path a frame is dropped.
  Reaches-IsWithin :
      (limit : ℕ)
      → IsSemaphore lib
      → {w w' : World} → Reaches w w'
      → IsWithin limit w
      → IsWithin limit w'
  Reaches-IsWithin limit laws here h = h
  Reaches-IsWithin limit laws (then_step path step) h =
      Step-IsWithin limit laws step (Reaches-IsWithin limit laws path h)

  -- The bytes of the messages of some frames.
  abbrev pub captured_bytes : List (Permitted P) → ℕ
  captured_bytes [] = 0
  captured_bytes (f ∷ fs) = message_len (f.frame).message + captured_bytes fs

  paid-bounds :
      (fs : List (Permitted P))
      → All IsPaid fs
      → (captured_bytes fs ≤ held fs) × (length fs ≤ held fs)
  paid-bounds [] h = (omega arith, omega arith)
  paid-bounds (f ∷ fs) ((a, b), h) =
      let (c, d) = paid-bounds fs h in (omega (arith, a, c), omega (arith, b, d))

  -- From the start, with no frame captured and a budget of so many permits, no sequence of steps
  -- leads to captured frames of more bytes than the budget, or to more frames than it has permits.
  pub captured_bytes-bound :
      (limit : ℕ) (s : Shared S)
      → IsSemaphore lib
      → {w : World} → lib.available_permits s.capture_budget ≡ limit
      → Reaches (record { shared = s; frames = [] }) w
      → (captured_bytes w.frames ≤ limit) × (length w.frames ≤ limit)
  captured_bytes-bound limit s laws {w} start path =
      let (sum, paid) = Reaches-IsWithin limit laws path (omega (arith, start), tt) in
      let (bytes, many) = paid-bounds w.frames paid in
      (omega (arith, sum, bytes), omega (arith, sum, many))
