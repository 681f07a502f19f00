-- ===== src/Analysis/Window.antt =====
-- internal/analysis/ordered_window.go: the coordinator, its workers and the two channels, as a
-- step relation. Every statement that another goroutine can see is a step of its own.
pub mod Count
pub mod Facts
pub mod Slots
pub mod Invariant
pub mod Order
pub mod Live
pub mod Progress
pub mod Success
mod Tests
use mutation_judge.Base.{
  ℕ, zero, suc, ◌+◌, ◌-◌, ◌*◌, ◌%◌, ◌≤◌, ◌<◌, ◌≡◌, ◌⊎◌, Bool, true, false, not, ◌&&◌, ◌||◌, List,
  [], ◌∷◌, ◌++◌, Option, none, some, length, ltb, leb, ◌==◌, if◌then◌else◌,
}

-- The callbacks and the sizes. `run` and `persists` say what the call for an index comes to; `R` is
-- what `record` is given: the result, whether it was executed, and the cache error.
pub record Work (M R : Type 0) : Type 0 where
  pub count : ℕ
  pub workers : ℕ
  pub window : ℕ
  pub next : ℕ → Option M
  pub run : ℕ → M → R × Bool
  pub persists : ℕ → Bool

-- The worker count and the window that the function computes from its arguments.
unfoldable pub effective_workers : ℕ → ℕ → ℕ
effective_workers count workers = if ltb count workers then count else workers

unfoldable pub effective_window : ℕ → ℕ → ℕ
unfolding effective_workers
effective_window count workers =
    let window = 4 * effective_workers count workers in if ltb count window then count else window

pub record Outcome (R : Type 0) : Type 0 where
  pub index : ℕ
  pub result : R
  pub failed : Bool

pub data WindowError : Type 0 where
  read_failed run_failed out_of_window persist_failed : ℕ → WindowError

-- Where the coordinator stands: in the inner loop, at the `select`, behind the outer loop, in
-- `wg.Wait`, or behind the last drain.
pub data Phase : Type 0 where
  filling selecting closing joining finished : Phase

-- `cancelling` counts the workers between the send of a failed outcome and their `cancel()`.
pub record State (M R : Type 0) : Type 0 where
  pub phase : Phase
  pub queued : ℕ
  pub committed : ℕ
  pub jobs : List (ℕ × M)
  pub running : List (ℕ × M)
  pub cancelling : ℕ
  pub outcomes : List (Outcome R)
  pub pending : ℕ → Option (Outcome R)
  pub recorded : List R
  pub first_err : Option WindowError
  pub cancelled : Bool
  pub parent_done : Bool

abbrev pub is_some {ℓ} : {A : Type ℓ} → Option A → Bool
is_some none = false
is_some (some a) = true

abbrev pub first : Option WindowError → WindowError → Option WindowError
first none e = some e
first (some d) e = some d

module _ {R : Type 0} where
  -- A slot of `pending` is overwritten.
  abbrev pub put : (ℕ → Option (Outcome R)) → ℕ → Option (Outcome R) → ℕ → Option (Outcome R)
  put f k v i = if k == i then v else f i

  -- The drain behind `wg.Wait`.
  unfoldable pub drain : Option WindowError → List (Outcome R) → Option WindowError
  drain e [] = e
  drain e (o ∷ os) = drain (if o.failed then first e (run_failed o.index) else e) os

module _ {M R : Type 0} where
  -- `firstErr = e; cancel(); active = false`: on to the code behind the loop.
  abbrev pub abort : State M R → WindowError → State M R
  abort s e = record s { first_err = some e; cancelled = true; phase = closing }

  module _ (w : Work M R) where
    -- The state before the coordinator enters its loop.
    abbrev pub initial : State M R
    initial = record {
      phase = filling;
      queued = 0;
      committed = 0;
      jobs = [];
      running = [];
      cancelling = 0;
      outcomes = [];
      pending = λ _. none;
      recorded = [];
      first_err = none;
      cancelled = false;
      parent_done = false;
    }

    -- The loop that persists the completed prefix, and the test of the outer loop behind it. Each
    -- round empties a slot, so `window` rounds are enough.
    unfoldable pub flush : ℕ → State M R → State M R
    flush zero s = record s { phase = if ltb s.committed w.count then filling else closing }
    flush (suc fuel) s = elim (s.pending (s.committed % w.window)) [
      | none ↦ record s { phase = if ltb s.committed w.count then filling else closing }
      | some o ↦ elim (w.persists s.committed) [
        | true ↦ flush fuel (record s {
          pending = put s.pending (s.committed % w.window) none;
          recorded = s.recorded ++ o.result ∷ [];
          committed = suc s.committed;
        })
        | false ↦
            abort (record s { pending = put s.pending (s.committed % w.window) none })
              (persist_failed s.committed)
      ]
    ]

    -- The case of the `select` that receives an outcome.
    unfoldable pub receive : State M R → Outcome R → State M R
    unfolding flush
    receive s o =
        if o.failed
        then abort s (run_failed o.index)
        else if ltb o.index s.committed
            || (leb s.queued o.index || is_some (s.pending (o.index % w.window)))
        then abort s (out_of_window o.index)
        else flush w.window (record s { pending = put s.pending (o.index % w.window) (some o) })

    -- The test of the inner loop, but for the context.
    abbrev pub has_room : State M R → Bool
    has_room s = ltb s.queued w.count && ltb (s.queued - s.committed) w.window

    abbrev pub outcome : ℕ → M → Outcome R
    outcome i m = let (r, f) = w.run i m in record { index = i; result = r; failed = f }

    pub data Step (s : State M R) : State M R → Type 0 where
      -- the inner loop: read a mutation and send the job
      fill :
          (m : M)
          → s.phase ≡ filling
          → has_room s ≡ true
          → s.cancelled ≡ false
          → w.next s.queued ≡ some m
          → Step s (record s { jobs = s.jobs ++ (s.queued, m) ∷ []; queued = s.queued + 1 })
      fill_fails :
          s.phase ≡ filling
          → has_room s ≡ true
          → s.cancelled ≡ false
          → w.next s.queued ≡ none
          → Step s (abort s (read_failed s.queued))
      -- its end, with nothing outstanding or on to the `select`
      fill_ends :
          s.phase ≡ filling
          → (has_room s ≡ false) ⊎ (s.cancelled ≡ true)
          → Step s (record s { phase = if s.queued == s.committed then closing else selecting })
      receives :
          (o : Outcome R) (os : List (Outcome R))
          → s.phase ≡ selecting
          → s.outcomes ≡ o ∷ os
          → Step s (receive (record s { outcomes = os }) o)
      sees_cancel : s.phase ≡ selecting → s.cancelled ≡ true → Step s (record s { phase = closing })
      -- `close(jobs); cancel()`
      closes : s.phase ≡ closing → Step s (record s { phase = joining; cancelled = true })
      -- `wg.Wait()` and the drain
      joins :
          s.phase ≡ joining
          → s.jobs ≡ []
          → s.running ≡ []
          → s.cancelling ≡ 0
          → Step s (record s {
            phase = finished;
            first_err = drain s.first_err s.outcomes;
            outcomes = [];
          })
      -- a worker takes a job and runs it, or drops it
      takes :
          (i : ℕ) (m : M) (js : List (ℕ × M))
          → s.jobs ≡ (i, m) ∷ js
          → length s.running + s.cancelling < w.workers
          → s.cancelled ≡ false
          → Step s (record s { jobs = js; running = (i, m) ∷ s.running })
      drops :
          (i : ℕ) (m : M) (js : List (ℕ × M))
          → s.jobs ≡ (i, m) ∷ js
          → length s.running + s.cancelling < w.workers
          → s.cancelled ≡ true
          → Step s (record s { jobs = js })
      -- any running worker may be the next to send its outcome
      sends :
          (before after : List (ℕ × M)) (i : ℕ) (m : M)
          → s.running ≡ before ++ (i, m) ∷ after
          → Step s (record s {
            running = before ++ after;
            outcomes = s.outcomes ++ outcome i m ∷ [];
            cancelling = if (w.run i m).1 then s.cancelling + 1 else s.cancelling;
          })
      cancels :
          (n : ℕ) → s.cancelling ≡ suc n → Step s (record s { cancelling = n; cancelled = true })
      -- the caller's context ends
      interrupted :
          s.parent_done ≡ false → Step s (record s { parent_done = true; cancelled = true })

    pub data Reach : State M R → Type 0 where
      here : Reach initial
      step : {s t : State M R} → Reach s → Step s t → Reach t

    -- What the function returns in a finished state.
    abbrev pub returned : State M R → Bool × Option WindowError
    returned s = elim s.first_err [
      | some e ↦ (false, some e)
      | none ↦ (not s.parent_done && s.committed == w.count, none)
    ]

    -- One mutation after another, with no window: what the results should be.
    abbrev pub in_order : ℕ → Option (List R)
    in_order zero = some []
    in_order (suc n) = elim (in_order n) [
      | none ↦ none
      | some rs ↦ elim (w.next n) [
        | none ↦ none
        | some m ↦ let (r, f) = w.run n m in if f then none else some (rs ++ r ∷ [])
      ]
    ]
