-- ===== src/Analysis/Window/Tests.antt =====
-- One mutation, one worker, and the run of the window that records its result.
use mutation_judge.Base.{
  ℕ, ◌+◌, ◌*◌, ◌≤◌, ◌≡◌, ◌≢◌, ◌⊎◌, refl, true, false, [], ◌∷◌, none, some, length, arith, inl,
}
use mutation_judge.Analysis.Window.{
  Work, State, selecting, joining, finished, initial, outcome, in_order, flush, receive, drain,
  effective_workers, effective_window, fill, fill_ends, takes, sends, receives, closes, joins,
  Reach, returned, out_of_window,
}
use mutation_judge.Analysis.Window.Order.{Reach-in_order, returned-in_order}
use mutation_judge.Analysis.Window.Progress.{Run, Run-Reach, halt, more, OwnStep, Run-ends}
use mutation_judge.Analysis.Window.Success.{AllSucceed, Run-succeeds}

abbrev one_job : Work ℕ ℕ
one_job = record {
  count = 1;
  workers = 1;
  window = 1;
  next = λ i. some (i + 5);
  run = λ i m. (m + 1, false);
  persists = λ i. true;
}

one_job_sizes : (effective_workers 1 3 ≡ 1) × (effective_window 1 3 ≡ 1)
unfolding effective_workers effective_window
one_job_sizes = (refl, refl)

-- The job is sent, taken, run and its outcome received.
abbrev sent : State ℕ ℕ
sent = record (initial one_job) { jobs = (0, 5) ∷ []; queued = 1 }

abbrev selects : State ℕ ℕ
selects = record sent { phase = selecting }

abbrev taken : State ℕ ℕ
taken = record selects { jobs = []; running = (0, 5) ∷ [] }

abbrev run_once : State ℕ ℕ
run_once = record selects { jobs = []; outcomes = outcome one_job 0 5 ∷ [] }

abbrev received : State ℕ ℕ
received = receive one_job (record run_once { outcomes = [] }) (outcome one_job 0 5)

abbrev closed : State ℕ ℕ
closed = record received { phase = joining; cancelled = true }

abbrev ended : State ℕ ℕ
ended = record closed {
  phase = finished;
  first_err = drain closed.first_err closed.outcomes;
  outcomes = [];
}

ended-Run : Run one_job (initial one_job) 7 ended
unfolding receive flush drain
ended-Run =
    let a = more {t = initial one_job} halt (fill 5 refl refl refl refl) refl in
    let b = more {t = sent} a (fill_ends refl (inl refl)) refl in
    let c = more {t = selects} b (takes 0 5 [] refl (omega arith) refl) refl in
    let d = more {t = taken} c (sends [] [] 0 5 refl) refl in
    let e = more {t = run_once} d (receives (outcome one_job 0 5) [] refl refl) refl in
    let f = more {t = received} e (closes refl) refl in
    more {t = closed} f (joins refl refl refl refl) refl

ended-Reach : Reach one_job ended
ended-Reach = Run-Reach one_job ended-Run

one_job-AllSucceed : AllSucceed one_job
one_job-AllSucceed = record { reads = λ i h. cc; runs = λ i m. refl; persists = λ i. refl }

ended_values : (ended.recorded ≡ 6 ∷ []) × (returned one_job ended ≡ (true, none))
unfolding receive flush drain
ended_values = (refl, refl)

Reach-in_order_example :
    (in_order one_job ended.committed ≡ some ended.recorded)
    × (ended.queued ≤ ended.committed + 1)
    × (length ended.jobs + (length ended.running + length ended.outcomes) ≤ 1)
    × (length ended.running + ended.cancelling ≤ 1)
    × ((i : ℕ) → ended.first_err ≢ some (out_of_window i))
Reach-in_order_example = Reach-in_order one_job ended-Reach

returned-in_order_example : in_order one_job 1 ≡ some ended.recorded
returned-in_order_example = returned-in_order one_job ended-Reach ended_values.1

Run-ends_example : (7 ≤ 8 * 1 + 5) × ((ended.phase ≡ finished) ⊎ OwnStep one_job ended)
Run-ends_example = Run-ends one_job (omega arith) ended-Run

ended_phase : (ended.phase ≡ finished) × (ended.parent_done ≡ false)
unfolding receive flush drain
ended_phase = (refl, refl)

Run-succeeds_example :
    (7 ≤ 8 * 1 + 5)
    × (OwnStep one_job ended
        ⊎ ((ended.phase ≡ finished)
            × (returned one_job ended ≡ (true, none))
            × (in_order one_job 1 ≡ some ended.recorded)))
Run-succeeds_example =
    Run-succeeds one_job one_job-AllSucceed (omega arith) (omega arith) ended-Run ended_phase.1
