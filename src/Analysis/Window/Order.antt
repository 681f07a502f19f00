-- ===== src/Analysis/Window/Order.antt =====
-- What every state of the window guarantees, whatever the order in which the workers finish.
use mutation_judge.Base.{
  ℕ, ◌+◌, ◌≤◌, ◌≡◌, ◌≢◌, true, List, ◌++◌, map, none, some, length, length-append, arith,
  count_if-append, ◌==◌,
}
use mutation_judge.Analysis.Window.{Work, Outcome, State, out_of_window, in_order, Reach, returned}
use mutation_judge.Analysis.Window.Count.{times, times-map, length-map, length-le-range}
use mutation_judge.Analysis.Window.Facts.{fst}
use mutation_judge.Analysis.Window.Invariant.{Reach-Inv, FactsOf}

module _ {M R : Type 0} (w : Work M R) where
  abbrev id : ℕ → ℕ
  id n = n

  abbrev number : Outcome R → ℕ
  number o = o.index

  -- The indices of the jobs that are sent, run, or done and not yet received.
  abbrev indices : State M R → List ℕ
  indices s = map fst s.jobs ++ (map fst s.running ++ map number s.outcomes)

  times-indices :
      (s : State M R) (i : ℕ)
      → times id i (indices s)
        ≡ times fst i s.jobs + (times fst i s.running + times number i s.outcomes)
  times-indices s i = omega (
    arith,
    count_if-append (λ (n : ℕ). n == i) (map fst s.jobs)
        (map fst s.running ++ map number s.outcomes),
    count_if-append (λ (n : ℕ). n == i) (map fst s.running) (map number s.outcomes),
    times-map fst i s.jobs,
    times-map fst i s.running,
    times-map number i s.outcomes,
  )

  length-indices :
      (s : State M R) → length (indices s) ≡ length s.jobs + (length s.running + length s.outcomes)
  length-indices s = omega (
    arith,
    length-append (map fst s.jobs) (map fst s.running ++ map number s.outcomes),
    length-append (map fst s.running) (map number s.outcomes),
    length-map fst s.jobs,
    length-map fst s.running,
    length-map number s.outcomes,
  )

  outstanding_le :
      (s : State M R)
      → FactsOf w s
      → length s.jobs + (length s.running + length s.outcomes) ≤ w.window
  outstanding_le s v = omega (
    arith,
    length-indices s,
    length-le-range id s.committed w.window (indices s)
        (λ i. ground (arith, v.unique i, times-indices s i, v.in_window)),
  )

  -- In every state that some interleaving reaches: the recorded results are those that the
  -- mutations give one after another, up to the number committed; no more than `window` mutations
  -- are read ahead of them; jobs, running workers and outcomes are at most `window`, so no send on a
  -- channel of that size blocks; no more workers are busy than there are; and the error for a
  -- duplicate or stray outcome has not occurred.
  pub Reach-in_order :
      {s : State M R}
      → Reach w s
      → (in_order w s.committed ≡ some s.recorded)
        × (s.queued ≤ s.committed + w.window)
        × (length s.jobs + (length s.running + length s.outcomes) ≤ w.window)
        × (length s.running + s.cancelling ≤ w.workers)
        × ((i : ℕ) → s.first_err ≢ some (out_of_window i))
  Reach-in_order {s} r =
      let v = Reach-Inv w r in
      (v.facts.log, v.facts.in_window, outstanding_le s v.facts, v.crew, v.expected)

  -- When the function returns `true` and no error, every mutation's result is recorded, in order.
  pub returned-in_order :
      {s : State M R}
      → Reach w s
      → returned w s ≡ (true, none)
      → in_order w w.count ≡ some s.recorded
  returned-in_order {s} r e =
      let v = Reach-Inv w r in
      let all : s.committed ≡ w.count = ground arith in rw (← all) v.facts.log
