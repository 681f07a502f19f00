-- ===== src/Analysis/Window/Invariant.antt =====
-- The invariant of the window, over every interleaving.
use mutation_judge.Base.{
  ℕ, zero, suc, ◌+◌, ◌%◌, ◌≤◌, ◌≡◌, ◌≢◌, refl, ap, false, ◌||◌, List, [], ◌∷◌, ◌++◌, Option, none,
  some, length, length-append, ltb, leb, if◌then◌else◌, arith, inl, inr, Bool-cases, Option-cases,
}
use mutation_judge.Analysis.Window.{
  Work, Outcome, State, WindowError, out_of_window, run_failed, put, is_some, flush, receive, drain,
  initial, Step, fill, fill_fails, fill_ends, receives, sees_cancel, closes, joins, takes, drops,
  sends, cancels, interrupted, Reach, here, step,
}
use mutation_judge.Analysis.Window.Facts.{Facts, fill-Facts, take-Facts, drop-Facts, send-Facts}
use mutation_judge.Analysis.Window.Slots.{
  slot_free, put-Facts, commit-Facts, clear-Facts, skip-Facts,
}

module _ {M R : Type 0} (w : Work M R) where
  abbrev pub FactsOf : State M R → Type 0
  FactsOf s = Facts w s.queued s.committed s.jobs s.running s.outcomes s.pending s.recorded

  abbrev pub IsExpected : Option WindowError → Type 0
  IsExpected e = (i : ℕ) → e ≢ some (out_of_window i)

  pub record Inv (s : State M R) : Type 0 where
    pub facts : FactsOf s
    pub crew : length s.running + s.cancelling ≤ w.workers
    pub expected : IsExpected s.first_err

  flush-Inv : (fuel : ℕ) (s : State M R) → Inv s → Inv (flush w fuel s)
  unfolding flush
  flush-Inv zero s v = record { facts = v.facts; crew = v.crew; expected = v.expected }
  flush-Inv (suc fuel) s v = elim (Option-cases (s.pending (s.committed % w.window))) [
    | inl e ↦ rw (e, flush) (record { facts = v.facts; crew = v.crew; expected = v.expected })
    | inr (o, e) ↦ elim (Bool-cases (w.persists s.committed)) [
      | inl h ↦
          rw (e, h, flush)
            (flush-Inv fuel
              (record s {
                pending = put s.pending (s.committed % w.window) none;
                recorded = s.recorded ++ o.result ∷ [];
                committed = suc s.committed;
              })
              (record { facts = commit-Facts w o e v.facts; crew = v.crew; expected = v.expected }))
      | inr h ↦
          rw (e, h, flush)
            (record {
              facts = clear-Facts w (s.committed % w.window) v.facts;
              crew = v.crew;
              expected = λ i. cc;
            })
    ]
  ]

  skip_all-Facts :
      {q c : ℕ} {js rs : List (ℕ × M)} {p : ℕ → Option (Outcome R)} {xs : List R}
      (os : List (Outcome R))
      → Facts w q c js rs os p xs
      → Facts w q c js rs [] p xs
  skip_all-Facts [] v = v
  skip_all-Facts (o ∷ os) v = skip_all-Facts os (skip-Facts w o os v)

  drain-IsExpected :
      (e : Option WindowError) (os : List (Outcome R)) → IsExpected e → IsExpected (drain e os)
  unfolding drain
  drain-IsExpected e [] h = h
  drain-IsExpected none (o ∷ os) h =
      drain-IsExpected (if o.failed then some (run_failed o.index) else none) os
        (λ i. ground (arith, h i))
  drain-IsExpected (some e) (o ∷ os) h =
      drain-IsExpected (if o.failed then some e else some e) os (λ i. ground (arith, h i))

  receive-Inv :
      (s : State M R) (o : Outcome R) (os : List (Outcome R))
      → s.outcomes ≡ o ∷ os
      → Inv s
      → Inv (receive w (record s { outcomes = os }) o)
  unfolding receive
  receive-Inv s o os e v = elim (Bool-cases o.failed) [
    | inl h ↦ rw h (record { facts = skip-Facts w o os facts; crew = v.crew; expected = λ i. cc })
    | inr h ↦
        simp (h, in_range)
          (flush-Inv w.window
            (record s { outcomes = os; pending = put s.pending (o.index % w.window) (some o) })
            (record { facts = put-Facts w o h facts; crew = v.crew; expected = v.expected }))
  ]
    where
      facts : Facts w s.queued s.committed s.jobs s.running (o ∷ os) s.pending s.recorded
      facts = rw e at v.facts

      in_range :
          (ltb o.index s.committed
            || (leb s.queued o.index || is_some (s.pending (o.index % w.window))))
          ≡ false
      in_range = ground (arith, slot_free w o facts)

  Step-Inv : {s t : State M R} → Step w s t → Inv s → Inv t
  Step-Inv {s} (fill m ph room go e) v = record {
    facts = fill-Facts w m (ground arith) (ground arith) e v.facts;
    crew = v.crew;
    expected = v.expected;
  }
  Step-Inv (fill_fails ph room go e) v = record {
    facts = v.facts;
    crew = v.crew;
    expected = λ i. cc;
  }
  Step-Inv (fill_ends ph h) v = record { facts = v.facts; crew = v.crew; expected = v.expected }
  Step-Inv {s} (receives o os ph e) v = receive-Inv s o os e v
  Step-Inv (sees_cancel ph h) v = record { facts = v.facts; crew = v.crew; expected = v.expected }
  Step-Inv (closes ph) v = record { facts = v.facts; crew = v.crew; expected = v.expected }
  Step-Inv {s} (joins ph j r c) v = record {
    facts = skip_all-Facts s.outcomes v.facts;
    crew = v.crew;
    expected = drain-IsExpected s.first_err s.outcomes v.expected;
  }
  Step-Inv {s} (takes i m js e room go) v = record {
    facts = take-Facts w i m js s.running (rw e at v.facts);
    crew = omega arith;
    expected = v.expected;
  }
  Step-Inv {s} (drops i m js e room go) v = record {
    facts = drop-Facts w i m js s.running (rw e at v.facts);
    crew = v.crew;
    expected = v.expected;
  }
  Step-Inv {s} (sends before after i m e) v = record {
    facts = send-Facts w before after i m s.outcomes (rw e at v.facts);
    crew =
        ground
          (arith, ap length e, length-append before ((i, m) ∷ after), length-append before after);
    expected = v.expected;
  }
  Step-Inv (cancels n e) v = record {
    facts = v.facts;
    crew = omega (arith, v.crew);
    expected = v.expected;
  }
  Step-Inv (interrupted h) v = record { facts = v.facts; crew = v.crew; expected = v.expected }

  initial-Inv : Inv (initial w)
  initial-Inv = record {
    facts = record {
      ordered = omega arith;
      in_count = omega arith;
      in_window = omega arith;
      unique = λ i. ground arith;
      slots = λ k o e. cc;
      jobs_ok = tt;
      running_ok = tt;
      outcomes_ok = tt;
      pending_ok = λ k o e. absurd (ground arith);
      log = refl;
    };
    crew = omega arith;
    expected = λ i. cc;
  }

  pub Reach-Inv : {s : State M R} → Reach w s → Inv s
  Reach-Inv here = initial-Inv
  Reach-Inv (step r st) = Step-Inv st (Reach-Inv r)
