-- ===== src/Analysis/Window/Live.antt =====
-- While nothing is cancelled no job is lost, and the slot of the oldest index is empty whenever the
-- coordinator waits.
use mutation_judge.Base.{
  ℕ, zero, suc, ◌+◌, ◌%◌, ◌≤◌, ◌<◌, ◌≡◌, refl, subst, Bool, true, false, ◌||◌, List, [], ◌∷◌, ◌++◌,
  Option, none, some, ltb, leb, ◌==◌, if◌then◌else◌, arith, inl, inr, Bool-cases, Option-cases,
  count_if-append,
}
use mutation_judge.Analysis.Window.{
  Work, Outcome, State, Phase, filling, selecting, closing, put, outcome, is_some, flush, receive,
  initial, Step, fill, fill_fails, fill_ends, receives, sees_cancel, closes, joins, takes, drops,
  sends, cancels, interrupted, Reach, here, step,
}
use mutation_judge.Analysis.Window.Facts.{Facts, held, inside}
use mutation_judge.Analysis.Window.Slots.{slot_free, put-Facts, commit-Facts, oldest_index}
use mutation_judge.Analysis.Window.Invariant.{Inv, FactsOf, Reach-Inv}

module _ {M R : Type 0} (w : Work M R) where
  abbrev pub IsKept : State M R → Type 0
  IsKept s =
      s.cancelled ≡ false
      → (i : ℕ) → inside w s.committed s.queued i ≤ held w s.jobs s.running s.outcomes s.pending i

  -- What the coordinator knows in the phases of its loop, and behind `cancel()`.
  abbrev pub Awaits : Phase → ℕ → ℕ → (ℕ → Option (Outcome R)) → Bool → Type 0
  Awaits filling q c p b = p (c % w.window) ≡ none
  Awaits selecting q c p b = (p (c % w.window) ≡ none) × (c < q)
  Awaits closing q c p b = Unit
  Awaits _ q c p b = b ≡ true

  Awaits-cancel :
      (ph : Phase) (q c : ℕ) (p : ℕ → Option (Outcome R)) (b : Bool)
      → Awaits ph q c p b
      → Awaits ph q c p true
  Awaits-cancel filling q c p b h = h
  Awaits-cancel selecting q c p b h = h
  Awaits-cancel closing q c p b h = h
  Awaits-cancel _ q c p b h = refl

  pub record Live (s : State M R) : Type 0 where
    pub kept : IsKept s
    pub awaits : Awaits s.phase s.queued s.committed s.pending s.cancelled

  initial-Live : Live (initial w)
  initial-Live = record { kept = λ c i. ground arith; awaits = refl }

  -- With no index outstanding the slot of the next index is empty.
  slot_empty :
      {q c : ℕ} {js rs : List (ℕ × M)} {os : List (Outcome R)} {p : ℕ → Option (Outcome R)}
      {xs : List R}
      → Facts w q c js rs os p xs
      → q ≤ c
      → p (c % w.window) ≡ none
  slot_empty {c = c} {p = p} v h = elim (Option-cases (p (c % w.window))) [
    | inl e ↦ e
    | inr (o, e) ↦ absurd (omega (arith, (oldest_index w o e v).1))
  ]

  test-Live :
      (s : State M R)
      → s.pending (s.committed % w.window) ≡ none
      → IsKept s
      → Live (record s { phase = if ltb s.committed w.count then filling else closing })
  test-Live s e k = elim (Bool-cases (ltb s.committed w.count)) [
    | inl h ↦ rw h (record { kept = k; awaits = e })
    | inr h ↦ rw h (record { kept = k; awaits = tt })
  ]

  flush-Live :
      (fuel : ℕ) (s : State M R)
      → FactsOf w s
      → s.queued ≤ s.committed + fuel
      → IsKept s
      → Live (flush w fuel s)
  unfolding flush
  flush-Live zero s v enough k = test-Live s (slot_empty v (omega arith)) k
  flush-Live (suc fuel) s v enough k = elim (Option-cases (s.pending (s.committed % w.window))) [
    | inl e ↦ rw (e, flush) (test-Live s e k)
    | inr (o, e) ↦ elim (Bool-cases (w.persists s.committed)) [
      | inl h ↦
          rw (e, h, flush)
            (flush-Live fuel
              (record s {
                pending = put s.pending (s.committed % w.window) none;
                recorded = s.recorded ++ o.result ∷ [];
                committed = suc s.committed;
              })
              (commit-Facts w o e v) (omega arith)
              (λ c i. ground (arith, k c i, oldest_index w o e v)))
      | inr h ↦ rw (e, h, flush) (record { kept = λ c. cc; awaits = tt })
    ]
  ]

  receive-Live :
      (s : State M R) (o : Outcome R) (os : List (Outcome R))
      → s.outcomes ≡ o ∷ os
      → Inv w s
      → Live s
      → Live (receive w (record s { outcomes = os }) o)
  unfolding receive
  receive-Live s o os e v l = elim (Bool-cases o.failed) [
    | inl h ↦ rw h (record { kept = λ c. cc; awaits = tt })
    | inr h ↦
        simp (h, in_range)
          (flush-Live w.window
            (record s { outcomes = os; pending = put s.pending (o.index % w.window) (some o) })
            (put-Facts w o h facts) v.facts.in_window
            (λ c i. ground (arith, l.kept c i, e, slot_free w o facts)))
  ]
    where
      facts : Facts w s.queued s.committed s.jobs s.running (o ∷ os) s.pending s.recorded
      facts = rw e at v.facts

      in_range :
          (ltb o.index s.committed
            || (leb s.queued o.index || is_some (s.pending (o.index % w.window))))
          ≡ false
      in_range = ground (arith, slot_free w o facts)

  Step-Live : {s t : State M R} → Step w s t → Inv w s → Live s → Live t
  Step-Live {s} (fill m ph room go e) v l = record {
    kept = λ c i. ground (
      arith,
      l.kept c i,
      v.facts.ordered,
      count_if-append (λ (j : ℕ × M). j.0 == i) s.jobs ((s.queued, m) ∷ []),
    );
    awaits = rw ph (subst (λ ph. Awaits ph s.queued s.committed s.pending s.cancelled) ph l.awaits);
  }
  Step-Live (fill_fails ph room go e) v l = record { kept = λ c. cc; awaits = tt }
  Step-Live {s} (fill_ends ph h) v l = elim (Bool-cases (s.queued == s.committed)) [
    | inl same ↦ rw same (record { kept = l.kept; awaits = tt })
    | inr more ↦ rw more (record {
      kept = l.kept;
      awaits = (
        subst (λ ph. Awaits ph s.queued s.committed s.pending s.cancelled) ph l.awaits,
        ground (arith, v.facts.ordered),
      );
    })
  ]
  Step-Live {s} (receives o os ph e) v l = receive-Live s o os e v l
  Step-Live (sees_cancel ph h) v l = record { kept = l.kept; awaits = tt }
  Step-Live (closes ph) v l = record { kept = λ c. cc; awaits = refl }
  Step-Live {s} (joins ph j r c) v l =
      let over : s.cancelled ≡ true =
        subst (λ ph. Awaits ph s.queued s.committed s.pending s.cancelled) ph l.awaits in
      record { kept = λ c'. cc; awaits = over }
  Step-Live {s} (takes i m js e room go) v l = record {
    kept = λ c k. ground (arith, l.kept c k, e);
    awaits = l.awaits;
  }
  Step-Live {s} (drops i m js e room go) v l = record { kept = λ c. cc; awaits = l.awaits }
  Step-Live {s} (sends before after i m e) v l = record {
    kept = λ c k. ground (
      arith,
      l.kept c k,
      e,
      count_if-append (λ (j : ℕ × M). j.0 == k) before ((i, m) ∷ after),
      count_if-append (λ (j : ℕ × M). j.0 == k) before after,
      count_if-append (λ (o : Outcome R). o.index == k) s.outcomes (outcome w i m ∷ []),
    );
    awaits = l.awaits;
  }
  Step-Live {s} (cancels n e) v l = record {
    kept = λ c. cc;
    awaits = Awaits-cancel s.phase s.queued s.committed s.pending s.cancelled l.awaits;
  }
  Step-Live {s} (interrupted h) v l = record {
    kept = λ c. cc;
    awaits = Awaits-cancel s.phase s.queued s.committed s.pending s.cancelled l.awaits;
  }

  pub Reach-Live : {s : State M R} → Reach w s → Live s
  Reach-Live here = initial-Live
  Reach-Live (step r st) = Step-Live st (Reach-Inv w r) (Reach-Live r)
