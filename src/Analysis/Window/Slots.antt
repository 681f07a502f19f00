-- ===== src/Analysis/Window/Slots.antt =====
-- The coordinator's handling of an outcome: its slot is free, and completed prefixes are
-- recorded in order.
use mutation_judge.Base.{
  ℕ, suc, ◌%◌, ◌≤◌, ◌<◌, ◌≡◌, false, List, [], ◌∷◌, ◌++◌, Option, none, some, ◌==◌, arith, inl, inr,
  Bool-cases, Option-cases,
}
use mutation_judge.Analysis.Window.{Work, Outcome, put, outcome, in_order}
use mutation_judge.Analysis.Window.Count.{same_slot}
use mutation_judge.Analysis.Window.Facts.{Facts}

module _ {M R : Type 0} (w : Work M R) where
  log_suc :
      {c : ℕ} (o : Outcome R) (m : M) (xs : List R)
      → in_order w c ≡ some xs
      → o.index ≡ c
      → w.next o.index ≡ some m
      → o ≡ outcome w o.index m
      → o.failed ≡ false
      → in_order w (suc c) ≡ some (xs ++ o.result ∷ [])
  log_suc {c} o m xs h i n g ok =
      let n' : w.next c ≡ some m = rw i at n in
      let good : (w.run c m).1 ≡ false = ground arith in
      let res : (w.run c m).0 ≡ o.result = ground arith in rw (h, n', good, res)

  module _ {q c : ℕ} {js rs : List (ℕ × M)} {os : List (Outcome R)} {p : ℕ → Option (Outcome R)}
      {xs : List R} where
    -- An outcome in the channel is of an index of the window, and no other outcome is in its slot.
    pub slot_free :
        (o : Outcome R)
        → Facts w q c js rs (o ∷ os) p xs
        → (c ≤ o.index) × (o.index < q) × (p (o.index % w.window) ≡ none)
    slot_free o v = (
      low,
      high,
      elim (Option-cases (p (o.index % w.window))) [
        | inl e ↦ e
        | inr (o', e) ↦ absurd (clash o' e)
      ],
    )
      where
        low : c ≤ o.index
        low = ground (arith, v.unique o.index)

        high : o.index < q
        high = ground (arith, v.unique o.index)

        clash : (o' : Outcome R) → p (o.index % w.window) ≡ some o' → ⊥
        clash o' e =
            let same : o'.index % w.window ≡ o.index % w.window =
              v.slots (o.index % w.window) o' e in
            let e' : p (o'.index % w.window) ≡ some o' = rw same e in
            let low' : c ≤ o'.index = ground (arith, v.unique o'.index) in
            let high' : o'.index < q = ground (arith, v.unique o'.index) in
            let one : o'.index ≡ o.index =
              same_slot w.window c o'.index o.index low' (omega (arith, v.in_window)) low
                (omega (arith, v.in_window, high)) same in
            ground (arith, v.unique o.index)

    pub put-Facts :
        (o : Outcome R)
        → o.failed ≡ false
        → Facts w q c js rs (o ∷ os) p xs
        → Facts w q c js rs os (put p (o.index % w.window) (some o)) xs
    put-Facts o ok v = record {
      ordered = v.ordered;
      in_count = v.in_count;
      in_window = v.in_window;
      unique = λ i. ground (arith, v.unique i, slot_free o v);
      slots = λ k o' e. ground (arith, v.slots k o');
      jobs_ok = v.jobs_ok;
      running_ok = v.running_ok;
      outcomes_ok = v.outcomes_ok.1;
      pending_ok = λ k o' e. elim (Bool-cases (o.index % w.window == k)) [
        | inl h ↦ let same : o ≡ o' = ground arith in rw (← same) (v.outcomes_ok.0, ok)
        | inr h ↦ v.pending_ok k o' (ground arith)
      ];
      log = v.log;
    }

    -- What stands in the slot of the oldest index is its outcome.
    pub oldest_index :
        (o : Outcome R)
        → p (c % w.window) ≡ some o
        → Facts w q c js rs os p xs
        → (o.index ≡ c) × (c < q)
    oldest_index o e v = (
      same_slot w.window c o.index c range.0 (omega (arith, v.in_window, range.1)) (omega arith)
          (omega (arith, v.in_window, range)) same,
      omega (arith, range),
    )
      where
        same : o.index % w.window ≡ c % w.window
        same = v.slots (c % w.window) o e

        range : (c ≤ o.index) × (o.index < q)
        range =
            let e' : p (o.index % w.window) ≡ some o = rw same e in ground (arith, v.unique o.index)

    -- The oldest index is persisted: its slot is emptied, and the log grows by its result.
    pub commit-Facts :
        (o : Outcome R)
        → p (c % w.window) ≡ some o
        → Facts w q c js rs os p xs
        → Facts w q (suc c) js rs os (put p (c % w.window) none) (xs ++ o.result ∷ [])
    commit-Facts o e v = record {
      ordered = (oldest_index o e v).1;
      in_count = v.in_count;
      in_window = omega (arith, v.in_window);
      unique = λ i. ground (arith, v.unique i, oldest_index o e v);
      slots = λ k o' e'. ground (arith, v.slots k o');
      jobs_ok = v.jobs_ok;
      running_ok = v.running_ok;
      outcomes_ok = v.outcomes_ok;
      pending_ok = λ k o' e'. v.pending_ok k o' (ground arith);
      log =
          let (genuine, ok) = v.pending_ok (c % w.window) o e in
          let (m, n, g) = genuine in log_suc o m xs v.log (oldest_index o e v).0 n g ok;
    }

    -- A slot that is emptied, or an outcome that is not kept, leaves the rest as it is.
    pub clear-Facts : (k : ℕ) → Facts w q c js rs os p xs → Facts w q c js rs os (put p k none) xs
    clear-Facts k v = record {
      ordered = v.ordered;
      in_count = v.in_count;
      in_window = v.in_window;
      unique = λ i. ground (arith, v.unique i);
      slots = λ j o' e'. ground (arith, v.slots j o');
      jobs_ok = v.jobs_ok;
      running_ok = v.running_ok;
      outcomes_ok = v.outcomes_ok;
      pending_ok = λ j o' e'. v.pending_ok j o' (ground arith);
      log = v.log;
    }

  pub skip-Facts :
      {q c : ℕ} {js rs : List (ℕ × M)} {p : ℕ → Option (Outcome R)} {xs : List R} (o : Outcome R)
      (os : List (Outcome R))
      → Facts w q c js rs (o ∷ os) p xs
      → Facts w q c js rs os p xs
  skip-Facts o os v = record {
    ordered = v.ordered;
    in_count = v.in_count;
    in_window = v.in_window;
    unique = λ i. omega (arith, v.unique i);
    slots = v.slots;
    jobs_ok = v.jobs_ok;
    running_ok = v.running_ok;
    outcomes_ok = v.outcomes_ok.1;
    pending_ok = v.pending_ok;
    log = v.log;
  }
