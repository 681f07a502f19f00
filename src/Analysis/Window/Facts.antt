-- ===== src/Analysis/Window/Facts.antt =====
-- What is true of the window between any two steps, and what each move of a job keeps.
use mutation_judge.Base.{
  ℕ, ◌+◌, ◌-◌, ◌%◌, ◌≤◌, ◌<◌, ◌≡◌, refl, false, ◌&&◌, List, [], ◌∷◌, ◌++◌, Option, none, some, ltb,
  leb, ◌==◌, if◌then◌else◌, arith, All, All-append, All-split, count_if-append,
}
use mutation_judge.Analysis.Window.{Work, Outcome, outcome, in_order}
use mutation_judge.Analysis.Window.Count.{times}

abbrev pub fst : {A B : Type 0} → A × B → A
fst p = p.0

module _ {M R : Type 0} (w : Work M R) where
  abbrev pub in_slot : ℕ → Option (Outcome R) → ℕ
  in_slot i none = 0
  in_slot i (some o) = if o.index == i then 1 else 0

  abbrev pub inside : ℕ → ℕ → ℕ → ℕ
  inside c q i = if leb c i && ltb i q then 1 else 0

  -- How often index `i` is with a worker, in a channel or in its slot.
  abbrev pub held :
      List (ℕ × M) → List (ℕ × M) → List (Outcome R) → (ℕ → Option (Outcome R)) → ℕ → ℕ
  held js rs os p i =
      times fst i js
      + times fst i rs
      + times (λ (o : Outcome R). o.index) i os
      + in_slot i (p (i % w.window))

  abbrev pub IsJob : ℕ × M → Type 0
  IsJob j = w.next j.0 ≡ some j.1

  -- The outcome that the run of its own index gives.
  abbrev pub IsGenuine : Outcome R → Type 0
  IsGenuine o = (m : M) × (w.next o.index ≡ some m) × (o ≡ outcome w o.index m)

  pub record Facts (q c : ℕ) (js rs : List (ℕ × M)) (os : List (Outcome R))
      (p : ℕ → Option (Outcome R)) (xs : List R) : Type 0 where
    pub ordered : c ≤ q
    pub in_count : q ≤ w.count
    pub in_window : q ≤ c + w.window
    pub unique : (i : ℕ) → held js rs os p i ≤ inside c q i
    pub slots : (k : ℕ) (o : Outcome R) → p k ≡ some o → o.index % w.window ≡ k
    pub jobs_ok : All IsJob js
    pub running_ok : All IsJob rs
    pub outcomes_ok : All IsGenuine os
    pub pending_ok : (k : ℕ) (o : Outcome R) → p k ≡ some o → IsGenuine o × (o.failed ≡ false)
    pub log : in_order w c ≡ some xs

  module _ {q c : ℕ} {js rs : List (ℕ × M)} {os : List (Outcome R)} {p : ℕ → Option (Outcome R)}
      {xs : List R} where
    pub fill-Facts :
        (m : M)
        → q < w.count
        → q - c < w.window
        → w.next q ≡ some m
        → Facts q c js rs os p xs
        → Facts (q + 1) c (js ++ (q, m) ∷ []) rs os p xs
    fill-Facts m h k e v = record {
      ordered = omega (arith, v.ordered);
      in_count = omega arith;
      in_window = omega (arith, v.ordered);
      unique = λ i. ground (
        arith,
        v.unique i,
        v.ordered,
        count_if-append (λ (j : ℕ × M). j.0 == i) js ((q, m) ∷ []),
      );
      slots = v.slots;
      jobs_ok = All-append IsJob js ((q, m) ∷ []) v.jobs_ok (e, tt);
      running_ok = v.running_ok;
      outcomes_ok = v.outcomes_ok;
      pending_ok = v.pending_ok;
      log = v.log;
    }

  module _ {q c : ℕ} {os : List (Outcome R)} {p : ℕ → Option (Outcome R)} {xs : List R} where
    pub take-Facts :
        (i : ℕ) (m : M) (js rs : List (ℕ × M))
        → Facts q c ((i, m) ∷ js) rs os p xs
        → Facts q c js ((i, m) ∷ rs) os p xs
    take-Facts i m js rs v = record {
      ordered = v.ordered;
      in_count = v.in_count;
      in_window = v.in_window;
      unique = λ k. omega (arith, v.unique k);
      slots = v.slots;
      jobs_ok = v.jobs_ok.1;
      running_ok = (v.jobs_ok.0, v.running_ok);
      outcomes_ok = v.outcomes_ok;
      pending_ok = v.pending_ok;
      log = v.log;
    }

    pub drop-Facts :
        (i : ℕ) (m : M) (js rs : List (ℕ × M))
        → Facts q c ((i, m) ∷ js) rs os p xs
        → Facts q c js rs os p xs
    drop-Facts i m js rs v = record {
      ordered = v.ordered;
      in_count = v.in_count;
      in_window = v.in_window;
      unique = λ k. omega (arith, v.unique k);
      slots = v.slots;
      jobs_ok = v.jobs_ok.1;
      running_ok = v.running_ok;
      outcomes_ok = v.outcomes_ok;
      pending_ok = v.pending_ok;
      log = v.log;
    }

  module _ {q c : ℕ} {js : List (ℕ × M)} {p : ℕ → Option (Outcome R)} {xs : List R} where
    pub send-Facts :
        (before after : List (ℕ × M)) (i : ℕ) (m : M) (os : List (Outcome R))
        → Facts q c js (before ++ (i, m) ∷ after) os p xs
        → Facts q c js (before ++ after) (os ++ outcome w i m ∷ []) p xs
    send-Facts before after i m os v = record {
      ordered = v.ordered;
      in_count = v.in_count;
      in_window = v.in_window;
      unique = λ k. omega (
        arith,
        v.unique k,
        count_if-append (λ (j : ℕ × M). j.0 == k) before ((i, m) ∷ after),
        count_if-append (λ (j : ℕ × M). j.0 == k) before after,
        count_if-append (λ (o : Outcome R). o.index == k) os (outcome w i m ∷ []),
      );
      slots = v.slots;
      jobs_ok = v.jobs_ok;
      running_ok = All-append IsJob before after parts.0 parts.1.1;
      outcomes_ok =
          All-append IsGenuine os (outcome w i m ∷ []) v.outcomes_ok ((m, parts.1.0, refl), tt);
      pending_ok = v.pending_ok;
      log = v.log;
    }
      where
        parts : All IsJob before × All IsJob ((i, m) ∷ after)
        parts = All-split IsJob before ((i, m) ∷ after) v.running_ok
