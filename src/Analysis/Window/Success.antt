-- ===== src/Analysis/Window/Success.antt =====
-- Where every callback succeeds and the caller does not interrupt, the function returns success.
use mutation_judge.Base.{
  ℕ, zero, suc, ◌+◌, ◌*◌, ◌%◌, ◌≤◌, ◌<◌, ◌≡◌, ◌≢◌, refl, sym, subst, ◌∙◌, ◌⊎◌, Bool, true, false,
  ◌||◌, List, [], ◌∷◌, ◌++◌, none, some, ltb, leb, ◌==◌, if◌then◌else◌, arith, inl, inr, Bool-cases,
  Option-cases, All,
}
use mutation_judge.Analysis.Window.{
  Work, Outcome, State, Phase, filling, selecting, closing, joining, finished, put, in_order,
  is_some, has_room, flush, receive, drain, initial, Step, fill, fill_fails, fill_ends, receives,
  sees_cancel, closes, joins, takes, drops, sends, cancels, interrupted, Reach, here, step,
  returned,
}
use mutation_judge.Analysis.Window.Facts.{Facts, IsGenuine}
use mutation_judge.Analysis.Window.Invariant.{Inv, Reach-Inv}
use mutation_judge.Analysis.Window.Slots.{slot_free}
use mutation_judge.Analysis.Window.Progress.{Run, OwnStep, Run-ends, Run-Reach, receive-parent_done}

module _ {M R : Type 0} (w : Work M R) where
  -- Every mutation can be read and run, and every result persisted.
  pub record AllSucceed : Type 0 where
    pub reads : (i : ℕ) → i < w.count → w.next i ≢ none
    pub runs : (i : ℕ) (m : M) → (w.run i m).1 ≡ false
    pub persists : (i : ℕ) → w.persists i ≡ true

  abbrev Going : Phase → Bool → ℕ → Type 0
  Going filling b c = b ≡ false
  Going selecting b c = b ≡ false
  Going _ b c = w.count ≤ c

  record Calm (s : State M R) : Type 0 where
    no_error : s.first_err ≡ none
    idle : s.cancelling ≡ 0
    going : Going s.phase s.cancelled s.committed

  module _ (good : AllSucceed) (some_window : 0 < w.window) where
    test-Calm :
        (s : State M R)
        → s.first_err ≡ none
        → s.cancelling ≡ 0
        → s.cancelled ≡ false
        → Calm (record s { phase = if ltb s.committed w.count then filling else closing })
    test-Calm s f i c = elim (Bool-cases (ltb s.committed w.count)) [
      | inl h ↦ rw h (record { no_error = f; idle = i; going = c })
      | inr h ↦ rw h (record { no_error = f; idle = i; going = ground arith })
    ]

    flush-Calm :
        (fuel : ℕ) (s : State M R)
        → s.first_err ≡ none
        → s.cancelling ≡ 0
        → s.cancelled ≡ false
        → Calm (flush w fuel s)
    unfolding flush
    flush-Calm zero s f i c = test-Calm s f i c
    flush-Calm (suc fuel) s f i c = elim (Option-cases (s.pending (s.committed % w.window))) [
      | inl e ↦ rw (e, flush) (test-Calm s f i c)
      | inr (o, e) ↦
          rw (e, good.persists s.committed, flush)
            (flush-Calm fuel
              (record s {
                pending = put s.pending (s.committed % w.window) none;
                recorded = s.recorded ++ o.result ∷ [];
                committed = suc s.committed;
              })
              f i c)
    ]

    not_failed : (o : Outcome R) → IsGenuine w o → o.failed ≡ false
    not_failed o (m, n, g) = ground (arith, good.runs o.index m)

    drain-none : (os : List (Outcome R)) → All (IsGenuine w) os → drain none os ≡ none
    unfolding drain
    drain-none [] h = refl
    drain-none (o ∷ os) h = rw (not_failed o h.0) (drain-none os h.1)

    receive-Calm :
        (s : State M R) (o : Outcome R) (os : List (Outcome R))
        → s.outcomes ≡ o ∷ os
        → Inv w s
        → Calm s
        → s.cancelled ≡ false
        → Calm (receive w (record s { outcomes = os }) o)
    unfolding receive
    receive-Calm s o os e v calm go =
        simp (ok, in_range)
          (flush-Calm w.window
            (record s { outcomes = os; pending = put s.pending (o.index % w.window) (some o) })
            calm.no_error calm.idle go)
      where
        facts : Facts w s.queued s.committed s.jobs s.running (o ∷ os) s.pending s.recorded
        facts = rw e at v.facts

        ok : o.failed ≡ false
        ok = not_failed o facts.outcomes_ok.0

        in_range :
            (ltb o.index s.committed
              || (leb s.queued o.index || is_some (s.pending (o.index % w.window))))
            ≡ false
        in_range = ground (arith, slot_free w o facts)

    Going-in :
        (s : State M R) (ph : Phase) → s.phase ≡ ph → Calm s → Going ph s.cancelled s.committed
    Going-in s ph e calm = subst (λ ph. Going ph s.cancelled s.committed) e calm.going

    ends-Going :
        (s : State M R)
        → (has_room w s ≡ false) ⊎ (s.cancelled ≡ true)
        → s.cancelled ≡ false
        → Going (if s.queued == s.committed then closing else selecting) s.cancelled s.committed
    ends-Going s (inr over) go = absurd (ground arith)
    ends-Going s (inl full) go = elim (Bool-cases (s.queued == s.committed)) [
      | inl same ↦ rw same (let c : w.count ≤ s.committed = ground (arith, some_window) in c)
      | inr more ↦ rw more go
    ]

    Step-Calm :
        {s t : State M R}
        → Step w s t
        → Inv w s
        → t.parent_done ≡ false
        → (s.parent_done ≡ false → Calm s)
        → Calm t
    Step-Calm {s} (fill m ph room go e) v d l =
        let calm = l d in record { no_error = calm.no_error; idle = calm.idle; going = rw ph go }
    Step-Calm {s} (fill_fails ph room go e) v d l = absurd (good.reads s.queued (ground arith) e)
    Step-Calm {s} (fill_ends ph h) v d l =
        let calm = l d in
        record {
          no_error = calm.no_error;
          idle = calm.idle;
          going = ends-Going s h (Going-in s filling ph calm);
        }
    Step-Calm {s} (receives o os ph e) v d l =
        let calm = l (sym (receive-parent_done w (record s { outcomes = os }) o) ∙ d) in
        receive-Calm s o os e v calm (Going-in s selecting ph calm)
    Step-Calm {s} (sees_cancel ph h) v d l =
        let go = Going-in s selecting ph (l d) in absurd (ground (arith, go))
    Step-Calm {s} (closes ph) v d l =
        let calm = l d in
        record { no_error = calm.no_error; idle = calm.idle; going = Going-in s closing ph calm }
    Step-Calm {s} (joins ph j r c) v d l =
        let calm = l d in
        record {
          no_error = rw calm.no_error (drain-none s.outcomes v.facts.outcomes_ok);
          idle = calm.idle;
          going = Going-in s joining ph calm;
        }
    Step-Calm {s} (takes i m js e room go) v d l =
        let calm = l d in record { no_error = calm.no_error; idle = calm.idle; going = calm.going }
    Step-Calm {s} (drops i m js e room go) v d l =
        let calm = l d in record { no_error = calm.no_error; idle = calm.idle; going = calm.going }
    Step-Calm {s} (sends before after i m e) v d l =
        let calm = l d in
        record { no_error = calm.no_error; idle = rw (good.runs i m) calm.idle; going = calm.going }
    Step-Calm {s} (cancels n e) v d l = let calm = l d in absurd (omega (arith, calm.idle))
    Step-Calm {s} (interrupted h) v d l = absurd (ground arith)

    Reach-Calm : {s : State M R} → Reach w s → s.parent_done ≡ false → Calm s
    Reach-Calm here d = record { no_error = refl; idle = refl; going = refl }
    Reach-Calm (step r st) d = Step-Calm st (Reach-Inv w r) d (Reach-Calm r)

    finished-returns :
        {s : State M R}
        → Reach w s
        → s.phase ≡ finished
        → s.parent_done ≡ false
        → (returned w s ≡ (true, none)) × (in_order w w.count ≡ some s.recorded)
    finished-returns {s} r ph d =
        let calm = Reach-Calm r d in
        let v = Reach-Inv w r in
        let below : w.count ≤ s.committed = Going-in s finished ph calm in
        let all : s.committed ≡ w.count = omega (arith, v.facts.ordered, v.facts.in_count) in
        (ground (arith, calm.no_error, all, d), rw (← all) v.facts.log)

    -- Where there is a worker, and every mutation can be read, run and persisted, a run in which the
    -- caller does not interrupt is of at most `8 * count + 5` steps, and behind it the coordinator or a
    -- worker can go on, or else the function has returned `true`, no error, and the results of all
    -- mutations are recorded in order.
    pub Run-succeeds :
        {t : State M R} {n : ℕ}
        → 0 < w.workers
        → Run w (initial w) n t
        → t.parent_done ≡ false
        → (n ≤ 8 * w.count + 5)
          × (OwnStep w t
              ⊎ ((t.phase ≡ finished)
                  × (returned w t ≡ (true, none))
                  × (in_order w w.count ≡ some t.recorded)))
    Run-succeeds {t} k run d =
        let (few, ending) = Run-ends w k run in
        (
          few,
          elim ending [
            | inl ph ↦
                let (all, log) = finished-returns (Run-Reach w run) ph d in inr (ph, all, log)
            | inr own ↦ inl own
          ],
        )
