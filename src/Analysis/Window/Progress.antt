-- ===== src/Analysis/Window/Progress.antt =====
-- The window never gets stuck, and it stops: a step of its own is possible until the function returns, and
-- every step uses up a bounded measure.
use mutation_judge.Base.{
  ℕ, zero, suc, ◌+◌, ◌-◌, ◌*◌, ◌%◌, ◌≤◌, ◌<◌, ◌≡◌, ◌≢◌, ◌⊎◌, refl, subst, ap, Bool, true, false,
  List, [], ◌∷◌, ◌++◌, Option, none, some, length, length-append, if◌then◌else◌, arith, inl, inr,
  Bool-cases, Option-cases,
}
use native.Mathlib.Decide.{dec_lt}
use mutation_judge.Analysis.Window.{
  Work, Outcome, State, Phase, filling, selecting, closing, joining, finished, put, outcome,
  has_room, flush, receive, initial, Step, fill, fill_fails, fill_ends, receives, sees_cancel,
  closes, joins, takes, drops, sends, cancels, interrupted, Reach, here, step,
}
use mutation_judge.Analysis.Window.Count.{times-le-length}
use mutation_judge.Analysis.Window.Facts.{fst}
use mutation_judge.Analysis.Window.Invariant.{Inv, Reach-Inv}
use mutation_judge.Analysis.Window.Live.{Live, Awaits, Reach-Live}

module _ {M R : Type 0} (w : Work M R) where
  flush-parent_done : (fuel : ℕ) (s : State M R) → (flush w fuel s).parent_done ≡ s.parent_done
  unfolding flush
  flush-parent_done zero s = refl
  flush-parent_done (suc fuel) s = elim (Option-cases (s.pending (s.committed % w.window))) [
    | inl e ↦ rw (e, flush) refl
    | inr (o, e) ↦ elim (Bool-cases (w.persists s.committed)) [
      | inl h ↦
          rw (e, h, flush)
            (flush-parent_done fuel (record s {
              pending = put s.pending (s.committed % w.window) none;
              recorded = s.recorded ++ o.result ∷ [];
              committed = suc s.committed;
            }))
      | inr h ↦ rw (e, h, flush) refl
    ]
  ]

  pub receive-parent_done :
      (s : State M R) (o : Outcome R) → (receive w s o).parent_done ≡ s.parent_done
  unfolding receive
  receive-parent_done s o = ground (
    arith,
    flush-parent_done w.window (record s { pending = put s.pending (o.index % w.window) (some o) }),
  )

  -- A step of the coordinator or of a worker: the caller does not interrupt in it.
  abbrev pub OwnStep : State M R → Type 0
  OwnStep s = (t : State M R) × Step w s t × (t.parent_done ≡ s.parent_done)

  -- A worker can always do something with a job, where there is one.
  worker-OwnStep :
      (s : State M R) (js rs : List (ℕ × M)) (n : ℕ) (b : Bool)
      → 0 < w.workers
      → s.jobs ≡ js
      → s.running ≡ rs
      → s.cancelling ≡ n
      → s.cancelled ≡ b
      → 0 < length js + length rs + n
      → OwnStep s
  worker-OwnStep s js (r ∷ rs) n b k j e c d h = (_, sends [] rs r.0 r.1 e, refl)
  worker-OwnStep s js [] (suc n) b k j e c d h = (_, cancels n c, refl)
  worker-OwnStep s [] [] zero b k j e c d h = absurd (omega arith)
  worker-OwnStep s (x ∷ js) [] zero true k j e c d h =
      (_, drops x.0 x.1 js j (rw (e, c) (omega arith)) d, refl)
  worker-OwnStep s (x ∷ js) [] zero false k j e c d h =
      (_, takes x.0 x.1 js j (rw (e, c) (omega arith)) d, refl)

  filling-OwnStep :
      (s : State M R) (m : Option M) → s.phase ≡ filling → w.next s.queued ≡ m → OwnStep s
  filling-OwnStep s m ph n = elim (Bool-cases (has_room w s)) [
    | inr full ↦ (_, fill_ends ph (inl full), refl)
    | inl room ↦ elim (Bool-cases s.cancelled) [
      | inl over ↦ (_, fill_ends ph (inr over), refl)
      | inr go ↦ elim (Option-cases (w.next s.queued)) [
        | inl e ↦ (_, fill_fails ph room go e, refl)
        | inr (m', e) ↦ (_, fill m' ph room go e, refl)
      ]
    ]
  ]

  selecting-OwnStep :
      (s : State M R) (os : List (Outcome R))
      → 0 < w.workers
      → s.phase ≡ selecting
      → s.outcomes ≡ os
      → Inv w s
      → Live w s
      → OwnStep s
  selecting-OwnStep s (o ∷ os) k ph e v l =
      (_, receives o os ph e, receive-parent_done (record s { outcomes = os }) o)
  selecting-OwnStep s [] k ph e v l = elim (Bool-cases s.cancelled) [
    | inl over ↦ (_, sees_cancel ph over, refl)
    | inr go ↦
        worker-OwnStep s s.jobs s.running s.cancelling s.cancelled k refl refl refl refl
          (some_work go)
  ]
    where
      waits : Awaits w selecting s.queued s.committed s.pending s.cancelled
      waits = subst (λ ph. Awaits w ph s.queued s.committed s.pending s.cancelled) ph l.awaits

      some_work : s.cancelled ≡ false → 0 < length s.jobs + length s.running + s.cancelling
      some_work go = ground (
        arith,
        l.kept go s.committed,
        waits,
        e,
        times-le-length fst s.committed s.jobs,
        times-le-length fst s.committed s.running,
      )

  phase-OwnStep :
      (ph : Phase) (s : State M R)
      → 0 < w.workers
      → s.phase ≡ ph
      → ph ≢ finished
      → Inv w s
      → Live w s
      → OwnStep s
  phase-OwnStep filling s k ph ne v l = filling-OwnStep s (w.next s.queued) ph refl
  phase-OwnStep selecting s k ph ne v l = selecting-OwnStep s s.outcomes k ph refl v l
  phase-OwnStep closing s k ph ne v l = (_, closes ph, refl)
  phase-OwnStep finished s k ph ne v l = absurd (ne refl)
  phase-OwnStep joining s k ph ne v l =
      elim (dec_lt 0 (length s.jobs + length s.running + s.cancelling)) [
        | yes h ↦ worker-OwnStep s s.jobs s.running s.cancelling s.cancelled k refl refl refl refl h
        | no h ↦ (_, joins ph (ground arith) (ground arith) (omega arith), refl)
      ]

  -- Until the function returns, the coordinator or a worker can go on: no interleaving deadlocks.
  pub Reach-OwnStep : {s : State M R} → 0 < w.workers → Reach w s → s.phase ≢ finished → OwnStep s
  Reach-OwnStep {s} k r ne = phase-OwnStep s.phase s k refl ne (Reach-Inv w r) (Reach-Live w r)

  abbrev weight : Phase → ℕ
  weight filling = 4
  weight selecting = 3
  weight closing = 2
  weight joining = 1
  weight finished = 0

  -- What is left to do, but for the phase.
  abbrev rest : State M R → ℕ
  rest s =
      8 * (w.count - s.queued)
      + 7 * length s.jobs
      + 6 * length s.running
      + s.cancelling
      + 4 * length s.outcomes
      + (if s.parent_done then 0 else 1)

  abbrev pub measure : State M R → ℕ
  measure s = rest s + weight s.phase

  flush-rest :
      (fuel : ℕ) (s : State M R)
      → (rest (flush w fuel s) ≡ rest s) × (weight (flush w fuel s).phase ≤ 4)
  unfolding flush
  flush-rest zero s = ground arith
  flush-rest (suc fuel) s = elim (Option-cases (s.pending (s.committed % w.window))) [
    | inl e ↦ rw (e, flush) (ground arith)
    | inr (o, e) ↦ elim (Bool-cases (w.persists s.committed)) [
      | inl h ↦
          rw (e, h, flush)
            (flush-rest fuel (record s {
              pending = put s.pending (s.committed % w.window) none;
              recorded = s.recorded ++ o.result ∷ [];
              committed = suc s.committed;
            }))
      | inr h ↦ rw (e, h, flush) (omega arith)
    ]
  ]

  receive-rest :
      (s : State M R) (o : Outcome R)
      → (rest (receive w s o) ≡ rest s) × (weight (receive w s o).phase ≤ 4)
  unfolding receive
  receive-rest s o = ground (
    arith,
    flush-rest w.window (record s { pending = put s.pending (o.index % w.window) (some o) }),
  )

  -- Every step lowers the measure.
  pub Step-measure : {s t : State M R} → Step w s t → measure t < measure s
  Step-measure {s} (fill m ph room go e) = ground (arith, length-append s.jobs ((s.queued, m) ∷ []))
  Step-measure {s} (fill_fails ph room go e) = ground arith
  Step-measure {s} (fill_ends ph h) = ground arith
  Step-measure {s} (receives o os ph e) =
      ground (arith, receive-rest (record s { outcomes = os }) o)
  Step-measure {s} (sees_cancel ph h) = ground arith
  Step-measure {s} (closes ph) = ground arith
  Step-measure {s} (joins ph j r c) = ground arith
  Step-measure {s} (takes i m js e room go) = ground arith
  Step-measure {s} (drops i m js e room go) = ground arith
  Step-measure {s} (sends before after i m e) = ground (
    arith,
    ap length e,
    length-append before ((i, m) ∷ after),
    length-append before after,
    length-append s.outcomes (outcome w i m ∷ []),
  )
  Step-measure {s} (cancels n e) = ground arith
  Step-measure {s} (interrupted h) = ground arith

  -- A run of so many steps.
  pub data Run (s : State M R) : ℕ → State M R → Type 0 where
    halt : Run s 0 s
    more : {n k : ℕ} {t u : State M R} → Run s n t → Step w t u → k ≡ n + 1 → Run s k u

  Run-measure : {s t : State M R} {n : ℕ} → Run s n t → measure t + n ≤ measure s
  Run-measure halt = omega arith
  Run-measure (more r st e) = omega (arith, Run-measure r, Step-measure st)

  pub Run-Reach : {t : State M R} {n : ℕ} → Run (initial w) n t → Reach w t
  Run-Reach halt = here
  Run-Reach (more r st e) = step (Run-Reach r) st

  is_finished : (ph : Phase) → (ph ≡ finished) ⊎ (ph ≢ finished)
  is_finished finished = inl refl
  is_finished filling = inr (λ e. cc)
  is_finished selecting = inr (λ e. cc)
  is_finished closing = inr (λ e. cc)
  is_finished joining = inr (λ e. cc)

  -- Where there is a worker, every run from the start is of at most `8 * count + 5` steps, and until the
  -- function has returned, the coordinator or a worker can go on, without an interrupt of the caller:
  -- whatever the interleaving, the function comes to an end and does not deadlock.
  pub Run-ends :
      {t : State M R} {n : ℕ}
      → 0 < w.workers
      → Run (initial w) n t
      → (n ≤ 8 * w.count + 5) × ((t.phase ≡ finished) ⊎ OwnStep t)
  Run-ends {t} k r = (
    omega (arith, Run-measure r),
    elim (is_finished t.phase) [ inl e ↦ inl e | inr ne ↦ inr (Reach-OwnStep k (Run-Reach r) ne) ],
  )
