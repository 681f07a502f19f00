-- ===== src/Runner/Failed.antt =====
-- Which tests failedPkgTests of internal/runner/runner.go holds for failed.
use mutation_judge.Base.{
  ◌≡◌, ap, ◌∙◌, Bool, true, false, not, ◌&&◌, ◌||◌, List, [], ◌∷◌, Text, text_eq, text_eq_iff,
  if◌then◌else◌, arith,
}
use mutation_judge.Runner.{
  run, pass, skip, fail, TestEvent, is_empty, key, member, insert, delete, Outcomes, outcome_after,
  outcomes_from, insert_all, failed_pkg_tests,
}
use mutation_judge.Base.Sets.{member-insert}
use mutation_judge.Runner.Packages.{any}

-- The event is one of the test with this key.
abbrev is_about : Text → TestEvent → Bool
is_about k e = not (is_empty e.test) && text_eq (key e.pkg e.test) k

abbrev pub fails : Text → TestEvent → Bool
fails k e = elim e.action [ fail ↦ is_about k e | _ ↦ false ]

-- Whether the test is running behind the event.
abbrev runs_after : Text → Bool → TestEvent → Bool
runs_after k b e = elim e.action [
  | run ↦ if is_about k e then true else b
  | pass ↦ if is_about k e then false else b
  | skip ↦ if is_about k e then false else b
  | fail ↦ if is_about k e then false else b
  | _ ↦ b
]

-- And behind the events: it was started, and has not ended since.
abbrev pub still_runs : Text → Bool → List TestEvent → Bool
still_runs k b [] = b
still_runs k b (e ∷ es) = still_runs k (runs_after k b e) es

member-delete :
    (k x : Text) (s : List Text) → member k (delete x s) ≡ (member k s && not (text_eq x k))
unfolding member
member-delete k x [] = ground arith
member-delete k x (y ∷ s) =
    ground (arith, member-delete k x s, text_eq_iff y x, text_eq_iff y k, text_eq_iff x k)

pub member-insert_all :
    (k : Text) (ks s : List Text) → member k (insert_all ks s) ≡ (member k s || member k ks)
unfolding insert_all member
member-insert_all k [] s = ground arith
member-insert_all k (x ∷ ks) s =
    ground (arith, member-insert_all k ks (insert x s), member-insert k x s)

outcome_after-member :
    (k : Text) (o : Outcomes) (e : TestEvent)
    → (member k (outcome_after o e).started ≡ runs_after k (member k o.started) e)
      × (member k (outcome_after o e).failed ≡ (member k o.failed || fails k e))
unfolding outcome_after
outcome_after-member k o e = ground (
  arith,
  member-insert k (key e.pkg e.test) o.started,
  member-insert k (key e.pkg e.test) o.failed,
  member-delete k (key e.pkg e.test) o.started,
)

outcomes_from-member :
    (k : Text) (o : Outcomes) (es : List TestEvent)
    → (member k (outcomes_from o es).started ≡ still_runs k (member k o.started) es)
      × (member k (outcomes_from o es).failed ≡ (member k o.failed || any (fails k) es))
unfolding outcomes_from
outcomes_from-member k o [] = ground arith
outcomes_from-member k o (e ∷ es) =
    let rest = outcomes_from-member k (outcome_after o e) es in
    let one = outcome_after-member k o e in
    (rest.0 ∙ ap (λ b. still_runs k b es) one.0, ground (arith, rest.1, one.1))

-- The failed tests are those with an event "fail", and those that were started and have not ended
-- since, each by the path of its package and its name.
pub failed_pkg_tests-member :
    (es : List TestEvent) (k : Text)
    → member k (failed_pkg_tests es) ≡ (any (fails k) es || still_runs k false es)
unfolding failed_pkg_tests member
failed_pkg_tests-member es k =
    let o : Outcomes = record { started = []; failed = [] } in
    let both = outcomes_from-member k o es in
    ground
      (arith, member-insert_all k (outcomes_from o es).started (outcomes_from o es).failed, both)
