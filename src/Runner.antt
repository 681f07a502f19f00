-- ===== src/Runner.antt =====
-- internal/runner/runner.go: the verdict that the events of a failed `go test -json` give. A Go map that
-- is used as a set is the list of its keys in the order of their insertion; where the code ranges over
-- one, the order does not show in what it returns.
pub mod Packages
pub mod Twin
pub mod Failed
pub mod Stream
mod Tests
use mutation_judge.Base.{
  ℕ, ◌+◌, Bool, true, false, not, ◌&&◌, ◌||◌, List, [], ◌∷◌, ◌++◌, Text, text_eq, text_lt, select,
  ◌==◌, if◌then◌else◌,
}
use mutation_judge.Base.Sort.{sort}
unfoldable pub use mutation_judge.Base.Sets.{member, insert}
use mutation_judge.Model.{Verdict, killed, invalid}

-- The text of the field `Action`: `another` is every text but the five that are handled.
pub data Action : Type 0 where
  run pass skip fail output : Action
  another : Text → Action

pub record TestEvent : Type 0 where
  pub action : Action
  pub pkg : Text
  pub test : Text
  pub output : Text

abbrev pub is_empty : {A : Type 0} → List A → Bool
is_empty [] = true
is_empty (x ∷ xs) = false

abbrev pub key : Text → Text → Text
key pkg test = pkg ++ (0 ∷ test)

abbrev pub delete : Text → List Text → List Text
delete k s = select (λ x. not (text_eq x k)) s

-- `strings.Cut` at the first zero byte: what is behind it, or the whole text.
unfoldable pub behind_zero : Text → Text → Text
behind_zero whole [] = whole
behind_zero whole (c ∷ s) = let rest = behind_zero whole s in if c == 0 then s else rest

abbrev pub test_name : Text → Text
test_name k = behind_zero k k

-- The maps of `failedPkgTests`.
pub record Outcomes : Type 0 where
  pub started : List Text
  pub failed : List Text

unfoldable pub outcome_after : Outcomes → TestEvent → Outcomes
unfolding insert
outcome_after o e =
    let k = key e.pkg e.test in
    if is_empty e.test then o else elim e.action [
      | run ↦ record o { started = insert k o.started }
      | pass ↦ record o { started = delete k o.started }
      | skip ↦ record o { started = delete k o.started }
      | fail ↦ record { started = delete k o.started; failed = insert k o.failed }
      | output ↦ o
      | another t ↦ o
    ]

unfoldable pub outcomes_from : Outcomes → List TestEvent → Outcomes
unfolding outcome_after
outcomes_from o [] = o
outcomes_from o (e ∷ es) = outcomes_from (outcome_after o e) es

unfoldable pub insert_all : List Text → List Text → List Text
unfolding insert
insert_all [] s = s
insert_all (k ∷ ks) s = insert_all ks (insert k s)

unfoldable pub failed_pkg_tests : List TestEvent → List Text
unfolding outcomes_from insert_all
failed_pkg_tests events =
    let o = outcomes_from (record { started = []; failed = [] }) events in
    insert_all o.started o.failed

-- The variables of `classifyEvents`.
pub record Scan : Type 0 where
  pub tests : Outcomes
  pub order : List Text
  pub pkg_ran : List Text
  pub pkg_build_failed : List Text

abbrev pub no_events : Scan
no_events = record {
  tests = record { started = []; failed = [] };
  order = [];
  pkg_ran = [];
  pkg_build_failed = [];
}

-- The case "fail" of a test.
unfoldable pub fail_test : Scan → TestEvent → Scan
unfolding member
fail_test s e =
    let k = key e.pkg e.test in
    let started = delete k s.tests.started in
    if member k s.tests.failed
    then record s { tests = record { started = started; failed = s.tests.failed } }
    else record s {
      tests = record { started = started; failed = s.tests.failed ++ k ∷ [] };
      order = s.order ++ e.test ∷ [];
    }

-- The loop over the started tests behind the events.
unfoldable pub fail_started : List Text → Scan → Scan
unfolding member behind_zero
fail_started [] s = s
fail_started (k ∷ ks) s = elim (member k s.tests.failed) [
  | true ↦ fail_started ks s
  | false ↦ fail_started ks (record s {
    tests = record { started = s.tests.started; failed = s.tests.failed ++ k ∷ [] };
    order = s.order ++ test_name k ∷ [];
  })
]

unfoldable pub some_not_in : List Text → List Text → Bool
unfolding member
some_not_in ran [] = false
some_not_in ran (p ∷ ps) = not (member p ran) || some_not_in ran ps

-- `is_summary` is whether `packageFailSummaryRE` matches an output.
module _ (is_summary : Text → Bool) where
  unfoldable pub scan_event : Scan → TestEvent → Scan
  unfolding insert fail_test
  scan_event s e =
      let k = key e.pkg e.test in
      let delete_started = record s {
        tests = record { started = delete k s.tests.started; failed = s.tests.failed };
      } in
      elim e.action [
        | run ↦ if is_empty e.test then s else record s {
          tests = record { started = insert k s.tests.started; failed = s.tests.failed };
          pkg_ran = insert e.pkg s.pkg_ran;
        }
        | pass ↦ if is_empty e.test then s else delete_started
        | skip ↦ if is_empty e.test then s else delete_started
        | fail ↦ if is_empty e.test then s else fail_test s e
        | output ↦
            if is_empty e.test && is_summary e.output
            then record s { pkg_build_failed = insert e.pkg s.pkg_build_failed }
            else s
        | another t ↦ s
      ]

  unfoldable pub scan_events : Scan → List TestEvent → Scan
  unfolding scan_event
  scan_events s [] = s
  scan_events s (e ∷ es) = scan_events (scan_event s e) es

  unfoldable pub classify_events : List TestEvent → Verdict × List Text
  unfolding scan_events fail_started some_not_in sort text_lt
  classify_events events =
      let scanned = scan_events no_events events in
      let s = fail_started scanned.tests.started scanned in
      if not (is_empty s.tests.failed)
      then (killed, sort text_lt s.order)
      else if some_not_in s.pkg_ran s.pkg_build_failed
      then (invalid, [])
      else (killed, [])
