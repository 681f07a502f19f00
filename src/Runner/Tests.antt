-- ===== src/Runner/Tests.antt =====
-- A run with a test that fails and one that hangs, and one with a package that does not build.
use mutation_judge.Base.{
  ◌≡◌, ◌↔◌, refl, Bool, true, false, ◌||◌, List, [], ◌∷◌, Text, codes, text_eq, after_prefix,
  has_prefix, arith, All,
}
use mutation_judge.Model.{killed, invalid}
use mutation_judge.Runner.{
  Action, run, pass, fail, output, TestEvent, key, member, insert, failed_pkg_tests,
  classify_events,
}
use mutation_judge.Runner.Packages.{any, runs, reports}
use mutation_judge.Runner.Twin.{IsClean, verdict_of, classify_events-verdict_of}
use mutation_judge.Runner.Failed.{fails, still_runs, failed_pkg_tests-member}

abbrev event : Action → Text → Text → TestEvent
event a p t = record { action = a; pkg = p; test = t; output = [] }

abbrev starts_with_fail : Text → Bool
starts_with_fail = has_prefix (codes "FAIL")

abbrev two_failures : List TestEvent
two_failures =
    event run (codes "m/a") (codes "TestB")
    ∷ event run (codes "m/a") (codes "TestA")
    ∷ event run (codes "m/a") (codes "TestC")
    ∷ event pass (codes "m/a") (codes "TestC")
    ∷ event fail (codes "m/a") (codes "TestB")
    ∷ []

two_failures-IsClean : All IsClean two_failures
two_failures-IsClean = ground arith

two_failures_value :
    classify_events starts_with_fail two_failures ≡ (killed, codes "TestA" ∷ codes "TestB" ∷ [])
unfolding classify_events insert text_eq
two_failures_value = refl

classify_events-verdict_of_example :
    (b : Bool) × (classify_events starts_with_fail two_failures
      ≡ verdict_of starts_with_fail (failed_pkg_tests two_failures) b)
    × ((b ≡ true) ↔ (
        (p : Text) × (any (reports starts_with_fail p) two_failures ≡ true)
        × (any (runs p) two_failures ≡ false)))
classify_events-verdict_of_example =
    classify_events-verdict_of starts_with_fail two_failures two_failures-IsClean

failed_pkg_tests-member_example :
    member (key (codes "m/a") (codes "TestA")) (failed_pkg_tests two_failures) ≡ (
      any (fails (key (codes "m/a") (codes "TestA"))) two_failures
      || still_runs (key (codes "m/a") (codes "TestA")) false two_failures)
failed_pkg_tests-member_example =
    failed_pkg_tests-member two_failures (key (codes "m/a") (codes "TestA"))

-- A package that does not build, beside one whose tests pass.
abbrev broken_build : List TestEvent
broken_build =
    event run (codes "m/a") (codes "TestC")
    ∷ event pass (codes "m/a") (codes "TestC")
    ∷ record {
      action = output;
      pkg = codes "m/b";
      test = [];
      output = codes "FAIL m/b [build failed]";
    }
    ∷ []

broken_build_value : classify_events starts_with_fail broken_build ≡ (invalid, [])
unfolding classify_events insert text_eq after_prefix
broken_build_value = refl
