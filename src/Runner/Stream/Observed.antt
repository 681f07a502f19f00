-- ===== src/Runner/Stream/Observed.antt =====
-- internal/runner/stream.go against classifyEvents of internal/runner/runner.go.
use mutation_judge.Base.{◌≡◌, ◌↔◌, sym, ap, ◌∙◌, Bool, true, false, List, map, Text, arith, All}
use mutation_judge.Runner.{
  TestEvent, is_empty, member, insert, insert_all, failed_pkg_tests, Outcomes, Scan, no_events,
  fail_test, some_not_in, scan_event, scan_events, classify_events,
}
use mutation_judge.Runner.Packages.{runs, any, reports, some_not_in_iff, scan_events-packages}
use mutation_judge.Runner.Twin.{IsClean, classify_events-verdict_of, scan_events-tests}
use mutation_judge.Runner.Stream.Names.{
  names, names-empty, member-names, choice-verdict, classify-tests, both_iff,
}
use mutation_judge.Runner.Stream.{
  Stream, track, observe_test, observe_output, keep_evidence, observe, classify, name_of,
}

-- The variables of classifyEvents, as far as the stream keeps them.
abbrev pub scan_of : Stream → List Text → Scan
scan_of s order = record {
  tests = record { started = s.started; failed = s.failed };
  order = order;
  pkg_ran = s.pkg_ran;
  pkg_build_failed = s.pkg_build_failed;
}

module _ (is_summary is_timeout : Text → Bool) where
  pub observe-incomplete :
      (s : Stream) (e : TestEvent)
      → (observe is_summary is_timeout s e).incomplete ≡ false
      → s.incomplete ≡ false
  unfolding observe observe_output observe_test keep_evidence
  observe-incomplete s e h = ground (arith, h)

  pub observe-scan_event :
      (s : Stream) (order : List Text) (e : TestEvent)
      → (observe is_summary is_timeout s e).incomplete ≡ false
      → scan_event is_summary (scan_of s order) e
        ≡ scan_of
            (observe is_summary is_timeout s e)
            (scan_event is_summary (scan_of s order) e).order
  unfolding observe observe_output observe_test keep_evidence scan_event fail_test track insert
  observe-scan_event s order e h = ground (arith, h)

  -- A stream that has met no limit, and the variables of classifyEvents behind the events.
  module _ (es : List TestEvent) (s : Stream) (last : List Text)
      (same : scan_events is_summary no_events es ≡ scan_of s last) where
    failed_as : failed_pkg_tests es ≡ insert_all s.started s.failed
    unfolding failed_pkg_tests
    failed_as =
        ap (λ (o : Outcomes). insert_all o.started o.failed)
          (sym (scan_events-tests is_summary no_events es) ∙ ap (λ (t : Scan). t.tests) same)

    packages_as :
        (some_not_in s.pkg_ran s.pkg_build_failed ≡ true)
        ↔ ((p : Text) × (any (reports is_summary p) es ≡ true) × (any (runs p) es ≡ false))
    unfolding member
    packages_as =
        let ran : (p : Text) → member p s.pkg_ran ≡ any (runs p) es = λ p.
          ap (λ (t : Scan). member p t.pkg_ran) (sym same)
          ∙ (scan_events-packages is_summary no_events es p).0 in
        let reported : (p : Text) → member p s.pkg_build_failed ≡ any (reports is_summary p) es =
          λ p.
            ap (λ (t : Scan). member p t.pkg_build_failed) (sym same)
            ∙ (scan_events-packages is_summary no_events es p).1 in
        let broken = some_not_in_iff s.pkg_ran s.pkg_build_failed in
        (
          λ e. let (p, i, o) = broken.0 e in (p, sym (reported p) ∙ i, sym (ran p) ∙ o),
          λ (p, i, o). broken.1 (p, reported p ∙ i, ran p ∙ o),
        )

    pub classify-scan :
        All IsClean es
        → s.incomplete ≡ false
        → ((classify s).0 ≡ (classify_events is_summary es).0)
          × ((t : Text) → member t (classify s).1 ≡ member t (map name_of (failed_pkg_tests es)))
    unfolding classify
    classify-scan clean h =
        let (b, verdict, iff) = classify_events-verdict_of is_summary es clean in
        let broken = both_iff (some_not_in s.pkg_ran s.pkg_build_failed) b packages_as iff in
        let none_there = names-empty s ∙ ap is_empty (sym failed_as) in
        (
          rw verdict (
              choice-verdict is_summary (names s) (failed_pkg_tests es) s.incomplete
                (some_not_in s.pkg_ran s.pkg_build_failed) b none_there h broken),
          λ t.
              classify-tests t s
              ∙ (member-names t s ∙ ap (λ ks. member t (map name_of ks)) (sym failed_as)),
        )
