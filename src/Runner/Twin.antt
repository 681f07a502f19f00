-- ===== src/Runner/Twin.antt =====
-- classifyEvents of internal/runner/runner.go against failedPkgTests, which decides the same thing.
use mutation_judge.Base.{
  ◌≡◌, ◌↔◌, refl, sym, ap, ◌∙◌, Bool, true, false, not, List, [], ◌∷◌, ◌++◌, map, Text, text_lt,
  ◌==◌, if◌then◌else◌, arith, All, Bool-cases, inl, inr,
}
use mutation_judge.Base.Sort.{sort}
use mutation_judge.Model.{Verdict, killed, invalid}
use mutation_judge.Runner.Packages.{runs, any, reports, some_not_in_iff, scan_events-packages}
use mutation_judge.Runner.{
  TestEvent, is_empty, key, member, insert, behind_zero, test_name, Outcomes, outcome_after,
  outcomes_from, insert_all, failed_pkg_tests, Scan, no_events, fail_test, fail_started,
  some_not_in, scan_event, scan_events, classify_events,
}

-- No zero byte stands in the path of a package.
abbrev pub IsClean : TestEvent → Type 0
IsClean e = All (λ c. (c == 0) ≡ false) e.pkg

behind_zero-key :
    (whole pkg test : Text)
    → All (λ c. (c == 0) ≡ false) pkg
    → behind_zero whole (key pkg test) ≡ test
unfolding behind_zero
behind_zero-key whole [] test h = refl
behind_zero-key whole (c ∷ pkg) test h = rw h.0 (behind_zero-key whole pkg test h.1)

map-append_one :
    (ks : List Text) (k : Text)
    → map test_name (ks ++ k ∷ []) ≡ map test_name ks ++ test_name k ∷ []
map-append_one [] k = refl
map-append_one (x ∷ ks) k = ap (◌∷◌ (test_name x)) (map-append_one ks k)

-- `order` names the failed tests.
abbrev IsOrdered : Scan → Type 0
IsOrdered s = s.order ≡ map test_name s.tests.failed

module _ (is_summary : Text → Bool) where
  scan_event-tests :
      (s : Scan) (e : TestEvent) → (scan_event is_summary s e).tests ≡ outcome_after s.tests e
  unfolding scan_event outcome_after fail_test insert
  scan_event-tests s e = ground arith

  scan_event-IsOrdered :
      (s : Scan) (e : TestEvent) → IsClean e → IsOrdered s → IsOrdered (scan_event is_summary s e)
  unfolding scan_event fail_test
  scan_event-IsOrdered s e clean h = ground (
    arith,
    h,
    map-append_one s.tests.failed (key e.pkg e.test),
    behind_zero-key (key e.pkg e.test) e.pkg e.test clean,
  )

  pub scan_events-tests :
      (s : Scan) (es : List TestEvent)
      → (scan_events is_summary s es).tests ≡ outcomes_from s.tests es
  unfolding scan_events outcomes_from
  scan_events-tests s [] = refl
  scan_events-tests s (e ∷ es) =
      scan_events-tests (scan_event is_summary s e) es
      ∙ ap (λ o. outcomes_from o es) (scan_event-tests s e)

  scan_events-IsOrdered :
      (s : Scan) (es : List TestEvent)
      → All IsClean es
      → IsOrdered s
      → IsOrdered (scan_events is_summary s es)
  unfolding scan_events
  scan_events-IsOrdered s [] c h = h
  scan_events-IsOrdered s (e ∷ es) c h =
      scan_events-IsOrdered (scan_event is_summary s e) es c.1 (scan_event-IsOrdered s e c.0 h)

  -- What the loop over the started tests leaves.
  record Started (ks : List Text) (s t : Scan) : Type 0 where
    all_failed : t.tests.failed ≡ insert_all ks s.tests.failed
    in_order : IsOrdered t
    same_ran : t.pkg_ran ≡ s.pkg_ran
    same_build : t.pkg_build_failed ≡ s.pkg_build_failed

  fail_started-Started :
      (ks : List Text) (s : Scan) → IsOrdered s → Started ks s (fail_started ks s)
  unfolding fail_started insert_all insert
  fail_started-Started [] s h = record {
    all_failed = refl;
    in_order = h;
    same_ran = refl;
    same_build = refl;
  }
  fail_started-Started (k ∷ ks) s h = elim (Bool-cases (member k s.tests.failed)) [
    | inl m ↦
        let rest = fail_started-Started ks s h in
        rw (m, fail_started)
          (record {
            all_failed = rw m rest.all_failed;
            in_order = rest.in_order;
            same_ran = rest.same_ran;
            same_build = rest.same_build;
          })
    | inr m ↦
        let t : Scan = record s {
          tests = record { started = s.tests.started; failed = s.tests.failed ++ k ∷ [] };
          order = s.order ++ test_name k ∷ [];
        } in
        let rest =
          fail_started-Started ks t
            (ap (λ o. o ++ test_name k ∷ []) h ∙ sym (map-append_one s.tests.failed k)) in
        rw (m, fail_started)
          (record {
            all_failed = rw m rest.all_failed;
            in_order = rest.in_order;
            same_ran = rest.same_ran;
            same_build = rest.same_build;
          })
  ]

  -- What the two maps of packages and the failed tests make of the events.
  abbrev pub verdict_of : List Text → Bool → Verdict × List Text
  verdict_of failed broken =
      if not (is_empty failed)
      then (killed, sort text_lt (map test_name failed))
      else if broken
      then (invalid, [])
      else (killed, [])

  -- The verdict is KILLED with the tests of failedPkgTests, sorted, if there are any; else it is
  -- INVALID exactly if some package reports that it failed and has started no test, and KILLED with no
  -- test if there is none.
  pub classify_events-verdict_of :
      (es : List TestEvent)
      → All IsClean es
      → (b : Bool) × (classify_events is_summary es ≡ verdict_of (failed_pkg_tests es) b)
        × ((b ≡ true)
            ↔ ((p : Text) × (any (reports is_summary p) es ≡ true) × (any (runs p) es ≡ false)))
  unfolding classify_events failed_pkg_tests member
  classify_events-verdict_of es clean =
      let scanned = scan_events is_summary no_events es in
      let v =
        fail_started-Started scanned.tests.started scanned
          (scan_events-IsOrdered no_events es clean refl) in
      let s = fail_started scanned.tests.started scanned in
      let tests = scan_events-tests no_events es in
      let failed : s.tests.failed ≡ failed_pkg_tests es =
        v.all_failed ∙ ap (λ (o : Outcomes). insert_all o.started o.failed) tests in
      let b = some_not_in s.pkg_ran s.pkg_build_failed in
      let ran : (p : Text) → member p s.pkg_ran ≡ any (runs p) es =
        λ p. ap (member p) v.same_ran ∙ (scan_events-packages is_summary no_events es p).0 in
      let reported : (p : Text) → member p s.pkg_build_failed ≡ any (reports is_summary p) es =
        λ p. ap (member p) v.same_build ∙ (scan_events-packages is_summary no_events es p).1 in
      let broken = some_not_in_iff s.pkg_ran s.pkg_build_failed in
      (
        b,
        ap
              (λ order.
                if not (is_empty s.tests.failed)
                then (killed, sort text_lt order)
                else if b
                then (invalid, [])
                else (killed, []))
              v.in_order
            ∙ ap (λ failed. verdict_of failed b) failed,
        (
          λ h. let (p, i, o) = broken.0 h in (p, sym (reported p) ∙ i, sym (ran p) ∙ o),
          λ (p, i, o). broken.1 (p, reported p ∙ i, ran p ∙ o),
        ),
      )
