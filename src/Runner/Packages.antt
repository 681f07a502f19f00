-- ===== src/Runner/Packages.antt =====
-- Which packages internal/runner/runner.go takes for packages that failed before any test.
use mutation_judge.Base.{
  ◌≡◌, ◌↔◌, ap, Bool, true, false, not, ◌&&◌, ◌||◌, List, [], ◌∷◌, Text, text_eq, text_eq_iff,
  text_eq_refl, arith, Bool-cases, inl, inr,
}
use mutation_judge.Base.Sets.{member-insert}
use mutation_judge.Runner.{
  run, output, TestEvent, is_empty, member, Scan, fail_test, some_not_in, scan_event, scan_events,
}

-- The event starts a test of the package.
abbrev pub runs : Text → TestEvent → Bool
runs p e = elim e.action [ run ↦ not (is_empty e.test) && text_eq e.pkg p | _ ↦ false ]

abbrev pub any : (TestEvent → Bool) → List TestEvent → Bool
any f [] = false
any f (e ∷ es) = f e || any f es

pub some_not_in_iff :
    (ran ps : List Text)
    → (some_not_in ran ps ≡ true) ↔ ((p : Text) × (member p ps ≡ true) × (member p ran ≡ false))
unfolding some_not_in member
some_not_in_iff ran [] = (λ h. absurd (ground (arith, h)), λ (p, m, n). absurd (ground (arith, m)))
some_not_in_iff ran (x ∷ ps) = elim (Bool-cases (member x ran)) [
  | inr m ↦ (λ h. (x, ground (arith, text_eq_refl x), m), λ h. ground (arith, m))
  | inl m ↦ (
    λ h.
        let (p, i, o) = (some_not_in_iff ran ps).0 (ground (arith, h, m)) in
        (p, ground (arith, i), o),
    λ (p, i, o). elim (Bool-cases (text_eq x p)) [
      | inl e ↦
          let same : x ≡ p = (text_eq_iff x p).0 e in
          absurd (ground (arith, ap (λ y. member y ran) same, m, o))
      | inr e ↦
          let rest = (some_not_in_iff ran ps).1 (p, ground (arith, i, e), o) in ground (arith, rest)
    ],
  )
]

module _ (is_summary : Text → Bool) where
  -- The event is the summary line of a failed package.
  abbrev pub reports : Text → TestEvent → Bool
  reports p e = elim e.action [
    | output ↦ (is_empty e.test && is_summary e.output) && text_eq e.pkg p
    | _ ↦ false
  ]

  scan_event-packages :
      (s : Scan) (e : TestEvent) (p : Text)
      → (member p (scan_event is_summary s e).pkg_ran ≡ (member p s.pkg_ran || runs p e))
        × (member p (scan_event is_summary s e).pkg_build_failed
            ≡ (member p s.pkg_build_failed || reports p e))
  unfolding scan_event fail_test
  scan_event-packages s e p =
      ground (arith, member-insert p e.pkg s.pkg_ran, member-insert p e.pkg s.pkg_build_failed)

  pub scan_events-packages :
      (s : Scan) (es : List TestEvent) (p : Text)
      → (member p (scan_events is_summary s es).pkg_ran ≡ (member p s.pkg_ran || any (runs p) es))
        × (member p (scan_events is_summary s es).pkg_build_failed
            ≡ (member p s.pkg_build_failed || any (reports p) es))
  unfolding scan_events
  scan_events-packages s [] p = ground arith
  scan_events-packages s (e ∷ es) p =
      let rest = scan_events-packages (scan_event is_summary s e) es p in
      let first = scan_event-packages s e p in ground (arith, rest, first)
