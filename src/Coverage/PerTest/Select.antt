-- ===== src/Coverage/PerTest/Select.antt =====
-- Which tests the selectors of internal/coverage/pertest.go find.
use mutation_judge.Base.{
  ◌≡◌, refl, ◌∙◌, Bool, true, false, not, ◌&&◌, ◌||◌, List, [], ◌∷◌, Option, none, some, Text,
  text_eq, text_lt, arith, Bool-cases, ◌⊎◌, inl, inr,
}
use mutation_judge.Base.Int.{ℤ}
use mutation_judge.Base.Sets.{member, member-insert, member-sort}
use mutation_judge.Base.Sort.{sort}
use mutation_judge.Model.Validate.{is_empty}
use mutation_judge.Coverage.{covered}
use mutation_judge.Coverage.PerTest.{
  Test, PerTest, Found, noted, observe, all_in, finish, covering_tests_for_packages,
}

abbrev pub any : (Test → Bool) → List Test → Bool
any f [] = false
any f (t ∷ ts) = f t || any f ts

module _ (file : Text) (start end : ℤ) (possible : List Text) where
  -- A test of a possible package to which the file is unknown, or which covers the lines.
  abbrev pub is_blind : Test → Bool
  is_blind t = member t.owner possible && not (covered t.map file start end).1

  abbrev pub hits : Text → Test → Bool
  hits n t = (member t.owner possible && (covered t.map file start end).0) && text_eq t.name n

  abbrev pub owns : Text → Test → Bool
  owns o t = member t.owner possible && text_eq t.owner o

  -- What the loop has found, or where it has stopped.
  Observed : List Test → Found → Option Found → Type 0
  Observed ts x o =
      ((y : Found) × (o ≡ some y)
        × (any is_blind ts ≡ false)
        × ((k : Text)
            → (member k y.names ≡ (member k x.names || any (hits k) ts))
              × (member k y.saw ≡ (member k x.saw || any (owns k) ts))))
      ⊎ ((o ≡ none) × (any is_blind ts ≡ true))

  observe-Observed :
      (ts : List Test) (x : Found) → Observed ts x (observe file start end possible ts x)
  unfolding Observed observe
  observe-Observed [] x = inl (x, refl, refl, λ k. (ground arith, ground arith))
  observe-Observed (t ∷ ts) x = elim (Bool-cases (member t.owner possible)) [
    | inr m ↦
        rw (m, observe)
          (elim (observe-Observed ts x) [
            | inl (y, e, b, f) ↦ inl (y, e, b, f)
            | inr (e, b) ↦ inr (e, b)
          ])
    | inl m ↦ elim (Bool-cases (covered t.map file start end).1) [
      | inr c ↦ rw (m, c, observe) (inr (refl, refl))
      | inl c ↦
          rw (m, c, observe)
            (elim (observe-Observed ts (noted x t (covered t.map file start end).0)) [
              | inl (y, e, b, f) ↦ inl (
                y,
                e,
                b,
                λ k.
                    ground
                      (arith, f k, member-insert k t.name x.names, member-insert k t.owner x.saw),
              )
              | inr (e, b) ↦ inr (e, b)
            ])
    ]
  ]

  -- Every package of the list has a test.
  abbrev pub all_own : List Text → List Test → Bool
  all_own [] ts = true
  all_own (o ∷ os) ts = any (owns o) ts && all_own os ts

  all_in-all_own :
      (os : List Text) (ts : List Test) (saw : List Text)
      → ((o : Text) → member o saw ≡ any (owns o) ts)
      → all_in os saw ≡ all_own os ts
  unfolding all_in
  all_in-all_own [] ts saw h = refl
  all_in-all_own (o ∷ os) ts saw h = rw (h o, all_in-all_own os ts saw h) refl

  -- There is no answer: no test or no package is given, the file is unknown to a test of a package that can
  -- observe it, or such a package has no test.
  abbrev pub unanswered : PerTest → Bool
  unanswered p =
      (is_empty p.tests || is_empty possible)
      || (any is_blind p.tests || not (all_own possible p.tests))

  finished :
      (ts : List Test) (o : Option Found)
      → Observed ts (record { names = []; saw = [] }) o
      → ((finish possible o ≡ none) × ((any is_blind ts || not (all_own possible ts)) ≡ true))
        ⊎ ((names : List Text) × (finish possible o ≡ some names)
            × ((any is_blind ts || not (all_own possible ts)) ≡ false)
            × ((n : Text) → member n names ≡ any (hits n) ts))
  unfolding Observed member
  finished ts o (inr (e, b)) = inl (rw e refl, rw b refl)
  finished ts o (inl (y, e, b, f)) =
      let same = all_in-all_own possible ts y.saw (λ k. (f k).1) in
      elim (Bool-cases (all_own possible ts)) [
        | inl a ↦ inr (
          sort text_lt y.names,
          rw (e, same, a) refl,
          rw (b, a) refl,
          λ n. member-sort n y.names ∙ (f n).0,
        )
        | inr a ↦ inl (rw (e, same, a) refl, rw (b, a) refl)
      ]

  -- The selector for a mutation gives no answer exactly where no test or no package is given, the file is
  -- unknown to a test of a package that can observe the mutation, or such a package has no test; else it
  -- gives the names of those tests of these packages that reach a line of the mutation, and no other name.
  pub covering_tests_for_packages-selects :
      (p : PerTest)
      → ((covering_tests_for_packages p file start end possible ≡ none) × (unanswered p ≡ true))
        ⊎ ((names : List Text) × (covering_tests_for_packages p file start end possible
              ≡ some names)
            × (unanswered p ≡ false)
            × ((n : Text) → member n names ≡ any (hits n) p.tests))
  unfolding covering_tests_for_packages
  covering_tests_for_packages-selects p =
      elim (Bool-cases (is_empty p.tests || is_empty possible)) [
        | inl e ↦ inl (rw e refl, rw e refl)
        | inr e ↦ rw e (
            finished p.tests
              (observe file start end possible p.tests (record { names = []; saw = [] }))
              (observe-Observed p.tests (record { names = []; saw = [] })))
      ]
