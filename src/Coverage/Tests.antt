-- ===== src/Coverage/Tests.antt =====
-- A profile of two files, and two tests.
use mathlib.Core.List.Permᴰ.{swap}
use mutation_judge.Base.{
  ◌≡◌, ◌⊎◌, refl, true, false, List, [], ◌∷◌, ◌++◌, none, some, Text, codes, text_eq,
}
use mutation_judge.Base.Int.{pos}
use mutation_judge.Base.Outcome.{ok}
use mutation_judge.Base.Sets.{member}
use mutation_judge.Coverage.{Files, Map, Paths, parse, covered, add_block, no_index, build_from}
use mutation_judge.Coverage.Fields.{Block, parse_block}
use mutation_judge.Coverage.Bounds.{IsBlock, parse_block-IsBlock}
use mutation_judge.Coverage.Resolve.{Distinct, resolve}
use mutation_judge.Coverage.Order.{build_from-order}
use mutation_judge.Coverage.Profile.{parse-resolve}
use mutation_judge.Coverage.PerTest.{PerTest, covering_tests_for_packages}
use mutation_judge.Coverage.PerTest.Select.{
  any, hits, unanswered, covering_tests_for_packages-selects,
}

abbrev two_files : Files
two_files = (codes "m/a/x.go", λ l. false) ∷ (codes "m/b/x.go", λ l. true) ∷ []

two_files-Distinct : Distinct two_files
unfolding text_eq
two_files-Distinct = ((refl, tt), (tt, tt))

build_from-order_example :
    (build_from no_index two_files).by_suffix (codes "b/x.go")
    ≡ (build_from no_index
          ((codes "m/b/x.go", λ l. true) ∷ (codes "m/a/x.go", λ l. false) ∷ [])).by_suffix
        (codes "b/x.go")
unfolding text_eq
build_from-order_example =
    build_from-order two_files ((codes "m/b/x.go", λ l. true) ∷ (codes "m/a/x.go", λ l. false) ∷ [])
      (codes "b/x.go") (swap refl refl) two_files-Distinct ((refl, tt), (tt, tt))

block_line :
    parse_block (codes "set") (codes "m/a.go:3.1,4.20 1 1")
    ≡ ok (record { file = codes "m/a.go"; start_line = 3; end_line = 4; count = 1 })
unfolding parse_block
block_line = refl

parse_block-IsBlock_example :
    IsBlock
      (codes "set")
      (record { file = codes "m/a.go"; start_line = 3; end_line = 4; count = 1 })
parse_block-IsBlock_example =
    parse_block-IsBlock (codes "set") (codes "m/a.go:3.1,4.20 1 1") _ block_line

abbrev plain_paths : Paths
plain_paths = record { clean = λ t. t; is_abs = λ t. false; rel = λ r t. none }

abbrev profile : Text
profile = codes "mode: set" ++ b'\n' ∷ codes "m/a.go:3.1,4.20 1 1"

abbrev profile_block : Block
profile_block = record { file = codes "m/a.go"; start_line = 3; end_line = 4; count = 1 }

abbrev profile_map : Map
profile_map =
    let fs = add_block (codes "m/a.go") profile_block [] in
    record { files = fs; index = build_from no_index fs }

profile_run : parse plain_paths [] profile ≡ ok profile_map
unfolding parse
profile_run = refl

parse-resolve_example :
    Distinct profile_map.files
    × ((s : Text) → profile_map.index.by_suffix s ≡ resolve profile_map.files s)
parse-resolve_example = parse-resolve plain_paths [] profile profile_map profile_run

covered_run :
    (covered profile_map (codes "a.go") (pos 4) (pos 9) ≡ (true, true))
    × (covered profile_map (codes "a.go") (pos 5) (pos 9) ≡ (false, true))
    × (covered profile_map (codes "b.go") (pos 4) (pos 9) ≡ (false, false))
unfolding covered add_block build_from
covered_run = (refl, refl, refl)

abbrev one_test : PerTest
one_test = record {
  tests = record { owner = codes "m"; name = codes "TestA"; map = profile_map } ∷ [];
  always_run = [];
}

covering_tests_for_packages_example :
    ((covering_tests_for_packages one_test (codes "a.go") (pos 4) (pos 9) (codes "m" ∷ []) ≡ none)
      × (unanswered (codes "a.go") (pos 4) (pos 9) (codes "m" ∷ []) one_test ≡ true))
    ⊎ ((names : List Text) × (covering_tests_for_packages one_test
            (codes "a.go")
            (pos 4)
            (pos 9)
            (codes "m" ∷ [])
          ≡ some names)
        × (unanswered (codes "a.go") (pos 4) (pos 9) (codes "m" ∷ []) one_test ≡ false)
        × ((n : Text)
            → member n names
              ≡ any (hits (codes "a.go") (pos 4) (pos 9) (codes "m" ∷ []) n) one_test.tests))
covering_tests_for_packages_example =
    covering_tests_for_packages-selects (codes "a.go") (pos 4) (pos 9) (codes "m" ∷ []) one_test

one_test_run :
    covering_tests_for_packages one_test (codes "a.go") (pos 4) (pos 9) (codes "m" ∷ [])
    ≡ some (codes "TestA" ∷ [])
unfolding covering_tests_for_packages covered text_eq add_block build_from
one_test_run = refl
