-- ===== src/Coverage/PerTest.antt =====
-- internal/coverage/pertest.go: which tests can observe a mutation, one coverage map to a test.
pub mod Select
use mutation_judge.Base.{
  ℕ, Bool, true, false, not, ◌&&◌, ◌||◌, List, [], ◌∷◌, ◌++◌, Option, none, some, Text, text_eq,
  text_lt, if◌then◌else◌,
}
use mutation_judge.Base.Int.{ℤ}
use mutation_judge.Base.Sort.{sort}
use mutation_judge.Base.Sets.{member, insert}
use mutation_judge.Model.Validate.{is_empty}
use mutation_judge.Coverage.{Map, covered}

-- The three lists have one length; a test is their elements at an index.
pub record Test : Type 0 where
  pub owner : Text
  pub name : Text
  pub map : Map

-- `alwaysRun`: the pairs of a test package and a name, in the order in which they were added.
pub record PerTest : Type 0 where
  pub tests : List Test
  pub always_run : List (Text × Text)

unfoldable pub add_in_package : Text → Text → Map → PerTest → PerTest
add_in_package owner name m p = record p {
  tests = p.tests ++ record { owner = owner; name = name; map = m } ∷ [];
}

-- `Add`
unfoldable pub add : Text → Map → PerTest → PerTest
unfolding add_in_package
add name m p = add_in_package [] name m p

unfoldable pub add_always_run_in_package : Text → Text → PerTest → PerTest
add_always_run_in_package owner name p = record p {
  always_run = p.always_run ++ (owner, name) ∷ [];
}

-- The names of one package, behind those that were seen.
unfoldable pub names_of : Text → List (Text × Text) → List Text → List Text
unfolding insert text_eq
names_of owner [] names = names
names_of owner ((o, n) ∷ rs) names =
    names_of owner rs (if text_eq o owner then insert n names else names)

unfoldable pub names_of_all : List Text → List (Text × Text) → List Text → List Text
unfolding names_of
names_of_all [] rs names = names
names_of_all (o ∷ os) rs names = names_of_all os rs (names_of o rs names)

-- `AlwaysRunForPackages`
unfoldable pub always_run_for_packages : PerTest → List Text → List Text
unfolding names_of_all text_lt sort
always_run_for_packages p possible = sort text_lt (names_of_all possible p.always_run [])

-- The loop of `CoveringTests`: an unknown file counts as not covered.
unfoldable pub covering_from : Text → ℤ → ℤ → List Test → List Text → List Text
unfolding covered insert
covering_from file start end [] names = names
covering_from file start end (t ∷ ts) names =
    let (hit, known) = covered t.map file start end in
    covering_from file start end ts (if known && hit then insert t.name names else names)

-- `CoveringTests`, none where nothing was recorded.
unfoldable pub covering_tests : PerTest → Text → ℤ → ℤ → Option (List Text)
unfolding covering_from text_lt sort
covering_tests p file start end =
    if is_empty p.tests then none else some (sort text_lt (covering_from file start end p.tests []))

-- `covered` and `saw`: the names and the packages that were found.
pub record Found : Type 0 where
  pub names : List Text
  pub saw : List Text

abbrev pub noted : Found → Test → Bool → Found
noted x t hit = record {
  names = if hit then insert t.name x.names else x.names;
  saw = insert t.owner x.saw;
}

-- The loop over the maps: none where the file is unknown to a test of an allowed package.
unfoldable pub observe : Text → ℤ → ℤ → List Text → List Test → Found → Option Found
unfolding covered member insert
observe file start end possible [] x = some x
observe file start end possible (t ∷ ts) x = elim (member t.owner possible) [
  | false ↦ observe file start end possible ts x
  | true ↦ elim (covered t.map file start end).1 [
    | false ↦ none
    | true ↦ observe file start end possible ts (noted x t (covered t.map file start end).0)
  ]
]

unfoldable pub all_in : List Text → List Text → Bool
unfolding member
all_in [] saw = true
all_in (o ∷ os) saw = member o saw && all_in os saw

abbrev pub finish : List Text → Option Found → Option (List Text)
finish possible none = none
finish possible (some x) = if all_in possible x.saw then some (sort text_lt x.names) else none

-- `CoveringTestsForPackages`, none where the answer is not known.
unfoldable pub covering_tests_for_packages : PerTest → Text → ℤ → ℤ → List Text → Option (List Text)
unfolding observe all_in text_lt sort
covering_tests_for_packages p file start end possible =
    if is_empty p.tests || is_empty possible
    then none
    else finish possible (observe file start end possible p.tests (record { names = []; saw = [] }))
