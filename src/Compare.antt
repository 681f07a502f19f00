-- ===== src/Compare.antt =====
-- internal/compare/compare.go: the comparison of two reports by mutant ID. A Go map that is only
-- read and written by key is a function of the key; a nil pointer is `none`.
pub mod Shift
pub mod Buckets
pub mod Order
pub mod Partition
pub mod Correlate
mod Tests
use mutation_judge.Base.{
  ℕ, ◌+◌, Bool, true, false, not, ◌&&◌, List, [], ◌∷◌, ◌++◌, Option, none, some, map, Text, text_eq,
  text_lt, if◌then◌else◌,
}
use mutation_judge.Base.Int.{ℤ, int_eq, int_lt}
use mutation_judge.Base.Sort.{sort}
use mutation_judge.Model.{
  Mutation, Result, Report, Verdict, killed, survived, timeout, unknown, other, verdict_eq, Float64,
}

unfoldable pub actionable : Verdict → Bool
actionable survived = true
actionable timeout = true
actionable unknown = true
actionable _ = false

unfoldable pub is_confirmed_survivor : Verdict → Bool
is_confirmed_survivor v = verdict_eq v survived

pub record MutantDiff : Type 0 where
  pub id : Text
  pub baseline : Option Result
  pub current : Option Result

-- `none` is the nil dereference: an entry with neither side.
unfoldable pub mutation : MutantDiff → Option Mutation
mutation md = elim md.current [
  | some c ↦ some c.mutation
  | none ↦ elim md.baseline [ some b ↦ some b.mutation | none ↦ none ]
]

pub record ShiftCandidate : Type 0 where
  pub removed_id : Text
  pub new_id : Text
  pub file : Text
  pub old_line : ℤ
  pub new_line : ℤ
  pub verdict_changed : Bool
  pub note : Text

pub record Diff : Type 0 where
  pub comparable : Bool
  pub compatibility_issues : List Text
  pub not_analyzed : List MutantDiff
  pub unverified_changes : List MutantDiff
  pub new_survivors : List MutantDiff
  pub fixed_survivors : List MutantDiff
  pub still_open : List MutantDiff
  pub reclassified : List MutantDiff
  pub removed_mutants : List MutantDiff
  pub unchanged_count : ℕ
  pub baseline_score : Float64
  pub current_score : Float64
  pub baseline_text : Text
  pub current_text : Text
  pub likely_shifted : List ShiftCandidate

-- `baseByID`, `curByID`: of two results with one ID the later one stays.
abbrev pub IdMap : Type 0
IdMap = Text → Option Result

abbrev pub put : IdMap → Result → IdMap
put m r j = if text_eq r.mutation.id j then some r else m j

unfoldable pub by_id_onto : IdMap → List Result → IdMap
by_id_onto m [] = m
by_id_onto m (r ∷ rs) = by_id_onto (put m r) rs

abbrev pub by_id : List Result → IdMap
by_id = by_id_onto (λ _. none)

-- What `consider` closes over: the set of IDs seen, and the diff under construction.
pub record Progress : Type 0 where
  pub seen : Text → Bool
  pub diff : Diff

-- The verdict of a result that may be absent: the zero value then, which no guard lets through.
abbrev pub verdict_of : Option Result → Verdict
verdict_of none = other []
verdict_of (some r) = r.verdict

abbrev pub is_present : Option Result → Bool
is_present none = false
is_present (some r) = true

-- The body of `consider` behind the test of `seen`.
unfoldable pub classify : Text → Option Result → Option Result → Diff → Diff
unfolding actionable is_confirmed_survivor
classify id b none d = record d {
  removed_mutants = d.removed_mutants ++ record { id = id; baseline = b; current = none } ∷ [];
}
classify id b (some c) d =
    let b_actionable = is_present b && actionable (verdict_of b) in
    let c_actionable = actionable c.verdict in
    let md : MutantDiff = record { id = id; baseline = b; current = some c } in
    if not b_actionable && c_actionable
    then record d { new_survivors = d.new_survivors ++ md ∷ [] }
    else if b_actionable && c_actionable && not (verdict_eq (verdict_of b) c.verdict)
    then (if is_confirmed_survivor c.verdict && not (is_confirmed_survivor (verdict_of b))
        then record d { new_survivors = d.new_survivors ++ md ∷ [] }
        else record d { still_open = d.still_open ++ md ∷ [] })
    else if b_actionable && not c_actionable
    then (if verdict_eq c.verdict killed
        then record d { fixed_survivors = d.fixed_survivors ++ md ∷ [] }
        else record d { reclassified = d.reclassified ++ md ∷ [] })
    else record d { unchanged_count = d.unchanged_count + 1 }

unfoldable pub consider : IdMap → IdMap → Progress → Text → Progress
consider base cur p id = if p.seen id then p else record {
  seen = λ j. if text_eq id j then true else p.seen j;
  diff = classify id (base id) (cur id) p.diff;
}

unfoldable pub consider_all : IdMap → IdMap → Progress → List Text → Progress
consider_all base cur p [] = p
consider_all base cur p (id ∷ ids) = consider_all base cur (consider base cur p id) ids

abbrev pub ids : List Result → List Text
ids = map λ r. r.mutation.id

abbrev pub start : Report → Report → Diff
start baseline current = record {
  comparable = false;
  compatibility_issues = [];
  not_analyzed = [];
  unverified_changes = [];
  new_survivors = [];
  fixed_survivors = [];
  still_open = [];
  reclassified = [];
  removed_mutants = [];
  unchanged_count = 0;
  baseline_score = baseline.summary.score;
  current_score = current.summary.score;
  baseline_text = baseline.summary.score_text;
  current_text = current.summary.score_text;
  likely_shifted = [];
}

-- The two loops over the results, before anything is sorted.
unfoldable pub collect : Report → Report → Diff
collect baseline current =
    (consider_all (by_id baseline.results) (by_id current.results)
      (record { seen = λ _. false; diff = start baseline current })
      (ids baseline.results ++ ids current.results)).diff

-- The comparison of `sortByLocation`. The code would panic on an entry with neither side, which no
-- bucket holds; the model puts such entries first.
abbrev mutation_less : Text → Text → Option Mutation → Option Mutation → Bool
mutation_less i j none none = text_lt i j
mutation_less i j none (some _) = true
mutation_less i j (some _) none = false
mutation_less i j (some a) (some b) =
    if not (text_eq a.span.file b.span.file)
    then text_lt a.span.file b.span.file
    else if not (int_eq a.span.start_line b.span.start_line)
    then int_lt a.span.start_line b.span.start_line
    else if not (int_eq a.span.start_col b.span.start_col)
    then int_lt a.span.start_col b.span.start_col
    else text_lt i j

unfoldable pub location_less : MutantDiff → MutantDiff → Bool
unfolding mutation
location_less x y = mutation_less x.id y.id (mutation x) (mutation y)

unfoldable pub sort_by_location : List MutantDiff → List MutantDiff
unfolding sort location_less
sort_by_location = sort location_less

unfoldable pub sorted : Diff → Diff
unfolding sort_by_location
sorted d = record d {
  new_survivors = sort_by_location d.new_survivors;
  fixed_survivors = sort_by_location d.fixed_survivors;
  still_open = sort_by_location d.still_open;
  reclassified = sort_by_location d.reclassified;
  removed_mutants = sort_by_location d.removed_mutants;
}
