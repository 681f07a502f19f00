-- ===== src/Analysis/Score.antt =====
-- The scores of internal/analysis: scoreCounter of stream.go and summarize of analysis.go.
pub mod Agree
pub mod Accepted
mod Tests
use mutation_judge.Base.{
  ℕ, ◌+◌, Bool, true, false, List, [], ◌∷◌, Text, codes, length, if◌then◌else◌,
}
use mutation_judge.Base.Int.{ℤ, pos, int_eq, int_inc, int_add}
use mutation_judge.Model.{
  Verdict, killed, survived, invalid, timeout, unknown, unsupported, equivalent, other, Result,
  Summary,
}
use mutation_judge.Model.Validate.{Floats, no_score}

-- A summary with these counts and no score yet.
abbrev pub tallies : ℕ → ℕ → ℕ → ℕ → ℕ → ℕ → ℕ → ℕ → Summary
tallies generated k s i t u n e = record {
  generated = pos generated;
  killed = pos k;
  survived = pos s;
  invalid = pos i;
  timeout = pos t;
  unknown = pos u;
  unsupported = pos n;
  equivalent = pos e;
  score = 0;
  score_text = [];
}

-- The zero value.
abbrev pub no_results : Summary
no_results = tallies 0 0 0 0 0 0 0 0

-- The `switch` of `scoreCounter.Add`.
unfoldable pub add_verdict : Verdict → Summary → Summary
unfolding int_inc
add_verdict killed s = record s { killed = int_inc s.killed }
add_verdict survived s = record s { survived = int_inc s.survived }
add_verdict invalid s = record s { invalid = int_inc s.invalid }
add_verdict timeout s = record s { timeout = int_inc s.timeout }
add_verdict unsupported s = record s { unsupported = int_inc s.unsupported }
add_verdict equivalent s = record s { equivalent = int_inc s.equivalent }
add_verdict _ s = record s { unknown = int_inc s.unknown }

-- `scoreCounter.Add`
unfoldable pub add : Result → Summary → Summary
unfolding add_verdict int_inc
add r s = add_verdict r.verdict (record s { generated = int_inc s.generated })

unfoldable pub add_all : List Result → Summary → Summary
unfolding add
add_all [] s = s
add_all (r ∷ rs) s = add_all rs (add r s)

-- `scoreCounter.Finish`
unfoldable pub finish : Floats → Summary → Summary
unfolding int_add int_eq
finish f s =
    let den = int_add s.killed s.survived in
    if int_eq den (pos 0) then record s { score_text = no_score } else record s {
      score = f.percent s.killed den;
      score_text = f.score_text (f.percent s.killed den);
    }

-- The `switch` of `summarize`.
unfoldable pub tally : Verdict → Summary → Summary
unfolding int_inc
tally killed s = record s { killed = int_inc s.killed }
tally survived s = record s { survived = int_inc s.survived }
tally invalid s = record s { invalid = int_inc s.invalid }
tally timeout s = record s { timeout = int_inc s.timeout }
tally unsupported s = record s { unsupported = int_inc s.unsupported }
tally equivalent s = record s { equivalent = int_inc s.equivalent }
tally _ s = record s { unknown = int_inc s.unknown }

unfoldable pub tally_all : List Result → Summary → Summary
unfolding tally
tally_all [] s = s
tally_all (r ∷ rs) s = tally_all rs (tally r.verdict s)

unfoldable pub summarize : Floats → List Result → Summary
unfolding tally_all int_add int_eq
summarize f results =
    let s = tally_all results (record no_results { generated = pos (length results) }) in
    let den = int_add s.killed s.survived in
    if int_eq den (pos 0) then record s { score = 0; score_text = no_score } else record s {
      score = f.percent s.killed den;
      score_text = f.score_text (f.percent s.killed den);
    }
