-- ===== src/Compare/Shift.antt =====
-- internal/compare/shift.go: the correlation of removed mutants with new IDs.
use mutation_judge.Base.{
  Bool, true, false, not, List, [], ◌∷◌, ◌++◌, Option, none, some, Text, codes, text_eq, text_lt,
  after_prefix, has_prefix, split, join, itoa, if◌then◌else◌,
}
use mutation_judge.Base.Sort.{sort}
use mutation_judge.Model.{
  Mutation, Result, Report, Verdict, killed, survived, invalid, timeout, unknown, unsupported,
  equivalent, other, verdict_eq,
}
use mutation_judge.Compare.{MutantDiff, ShiftCandidate, Diff, sorted, collect}

-- The loop of `diffOldText` over the lines, from the lines found and the flag `inHunk`.
unfoldable pub old_text_from : List Text → Bool → List Text → Text
unfolding after_prefix join
old_text_from old in_hunk [] = join b'\n' old
old_text_from old in_hunk (l ∷ ls) =
    let opened = old_text_from old true ls in
    let skipped = old_text_from old in_hunk ls in
    let taken = λ (rest : Text). old_text_from (old ++ rest ∷ []) in_hunk ls in
    if has_prefix (codes "@@ ") l
    then opened
    else if not in_hunk
    then skipped
    else if has_prefix (codes "+") l
    then join b'\n' old
    else elim (after_prefix (codes "-") l) [ none ↦ skipped | some rest ↦ taken rest ]

unfoldable pub diff_old_text : Text → Text
unfolding old_text_from split
diff_old_text diff = old_text_from [] false (split b'\n' diff)

unfoldable pub shift_fingerprint : Mutation → Text
unfolding diff_old_text join itoa
shift_fingerprint m = join 0 (
    m.span.file
    ∷ m.operator
    ∷ m.rule_id
    ∷ m.original
    ∷ m.replacement
    ∷ itoa m.span.start_col
    ∷ itoa m.span.end_col
    ∷ diff_old_text m.diff
    ∷ [])

-- `removedByFP` and `newByFP`: the entries under each fingerprint, where the code holds the
-- indices of these entries. The keys are distinct.
abbrev pub Groups : Type 0
Groups = List (Text × List MutantDiff)

unfoldable pub add_to : Text → MutantDiff → Groups → Groups
add_to fp md [] = (fp, md ∷ []) ∷ []
add_to fp md ((k, mds) ∷ g) =
    if text_eq k fp then (k, mds ++ md ∷ []) ∷ g else (k, mds) ∷ add_to fp md g

unfoldable pub group_at : Text → Groups → Option (List MutantDiff)
group_at fp [] = none
group_at fp ((k, mds) ∷ g) = if text_eq k fp then some mds else group_at fp g

unfoldable pub keys : Groups → List Text
keys [] = []
keys ((k, mds) ∷ g) = k ∷ keys g

-- The fingerprint under which each loop files an entry, if it does not skip it.
unfoldable pub removed_print : MutantDiff → Option Text
removed_print md = elim md.baseline [ none ↦ none | some b ↦ some (shift_fingerprint b.mutation) ]

unfoldable pub new_print : MutantDiff → Option Text
new_print md = elim md.current [
  | none ↦ none
  | some c ↦ elim md.baseline [ none ↦ some (shift_fingerprint c.mutation) | some _ ↦ none ]
]

abbrev pub filed : Option Text → MutantDiff → Groups → Groups
filed none md g = g
filed (some fp) md g = add_to fp md g

unfoldable pub group : (MutantDiff → Option Text) → Groups → List MutantDiff → Groups
unfolding add_to
group print g [] = g
group print g (md ∷ mds) = group print (filed (print md) md g) mds

-- The text of a verdict, as the note quotes it.
unfoldable pub verdict_text : Verdict → Text
verdict_text killed = codes "KILLED"
verdict_text survived = codes "SURVIVED"
verdict_text invalid = codes "INVALID"
verdict_text timeout = codes "TIMEOUT"
verdict_text unknown = codes "UNKNOWN"
verdict_text unsupported = codes "UNSUPPORTED"
verdict_text equivalent = codes "EQUIVALENT"
verdict_text (other t) = t

unfoldable pub candidate : Text → Text → Result → Result → ShiftCandidate
unfolding verdict_text
candidate removed_id new_id r n =
    let changed = not (verdict_eq r.verdict n.verdict) in
    record {
      removed_id = removed_id;
      new_id = new_id;
      file = r.mutation.span.file;
      old_line = r.mutation.span.start_line;
      new_line = n.mutation.span.start_line;
      verdict_changed = changed;
      note =
          if changed
          then codes
              "likely the same mutation, relocated by an earlier unrelated edit in this file, "
            ++ (codes "but its verdict also genuinely changed (was "
                ++ (verdict_text r.verdict
                    ++ codes ") -- a real regression, not just noise from the shift"))
          else codes "likely the same mutation, relocated by an earlier unrelated edit in this file"
            ++ codes " -- not a real change";
    }

-- An entry filed under `removed_print` has a baseline and no current side, and one filed under
-- `new_print` has a current side: the two dereferences cannot fail.
abbrev pub pair_up : MutantDiff → MutantDiff → List ShiftCandidate
pair_up r n = elim r.baseline [
  | none ↦ []
  | some b ↦ elim n.current [ none ↦ [] | some c ↦ candidate r.id n.id b c ∷ [] ]
]

-- The body of the loop over the fingerprints: one entry on each side, or nothing.
abbrev pub match_groups : List MutantDiff → Option (List MutantDiff) → List ShiftCandidate
match_groups (r ∷ []) (some (n ∷ [])) = pair_up r n
match_groups _ _ = []

abbrev pub group_or_nil : Option (List MutantDiff) → List MutantDiff
group_or_nil none = []
group_or_nil (some mds) = mds

unfoldable pub shifts_of : Groups → Groups → List Text → List ShiftCandidate
unfolding group_at candidate
shifts_of removed new [] = []
shifts_of removed new (fp ∷ fps) =
    match_groups (group_or_nil (group_at fp removed)) (group_at fp new) ++ shifts_of removed new fps

unfoldable pub find_likely_shifts : Diff → Diff
unfolding group removed_print new_print shifts_of keys sort text_lt
find_likely_shifts d =
    let removed = group removed_print [] d.removed_mutants in
    let new = group new_print [] d.new_survivors in
    record d {
      likely_shifted = d.likely_shifted ++ shifts_of removed new (sort text_lt (keys removed));
    }

unfoldable pub compare : Report → Report → Diff
unfolding find_likely_shifts
compare baseline current = find_likely_shifts (sorted (collect baseline current))
