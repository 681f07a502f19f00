-- ===== src/Compare/Correlate.antt =====
-- `findLikelyShifts` pairs an entry with another exactly where one fingerprint stands for one
-- removed mutant and for one new ID.
use mutation_judge.Base.{
  ℕ, ◌<◌, ◌≡◌, refl, sym, ap, ◌∙◌, Bool, false, List, [], ◌∷◌, ◌++◌, Option, none, some, Text,
  text_eq, text_eq_iff, text_lt, if◌then◌else◌, arith, inl, inr, Bool-cases, Option-cases, count_if,
  select, All, All-append, append-nil, append_assoc,
}
use mutation_judge.Base.Sort.{sort, count_if-sort}
use mutation_judge.Model.{Result, Report}
use mutation_judge.Compare.Buckets.{shifted-collect}
use mutation_judge.Compare.{MutantDiff, ShiftCandidate, sorted, collect}
use mutation_judge.Compare.Shift.{
  Groups, add_to, group_at, keys, removed_print, new_print, group, candidate, pair_up, match_groups,
  group_or_nil, shifts_of, compare,
}

-- Whether an entry is filed under a fingerprint.
abbrev pub is_print : Text → Option Text → Bool
is_print fp none = false
is_print fp (some k) = text_eq k fp

abbrev pub filed_under : (MutantDiff → Option Text) → Text → List MutantDiff → List MutantDiff
filed_under print fp = select (λ md. is_print fp (print md))

abbrev at : Text → Groups → List MutantDiff
at fp g = group_or_nil (group_at fp g)

at-add_to :
    (fp k : Text) (md : MutantDiff) (g : Groups)
    → at fp (add_to k md g) ≡ (if text_eq k fp then at fp g ++ md ∷ [] else at fp g)
unfolding add_to group_at
at-add_to fp k md [] = ground arith
at-add_to fp k md ((j, mds) ∷ g) =
    ground (arith, text_eq_iff j k, text_eq_iff k fp, text_eq_iff j fp, at-add_to fp k md g)

-- A group holds what the loop files under its fingerprint, in order.
at-group :
    (print : MutantDiff → Option Text) (fp : Text) (g : Groups) (mds : List MutantDiff)
    → at fp (group print g mds) ≡ at fp g ++ filed_under print fp mds
unfolding group
at-group print fp g [] = sym (append-nil _)
at-group print fp g (md ∷ mds) = elim (Option-cases (print md)) [
  | inl e ↦ rw (e, group) (at-group print fp g mds)
  | inr (k, e) ↦
      rw (e, group)
        (at-group print fp (add_to k md g) mds
          ∙ rw (at-add_to fp k md g) (elim (Bool-cases (text_eq k fp)) [
            | inl h ↦ rw h (append_assoc (at fp g) (md ∷ []) (filed_under print fp mds))
            | inr h ↦ rw h
          ]))
]

-- The candidate `s` correlates `r`, the one removed entry under a fingerprint, and `n`, the one
-- new ID under it, and says whether their verdicts differ.
pub record Correlates (removed new : List MutantDiff) (s : ShiftCandidate) : Type 0 where
  pub print : Text
  pub r : MutantDiff
  pub n : MutantDiff
  pub b : Result
  pub c : Result
  pub only_removed : filed_under removed_print print removed ≡ r ∷ []
  pub only_new : filed_under new_print print new ≡ n ∷ []
  pub r_baseline : r.baseline ≡ some b
  pub n_current : n.current ≡ some c
  pub says : s ≡ candidate r.id n.id b c

module _ (removed new : List MutantDiff) where
  abbrev old_groups : Groups
  old_groups = group removed_print [] removed

  abbrev new_groups : Groups
  new_groups = group new_print [] new

  pair_up-Correlates :
      (fp : Text) (r n : MutantDiff) (rb nc : Option Result)
      → r.baseline ≡ rb
      → n.current ≡ nc
      → at fp old_groups ≡ r ∷ []
      → at fp new_groups ≡ n ∷ []
      → All (Correlates removed new) (pair_up r n)
  unfolding group_at
  pair_up-Correlates fp r n none nc e f p q = rw e tt
  pair_up-Correlates fp r n (some b) none e f p q = rw (e, f) tt
  pair_up-Correlates fp r n (some b) (some c) e f p q =
      rw (e, f)
        (
          record {
            print = fp;
            r = r;
            n = n;
            b = b;
            c = c;
            only_removed = sym (at-group removed_print fp [] removed) ∙ p;
            only_new = sym (at-group new_print fp [] new) ∙ q;
            r_baseline = e;
            n_current = f;
            says = refl;
          },
          tt,
        )

  match_groups-Correlates :
      (fp : Text) (rs : List MutantDiff) (ns : Option (List MutantDiff))
      → at fp old_groups ≡ rs
      → group_at fp new_groups ≡ ns
      → All (Correlates removed new) (match_groups rs ns)
  match_groups-Correlates fp (r ∷ []) (some (n ∷ [])) p q =
      pair_up-Correlates fp r n r.baseline n.current refl refl p (ap group_or_nil q)
  match_groups-Correlates fp _ _ p q = tt

  shifts_of-Correlates :
      (fps : List Text) → All (Correlates removed new) (shifts_of old_groups new_groups fps)
  unfolding shifts_of
  shifts_of-Correlates [] = tt
  shifts_of-Correlates (fp ∷ fps) =
      All-append (Correlates removed new) _ _
        (match_groups-Correlates fp (at fp old_groups) (group_at fp new_groups) refl refl)
        (shifts_of-Correlates fps)

-- The candidate that `find_likely_shifts` makes for a pair stands in the list.
pub data Has (s : ShiftCandidate) : List ShiftCandidate → Type 0 where
  here : {ss : List ShiftCandidate} → Has s (s ∷ ss)
  there : {t : ShiftCandidate} {ss : List ShiftCandidate} → Has s ss → Has s (t ∷ ss)

Has-append_right :
    {s : ShiftCandidate} (ts : List ShiftCandidate) {us : List ShiftCandidate}
    → Has s us
    → Has s (ts ++ us)
Has-append_right [] h = h
Has-append_right (t ∷ ts) h = there (Has-append_right ts h)

abbrev times : Text → List Text → ℕ
times fp = count_if (λ k. text_eq k fp)

-- A fingerprint with a group is a key.
times-group_at :
    (fp : Text) (g : Groups) (mds : List MutantDiff)
    → group_at fp g ≡ some mds
    → 0 < times fp (keys g)
unfolding group_at keys
times-group_at fp [] mds h = cc
times-group_at fp ((j, ms) ∷ g) mds h = ground (arith, times-group_at fp g mds)

group_at-of-at :
    (fp : Text) (g : Groups) {md : MutantDiff} → at fp g ≡ md ∷ [] → group_at fp g ≡ some (md ∷ [])
group_at-of-at fp g h = ground arith

module _ (old new : Groups) (fp : Text) (r n : MutantDiff) (b c : Result)
    (only_old : at fp old ≡ r ∷ []) (only_new : at fp new ≡ n ∷ [])
    (r_baseline : r.baseline ≡ some b) (n_current : n.current ≡ some c) where
  match_groups-pair : match_groups (at fp old) (group_at fp new) ≡ candidate r.id n.id b c ∷ []
  match_groups-pair = rw (only_old, group_at-of-at fp new only_new) (ground arith)

  Has-shifts_of :
      (fps : List Text) → 0 < times fp fps → Has (candidate r.id n.id b c) (shifts_of old new fps)
  unfolding shifts_of
  Has-shifts_of [] h = absurd (omega arith)
  Has-shifts_of (k ∷ ks) h = elim (Bool-cases (text_eq k fp)) [
    | inl e ↦ let q : k ≡ fp = (text_eq_iff k fp).0 e in rw (q, match_groups-pair) here
    | inr e ↦
        Has-append_right (match_groups (at k old) (group_at k new))
          (Has-shifts_of ks (ground arith))
  ]

-- Every candidate of a comparison correlates the only removed entry and the only new ID that
-- share its fingerprint, and carries their IDs, lines and whether the verdict changed.
pub compare-Correlates :
    (b c : Report)
    → All
        (Correlates (compare b c).removed_mutants (compare b c).new_survivors)
        (compare b c).likely_shifted
unfolding compare
compare-Correlates b c =
    let d = sorted (collect b c) in
    rw (shifted-collect b c) (
      shifts_of-Correlates d.removed_mutants d.new_survivors
        (sort text_lt (keys (old_groups d.removed_mutants d.new_survivors))))

-- And every such pair has its candidate: where one removed entry and one new ID alone share a
-- fingerprint, the comparison correlates them.
pub compare-Has :
    (b c : Report) (fp : Text) (r n : MutantDiff) (rb nc : Result)
    → filed_under removed_print fp (compare b c).removed_mutants ≡ r ∷ []
    → filed_under new_print fp (compare b c).new_survivors ≡ n ∷ []
    → r.baseline ≡ some rb
    → n.current ≡ some nc
    → Has (candidate r.id n.id rb nc) (compare b c).likely_shifted
unfolding compare group_at
compare-Has b c fp r n rb nc p q e f =
    let d = sorted (collect b c) in
    let old = old_groups d.removed_mutants d.new_survivors in
    let new = new_groups d.removed_mutants d.new_survivors in
    let one = at-group removed_print fp [] d.removed_mutants ∙ p in
    rw (shifted-collect b c) (
      Has-shifts_of old new fp r n rb nc one (at-group new_print fp [] d.new_survivors ∙ q) e f
        (sort text_lt (keys old))
        (omega (
          arith,
          count_if-sort text_lt (λ k. text_eq k fp) (keys old),
          times-group_at fp old (r ∷ []) (group_at-of-at fp old one),
        )))
