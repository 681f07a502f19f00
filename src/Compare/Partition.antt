-- ===== src/Compare/Partition.antt =====
-- `Compare` as a whole: what each mutant ID, each list and each entry of the result is.
use mutation_judge.Base.{
  ℕ, ◌+◌, ◌≡◌, refl, ◌∙◌, Bool, true, false, ◌&&◌, List, [], ◌∷◌, ◌++◌, Text, text_eq,
  if◌then◌else◌, arith, inl, inr, Bool-cases, count_if, length, length-append, All, All-append,
}
use mutation_judge.Base.Sort.{count_if-sort, All-sort, IsSorted, length-sort}
use mutation_judge.Model.{Report}
use mutation_judge.Compare.{
  MutantDiff, Diff, IdMap, Progress, consider_all, ids, by_id, start, collect, sorted,
  sort_by_location, location_less,
}
use mutation_judge.Compare.Buckets.{
  Bucket, removed, new, fixed, still_open, reclassified, unchanged, bucket_of, entries, place,
  is_in, mem, consider_seen, consider_new, entered, entry, tally-consider_all,
}
use mutation_judge.Compare.Order.{sort_by_location-IsSorted}
use mutation_judge.Compare.Shift.{compare}

-- The correlation of shifts leaves the buckets alone, and sorting keeps what they hold.
entries-compare :
    (k : Bucket) (b c : Report)
    → entries k (compare b c) ≡ sort_by_location (entries k (collect b c))
unfolding compare sorted
entries-compare removed b c = refl
entries-compare new b c = refl
entries-compare fixed b c = refl
entries-compare still_open b c = refl
entries-compare reclassified b c = refl
entries-compare unchanged b c = refl

entries-start : (k : Bucket) (b c : Report) → entries k (start b c) ≡ []
entries-start removed b c = refl
entries-start new b c = refl
entries-start fixed b c = refl
entries-start still_open b c = refl
entries-start reclassified b c = refl
entries-start unchanged b c = refl

abbrev pub all_ids : Report → Report → List Text
all_ids b c = ids b.results ++ ids c.results

-- An ID of either report has one entry, in the bucket that the table of `Buckets` gives for its
-- two verdicts, if that bucket has a list; no other bucket and no other ID has an entry for it.
pub compare-bucket :
    (b c : Report) (k : Bucket) (j : Text)
    → count_if (λ md. text_eq md.id j) (entries k (compare b c)) ≡ (
        if mem j (all_ids b c) && is_in k (bucket_of (by_id b.results j) (by_id c.results j))
        then 1
        else 0)
unfolding sort_by_location collect
compare-bucket b c k j =
    rw (entries-compare k b c, count_if-sort location_less)
      (tally-consider_all (by_id b.results) (by_id c.results) j k
          (record { seen = λ _. false; diff = start b c }) (all_ids b c)
        ∙ rw (entries-start k b c) (omega arith))

-- The number of IDs that the six buckets account for.
abbrev pub size : Diff → ℕ
size d =
    length d.new_survivors
    + length d.fixed_survivors
    + length d.still_open
    + length d.reclassified
    + length d.removed_mutants
    + d.unchanged_count

-- The first occurrence of each text, in order; `old` holds the texts that came before.
abbrev pub distinct_after : (Text → Bool) → List Text → List Text
distinct_after old [] = []
distinct_after old (i ∷ is) =
    if old i
    then distinct_after old is
    else i ∷ distinct_after (λ j. if text_eq i j then true else old j) is

abbrev pub distinct : List Text → List Text
distinct = distinct_after (λ _. false)

size-place : (k : Bucket) (md : MutantDiff) (d : Diff) → size (place k md d) ≡ size d + 1
size-place removed md d = omega (arith, length-append d.removed_mutants (md ∷ []))
size-place new md d = omega (arith, length-append d.new_survivors (md ∷ []))
size-place fixed md d = omega (arith, length-append d.fixed_survivors (md ∷ []))
size-place still_open md d = omega (arith, length-append d.still_open (md ∷ []))
size-place reclassified md d = omega (arith, length-append d.reclassified (md ∷ []))
size-place unchanged md d = omega arith

module _ (base cur : IdMap) where
  size-consider_all :
      (p : Progress) (is : List Text)
      → size (consider_all base cur p is).diff ≡ size p.diff + length (distinct_after p.seen is)
  unfolding consider_all
  size-consider_all p [] = omega arith
  size-consider_all p (i ∷ is) = elim (Bool-cases (p.seen i)) [
    | inl e ↦ rw (consider_seen base cur p i e, consider_all, e) (size-consider_all p is)
    | inr e ↦
        rw (consider_new base cur p i e, consider_all, e)
          (omega (
            arith,
            size-consider_all (entered base cur p i) is,
            size-place (bucket_of (base i) (cur i)) (entry base cur p i) p.diff,
          ))
  ]

  -- Every entry of a bucket carries the results that its ID has in the two reports.
  abbrev pub Carries : MutantDiff → Type 0
  Carries md = (md.baseline ≡ base md.id) × (md.current ≡ cur md.id)

  Carries-place :
      (k j : Bucket) (i : Text) (d : Diff)
      → All Carries (entries k d)
      → All Carries (entries k (place j (record { id = i; baseline = base i; current = cur i }) d))
  Carries-place removed removed i d a = All-append Carries d.removed_mutants _ a ((refl, refl), tt)
  Carries-place new new i d a = All-append Carries d.new_survivors _ a ((refl, refl), tt)
  Carries-place fixed fixed i d a = All-append Carries d.fixed_survivors _ a ((refl, refl), tt)
  Carries-place still_open still_open i d a = All-append Carries d.still_open _ a ((refl, refl), tt)
  Carries-place reclassified reclassified i d a =
      All-append Carries d.reclassified _ a ((refl, refl), tt)
  Carries-place _ _ i d a = a

  Carries-consider_all :
      (k : Bucket) (p : Progress) (is : List Text)
      → All Carries (entries k p.diff)
      → All Carries (entries k (consider_all base cur p is).diff)
  unfolding consider_all
  Carries-consider_all k p [] a = a
  Carries-consider_all k p (i ∷ is) a = elim (Bool-cases (p.seen i)) [
    | inl e ↦ rw (consider_seen base cur p i e, consider_all) (Carries-consider_all k p is a)
    | inr e ↦
        rw (consider_new base cur p i e, consider_all)
          (Carries-consider_all k (entered base cur p i) is
            (Carries-place k (bucket_of (base i) (cur i)) i p.diff a))
  ]

-- The six buckets account for every distinct ID of the two reports, once.
pub compare-size : (b c : Report) → size (compare b c) ≡ length (distinct (all_ids b c))
unfolding compare sorted sort_by_location collect
compare-size b c = omega (
  arith,
  size-consider_all (by_id b.results) (by_id c.results)
      (record { seen = λ _. false; diff = start b c }) (all_ids b c),
  length-sort location_less (collect b c).new_survivors,
  length-sort location_less (collect b c).fixed_survivors,
  length-sort location_less (collect b c).still_open,
  length-sort location_less (collect b c).reclassified,
  length-sort location_less (collect b c).removed_mutants,
)

-- Each list of the result is sorted by file, line, column and ID, and every entry carries the two
-- results that its ID has in the two reports.
pub compare-entries :
    (b c : Report) (k : Bucket)
    → IsSorted location_less (entries k (compare b c))
      × All (Carries (by_id b.results) (by_id c.results)) (entries k (compare b c))
unfolding sort_by_location collect
compare-entries b c k = rw (entries-compare k b c) (
  sort_by_location-IsSorted (entries k (collect b c)),
  All-sort location_less (Carries (by_id b.results) (by_id c.results)) (entries k (collect b c)) (
      Carries-consider_all (by_id b.results) (by_id c.results) k
        (record { seen = λ _. false; diff = start b c }) (all_ids b c)
        (rw (entries-start k b c) tt)),
)
