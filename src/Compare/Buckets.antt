-- ===== src/Compare/Buckets.antt =====
-- What `Compare` promises of each mutant ID, by a table over the two verdicts, and the proof.
use mutation_judge.Base.{
  ℕ, ◌+◌, ◌≡◌, refl, ◌∙◌, Bool, true, false, not, ◌&&◌, ◌||◌, List, [], ◌∷◌, ◌++◌, Option, none,
  some, Text, text_eq, text_eq_iff, text_eq_refl, if◌then◌else◌, arith, inl, inr, Bool-cases,
  count_if, count_if-append,
}
use mutation_judge.Model.{Result, Report, Verdict, killed, survived, timeout, unknown, verdict_eq}
use mutation_judge.Compare.{
  MutantDiff, Diff, IdMap, Progress, classify, consider, consider_all, ids, by_id, start, collect,
  sorted,
}

pub data Bucket : Type 0 where
  removed new fixed still_open reclassified unchanged : Bucket

-- How much a verdict says: a proven gap, no conclusion, a kill, or nothing to act on.
pub data Standing : Type 0 where
  gap doubt caught settled : Standing

abbrev pub standing : Verdict → Standing
standing survived = gap
standing timeout = doubt
standing unknown = doubt
standing killed = caught
standing _ = settled

-- The bucket of an ID by its standing before and after; `same` tells equal verdicts.
abbrev pub moved : Bool → Standing → Standing → Bucket
moved same gap gap = unchanged
moved same gap doubt = still_open
moved same gap caught = fixed
moved same gap settled = reclassified
moved same doubt gap = new
moved same doubt doubt = if same then unchanged else still_open
moved same doubt caught = fixed
moved same doubt settled = reclassified
moved same _ gap = new
moved same _ doubt = new
moved same _ _ = unchanged

-- The verdicts of an ID in the two reports, `none` where it is absent.
abbrev pub bucket_of : Option Result → Option Result → Bucket
bucket_of b none = removed
bucket_of none (some c) = moved false settled (standing c.verdict)
bucket_of (some b) (some c) =
    moved (verdict_eq b.verdict c.verdict) (standing b.verdict) (standing c.verdict)

abbrev pub bucket_eq : Bucket → Bucket → Bool
bucket_eq removed removed = true
bucket_eq new new = true
bucket_eq fixed fixed = true
bucket_eq still_open still_open = true
bucket_eq reclassified reclassified = true
bucket_eq unchanged unchanged = true
bucket_eq _ _ = false

-- The list of a bucket; unchanged IDs are only counted.
abbrev pub entries : Bucket → Diff → List MutantDiff
entries removed d = d.removed_mutants
entries new d = d.new_survivors
entries fixed d = d.fixed_survivors
entries still_open d = d.still_open
entries reclassified d = d.reclassified
entries unchanged d = []

-- A diff with one more entry in a bucket.
abbrev pub place : Bucket → MutantDiff → Diff → Diff
place removed md d = record d { removed_mutants = d.removed_mutants ++ md ∷ [] }
place new md d = record d { new_survivors = d.new_survivors ++ md ∷ [] }
place fixed md d = record d { fixed_survivors = d.fixed_survivors ++ md ∷ [] }
place still_open md d = record d { still_open = d.still_open ++ md ∷ [] }
place reclassified md d = record d { reclassified = d.reclassified ++ md ∷ [] }
place unchanged md d = record d { unchanged_count = d.unchanged_count + 1 }

-- The switch finds the bucket of the table.
pub classify-place :
    (id : Text) (b c : Option Result) (d : Diff)
    → classify id b c d ≡ place (bucket_of b c) (record { id = id; baseline = b; current = c }) d
unfolding classify verdict_eq
classify-place id b none d = refl
classify-place id none (some c) d = ground arith
classify-place id (some b) (some c) d = ground arith

-- Adding an entry shows in its own bucket alone.
abbrev pub is_in : Bucket → Bucket → Bool
is_in k unchanged = false
is_in k j = bucket_eq k j

count-place :
    (p : MutantDiff → Bool) (k j : Bucket) (md : MutantDiff) (d : Diff)
    → count_if p (entries k (place j md d))
      ≡ count_if p (entries k d) + (if is_in k j && p md then 1 else 0)
count-place p removed removed md d = ground (arith, count_if-append p d.removed_mutants (md ∷ []))
count-place p new new md d = ground (arith, count_if-append p d.new_survivors (md ∷ []))
count-place p fixed fixed md d = ground (arith, count_if-append p d.fixed_survivors (md ∷ []))
count-place p still_open still_open md d = ground (arith, count_if-append p d.still_open (md ∷ []))
count-place p reclassified reclassified md d =
    ground (arith, count_if-append p d.reclassified (md ∷ []))
count-place p _ _ md d = ground arith

abbrev pub mem : Text → List Text → Bool
mem j [] = false
mem j (i ∷ is) = text_eq i j || mem j is

-- `consider` at an ID that came up before, and at a new one.
module _ (base cur : IdMap) (p : Progress) (i : Text) where
  abbrev pub entry : MutantDiff
  entry = record { id = i; baseline = base i; current = cur i }

  abbrev pub entered : Progress
  entered = record {
    seen = λ j. if text_eq i j then true else p.seen j;
    diff = place (bucket_of (base i) (cur i)) entry p.diff;
  }

  pub consider_seen : p.seen i ≡ true → consider base cur p i ≡ p
  unfolding consider
  consider_seen e = rw e

  pub consider_new : p.seen i ≡ false → consider base cur p i ≡ entered
  unfolding consider
  consider_new e = rw (e, classify-place i (base i) (cur i) p.diff)

module _ (base cur : IdMap) (j : Text) where
  abbrev pub has_id : MutantDiff → Bool
  has_id md = text_eq md.id j

  abbrev pub target : Bucket
  target = bucket_of (base j) (cur j)

  abbrev pub tally : Bucket → Progress → ℕ
  tally k p = count_if has_id (entries k p.diff)

  pub seen-consider :
      (p : Progress) (id : Text)
      → (consider base cur p id).seen j ≡ (if text_eq id j then true else p.seen j)
  unfolding consider
  seen-consider p id = ground (arith, text_eq_iff id j)

  tally-consider_self :
      (k : Bucket) (p : Progress)
      → tally k (consider base cur p j)
        ≡ tally k p + (if not (p.seen j) && is_in k target then 1 else 0)
  unfolding consider
  tally-consider_self k p = elim (Bool-cases (p.seen j)) [
    | inl e ↦ rw e (omega arith)
    | inr e ↦
        rw (e, classify-place j (base j) (cur j) p.diff)
          (ground (
            arith,
            text_eq_refl j,
            count-place has_id k target (record { id = j; baseline = base j; current = cur j })
                p.diff,
          ))
  ]

  tally-consider_other :
      (k : Bucket) (p : Progress) (id : Text)
      → text_eq id j ≡ false
      → tally k (consider base cur p id) ≡ tally k p
  unfolding consider
  tally-consider_other k p id h = elim (Bool-cases (p.seen id)) [
    | inl e ↦ rw e
    | inr e ↦
        rw (e, classify-place id (base id) (cur id) p.diff)
          (ground (
            arith,
            count-place has_id k (bucket_of (base id) (cur id))
                (record { id = id; baseline = base id; current = cur id }) p.diff,
          ))
  ]

  -- An ID is entered once, in the bucket of the table, when it first comes up.
  pub tally-consider_all :
      (k : Bucket) (p : Progress) (is : List Text)
      → tally k (consider_all base cur p is)
        ≡ tally k p + (if not (p.seen j) && (mem j is && is_in k target) then 1 else 0)
  unfolding consider_all
  tally-consider_all k p [] = ground arith
  tally-consider_all k p (i ∷ is) = elim (Bool-cases (text_eq i j)) [
    | inl e ↦
        let q : i ≡ j = (text_eq_iff i j).0 e in
        rw (q, text_eq_refl j)
          (ground (
            arith,
            tally-consider_self k p,
            tally-consider_all k (consider base cur p j) is,
            seen-consider p j,
            text_eq_refl j,
          ))
    | inr e ↦ rw e (
        ground (
          arith,
          tally-consider_other k p i e,
          tally-consider_all k (consider base cur p i) is,
          seen-consider p i,
        ))
  ]

-- No correlation is recorded while the IDs are classified.
shifted-place :
    (k : Bucket) (md : MutantDiff) (d : Diff) → (place k md d).likely_shifted ≡ d.likely_shifted
shifted-place removed md d = refl
shifted-place _ md d = refl

shifted-consider_all :
    (base cur : IdMap) (p : Progress) (is : List Text)
    → (consider_all base cur p is).diff.likely_shifted ≡ p.diff.likely_shifted
unfolding consider_all
shifted-consider_all base cur p [] = refl
shifted-consider_all base cur p (i ∷ is) = elim (Bool-cases (p.seen i)) [
  | inl e ↦ rw (consider_seen base cur p i e, consider_all) (shifted-consider_all base cur p is)
  | inr e ↦
      rw (consider_new base cur p i e, consider_all)
        (shifted-consider_all base cur (entered base cur p i) is
          ∙ shifted-place (bucket_of (base i) (cur i)) (entry base cur p i) p.diff)
]

pub shifted-collect : (b c : Report) → (sorted (collect b c)).likely_shifted ≡ []
unfolding sorted collect
shifted-collect b c =
    shifted-consider_all (by_id b.results) (by_id c.results)
      (record { seen = λ _. false; diff = start b c }) (ids b.results ++ ids c.results)
