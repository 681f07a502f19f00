-- ===== src/Coverage/Resolve.antt =====
-- Which file a short path stands for, in the index of internal/coverage/coverage.go.
use mutation_judge.Base.{
  ◌≡◌, refl, sym, subst, ap, ◌∙◌, Bool, true, false, ◌||◌, List, [], ◌∷◌, Option, none, some, Text,
  text_eq, text_eq_iff, text_eq_refl, if◌then◌else◌, select, Bool-cases, Option-cases, inl, inr,
  All,
}
use mutation_judge.Coverage.{
  LineSet, Files, Index, no_index, own, contest, suffixes, claim, claim_all, build_from,
}

-- A suffix, as the abstract index sees it.
pub data Status : Type 0 where
  free contested : Status
  owned : Text → LineSet → Status

abbrev claimed : Text → LineSet → Status → Status
claimed f l free = owned f l
claimed f l contested = contested
claimed f l (owned g k) = if text_eq g f then owned f l else contested

abbrev owner_of : Status → Option Text
owner_of (owned f l) = some f
owner_of _ = none

abbrev lines_at : Status → Option LineSet
lines_at (owned f l) = some l
lines_at _ = none

abbrev is_contested : Status → Bool
is_contested contested = true
is_contested _ = false

record Shows (x : Index) (s : Text) (t : Status) : Type 0 where
  owner : x.owner s ≡ owner_of t
  lines : x.by_suffix s ≡ lines_at t
  ambiguous : x.ambiguous s ≡ is_contested t

unfoldable pub is_in : Text → List Text → Bool
is_in s [] = false
is_in s (t ∷ ts) = text_eq t s || is_in s ts

own-same :
    (f : Text) (l : LineSet) (x : Index) (s : Text)
    → x.ambiguous s ≡ false
    → Shows (own f l x s) s (owned f l)
own-same f l x s a = record {
  owner = rw (text_eq_refl s) refl;
  lines = rw (text_eq_refl s) refl;
  ambiguous = a;
}

contest-same : (x : Index) (s : Text) → Shows (contest x s) s contested
contest-same x s = record {
  owner = rw (text_eq_refl s) refl;
  lines = rw (text_eq_refl s) refl;
  ambiguous = rw (text_eq_refl s) refl;
}

own-other :
    (f : Text) (l : LineSet) (x : Index) (r s : Text) (t : Status)
    → text_eq r s ≡ false
    → Shows x s t
    → Shows (own f l x r) s t
own-other f l x r s t e h = record {
  owner = rw e h.owner;
  lines = rw e h.lines;
  ambiguous = h.ambiguous;
}

contest-other :
    (x : Index) (r s : Text) (t : Status)
    → text_eq r s ≡ false
    → Shows x s t
    → Shows (contest x r) s t
contest-other x r s t e h = record {
  owner = rw e h.owner;
  lines = rw e h.lines;
  ambiguous = rw e h.ambiguous;
}

claim-same :
    (f : Text) (l : LineSet) (x : Index) (s : Text) (t : Status)
    → Shows x s t
    → Shows (claim f l x s) s (claimed f l t)
unfolding claim
claim-same f l x s free h = rw (h.ambiguous, h.owner, claim) (own-same f l x s h.ambiguous)
claim-same f l x s contested h = rw (h.ambiguous, claim) h
claim-same f l x s (owned g k) h = elim (Bool-cases (text_eq g f)) [
  | inl e ↦ rw (h.ambiguous, h.owner, e, claim) (own-same f l x s h.ambiguous)
  | inr e ↦ rw (h.ambiguous, h.owner, e, claim) (contest-same x s)
]

claim-other :
    (f : Text) (l : LineSet) (x : Index) (r s : Text) (t : Status)
    → text_eq r s ≡ false
    → Shows x s t
    → Shows (claim f l x r) s t
unfolding claim
claim-other f l x r s t e h = elim (Bool-cases (x.ambiguous r)) [
  | inl a ↦ rw (a, claim) h
  | inr a ↦ elim (Option-cases (x.owner r)) [
    | inl o ↦ rw (a, o, claim) (own-other f l x r s t e h)
    | inr (o, same_owner) ↦ elim (Bool-cases (text_eq o f)) [
      | inl k ↦ rw (a, same_owner, k, claim) (own-other f l x r s t e h)
      | inr k ↦ rw (a, same_owner, k, claim) (contest-other x r s t e h)
    ]
  ]
]

claimed-twice : (f : Text) (l : LineSet) (t : Status) → claimed f l (claimed f l t) ≡ claimed f l t
claimed-twice f l free = rw (text_eq_refl f) refl
claimed-twice f l contested = refl
claimed-twice f l (owned g k) = elim (Bool-cases (text_eq g f)) [
  | inl e ↦ rw (e, text_eq_refl f) refl
  | inr e ↦ rw e refl
]

-- A file claims a suffix that is one of its own, once or more often, and leaves any other.
claim_all-Shows :
    (f : Text) (l : LineSet) (ss : List Text) (x : Index) (s : Text) (t : Status)
    → Shows x s t
    → Shows (claim_all f l ss x) s (if is_in s ss then claimed f l t else t)
unfolding claim_all is_in
claim_all-Shows f l [] x s t h = h
claim_all-Shows f l (r ∷ ss) x s t h = elim (Bool-cases (text_eq r s)) [
  | inl e ↦
      let first : Shows (claim f l x r) s (claimed f l t) =
        subst (λ u. Shows (claim f l x u) s (claimed f l t)) (sym ((text_eq_iff r s).0 e))
          (claim-same f l x s t h) in
      let rest = claim_all-Shows f l ss (claim f l x r) s (claimed f l t) first in
      elim (Bool-cases (is_in s ss)) [
        | inl m ↦ rw e (
            subst (Shows (claim_all f l ss (claim f l x r)) s) (claimed-twice f l t) (rw m at rest))
        | inr m ↦ rw e (rw m at rest)
      ]
  | inr e ↦ rw e (claim_all-Shows f l ss (claim f l x r) s t (claim-other f l x r s t e h))
]

-- The abstract index: a suffix belongs to the file that has it, if exactly one has.
abbrev pub has_suffix_path : Text → Text × LineSet → Bool
has_suffix_path s (f, l) = is_in s (suffixes f)

abbrev pub sole : Files → Option LineSet
sole ((f, l) ∷ []) = some l
sole _ = none

abbrev pub resolve : Files → Text → Option LineSet
resolve fs s = sole (select (has_suffix_path s) fs)

abbrev status_of : Files → Status
status_of [] = free
status_of ((f, l) ∷ []) = owned f l
status_of (_ ∷ _ ∷ _) = contested

-- No key stands twice.
abbrev pub Apart : Text → Files → Type 0
Apart f = All (λ (g, k). text_eq f g ≡ false)

abbrev pub Distinct : Files → Type 0
Distinct [] = Unit
Distinct ((f, l) ∷ fs) = Apart f fs × Distinct fs

-- The status of a suffix behind some more files.
abbrev behind : Text → Status → Files → Status
behind s t [] = t
behind s t ((f, l) ∷ fs) = behind s (if is_in s (suffixes f) then claimed f l t else t) fs

build_from-Shows :
    (x : Index) (fs : Files) (s : Text) (t : Status)
    → Shows x s t
    → Shows (build_from x fs) s (behind s t fs)
unfolding build_from
build_from-Shows x [] s t h = h
build_from-Shows x ((f, l) ∷ fs) s t h =
    build_from-Shows (claim_all f l (suffixes f) x) fs s
      (if is_in s (suffixes f) then claimed f l t else t) (claim_all-Shows f l (suffixes f) x s t h)

behind-contested : (s : Text) (fs : Files) → behind s contested fs ≡ contested
behind-contested s [] = refl
behind-contested s ((f, l) ∷ fs) = elim (Bool-cases (is_in s (suffixes f))) [
  | inl e ↦ rw e (behind-contested s fs)
  | inr e ↦ rw e (behind-contested s fs)
]

behind-owned :
    (s g : Text) (k : LineSet) (fs : Files)
    → Apart g fs
    → behind s (owned g k) fs ≡ status_of ((g, k) ∷ select (has_suffix_path s) fs)
behind-owned s g k [] h = refl
behind-owned s g k ((f, l) ∷ fs) h = elim (Bool-cases (is_in s (suffixes f))) [
  | inl e ↦ rw (e, h.0) (behind-contested s fs)
  | inr e ↦ rw e (behind-owned s g k fs h.1)
]

behind-free :
    (s : Text) (fs : Files)
    → Distinct fs
    → behind s free fs ≡ status_of (select (has_suffix_path s) fs)
behind-free s [] h = refl
behind-free s ((f, l) ∷ fs) h = elim (Bool-cases (is_in s (suffixes f))) [
  | inl e ↦ rw e (behind-owned s f l fs h.0)
  | inr e ↦ rw e (behind-free s fs h.1)
]

lines_at-status_of : (fs : Files) → lines_at (status_of fs) ≡ sole fs
lines_at-status_of [] = refl
lines_at-status_of ((f, l) ∷ []) = refl
lines_at-status_of ((f, l) ∷ e ∷ fs) = refl

-- The index that `buildSuffixIndex` makes of files with different keys resolves a path to the lines of the
-- one file of which the path is a suffix, and to nothing where no file or more than one has it.
pub build_from-resolve :
    (fs : Files) (s : Text) → Distinct fs → (build_from no_index fs).by_suffix s ≡ resolve fs s
build_from-resolve fs s h =
    (build_from-Shows no_index fs s free
      (record { owner = refl; lines = refl; ambiguous = refl })).lines
    ∙ (ap lines_at (behind-free s fs h) ∙ lines_at-status_of (select (has_suffix_path s) fs))
