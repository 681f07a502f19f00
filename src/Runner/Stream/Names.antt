-- ===== src/Runner/Stream/Names.antt =====
-- internal/runner/stream.go: the names of the tests that classify gives, from the keys of the maps.
use mutation_judge.Base.{
  ◌≡◌, ◌↔◌, refl, sym, ap, ◌∙◌, Bool, true, false, not, ◌&&◌, ◌||◌, List, [], ◌∷◌, ◌++◌, map, Text,
  text_eq, text_eq_iff, text_lt, arith, if◌then◌else◌, inl, inr, Bool-cases,
}
use mutation_judge.Base.Sort.{sort}
use mutation_judge.Base.Sets.{member-sort}
use mutation_judge.Model.{Verdict, killed, invalid, unknown}
use mutation_judge.Runner.{is_empty, member, insert, insert_all, some_not_in}
use mutation_judge.Runner.Failed.{member-insert_all}
use mutation_judge.Runner.Twin.{verdict_of}
use mutation_judge.Runner.Stream.{Stream, classify, name_of}

is_empty-insert : (k : Text) (s : List Text) → is_empty (insert k s) ≡ false
unfolding insert member
is_empty-insert k [] = refl
is_empty-insert k (x ∷ s) = ground arith

is_empty-insert_all : (ks s : List Text) → is_empty (insert_all ks s) ≡ (is_empty ks && is_empty s)
unfolding insert_all
is_empty-insert_all [] s = refl
is_empty-insert_all (k ∷ ks) s =
    is_empty-insert_all ks (insert k s)
    ∙ (ap (λ b. is_empty ks && b) (is_empty-insert k s) ∙ ground arith)

is_empty-map : (f : Text → Text) (s : List Text) → is_empty (map f s) ≡ is_empty s
is_empty-map f [] = refl
is_empty-map f (x ∷ s) = refl

member-map :
    (f : Text → Text) (k : Text) (s : List Text) → member k s ≡ true → member (f k) (map f s) ≡ true
unfolding member
member-map f k [] h = absurd (ground (arith, h))
member-map f k (x ∷ s) h = elim (Bool-cases (text_eq x k)) [
  | inl e ↦ let same = (text_eq_iff (f x) (f k)).1 (ap f ((text_eq_iff x k).0 e)) in rw same refl
  | inr e ↦ let rest = member-map f k s (ground (arith, h, e)) in ground (arith, rest)
]

member-map-append :
    (f : Text → Text) (t : Text) (s : List Text) (k : Text)
    → member t (map f (s ++ k ∷ [])) ≡ (member t (map f s) || text_eq (f k) t)
unfolding member
member-map-append f t [] k = ground arith
member-map-append f t (x ∷ s) k = ground (arith, member-map-append f t s k)

member-map-insert :
    (f : Text → Text) (t k : Text) (s : List Text)
    → member t (map f (insert k s)) ≡ (member t (map f s) || text_eq (f k) t)
unfolding insert
member-map-insert f t k s = elim (Bool-cases (member k s)) [
  | inl m ↦
      rw (m, insert)
        (elim (Bool-cases (text_eq (f k) t)) [
          | inl e ↦
              let there =
                ap (λ y. member y (map f s)) (sym ((text_eq_iff (f k) t).0 e))
                ∙ member-map f k s m in
              ground (arith, there, e)
          | inr e ↦ ground (arith, e)
        ])
  | inr m ↦ rw (m, insert) (member-map-append f t s k)
]

member-map-insert_all :
    (f : Text → Text) (t : Text) (ks s : List Text)
    → member t (map f (insert_all ks s)) ≡ (member t (map f s) || member t (map f ks))
unfolding insert_all member
member-map-insert_all f t [] s = ground arith
member-map-insert_all f t (k ∷ ks) s =
    let rest = member-map-insert_all f t ks (insert k s) in
    let first = member-map-insert f t k s in ground (arith, rest, first)

-- The names of the tests that failed, and of those that still run.
abbrev pub names : Stream → List Text
names s = insert_all (map name_of s.started) (insert_all (map name_of s.failed) [])

pub names-empty : (s : Stream) → is_empty (names s) ≡ is_empty (insert_all s.started s.failed)
names-empty s =
    let one = is_empty-insert_all (map name_of s.started) (insert_all (map name_of s.failed) []) in
    let two = is_empty-insert_all (map name_of s.failed) [] in
    let keys = is_empty-insert_all s.started s.failed in
    let three = is_empty-map name_of s.started in
    let four = is_empty-map name_of s.failed in ground (arith, one, two, three, four, keys)

pub member-names :
    (t : Text) (s : Stream)
    → member t (names s) ≡ member t (map name_of (insert_all s.started s.failed))
unfolding member
member-names t s =
    let one = member-insert_all t (map name_of s.started) (insert_all (map name_of s.failed) []) in
    let two = member-insert_all t (map name_of s.failed) [] in
    let all = member-map-insert_all name_of t s.started s.failed in ground (arith, one, two, all)

-- The verdict and the tests, from the names, the flag `incomplete`, and whether a package is broken.
abbrev pub choice : List Text → Bool → Bool → Verdict × List Text
choice ns b c =
    if not (is_empty ns)
    then (killed, sort text_lt ns)
    else if b
    then (unknown, [])
    else if c
    then (invalid, [])
    else (killed, [])

choice-tests : (t : Text) (ns : List Text) (b c : Bool) → member t (choice ns b c).1 ≡ member t ns
choice-tests t [] true c = refl
choice-tests t [] false true = refl
choice-tests t [] false false = refl
choice-tests t (n ∷ ns) b c = member-sort t (n ∷ ns)

pub choice-verdict :
    (is_summary : Text → Bool) (ns ts : List Text) (b c d : Bool)
    → is_empty ns ≡ is_empty ts
    → b ≡ false
    → c ≡ d
    → (choice ns b c).0 ≡ (verdict_of is_summary ts d).0
choice-verdict is_summary [] [] b c d e f g = rw (f, g) refl
choice-verdict is_summary (n ∷ ns) (t ∷ ts) b c d e f g = refl
choice-verdict is_summary [] (t ∷ ts) b c d e f g = absurd (ground (arith, e))
choice-verdict is_summary (n ∷ ns) [] b c d e f g = absurd (ground (arith, e))

pub classify-tests : (t : Text) (s : Stream) → member t (classify s).1 ≡ member t (names s)
unfolding classify
classify-tests t s =
    choice-tests t (names s) s.incomplete (some_not_in s.pkg_ran s.pkg_build_failed)

pub both_iff : {P : Type 0} (a b : Bool) → (a ≡ true) ↔ P → (b ≡ true) ↔ P → a ≡ b
both_iff a b f g = elim (Bool-cases a) [
  | inl e ↦ e ∙ sym (g.1 (f.0 e))
  | inr e ↦ elim (Bool-cases b) [
    | inl k ↦ absurd (ground (arith, e, f.1 (g.0 k)))
    | inr k ↦ e ∙ sym k
  ]
]
