-- ===== src/History/Reading.antt =====
-- What internal/history/history.go reads back.
use mutation_judge.Base.{
  ℕ, ◌+◌, ◌≡◌, refl, sym, ap, ◌∙◌, true, false, List, [], ◌∷◌, ◌++◌, Option, none, some, Text, All,
  All-append, arith, append_assoc, append-nil, length, leb, ◌==◌, inl, inr, Option-cases,
  Bool-cases,
}
use mutation_judge.Base.Outcome.{Outcome, ok, fail, map_ok, ok_or, ◌>>=◌}
use mutation_judge.Base.Trim.{trim_space}
use mutation_judge.Model.Validate.{is_empty}
use mutation_judge.GitDiff.Scan.{raw_lines, drop_cr}
use mutation_judge.GitDiff.RoundTrip.{unlines, IsLine, raw_lines-unlines}
use mutation_judge.History.{
  Entry, Codec, Env, AppendError, append, content_of, ReadError, read_lines, read, bad_line,
}

-- What encoding/json writes for an entry: one line, with no white space around it, which reads back as
-- the entry.
pub record IsEncoded (codec : Codec) (e : Entry) (t : Text) : Type 0 where
  pub one_line : All (λ c. (c == b'\n') ≡ false) t
  pub trimmed : trim_space (drop_cr t) ≡ t
  pub there : is_empty t ≡ false
  pub short : leb 1048576 (length t) ≡ false
  pub reads_back : codec.unmarshal t ≡ some e

-- The appends of several runs one after another, up to the first error.
unfoldable pub append_all :
    Codec → Option Text → List (Env × Entry) → Option Text × Option AppendError
append_all codec file [] = (file, none)
append_all codec file ((env, e) ∷ rs) = elim (append codec env file e).1 [
  | none ↦ append_all codec (append codec env file e).0 rs
  | some err ↦ ((append codec env file e).0, some err)
]

append-none :
    (codec : Codec) (env : Env) (file : Option Text) (e : Entry)
    → (append codec env file e).1 ≡ none
    → (t : Text) × (codec.marshal e ≡ some t)
      × ((append codec env file e).0 ≡ some (content_of file ++ (t ++ b'\n' ∷ [])))
unfolding append
append-none codec env file e h = elim (Bool-cases env.can_mkdir) [
  | inr m ↦ absurd (ground (arith, rw m at h))
  | inl m ↦ elim (Bool-cases env.can_open) [
    | inr o ↦ absurd (ground (arith, rw (m, o) at h))
    | inl o ↦ elim (Option-cases (codec.marshal e)) [
      | inl c ↦ absurd (ground (arith, rw (m, o, c) at h))
      | inr (t, c) ↦ elim (Option-cases env.written) [
        | inl w ↦ (t, c, rw (m, o, c, w) refl)
        | inr (k, w) ↦ absurd (ground (arith, rw (m, o, c, w) at h))
      ]
    ]
  ]
]

-- The texts of the entries.
abbrev pub Encoded : Codec → List (Env × Entry) → List Text → Type 0
Encoded codec [] [] = Unit
Encoded codec ((env, e) ∷ rs) (t ∷ ts) = (codec.marshal e ≡ some t) × Encoded codec rs ts
Encoded codec _ _ = ⊥

append_all-none :
    (codec : Codec) (file : Option Text) (rs : List (Env × Entry))
    → (append_all codec file rs).1 ≡ none
    → (ts : List Text) × Encoded codec rs ts
      × (content_of (append_all codec file rs).0 ≡ content_of file ++ unlines ts)
unfolding append_all
append_all-none codec file [] h = ([], tt, sym (append-nil (content_of file)))
append_all-none codec file ((env, e) ∷ rs) h = elim (Option-cases (append codec env file e).1) [
  | inr (err, k) ↦ absurd (ground (arith, rw (k, append_all) at h))
  | inl k ↦
      let (t, c, f) = append-none codec env file e k in
      let (ts, enc, g) =
        append_all-none codec (append codec env file e).0 rs (rw (k, append_all) at h) in
      (
        t ∷ ts,
        (c, enc),
        rw (k, append_all)
            (g
              ∙ (ap (λ o. content_of o ++ unlines ts) f
                  ∙ (append_assoc (content_of file) (t ++ b'\n' ∷ []) (unlines ts)
                      ∙ ap (λ u. content_of file ++ u)
                          (append_assoc t (b'\n' ∷ []) (unlines ts))))),
      )
]

-- Every text that the codec writes for one of these entries is a line that reads back.
abbrev pub AllEncoded : Codec → List (Env × Entry) → Type 0
AllEncoded codec [] = Unit
AllEncoded codec ((env, e) ∷ rs) =
    ((t : Text) → codec.marshal e ≡ some t → IsEncoded codec e t) × AllEncoded codec rs

abbrev pub entries : List (Env × Entry) → List Entry
entries [] = []
entries ((env, e) ∷ rs) = e ∷ entries rs

read_lines-Encoded :
    (codec : Codec) (n : ℕ) (rs : List (Env × Entry)) (ts : List Text)
    → AllEncoded codec rs
    → Encoded codec rs ts
    → read_lines codec n ts ≡ ok (entries rs)
unfolding read_lines
read_lines-Encoded codec n [] [] a h = refl
read_lines-Encoded codec n [] (t ∷ ts) a h = absurd h
read_lines-Encoded codec n (r ∷ rs) [] a h = absurd h
read_lines-Encoded codec n ((env, e) ∷ rs) (t ∷ ts) a h =
    let is = a.0 t h.0 in
    rw
      (
        is.trimmed,
        is.there,
        is.short,
        is.reads_back,
        read_lines-Encoded codec (n + 1) rs ts a.1 h.1,
        read_lines,
      )
      refl

Encoded-IsLine :
    (codec : Codec) (rs : List (Env × Entry)) (ts : List Text)
    → AllEncoded codec rs
    → Encoded codec rs ts
    → All IsLine ts
Encoded-IsLine codec [] [] a h = tt
Encoded-IsLine codec [] (t ∷ ts) a h = absurd h
Encoded-IsLine codec (r ∷ rs) [] a h = absurd h
Encoded-IsLine codec ((env, e) ∷ rs) (t ∷ ts) a h =
    let is = a.0 t h.0 in
    ((is.one_line, ground (arith, is.short)), Encoded-IsLine codec rs ts a.1 h.1)

read-content :
    (codec : Codec) (file : Option Text)
    → read codec true file ≡ read_lines codec 1 (raw_lines (content_of file))
unfolding read read_lines raw_lines
read-content codec none = refl
read-content codec (some t) = refl

-- Whatever the file system does, if a run of appends to a log that is not there yet reports no error, then
-- `Read` gives exactly these entries in their order, where encoding/json writes each of them as one line
-- below 1 MiB that reads back.
pub read-append_all :
    (codec : Codec) (rs : List (Env × Entry))
    → AllEncoded codec rs
    → (append_all codec none rs).1 ≡ none
    → read codec true (append_all codec none rs).0 ≡ ok (entries rs)
read-append_all codec rs a h =
    let (ts, enc, c) = append_all-none codec none rs h in
    read-content codec (append_all codec none rs).0
    ∙ (ap (λ t. read_lines codec 1 (raw_lines t)) c
        ∙ (ap (read_lines codec 1) (raw_lines-unlines ts (Encoded-IsLine codec rs ts a enc))
            ∙ read_lines-Encoded codec 1 rs ts a enc))

stops :
    (n : ℕ) (o : Option Entry) (rest : Outcome ReadError (List Entry))
    → o ≡ none
    → (ok_or (bad_line n) o >>= (λ e. map_ok (λ es. e ∷ es) rest)) ≡ fail (bad_line n)
stops n none rest h = refl
stops n (some e) rest h = absurd (ground (arith, h))

read_lines-bad_line :
    (codec : Codec) (n : ℕ) (rs : List (Env × Entry)) (ts : List Text) (bad : Text)
    (more : List Text)
    → AllEncoded codec rs
    → Encoded codec rs ts
    → leb 1048576 (length bad) ≡ false
    → is_empty (trim_space (drop_cr bad)) ≡ false
    → codec.unmarshal (trim_space (drop_cr bad)) ≡ none
    → read_lines codec n (ts ++ bad ∷ more) ≡ fail (bad_line (length ts + n))
unfolding read_lines
read_lines-bad_line codec n [] [] bad more a enc short there refused =
    let first : n ≡ length {A = Text} [] + n = omega arith in
    rw (short, there, read_lines)
      (stops n (codec.unmarshal (trim_space (drop_cr bad))) (read_lines codec (n + 1) more) refused
        ∙ ap (λ k. fail (bad_line k)) first)
read_lines-bad_line codec n [] (t ∷ ts) bad more a enc short there refused = absurd enc
read_lines-bad_line codec n (r ∷ rs) [] bad more a enc short there refused = absurd enc
read_lines-bad_line codec n ((env, e) ∷ rs) (t ∷ ts) bad more a enc short there refused =
    let is = a.0 t enc.0 in
    let rest = read_lines-bad_line codec (n + 1) rs ts bad more a.1 enc.1 short there refused in
    rw (is.trimmed, is.there, is.short, is.reads_back, rest, read_lines)
      (ap (λ k. fail (bad_line k)) (omega arith))

-- A log with a line that is no entry, behind lines that are, is refused, with the number of the line.
pub read-bad_line :
    (codec : Codec) (rs : List (Env × Entry)) (ts : List Text) (bad : Text) (more : List Text)
    → AllEncoded codec rs
    → Encoded codec rs ts
    → All IsLine (bad ∷ more)
    → leb 1048576 (length bad) ≡ false
    → is_empty (trim_space (drop_cr bad)) ≡ false
    → codec.unmarshal (trim_space (drop_cr bad)) ≡ none
    → read codec true (some (unlines (ts ++ bad ∷ more))) ≡ fail (bad_line (length ts + 1))
unfolding read
read-bad_line codec rs ts bad more a enc lines short there refused =
    ap (read_lines codec 1) (
      raw_lines-unlines (ts ++ bad ∷ more)
        (All-append IsLine ts (bad ∷ more) (Encoded-IsLine codec rs ts a enc) lines))
    ∙ read_lines-bad_line codec 1 rs ts bad more a enc short there refused
