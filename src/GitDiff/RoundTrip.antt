-- ===== src/GitDiff/RoundTrip.antt =====
-- What the parser of internal/gitdiff/gitdiff.go reads from a diff that git writes.
use mutation_judge.Base.Blank.{is_blank, blank_from}
use mutation_judge.Base.{
  ℕ, ◌+◌, ◌≡◌, ◌↔◌, refl, sym, ap, ◌∙◌, true, false, List, [], ◌∷◌, ◌++◌, map, Option, none, some,
  Text, codes, length, leb, ◌==◌, arith, All, subst,
}
use mutation_judge.GitDiff.{
  Parser, initial, ok, fail, Lines, check_file, parse_lines, parse, CheckError, last_file,
}
use mutation_judge.GitDiff.Scan.{raw_lines, drop_cr}
use mutation_judge.GitDiff.Section.{
  Reads, done, reads, Reads-append, Between, at_start, at_end, mark_patch, patch_Reads,
}
use mutation_judge.GitDiff.Marks.{mark_patches, mark_patches_iff}
use mutation_judge.GitDiff.Patch.{Patch, IsPatch, path_name, patch_lines, patches_lines, Touches}

abbrev pub unlines : List Text → Text
unlines [] = []
unlines (l ∷ ls) = l ++ (b'\n' ∷ unlines ls)

-- A line has no newline, and is below the limit of the scanner.
abbrev pub IsLine : Text → Type 0
IsLine l = All (λ c. (c == b'\n') ≡ false) l × (leb 8388608 (length l) ≡ false)

raw_lines_append :
    (l s : Text) → All (λ c. (c == b'\n') ≡ false) l → raw_lines (l ++ b'\n' ∷ s) ≡ l ∷ raw_lines s
unfolding raw_lines
raw_lines_append [] s h = refl
raw_lines_append (c ∷ l) s h = rw (raw_lines_append l s h.1, h.0) refl

pub raw_lines-unlines : (ls : List Text) → All IsLine ls → raw_lines (unlines ls) ≡ ls
unfolding raw_lines
raw_lines-unlines [] h = refl
raw_lines-unlines (l ∷ ls) h =
    raw_lines_append l (unlines ls) h.0.0 ∙ ap (◌∷◌ l) (raw_lines-unlines ls h.1)

d_not_blank : (s : Text) → is_blank (b'd' ∷ s) ≡ false
unfolding blank_from
d_not_blank [] = refl
d_not_blank (x ∷ []) = refl
d_not_blank (x ∷ y ∷ s) = refl

drop_cr-first : (l : Text) (x : ℕ) (t : Text) → drop_cr l ≡ x ∷ t → (r : Text) × (l ≡ x ∷ r)
unfolding drop_cr
drop_cr-first [] x t e = absurd (ground (arith, e))
drop_cr-first (c ∷ []) x t e = ([], ground (arith, e))
drop_cr-first (c ∷ d ∷ l) x t e = (d ∷ l, ground (arith, e))

-- The output of git for some patch is not blank.
pub unlines_not_blank :
    (p : Patch) (l : Text) (ls ms : List Text)
    → drop_cr l ∷ ls ≡ patch_lines p ++ ms
    → (s : Text) → is_blank (l ++ s) ≡ false
unlines_not_blank p l ls ms e s =
    let (r, q) = drop_cr-first l b'd' (codes "iff --git " ++ p.heading) (ground (arith, e)) in
    rw q (d_not_blank (r ++ s))

Between-changed : {c : Lines} {p : Parser} → Between c p → p.changed ≡ c
Between-changed at_start = refl
Between-changed (at_end f seen meta) = refl

module _ (unquote : Text → Option Text) where
  parse_lines-Reads :
      (n : ℕ) (ls : List Text) {p q : Parser}
      → All IsLine ls
      → Reads unquote p (map drop_cr ls) q
      → check_file q ≡ none
      → parse_lines unquote n p ls ≡ ok q.changed
  unfolding parse_lines
  parse_lines-Reads n [] h done e = rw (e, parse_lines) refl
  parse_lines-Reads n (l ∷ ls) h (reads s r) e =
      rw (h.0.1, s, parse_lines) (parse_lines-Reads (n + 1) ls h.1 r e)

  pub parse_lines-last_file :
      (n : ℕ) (ls : List Text) {p q : Parser} {e : CheckError}
      → All IsLine ls
      → Reads unquote p (map drop_cr ls) q
      → check_file q ≡ some e
      → parse_lines unquote n p ls ≡ fail (last_file e)
  unfolding parse_lines
  parse_lines-last_file n [] h done e = rw (e, parse_lines) refl
  parse_lines-last_file n (l ∷ ls) h (reads s r) e =
      rw (h.0.1, s, parse_lines) (parse_lines-last_file (n + 1) ls h.1 r e)

  pub patches_Reads :
      (c : Lines) (s : Parser) (p : Patch) (ps : List Patch)
      → Between c s
      → All (IsPatch unquote) (p ∷ ps)
      → (t : Parser) × Reads unquote s (patches_lines (p ∷ ps)) t
        × Between (mark_patches (p ∷ ps) c) t
        × (check_file t ≡ none)
  unfolding mark_patches check_file
  patches_Reads c s p [] b v =
      let (seen, meta, r) = patch_Reads unquote c s p b v.0 in
      (_, Reads-append unquote r done, at_end (path_name p.new_path) seen meta, refl)
  patches_Reads c s p (p' ∷ ps) b v =
      let (seen, meta, r) = patch_Reads unquote c s p b v.0 in
      let last = at_end (path_name p.new_path) seen meta in
      let (u, rest, b', k) = patches_Reads (mark_patch p c) _ p' ps last v.1 in
      (u, Reads-append unquote r rest, b', k)

  -- A diff of changes of text as git writes it, to files whose names have no space, with each line below
  -- 8 MiB, is parsed without an error, and the marked lines are those that its hunk headers announce for
  -- the new side: `k` is marked in file `f` exactly if some patch to `f` has a hunk with line `k`.
  pub parse-Touches :
      (ps : List Patch) (ls : List Text)
      → All (IsPatch unquote) ps
      → map drop_cr ls ≡ patches_lines ps
      → All IsLine ls
      → (c : Lines) × (parse unquote (unlines ls) ≡ ok c)
        × ((f : Text) (k : ℕ) → (c f k ≡ true) ↔ Touches f k ps)
  unfolding parse blank_from raw_lines parse_lines
  parse-Touches [] [] v e h =
      (λ f k. false, refl, λ f k. (λ q. absurd (ground arith), λ q. absurd q))
  parse-Touches [] (l ∷ ls) v e h = absurd (ground (arith, e))
  parse-Touches (p ∷ ps) [] v e h = absurd (ground (arith, e))
  parse-Touches (p ∷ ps) (l ∷ ls) v e h =
      let (q, r, b, k) = patches_Reads (λ f k. false) initial p ps at_start v in
      let blank =
        unlines_not_blank p l (map drop_cr ls) (patches_lines ps) e (b'\n' ∷ unlines ls) in
      let read : Reads unquote initial (map drop_cr (l ∷ ls)) q =
        subst (λ x. Reads unquote initial x q) (sym e) r in
      (
        mark_patches (p ∷ ps) (λ f k. false),
        rw (blank, raw_lines-unlines (l ∷ ls) h, parse)
            (parse_lines-Reads 1 (l ∷ ls) h read k ∙ ap ok (Between-changed b)),
        λ f k. ground (arith, mark_patches_iff (p ∷ ps) (λ f k. false) f k),
      )
