-- ===== src/Coverage/Profile.antt =====
-- From the text of a profile to the index: the keys of the map that `Parse` of
-- internal/coverage/coverage.go builds.
use mutation_judge.Base.{
  ℕ, ◌+◌, ◌≡◌, subst, false, List, [], ◌∷◌, Text, text_eq, arith, Bool-cases, inl, inr,
}
use mutation_judge.Base.Outcome.{ok, bind-ok, ok-inj}
use mutation_judge.GitDiff.Scan.{raw_lines}
use mutation_judge.Coverage.{
  LineSet, Files, Map, Paths, update, mark_block, add_block, add_lines, read_block, read_mode,
  parse_lines, parse, normalize,
}
use mutation_judge.Coverage.Fields.{Block}
use mutation_judge.Coverage.Resolve.{Apart, Distinct, resolve, build_from-resolve}

update-Apart :
    (g file : Text) (f : LineSet → LineSet) (fs : Files)
    → text_eq g file ≡ false
    → Apart g fs
    → Apart g (update file f fs)
unfolding update
update-Apart g file f [] e h = (e, tt)
update-Apart g file f ((k, s) ∷ fs) e h = elim (Bool-cases (text_eq k file)) [
  | inl i ↦ rw (i, update) h
  | inr i ↦ rw (i, update) (h.0, update-Apart g file f fs e h.1)
]

update-Distinct :
    (file : Text) (f : LineSet → LineSet) (fs : Files) → Distinct fs → Distinct (update file f fs)
unfolding update
update-Distinct file f [] h = (tt, tt)
update-Distinct file f ((k, s) ∷ fs) h = elim (Bool-cases (text_eq k file)) [
  | inl i ↦ rw (i, update) h
  | inr i ↦ rw (i, update) (update-Apart k file f fs i h.0, update-Distinct file f fs h.1)
]

add_block-Distinct :
    (file : Text) (b : Block) (fs : Files) → Distinct fs → Distinct (add_block file b fs)
unfolding add_block
add_block-Distinct file b fs h = update-Distinct file (mark_block b) fs h

module _ (p : Paths) (root : Text) where
  add_lines-Distinct :
      (n : ℕ) (mode : Text) (fs gs : Files) (ls : List Text)
      → Distinct fs
      → add_lines p root n mode fs ls ≡ ok gs
      → Distinct gs
  unfolding add_lines
  add_lines-Distinct n mode fs gs [] h e = subst Distinct (ok-inj e) h
  add_lines-Distinct n mode fs gs (l ∷ ls) h e = bind-ok (read_block n mode l) _ gs e λ b _ i.
      add_lines-Distinct (n + 1) mode (add_block (normalize p root b.file) b fs) gs ls
        (add_block-Distinct (normalize p root b.file) b fs h) i

  parse_lines-Distinct : (ls : List Text) (fs : Files) → parse_lines p root ls ≡ ok fs → Distinct fs
  unfolding parse_lines
  parse_lines-Distinct [] fs e = absurd (ground (arith, e))
  parse_lines-Distinct (l ∷ ls) fs e =
      bind-ok (read_mode l) _ fs e λ mode _ i. add_lines-Distinct 2 mode [] fs ls tt i

  -- In what `Parse` makes of a profile, whatever its text, no file stands twice, and a path that is no key
  -- resolves to the lines of the one file of which it is a suffix, and to nothing where no file or more than
  -- one has it.
  pub parse-resolve :
      (content : Text) (m : Map)
      → parse p root content ≡ ok m
      → Distinct m.files × ((s : Text) → m.index.by_suffix s ≡ resolve m.files s)
  unfolding parse
  parse-resolve content m e = bind-ok (parse_lines p root (raw_lines content)) _ m e λ fs i j.
      let distinct = parse_lines-Distinct (raw_lines content) fs i in
      subst (λ n. Distinct n.files × ((s : Text) → n.index.by_suffix s ≡ resolve n.files s))
        (ok-inj j) (distinct, λ s. build_from-resolve fs s distinct)
