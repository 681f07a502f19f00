-- ===== src/GitDiff/Truncated.antt =====
-- The parser of internal/gitdiff/gitdiff.go refuses a diff that is cut off.
use mutation_judge.Base.Blank.{is_blank}
use mutation_judge.Base.{
  ◌+◌, ◌<◌, ◌≡◌, sym, subst, ◌∙◌, false, List, [], ◌∷◌, ◌++◌, map, append_assoc, Option, some, Text,
  arith, All,
}
use mutation_judge.GitDiff.{
  Parser, initial, fail, Lines, check_file, truncated_hunk, parse_lines, parse, last_file,
}
use mutation_judge.GitDiff.Scan.{raw_lines, drop_cr}
use mutation_judge.GitDiff.Section.{
  Reads, done, reads, Reads-append, Between, at_start, inside, mark_hunk, mark_patch, part_Reads,
  step-hunk_header, patch_Reads,
}
use mutation_judge.GitDiff.Marks.{mark_patches}
use mutation_judge.GitDiff.RoundTrip.{
  unlines, IsLine, raw_lines-unlines, unlines_not_blank, parse_lines-last_file, patches_Reads,
}
use mutation_judge.GitDiff.Patch.{
  Payload, payload_line, removed_in, added_in, Hunk, hunk_header, IsHunk, Patch, IsPatch, path_name,
  patch_lines, patches_lines,
}

module _ (unquote : Text → Option Text) where
  -- A patch is read, and a part of one more hunk of its file.
  part_of_hunk_Reads :
      (c : Lines) (s : Parser) (p : Patch) (h : Hunk) (part rest : List Payload)
      → Between c s
      → IsPatch unquote p
      → IsHunk h
      → h.body ≡ part ++ rest
      → 0 < removed_in rest + added_in rest
      → (t : Parser) × Reads unquote s (patch_lines p ++ hunk_header h ∷ map payload_line part) t
        × (check_file t ≡ some truncated_hunk)
  unfolding check_file
  part_of_hunk_Reads c s p h part rest b v w e more =
      let f = path_name p.new_path in
      let (seen, meta, r) = patch_Reads unquote c s p b v in
      let m = mark_hunk f h (mark_patch p c) in
      let body : Reads unquote (inside f meta m (removed_in h.body) (added_in h.body))
          (map payload_line part) (inside f meta m (removed_in rest) (added_in rest)) =
        subst
          (λ ms.
            Reads unquote (inside f meta m (removed_in ms) (added_in ms)) (map payload_line part)
              (inside f meta m (removed_in rest) (added_in rest)))
          (sym e) (part_Reads unquote f meta m rest part) in
      (
        inside f meta m (removed_in rest) (added_in rest),
        Reads-append unquote r
            (reads (step-hunk_header unquote f seen meta (mark_patch p c) h w) body),
        ground arith,
      )

  -- The patches in front, if there are any.
  front_Reads :
      (c : Lines) (s : Parser) (ps : List Patch)
      → Between c s
      → All (IsPatch unquote) ps
      → (t : Parser) × Reads unquote s (patches_lines ps) t × Between (mark_patches ps c) t
  unfolding mark_patches
  front_Reads c s [] b v = (s, done, b)
  front_Reads c s (p ∷ ps) b v =
      let (t, r, b', k) = patches_Reads unquote c s p ps b v in (t, r, b')

  -- The first line is the heading of a patch.
  front_not_blank :
      (ps : List Patch) (last : Patch) (l : Text) (ls ms : List Text)
      → drop_cr l ∷ ls ≡ patches_lines ps ++ (patch_lines last ++ ms)
      → (s : Text) → is_blank (l ++ s) ≡ false
  front_not_blank [] last l ls ms e s = unlines_not_blank last l ls ms e s
  front_not_blank (p ∷ ps) last l ls ms e s =
      unlines_not_blank p l ls (patches_lines ps ++ (patch_lines last ++ ms))
        (e ∙ append_assoc (patch_lines p) (patches_lines ps) (patch_lines last ++ ms)) s

  -- A diff of changes of text, to files whose names have no space, that ends inside a hunk, with some of
  -- its lines still to come, is refused as truncated: the lines of any patches, or of none, then a patch
  -- with one more hunk of which only a part is there, each line below 8 MiB.
  pub parse-truncated_hunk :
      (ps : List Patch) (last : Patch) (h : Hunk) (part rest : List Payload) (ls : List Text)
      → All (IsPatch unquote) ps
      → IsPatch unquote last
      → IsHunk h
      → h.body ≡ part ++ rest
      → 0 < removed_in rest + added_in rest
      → map drop_cr ls
        ≡ patches_lines ps ++ (patch_lines last ++ hunk_header h ∷ map payload_line part)
      → All IsLine ls
      → parse unquote (unlines ls) ≡ fail (last_file truncated_hunk)
  unfolding parse raw_lines parse_lines
  parse-truncated_hunk [] last h part rest [] v v' w e more same short =
      absurd (ground (arith, same))
  parse-truncated_hunk (p ∷ ps) last h part rest [] v v' w e more same short =
      absurd (ground (arith, same))
  parse-truncated_hunk ps last h part rest (l ∷ ls) v v' w e more same short =
      let (t, r, b) = front_Reads (λ f k. false) initial ps at_start v in
      let (u, r', k') =
        part_of_hunk_Reads (mark_patches ps (λ f k. false)) t last h part rest b v' w e more in
      let blank =
        front_not_blank ps last l (map drop_cr ls) (hunk_header h ∷ map payload_line part) same
          (b'\n' ∷ unlines ls) in
      let read : Reads unquote initial (map drop_cr (l ∷ ls)) u =
        subst (λ x. Reads unquote initial x u) (sym same) (Reads-append unquote r r') in
      rw (blank, raw_lines-unlines (l ∷ ls) short, parse)
        (parse_lines-last_file unquote 1 (l ∷ ls) short read k')
