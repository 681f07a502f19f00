-- ===== src/GitDiff/Section.antt =====
-- The steps of the parser over the lines of one patch.
use mutation_judge.Base.{
  ℕ, ◌≡◌, ◌≢◌, refl, subst, append-nil, Bool, true, false, List, [], ◌∷◌, ◌++◌, map, Option, some,
  Text, text_eq, codes, after_prefix, has_prefix, ◌==◌, if◌then◌else◌, arith, All,
}
use mutation_judge.GitDiff.{
  Parser, initial, ok, Lines, mark, check_file, lower, payload, next_file, open_hunk, hunk,
  metadata, strip_prefix, decode_path, old_file, new_file, section_line, step,
}
use mutation_judge.GitDiff.Header.{match_hunk-hunk_header}
use mutation_judge.GitDiff.Patch.{
  Payload, removed, added, unended, payload_line, removed_in, added_in, Hunk, hunk_header,
  hunks_lines, IsHunk, FileName, dev_null, plain, quoted, has_space, tab_behind, path_text,
  path_name, IsFileName, Metadata, index, metadata_line, Patch, patch_lines, IsPatch,
}

-- The parser in a file's section, with no hunk open.
abbrev pub section : Text → Bool → Bool → Bool → Bool → Lines → Parser
section f old new seen meta c = record {
  file = f;
  in_diff = true;
  old_header = old;
  new_header = new;
  binary_patch = false;
  hunk_seen = seen;
  metadata_only_change = meta;
  old_remaining = 0;
  new_remaining = 0;
  changed = c;
}

-- And in a hunk.
abbrev pub inside : Text → Bool → Lines → ℕ → ℕ → Parser
inside f meta c o n = record (section f true true true meta c) {
  old_remaining = o;
  new_remaining = n;
}

-- The marks of a hunk, of hunks.
abbrev pub mark_hunk : Text → Hunk → Lines → Lines
mark_hunk f h c = if text_eq f [] then c else mark f h.start 0 (added_in h.body) c

abbrev pub mark_hunks : Text → List Hunk → Lines → Lines
mark_hunks f [] c = c
mark_hunks f (h ∷ hs) c = mark_hunks f hs (mark_hunk f h c)

abbrev pub mark_patch : Patch → Lines → Lines
mark_patch p c = mark_hunks (path_name p.new_path) p.hunks c

-- Between two patches: nothing is read, or a patch is read to its end.
pub data Between (c : Lines) : Parser → Type 0 where
  at_start : Between c (record initial { changed = c })
  at_end : (f : Text) (seen meta : Bool) → Between c (section f true true seen meta c)

module _ (unquote : Text → Option Text) where
  -- The parser reads these lines, each without its carriage return.
  pub data Reads : Parser → List Text → Parser → Type 0 where
    done : {p : Parser} → Reads p [] p
    reads :
        {p q r : Parser} {l : Text} {ls : List Text}
        → step unquote p l ≡ ok q
        → Reads q ls r
        → Reads p (l ∷ ls) r

  pub Reads-append :
      {p q r : Parser} {ls ms : List Text} → Reads p ls q → Reads q ms r → Reads p (ls ++ ms) r
  Reads-append done b = b
  Reads-append (reads e a) b = reads e (Reads-append a b)

  -- In a hunk only the first byte of a line counts; `rest` is still to come.
  pub part_Reads :
      (f : Text) (meta : Bool) (c : Lines) (rest ls : List Payload)
      → Reads
          (inside f meta c (removed_in (ls ++ rest)) (added_in (ls ++ rest)))
          (map payload_line ls)
          (inside f meta c (removed_in rest) (added_in rest))
  unfolding step payload lower text_eq
  part_Reads f meta c rest [] = done
  part_Reads f meta c rest (removed t ∷ ls) = reads (ground arith) (part_Reads f meta c rest ls)
  part_Reads f meta c rest (added t ∷ ls) = reads (ground arith) (part_Reads f meta c rest ls)
  part_Reads f meta c rest (unended ∷ ls) = reads (ground arith) (part_Reads f meta c rest ls)

  payload_Reads :
      (f : Text) (meta : Bool) (c : Lines) (ls : List Payload)
      → Reads
          (inside f meta c (removed_in ls) (added_in ls))
          (map payload_line ls)
          (inside f meta c 0 0)
  payload_Reads f meta c ls =
      subst
        (λ ms.
          Reads (inside f meta c (removed_in ms) (added_in ms)) (map payload_line ls)
            (inside f meta c 0 0))
        (append-nil ls) (part_Reads f meta c [] ls)

  pub step-hunk_header :
      (f : Text) (seen meta : Bool) (c : Lines) (h : Hunk)
      → IsHunk h
      → step unquote (section f true true seen meta c) (hunk_header h)
        ≡ ok (inside f meta (mark_hunk f h c) (removed_in h.body) (added_in h.body))
  unfolding step section_line after_prefix hunk open_hunk text_eq
  step-hunk_header f seen meta c h v =
      rw (match_hunk-hunk_header h v, v.start_value, v.old_value, v.new_value, hunk, open_hunk) refl

  hunks_Reads :
      (f : Text) (seen meta : Bool) (c : Lines) (hs : List Hunk)
      → All IsHunk hs
      → (s : Bool) × Reads
          (section f true true seen meta c)
          (hunks_lines hs)
          (section f true true s meta (mark_hunks f hs c))
  hunks_Reads f seen meta c [] v = (seen, done)
  hunks_Reads f seen meta c (h ∷ hs) v =
      let (s, rest) = hunks_Reads f true meta (mark_hunk f h c) hs v.1 in
      (
        s,
        reads (step-hunk_header f seen meta c h v.0)
            (Reads-append (payload_Reads f meta (mark_hunk f h c) h.body) rest),
      )

  step-metadata_line :
      (f : Text) (meta : Bool) (c : Lines) (m : Metadata)
      → (b : Bool) × (step unquote (section f false false false meta c) (metadata_line m)
          ≡ ok (section f false false false b c))
  unfolding step section_line after_prefix metadata text_eq
  step-metadata_line f meta c (index t) = (meta, refl)
  step-metadata_line f meta c _ = (true, refl)

  metadata_Reads :
      (f : Text) (meta : Bool) (c : Lines) (ms : List Metadata)
      → (b : Bool) × Reads
          (section f false false false meta c)
          (map metadata_line ms)
          (section f false false false b c)
  metadata_Reads f meta c [] = (meta, done)
  metadata_Reads f meta c (m ∷ ms) =
      let (b, e) = step-metadata_line f meta c m in
      let (b', rest) = metadata_Reads f b c ms in (b', reads e rest)

  strip_prefix_append :
      (x : ℕ) (name : Text)
      → (x == b'/') ≡ false
      → name ≢ []
      → has_prefix (codes "/") name ≡ false
      → strip_prefix unquote (x ∷ b'/' ∷ []) (x ∷ b'/' ∷ name) ≡ some name
  unfolding strip_prefix after_prefix text_eq
  strip_prefix_append x [] d n h = absurd (n refl)
  strip_prefix_append x (y ∷ name) d n h = ground arith

  no_tab : (s name : Text) → has_space name ≡ false → s ++ tab_behind name ≡ s
  no_tab s name h = rw h (append-nil s)

  -- `x` is the letter before the slash of the prefix.
  decode_path-path_text :
      (x : ℕ) (p : FileName)
      → (x == b'/') ≡ false
      → (x == b'"') ≡ false
      → IsFileName unquote (x ∷ b'/' ∷ []) p
      → decode_path unquote (path_text (x ∷ b'/' ∷ []) p) (x ∷ b'/' ∷ []) ≡ some (path_name p)
  unfolding decode_path after_prefix strip_prefix text_eq
  decode_path-path_text x dev_null d q v = refl
  decode_path-path_text x (plain name) d q v =
      rw (no_tab name name v.2) (ground (arith, strip_prefix_append x name d v.0 v.1))
  decode_path-path_text x (quoted s name) d q v =
      rw (no_tab s name v.2, v.3, decode_path) (strip_prefix_append x name d v.0 v.1)

  step-old_path :
      (f : Text) (meta : Bool) (c : Lines) (p : FileName)
      → IsFileName unquote (codes "a/") p
      → step unquote (section f false false false meta c) (codes "--- " ++ path_text (codes "a/") p)
        ≡ ok (section f true false false meta c)
  unfolding step section_line after_prefix old_file text_eq
  step-old_path f meta c p v = rw (decode_path-path_text b'a' p refl refl v, old_file) refl

  step-new_path :
      (f : Text) (meta : Bool) (c : Lines) (p : FileName)
      → IsFileName unquote (codes "b/") p
      → step unquote (section f true false false meta c) (codes "+++ " ++ path_text (codes "b/") p)
        ≡ ok (section (path_name p) true true false meta c)
  unfolding step section_line after_prefix new_file text_eq
  step-new_path f meta c p v = rw (decode_path-path_text b'b' p refl refl v, new_file) refl

  step-heading :
      (c : Lines) (p : Parser) (t : Text)
      → Between c p
      → step unquote p (codes "diff --git " ++ t) ≡ ok (section [] false false false false c)
  unfolding step next_file check_file after_prefix
  step-heading c p t at_start = refl
  step-heading c p t (at_end f seen meta) = refl

  pub patch_Reads :
      (c : Lines) (s : Parser) (p : Patch)
      → Between c s
      → IsPatch unquote p
      → (seen meta : Bool) × Reads s
          (patch_lines p)
          (section (path_name p.new_path) true true seen meta (mark_patch p c))
  patch_Reads c s p h v =
      let (meta, header) = metadata_Reads [] false c p.header in
      let f = path_name p.new_path in
      let (seen, body) = hunks_Reads f false meta c p.hunks v.hunks_ok in
      (
        seen,
        meta,
        reads (step-heading c s p.heading h) (
            Reads-append header (
              reads (step-old_path [] meta c p.old_path v.old_ok)
                (reads (step-new_path [] meta c p.new_path v.new_ok) body))),
      )
