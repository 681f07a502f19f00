-- ===== src/Spool/Pass.antt =====
-- `ForEach` against the list of records that the spool stands for, and a whole run.
use mutation_judge.Base.{
  ℕ, suc, ◌+◌, ◌≤◌, ◌≡◌, subst, refl, sym, ap, fun_ext, ◌∙◌, List, [], ◌∷◌, ◌++◌, map, Option, none,
  some, Text, length, append-nil, append_assoc,
}
use mutation_judge.Spool.Json.{Codec, value, IsStream}
use mutation_judge.Spool.{
  Spool, SpoolError, Env, Visit, goes_on, stops, consumer_failed, newline, empty, append, for_each,
  visit_memory, visit_file, visit_tail, memory_records, memory_bytes,
}
use mutation_judge.Spool.Contents.{
  concat, Stores, Holds, resident, on_disk, empty-Stores, Appended, append-Appended,
}

-- A run of appends goes on behind one append, unless that failed.
abbrev pub after_append :
    (Spool → Spool × Option SpoolError) → Spool × Option SpoolError → Spool × Option SpoolError
after_append next (s, some e) = (s, some e)
after_append next (s, none) = next s

module _ {A : Type 0} (codec : Codec A) where
  -- The lines of these records: the JSON text of each, and a newline.
  abbrev pub Lines : List A → List Text → Type 0
  Lines [] [] = Unit
  Lines [] (l ∷ ls) = ⊥
  Lines (a ∷ rs) [] = ⊥
  Lines (a ∷ rs) (l ∷ ls) =
      ((t : Text) × (codec.encode a ≡ some t) × (l ≡ t ++ newline)) × Lines rs ls

  pub length-Lines : (rs : List A) (ls : List Text) → Lines rs ls → length ls ≡ length rs
  length-Lines [] [] h = refl
  length-Lines [] (l ∷ ls) h = absurd h
  length-Lines (a ∷ rs) [] h = absurd h
  length-Lines (a ∷ rs) (l ∷ ls) h = ap suc (length-Lines rs ls h.1)

  Lines-concat :
      (rs : List A) (ls : List Text) (a : A) (t : Text)
      → Lines rs ls
      → codec.encode a ≡ some t
      → Lines (rs ++ a ∷ []) (ls ++ (t ++ newline) ∷ [])
  Lines-concat [] [] a t h e = ((t, e, refl), tt)
  Lines-concat [] (l ∷ ls) a t h e = absurd h
  Lines-concat (b ∷ rs) [] a t h e = absurd h
  Lines-concat (b ∷ rs) (l ∷ ls) a t h e = (h.0, Lines-concat rs ls a t h.1 e)

  -- Appends until the first error; `env i` is the system during the append `i`.
  unfoldable pub append_all : (ℕ → Env) → ℕ → Spool → List A → Spool × Option SpoolError
  append_all env i s [] = (s, none)
  append_all env i s (a ∷ rs) =
      after_append (λ s'. append_all env (i + 1) s' rs) (append codec (env i) s a)

  abbrev pub Encodable : List A → Type 0
  Encodable [] = Unit
  Encodable (a ∷ rs) = ((t : Text) × (codec.encode a ≡ some t)) × Encodable rs

  abbrev pub Ran : List A → Spool × Option SpoolError → Type 0
  Ran rs (s, none) = (ls : List Text) × Lines rs ls × Stores s ls []
  Ran rs (s, some e) = Unit

  pub append_all-Ran :
      (env : ℕ → Env) (i : ℕ) (s : Spool) (before rs : List A) (ls : List Text)
      → Encodable rs
      → Lines before ls
      → Stores s ls []
      → Ran (before ++ rs) (append_all env i s rs)
  unfolding append_all
  append_all-Ran env i s before [] ls n h v = rw (append-nil before) (ls, h, v)
  append_all-Ran env i s before (a ∷ rs) ls ((t, e), n) h v =
      go (append codec (env i) s a) (append-Appended codec (env i) s ls a t e v) (λ s' w.
        append_all-Ran env (i + 1) s' (before ++ a ∷ []) rs (ls ++ (t ++ newline) ∷ []) n
          (Lines-concat before ls a t h e) w)
    where
      go :
          (q : Spool × Option SpoolError)
          → Appended ls (t ++ newline) q
          → ((s' : Spool)
              → Stores s' (ls ++ (t ++ newline) ∷ []) []
              → Ran ((before ++ a ∷ []) ++ rs) (append_all env (i + 1) s' rs))
          → Ran (before ++ a ∷ rs) (after_append (λ s'. append_all env (i + 1) s' rs) q)
      go (s', some err) w later = tt
      go (s', none) w later = rw (append_assoc before (a ∷ []) rs) at (later s' w)

  module _ {S : Type 0} (fn : S → A → Visit S) where
    -- What a pass is to do: call the consumer on each record in order, until it fails.
    abbrev pub visit_all : List A → S → S × Option SpoolError
    visit_all [] st = (st, none)
    visit_all (a ∷ rs) st = elim (fn st a) [
      | stops st' ↦ (st', some consumer_failed)
      | goes_on st' ↦ visit_all rs st'
    ]

    module _ (norm : A → A) (law : IsStream codec norm) where
      -- One record in front is handed to the consumer, and the pass goes on behind it.
      abbrev hand_on : Visit S → (S → S × Option SpoolError) → S × Option SpoolError
      hand_on v next = elim v [ stops st' ↦ (st', some consumer_failed) | goes_on st' ↦ next st' ]

      visit_memory-all :
          (i : ℕ) (rs : List A) (ls : List Text) (st : S)
          → Lines rs ls
          → visit_memory codec fn i ls st ≡ visit_all (map norm rs) st
      unfolding visit_memory
      visit_memory-all i [] [] st h = refl
      visit_memory-all i [] (l ∷ ls) st h = absurd h
      visit_memory-all i (a ∷ rs) [] st h = absurd h
      visit_memory-all i (a ∷ rs) (l ∷ ls) st ((t, e, p), h) =
          rw (p, law.unmarshal_line a t e, visit_memory)
            (ap (hand_on (fn st (norm a))) (fun_ext (λ st'. visit_memory-all (i + 1) rs ls st' h)))

      abbrev Reads : Text → Text → Type 0
      Reads c d = (codec.decode c ≡ codec.decode d) × (codec.decode_raw c ≡ codec.decode_raw d)

      -- What the end of a pass over a file makes of the bytes behind the records.
      abbrev pub behind : Text → S × Option SpoolError → S × Option SpoolError
      behind junk (st, some e) = (st, some e)
      behind junk (st, none) = visit_tail codec fn junk st

      behind-hand_on :
          (junk : Text) (v : Visit S) (next : S → S × Option SpoolError)
          → behind junk (hand_on v next) ≡ hand_on v (λ st. behind junk (next st))
      behind-hand_on junk (goes_on st) next = refl
      behind-hand_on junk (stops st) next = refl

      visit_file-all :
          (i : ℕ) (rs : List A) (ls : List Text) (junk content : Text) (st : S)
          → Lines rs ls
          → Reads content (concat ls ++ junk)
          → visit_file codec fn i (length rs) content st ≡ behind junk (visit_all (map norm rs) st)
      unfolding visit_file visit_tail
      visit_file-all i [] [] junk content st h r = rw (r.1, visit_tail)
      visit_file-all i [] (l ∷ ls) junk content st h r = absurd h
      visit_file-all i (a ∷ rs) [] junk content st h r = absurd h
      visit_file-all i (a ∷ rs) (l ∷ ls) junk content st ((t, e, p), h) r =
          rw (r.0, p, front, visit_file)
            (ap (hand_on (fn st (norm a)))
                (fun_ext (λ st'. visit_file-all (i + 1) rs ls junk _ st' h later))
              ∙ sym (behind-hand_on junk (fn st (norm a)) (visit_all (map norm rs))))
        where
          front :
              codec.decode (((t ++ newline) ++ concat ls) ++ junk)
              ≡ value (norm a) (b'\n' ∷ (concat ls ++ junk))
          front =
              rw
                (
                  append_assoc (t ++ newline) (concat ls) junk,
                  append_assoc t newline (concat ls ++ junk),
                )
                (law.decode_line a t (concat ls ++ junk) e)

          later : Reads (b'\n' ∷ (concat ls ++ junk)) (concat ls ++ junk)
          later = (law.decode_newline _, law.raw_newline _)

      behind-nil : (p : S × Option SpoolError) → behind [] p ≡ p
      unfolding visit_tail
      behind-nil (st, some e) = refl
      behind-nil (st, none) = rw (law.raw_nil, visit_tail)

      -- A pass calls the consumer on each stored record as its JSON text is read back, in order, until it
      -- fails. Bytes that a failed write left behind the records show at the end of the pass only.
      pub for_each-visit_all :
          (s : Spool) (rs : List A) (ls : List Text) (junk : Text) (st : S)
          → Lines rs ls
          → Stores s ls junk
          → for_each codec fn s st ≡ behind junk (visit_all (map norm rs) st)
      unfolding for_each
      for_each-visit_all s rs ls junk st h v = go v.holds
        where
          go : Holds s ls junk → for_each codec fn s st ≡ behind junk (visit_all (map norm rs) st)
          go (resident f m b j) =
              rw (v.is_open, f, for_each, m, j)
                (visit_memory-all 0 rs ls st h ∙ sym (behind-nil (visit_all (map norm rs) st)))
          go (on_disk f m b) =
              rw (v.is_open, f, for_each, v.counted, length-Lines rs ls h)
                (visit_file-all 0 rs ls junk _ st h (refl, refl))

      -- Whatever the system does: if a run of appends to a new spool reports no error, then a pass
      -- over the spool calls the consumer on exactly these records, each as its JSON text is read
      -- back, in their order, `Len` is their number, and no more than the allowed records and bytes are in
      -- memory.
      pub for_each-append_all :
          (env : ℕ → Env) (rs : List A) (s : Spool) (st : S)
          → Encodable rs
          → append_all env 0 empty rs ≡ (s, none)
          → (for_each codec fn s st ≡ visit_all (map norm rs) st)
            × (s.count ≡ length rs)
            × (length s.memory ≤ memory_records)
            × (s.bytes ≤ memory_bytes)
      for_each-append_all env rs s st n e =
          let (ls, h, v) =
            subst (Ran rs) e (append_all-Ran env 0 empty [] rs [] n tt empty-Stores) in
          (
            for_each-visit_all s rs ls [] st h v ∙ behind-nil (visit_all (map norm rs) st),
            v.counted ∙ length-Lines rs ls h,
            v.few,
            v.small,
          )
