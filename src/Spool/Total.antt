-- ===== src/Spool/Total.antt =====
-- Where every file operation succeeds, no append fails.
use mutation_judge.Base.{
  ℕ, ◌+◌, ◌≡◌, refl, true, false, ◌&&◌, List, [], ◌∷◌, ◌++◌, Option, none, some, Text, length, ltb,
  leb, arith, append-nil, append_assoc, Bool-cases, Option-cases, inl, inr,
}
use mutation_judge.Spool.Json.{Codec}
use mutation_judge.Spool.{
  Spool, SpoolError, Env, complete, newline, empty, append, append_encoded, append_spilled, spill,
  spill_records, write_record, written, memory_records, memory_bytes,
}
use mutation_judge.Spool.Contents.{concat, Stores, Appended, append-Appended, empty-Stores}
use mutation_judge.Spool.Pass.{append_all, Encodable, after_append}

abbrev pub fine : Env
fine = record { can_create = true; spilled = λ _. complete; appended = complete }

abbrev Succeeds : Spool × Option SpoolError → Type 0
Succeeds q = q.1 ≡ none

spill_records_fine :
    (i : ℕ) (content : Text) (ms : List Text)
    → spill_records (λ _. complete) i content ms ≡ some (content ++ concat ms)
unfolding spill_records
spill_records_fine i content [] = rw append-nil
spill_records_fine i content (m ∷ ms) =
    ground (arith, spill_records_fine (i + 1) (content ++ m) ms, append_assoc content m (concat ms))

spill-fine :
    (s : Spool)
    → spill fine s ≡ (record s { file = some (concat s.memory); memory = []; bytes = 0 }, none)
unfolding spill
spill-fine s = rw (spill_records_fine 0 [] s.memory, spill)

append_encoded-fine : (s : Spool) (line : Text) → Succeeds (append_encoded fine s line)
unfolding append_encoded write_record written append_spilled
append_encoded-fine s line =
    elim (Bool-cases
      (ltb (length s.memory) memory_records && leb (s.bytes + length line) memory_bytes)) [
        | inl fits ↦ rw fits
        | inr full ↦ rw (full, spill-fine s)
      ]

module _ {A : Type 0} (codec : Codec A) where
  append-fine :
      (s : Spool) (a : A) (t : Text)
      → s.closed ≡ false
      → codec.encode a ≡ some t
      → Succeeds (append codec fine s a)
  unfolding append write_record written
  append-fine s a t o e = elim (Option-cases s.file) [
    | inl f ↦ rw (o, f, e, append) (append_encoded-fine s (t ++ newline))
    | inr (content, f) ↦ rw (o, f, e, append)
  ]

  append_all-fine :
      (i : ℕ) (s : Spool) (ls : List Text) (rs : List A)
      → Encodable codec rs
      → Stores s ls []
      → Succeeds (append_all codec (λ _. fine) i s rs)
  unfolding append_all
  append_all-fine i s ls [] n v = refl
  append_all-fine i s ls (a ∷ rs) ((t, e), n) v =
      go (append codec fine s a) (append-Appended codec fine s ls a t e v)
        (append-fine s a t v.is_open e)
        (λ s' w. append_all-fine (i + 1) s' (ls ++ (t ++ newline) ∷ []) rs n w)
    where
      go :
          (q : Spool × Option SpoolError)
          → Appended ls (t ++ newline) q
          → Succeeds q
          → ((s' : Spool)
              → Stores s' (ls ++ (t ++ newline) ∷ []) []
              → Succeeds (append_all codec (λ _. fine) (i + 1) s' rs))
          → Succeeds (after_append (λ s'. append_all codec (λ _. fine) (i + 1) s' rs) q)
      go (s', some err) w ok later = ok
      go (s', none) w ok later = later s' w

  -- Where every file operation succeeds, a run of appends of records that have a JSON text, to a
  -- new spool, reports no error.
  pub append_all-none :
      (rs : List A) → Encodable codec rs → (append_all codec (λ _. fine) 0 empty rs).1 ≡ none
  append_all-none rs n = append_all-fine 0 empty [] rs n empty-Stores
