-- ===== src/Spool/Contents.antt =====
-- The list of records that a spool stands for, and `Append` against it.
use mutation_judge.Base.{
  ℕ, ◌+◌, ◌≤◌, ◌≡◌, ◌⊎◌, inl, inr, refl, sym, ap, false, ◌&&◌, List, [], ◌∷◌, ◌++◌, Option, none,
  some, Text, length, length-append, ltb, leb, arith, append-nil, append_assoc, Bool-cases, take,
}
use mutation_judge.Spool.Json.{Codec}
use mutation_judge.Spool.{
  Spool, SpoolError, Written, complete, partial, Env, newline, memory_bytes, memory_records, empty,
  create_failed, spill_failed, append, append_encoded, append_spilled, spill, spill_records,
  write_record, written,
}

abbrev pub concat : List Text → Text
concat [] = []
concat (m ∷ ms) = m ++ concat ms

concat-append : (ms ns : List Text) → concat (ms ++ ns) ≡ concat ms ++ concat ns
concat-append [] ns = refl
concat-append (m ∷ ms) ns = rw (concat-append ms ns) (sym (append_assoc m (concat ms) (concat ns)))

-- Where the encoded lines are: in memory, with the bytes counted, or at the head of the file, with
-- `junk` behind them.
pub data Holds (s : Spool) (ls : List Text) (junk : Text) : Type 0 where
  resident :
      s.file ≡ none → s.memory ≡ ls → s.bytes ≡ length (concat ls) → junk ≡ [] → Holds s ls junk
  on_disk : s.file ≡ some (concat ls ++ junk) → s.memory ≡ [] → s.bytes ≡ 0 → Holds s ls junk

-- A spool that is open, holds these lines, counts them, and keeps to its memory limits.
pub record Stores (s : Spool) (ls : List Text) (junk : Text) : Type 0 where
  pub holds : Holds s ls junk
  pub counted : s.count ≡ length ls
  pub is_open : s.closed ≡ false
  pub few : length s.memory ≤ memory_records
  pub small : s.bytes ≤ memory_bytes

pub empty-Stores : Stores empty [] []
empty-Stores = record {
  holds = resident refl refl refl refl;
  counted = refl;
  is_open = refl;
  few = omega arith;
  small = omega arith;
}

-- What an append of one line leaves: the line behind the others, or an error and the others alone.
abbrev pub Appended : List Text → Text → Spool × Option SpoolError → Type 0
Appended ls line (s', none) = Stores s' (ls ++ line ∷ []) []
Appended ls line (s', some e) = (junk : Text) × Stores s' ls junk

-- A spill that succeeds has written every record, in order.
spill_records-concat :
    (outcome : ℕ → Written) (i : ℕ) (content : Text) (ms : List Text)
    → (spill_records outcome i content ms ≡ none)
      ⊎ (spill_records outcome i content ms ≡ some (content ++ concat ms))
unfolding spill_records
spill_records-concat outcome i content [] = inr (rw append-nil)
spill_records-concat outcome i content (m ∷ ms) = ground (
  arith,
  spill_records-concat outcome (i + 1) (content ++ m) ms,
  append_assoc content m (concat ms),
)

-- A spill leaves the spool as it was and fails, or moves every record to the file.
spill_cases :
    (env : Env) (s : Spool)
    → ((e : SpoolError) × (spill env s ≡ (s, some e)))
      ⊎ (spill env s ≡ (record s { file = some (concat s.memory); memory = []; bytes = 0 }, none))
unfolding spill
spill_cases env s = elim (Bool-cases env.can_create) [
  | inl can ↦ elim (spill_records-concat env.spilled 0 [] s.memory) [
    | inl e ↦ inl (spill_failed, rw (can, e, spill))
    | inr e ↦ inr (rw (can, e, spill))
  ]
  | inr cannot ↦ inl (create_failed, rw cannot)
]

module _ (env : Env) (ls : List Text) (line : Text) where
  write_record-Appended :
      (s : Spool)
      → s.memory ≡ []
      → s.bytes ≡ 0
      → s.count ≡ length ls
      → s.closed ≡ false
      → (w : Written) → env.appended ≡ w
      → Appended ls line (write_record env s (concat ls) line)
  unfolding write_record written
  write_record-Appended s m b c o complete e = rw e (record {
    holds =
        on_disk
          (rw (concat-append ls (line ∷ []))
            (ground (arith, append-nil line, append-nil (concat ls ++ line))))
          m b;
    counted = omega (arith, length-append ls (line ∷ []));
    is_open = o;
    few = omega (arith, ap length m);
    small = omega arith;
  })
  write_record-Appended s m b c o (partial n) e = rw e (
    take n line,
    record {
      holds = on_disk refl m b;
      counted = c;
      is_open = o;
      few = omega (arith, ap length m);
      small = omega arith;
    },
  )

  append_spilled-Appended :
      (s : Spool)
      → Stores s ls []
      → s.memory ≡ ls
      → (q : Spool × Option SpoolError)
      → ((e : SpoolError) × (q ≡ (s, some e)))
        ⊎ (q ≡ (record s { file = some (concat s.memory); memory = []; bytes = 0 }, none))
      → Appended ls line (append_spilled env line q)
  unfolding append_spilled
  append_spilled-Appended s v m q (inl (e, failed)) = rw failed ([], v)
  append_spilled-Appended s v m q (inr moved) =
      rw (moved, m)
        (write_record-Appended (record s { file = some (concat ls); memory = []; bytes = 0 }) refl
          refl v.counted v.is_open env.appended refl)

  -- In memory: the line is kept where it fits, and otherwise everything is spilled first.
  append_encoded-Appended :
      (s : Spool)
      → Stores s ls []
      → s.file ≡ none
      → s.memory ≡ ls
      → s.bytes ≡ length (concat ls)
      → Appended ls line (append_encoded env s line)
  unfolding append_encoded
  append_encoded-Appended s v f m b =
      elim (Bool-cases
        (ltb (length s.memory) memory_records && leb (s.bytes + length line) memory_bytes)) [
          | inl fits ↦ rw fits (record {
            holds =
                resident f (ap (λ ms. ms ++ line ∷ []) m)
                  (omega (
                    arith,
                    ap length (concat-append ls (line ∷ [])),
                    ap length (append-nil line),
                    length-append (concat ls) (line ++ []),
                  ))
                  refl;
            counted = omega (arith, v.counted, length-append ls (line ∷ []));
            is_open = v.is_open;
            few = ground (arith, length-append s.memory (line ∷ []));
            small = ground arith;
          })
          | inr full ↦ rw full (append_spilled-Appended s v m (spill env s) (spill_cases env s))
        ]

-- `Append` of a value with a JSON text puts its line behind the others; where it fails, the lines
-- stay as they were, and bytes of a failed write may lie behind them.
pub append-Appended :
    {A : Type 0} (codec : Codec A) (env : Env) (s : Spool) (ls : List Text) (a : A) (t : Text)
    → codec.encode a ≡ some t
    → Stores s ls []
    → Appended ls (t ++ newline) (append codec env s a)
unfolding append
append-Appended codec env s ls a t h v = go v.holds
  where
    go : Holds s ls [] → Appended ls (t ++ newline) (append codec env s a)
    go (resident f m b _) =
        rw (v.is_open, f, h, append) (append_encoded-Appended env ls (t ++ newline) s v f m b)
    go (on_disk f m b) =
        rw (v.is_open, f, h, append, append-nil (concat ls))
          (write_record-Appended env ls (t ++ newline) s m b v.counted v.is_open env.appended refl)
