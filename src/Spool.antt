-- ===== src/Spool.antt =====
-- internal/resultspool/spool.go: a stream of records that stays in memory while it is small and
-- moves to a temporary file when it grows. The methods are those of a non-nil receiver.
pub mod Json
pub mod Contents
pub mod Pass
pub mod Total
mod Tests
use mutation_judge.Base.{
  ℕ, zero, suc, ◌+◌, Bool, true, false, ◌&&◌, List, [], ◌∷◌, ◌++◌, Option, none, some, Text, length,
  take, ltb, leb, if◌then◌else◌,
}
use Json.{Codec, Decoded, eof, bad, value}

-- 256 << 10
abbrev pub memory_bytes : ℕ
memory_bytes = 262144

abbrev pub memory_records : ℕ
memory_records = 64

-- `file` is what the temporary file holds.
pub record Spool : Type 0 where
  pub file : Option Text
  pub memory : List Text
  pub bytes : ℕ
  pub count : ℕ
  pub closed : Bool

abbrev pub empty : Spool
empty = record { file = none; memory = []; bytes = 0; count = 0; closed = false }

pub data SpoolError : Type 0 where
  closed_spool create_failed spill_failed write_failed encode_failed : SpoolError
  read_failed : ℕ → SpoolError
  extra_record bad_tail consumer_failed : SpoolError

-- What one write to a file comes to: all of it, or an error after some bytes.
pub data Written : Type 0 where
  complete : Written
  partial : ℕ → Written

-- What the operating system does during one call of `Append`.
pub record Env : Type 0 where
  pub can_create : Bool
  pub spilled : ℕ → Written
  pub appended : Written

abbrev pub newline : Text
newline = b'\n' ∷ []

-- The file after a write, and whether the write succeeded.
unfoldable pub written : Text → Text → Written → Text × Bool
written content added complete = (content ++ added, true)
written content added (partial n) = (content ++ take n added, false)

-- The loop of `spill`; `none` is the first failed write.
unfoldable pub spill_records : (ℕ → Written) → ℕ → Text → List Text → Option Text
spill_records outcome i content [] = some content
spill_records outcome i content (m ∷ ms) =
    let rest = spill_records outcome (i + 1) (content ++ m) ms in
    elim (outcome i) [ complete ↦ rest | partial n ↦ none ]

-- On an error the spool is as it was: the new file is removed.
unfoldable pub spill : Env → Spool → Spool × Option SpoolError
unfolding spill_records
spill env s =
    if env.can_create
    then elim (spill_records env.spilled 0 [] s.memory) [
      | none ↦ (s, some spill_failed)
      | some content ↦ (record s { file = some content; memory = []; bytes = 0 }, none)
    ]
    else (s, some create_failed)

-- A write of one record to the file, counted if it succeeds.
unfoldable pub write_record : Env → Spool → Text → Text → Spool × Option SpoolError
unfolding written
write_record env s content record_text =
    let (after, success) = written content record_text env.appended in
    if success
    then (record s { file = some after; count = s.count + 1 }, none)
    else (record s { file = some after }, some write_failed)

-- `Append` behind the spill: an error is passed on, and the record goes to the new file.
unfoldable pub append_spilled : Env → Text → Spool × Option SpoolError → Spool × Option SpoolError
unfolding write_record
append_spilled env line (s, some e) = (s, some e)
append_spilled env line (s, none) = elim s.file [
  | none ↦ (s, some create_failed)
  | some content ↦ write_record env s content line
]

-- `Append` once the record is encoded and no file is open.
unfoldable pub append_encoded : Env → Spool → Text → Spool × Option SpoolError
unfolding spill append_spilled
append_encoded env s line =
    if ltb (length s.memory) memory_records && leb (s.bytes + length line) memory_bytes
    then (
      record s {
        memory = s.memory ++ line ∷ [];
        bytes = s.bytes + length line;
        count = s.count + 1;
      },
      none,
    )
    else append_spilled env line (spill env s)

-- A consumer of records: it goes on from a new state, or stops with an error.
pub data Visit {ℓ} (S : Type ℓ) : Type ℓ where
  goes_on stops : S → Visit S

module _ {A : Type 0} (codec : Codec A) where
  unfoldable pub append : Env → Spool → A → Spool × Option SpoolError
  unfolding append_encoded write_record
  append env s r = if s.closed then (s, some closed_spool) else elim s.file [
    | some content ↦ elim (codec.encode r) [
      | none ↦ (s, some write_failed)
      | some t ↦ write_record env s content (t ++ newline)
    ]
    | none ↦ elim (codec.encode r) [
      | none ↦ (s, some encode_failed)
      | some t ↦ append_encoded env s (t ++ newline)
    ]
  ]

  module _ {S : Type 0} (fn : S → A → Visit S) where
    -- The pass over the records in memory.
    unfoldable pub visit_memory : ℕ → List Text → S → S × Option SpoolError
    visit_memory i [] st = (st, none)
    visit_memory i (m ∷ ms) st = elim (codec.unmarshal m) [
      | none ↦ (st, some (read_failed i))
      | some r ↦ elim (fn st r) [
        | stops st' ↦ (st', some consumer_failed)
        | goes_on st' ↦ visit_memory (i + 1) ms st'
      ]
    ]

    -- What follows the last record of the file.
    unfoldable pub visit_tail : Text → S → S × Option SpoolError
    visit_tail content st = elim (codec.decode_raw content) [
      | eof ↦ (st, none)
      | bad ↦ (st, some bad_tail)
      | value r rest ↦ (st, some extra_record)
    ]

    -- The pass over the file: `left` records are to come.
    unfoldable pub visit_file : ℕ → ℕ → Text → S → S × Option SpoolError
    unfolding visit_tail
    visit_file i zero content st = visit_tail content st
    visit_file i (suc left) content st = elim (codec.decode content) [
      | eof ↦ (st, some (read_failed i))
      | bad ↦ (st, some (read_failed i))
      | value r rest ↦ elim (fn st r) [
        | stops st' ↦ (st', some consumer_failed)
        | goes_on st' ↦ visit_file (i + 1) left rest st'
      ]
    ]

    unfoldable pub for_each : Spool → S → S × Option SpoolError
    unfolding visit_memory visit_file
    for_each s st = if s.closed then (st, some closed_spool) else elim s.file [
      | none ↦ visit_memory 0 s.memory st
      | some content ↦ visit_file 0 s.count content st
    ]

-- `Close`, where the file can be closed and removed.
unfoldable pub close : Spool → Spool
close s = if s.closed then s else record s { closed = true; memory = []; bytes = 0; file = none }
