-- ===== src/MutantSpool.antt =====
-- internal/mutantspool/spool.go: the reader of a spool of mutations. `Append`, its spill and `Close` are
-- those of the result spool, statement for statement.
pub mod Reading
mod Tests
use mutation_judge.Base.{
  ℕ, zero, suc, ◌+◌, Bool, true, false, List, [], Option, none, some, Text, get_elem?,
  if◌then◌else◌,
}
use mutation_judge.Spool.{Spool}
use mutation_judge.Spool.Json.{Codec, eof, bad, value}

-- `file` is what the decoder has not read yet.
pub record Reader : Type 0 where
  pub file : Option Text
  pub memory : List Text
  pub index : ℕ
  pub remaining : ℕ
  pub closed : Bool

-- `ended` is io.EOF; `panics` is an index outside of the memory.
pub data Next (A : Type 0) : Type 0 where
  read : A → Next A
  ended reader_closed record_failed extra_record tail_failed panics : Next A

-- Where the temporary file can be opened.
unfoldable pub reader : Spool → Option Reader
reader s =
    if s.closed
    then none
    else some (record {
      file = s.file;
      memory = if_resident s.file s.memory;
      index = 0;
      remaining = s.count;
      closed = false;
    })
  where
    if_resident : Option Text → List Text → List Text
    if_resident none m = m
    if_resident (some f) m = []

module _ {A : Type 0} (codec : Codec A) where
  unfoldable pub at_end : Reader → Reader × Next A
  at_end r = elim r.file [
    | none ↦ (r, ended)
    | some content ↦ elim (codec.decode_raw content) [
      | eof ↦ (r, ended)
      | bad ↦ (r, tail_failed)
      | value t rest ↦ (record r { file = some rest }, extra_record)
    ]
  ]

  -- With `n` records to come behind the next one.
  unfoldable pub next_record : ℕ → Reader → Reader × Next A
  next_record n r = elim r.file [
    | none ↦ elim (get_elem? r.memory r.index) [
      | none ↦ (r, panics)
      | some line ↦ elim (codec.unmarshal line) [
        | none ↦ (r, record_failed)
        | some m ↦ (record r { index = r.index + 1; remaining = n }, read m)
      ]
    ]
    | some content ↦ elim (codec.decode content) [
      | eof ↦ (r, record_failed)
      | bad ↦ (r, record_failed)
      | value m rest ↦ (record r { file = some rest; remaining = n }, read m)
    ]
  ]

  unfoldable pub next : Reader → Reader × Next A
  unfolding at_end next_record
  next r =
      if r.closed
      then (r, reader_closed)
      else elim r.remaining [ zero ↦ at_end r | suc n ↦ next_record n r ]

unfoldable pub close : Reader → Reader
close r = if r.closed then r else record r { closed = true; memory = []; file = none }
