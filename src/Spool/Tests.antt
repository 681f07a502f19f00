-- ===== src/Spool/Tests.antt =====
-- A codec that meets the assumptions on JSON, of values that do not all come back as they were, and the
-- theorems about spools at it.
use mutation_judge.Base.{
  ℕ, ◌+◌, ◌-◌, ◌≤◌, ◌≡◌, refl, false, List, [], ◌∷◌, ◌++◌, Option, none, some, Text, length, ltb,
  ◌==◌, if◌then◌else◌, arith,
}
use mutation_judge.Spool.Json.{Codec, Decoded, eof, bad, value, IsStream}
use mutation_judge.Spool.{
  Spool, Visit, goes_on, newline, empty, append, for_each, memory_records, memory_bytes, close,
  closed_spool,
}
use mutation_judge.Spool.Contents.{Appended, append-Appended, empty-Stores, on_disk}
use mutation_judge.Spool.Pass.{
  visit_all, behind, append_all, for_each-visit_all, for_each-append_all,
}
use mutation_judge.Spool.Total.{fine, append_all-none}

-- What an `any` holds: an int, or a float64.
data Field : Type 0 where
  whole real : ℕ → Field

-- Each number comes back as a float64.
abbrev as_read : Field → Field
as_read (whole n) = real n
as_read (real n) = real n

-- One byte for a number, above the newline.
abbrev encode_field : Field → Option Text
encode_field (whole n) = some ((n + 11) ∷ [])
encode_field (real n) = some ((n + 11) ∷ [])

read : Text → Decoded Field
read [] = eof
read (c ∷ s) =
    let rest = read s in
    if c == b'\n' then rest else if ltb c 11 then bad else value (real (c - 11)) s

read_raw : Text → Decoded Text
read_raw [] = eof
read_raw (c ∷ s) =
    let rest = read_raw s in if c == b'\n' then rest else if ltb c 11 then bad else value (c ∷ []) s

read_line : Text → Option Field
read_line [] = none
read_line (c ∷ s) = some (real (c - 11))

abbrev byte_codec : Codec Field
byte_codec = record {
  encode = encode_field;
  unmarshal = read_line;
  decode = read;
  decode_raw = read_raw;
}

unmarshal_field :
    (a : Field) (t : Text) → encode_field a ≡ some t → read_line (t ++ newline) ≡ some (as_read a)
unfolding read_line
unmarshal_field (whole n) t e = ground arith
unmarshal_field (real n) t e = ground arith

decode_field :
    (a : Field) (t s : Text)
    → encode_field a ≡ some t
    → read (t ++ b'\n' ∷ s) ≡ value (as_read a) (b'\n' ∷ s)
unfolding read
decode_field (whole n) t s e = ground arith
decode_field (real n) t s e = ground arith

byte_codec-IsStream : IsStream byte_codec as_read
unfolding read read_raw
byte_codec-IsStream = record {
  unmarshal_line = unmarshal_field;
  raw_nil = refl;
  raw_newline = λ s. refl;
  decode_newline = λ s. refl;
  decode_line = decode_field;
}

-- A consumer that collects the records.
abbrev collect : List Field → Field → Visit (List Field)
collect seen n = goes_on (seen ++ n ∷ [])

-- The first record is kept in memory, with two bytes.
abbrev one : Spool
one = record { file = none; memory = (16 ∷ newline) ∷ []; bytes = 2; count = 1; closed = false }

append-one : append byte_codec fine empty (whole 5) ≡ (one, none)
unfolding append
append-one = refl

closed_append : append byte_codec fine (close one) (whole 5) ≡ (close one, some closed_spool)
unfolding append close
closed_append = refl

append-Appended_example : Appended [] (16 ∷ newline) (append byte_codec fine empty (whole 5))
append-Appended_example =
    append-Appended byte_codec fine empty [] (whole 5) (16 ∷ []) refl empty-Stores

-- Two records on disk, and one byte that a failed write left.
abbrev broken : Spool
broken = record {
  file = some (16 ∷ b'\n' ∷ 17 ∷ b'\n' ∷ 1 ∷ []);
  memory = [];
  bytes = 0;
  count = 2;
  closed = false;
}

for_each-visit_all_example :
    for_each byte_codec collect broken []
    ≡ behind byte_codec collect as_read byte_codec-IsStream
        (1 ∷ [])
        (visit_all byte_codec collect (real 5 ∷ real 6 ∷ []) [])
for_each-visit_all_example =
    for_each-visit_all byte_codec collect as_read byte_codec-IsStream broken (whole 5 ∷ real 6 ∷ [])
      ((16 ∷ newline) ∷ (17 ∷ newline) ∷ []) (1 ∷ []) []
      ((16 ∷ [], refl, refl), ((17 ∷ [], refl, refl), tt))
      (record {
        holds = on_disk refl refl refl;
        counted = refl;
        is_open = refl;
        few = omega arith;
        small = omega arith;
      })

for_each-append_all_example :
    (for_each byte_codec collect one [] ≡ visit_all byte_codec collect (real 5 ∷ []) [])
    × (one.count ≡ 1)
    × (length one.memory ≤ memory_records)
    × (one.bytes ≤ memory_bytes)
unfolding append_all append
for_each-append_all_example =
    for_each-append_all byte_codec collect as_read byte_codec-IsStream (λ _. fine) (whole 5 ∷ [])
      one [] ((16 ∷ [], refl), tt) refl

append_all-none_example :
    (append_all byte_codec (λ _. fine) 0 empty (whole 5 ∷ real 6 ∷ [])).1 ≡ none
append_all-none_example =
    append_all-none byte_codec (whole 5 ∷ real 6 ∷ []) ((16 ∷ [], refl), ((17 ∷ [], refl), tt))
