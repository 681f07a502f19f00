-- ===== src/MutantSpool/Tests.antt =====
-- A spool of two records, read to its end.
use mutation_judge.Base.{
  ℕ, ◌+◌, ◌-◌, ◌≡◌, refl, false, [], ◌∷◌, Option, none, some, Text, ltb, ◌==◌, if◌then◌else◌, arith,
}
use mutation_judge.Spool.{Spool, newline, empty, append}
use mutation_judge.Spool.Json.{Codec, Decoded, eof, bad, value, IsStream}
use mutation_judge.Spool.Pass.{append_all}
use mutation_judge.Spool.Total.{fine}
use mutation_judge.MutantSpool.{Reader, reader}
use mutation_judge.MutantSpool.Reading.{Gives, reader-append_all}

-- One byte for a number, above the newline.
decode_number : Text → Decoded ℕ
decode_number [] = eof
decode_number (c ∷ s) =
    let rest = decode_number s in
    if c == b'\n' then rest else if ltb c 11 then bad else value (c - 11) s

decode_byte : Text → Decoded Text
decode_byte [] = eof
decode_byte (c ∷ s) =
    let rest = decode_byte s in
    if c == b'\n' then rest else if ltb c 11 then bad else value (c ∷ []) s

first_byte : Text → Option ℕ
first_byte [] = none
first_byte (c ∷ s) = some (c - 11)

abbrev number_codec : Codec ℕ
number_codec = record {
  encode = λ n. some ((n + 11) ∷ []);
  unmarshal = first_byte;
  decode = decode_number;
  decode_raw = decode_byte;
}

number_codec-IsStream : IsStream number_codec (λ a. a)
unfolding decode_number decode_byte first_byte
number_codec-IsStream = record {
  unmarshal_line = λ n t e. ground arith;
  raw_nil = refl;
  raw_newline = λ s. refl;
  decode_newline = λ s. refl;
  decode_line = λ n t s e. ground arith;
}

abbrev two : Spool
two = record {
  file = none;
  memory = (16 ∷ newline) ∷ (17 ∷ newline) ∷ [];
  bytes = 4;
  count = 2;
  closed = false;
}

two_appended : append_all number_codec (λ _. fine) 0 empty (5 ∷ 6 ∷ []) ≡ (two, none)
unfolding append_all append
two_appended = refl

reader-append_all_example : (r : Reader) × (reader two ≡ some r) × Gives number_codec r (5 ∷ 6 ∷ [])
reader-append_all_example =
    reader-append_all number_codec number_codec-IsStream (λ _. fine) (5 ∷ 6 ∷ []) two
      ((16 ∷ [], refl), ((17 ∷ [], refl), tt)) two_appended
