-- ===== src/Runner/Stream/Tests.antt =====
-- Two events in three calls of `Write`, and a limit that is met.
use mutation_judge.Base.{
  ◌≡◌, refl, Bool, false, List, [], ◌∷◌, map, Option, none, some, Text, text_eq, codes, arith, All,
  if◌then◌else◌,
}
use mutation_judge.Base.Trim.{cut_space, skip_space}
use mutation_judge.Model.{killed}
use mutation_judge.Runner.{run, fail, TestEvent, member, failed_pkg_tests, classify_events}
use mutation_judge.Runner.Stream.{Stream, new_stream, write, write_from, finish, classify, name_of}
use mutation_judge.Runner.Stream.Chunks.{write_all, joined, write_all-joined, IsBounded}
use mutation_judge.Runner.Stream.Lines.{events_in, IsLine}
use mutation_judge.Runner.Twin.{IsClean}
use mutation_judge.Runner.Stream.Limits.{InLimits, write_all-InLimits}
use mutation_judge.Runner.Stream.Whole.{classify-write_all}

-- A decoder of two words.
abbrev decode_word : Text → Option TestEvent
decode_word l =
    if text_eq l (codes "run")
    then some (record { action = run; pkg = codes "m"; test = codes "TestA"; output = [] })
    else if text_eq l (codes "fail")
    then some (record { action = fail; pkg = codes "m"; test = codes "TestA"; output = [] })
    else none

abbrev no_match : Text → Bool
no_match s = false

abbrev calls : List Text
calls = codes "ru" ∷ codes "n\nfa" ∷ codes "il\n" ∷ []

abbrev words : List Text
words = codes "run" ∷ codes "fail" ∷ []

abbrev read_calls : Stream
read_calls = finish (write_all no_match no_match decode_word new_stream calls)

write_all-joined_example :
    (write_all no_match no_match decode_word new_stream calls
      ≡ write no_match no_match decode_word new_stream (joined calls))
    × IsBounded (write_all no_match no_match decode_word new_stream calls)
write_all-joined_example =
    write_all-joined no_match no_match decode_word new_stream calls (omega arith)

quiet : read_calls.incomplete ≡ false
unfolding finish write_from cut_space skip_space text_eq
quiet = refl

words-IsLine : All IsLine words
words-IsLine = ((refl, (refl, (refl, tt))), ((refl, (refl, (refl, (refl, tt)))), tt))

words-IsClean : All IsClean (events_in decode_word words)
unfolding cut_space skip_space text_eq
words-IsClean = ((refl, tt), ((refl, tt), tt))

classify-write_all_example :
    ((classify read_calls).0 ≡ (classify_events no_match (events_in decode_word words)).0)
    × ((t : Text)
        → member t (classify read_calls).1
          ≡ member t (map name_of (failed_pkg_tests (events_in decode_word words))))
classify-write_all_example =
    classify-write_all no_match no_match decode_word calls words refl words-IsLine words-IsClean
      quiet

calls_verdict : classify read_calls ≡ (killed, codes "TestA" ∷ [])
unfolding finish write_from classify cut_space skip_space text_eq
calls_verdict = refl

write_all-InLimits_example : InLimits (write_all no_match no_match decode_word new_stream calls)
write_all-InLimits_example = write_all-InLimits no_match no_match decode_word calls
