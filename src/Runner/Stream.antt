-- ===== src/Runner/Stream.antt =====
-- internal/runner/stream.go: the output of `go test -json`, read as it comes, within fixed limits.
pub mod Chunks
pub mod Names
pub mod Observed
pub mod Lines
pub mod Whole
pub mod Limits
mod Tests
use mutation_judge.Base.{
  ℕ, ◌+◌, ◌-◌, ◌%◌, ◌^◌, Bool, true, false, not, ◌&&◌, ◌||◌, List, [], ◌∷◌, ◌++◌, map, Option, none,
  some, Text, text_lt, length, take, ltb, leb, ◌==◌, if◌then◌else◌,
}
use mutation_judge.Base.Trim.{trim_space}
use mutation_judge.Base.Sort.{sort}
use mutation_judge.Model.{Verdict, killed, invalid, unknown}
use mutation_judge.Runner.{
  Action, run, pass, skip, fail, output, another, TestEvent, is_empty, key, delete, member, insert,
  behind_zero, insert_all, some_not_in,
}

abbrev pub max_json_event_bytes : ℕ
max_json_event_bytes = 262144

abbrev pub max_output_bytes : ℕ
max_output_bytes = 65536

abbrev pub max_evidence_bytes : ℕ
max_evidence_bytes = 262144

abbrev pub max_evidence_events : ℕ
max_evidence_events = 4096

abbrev pub max_tracked_tests : ℕ
max_tracked_tests = 8192

abbrev pub max_identity_bytes : ℕ
max_identity_bytes = 512

-- `total` is a `uint64`.
pub record BoundedText : Type 0 where
  pub bytes : Text
  pub total : ℕ
  pub limit : ℕ

unfoldable pub write_text : BoundedText → Text → BoundedText
write_text b p = record b {
  bytes =
      if ltb (length b.bytes) b.limit
      then b.bytes ++ take (b.limit - length b.bytes) p
      else b.bytes;
  total = (b.total + length p) % 2 ^ 64;
}

abbrev pub truncated : BoundedText → Bool
truncated b = ltb b.limit b.total

-- `jsonEventStream`
pub record Stream : Type 0 where
  pub line : Text
  pub dropping : Bool
  pub incomplete : Bool
  pub event_count : ℕ
  pub display : BoundedText
  pub evidence : List TestEvent
  pub evidence_bytes : ℕ
  pub evidence_truncated : Bool
  pub timeout_header : Bool
  pub started : List Text
  pub failed : List Text
  pub pkg_ran : List Text
  pub pkg_build_failed : List Text

abbrev pub new_stream : Stream
new_stream = record {
  line = [];
  dropping = false;
  incomplete = false;
  event_count = 0;
  display = record { bytes = []; total = 0; limit = max_output_bytes };
  evidence = [];
  evidence_bytes = 0;
  evidence_truncated = false;
  timeout_header = false;
  started = [];
  failed = [];
  pkg_ran = [];
  pkg_build_failed = [];
}

unfoldable pub accept_bytes : Stream → Text → Stream
accept_bytes s p =
    if s.dropping
    then s
    else if ltb max_json_event_bytes (length s.line + length p)
    then record s { dropping = true; incomplete = true; line = [] }
    else record s { line = s.line ++ p }

-- `track`: whether the key is in the map afterwards, and the map.
unfoldable pub can_track : Text → List Text → Bool
unfolding member
can_track k m = member k m || ltb (length m) max_tracked_tests

unfoldable pub track : Text → List Text → List Text
unfolding can_track insert
track k m = if can_track k m then insert k m else m

abbrev pub action_length : Action → ℕ
action_length run = 3
action_length pass = 4
action_length skip = 4
action_length fail = 4
action_length output = 6
action_length (another t) = length t

abbrev pub is_handled : Action → Bool
is_handled a = elim a [ another t ↦ false | _ ↦ true ]

-- The branch of `observe` for a test.
unfoldable pub observe_test : Stream → TestEvent → Stream
unfolding can_track track
observe_test s e =
    let k = key e.pkg e.test in
    if is_empty e.test then s else elim e.action [
      | run ↦ record s {
        started = track k s.started;
        pkg_ran = track e.pkg s.pkg_ran;
        incomplete =
            s.incomplete || (not (can_track k s.started) || not (can_track e.pkg s.pkg_ran));
      }
      | pass ↦ record s { started = delete k s.started }
      | skip ↦ record s { started = delete k s.started }
      | fail ↦ record s {
        started = delete k s.started;
        failed = track k s.failed;
        incomplete = s.incomplete || not (can_track k s.failed);
      }
      | output ↦ s
      | another t ↦ s
    ]

-- The sample of the events.
unfoldable pub keep_evidence : Stream → TestEvent → Stream
keep_evidence s e =
    let needed = length e.pkg + length e.test + action_length e.action + length e.output + 128 in
    if is_empty e.test || not (is_handled e.action)
    then s
    else if leb max_evidence_events (length s.evidence)
        || ltb max_evidence_bytes (needed + s.evidence_bytes)
    then record s { evidence_truncated = true }
    else record s { evidence_bytes = s.evidence_bytes + needed; evidence = s.evidence ++ e ∷ [] }

-- `is_summary` and `is_timeout` are whether `packageFailSummaryRE` and `timeoutPanicRE` match.
module _ (is_summary is_timeout : Text → Bool) where
  unfoldable pub observe_output : Stream → TestEvent → Stream
  unfolding write_text can_track track
  observe_output s e =
      let summary = is_empty e.test && is_summary e.output in
      elim e.action [
        | output ↦ record s {
          display = write_text s.display e.output;
          timeout_header = s.timeout_header || is_timeout e.output;
          pkg_build_failed = if summary then track e.pkg s.pkg_build_failed else s.pkg_build_failed;
          incomplete = s.incomplete || (summary && not (can_track e.pkg s.pkg_build_failed));
        }
        | _ ↦ s
      ]

  unfoldable pub observe : Stream → TestEvent → Stream
  unfolding observe_output observe_test keep_evidence
  observe s e = keep_evidence (observe_test (observe_output s e) e) e

  -- `decode` is json.Unmarshal, none where it reports an error.
  module _ (decode : Text → Option TestEvent) where
    unfoldable pub consume_event : Stream → Option TestEvent → Stream
    unfolding observe
    consume_event s none = record s { incomplete = true }
    consume_event s (some e) =
        let counted = record s { event_count = (s.event_count + 1) % 2 ^ 64 } in
        if ltb max_identity_bytes (length e.pkg) || ltb max_identity_bytes (length e.test)
        then record counted { incomplete = true }
        else observe counted e

    unfoldable pub consume_line : Stream → Text → Stream
    unfolding consume_event
    consume_line s line = if is_empty (trim_space line) then s else consume_event s (decode line)

    -- What `Write` does at the end of a line.
    unfoldable pub end_line : Stream → Stream
    unfolding consume_line
    end_line s =
        let done = if s.dropping then s else consume_line s s.line in
        record done { line = []; dropping = false }

    -- The bytes of `piece` stand in front of `p`, with no newline.
    unfoldable pub write_from : Stream → Text → Text → Stream
    unfolding accept_bytes end_line
    write_from s piece [] = if is_empty piece then s else accept_bytes s piece
    write_from s piece (c ∷ p) =
        let ended = write_from (end_line (accept_bytes s piece)) [] p in
        let longer = write_from s (piece ++ c ∷ []) p in if c == b'\n' then ended else longer

    abbrev pub write : Stream → Text → Stream
    write s p = write_from s [] p

unfoldable pub finish : Stream → Stream
finish s = record s {
  incomplete = s.incomplete || (not (is_empty (trim_space s.line)) || s.dropping);
  line = [];
}

-- The name of a test, from its key.
abbrev pub name_of : Text → Text
name_of k = behind_zero [] k

unfoldable pub classify : Stream → Verdict × List Text
unfolding behind_zero insert_all some_not_in sort text_lt
classify s =
    let names = insert_all (map name_of s.started) (insert_all (map name_of s.failed) []) in
    if not (is_empty names)
    then (killed, sort text_lt names)
    else if s.incomplete
    then (unknown, [])
    else if some_not_in s.pkg_ran s.pkg_build_failed
    then (invalid, [])
    else (killed, [])

abbrev pub output_truncated : Stream → BoundedText → Bool
output_truncated s stderr =
    truncated stderr
    || (truncated s.display
        || (s.evidence_truncated
            || (s.incomplete || ltb max_output_bytes ((stderr.total + s.display.total) % 2 ^ 64))))
