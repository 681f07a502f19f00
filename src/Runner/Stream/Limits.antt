-- ===== src/Runner/Stream/Limits.antt =====
-- internal/runner/stream.go: what the stream keeps in memory.
use mutation_judge.Base.{
  ℕ, zero, suc, ◌+◌, ◌≡◌, ◌-◌, ◌≤◌, Bool, true, false, not, ◌||◌, List, [], ◌∷◌, ◌++◌, Option, none,
  some, Text, text_eq, select, arith, length, length-append, take, ltb, ◌==◌, if◌then◌else◌, inl,
  inr, Bool-cases,
}
use mutation_judge.Base.Trim.{trim_space}
use mutation_judge.Runner.{TestEvent, is_empty, key, delete, insert}
use mutation_judge.Runner.Stream.{
  max_json_event_bytes, max_output_bytes, action_length, max_evidence_bytes, max_evidence_events,
  max_tracked_tests, max_identity_bytes, BoundedText, write_text, Stream, new_stream, accept_bytes,
  can_track, track, observe_test, keep_evidence, observe_output, observe, consume_event,
  consume_line, end_line, write_from, write,
}
use mutation_judge.Runner.Stream.Chunks.{write_all}

-- The bytes that the sample keeps: the texts of each event, and 128 for the rest of it.
abbrev pub sample_bytes : List TestEvent → ℕ
sample_bytes [] = 0
sample_bytes (e ∷ es) =
    length e.pkg + length e.test + action_length e.action + length e.output + 128 + sample_bytes es

unfoldable pub InLimits : Stream → Type 0
InLimits s =
    (length s.line ≤ max_json_event_bytes)
    × (s.display.limit ≡ max_output_bytes)
    × (length s.display.bytes ≤ max_output_bytes)
    × (length s.started ≤ max_tracked_tests)
    × (length s.failed ≤ max_tracked_tests)
    × (length s.pkg_ran ≤ max_tracked_tests)
    × (length s.pkg_build_failed ≤ max_tracked_tests)
    × (length s.evidence ≤ max_evidence_events)
    × (s.evidence_bytes ≡ sample_bytes s.evidence)
    × (sample_bytes s.evidence ≤ max_evidence_bytes)

sample_bytes-append :
    (es : List TestEvent) (e : TestEvent)
    → sample_bytes (es ++ e ∷ [])
      ≡ length e.pkg
        + length e.test
        + action_length e.action
        + length e.output
        + 128
        + sample_bytes es
sample_bytes-append [] e = omega arith
sample_bytes-append (d ∷ es) e = omega (arith, sample_bytes-append es e)

length-take_le {ℓ} : {A : Type ℓ} (n : ℕ) (xs : List A) → length (take n xs) ≤ n
length-take_le zero xs = omega arith
length-take_le (suc n) [] = omega arith
length-take_le (suc n) (x ∷ xs) = let rest = length-take_le n xs in omega (arith, rest)

length-select_le : (f : Text → Bool) (xs : List Text) → length (select f xs) ≤ length xs
length-select_le f [] = omega arith
length-select_le f (x ∷ xs) = let rest = length-select_le f xs in ground (arith, rest)

length-delete_le : (k : Text) (s : List Text) → length (delete k s) ≤ length s
length-delete_le k s = length-select_le (λ x. not (text_eq x k)) s

length-track_le :
    (k : Text) (m : List Text)
    → length m ≤ max_tracked_tests
    → length (track k m) ≤ max_tracked_tests
unfolding track can_track insert
length-track_le k m h = ground (arith, h, length-append m (k ∷ []))

write_text-limit :
    (b : BoundedText) (p : Text)
    → b.limit ≡ max_output_bytes
    → length b.bytes ≤ max_output_bytes
    → length (write_text b p).bytes ≤ max_output_bytes
unfolding write_text
write_text-limit b p l h =
    let cut = length-take_le (b.limit - length b.bytes) p in
    let sum = length-append b.bytes (take (b.limit - length b.bytes) p) in
    ground (arith, l, h, cut, sum)

observe_test-InLimits : (s : Stream) (e : TestEvent) → InLimits s → InLimits (observe_test s e)
unfolding observe_test InLimits
observe_test-InLimits s e (h1, h0, h2, h3, h4, h5, h6, h7, h9, h8) =
    let k = key e.pkg e.test in
    ground (
      arith,
      h1,
      h0,
      h2,
      h3,
      h4,
      h5,
      h6,
      h7,
      h9,
      h8,
      length-track_le k s.started h3,
      length-track_le k s.failed h4,
      length-track_le e.pkg s.pkg_ran h5,
      length-delete_le k s.started,
    )

keep_evidence-InLimits : (s : Stream) (e : TestEvent) → InLimits s → InLimits (keep_evidence s e)
unfolding keep_evidence InLimits
keep_evidence-InLimits s e (h1, h0, h2, h3, h4, h5, h6, h7, h9, h8) = ground (
  arith,
  h1,
  h0,
  h2,
  h3,
  h4,
  h5,
  h6,
  h7,
  h9,
  h8,
  length-append s.evidence (e ∷ []),
  sample_bytes-append s.evidence e,
)

accept_bytes-InLimits : (s : Stream) (p : Text) → InLimits s → InLimits (accept_bytes s p)
unfolding accept_bytes InLimits
accept_bytes-InLimits s p (h1, h0, h2, h3, h4, h5, h6, h7, h9, h8) =
    ground (arith, h1, h0, h2, h3, h4, h5, h6, h7, h9, h8, length-append s.line p)

rest-InLimits :
    (s : Stream) (p : Text) → InLimits s → InLimits (if is_empty p then s else accept_bytes s p)
rest-InLimits s [] h = h
rest-InLimits s (c ∷ p) h = accept_bytes-InLimits s (c ∷ p) h

new_stream-InLimits : InLimits new_stream
unfolding InLimits
new_stream-InLimits = ground arith

either-InLimits :
    (b : Bool) (s t : Stream) → InLimits s → InLimits t → InLimits (if b then s else t)
either-InLimits true s t h k = h
either-InLimits false s t h k = k

next_line-InLimits : (s : Stream) → InLimits s → InLimits (record s { line = []; dropping = false })
unfolding InLimits
next_line-InLimits s (h1, h0, h2, h3, h4, h5, h6, h7, h9, h8) =
    (omega arith, h0, h2, h3, h4, h5, h6, h7, h9, h8)

module _ (is_summary is_timeout : Text → Bool) where
  observe_output-InLimits :
      (s : Stream) (e : TestEvent)
      → InLimits s
      → InLimits (observe_output is_summary is_timeout s e)
  unfolding observe_output InLimits
  observe_output-InLimits s e (h1, h0, h2, h3, h4, h5, h6, h7, h9, h8) = ground (
    arith,
    h1,
    h0,
    h2,
    h3,
    h4,
    h5,
    h6,
    h7,
    h9,
    h8,
    write_text-limit s.display e.output h0 h2,
    length-track_le e.pkg s.pkg_build_failed h6,
  )

  observe-InLimits :
      (s : Stream) (e : TestEvent) → InLimits s → InLimits (observe is_summary is_timeout s e)
  unfolding observe
  observe-InLimits s e h =
      let a = observe_output is_summary is_timeout s e in
      keep_evidence-InLimits (observe_test a e) e
        (observe_test-InLimits a e (observe_output-InLimits s e h))

  module _ (decode : Text → Option TestEvent) where
    consume_event-InLimits :
        (s : Stream) (o : Option TestEvent)
        → InLimits s
        → InLimits (consume_event is_summary is_timeout decode s o)
    unfolding consume_event InLimits
    consume_event-InLimits s none h = h
    consume_event-InLimits s (some e) h =
        elim (Bool-cases
          (ltb max_identity_bytes (length e.pkg) || ltb max_identity_bytes (length e.test))) [
            | inl k ↦ rw k h
            | inr k ↦ rw k (observe-InLimits _ e h)
          ]

    consume_line-InLimits :
        (s : Stream) (l : Text)
        → InLimits s
        → InLimits (consume_line is_summary is_timeout decode s l)
    unfolding consume_line
    consume_line-InLimits s l h = elim (Bool-cases (is_empty (trim_space l))) [
      | inl k ↦ rw k h
      | inr k ↦ rw k (consume_event-InLimits s (decode l) h)
    ]

    end_line-InLimits :
        (s : Stream) → InLimits s → InLimits (end_line is_summary is_timeout decode s)
    unfolding end_line
    end_line-InLimits s h =
        let used = consume_line is_summary is_timeout decode s s.line in
        next_line-InLimits (if s.dropping then s else used)
          (either-InLimits s.dropping s used h (consume_line-InLimits s s.line h))

    write_from-InLimits :
        (s : Stream) (a p : Text)
        → InLimits s
        → InLimits (write_from is_summary is_timeout decode s a p)
    unfolding write_from
    write_from-InLimits s a [] h = rest-InLimits s a h
    write_from-InLimits s a (c ∷ p) h = elim (Bool-cases (c == b'\n')) [
      | inl e ↦
          rw (e, write_from)
            (write_from-InLimits (end_line is_summary is_timeout decode (accept_bytes s a)) [] p
              (end_line-InLimits (accept_bytes s a) (accept_bytes-InLimits s a h)))
      | inr e ↦ rw (e, write_from) (write_from-InLimits s (a ++ c ∷ []) p h)
    ]

    write_all-from :
        (s : Stream) (ps : List Text)
        → InLimits s
        → InLimits (write_all is_summary is_timeout decode s ps)
    write_all-from s [] h = h
    write_all-from s (p ∷ ps) h =
        write_all-from (write is_summary is_timeout decode s p) ps (write_from-InLimits s [] p h)

    -- Whatever is written to a new stream, in whatever calls, what the stream keeps stays within fixed
    -- limits: the open line, the text for display, the tests and the packages that are tracked, and the
    -- sample of the events.
    pub write_all-InLimits :
        (ps : List Text) → InLimits (write_all is_summary is_timeout decode new_stream ps)
    write_all-InLimits ps = write_all-from new_stream ps new_stream-InLimits
