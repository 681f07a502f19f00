-- ===== src/Runner/Stream/Lines.antt =====
-- internal/runner/stream.go: the events in the lines of the output, and the verdict on them.
use mutation_judge.Base.{
  ◌+◌, ◌%◌, ◌^◌, ◌≡◌, refl, sym, ap, ◌∙◌, Bool, false, ◌||◌, List, [], ◌∷◌, ◌++◌, Option, none,
  some, Text, arith, if◌then◌else◌, inl, inr, Bool-cases, All, length, ltb, ◌==◌, append_assoc,
  append-nil,
}
use mutation_judge.Base.Trim.{trim_space}
use mutation_judge.Runner.{TestEvent, is_empty, Scan, scan_event, scan_events}
use mutation_judge.Runner.Stream.{
  max_identity_bytes, Stream, accept_bytes, consume_event, consume_line, end_line, write_from,
  write,
}
use mutation_judge.Runner.Stream.Observed.{scan_of, observe-incomplete, observe-scan_event}

-- Lines, each with its newline.
abbrev pub text_of_lines : List Text → Text
text_of_lines [] = []
text_of_lines (l ∷ ls) = l ++ b'\n' ∷ text_of_lines ls

abbrev pub IsLine : Text → Type 0
IsLine l = All (λ c. (c == b'\n') ≡ false) l

module _ (decode : Text → Option TestEvent) where
  -- The event of a line, if there is one.
  abbrev pub event_in : Text → List TestEvent
  event_in l =
      if is_empty (trim_space l) then [] else elim (decode l) [ none ↦ [] | some e ↦ e ∷ [] ]

  abbrev pub events_in : List Text → List TestEvent
  events_in [] = []
  events_in (l ∷ ls) = event_in l ++ events_in ls

module _ (is_summary is_timeout : Text → Bool) (decode : Text → Option TestEvent) where
  consume_event-incomplete :
      (s : Stream) (o : Option TestEvent)
      → (consume_event is_summary is_timeout decode s o).incomplete ≡ false
      → s.incomplete ≡ false
  unfolding consume_event
  consume_event-incomplete s none h = absurd (ground (arith, h))
  consume_event-incomplete s (some e) h =
      let counted = record s { event_count = (s.event_count + 1) % 2 ^ 64 } in
      elim (Bool-cases
        (ltb max_identity_bytes (length e.pkg) || ltb max_identity_bytes (length e.test))) [
          | inl k ↦ absurd (ground (arith, h, k))
          | inr k ↦ observe-incomplete is_summary is_timeout counted e (ground (arith, h, k))
        ]

  consume_event-scan_event :
      (s : Stream) (order : List Text) (e : TestEvent)
      → (consume_event is_summary is_timeout decode s (some e)).incomplete ≡ false
      → (last : List Text) × (scan_event is_summary (scan_of s order) e
          ≡ scan_of (consume_event is_summary is_timeout decode s (some e)) last)
  unfolding consume_event
  consume_event-scan_event s order e h =
      let counted = record s { event_count = (s.event_count + 1) % 2 ^ 64 } in
      elim (Bool-cases
        (ltb max_identity_bytes (length e.pkg) || ltb max_identity_bytes (length e.test))) [
          | inl k ↦ absurd (ground (arith, h, k))
          | inr k ↦ (
            (scan_event is_summary (scan_of s order) e).order,
            rw k (observe-scan_event is_summary is_timeout counted order e (ground (arith, h, k))),
          )
        ]

  consume_line-incomplete :
      (s : Stream) (l : Text)
      → (consume_line is_summary is_timeout decode s l).incomplete ≡ false
      → s.incomplete ≡ false
  unfolding consume_line
  consume_line-incomplete s l h = elim (Bool-cases (is_empty (trim_space l))) [
    | inl k ↦ ground (arith, h, k)
    | inr k ↦ consume_event-incomplete s (decode l) (ground (arith, h, k))
  ]

  consume_event-scan_events :
      (s : Stream) (order : List Text) (o : Option TestEvent)
      → (consume_event is_summary is_timeout decode s o).incomplete ≡ false
      → (last : List Text) × (scan_events is_summary
            (scan_of s order)
            (elim o [ none ↦ [] | some e ↦ e ∷ [] ])
          ≡ scan_of (consume_event is_summary is_timeout decode s o) last)
  unfolding consume_event scan_events
  consume_event-scan_events s order none f = absurd (ground (arith, f))
  consume_event-scan_events s order (some e) f = consume_event-scan_event s order e f

  consume_line-scan_events :
      (s : Stream) (order : List Text) (l : Text)
      → (consume_line is_summary is_timeout decode s l).incomplete ≡ false
      → (last : List Text) × (scan_events is_summary (scan_of s order) (event_in decode l)
          ≡ scan_of (consume_line is_summary is_timeout decode s l) last)
  unfolding consume_line scan_events
  consume_line-scan_events s order l h = elim (Bool-cases (is_empty (trim_space l))) [
    | inl k ↦ (order, rw k refl)
    | inr k ↦
        let r = consume_event-scan_events s order (decode l) (ground (arith, h, k)) in
        (r.0, rw k r.1)
  ]

  -- A line, its bytes and its end.
  abbrev pub read_line : Stream → Text → Stream
  read_line s l = end_line is_summary is_timeout decode (accept_bytes s l)

  end_line-incomplete :
      (s : Stream)
      → (end_line is_summary is_timeout decode s).incomplete ≡ false
      → s.incomplete ≡ false
  unfolding end_line
  end_line-incomplete s h = elim (Bool-cases s.dropping) [
    | inl d ↦ ground (arith, h, d)
    | inr d ↦ consume_line-incomplete s s.line (ground (arith, h, d))
  ]

  accept_bytes-incomplete :
      (s : Stream) (l : Text) → (accept_bytes s l).incomplete ≡ false → s.incomplete ≡ false
  unfolding accept_bytes
  accept_bytes-incomplete s l h = ground (arith, h)

  read_line-incomplete :
      (s : Stream) (l : Text) → (read_line s l).incomplete ≡ false → s.incomplete ≡ false
  read_line-incomplete s l h =
      accept_bytes-incomplete s l (end_line-incomplete (accept_bytes s l) h)

  -- Between two lines.
  abbrev pub IsOpen : Stream → Type 0
  IsOpen s = (s.line ≡ []) × (s.dropping ≡ false)

  accept_bytes-fits :
      (s : Stream) (l : Text)
      → IsOpen s
      → (accept_bytes s l).incomplete ≡ false
      → accept_bytes s l ≡ record s { line = l; dropping = false }
  unfolding accept_bytes
  accept_bytes-fits s l o h = ground (arith, h, o.0, o.1)

  read_line-scan_events :
      (s : Stream) (order : List Text) (l : Text)
      → IsOpen s
      → (read_line s l).incomplete ≡ false
      → (last : List Text) × (scan_events is_summary (scan_of s order) (event_in decode l)
          ≡ scan_of (read_line s l) last)
  unfolding end_line
  read_line-scan_events s order l o h =
      let t : Stream = record s { line = l; dropping = false } in
      let fits = accept_bytes-fits s l o (end_line-incomplete (accept_bytes s l) h) in
      let quiet = ap (λ v. (end_line is_summary is_timeout decode v).incomplete) (sym fits) ∙ h in
      let (last, same) = consume_line-scan_events t order l quiet in
      (last, same ∙ ap (λ v. scan_of (end_line is_summary is_timeout decode v) last) (sym fits))

  abbrev pub read_lines : Stream → List Text → Stream
  read_lines s [] = s
  read_lines s (l ∷ ls) = read_lines (read_line s l) ls

  read_lines-incomplete :
      (s : Stream) (ls : List Text) → (read_lines s ls).incomplete ≡ false → s.incomplete ≡ false
  read_lines-incomplete s [] h = h
  read_lines-incomplete s (l ∷ ls) h =
      read_line-incomplete s l (read_lines-incomplete (read_line s l) ls h)

  scan_events-append :
      (t : Scan) (es fs : List TestEvent)
      → scan_events is_summary t (es ++ fs)
        ≡ scan_events is_summary (scan_events is_summary t es) fs
  unfolding scan_events
  scan_events-append t [] fs = refl
  scan_events-append t (e ∷ es) fs = scan_events-append (scan_event is_summary t e) es fs

  read_line-IsOpen : (s : Stream) (l : Text) → IsOpen (read_line s l)
  unfolding end_line
  read_line-IsOpen s l = (refl, refl)

  pub read_lines-scan_events :
      (s : Stream) (order : List Text) (ls : List Text)
      → IsOpen s
      → (read_lines s ls).incomplete ≡ false
      → (last : List Text) × (scan_events is_summary (scan_of s order) (events_in decode ls)
          ≡ scan_of (read_lines s ls) last)
  unfolding scan_events
  read_lines-scan_events s order [] o h = (order, refl)
  read_lines-scan_events s order (l ∷ ls) o h =
      let (mid, first) =
        read_line-scan_events s order l o (read_lines-incomplete (read_line s l) ls h) in
      let (last, rest) = read_lines-scan_events (read_line s l) mid ls (read_line-IsOpen s l) h in
      (
        last,
        scan_events-append (scan_of s order) (event_in decode l) (events_in decode ls)
            ∙ (ap (λ t. scan_events is_summary t (events_in decode ls)) first ∙ rest),
      )

  -- The bytes of lines are these lines.
  write_from-line :
      (s : Stream) (a l p : Text)
      → IsLine l
      → write_from is_summary is_timeout decode s a (l ++ b'\n' ∷ p)
        ≡ write is_summary is_timeout decode (read_line s (a ++ l)) p
  unfolding write_from
  write_from-line s a [] p h =
      ap (λ t. write is_summary is_timeout decode (read_line s t) p) (sym (append-nil a))
  write_from-line s a (c ∷ l) p h =
      rw (h.0, write_from)
        (write_from-line s (a ++ c ∷ []) l p h.1
          ∙ ap (λ t. write is_summary is_timeout decode (read_line s t) p)
              (append_assoc a (c ∷ []) l))

  pub write-text_of_lines :
      (s : Stream) (ls : List Text)
      → All IsLine ls
      → write is_summary is_timeout decode s (text_of_lines ls) ≡ read_lines s ls
  unfolding write_from
  write-text_of_lines s [] h = refl
  write-text_of_lines s (l ∷ ls) h =
      write_from-line s [] l (text_of_lines ls) h.0 ∙ write-text_of_lines (read_line s l) ls h.1
