-- ===== src/Runner/Stream/Chunks.antt =====
-- internal/runner/stream.go: how the output is cut into calls of `Write` does not show.
use mutation_judge.Base.{
  ◌≤◌, ◌≡◌, refl, sym, ap, ◌∙◌, Bool, List, [], ◌∷◌, ◌++◌, Option, Text, arith, append_assoc,
  append-nil, length, length-append, ◌==◌, if◌then◌else◌, inl, inr, Bool-cases, subst,
}
use mutation_judge.Runner.{TestEvent, is_empty}
use mutation_judge.Runner.Stream.{
  max_json_event_bytes, Stream, accept_bytes, end_line, write_from, write,
}

-- The line that is not complete yet is within the limit.
abbrev pub IsBounded : Stream → Type 0
IsBounded s = length s.line ≤ max_json_event_bytes

accept_bytes-append :
    (s : Stream) (a b : Text) → accept_bytes (accept_bytes s a) b ≡ accept_bytes s (a ++ b)
unfolding accept_bytes
accept_bytes-append s a b =
    ground (arith, length-append a b, length-append s.line a, append_assoc s.line a b)

accept_bytes-nil : (s : Stream) → IsBounded s → accept_bytes s [] ≡ s
unfolding accept_bytes
accept_bytes-nil s h = ground (arith, h, append-nil s.line)

accept_bytes-IsBounded : (s : Stream) (a : Text) → IsBounded s → IsBounded (accept_bytes s a)
unfolding accept_bytes
accept_bytes-IsBounded s a h = ground (arith, h, length-append s.line a)

-- What `Write` accepts where no newline is left.
accept_rest :
    (s : Stream) (a : Text)
    → IsBounded s
    → (if is_empty a then s else accept_bytes s a) ≡ accept_bytes s a
accept_rest s [] h = sym (accept_bytes-nil s h)
accept_rest s (c ∷ a) h = refl

abbrev pub joined : List Text → Text
joined [] = []
joined (p ∷ ps) = p ++ joined ps

module _ (is_summary is_timeout : Text → Bool) (decode : Text → Option TestEvent) where
  end_line-IsBounded : (s : Stream) → IsBounded (end_line is_summary is_timeout decode s)
  unfolding end_line
  end_line-IsBounded s = omega arith

  -- Bytes that were accepted before.
  write_from-accept :
      (s : Stream) (a b q : Text)
      → IsBounded s
      → write_from is_summary is_timeout decode s (a ++ b) q
        ≡ write_from is_summary is_timeout decode (accept_bytes s a) b q
  unfolding write_from
  write_from-accept s a b [] h =
      accept_rest s (a ++ b) h
      ∙ (sym (accept_bytes-append s a b)
          ∙ sym (accept_rest (accept_bytes s a) b (accept_bytes-IsBounded s a h)))
  write_from-accept s a b (c ∷ q) h = elim (Bool-cases (c == b'\n')) [
    | inl e ↦
        rw (e, write_from)
          (ap
            (λ t.
              write_from is_summary is_timeout decode (end_line is_summary is_timeout decode t) []
                q)
            (sym (accept_bytes-append s a b)))
    | inr e ↦
        rw (e, write_from)
          (ap (λ t. write_from is_summary is_timeout decode s t q) (append_assoc a b (c ∷ []))
            ∙ write_from-accept s a (b ++ c ∷ []) q h)
  ]

  write_from-append :
      (s : Stream) (a p q : Text)
      → IsBounded s
      → write_from is_summary is_timeout decode s a (p ++ q)
        ≡ write_from is_summary is_timeout decode
            (write_from is_summary is_timeout decode s a p)
            []
            q
  unfolding write_from
  write_from-append s a [] q h =
      ap (λ t. write_from is_summary is_timeout decode s t q) (sym (append-nil a))
      ∙ (write_from-accept s a [] q h
          ∙ ap (λ t. write_from is_summary is_timeout decode t [] q) (sym (accept_rest s a h)))
  write_from-append s a (c ∷ p) q h = elim (Bool-cases (c == b'\n')) [
    | inl e ↦
        rw (e, write_from)
          (write_from-append (end_line is_summary is_timeout decode (accept_bytes s a)) [] p q
            (end_line-IsBounded (accept_bytes s a)))
    | inr e ↦ rw (e, write_from) (write_from-append s (a ++ c ∷ []) p q h)
  ]

  -- Calls of Write in a row.
  abbrev pub write_all : Stream → List Text → Stream
  write_all s [] = s
  write_all s (p ∷ ps) = write_all (write is_summary is_timeout decode s p) ps

  write_from-IsBounded :
      (s : Stream) (a p : Text)
      → IsBounded s
      → IsBounded (write_from is_summary is_timeout decode s a p)
  unfolding write_from
  write_from-IsBounded s a [] h =
      subst IsBounded (sym (accept_rest s a h)) (accept_bytes-IsBounded s a h)
  write_from-IsBounded s a (c ∷ p) h = elim (Bool-cases (c == b'\n')) [
    | inl e ↦
        rw (e, write_from)
          (write_from-IsBounded (end_line is_summary is_timeout decode (accept_bytes s a)) [] p
            (end_line-IsBounded (accept_bytes s a)))
    | inr e ↦ rw (e, write_from) (write_from-IsBounded s (a ++ c ∷ []) p h)
  ]

  -- From a stream whose open line is within the limit, any number of calls of Write leaves what one call
  -- with all their bytes leaves, limits and lost lines included, and a line within the limit.
  pub write_all-joined :
      (s : Stream) (ps : List Text)
      → IsBounded s
      → (write_all s ps ≡ write is_summary is_timeout decode s (joined ps))
        × IsBounded (write_all s ps)
  unfolding write_from
  write_all-joined s [] h = (refl, h)
  write_all-joined s (p ∷ ps) h =
      let (same, bounded) =
        write_all-joined (write is_summary is_timeout decode s p) ps
          (write_from-IsBounded s [] p h) in
      (same ∙ sym (write_from-append s [] p (joined ps) h), bounded)
