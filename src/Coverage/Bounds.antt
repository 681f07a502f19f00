-- ===== src/Coverage/Bounds.antt =====
-- The blocks that `parseBlock` of internal/coverage/coverage.go accepts.
use mutation_judge.Base.{
  ℕ, ◌+◌, ◌≤◌, ◌≡◌, ◌≢◌, List, [], ◌∷◌, ◌&&◌, Text, codes, text_eq, text_eq_iff, ltb, subst, arith,
}
use mutation_judge.Base.Outcome.{ok, ok_or, wrap, bind-ok, wrap-ok, unless-ok, ok-inj}
use mutation_judge.Model.Validate.{parse_int}
use mutation_judge.Coverage.Fields.{
  Block, fields, parse_block, parse_fields, parse_three, parse_span, parse_range, check_range,
  parse_position, no_range, bad_start, bad_end, bad_statements, bad_count, not_negative, cut,
  has_byte,
}

pub record IsBlock (mode : Text) (b : Block) : Type 0 where
  pub file_there : b.file ≢ []
  pub first : 1 ≤ b.start_line
  pub ordered : b.start_line ≤ b.end_line
  pub size : b.end_line ≤ b.start_line + 1000000
  pub in_mode : mode ≡ codes "set" → b.count ≤ 1

parse_position-positive : (t : Text) (l c : ℕ) → parse_position t ≡ ok (l, c) → 1 ≤ l
unfolding parse_position
parse_position-positive t l c h = ground (arith, h)

check_range-bounds :
    (l c : ℕ) (to : ℕ × ℕ) (a b : ℕ)
    → check_range l c to ≡ ok (a, b)
    → (a ≡ l) × (a ≤ b) × (b ≤ a + 1000000)
unfolding check_range
check_range-bounds l c to a b h = ground (arith, h)

parse_range-bounds :
    (t : Text) (a b : ℕ) → parse_range t ≡ ok (a, b) → (1 ≤ a) × (a ≤ b) × (b ≤ a + 1000000)
unfolding parse_range
parse_range-bounds t a b h =
    bind-ok (ok_or no_range (cut b',' t)) _ (a, b) h
      λ (start, end) _ i.
        bind-ok (wrap bad_start (parse_position start)) _ (a, b)
          (unless-ok (has_byte b',' end) no_range _ (a, b) i).1
          λ (l, c) p j.
            bind-ok (wrap bad_end (parse_position end)) (check_range l c) (a, b) j
              λ to _ k.
                let first =
                  parse_position-positive start l c
                    (wrap-ok bad_start (parse_position start) (l, c) p) in
                let (same, order, size) = check_range-bounds l c to a b k in
                (ground arith, order, size)

parse_span-file : (t file range : Text) → parse_span t ≡ ok (file, range) → file ≢ []
unfolding parse_span
parse_span-file t file range h e = ground (arith, h, e)

parse_fields-IsBlock :
    (mode span statements count : Text) (b : Block)
    → parse_fields mode span statements count ≡ ok b
    → IsBlock mode b
unfolding parse_fields
parse_fields-IsBlock mode span statements count b h =
    bind-ok (parse_span span) _ b h λ (file, range) s i.
      bind-ok (parse_range range) _ b i λ (l, m) r j.
        bind-ok (ok_or bad_statements (not_negative (parse_int statements))) _ b j λ n _ k.
          bind-ok (ok_or bad_count (not_negative (parse_int count))) _ b k λ c _ e.
            let (few, same) = unless-ok (text_eq mode (codes "set") && ltb 1 c) bad_count _ b e in
            let (first, order, size) = parse_range-bounds range l m r in
            subst (IsBlock mode) (ok-inj same) (record {
              file_there = parse_span-file span file range s;
              first = first;
              ordered = order;
              size = size;
              in_mode = λ set. ground (arith, few, (text_eq_iff mode (codes "set")).1 set);
            })

-- A line that `parseBlock` accepts gives the name of a file, a first line from 1 on, a last line that is not
-- before it and at most a million lines behind it, and a count that is at most 1 in the mode "set".
pub parse_block-IsBlock :
    (mode line : Text) (b : Block) → parse_block mode line ≡ ok b → IsBlock mode b
unfolding parse_block
parse_block-IsBlock mode line b h = go (fields line) h
  where
    go : (fs : List Text) → parse_three mode fs ≡ ok b → IsBlock mode b
    go [] h = absurd (ground (arith, h))
    go (x ∷ []) h = absurd (ground (arith, h))
    go (x ∷ y ∷ []) h = absurd (ground (arith, h))
    go (x ∷ y ∷ z ∷ []) h = parse_fields-IsBlock mode x y z b h
    go (x ∷ y ∷ z ∷ w ∷ fs) h = absurd (ground (arith, h))
