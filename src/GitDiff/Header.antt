-- ===== src/GitDiff/Header.antt =====
-- The match of a hunk header finds the numbers that git writes.
use mutation_judge.Base.Decimal.{is_digit}
use mutation_judge.Base.{ℕ, ◌≡◌, ◌≢◌, refl, false, [], ◌∷◌, ◌++◌, some, Text, codes, after_prefix}
use mutation_judge.GitDiff.Scan.{take_digits, number, optional_count, match_hunk}
use mutation_judge.GitDiff.Patch.{AllDigits, count_text, Hunk, hunk_header, IsHunk}

take_digits_append :
    (d : Text) (c : ℕ) (s : Text)
    → AllDigits d
    → is_digit c ≡ false
    → take_digits (d ++ c ∷ s) ≡ (d, c ∷ s)
unfolding take_digits
take_digits_append [] c s h k = rw k refl
take_digits_append (x ∷ d) c s h k = rw (take_digits_append d c s h.1 k, h.0) refl

number_append :
    (d : Text) (c : ℕ) (s : Text)
    → d ≢ []
    → AllDigits d
    → is_digit c ≡ false
    → number (d ++ c ∷ s) ≡ some (d, c ∷ s)
unfolding number
number_append [] c s n h k = absurd (n refl)
number_append (x ∷ d) c s n h k = rw (take_digits_append (x ∷ d) c s h k) refl

optional_count_append :
    (d s : Text) → AllDigits d → optional_count (count_text d ++ b' ' ∷ s) ≡ (d, b' ' ∷ s)
unfolding optional_count after_prefix
optional_count_append [] s h = refl
optional_count_append (x ∷ d) s h =
    rw (number_append (x ∷ d) b' ' s (λ e. cc) h refl, optional_count) refl

number_count :
    (d n s : Text)
    → d ≢ []
    → AllDigits d
    → number (d ++ (count_text n ++ b' ' ∷ s)) ≡ some (d, count_text n ++ b' ' ∷ s)
number_count d [] s h k = number_append d b' ' s h k refl
number_count d (x ∷ n) s h k = number_append d b',' (x ∷ n ++ b' ' ∷ s) h k refl

pub match_hunk-hunk_header :
    (h : Hunk)
    → IsHunk h
    → match_hunk (hunk_header h)
      ≡ some (record { old_count = h.old_count; new_start = h.new_start; new_count = h.new_count })
unfolding match_hunk after_prefix
match_hunk-hunk_header h v =
    rw
      (
        number_count h.old_start h.old_count
            (b'+' ∷ h.new_start ++ (count_text h.new_count ++ (codes " @@" ++ h.tail)))
            v.has_old_start v.old_start_digits,
        optional_count_append h.old_count
            (b'+' ∷ h.new_start ++ (count_text h.new_count ++ (codes " @@" ++ h.tail)))
            v.old_count_digits,
        number_count h.new_start h.new_count (codes "@@" ++ h.tail) v.has_new_start
            v.new_start_digits,
        optional_count_append h.new_count (codes "@@" ++ h.tail) v.new_count_digits,
        match_hunk,
      )
      refl
