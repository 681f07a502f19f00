-- ===== src/Config/Listed.antt =====
-- How internal/config/config.go reads a list of quoted items in brackets.
use mutation_judge.Base.{
  ℕ, ◌≡◌, ◌≢◌, refl, sym, ap, ◌∙◌, List, [], ◌∷◌, ◌++◌, map, Text, All, All-imp, arith,
  append_assoc,
}
use mutation_judge.Base.Outcome.{ok, map_ok, ◌>>=◌}
use mutation_judge.Base.Trim.{skip_space, cut_space, trim_space}
use mutation_judge.Config.{Std}
use mutation_judge.Config.Quotes.{
  outside, single, split_list, list_entry, list_entries, parse_inner, parse_brackets, parse_list,
}
use mutation_judge.Config.Trimmed.{skip_space-visible, cut_space-end}
use mutation_judge.Config.Quoted.{NoQuote, quoted, closed_by-end, trim_space-quoted, unquote-quoted}

-- An item that can stand in single quotes.
abbrev pub IsItem : Text → Type 0
IsItem i = (i ≢ []) × NoQuote i

abbrev pub items_text : Text → List Text → Text
items_text i [] = quoted i
items_text i (j ∷ js) = b'\'' ∷ (i ++ b'\'' ∷ b',' ∷ b' ' ∷ items_text j js)

abbrev pub bracketed : Text → List Text → Text
bracketed i js = b'[' ∷ (items_text i js ++ b']' ∷ [])

split_list-single :
    (v s p : Text) (ps : List Text)
    → NoQuote v
    → split_list outside s ≡ ok (p ∷ ps)
    → split_list single (v ++ b'\'' ∷ s) ≡ ok ((v ++ b'\'' ∷ p) ∷ ps)
unfolding split_list
split_list-single [] s p ps b h = rw (h, split_list) refl
split_list-single (c ∷ v) s p ps b h = ground (arith, split_list-single v s p ps b.1 h, b.0)

split_list-items :
    (i : Text) (js : List Text)
    → All NoQuote (i ∷ js)
    → split_list outside (items_text i js) ≡ ok (quoted i ∷ map (λ j. b' ' ∷ quoted j) js)
unfolding split_list
split_list-items i [] b = rw (split_list-single i [] [] [] b.0 refl, split_list) refl
split_list-items i (j ∷ js) b =
    let rest : split_list outside (b',' ∷ b' ' ∷ items_text j js)
        ≡ ok ([] ∷ map (λ k. b' ' ∷ quoted k) (j ∷ js)) =
      rw (split_list-items j js b.1, split_list) refl in
    rw
      (
        split_list-single i (b',' ∷ b' ' ∷ items_text j js) [] (map (λ k. b' ' ∷ quoted k) (j ∷ js))
            b.0 rest,
        split_list,
      )
      refl

pub list_entry-quoted : (std : Std) (i : Text) → i ≢ [] → list_entry std (quoted i) ≡ ok i
unfolding list_entry
list_entry-quoted std [] h = absurd (h refl)
list_entry-quoted std (c ∷ i) h = rw (unquote-quoted std (c ∷ i), list_entry) refl

parse_inner-cons :
    (std : Std) (c : ℕ) (s : Text)
    → parse_inner std (c ∷ s) ≡ (split_list outside (c ∷ s) >>= list_entries std)
unfolding parse_inner
parse_inner-cons std c s = refl

list_entries-cons :
    (std : Std) (p : Text) (ps : List Text)
    → list_entries std (p ∷ ps)
      ≡ (list_entry std (trim_space p) >>= (λ q. map_ok (λ qs. q ∷ qs) (list_entries std ps)))
unfolding list_entries
list_entries-cons std p ps = refl

list_entries-quoted :
    (std : Std) (js : List Text)
    → All (λ i. i ≢ []) js
    → list_entries std (map (λ j. b' ' ∷ quoted j) js) ≡ ok js
unfolding list_entries skip_space
list_entries-quoted std [] h = refl
list_entries-quoted std (j ∷ js) h =
    ap
      (λ t.
        list_entry std t
        >>= (λ q. map_ok (λ qs. q ∷ qs) (list_entries std (map (λ k. b' ' ∷ quoted k) js))))
      (trim_space-quoted j)
    ∙ rw (list_entry-quoted std j h.0, list_entries-quoted std js h.1) refl

-- The items end in a quote.
abbrev items_init : Text → List Text → Text
items_init i [] = b'\'' ∷ i
items_init i (j ∷ js) = b'\'' ∷ (i ++ b'\'' ∷ b',' ∷ b' ' ∷ items_init j js)

items_text-init : (i : Text) (js : List Text) → items_text i js ≡ items_init i js ++ b'\'' ∷ []
items_text-init i [] = refl
items_text-init i (j ∷ js) =
    ap (λ t. b'\'' ∷ (i ++ b'\'' ∷ b',' ∷ b' ' ∷ t)) (items_text-init j js)
    ∙ sym (append_assoc (b'\'' ∷ i) (b'\'' ∷ b',' ∷ b' ' ∷ items_init j js) (b'\'' ∷ []))

items_first : (i : Text) (js : List Text) → (t : Text) × (items_text i js ≡ b'\'' ∷ t)
items_first i [] = (i ++ b'\'' ∷ [], refl)
items_first i (j ∷ js) = (i ++ b'\'' ∷ b',' ∷ b' ' ∷ items_text j js, refl)

trim_space-items : (i : Text) (js : List Text) → trim_space (items_text i js) ≡ items_text i js
trim_space-items i js =
    let (t, e) = items_first i js in
    ap trim_space e
    ∙ (ap cut_space (skip_space-visible b'\'' t refl)
        ∙ (ap cut_space (sym e ∙ items_text-init i js)
            ∙ (cut_space-end (items_init i js) b'\'' refl ∙ sym (items_text-init i js))))

trim_space-bracketed : (i : Text) (js : List Text) → trim_space (bracketed i js) ≡ bracketed i js
trim_space-bracketed i js =
    ap cut_space (skip_space-visible b'[' (items_text i js ++ b']' ∷ []) refl)
    ∙ cut_space-end (b'[' ∷ items_text i js) b']' refl

parse_inner-items :
    (std : Std) (i : Text) (js : List Text)
    → All IsItem (i ∷ js)
    → parse_inner std (items_text i js) ≡ ok (i ∷ js)
parse_inner-items std i js h =
    let (t, e) = items_first i js in
    let filled = All-imp (λ k a. a.0) (i ∷ js) h in
    let bare = All-imp (λ k a. a.1) (i ∷ js) h in
    ap (parse_inner std) e
    ∙ (parse_inner-cons std b'\'' t
        ∙ (ap (λ u. split_list outside u >>= list_entries std) (sym e)
            ∙ (ap (λ o. o >>= list_entries std) (split_list-items i js bare)
                ∙ (list_entries-cons std (quoted i) (map (λ j. b' ' ∷ quoted j) js)
                    ∙ (ap
                          (λ t. list_entry std t >>= (λ q.
                            map_ok (λ qs. q ∷ qs)
                              (list_entries std (map (λ k. b' ' ∷ quoted k) js))))
                          (trim_space-quoted i)
                        ∙ rw (list_entry-quoted std i filled.0, list_entries-quoted std js filled.1)
                            refl)))))

-- Quoted items in brackets are read as they are.
pub parse_list-bracketed :
    (std : Std) (i : Text) (js : List Text)
    → All IsItem (i ∷ js)
    → parse_list std (bracketed i js) ≡ ok (i ∷ js)
unfolding parse_list parse_brackets
parse_list-bracketed std i js h =
    ap (parse_brackets std) (trim_space-bracketed i js)
    ∙ rw (closed_by-end b']' (items_text i js), parse_brackets)
        (ap (parse_inner std) (trim_space-items i js) ∙ parse_inner-items std i js h)
