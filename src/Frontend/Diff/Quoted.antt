-- ===== src/Frontend/Diff/Quoted.antt =====
-- internal/frontend/frontend.go: git reads the path that `diffPath` wrote.
use mutation_judge.Base.{
  ℕ, ◌+◌, ◌-◌, ◌*◌, ◌/◌, ◌%◌, ◌≡◌, refl, ap, ◌∙◌, Bool, true, false, ◌&&◌, ◌||◌, [], ◌∷◌, ◌++◌,
  Option, none, some, Text, arith, append_assoc, ltb, leb, ◌==◌, if◌then◌else◌, inl, inr,
  Bool-cases,
}
use mutation_judge.Model.Validate.{is_empty}
use mutation_judge.Frontend.Diff.{any_quoted, quote_byte, quote_bytes, diff_path}

-- Between the quotes of a C-quoted path: in front of a byte, behind a backslash, or behind one or two
-- octal digits.
pub data Reading : Type 0 where
  plain : Reading
  escaped : Reading
  second_digit : ℕ → Reading
  third_digit : ℕ → Reading

abbrev pub is_octal : ℕ → Bool
is_octal c = leb 48 c && leb c 55

abbrev pub cons : ℕ → Option Text → Option Text
cons c none = none
cons c (some s) = some (c ∷ s)

unfoldable pub unquote : Reading → Text → Option Text
unquote r [] = none
unquote plain (c ∷ s) =
    let next = unquote plain s in
    let escape = unquote escaped s in
    if c == b'"'
    then (if is_empty s then some [] else none)
    else if c == b'\\'
    then escape
    else cons c next
unquote escaped (c ∷ s) =
    let next = unquote plain s in
    let digits = unquote (second_digit (c - 48)) s in
    if c == b'"' || c == b'\\' then cons c next else if is_octal c then digits else none
unquote (second_digit v) (c ∷ s) =
    let digits = unquote (third_digit (v * 8 + (c - 48))) s in if is_octal c then digits else none
unquote (third_digit v) (c ∷ s) =
    let next = unquote plain s in if is_octal c then cons (v * 8 + (c - 48)) next else none

-- The path of a `---` or a `+++` line.
unfoldable pub read_path : Text → Option Text
unfolding unquote
read_path [] = some []
read_path (c ∷ s) = let quoted = unquote plain s in if c == b'"' then quoted else some (c ∷ s)

-- A control byte is read back from its octal digits.
unquote-octal :
    (c : ℕ) (s : Text)
    → (ltb c 32 || c == 127) ≡ true
    → unquote escaped ((48 + c / 64) ∷ (48 + c / 8 % 8) ∷ (48 + c % 8) ∷ s)
      ≡ cons c (unquote plain s)
unfolding unquote
unquote-octal c s h =
    let d1 : ((48 + c / 64) == b'"' || (48 + c / 64) == b'\\') ≡ false = ground (arith, h) in
    let d2 : is_octal (48 + c / 64) ≡ true = ground (arith, h) in
    let d3 : is_octal (48 + c / 8 % 8) ≡ true = ground (arith, h) in
    let d4 : is_octal (48 + c % 8) ≡ true = ground (arith, h) in
    let value : ((48 + c / 64 - 48) * 8 + (48 + c / 8 % 8 - 48)) * 8 + (48 + c % 8 - 48) ≡ c =
      ground (arith, h) in
    rw (d1, d2, d3, d4) (ap (λ n. cons n (unquote plain s)) value)

unquote-quote_byte :
    (c : ℕ) (s : Text) → unquote plain (quote_byte c ++ s) ≡ cons c (unquote plain s)
unfolding unquote quote_byte
unquote-quote_byte c s = elim (Bool-cases (c == b'\\' || c == b'"')) [
  | inl e ↦ let g : (c == b'"' || c == b'\\') ≡ true = ground (arith, e) in rw (e, g) refl
  | inr e ↦ elim (Bool-cases (ltb c 32 || c == 127)) [
    | inl f ↦ rw (e, f) (unquote-octal c s f)
    | inr f ↦
        let g1 : (c == b'"') ≡ false = ground (arith, e) in
        let g2 : (c == b'\\') ≡ false = ground (arith, e) in rw (e, f, g1, g2) refl
  ]
]

unquote-quote_bytes : (s : Text) → unquote plain (quote_bytes s ++ b'"' ∷ []) ≡ some s
unfolding unquote quote_bytes
unquote-quote_bytes [] = refl
unquote-quote_bytes (c ∷ s) =
    ap (unquote plain) (append_assoc (quote_byte c) (quote_bytes s) (b'"' ∷ []))
    ∙ (unquote-quote_byte c (quote_bytes s ++ b'"' ∷ []) ∙ ap (cons c) (unquote-quote_bytes s))

read_path-unquoted : (s : Text) → any_quoted s ≡ false → read_path s ≡ some s
unfolding read_path any_quoted
read_path-unquoted [] h = refl
read_path-unquoted (c ∷ s) h = let other : (c == b'"') ≡ false = ground (arith, h) in rw other refl

-- Git reads the path that `diffPath` writes as the prefix and the file's name, whatever bytes are in it.
pub read_path-diff_path :
    (prefix file : Text) → read_path (diff_path prefix file) ≡ some (prefix ++ file)
unfolding diff_path read_path
read_path-diff_path prefix file = elim (Bool-cases (any_quoted (prefix ++ file))) [
  | inl e ↦ rw e (unquote-quote_bytes (prefix ++ file))
  | inr e ↦ rw e (read_path-unquoted (prefix ++ file) e)
]
