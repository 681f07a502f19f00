-- ===== src/History.antt =====
-- internal/history/history.go: one line of JSON to each run, appended to a log that is read back.
pub mod Reading
mod Tests
use mutation_judge.Base.{
  ℕ, ◌+◌, ◌-◌, Bool, true, false, List, [], ◌∷◌, ◌++◌, Option, none, some, Text, codes, length,
  take, ltb, leb, if◌then◌else◌, map,
}
use mutation_judge.Base.Int.{ℤ, pos}
use mutation_judge.Base.Outcome.{Outcome, ok, fail, map_ok, ok_or, ◌>>=◌}
use mutation_judge.Base.Trim.{trim_space, skip_space, cut_space}
use mutation_judge.GitDiff.Scan.{raw_lines, drop_cr}
use mutation_judge.Model.{Report, Float64, AnyValue, int, text}
use mutation_judge.Model.Validate.{lookup, is_empty}

-- `Entry`; `time` counts from the zero time.
pub record Entry : Type 0 where
  pub time : ℤ
  pub label : Text
  pub score : Float64
  pub score_text : Text
  pub generated : ℤ
  pub killed : ℤ
  pub survived : ℤ
  pub invalid : ℤ
  pub timeout : ℤ
  pub unknown : ℤ
  pub unsupported : ℤ
  pub equivalent : ℤ
  pub complete : Bool
  pub discovered : ℤ
  pub retained : ℤ
  pub completed : ℤ
  pub patterns : List Text
  pub working_directory : Text
  pub operator_semantics : Text
  pub operator_selection : Option AnyValue
  pub test_run : Option AnyValue
  pub coverage_selection : Option AnyValue
  pub narrow_test_scope : Option AnyValue

-- A value of a map that may be nil.
unfoldable pub value_of : Text → Option (List (Text × AnyValue)) → Option AnyValue
unfolding lookup
value_of key none = none
value_of key (some m) = lookup key m

-- `boundInt` and `boundString`: a missing key or a value of another type is the zero value.
unfoldable pub bound_int : Option (List (Text × AnyValue)) → Text → ℤ
unfolding value_of
bound_int m key = elim (value_of key m) [ none ↦ pos 0 | some v ↦ elim v [ int n ↦ n | _ ↦ pos 0 ] ]

unfoldable pub bound_string : Option (List (Text × AnyValue)) → Text → Text
unfolding value_of
bound_string m key = elim (value_of key m) [ none ↦ [] | some v ↦ elim v [ text t ↦ t | _ ↦ [] ] ]

unfoldable pub entry_from_report : Text → Report → ℤ → Entry
unfolding bound_int bound_string value_of
entry_from_report label r t = record {
  time = t;
  label = label;
  score = r.summary.score;
  score_text = r.summary.score_text;
  generated = r.summary.generated;
  killed = r.summary.killed;
  survived = r.summary.survived;
  invalid = r.summary.invalid;
  timeout = r.summary.timeout;
  unknown = r.summary.unknown;
  unsupported = r.summary.unsupported;
  equivalent = r.summary.equivalent;
  complete = r.complete;
  discovered = bound_int r.bounds (codes "discovered_before_bound");
  retained = bound_int r.bounds (codes "retained_after_bound");
  completed = bound_int r.bounds (codes "completed_mutants");
  patterns = r.patterns;
  working_directory = bound_string r.bounds (codes "test_working_directory");
  operator_semantics = bound_string r.bounds (codes "operator_semantics");
  operator_selection = value_of (codes "operators") r.effective_config;
  test_run = value_of (codes "test_run") r.effective_config;
  coverage_selection = value_of (codes "coverage_test_selection") r.effective_config;
  narrow_test_scope = value_of (codes "narrow_test_scope") r.effective_config;
}

-- encoding/json at entries.
pub record Codec : Type 0 where
  pub marshal : Entry → Option Text
  pub unmarshal : Text → Option Entry

pub data AppendError : Type 0 where
  mkdir_failed open_failed encode_failed write_failed : AppendError

-- What the file system does during a call: `written` is how many bytes are there when a write fails.
pub record Env : Type 0 where
  pub can_mkdir : Bool
  pub can_open : Bool
  pub written : Option ℕ

-- The log is missing, or has this content.
abbrev pub content_of : Option Text → Text
content_of none = []
content_of (some t) = t

unfoldable pub append : Codec → Env → Option Text → Entry → Option Text × Option AppendError
append codec env file e =
    if env.can_mkdir
    then (if env.can_open
        then elim (codec.marshal e) [
          | none ↦ (some (content_of file), some encode_failed)
          | some t ↦ elim env.written [
            | none ↦ (some (content_of file ++ (t ++ b'\n' ∷ [])), none)
            | some k ↦ (some (content_of file ++ take k (t ++ b'\n' ∷ [])), some write_failed)
          ]
        ]
        else (file, some open_failed))
    else (file, some mkdir_failed)

pub data ReadError : Type 0 where
  cannot_open too_long : ReadError
  bad_line : ℕ → ReadError

-- The loop from line `n`. The scanner refuses a line of 1 MiB.
unfoldable pub read_lines : Codec → ℕ → List Text → Outcome ReadError (List Entry)
unfolding drop_cr skip_space cut_space
read_lines codec n [] = ok []
read_lines codec n (l ∷ ls) =
    let rest = read_lines codec (n + 1) ls in
    let line = trim_space (drop_cr l) in
    if leb 1048576 (length l)
    then fail too_long
    else if is_empty line
    then rest
    else ok_or (bad_line n) (codec.unmarshal line) >>= λ e. map_ok (λ es. e ∷ es) rest

-- `Read`, where an existing log can be opened or not.
unfoldable pub read : Codec → Bool → Option Text → Outcome ReadError (List Entry)
unfolding read_lines raw_lines
read codec can_open none = ok []
read codec can_open (some t) =
    if can_open then read_lines codec 1 (raw_lines t) else fail cannot_open

-- `RenderTrend`: the widest label, in bytes, and a line to each entry. `padded` is the verb `%-*s`,
-- and `percent` the verb `%.1f`.
pub record Verbs : Type 0 where
  pub padded : ℕ → Text → Text
  pub percent : Float64 → Text

unfoldable pub widest : ℕ → List Entry → ℕ
widest width [] = width
widest width (e ∷ es) = widest (if ltb width (length e.label) then length e.label else width) es

abbrev pub trend_line : Verbs → ℕ → Entry → Text
trend_line v width e = v.padded width e.label ++ (codes "  " ++ (v.percent e.score ++ codes "%\n"))

-- `errWriter`: what was written, until a write fails.
pub record ErrWriter : Type 0 where
  pub out : Text
  pub err : Bool

unfoldable pub printf : (Text → Bool) → ErrWriter → Text → ErrWriter
printf fails w t =
    if w.err
    then w
    else if fails w.out
    then record w { err = true }
    else record w { out = w.out ++ t }

unfoldable pub print_lines : (Text → Bool) → ErrWriter → List Text → ErrWriter
unfolding printf
print_lines fails w [] = w
print_lines fails w (l ∷ ls) = print_lines fails (printf fails w l) ls

unfoldable pub render_trend : Verbs → (Text → Bool) → List Entry → ErrWriter
unfolding print_lines widest
render_trend v fails es =
    print_lines fails (record { out = []; err = false }) (map (trend_line v (widest 0 es)) es)
