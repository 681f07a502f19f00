-- ===== src/Config/Find.antt =====
-- internal/config/config.go: where the file is looked for, and the settings as a map.
use mutation_judge.Base.{
  ℕ, Bool, true, false, List, [], ◌∷◌, Option, none, some, Text, codes, has_suffix, ◌||◌,
}
use mutation_judge.Base.Int.{ℤ}
use mutation_judge.Base.Outcome.{Outcome, ok, fail, wrap}
use mutation_judge.Model.{Float64}
use mutation_judge.Config.{Config, Std, default_config}
use mutation_judge.Config.Load.{LoadError, load}

pub data Setting : Type 0 where
  texts : List Text → Setting
  text : Text → Setting
  boolean : Bool → Setting
  integer : ℤ → Setting
  float : Float64 → Setting

-- `AsMap`
unfoldable pub as_map : Std → Config → List (Text × Setting)
as_map std c =
    (codes "operators", texts c.operators)
    ∷ (codes "timeout", text (std.duration_text c.timeout))
    ∷ (codes "preparation_timeout", text (std.duration_text c.preparation_timeout))
    ∷ (codes "total_timeout", text (std.duration_text c.total_timeout))
    ∷ (codes "test_run", text c.test_run)
    ∷ (codes "format", text c.format)
    ∷ (codes "output", text c.output)
    ∷ (codes "cache_dir", text c.cache_dir)
    ∷ (codes "cache", boolean c.cache)
    ∷ (codes "max_mutants", integer c.max_mutants)
    ∷ (codes "ci_min_score", float c.ci_min_score)
    ∷ (codes "ci_exit_code", integer c.ci_exit_code)
    ∷ (codes "include_generated", boolean c.include_generated)
    ∷ (codes "changed", text c.changed_base)
    ∷ (codes "progress", boolean c.progress)
    ∷ (codes "narrow_test_scope", boolean c.narrow_test_scope)
    ∷ (codes "coverage_test_selection", boolean c.coverage_test_selection)
    ∷ (codes "workers", integer c.workers)
    ∷ []

-- A name that `os.Stat` finds, and what reading it gives, if it can be read.
pub data Found : Type 0 where
  absent unreadable : Found
  content : Text → Found

abbrev pub config_names : List Text
config_names =
    codes "mutation-judge.toml"
    ∷ codes ".mutation-judge.toml"
    ∷ codes "mutation-judge.yaml"
    ∷ codes ".mutation-judge.yaml"
    ∷ codes "mutation-judge.yml"
    ∷ codes ".mutation-judge.yml"
    ∷ []

-- The files of the directories from the start to the root, where `filepath.Dir` goes up.
abbrev pub Dir : Type 0
Dir = Text → Found

pub data FindError : Type 0 where
  cannot_read : FindError
  in_file : LoadError → FindError

-- The names are in lower case; the extension decides.
unfoldable pub is_yaml : Text → Bool
is_yaml name = has_suffix (codes ".yaml") name || has_suffix (codes ".yml") name

abbrev pub is_there : Found → Bool
is_there absent = false
is_there _ = true

unfoldable pub first_there : Dir → List Text → Option Text
first_there dir [] = none
first_there dir (name ∷ names) = elim (is_there (dir name)) [
  | true ↦ some name
  | false ↦ first_there dir names
]

module _ (std : Std) where
  unfoldable pub load_found : Text → Found → Outcome FindError Config
  unfolding load is_yaml default_config
  load_found name (content t) = wrap in_file (load std (is_yaml name) t default_config)
  load_found name _ = fail cannot_read

  -- `FindAndLoad`: the result, and the name of the file and how many directories it is above the
  -- start, if there is one.
  unfoldable pub find_and_load : ℕ → List Dir → Outcome FindError Config × Option (ℕ × Text)
  unfolding first_there load_found
  find_and_load up [] = (ok default_config, none)
  find_and_load up (dir ∷ parents) = elim (first_there dir config_names) [
    | some name ↦ (load_found name (dir name), some (up, name))
    | none ↦ elim (is_there (dir (codes "go.mod"))) [
      | true ↦ (ok default_config, none)
      | false ↦ find_and_load (ℕ.suc up) parents
    ]
  ]
