-- ===== src/Cache.antt =====
-- internal/cache/cache.go: results that are kept between runs. The directory is the map from a key to
-- what its file holds; what the file system does during a call is an argument.
pub mod Reuse
mod Tests
use mutation_judge.Base.{
  ℕ, Bool, true, false, not, ◌&&◌, ◌||◌, List, [], ◌∷◌, Option, none, some, Text, codes, text_eq,
  length, leb, ◌==◌, if◌then◌else◌,
}
use mutation_judge.Base.Int.{ℤ}
use mutation_judge.Model.{Verdict, killed, survived, invalid, Assertion, Panic}

-- `runner.Result`
pub record RunResult : Type 0 where
  pub verdict : Verdict
  pub output : Text
  pub tests : List Text
  pub assertions : List Assertion
  pub panics : List Panic
  pub duration_ms : ℤ
  pub output_truncated : Bool
  pub exit_code : ℤ
  pub go_version : Text

abbrev pub cache_schema : Text
cache_schema = codes "mutation-judge-cache/v2"

unfoldable pub cacheable : RunResult → Bool
cacheable r = elim r.verdict [ killed ↦ true | survived ↦ true | invalid ↦ true | _ ↦ false ]

pub record Entry : Type 0 where
  pub schema : Text
  pub result : RunResult

-- encoding/json at entries.
pub record EntryCodec : Type 0 where
  pub marshal : Entry → Option Text
  pub unmarshal : Text → Option Entry

abbrev pub Files : Type 0
Files = Text → Option Text

abbrev pub write_file : Text → Text → Files → Files
write_file key content files k = if text_eq key k then some content else files k

-- The bytes that `validKey` accepts; a character of more bytes has none of them.
abbrev all_hex : Text → Bool
all_hex [] = true
all_hex (c ∷ s) = (leb b'0' c && leb c b'9' || leb b'a' c && leb c b'f') && all_hex s

unfoldable pub valid_key : Text → Bool
valid_key key = length key == 64 && all_hex key

pub data PutError : Type 0 where
  bad_key mkdir_failed marshal_failed create_failed chmod_failed write_failed close_failed
        rename_failed :
      PutError

-- `cancelled` is the context before the work, `cancelled_late` before the rename.
pub record Env : Type 0 where
  pub cancelled : Bool
  pub cancelled_late : Bool
  pub can_mkdir : Bool
  pub can_create : Bool
  pub can_chmod : Bool
  pub can_write : Bool
  pub can_close : Bool
  pub can_rename : Bool

module _ (codec : EntryCodec) (enabled : Bool) where
  unfoldable pub get : Files → Text → Option RunResult
  unfolding valid_key cacheable text_eq
  get files key = if not enabled || not (valid_key key) then none else elim (files key) [
    | none ↦ none
    | some b ↦ elim (codec.unmarshal b) [
      | none ↦ none
      | some e ↦
          if not (text_eq e.schema cache_schema) || not (cacheable e.result)
          then none
          else some e.result
    ]
  ]

  -- Behind `json.Marshal`.
  unfoldable pub commit : Env → Files → Text → Text → Files × Option PutError
  commit env files key b =
      if not env.can_create
      then (files, some create_failed)
      else if not env.can_chmod
      then (files, some chmod_failed)
      else if not env.can_write
      then (files, some write_failed)
      else if not env.can_close
      then (files, some close_failed)
      else if env.cancelled_late
      then (files, none)
      else if not env.can_rename
      then (files, some rename_failed)
      else (write_file key b files, none)

  -- `PutContext`
  unfoldable pub put : Env → Files → Text → RunResult → Files × Option PutError
  unfolding valid_key cacheable commit
  put env files key r =
      if not enabled
      then (files, none)
      else if not (valid_key key)
      then (files, some bad_key)
      else if not (cacheable r) || env.cancelled
      then (files, none)
      else if not env.can_mkdir
      then (files, some mkdir_failed)
      else elim (codec.marshal (record { schema = cache_schema; result = r })) [
        | none ↦ (files, some marshal_failed)
        | some b ↦ commit env files key b
      ]
