-- ===== src/Cache/Tests.antt =====
-- A result that is kept, and one that is not.
use mutation_judge.Base.{◌≡◌, refl, true, false, [], ◌∷◌, none, some, Text, codes, text_eq}
use mutation_judge.Base.Int.{pos}
use mutation_judge.Model.{killed}
use mutation_judge.Cache.{RunResult, EntryCodec, cache_schema, Env, get, put}
use mutation_judge.Cache.Reuse.{After, put-After}

abbrev killed_result : RunResult
killed_result = record {
  verdict = killed;
  output = [];
  tests = codes "TestA" ∷ [];
  assertions = [];
  panics = [];
  duration_ms = pos 3;
  output_truncated = false;
  exit_code = pos 1;
  go_version = codes "go1";
}

-- A codec that has one text, for this entry.
abbrev one_entry : EntryCodec
one_entry = record {
  marshal = λ e. some [];
  unmarshal = λ t. some (record { schema = cache_schema; result = killed_result });
}

abbrev all_well : Env
all_well = record {
  cancelled = false;
  cancelled_late = false;
  can_mkdir = true;
  can_create = true;
  can_chmod = true;
  can_write = true;
  can_close = true;
  can_rename = true;
}

-- 64 characters.
abbrev digest : Text
digest = codes "0123456789abcdef0123456789abcdef0123456789abcdef0123456789abcdef"

put-After_example :
    After one_entry true all_well
      (λ k. none)
      digest
      killed_result
      (put one_entry true all_well (λ k. none) digest killed_result)
put-After_example = put-After one_entry true all_well (λ k. none) digest killed_result (λ t e. refl)

digest_hit :
    get one_entry true (put one_entry true all_well (λ k. none) digest killed_result).0 digest
    ≡ some killed_result
unfolding put get text_eq
digest_hit = refl
