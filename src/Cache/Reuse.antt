-- ===== src/Cache/Reuse.antt =====
-- What internal/cache/cache.go gives back is what it was given, and never a transient result.
use mutation_judge.Base.{
  ◌≡◌, refl, inl, inr, Bool, true, false, not, ◌&&◌, ◌||◌, Option, none, some, Text, text_eq,
  text_eq_iff, text_eq_refl, if◌then◌else◌, arith, Bool-cases, Option-cases,
}
use mutation_judge.Cache.{
  RunResult, EntryCodec, cache_schema, Files, write_file, Env, PutError, valid_key, cacheable, get,
  put, commit,
}

-- `json.Unmarshal` reads back what `json.Marshal` wrote of this result.
abbrev pub IsFaithful : EntryCodec → RunResult → Type 0
IsFaithful codec r =
    (t : Text)
    → codec.marshal (record { schema = cache_schema; result = r }) ≡ some t
    → codec.unmarshal t ≡ some (record { schema = cache_schema; result = r })

module _ (codec : EntryCodec) (enabled : Bool) where
  -- Nothing is to be kept.
  abbrev excused : Env → RunResult → Bool
  excused env r = not enabled || not (cacheable r) || env.cancelled || env.cancelled_late

  -- A call fails or is excused, and leaves the directory as it is, or stores the entry of its result
  -- under its key.
  data Put (env : Env) (files : Files) (key : Text) (r : RunResult)
      : Files × Option PutError → Type 0 where
    failed : {e : PutError} → Put env files key r (files, some e)
    skipped : excused env r ≡ true → Put env files key r (files, none)
    stored :
        (b : Text)
        → valid_key key ≡ true
        → excused env r ≡ false
        → codec.marshal (record { schema = cache_schema; result = r }) ≡ some b
        → Put env files key r (write_file key b files, none)

  if_Put :
      (b : Bool) {env : Env} {files : Files} {key : Text} {r : RunResult}
      {p q : Files × Option PutError}
      → (b ≡ true → Put env files key r p)
      → (b ≡ false → Put env files key r q)
      → Put env files key r (if b then p else q)
  if_Put true h k = h refl
  if_Put false h k = k refl

  put-Put :
      (env : Env) (files : Files) (key : Text) (r : RunResult)
      → Put env files key r (put codec enabled env files key r)
  unfolding put commit
  put-Put env files key r =
      if_Put (not enabled) (λ h. skipped (ground (arith, h)))
        (λ on.
          if_Put (not (valid_key key)) (λ h. failed)
            (λ v.
              if_Put (not (cacheable r) || env.cancelled) (λ h. skipped (ground (arith, h)))
                (λ c.
                  if_Put (not env.can_mkdir) (λ h. failed)
                    (λ m.
                      elim (Option-cases
                        (codec.marshal (record { schema = cache_schema; result = r }))) [
                          | inl n ↦ rw n failed
                          | inr (b, e) ↦ rw e (
                              if_Put (not env.can_create) (λ h. failed)
                                (λ p1.
                                  if_Put (not env.can_chmod) (λ h. failed)
                                    (λ p2.
                                      if_Put (not env.can_write) (λ h. failed)
                                        (λ p3.
                                          if_Put (not env.can_close) (λ h. failed)
                                            (λ p4.
                                              if_Put env.cancelled_late
                                                (λ h. skipped (ground (arith, h)))
                                                (λ p5.
                                                  if_Put (not env.can_rename) (λ h. failed)
                                                    (λ p6.
                                                      stored b (ground (arith, v))
                                                        (ground (arith, on, c, p5)) e)))))))
                        ]))))

  -- What a lookup gives behind a call.
  abbrev pub After : Env → Files → Text → RunResult → Files × Option PutError → Type 0
  After env files key r (files', some e) = files' ≡ files
  After env files key r (files', none) =
      (k : Text)
      → get codec enabled files' k
        ≡ (if text_eq key k && not (excused env r) then some r else get codec enabled files k)

  Put-After :
      {env : Env} {files : Files} {key : Text} {r : RunResult} {q : Files × Option PutError}
      → IsFaithful codec r
      → Put env files key r q
      → After env files key r q
  unfolding get
  Put-After faithful failed = refl
  Put-After {env} {files} {key} {r} faithful (skipped h) = λ k. ground (arith, h)
  Put-After {env} {files} {key} {r} faithful (stored b v o e) = λ k.
      elim (Bool-cases (text_eq key k)) [
        | inr other ↦ rw (other, get) refl
        | inl m ↦
            let same : key ≡ k = (text_eq_iff key k).0 m in
            let read = faithful b e in
            let valid : valid_key k ≡ true = rw same at v in
            ground (arith, read, valid, o, m, text_eq_refl cache_schema)
      ]

  -- A call that reports an error leaves the directory as it is. Behind one that does not, a lookup of
  -- its key gives its result, and any other lookup gives what it gave before; so does every lookup if
  -- the cache is off, the result is not a stable conclusion, or the context has ended.
  pub put-After :
      (env : Env) (files : Files) (key : Text) (r : RunResult)
      → IsFaithful codec r
      → After env files key r (put codec enabled env files key r)
  put-After env files key r faithful = Put-After faithful (put-Put env files key r)

  -- What the cache gives was enabled, asked for by a digest, and is a stable conclusion.
  get-cacheable :
      (files : Files) (key : Text) (r : RunResult)
      → get codec enabled files key ≡ some r
      → (enabled ≡ true) × (valid_key key ≡ true) × (cacheable r ≡ true)
  unfolding get
  get-cacheable files key r h = ground (arith, h)
