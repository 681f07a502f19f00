-- ===== src/MutantSpool/Reading.antt =====
-- A reader of internal/mutantspool against the list of records that its spool stands for.
use mutation_judge.Base.{
  ℕ, suc, ◌+◌, ◌≡◌, refl, ap, ◌∙◌, subst, false, List, [], ◌∷◌, ◌++◌, none, some, Text, length,
  get_elem?, append-nil, append_assoc, arith,
}
use mutation_judge.Spool.Json.{Codec, IsStream}
use mutation_judge.Spool.{Spool, Env, newline, empty}
use mutation_judge.Spool.Contents.{concat, Stores, Holds, resident, on_disk, empty-Stores}
use mutation_judge.Spool.Pass.{Lines, length-Lines, append_all, Encodable, Ran, append_all-Ran}
use mutation_judge.MutantSpool.{Reader, read, ended, reader, at_end, next_record, next}

module _ {A : Type 0} (codec : Codec A) where
  -- Calls of `Next` give these records in their order, and then io.EOF.
  pub data Gives : Reader → List A → Type 0 where
    over : {r : Reader} → next codec r ≡ (r, ended) → Gives r []
    gives :
        {r r' : Reader} {m : A} {rs : List A}
        → next codec r ≡ (r', read m)
        → Gives r' rs
        → Gives r (m ∷ rs)

  module _ (law : IsStream codec (λ a. a)) where
    -- The reader of lines in memory, from line `i`.
    memory-Gives :
        (m : List Text) (i : ℕ) (rs : List A) (ls : List Text)
        → Lines codec rs ls
        → ((k : ℕ) → get_elem? m (i + k) ≡ get_elem? ls k)
        → Gives
            (record { file = none; memory = m; index = i; remaining = length rs; closed = false })
            rs
    unfolding next at_end next_record
    memory-Gives m i [] [] h d = over refl
    memory-Gives m i [] (l ∷ ls) h d = absurd h
    memory-Gives m i (a ∷ rs) [] h d = absurd h
    memory-Gives m i (a ∷ rs) (l ∷ ls) ((t, e, p), h) d =
        let here : get_elem? m i ≡ some l = ap (get_elem? m) (omega arith) ∙ d 0 in
        gives (rw (here, p, law.unmarshal_line a t e, next, next_record) refl)
          (memory-Gives m (i + 1) rs ls h (λ k. ap (get_elem? m) (omega arith) ∙ d (suc k)))

    -- The reader of a file with nothing behind the lines.
    file-Gives :
        (content : Text) (m : List Text) (i : ℕ) (rs : List A) (ls : List Text)
        → Lines codec rs ls
        → codec.decode content ≡ codec.decode (concat ls)
        → codec.decode_raw content ≡ codec.decode_raw (concat ls)
        → Gives
            (record {
              file = some content;
              memory = m;
              index = i;
              remaining = length rs;
              closed = false;
            })
            rs
    unfolding next at_end next_record
    file-Gives content m i [] [] h d w = over (rw (w, law.raw_nil, next, at_end) refl)
    file-Gives content m i [] (l ∷ ls) h d w = absurd h
    file-Gives content m i (a ∷ rs) [] h d w = absurd h
    file-Gives content m i (a ∷ rs) (l ∷ ls) ((t, e, p), h) d w =
        gives
          (rw
            (
              d,
              p,
              append_assoc t newline (concat ls),
              law.decode_line a t (concat ls) e,
              next,
              next_record,
            )
            refl)
          (file-Gives (b'\n' ∷ concat ls) m i rs ls h (law.decode_newline _) (law.raw_newline _))

    reader-Gives :
        (s : Spool) (rs : List A) (ls : List Text)
        → Lines codec rs ls
        → Stores s ls []
        → (r : Reader) × (reader s ≡ some r) × Gives r rs
    unfolding reader
    reader-Gives s rs ls h v = go v.holds
      where
        number : s.count ≡ length rs
        number = v.counted ∙ length-Lines codec rs ls h

        go : Holds s ls [] → (r : Reader) × (reader s ≡ some r) × Gives r rs
        go (resident f m b j) = (
          _,
          rw (v.is_open, f, m, number, reader) refl,
          memory-Gives ls 0 rs ls h (λ k. ap (get_elem? ls) (omega arith)),
        )
        go (on_disk f m b) = (
          _,
          rw (v.is_open, f, number, reader) refl,
          file-Gives (concat ls ++ []) [] 0 rs ls h (ap codec.decode (append-nil (concat ls)))
              (ap codec.decode_raw (append-nil (concat ls))),
        )

    -- Whatever the system does: if a run of appends to a new spool reports no error, then a reader of
    -- the spool gives exactly these records in their order, and io.EOF behind them.
    pub reader-append_all :
        (env : ℕ → Env) (rs : List A) (s : Spool)
        → Encodable codec rs
        → append_all codec env 0 empty rs ≡ (s, none)
        → (r : Reader) × (reader s ≡ some r) × Gives r rs
    reader-append_all env rs s n e =
        let (ls, h, v) =
          subst (Ran codec rs) e (append_all-Ran codec env 0 empty [] rs [] n tt empty-Stores) in
        reader-Gives s rs ls h v
