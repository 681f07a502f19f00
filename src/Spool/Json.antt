-- ===== src/Spool/Json.antt =====
-- The parameter that stands for encoding/json: one JSON text for a value, and the decoders.
use mutation_judge.Base.{◌≡◌, [], ◌∷◌, ◌++◌, Option, some, Text}

-- What `Decoder.Decode` finds in front: the end of the input, no JSON, or a value and what is left.
pub data Decoded (A : Type 0) : Type 0 where
  eof bad : Decoded A
  value : A → Text → Decoded A

-- `encode` is `json.Marshal`, `unmarshal` is `json.Unmarshal`, `decode` one
-- `Decoder.Decode`, and `decode_raw` one into a `json.RawMessage`.
pub record Codec (A : Type 0) : Type 0 where
  pub encode : A → Option Text
  pub unmarshal : Text → Option A
  pub decode : Text → Decoded A
  pub decode_raw : Text → Decoded Text

-- The documented behaviour that the spools rely on, for the values that have a JSON text: it is read
-- back, from memory and from a stream, where newlines are skipped. `norm` is what the text of a value is
-- read back as: it need not be the value itself, since an `any` that holds an int comes back as a
-- float64, and one that holds a []string as a []any.
pub record IsStream {A : Type 0} (codec : Codec A) (norm : A → A) : Type 0 where
  pub unmarshal_line :
      (a : A) (t : Text)
      → codec.encode a ≡ some t
      → codec.unmarshal (t ++ b'\n' ∷ []) ≡ some (norm a)
  pub raw_nil : codec.decode_raw [] ≡ eof
  pub raw_newline : (s : Text) → codec.decode_raw (b'\n' ∷ s) ≡ codec.decode_raw s
  pub decode_newline : (s : Text) → codec.decode (b'\n' ∷ s) ≡ codec.decode s
  pub decode_line :
      (a : A) (t s : Text)
      → codec.encode a ≡ some t
      → codec.decode (t ++ b'\n' ∷ s) ≡ value (norm a) (b'\n' ∷ s)
