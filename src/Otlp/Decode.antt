-- ===== src/Otlp/Decode.antt =====
-- `Decode` of internal/otlp/decoder.go: which parser a body goes to, and the bound on the bytes of a
-- body once it is decompressed. A body is a list of bytes.
pub mod Limits
use Prim.Native.Char.{Char, code}
use Prim.Native.String.{String, [] as empty, ◌∷◌ as char, len, slice}
use text.Mathlib.Text.{starts_with}
use traceboard.Prelude.{
  ℕ, zero, suc, ◌≤◌, ◌+◌, Bool, true, false, Option, none, some, List, [], ◌∷◌, ◌≡◌, refl, ◌==◌,
  ◌||◌, ◌&&◌, ltb, eqb, arith, length, take, Bool-cases, inl, inr, if◌then◌else◌,
}
use traceboard.Otlp.{Signal}

pub data Kind : Type 0 where
  kind_traces : Kind
  kind_logs : Kind
  kind_metrics : Kind
  other_kind : Kind

pub data DecodeError : Type 0 where
  payload_too_large : DecodeError
  unsupported_kind : DecodeError
  malformed : DecodeError

pub data Decoded {ℓ} (A : Type ℓ) : Type ℓ where
  decoded : A → Decoded A
  failed : DecodeError → Decoded A

-- MaxDecompressedBytes
abbrev pub max_decompressed_bytes : ℕ
max_decompressed_bytes = 8388608

-- A gzip reader: the bytes that it gives, whether an error ends them, and whether the Read that gives the
-- last byte already returns that error, as a failed checksum does.
pub record GzipStream : Type 0 where
  pub bytes : List ℕ
  pub broken : Bool
  pub at_last_byte : Bool

-- What the decoder calls: gzip.NewReader, with `none` for an error, strings.TrimSpace,
-- strings.ToLower, strings.EqualFold, and the parsers protojson.Unmarshal (`true`) and proto.Unmarshal (`false`).
pub record Parsers : Type 0 where
  pub new_reader : List ℕ → Option GzipStream
  pub trim_space : String → String
  pub to_lower : String → String
  pub equal_fold : String → String → Bool
  pub unmarshal : Bool → Kind → List ℕ → Option Signal

-- looksLikeGzip
unfoldable pub looks_like_gzip : List ℕ → Bool
looks_like_gzip (first ∷ second ∷ rest) = eqb first 31 && eqb second 139
looks_like_gzip body = false

abbrev is_space : ℕ → Bool
is_space b = eqb b 32 || (eqb b 9 || (eqb b 13 || eqb b 10))

-- looksLikeJSON
unfoldable pub looks_like_json : List ℕ → Bool
looks_like_json [] = false
looks_like_json (b ∷ rest) =
    let later = looks_like_json rest in if is_space b then later else eqb b 123 || eqb b 91

-- strings.Split at a character: the first part and the others.
unfoldable pub split_at : ℕ → String → String × List String
split_at mark empty = (empty, [])
split_at mark (char c s) =
    let (part, parts) = split_at mark s in
    if eqb (code c) mark then (empty, part ∷ parts) else (char c part, parts)

-- strings.Cut at a character: what stands before and after its first occurrence.
unfoldable pub cut_at : ℕ → String → Option (String × String)
cut_at mark empty = none
cut_at mark (char c s) =
    let later = cut_at mark s in
    if eqb (code c) mark
    then some (empty, s)
    else elim later [ none ↦ none | some cut ↦ some (char c cut.0, cut.1) ]

-- strings.Contains
unfoldable pub contains : String → String → Bool
contains part empty = part == ""
contains part (char c s) = starts_with (char c s) part || contains part s

drop_quotes : String → String
drop_quotes empty = empty
drop_quotes (char c s) = let rest = drop_quotes s in if eqb (code c) 34 then rest else char c s

drop_last_quotes : String → String
drop_last_quotes empty = empty
drop_last_quotes (char c s) =
    let rest = drop_last_quotes s in if eqb (code c) 34 && rest == "" then empty else char c rest

-- strings.Trim of double quotes.
unfoldable pub trim_quotes : String → String
unfolding drop_quotes drop_last_quotes
trim_quotes s = drop_last_quotes (drop_quotes s)

module _ (parsers : Parsers) where
  -- One parameter of a content type, as the key and the value that it writes.
  parameter : Option (String × String) → String → String → String
  parameter none key found = found
  parameter (some (name, raw)) key found =
      if parsers.to_lower (parsers.trim_space name) == key
      then trim_quotes (parsers.trim_space raw)
      else found

  -- The value of a parameter: the last that the content type writes, or empty.
  unfoldable pub parameter_of : List String → String → String → String
  unfolding parameter cut_at trim_quotes
  parameter_of [] key found = found
  parameter_of (part ∷ rest) key found =
      parameter_of rest key (parameter (cut_at 61 part) key found)

  -- What `decompress` asks of parseContentType: does the content type name gzip?
  unfoldable pub names_gzip : String → Bool
  unfolding split_at contains parameter_of
  names_gzip content_type =
      let (media_type, parts) = split_at 59 content_type in
      contains "gzip" (parsers.to_lower (parsers.trim_space media_type))
      || parsers.equal_fold (parameter_of parts "encoding" "") "gzip"

  -- Does io.ReadAll meet the error when it is given `n` bytes at most? The n-th byte ends it, so an error
  -- that comes with a Read of its own is then not seen.
  unfoldable pub read_error : ℕ → GzipStream → Bool
  read_error n stream =
      stream.broken
      && (ltb (length stream.bytes) n || (eqb (length stream.bytes) n && stream.at_last_byte))

  -- readLimited: at most `limit + 1` bytes of the stream are read; an error comes before the size.
  unfoldable pub read_limited : ℕ → GzipStream → Decoded (List ℕ)
  unfolding read_error
  read_limited limit stream =
      let payload = take (suc limit) stream.bytes in
      if read_error (suc limit) stream
      then failed malformed
      else if ltb limit (length payload)
      then failed payload_too_large
      else decoded payload

  unfoldable pub inflate : ℕ → Option GzipStream → Decoded (List ℕ)
  unfolding read_limited
  inflate limit none = failed malformed
  inflate limit (some stream) = read_limited limit stream

  unfoldable pub within : ℕ → Decoded (List ℕ) → Decoded (List ℕ × Bool)
  unfolding looks_like_json
  within limit (failed e) = failed e
  within limit (decoded body) =
      if ltb limit (length body)
      then failed payload_too_large
      else decoded (body, looks_like_json body)

  -- decompress: the body, and whether it looks like JSON.
  unfoldable pub decompress : String → List ℕ → ℕ → Decoded (List ℕ × Bool)
  unfolding within inflate names_gzip looks_like_gzip
  decompress content_type body limit = within limit (
      if names_gzip content_type || looks_like_gzip body
      then inflate limit (parsers.new_reader body)
      else decoded body)

  abbrev pub clamp_bytes : ℕ → ℕ
  clamp_bytes limit =
      if eqb limit 0 || ltb max_decompressed_bytes limit then max_decompressed_bytes else limit

  unfoldable pub unmarshalled : Option Signal → Decoded Signal
  unmarshalled none = failed malformed
  unmarshalled (some signal) = decoded signal

  unfoldable pub parse : Kind → Decoded (List ℕ × Bool) → Decoded Signal
  unfolding unmarshalled
  parse kind (failed e) = failed e
  parse other_kind (decoded (payload, is_json)) = failed unsupported_kind
  parse kind_traces (decoded (payload, is_json)) =
      unmarshalled (parsers.unmarshal is_json kind_traces payload)
  parse kind_logs (decoded (payload, is_json)) =
      unmarshalled (parsers.unmarshal is_json kind_logs payload)
  parse kind_metrics (decoded (payload, is_json)) =
      unmarshalled (parsers.unmarshal is_json kind_metrics payload)

  -- Decode
  unfoldable pub decode_signal : Kind → String → List ℕ → ℕ → Decoded Signal
  unfolding parse decompress
  decode_signal kind content_type body limit =
      parse kind (decompress content_type body (clamp_bytes limit))
