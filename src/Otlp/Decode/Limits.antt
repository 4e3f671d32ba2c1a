-- ===== src/Otlp/Decode/Limits.antt =====
-- The bytes that `Decode` of internal/otlp/decoder.go lets through.
use traceboard.Prelude.{
  ℕ, suc, ◌≤◌, String, Bool, true, Option, none, some, List, ◌≡◌, ◌≢◌, refl, sym, ap, ◌∙◌, ltb, eqb,
  ◌&&◌, arith, length, take, length-take, Bool-cases, inl, inr, if◌then◌else◌, take-all,
}
use traceboard.Otlp.{Signal}
use traceboard.Otlp.Decode.{
  Kind, kind_traces, kind_logs, kind_metrics, other_kind, Decoded, decoded, failed,
  payload_too_large, malformed, GzipStream, Parsers, max_decompressed_bytes, looks_like_json,
  read_limited, read_error, decompress, decode_signal, clamp_bytes, parse, within, unmarshalled,
}

module _ (parsers : Parsers) where
  -- Reading at most one byte more than the limit decides as reading the whole stream would, up to the
  -- kind of the error: a stream that is longer than the limit is refused, as too large unless it is one
  -- byte longer and its error comes with that byte, a stream within the limit that ends with an error is
  -- malformed, and any other is read whole.
  pub read_limited-whole :
      (limit : ℕ) (stream : GzipStream)
      → read_limited parsers limit stream ≡ (
          if ltb limit (length stream.bytes)
          then failed (
              if stream.broken && (stream.at_last_byte && eqb (length stream.bytes) (suc limit))
              then malformed
              else payload_too_large)
          else if stream.broken
          then failed malformed
          else decoded stream.bytes)
  unfolding read_limited read_error
  read_limited-whole limit stream = elim (Bool-cases (ltb limit (length stream.bytes))) [
    | inl long ↦
        let cut : ltb limit (length (take (suc limit) stream.bytes)) ≡ true =
          ground (arith, long, length-take (suc limit) stream.bytes) in
        ground (arith, cut, long)
    | inr short ↦
        let whole = take-all (suc limit) stream.bytes (ground (arith, short)) in
        rw whole (ground (arith, short))
  ]

  -- What is known of a payload that is let through.
  abbrev IsWithin : ℕ → Decoded (List ℕ × Bool) → Type 0
  IsWithin limit (failed e) = Unit
  IsWithin limit (decoded (payload, is_json)) =
      (length payload ≤ limit) × (is_json ≡ looks_like_json payload)

  within-IsWithin :
      (limit : ℕ) (body : Decoded (List ℕ)) → IsWithin limit (within parsers limit body)
  unfolding within
  within-IsWithin limit (failed e) = tt
  within-IsWithin limit (decoded body) = elim (Bool-cases (ltb limit (length body))) [
    | inl long ↦ rw long tt
    | inr short ↦ rw short (ground (arith, short), refl)
  ]

  unmarshalled-inverse :
      (o : Option Signal) (signal : Signal)
      → unmarshalled parsers o ≡ decoded signal
      → o ≡ some signal
  unfolding unmarshalled
  unmarshalled-inverse none signal h = cc
  unmarshalled-inverse (some s) signal h = cc

  -- A signal that was parsed from a payload.
  abbrev pub IsParsed : Kind → ℕ → Signal → Type 0
  IsParsed kind limit signal =
      (payload : List ℕ) × ((length payload ≤ limit)
        × (parsers.unmarshal (looks_like_json payload) kind payload ≡ some signal))

  parse-IsParsed :
      (kind : Kind) (limit : ℕ) (body : Decoded (List ℕ × Bool)) (signal : Signal)
      → IsWithin limit body
      → parse parsers kind body ≡ decoded signal
      → (kind ≢ other_kind) × IsParsed kind limit signal
  unfolding parse
  parse-IsParsed kind limit (failed e) signal w h = absurd (cc)
  parse-IsParsed other_kind limit (decoded (payload, is_json)) signal w h = absurd (cc)
  parse-IsParsed kind_traces limit (decoded (payload, is_json)) signal w h = (
    (λ e. cc),
    (
      payload,
      (
        w.0,
        ap (λ b. parsers.unmarshal b kind_traces payload) (sym w.1)
            ∙ unmarshalled-inverse _ signal h,
      ),
    ),
  )
  parse-IsParsed kind_logs limit (decoded (payload, is_json)) signal w h = (
    (λ e. cc),
    (
      payload,
      (
        w.0,
        ap (λ b. parsers.unmarshal b kind_logs payload) (sym w.1) ∙ unmarshalled-inverse _ signal h,
      ),
    ),
  )
  parse-IsParsed kind_metrics limit (decoded (payload, is_json)) signal w h = (
    (λ e. cc),
    (
      payload,
      (
        w.0,
        ap (λ b. parsers.unmarshal b kind_metrics payload) (sym w.1)
            ∙ unmarshalled-inverse _ signal h,
      ),
    ),
  )

  -- A signal that `decode_signal` returns is of a kind that it supports, and comes from a payload that holds
  -- no more bytes than the limit asked for, or than 8 MiB where that is not positive or larger, which
  -- the JSON parser gets exactly where it looks like JSON.
  pub decode_signal-IsParsed :
      (kind : Kind) (content_type : String) (body : List ℕ) (limit : ℕ) (signal : Signal)
      → decode_signal parsers kind content_type body limit ≡ decoded signal
      → ((kind ≢ other_kind) × IsParsed kind (clamp_bytes parsers limit) signal)
        × (clamp_bytes parsers limit ≤ max_decompressed_bytes)
  unfolding decode_signal decompress
  decode_signal-IsParsed kind content_type body limit signal h = (
    parse-IsParsed kind (clamp_bytes parsers limit)
        (decompress parsers content_type body (clamp_bytes parsers limit)) signal
        (within-IsWithin (clamp_bytes parsers limit) _) h,
    ground arith,
  )
