-- ===== src/Ingest/Setup.antt =====
-- The service of internal/ingest/service.go: its limits, its capture modes, and the helpers on maps
-- that do not redact.
use Prim.Native.String.{compare}
use package.text.Mathlib.Text.{is_lt}
use traceboard.Prelude.{ℕ, String, Bool, true, false, List, [], ◌∷◌, ◌==◌, if◌then◌else◌}
use traceboard.Event.{Value, null, text, Items, nil, cons, Fields, end, field, Instant}
use traceboard.Event.Mode.{metadata}
use traceboard.Event.Maps
use traceboard.Redact.{CompiledRule}

pub record Limits : Type 0 where
  pub max_events_per_batch : ℕ
  pub max_content_field_size : ℕ
  pub max_raw_payload_size : ℕ

-- DefaultLimits
abbrev pub default_limits : Limits
default_limits = record {
  max_events_per_batch = 1000;
  max_content_field_size = 262144;
  max_raw_payload_size = 1048576;
}

-- The fields of `Service` that `prepare` reads; `modes` is the map from sources to modes.
pub record Service : Type 0 where
  pub rules : List CompiledRule
  pub limits : Limits
  pub modes : List (String × String)

-- strings.TrimSpace, the identifier hash (hex of the first 16 bytes of SHA-256), and the
-- RFC 3339 text of an instant.
pub record Tools : Type 0 where
  pub trim_space : String → String
  pub digest : String → String
  pub rfc3339_nano : Instant → String

unfoldable pub find_mode : String → List (String × String) → String
find_mode source [] = metadata
find_mode source ((s, m) ∷ rest) =
    let later = find_mode source rest in if s == source then m else later

-- CaptureMode
unfoldable pub capture_mode : Service → String → String
unfolding find_mode
capture_mode service source = find_mode source service.modes

-- SetCaptureMode
unfoldable pub set_capture_mode : String → String → Service → Service
set_capture_mode source mode service = record service { modes = (source, mode) ∷ service.modes }

-- sortedKeys
insert_text : String → List String → List String
insert_text s [] = s ∷ []
insert_text s (t ∷ rest) =
    let later = insert_text s rest in if is_lt (compare t s) then t ∷ later else s ∷ t ∷ rest

sort_texts : List String → List String
unfolding insert_text
sort_texts [] = []
sort_texts (s ∷ rest) = insert_text s (sort_texts rest)

unfoldable pub sorted_keys : Fields → List String
unfolding sort_texts
sorted_keys m = sort_texts (Maps.keys m)

unfoldable pub text_items : List String → Items
text_items [] = nil
text_items (s ∷ rest) = cons (text s) (text_items rest)

-- The loop that copies the source's capture entries, less its mode.
unfoldable pub copy_capture : Fields → Fields → Fields
copy_capture end capture = capture
copy_capture (field key v rest) capture =
    copy_capture rest (if key == "mode" then capture else Maps.insert key v capture)

-- A redacted map, how many matches were replaced, and whether a value was cut.
pub record RedactedMap : Type 0 where
  pub fields : Fields
  pub matches : ℕ
  pub truncated : Bool

abbrev pub is_null : Value → Bool
is_null null = true
is_null _ = false
