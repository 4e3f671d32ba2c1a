-- ===== src/Otlp/Attributes.antt =====
-- The attributes of OpenTelemetry messages as maps (internal/otlp/decoder.go) and what
-- internal/otlp/normalize.go looks up in them.
use Prim.Native.String.{◌++◌ as concat}
use traceboard.Prelude.{String, Option, none, some, List, [], ◌∷◌, ◌==◌, if◌then◌else◌}
use traceboard.Event.{
  Value, null, bool, number, text, arr, obj, Items, nil, cons, Fields, end, field,
}
use traceboard.Event.Maps
use traceboard.Otlp.{
  AnyValue, unset, string_value, bool_value, int_value, double_value, array_value, kvlist_value,
  AnyValues, no_values, value, KeyValues, no_pairs, pair,
}

-- scalar
unfoldable pub scalar : Fields → Value
scalar (field k v end) = v
scalar m = obj m

-- AnyValueToMap(item)["string"]: an item that is no text becomes nil.
unfoldable pub array_item : AnyValue → Value
array_item (string_value s) = text s
array_item _ = null

unfoldable pub array_items : AnyValues → Items
unfolding array_item
array_items no_values = nil
array_items (value v rest) = cons (array_item v) (array_items rest)

-- AnyValueToMap, and the loop over the pairs of a list with the map that it fills.
unfoldable mutual
  unfolding scalar array_items

  pub any_value_to_map : AnyValue → Fields
  any_value_to_map unset = end
  any_value_to_map (string_value s) = field "string" (text s) end
  any_value_to_map (bool_value b) = field "bool" (bool b) end
  any_value_to_map (int_value n) = field "int" (number n) end
  any_value_to_map (double_value x) = field "double" (number x) end
  any_value_to_map (array_value items) = field "array" (arr (array_items items)) end
  any_value_to_map (kvlist_value pairs) = field "kvlist" (obj (pairs_to_map pairs end)) end

  pub pairs_to_map : KeyValues → Fields → Fields
  pairs_to_map no_pairs filled = filled
  pairs_to_map (pair k v rest) filled =
      pairs_to_map rest (Maps.insert k (scalar (any_value_to_map v)) filled)

-- attributesToMap
unfoldable pub attributes_to_map : KeyValues → Fields
unfolding pairs_to_map
attributes_to_map attributes = pairs_to_map attributes end

-- resourceAttributes
unfoldable pub resource_attributes : Option KeyValues → Fields
unfolding attributes_to_map
resource_attributes none = end
resource_attributes (some attributes) = attributes_to_map attributes

text_value : Option Value → Option String
text_value (some (text s)) = some s
text_value _ = none

-- m[key].(string)
unfoldable pub text_at : String → Fields → Option String
unfolding text_value
text_at key m = text_value (Maps.lookup key m)

unfoldable pub or_later : Option String → Option String → Option String
or_later none later = later
or_later (some s) later = if s == "" then later else some s

-- The first of the keys that holds a text that is not empty.
unfoldable pub first_text_of : List String → Fields → Option String
unfolding or_later text_at
first_text_of [] m = none
first_text_of (key ∷ rest) m = or_later (text_at key m) (first_text_of rest m)

-- sourceName
unfoldable pub source_name_of : Option String → String → String
source_name_of (some name) fallback = name
source_name_of none fallback = if fallback == "" then "unknown-source" else fallback

unfoldable pub source_name : Fields → String → String
unfolding source_name_of first_text_of
source_name resource fallback =
    source_name_of (first_text_of ("service.name" ∷ []) resource) fallback

-- sourceVersion
source_version_of : Option String → String → String
source_version_of (some version) fallback = version
source_version_of none fallback = fallback

unfoldable pub resource_version : Fields → String → String
unfolding source_version_of first_text_of
resource_version resource fallback =
    source_version_of
      (first_text_of
        ("service.version" ∷ "telemetry.sdk.version" ∷ "process.executable.version" ∷ []) resource)
      fallback

-- The loop that copies the attributes under the prefix "source.".
unfoldable pub copy_prefixed : Fields → Fields → Fields
copy_prefixed end result = result
copy_prefixed (field key v rest) result =
    copy_prefixed rest (Maps.insert (concat "source." key) v result)

-- The value is written where the text is not empty.
unfoldable pub insert_text_if : String → String → Fields → Fields
insert_text_if key s m = if s == "" then m else Maps.insert key (text s) m

insert_found : String → Option Value → Fields → Fields
insert_found key none m = m
insert_found key (some v) m = Maps.insert key v m

-- result[key] = attributes[from], where the key is there.
unfoldable pub copy_key : String → String → Fields → Fields → Fields
unfolding insert_found
copy_key key from attributes m = insert_found key (Maps.lookup from attributes) m

unfoldable pub copy_keys : List String → Fields → Fields → Fields
unfolding copy_key
copy_keys [] attributes m = m
copy_keys (key ∷ rest) attributes m = copy_keys rest attributes (copy_key key key attributes m)

insert_text_found : String → Option String → Fields → Fields
insert_text_found key none m = m
insert_text_found key (some s) m = Maps.insert key (text s) m

-- The same for a value that must be a text.
unfoldable pub copy_text : String → String → Fields → Fields → Fields
unfolding insert_text_found text_at
copy_text key from attributes m = insert_text_found key (text_at from attributes) m
