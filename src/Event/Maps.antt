-- ===== src/Event/Maps.antt =====
-- Maps from keys to JSON values: Go's `map[string]any` as an association list.
-- A nil map reads as an empty one. A write replaces the value of a key that is there.
use traceboard.Prelude.{
  ℕ, suc, String, Option, none, some, List, [], ◌∷◌, ◌≡◌, refl, ◌==◌, arith, eq_iff, if◌then◌else◌,
}
use traceboard.Event.{Value, Fields, end, field}

-- m[key], with `none` for a missing key.
unfoldable pub lookup : String → Fields → Option Value
lookup k end = none
lookup k (field j v rest) = let found = lookup k rest in if j == k then some v else found

-- m[key] = value
unfoldable pub insert : String → Value → Fields → Fields
insert k v end = field k v end
insert k v (field j w rest) =
    let later = insert k v rest in if j == k then field k v rest else field j w later

-- len(m)
unfoldable pub size : Fields → ℕ
size end = 0
size (field k v rest) = suc (size rest)

unfoldable pub keys : Fields → List String
keys end = []
keys (field k v rest) = k ∷ keys rest

-- A map that may be nil, as one that is not.
abbrev pub or_empty : Option Fields → Fields
or_empty none = end
or_empty (some m) = m

pub lookup-insert :
    (k j : String) (v : Value) (m : Fields)
    → lookup j (insert k v m) ≡ (if k == j then some v else lookup j m)
unfolding lookup insert
lookup-insert k j v end = refl
lookup-insert k j v (field i w m) =
    ground (arith, eq_iff k j, eq_iff i k, eq_iff i j, lookup-insert k j v m)
