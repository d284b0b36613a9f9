-- ===== src/Shared/CanonicalJson.antt =====
-- shared/canonicalJson.ts. A value of JavaScript is told apart as canonicaliseValue does: a number
-- by the text that JSON.stringify gives it, and `unsupported` is any value that it rejects.
pub mod Order
use Prim.Native.String
use open_cawt.Base.{
  String, Bool, true, false, Option, none, some, List, [], ◌∷◌, map, str_le, if◌then◌else◌,
}
use open_cawt.Base.Sorting.{insert, sort}

mutual
  pub data Value : Type 0 where
    null unsupported : Value
    boolean : Bool → Value
    number text : String → Value
    array : Values → Value
    object : Members → Value

  pub data Values : Type 0 where
    no_items : Values
    item : Value → Values → Values

  pub data Members : Type 0 where
    no_fields : Members
    field : String → Value → Members → Members

-- A key, and the text of its value where it has one.
abbrev pub Pair : Type 0
Pair = String × Option String

-- `Object.keys(value).sort()`
abbrev pub key_le : Pair → Pair → Bool
key_le p q = str_le p.0 q.0

-- Texts in a row, with commas; none where one is missing.
abbrev with_comma : String → Option String → Option String
with_comma s none = none
with_comma s (some rest) = some (String.◌++◌ s (String.◌++◌ "," rest))

unfoldable pub join : List (Option String) → Option String
join [] = some ""
join (none ∷ rest) = none
join (some s ∷ []) = some s
join (some s ∷ t ∷ rest) = with_comma s (join (t ∷ rest))

abbrev pub wrapped : String → String → Option String → Option String
wrapped open_text close_text none = none
wrapped open_text close_text (some s) = some (String.◌++◌ open_text (String.◌++◌ s close_text))

abbrev with_key : (String → String) → Pair → Option String
with_key json_string (key, none) = none
with_key json_string (key, some s) = some (String.◌++◌ (json_string key) (String.◌++◌ ":" s))

-- The object of sorted pairs.
unfoldable pub sorted_pairs : (String → String) → List Pair → Option String
unfolding join
sorted_pairs json_string ps = wrapped "{" "}" (join (map (with_key json_string) ps))

unfoldable pub pairs : (String → String) → List Pair → Option String
unfolding sorted_pairs sort
pairs json_string ps = sorted_pairs json_string (sort key_le ps)

unfoldable pub items : List (Option String) → Option String
unfolding join
items texts = wrapped "[" "]" (join texts)

abbrev pub boolean_text : Bool → String
boolean_text true = "true"
boolean_text false = "false"

-- `json_string` is JSON.stringify of a text; none stands for the error.
unfoldable mutual
  unfolding pairs items

  pub canonical_json : (String → String) → Value → Option String
  canonical_json json_string null = some "null"
  canonical_json json_string unsupported = none
  canonical_json json_string (boolean b) = some (boolean_text b)
  canonical_json json_string (number s) = some s
  canonical_json json_string (text s) = some (json_string s)
  canonical_json json_string (array xs) = items (item_texts json_string xs)
  canonical_json json_string (object fs) = pairs json_string (field_texts json_string fs)

  pub item_texts : (String → String) → Values → List (Option String)
  item_texts json_string no_items = []
  item_texts json_string (item x xs) = canonical_json json_string x ∷ item_texts json_string xs

  pub field_texts : (String → String) → Members → List Pair
  field_texts json_string no_fields = []
  field_texts json_string (field key x fs) =
      (key, canonical_json json_string x) ∷ field_texts json_string fs
