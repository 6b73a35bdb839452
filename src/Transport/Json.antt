-- ===== src/Transport/Json.antt =====
-- `serde_json::Value` as app/crates/octos-app-transport/src reads it: the values of JSON, and the
-- accessors `get`, `pointer`, `as_bool`, `as_str`, `as_array` and `as_object`.
use octos_one.Prelude.{
  String, Bool, Option, none, some, List, [], ◌∷◌, if◌then◌else◌, ◌==◌, string_eq,
}

mutual
  -- A number is kept by its text.
  pub data Json : Type 0 where
    null : Json
    boolean : Bool → Json
    number : String → Json
    text : String → Json
    array : Items → Json
    object : Fields → Json

  pub data Items : Type 0 where
    nil : Items
    item : Json → Items → Items

  pub data Fields : Type 0 where
    end : Fields
    field : String → Json → Fields → Fields

unfoldable pub items : Items → List Json
items nil = []
items (item j js) = j ∷ items js

unfoldable pub fields : Fields → List (String × Json)
fields end = []
fields (field k j fs) = (k, j) ∷ fields fs

unfoldable pub field_of : String → Fields → Option Json
field_of k end = none
field_of k (field j v fs) = if j == k then some v else field_of k fs

unfoldable pub get_key : String → Json → Option Json
get_key k (object fs) = field_of k fs
get_key k null = none
get_key k (boolean b) = none
get_key k (number n) = none
get_key k (text s) = none
get_key k (array js) = none

-- `pointer` along names that are no array indices.
unfoldable pub pointer : List String → Json → Option Json
pointer [] j = some j
pointer (k ∷ ks) j = elim (get_key k j) [ none ↦ none | some v ↦ pointer ks v ]

abbrev pub as_bool : Json → Option Bool
as_bool (boolean b) = some b
as_bool null = none
as_bool (number n) = none
as_bool (text s) = none
as_bool (array js) = none
as_bool (object fs) = none

abbrev pub as_str : Json → Option String
as_str (text s) = some s
as_str null = none
as_str (boolean b) = none
as_str (number n) = none
as_str (array js) = none
as_str (object fs) = none

abbrev pub as_array : Json → Option (List Json)
as_array (array js) = some (items js)
as_array null = none
as_array (boolean b) = none
as_array (number n) = none
as_array (text s) = none
as_array (object fs) = none

abbrev pub as_object : Json → Option (List (String × Json))
as_object (object fs) = some (fields fs)
as_object null = none
as_object (boolean b) = none
as_object (number n) = none
as_object (text s) = none
as_object (array js) = none
