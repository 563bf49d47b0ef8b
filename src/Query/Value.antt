-- ===== src/Query/Value.antt =====
-- Values of type `interface{}` as filters hold them, their `%v` text, and the values that are read
-- back from their JSON text. Values that JSON cannot carry (NaN, infinities, functions) are left out.
use db2rest_bridge.Base.{
  String, Bool, true, false, List, [], ◌∷◌, Option, none, some, ◌<>◌, join, str_eq, str_lt,
  if◌then◌else◌, map,
}
use db2rest_bridge.Base.Int.{ℤ, show_int}

-- The finite values of `float64`, with the conversion from `int` and the `%v` text.
pub record Floats (F : Type 0) : Type 0 where
  pub of_int : ℤ → F
  pub show_float : F → String

-- `arr` is a `[]interface{}`, `obj` a `map[string]interface{}` (neither nil).
mutual
  pub data Value (F : Type 0) : Type 0 where
    null : Value F
    bool : Bool → Value F
    int : ℤ → Value F
    float : F → Value F
    str : String → Value F
    arr : Values F → Value F
    obj : Fields F → Value F

  pub data Values (F : Type 0) : Type 0 where
    no_values : Values F
    value : Value F → Values F → Values F

  pub data Fields (F : Type 0) : Type 0 where
    no_fields : Fields F
    field : String → Value F → Fields F → Fields F

-- `m[key]`, with the flag that tells whether it is there. The keys of a Go map are distinct.
unfoldable pub get_field : {F : Type 0} → String → Fields F → Option (Value F)
get_field key no_fields = none
get_field key (field k v fs) = if str_eq k key then some v else get_field key fs

-- `m[key]` alone: nil on a missing key
unfoldable pub field_or_nil : {F : Type 0} → String → Fields F → Value F
unfolding get_field
field_or_nil key fs = elim (get_field key fs) [ none ↦ null | some v ↦ v ]

abbrev bool_text : Bool → String
bool_text true = "true"
bool_text false = "false"

abbrev insert_pair : String × String → List (String × String) → List (String × String)
insert_pair p [] = p ∷ []
insert_pair (k, s) ((j, t) ∷ ps) =
    if str_lt j k then (j, t) ∷ insert_pair (k, s) ps else (k, s) ∷ (j, t) ∷ ps

sort_pairs : List (String × String) → List (String × String)
sort_pairs [] = []
sort_pairs (p ∷ ps) = insert_pair p (sort_pairs ps)

abbrev pair_text : String × String → String
pair_text (k, s) = k <> ":" <> s

module _ {F : Type 0} ⦃fl : Floats F⦄ where
  -- `fmt.Sprintf("%v", v)`; a map is printed in the order of its keys
  unfoldable mutual
    unfolding sort_pairs

    pub show : Value F → String
    show null = "<nil>"
    show (bool b) = bool_text b
    show (int i) = show_int i
    show (float x) = fl.show_float x
    show (str s) = s
    show (arr vs) = "[" <> join " " (show_values vs) <> "]"
    show (obj fs) = "map[" <> join " " (map pair_text (sort_pairs (show_fields fs))) <> "]"

    pub show_values : Values F → List String
    show_values no_values = []
    show_values (value v vs) = show v ∷ show_values vs

    pub show_fields : Fields F → List (String × String)
    show_fields no_fields = []
    show_fields (field k v fs) = (k, show v) ∷ show_fields fs

  -- What `json.Unmarshal` into an `interface{}` gives for the JSON text of a value: every number is a
  -- `float64`.
  unfoldable mutual
    pub wire : Value F → Value F
    wire null = null
    wire (bool b) = bool b
    wire (int i) = float (fl.of_int i)
    wire (float x) = float x
    wire (str s) = str s
    wire (arr vs) = arr (wire_values vs)
    wire (obj fs) = obj (wire_fields fs)

    pub wire_values : Values F → Values F
    wire_values no_values = no_values
    wire_values (value v vs) = value (wire v) (wire_values vs)

    pub wire_fields : Fields F → Fields F
    wire_fields no_fields = no_fields
    wire_fields (field k v fs) = field k (wire v) (wire_fields fs)
