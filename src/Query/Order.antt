-- ===== src/Query/Order.antt =====
-- Orders (pkg/query/query.go): their SQL text, and the text form that travels.
use db2rest_bridge.Base.{
  String, Bool, true, false, List, [], ◌∷◌, map, ◌≡◌, refl, ◌<>◌, join, split_on, to_lower, codes,
  codes_eq, Lacks, split_on-append, if◌then◌else◌,
}

pub record Order : Type 0 where
  pub name : String
  pub asc : Bool

unfoldable ord2str : Bool → String
ord2str asc = if asc then "asc" else "desc"

-- `(*order).MarshalText`
unfoldable pub marshal_text : Order → String
unfolding ord2str
marshal_text o = o.name <> "=" <> ord2str o.asc

-- `len(parts) > 1 && strings.ToLower(parts[1]) == "asc"`
abbrev second_is_asc : List String → Bool
second_is_asc [] = false
second_is_asc (p ∷ []) = false
second_is_asc (p ∷ q ∷ ps) = codes_eq (to_lower q) (codes "asc")

abbrev first_part : List String → String
first_part [] = ""
first_part (p ∷ ps) = p

-- `(*order).UnmarshalText`, on a zero `order`: never an error
unfoldable pub unmarshal_text : String → Order
unfolding split_on
unmarshal_text text =
    let parts = split_on b'=' text in record { name = first_part parts; asc = second_is_asc parts }

-- `Orders.String`. The name stands between backquotes.
abbrev order_text : Order → String
order_text o = "`" <> o.name <> "`" <> " " <> (if o.asc then "ASC" else "DESC")

unfoldable pub orders_string : List Order → String
orders_string os = join ", " (map order_text os)

split_text :
    (name : String) (asc : Bool)
    → Lacks b'=' name
    → split_on b'=' (name <> "=" <> ord2str asc) ≡ name ∷ ord2str asc ∷ []
unfolding split_on ord2str
split_text name true h = split_on-append b'=' name _ "asc" h refl
split_text name false h = split_on-append b'=' name _ "desc" h refl

second_part : (name : String) (asc : Bool) → second_is_asc (name ∷ ord2str asc ∷ []) ≡ asc
unfolding ord2str
second_part name true = refl
second_part name false = refl

-- An order whose name lacks the equals sign is read back from its text as it was.
pub unmarshal_text-marshal_text :
    (o : Order) → Lacks b'=' o.name → unmarshal_text (marshal_text o) ≡ o
unfolding unmarshal_text marshal_text
unmarshal_text-marshal_text o h = rw (split_text o.name o.asc h) (rw (second_part o.name o.asc))
