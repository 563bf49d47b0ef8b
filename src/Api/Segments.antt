-- ===== src/Api/Segments.antt =====
-- The segments of the paths of the API (pkg/api/gen.go).
use db2rest_bridge.Base.{String, ◌≡◌, refl, ap, ◌∙◌, sym, ◌<>◌, All, arith}
use text.Mathlib.TextLemmas.{append_assoc}
use db2rest_bridge.Api.Mux.{IsSegment}
use db2rest_bridge.Api.Operation.{
  Operation, backends, version, named, entities, items, creation, bulk, deletion, reading,
  existence, replacement, segments, IsClear,
}

-- From a path that begins with a slash
pub path_eq : (rest : String) → "." <> "/" <> rest ≡ "./" <> rest
path_eq rest = sym (append_assoc "." "/" rest)

pub entity_eq : (a b tail : String) → ("/" <> a <> "/" <> b) <> tail ≡ "/" <> a <> "/" <> b <> tail
entity_eq a b tail =
    append_assoc "/" (a <> "/" <> b) tail
    ∙ ap (λ t. "/" <> t)
        (append_assoc a ("/" <> b) tail ∙ ap (λ t. a <> t) (append_assoc "/" b tail))

pub query_eq : (name : String) → "/_query/" <> name ≡ "/" <> "_query" <> "/" <> name
query_eq name = append_assoc "/_query" "/" name ∙ append_assoc "/" "_query" ("/" <> name)

pub entities_eq : "/entities" ≡ "/" <> "entities"
entities_eq = refl

pub bulk_eq : "/bulk" ≡ "/" <> "bulk"
bulk_eq = refl

pub word_query : IsSegment "_query"
word_query = (refl, refl, refl, ground arith)

word_entities : IsSegment "entities"
word_entities = (refl, refl, refl, ground arith)

word_bulk : IsSegment "bulk"
word_bulk = (refl, refl, refl, ground arith)

-- Every operation's segments are segments of a path.
pub segments-IsSegment :
    {F B : Type 0} (op : Operation F B) → IsClear op → All IsSegment (segments op)
unfolding segments IsClear
segments-IsSegment backends h = ((refl, refl, refl, ground arith), tt)
segments-IsSegment version h = ((refl, refl, refl, ground arith), tt)
segments-IsSegment (named be name p) (b, rest) = (b, (word_query, rest))
segments-IsSegment (entities be) h = (h, (word_entities, tt))
segments-IsSegment (items be ent p) h = h.0
segments-IsSegment (creation be ent ct b) h = h
segments-IsSegment (bulk be ent ct b) (x, (y, rest)) = (x, (y, (word_bulk, rest)))
segments-IsSegment (deletion be ent id) h = h
segments-IsSegment (reading be ent id) h = h.0
segments-IsSegment (existence be ent id) h = h
segments-IsSegment (replacement be ent id ct b) h = h
