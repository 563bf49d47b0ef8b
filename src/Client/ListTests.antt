-- ===== src/Client/ListTests.antt =====
-- Lists and named queries over HTTP at a concrete client and server.
use db2rest_bridge.Base.{
  err, show_nat, true, ℕ, ◌<◌, ◌≤◌, List, take, drop, length, ap, [], ◌∷◌, some, ok, ◌≡◌, refl,
  arith,
}
use db2rest_bridge.Base.Dict.{Dict, lookup}
use db2rest_bridge.Query.Samples.{whole, john}
use db2rest_bridge.Crud.Samples.{Cell, person, word, backend}
use db2rest_bridge.Crud.Samples
use db2rest_bridge.Client.Http.{list, query, decode_all}
use db2rest_bridge.Client.Lists.{list-refines, list-refines_failed}
use db2rest_bridge.Client.Queries.{query-refines}
use db2rest_bridge.Client.LoadAll.{load_all_in_batch}
use db2rest_bridge.Client.Gathered.{load_all_in_batch-connected}
use db2rest_bridge.Query.Data.{QryData, where_clause, query_string, default_query}
use db2rest_bridge.Query.Travel.{IsSendable, received_query}
use db2rest_bridge.Crud.Ops
use db2rest_bridge.Types.Errors.{with_status}
use db2rest_bridge.Server.Reply.{reply_status}
use db2rest_bridge.Api.Mux.{IsSegment}
use db2rest_bridge.Base.Int.{ℤ, pos, int_of}
use db2rest_bridge.Client.UrlSamples.{urls, styles, page_from, page-carried, top_two-carried}
use db2rest_bridge.Client.ConnectionSample.{connection}
use db2rest_bridge.Client.RemoteSamples.{
  codec, decoders, network, people, server, version, show_none, generic,
}

db-IsSegment : IsSegment "db"
db-IsSegment = (refl, refl, refl, ground arith)

people-IsSegment : IsSegment "people"
people-IsSegment = (refl, refl, refl, ground arith)

secret-IsSegment : IsSegment "secret"
secret-IsSegment = (refl, refl, refl, ground arith)

top-IsSegment : IsSegment "top"
top-IsSegment = (refl, refl, refl, ground arith)

abbrev two_people : List (Dict Cell)
two_people = person ∷ person ∷ []

page-IsSendable : (o : ℕ) → o < 3 → IsSendable (page_from o)
page-IsSendable o h = record {
  named = (ground arith, tt);
  whole = ground arith;
  in_range = omega arith;
}

list-refines_example :
    list urls styles codec (λ b. "") (generic "people") (some (page_from 1)) two_people
    ≡ (ok (person ∷ [], pos 2), two_people)
unfolding network lookup decode_all connection query_string
list-refines_example =
    list-refines Samples.cells decoders show_none version server connection people network (λ b. "")
      (generic "people") refl refl (page_from 1) _ (db-IsSegment, (people-IsSegment, tt)) refl
      (page-IsSendable 1 (omega arith)) refl (page-carried 1 (omega arith)) refl

list-refines_failed_example :
    list urls styles codec (λ b. "none") (generic "secret") (some (page_from 1)) two_people
    ≡ (err (with_status 200 "unexpected error code: 405, wanted: 200, body: none"), two_people)
unfolding network lookup connection query_string reply_status show_nat
list-refines_failed_example =
    list-refines_failed Samples.cells decoders show_none version server connection people network
      (λ b. "none") (generic "secret") refl refl (page_from 1) (with_status 405 "read not allowed")
      (db-IsSegment, (secret-IsSegment, tt)) refl (page-IsSendable 1 (omega arith)) refl
      (page-carried 1 (omega arith)) refl refl

abbrev top_two_query : QryData ℤ
top_two_query = record default_query { paging = some (record { offset = 0; size = pos 2 }) }

query-refines_example :
    query urls styles codec
      (λ b. "")
      (generic "people")
      "top"
      (some top_two_query)
      ("x" ∷ "y" ∷ [])
      two_people
    ≡ (
      ok (some (record { items = some two_people; offset = some 0; total_count = some (pos 2) })),
      two_people,
    )
unfolding network lookup connection int_of
query-refines_example =
    query-refines Samples.cells decoders show_none version server connection people network
      (λ b. "") (generic "people") refl refl "top" top_two_query ("x" ∷ "y" ∷ []) _
      (db-IsSegment, (top-IsSegment, tt)) (omega arith) top_two-carried refl

-- The table does not change.
abbrev IsThere : List (Dict Cell) → Type 0
IsThere s = s ≡ person ∷ person ∷ []

people-ListsRows :
    (o : ℕ) (s : List (Dict Cell))
    → IsThere s
    → o ≤ 2
    → (p : Ops.PagedResult Cell) × (t : List (Dict Cell)) × (people.list_items "people"
          (received_query (page_from o))
          s
        ≡ (ok p, t))
      × (p.items ≡ take 1 (drop o (person ∷ person ∷ [])))
      × (p.total_count ≡ pos 2)
      × IsThere t
people-ListsRows o s e h =
    (_, s, refl, ap (λ os. take 1 (drop o os)) e, ap (λ os. pos (length os)) e, e)

load_all_in_batch-connected_example :
    (load_all_in_batch
      (λ q. list urls styles codec (λ b. "") (generic "people") (some q))
      3
      john
      (pos 1)
      ((record { name = "name"; asc = true }) ∷ [])
      (person ∷ person ∷ [])).0
    ≡ ok (person ∷ person ∷ [])
unfolding network lookup decode_all connection where_clause
load_all_in_batch-connected_example =
    load_all_in_batch-connected Samples.cells decoders show_none version server connection people
      network (λ b. "") (generic "people") refl refl IsThere john
      ((record { name = "name"; asc = true }) ∷ []) (person ∷ person ∷ []) (person ∷ person ∷ []) 1
      3 (person ∷ person ∷ []) (db-IsSegment, (people-IsSegment, tt)) refl
      (page-IsSendable 0 (omega arith)) refl page-carried people-ListsRows refl (omega arith)
      (omega arith) (omega arith) refl
