-- ===== src/Client/Gathered.antt =====
-- `LoadAllInBatch` (pkg/client/misc.go) with List of the client over HTTP (pkg/client/ops.go) and the lists
-- of package crud behind the server.
use db2rest_bridge.Base.{
  ℕ, ◌<◌, ◌≤◌, String, List, [], ◌∷◌, some, map, ok, ◌≡◌, refl, ap, sym, subst, ◌∙◌, All, str_eq,
  false, length, take, drop, ◌<>◌, arith,
}
use db2rest_bridge.Base.Results
use db2rest_bridge.Base.Int.{pos, u64_mod}
use db2rest_bridge.Base.Dict.{Dict, lookup}
use db2rest_bridge.Types.Errors.{Error}
use db2rest_bridge.Query.Value.{Floats}
use db2rest_bridge.Query.Order.{Order}
use db2rest_bridge.Query.Filter.{FilterExpression}
use db2rest_bridge.Query.Data.{QryData, query_string, where_clause, order_clause, limit_clause}
use db2rest_bridge.Query.Params.{to_params}
use db2rest_bridge.Query.Travel.{IsSendable, received_query}
use db2rest_bridge.Crud.Ops
use db2rest_bridge.Crud.Driver.{Cells}
use db2rest_bridge.Api.Types.{VersionInfo}
use db2rest_bridge.Api.Wire.{Urls, Styles, Json, Response}
use db2rest_bridge.Api.Calls
use db2rest_bridge.Api.Mux.{IsSegment}
use db2rest_bridge.Server.Reply.{Reply}
use db2rest_bridge.Server.Interface.{Interface}
use db2rest_bridge.Server.Rest.{Decoders, RestServer, rest_server}
use db2rest_bridge.Client.Setup.{Generic}
use db2rest_bridge.Client.Http.{list, decode_all}
use db2rest_bridge.Client.Remote.{Network, Connection}
use db2rest_bridge.Client.LoadAll.{load_all_in_batch}
use db2rest_bridge.Client.Complete.{IsTruthful, load_all_in_batch_all}
use db2rest_bridge.Client.Lists.{page_received, list-refines}
use db2rest_bridge.Client.Decoded.{length-decoded, decoded-drop, decoded-take}

-- The query of a page
abbrev page_query : {F : Type 0} → FilterExpression F → List Order → ℕ → ℕ → QryData F
page_query fe orders o size = record {
  orders = orders;
  paging = some (record { offset = o; size = pos size });
  filter = fe;
}

is_page_query :
    {F : Type 0} (q : QryData F) {fe : FilterExpression F} {orders : List Order} {o size : ℕ}
    → q.filter ≡ fe
    → q.orders ≡ orders
    → q.paging ≡ some (record { offset = o; size = pos size })
    → q ≡ page_query fe orders o size
is_page_query q hf ho hp = λ i. record { orders = ho i; paging = hp i; filter = hf i }

shown :
    {F : Type 0} ⦃fl : Floats F⦄ (fe : FilterExpression F) (orders : List Order) (o size : ℕ)
    {text : String}
    → where_clause fe ≡ some text
    → (whole : String) × (query_string (page_query fe orders o size) ≡ some whole)
unfolding query_string
shown fe orders o size {text} h =
    (text <> order_clause orders <> limit_clause (page_query fe orders o size).paging, rw h refl)

page_query-IsSendable :
    {F : Type 0} (fe : FilterExpression F) (orders : List Order) (o size : ℕ)
    → IsSendable (page_query fe orders 0 size)
    → o < u64_mod
    → IsSendable (page_query fe orders o size)
page_query-IsSendable fe orders o size h fits = record {
  named = h.named;
  whole = h.whole;
  in_range = fits;
}

module _ {F U V B S : Type 0} ⦃fl : Floats F⦄ {urls : Urls U} {styles : Styles F} (cells : Cells V)
    (decoders : Decoders V B) (show : Dict V → String) (version : VersionInfo)
    (rs : RestServer V F S) {write : Reply V → Response B} {c : Calls.Client U B S}
    (k : Connection urls styles (rest_server {U = U} cells decoders show version rs) write c)
    (ci : Interface V F S) where
  module _ {T : Type 0} {json : Json V B} {unmapped : Error → ℕ → ℕ}
      (n : Network json decoders unmapped write) (text_of : B → String) (g : Generic T U V B S)
      (set : g.c ≡ some c) (there : lookup g.be rs.crud_map ≡ some ci) where
    -- In the states of `P`, which listing does not leave, a page of the query that is read at the server
    -- has the rows that it names, and the number of all rows.
    abbrev ListsRows : (S → Type 0) → FilterExpression F → List Order → List (Dict V) → ℕ → Type 0
    ListsRows P fe orders rows size =
        (o : ℕ) (s : S)
        → P s
        → o ≤ length rows
        → (p : Ops.PagedResult V) × (t : S) × (ci.list_items g.ent
              (received_query (page_query fe orders o size)) s
            ≡ (ok p, t))
          × (p.items ≡ take size (drop o rows))
          × (p.total_count ≡ pos (length rows))
          × P t

    list-IsTruthful :
        (P : S → Type 0) (fe : FilterExpression F) (orders : List Order) (rows : List (Dict V))
        (xs : List T) (size : ℕ) {text : String}
        → All IsSegment (g.be ∷ g.ent ∷ [])
        → str_eq "entities" g.ent ≡ false
        → IsSendable (page_query fe orders 0 size)
        → where_clause fe ≡ some text
        → ((o : ℕ) → o ≤ length rows → k.api.CarriesList (to_params (page_query fe orders o size)))
        → ListsRows P fe orders rows size
        → decode_all g.dec_fn (map n.wire rows) ≡ ok xs
        → length rows < u64_mod
        → IsTruthful (λ q. list urls styles json text_of g (some q)) P fe orders xs size
    list-IsTruthful P fe orders rows xs size clear other sendable text carried lists decoded fits q
          s o good below hf ho hp =
        let same : length xs ≡ length rows = length-decoded g.dec_fn n.wire rows xs decoded in
        let low : o ≤ length rows = subst (λ m. o ≤ m) same below in
        let (p, t, listed, items, total, kept) = lists o s good low in
        let (whole, written) = shown fe orders o size text in
        let came : list urls styles json text_of g (some q) s
            ≡ (page_received cells decoders show version rs k ci n text_of g set there p, t) =
          ap (λ r. list urls styles json text_of g (some r) s) (is_page_query q hf ho hp)
          ∙ list-refines cells decoders show version rs k ci n text_of g set there
              (page_query fe orders o size) p clear other
              (page_query-IsSendable fe orders o size sendable (omega arith)) written
              (carried o low) listed in
        (
          ap (λ r. r.0) came
              ∙ ap
                  (λ ds.
                    Results.◌>>=◌ (decode_all g.dec_fn (map n.wire ds))
                      λ res. ok (res, p.total_count))
                  items
              ∙ ap (λ r. Results.◌>>=◌ r λ res. ok (res, p.total_count))
                  (decoded-take g.dec_fn n.wire size (drop o rows) (drop o xs)
                    (decoded-drop g.dec_fn n.wire o rows xs decoded))
              ∙ ap (λ m. ok (take size (drop o xs), m)) (total ∙ ap pos (sym same)),
          subst P (sym (ap (λ r. r.1) came)) kept,
        )

    -- Let a client be connected to the REST server over URLs, routes and replies that behave as
    -- documented, for a backend that the server knows, with texts that are path segments and an
    -- entity that is not the word of the entities route. For orders whose names lack the equals
    -- sign, a filter that is nil or has no nil part and can be written as text, and pages whose
    -- parameters the styles can carry: in states in which the lists of package crud answer each
    -- page with the rows that it names and the number of all rows, fewer than 2^64, and which a
    -- list does not leave, if the rows can be decoded, LoadAllInBatch over HTTP, with a positive
    -- batch size and more rounds allowed than there are rows, ends with all rows, decoded, in
    -- their order.
    pub load_all_in_batch-connected :
        (P : S → Type 0) (fe : FilterExpression F) (orders : List Order) (rows : List (Dict V))
        (xs : List T) (size fuel : ℕ) (s : S) {text : String}
        → All IsSegment (g.be ∷ g.ent ∷ [])
        → str_eq "entities" g.ent ≡ false
        → IsSendable (page_query fe orders 0 size)
        → where_clause fe ≡ some text
        → ((o : ℕ) → o ≤ length rows → k.api.CarriesList (to_params (page_query fe orders o size)))
        → ListsRows P fe orders rows size
        → decode_all g.dec_fn (map n.wire rows) ≡ ok xs
        → length rows < u64_mod
        → 0 < size
        → length rows < fuel
        → P s
        → (load_all_in_batch
            (λ q. list urls styles json text_of g (some q))
            fuel
            fe
            (pos size)
            orders
            s).0
          ≡ ok xs
    load_all_in_batch-connected P fe orders rows xs size fuel s clear other sendable text carried
          lists decoded fits positive enough good =
        let same : length xs ≡ length rows = length-decoded g.dec_fn n.wire rows xs decoded in
        load_all_in_batch_all (λ q. list urls styles json text_of g (some q)) P fe orders xs size
          fuel s
          (list-IsTruthful P fe orders rows xs size clear other sendable text carried lists decoded
            fits)
          (omega arith) positive (omega arith) good
