-- ===== src/Api/Mux.antt =====
-- What the routes of pkg/api/gen.go rely on of gorilla/mux, and what its client relies on of net/url and
-- of the styles of parameters. None of it is code of the repository.
use db2rest_bridge.Base.{
  String, Bool, true, false, List, [], ◌∷◌, Option, none, some, map, ◌<>◌, ◌≡◌, inr, ok, str_eq,
  if◌then◌else◌, split_on, join, Lacks, All, ◌++◌,
}
use db2rest_bridge.Base.Int.{ℤ}
use db2rest_bridge.Base.Dict.{Dict, lookup}
use db2rest_bridge.Base.Search.{cut_prefix}
use db2rest_bridge.Query.Decode.{Document}
use db2rest_bridge.Query.Params.{ListItemsParams}
use db2rest_bridge.Crud.Driver.{Db}
use db2rest_bridge.Api.Types.{QueryNamedParams}
use db2rest_bridge.Api.Wire.{Urls, Styles, Request}
use db2rest_bridge.Api.Wrapper.{Incoming, Handler, Binders}
use db2rest_bridge.Api.Routes.{Route}

-- A segment of a path against one of a template: a variable `{name}` takes any that is not empty.
abbrev first_of : List String → String
first_of [] = ""
first_of (p ∷ ps) = p

-- By what follows the brace that opens a variable, if there is one
abbrev pub match_cut : Option String → String → String → Option (Dict String) → Option (Dict String)
match_cut _ t p none = none
match_cut none t p (some vars) = if str_eq t p then some vars else none
match_cut (some name) t p (some vars) =
    if str_eq p "" then none else some ((first_of (split_on b'}' name), p) ∷ vars)

abbrev pub match_segments : List String → List String → Option (Dict String)
match_segments [] [] = some []
match_segments (t ∷ ts) (p ∷ ps) = match_cut (cut_prefix t "{") t p (match_segments ts ps)
match_segments _ _ = none

-- A template against a path
unfoldable pub match_template : String → String → Option (Dict String)
unfolding split_on cut_prefix
match_template template path = match_segments (split_on b'/' template) (split_on b'/' path)

abbrev pub has_method : Option String → String → Bool
has_method none m = true
has_method (some m') m = str_eq m' m

abbrev pub chosen :
    {H : Type 0}
    → Bool
    → H
    → Option (Dict String)
    → Option (H × Dict String)
    → Option (H × Dict String)
chosen true h (some vars) rest = some (h, vars)
chosen true h none rest = rest
chosen false h _ rest = rest

-- The first route whose template matches the path, and that has the method
unfoldable pub first_match :
    {H : Type 0} → List (Route H) → String → String → Option (H × Dict String)
unfolding match_template
first_match [] m path = none
first_match (r ∷ rs) m path =
    chosen (has_method r.methods m) r.handler (match_template r.template path)
      (first_match rs m path)

abbrev or_empty : Option String → String
or_empty none = ""
or_empty (some s) = s

-- What a router finds among its routes, for a method and a path
abbrev pub Router : Type 0 → Type 0
Router H = List (Route H) → String → String → Option (H × Dict String)

-- The request as a handler gets it
abbrev pub arrived : {U B : Type 0} → B → Request U B → Dict String → Incoming U B
arrived no_body req vars = record {
  method = req.method;
  url = req.url;
  body = elim req.body [ none ↦ no_body | some b ↦ b ];
  vars = λ name. or_empty (lookup name vars);
}

abbrev pub run_found :
    {U B S A : Type 0} → B → Db S A → Request U B → Option (Handler U B S A × Dict String) → Db S A
run_found no_body no_route req none = no_route
run_found no_body no_route req (some (h, vars)) = h (arrived no_body req vars)

-- Serving: `route` is what the router does, `no_route` its answer where no route is found, `no_body` the
-- empty body, `path_of` the decoded path of a URL.
unfoldable pub serve :
    {U B S A : Type 0}
    → Router (Handler U B S A)
    → (U → String)
    → B
    → Db S A
    → List (Route (Handler U B S A))
    → Request U B
    → Db S A
unfolding lookup
serve route path_of no_body no_route routes req =
    run_found no_body no_route req (route routes req.method (path_of req.url))

-- A text that stands for a segment of a path
abbrev pub IsSegment : String → Type 0
IsSegment s =
    (str_eq s "" ≡ false) × (str_eq s "." ≡ false) × (str_eq s ".." ≡ false) × Lacks b'/' s

-- The fragments that an optional parameter of the query gives, by its text
abbrev pub fragments : {A : Type 0} → (A → String) → Option A → List String
fragments text none = []
fragments text (some a) = split_on b'&' (text a)

-- The texts of the parameters of the query, as `Styles` makes them
pub record QueryTexts (F : Type 0) : Type 0 where
  pub int_text : String → ℤ → String
  pub texts_text : String → List String → String
  pub filter_text : String → Document F → String

module _ {F : Type 0} (t : QueryTexts F) where
  open t use {int_text, texts_text, filter_text}

  unfoldable pub list_fragments : ListItemsParams F → List String
  unfolding split_on
  list_fragments p =
      fragments (int_text "page-offset") p.page_offset
      ++ fragments (int_text "page-size") p.page_size
      ++ fragments (texts_text "order[]") p.order
      ++ fragments (filter_text "filter") p.filter

  unfoldable pub named_fragments : QueryNamedParams → List String
  unfolding split_on
  named_fragments p =
      fragments (int_text "page-offset") p.page_offset
      ++ fragments (int_text "page-size") p.page_size
      ++ fragments (texts_text "arg") p.arg

-- A URL binds the parameters of an operation.
abbrev pub BindsList : {F U : Type 0} → Binders F U → U → ListItemsParams F → Type 0
BindsList binders u p =
    (binders.bind_int "page-offset" u ≡ inr p.page_offset)
    × (binders.bind_int "page-size" u ≡ inr p.page_size)
    × (binders.bind_texts "order[]" u ≡ inr p.order)
    × (binders.bind_filter "filter" u ≡ inr p.filter)

abbrev pub BindsNamed : {F U : Type 0} → Binders F U → U → QueryNamedParams → Type 0
BindsNamed binders u p =
    (binders.bind_int "page-offset" u ≡ inr p.page_offset)
    × (binders.bind_int "page-size" u ≡ inr p.page_size)
    × (binders.bind_texts "arg" u ≡ inr p.arg)

-- The URLs of a server at `server` whose operations stand below the path `base`: a segment is escaped,
-- words of the API escape to themselves, and a relative reference made of escaped segments resolves to
-- the base and the segments. A variable of the path is bound to its text, and a URL that has no query
-- binds no parameter. A query leaves the path as it is, and parameters that the styles can carry are
-- bound to the values that were styled.
pub record ApiUrls {F U : Type 0} (urls : Urls U) (styles : Styles F) (binders : Binders F U)
    (path_of : U → String) (server base : String) : Type 1 where
  pub escape : String → String
  pub styled : (param s : String) → styles.style_path param s ≡ ok (escape s)
  pub words : All (λ w. escape w ≡ w) ("backends" ∷ "version" ∷ "entities" ∷ "_query" ∷ "bulk" ∷ [])
  pub server_url : U
  pub parsed : urls.parse server ≡ ok server_url
  pub target : List String → U
  pub resolved :
      (ss : List String)
      → All IsSegment ss
      → urls.resolve server_url ("./" <> join "/" (map escape ss)) ≡ ok (target ss)
  pub path_is :
      (ss : List String) → All IsSegment ss → path_of (target ss) ≡ base <> "/" <> join "/" ss
  pub made : (method : String) (ss : List String) → urls.new_request method (target ss) ≡ ok tt
  pub var_bound : (param s : String) → binders.bind_path param s ≡ inr s
  pub no_int : (param : String) (ss : List String) → binders.bind_int param (target ss) ≡ inr none
  pub no_texts :
      (param : String) (ss : List String) → binders.bind_texts param (target ss) ≡ inr none
  pub no_filter :
      (param : String) (ss : List String) → binders.bind_filter param (target ss) ≡ inr none
  pub texts : QueryTexts F
  pub int_styled : (param : String) (i : ℤ) → styles.style_int param i ≡ ok (texts.int_text param i)
  pub texts_styled :
      (param : String) (ts : List String)
      → styles.style_texts param ts ≡ ok (texts.texts_text param ts)
  pub filter_styled :
      (param : String) (d : Document F)
      → styles.style_filter param d ≡ ok (texts.filter_text param d)
  pub bare : (ss : List String) → urls.encoded_query (target ss) ≡ ""
  pub path_kept : (q : String) (u : U) → path_of (urls.set_raw_query q u) ≡ path_of u
  pub made_with :
      (method q : String) (ss : List String)
      → urls.new_request method (urls.set_raw_query q (target ss)) ≡ ok tt
  pub CarriesList : ListItemsParams F → Type 0
  pub list_carried :
      (p : ListItemsParams F) (ss : List String)
      → CarriesList p
      → BindsList binders (urls.set_raw_query (join "&" (list_fragments texts p)) (target ss)) p
  pub CarriesNamed : QueryNamedParams → Type 0
  pub named_carried :
      (p : QueryNamedParams) (ss : List String)
      → CarriesNamed p
      → BindsNamed binders (urls.set_raw_query (join "&" (named_fragments texts p)) (target ss)) p
