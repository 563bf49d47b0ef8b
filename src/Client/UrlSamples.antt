-- ===== src/Client/UrlSamples.antt =====
-- Concrete URLs: a path and a query, with styles and binders that write and read one list of parameters.
use db2rest_bridge.Base.{
  ℕ, zero, suc, arith, ◌≤◌, ◌+◌, ◌*◌, ◌-◌, String, true, List, [], ◌∷◌, Option, none, some, map,
  inl, inr, ok, ◌≡◌, refl, ap, subst, sym, ◌∙◌, ◌<>◌, join, str_eq, if◌then◌else◌, split_on, codes,
  ◌⊎◌, show_nat,
}
use text.Mathlib.TextLemmas.{cons-append}
use db2rest_bridge.Base.Int.{ℤ, pos, show_int}
use db2rest_bridge.Base.Search.{trim_prefix, cut_prefix}
use db2rest_bridge.Query.Decode.{Document}
use db2rest_bridge.Query.Order.{marshal_text}
use db2rest_bridge.Query.Data.{QryData}
use db2rest_bridge.Query.Params.{ListItemsParams, to_params}
use db2rest_bridge.Query.Samples.{whole, john}
use db2rest_bridge.Api.Types.{QueryNamedParams}
use db2rest_bridge.Api.Wire.{Urls, Styles}
use db2rest_bridge.Api.Wrapper.{Binders, BindError}
use db2rest_bridge.Api.Mux.{
  ApiUrls, QueryTexts, BindsList, BindsNamed, list_fragments, named_fragments,
}

pub record Url : Type 0 where
  pub path : String
  pub query : String

unfoldable pub urls : Urls Url
unfolding trim_prefix cut_prefix
urls = record {
  parse = λ s. ok (record { path = "/api"; query = "" });
  resolve = λ u ref. ok (record { path = u.path <> trim_prefix ref "."; query = "" });
  encoded_query = λ u. u.query;
  set_raw_query = λ q u. record u { query = q };
  new_request = λ m u. ok tt;
}

-- The queries of the sample: pages of one John, by name
abbrev pub page_from : ℕ → QryData ℤ
page_from o = record {
  orders = record { name = "name"; asc = true } ∷ [];
  paging = some (record { offset = o; size = pos 1 });
  filter = john;
}

abbrev assigned : String → String → String
assigned name value = name <> "=" <> value

-- A filter is written as a word that stands for the one of the sample.
abbrev texts : QueryTexts ℤ
texts = record {
  int_text = λ name i. assigned name (show_int i);
  texts_text = λ name ts. join "&" (map (assigned name) ts);
  filter_text = λ name d. assigned name "john";
}

abbrev pub styles : Styles ℤ
styles = record {
  style_path = λ name s. ok s;
  style_int = λ name i. ok (texts.int_text name i);
  style_texts = λ name ts. ok (texts.texts_text name ts);
  style_filter = λ name d. ok (texts.filter_text name d);
}

read_digits : ℕ → List ℕ → ℕ
read_digits n [] = n
read_digits n (c ∷ cs) = read_digits (n * 10 + (c - b'0')) cs

-- The values of a parameter among the fragments of a query
values : String → List String → List String
unfolding cut_prefix
values name [] = []
values name (f ∷ fs) = elim (cut_prefix f (assigned name "")) [
  | some v ↦ v ∷ values name fs
  | none ↦ values name fs
]

abbrev bound_by :
    {X : Type 0}
    → (String → List String → BindError ⊎ Option X)
    → String
    → Url
    → BindError ⊎ Option X
bound_by read name u = if str_eq u.query "" then inr none else read name (split_on b'&' u.query)

abbrev first_value : List String → Option ℤ
first_value [] = none
first_value (v ∷ vs) = some (pos (read_digits 0 (codes v)))

abbrev some_values : List String → Option (List String)
some_values [] = none
some_values (v ∷ vs) = some (v ∷ vs)

abbrev some_filter : List String → Option (Document ℤ)
some_filter [] = none
some_filter (v ∷ vs) = (to_params (page_from 0)).filter

unfoldable pub binders : Binders ℤ Url
unfolding values read_digits to_params split_on
binders = record {
  bind_path = λ name s. inr s;
  bind_int = bound_by (λ name fs. inr (first_value (values name fs)));
  bind_texts = bound_by (λ name fs. inr (some_values (values name fs)));
  bind_filter = bound_by (λ name fs. inr (some_filter (values name fs)));
}

pub map_same : {A : Type 0} (ss : List A) → map (λ s. s) ss ≡ ss
map_same [] = refl
map_same (s ∷ ss) = ap (λ ts. s ∷ ts) (map_same ss)

trimmed : (s : String) → trim_prefix ("./" <> s) "." ≡ "/" <> s
unfolding trim_prefix cut_prefix
trimmed s = ap (λ t. trim_prefix t ".") (cons-append "." "/" s)

abbrev url_at : String → Url
url_at path = record { path = path; query = "" }

abbrev url_of : List String → Url
url_of ss = url_at ("/api" <> "/" <> join "/" ss)

abbrev top_two : QueryNamedParams
top_two = record {
  page_offset = some (pos 0);
  page_size = some (pos 2);
  arg = some ("x" ∷ "y" ∷ []);
}

-- The parameters are those of the pages at 0, 1 and 2.
abbrev IsPage : ListItemsParams ℤ → Type 0
IsPage p =
    (p ≡ to_params (page_from 0)) ⊎ (p ≡ to_params (page_from 1)) ⊎ (p ≡ to_params (page_from 2))

abbrev BoundAt : List String → ListItemsParams ℤ → Type 0
BoundAt ss p =
    BindsList binders (urls.set_raw_query (join "&" (list_fragments texts p)) (url_of ss)) p

first-bound : (ss : List String) → BoundAt ss (to_params (page_from 0))
unfolding binders urls list_fragments to_params show_int show_nat marshal_text
first-bound ss = (refl, refl, refl, refl)

second-bound : (ss : List String) → BoundAt ss (to_params (page_from 1))
unfolding binders urls list_fragments to_params show_int show_nat marshal_text
second-bound ss = (refl, refl, refl, refl)

third-bound : (ss : List String) → BoundAt ss (to_params (page_from 2))
unfolding binders urls list_fragments to_params show_int show_nat marshal_text
third-bound ss = (refl, refl, refl, refl)

page-bound : (p : ListItemsParams ℤ) (ss : List String) → IsPage p → BoundAt ss p
page-bound p ss (inl e) = subst (BoundAt ss) (sym e) (first-bound ss)
page-bound p ss (inr (inl e)) = subst (BoundAt ss) (sym e) (second-bound ss)
page-bound p ss (inr (inr e)) = subst (BoundAt ss) (sym e) (third-bound ss)

top_two-bound :
    (ss : List String)
    → BindsNamed binders
        (urls.set_raw_query (join "&" (named_fragments texts top_two)) (url_of ss))
        top_two
unfolding binders urls named_fragments show_int show_nat
top_two-bound ss = (refl, refl, refl)

abbrev pub path_of : Url → String
path_of u = u.path

pub api : ApiUrls urls styles binders path_of "http://localhost/" "/api"
unfolding urls binders
api = record {
  escape = λ s. s;
  styled = λ name s. refl;
  words = (refl, (refl, (refl, (refl, (refl, tt)))));
  server_url = url_at "/api";
  parsed = refl;
  target = url_of;
  resolved = λ ss h.
      ap (λ t. ok (url_at ("/api" <> t)))
        (trimmed (join "/" (map (λ s. s) ss)) ∙ ap (λ ts. "/" <> join "/" ts) (map_same ss));
  path_is = λ ss h. refl;
  made = λ m ss. refl;
  var_bound = λ name s. refl;
  no_int = λ name ss. refl;
  no_texts = λ name ss. refl;
  no_filter = λ name ss. refl;
  texts = texts;
  int_styled = λ name i. refl;
  texts_styled = λ name ts. refl;
  filter_styled = λ name d. refl;
  bare = λ ss. refl;
  path_kept = λ q u. refl;
  made_with = λ m q ss. refl;
  CarriesList = IsPage;
  list_carried = page-bound;
  CarriesNamed = λ p. p ≡ top_two;
  named_carried = λ p ss e.
      subst
        (λ r.
          BindsNamed binders (urls.set_raw_query (join "&" (named_fragments texts r)) (url_of ss))
            r)
        (sym e) (top_two-bound ss);
}

pub page-carried : (o : ℕ) → o ≤ 2 → api.CarriesList (to_params (page_from o))
unfolding api
page-carried zero h = inl refl
page-carried (suc zero) h = inr (inl refl)
page-carried (suc (suc zero)) h = inr (inr refl)
page-carried (suc (suc (suc o))) h = absurd (omega arith)

pub top_two-carried : api.CarriesNamed top_two
unfolding api
top_two-carried = refl
