-- ===== src/Api/Styled.antt =====
-- The parameters of a query on the client's URLs (pkg/api/gen.go).
use db2rest_bridge.Base.{String, List, Option, none, some, ok, ◌≡◌, refl, join}
use db2rest_bridge.Base.Int.{ℤ}
use db2rest_bridge.Types.Errors.{Go}
use db2rest_bridge.Query.Params.{ListItemsParams}
use db2rest_bridge.Api.Types.{QueryNamedParams}
use db2rest_bridge.Api.Wire.{Urls, Styles}
use db2rest_bridge.Api.Requests.{fragments_of, with_fragments, list_params, named_params}
use db2rest_bridge.Api.Wrapper.{Binders}
use db2rest_bridge.Api.Mux.{ApiUrls, fragments, list_fragments, named_fragments}

fragments_of-styled :
    {A : Type 0} (style : A → Go String) (text : A → String)
    → ((a : A) → style a ≡ ok (text a))
    → (o : Option A) → fragments_of style o ≡ ok (fragments text o)
fragments_of-styled style text h none = refl
fragments_of-styled style text h (some a) = rw (h a) refl

module _ {F U : Type 0} {urls : Urls U} {styles : Styles F} {binders : Binders F U}
    {path_of : U → String} {server base : String}
    (api : ApiUrls urls styles binders path_of server base) where
  open api use {target, texts, int_styled, texts_styled, filter_styled, bare}

  with_fragments-target :
      (frags ss : List String)
      → with_fragments urls frags (target ss) ≡ ok (urls.set_raw_query (join "&" frags) (target ss))
  with_fragments-target frags ss = rw (bare ss) refl

  ints_of :
      (param : String) (o : Option ℤ)
      → fragments_of (styles.style_int param) o ≡ ok (fragments (texts.int_text param) o)
  ints_of param = fragments_of-styled _ _ (int_styled param)

  texts_of :
      (param : String) (o : Option (List String))
      → fragments_of (styles.style_texts param) o ≡ ok (fragments (texts.texts_text param) o)
  texts_of param = fragments_of-styled _ _ (texts_styled param)

  pub list_params-sent :
      (p : ListItemsParams F) (ss : List String)
      → list_params urls styles (some p) (target ss)
        ≡ ok (urls.set_raw_query (join "&" (list_fragments texts p)) (target ss))
  unfolding list_fragments
  list_params-sent p ss = rw (ints_of "page-offset" p.page_offset) (
      rw (ints_of "page-size" p.page_size) (
        rw (texts_of "order[]" p.order) (
          rw (fragments_of-styled _ _ (filter_styled "filter") p.filter)
            (with_fragments-target _ ss))))

  pub named_params-sent :
      (p : QueryNamedParams) (ss : List String)
      → named_params urls styles (some p) (target ss)
        ≡ ok (urls.set_raw_query (join "&" (named_fragments texts p)) (target ss))
  unfolding named_fragments
  named_params-sent p ss = rw (ints_of "page-offset" p.page_offset) (
      rw (ints_of "page-size" p.page_size) (rw (texts_of "arg" p.arg) (with_fragments-target _ ss)))
