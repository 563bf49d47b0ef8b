-- ===== src/Api/Bound.antt =====
-- The binding of parameters by the server's wrapper (pkg/api/gen.go), over URLs that behave as documented.
use db2rest_bridge.Base.{String, inl, inr, ◌⊎◌, ◌≡◌, ap, ◌∙◌}
use db2rest_bridge.Query.Params.{ListItemsParams}
use db2rest_bridge.Crud.Driver.{Db}
use db2rest_bridge.Api.Types.{QueryNamedParams}
use db2rest_bridge.Api.Wire.{Urls, Styles}
use db2rest_bridge.Api.Wrapper
use db2rest_bridge.Api.Wrapper.{
  Incoming, Handler, Binders, BindError, ServerInterface, ServerInterfaceWrapper, through,
  with_path, with_query, served,
}
use db2rest_bridge.Api.Mux.{ApiUrls}

module _ {F U B S A : Type 0} {urls : Urls U} {styles : Styles F} {binders : Binders F U}
    {path_of : U → String} {server base : String}
    (api : ApiUrls urls styles binders path_of server base) where
  open api use {var_bound, no_int, no_texts, no_filter, list_carried, named_carried}

  pub path_bound :
      (siw : ServerInterfaceWrapper F U B S A) (r : Incoming U B) (param value : String)
      (k : String → Db S A)
      → binders.bind_path param (r.vars param) ≡ inr value
      → with_path binders siw r param k ≡ k value
  path_bound siw r param value k h =
      ap
        (λ o. elim o [
          | inl e ↦
              siw.error_handler_func r
                (Wrapper.invalid_param_format_error param (Wrapper.bind_error_text e))
          | inr v ↦ k v
        ])
        h

  query_bound :
      {X : Type 0} (siw : ServerInterfaceWrapper F U B S A) (r : Incoming U B) (param : String)
      (bind : String → U → BindError ⊎ X) (k : X → Db S A) (value : X)
      → bind param r.url ≡ inr value
      → with_query binders siw r param bind k ≡ k value
  query_bound siw r param bind k value h =
      ap
        (λ o. elim o [
          | inl e ↦ siw.error_handler_func r (Wrapper.query_param_error param e)
          | inr v ↦ k v
        ])
        h

  pub entity_bound :
      (siw : ServerInterfaceWrapper F U B S A) (r : Incoming U B) (be ent : String)
      (k : String → String → Db S A)
      → r.vars "backend" ≡ be
      → r.vars "entity" ≡ ent
      → with_path binders siw r "backend" (λ b. with_path binders siw r "entity" (k b)) ≡ k be ent
  entity_bound siw r be ent k hb he =
      path_bound siw r "backend" be _ (ap (binders.bind_path "backend") hb ∙ var_bound "backend" be)
      ∙ path_bound siw r "entity" ent _
          (ap (binders.bind_path "entity") he ∙ var_bound "entity" ent)

  pub item_bound :
      (siw : ServerInterfaceWrapper F U B S A) (r : Incoming U B) (be ent id : String)
      (k : String → String → String → Db S A)
      → r.vars "backend" ≡ be
      → r.vars "entity" ≡ ent
      → r.vars "id" ≡ id
      → with_path binders siw r "backend"
          (λ b. with_path binders siw r "entity" λ e. with_path binders siw r "id" (k b e))
        ≡ k be ent id
  item_bound siw r be ent id k hb he hi =
      entity_bound siw r be ent (λ b e. with_path binders siw r "id" (k b e)) hb he
      ∙ path_bound siw r "id" id _ (ap (binders.bind_path "id") hi ∙ var_bound "id" id)

  -- What follows the variables of the path, for a named query and for a list
  abbrev named_rest : ServerInterfaceWrapper F U B S A → Incoming U B → String → String → Db S A
  named_rest siw r be name = with_query binders siw r "page-offset" binders.bind_int λ page_offset.
      with_query binders siw r "page-size" binders.bind_int λ page_size.
        with_query binders siw r "arg" binders.bind_texts λ arg. served binders siw r (λ req.
          siw.handler.query_named req be name
            (record { page_offset = page_offset; page_size = page_size; arg = arg }))

  abbrev items_rest : ServerInterfaceWrapper F U B S A → Incoming U B → String → String → Db S A
  items_rest siw r be ent = with_query binders siw r "page-offset" binders.bind_int λ page_offset.
      with_query binders siw r "page-size" binders.bind_int λ page_size.
        with_query binders siw r "order[]" binders.bind_texts λ order.
          with_query binders siw r "filter" binders.bind_filter λ filter.
            served binders siw r (λ req. siw.handler.list_items req be ent (record {
              page_offset = page_offset;
              page_size = page_size;
              order = order;
              filter = filter;
            }))

  named_bound :
      (siw : ServerInterfaceWrapper F U B S A) (r : Incoming U B) (be name : String)
      (p : QueryNamedParams)
      → binders.bind_int "page-offset" r.url ≡ inr p.page_offset
      → binders.bind_int "page-size" r.url ≡ inr p.page_size
      → binders.bind_texts "arg" r.url ≡ inr p.arg
      → named_rest siw r be name
        ≡ served binders siw r (λ req. siw.handler.query_named req be name p)
  named_bound siw r be name p ho hs ha =
      query_bound siw r "page-offset" binders.bind_int _ p.page_offset ho
      ∙ query_bound siw r "page-size" binders.bind_int _ p.page_size hs
      ∙ query_bound siw r "arg" binders.bind_texts _ p.arg ha

  items_bound :
      (siw : ServerInterfaceWrapper F U B S A) (r : Incoming U B) (be ent : String)
      (p : ListItemsParams F)
      → binders.bind_int "page-offset" r.url ≡ inr p.page_offset
      → binders.bind_int "page-size" r.url ≡ inr p.page_size
      → binders.bind_texts "order[]" r.url ≡ inr p.order
      → binders.bind_filter "filter" r.url ≡ inr p.filter
      → items_rest siw r be ent ≡ served binders siw r (λ req. siw.handler.list_items req be ent p)
  items_bound siw r be ent p ho hs hr hf =
      query_bound siw r "page-offset" binders.bind_int _ p.page_offset ho
      ∙ query_bound siw r "page-size" binders.bind_int _ p.page_size hs
      ∙ query_bound siw r "order[]" binders.bind_texts _ p.order hr
      ∙ query_bound siw r "filter" binders.bind_filter _ p.filter hf

  -- A named query whose parameters are bound to `p`, and a list
  pub named_call :
      (siw : ServerInterfaceWrapper F U B S A) (r : Incoming U B) (be name : String)
      (p : QueryNamedParams)
      → r.vars "backend" ≡ be
      → r.vars "name" ≡ name
      → binders.bind_int "page-offset" r.url ≡ inr p.page_offset
      → binders.bind_int "page-size" r.url ≡ inr p.page_size
      → binders.bind_texts "arg" r.url ≡ inr p.arg
      → Wrapper.query_named binders siw r
        ≡ served binders siw r (λ req. siw.handler.query_named req be name p)
  unfolding Wrapper.query_named
  named_call siw r be name p hb hn ho hs ha =
      path_bound siw r "backend" be (λ b. with_path binders siw r "name" (named_rest siw r b))
        (ap (binders.bind_path "backend") hb ∙ var_bound "backend" be)
      ∙ path_bound siw r "name" name (named_rest siw r be)
          (ap (binders.bind_path "name") hn ∙ var_bound "name" name)
      ∙ named_bound siw r be name p ho hs ha

  pub items_call :
      (siw : ServerInterfaceWrapper F U B S A) (r : Incoming U B) (be ent : String)
      (p : ListItemsParams F)
      → r.vars "backend" ≡ be
      → r.vars "entity" ≡ ent
      → binders.bind_int "page-offset" r.url ≡ inr p.page_offset
      → binders.bind_int "page-size" r.url ≡ inr p.page_size
      → binders.bind_texts "order[]" r.url ≡ inr p.order
      → binders.bind_filter "filter" r.url ≡ inr p.filter
      → Wrapper.list_items binders siw r
        ≡ served binders siw r (λ req. siw.handler.list_items req be ent p)
  unfolding Wrapper.list_items
  items_call siw r be ent p hb he ho hs hr hf =
      entity_bound siw r be ent (items_rest siw r) hb he ∙ items_bound siw r be ent p ho hs hr hf
