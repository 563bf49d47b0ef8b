-- ===== src/Server/Quiet.antt =====
-- The handlers (pkg/server/ops.go) over an implementation that does not allow what they write.
use db2rest_bridge.Base.{
  ℕ, String, Bool, true, false, List, [], Option, none, some, ◌≡◌, refl, ap, ◌∙◌, ok, err, panic,
  out_of_fuel, map, if◌then◌else◌, str_eq,
}
use db2rest_bridge.Base.Int.{ℤ}
use db2rest_bridge.Query.Params.{ListItemsParams, from_params}
use db2rest_bridge.Base.Dict.{Dict}
use db2rest_bridge.Types.Errors.{Go}
use db2rest_bridge.Types.Config.{BackendConfig}
use db2rest_bridge.Query.Value.{Floats}
use db2rest_bridge.Crud.Driver.{Cells, Db, Driver, pure, lift}
use db2rest_bridge.Crud.Ops.{PagedResult}
use db2rest_bridge.Crud.Gates.{deletes_refused, updates_refused, creates_refused}
use db2rest_bridge.Crud.Quiet.{
  Reads, Keeps, bind-Keeps, exists-Keeps, get-Keeps, list_entities-Keeps, list_items-Keeps,
  query_named-Keeps,
}
use db2rest_bridge.Api.Types.{BulkUpdateRequest}
use db2rest_bridge.Server.Reply.{Reply, send, page}
use db2rest_bridge.Server.Interface.{Interface, impl}
use db2rest_bridge.Server.Handlers
use db2rest_bridge.Server.Handlers.{handle_backend, or_send, send_on, update_there, found_reply}
use db2rest_bridge.Server.Bulk.{extract_ids, bulk_step, bulk_update}

module _ {S D : Type 0} (seen : S → D) where
  if-Keeps :
      {A : Type 0} (b : Bool) (m n : Db S A)
      → Keeps seen m
      → Keeps seen n
      → Keeps seen (if b then m else n)
  if-Keeps true m n hm hn = hm
  if-Keeps false m n hm hn = hn

module _ {V S D : Type 0} (seen : S → D) where
  send_on-Keeps :
      {A : Type 0} (status : ℕ) (f : A → Db S (Reply V)) (r : Go A) (s : S)
      → ((a : A) → Keeps seen (f a))
      → seen (send_on status f (r, s)).1 ≡ seen s
  send_on-Keeps status f (ok a) s h = h a s
  send_on-Keeps status f (err e) s h = refl
  send_on-Keeps status f panic s h = refl
  send_on-Keeps status f out_of_fuel s h = refl

  or_send-Keeps :
      {A : Type 0} (status : ℕ) (m : Db S A) (f : A → Db S (Reply V))
      → Keeps seen m
      → ((a : A) → Keeps seen (f a))
      → Keeps seen (or_send status m f)
  or_send-Keeps status m f hm hf s = send_on-Keeps status f (m s).0 (m s).1 hf ∙ hm s

  column-Keeps :
      (r : Go String) (k : String → Db S (Reply V)) (s : S)
      → ((col : String) → Keeps seen (k col))
      → (let ended : Go (Reply V) × S = elim r [
        | ok col ↦ k col s
        | err e ↦ (err e, s)
        | panic ↦ (panic, s)
        | out_of_fuel ↦ (out_of_fuel, s)
      ] in
          seen ended.1 ≡ seen s)
  column-Keeps (ok col) k s h = h col s
  column-Keeps (err e) k s h = refl
  column-Keeps panic k s h = refl
  column-Keeps out_of_fuel k s h = refl

  found_reply-Keeps :
      (entity id : String) (o : Option (Dict V)) → Keeps seen (found_reply entity id o)
  found_reply-Keeps entity id none s = refl
  found_reply-Keeps entity id (some dto) s = refl

-- The handlers, over an implementation that does not allow what they write
module _ {V S D : Type 0} (F : Type 0) ⦃fl : Floats F⦄ (seen : S → D) (cells : Cells V)
    (db : Driver V S) (be : BackendConfig) (reads : Reads seen db) where
  abbrev here : Interface V F S
  here = impl cells db be

  update_there-Keeps :
      (entity id : String) (body : Dict V) (b : Bool)
      → be.update ≡ some false
      → Keeps seen (update_there entity id body here b)
  unfolding impl
  update_there-Keeps entity id body false off = λ s. refl
  update_there-Keeps entity id body true off =
      or_send-Keeps seen 500 (here.update entity id body) _
        (λ s. ap (λ r. seen r.1) (updates_refused cells db be entity id body [] s off).0)
        λ updated s. refl

  pub update_item_by_id-Keeps :
      (entity id : String) (body : Go (Dict V))
      → be.update ≡ some false
      → Keeps seen (Handlers.update_item_by_id entity id body here)
  unfolding Handlers.update_item_by_id impl
  update_item_by_id-Keeps entity id body off =
      or_send-Keeps seen 400 (lift body) _ (λ s. refl)
        λ b.
          or_send-Keeps seen 500 (here.exists entity id) (update_there entity id b here)
            (exists-Keeps seen cells db be reads entity id)
            λ there. update_there-Keeps entity id b there off

  pub create_item-Keeps :
      (entity : String) (body : Go (Dict V))
      → be.create ≡ some false
      → Keeps seen (Handlers.create_item entity body here)
  unfolding Handlers.create_item impl
  create_item-Keeps entity body off =
      or_send-Keeps seen 400 (lift body) _ (λ s. refl)
        λ b.
          or_send-Keeps seen 500 (here.create entity b) _
            (λ s. ap (λ r. seen r.1) (creates_refused cells db be entity true b [] s off).0)
            λ created s. refl

  pub delete_item_by_id-Keeps :
      (entity id : String)
      → be.delete ≡ some false
      → Keeps seen (Handlers.delete_item_by_id entity id here)
  unfolding Handlers.delete_item_by_id impl
  delete_item_by_id-Keeps entity id off =
      or_send-Keeps seen 500 (here.delete entity id) _
        (λ s. ap (λ r. seen r.1) (deletes_refused cells db be entity id [] s off).0) λ done s. refl

  bulk_step-Keeps :
      (show : Dict V → String) (entity col : String) (body : BulkUpdateRequest V)
      → be.create ≡ some false
      → be.update ≡ some false
      → be.delete ≡ some false
      → Keeps seen (bulk_step show entity col body here)
  unfolding bulk_step impl
  bulk_step-Keeps show entity col body no_create no_update no_delete =
      let created : (replace : Bool) → Keeps seen (here.multi_create entity replace body.objects) =
        λ replace s.
          ap (λ r. seen r.1)
            (creates_refused cells db be entity replace [] body.objects s no_create).1 in
      if-Keeps seen (str_eq body.mode "DELETE") _ _
        (bind-Keeps seen (lift (extract_ids show body.objects col)) _ (λ s. refl)
          λ ids s. ap (λ r. seen r.1) (deletes_refused cells db be entity "" ids s no_delete).1)
        (if-Keeps seen (str_eq body.mode "UPDATE") _ _
          (λ s.
            ap (λ r. seen r.1)
              (updates_refused cells db be entity "" [] body.objects s no_update).1)
          (if-Keeps seen (str_eq body.mode "REPLACE") _ _ (created true)
            (if-Keeps seen (str_eq body.mode "INSERT") _ _ (created false) λ s. refl)))

  pub bulk_update-Keeps :
      (show : Dict V → String) (known : Dict BackendConfig) (backend entity : String)
      (request : Go (BulkUpdateRequest V))
      → be.create ≡ some false
      → be.update ≡ some false
      → be.delete ≡ some false
      → Keeps seen (bulk_update show known backend entity request here)
  unfolding bulk_update
  bulk_update-Keeps show known backend entity request no_create no_update no_delete =
      or_send-Keeps seen 400 (lift request) _ (λ s. refl)
        λ body s.
          column-Keeps seen _ (λ col. or_send 500 (bulk_step show entity col body here) _) s
            λ col.
              or_send-Keeps seen 500 (bulk_step show entity col body here) _
                (bulk_step-Keeps show entity col body no_create no_update no_delete) λ done s'. refl

  pub page_named-Keeps :
      (name : String) (page_offset page_size : Option ℤ) (arg : Option (List String))
      → Keeps seen (Handlers.query_named cells name page_offset page_size arg here)
  unfolding Handlers.query_named impl
  page_named-Keeps name page_offset page_size arg =
      let args : List V = map cells.text (Handlers.args_of arg) in
      let answer : PagedResult V → Db S (Reply V) = λ res. pure (send (page res) 200) in
      or_send-Keeps seen 400 (lift (from_params page_offset page_size none none))
        (λ qry. or_send 500 (here.query_named name qry args) answer) (λ s. refl)
        λ qry.
          or_send-Keeps seen 500 (here.query_named name qry args) answer
            (query_named-Keeps seen cells db be reads name (some qry) args) λ res s. refl

  pub page_items-Keeps :
      (entity : String) (p : ListItemsParams F) → Keeps seen (Handlers.list_items entity p here)
  unfolding Handlers.list_items impl
  page_items-Keeps entity p =
      or_send-Keeps seen 400 (lift (from_params p.page_offset p.page_size p.order p.filter)) _
        (λ s. refl)
        λ qry.
          or_send-Keeps seen 500 (here.list_items entity qry) _
            (list_items-Keeps seen cells db be reads entity (some qry)) λ res s. refl

  pub names-Keeps : Keeps seen (Handlers.list_entities here)
  unfolding Handlers.list_entities impl
  names-Keeps =
      or_send-Keeps seen 500 here.list_entities _ (list_entities-Keeps seen cells db be reads)
        λ es s. refl

  pub get_item_by_id-Keeps :
      (entity id : String) → Keeps seen (Handlers.get_item_by_id entity id here)
  unfolding Handlers.get_item_by_id impl
  get_item_by_id-Keeps entity id =
      or_send-Keeps seen 500 (here.get entity id) (found_reply entity id)
        (get-Keeps seen cells db be reads entity id) (found_reply-Keeps seen entity id)

  pub exists_item_by_id-Keeps :
      (entity id : String) → Keeps seen (Handlers.exists_item_by_id entity id here)
  unfolding Handlers.exists_item_by_id impl
  exists_item_by_id-Keeps entity id =
      or_send-Keeps seen 500 (here.exists entity id) _
        (exists-Keeps seen cells db be reads entity id) λ b s. refl
