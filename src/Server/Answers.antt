-- ===== src/Server/Answers.antt =====
-- How the handlers (pkg/server/ops.go) go on with a result.
use db2rest_bridge.Base.{ℕ, String, if◌then◌else◌, ◌≡◌, ap, ok, err}
use db2rest_bridge.Types.Errors.{Error}
use db2rest_bridge.Crud.Driver.{Db, pure}
use db2rest_bridge.Server.Reply.{Reply, send, send_error, write_header, object}
use db2rest_bridge.Base.Dict.{Dict}
use db2rest_bridge.Server.Interface.{Interface}
use db2rest_bridge.Server.Handlers.{
  or_send, send_on, found_reply, update_there, create_item, delete_item_by_id, exists_item_by_id,
  get_item_by_id, update_item_by_id,
}

module _ {V S A : Type 0} (status : ℕ) (m : Db S A) (f : A → Db S (Reply V)) {s t : S} where
  pub or_send-ok : {a : A} → m s ≡ (ok a, t) → or_send status m f s ≡ f a t
  or_send-ok {a = a} h = ap (send_on status f) h

  pub or_send-err :
      {e : Error} → m s ≡ (err e, t) → or_send status m f s ≡ (ok (send_error e status), t)
  or_send-err h = ap (send_on status f) h

module _ {V F S : Type 0} (c : Interface V F S) (entity id : String) {e : Error} {s t : S} where
  pub create_item-err :
      (b : Dict V)
      → c.create entity b s ≡ (err e, t)
      → create_item entity (ok b) c s ≡ (ok (send_error e 500), t)
  unfolding create_item
  create_item-err b h = ap (send_on 500 λ created. pure (send (object created) 201)) h

  pub delete_item_by_id-err :
      c.delete entity id s ≡ (err e, t)
      → delete_item_by_id entity id c s ≡ (ok (send_error e 500), t)
  unfolding delete_item_by_id
  delete_item_by_id-err h = ap (send_on 500 λ done. pure (write_header 204)) h

  exists_item_by_id-err :
      c.exists entity id s ≡ (err e, t)
      → exists_item_by_id entity id c s ≡ (ok (send_error e 500), t)
  unfolding exists_item_by_id
  exists_item_by_id-err h = ap (send_on 500 λ b. pure (write_header (if b then 204 else 404))) h

  get_item_by_id-err :
      c.get entity id s ≡ (err e, t) → get_item_by_id entity id c s ≡ (ok (send_error e 500), t)
  unfolding get_item_by_id
  get_item_by_id-err h = ap (send_on 500 (found_reply entity id)) h

  pub update_item_by_id-err :
      (b : Dict V)
      → c.exists entity id s ≡ (err e, t)
      → update_item_by_id entity id (ok b) c s ≡ (ok (send_error e 500), t)
  unfolding update_item_by_id
  update_item_by_id-err b h = ap (send_on 500 (update_there entity id b c)) h
