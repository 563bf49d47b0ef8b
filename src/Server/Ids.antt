-- ===== src/Server/Ids.antt =====
-- `extractIds` (pkg/server/misc.go), and the modes of `BulkUpdate` (pkg/server/ops.go).
use db2rest_bridge.Base.{
  String, false, List, [], ◌∷◌, some, map, ◌≡◌, refl, ap, arith, ok, >>=-eq-ok, Option-cases, inl,
  inr,
}
use db2rest_bridge.Base.Dict.{Dict, lookup}
use db2rest_bridge.Types.Config.{BackendConfig, id_column}
use db2rest_bridge.Crud.Driver.{pure}
use db2rest_bridge.Server.Reply.{silent}
use db2rest_bridge.Server.Answers.{or_send-ok}
use db2rest_bridge.Server.Interface.{Interface}
use db2rest_bridge.Api.Types.{BulkUpdateRequest, is_valid}
use db2rest_bridge.Server.Bulk.{id_of, extract_ids, bulk_step, bulk_update}

id_found :
    {V : Type 0} (show : Dict V → String) (id_col : String) (o : Dict V) (i : V)
    → id_of show id_col o ≡ ok i
    → lookup id_col o ≡ some i
unfolding id_of
id_found show id_col o i h = elim (Option-cases (lookup id_col o)) [
  | inl missing ↦ ground arith
  | inr (j, there) ↦ ground arith
]

found_id :
    {V : Type 0} (show : Dict V → String) (id_col : String) (o : Dict V) (i : V)
    → lookup id_col o ≡ some i
    → id_of show id_col o ≡ ok i
unfolding id_of
found_id show id_col o i h = rw (h, id_of)

module _ {V : Type 0} (show : Dict V → String) (id_col : String) where
  -- If every object has an ID, the IDs come out, in the order of the objects.
  pub extract_ids_all :
      (objs : List (Dict V)) (ids : List V)
      → map (lookup id_col) objs ≡ map some ids
      → extract_ids show objs id_col ≡ ok ids
  unfolding extract_ids
  extract_ids_all [] [] h = refl
  extract_ids_all (o ∷ objs) (i ∷ ids) h =
      let here : lookup id_col o ≡ some i = cc in
      let rest : map (lookup id_col) objs ≡ map some ids = cc in
      rw (found_id show id_col o i here) (rw (extract_ids_all objs ids rest))
  extract_ids_all [] (i ∷ ids) h = cc
  extract_ids_all (o ∷ objs) [] h = cc

  -- If IDs come out, every object has one and they are the IDs of the objects, in their order.
  extract_ids_sound :
      (objs : List (Dict V)) (ids : List V)
      → extract_ids show objs id_col ≡ ok ids
      → map (lookup id_col) objs ≡ map some ids
  unfolding extract_ids
  extract_ids_sound [] ids h = let e : [] ≡ ids = cc in ap (map some) e
  extract_ids_sound (o ∷ objs) ids h =
      let (i, found, h') = >>=-eq-ok _ _ h in
      let (rest, others, h'') = >>=-eq-ok (extract_ids show objs id_col) _ h' in
      let e : i ∷ rest ≡ ids = cc in
      let here : lookup id_col o ≡ some i = id_found show id_col o i found in
      rw (here, extract_ids_sound objs rest others) (ap (map some) e)

bulk_step_unknown :
    {V F S : Type 0} (show : Dict V → String) (entity id_col : String) (body : BulkUpdateRequest V)
    (c : Interface V F S) (s : S)
    → is_valid body.mode ≡ false
    → bulk_step show entity id_col body c s ≡ (ok tt, s)
unfolding bulk_step is_valid
bulk_step_unknown show entity id_col body c s unknown = ground arith

module _ {V F S : Type 0} (show : Dict V → String) (backends : Dict BackendConfig) where
  -- For a configured backend, a bulk request with a mode that is none of the four is answered as a
  -- success, without a call of the backend.
  pub bulk_update_unknown :
      (backend entity id_col : String) (be : BackendConfig) (body : BulkUpdateRequest V)
      (c : Interface V F S) (s : S)
      → lookup backend backends ≡ some be
      → id_column be entity ≡ ok id_col
      → is_valid body.mode ≡ false
      → bulk_update show backends backend entity (ok body) c s ≡ (ok silent, s)
  unfolding bulk_update
  bulk_update_unknown backend entity id_col be body c s there column unknown = rw there (
      rw column (
        or_send-ok 500 (bulk_step show entity id_col body c) (λ done. pure silent)
          (bulk_step_unknown show entity id_col body c s unknown)))
