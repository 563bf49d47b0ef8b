-- ===== src/Client/Received.antt =====
-- What the client over HTTP makes of responses (pkg/client/ops.go, pkg/api/gen.go).
use db2rest_bridge.Base.{
  ℕ, ◌==◌, ◌<>◌, show_nat, String, List, some, Bool, true, false, ◌&&◌, ok, err, ◌≡◌, refl,
}
use db2rest_bridge.Base.Results
use db2rest_bridge.Base.Search.{contains}
use db2rest_bridge.Base.Dict.{Dict}
use db2rest_bridge.Types.Errors.{Error, Go, with_status, new_error_with_status}
use db2rest_bridge.Base.Int.{ℤ}
use db2rest_bridge.Api.Types.{PagedResult}
use db2rest_bridge.Api.Wire.{Json, Response}
use db2rest_bridge.Api.Responses.{
  parse_list_items_response, parse_query_named_response, parse_get_item_by_id_response,
  parse_create_item_response, parse_delete_item_by_id_response, parse_update_item_by_id_response,
  parse_bulk_update_response, status_code_of,
}
use db2rest_bridge.Client.Response.{
  error_from_response, error_from_response_with_msg, ensure_response_code,
}
use db2rest_bridge.Client.Http.{
  decode_all, list_result, query_result, get_result, create_result, update_result, delete_result,
  ensure_ok,
}

and_false : (b : Bool) → (b && false) ≡ false
and_false true = refl
and_false false = refl

-- The error for another status than 200, with the text of the body. Its own status is the one that was
-- wanted.
abbrev pub wanted_ok : ℕ → String → Error
wanted_ok status text =
    with_status 200
      ("unexpected error code: " <> show_nat status <> ", wanted: " <> "200" <> ", body: " <> text)

module _ {T V B : Type 0} (json : Json V B) (dec_fn : Dict V → Go T) (rsp : Response B) {b : B}
    (read : rsp.body ≡ ok b) where
  module _ (typed : contains rsp.content_type "json" ≡ true) where
    pub get-found :
        {d : Dict V}
        → rsp.status_code ≡ 200
        → json.unmarshal_dto b ≡ ok d
        → (Results.◌>>=◌ (parse_get_item_by_id_response json rsp) (get_result dec_fn)) ≡ dec_fn d
    unfolding parse_get_item_by_id_response get_result status_code_of
    get-found code parsed = rw read (rw typed (rw code (rw parsed refl)))

    pub get-missing :
        {m : String}
        → rsp.status_code ≡ 404
        → json.unmarshal_error b ≡ ok m
        → (Results.◌>>=◌ (parse_get_item_by_id_response json rsp) (get_result dec_fn))
          ≡ err (with_status 404 m)
    unfolding parse_get_item_by_id_response get_result status_code_of error_from_response_with_msg
        new_error_with_status
    get-missing code parsed = rw read (rw typed (rw code (rw parsed refl)))

    pub list-made :
        {p : PagedResult V} {ds : List (Dict V)} {total : ℤ} (text_of : B → String)
        → rsp.status_code ≡ 200
        → json.unmarshal_page b ≡ ok p
        → p.items ≡ some ds
        → p.total_count ≡ some total
        → (Results.◌>>=◌ (parse_list_items_response json rsp) (list_result dec_fn text_of))
          ≡ (Results.◌>>=◌ (decode_all dec_fn ds) λ res. ok (res, total))
    unfolding parse_list_items_response list_result ensure_response_code
    list-made text_of code parsed items total =
        rw read (rw typed (rw code (rw parsed (rw items (rw total refl)))))

    pub query-made :
        {p : PagedResult V}
        → rsp.status_code ≡ 200
        → json.unmarshal_page b ≡ ok p
        → (Results.◌>>=◌ (parse_query_named_response json rsp) query_result) ≡ ok (some p)
    unfolding parse_query_named_response query_result
    query-made code parsed = rw read (rw typed (rw code (rw parsed refl)))

    pub create-made :
        {d : Dict V}
        → rsp.status_code ≡ 201
        → json.unmarshal_dto b ≡ ok d
        → (Results.◌>>=◌ (parse_create_item_response json rsp) (create_result dec_fn)) ≡ dec_fn d
    unfolding parse_create_item_response create_result status_code_of
    create-made code parsed = rw read (rw typed (rw code (rw parsed refl)))

    pub update-made :
        {d : Dict V}
        → rsp.status_code ≡ 202
        → json.unmarshal_dto b ≡ ok d
        → (Results.◌>>=◌ (parse_update_item_by_id_response json rsp) (update_result dec_fn))
          ≡ dec_fn d
    unfolding parse_update_item_by_id_response update_result status_code_of
    update-made code parsed = rw read (rw typed (rw code (rw parsed refl)))

  -- A status that no case names
  pub get-refused :
      rsp.status_code ≡ 405
      → (Results.◌>>=◌ (parse_get_item_by_id_response json rsp) (get_result dec_fn))
        ≡ err (error_from_response 405)
  unfolding parse_get_item_by_id_response get_result status_code_of
  get-refused code = rw read (rw code (rw (and_false (contains rsp.content_type "json")) refl))

  -- Another status than 200
  pub list-unexpected :
      (text_of : B → String)
      → (rsp.status_code == 200) ≡ false
      → (Results.◌>>=◌ (parse_list_items_response json rsp) (list_result dec_fn text_of))
        ≡ err (wanted_ok rsp.status_code (text_of b))
  unfolding parse_list_items_response list_result ensure_response_code new_error_with_status
      show_nat
  list-unexpected text_of other =
      rw read (rw other (rw (and_false (contains rsp.content_type "json")) (rw other refl)))

pub bulk_update-done :
    {B : Type 0} (text_of : B → String) (rsp : Response B) {b : B}
    → rsp.body ≡ ok b
    → rsp.status_code ≡ 200
    → (Results.◌>>=◌
        (parse_bulk_update_response rsp)
        (λ resp. ensure_ok text_of resp.http_response resp.body))
      ≡ ok tt
unfolding parse_bulk_update_response ensure_response_code
bulk_update-done text_of rsp read code = rw read (rw code refl)

pub delete-done :
    {B : Type 0} (rsp : Response B) {b : B}
    → rsp.body ≡ ok b
    → rsp.status_code ≡ 204
    → (Results.◌>>=◌ (parse_delete_item_by_id_response rsp) delete_result) ≡ ok tt
unfolding parse_delete_item_by_id_response delete_result status_code_of
delete-done rsp read code = rw read (rw code refl)
