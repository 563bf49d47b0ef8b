-- ===== src/Api/Tests.antt =====
-- Requests, responses and errors of Api at concrete inputs.
use db2rest_bridge.Base.{
  String, [], ◌∷◌, none, some, ok, err, ◌≡◌, refl, ◌<>◌, join, split_on, show_nat,
}
use db2rest_bridge.Base.Int.{ℤ, pos, show_int}
use db2rest_bridge.Base.Search.{contains}
use db2rest_bridge.Types.Errors.{json}
use db2rest_bridge.Query.Params.{ListItemsParams}
use db2rest_bridge.Api.Wire.{Urls, Styles, Json, Response}
use db2rest_bridge.Api.Requests.{
  new_list_items_request, new_query_named_request, new_bulk_update_request_with_body,
}
use db2rest_bridge.Api.Responses.{parse_create_item_response}
use db2rest_bridge.Api.Wrapper.{
  required_parameter, other_error, query_param_error, param_error_text,
}

-- A URL is its text.
abbrev urls : Urls String
urls = record {
  parse = λ s. ok s;
  resolve = λ u ref. ok (u <> ref);
  encoded_query = λ u. "";
  set_raw_query = λ q u. u <> "?" <> q;
  new_request = λ m u. ok tt;
}

abbrev styles : Styles ℤ
styles = record {
  style_path = λ name s. ok s;
  style_int = λ name i. ok (name <> "=" <> show_int i);
  style_texts = λ name ss. ok (join "&" ss);
  style_filter = λ name d. ok (name <> "=");
}

abbrev second_page : ListItemsParams ℤ
second_page = record {
  page_offset = some (pos 20);
  page_size = some (pos 10);
  order = some ("order[]=a" ∷ "order[]=b" ∷ []);
  filter = none;
}

-- The fragments stand in the order of the parameters.
list_items_test :
    new_list_items_request urls styles {B = String} "s" "db" "people" (some second_page)
    ≡ ok (record {
      method = "GET";
      url = "s./db/people?page-offset=20&page-size=10&order[]=a&order[]=b";
      content_type = none;
      body = none;
    })
unfolding new_list_items_request split_on show_int show_nat
list_items_test = refl

query_named_test :
    new_query_named_request urls styles {B = String} "s" "db" "top"
      (some (record { page_offset = none; page_size = some (pos 5); arg = some ("arg=x" ∷ []) }))
    ≡ ok (record {
      method = "GET";
      url = "s./db/_query/top?page-size=5&arg=x";
      content_type = none;
      body = none;
    })
unfolding new_query_named_request split_on show_int show_nat
query_named_test = refl

bulk_update_test :
    new_bulk_update_request_with_body urls styles {B = String} "s" "db" "people" "text/plain" "b"
    ≡ ok (record {
      method = "POST";
      url = "s./db/people/bulk";
      content_type = some "text/plain";
      body = some "b";
    })
unfolding new_bulk_update_request_with_body
bulk_update_test = refl

-- A response with the status 405 is parsed without its content.
abbrev refused : Response String
refused = record { status_code = 405; content_type = "application/json"; body = ok "no" }

abbrev unreadable : Json ℤ String
unreadable = record {
  marshal_dto = λ d. err json;
  marshal_bulk = λ r. err json;
  unmarshal_names = λ b. err json;
  unmarshal_version = λ b. err json;
  unmarshal_dto = λ b. err json;
  unmarshal_page = λ b. err json;
  unmarshal_error = λ b. err json;
}

create_item_test :
    parse_create_item_response unreadable refused
    ≡ ok (record { body = "no"; http_response = some refused; json201 = none; json500 = none })
unfolding parse_create_item_response contains
create_item_test = refl

create_item_unreadable_test :
    parse_create_item_response unreadable (record refused { status_code = 201 }) ≡ err json
unfolding parse_create_item_response contains
create_item_unreadable_test = refl

required_test :
    param_error_text (query_param_error "page-size" (required_parameter "x"))
    ≡ "Query argument page-size is required, but not found"
unfolding param_error_text query_param_error
required_test = refl

format_test :
    param_error_text (query_param_error "page-size" (other_error "not a number"))
    ≡ "Invalid format for parameter page-size: not a number"
unfolding param_error_text query_param_error
format_test = refl
