-- ===== src/Client/Tests.antt =====
-- The theorems of Client at concrete items.
use db2rest_bridge.Base.{
  ℕ, String, true, false, List, [], ◌∷◌, Option, none, some, ◌≡◌, refl, arith, str_eq, ok, err, inl,
  ◌==◌,
}
use db2rest_bridge.Base.Int.{ℤ, pos}
use db2rest_bridge.Query.Samples.{whole}
use db2rest_bridge.Query.Value.{Value, str}
use db2rest_bridge.Query.Filter.{FilterExpression, simple_expr, not_expr}
use db2rest_bridge.Query.Data.{QryData, default_query}
use db2rest_bridge.Client.Predicate.{Nodes, extract_item_property, as_predicate}
use db2rest_bridge.Client.Meaning.{holds, as_predicate_lem}
use db2rest_bridge.Client.Paging.{apply_paging}
use db2rest_bridge.Client.Slices.{apply_paging_overrun, pages, apply_paging_all}
use db2rest_bridge.Client.InMemory.{Store, set_at, create, delete, update, list}
use db2rest_bridge.Client.Response.{ensure_response_code}
use db2rest_bridge.Base.Dict.{Dict}
use db2rest_bridge.Types.Errors.{with_status}
use db2rest_bridge.Client.Replay.{
  Change, creation, updating, deletion, apply_change, apply_all, view, replay,
}
use db2rest_bridge.Client.Stored.{view-apply_all}
use db2rest_bridge.Client.FirstPage.{list-selected}

-- An item is its name.
abbrev text_of : Value ℤ → String
text_of (str s) = s
text_of v = ""

abbrev names : Nodes ℤ String
names = record {
  Node = String;
  child = λ item prop. if_name prop item;
  is_leaf = λ node. true;
  leaf_value = str;
  equal = λ v w. str_eq (text_of v) (text_of w);
}
  where
    if_name : String → String → Option String
    if_name prop item = elim (str_eq prop "name") [ true ↦ some item | false ↦ none ]

abbrev not_ann : FilterExpression ℤ
not_ann = not_expr (simple_expr "name" "=" (str "Ann"))

abbrev heap_of : ℕ → String
heap_of n = elim (n == 0) [ true ↦ "Ann" | false ↦ "Bob" ]

abbrev store : Store String
store = record { heap = heap_of; items = 0 ∷ 1 ∷ 2 ∷ [] }

as_predicate_lem_example : as_predicate names not_ann "Bob" ≡ some (holds names not_ann "Bob")
as_predicate_lem_example = as_predicate_lem names not_ann "Bob" (inl refl)

abbrev three : List ℕ
three = 1 ∷ 2 ∷ 3 ∷ []

apply_paging_overrun_example : apply_paging three [] (record { offset = 2; size = pos 2 }) ≡ none
apply_paging_overrun_example =
    apply_paging_overrun three 2 2 (omega arith) (omega arith) (omega arith) (omega arith)

abbrev same : List ℕ → List ℕ
same xs = []

abbrev first_two : QryData ℤ
first_two = record default_query {
  filter = not_ann;
  paging = some (record { offset = 0; size = pos 2 });
}

list-selected_example : list names same {E = String} first_two store ≡ ok (1 ∷ 2 ∷ [], pos 2)
unfolding holds extract_item_property
list-selected_example =
    list-selected names same store first_two not_ann 0 2 refl refl (inl refl) (omega arith)
      (omega arith)

-- Two items are selected, and one is loaded.
abbrev two_props : Dict ℕ
two_props = ("id", 1) ∷ ("name", 2) ∷ []

-- The error of a response that is not the one wanted has the status that was wanted.
ensure_response_code_test :
    ensure_response_code 404 200 "none"
    ≡ err (with_status 200 "unexpected error code: 404, wanted: 200, body: none")
unfolding ensure_response_code
ensure_response_code_test = refl

apply_paging_all_example :
    (pages three (9 ∷ []) 0 (2 ∷ 0 ∷ 1 ∷ []) ≡ some three)
    × (apply_paging three (9 ∷ []) (record { offset = 0; size = pos 20 }) ≡ some three)
apply_paging_all_example =
    apply_paging_all three (9 ∷ []) (2 ∷ 0 ∷ 1 ∷ []) 20 (omega arith) (omega arith) (omega arith)

abbrev bob_then_gone : List (Change String)
bob_then_gone = creation 3 "Eve" ∷ updating "Ann" "Ann" ∷ deletion "Bob" ∷ []

view-apply_all_example :
    view (λ name. name) (apply_all (λ name. name) bob_then_gone store) "Eve"
    ≡ replay (λ name. name) bob_then_gone (view (λ name. name) store) "Eve"
unfolding apply_change set_at create update delete
view-apply_all_example =
    view-apply_all (λ name. name) bob_then_gone store
      ((omega arith, (omega arith, (omega arith, tt))), (refl, (tt, tt))) "Eve"
