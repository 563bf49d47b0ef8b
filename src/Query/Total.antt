-- ===== src/Query/Total.antt =====
-- The fuel of `DecodeFilter` (pkg/query/codec.go): one more than the nesting of the input.
use db2rest_bridge.Base.{
  ℕ, zero, suc, ◌≤◌, ◌<◌, String, Option, none, some, ◌≡◌, refl, ◌≢◌, arith, ok, out_of_fuel,
  >>=-ne-out_of_fuel, Bool-cases, Option-cases, str_eq, inl, inr,
}
use db2rest_bridge.Types.Errors.{Go}
use db2rest_bridge.Query.Value.{
  Floats, Value, Values, Fields, null, str, arr, obj, no_values, value, no_fields, field, get_field,
  field_or_nil,
}
use db2rest_bridge.Query.Filter.{FilterExpression}
use db2rest_bridge.Query.Decode.{
  depth, depth_fields, depth_values, as_map, has_sub_map, on_some, must_text, must_list,
  simple_expr_from_map, in_expr_from_map, un_expr_from_map, decode_items, junction_expr_from_map,
  not_expr_from_map, decode_expr_from_map, Document, malformed, document, decode_filter,
}

module _ {F : Type 0} where
  depth-get_field :
      (key : String) (m : Fields F) {v : Value F}
      → get_field key m ≡ some v
      → depth v ≤ depth_fields m
  unfolding get_field depth
  depth-get_field key no_fields h = cc
  depth-get_field key (field k w fs) h = elim (Bool-cases (str_eq k key)) [
    | inl same ↦ ground (arith, rw same at h)
    | inr other ↦ omega (arith, depth-get_field key fs (rw other at h))
  ]

  depth-as_map : (v : Value F) {sub : Fields F} → as_map v ≡ some sub → depth_fields sub < depth v
  unfolding depth
  depth-as_map (obj fs) h = ground arith
  depth-as_map _ h = cc

  depth-has_sub_map :
      (key : String) (m : Fields F) {sub : Fields F}
      → has_sub_map key m ≡ some sub
      → depth_fields sub < depth_fields m
  unfolding has_sub_map
  depth-has_sub_map key m h = elim (Option-cases (get_field key m)) [
    | inl missing ↦ cc (rw (missing, has_sub_map) at h)
    | inr (v, found) ↦
        omega (arith, depth-get_field key m found, depth-as_map v (rw (found, has_sub_map) at h))
  ]

  depth-field_or_nil : (key : String) (m : Fields F) → depth (field_or_nil key m) ≤ depth_fields m
  unfolding field_or_nil
  depth-field_or_nil key m = elim (Option-cases (get_field key m)) [
    | inl missing ↦ rw (missing, field_or_nil) (unfold depth in omega arith)
    | inr (v, found) ↦ rw (found, field_or_nil) (depth-get_field key m found)
  ]

  depth-must_list : (v : Value F) (vs : Values F) → must_list v ≡ ok vs → depth_values vs < depth v
  unfolding depth
  depth-must_list (arr us) vs h = ground arith
  depth-must_list _ vs h = cc

  must_text-ne-out_of_fuel : (v : Value F) → must_text v ≢ out_of_fuel
  must_text-ne-out_of_fuel (str s) = cc
  must_text-ne-out_of_fuel _ = cc

  must_list-ne-out_of_fuel : (v : Value F) → must_list v ≢ out_of_fuel
  must_list-ne-out_of_fuel (arr vs) = cc
  must_list-ne-out_of_fuel _ = cc

on_some-ne-out_of_fuel :
    {A B : Type 0} (o : Option A) (f : A → Go B) (rest : Go B)
    → ((a : A) → o ≡ some a → f a ≢ out_of_fuel)
    → rest ≢ out_of_fuel
    → on_some o f rest ≢ out_of_fuel
on_some-ne-out_of_fuel (some a) f rest h k = h a refl
on_some-ne-out_of_fuel none f rest h k = k

ok-ne-out_of_fuel : {A : Type 0} (a : A) → ◌≢◌ {A = Go A} (ok a) out_of_fuel
ok-ne-out_of_fuel a = cc

module _ {F : Type 0} ⦃fl : Floats F⦄ where
  simple_expr_from_map-ends : (m : Fields F) → simple_expr_from_map m ≢ out_of_fuel
  unfolding simple_expr_from_map
  simple_expr_from_map-ends m =
      >>=-ne-out_of_fuel (must_text (field_or_nil "op" m)) _ (must_text-ne-out_of_fuel _)
        (λ op e. cc)

  in_expr_from_map-ends : (m : Fields F) → in_expr_from_map m ≢ out_of_fuel
  unfolding in_expr_from_map
  in_expr_from_map-ends m =
      >>=-ne-out_of_fuel (must_list (field_or_nil "val" m)) _ (must_list-ne-out_of_fuel _)
        (λ vals e. cc)

  un_expr_from_map-ends : (m : Fields F) → un_expr_from_map m ≢ out_of_fuel
  unfolding un_expr_from_map
  un_expr_from_map-ends m =
      >>=-ne-out_of_fuel (must_text (field_or_nil "op" m)) _ (must_text-ne-out_of_fuel _)
        (λ op e. cc)

  -- `decode` ends on every map less deep than `bound`.
  abbrev EndsBelow : ℕ → (Fields F → Go (FilterExpression F)) → Type 0
  EndsBelow bound decode = (m : Fields F) → depth_fields m < bound → decode m ≢ out_of_fuel

  module _ (bound : ℕ) (decode : Fields F → Go (FilterExpression F))
      (ends : EndsBelow bound decode) where
    decode_items-ends :
        (vs : Values F) → depth_values vs ≤ bound → decode_items decode vs ≢ out_of_fuel
    unfolding decode_items depth
    decode_items-ends no_values h = cc
    decode_items-ends (value (obj m) vs) h =
        >>=-ne-out_of_fuel (decode m) _ (ends m (omega arith)) λ e _.
          >>=-ne-out_of_fuel (decode_items decode vs) _ (decode_items-ends vs (omega arith))
            λ es _. cc
    decode_items-ends (value v vs) h = cc

    not_expr_from_map-ends :
        (m : Fields F) → depth_fields m < bound → not_expr_from_map decode m ≢ out_of_fuel
    unfolding not_expr_from_map
    not_expr_from_map-ends m h = >>=-ne-out_of_fuel (decode m) _ (ends m h) λ e _. cc

    junction_expr_from_map-ends :
        (m : Fields F) → depth_fields m < bound → junction_expr_from_map decode m ≢ out_of_fuel
    unfolding junction_expr_from_map
    junction_expr_from_map-ends m h =
        >>=-ne-out_of_fuel (must_text (field_or_nil "op" m)) _ (must_text-ne-out_of_fuel _) λ op _.
          >>=-ne-out_of_fuel (must_list (field_or_nil "sub" m)) _ (must_list-ne-out_of_fuel _)
            λ vs is_list.
              >>=-ne-out_of_fuel (decode_items decode vs) _
                (decode_items-ends vs
                  (omega (arith, depth-must_list _ vs is_list, depth-field_or_nil "sub" m)))
                λ es _. cc

  decode_expr_from_map-ends :
      (fuel : ℕ) (m : Fields F) → depth_fields m < fuel → decode_expr_from_map fuel m ≢ out_of_fuel
  unfolding decode_expr_from_map
  decode_expr_from_map-ends zero m h = absurd (omega arith)
  decode_expr_from_map-ends (suc fuel) m h =
      on_some-ne-out_of_fuel (has_sub_map "simple" m) _ _ (λ sub _. simple_expr_from_map-ends sub)
        (on_some-ne-out_of_fuel (has_sub_map "junction" m) _ _
          (λ sub e.
            junction_expr_from_map-ends fuel _ (decode_expr_from_map-ends fuel) sub
              (omega (arith, depth-has_sub_map "junction" m e)))
          (on_some-ne-out_of_fuel (has_sub_map "not" m) _ _
            (λ sub e.
              not_expr_from_map-ends fuel _ (decode_expr_from_map-ends fuel) sub
                (omega (arith, depth-has_sub_map "not" m e)))
            (on_some-ne-out_of_fuel (has_sub_map "in" m) _ _ (λ sub _. in_expr_from_map-ends sub)
              (on_some-ne-out_of_fuel (has_sub_map "un" m) _ _ (λ sub _. un_expr_from_map-ends sub)
                (on_some-ne-out_of_fuel (has_sub_map "between" m) _ _ (λ sub _. cc) (cc))))))

  -- The decoding of a filter returns, fails or panics, whatever the text: the bound on the
  -- recursion, taken from the nesting of the text, is enough.
  pub decode_filter-ne-out_of_fuel : (d : Document F) → decode_filter d ≢ out_of_fuel
  unfolding decode_filter
  decode_filter-ne-out_of_fuel malformed = cc
  decode_filter-ne-out_of_fuel (document (obj m)) =
      decode_expr_from_map-ends (suc (depth_fields m)) m (omega arith)
  decode_filter-ne-out_of_fuel (document null) = cc
  decode_filter-ne-out_of_fuel (document v) = cc
