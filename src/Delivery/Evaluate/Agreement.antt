-- ===== src/Delivery/Evaluate/Agreement.antt =====
-- When `hard_evaluate_task` of Agent/vitabench_delivery.py accepts an order.
use mathlib.Core.List.{◌++◌}
use dbagent_tree.Prelude.{
  ℕ, suc, String, ◌≡◌, refl, ap, ◌∙◌, true, inl, inr, Bool-cases, List, [], ◌∷◌, arith, nat_eq,
  string_eq, ◌==◌, same_refl,
}
use dbagent_tree.Prelude.ListLaws.{Every}
use dbagent_tree.Exec.{ok}
use dbagent_tree.Exec.Results.{bind_ok}
use dbagent_tree.Tools.Json.{Json, Fields, null, str, array, object, nil, end, field_or}
use dbagent_tree.Tools.Python.{Python}
use dbagent_tree.Tools.Context.{iterate}
use dbagent_tree.Delivery.Floats.{Floats, equals}
use dbagent_tree.Delivery.Evaluate.{
  exact_fields, soft_fields, location_fields, product_fields, as_dict, len_of, indexed,
  normalized_shipping, comparable_value, check_field, check_fields, check_shipping, check_location,
  check_each, check_products,
}

pub append_empty : (xs ys : List String) → xs ++ ys ≡ [] → (xs ≡ []) × (ys ≡ [])
append_empty [] ys h = (refl, h)
append_empty (x ∷ xs) ys h = absurd (cc)

module _ {F : Type 0} (py : Python F) (fl : Floats F) where
  -- The field has equal comparable values in the two dicts.
  abbrev pub SameField : Json F → Fields F → Fields F → String → Type 0
  SameField default expected actual name =
      (a : Json F) × (comparable_value py fl (field_or name default actual) ≡ ok a)
      × (e : Json F) × (comparable_value py fl (field_or name default expected) ≡ ok e)
      × (equals fl a e ≡ true)

  abbrev pub SamePlace : Fields F → Fields F → String → Type 0
  SamePlace expected actual name =
      equals fl (field_or name null actual) (field_or name null expected) ≡ true

  abbrev pub EachSame : List (Json F) → List (Json F) → Type 0
  EachSame [] actuals = Unit
  EachSame (e ∷ es) [] = ⊥
  EachSame (e ∷ es) (a ∷ actuals) =
      ((actual : Fields F) × (as_dict a ≡ ok actual)
        × (expected : Fields F) × (as_dict e ≡ ok expected)
        × Every (SameField null expected actual) product_fields)
      × EachSame es actuals

  -- As many products, each with the same fields.
  abbrev pub SameProducts : Json F → Json F → Type 0
  SameProducts expected actual =
      (n : ℕ) × (len_of expected ≡ ok n)
      × (len_of actual ≡ ok n)
      × (es : List (Json F)) × (iterate expected ≡ ok es)
      × (actuals : List (Json F)) × (indexed actual ≡ ok actuals)
      × EachSame es actuals

  abbrev pub SameLocation : Json F → Json F → Type 0
  SameLocation expected actual =
      (a : Fields F) × (as_dict actual ≡ ok a)
      × (e : Fields F) × (as_dict expected ≡ ok e)
      × Every (SamePlace e a) location_fields

  abbrev pub SameShipping : Fields F → Fields F → Type 0
  SameShipping expected actual =
      equals fl (normalized_shipping (field_or "shipping_time" null actual))
        (normalized_shipping (field_or "shipping_time" null expected))
      ≡ true

  -- The order is the expected one, as far as the evaluation looks.
  abbrev pub Agrees : Fields F → Fields F → Type 0
  Agrees expected actual =
      Every (SameField null expected actual) exact_fields
      × Every (SameField (str "") expected actual) soft_fields
      × SameShipping expected actual
      × SameLocation (field_or "location" (object end) expected)
          (field_or "location" (object end) actual)
      × SameProducts (field_or "products" (array nil) expected)
          (field_or "products" (array nil) actual)

  module _ (expected actual : Fields F) where
    check_field-SameField :
        (prefix : String) (default : Json F) (name : String)
        → check_field py fl prefix default expected actual name ≡ ok []
        → SameField default expected actual name
    check_field-SameField prefix default name h =
        let (a, ea, h') = bind_ok (comparable_value py fl (field_or name default actual)) _ h in
        let (e, ee, h'') = bind_ok (comparable_value py fl (field_or name default expected)) _ h' in
        elim (Bool-cases (equals fl a e)) [
          | inl same ↦ (a, ea, e, ee, same)
          | inr differ ↦ absurd (let no = rw differ at h'' in cc)
        ]

    SameField-check_field :
        (prefix : String) (default : Json F) (name : String)
        → SameField default expected actual name
        → check_field py fl prefix default expected actual name ≡ ok []
    SameField-check_field prefix default name (a, ea, e, ee, same) = rw (ea, ee, same)

    pub check_fields-SameField :
        (prefix : String) (default : Json F) (names : List String)
        → check_fields py fl prefix default expected actual names ≡ ok []
        → Every (SameField default expected actual) names
    unfolding check_fields
    check_fields-SameField prefix default [] h = tt
    check_fields-SameField prefix default (name ∷ names) h =
        let (here, e, h') = bind_ok (check_field py fl prefix default expected actual name) _ h in
        let (rest, e', h'') =
          bind_ok (check_fields py fl prefix default expected actual names) _ h' in
        let (empty, empty') = append_empty here rest (cc) in
        (
          check_field-SameField prefix default name (e ∙ ap ok empty),
          check_fields-SameField prefix default names (e' ∙ ap ok empty'),
        )

    pub SameField-check_fields :
        (prefix : String) (default : Json F) (names : List String)
        → Every (SameField default expected actual) names
        → check_fields py fl prefix default expected actual names ≡ ok []
    unfolding check_fields
    SameField-check_fields prefix default [] h = refl
    SameField-check_fields prefix default (name ∷ names) (same, rest) =
        rw (SameField-check_field prefix default name same)
          (rw (SameField-check_fields prefix default names rest))

    pub check_location-SamePlace :
        (names : List String)
        → check_location py fl expected actual names ≡ []
        → Every (SamePlace expected actual) names
    unfolding check_location
    check_location-SamePlace [] h = tt
    check_location-SamePlace (name ∷ names) h =
        elim (Bool-cases (equals fl (field_or name null actual) (field_or name null expected))) [
          | inl same ↦ (same, check_location-SamePlace names (rw same at h))
          | inr differ ↦ absurd (let no = rw differ at h in cc)
        ]

    pub SamePlace-check_location :
        (names : List String)
        → Every (SamePlace expected actual) names
        → check_location py fl expected actual names ≡ []
    unfolding check_location
    SamePlace-check_location [] h = refl
    SamePlace-check_location (name ∷ names) (same, rest) =
        rw same (SamePlace-check_location names rest)

    pub check_shipping-SameShipping :
        check_shipping py fl expected actual ≡ [] → SameShipping expected actual
    check_shipping-SameShipping h =
        elim (Bool-cases (
          equals fl (normalized_shipping (field_or "shipping_time" null actual))
            (normalized_shipping (field_or "shipping_time" null expected)))) [
              | inl same ↦ same
              | inr differ ↦ absurd (let no = rw differ at h in cc)
            ]

    pub SameShipping-check_shipping :
        SameShipping expected actual → check_shipping py fl expected actual ≡ []
    SameShipping-check_shipping same = rw same

  check_each-EachSame :
      (idx : ℕ) (es actuals : List (Json F))
      → check_each py fl idx es actuals ≡ ok []
      → EachSame es actuals
  unfolding check_each
  check_each-EachSame idx [] actuals h = tt
  check_each-EachSame idx (e ∷ es) [] h = absurd (cc)
  check_each-EachSame idx (e ∷ es) (a ∷ actuals) h =
      let (actual, ea, h1) = bind_ok (as_dict a) _ h in
      let (expected, ee, h2) = bind_ok (as_dict e) _ h1 in
      let (here, eh, h3) =
        bind_ok (check_fields py fl _ null expected actual product_fields) _ h2 in
      let (rest, er, h4) = bind_ok (check_each py fl (suc idx) es actuals) _ h3 in
      let (empty, empty') = append_empty here rest (cc) in
      (
        (
          actual,
          ea,
          expected,
          ee,
          check_fields-SameField expected actual _ null product_fields (eh ∙ ap ok empty),
        ),
        check_each-EachSame (suc idx) es actuals (er ∙ ap ok empty'),
      )

  EachSame-check_each :
      (idx : ℕ) (es actuals : List (Json F))
      → EachSame es actuals
      → check_each py fl idx es actuals ≡ ok []
  unfolding check_each
  EachSame-check_each idx [] actuals h = refl
  EachSame-check_each idx (e ∷ es) [] h = elim h [ ]
  EachSame-check_each idx (e ∷ es) (a ∷ actuals) ((actual, ea, expected, ee, same), rest) =
      rw (ea, ee)
        (rw (SameField-check_fields expected actual _ null product_fields same)
          (rw (EachSame-check_each (suc idx) es actuals rest)))

  pub check_products-SameProducts :
      (expected actual : Json F)
      → check_products py fl expected actual ≡ ok []
      → SameProducts expected actual
  unfolding check_products
  check_products-SameProducts expected actual h =
      let (n, en, h1) = bind_ok (len_of expected) _ h in
      let (m, em, h2) = bind_ok (len_of actual) _ h1 in
      elim (Bool-cases (n == m)) [
        | inr differ ↦ absurd (let no = rw differ at h2 in cc)
        | inl same ↦
            let (es, ee, h3) = bind_ok (iterate expected) _ (rw same at h2) in
            let (actuals, ea, h4) = bind_ok (indexed actual) _ h3 in
            let m≡n : m ≡ n = omega (arith, (nat_eq.same_iff n m).0 same) in
            (n, en, em ∙ ap ok m≡n, es, ee, actuals, ea, check_each-EachSame 0 es actuals h4)
      ]

  pub SameProducts-check_products :
      (expected actual : Json F)
      → SameProducts expected actual
      → check_products py fl expected actual ≡ ok []
  unfolding check_products
  SameProducts-check_products expected actual (n, en, em, es, ee, actuals, ea, same) =
      rw (en, em, same_refl n) (rw (ee, ea) (EachSame-check_each 0 es actuals same))
