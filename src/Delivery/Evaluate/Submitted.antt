-- ===== src/Delivery/Evaluate/Submitted.antt =====
-- The order that the agent of Agent/vitabench_delivery.py submits, before its evaluation.
use dbagent_tree.Prelude.{
  String, ◌≡◌, refl, ap, ◌∙◌, Bool, true, false, not, ◌&&◌, ◌||◌, inl, inr, Bool-cases, some, List,
  [], ◌∷◌, string_eq, ◌==◌, arith, length,
}
use dbagent_tree.Prelude.ListLaws.{Every}
use dbagent_tree.Exec.{ok}
use dbagent_tree.Tools.Json.{
  Json, Items, Fields, null, bool, int, float, str, array, object, nil, cons, end, field, field?,
  field_or, to_list,
}
use dbagent_tree.Tools.Python.{Python, truthy}
use dbagent_tree.Tools.Context.{iterate}
use dbagent_tree.Delivery.{has}
use dbagent_tree.Delivery.Floats.{Floats}
use dbagent_tree.Delivery.Orders.{drop_field, submitted_order, order_array_from_submit_args}
use dbagent_tree.Delivery.Evaluate.{
  exact_fields, soft_fields, location_fields, product_fields, normalized_shipping, comparable_value,
  evaluate, loaded_answer,
}
use dbagent_tree.Delivery.Evaluate.Agreement.{SameField, SamePlace, EachSame, Agrees}
use dbagent_tree.Delivery.Evaluate.Verdict.{Succeeds, evaluate-IsRight}
use dbagent_tree.Delivery.Evaluate.Reflexive.{
  IsPlain, PlainItems, PlainFields, equals_refl, plain-Comparable, IsPlain-field_or,
}

-- The names that are taken out of an order.
abbrev call_names : List String
call_names = "branch_id" ∷ "tx_id" ∷ "task_id" ∷ "namespace" ∷ []

abbrev all_stay : List String → Bool
all_stay [] = true
all_stay (name ∷ names) = not (has name call_names) && all_stay names

module _ {F : Type 0} where
  field?-drop_field :
      (name dropped : String) (fs : Fields F)
      → (name == dropped) ≡ false
      → field? name (drop_field dropped fs) ≡ field? name fs
  unfolding drop_field field?
  field?-drop_field name dropped end h = refl
  field?-drop_field name dropped (field k v fs) h = ground (
    arith,
    field?-drop_field name dropped fs h,
    string_eq.same_iff dropped k,
    string_eq.same_iff name k,
    string_eq.same_iff name dropped,
  )

  field_or-submitted_order :
      (name : String) (default : Json F) (fs : Fields F)
      → has name call_names ≡ false
      → field_or name default (submitted_order fs) ≡ field_or name default fs
  unfolding submitted_order has field_or
  field_or-submitted_order name default fs h =
      let same : field? name (submitted_order fs) ≡ field? name fs =
        (field?-drop_field name "branch_id" _ (ground arith)
          ∙ field?-drop_field name "tx_id" _ (ground arith)
          ∙ field?-drop_field name "task_id" _ (ground arith)
          ∙ field?-drop_field name "namespace" fs (ground arith)) in
      rw (same, field_or)

  -- An order with a location that is a dict, and a list of products that are dicts.
  abbrev pub AllDicts : List (Json F) → Type 0
  AllDicts [] = Unit
  AllDicts (x ∷ xs) = ((fs : Fields F) × (x ≡ object fs)) × AllDicts xs

  abbrev pub IsOrder : Python F → Fields F → Type 0
  IsOrder py order =
      PlainFields py order
      × ((place : Fields F) × (field_or "location" (object end) order ≡ object place))
      × ((products : Items F) × (field_or "products" (array nil) order ≡ array products)
          × AllDicts (to_list products))

module _ {F : Type 0} (py : Python F) (fl : Floats F) (no_nan : (x : F) → fl.same x x ≡ true) where
  same_fields :
      (default : Json F) (order : Fields F) (names : List String)
      → IsPlain py default
      → PlainFields py order
      → Every (SameField py fl default order order) names
  same_fields default order [] d h = tt
  same_fields default order (name ∷ names) d h =
      let (x, e, same) =
        plain-Comparable py fl no_nan (field_or name default order)
          (IsPlain-field_or py fl no_nan name default order h d) in
      ((x, e, x, e, same), same_fields default order names d h)

  submitted_fields :
      (default : Json F) (order : Fields F) (names : List String)
      → all_stay names ≡ true
      → Every (SameField py fl default order order) names
      → Every (SameField py fl default order (submitted_order order)) names
  submitted_fields default order [] h same = tt
  submitted_fields default order (name ∷ names) h ((a, ea, e, ee, here), rest) =
      let stays = field_or-submitted_order name default order (ground arith) in
      (
        (a, ap (comparable_value py fl) stays ∙ ea, e, ee, here),
        submitted_fields default order names (ground arith) rest,
      )

  abbrev Plains : List (Json F) → Type 0
  Plains [] = Unit
  Plains (x ∷ xs) = IsPlain py x × Plains xs

  items-Plains : (xs : Items F) → PlainItems py xs → Plains (to_list xs)
  unfolding PlainItems
  items-Plains nil h = tt
  items-Plains (cons x xs) (h, hs) = (h, items-Plains xs hs)

  same_products :
      (products : List (Json F))
      → AllDicts products
      → Plains products
      → EachSame py fl products products
  unfolding IsPlain
  same_products [] d h = tt
  same_products (p ∷ ps) ((fs, e), d) (h, hs) = (
    (fs, rw e, fs, rw e, same_fields null fs product_fields tt (rw e at h)),
    same_products ps d hs,
  )

  same_places :
      (place : Fields F) (names : List String)
      → PlainFields py place
      → Every (SamePlace py fl place place) names
  unfolding IsPlain
  same_places place [] h = tt
  same_places place (name ∷ names) h = (
    equals_refl py fl no_nan (field_or name null place)
        (IsPlain-field_or py fl no_nan name null place h tt),
    same_places place names h,
  )

  shipping-IsPlain : (j : Json F) → IsPlain py j → IsPlain py (normalized_shipping j)
  unfolding IsPlain
  shipping-IsPlain (str s) h = elim (Bool-cases (s == "" || s == "null" || s == "None")) [
    | inl e ↦ rw e tt
    | inr e ↦ rw e tt
  ]
  shipping-IsPlain null h = h
  shipping-IsPlain (bool b) h = h
  shipping-IsPlain (int n) h = h
  shipping-IsPlain (float x) h = h
  shipping-IsPlain (array xs) h = h
  shipping-IsPlain (object fs) h = h

  submitted_order-Agrees :
      (order : Fields F) → IsOrder py order → Agrees py fl order (submitted_order order)
  unfolding has IsPlain iterate
  submitted_order-Agrees order (plain, (place, e), (products, e', dicts)) =
      let location = field_or-submitted_order "location" (object end) order refl in
      let listed = field_or-submitted_order "products" (array nil) order refl in
      let shipping = IsPlain-field_or py fl no_nan "shipping_time" null order plain tt in
      let place_plain : PlainFields py place =
        (let p = IsPlain-field_or py fl no_nan "location" (object end) order plain tt in
          rw e at p) in
      let products_plain : PlainItems py products =
        (let p = IsPlain-field_or py fl no_nan "products" (array nil) order plain tt in
          rw e' at p) in
      (
        submitted_fields null order exact_fields refl
            (same_fields null order exact_fields tt plain),
        submitted_fields (str "") order soft_fields refl
            (same_fields (str "") order soft_fields tt plain),
        rw (field_or-submitted_order "shipping_time" null order refl) (
            equals_refl py fl no_nan (normalized_shipping (field_or "shipping_time" null order))
              (shipping-IsPlain (field_or "shipping_time" null order) shipping)),
        rw (location, e) (place, refl, place, refl, same_places place location_fields place_plain),
        rw (listed, e')
            (
              length (to_list products),
              refl,
              refl,
              to_list products,
              refl,
              to_list products,
              refl,
              same_products (to_list products) dicts (items-Plains products products_plain),
            ),
      )

  -- Without NaN: what the agent submits for an expected order that is a dict without doubled keys
  -- and with integers in the range of floats, whose location is a dict and whose products are a list
  -- of dicts, is evaluated with success, if its text is not empty and `json` reads it back.
  pub order_array_from_submit_args-evaluate :
      (order : Fields F) (parsed : Json F) (raw : String)
      → IsOrder py order
      → order_array_from_submit_args py (object order) ≡ ok (some (parsed, raw))
      → (raw == "") ≡ false
      → py.loads raw ≡ some parsed
      → Succeeds py fl (evaluate py fl (object order) (loaded_answer py fl (some raw)).0 (some raw))
  unfolding order_array_from_submit_args
  order_array_from_submit_args-evaluate order parsed raw good h full read =
      let parsed_is : parsed ≡ array (cons (object (submitted_order order)) nil) =
        (elim (Bool-cases (truthy py (object order))) [
          | inl t ↦ let same = rw t at h in cc
          | inr f ↦ absurd (let no = rw f at h in cc)
        ]) in
      rw (full, read)
        ((evaluate-IsRight py fl (object order) parsed (some raw)).1 (
          order,
          refl,
          submitted_order order,
          parsed_is,
          raw,
          refl,
          full,
          submitted_order-Agrees order good,
        ))
