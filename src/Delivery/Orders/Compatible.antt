-- ===== src/Delivery/Orders/Compatible.antt =====
-- What the filter `_delivery_compatibility_reason` of Agent/vitabench_delivery.py lets through.
use Prim.Native.String
use text.Mathlib.TextLemmas.{append-eq-nil_iff}
use dbagent_tree.Prelude.{
  String, ◌≡◌, ◌≢◌, refl, ap, ◌∙◌, true, false, inl, inr, Bool-cases, Option-cases, none, List, ◌∷◌,
  arith, string_eq, ◌==◌, if◌then◌else◌,
}
use dbagent_tree.Exec.{Result, ok}
use dbagent_tree.Exec.Results.{bind_ok}
use dbagent_tree.Tools.Json.{
  Json, Items, Fields, null, bool, int, float, str, array, object, nil, cons, end, field, field?,
  field_or, to_list,
}
use dbagent_tree.Tools.Python.{Python, truthy, str_of}
use dbagent_tree.Delivery.{has}
use dbagent_tree.Delivery.Projection.{get_from}
use dbagent_tree.Delivery.Orders.{
  or_else, required_order, available_product_ids, find_store_and_product_ids, missing_field,
  product_reason, stores_reason, products_reason, location_reason, needed_fields, order_reason,
  delivery_compatibility_reason,
}

module _ {F : Type 0} (py : Python F) where
  abbrev id_of : Fields F → String
  id_of product = str_of py (field_or "product_id" (str "") product)

  abbrev stores_of : Fields F → Result (Json F)
  stores_of task = get_from (field_or "environment" (object end) task) "stores" (object end)

  -- The store is one of the task's, and one of its stores has the product.
  abbrev pub IsPlaced : Fields F → String × String → Type 0
  IsPlaced task (store_id, product_id) =
      ((store_id == "") ≡ false)
      × ((product_id == "") ≡ false)
      × ((stores : Fields F) × (stores_of task ≡ ok (object stores))
          × (field? store_id stores ≢ none)
          × (available : List String) × (available_product_ids py (object stores) ≡ ok available)
          × (has product_id available ≡ true))

  a_reason : (m : String) → (m == "") ≡ false → m ≢ ""
  a_reason m e h = ground (arith, string_eq.same_iff m "")

  not_fine : (m : String) → (m == "") ≡ false → ok m ≢ ok ""
  not_fine m e h = a_reason m e (cc)

  product_reason_lem :
      (available : List String) (p : Json F) (ps : List (Json F))
      → product_reason py available (p ∷ ps) ≡ ""
      → (product : Fields F) × (p ≡ object product)
        × ((id_of product == "") ≡ false)
        × (has (id_of product) available ≡ true)
  unfolding product_reason
  product_reason_lem available (object product) ps h =
      let id = id_of product in
      (
        product,
        refl,
        ground (arith, string_eq.same_iff "missing_product_id" ""),
        ground (
          arith,
          string_eq.same_iff "missing_product_id" "",
          string_eq.same_iff "expected_product_not_projectable" "",
        ),
      )
  product_reason_lem available null ps h = absurd (a_reason "bad_product_shape" refl h)
  product_reason_lem available (bool b) ps h = absurd (a_reason "bad_product_shape" refl h)
  product_reason_lem available (int n) ps h = absurd (a_reason "bad_product_shape" refl h)
  product_reason_lem available (float x) ps h = absurd (a_reason "bad_product_shape" refl h)
  product_reason_lem available (str t) ps h = absurd (a_reason "bad_product_shape" refl h)
  product_reason_lem available (array xs) ps h = absurd (a_reason "bad_product_shape" refl h)

  -- The order's store and its first product, as the filter has seen them.
  abbrev Seen : Fields F → List (Json F) → Json F → Type 0
  Seen order products stores =
      (fs : Fields F) × (stores ≡ object fs)
      × ((str_of py (field_or "store_id" (str "") order) == "") ≡ false)
      × (field? (str_of py (field_or "store_id" (str "") order)) fs ≢ none)
      × (available : List String) × (available_product_ids py (object fs) ≡ ok available)
      × (product_reason py available products ≡ "")

  stores_reason_lem :
      (order : Fields F) (products : List (Json F)) (stores : Json F)
      → stores_reason py order products stores ≡ ok ""
      → Seen order products stores
  stores_reason_lem order products (object (field k v fs)) h =
      let id = str_of py (field_or "store_id" (str "") order) in
      elim (Bool-cases (id == "")) [
        | inl e ↦ absurd (not_fine "missing_store_id" refl (rw e at h))
        | inr e ↦ elim (Option-cases (field? id (field k v fs))) [
          | inl gone ↦ absurd (not_fine "expected_store_not_projectable" refl (rw (e, gone) at h))
          | inr (store, there) ↦
              let (available, known, reason) =
                bind_ok (available_product_ids py (object (field k v fs))) _ (rw (e, there) at h) in
              (field k v fs, refl, e, (λ gone. absurd (cc)), available, known, ground arith)
        ]
      ]
  stores_reason_lem order products (object end) h = absurd (not_fine "missing_stores" refl h)
  stores_reason_lem order products null h = absurd (not_fine "missing_stores" refl h)
  stores_reason_lem order products (bool b) h = absurd (not_fine "missing_stores" refl h)
  stores_reason_lem order products (int n) h = absurd (not_fine "missing_stores" refl h)
  stores_reason_lem order products (float x) h = absurd (not_fine "missing_stores" refl h)
  stores_reason_lem order products (str t) h = absurd (not_fine "missing_stores" refl h)
  stores_reason_lem order products (array xs) h = absurd (not_fine "missing_stores" refl h)

  products_reason_lem :
      (task order : Fields F) (products : Json F)
      → products_reason py task order products ≡ ok ""
      → (p : Json F) × (ps : Items F) × (products ≡ array (cons p ps))
        × (stores : Json F) × (stores_of task ≡ ok stores)
        × Seen order (p ∷ to_list ps) stores
  products_reason_lem task order (array (cons p ps)) h =
      let (stores, e, seen) = bind_ok (stores_of task) _ h in
      (p, ps, refl, stores, e, stores_reason_lem order (p ∷ to_list ps) stores seen)
  products_reason_lem task order (array nil) h = absurd (not_fine "missing_products" refl h)
  products_reason_lem task order null h = absurd (not_fine "missing_products" refl h)
  products_reason_lem task order (bool b) h = absurd (not_fine "missing_products" refl h)
  products_reason_lem task order (int n) h = absurd (not_fine "missing_products" refl h)
  products_reason_lem task order (float x) h = absurd (not_fine "missing_products" refl h)
  products_reason_lem task order (str t) h = absurd (not_fine "missing_products" refl h)
  products_reason_lem task order (object fs) h = absurd (not_fine "missing_products" refl h)

  location_reason_lem :
      (task order : Fields F) (location : Json F)
      → location_reason py task order location ≡ ok ""
      → products_reason py task order (field_or "products" (array nil) order) ≡ ok ""
  location_reason_lem task order (object fs) h = h
  location_reason_lem task order (array xs) h = absurd (not_fine "bad_location_shape" refl h)
  location_reason_lem task order null h = absurd (not_fine "bad_location_shape" refl h)
  location_reason_lem task order (bool b) h = absurd (not_fine "bad_location_shape" refl h)
  location_reason_lem task order (int n) h = absurd (not_fine "bad_location_shape" refl h)
  location_reason_lem task order (float x) h = absurd (not_fine "bad_location_shape" refl h)
  location_reason_lem task order (str t) h = absurd (not_fine "bad_location_shape" refl h)

  missing_field_lem : (name : String) → (String.◌++◌ "missing_order_field:" name == "") ≡ false
  missing_field_lem name = ground (
    arith,
    string_eq.same_iff (String.◌++◌ "missing_order_field:" name) "",
    append-eq-nil_iff {p = "missing_order_field:"} {q = name},
    string_eq.same_iff "missing_order_field:" "",
  )

  order_reason_lem :
      (task : Fields F) (j : Json F)
      → order_reason py task j ≡ ok ""
      → (order : Fields F) × (j ≡ object order)
        × (products_reason py task order (field_or "products" (array nil) order) ≡ ok "")
  order_reason_lem task (object order) h =
      elim (Bool-cases (str_of py (field_or "order_type" (str "") order) == "delivery")) [
        | inr e ↦ absurd (not_fine "non_delivery_order" refl (rw e at h))
        | inl e ↦ elim (Option-cases (missing_field needed_fields order)) [
          | inr (name, missing) ↦
              absurd (not_fine _ (missing_field_lem name) (rw (e, missing) at h))
          | inl present ↦ (
            order,
            refl,
            location_reason_lem task order (field_or "location" (object end) order)
                (rw (e, present) at h),
          )
        ]
      ]
  order_reason_lem task null h = absurd (cc)
  order_reason_lem task (bool b) h = absurd (cc)
  order_reason_lem task (int n) h = absurd (cc)
  order_reason_lem task (float x) h = absurd (cc)
  order_reason_lem task (str t) h = absurd (cc)
  order_reason_lem task (array xs) h = absurd (cc)

  order_reason_of :
      (task : Fields F) (j : Json F)
      → (if truthy py j then order_reason py task j else ok "missing_required_order") ≡ ok ""
      → order_reason py task j ≡ ok ""
  order_reason_of task j h = elim (Bool-cases (truthy py j)) [
    | inl e ↦ rw e at h
    | inr e ↦ absurd (not_fine "missing_required_order" refl (rw e at h))
  ]

  or_else_dict : (fs : Fields F) → or_else py (object fs) (object end) ≡ object fs
  unfolding truthy
  or_else_dict end = refl
  or_else_dict (field k v fs) = refl

  find_lem :
      (task order product fs : Fields F) (ps : Items F) (available : List String)
      → required_order py task ≡ ok (object order)
      → field_or "products" (array nil) order ≡ array (cons (object product) ps)
      → (id_of product == "") ≡ false
      → stores_of task ≡ ok (object fs)
      → available_product_ids py (object fs) ≡ ok available
      → has (id_of product) available ≡ true
      → find_store_and_product_ids py task
        ≡ ok (str_of py (field_or "store_id" (str "") order), id_of product)
  unfolding find_store_and_product_ids truthy
  find_lem task order product fs ps available e1 e2 e3 e4 e5 e6 =
      rw e1 (rw e2 (rw e3 (rw e4 (rw or_else_dict (rw e5 (rw e6))))))

  -- A task that the filter lets through has its order's store among its stores, and the agent is
  -- given that store and a product that one of the stores has, neither of them empty.
  pub delivery_compatibility_reason-find_store_and_product_ids :
      (task : Fields F)
      → delivery_compatibility_reason py task ≡ ok ""
      → (ids : String × String) × (find_store_and_product_ids py task ≡ ok ids) × IsPlaced task ids
  unfolding delivery_compatibility_reason find_store_and_product_ids
  delivery_compatibility_reason-find_store_and_product_ids task h =
      let (j, e, rest) = bind_ok (required_order py task) _ h in
      let (order, e', checked) = order_reason_lem task j (order_reason_of task j rest) in
      let (p, ps, products, stores, e'', seen) =
        products_reason_lem task order (field_or "products" (array nil) order) checked in
      let (fs, e3, named, there, available, known, reason) = seen in
      let (product, e4, id, has_id) = product_reason_lem available p (to_list ps) reason in
      let found =
        find_lem task order product fs ps available (e ∙ ap ok e') (rw e4 at products) id
          (e'' ∙ ap ok e3) known has_id in
      (
        (str_of py (field_or "store_id" (str "") order), id_of product),
        found,
        (named, id, (fs, e'' ∙ ap ok e3, there, available, known, has_id)),
      )
