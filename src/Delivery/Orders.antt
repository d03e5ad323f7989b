-- ===== src/Delivery/Orders.antt =====
-- The order that a task expects, in Agent/vitabench_delivery.py: `_required_order`,
-- `_find_store_and_product_ids`, `_expected_product_profile`, `_order_array_from_submit_args` and
-- `_delivery_compatibility_reason`. `dict(x)` of a list of pairs is refused here.
pub mod Compatible
use Prim.Native.String
use mathlib.Core.List.{◌++◌}
use dbagent_tree.Prelude.{
  String, Bool, true, false, not, ◌||◌, ◌&&◌, Option, none, some, List, [], ◌∷◌, string_eq, ◌==◌,
  if◌then◌else◌,
}
use dbagent_tree.Exec.{Result, ok, err, hang}
use dbagent_tree.Exec.Results.{◌>>=◌}
use dbagent_tree.Tools.Json.{
  Json, Items, Fields, null, bool, int, float, str, array, object, nil, cons, end, field, field?,
  field_or, set_field, to_list,
}
use dbagent_tree.Tools.Python.{Python, truthy, str_of}
use dbagent_tree.Tools.Context.{iterate}
use dbagent_tree.Delivery.{has}
use dbagent_tree.Delivery.Projection.{get_from}

module _ {F : Type 0} where
  -- `x[0]`
  abbrev pub item0 : Json F → Result (Json F)
  item0 (array (cons x xs)) = ok x
  item0 (str (String.◌∷◌ c s)) = ok (str (String.◌∷◌ c ""))
  item0 _ = err "no item 0"

  -- `dict(x)`
  abbrev pub dict_of : Json F → Result (Fields F)
  dict_of (object fs) = ok fs
  dict_of (array nil) = ok end
  dict_of (str String.[]) = ok end
  dict_of _ = err "cannot convert to a dict"

  -- `x.values()`
  abbrev pub values_of : Json F → Result (List (Json F))
  values_of (object fs) = ok (values fs)
    where
      values : Fields F → List (Json F)
      values end = []
      values (field k v fs) = v ∷ values fs
  values_of _ = err "object has no attribute 'values'"

  -- `d.pop(name, None)`
  unfoldable pub drop_field : String → Fields F → Fields F
  drop_field name end = end
  drop_field name (field k v fs) =
      let rest = drop_field name fs in if name == k then rest else field k v rest

  -- The order as it is submitted: without the names of the call's own arguments.
  unfoldable pub submitted_order : Fields F → Fields F
  submitted_order args =
      drop_field "branch_id"
        (drop_field "tx_id" (drop_field "task_id" (drop_field "namespace" args)))

  -- The first of the fields that the order does not have.
  unfoldable pub missing_field : List String → Fields F → Option String
  missing_field [] order = none
  missing_field (name ∷ names) order =
      let rest = missing_field names order in
      elim (field? name order) [ none ↦ some name | some v ↦ rest ]

abbrev needed_fields : List String
needed_fields = "store_id" ∷ "location" ∷ "products" ∷ "total_price" ∷ []

module _ {F : Type 0} (py : Python F) where
  -- `x or default`
  abbrev pub or_else : Json F → Json F → Json F
  or_else x default = if truthy py x then x else default

  -- The first of the orders, or the empty dict.
  abbrev pub first_or_empty : Json F → Result (Json F)
  first_or_empty orders = if truthy py orders then item0 orders else ok (object end)

  abbrev first_order : Json F → Result (Json F)
  first_order states = do
    state ← item0 states
    orders ← get_from state "required_orders" (array nil)
    first_or_empty orders

  unfoldable pub required_order : Fields F → Result (Json F)
  required_order task = do
    let criteria = field_or "evaluation_criteria" (object end) task
    states ← get_from criteria "expected_states" (array nil)
    if truthy py states then first_order states else ok (object end)

  -- The ids of products that have one.
  unfoldable pub product_ids : List (Json F) → Result (List String)
  product_ids [] = ok []
  product_ids (product ∷ products) = do
    id ← get_from product "product_id" (str "")
    rest ← product_ids products
    ok (if str_of py id == "" then rest else str_of py id ∷ rest)

  unfoldable pub ids_of_stores : List (Json F) → Result (List String)
  ids_of_stores [] = ok []
  ids_of_stores (store ∷ stores) = do
    listed ← get_from store "products" null
    products ← iterate (or_else listed (array nil))
    ids ← product_ids products
    rest ← ids_of_stores stores
    ok (ids ++ rest)

  -- `set(_available_product_ids(stores))`
  unfoldable pub available_product_ids : Json F → Result (List String)
  available_product_ids stores = do all ← values_of stores; ids_of_stores all

  -- The product id of an order, unless no store has it.
  abbrev known_product : Fields F → String → Result String
  known_product task product_id = if product_id == "" then ok "" else (do
    let environment = field_or "environment" (object end) task
    stores ← get_from environment "stores" (object end)
    available ← available_product_ids (or_else stores (object end))
    ok (if has product_id available then product_id else ""))

  abbrev first_product_id : Json F → Result String
  first_product_id products =
      if truthy py products
      then (do
        product ← item0 products
        id ← get_from product "product_id" (str "")
        ok (str_of py id))
      else ok ""

  unfoldable pub find_store_and_product_ids : Fields F → Result (String × String)
  find_store_and_product_ids task = do
    order ← required_order task
    products ← get_from order "products" (array nil)
    product_id ← first_product_id products
    known ← known_product task product_id
    store_id ← get_from order "store_id" (str "")
    ok (str_of py store_id, known)

  abbrev with_expectations : Fields F → Json F → Result (Fields F)
  with_expectations target product = do
    profile ← dict_of product
    ok (
        set_field "expected_attributes" (field_or "attributes" null target)
          (set_field "expected_quantity" (field_or "quantity" null target) profile))

  -- The loop over the products of the store, and what it returns if none has the id.
  unfoldable pub profile_of : String → Fields F → List (Json F) → Result (Fields F)
  profile_of product_id target [] = ok target
  profile_of product_id target (product ∷ products) = do
    id ← get_from product "product_id" (str "")
    let rest = profile_of product_id target products
    if str_of py id == product_id then with_expectations target product else rest

  abbrev profile_among : Fields F → Json F → Json F → Result (Fields F)
  profile_among task order order_products = do
    first ← item0 order_products
    target ← dict_of first
    store_id ← get_from order "store_id" (str "")
    let environment = field_or "environment" (object end) task
    stores ← get_from environment "stores" (object end)
    store ← get_from stores (str_of py store_id) (object end)
    listed ← get_from (or_else store (object end)) "products" (array nil)
    products ← iterate (or_else listed (array nil))
    profile_of (str_of py (field_or "product_id" (str "") target)) target products

  unfoldable pub expected_product_profile : Fields F → Result (Fields F)
  expected_product_profile task = do
    order ← required_order task
    order_products ← get_from order "products" (array nil)
    if truthy py order_products then profile_among task order order_products else ok end

  -- `none` is the pair of two `None`.
  unfoldable pub order_array_from_submit_args : Json F → Result (Option (Json F × String))
  order_array_from_submit_args args =
      if truthy py args
      then (do
        order ← dict_of args
        let order_array = array (cons (object (submitted_order order)) nil)
        ok (some (order_array, py.dumps order_array)))
      else ok none

  -- The loop over the products of the order.
  unfoldable pub product_reason : List String → List (Json F) → String
  product_reason available [] = ""
  product_reason available (object product ∷ products) =
      let id = str_of py (field_or "product_id" (str "") product) in
      let rest = product_reason available products in
      if id == ""
      then "missing_product_id"
      else if has id available
      then rest
      else "expected_product_not_projectable"
  product_reason available (_ ∷ products) = "bad_product_shape"

  abbrev stores_reason : Fields F → List (Json F) → Json F → Result String
  stores_reason order products (object (field k v stores)) =
      let store_id = str_of py (field_or "store_id" (str "") order) in
      if store_id == "" then ok "missing_store_id" else elim (field? store_id (field k v stores)) [
        | none ↦ ok "expected_store_not_projectable"
        | some store ↦ available_product_ids (object (field k v stores)) >>= λ available.
            ok (product_reason available products)
      ]
  stores_reason order products _ = ok "missing_stores"

  abbrev products_reason : Fields F → Fields F → Json F → Result String
  products_reason task order (array (cons product products)) = do
    stores ← get_from (field_or "environment" (object end) task) "stores" (object end)
    stores_reason order (product ∷ to_list products) stores
  products_reason task order _ = ok "missing_products"

  abbrev location_reason : Fields F → Fields F → Json F → Result String
  location_reason task order (object location) =
      products_reason task order (field_or "products" (array nil) order)
  location_reason task order _ = ok "bad_location_shape"

  abbrev order_reason : Fields F → Json F → Result String
  order_reason task (object order) =
      if not (str_of py (field_or "order_type" (str "") order) == "delivery")
      then ok "non_delivery_order"
      else elim (missing_field needed_fields order) [
        | some name ↦ ok (String.◌++◌ "missing_order_field:" name)
        | none ↦ location_reason task order (field_or "location" (object end) order)
      ]
  order_reason task _ = err "object has no attribute 'get'"

  unfoldable pub delivery_compatibility_reason : Fields F → Result String
  delivery_compatibility_reason task = do
    order ← required_order task
    if truthy py order then order_reason task order else ok "missing_required_order"
