-- ===== src/Delivery/Projection.antt =====
-- The projection of a task to keys in Agent/vitabench_delivery.py: `project_task_to_entries` and the
-- transaction of `project_task`.
use mathlib.Core.List.{◌++◌}
use dbagent_tree.Prelude.{
  ℕ, String, Bool, true, false, ◌&&◌, Option, none, some, List, [], ◌∷◌, nat_eq, string_eq, ◌==◌,
  ltb, if◌then◌else◌,
}
use dbagent_tree.Dict.{Dict, insert}
use dbagent_tree.Exec.{Result, ok, err, hang, Exec, pure, raise, lift, ◌>>◌}
use dbagent_tree.Exec.Results.{◌>>=◌}
use dbagent_tree.Text.Codes.{codes}
use dbagent_tree.Client.Session.{Dial}
use dbagent_tree.Client.State.{Client}
use dbagent_tree.Client.Plain
use dbagent_tree.Tools.Json.{
  Json, Fields, null, str, array, object, nil, cons, end, field, fields, field?, field_or, items,
  to_list,
}
use dbagent_tree.Tools.Python.{Python, str_of}
use dbagent_tree.Tools.Reply.{task_key}
use Prim.Native.String

-- `a <= b` of texts, by their code points.
unfoldable pub codes_leb : List ℕ → List ℕ → Bool
codes_leb [] bs = true
codes_leb (a ∷ rest) [] = false
codes_leb (a ∷ rest) (b ∷ bs) =
    let below = codes_leb rest bs in if ltb a b then true else a == b && below

unfoldable pub insert_sorted : String → List String → List String
insert_sorted s [] = s ∷ []
insert_sorted s (t ∷ ts) =
    let rest = insert_sorted s ts in if codes_leb (codes s) (codes t) then s ∷ t ∷ ts else t ∷ rest

-- `sorted(texts)`
unfoldable pub sort_texts : List String → List String
sort_texts [] = []
sort_texts (s ∷ ss) = insert_sorted s (sort_texts ss)

module _ {F : Type 0} where
  -- `x.get(name, default)`; only a dict has it.
  abbrev pub get_from : Json F → String → Json F → Result (Json F)
  get_from (object fs) name default = ok (field_or name default fs)
  get_from _ name default = err "object has no attribute 'get'"

  -- `x[0].get(…)` is refused on anything but a list that is not empty.
  abbrev pub first_of : Json F → Result (Json F)
  first_of (array (cons x xs)) = ok x
  first_of _ = err "list index out of range"

  abbrev pub or_raised : Option (Json F) → String → Result (Json F)
  or_raised none message = err message
  or_raised (some v) message = ok v

  abbrev pub keys_of : Fields F → List String
  keys_of end = []
  keys_of (field k v fs) = k ∷ keys_of fs

  -- `for product in products`
  abbrev pub products_of : Json F → Result (List (Json F))
  products_of (array xs) = ok (to_list xs)
  products_of (object end) = ok []
  products_of (str s) = if s == "" then ok [] else err "products are not a list"
  products_of _ = err "products are not a list"

  -- `[product.get("product_id") for product in products]`
  unfoldable pub product_ids_of : List (Json F) → Result (List (Json F))
  product_ids_of [] = ok []
  product_ids_of (product ∷ products) =
      let rest = product_ids_of products in
      get_from product "product_id" null >>= λ id. rest >>= λ ids. ok (id ∷ ids)

-- The entries so far, and the ids of the products so far.
abbrev pub Projected : Type 0
Projected = Dict String String × List String

module _ {F : Type 0} (py : Python F) (namespace : String) where
  -- `entries[task_key(namespace, suffix)] = _json_dumps(value)`
  abbrev pub entry : String → Json F → Dict String String → Dict String String
  entry suffix value entries = insert (task_key namespace suffix) (py.dumps value) entries

  -- A product is stored under its id, if it has one.
  abbrev pub project_product : String → Json F → Projected → Projected
  project_product id product (entries, ids) = if id == "" then (entries, ids) else (
    entry (String.◌++◌ "product:" (String.◌++◌ id ":detail")) product entries,
    ids ++ (id ∷ []),
  )

  unfoldable pub project_products : List (Json F) → Projected → Result Projected
  project_products [] p = ok p
  project_products (product ∷ products) p = get_from product "product_id" (str "") >>= λ id.
      project_products products (project_product (str_of py id) product p)

  abbrev store_suffix : String → String → String
  store_suffix id part = String.◌++◌ "store:" (String.◌++◌ id part)

  -- One store: its details, the ids of its products, and its products.
  unfoldable pub project_store : String → Json F → Projected → Result Projected
  project_store id (object store) (entries, ids) = do
    products ← products_of (field_or "products" (array nil) store)
    product_ids ← product_ids_of products
    let detailed = entry (store_suffix id ":detail") (object store) entries
    let listed = entry (store_suffix id ":products") (array (items product_ids)) detailed
    project_products products (listed, ids)
  project_store id _ p = err "store is not an object"

  unfoldable pub project_stores : Fields F → List String → Projected → Result Projected
  project_stores stores [] p = ok p
  project_stores stores (id ∷ store_ids) p =
      project_store id (field_or id null stores) p >>= λ p'. project_stores stores store_ids p'

  abbrev pub texts : List String → Json F
  texts ss = array (items (strs ss))
    where
      strs : List String → List (Json F)
      strs [] = []
      strs (s ∷ ss) = str s ∷ strs ss

  -- The index of the stores, the stores, and the index of the products.
  abbrev pub with_stores : Json F → Dict String String → Result (Dict String String)
  with_stores (object stores) entries = do
    let store_ids = sort_texts (keys_of stores)
    (all, product_ids) ←
        project_stores stores store_ids (entry "index:stores" (texts store_ids) entries, [])
    ok (entry "index:products" (texts (sort_texts product_ids)) all)
  with_stores _ entries = err "object has no attribute 'keys'"

  abbrev pub text_from : Json F → Result String
  text_from (str s) = ok s
  text_from _ = err "not a text"

  -- `project_task_to_entries`. The instructions are a text, as its type says.
  unfoldable pub project_task_to_entries : Fields F → Result (Dict String String)
  project_task_to_entries task = do
    task_id ← or_raised (field? "id" task) "'id'"
    let environment = field_or "environment" (object end) task
    let user_scenario = field_or "user_scenario" (object end) task
    let evaluation_criteria = field_or "evaluation_criteria" (object end) task
    stores ← get_from environment "stores" (object end)
    time ← get_from environment "time" (str "")
    instructions ← text_from (field_or "instructions" (str "") task)
    let message_history = field_or "message_history" (array nil) task
    states ← get_from evaluation_criteria "expected_states" (array (cons (object end) nil))
    first_state ← first_of states
    expected_orders ← get_from first_state "required_orders" (array nil)
    overall_rubrics ← get_from evaluation_criteria "overall_rubrics" (array nil)
    state_rubrics ← get_from first_state "state_rubrics" (array nil)
    user_profile ← get_from user_scenario "user_profile" (object end)
    user_history ← get_from environment "user_historical_behaviors" (object end)
    weather ← get_from environment "weather" (array nil)
    locations ← get_from environment "location" (array nil)
    orders ← get_from environment "orders" (object end)
    let meta = object (
        fields (
          ("task_id", str (str_of py task_id))
          ∷ ("task_uid", field_or "_task_uid" (str (str_of py task_id)) task)
          ∷ ("task_source", field_or "_task_source" (str "delivery") task)
          ∷ ("domain", field_or "domain" (str "delivery") task)
          ∷ ("time", time)
          ∷ ("instructions", str instructions)
          ∷ ("message_history", message_history)
          ∷ []))
    let e1 =
        insert (task_key namespace "meta:instructions") instructions (entry "meta:task" meta [])
    let e2 =
        entry "meta:expected_orders" expected_orders
          (entry "meta:message_history" message_history e1)
    let e3 =
        entry "meta:state_rubrics" state_rubrics (entry "meta:overall_rubrics" overall_rubrics e2)
    let e4 = entry "user:history" user_history (entry "user:profile" user_profile e3)
    let e5 =
        entry "orders:current" orders
          (entry "location:index" locations (entry "weather:index" weather e4))
    with_stores stores e5

-- `[(key, value) for key, value in entries.items() if value != ""]`
unfoldable pub write_requests : Dict String String → List (String × String)
write_requests [] = []
write_requests ((key, value) ∷ entries) =
    let rest = write_requests entries in if value == "" then rest else (key, value) ∷ rest

-- The `except` of `project_task`: the transaction is rolled back, and the exception raised again.
abbrev pub or_rollback : String → Result (Unit {0}) → Exec Client (Unit {0})
or_rollback tx_id (ok a) = pure a
or_rollback tx_id (err message) = Plain.rollback tx_id >> raise message
or_rollback tx_id hang = lift hang

abbrev pub put_all : String → List (String × String) → Exec Client (Unit {0})
put_all tx_id [] = pure tt
put_all tx_id (r ∷ requests) = Plain.put_many tx_id (r ∷ requests)

-- What follows the call of `start`.
abbrev pub write_begun : Dict String String → Result String → Exec Client (Unit {0})
write_begun entries (ok tx_id) c =
    let (r, c') = (put_all tx_id (write_requests entries) >> Plain.commit tx_id) c in
    or_rollback tx_id r c'
write_begun entries (err message) c = (err message, c)
write_begun entries hang c = (hang, c)

-- The writes of `project_task`, in one transaction.
unfoldable pub write_entries : Dial → String → Dict String String → Exec Client (Unit {0})
write_entries dial uuid entries c =
    let (r, c') = Plain.start dial uuid c in write_begun entries r c'
