-- ===== src/Tools/Order.antt =====
-- The delivery order of Agent/tools/kv_tools.py: its normal form, and the tools that submit it.
use dbagent_tree.Prelude.{
  String, ◌++◌, true, ◌||◌, Option, none, some, List, [], ◌∷◌, ℤ, pos, if◌then◌else◌,
}
use dbagent_tree.Exec.{Result, ok, err, hang, pure, lift, ◌>>◌}
use dbagent_tree.Exec.Results.{◌>>=◌}
use dbagent_tree.Client.Session.{Dial}
use dbagent_tree.Client.Tree
use dbagent_tree.Tools.Json.{
  Json, Fields, Items, null, bool, int, float, str, array, object, nil, cons, end, fields, field?,
  field_or, items,
}
use dbagent_tree.Tools.Python.{Python, stripped, text_or, int_arg, to_float, truthy}
use dbagent_tree.Tools.Reply.{ok_reply, err_reply, task_key}
use dbagent_tree.Tools.Tx.{Reply, is_empty, unless, attempt, submit_final_answer}

-- What follows a conversion that may raise out of the tool.
abbrev pub with_branch : {F : Type 0} → Result ℤ → (ℤ → Reply F) → Reply F
with_branch (ok n) f = f n
with_branch (err m) f = lift (err m)
with_branch hang f = lift hang

module _ {F : Type 0} (py : Python F) where
  -- `args.get(name) or default`
  abbrev present : Option (Json F) → Json F → Json F
  present none default = default
  present (some v) default = if truthy py v then v else default

  unfoldable pub float_field : String → Fields F → Result F
  unfolding to_float field_or
  float_field name fs = to_float py (field_or name (int (pos 0)) fs)

  -- One item of `products`.
  unfoldable pub normalize_product : Json F → Result (Json F)
  unfolding float_field
  normalize_product (object product) = do
    price ← float_field "price" product
    quantity ← int_arg py "quantity" product
    ok (
        object (
          fields (
            ("product_id", str (text_or py "product_id" "" product))
            ∷ ("price", float price)
            ∷ ("quantity", int quantity)
            ∷ ("attributes", str (text_or py "attributes" "" product))
            ∷ [])))
  normalize_product _ = err "product item must be an object"

  unfoldable pub normalize_products : Items F → Result (List (Json F))
  unfolding normalize_product
  normalize_products nil = ok []
  normalize_products (cons p ps) =
      let rest = normalize_products ps in normalize_product p >>= λ q. rest >>= λ qs. ok (q ∷ qs)

  -- The dict of an order, from its location and its products.
  unfoldable pub order_from : Fields F → Fields F → List (Json F) → Result (Json F)
  unfolding float_field
  order_from args location products = do
    longitude ← float_field "longitude" location
    latitude ← float_field "latitude" location
    total_price ← float_field "total_price" args
    ok (
        object (
          fields (
            ("order_id", str (text_or py "order_id" "" args))
            ∷ ("order_type", str (text_or py "order_type" "delivery" args))
            ∷ ("user_id", str (text_or py "user_id" "" args))
            ∷ ("store_id", str (text_or py "store_id" "" args))
            ∷ ("note", str (text_or py "note" "" args))
            ∷ (
              "location",
              object (
                  fields (
                    ("address", str (text_or py "address" "" location))
                    ∷ ("longitude", float longitude)
                    ∷ ("latitude", float latitude)
                    ∷ [])),
            )
            ∷ ("dispatch_time", str (text_or py "dispatch_time" "" args))
            ∷ ("shipping_time", field_or "shipping_time" null args)
            ∷ ("delivery_time", str (text_or py "delivery_time" "" args))
            ∷ ("total_price", float total_price)
            ∷ ("create_time", str (text_or py "create_time" "" args))
            ∷ ("update_time", str (text_or py "update_time" "" args))
            ∷ ("status", str (text_or py "status" "" args))
            ∷ ("products", array (items products))
            ∷ [])))

  abbrev with_products : Fields F → Fields F → Json F → Result (Json F)
  with_products args location (array (cons p ps)) =
      normalize_products (cons p ps) >>= λ products. order_from args location products
  with_products args location _ = err "products must be a non-empty array"

  abbrev with_location : Fields F → Json F → Json F → Result (Json F)
  with_location args (object location) products = with_products args location products
  with_location args _ products = err "location must be an object"

  -- `_build_delivery_order_payload`
  unfoldable pub build_delivery_order_payload : Fields F → Result (Json F)
  unfolding normalize_products order_from
  build_delivery_order_payload args =
      with_location args (present (field? "location" args) (object end))
        (present (field? "products" args) (array nil))

  -- The text of a submission, and the tool's answer if there is none.
  abbrev pub or_bad_payload :
      List (String × Json F) → Result (Json F) → (String → Reply F) → Reply F
  or_bad_payload extra (ok order) submit = submit (py.dumps (array (cons order nil)))
  or_bad_payload extra (err m) submit = pure (err_reply ("bad order payload: " ++ m) extra)
  or_bad_payload extra hang submit = lift hang

  abbrev answer_args : String → String → Fields F
  answer_args key value = fields (("key", str key) ∷ ("value", str value) ∷ [])

  unfoldable pub submit_delivery_order : Dial → String → Fields F → Reply F
  submit_delivery_order dial uuid args =
      let key = stripped py "key" args in
      unless (is_empty key) "missing key" (
        or_bad_payload (("key", str key) ∷ []) (build_delivery_order_payload args)
          (λ value. submit_final_answer py dial uuid (answer_args key value)))

  unfoldable pub submit_task_delivery_order : Dial → String → Fields F → Reply F
  submit_task_delivery_order dial uuid args =
      let namespace = stripped py "namespace" args in
      let task_id = stripped py "task_id" args in
      unless (is_empty namespace || is_empty task_id) "missing namespace or task_id" (
        or_bad_payload (("namespace", str namespace) ∷ ("task_id", str task_id) ∷ [])
          (build_delivery_order_payload args)
          (λ value.
            submit_final_answer py dial uuid
              (answer_args (task_key namespace "answer:final") value)))

  unfoldable pub stage_order : String → String → String → ℤ → String → Reply F
  stage_order namespace task_id tx_id branch_id value =
      let key = task_key namespace "answer:final" in
      attempt
        (("namespace", str namespace)
          ∷ ("task_id", str task_id)
          ∷ ("tx_id", str tx_id)
          ∷ ("branch_id", int branch_id)
          ∷ [])
        (Tree.tree_put tx_id branch_id key value
          >> pure (
              ok_reply (
                ("namespace", str namespace)
                ∷ ("task_id", str task_id)
                ∷ ("tx_id", str tx_id)
                ∷ ("branch_id", int branch_id)
                ∷ ("key", str key)
                ∷ ("staged", bool true)
                ∷ [])))

  unfoldable pub tree_submit_task_delivery_order : Fields F → Reply F
  unfolding stage_order
  tree_submit_task_delivery_order args =
      let namespace = stripped py "namespace" args in
      let task_id = stripped py "task_id" args in
      let tx_id = stripped py "tx_id" args in
      with_branch (int_arg py "branch_id" args) (λ branch_id.
        unless (is_empty namespace || (is_empty task_id || is_empty tx_id))
          "missing namespace, task_id or tx_id"
          (or_bad_payload
            (("namespace", str namespace) ∷ ("task_id", str task_id) ∷ ("tx_id", str tx_id) ∷ [])
            (build_delivery_order_payload args) (stage_order namespace task_id tx_id branch_id)))
