-- ===== src/Delivery/Entries.antt =====
-- The keys that `project_task_to_entries` of Agent/vitabench_delivery.py makes.
use dbagent_tree.Prelude.{
  String, ◌≡◌, refl, true, false, List, [], ◌∷◌, string_eq, ◌==◌, if◌then◌else◌, Bool-cases, inl,
  inr, ◌++◌,
}
use dbagent_tree.Dict.{Dict, insert}
use dbagent_tree.Dict.Laws.{IsDict, insert-IsDict}
use dbagent_tree.Exec.{Result, ok, err, hang}
use dbagent_tree.Exec.Results.{◌>>=◌}
use dbagent_tree.Tools.Json.{
  Json, Fields, null, bool, int, float, str, array, object, end, field_or, field?, nil, cons,
}
use dbagent_tree.Tools.Python.{Python, str_of}
use dbagent_tree.Tools.Reply.{task_key}
use dbagent_tree.Delivery.Projection.{
  Projected, or_raised, text_from, first_of, sort_texts, keys_of, texts, products_of,
  product_ids_of, get_from, entry, project_product, project_products, project_store, project_stores,
  with_stores, project_task_to_entries,
}

-- Of a result that is there.
abbrev pub Holds : {A : Type 0} → (A → Type 0) → Result A → Type 0
Holds P (ok a) = P a
Holds P (err m) = Unit
Holds P hang = Unit

bind-Holds :
    {A B : Type 0} (P : B → Type 0) (r : Result A) (f : A → Result B)
    → ((a : A) → Holds P (f a))
    → Holds P (r >>= f)
bind-Holds P (ok a) f h = h a
bind-Holds P (err m) f h = tt
bind-Holds P hang f h = tt

chain-Holds :
    {A B : Type 0} (Q : A → Type 0) (P : B → Type 0) (r : Result A) (f : A → Result B)
    → Holds Q r
    → ((a : A) → Q a → Holds P (f a))
    → Holds P (r >>= f)
chain-Holds Q P (ok a) f h k = k a h
chain-Holds Q P (err m) f h k = tt
chain-Holds Q P hang f h k = tt

-- Every key is one of the namespace.
abbrev pub AllKeysIn : String → Dict String String → Type 0
AllKeysIn namespace [] = Unit
AllKeysIn namespace ((k, v) ∷ d) =
    ((suffix : String) × (k ≡ task_key namespace suffix)) × AllKeysIn namespace d

insert-AllKeysIn :
    (namespace suffix v : String) (d : Dict String String)
    → AllKeysIn namespace d
    → AllKeysIn namespace (insert (task_key namespace suffix) v d)
unfolding insert
insert-AllKeysIn namespace suffix v [] h = ((suffix, refl), tt)
insert-AllKeysIn namespace suffix v ((k, w) ∷ d) h =
    elim (task_key namespace suffix == k)
      as (λ b.
        AllKeysIn namespace
          (if b then (k, v) ∷ d else (k, w) ∷ insert (task_key namespace suffix) v d)) [
            | true ↦ h
            | false ↦ (h.0, insert-AllKeysIn namespace suffix v d h.1)
          ]

-- The entries of a task: each key once, and all in the namespace.
abbrev pub IsProjection : String → Dict String String → Type 0
IsProjection namespace d = IsDict d × AllKeysIn namespace d

module _ {F : Type 0} (py : Python F) (namespace : String) where
  insert-IsProjection :
      (suffix v : String) (d : Dict String String)
      → IsProjection namespace d
      → IsProjection namespace (insert (task_key namespace suffix) v d)
  insert-IsProjection suffix v d h =
      (insert-IsDict (task_key namespace suffix) v d h.0, insert-AllKeysIn namespace suffix v d h.1)

  abbrev FirstIs : Projected → Type 0
  FirstIs p = IsProjection namespace p.0

  project_product-IsProjection :
      (id : String) (product : Json F) (p : Projected)
      → FirstIs p
      → FirstIs (project_product py namespace id product p)
  project_product-IsProjection id product (d, ids) h = elim (Bool-cases (id == "")) [
    | inl e ↦ rw e h
    | inr e ↦ rw e (insert-IsProjection ("product:" ++ (id ++ ":detail")) (py.dumps product) d h)
  ]

  project_products-IsProjection :
      (products : List (Json F)) (p : Projected)
      → FirstIs p
      → Holds FirstIs (project_products py namespace products p)
  unfolding project_products
  project_products-IsProjection [] p h = h
  project_products-IsProjection (product ∷ products) p h =
      bind-Holds FirstIs (get_from product "product_id" (str "")) _ (λ id.
        project_products-IsProjection products _
          (project_product-IsProjection (str_of py id) product p h))

  project_store-IsProjection :
      (id : String) (store : Json F) (p : Projected)
      → FirstIs p
      → Holds FirstIs (project_store py namespace id store p)
  unfolding project_store
  project_store-IsProjection id (object store) (d, ids) h =
      bind-Holds FirstIs (products_of (field_or "products" (array nil) store)) _ (λ products.
        bind-Holds FirstIs (product_ids_of products) _ (λ product_ids.
          project_products-IsProjection products _ (
            insert-IsProjection ("store:" ++ (id ++ ":products")) _ _
              (insert-IsProjection ("store:" ++ (id ++ ":detail")) _ d h))))
  project_store-IsProjection id null p h = tt
  project_store-IsProjection id (bool b) p h = tt
  project_store-IsProjection id (int n) p h = tt
  project_store-IsProjection id (float x) p h = tt
  project_store-IsProjection id (str s) p h = tt
  project_store-IsProjection id (array xs) p h = tt

  project_stores-IsProjection :
      (stores : Fields F) (store_ids : List String) (p : Projected)
      → FirstIs p
      → Holds FirstIs (project_stores py namespace stores store_ids p)
  unfolding project_stores
  project_stores-IsProjection stores [] p h = h
  project_stores-IsProjection stores (id ∷ store_ids) p h =
      chain-Holds FirstIs FirstIs (project_store py namespace id (field_or id null stores) p) _
        (project_store-IsProjection id (field_or id null stores) p h)
        (project_stores-IsProjection stores store_ids)

  with_stores-IsProjection :
      (stores : Json F) (d : Dict String String)
      → IsProjection namespace d
      → Holds (IsProjection namespace) (with_stores py namespace stores d)
  with_stores-IsProjection (object stores) d h =
      let ids = sort_texts (keys_of stores) in
      let begun : Projected = (entry py namespace "index:stores" (texts py namespace ids) d, []) in
      chain-Holds FirstIs (IsProjection namespace) (project_stores py namespace stores ids begun) _
        (project_stores-IsProjection stores ids begun (insert-IsProjection "index:stores" _ d h))
        (λ p k. insert-IsProjection "index:products" _ p.0 k)
  with_stores-IsProjection null d h = tt
  with_stores-IsProjection (bool b) d h = tt
  with_stores-IsProjection (int n) d h = tt
  with_stores-IsProjection (float x) d h = tt
  with_stores-IsProjection (str s) d h = tt
  with_stores-IsProjection (array xs) d h = tt

  project_task_to_entries-Holds :
      (task : Fields F) → Holds (IsProjection namespace) (project_task_to_entries py namespace task)
  unfolding project_task_to_entries
  project_task_to_entries-Holds task =
      let environment = field_or "environment" (object end) task in
      let scenario = field_or "user_scenario" (object end) task in
      let criteria = field_or "evaluation_criteria" (object end) task in
      let P = IsProjection namespace in
      bind-Holds P (or_raised (field? "id" task) "'id'") _ (λ task_id.
        bind-Holds P (get_from environment "stores" (object end)) _ (λ stores.
          bind-Holds P (get_from environment "time" (str "")) _ (λ time.
            bind-Holds P (text_from py namespace (field_or "instructions" (str "") task)) _
              (λ instructions.
                bind-Holds P (get_from criteria "expected_states" (array (cons (object end) nil))) _
                  (λ states. bind-Holds P (first_of states) _ (λ first.
                    bind-Holds P (get_from first "required_orders" (array nil)) _ (λ expected.
                      bind-Holds P (get_from criteria "overall_rubrics" (array nil)) _ (λ overall.
                        bind-Holds P (get_from first "state_rubrics" (array nil)) _ (λ rubrics.
                          bind-Holds P (get_from scenario "user_profile" (object end)) _ (λ profile.
                            bind-Holds P
                              (get_from environment "user_historical_behaviors" (object end)) _
                              (λ history.
                                bind-Holds P (get_from environment "weather" (array nil)) _
                                  (λ weather.
                                    bind-Holds P (get_from environment "location" (array nil)) _
                                      (λ locations.
                                        bind-Holds P (get_from environment "orders" (object end)) _
                                          (λ orders. with_stores-IsProjection stores _ (
                                            insert-IsProjection "orders:current" _ _ (
                                              insert-IsProjection "location:index" _ _ (
                                                insert-IsProjection "weather:index" _ _ (
                                                  insert-IsProjection "user:history" _ _ (
                                                    insert-IsProjection "user:profile" _ _ (
                                                      insert-IsProjection "meta:state_rubrics" _ _ (
                                                        insert-IsProjection "meta:overall_rubrics" _
                                                          _
                                                          (insert-IsProjection
                                                            "meta:expected_orders" _ _
                                                            (insert-IsProjection
                                                            "meta:message_history" _ _
                                                            (insert-IsProjection "meta:instructions"
                                                            _ _
                                                            (insert-IsProjection "meta:task" _ _
                                                            (tt, tt))))))))))))))))))))))))))

  -- If a task can be projected, its entries have each key once, and every key is one of the
  -- namespace.
  pub project_task_to_entries-IsProjection :
      (task : Fields F) (entries : Dict String String)
      → project_task_to_entries py namespace task ≡ ok entries
      → IsProjection namespace entries
  project_task_to_entries-IsProjection task entries e = rw e at (project_task_to_entries-Holds task)
