-- ===== src/Delivery/Agent/TreeKeeping.antt =====
-- What the tree mode of `_reference_agent_run` (Agent/vitabench_delivery.py) keeps.
use dbagent_tree.Prelude.{
  String, Bool, true, false, not, Option, some, List, [], ◌∷◌, ℤ, pos, nat_eq, string_eq, ◌==◌,
  length,
}
use dbagent_tree.Dict.{Dict}
use dbagent_tree.Exec.{err, pure, lift, ◌>>◌}
use dbagent_tree.Client.Tree
use dbagent_tree.Tools.Json.{null}
use dbagent_tree.Tools.Python.{Python}
use dbagent_tree.Tools.Router.{Tool}
use dbagent_tree.Delivery.Floats.{Floats}
use dbagent_tree.Delivery.Agent.{
  Run, Setting, recheck_failed, in_client, hotspot_key, record_tool, call, store_key, product_key,
  gave_up,
}
use dbagent_tree.Delivery.Agent.Baseline.{when, has_product, meta_key}
use dbagent_tree.Delivery.Agent.Baseline.Keeping.{when-Keeps}
use dbagent_tree.Delivery.Agent.TreeRun.{
  look_at_root, make_branches, read_requests, read_stores, Payloads, payload_for, add_branch,
  make_payloads, write_payloads, explore_branches,
}
use dbagent_tree.Delivery.Agent.TreeWinner.{
  refresh, refresh_product, refresh_and_check, tree_abort, refused, put_and_commit,
}
use dbagent_tree.Delivery.Agent.Steady.{
  Keeps, Steady, bind-Keeps, pure-Keeps, lift-Keeps, gets-Keeps, if-Keeps, in_client-Keeps,
  call-Keeps,
}

module _ {F : Type 0} (py : Python F) (fl : Floats F) (setting : Setting F) (P : Run F → Type 0)
    (steady : Steady py P) where
  look_at_root-Keeps : (tx_id key : String) → Keeps P (look_at_root py fl setting tx_id key)
  look_at_root-Keeps tx_id key =
      bind-Keeps P (call py setting Tool.tree_tx_get "tree_tx_get" _) _
        (call-Keeps py P steady setting Tool.tree_tx_get "tree_tx_get" _) (λ _. pure-Keeps P tt)

  make_branches-Keeps :
      (tx_id : String) (candidates : List String)
      → Keeps P (make_branches py fl setting tx_id candidates)
  unfolding make_branches
  make_branches-Keeps tx_id candidates =
      let branch = Tree.tree_branch_many tx_id (pos 0) (pos (length candidates)) in
      bind-Keeps P (in_client branch) _ (in_client-Keeps py P steady branch) (λ created.
        bind-Keeps P (record_tool py "tree_tx_branch_many" _ _) _ (steady.on_record _ _ _) (λ _.
          if-Keeps P (length created == length candidates) _ _ (pure-Keeps P created)
            (lift-Keeps P (err "TREE_BRANCH_MANY_COUNT_MISMATCH"))))

  read_stores-Keeps :
      (tx_id : String) (requests : List (ℤ × String))
      → Keeps P (read_stores py fl setting tx_id requests)
  unfolding read_stores
  read_stores-Keeps tx_id requests =
      let read = Tree.tree_get_many tx_id requests false in
      bind-Keeps P (in_client read) _ (in_client-Keeps py P steady read) (λ values.
        bind-Keeps P (record_tool py "tree_tx_get_many" _ _) _ (steady.on_record _ _ _)
          (λ _. pure-Keeps P values))

  write_payloads-Keeps :
      (tx_id : String) (writes : List (ℤ × String × String))
      → Keeps P (write_payloads py fl setting tx_id writes)
  unfolding write_payloads
  write_payloads-Keeps tx_id writes =
      let write = in_client (Tree.tree_put_many tx_id writes) in
      bind-Keeps P (write >> record_tool py "tree_tx_put_many" _ _) _
        (bind-Keeps P write _ (in_client-Keeps py P steady (Tree.tree_put_many tx_id writes))
          (λ _. steady.on_record _ _ _))
        (λ _. pure-Keeps P tt)

  make_payloads-Keeps :
      (stores : Dict ℤ String) (requests : List (ℤ × String)) (values : List (Option String))
      (acc : Payloads py fl setting)
      → Keeps P (make_payloads py fl setting stores requests values acc)
  unfolding make_payloads
  make_payloads-Keeps stores [] values acc = pure-Keeps P acc
  make_payloads-Keeps stores (r ∷ requests) [] acc = pure-Keeps P acc
  make_payloads-Keeps stores ((branch_id, key) ∷ requests) (value ∷ values) acc =
      bind-Keeps P (lift (payload_for py fl setting stores branch_id value)) _ (lift-Keeps P _)
        (λ payload.
          make_payloads-Keeps stores requests values
            (add_branch py fl setting branch_id payload acc))

  pub explore_branches-Keeps :
      (tx_id : String) (candidates : List String)
      → Keeps P (explore_branches py fl setting tx_id candidates)
  unfolding explore_branches
  explore_branches-Keeps tx_id candidates =
      let product = look_at_root py fl setting tx_id (product_key py setting) in
      bind-Keeps P (look_at_root py fl setting tx_id (meta_key py fl setting)) _
        (look_at_root-Keeps tx_id _)
        (λ _.
          bind-Keeps P (when py fl setting (has_product py fl setting) product) _
            (when-Keeps py fl setting P steady _ product (look_at_root-Keeps tx_id _))
            (λ _.
              bind-Keeps P (make_branches py fl setting tx_id candidates) _
                (make_branches-Keeps tx_id candidates)
                (λ created.
                  let (stores, requests) =
                    read_requests py fl setting candidates created ([], []) in
                  bind-Keeps P (read_stores py fl setting tx_id requests) _
                    (read_stores-Keeps tx_id requests)
                    (λ values.
                      bind-Keeps P (make_payloads py fl setting stores requests values ([], [])) _
                        (make_payloads-Keeps stores requests values ([], []))
                        (λ made.
                          bind-Keeps P (write_payloads py fl setting tx_id made.1) _
                            (write_payloads-Keeps tx_id made.1) (λ _. pure-Keeps P made.0))))))

  refresh-Keeps :
      (tx_id : String) (branch_id : ℤ) (key : String)
      → Keeps P (refresh py fl setting tx_id branch_id key)
  unfolding refresh
  refresh-Keeps tx_id branch_id key =
      call-Keeps py P steady setting Tool.tree_tx_refresh_winner "tree_tx_refresh_winner" _

  refresh_product-Keeps :
      (b : Bool) (tx_id : String) (branch_id : ℤ)
      → Keeps P (refresh_product py fl setting b tx_id branch_id)
  refresh_product-Keeps true tx_id branch_id =
      bind-Keeps P (refresh py fl setting tx_id branch_id (product_key py setting)) _
        (refresh-Keeps tx_id branch_id _) (λ _. pure-Keeps P _)
  refresh_product-Keeps false tx_id branch_id = pure-Keeps P null

  pub refresh_and_check-Keeps :
      (tx_id : String) (branch_id : ℤ) (store_id : String)
      → Keeps P (refresh_and_check py fl setting tx_id branch_id store_id)
  unfolding refresh_and_check
  refresh_and_check-Keeps tx_id branch_id store_id =
      let hot = refresh py fl setting tx_id branch_id (hotspot_key setting) in
      bind-Keeps P (when py fl setting (not (hotspot_key setting == "")) (hot >> pure tt)) _
        (when-Keeps py fl setting P steady _ _
          (bind-Keeps P hot _ (refresh-Keeps tx_id branch_id _) (λ _. pure-Keeps P tt)))
        (λ _.
          bind-Keeps P (refresh py fl setting tx_id branch_id (store_key py setting store_id)) _
            (refresh-Keeps tx_id branch_id _)
            (λ reply.
              bind-Keeps P
                (refresh_product py fl setting (has_product py fl setting) tx_id branch_id) _
                (refresh_product-Keeps (has_product py fl setting) tx_id branch_id)
                (λ product_raw. lift-Keeps P _)))

  pub tree_abort-Keeps : (tx_id : String) → Keeps P (tree_abort py fl setting tx_id)
  unfolding tree_abort
  tree_abort-Keeps tx_id =
      bind-Keeps P (call py setting Tool.tree_tx_abort "tree_tx_abort" _) _
        (call-Keeps py P steady setting Tool.tree_tx_abort "tree_tx_abort" _) (λ _. pure-Keeps P tt)

  pub refused-Keeps :
      (tx_id store_id reason : String) → Keeps P (refused py fl setting tx_id store_id reason)
  unfolding refused
  refused-Keeps tx_id store_id reason =
      bind-Keeps P (recheck_failed reason) _ (steady.on_recheck reason) (λ _.
        bind-Keeps P (tree_abort py fl setting tx_id) _ (tree_abort-Keeps tx_id) (λ _.
          bind-Keeps P (gave_up py store_id) _ (gets-Keeps P _)
            (λ result. pure-Keeps P (some result))))

  pub put_and_commit-Keeps :
      (tx_id : String) (branch_id : ℤ) (final_raw : Option String)
      → Keeps P (put_and_commit py fl setting tx_id branch_id final_raw)
  unfolding put_and_commit
  put_and_commit-Keeps tx_id branch_id final_raw =
      bind-Keeps P (call py setting Tool.tree_tx_put "tree_tx_put" _) _
        (call-Keeps py P steady setting Tool.tree_tx_put "tree_tx_put" _)
        (λ _. call-Keeps py P steady setting Tool.tree_tx_commit_retry "tree_tx_commit_retry" _)
