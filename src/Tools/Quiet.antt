-- ===== src/Tools/Quiet.antt =====
-- Each tool of Agent/tools/kv_tools.py and Agent/tools/image_tools.py answers, or raises from a
-- conversion outside its `try`.
use dbagent_tree.Prelude.{String, ◌≡◌, ◌≢◌, Bool, true, false, List, [], ◌||◌, ◌∷◌, ℤ, arith}
use dbagent_tree.Exec.{Result, ok, err, hang}
use dbagent_tree.Client.Session.{Dial}
use dbagent_tree.Client.State.{Client}
use dbagent_tree.Client.Plain
use dbagent_tree.Tools.TreeTx
use dbagent_tree.Tools.Context
use dbagent_tree.Tools.Order
use dbagent_tree.Tools.Order.{or_bad_payload, with_branch, build_delivery_order_payload}
use dbagent_tree.Tools.Json.{Json, Fields, str}
use dbagent_tree.Tools.Python.{Python, int_arg, text_or, stripped}
use dbagent_tree.Tools.Tx
use dbagent_tree.Tools.Tx.{Reply, attempt, unless, submit_begun, submit_under}
use dbagent_tree.Tools.Router.{Tool, Surroundings, run_tool}

-- No exception leaves the call, from whatever state.
pub record IsQuiet {F : Type 0} (m : Reply F) : Type 0 where
  pub raises_not : (c : Client) (message : String) → (m c).0 ≢ err message

submit_begun-IsQuiet :
    {F : Type 0} (py : Python F) (k v : String) (r : Result String)
    → IsQuiet (submit_begun py k v r)
unfolding submit_under
submit_begun-IsQuiet py k v (ok t) = record { raises_not = λ c message. ground arith }
submit_begun-IsQuiet py k v (err m) = record { raises_not = λ c message. cc }
submit_begun-IsQuiet py k v hang = record { raises_not = λ c message. cc }

or_bad_payload-IsQuiet :
    {F : Type 0} (py : Python F) (extra : List (String × Json F)) (r : Result (Json F))
    (submit : String → Reply F)
    → ((value : String) → IsQuiet (submit value))
    → IsQuiet (or_bad_payload py extra r submit)
or_bad_payload-IsQuiet py extra (ok order) submit h = h _
or_bad_payload-IsQuiet py extra (err m) submit h = record { raises_not = λ c message. cc }
or_bad_payload-IsQuiet py extra hang submit h = record { raises_not = λ c message. cc }

unless-IsQuiet :
    {F : Type 0} (missing : Bool) (reason : String) (m : Reply F)
    → IsQuiet m
    → IsQuiet (unless missing reason m)
unless-IsQuiet true reason m h = record { raises_not = λ c message. cc }
unless-IsQuiet false reason m h = h

pub submit_final_answer-IsQuiet :
    {F : Type 0} (py : Python F) (dial : Dial) (uuid : String) (args : Fields F)
    → IsQuiet (Tx.submit_final_answer py dial uuid args)
unfolding Tx.submit_final_answer
submit_final_answer-IsQuiet py dial uuid args =
    let key = stripped py "key" args in
    let value = text_or py "value" "" args in
    unless-IsQuiet (Tx.is_empty key) "missing key"
      (λ c. submit_begun py key value (Plain.start dial uuid c).0 (Plain.start dial uuid c).1)
      (record {
        raises_not = λ c message.
            (submit_begun-IsQuiet py key value (Plain.start dial uuid c).0).raises_not
              (Plain.start dial uuid c).1 message;
      })

module _ {F : Type 0} (py : Python F) (net : Surroundings) (args : Fields F) where
  pub kv_get-IsQuiet : IsQuiet (run_tool py net Tool.kv_get args)
  unfolding run_tool Tx.kv_get
  kv_get-IsQuiet = record { raises_not = λ c message. ground arith }

  pub tx_start-IsQuiet : IsQuiet (run_tool py net Tool.tx_start args)
  unfolding run_tool Tx.tx_start
  tx_start-IsQuiet = record { raises_not = λ c message. ground arith }

  pub tx_get-IsQuiet : IsQuiet (run_tool py net Tool.tx_get args)
  unfolding run_tool Tx.tx_get
  tx_get-IsQuiet = record { raises_not = λ c message. ground arith }

  pub tx_put-IsQuiet : IsQuiet (run_tool py net Tool.tx_put args)
  unfolding run_tool Tx.tx_put
  tx_put-IsQuiet = record { raises_not = λ c message. ground arith }

  pub tx_commit-IsQuiet : IsQuiet (run_tool py net Tool.tx_commit args)
  unfolding run_tool Tx.tx_commit
  tx_commit-IsQuiet = record { raises_not = λ c message. ground arith }

  pub tx_rollback-IsQuiet : IsQuiet (run_tool py net Tool.tx_rollback args)
  unfolding run_tool Tx.tx_rollback
  tx_rollback-IsQuiet = record { raises_not = λ c message. ground arith }

  pub kv_dump-IsQuiet : IsQuiet (run_tool py net Tool.kv_dump args)
  unfolding run_tool Tx.kv_dump
  kv_dump-IsQuiet = record { raises_not = λ c message. ground arith }

  pub tree_tx_start-IsQuiet : IsQuiet (run_tool py net Tool.tree_tx_start args)
  unfolding run_tool TreeTx.tree_tx_start
  tree_tx_start-IsQuiet = record { raises_not = λ c message. ground arith }

  pub tree_tx_commit_retry-IsQuiet : IsQuiet (run_tool py net Tool.tree_tx_commit_retry args)
  unfolding run_tool TreeTx.tree_tx_commit_retry
  tree_tx_commit_retry-IsQuiet = record { raises_not = λ c message. ground arith }

  pub tree_tx_abort-IsQuiet : IsQuiet (run_tool py net Tool.tree_tx_abort args)
  unfolding run_tool TreeTx.tree_tx_abort
  tree_tx_abort-IsQuiet = record { raises_not = λ c message. ground arith }

  pub get_task_context-IsQuiet : IsQuiet (run_tool py net Tool.get_task_context args)
  unfolding run_tool Context.get_task_context
  get_task_context-IsQuiet = record { raises_not = λ c message. ground arith }

  pub get_expected_order_template-IsQuiet :
      IsQuiet (run_tool py net Tool.get_expected_order_template args)
  unfolding run_tool Context.get_expected_order_template
  get_expected_order_template-IsQuiet = record { raises_not = λ c message. ground arith }

  pub list_candidate_stores-IsQuiet : IsQuiet (run_tool py net Tool.list_candidate_stores args)
  unfolding run_tool Context.list_candidate_stores
  list_candidate_stores-IsQuiet = record { raises_not = λ c message. ground arith }

  pub get_store_detail-IsQuiet : IsQuiet (run_tool py net Tool.get_store_detail args)
  unfolding run_tool Context.get_store_detail
  get_store_detail-IsQuiet = record { raises_not = λ c message. ground arith }

  pub get_product_detail-IsQuiet : IsQuiet (run_tool py net Tool.get_product_detail args)
  unfolding run_tool Context.get_product_detail
  get_product_detail-IsQuiet = record { raises_not = λ c message. ground arith }

  pub image_analyze-IsQuiet : IsQuiet (run_tool py net Tool.image_analyze args)
  unfolding run_tool
  image_analyze-IsQuiet = record { raises_not = λ c message. cc }

  abbrev pub Blames : String → Reply F → Type 0
  Blames name m =
      (c : Client) (message : String) → (m c).0 ≡ err message → int_arg py name args ≡ err message

  pub tree_tx_branch-Blames : Blames "parent_branch_id" (run_tool py net Tool.tree_tx_branch args)
  unfolding run_tool TreeTx.tree_tx_branch
  tree_tx_branch-Blames c message = ground arith

  pub tree_tx_get-Blames : Blames "branch_id" (run_tool py net Tool.tree_tx_get args)
  unfolding run_tool TreeTx.tree_tx_get
  tree_tx_get-Blames c message = ground arith

  pub tree_tx_put-Blames : Blames "branch_id" (run_tool py net Tool.tree_tx_put args)
  unfolding run_tool TreeTx.tree_tx_put
  tree_tx_put-Blames c message = ground arith

  pub tree_tx_winner-Blames : Blames "branch_id" (run_tool py net Tool.tree_tx_winner args)
  unfolding run_tool TreeTx.tree_tx_winner
  tree_tx_winner-Blames c message = ground arith

  pub tree_tx_refresh_winner-Blames :
      Blames "branch_id" (run_tool py net Tool.tree_tx_refresh_winner args)
  unfolding run_tool TreeTx.tree_tx_refresh_winner
  tree_tx_refresh_winner-Blames c message = ground arith

  pub submit_delivery_order-IsQuiet : IsQuiet (run_tool py net Tool.submit_delivery_order args)
  unfolding run_tool Order.submit_delivery_order
  submit_delivery_order-IsQuiet =
      let key = stripped py "key" args in
      unless-IsQuiet (Tx.is_empty key) "missing key" _ (
        or_bad_payload-IsQuiet py (("key", str key) ∷ []) (build_delivery_order_payload py args) _
          (λ value. submit_final_answer-IsQuiet py net.dial net.uuid _))

  pub submit_task_delivery_order-IsQuiet :
      IsQuiet (run_tool py net Tool.submit_task_delivery_order args)
  unfolding run_tool Order.submit_task_delivery_order
  submit_task_delivery_order-IsQuiet =
      let namespace = stripped py "namespace" args in
      let task_id = stripped py "task_id" args in
      unless-IsQuiet (Tx.is_empty namespace || Tx.is_empty task_id) "missing namespace or task_id" _
        (or_bad_payload-IsQuiet py (("namespace", str namespace) ∷ ("task_id", str task_id) ∷ [])
          (build_delivery_order_payload py args) _
          (λ value. submit_final_answer-IsQuiet py net.dial net.uuid _))

  stage_order-IsQuiet :
      (n t x : String) (b : ℤ) (value : String) → IsQuiet (Order.stage_order py n t x b value)
  unfolding Order.stage_order
  stage_order-IsQuiet n t x b value = record { raises_not = λ c message. ground arith }

  with_branch-Blames :
      (r : Result ℤ) (f : ℤ → Reply F)
      → ((b : ℤ) → IsQuiet (f b))
      → (c : Client) (message : String) → (with_branch r f c).0 ≡ err message
      → r ≡ err message
  with_branch-Blames (ok b) f h c message e = absurd ((h b).raises_not c message e)
  with_branch-Blames (err m) f h c message e = cc
  with_branch-Blames hang f h c message e = cc

  pub tree_submit_task_delivery_order-Blames :
      Blames "branch_id" (run_tool py net Tool.tree_submit_task_delivery_order args)
  unfolding run_tool Order.tree_submit_task_delivery_order
  tree_submit_task_delivery_order-Blames =
      let namespace = stripped py "namespace" args in
      let task_id = stripped py "task_id" args in
      let tx_id = stripped py "tx_id" args in
      with_branch-Blames (int_arg py "branch_id" args) _ (λ b.
        unless-IsQuiet (Tx.is_empty namespace || (Tx.is_empty task_id || Tx.is_empty tx_id))
          "missing namespace, task_id or tx_id" _
          (or_bad_payload-IsQuiet py
            (("namespace", str namespace) ∷ ("task_id", str task_id) ∷ ("tx_id", str tx_id) ∷ [])
            (build_delivery_order_payload py args) _
            (stage_order-IsQuiet namespace task_id tx_id b)))
