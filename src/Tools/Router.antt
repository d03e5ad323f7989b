-- ===== src/Tools/Router.antt =====
-- `tool_router` of Agent/tool_registry.py.
use dbagent_tree.Prelude.{ℕ, String, ◌++◌, Option, none, some, [], string_eq, ◌==◌, if◌then◌else◌}
use dbagent_tree.Exec.{pure}
use dbagent_tree.Client.Session.{Dial}
use dbagent_tree.Tools.Json.{Fields}
use dbagent_tree.Tools.Python.{Python}
use dbagent_tree.Tools.Reply.{err_reply}
use dbagent_tree.Tools.Tx
use dbagent_tree.Tools.Tx.{Reply}
use dbagent_tree.Tools.TreeTx
use dbagent_tree.Tools.Order
use dbagent_tree.Tools.Context
use dbagent_tree.Tools.Context.{Files}

-- The functions that the router calls.
pub data Tool : Type 0 where
  kv_get tx_start tx_get tx_put tx_commit tx_rollback : Tool
  tree_tx_start tree_tx_branch tree_tx_get tree_tx_put tree_tx_winner : Tool
  tree_tx_refresh_winner tree_tx_commit_retry tree_tx_abort : Tool
  get_task_context get_expected_order_template list_candidate_stores : Tool
  get_store_detail get_product_detail : Tool
  submit_final_answer submit_delivery_order submit_task_delivery_order : Tool
  tree_submit_task_delivery_order kv_dump image_analyze : Tool

-- The tests of the router, in their order.
unfoldable pub tool_named : String → Option Tool
tool_named name =
    if name == "kv_get"
    then some kv_get
    else if name == "tx_start"
    then some tx_start
    else if name == "tx_get"
    then some tx_get
    else if name == "tx_put"
    then some tx_put
    else if name == "tx_commit"
    then some tx_commit
    else if name == "tx_rollback"
    then some tx_rollback
    else if name == "tree_tx_start"
    then some tree_tx_start
    else if name == "tree_tx_branch"
    then some tree_tx_branch
    else if name == "tree_tx_get"
    then some tree_tx_get
    else if name == "tree_tx_put"
    then some tree_tx_put
    else if name == "tree_tx_winner"
    then some tree_tx_winner
    else if name == "tree_tx_refresh_winner"
    then some tree_tx_refresh_winner
    else if name == "tree_tx_commit_retry"
    then some tree_tx_commit_retry
    else if name == "tree_tx_abort"
    then some tree_tx_abort
    else if name == "get_task_context"
    then some get_task_context
    else if name == "get_expected_order_template"
    then some get_expected_order_template
    else if name == "list_candidate_stores"
    then some list_candidate_stores
    else if name == "get_store_detail"
    then some get_store_detail
    else if name == "get_product_detail"
    then some get_product_detail
    else if name == "submit_final_answer"
    then some submit_final_answer
    else if name == "submit_delivery_order"
    then some submit_delivery_order
    else if name == "submit_task_delivery_order"
    then some submit_task_delivery_order
    else if name == "tree_submit_task_delivery_order"
    then some tree_submit_task_delivery_order
    else if name == "kv_dump"
    then some kv_dump
    else if name == "image_analyze"
    then some image_analyze
    else none

-- What the surroundings give to one call of a tool: what connecting gives, once or in the rounds of
-- several reads, what `uuid.uuid4` draws, and the files.
pub record Surroundings : Type 0 where
  pub dial : Dial
  pub dials : ℕ → ℕ → Dial
  pub uuid : String
  pub files : Files

module _ {F : Type 0} (py : Python F) (net : Surroundings) where
  unfoldable pub run_tool : Tool → Fields F → Reply F
  run_tool kv_get args = Tx.kv_get py (net.dials 0) args
  run_tool tx_start args = Tx.tx_start py net.dial net.uuid args
  run_tool tx_get args = Tx.tx_get py args
  run_tool tx_put args = Tx.tx_put py args
  run_tool tx_commit args = Tx.tx_commit py args
  run_tool tx_rollback args = Tx.tx_rollback py args
  run_tool tree_tx_start args = TreeTx.tree_tx_start py net.dial net.uuid args
  run_tool tree_tx_branch args = TreeTx.tree_tx_branch py args
  run_tool tree_tx_get args = TreeTx.tree_tx_get py args
  run_tool tree_tx_put args = TreeTx.tree_tx_put py args
  run_tool tree_tx_winner args = TreeTx.tree_tx_winner py args
  run_tool tree_tx_refresh_winner args = TreeTx.tree_tx_refresh_winner py args
  run_tool tree_tx_commit_retry args = TreeTx.tree_tx_commit_retry py args
  run_tool tree_tx_abort args = TreeTx.tree_tx_abort py args
  run_tool get_task_context args = Context.get_task_context py net.dials args
  run_tool get_expected_order_template args = Context.get_expected_order_template py net.dials args
  run_tool list_candidate_stores args = Context.list_candidate_stores py net.dials args
  run_tool get_store_detail args = Context.get_store_detail py net.dials args
  run_tool get_product_detail args = Context.get_product_detail py net.dials args
  run_tool submit_final_answer args = Tx.submit_final_answer py net.dial net.uuid args
  run_tool submit_delivery_order args = Order.submit_delivery_order py net.dial net.uuid args
  run_tool submit_task_delivery_order args =
      Order.submit_task_delivery_order py net.dial net.uuid args
  run_tool tree_submit_task_delivery_order args = Order.tree_submit_task_delivery_order py args
  run_tool kv_dump args = Tx.kv_dump py args
  run_tool image_analyze args = pure (Context.image_analyze py net.files args)

  unfoldable pub tool_router : String → Fields F → Reply F
  tool_router name args = elim (tool_named name) [
    | some tool ↦ run_tool tool args
    | none ↦ pure (err_reply ("unknown tool: " ++ name) [])
  ]
