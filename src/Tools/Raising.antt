-- ===== src/Tools/Raising.antt =====
-- Which exceptions leave the tools of Agent/tools/kv_tools.py.
use dbagent_tree.Prelude.{String, ◌≡◌, Option, none, some}
use dbagent_tree.Exec.{err}
use dbagent_tree.Client.State.{Client}
use dbagent_tree.Tools.Json.{Fields}
use dbagent_tree.Tools.Python.{Python, int_arg}
use dbagent_tree.Tools.Tx
use dbagent_tree.Tools.Tx.{Reply, attempt, unless, submit_begun, submit_under}
use dbagent_tree.Tools.Router.{Tool}

-- The argument that a tool converts by `int(…)` outside its `try`.
abbrev pub converts : Tool → Option String
converts Tool.tree_tx_branch = some "parent_branch_id"
converts Tool.tree_tx_get = some "branch_id"
converts Tool.tree_tx_put = some "branch_id"
converts Tool.tree_tx_winner = some "branch_id"
converts Tool.tree_tx_refresh_winner = some "branch_id"
converts Tool.tree_submit_task_delivery_order = some "branch_id"
converts _ = none

-- An exception comes from the conversion of the argument, if there is one.
abbrev pub FromInt : {F : Type 0} → Python F → Fields F → String → Option String → Type 0
FromInt py args message none = ⊥
FromInt py args message (some name) = int_arg py name args ≡ err message
