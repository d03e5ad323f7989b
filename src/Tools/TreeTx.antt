-- ===== src/Tools/TreeTx.antt =====
-- The tools for tree transactions, in Agent/tools/kv_tools.py. `int(…)` of an argument stands
-- outside the `try`, so it raises out of the tool.
use dbagent_tree.Prelude.{String, true, false, ◌||◌, Option, none, some, [], ◌∷◌, pos}
use dbagent_tree.Exec.{pure, lift, ◌>>=◌, ◌>>◌}
use dbagent_tree.Client.Session.{Dial}
use dbagent_tree.Client.Tree
use dbagent_tree.Client.Ending
use dbagent_tree.Client.Ending.{CommitReply}
use dbagent_tree.Tools.Json.{Fields, bool, int, str, field_or}
use dbagent_tree.Tools.Python.{Python, stripped, text_or, int_arg, truthy}
use dbagent_tree.Tools.Reply.{ok_reply, err_reply, or_null, found}
use dbagent_tree.Tools.Tx.{Reply, is_empty, attempt, unless}

module _ {F : Type 0} (py : Python F) where
  unfoldable pub tree_tx_start : Dial → String → Fields F → Reply F
  tree_tx_start dial uuid args = attempt [] (do
    tx_id ← Tree.tree_start dial uuid
    pure (ok_reply (("tx_id", str tx_id) ∷ ("root_branch_id", int (pos 0)) ∷ [])))

  unfoldable pub tree_tx_branch : Fields F → Reply F
  tree_tx_branch args = do
    let tx_id = stripped py "tx_id" args
    parent ← lift (int_arg py "parent_branch_id" args)
    unless (is_empty tx_id) "missing tx_id" (
        attempt (("tx_id", str tx_id) ∷ ("parent_branch_id", int parent) ∷ []) (do
          branch_id ← Tree.tree_branch tx_id parent
          pure (
              ok_reply (
                ("tx_id", str tx_id)
                ∷ ("parent_branch_id", int parent)
                ∷ ("branch_id", int branch_id)
                ∷ []))))

  unfoldable pub tree_tx_get : Fields F → Reply F
  tree_tx_get args = do
    let tx_id = stripped py "tx_id" args
    let key = stripped py "key" args
    branch_id ← lift (int_arg py "branch_id" args)
    let strict = truthy py (field_or "strict" (bool false) args)
    unless (is_empty tx_id || is_empty key) "missing tx_id or key" (
        attempt
          (("tx_id", str tx_id)
            ∷ ("branch_id", int branch_id)
            ∷ ("key", str key)
            ∷ ("strict", bool strict)
            ∷ [])
          (do
            value ← Tree.tree_get tx_id branch_id key strict
            pure (
                ok_reply (
                  ("tx_id", str tx_id)
                  ∷ ("branch_id", int branch_id)
                  ∷ ("key", str key)
                  ∷ ("value", or_null value)
                  ∷ ("found", found value)
                  ∷ ("strict", bool strict)
                  ∷ []))))

  unfoldable pub tree_tx_put : Fields F → Reply F
  tree_tx_put args = do
    let tx_id = stripped py "tx_id" args
    let key = stripped py "key" args
    let value = text_or py "value" "" args
    branch_id ← lift (int_arg py "branch_id" args)
    unless (is_empty tx_id || is_empty key) "missing tx_id or key" (
        attempt (("tx_id", str tx_id) ∷ ("branch_id", int branch_id) ∷ ("key", str key) ∷ []) (
          Tree.tree_put tx_id branch_id key value
          >> pure (
              ok_reply (
                ("tx_id", str tx_id)
                ∷ ("branch_id", int branch_id)
                ∷ ("key", str key)
                ∷ ("value", str value)
                ∷ []))))

  unfoldable pub tree_tx_winner : Fields F → Reply F
  tree_tx_winner args = do
    let tx_id = stripped py "tx_id" args
    branch_id ← lift (int_arg py "branch_id" args)
    unless (is_empty tx_id) "missing tx_id" (
        attempt (("tx_id", str tx_id) ∷ ("branch_id", int branch_id) ∷ []) (
          Tree.tree_select_winner tx_id branch_id
          >> pure (
              ok_reply (
                ("tx_id", str tx_id)
                ∷ ("branch_id", int branch_id)
                ∷ ("winner_selected", bool true)
                ∷ []))))

  unfoldable pub tree_tx_refresh_winner : Fields F → Reply F
  tree_tx_refresh_winner args = do
    let tx_id = stripped py "tx_id" args
    branch_id ← lift (int_arg py "branch_id" args)
    let key = stripped py "key" args
    unless (is_empty tx_id || is_empty key) "missing tx_id or key" (
        attempt (("tx_id", str tx_id) ∷ ("branch_id", int branch_id) ∷ ("key", str key) ∷ []) (do
          value ← Tree.tree_refresh_winner tx_id branch_id key
          pure (
              ok_reply (
                ("tx_id", str tx_id)
                ∷ ("branch_id", int branch_id)
                ∷ ("key", str key)
                ∷ ("value", or_null value)
                ∷ ("found", found value)
                ∷ []))))

  -- The answer to each result of `tree_commit_retry`; `None` has no `get`.
  unfoldable pub commit_reply : String → Option CommitReply → Fields F
  commit_reply tx_id (some CommitReply.committed) =
      ok_reply (("tx_id", str tx_id) ∷ ("committed", bool true) ∷ [])
  commit_reply tx_id (some (CommitReply.aborted reason response)) =
      err_reply "tree commit aborted" (
        ("tx_id", str tx_id)
        ∷ ("committed", bool false)
        ∷ ("abort_reason", str reason)
        ∷ ("response", str response)
        ∷ [])
  commit_reply tx_id none =
      err_reply "'NoneType' object has no attribute 'get'" (("tx_id", str tx_id) ∷ [])

  unfoldable pub tree_tx_commit_retry : Fields F → Reply F
  unfolding commit_reply
  tree_tx_commit_retry args =
      let tx_id = stripped py "tx_id" args in
      unless (is_empty tx_id) "missing tx_id" (
        attempt (("tx_id", str tx_id) ∷ [])
          (do result ← Ending.tree_commit_retry tx_id; pure (commit_reply tx_id result)))

  unfoldable pub tree_tx_abort : Fields F → Reply F
  tree_tx_abort args =
      let tx_id = stripped py "tx_id" args in
      unless (is_empty tx_id) "missing tx_id" (
        attempt (("tx_id", str tx_id) ∷ []) (
          Ending.tree_abort tx_id
          >> pure (ok_reply (("tx_id", str tx_id) ∷ ("aborted", bool true) ∷ []))))
