-- ===== src/Tools/Dispatch.antt =====
-- The names of Agent/tool_registry.py: those that `TOOLS_SCHEMA` advertises and those that
-- `tool_router` answers to.
use dbagent_tree.Prelude.{
  String, ◌++◌, ◌≡◌, refl, sym, ap, ◌∙◌, Bool, true, false, ◌&&◌, Option, none, some, List, [], ◌∷◌,
  arith, string_eq, ◌==◌,
}
use dbagent_tree.Dict.{Dict, lookup, is_some}
use dbagent_tree.Exec.{ok}
use dbagent_tree.Client.State.{Client}
use dbagent_tree.Tools.Json.{Fields}
use dbagent_tree.Tools.Python.{Python}
use dbagent_tree.Tools.Reply.{err_reply}
use dbagent_tree.Tools.Schema.{ToolSchema, tools_schema}
use dbagent_tree.Tools.Router.{Tool, Surroundings, tool_named, tool_router}

-- The test holds of every entry.
unfoldable all_entries : {V : Type 0} → (String → V → Bool) → Dict String V → Bool
all_entries test [] = true
all_entries test ((k, v) ∷ d) = test k v && all_entries test d

lookup-all_entries :
    {V : Type 0} (test : String → V → Bool) (d : Dict String V) (k : String) (v : V)
    → all_entries test d ≡ true
    → lookup k d ≡ some v
    → test k v ≡ true
unfolding lookup all_entries
lookup-all_entries test [] k v h e = ground arith
lookup-all_entries test ((j, w) ∷ d) k v h e =
    ground (arith, lookup-all_entries test d k v, string_eq.same_iff k j)

-- The function's name in Agent/tools.
abbrev pub tool_name : Tool → String
tool_name Tool.kv_get = "kv_get"
tool_name Tool.tx_start = "tx_start"
tool_name Tool.tx_get = "tx_get"
tool_name Tool.tx_put = "tx_put"
tool_name Tool.tx_commit = "tx_commit"
tool_name Tool.tx_rollback = "tx_rollback"
tool_name Tool.tree_tx_start = "tree_tx_start"
tool_name Tool.tree_tx_branch = "tree_tx_branch"
tool_name Tool.tree_tx_get = "tree_tx_get"
tool_name Tool.tree_tx_put = "tree_tx_put"
tool_name Tool.tree_tx_winner = "tree_tx_winner"
tool_name Tool.tree_tx_refresh_winner = "tree_tx_refresh_winner"
tool_name Tool.tree_tx_commit_retry = "tree_tx_commit_retry"
tool_name Tool.tree_tx_abort = "tree_tx_abort"
tool_name Tool.get_task_context = "get_task_context"
tool_name Tool.get_expected_order_template = "get_expected_order_template"
tool_name Tool.list_candidate_stores = "list_candidate_stores"
tool_name Tool.get_store_detail = "get_store_detail"
tool_name Tool.get_product_detail = "get_product_detail"
tool_name Tool.submit_final_answer = "submit_final_answer"
tool_name Tool.submit_delivery_order = "submit_delivery_order"
tool_name Tool.submit_task_delivery_order = "submit_task_delivery_order"
tool_name Tool.tree_submit_task_delivery_order = "tree_submit_task_delivery_order"
tool_name Tool.kv_dump = "kv_dump"
tool_name Tool.image_analyze = "image_analyze"

-- The router's tests as a table.
abbrev table : Dict String Tool
table =
    ("kv_get", Tool.kv_get)
    ∷ ("tx_start", Tool.tx_start)
    ∷ ("tx_get", Tool.tx_get)
    ∷ ("tx_put", Tool.tx_put)
    ∷ ("tx_commit", Tool.tx_commit)
    ∷ ("tx_rollback", Tool.tx_rollback)
    ∷ ("tree_tx_start", Tool.tree_tx_start)
    ∷ ("tree_tx_branch", Tool.tree_tx_branch)
    ∷ ("tree_tx_get", Tool.tree_tx_get)
    ∷ ("tree_tx_put", Tool.tree_tx_put)
    ∷ ("tree_tx_winner", Tool.tree_tx_winner)
    ∷ ("tree_tx_refresh_winner", Tool.tree_tx_refresh_winner)
    ∷ ("tree_tx_commit_retry", Tool.tree_tx_commit_retry)
    ∷ ("tree_tx_abort", Tool.tree_tx_abort)
    ∷ ("get_task_context", Tool.get_task_context)
    ∷ ("get_expected_order_template", Tool.get_expected_order_template)
    ∷ ("list_candidate_stores", Tool.list_candidate_stores)
    ∷ ("get_store_detail", Tool.get_store_detail)
    ∷ ("get_product_detail", Tool.get_product_detail)
    ∷ ("submit_final_answer", Tool.submit_final_answer)
    ∷ ("submit_delivery_order", Tool.submit_delivery_order)
    ∷ ("submit_task_delivery_order", Tool.submit_task_delivery_order)
    ∷ ("tree_submit_task_delivery_order", Tool.tree_submit_task_delivery_order)
    ∷ ("kv_dump", Tool.kv_dump)
    ∷ ("image_analyze", Tool.image_analyze)
    ∷ []

tool_named-table : (name : String) → tool_named name ≡ lookup name table
unfolding tool_named lookup
tool_named-table name = refl

tool_named-name :
    (name : String) (tool : Tool) → tool_named name ≡ some tool → name ≡ tool_name tool
unfolding all_entries
tool_named-name name tool e = (string_eq.same_iff name (tool_name tool)).0 (
    lookup-all_entries (λ n t. n == tool_name t) table name tool refl
      (sym (tool_named-table name) ∙ e))

abbrev by_name : List ToolSchema → Dict String ToolSchema
by_name [] = []
by_name (s ∷ ss) = (s.name, s) ∷ by_name ss

unfoldable pub schema_of : String → Option ToolSchema
unfolding lookup
schema_of name = lookup name (by_name tools_schema)

tool-schema : (tool : Tool) → is_some (schema_of (tool_name tool)) ≡ true
unfolding schema_of
tool-schema Tool.kv_get = refl
tool-schema Tool.tx_start = refl
tool-schema Tool.tx_get = refl
tool-schema Tool.tx_put = refl
tool-schema Tool.tx_commit = refl
tool-schema Tool.tx_rollback = refl
tool-schema Tool.tree_tx_start = refl
tool-schema Tool.tree_tx_branch = refl
tool-schema Tool.tree_tx_get = refl
tool-schema Tool.tree_tx_put = refl
tool-schema Tool.tree_tx_winner = refl
tool-schema Tool.tree_tx_refresh_winner = refl
tool-schema Tool.tree_tx_commit_retry = refl
tool-schema Tool.tree_tx_abort = refl
tool-schema Tool.get_task_context = refl
tool-schema Tool.get_expected_order_template = refl
tool-schema Tool.list_candidate_stores = refl
tool-schema Tool.get_store_detail = refl
tool-schema Tool.get_product_detail = refl
tool-schema Tool.submit_final_answer = refl
tool-schema Tool.submit_delivery_order = refl
tool-schema Tool.submit_task_delivery_order = refl
tool-schema Tool.tree_submit_task_delivery_order = refl
tool-schema Tool.kv_dump = refl
tool-schema Tool.image_analyze = refl

schema-tool :
    (name : String) (s : ToolSchema) → schema_of name ≡ some s → is_some (tool_named name) ≡ true
unfolding schema_of tool_named all_entries
schema-tool name s e =
    lookup-all_entries (λ n _. is_some (tool_named n)) (by_name tools_schema) name s refl e

is_some-agree :
    {A B : Type 0} (a : Option A) (b : Option B)
    → ((x : A) → a ≡ some x → is_some b ≡ true)
    → ((y : B) → b ≡ some y → is_some a ≡ true)
    → is_some a ≡ is_some b
is_some-agree none none f g = refl
is_some-agree none (some y) f g = g y refl
is_some-agree (some x) b f g = sym (f x refl)

is_some-none : {A : Type 0} (a : Option A) → is_some a ≡ false → a ≡ none
is_some-none none e = refl
is_some-none (some x) e = ground arith

-- `TOOLS_SCHEMA` advertises exactly the names that the router answers to.
pub schema-tool_named : (name : String) → is_some (schema_of name) ≡ is_some (tool_named name)
schema-tool_named name =
    is_some-agree (schema_of name) (tool_named name) (schema-tool name)
      (λ tool e. ap (λ n. is_some (schema_of n)) (tool_named-name name tool e) ∙ tool-schema tool)

module _ {F : Type 0} (py : Python F) (net : Surroundings) (args : Fields F) (c : Client) where
  -- A name that `TOOLS_SCHEMA` does not advertise gets the error, and the client is as before.
  pub tool_router-unknown :
      (name : String)
      → schema_of name ≡ none
      → tool_router py net name args c ≡ (ok (err_reply ("unknown tool: " ++ name) []), c)
  unfolding tool_router
  tool_router-unknown name e =
      let t : tool_named name ≡ none =
        is_some-none (tool_named name) (sym (schema-tool_named name) ∙ ap is_some e) in
      rw (t, tool_router)
