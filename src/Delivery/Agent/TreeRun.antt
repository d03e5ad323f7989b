-- ===== src/Delivery/Agent/TreeRun.antt =====
-- The tree mode of `_reference_agent_run` in Agent/vitabench_delivery.py: one tree transaction, with
-- a branch for each candidate.
use Prim.Native.String
use mathlib.Core.List.{◌++◌}
use dbagent_tree.Prelude.{
  String, true, false, Option, none, some, List, [], ◌∷◌, ℤ, pos, int_eq, nat_eq, string_eq, ◌==◌,
  str_int, length, if◌then◌else◌,
}
use dbagent_tree.Dict.{Dict, lookup, insert}
use dbagent_tree.Exec.{Result, ok, err, Exec, pure, raise, lift, ◌>>=◌, ◌>>◌}
use dbagent_tree.Exec.Results
use dbagent_tree.Client.Tree
use dbagent_tree.Tools.Json.{Json, Fields, bool, int, str, array, object, end, fields, items}
use dbagent_tree.Tools.Python.{Python}
use dbagent_tree.Tools.Reply.{task_key, or_null}
use dbagent_tree.Tools.Router.{Tool}
use dbagent_tree.Delivery.Floats.{Floats}
use dbagent_tree.Delivery.Winner.{parse_json_safely, candidate_summary_payload}
use dbagent_tree.Delivery.Agent.{Run, Setting, in_client, record_tool, call, store_key, product_key}
use dbagent_tree.Delivery.Agent.Baseline.{when, has_product, meta_key, dict_or_empty}

module _ {F : Type 0} (py : Python F) (fl : Floats F) (setting : Setting F) where
  abbrev pub in_tx : String → Fields F
  in_tx tx_id = fields (("tx_id", str tx_id) ∷ [])

  -- A read at the root whose answer is not looked at.
  abbrev pub look_at_root : String → String → Exec (Run F) (Unit {0})
  look_at_root tx_id key =
      call py setting Tool.tree_tx_get "tree_tx_get" (
        fields (
          ("tx_id", str tx_id)
          ∷ ("branch_id", int (pos 0))
          ∷ ("key", str key)
          ∷ ("strict", bool false)
          ∷ []))
      >> pure tt

  abbrev pub branch_args : String → ℤ → String → Fields F
  branch_args tx_id branch_id key =
      fields (("tx_id", str tx_id) ∷ ("branch_id", int branch_id) ∷ ("key", str key) ∷ [])

  -- The branches, with the recorded call.
  unfoldable pub make_branches : String → List String → Exec (Run F) (List ℤ)
  make_branches tx_id candidate_store_ids = do
    let count = length candidate_store_ids
    created ← in_client (Tree.tree_branch_many tx_id (pos 0) (pos count))
    record_tool py "tree_tx_branch_many"
        (fields (
          ("tx_id", str tx_id)
          ∷ ("parent_branch_id", int (pos 0))
          ∷ ("count", int (pos count))
          ∷ []))
        (fields (
          ("ok", bool true)
          ∷ ("tx_id", str tx_id)
          ∷ ("branch_ids", array (items (ints created)))
          ∷ []))
    if length created == count then pure created else raise "TREE_BRANCH_MANY_COUNT_MISMATCH"
    where
      ints : List ℤ → List (Json F)
      ints [] = []
      ints (n ∷ ns) = int n ∷ ints ns

  -- `branch_to_store` and `tree_get_many_requests`, over the pairs of the two lists.
  unfoldable pub read_requests :
      List String → List ℤ → Dict ℤ String × List (ℤ × String) → Dict ℤ String × List (ℤ × String)
  unfolding insert
  read_requests (store_id ∷ store_ids) (branch_id ∷ branch_ids) (stores, requests) =
      read_requests store_ids branch_ids (
        insert branch_id store_id stores,
        requests ++ ((branch_id, store_key py setting store_id) ∷ []),
      )
  read_requests _ _ acc = acc

  abbrev request_items : List (ℤ × String) → List (Json F)
  request_items [] = []
  request_items ((branch_id, key) ∷ requests) =
      object
        (fields (("branch_id", int branch_id) ∷ ("key", str key) ∷ ("strict", bool false) ∷ []))
      ∷ request_items requests

  abbrev value_items : List (ℤ × String) → List (Option String) → List (Json F)
  value_items ((branch_id, key) ∷ requests) (value ∷ values) =
      object
        (fields (("branch_id", int branch_id) ∷ ("key", str key) ∷ ("value", or_null value) ∷ []))
      ∷ value_items requests values
  value_items _ _ = []

  unfoldable pub read_stores : String → List (ℤ × String) → Exec (Run F) (List (Option String))
  read_stores tx_id requests = do
    values ← in_client (Tree.tree_get_many tx_id requests false)
    record_tool py "tree_tx_get_many"
        (fields (("tx_id", str tx_id) ∷ ("items", array (items (request_items requests))) ∷ []))
        (fields (
          ("ok", bool true)
          ∷ ("tx_id", str tx_id)
          ∷ ("items", array (items (value_items requests values)))
          ∷ []))
    pure values

  abbrev branch_key : ℤ → String
  branch_key branch_id =
      task_key setting.namespace (String.◌++◌ "answer:candidate:branch:" (str_int branch_id))

  -- The payloads of the branches, and what is to be written.
  abbrev pub Payloads : Type 0
  Payloads = Dict ℤ (Fields F) × List (ℤ × String × String)

  abbrev store_of : Option String → Result String
  store_of none = err "branch_to_store"
  store_of (some store_id) = ok store_id

  -- The payload of a branch.
  unfoldable pub payload_for : Dict ℤ String → ℤ → Option String → Result (Fields F)
  unfolding lookup
  payload_for stores branch_id value =
      let detail =
        dict_or_empty py fl setting (parse_json_safely py fl (or_null value) (object end)) in
      Results.◌>>=◌ (store_of (lookup branch_id stores)) (λ store_id.
        candidate_summary_payload py fl setting.unicode store_id branch_id detail
          setting.expected.order setting.expected.product_id setting.expected.profile)

  unfoldable pub add_branch : ℤ → Fields F → Payloads → Payloads
  unfolding insert
  add_branch branch_id payload (payloads, writes) = (
    insert branch_id payload payloads,
    writes ++ ((branch_id, branch_key branch_id, py.dumps (object payload)) ∷ []),
  )

  -- The loop over the values that were read.
  unfoldable pub make_payloads :
      Dict ℤ String → List (ℤ × String) → List (Option String) → Payloads → Exec (Run F) Payloads
  make_payloads stores ((branch_id, key) ∷ requests) (value ∷ values) acc = do
    payload ← lift (payload_for stores branch_id value)
    make_payloads stores requests values (add_branch branch_id payload acc)
  make_payloads stores _ _ acc = pure acc

  abbrev write_items : List (ℤ × String × String) → List (Json F)
  write_items [] = []
  write_items ((branch_id, key, value) ∷ writes) =
      object (fields (("branch_id", int branch_id) ∷ ("key", str key) ∷ [])) ∷ write_items writes

  unfoldable pub write_payloads : String → List (ℤ × String × String) → Exec (Run F) (Unit {0})
  write_payloads tx_id writes =
      in_client (Tree.tree_put_many tx_id writes)
      >> record_tool py "tree_tx_put_many"
          (fields (("tx_id", str tx_id) ∷ ("items", array (items (write_items writes))) ∷ []))
          (fields
            (("ok", bool true) ∷ ("tx_id", str tx_id) ∷ ("count", int (pos (length writes))) ∷ []))
      >> pure tt

  -- The exploration: a branch for each candidate, with its payload.
  unfoldable pub explore_branches : String → List String → Exec (Run F) (Dict ℤ (Fields F))
  explore_branches tx_id candidate_store_ids = do
    look_at_root tx_id (meta_key py fl setting)
    when py fl setting (has_product py fl setting) (look_at_root tx_id (product_key py setting))
    created ← make_branches tx_id candidate_store_ids
    let (stores, requests) = read_requests candidate_store_ids created ([], [])
    values ← read_stores tx_id requests
    (payloads, writes) ← make_payloads stores requests values ([], [])
    write_payloads tx_id writes
    pure payloads
