-- ===== src/Delivery/Agent/TreeWinner.antt =====
-- The winner of the tree mode of `_reference_agent_run` in Agent/vitabench_delivery.py: its choice,
-- its check against fresh values, the commit with one more try, and the way out.
use dbagent_tree.Prelude.{
  ℕ, String, Bool, true, false, not, Option, none, some, List, [], ◌∷◌, ℤ, int_eq, string_eq, ◌==◌,
  if◌then◌else◌,
}
use dbagent_tree.Dict.{Dict, lookup}
use dbagent_tree.Exec.{Exec, pure, gets, lift, modify, ◌>>=◌, ◌>>◌, catch}
use dbagent_tree.Client.Session.{Dial}
use dbagent_tree.Tools.Json.{Json, Fields, null, int, str, object, end, fields, field_or}
use dbagent_tree.Tools.Python.{Python, str_of}
use dbagent_tree.Tools.Reply.{or_null}
use dbagent_tree.Tools.Router.{Tool}
use dbagent_tree.Delivery.Floats.{Floats}
use dbagent_tree.Delivery.Orders.{or_else, order_array_from_submit_args}
use dbagent_tree.Delivery.Sorting.{sorted}
use dbagent_tree.Delivery.Winner.{int_less, select_winner_payload}
use dbagent_tree.Delivery.Recheck.{Verdict, semantic_recheck_winner_payload}
use dbagent_tree.Delivery.Agent.{
  Run, Setting, Ending, aborted, recheck_failed, retried, committed, explore_attempt, hotspot_key,
  hotspot_bump, first_round, one_more_round, no_branch, call, is_ok, store_key, product_key,
  gave_up, gave_up_for, submitted,
}
use dbagent_tree.Delivery.Agent.Baseline.{
  when, has_product, text_at, answer_key, answer_of, reloaded, or_reason,
}
use dbagent_tree.Delivery.Agent.TreeRun.{in_tx, branch_args, explore_branches}

module _ {F : Type 0} (py : Python F) (fl : Floats F) (setting : Setting F) where
  abbrev pub store_id_of : Fields F → String
  store_id_of payload = str_of py (field_or "candidate_store_id" (str "") payload)

  abbrev pub values_of : Dict ℤ (Fields F) → List (Fields F)
  values_of [] = []
  values_of ((branch_id, payload) ∷ rest) = payload ∷ values_of rest

  abbrev keys_of : Dict ℤ (Fields F) → List ℤ
  keys_of [] = []
  keys_of ((branch_id, payload) ∷ rest) = branch_id ∷ keys_of rest

  -- The first branch whose payload is of the store.
  unfoldable pub branch_with : String → Dict ℤ (Fields F) → Option ℤ
  branch_with store_id [] = none
  branch_with store_id ((branch_id, payload) ∷ rest) =
      let later = branch_with store_id rest in
      if store_id_of payload == store_id then some branch_id else later

  abbrev first_key : List ℤ → Option ℤ
  first_key [] = none
  first_key (branch_id ∷ rest) = some branch_id

  -- The branch that has the store, or else the lowest one.
  abbrev first_choice : String → Dict ℤ (Fields F) → Option ℤ
  first_choice store_id payloads = if store_id == "" then none else branch_with store_id payloads

  abbrev payload_store : Option (Fields F) → String
  payload_store none = ""
  payload_store (some payload) = store_id_of payload

  abbrev lowest : Dict ℤ (Fields F) → String → Option (ℤ × String)
  lowest payloads store_id = elim (first_key (sorted int_less (keys_of payloads))) [
    | none ↦ none
    | some branch_id ↦ some (branch_id, payload_store (lookup branch_id payloads))
  ]

  unfoldable pub winner_branch : String → Dict ℤ (Fields F) → Option (ℤ × String)
  winner_branch store_id payloads = elim (first_choice store_id payloads) [
    | some branch_id ↦ some (branch_id, store_id)
    | none ↦ lowest payloads store_id
  ]

  abbrev value_of : Fields F → Json F
  value_of reply = field_or "value" null reply

  unfoldable pub refresh : String → ℤ → String → Exec (Run F) (Fields F)
  refresh tx_id branch_id key =
      call py setting Tool.tree_tx_refresh_winner "tree_tx_refresh_winner"
        (branch_args py fl setting tx_id branch_id key)

  abbrev pub refresh_product : Bool → String → ℤ → Exec (Run F) (Json F)
  refresh_product true tx_id branch_id = do
    reply ← refresh tx_id branch_id (product_key py setting)
    pure (value_of reply)
  refresh_product false tx_id branch_id = pure null

  -- The fresh values of the winner's store and product, and their check.
  unfoldable pub refresh_and_check : String → ℤ → String → Exec (Run F) (Verdict F)
  refresh_and_check tx_id branch_id store_id = do
    when py fl setting (not (hotspot_key setting == ""))
        (refresh tx_id branch_id (hotspot_key setting) >> pure tt)
    store_reply ← refresh tx_id branch_id (store_key py setting store_id)
    product_raw ← refresh_product (has_product py fl setting) tx_id branch_id
    lift (
        semantic_recheck_winner_payload py fl setting.unicode store_id branch_id setting.expected
          (value_of store_reply) product_raw)

  unfoldable pub tree_abort : String → Exec (Run F) (Unit {0})
  tree_abort tx_id =
      call py setting Tool.tree_tx_abort "tree_tx_abort" (in_tx py fl setting tx_id) >> pure tt

  -- A refused winner: the tree is aborted and the run is over.
  unfoldable pub refused : String → String → String → Exec (Run F) (Option (Ending F))
  refused tx_id store_id reason = do
    recheck_failed reason
    tree_abort tx_id
    result ← gave_up py store_id
    pure (some result)

  -- The answer is written at the winner's branch, and the tree committed.
  unfoldable pub put_and_commit : String → ℤ → Option String → Exec (Run F) (Fields F)
  put_and_commit tx_id branch_id final_raw =
      call py setting Tool.tree_tx_put "tree_tx_put" (
        fields (
          ("tx_id", str tx_id)
          ∷ ("branch_id", int branch_id)
          ∷ ("key", str (answer_key py fl setting))
          ∷ ("value", or_null final_raw)
          ∷ []))
      >> call py setting Tool.tree_tx_commit_retry "tree_tx_commit_retry"
          (in_tx py fl setting tx_id)

  unfoldable pub tree_committed :
      (ℕ → Dial) → String → Json F × Option String → Exec (Run F) (Option (Ending F))
  tree_committed dials store_id answer = do
    committed
    (final_answer, final_raw) ← reloaded py fl setting dials answer
    result ← submitted py final_answer final_raw store_id
    pure (some result)

  abbrev pub commit_reason : Fields F → Json F
  commit_reason reply =
      or_else py (field_or "abort_reason" (str "") reply)
        (field_or "error" (str "TREE_COMMIT_FAILED") reply)

  -- What follows the second commit: without success the end of the `try` is reached.
  unfoldable pub second_committed :
      (ℕ → Dial)
      → String
      → String
      → Json F × Option String
      → Fields F
      → Exec (Run F) (Option (Ending F))
  second_committed dials tx_id store_id answer reply =
      if is_ok py reply
      then tree_committed dials store_id answer
      else (aborted (commit_reason reply) >> tree_abort tx_id >> pure none)

  -- What follows the second check.
  unfoldable pub second_checked :
      (ℕ → Dial)
      → String
      → ℤ
      → String
      → Json F × Option String
      → Verdict F
      → Exec (Run F) (Option (Ending F))
  second_checked dials tx_id branch_id store_id answer verdict =
      if verdict.constraints_ok
      then (put_and_commit tx_id branch_id answer.1
          >>= second_committed dials tx_id store_id answer)
      else refused tx_id store_id verdict.reason

  -- What follows the first commit.
  unfoldable pub first_committed :
      (ℕ → Dial)
      → String
      → ℤ
      → String
      → Json F × Option String
      → Fields F
      → Exec (Run F) (Option (Ending F))
  first_committed dials tx_id branch_id store_id answer reply =
      if is_ok py reply
      then tree_committed dials store_id answer
      else (aborted (commit_reason reply)
          >> retried
          >> one_more_round
          >> refresh_and_check tx_id branch_id store_id
          >>= second_checked dials tx_id branch_id store_id answer)

  -- What follows the first check.
  unfoldable pub first_checked :
      (ℕ → Dial) → String → ℤ → String → Verdict F → Exec (Run F) (Option (Ending F))
  first_checked dials tx_id branch_id store_id verdict =
      if verdict.constraints_ok
      then (do
        submission ← lift (order_array_from_submit_args py (object setting.expected.order))
        let answer = answer_of py fl setting submission
        reply ← put_and_commit tx_id branch_id answer.1
        first_committed dials tx_id branch_id store_id answer reply)
      else refused tx_id store_id verdict.reason

  -- What follows the choice of the winner.
  unfoldable pub winner_chosen :
      (ℕ → Dial) → String → Option (ℤ × String) → Exec (Run F) (Option (Ending F))
  winner_chosen dials tx_id none = do
    tree_abort tx_id
    reason ← gets (λ s. s.abort_reason)
    no_branch
    result ← gave_up_for py (or_reason py fl setting reason "NO_BRANCH_CREATED")
    pure (some result)
  winner_chosen dials tx_id (some (branch_id, store_id)) = do
    modify (λ s. record s { winner_store_id = store_id })
    hotspot_bump fl setting
    first_round
    call py setting Tool.tree_tx_winner "tree_tx_winner"
        (fields (("tx_id", str tx_id) ∷ ("branch_id", int branch_id) ∷ []))
    verdict ← refresh_and_check tx_id branch_id store_id
    first_checked dials tx_id branch_id store_id verdict

  -- The `try` of the tree mode; `none` is its end without a return.
  unfoldable pub tree_body : (ℕ → Dial) → String → List String → Exec (Run F) (Option (Ending F))
  tree_body dials tx_id candidate_store_ids = do
    payloads ← explore_branches py fl setting tx_id candidate_store_ids
    winner ← lift (select_winner_payload py fl (values_of payloads))
    modify (λ s. record s { winner_store_id = store_id_of winner })
    winner_chosen dials tx_id (winner_branch (store_id_of winner) payloads)

  -- What follows the `try`: without a return the tree is aborted.
  unfoldable pub tree_ended : String → Option (Ending F) → Exec (Run F) (Ending F)
  tree_ended tx_id (some result) = pure result
  tree_ended tx_id none = do
    catch (tree_abort tx_id) (λ _. pure tt)
    store_id ← gets (λ s. s.winner_store_id)
    gave_up py store_id

  unfoldable pub tree_started : (ℕ → Dial) → List String → Fields F → Exec (Run F) (Ending F)
  tree_started dials candidate_store_ids reply =
      if is_ok py reply
      then (explore_attempt
          >> catch (tree_body dials (text_at py fl setting "tx_id" reply) candidate_store_ids)
              (λ message. aborted (str message) >> pure none)
          >>= tree_ended (text_at py fl setting "tx_id" reply))
      else (aborted (field_or "error" (str "TREE_TX_START_FAILED") reply)
          >> gave_up_for py (field_or "error" (str "TREE_TX_START_FAILED") reply))

  -- The tree mode from the candidates on.
  unfoldable pub tree_run : (ℕ → Dial) → List String → Exec (Run F) (Ending F)
  tree_run dials candidate_store_ids =
      call py setting Tool.tree_tx_start "tree_tx_start" end
      >>= tree_started dials candidate_store_ids
