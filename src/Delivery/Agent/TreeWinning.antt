-- ===== src/Delivery/Agent/TreeWinning.antt =====
-- What the winner's part of the tree mode (Agent/vitabench_delivery.py) keeps.
use dbagent_tree.Prelude.{ℕ, String, Option, none, some, List, [], ◌∷◌, ℤ, nat_eq, string_eq}
use dbagent_tree.Exec.{pure, gets, lift, modify, ◌>>◌, catch}
use dbagent_tree.Client.Session.{Dial}
use dbagent_tree.Tools.Json.{Json, Fields, str, int, object, end, fields, field_or}
use dbagent_tree.Tools.Python.{Python}
use dbagent_tree.Tools.Router.{Tool}
use dbagent_tree.Delivery.Floats.{Floats}
use dbagent_tree.Delivery.Orders.{order_array_from_submit_args}
use dbagent_tree.Delivery.Winner.{select_winner_payload}
use dbagent_tree.Delivery.Recheck.{Verdict}
use dbagent_tree.Delivery.Agent.{
  Run, Setting, Ending, aborted, retried, committed, explore_attempt, hotspot_bump, first_round,
  one_more_round, no_branch, call, is_ok, gave_up_for, submitted,
}
use dbagent_tree.Delivery.Agent.Baseline.{text_at, answer_of, reloaded, or_reason}
use dbagent_tree.Delivery.Agent.Baseline.Keeping.{reloaded-Keeps}
use dbagent_tree.Delivery.Agent.TreeRun.{explore_branches}
use dbagent_tree.Delivery.Agent.TreeWinner.{
  store_id_of, values_of, winner_branch, refresh_and_check, tree_abort, put_and_commit,
  tree_committed, commit_reason, second_committed, second_checked, first_committed, first_checked,
  winner_chosen, tree_body, tree_ended, tree_started, tree_run,
}
use dbagent_tree.Delivery.Agent.TreeKeeping.{
  explore_branches-Keeps, refresh_and_check-Keeps, tree_abort-Keeps, refused-Keeps,
  put_and_commit-Keeps,
}
use dbagent_tree.Delivery.Agent.Steady.{
  Keeps, Steady, TreeSteady, bind-Keeps, pure-Keeps, lift-Keeps, gets-Keeps, if-Keeps, catch-Keeps,
  gave_up-Keeps, gave_up_for-Keeps, call-Keeps, hotspot_bump-Keeps,
}

module _ {F : Type 0} (py : Python F) (fl : Floats F) (setting : Setting F) (P : Run F → Type 0)
    (steady : Steady py P) (tree_steady : TreeSteady P)
    (on_commit : Keeps P (committed {F = F})) where
  tree_committed-Keeps :
      (dials : ℕ → Dial) (store_id : String) (answer : Json F × Option String)
      → Keeps P (tree_committed py fl setting dials store_id answer)
  unfolding tree_committed
  tree_committed-Keeps dials store_id answer = bind-Keeps P committed _ on_commit (λ _.
      bind-Keeps P (reloaded py fl setting dials answer) _
        (reloaded-Keeps py fl setting P steady dials answer)
        (λ loaded.
          bind-Keeps P (submitted py loaded.0 loaded.1 store_id) _ (gets-Keeps P _)
            (λ result. pure-Keeps P (some result))))

  second_committed-Keeps :
      (dials : ℕ → Dial) (tx_id store_id : String) (answer : Json F × Option String)
      (reply : Fields F)
      → Keeps P (second_committed py fl setting dials tx_id store_id answer reply)
  unfolding second_committed
  second_committed-Keeps dials tx_id store_id answer reply =
      let failed = aborted (commit_reason py fl setting reply) in
      if-Keeps P (is_ok py reply) _ _ (tree_committed-Keeps dials store_id answer) (
        bind-Keeps P (failed >> tree_abort py fl setting tx_id) _
          (bind-Keeps P failed _ (steady.on_abort _)
            (λ _. tree_abort-Keeps py fl setting P steady tx_id))
          (λ _. pure-Keeps P none))

  second_checked-Keeps :
      (dials : ℕ → Dial) (tx_id : String) (branch_id : ℤ) (store_id : String)
      (answer : Json F × Option String) (verdict : Verdict F)
      → Keeps P (second_checked py fl setting dials tx_id branch_id store_id answer verdict)
  unfolding second_checked
  second_checked-Keeps dials tx_id branch_id store_id answer verdict =
      if-Keeps P verdict.constraints_ok _ _
        (bind-Keeps P (put_and_commit py fl setting tx_id branch_id answer.1) _
          (put_and_commit-Keeps py fl setting P steady tx_id branch_id answer.1)
          (second_committed-Keeps dials tx_id store_id answer))
        (refused-Keeps py fl setting P steady tx_id store_id verdict.reason)

  first_committed-Keeps :
      (dials : ℕ → Dial) (tx_id : String) (branch_id : ℤ) (store_id : String)
      (answer : Json F × Option String) (reply : Fields F)
      → Keeps P (first_committed py fl setting dials tx_id branch_id store_id answer reply)
  unfolding first_committed
  first_committed-Keeps dials tx_id branch_id store_id answer reply =
      let failed = aborted (commit_reason py fl setting reply) in
      let check = refresh_and_check py fl setting tx_id branch_id store_id in
      if-Keeps P (is_ok py reply) _ _ (tree_committed-Keeps dials store_id answer) (
        bind-Keeps P (failed >> retried >> one_more_round >> check) _
          (bind-Keeps P (failed >> retried >> one_more_round) _
            (bind-Keeps P (failed >> retried) _
              (bind-Keeps P failed _ (steady.on_abort _) (λ _. steady.on_retry))
              (λ _. tree_steady.on_round))
            (λ _. refresh_and_check-Keeps py fl setting P steady tx_id branch_id store_id))
          (second_checked-Keeps dials tx_id branch_id store_id answer))

  first_checked-Keeps :
      (dials : ℕ → Dial) (tx_id : String) (branch_id : ℤ) (store_id : String) (verdict : Verdict F)
      → Keeps P (first_checked py fl setting dials tx_id branch_id store_id verdict)
  unfolding first_checked
  first_checked-Keeps dials tx_id branch_id store_id verdict =
      if-Keeps P verdict.constraints_ok _ _
        (bind-Keeps P (lift (order_array_from_submit_args py (object setting.expected.order))) _
          (lift-Keeps P _)
          (λ submission.
            let answer = answer_of py fl setting submission in
            bind-Keeps P (put_and_commit py fl setting tx_id branch_id answer.1) _
              (put_and_commit-Keeps py fl setting P steady tx_id branch_id answer.1)
              (first_committed-Keeps dials tx_id branch_id store_id answer)))
        (refused-Keeps py fl setting P steady tx_id store_id verdict.reason)

  winner_chosen-Keeps :
      (dials : ℕ → Dial) (tx_id : String) (choice : Option (ℤ × String))
      → Keeps P (winner_chosen py fl setting dials tx_id choice)
  unfolding winner_chosen
  winner_chosen-Keeps dials tx_id none =
      bind-Keeps P (tree_abort py fl setting tx_id) _
        (tree_abort-Keeps py fl setting P steady tx_id)
        (λ _. bind-Keeps P (gets (λ (s : Run F). s.abort_reason)) _ (gets-Keeps P _) (λ reason.
          bind-Keeps P no_branch _ tree_steady.on_no_branch (λ _.
            bind-Keeps P (gave_up_for py (or_reason py fl setting reason "NO_BRANCH_CREATED")) _
              (pure-Keeps P _) (λ result. pure-Keeps P (some result)))))
  winner_chosen-Keeps dials tx_id (some (branch_id, store_id)) =
      let args = fields (("tx_id", str tx_id) ∷ ("branch_id", int branch_id) ∷ []) in
      bind-Keeps P (modify (λ (s : Run F). record s { winner_store_id = store_id })) _
        (tree_steady.on_store store_id)
        (λ _.
          bind-Keeps P (hotspot_bump fl setting) _ (hotspot_bump-Keeps py P steady fl setting) (λ _.
            bind-Keeps P first_round _ tree_steady.on_first_round (λ _.
              bind-Keeps P (call py setting Tool.tree_tx_winner "tree_tx_winner" args) _
                (call-Keeps py P steady setting Tool.tree_tx_winner "tree_tx_winner" args)
                (λ _.
                  bind-Keeps P (refresh_and_check py fl setting tx_id branch_id store_id) _
                    (refresh_and_check-Keeps py fl setting P steady tx_id branch_id store_id)
                    (first_checked-Keeps dials tx_id branch_id store_id)))))

  tree_body-Keeps :
      (dials : ℕ → Dial) (tx_id : String) (candidates : List String)
      → Keeps P (tree_body py fl setting dials tx_id candidates)
  unfolding tree_body
  tree_body-Keeps dials tx_id candidates =
      bind-Keeps P (explore_branches py fl setting tx_id candidates) _
        (explore_branches-Keeps py fl setting P steady tx_id candidates)
        (λ payloads.
          bind-Keeps P (lift (select_winner_payload py fl (values_of py fl setting payloads))) _
            (lift-Keeps P _)
            (λ winner.
              let store_id = store_id_of py fl setting winner in
              bind-Keeps P (modify (λ (s : Run F). record s { winner_store_id = store_id })) _
                (tree_steady.on_store store_id)
                (λ _.
                  winner_chosen-Keeps dials tx_id (winner_branch py fl setting store_id payloads))))

  tree_ended-Keeps :
      (tx_id : String) (result : Option (Ending F))
      → Keeps P (tree_ended py fl setting tx_id result)
  unfolding tree_ended
  tree_ended-Keeps tx_id (some result) = pure-Keeps P result
  tree_ended-Keeps tx_id none =
      bind-Keeps P (catch (tree_abort py fl setting tx_id) (λ _. pure tt)) _
        (catch-Keeps P (tree_abort py fl setting tx_id) _
          (tree_abort-Keeps py fl setting P steady tx_id) (λ _. pure-Keeps P tt))
        (λ _.
          bind-Keeps P (gets (λ (s : Run F). s.winner_store_id)) _ (gets-Keeps P _)
            (gave_up-Keeps py P))

  tree_started-Keeps :
      (dials : ℕ → Dial) (candidates : List String) (reply : Fields F)
      → Keeps P (tree_started py fl setting dials candidates reply)
  unfolding tree_started
  tree_started-Keeps dials candidates reply =
      let tx_id = text_at py fl setting "tx_id" reply in
      let body = tree_body py fl setting dials tx_id candidates in
      let caught = catch body (λ message. aborted (str message) >> pure none) in
      let reason = field_or "error" (str "TREE_TX_START_FAILED") reply in
      if-Keeps P (is_ok py reply) _ _
        (bind-Keeps P (explore_attempt >> caught) _
          (bind-Keeps P explore_attempt _ steady.on_explore (λ _.
            catch-Keeps P body _ (tree_body-Keeps dials tx_id candidates) (λ message.
              bind-Keeps P (aborted (str message)) _ (steady.on_abort _) (λ _. pure-Keeps P none))))
          (tree_ended-Keeps tx_id))
        (bind-Keeps P (aborted reason) _ (steady.on_abort reason)
          (λ _. gave_up_for-Keeps py P reason))

  pub tree_run-Keeps :
      (dials : ℕ → Dial) (candidates : List String)
      → Keeps P (tree_run py fl setting dials candidates)
  unfolding tree_run
  tree_run-Keeps dials candidates =
      bind-Keeps P (call py setting Tool.tree_tx_start "tree_tx_start" end) _
        (call-Keeps py P steady setting Tool.tree_tx_start "tree_tx_start" end)
        (tree_started-Keeps dials candidates)
