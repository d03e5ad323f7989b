-- ===== src/Delivery/Agent/TreeReports.antt =====
-- What the tree mode (Agent/vitabench_delivery.py) reports, and the run as a whole.
use dbagent_tree.Prelude.{
  ℕ, String, Option, none, some, List, [], ◌∷◌, ℤ, refl, inl, nat_eq, string_eq,
}
use dbagent_tree.Exec.{pure, gets, lift, modify, ◌>>=◌, ◌>>◌, catch}
use dbagent_tree.Client.Session.{Dial}
use dbagent_tree.Tools.Json.{Json, Fields, str, int, object, end, fields, field_or}
use dbagent_tree.Tools.Python.{Python}
use dbagent_tree.Tools.Router.{Tool}
use dbagent_tree.Delivery.Floats.{Floats}
use dbagent_tree.Delivery.Orders.{order_array_from_submit_args}
use dbagent_tree.Delivery.Winner.{select_winner_payload}
use dbagent_tree.Delivery.Recheck.{Verdict}
use dbagent_tree.Delivery.Agent.{
  Run, Setting, Ending, aborted, recheck_failed, retried, explore_attempt, hotspot_bump,
  first_round, one_more_round, no_branch, call, is_ok, gave_up, gave_up_for, submitted,
}
use dbagent_tree.Delivery.Agent.Baseline.{text_at, answer_of, or_reason}
use dbagent_tree.Delivery.Agent.TreeRun.{explore_branches}
use dbagent_tree.Delivery.Agent.TreeWinner.{
  store_id_of, values_of, winner_branch, refresh_and_check, tree_abort, refused, put_and_commit,
  tree_committed, commit_reason, second_committed, second_checked, first_committed, first_checked,
  winner_chosen, tree_body, tree_ended, tree_started, tree_run,
}
use dbagent_tree.Delivery.Agent.TreeKeeping.{
  explore_branches-Keeps, refresh_and_check-Keeps, tree_abort-Keeps, put_and_commit-Keeps,
}
use dbagent_tree.Delivery.Agent.Steady.{
  Steady, TreeSteady, call-Keeps, gets-Keeps, lift-Keeps, bind-Keeps, pure-Keeps, catch-Keeps,
  hotspot_bump-Keeps,
}
use dbagent_tree.Delivery.Agent.Reports.{
  HasCommits, HasCommits-Steady, HasCommits-TreeSteady, IsHonest, IsLoop, Outcome, Reports,
  then-Reports, bind-Reports, catch-Reports, if-Reports, pure-Reports, gave_up-Reports,
  gave_up_for-Reports, after_commit, some_result,
}

module _ {F : Type 0} (py : Python F) (fl : Floats F) (setting : Setting F) where
  abbrev Zero : Run F → Type 0
  Zero = HasCommits 0

  steady : Steady py (HasCommits 0)
  steady = HasCommits-Steady py 0

  tree_steady : TreeSteady (HasCommits {F = F} 0)
  tree_steady = HasCommits-TreeSteady 0

  refused-Reports :
      (tx_id store_id reason : String)
      → Reports IsLoop (refused py fl setting tx_id store_id reason)
  unfolding refused
  refused-Reports tx_id store_id reason =
      bind-Reports IsLoop (recheck_failed reason) _ (steady.on_recheck reason) (λ _.
        bind-Reports IsLoop (tree_abort py fl setting tx_id) _
          (tree_abort-Keeps py fl setting Zero steady tx_id)
          (λ _. some_result (gave_up py store_id) (gave_up-Reports py store_id)))

  tree_committed-Reports :
      (dials : ℕ → Dial) (store_id : String) (answer : Json F × Option String)
      → Reports IsLoop (tree_committed py fl setting dials store_id answer)
  unfolding tree_committed
  tree_committed-Reports dials store_id answer =
      after_commit py fl setting IsLoop dials answer
        (λ loaded. submitted py loaded.0 loaded.1 store_id >>= λ result. pure (some result))
        (λ loaded s p. inl (refl, p))

  second_committed-Reports :
      (dials : ℕ → Dial) (tx_id store_id : String) (answer : Json F × Option String)
      (reply : Fields F)
      → Reports IsLoop (second_committed py fl setting dials tx_id store_id answer reply)
  unfolding second_committed
  second_committed-Reports dials tx_id store_id answer reply =
      let failed = aborted (commit_reason py fl setting reply) in
      if-Reports IsLoop (is_ok py reply) _ _ (tree_committed-Reports dials store_id answer) (
        bind-Reports IsLoop (failed >> tree_abort py fl setting tx_id) _
          (bind-Keeps Zero failed _ (steady.on_abort _)
            (λ _. tree_abort-Keeps py fl setting Zero steady tx_id))
          (λ _. pure-Reports IsLoop none (λ s p. p)))

  second_checked-Reports :
      (dials : ℕ → Dial) (tx_id : String) (branch_id : ℤ) (store_id : String)
      (answer : Json F × Option String) (verdict : Verdict F)
      → Reports IsLoop (second_checked py fl setting dials tx_id branch_id store_id answer verdict)
  unfolding second_checked
  second_checked-Reports dials tx_id branch_id store_id answer verdict =
      if-Reports IsLoop verdict.constraints_ok _ _
        (bind-Reports IsLoop (put_and_commit py fl setting tx_id branch_id answer.1) _
          (put_and_commit-Keeps py fl setting Zero steady tx_id branch_id answer.1)
          (second_committed-Reports dials tx_id store_id answer))
        (refused-Reports tx_id store_id verdict.reason)

  first_committed-Reports :
      (dials : ℕ → Dial) (tx_id : String) (branch_id : ℤ) (store_id : String)
      (answer : Json F × Option String) (reply : Fields F)
      → Reports IsLoop (first_committed py fl setting dials tx_id branch_id store_id answer reply)
  unfolding first_committed
  first_committed-Reports dials tx_id branch_id store_id answer reply =
      let failed = aborted (commit_reason py fl setting reply) in
      let check = refresh_and_check py fl setting tx_id branch_id store_id in
      if-Reports IsLoop (is_ok py reply) _ _ (tree_committed-Reports dials store_id answer) (
        bind-Reports IsLoop (failed >> retried >> one_more_round >> check) _
          (bind-Keeps Zero (failed >> retried >> one_more_round) _
            (bind-Keeps Zero (failed >> retried) _
              (bind-Keeps Zero failed _ (steady.on_abort _) (λ _. steady.on_retry))
              (λ _. tree_steady.on_round))
            (λ _. refresh_and_check-Keeps py fl setting Zero steady tx_id branch_id store_id))
          (second_checked-Reports dials tx_id branch_id store_id answer))

  first_checked-Reports :
      (dials : ℕ → Dial) (tx_id : String) (branch_id : ℤ) (store_id : String) (verdict : Verdict F)
      → Reports IsLoop (first_checked py fl setting dials tx_id branch_id store_id verdict)
  unfolding first_checked
  first_checked-Reports dials tx_id branch_id store_id verdict =
      if-Reports IsLoop verdict.constraints_ok _ _
        (bind-Reports IsLoop
          (lift (order_array_from_submit_args py (object setting.expected.order))) _
          (lift-Keeps Zero _)
          (λ submission.
            let answer = answer_of py fl setting submission in
            bind-Reports IsLoop (put_and_commit py fl setting tx_id branch_id answer.1) _
              (put_and_commit-Keeps py fl setting Zero steady tx_id branch_id answer.1)
              (first_committed-Reports dials tx_id branch_id store_id answer)))
        (refused-Reports tx_id store_id verdict.reason)

  winner_chosen-Reports :
      (dials : ℕ → Dial) (tx_id : String) (choice : Option (ℤ × String))
      → Reports IsLoop (winner_chosen py fl setting dials tx_id choice)
  unfolding winner_chosen
  winner_chosen-Reports dials tx_id none =
      bind-Reports IsLoop (tree_abort py fl setting tx_id) _
        (tree_abort-Keeps py fl setting Zero steady tx_id)
        (λ _.
          bind-Reports IsLoop (gets (λ (s : Run F). s.abort_reason)) _ (gets-Keeps Zero _)
            (λ reason. bind-Reports IsLoop no_branch _ tree_steady.on_no_branch (λ _.
              some_result (gave_up_for py (or_reason py fl setting reason "NO_BRANCH_CREATED"))
                (gave_up_for-Reports py _))))
  winner_chosen-Reports dials tx_id (some (branch_id, store_id)) =
      let args = fields (("tx_id", str tx_id) ∷ ("branch_id", int branch_id) ∷ []) in
      bind-Reports IsLoop (modify (λ (s : Run F). record s { winner_store_id = store_id })) _
        (tree_steady.on_store store_id)
        (λ _.
          bind-Reports IsLoop (hotspot_bump fl setting) _
            (hotspot_bump-Keeps py Zero steady fl setting)
            (λ _. bind-Reports IsLoop first_round _ tree_steady.on_first_round (λ _.
              bind-Reports IsLoop (call py setting Tool.tree_tx_winner "tree_tx_winner" args) _
                (call-Keeps py Zero steady setting Tool.tree_tx_winner "tree_tx_winner" args)
                (λ _.
                  bind-Reports IsLoop (refresh_and_check py fl setting tx_id branch_id store_id) _
                    (refresh_and_check-Keeps py fl setting Zero steady tx_id branch_id store_id)
                    (first_checked-Reports dials tx_id branch_id store_id)))))

  tree_body-Reports :
      (dials : ℕ → Dial) (tx_id : String) (candidates : List String)
      → Reports IsLoop (tree_body py fl setting dials tx_id candidates)
  unfolding tree_body
  tree_body-Reports dials tx_id candidates =
      bind-Reports IsLoop (explore_branches py fl setting tx_id candidates) _
        (explore_branches-Keeps py fl setting Zero steady tx_id candidates)
        (λ payloads.
          bind-Reports IsLoop
            (lift (select_winner_payload py fl (values_of py fl setting payloads))) _
            (lift-Keeps Zero _)
            (λ winner.
              let store_id = store_id_of py fl setting winner in
              bind-Reports IsLoop (modify (λ (s : Run F). record s { winner_store_id = store_id }))
                _ (tree_steady.on_store store_id)
                (λ _.
                  winner_chosen-Reports dials tx_id
                    (winner_branch py fl setting store_id payloads))))

  tree_ended-Reports :
      (tx_id : String) (result : Option (Ending F)) (s : Run F)
      → IsLoop result s
      → Outcome IsHonest
          ((tree_ended py fl setting tx_id result s).0, (tree_ended py fl setting tx_id result s).1)
  unfolding tree_ended
  tree_ended-Reports tx_id (some e) s p = p
  tree_ended-Reports tx_id none s p =
      (bind-Reports IsHonest (catch (tree_abort py fl setting tx_id) (λ _. pure tt))
          (λ _. gets (λ (s : Run F). s.winner_store_id) >>= gave_up py)
          (catch-Keeps Zero (tree_abort py fl setting tx_id) _
            (tree_abort-Keeps py fl setting Zero steady tx_id) (λ _. pure-Keeps Zero tt))
          (λ _.
            bind-Reports IsHonest (gets (λ (s : Run F). s.winner_store_id)) _ (gets-Keeps Zero _)
              (gave_up-Reports py))).reports
        s p

  tree_started-Reports :
      (dials : ℕ → Dial) (candidates : List String) (reply : Fields F)
      → Reports IsHonest (tree_started py fl setting dials candidates reply)
  unfolding tree_started
  tree_started-Reports dials candidates reply =
      let tx_id = text_at py fl setting "tx_id" reply in
      let body = tree_body py fl setting dials tx_id candidates in
      let caught = catch body (λ message. aborted (str message) >> pure none) in
      let reason = field_or "error" (str "TREE_TX_START_FAILED") reply in
      if-Reports IsHonest (is_ok py reply) _ _
        (then-Reports IsHonest IsLoop (explore_attempt >> caught) _
          (bind-Reports IsLoop explore_attempt _ steady.on_explore (λ _.
            catch-Reports IsLoop body _ (tree_body-Reports dials tx_id candidates) (λ message.
              bind-Reports IsLoop (aborted (str message)) _ (steady.on_abort _)
                (λ _. pure-Reports IsLoop none (λ s p. p)))))
          (tree_ended-Reports tx_id))
        (bind-Reports IsHonest (aborted reason) _ (steady.on_abort reason)
          (λ _. gave_up_for-Reports py reason))

  pub tree_run-Reports :
      (dials : ℕ → Dial) (candidates : List String)
      → Reports IsHonest (tree_run py fl setting dials candidates)
  unfolding tree_run
  tree_run-Reports dials candidates =
      bind-Reports IsHonest (call py setting Tool.tree_tx_start "tree_tx_start" end) _
        (call-Keeps py Zero steady setting Tool.tree_tx_start "tree_tx_start" end)
        (tree_started-Reports dials candidates)
