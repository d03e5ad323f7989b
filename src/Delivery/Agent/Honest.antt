-- ===== src/Delivery/Agent/Honest.antt =====
-- What the result of `_reference_agent_run` (Agent/vitabench_delivery.py) says of its commits.
use dbagent_tree.Prelude.{ℕ, ◌≡◌, refl, String, false, List, [], ◌∷◌, string_eq, ◌==◌, length}
use dbagent_tree.Exec.{Result, ok, err, hang, pure, lift}
use dbagent_tree.Client.State.{Client}
use dbagent_tree.Tools.Json.{Json, Fields, str, bool, fields, field_or}
use dbagent_tree.Tools.Python.{Python}
use dbagent_tree.Tools.Router.{Tool}
use dbagent_tree.Delivery.{choose_candidate_store_ids}
use dbagent_tree.Delivery.Floats.{Floats}
use dbagent_tree.Delivery.Recheck.{Expected}
use dbagent_tree.Delivery.Agent.{Run, Setting, Ending, call}
use dbagent_tree.Delivery.Agent.Reference.{
  RunArgs, AgentResult, new_run, stores_of, prepared, setting_of, run_mode, reference_steps,
  agent_result, run_prepared, reference_agent_run,
}
use dbagent_tree.Delivery.Agent.Steady.{lift-Keeps, call-Keeps}
use dbagent_tree.Delivery.Agent.Reports.{
  HasCommits, HasCommits-Steady, IsHonest, Outcome, Reports, then-Reports, bind-Reports, if-Reports,
  gave_up_for-Reports,
}
use dbagent_tree.Delivery.Agent.BaselineReports.{baseline_run-Reports}
use dbagent_tree.Delivery.Agent.TreeReports.{tree_run-Reports}

module _ {F : Type 0} (py : Python F) (fl : Floats F) where
  run_mode-Reports :
      (args : RunArgs F) (setting : Setting F) (candidates : List String)
      → Reports IsHonest (run_mode py fl args setting candidates)
  unfolding run_mode
  run_mode-Reports args setting [] = gave_up_for-Reports py (str "NO_CANDIDATE_STORE")
  run_mode-Reports args setting (store_id ∷ store_ids) =
      if-Reports IsHonest (args.mode == "baseline") _ _
        (baseline_run-Reports py fl setting args.fuel args.dials args.baseline_winner_retry_policy
          args.baseline_winner_max_attempts (store_id ∷ store_ids))
        (tree_run-Reports py fl setting args.dials (store_id ∷ store_ids))

  -- The ending with the number of the candidates.
  abbrev IsHonestResult : Ending F × ℕ → Run F → Type 0
  IsHonestResult (e, n) s = IsHonest e s

  reference_steps-Reports :
      (args : RunArgs F) (setting : Setting F) (task_id expected_store_id : String)
      → Reports IsHonestResult (reference_steps py fl args setting task_id expected_store_id)
  unfolding reference_steps
  reference_steps-Reports args setting task_id store_id =
      let ids = ("namespace", str args.namespace) ∷ ("task_id", str task_id) ∷ [] in
      let list_args = fields (
        ("namespace", str args.namespace)
        ∷ ("task_id", str task_id)
        ∷ ("include_details", bool false)
        ∷ []) in
      let steady = HasCommits-Steady py 0 in
      bind-Reports IsHonestResult
        (call py setting Tool.get_task_context "get_task_context" (fields ids)) _
        (call-Keeps py (HasCommits 0) steady setting Tool.get_task_context "get_task_context" _)
        (λ _.
          bind-Reports IsHonestResult
            (call py setting Tool.list_candidate_stores "list_candidate_stores" list_args) _
            (call-Keeps py (HasCommits 0) steady setting Tool.list_candidate_stores
              "list_candidate_stores" _)
            (λ reply.
              bind-Reports IsHonestResult (lift (stores_of py fl reply)) _
                (lift-Keeps (HasCommits 0) _)
                (λ stores.
                  let candidates = choose_candidate_store_ids py stores store_id args.top_k in
                  then-Reports IsHonestResult IsHonest (run_mode py fl args setting candidates)
                    (λ result. pure (result, length candidates))
                    (run_mode-Reports args setting candidates) (λ e s p. p))))

  agent_result-IsHonest :
      (r : Result (Ending F × ℕ)) (s : Run F) (result : AgentResult F)
      → Outcome IsHonestResult (r, s)
      → (agent_result py fl (r, s)).0 ≡ ok result
      → IsHonest result.ending result.variables
  agent_result-IsHonest (ok x) s result p h =
      let e : result ≡ record { ending = x.0; candidate_count = x.1; variables = s } = cc in rw e p
  agent_result-IsHonest (err m) s result p h = absurd (cc)
  agent_result-IsHonest hang s result p h = absurd (cc)

  run_prepared-IsHonest :
      (args : RunArgs F) (instructions : Json F) (client : Client)
      (r : Result (String × String × Expected F)) (result : AgentResult F)
      → (run_prepared py fl args instructions client r).0 ≡ ok result
      → IsHonest result.ending result.variables
  unfolding new_run
  run_prepared-IsHonest args instructions client (ok (task_id, store_id, expected)) result h =
      let setting = setting_of py fl args expected in
      let start = new_run py fl instructions client in
      let steps = reference_steps py fl args setting task_id store_id start in
      agent_result-IsHonest steps.0 steps.1 result
        ((reference_steps-Reports args setting task_id store_id).reports start refl) h
  run_prepared-IsHonest args instructions client (err m) result h = absurd (cc)
  run_prepared-IsHonest args instructions client hang result h = absurd (cc)

  -- When a run returns, in either mode, it reports a submission and has counted one commit, or it
  -- reports none and has counted none; no exception comes between a commit and the report.
  pub reference_agent_run-IsHonest :
      (args : RunArgs F) (task : Fields F) (client : Client) (result : AgentResult F)
      → (reference_agent_run py fl args task client).0 ≡ ok result
      → IsHonest result.ending result.variables
  unfolding reference_agent_run
  reference_agent_run-IsHonest args task client result h =
      run_prepared-IsHonest args (field_or "instructions" (str "") task) client
        (prepared py fl task) result h
