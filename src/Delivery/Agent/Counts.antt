-- ===== src/Delivery/Agent/Counts.antt =====
-- The counters of `_reference_agent_run` (Agent/vitabench_delivery.py) in its result.
use dbagent_tree.Prelude.{
  ℕ, zero, suc, ◌+◌, ◌*◌, ◌≡◌, refl, sym, ap, String, false, List, [], ◌∷◌, arith, string_eq, ◌==◌,
  length,
}
use dbagent_tree.Prelude.ListLaws.{length-append_one, length-append_two}
use dbagent_tree.Exec.{Result, ok, err, hang, lift}
use dbagent_tree.Client.State.{Client}
use dbagent_tree.Tools.Json.{Json, Fields, str, bool, fields, field_or}
use dbagent_tree.Tools.Python.{Python}
use dbagent_tree.Tools.Router.{Tool}
use dbagent_tree.Delivery.{choose_candidate_store_ids}
use dbagent_tree.Delivery.Floats.{Floats}
use dbagent_tree.Delivery.Recheck.{Expected}
use dbagent_tree.Delivery.Agent.{
  Run, Setting, Ending, committed, record_tool, call, at_least_one, or_no_branch,
}
use dbagent_tree.Delivery.Agent.Baseline.Winning.{baseline_run-Keeps}
use dbagent_tree.Delivery.Agent.TreeWinning.{tree_run-Keeps}
use dbagent_tree.Delivery.Agent.Reference.{
  RunArgs, AgentResult, new_run, stores_of, prepared, setting_of, run_mode, reference_steps,
  agent_result, run_prepared, reference_agent_run,
}
use dbagent_tree.Delivery.Agent.Steady.{
  Keeps, Steady, TreeSteady, bind-Keeps, pure-Keeps, lift-Keeps, if-Keeps, call-Keeps,
  gave_up_for-Keeps,
}

module _ {F : Type 0} where
  -- An abort has its reason, so has a refused winner, and a call of a tool has its two messages.
  abbrev pub IsCounted : Run F → Type 0
  IsCounted s =
      (s.abort_count ≡ length s.abort_reasons)
      × (s.semantic_recheck_fail_count ≡ length s.semantic_recheck_reasons)
      × (length s.messages ≡ 2 + 2 * length s.trace)

  IsCounted-Steady : (py : Python F) → Steady py IsCounted
  unfolding record_tool
  IsCounted-Steady py = record {
    on_client = λ c s p. p;
    on_record = λ name args result. record {
      keeps = λ s (aborts, rechecks, messages). (
        aborts,
        rechecks,
        omega (arith, messages, length-append_one s.trace _, length-append_two s.messages _ _),
      );
    };
    on_abort = λ reason. record {
      keeps = λ s (aborts, rechecks, messages).
          (omega (arith, aborts, length-append_one s.abort_reasons reason), rechecks, messages);
    };
    on_recheck = λ reason. record {
      keeps = λ s (aborts, rechecks, messages). (
        aborts,
        omega (arith, rechecks, length-append_one s.semantic_recheck_reasons reason),
        messages,
      );
    };
    on_retry = record { keeps = λ s p. p };
    on_rollback = record { keeps = λ s p. p };
    on_explore = record { keeps = λ s p. p };
    on_winner = record { keeps = λ s p. p };
    on_payload = λ payload. record { keeps = λ s p. p };
    on_bump = record { keeps = λ s p. p };
    on_bumped = record { keeps = λ s p. p };
  }

  IsCounted-TreeSteady : TreeSteady (IsCounted)
  IsCounted-TreeSteady = record {
    on_store = λ store_id. record { keeps = λ s p. p };
    on_first_round = record { keeps = λ s p. p };
    on_round = record { keeps = λ s p. p };
    on_no_branch = record {
      keeps = λ s (aborts, rechecks, messages).
          (no_branch_counted s.abort_count s.abort_reasons aborts, rechecks, messages);
    };
  }
    where
      no_branch_counted :
          (n : ℕ) (reasons : List (Json F))
          → n ≡ length reasons
          → at_least_one n ≡ length (or_no_branch reasons)
      no_branch_counted zero [] h = refl
      no_branch_counted zero (r ∷ rs) h = absurd (omega arith)
      no_branch_counted (suc n) [] h = absurd (omega arith)
      no_branch_counted (suc n) (r ∷ rs) h = h

  committed-IsCounted : Keeps IsCounted (committed {F = F})
  committed-IsCounted = record { keeps = λ s p. p }

module _ {F : Type 0} (py : Python F) (fl : Floats F) where
  run_mode-IsCounted :
      (args : RunArgs F) (setting : Setting F) (candidates : List String)
      → Keeps IsCounted (run_mode py fl args setting candidates)
  unfolding run_mode
  run_mode-IsCounted args setting [] = gave_up_for-Keeps py IsCounted (str "NO_CANDIDATE_STORE")
  run_mode-IsCounted args setting (store_id ∷ store_ids) =
      if-Keeps IsCounted (args.mode == "baseline") _ _
        (baseline_run-Keeps py fl setting IsCounted (IsCounted-Steady py) committed-IsCounted
          args.fuel args.dials args.baseline_winner_retry_policy args.baseline_winner_max_attempts
          (store_id ∷ store_ids))
        (tree_run-Keeps py fl setting IsCounted (IsCounted-Steady py) IsCounted-TreeSteady
          committed-IsCounted args.dials (store_id ∷ store_ids))

  reference_steps-IsCounted :
      (args : RunArgs F) (setting : Setting F) (task_id expected_store_id : String)
      → Keeps IsCounted (reference_steps py fl args setting task_id expected_store_id)
  unfolding reference_steps
  reference_steps-IsCounted args setting task_id store_id =
      let ids = ("namespace", str args.namespace) ∷ ("task_id", str task_id) ∷ [] in
      let list_args = fields (
        ("namespace", str args.namespace)
        ∷ ("task_id", str task_id)
        ∷ ("include_details", bool false)
        ∷ []) in
      let steady = IsCounted-Steady py in
      bind-Keeps IsCounted (call py setting Tool.get_task_context "get_task_context" (fields ids)) _
        (call-Keeps py IsCounted steady setting Tool.get_task_context "get_task_context" _)
        (λ _.
          bind-Keeps IsCounted
            (call py setting Tool.list_candidate_stores "list_candidate_stores" list_args) _
            (call-Keeps py IsCounted steady setting Tool.list_candidate_stores
              "list_candidate_stores" _)
            (λ reply.
              bind-Keeps IsCounted (lift (stores_of py fl reply)) _ (lift-Keeps IsCounted _)
                (λ stores.
                  let candidates = choose_candidate_store_ids py stores store_id args.top_k in
                  bind-Keeps IsCounted (run_mode py fl args setting candidates) _
                    (run_mode-IsCounted args setting candidates)
                    (λ result. pure-Keeps IsCounted (result, length candidates)))))

  agent_result-variables :
      (r : Result (Ending F × ℕ)) (s : Run F) (result : AgentResult F)
      → (agent_result py fl (r, s)).0 ≡ ok result
      → result.variables ≡ s
  agent_result-variables (ok x) s result h =
      let e : record { ending = x.0; candidate_count = x.1; variables = s } ≡ result = cc in
      ap (λ (r : AgentResult F). r.variables) (sym e)
  agent_result-variables (err m) s result h = absurd (cc)
  agent_result-variables hang s result h = absurd (cc)

  run_prepared-IsCounted :
      (args : RunArgs F) (instructions : Json F) (client : Client)
      (r : Result (String × String × Expected F)) (result : AgentResult F)
      → (run_prepared py fl args instructions client r).0 ≡ ok result
      → IsCounted result.variables
  unfolding new_run
  run_prepared-IsCounted args instructions client (ok (task_id, store_id, expected)) result h =
      let setting = setting_of py fl args expected in
      let start = new_run py fl instructions client in
      let steps = reference_steps py fl args setting task_id store_id start in
      let counted =
        (reference_steps-IsCounted args setting task_id store_id).keeps start (refl, refl, refl) in
      rw (agent_result-variables steps.0 steps.1 result h) counted
  run_prepared-IsCounted args instructions client (err m) result h = absurd (cc)
  run_prepared-IsCounted args instructions client hang result h = absurd (cc)

  -- In the result of a run, in either mode: the count of the aborts is that of their reasons, the
  -- count of the refused winners is that of theirs, and beyond the first two messages there are two
  -- for each recorded call of a tool.
  pub reference_agent_run-IsCounted :
      (args : RunArgs F) (task : Fields F) (client : Client) (result : AgentResult F)
      → (reference_agent_run py fl args task client).0 ≡ ok result
      → IsCounted result.variables
  unfolding reference_agent_run
  reference_agent_run-IsCounted args task client result h =
      run_prepared-IsCounted args (field_or "instructions" (str "") task) client
        (prepared py fl task) result h
