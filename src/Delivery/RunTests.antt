-- ===== src/Delivery/RunTests.antt =====
-- Runs of `_reference_agent_run` of Agent/vitabench_delivery.py on the in-memory backend.
use native.Mathlib.Decide.{dec_lt}
use dbagent_tree.Prelude.{
  ◌≡◌, refl, String, true, false, Option, none, some, [], ◌∷◌, ℤ, pos, string_eq, ◌==◌, str_nat,
  str_int, arith, if◌then◌else◌,
}
use dbagent_tree.Dict.{lookup, insert, erase, update, contains}
use dbagent_tree.Exec.{ok}
use dbagent_tree.Mini
use dbagent_tree.Mini.Branches
use dbagent_tree.Client.Session.{refused}
use dbagent_tree.Client.State.{Client, using_mini}
use dbagent_tree.Client.Plain
use dbagent_tree.Client.Tree
use dbagent_tree.Client.Ending
use dbagent_tree.Text.Codes.{from_codes}
use dbagent_tree.Text.Words.{lstrip_by, rstrip_by, drop_while, strip}
use dbagent_tree.Tools.Json.{
  Json, str, object, array, fields, field?, field_or, items, set_field, update_fields, end,
}
use dbagent_tree.Tools.Python.{Python, truthy, str_of, to_int, to_float, text_or, stripped, int_arg}
use dbagent_tree.Tools.Reply.{ok_reply, err_reply, parse_json_value, task_key}
use dbagent_tree.Tools.Tx
use dbagent_tree.Tools.TreeTx
use dbagent_tree.Tools.Context
use dbagent_tree.Tools.Router.{run_tool}
use dbagent_tree.Delivery.{has, store_ids, set_last, dedupe, choose_ids, choose_candidate_store_ids}
use dbagent_tree.Delivery.Orders.{
  submitted_order, drop_field, required_order, product_ids, ids_of_stores, available_product_ids,
  profile_of, find_store_and_product_ids, expected_product_profile, order_array_from_submit_args,
}
use dbagent_tree.Delivery.Projection.{codes_leb}
use dbagent_tree.Delivery.Sorting.{insert_by, sorted}
use dbagent_tree.Delivery.Ranking.{
  tokens_from, common, normalized_tokens, jaccard_similarity, tag_tokens, score_product, best_of,
  candidate_product_from_store,
}
use dbagent_tree.Delivery.Winner.{
  parse_json_safely, candidate_summary_payload, candidate_rank_key, ranked, six_digits,
  select_winner_payload,
}
use dbagent_tree.Delivery.Recheck.{semantic_recheck_winner_payload}
use dbagent_tree.Delivery.Evaluate.{load_final_answer}
use dbagent_tree.Delivery.Agent.{Setting, schedule_hotspot_bump, record_tool, call}
use dbagent_tree.Delivery.Agent.Baseline
use dbagent_tree.Delivery.Agent.TreeRun
use dbagent_tree.Delivery.Agent.TreeWinner
use dbagent_tree.Delivery.Agent.Reference.{
  setting_of, RunArgs, AgentResult, new_run, run_mode, reference_steps, reference_agent_run,
}
use dbagent_tree.Delivery.Agent.Baseline.{winner_rounds}
use dbagent_tree.Delivery.Agent.Baseline.Rounds.{Ended, winner_rounds-Ended}
use dbagent_tree.Delivery.Agent.Honest.{reference_agent_run-IsHonest}
use dbagent_tree.Delivery.Agent.Reports.{IsHonest}
use dbagent_tree.Delivery.Agent.Counts.{IsCounted, reference_agent_run-IsCounted}
use dbagent_tree.Delivery.AnswerTests
use dbagent_tree.Delivery.AnswerTests.{answer, fl, task}

-- The entries of the store and of the product are read as dicts.
abbrev parsed : String → Option (Json ℤ)
parsed s =
    if s == "product"
    then some product
    else if s == "store"
    then some (object (fields (("products", array (items (product ∷ []))) ∷ [])))
    else if s == "[…]"
    then some answer
    else none
  where
    product : Json ℤ
    product = object (fields (("product_id", str "P1") ∷ ("name", str "tea") ∷ []))

abbrev py : Python ℤ
py = record AnswerTests.py { loads = parsed }

abbrev args : RunArgs ℤ
args = record {
  namespace = "n";
  mode = "baseline";
  top_k = pos 1;
  contention_profile = "none";
  interference = none;
  hotspot_probability = pos 0;
  baseline_winner_retry_policy = "fixed";
  baseline_winner_max_attempts = pos 2;
  unicode = record { lower = λ s. s; is_alnum = λ c. true };
  net = λ n. record {
    dial = refused "no route";
    dials = λ k m. refused "no route";
    uuid = "u";
    files = record {
      is_absolute = λ p. true;
      in_agent = λ p. p;
      exists = λ p. false;
      path_text = λ p. p;
    };
  };
  dials = λ n. refused "no route";
  draw = pos 0;
  fuel = 2;
}

abbrev setting : Setting ℤ
setting =
    setting_of py fl args (record { order = AnswerTests.order; product_id = "P1"; profile = end })

abbrev client : Client
client = record {
  backend = "mini";
  host = "127.0.0.1";
  port = pos 19091;
  allow_fallback = false;
  mini = record Mini.empty {
    store = ("n:store:S1:detail", "store") ∷ ("n:product:P1:detail", "product") ∷ [];
  };
  sessions = [];
  tree_sessions = [];
}

-- The baseline mode commits the order.
unfoldable baseline :
    (result : AgentResult ℤ) × ((reference_agent_run py fl args task client).0 ≡ ok result)
unfolding reference_agent_run required_order find_store_and_product_ids available_product_ids
    ids_of_stores product_ids has profile_of expected_product_profile new_run reference_steps
    run_mode call record_tool run_tool Context.get_task_context Context.read_json
    Context.list_candidate_stores Context.collect_stores Context.iterate stripped text_or str_of
    truthy to_int to_float strip from_codes field? field_or set_field update_fields ok_reply
    err_reply parse_json_value task_key lstrip_by rstrip_by drop_while lookup insert erase update
    contains Plain.kv_get using_mini Mini.kv_get choose_candidate_store_ids choose_ids store_ids
    set_last dedupe Baseline.baseline_run Baseline.explore Baseline.explore_started
    Baseline.explore_body Baseline.roll_back Baseline.baseline_get Baseline.baseline_put Tx.tx_start
    Tx.tx_get Tx.tx_put Tx.tx_commit Tx.tx_rollback Plain.start Plain.get Plain.put Plain.commit
    Plain.rollback Mini.start Mini.get Mini.put Mini.commit Mini.rollback Mini.require_tx
    parse_json_safely candidate_summary_payload candidate_product_from_store best_of score_product
    tag_tokens jaccard_similarity normalized_tokens common tokens_from select_winner_payload ranked
    candidate_rank_key six_digits sorted insert_by codes_leb Baseline.winner_rounds
    Baseline.winner_round Baseline.round_started Baseline.round_tried Baseline.winner_body
    Baseline.winner_checked Baseline.winner_committed schedule_hotspot_bump
    semantic_recheck_winner_payload order_array_from_submit_args submitted_order drop_field
    load_final_answer str_nat dec_lt
baseline = (_, refl)

baseline_commits :
    ((baseline.0).ending.submit_ok ≡ true)
    × ((baseline.0).ending.selected_store_id ≡ "S1")
    × ((baseline.0).ending.final_answer_raw ≡ some "[…]")
    × ((baseline.0).variables.committed_attempts ≡ 1)
unfolding baseline str_of
baseline_commits = (refl, refl, refl, refl)

-- The tree mode commits the order too.
unfoldable tree :
    (result : AgentResult ℤ) × ((reference_agent_run py fl
        (record args { mode = "tree" })
        task
        client).0
      ≡ ok result)
unfolding reference_agent_run required_order find_store_and_product_ids available_product_ids
    ids_of_stores product_ids has profile_of expected_product_profile new_run reference_steps
    run_mode call record_tool run_tool Context.get_task_context Context.read_json
    Context.list_candidate_stores Context.collect_stores Context.iterate stripped text_or str_of
    truthy to_int to_float strip from_codes field? field_or set_field update_fields ok_reply
    err_reply parse_json_value task_key lstrip_by rstrip_by drop_while lookup insert erase update
    contains Plain.kv_get using_mini Mini.kv_get choose_candidate_store_ids choose_ids store_ids
    set_last dedupe parse_json_safely candidate_summary_payload candidate_product_from_store best_of
    score_product tag_tokens jaccard_similarity normalized_tokens common tokens_from
    select_winner_payload ranked candidate_rank_key six_digits sorted insert_by codes_leb
    schedule_hotspot_bump semantic_recheck_winner_payload order_array_from_submit_args
    submitted_order drop_field load_final_answer str_nat TreeRun.make_branches TreeRun.read_requests
    TreeRun.read_stores TreeRun.payload_for TreeRun.add_branch TreeRun.make_payloads
    TreeRun.write_payloads TreeRun.explore_branches TreeWinner.branch_with TreeWinner.winner_branch
    TreeWinner.refresh TreeWinner.refresh_and_check TreeWinner.tree_abort TreeWinner.put_and_commit
    TreeWinner.tree_committed TreeWinner.first_committed TreeWinner.first_checked
    TreeWinner.winner_chosen TreeWinner.tree_body TreeWinner.tree_ended TreeWinner.tree_started
    TreeWinner.tree_run TreeTx.tree_tx_start TreeTx.tree_tx_branch TreeTx.tree_tx_get
    TreeTx.tree_tx_put TreeTx.tree_tx_winner TreeTx.tree_tx_refresh_winner TreeTx.commit_reply
    TreeTx.tree_tx_commit_retry TreeTx.tree_tx_abort Tree.tree_start Tree.tree_branch_many
    Tree.tree_get_many Tree.tree_put_many Tree.tree_select_winner Tree.tree_refresh_winner
    Tree.tree_get Tree.tree_put Tree.tree_branch Ending.tree_commit_retry Ending.tree_abort int_arg
    Branches.tstart Branches.require_tree_tx Branches.tbranch Branches.tbranch_rounds
    Branches.tbranch_many Branches.resolve_from Branches.resolve_branch_value Branches.tget
    Branches.tget_many Branches.tput Branches.tput_many Branches.twinner Branches.trefresh_winner
    Branches.lineage_from Branches.merge_into Branches.merge_lineage Branches.commit_winner
    Branches.tcommit_retry Branches.tabort dec_lt
tree = (_, refl)

tree_commits :
    ((tree.0).ending.submit_ok ≡ true)
    × ((tree.0).ending.selected_store_id ≡ "S1")
    × ((tree.0).ending.final_answer_raw ≡ some "[…]")
    × ((tree.0).variables.committed_attempts ≡ 1)
unfolding tree str_of str_int
tree_commits = (refl, refl, refl, refl)

winner_rounds-Ended_example :
    Ended
      (winner_rounds py fl setting 2 args.dials "S1" "fixed"
        (pos 2)
        0
        (new_run py fl (str "") client)).0
winner_rounds-Ended_example =
    winner_rounds-Ended py fl setting args.dials "S1" "fixed" (pos 2) 2
      (new_run py fl (str "") client) refl (omega arith)

reference_agent_run-IsHonest_example : IsHonest (baseline.0).ending (baseline.0).variables
reference_agent_run-IsHonest_example =
    reference_agent_run-IsHonest py fl args task client baseline.0 baseline.1

reference_agent_run-IsCounted_example : IsCounted (baseline.0).variables
reference_agent_run-IsCounted_example =
    reference_agent_run-IsCounted py fl args task client baseline.0 baseline.1
