-- ===== src/Delivery/Agent/Reference.antt =====
-- `_reference_agent_run` of Agent/vitabench_delivery.py as a whole: the two first calls, the
-- candidates, and one of the two modes.
use dbagent_tree.Prelude.{
  ℕ, String, false, List, [], ◌∷◌, ℤ, string_eq, ◌==◌, length, Option, if◌then◌else◌,
}
use dbagent_tree.Exec.{Result, ok, err, hang, Exec, pure, lift, ◌>>=◌, ◌>>◌}
use dbagent_tree.Exec.Results
use dbagent_tree.Client.Session.{Dial}
use dbagent_tree.Client.State.{Client}
use dbagent_tree.Tools.Json.{Json, Fields, bool, str, array, nil, fields, field?, field_or, to_list}
use dbagent_tree.Tools.Python.{Python, str_of}
use dbagent_tree.Tools.Router.{Tool, Surroundings}
use dbagent_tree.Delivery.{choose_candidate_store_ids}
use dbagent_tree.Delivery.Projection.{or_raised}
use dbagent_tree.Delivery.Floats.{Floats}
use dbagent_tree.Delivery.Orders.{
  required_order, find_store_and_product_ids, expected_product_profile,
}
use dbagent_tree.Delivery.Evaluate.{as_dict}
use dbagent_tree.Delivery.Ranking.{Unicode}
use dbagent_tree.Delivery.Recheck.{Expected}
use dbagent_tree.Delivery.Agent.{Run, Setting, Ending, call, is_ok, gave_up_for}
use dbagent_tree.Delivery.Agent.Baseline.{baseline_run}
use dbagent_tree.Delivery.Agent.TreeWinner.{tree_run}

-- The arguments of the run besides the task, and what the surroundings give to it. `fuel` bounds the
-- rounds of the baseline's winner.
pub record RunArgs (F : Type 0) : Type 0 where
  pub namespace : String
  pub mode : String
  pub top_k : ℤ
  pub contention_profile : String
  pub interference : Option (String → Client → Client)
  pub hotspot_probability : F
  pub baseline_winner_retry_policy : String
  pub baseline_winner_max_attempts : ℤ
  pub unicode : Unicode
  pub net : ℕ → Surroundings
  pub dials : ℕ → Dial
  pub draw : F
  pub fuel : ℕ

-- `_build_agent_result`: the ending, the number of the candidates, and the variables at that time.
pub record AgentResult (F : Type 0) : Type 0 where
  pub ending : Ending F
  pub candidate_count : ℕ
  pub variables : Run F

module _ {F : Type 0} (py : Python F) (fl : Floats F) where
  -- The variables at the start.
  unfoldable pub new_run : Json F → Client → Run F
  new_run instructions client = record {
    client = client;
    trace = [];
    messages =
        fields (
          ("role", str "system")
          ∷ ("content", str "Deterministic no-agent executor for Tree-DB VitaBench experiments.")
          ∷ [])
        ∷ fields (("role", str "user") ∷ ("content", instructions) ∷ [])
        ∷ [];
    abort_reason = str "";
    abort_reasons = [];
    semantic_recheck_reasons = [];
    retry_count = 0;
    abort_count = 0;
    semantic_recheck_fail_count = 0;
    committed_attempts = 0;
    rolled_back_attempts = 0;
    txn_attempts = 0;
    interference_bumps = 0;
    explore_txn_attempts = 0;
    winner_txn_attempts = 0;
    winner_commit_rounds = 0;
    candidate_payloads = [];
    winner_hotspot_bumped = false;
    winner_store_id = "";
  }

  abbrev dicts : List (Json F) → Result (List (Fields F))
  dicts [] = ok []
  dicts (x ∷ xs) =
      Results.◌>>=◌ (as_dict x) (λ fs. Results.◌>>=◌ (dicts xs) (λ rest. ok (fs ∷ rest)))

  abbrev stores_in : Json F → Result (List (Fields F))
  stores_in (array xs) = dicts (to_list xs)
  stores_in _ = err "stores are not a list"

  -- `stores_result.get("stores", []) if stores_result.get("ok") else []`
  abbrev pub stores_of : Fields F → Result (List (Fields F))
  stores_of reply =
      if is_ok py reply then stores_in (field_or "stores" (array nil) reply) else ok []

  -- What the task is reduced to.
  abbrev expected_of : Fields F → Result (String × Expected F)
  expected_of task = Results.◌>>=◌ (required_order py task) (λ j.
      Results.◌>>=◌ (find_store_and_product_ids py task) (λ ids.
        Results.◌>>=◌ (expected_product_profile py task) (λ profile.
          Results.◌>>=◌ (as_dict j) (λ order.
            ok (ids.0, record { order = order; product_id = ids.1; profile = profile })))))

  abbrev pub setting_of : RunArgs F → Expected F → Setting F
  setting_of args expected = record {
    namespace = args.namespace;
    contention_profile = args.contention_profile;
    hotspot_probability = args.hotspot_probability;
    expected = expected;
    unicode = args.unicode;
    net = args.net;
    interference = args.interference;
    draw = args.draw;
  }

  -- One of the modes, on the candidates.
  unfoldable pub run_mode : RunArgs F → Setting F → List String → Exec (Run F) (Ending F)
  run_mode args setting [] = gave_up_for py (str "NO_CANDIDATE_STORE")
  run_mode args setting (store_id ∷ store_ids) =
      if args.mode == "baseline"
      then baseline_run py fl setting args.fuel args.dials args.baseline_winner_retry_policy
          args.baseline_winner_max_attempts (store_id ∷ store_ids)
      else tree_run py fl setting args.dials (store_id ∷ store_ids)

  -- The run on its variables, with the number of the candidates.
  unfoldable pub reference_steps :
      RunArgs F → Setting F → String → String → Exec (Run F) (Ending F × ℕ)
  reference_steps args setting task_id expected_store_id = do
    let ids = ("namespace", str args.namespace) ∷ ("task_id", str task_id) ∷ []
    call py setting Tool.get_task_context "get_task_context" (fields ids)
    reply ← call py setting Tool.list_candidate_stores "list_candidate_stores" (
        fields (
          ("namespace", str args.namespace)
          ∷ ("task_id", str task_id)
          ∷ ("include_details", bool false)
          ∷ []))
    stores ← lift (stores_of reply)
    let candidates = choose_candidate_store_ids py stores expected_store_id args.top_k
    result ← run_mode args setting candidates
    pure (result, length candidates)

  -- The result from the variables at the end.
  abbrev pub agent_result : Result (Ending F × ℕ) × Run F → Result (AgentResult F) × Client
  agent_result (r, s) = (
    Results.◌>>=◌ r (λ x. ok (record { ending = x.0; candidate_count = x.1; variables = s })),
    s.client,
  )

  -- The task's id, its order's store, and what the run expects.
  abbrev pub prepared : Fields F → Result (String × String × Expected F)
  prepared task = Results.◌>>=◌ (or_raised (field? "id" task) "'id'") (λ id.
      Results.◌>>=◌ (expected_of task)
        (λ (store_id, expected). ok (str_of py id, store_id, expected)))

  abbrev pub run_prepared :
      RunArgs F
      → Json F
      → Client
      → Result (String × String × Expected F)
      → Result (AgentResult F) × Client
  run_prepared args instructions client (ok (task_id, store_id, expected)) = agent_result (
      reference_steps args (setting_of args expected) task_id store_id
        (new_run instructions client))
  run_prepared args instructions client (err m) = (err m, client)
  run_prepared args instructions client hang = (hang, client)

  unfoldable pub reference_agent_run : RunArgs F → Fields F → Exec Client (AgentResult F)
  reference_agent_run args task client =
      run_prepared args (field_or "instructions" (str "") task) client (prepared task)
