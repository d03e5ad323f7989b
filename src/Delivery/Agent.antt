-- ===== src/Delivery/Agent.antt =====
-- The state of `_reference_agent_run` in Agent/vitabench_delivery.py, its recorded calls of tools,
-- and what it returns. The clock, the sleeping and the latencies are left out.
pub mod Baseline
pub mod TreeRun
pub mod TreeWinner
pub mod Reference
pub mod Steady
pub mod TreeKeeping
pub mod TreeWinning
pub mod Counts
pub mod Reports
pub mod BaselineReports
pub mod TreeReports
pub mod Honest
use Prim.Native.String
use mathlib.Core.List.{◌++◌}
use dbagent_tree.Prelude.{
  ℕ, zero, suc, ◌+◌, String, Bool, true, false, not, ◌||◌, ◌&&◌, Option, none, some, List, [], ◌∷◌,
  ℤ, pos, ltb, string_eq, ◌==◌, length, if◌then◌else◌,
}
use dbagent_tree.Exec.{Result, ok, err, hang, Exec, pure, gets, lift, modify, ◌>>=◌, ◌>>◌}
use dbagent_tree.Client.State.{Client}
use dbagent_tree.Tools.Json.{
  Json, Fields, null, bool, int, str, array, object, nil, end, field, fields, field_or, items,
}
use dbagent_tree.Tools.Python.{Python, truthy, str_of}
use dbagent_tree.Tools.Reply.{task_key}
use dbagent_tree.Tools.Tx.{Reply}
use dbagent_tree.Tools.Router.{Tool, Surroundings, run_tool}
use dbagent_tree.Delivery.Floats.{Floats}
use dbagent_tree.Delivery.Ranking.{Unicode}
use dbagent_tree.Delivery.Recheck.{Expected}

-- An entry of `trace`.
pub record Entry (F : Type 0) : Type 0 where
  pub tool : String
  pub args : Fields F
  pub result : Fields F

-- The local variables of the run, and the client that its tools work on.
pub record Run (F : Type 0) : Type 0 where
  pub client : Client
  pub trace : List (Entry F)
  pub messages : List (Fields F)
  pub abort_reason : Json F
  pub abort_reasons : List (Json F)
  pub semantic_recheck_reasons : List String
  pub retry_count : ℕ
  pub abort_count : ℕ
  pub semantic_recheck_fail_count : ℕ
  pub committed_attempts : ℕ
  pub rolled_back_attempts : ℕ
  pub txn_attempts : ℕ
  pub interference_bumps : ℕ
  pub explore_txn_attempts : ℕ
  pub winner_txn_attempts : ℕ
  pub winner_commit_rounds : ℕ
  pub candidate_payloads : List (Fields F)
  pub winner_hotspot_bumped : Bool
  pub winner_store_id : String

-- The arguments of the run that stay as they are, and what the surroundings give: what the n-th
-- recorded call finds, what happens to the client while a scheduled bump of a key is waited for, if
-- there is an interference manager, and the number that `random.random` draws.
pub record Setting (F : Type 0) : Type 0 where
  pub namespace : String
  pub contention_profile : String
  pub hotspot_probability : F
  pub expected : Expected F
  pub unicode : Unicode
  pub net : ℕ → Surroundings
  pub interference : Option (String → Client → Client)
  pub draw : F

-- What `_build_agent_result` is called with, and the state at that time.
pub record Ending (F : Type 0) : Type 0 where
  pub submit_ok : Bool
  pub final_answer : Json F
  pub final_answer_raw : Option String
  pub selected_store_id : String
  pub db_abort_reason : Json F

abbrev pub at_least_one : ℕ → ℕ
at_least_one zero = 1
at_least_one (suc n) = suc n

module _ {F : Type 0} where
  -- `abort_count += 1; abort_reason = reason; abort_reasons.append(reason)`
  abbrev pub aborted : Json F → Exec (Run F) (Unit {0})
  aborted reason = modify (λ s. record s {
    abort_count = suc s.abort_count;
    abort_reason = reason;
    abort_reasons = s.abort_reasons ++ (reason ∷ []);
  })

  -- `semantic_recheck_fail_count += 1; abort_reason = reason; …`
  abbrev pub recheck_failed : String → Exec (Run F) (Unit {0})
  recheck_failed reason = modify (λ s. record s {
    semantic_recheck_fail_count = suc s.semantic_recheck_fail_count;
    abort_reason = str reason;
    semantic_recheck_reasons = s.semantic_recheck_reasons ++ (reason ∷ []);
  })

  abbrev pub retried : Exec (Run F) (Unit {0})
  retried = modify (λ s. record s { retry_count = suc s.retry_count })

  abbrev pub rolled_back : Exec (Run F) (Unit {0})
  rolled_back = modify (λ s. record s { rolled_back_attempts = suc s.rolled_back_attempts })

  abbrev pub committed : Exec (Run F) (Unit {0})
  committed = modify (λ s. record s { committed_attempts = suc s.committed_attempts })

  abbrev pub explore_attempt : Exec (Run F) (Unit {0})
  explore_attempt = modify (λ s. record s {
    txn_attempts = suc s.txn_attempts;
    explore_txn_attempts = suc s.explore_txn_attempts;
  })

  abbrev pub winner_attempt : Exec (Run F) (Unit {0})
  winner_attempt = modify (λ s. record s {
    winner_txn_attempts = suc s.winner_txn_attempts;
    winner_commit_rounds = suc s.winner_commit_rounds;
    txn_attempts = suc s.txn_attempts;
  })

  -- `winner_txn_attempts = 1; winner_commit_rounds = 1`
  abbrev pub first_round : Exec (Run F) (Unit {0})
  first_round = modify (λ s. record s { winner_txn_attempts = 1; winner_commit_rounds = 1 })

  abbrev pub one_more_round : Exec (Run F) (Unit {0})
  one_more_round = modify (λ s. record s { winner_commit_rounds = suc s.winner_commit_rounds })

  abbrev pub or_no_branch : List (Json F) → List (Json F)
  or_no_branch [] = str "NO_BRANCH_CREATED" ∷ []
  or_no_branch (reason ∷ reasons) = reason ∷ reasons

  -- `abort_count = max(1, abort_count)`, and a reason if there is none.
  abbrev pub no_branch : Exec (Run F) (Unit {0})
  no_branch = modify (λ s. record s {
    abort_count = at_least_one s.abort_count;
    abort_reasons = or_no_branch s.abort_reasons;
  })

  abbrev pub add_payload : Fields F → Exec (Run F) (Unit {0})
  add_payload payload =
      modify (λ s. record s { candidate_payloads = s.candidate_payloads ++ (payload ∷ []) })

  abbrev pub in_client : {A : Type 0} → Exec Client A → Exec (Run F) A
  in_client m s = let (r, c) = m s.client in (r, record s { client = c })

  -- `_hotspot_key(namespace) if contention_profile == "hotspot" else ""`
  abbrev pub hotspot_key : Setting F → String
  hotspot_key setting =
      if setting.contention_profile == "hotspot" then "global:contention:hotspot" else ""

module _ {F : Type 0} (fl : Floats F) where
  -- The draw decides, if the probability is below 1.
  abbrev is_drawn : Setting F → Bool
  is_drawn setting =
      if fl.less setting.hotspot_probability (fl.literal 0 0)
        || fl.same setting.hotspot_probability (fl.literal 0 0)
      then false
      else not (
          fl.less setting.hotspot_probability (fl.literal 1 0)
          && fl.less setting.hotspot_probability setting.draw)

  unfoldable pub schedule_hotspot_bump : Setting F → Exec Client Bool
  schedule_hotspot_bump setting c =
      if not (setting.contention_profile == "hotspot") || hotspot_key setting == ""
      then (ok false, c)
      else elim setting.interference [
        | none ↦ (ok false, c)
        | some step ↦
            if is_drawn setting then (ok true, step (hotspot_key setting) c) else (ok false, c)
      ]

  abbrev count_bump : Bool → Exec (Run F) (Unit {0})
  count_bump true = modify (λ s. record s { interference_bumps = suc s.interference_bumps })
  count_bump false = pure tt

  -- `if _schedule_hotspot_bump(…): interference_bumps += 1`
  abbrev pub hotspot_bump : Setting F → Exec (Run F) (Unit {0})
  hotspot_bump setting = do
    scheduled ← in_client (schedule_hotspot_bump setting)
    count_bump scheduled

module _ {F : Type 0} (py : Python F) where
  -- `_record_tool`, once the tool has answered.
  unfoldable pub record_tool : String → Fields F → Fields F → Exec (Run F) (Fields F)
  record_tool name args result s = (
    ok result,
    record s {
      trace = s.trace ++ (record { tool = name; args = args; result = result } ∷ []);
      messages =
          s.messages
          ++ (fields (
                ("role", str "assistant")
                ∷ ("content", str (String.◌++◌ "TOOL " name))
                ∷ ("tool_name", str name)
                ∷ ("arguments", object args)
                ∷ [])
              ∷ fields (
                  ("role", str "tool")
                  ∷ ("name", str name)
                  ∷ ("content", str (py.dumps (object result)))
                  ∷ [])
              ∷ []);
    },
  )

  -- `_record_tool(trace, messages, name, args, tool(args))`
  unfoldable pub call : Setting F → Tool → String → Fields F → Exec (Run F) (Fields F)
  call setting tool name args s =
      (do
        result ← in_client (run_tool py (setting.net (length s.trace)) tool args)
        record_tool name args result)
        s

  -- `result.get("ok")`
  abbrev pub is_ok : Fields F → Bool
  is_ok reply = truthy py (field_or "ok" null reply)

  abbrev pub store_key : Setting F → String → String
  store_key setting id =
      task_key setting.namespace (String.◌++◌ "store:" (String.◌++◌ id ":detail"))

  abbrev pub product_key : Setting F → String
  product_key setting =
      task_key setting.namespace
        (String.◌++◌ "product:" (String.◌++◌ setting.expected.product_id ":detail"))

  abbrev pub ending : Bool → Json F → Option String → String → Json F → Ending F
  ending submit_ok answer raw store_id reason = record {
    submit_ok = submit_ok;
    final_answer = answer;
    final_answer_raw = raw;
    selected_store_id = store_id;
    db_abort_reason = reason;
  }

  -- `_build_agent_result(False, None, None, store_id)`
  abbrev pub gave_up : String → Exec (Run F) (Ending F)
  gave_up store_id = gets (λ s. ending false null none store_id s.abort_reason)

  -- The same, with another reason.
  abbrev pub gave_up_for : Json F → Exec (Run F) (Ending F)
  gave_up_for reason = pure (ending false null none "" reason)

  -- `_build_agent_result(True, answer, raw, store_id)`
  abbrev pub submitted : Json F → Option String → String → Exec (Run F) (Ending F)
  submitted answer raw store_id = gets (λ s. ending true answer raw store_id s.abort_reason)
