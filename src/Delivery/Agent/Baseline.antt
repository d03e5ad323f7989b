-- ===== src/Delivery/Agent/Baseline.antt =====
-- The baseline mode of `_reference_agent_run` in Agent/vitabench_delivery.py: a plain transaction
-- for each candidate, and rounds of one for the winner.
pub mod Rounds
pub mod Keeping
pub mod Winning
use Prim.Native.String
use dbagent_tree.Prelude.{
  ℕ, zero, suc, ◌+◌, String, Bool, true, false, not, ◌||◌, ◌&&◌, Option, none, some, List, [], ◌∷◌,
  ℤ, pos, negsuc, ltb, string_eq, ◌==◌, str_nat, if◌then◌else◌,
}
use dbagent_tree.Exec.{Result, ok, err, hang, Exec, pure, gets, lift, modify, ◌>>=◌, ◌>>◌, catch}
use dbagent_tree.Client.Session.{Dial}
use dbagent_tree.Tools.Json.{Json, Fields, null, str, object, end, fields, field_or}
use dbagent_tree.Tools.Python.{Python, truthy, str_of}
use dbagent_tree.Tools.Reply.{task_key, or_null}
use dbagent_tree.Tools.Router.{Tool}
use dbagent_tree.Delivery.Floats.{Floats}
use dbagent_tree.Delivery.Orders.{order_array_from_submit_args}
use dbagent_tree.Delivery.Evaluate.{load_final_answer}
use dbagent_tree.Delivery.Winner.{
  parse_json_safely, candidate_summary_payload, select_winner_payload,
}
use dbagent_tree.Delivery.Recheck.{Verdict, semantic_recheck_winner_payload}
use dbagent_tree.Delivery.Agent.{
  Run, Setting, Ending, aborted, recheck_failed, retried, rolled_back, committed, explore_attempt,
  winner_attempt, add_payload, in_client, hotspot_key, hotspot_bump, call, is_ok, store_key,
  product_key, gave_up, gave_up_for, submitted,
}

-- `max(1, max_attempts)`
abbrev pub capped : ℤ → ℕ
capped (pos zero) = 1
capped (pos (suc n)) = suc n
capped (negsuc n) = 1

unfoldable pub should_retry_baseline_winner : ℕ → String → ℤ → Bool
should_retry_baseline_winner attempts_used retry_policy max_attempts =
    if retry_policy == "until_success" then true else ltb attempts_used (capped max_attempts)

-- How a round of the winner's loop ends.
pub data Round (F : Type 0) : Type 0 where
  finished : Ending F → Round F
  again : Round F
  stopped : Round F

-- How the `try` of a round ends, when it does not raise.
pub data Tried (F : Type 0) : Type 0 where
  sent : Ending F → Tried F
  refused : Tried F
  not_committed : Tried F

module _ {F : Type 0} (py : Python F) (fl : Floats F) (setting : Setting F) where
  -- `_record_baseline_tx_get`
  unfoldable pub baseline_get : String → String → Exec (Run F) (Fields F)
  baseline_get tx_id key =
      call py setting Tool.tx_get "tx_get" (fields (("tx_id", str tx_id) ∷ ("key", str key) ∷ []))

  -- `_record_baseline_tx_put`
  unfoldable pub baseline_put : String → String → Json F → Exec (Run F) (Fields F)
  baseline_put tx_id key value =
      call py setting Tool.tx_put "tx_put"
        (fields (("tx_id", str tx_id) ∷ ("key", str key) ∷ ("value", value) ∷ []))

  abbrev pub meta_key : String
  meta_key = task_key setting.namespace "meta:task"

  abbrev pub when : Bool → Exec (Run F) (Unit {0}) → Exec (Run F) (Unit {0})
  when true m = m
  when false m = pure tt

  abbrev pub has_product : Bool
  has_product = not (setting.expected.product_id == "")

  -- A read whose answer is not looked at.
  abbrev pub look : String → String → Exec (Run F) (Unit {0})
  look tx_id key = baseline_get tx_id key >> pure tt

  -- What a failed `tx_start` counts.
  abbrev pub not_started : Fields F → Exec (Run F) (Unit {0})
  not_started reply = aborted (field_or "error" (str "TX_START_FAILED") reply)

  -- `try: … rolled_back_attempts += 1 except Exception: pass`
  unfoldable pub roll_back : String → Exec (Run F) (Unit {0})
  roll_back tx_id =
      catch
        (call py setting Tool.tx_rollback "tx_rollback" (fields (("tx_id", str tx_id) ∷ []))
          >> rolled_back)
        (λ _. pure tt)

  abbrev pub dict_or_empty : Json F → Fields F
  dict_or_empty (object fs) = fs
  dict_or_empty _ = end

  abbrev pub attempt_key : ℕ → String
  attempt_key idx =
      task_key setting.namespace (String.◌++◌ "answer:candidate:attempt:" (str_nat idx))

  -- The `try` of the exploration.
  unfoldable pub explore_body : ℕ → String → String → Exec (Run F) (Unit {0})
  explore_body idx store_id tx_id = do
    look tx_id meta_key
    store_result ← baseline_get tx_id (store_key py setting store_id)
    when has_product (look tx_id (product_key py setting))
    let store_detail = parse_json_safely py fl (field_or "value" null store_result) (object end)
    payload ← lift (
        candidate_summary_payload py fl setting.unicode store_id (pos idx)
          (dict_or_empty store_detail) setting.expected.order setting.expected.product_id
          setting.expected.profile)
    add_payload payload
    baseline_put tx_id (attempt_key idx) (str (py.dumps (object payload))) >> pure tt

  abbrev pub text_at : String → Fields F → String
  text_at name reply = str_of py (field_or name null reply)

  -- What follows `tx_start` in the exploration.
  unfoldable pub explore_started : ℕ → String → Fields F → Exec (Run F) (Unit {0})
  explore_started idx store_id reply =
      if is_ok py reply
      then (catch (explore_body idx store_id (text_at "tx_id" reply))
            (λ message. aborted (str message))
          >> roll_back (text_at "tx_id" reply))
      else not_started reply

  -- `for attempt_idx, store_id in enumerate(candidate_store_ids, 1)`
  unfoldable pub explore : ℕ → List String → Exec (Run F) (Unit {0})
  explore idx [] = pure tt
  explore idx (store_id ∷ store_ids) =
      explore_attempt
      >> (call py setting Tool.tx_start "tx_start" end >>= explore_started idx store_id)
      >> explore (suc idx) store_ids

  -- The product's entry, if a product is expected.
  abbrev pub product_read : Bool → String → Exec (Run F) (Json F)
  product_read true tx_id = do
    reply ← baseline_get tx_id (product_key py setting)
    pure (field_or "value" null reply)
  product_read false tx_id = pure null

  -- `if not winner_hotspot_bumped: …`
  abbrev pub bump_once : Bool → Exec (Run F) (Unit {0})
  bump_once true = pure tt
  bump_once false =
      hotspot_bump fl setting >> modify (λ s. record s { winner_hotspot_bumped = true })

  abbrev pub answer_key : String
  answer_key = task_key setting.namespace "answer:final"

  abbrev pub answer_of : Option (Json F × String) → Json F × Option String
  answer_of none = (null, none)
  answer_of (some (answer, raw)) = (answer, some raw)

  -- The answer is read again; an exception leaves it as it is.
  abbrev pub reloaded : (ℕ → Dial) → Json F × Option String → Exec (Run F) (Json F × Option String)
  reloaded dials answer =
      catch (in_client (load_final_answer py fl dials setting.namespace)) (λ _. pure answer)

  -- What follows the commit of the winner.
  unfoldable pub winner_committed :
      (ℕ → Dial) → String → Json F × Option String → Fields F → Exec (Run F) (Tried F)
  winner_committed dials store_id answer reply =
      if is_ok py reply
      then (do
        committed
        (final_answer, final_raw) ← reloaded dials answer
        result ← submitted py final_answer final_raw store_id
        pure (sent result))
      else (aborted (field_or "error" (str "TX_COMMIT_FAILED") reply) >> pure not_committed)

  -- What follows the check of the winner.
  unfoldable pub winner_checked : (ℕ → Dial) → String → String → Verdict F → Exec (Run F) (Tried F)
  winner_checked dials store_id tx_id verdict =
      if verdict.constraints_ok
      then (do
        submission ← lift (order_array_from_submit_args py (object setting.expected.order))
        let answer = answer_of submission
        baseline_put tx_id answer_key (or_null answer.1)
        reply ← call py setting Tool.tx_commit "tx_commit" (fields (("tx_id", str tx_id) ∷ []))
        winner_committed dials store_id answer reply)
      else (recheck_failed verdict.reason >> pure refused)

  -- The `try` of a round.
  unfoldable pub winner_body : (ℕ → Dial) → String → ℕ → String → Exec (Run F) (Tried F)
  winner_body dials store_id attempts_used tx_id = do
    look tx_id meta_key
    store_result ← baseline_get tx_id (store_key py setting store_id)
    product_raw ← product_read has_product tx_id
    when (not (hotspot_key setting == "")) (look tx_id (hotspot_key setting))
    bumped ← gets (λ s. s.winner_hotspot_bumped)
    bump_once bumped
    when (not (hotspot_key setting == "")) (look tx_id (hotspot_key setting))
    verdict ← lift (
        semantic_recheck_winner_payload py fl setting.unicode store_id (pos attempts_used)
          setting.expected (field_or "value" null store_result) product_raw)
    winner_checked dials store_id tx_id verdict

  -- `if _should_retry_baseline_winner(…): retry_count += 1; continue` and `break`.
  unfoldable pub retry_or_stop : ℕ → String → ℤ → Exec (Run F) (Round F)
  retry_or_stop attempts_used policy max_attempts =
      if should_retry_baseline_winner attempts_used policy max_attempts
      then retried >> pure again
      else pure stopped

  -- The end of a round. A refused winner leaves the loop at once.
  unfoldable pub round_tried : ℕ → String → ℤ → String → Tried F → Exec (Run F) (Round F)
  round_tried attempts_used policy max_attempts tx_id (sent result) = pure (finished result)
  round_tried attempts_used policy max_attempts tx_id refused = pure stopped
  round_tried attempts_used policy max_attempts tx_id not_committed =
      roll_back tx_id >> retry_or_stop attempts_used policy max_attempts

  -- What follows `tx_start` in a round.
  unfoldable pub round_started :
      (ℕ → Dial) → String → String → ℤ → ℕ → Fields F → Exec (Run F) (Round F)
  round_started dials store_id policy max_attempts attempts_used reply =
      if is_ok py reply
      then (catch (winner_body dials store_id attempts_used (text_at "tx_id" reply))
            (λ message. aborted (str message) >> pure not_committed)
          >>= round_tried attempts_used policy max_attempts (text_at "tx_id" reply))
      else (not_started reply >> retry_or_stop attempts_used policy max_attempts)

  unfoldable pub winner_round : (ℕ → Dial) → String → String → ℤ → ℕ → Exec (Run F) (Round F)
  winner_round dials store_id policy max_attempts attempts_used =
      winner_attempt
      >> (call py setting Tool.tx_start "tx_start" end
          >>= round_started dials store_id policy max_attempts attempts_used)

  -- What follows a round.
  abbrev pub after_round :
      Exec (Run F) (Option (Ending F)) → String → Round F → Exec (Run F) (Option (Ending F))
  after_round loop store_id (finished result) = pure (some result)
  after_round loop store_id again = loop
  after_round loop store_id stopped = do result ← gave_up py store_id; pure (some result)

  -- `while True`, with fuel for the rounds; `none` is a loop that has not ended by then.
  unfoldable pub winner_rounds :
      ℕ → (ℕ → Dial) → String → String → ℤ → ℕ → Exec (Run F) (Option (Ending F))
  winner_rounds zero dials store_id policy max_attempts attempts_used = pure none
  winner_rounds (suc fuel) dials store_id policy max_attempts attempts_used =
      winner_round dials store_id policy max_attempts (suc attempts_used)
      >>= after_round (winner_rounds fuel dials store_id policy max_attempts (suc attempts_used))
          store_id

  abbrev pub if_ended : Option (Ending F) → Exec (Run F) (Ending F)
  if_ended none = lift hang
  if_ended (some result) = pure result

  abbrev pub or_reason : Json F → String → Json F
  or_reason reason default = if truthy py reason then reason else str default

  -- The baseline from the candidates on.
  unfoldable pub baseline_run : ℕ → (ℕ → Dial) → String → ℤ → List String → Exec (Run F) (Ending F)
  baseline_run fuel dials policy max_attempts candidate_store_ids = do
    explore 1 candidate_store_ids
    payloads ← gets (λ s. s.candidate_payloads)
    winner ← lift (select_winner_payload py fl payloads)
    let store_id = str_of py (field_or "candidate_store_id" (str "") winner)
    reason ← gets (λ s. s.abort_reason)
    if store_id == ""
        then gave_up_for py (or_reason reason "NO_WINNER_SELECTED")
        else (winner_rounds fuel dials store_id policy max_attempts 0 >>= if_ended)
