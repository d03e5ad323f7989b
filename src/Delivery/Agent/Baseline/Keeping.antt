-- ===== src/Delivery/Agent/Baseline/Keeping.antt =====
-- What the baseline mode of `_reference_agent_run` (Agent/vitabench_delivery.py) keeps.
use dbagent_tree.Prelude.{ℕ, suc, String, Bool, true, false, Option, List, [], ◌∷◌, ℤ, string_eq}
use dbagent_tree.Exec.{Exec, ◌>>=◌, ◌>>◌, catch}
use dbagent_tree.Client.Session.{Dial}
use dbagent_tree.Tools.Json.{Json, Fields, str, object, end}
use dbagent_tree.Tools.Python.{Python}
use dbagent_tree.Tools.Router.{Tool}
use dbagent_tree.Delivery.Floats.{Floats}
use dbagent_tree.Delivery.Evaluate.{load_final_answer}
use dbagent_tree.Delivery.Agent.{
  Run, Setting, aborted, retried, explore_attempt, add_payload, in_client, hotspot_bump, call,
  is_ok, store_key, product_key,
}
use dbagent_tree.Delivery.Agent.Baseline.{
  Tried, sent, refused, not_committed, again, stopped, should_retry_baseline_winner, baseline_get,
  baseline_put, meta_key, when, has_product, look, roll_back, explore_body, text_at, attempt_key,
  explore_started, explore, product_read, bump_once, reloaded, retry_or_stop, round_tried,
}
use dbagent_tree.Delivery.Agent.Steady.{
  Keeps, Steady, bind-Keeps, pure-Keeps, lift-Keeps, if-Keeps, catch-Keeps, in_client-Keeps,
  call-Keeps, hotspot_bump-Keeps,
}

module _ {F : Type 0} (py : Python F) (fl : Floats F) (setting : Setting F) (P : Run F → Type 0)
    (steady : Steady py P) where
  pub get-Keeps : (tx_id key : String) → Keeps P (baseline_get py fl setting tx_id key)
  unfolding baseline_get
  get-Keeps tx_id key = call-Keeps py P steady setting Tool.tx_get "tx_get" _

  pub put-Keeps :
      (tx_id key : String) (value : Json F) → Keeps P (baseline_put py fl setting tx_id key value)
  unfolding baseline_put
  put-Keeps tx_id key value = call-Keeps py P steady setting Tool.tx_put "tx_put" _

  pub look-Keeps : (tx_id key : String) → Keeps P (look py fl setting tx_id key)
  look-Keeps tx_id key =
      bind-Keeps P (baseline_get py fl setting tx_id key) _ (get-Keeps tx_id key)
        (λ _. pure-Keeps P tt)

  pub when-Keeps :
      (b : Bool) (m : Exec (Run F) (Unit {0})) → Keeps P m → Keeps P (when py fl setting b m)
  when-Keeps true m h = h
  when-Keeps false m h = pure-Keeps P tt

  pub roll_back-Keeps : (tx_id : String) → Keeps P (roll_back py fl setting tx_id)
  unfolding roll_back
  roll_back-Keeps tx_id =
      catch-Keeps P _ _
        (bind-Keeps P (call py setting Tool.tx_rollback "tx_rollback" _) _
          (call-Keeps py P steady setting Tool.tx_rollback "tx_rollback" _)
          (λ _. steady.on_rollback))
        (λ _. pure-Keeps P tt)

  explore_body-Keeps :
      (idx : ℕ) (store_id tx_id : String) → Keeps P (explore_body py fl setting idx store_id tx_id)
  unfolding explore_body
  explore_body-Keeps idx store_id tx_id =
      bind-Keeps P (look py fl setting tx_id (meta_key py fl setting)) _ (look-Keeps tx_id _) (λ _.
        bind-Keeps P (baseline_get py fl setting tx_id (store_key py setting store_id)) _
          (get-Keeps tx_id _)
          (λ reply.
            bind-Keeps P
              (when py fl setting (has_product py fl setting)
                (look py fl setting tx_id (product_key py setting)))
              _ (when-Keeps _ _ (look-Keeps tx_id _))
              (λ _. bind-Keeps P _ _ (lift-Keeps P _) (λ payload.
                bind-Keeps P (add_payload payload) _ (steady.on_payload payload) (λ _.
                  bind-Keeps P
                    (baseline_put py fl setting tx_id (attempt_key py fl setting idx)
                      (str (py.dumps (object payload))))
                    _ (put-Keeps tx_id _ _) (λ _. pure-Keeps P tt))))))

  explore_started-Keeps :
      (idx : ℕ) (store_id : String) (reply : Fields F)
      → Keeps P (explore_started py fl setting idx store_id reply)
  unfolding explore_started
  explore_started-Keeps idx store_id reply =
      let tx_id = text_at py fl setting "tx_id" reply in
      if-Keeps P (is_ok py reply) _ _
        (bind-Keeps P
          (catch (explore_body py fl setting idx store_id tx_id) (λ message. aborted (str message)))
          _
          (catch-Keeps P (explore_body py fl setting idx store_id tx_id) _
            (explore_body-Keeps idx store_id tx_id) (λ message. steady.on_abort (str message)))
          (λ _. roll_back-Keeps tx_id))
        (steady.on_abort _)

  pub explore-Keeps :
      (idx : ℕ) (store_ids : List String) → Keeps P (explore py fl setting idx store_ids)
  unfolding explore
  explore-Keeps idx [] = pure-Keeps P tt
  explore-Keeps idx (store_id ∷ store_ids) =
      let start = call py setting Tool.tx_start "tx_start" end in
      let begun = explore_started py fl setting idx store_id in
      bind-Keeps P (explore_attempt >> (start >>= begun)) _
        (bind-Keeps P explore_attempt _ steady.on_explore (λ _.
          bind-Keeps P start begun (call-Keeps py P steady setting Tool.tx_start "tx_start" end)
            (explore_started-Keeps idx store_id)))
        (λ _. explore-Keeps (suc idx) store_ids)

  pub product_read-Keeps :
      (b : Bool) (tx_id : String) → Keeps P (product_read py fl setting b tx_id)
  product_read-Keeps true tx_id =
      bind-Keeps P (baseline_get py fl setting tx_id (product_key py setting)) _ (get-Keeps tx_id _)
        (λ _. pure-Keeps P _)
  product_read-Keeps false tx_id = pure-Keeps P _

  pub bump_once-Keeps : (b : Bool) → Keeps P (bump_once py fl setting b)
  bump_once-Keeps true = pure-Keeps P tt
  bump_once-Keeps false =
      bind-Keeps P (hotspot_bump fl setting) _ (hotspot_bump-Keeps py P steady fl setting)
        (λ _. steady.on_bumped)

  pub reloaded-Keeps :
      (dials : ℕ → Dial) (answer : Json F × Option String)
      → Keeps P (reloaded py fl setting dials answer)
  reloaded-Keeps dials answer =
      catch-Keeps P (in_client (load_final_answer py fl dials setting.namespace)) _
        (in_client-Keeps py P steady (load_final_answer py fl dials setting.namespace))
        (λ _. pure-Keeps P answer)

  pub retry_or_stop-Keeps :
      (attempts_used : ℕ) (policy : String) (max_attempts : ℤ)
      → Keeps P (retry_or_stop py fl setting attempts_used policy max_attempts)
  unfolding retry_or_stop
  retry_or_stop-Keeps attempts_used policy max_attempts =
      if-Keeps P (should_retry_baseline_winner attempts_used policy max_attempts) _ _
        (bind-Keeps P retried _ steady.on_retry (λ _. pure-Keeps P again)) (pure-Keeps P stopped)

  pub round_tried-Keeps :
      (attempts_used : ℕ) (policy : String) (max_attempts : ℤ) (tx_id : String) (tried : Tried F)
      → Keeps P (round_tried py fl setting attempts_used policy max_attempts tx_id tried)
  unfolding round_tried
  round_tried-Keeps attempts_used policy max_attempts tx_id (sent result) = pure-Keeps P _
  round_tried-Keeps attempts_used policy max_attempts tx_id refused = pure-Keeps P _
  round_tried-Keeps attempts_used policy max_attempts tx_id not_committed =
      bind-Keeps P (roll_back py fl setting tx_id) _ (roll_back-Keeps tx_id)
        (λ _. retry_or_stop-Keeps attempts_used policy max_attempts)
