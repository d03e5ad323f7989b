-- ===== src/Delivery/Agent/Baseline/Winning.antt =====
-- What the winner's rounds of the baseline mode (Agent/vitabench_delivery.py) keep.
use dbagent_tree.Prelude.{
  ℕ, zero, suc, String, not, Option, none, some, List, [], ◌∷◌, ℤ, pos, string_eq, ◌==◌,
}
use dbagent_tree.Exec.{hang, Exec, pure, gets, lift, ◌>>◌, catch}
use dbagent_tree.Client.Session.{Dial}
use dbagent_tree.Tools.Json.{Json, Fields, null, str, object, end, fields, field_or}
use dbagent_tree.Tools.Python.{Python, str_of}
use dbagent_tree.Tools.Reply.{or_null}
use dbagent_tree.Tools.Router.{Tool}
use dbagent_tree.Delivery.Floats.{Floats}
use dbagent_tree.Delivery.Orders.{order_array_from_submit_args}
use dbagent_tree.Delivery.Winner.{select_winner_payload}
use dbagent_tree.Delivery.Recheck.{Verdict, semantic_recheck_winner_payload}
use dbagent_tree.Delivery.Agent.{
  Run, Setting, Ending, aborted, recheck_failed, committed, winner_attempt, hotspot_key, call,
  is_ok, store_key, gave_up, submitted,
}
use dbagent_tree.Delivery.Agent.Baseline.{
  Round, finished, again, stopped, sent, refused, not_committed, baseline_get, baseline_put,
  meta_key, when, has_product, look, not_started, explore, text_at, product_read, bump_once,
  answer_key, answer_of, reloaded, winner_committed, winner_checked, winner_body, round_started,
  winner_round, after_round, winner_rounds, if_ended, baseline_run,
}
use dbagent_tree.Delivery.Agent.Baseline.Keeping.{
  get-Keeps, put-Keeps, look-Keeps, when-Keeps, explore-Keeps, product_read-Keeps, bump_once-Keeps,
  reloaded-Keeps, retry_or_stop-Keeps, round_tried-Keeps,
}
use dbagent_tree.Delivery.Agent.Steady.{
  Keeps, Steady, bind-Keeps, pure-Keeps, lift-Keeps, gets-Keeps, if-Keeps, catch-Keeps, call-Keeps,
  gave_up-Keeps,
}

module _ {F : Type 0} (py : Python F) (fl : Floats F) (setting : Setting F) (P : Run F → Type 0)
    (steady : Steady py P) (on_commit : Keeps P (committed {F = F})) where
  winner_committed-Keeps :
      (dials : ℕ → Dial) (store_id : String) (answer : Json F × Option String) (reply : Fields F)
      → Keeps P (winner_committed py fl setting dials store_id answer reply)
  unfolding winner_committed
  winner_committed-Keeps dials store_id answer reply =
      if-Keeps P (is_ok py reply) _ _
        (bind-Keeps P committed _ on_commit (λ _.
          bind-Keeps P (reloaded py fl setting dials answer) _
            (reloaded-Keeps py fl setting P steady dials answer)
            (λ loaded.
              bind-Keeps P (submitted py loaded.0 loaded.1 store_id) _ (gets-Keeps P _)
                (λ result. pure-Keeps P (sent result)))))
        (bind-Keeps P (aborted (field_or "error" (str "TX_COMMIT_FAILED") reply)) _
          (steady.on_abort _) (λ _. pure-Keeps P not_committed))

  winner_checked-Keeps :
      (dials : ℕ → Dial) (store_id tx_id : String) (verdict : Verdict F)
      → Keeps P (winner_checked py fl setting dials store_id tx_id verdict)
  unfolding winner_checked
  winner_checked-Keeps dials store_id tx_id verdict =
      let commit =
        call py setting Tool.tx_commit "tx_commit" (fields (("tx_id", str tx_id) ∷ [])) in
      if-Keeps P verdict.constraints_ok _ _
        (bind-Keeps P (lift (order_array_from_submit_args py (object setting.expected.order))) _
          (lift-Keeps P _)
          (λ submission.
            let answer = answer_of py fl setting submission in
            bind-Keeps P
              (baseline_put py fl setting tx_id (answer_key py fl setting) (or_null answer.1)) _
              (put-Keeps py fl setting P steady tx_id _ _)
              (λ _.
                bind-Keeps P commit _ (call-Keeps py P steady setting Tool.tx_commit "tx_commit" _)
                  (winner_committed-Keeps dials store_id answer))))
        (bind-Keeps P (recheck_failed verdict.reason) _ (steady.on_recheck _)
          (λ _. pure-Keeps P refused))

  winner_body-Keeps :
      (dials : ℕ → Dial) (store_id : String) (attempts_used : ℕ) (tx_id : String)
      → Keeps P (winner_body py fl setting dials store_id attempts_used tx_id)
  unfolding winner_body
  winner_body-Keeps dials store_id attempts_used tx_id =
      let hot =
        when py fl setting (not (hotspot_key setting == ""))
          (look py fl setting tx_id (hotspot_key setting)) in
      let hot-Keeps =
        when-Keeps py fl setting P steady _ _ (look-Keeps py fl setting P steady tx_id _) in
      bind-Keeps P (look py fl setting tx_id (meta_key py fl setting)) _
        (look-Keeps py fl setting P steady tx_id _)
        (λ _.
          bind-Keeps P (baseline_get py fl setting tx_id (store_key py setting store_id)) _
            (get-Keeps py fl setting P steady tx_id _)
            (λ reply.
              bind-Keeps P (product_read py fl setting (has_product py fl setting) tx_id) _
                (product_read-Keeps py fl setting P steady (has_product py fl setting) tx_id)
                (λ product_raw. bind-Keeps P hot _ hot-Keeps (λ _.
                  bind-Keeps P (gets (λ (s : Run F). s.winner_hotspot_bumped)) _ (gets-Keeps P _)
                    (λ bumped.
                      bind-Keeps P (bump_once py fl setting bumped) _
                        (bump_once-Keeps py fl setting P steady bumped)
                        (λ _. bind-Keeps P hot _ hot-Keeps (λ _.
                          bind-Keeps P
                            (lift (
                              semantic_recheck_winner_payload py fl setting.unicode store_id
                                (pos attempts_used) setting.expected (field_or "value" null reply)
                                product_raw))
                            _ (lift-Keeps P _) (winner_checked-Keeps dials store_id tx_id))))))))

  round_started-Keeps :
      (dials : ℕ → Dial) (store_id policy : String) (max_attempts : ℤ) (attempts_used : ℕ)
      (reply : Fields F)
      → Keeps P (round_started py fl setting dials store_id policy max_attempts attempts_used reply)
  unfolding round_started
  round_started-Keeps dials store_id policy max_attempts attempts_used reply =
      let tx_id = text_at py fl setting "tx_id" reply in
      let body = winner_body py fl setting dials store_id attempts_used tx_id in
      if-Keeps P (is_ok py reply) _ _
        (bind-Keeps P (catch body (λ message. aborted (str message) >> pure not_committed)) _
          (catch-Keeps P body _ (winner_body-Keeps dials store_id attempts_used tx_id) (λ message.
            bind-Keeps P (aborted (str message)) _ (steady.on_abort _)
              (λ _. pure-Keeps P not_committed)))
          (round_tried-Keeps py fl setting P steady attempts_used policy max_attempts tx_id))
        (bind-Keeps P (not_started py fl setting reply) _ (steady.on_abort _)
          (λ _. retry_or_stop-Keeps py fl setting P steady attempts_used policy max_attempts))

  pub winner_round-Keeps :
      (dials : ℕ → Dial) (store_id policy : String) (max_attempts : ℤ) (attempts_used : ℕ)
      → Keeps P (winner_round py fl setting dials store_id policy max_attempts attempts_used)
  unfolding winner_round
  winner_round-Keeps dials store_id policy max_attempts attempts_used =
      let start = call py setting Tool.tx_start "tx_start" end in
      bind-Keeps P winner_attempt _ steady.on_winner (λ _.
        bind-Keeps P start _ (call-Keeps py P steady setting Tool.tx_start "tx_start" end)
          (round_started-Keeps dials store_id policy max_attempts attempts_used))

  after_round-Keeps :
      (loop : Exec (Run F) (Option (Ending F))) (store_id : String) (round : Round F)
      → Keeps P loop
      → Keeps P (after_round py fl setting loop store_id round)
  after_round-Keeps loop store_id (finished result) h = pure-Keeps P (some result)
  after_round-Keeps loop store_id again h = h
  after_round-Keeps loop store_id stopped h =
      bind-Keeps P (gave_up py store_id) _ (gave_up-Keeps py P store_id)
        (λ result. pure-Keeps P (some result))

  winner_rounds-Keeps :
      (fuel : ℕ) (dials : ℕ → Dial) (store_id policy : String) (max_attempts : ℤ) (used : ℕ)
      → Keeps P (winner_rounds py fl setting fuel dials store_id policy max_attempts used)
  unfolding winner_rounds
  winner_rounds-Keeps zero dials store_id policy max_attempts used = pure-Keeps P none
  winner_rounds-Keeps (suc fuel) dials store_id policy max_attempts used =
      bind-Keeps P (winner_round py fl setting dials store_id policy max_attempts (suc used)) _
        (winner_round-Keeps dials store_id policy max_attempts (suc used))
        (λ round.
          after_round-Keeps _ store_id round
            (winner_rounds-Keeps fuel dials store_id policy max_attempts (suc used)))

  if_ended-Keeps : (result : Option (Ending F)) → Keeps P (if_ended py fl setting result)
  if_ended-Keeps none = lift-Keeps P hang
  if_ended-Keeps (some result) = pure-Keeps P result

  pub baseline_run-Keeps :
      (fuel : ℕ) (dials : ℕ → Dial) (policy : String) (max_attempts : ℤ) (candidates : List String)
      → Keeps P (baseline_run py fl setting fuel dials policy max_attempts candidates)
  unfolding baseline_run
  baseline_run-Keeps fuel dials policy max_attempts candidates =
      bind-Keeps P (explore py fl setting 1 candidates) _
        (explore-Keeps py fl setting P steady 1 candidates)
        (λ _.
          bind-Keeps P (gets (λ (s : Run F). s.candidate_payloads)) _ (gets-Keeps P _) (λ payloads.
            bind-Keeps P (lift (select_winner_payload py fl payloads)) _ (lift-Keeps P _) (λ winner.
              bind-Keeps P (gets (λ (s : Run F). s.abort_reason)) _ (gets-Keeps P _) (λ reason.
                let store_id = str_of py (field_or "candidate_store_id" (str "") winner) in
                if-Keeps P (store_id == "") _ _ (pure-Keeps P _) (
                  bind-Keeps P
                    (winner_rounds py fl setting fuel dials store_id policy max_attempts 0) _
                    (winner_rounds-Keeps fuel dials store_id policy max_attempts 0)
                    if_ended-Keeps)))))
