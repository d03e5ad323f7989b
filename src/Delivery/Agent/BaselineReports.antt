-- ===== src/Delivery/Agent/BaselineReports.antt =====
-- What the baseline mode (Agent/vitabench_delivery.py) reports.
use dbagent_tree.Prelude.{
  ℕ, zero, suc, refl, String, not, Option, none, some, List, [], ◌∷◌, ℤ, pos, inl, inr, string_eq,
  ◌==◌,
}
use dbagent_tree.Exec.{Exec, pure, gets, lift, ◌>>=◌, ◌>>◌, catch}
use dbagent_tree.Client.Session.{Dial}
use dbagent_tree.Tools.Json.{Json, Fields, null, str, object, end, fields, field_or}
use dbagent_tree.Tools.Python.{Python, str_of}
use dbagent_tree.Tools.Reply.{or_null}
use dbagent_tree.Tools.Router.{Tool}
use dbagent_tree.Delivery.Floats.{Floats}
use dbagent_tree.Delivery.Orders.{order_array_from_submit_args}
use dbagent_tree.Delivery.Winner.{select_winner_payload}
use dbagent_tree.Delivery.Recheck.{Verdict, semantic_recheck_winner_payload}
use dbagent_tree.Delivery.Agent.{
  Run, Setting, Ending, aborted, recheck_failed, winner_attempt, hotspot_key, call, is_ok,
  store_key, submitted,
}
use dbagent_tree.Delivery.Agent.Baseline.{
  Round, Tried, finished, again, stopped, sent, refused, not_committed, baseline_get, baseline_put,
  meta_key, when, has_product, look, not_started, roll_back, explore, text_at, product_read,
  bump_once, answer_key, answer_of, winner_committed, winner_checked, winner_body, retry_or_stop,
  round_tried, round_started, winner_round, after_round, winner_rounds, if_ended,
  should_retry_baseline_winner, baseline_run,
}
use dbagent_tree.Delivery.Agent.Baseline.Keeping.{
  get-Keeps, put-Keeps, look-Keeps, when-Keeps, explore-Keeps, product_read-Keeps, bump_once-Keeps,
  roll_back-Keeps,
}
use dbagent_tree.Delivery.Agent.Steady.{Steady, call-Keeps, gets-Keeps, lift-Keeps}
use dbagent_tree.Delivery.Agent.Reports.{
  HasCommits, HasCommits-Steady, IsHonest, IsLoop, Outcome, Reports, then-Reports, bind-Reports,
  catch-Reports, if-Reports, pure-Reports, gave_up_for-Reports, after_commit,
}

module _ {F : Type 0} (py : Python F) (fl : Floats F) (setting : Setting F) where
  abbrev Zero : Run F → Type 0
  Zero = HasCommits 0

  steady : Steady py (HasCommits 0)
  steady = HasCommits-Steady py 0

  abbrev IsTried : Tried F → Run F → Type 0
  IsTried (sent e) s = IsHonest e s
  IsTried refused s = HasCommits 0 s
  IsTried not_committed s = HasCommits 0 s

  abbrev IsRound : Round F → Run F → Type 0
  IsRound (finished e) s = IsHonest e s
  IsRound again s = HasCommits 0 s
  IsRound stopped s = HasCommits 0 s

  winner_committed-Reports :
      (dials : ℕ → Dial) (store_id : String) (answer : Json F × Option String) (reply : Fields F)
      → Reports IsTried (winner_committed py fl setting dials store_id answer reply)
  unfolding winner_committed
  winner_committed-Reports dials store_id answer reply =
      if-Reports IsTried (is_ok py reply) _ _
        (after_commit py fl setting IsTried dials answer
          (λ loaded. submitted py loaded.0 loaded.1 store_id >>= λ result. pure (sent result))
          (λ loaded s p. inl (refl, p)))
        (bind-Reports IsTried (aborted (field_or "error" (str "TX_COMMIT_FAILED") reply)) _
          (steady.on_abort _) (λ _. pure-Reports IsTried not_committed (λ s p. p)))

  winner_checked-Reports :
      (dials : ℕ → Dial) (store_id tx_id : String) (verdict : Verdict F)
      → Reports IsTried (winner_checked py fl setting dials store_id tx_id verdict)
  unfolding winner_checked
  winner_checked-Reports dials store_id tx_id verdict =
      let commit =
        call py setting Tool.tx_commit "tx_commit" (fields (("tx_id", str tx_id) ∷ [])) in
      if-Reports IsTried verdict.constraints_ok _ _
        (bind-Reports IsTried
          (lift (order_array_from_submit_args py (object setting.expected.order))) _
          (lift-Keeps Zero _)
          (λ submission.
            let answer = answer_of py fl setting submission in
            bind-Reports IsTried
              (baseline_put py fl setting tx_id (answer_key py fl setting) (or_null answer.1)) _
              (put-Keeps py fl setting Zero steady tx_id _ _)
              (λ _.
                bind-Reports IsTried commit _
                  (call-Keeps py Zero steady setting Tool.tx_commit "tx_commit" _)
                  (winner_committed-Reports dials store_id answer))))
        (bind-Reports IsTried (recheck_failed verdict.reason) _ (steady.on_recheck _)
          (λ _. pure-Reports IsTried refused (λ s p. p)))

  winner_body-Reports :
      (dials : ℕ → Dial) (store_id : String) (used : ℕ) (tx_id : String)
      → Reports IsTried (winner_body py fl setting dials store_id used tx_id)
  unfolding winner_body
  winner_body-Reports dials store_id used tx_id =
      let hot =
        when py fl setting (not (hotspot_key setting == ""))
          (look py fl setting tx_id (hotspot_key setting)) in
      let hot-Keeps =
        when-Keeps py fl setting Zero steady _ _ (look-Keeps py fl setting Zero steady tx_id _) in
      bind-Reports IsTried (look py fl setting tx_id (meta_key py fl setting)) _
        (look-Keeps py fl setting Zero steady tx_id _)
        (λ _.
          bind-Reports IsTried (baseline_get py fl setting tx_id (store_key py setting store_id)) _
            (get-Keeps py fl setting Zero steady tx_id _)
            (λ reply.
              bind-Reports IsTried (product_read py fl setting (has_product py fl setting) tx_id) _
                (product_read-Keeps py fl setting Zero steady (has_product py fl setting) tx_id)
                (λ product_raw. bind-Reports IsTried hot _ hot-Keeps (λ _.
                  bind-Reports IsTried (gets (λ (s : Run F). s.winner_hotspot_bumped)) _
                    (gets-Keeps Zero _)
                    (λ bumped.
                      bind-Reports IsTried (bump_once py fl setting bumped) _
                        (bump_once-Keeps py fl setting Zero steady bumped)
                        (λ _. bind-Reports IsTried hot _ hot-Keeps (λ _.
                          bind-Reports IsTried
                            (lift (
                              semantic_recheck_winner_payload py fl setting.unicode store_id
                                (pos used) setting.expected (field_or "value" null reply)
                                product_raw))
                            _ (lift-Keeps Zero _)
                            (winner_checked-Reports dials store_id tx_id))))))))

  retry_or_stop-Reports :
      (used : ℕ) (policy : String) (max_attempts : ℤ) (s : Run F)
      → HasCommits 0 s
      → Outcome IsRound (
        (retry_or_stop py fl setting used policy max_attempts s).0,
        (retry_or_stop py fl setting used policy max_attempts s).1,
      )
  unfolding retry_or_stop
  retry_or_stop-Reports used policy max_attempts s p =
      (if-Reports IsRound (should_retry_baseline_winner used policy max_attempts) _ _
          (record { reports = λ s p. p }) (record { reports = λ s p. p })).reports
        s p

  round_tried-Reports :
      (used : ℕ) (policy : String) (max_attempts : ℤ) (tx_id : String) (tried : Tried F) (s : Run F)
      → IsTried tried s
      → Outcome IsRound (
        (round_tried py fl setting used policy max_attempts tx_id tried s).0,
        (round_tried py fl setting used policy max_attempts tx_id tried s).1,
      )
  unfolding round_tried
  round_tried-Reports used policy max_attempts tx_id (sent e) s p = p
  round_tried-Reports used policy max_attempts tx_id refused s p = p
  round_tried-Reports used policy max_attempts tx_id not_committed s p =
      (bind-Reports IsRound (roll_back py fl setting tx_id)
          (λ _. retry_or_stop py fl setting used policy max_attempts)
          (roll_back-Keeps py fl setting Zero steady tx_id)
          (λ _. record { reports = retry_or_stop-Reports used policy max_attempts })).reports
        s p

  round_started-Reports :
      (dials : ℕ → Dial) (store_id policy : String) (max_attempts : ℤ) (used : ℕ) (reply : Fields F)
      → Reports IsRound (round_started py fl setting dials store_id policy max_attempts used reply)
  unfolding round_started
  round_started-Reports dials store_id policy max_attempts used reply =
      let tx_id = text_at py fl setting "tx_id" reply in
      let body = winner_body py fl setting dials store_id used tx_id in
      if-Reports IsRound (is_ok py reply) _ _
        (then-Reports IsRound IsTried
          (catch body (λ message. aborted (str message) >> pure not_committed)) _
          (catch-Reports IsTried body _ (winner_body-Reports dials store_id used tx_id) (λ message.
            bind-Reports IsTried (aborted (str message)) _ (steady.on_abort _)
              (λ _. pure-Reports IsTried not_committed (λ s p. p))))
          (round_tried-Reports used policy max_attempts tx_id))
        (bind-Reports IsRound (not_started py fl setting reply) _ (steady.on_abort _)
          (λ _. record { reports = retry_or_stop-Reports used policy max_attempts }))

  winner_round-Reports :
      (dials : ℕ → Dial) (store_id policy : String) (max_attempts : ℤ) (used : ℕ)
      → Reports IsRound (winner_round py fl setting dials store_id policy max_attempts used)
  unfolding winner_round
  winner_round-Reports dials store_id policy max_attempts used =
      let start = call py setting Tool.tx_start "tx_start" end in
      bind-Reports IsRound winner_attempt _ steady.on_winner (λ _.
        bind-Reports IsRound start _
          (call-Keeps py Zero steady setting Tool.tx_start "tx_start" end)
          (round_started-Reports dials store_id policy max_attempts used))

  after_round-Reports :
      (loop : Exec (Run F) (Option (Ending F))) (store_id : String) (round : Round F) (s : Run F)
      → Reports IsLoop loop
      → IsRound round s
      → Outcome IsLoop (
        (after_round py fl setting loop store_id round s).0,
        (after_round py fl setting loop store_id round s).1,
      )
  after_round-Reports loop store_id (finished e) s h p = p
  after_round-Reports loop store_id again s h p = h.reports s p
  after_round-Reports loop store_id stopped s h p = inr (refl, p)

  winner_rounds-Reports :
      (fuel : ℕ) (dials : ℕ → Dial) (store_id policy : String) (max_attempts : ℤ) (used : ℕ)
      → Reports IsLoop (winner_rounds py fl setting fuel dials store_id policy max_attempts used)
  unfolding winner_rounds
  winner_rounds-Reports zero dials store_id policy max_attempts used =
      pure-Reports IsLoop none (λ s p. p)
  winner_rounds-Reports (suc fuel) dials store_id policy max_attempts used =
      then-Reports IsLoop IsRound
        (winner_round py fl setting dials store_id policy max_attempts (suc used)) _
        (winner_round-Reports dials store_id policy max_attempts (suc used))
        (λ round s p.
          after_round-Reports _ store_id round s
            (winner_rounds-Reports fuel dials store_id policy max_attempts (suc used)) p)

  if_ended-Reports :
      (result : Option (Ending F)) (s : Run F)
      → IsLoop result s
      → Outcome IsHonest ((if_ended py fl setting result s).0, (if_ended py fl setting result s).1)
  if_ended-Reports none s p = tt
  if_ended-Reports (some e) s p = p

  pub baseline_run-Reports :
      (fuel : ℕ) (dials : ℕ → Dial) (policy : String) (max_attempts : ℤ) (candidates : List String)
      → Reports IsHonest (baseline_run py fl setting fuel dials policy max_attempts candidates)
  unfolding baseline_run
  baseline_run-Reports fuel dials policy max_attempts candidates =
      bind-Reports IsHonest (explore py fl setting 1 candidates) _
        (explore-Keeps py fl setting Zero steady 1 candidates)
        (λ _.
          bind-Reports IsHonest (gets (λ (s : Run F). s.candidate_payloads)) _ (gets-Keeps Zero _)
            (λ payloads.
              bind-Reports IsHonest (lift (select_winner_payload py fl payloads)) _
                (lift-Keeps Zero _)
                (λ winner.
                  bind-Reports IsHonest (gets (λ (s : Run F). s.abort_reason)) _ (gets-Keeps Zero _)
                    (λ reason.
                      let store_id = str_of py (field_or "candidate_store_id" (str "") winner) in
                      if-Reports IsHonest (store_id == "") _ _ (gave_up_for-Reports py _) (
                        then-Reports IsHonest IsLoop
                          (winner_rounds py fl setting fuel dials store_id policy max_attempts 0) _
                          (winner_rounds-Reports fuel dials store_id policy max_attempts 0)
                          if_ended-Reports)))))
