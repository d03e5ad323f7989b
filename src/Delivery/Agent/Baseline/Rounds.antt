-- ===== src/Delivery/Agent/Baseline/Rounds.antt =====
-- How often the baseline mode of `_reference_agent_run` (Agent/vitabench_delivery.py) tries its
-- winner.
use dbagent_tree.Prelude.{
  ℕ, zero, suc, ◌+◌, ◌≤◌, ◌<◌, ◌≡◌, ◌≢◌, refl, String, true, false, Option, none, inl, inr,
  Bool-cases, ℤ, pos, negsuc, arith, string_eq, ◌==◌,
}
use dbagent_tree.Exec.{Result, ok, err, hang, Exec, pure, continue, ◌>>=◌, ◌>>◌, catch}
use dbagent_tree.Client.Session.{Dial}
use dbagent_tree.Tools.Json.{Fields, str, end}
use dbagent_tree.Tools.Python.{Python}
use dbagent_tree.Tools.Router.{Tool}
use dbagent_tree.Delivery.Floats.{Floats}
use dbagent_tree.Delivery.Agent.{Run, Setting, Ending, aborted, winner_attempt, call, is_ok}
use dbagent_tree.Delivery.Agent.Baseline.{
  Round, Tried, finished, again, stopped, sent, refused, not_committed, capped, not_started,
  roll_back, text_at, should_retry_baseline_winner, winner_body, retry_or_stop, round_tried,
  round_started, winner_round, after_round, winner_rounds,
}

module _ {F : Type 0} where
  -- The loop has ended, or hangs in a call, or raises.
  abbrev pub Ended : Result (Option (Ending F)) → Type 0
  Ended r = r ≢ ok none

  -- Another round is only asked for if the statement holds.
  pub record AgainOnlyIf (P : Type 0) (m : Exec (Run F) (Round F)) : Type 0 where
    pub only_if : (s : Run F) → (m s).0 ≡ ok again → P

  continue_only_if :
      {A : Type 0} (P : Type 0) (r : Result A) (f : A → Exec (Run F) (Round F)) (s : Run F)
      → ((a : A) → AgainOnlyIf P (f a))
      → (continue r f s).0 ≡ ok again
      → P
  continue_only_if P (ok a) f s h e = (h a).only_if s e
  continue_only_if P (err m) f s h e = absurd (cc)
  continue_only_if P hang f s h e = absurd (cc)

  bind-AgainOnlyIf :
      {A : Type 0} (P : Type 0) (m : Exec (Run F) A) (f : A → Exec (Run F) (Round F))
      → ((a : A) → AgainOnlyIf P (f a))
      → AgainOnlyIf P (m >>= f)
  bind-AgainOnlyIf P m f h = record { only_if = λ s e. continue_only_if P (m s).0 f (m s).1 h e }

capped_pos : (max_attempts : ℤ) → 0 < capped max_attempts
capped_pos (pos zero) = omega arith
capped_pos (pos (suc n)) = omega arith
capped_pos (negsuc n) = omega arith

module _ {F : Type 0} (py : Python F) (fl : Floats F) (setting : Setting F) where
  retry_or_stop-AgainOnlyIf :
      (used : ℕ) (policy : String) (max_attempts : ℤ)
      → AgainOnlyIf
          (should_retry_baseline_winner used policy max_attempts ≡ true)
          (retry_or_stop py fl setting used policy max_attempts)
  unfolding retry_or_stop
  retry_or_stop-AgainOnlyIf used policy max_attempts = record {
    only_if = λ s e. elim (Bool-cases (should_retry_baseline_winner used policy max_attempts)) [
      | inl retries ↦ retries
      | inr stops ↦ absurd (let wrong = rw stops at e in cc)
    ];
  }

  round_tried-AgainOnlyIf :
      (used : ℕ) (policy : String) (max_attempts : ℤ) (tx_id : String) (tried : Tried F)
      → AgainOnlyIf
          (should_retry_baseline_winner used policy max_attempts ≡ true)
          (round_tried py fl setting used policy max_attempts tx_id tried)
  unfolding round_tried
  round_tried-AgainOnlyIf used policy max_attempts tx_id (sent result) = record {
    only_if = λ s e. absurd (cc);
  }
  round_tried-AgainOnlyIf used policy max_attempts tx_id refused = record {
    only_if = λ s e. absurd (cc);
  }
  round_tried-AgainOnlyIf used policy max_attempts tx_id not_committed =
      bind-AgainOnlyIf _ (roll_back py fl setting tx_id) _
        (λ _. retry_or_stop-AgainOnlyIf used policy max_attempts)

  round_started-AgainOnlyIf :
      (dials : ℕ → Dial) (store_id policy : String) (max_attempts : ℤ) (used : ℕ) (reply : Fields F)
      → AgainOnlyIf
          (should_retry_baseline_winner used policy max_attempts ≡ true)
          (round_started py fl setting dials store_id policy max_attempts used reply)
  unfolding round_started
  round_started-AgainOnlyIf dials store_id policy max_attempts used reply =
      let tx_id = text_at py fl setting "tx_id" reply in
      let body = winner_body py fl setting dials store_id used tx_id in
      elim (Bool-cases (is_ok py reply)) [
        | inl started ↦ rw started (
            bind-AgainOnlyIf _ (catch body (λ message. aborted (str message) >> pure not_committed))
              _ (round_tried-AgainOnlyIf used policy max_attempts tx_id))
        | inr failed ↦ rw failed (
            bind-AgainOnlyIf _ (not_started py fl setting reply) _
              (λ _. retry_or_stop-AgainOnlyIf used policy max_attempts))
      ]

  winner_round-AgainOnlyIf :
      (dials : ℕ → Dial) (store_id policy : String) (max_attempts : ℤ) (used : ℕ)
      → AgainOnlyIf
          (should_retry_baseline_winner used policy max_attempts ≡ true)
          (winner_round py fl setting dials store_id policy max_attempts used)
  unfolding winner_round
  winner_round-AgainOnlyIf dials store_id policy max_attempts used =
      bind-AgainOnlyIf _ winner_attempt _ (λ _.
        bind-AgainOnlyIf _ (call py setting Tool.tx_start "tx_start" end) _
          (round_started-AgainOnlyIf dials store_id policy max_attempts used))

  -- A fixed policy asks for no further round after the last one that is allowed.
  fixed-capped :
      (used : ℕ) (policy : String) (max_attempts : ℤ)
      → (policy == "until_success") ≡ false
      → should_retry_baseline_winner used policy max_attempts ≡ true
      → used < capped max_attempts
  unfolding should_retry_baseline_winner
  fixed-capped used policy max_attempts fixed h = ground arith

  after_round-Ended :
      (loop : Exec (Run F) (Option (Ending F))) (store_id : String) (r : Result (Round F))
      (s : Run F)
      → (r ≡ ok again → Ended (loop s).0)
      → Ended (continue r (after_round py fl setting loop store_id) s).0
  after_round-Ended loop store_id (ok (finished result)) s h e = absurd (cc)
  after_round-Ended loop store_id (ok again) s h e = h refl e
  after_round-Ended loop store_id (ok stopped) s h e = absurd (cc)
  after_round-Ended loop store_id (err m) s h e = absurd (cc)
  after_round-Ended loop store_id hang s h e = absurd (cc)

  more_allowed :
      (dials : ℕ → Dial) (store_id policy : String) (max_attempts : ℤ) (used : ℕ) (s : Run F)
      → (policy == "until_success") ≡ false
      → (winner_round py fl setting dials store_id policy max_attempts (suc used) s).0 ≡ ok again
      → suc used < capped max_attempts
  more_allowed dials store_id policy max_attempts used s fixed e =
      fixed-capped (suc used) policy max_attempts fixed
        ((winner_round-AgainOnlyIf dials store_id policy max_attempts (suc used)).only_if s e)

  rounds-Ended :
      (dials : ℕ → Dial) (store_id policy : String) (max_attempts : ℤ) (left used : ℕ) (s : Run F)
      → (policy == "until_success") ≡ false
      → capped max_attempts ≤ used + suc left
      → Ended (winner_rounds py fl setting (suc left) dials store_id policy max_attempts used s).0
  unfolding winner_rounds
  rounds-Ended dials store_id policy max_attempts zero used s fixed enough =
      let round = winner_round py fl setting dials store_id policy max_attempts (suc used) in
      after_round-Ended _ store_id (round s).0 (round s).1 (λ e.
        absurd (omega (arith, more_allowed dials store_id policy max_attempts used s fixed e)))
  rounds-Ended dials store_id policy max_attempts (suc left) used s fixed enough =
      let round = winner_round py fl setting dials store_id policy max_attempts (suc used) in
      after_round-Ended _ store_id (round s).0 (round s).1 (λ e.
        rounds-Ended dials store_id policy max_attempts left (suc used) (round s).1 fixed
          (omega (arith, enough)))

  -- With a fixed retry policy the loop over the winner's rounds has ended after `max_attempts` rounds,
  -- or one if that is not positive.
  pub winner_rounds-Ended :
      (dials : ℕ → Dial) (store_id policy : String) (max_attempts : ℤ) (fuel : ℕ) (s : Run F)
      → (policy == "until_success") ≡ false
      → capped max_attempts ≤ fuel
      → Ended (winner_rounds py fl setting fuel dials store_id policy max_attempts 0 s).0
  winner_rounds-Ended dials store_id policy max_attempts zero s fixed h =
      absurd (omega (arith, capped_pos max_attempts))
  winner_rounds-Ended dials store_id policy max_attempts (suc fuel) s fixed h =
      rounds-Ended dials store_id policy max_attempts fuel 0 s fixed (omega arith)
