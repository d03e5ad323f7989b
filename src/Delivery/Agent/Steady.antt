-- ===== src/Delivery/Agent/Steady.antt =====
-- What the steps of `_reference_agent_run` in Agent/vitabench_delivery.py keep, for any statement
-- about its variables that the single assignments keep.
use dbagent_tree.Prelude.{suc, String, Bool, true, false, string_eq, length, if◌then◌else◌}
use dbagent_tree.Exec.{
  Result, ok, err, hang, Exec, pure, gets, lift, modify, continue_keeps, ◌>>=◌, handle, catch,
}
use dbagent_tree.Client.State.{Client}
use dbagent_tree.Tools.Json.{Json, Fields}
use dbagent_tree.Tools.Python.{Python}
use dbagent_tree.Tools.Router.{Tool, run_tool}
use dbagent_tree.Delivery.Floats.{Floats}
use dbagent_tree.Delivery.Agent.{
  Run, Setting, aborted, recheck_failed, retried, rolled_back, explore_attempt, winner_attempt,
  add_payload, in_client, schedule_hotspot_bump, count_bump, hotspot_bump, first_round,
  one_more_round, no_branch, record_tool, call, gave_up, gave_up_for,
}

module _ {F : Type 0} where
  -- The statement is kept by the call, whether it returns or raises.
  pub record Keeps {A : Type 0} (P : Run F → Type 0) (m : Exec (Run F) A) : Type 0 where
    pub keeps : (s : Run F) → P s → P (m s).1

  -- The assignments of the run, besides the one that counts a commit.
  pub record Steady (py : Python F) (P : Run F → Type 0) : Type 0 where
    pub on_client : (c : Client) (s : Run F) → P s → P (record s { client = c })
    pub on_record :
        (name : String) (args result : Fields F) → Keeps P (record_tool py name args result)
    pub on_abort : (reason : Json F) → Keeps P (aborted reason)
    pub on_recheck : (reason : String) → Keeps P (recheck_failed reason)
    pub on_retry : Keeps P retried
    pub on_rollback : Keeps P rolled_back
    pub on_explore : Keeps P explore_attempt
    pub on_winner : Keeps P winner_attempt
    pub on_payload : (payload : Fields F) → Keeps P (add_payload payload)
    pub on_bump : Keeps P (modify (λ s. record s { interference_bumps = suc s.interference_bumps }))
    pub on_bumped : Keeps P (modify (λ s. record s { winner_hotspot_bumped = true }))

  -- Those of the tree mode alone.
  pub record TreeSteady (P : Run F → Type 0) : Type 0 where
    pub on_store :
        (store_id : String) → Keeps P (modify (λ s. record s { winner_store_id = store_id }))
    pub on_first_round : Keeps P first_round
    pub on_round : Keeps P one_more_round
    pub on_no_branch : Keeps P no_branch

  module _ {A B : Type 0} (P : Run F → Type 0) where
    pub bind-Keeps :
        (m : Exec (Run F) A) (f : A → Exec (Run F) B)
        → Keeps P m
        → ((a : A) → Keeps P (f a))
        → Keeps P (m >>= f)
    bind-Keeps m f h k = record {
      keeps = λ s p.
          continue_keeps P (m s).0 f (m s).1 (h.keeps s p) (λ a. (k a).keeps (m s).1 (h.keeps s p));
    }

  module _ {A : Type 0} (P : Run F → Type 0) where
    pub pure-Keeps : (a : A) → Keeps P (pure a)
    pure-Keeps a = record { keeps = λ s p. p }

    pub lift-Keeps : (r : Result A) → Keeps P (lift r)
    lift-Keeps r = record { keeps = λ s p. p }

    pub gets-Keeps : (f : Run F → A) → Keeps P (gets f)
    gets-Keeps f = record { keeps = λ s p. p }

    pub if-Keeps :
        (b : Bool) (m n : Exec (Run F) A) → Keeps P m → Keeps P n → Keeps P (if b then m else n)
    if-Keeps true m n h k = h
    if-Keeps false m n h k = k

    handle_keeps :
        (r : Result A) (handler : String → Exec (Run F) A) (s : Run F)
        → P s
        → ((message : String) → Keeps P (handler message))
        → P (handle r handler s).1
    handle_keeps (ok a) handler s p h = p
    handle_keeps (err m) handler s p h = (h m).keeps s p
    handle_keeps hang handler s p h = p

    pub catch-Keeps :
        (m : Exec (Run F) A) (handler : String → Exec (Run F) A)
        → Keeps P m
        → ((message : String) → Keeps P (handler message))
        → Keeps P (catch m handler)
    catch-Keeps m handler h k = record {
      keeps = λ s p. handle_keeps (m s).0 handler (m s).1 (h.keeps s p) k;
    }

  pub gave_up-Keeps :
      (py : Python F) (P : Run F → Type 0) (store_id : String) → Keeps P (gave_up py store_id)
  gave_up-Keeps py P store_id = gets-Keeps P _

  pub gave_up_for-Keeps :
      (py : Python F) (P : Run F → Type 0) (reason : Json F) → Keeps P (gave_up_for py reason)
  gave_up_for-Keeps py P reason = pure-Keeps P _

  module _ (py : Python F) (P : Run F → Type 0) (steady : Steady py P) where
    pub in_client-Keeps : {A : Type 0} (m : Exec Client A) → Keeps P (in_client m)
    in_client-Keeps m = record { keeps = λ s p. steady.on_client (m s.client).1 s p }

    pub call-Keeps :
        (setting : Setting F) (tool : Tool) (name : String) (args : Fields F)
        → Keeps P (call py setting tool name args)
    unfolding call
    call-Keeps setting tool name args = record {
      keeps = λ s p.
          let m = run_tool py (setting.net (length s.trace)) tool args in
          (bind-Keeps P (in_client m) (record_tool py name args) (in_client-Keeps m)
              (steady.on_record name args)).keeps
            s p;
    }

    count_bump-Keeps : (fl : Floats F) (scheduled : Bool) → Keeps P (count_bump fl scheduled)
    count_bump-Keeps fl true = steady.on_bump
    count_bump-Keeps fl false = pure-Keeps P tt

    pub hotspot_bump-Keeps :
        (fl : Floats F) (setting : Setting F) → Keeps P (hotspot_bump fl setting)
    hotspot_bump-Keeps fl setting =
        bind-Keeps P (in_client (schedule_hotspot_bump fl setting)) (count_bump fl)
          (in_client-Keeps (schedule_hotspot_bump fl setting)) (count_bump-Keeps fl)
