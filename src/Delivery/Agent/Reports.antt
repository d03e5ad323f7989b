-- ===== src/Delivery/Agent/Reports.antt =====
-- Whether `_reference_agent_run` (Agent/vitabench_delivery.py) reports a submission exactly if it has
-- counted a commit.
use dbagent_tree.Prelude.{
  ℕ, suc, ◌≡◌, refl, ap, if◌then◌else◌, String, Bool, true, false, Option, none, some, ◌⊎◌, inr,
}
use dbagent_tree.Exec.{Result, ok, err, hang, Exec, pure, continue, ◌>>=◌, handle, catch}
use dbagent_tree.Client.Session.{Dial}
use dbagent_tree.Tools.Json.{Json}
use dbagent_tree.Tools.Python.{Python}
use dbagent_tree.Delivery.Floats.{Floats}
use dbagent_tree.Delivery.Evaluate.{load_final_answer}
use dbagent_tree.Delivery.Agent.{
  Run, Setting, Ending, committed, in_client, record_tool, gave_up, gave_up_for,
}
use dbagent_tree.Delivery.Agent.Baseline.{reloaded}
use dbagent_tree.Delivery.Agent.Baseline.Keeping.{reloaded-Keeps}
use dbagent_tree.Delivery.Agent.Steady.{Keeps, Steady, TreeSteady}

module _ {F : Type 0} where
  abbrev pub HasCommits : ℕ → Run F → Type 0
  HasCommits n s = s.committed_attempts ≡ n

  pub HasCommits-Steady : (py : Python F) (n : ℕ) → Steady py (HasCommits n)
  unfolding record_tool
  HasCommits-Steady py n = record {
    on_client = λ c s p. p;
    on_record = λ name args result. record { keeps = λ s p. p };
    on_abort = λ reason. record { keeps = λ s p. p };
    on_recheck = λ reason. record { keeps = λ s p. p };
    on_retry = record { keeps = λ s p. p };
    on_rollback = record { keeps = λ s p. p };
    on_explore = record { keeps = λ s p. p };
    on_winner = record { keeps = λ s p. p };
    on_payload = λ payload. record { keeps = λ s p. p };
    on_bump = record { keeps = λ s p. p };
    on_bumped = record { keeps = λ s p. p };
  }

  pub HasCommits-TreeSteady : (n : ℕ) → TreeSteady (HasCommits n)
  HasCommits-TreeSteady n = record {
    on_store = λ store_id. record { keeps = λ s p. p };
    on_first_round = record { keeps = λ s p. p };
    on_round = record { keeps = λ s p. p };
    on_no_branch = record { keeps = λ s p. p };
  }

  -- A submission is reported with one commit, no submission with none.
  abbrev pub IsHonest : Ending F → Run F → Type 0
  IsHonest e s = ((e.submit_ok ≡ true) × HasCommits 1 s) ⊎ ((e.submit_ok ≡ false) × HasCommits 0 s)

  -- The same, where a loop or a block may end without a result.
  abbrev pub IsLoop : Option (Ending F) → Run F → Type 0
  IsLoop none s = HasCommits 0 s
  IsLoop (some e) s = IsHonest e s

  abbrev pub Outcome : {A : Type 0} → (A → Run F → Type 0) → Result A × Run F → Type 0
  Outcome good (ok a, s) = good a s
  Outcome good (err m, s) = HasCommits 0 s
  Outcome good (hang, s) = Unit

  -- From a state without a commit, the call ends in a state that its value is good for; if it raises,
  -- without a commit.
  pub record Reports {A : Type 0} (good : A → Run F → Type 0) (m : Exec (Run F) A) : Type 0 where
    pub reports : (s : Run F) → HasCommits 0 s → Outcome good ((m s).0, (m s).1)

  module _ {A B : Type 0} (good : B → Run F → Type 0) where
    continue-Outcome :
        (first : A → Run F → Type 0) (r : Result A) (f : A → Exec (Run F) B) (s : Run F)
        → Outcome first (r, s)
        → ((a : A) → first a s → Outcome good ((f a s).0, (f a s).1))
        → Outcome good ((continue r f s).0, (continue r f s).1)
    continue-Outcome first (ok a) f s h k = k a h
    continue-Outcome first (err m) f s h k = h
    continue-Outcome first hang f s h k = tt

    pub then-Reports :
        (first : A → Run F → Type 0) (m : Exec (Run F) A) (f : A → Exec (Run F) B)
        → Reports first m
        → ((a : A) (s : Run F) → first a s → Outcome good ((f a s).0, (f a s).1))
        → Reports good (m >>= f)
    then-Reports first m f h k = record {
      reports = λ s p. continue-Outcome first (m s).0 f (m s).1 (h.reports s p) (λ a. k a (m s).1);
    }

    continue_kept :
        (r : Result A) (f : A → Exec (Run F) B) (s : Run F)
        → HasCommits 0 s
        → ((a : A) → Reports good (f a))
        → Outcome good ((continue r f s).0, (continue r f s).1)
    continue_kept (ok a) f s h k = (k a).reports s h
    continue_kept (err m) f s h k = h
    continue_kept hang f s h k = tt

    pub bind-Reports :
        (m : Exec (Run F) A) (f : A → Exec (Run F) B)
        → Keeps (HasCommits 0) m
        → ((a : A) → Reports good (f a))
        → Reports good (m >>= f)
    bind-Reports m f h k = record {
      reports = λ s p. continue_kept (m s).0 f (m s).1 (h.keeps s p) k;
    }

  module _ {A : Type 0} (good : A → Run F → Type 0) where
    handle-Outcome :
        (r : Result A) (handler : String → Exec (Run F) A) (s : Run F)
        → Outcome good (r, s)
        → ((message : String) → Reports good (handler message))
        → Outcome good ((handle r handler s).0, (handle r handler s).1)
    handle-Outcome (ok a) handler s h k = h
    handle-Outcome (err m) handler s h k = (k m).reports s h
    handle-Outcome hang handler s h k = tt

    pub catch-Reports :
        (m : Exec (Run F) A) (handler : String → Exec (Run F) A)
        → Reports good m
        → ((message : String) → Reports good (handler message))
        → Reports good (catch m handler)
    catch-Reports m handler h k = record {
      reports = λ s p. handle-Outcome (m s).0 handler (m s).1 (h.reports s p) k;
    }

    pub if-Reports :
        (b : Bool) (m n : Exec (Run F) A)
        → Reports good m
        → Reports good n
        → Reports good (if b then m else n)
    if-Reports true m n h k = h
    if-Reports false m n h k = k

    pub pure-Reports : (a : A) → ((s : Run F) → HasCommits 0 s → good a s) → Reports good (pure a)
    pure-Reports a h = record { reports = h }

  pub gave_up-Reports : (py : Python F) (store_id : String) → Reports IsHonest (gave_up py store_id)
  gave_up-Reports py store_id = record { reports = λ s p. inr (refl, p) }

  pub gave_up_for-Reports :
      (py : Python F) (reason : Json F) → Reports IsHonest (gave_up_for py reason)
  gave_up_for-Reports py reason = record { reports = λ s p. inr (refl, p) }

  -- A block that returns what the call gives.
  pub some_result :
      (m : Exec (Run F) (Ending F))
      → Reports IsHonest m
      → Reports IsLoop (m >>= λ result. pure (some result))
  some_result m h = then-Reports IsLoop IsHonest m (λ result. pure (some result)) h (λ e s p. p)

module _ {F : Type 0} (py : Python F) (fl : Floats F) (setting : Setting F) where
  -- A commit, and the answer that is read again: nothing raises after the commit.
  pub after_commit :
      {B : Type 0} (good : B → Run F → Type 0) (dials : ℕ → Dial) (answer : Json F × Option String)
      (f : Json F × Option String → Exec (Run F) B)
      → ((a : Json F × Option String) (s : Run F)
          → HasCommits 1 s
          → Outcome good ((f a s).0, (f a s).1))
      → Reports good (committed >>= λ _. reloaded py fl setting dials answer >>= f)
  after_commit good dials answer f h = record {
    reports = λ s p.
        let now = record s { committed_attempts = suc s.committed_attempts } in
        let load = in_client (load_final_answer py fl dials setting.namespace) now in
        let kept =
          (reloaded-Keeps py fl setting (HasCommits 1) (HasCommits-Steady py 1) dials answer).keeps
            now (ap suc p) in
        loaded load.0 load.1 kept;
  }
    where
      loaded :
          (r : Result (Json F × Option String)) (s : Run F)
          → HasCommits 1 (handle r (λ _. pure answer) s).1
          → Outcome good (
            (continue (handle r (λ _. pure answer) s).0 f (handle r (λ _. pure answer) s).1).0,
            (continue (handle r (λ _. pure answer) s).0 f (handle r (λ _. pure answer) s).1).1,
          )
      loaded (ok a) s p = h a s p
      loaded (err m) s p = h answer s p
      loaded hang s p = tt
