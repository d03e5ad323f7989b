-- ===== src/Mini/Calls.antt =====
-- The calls of MiniDBClient as one type, and what any sequence of them keeps.
use dbagent_tree.Prelude.{
  ℕ, zero, suc, String, ◌≡◌, refl, ◌∙◌, arith, Bool, List, [], ◌∷◌, ℤ, pos_part,
}
use dbagent_tree.Exec.{continue_keeps}
use dbagent_tree.Mini
use dbagent_tree.Mini.Branches
use dbagent_tree.Mini.{MiniDb, require_tx}
use dbagent_tree.Mini.Branches.{require_tree_tx, tbranch_rounds}
use dbagent_tree.Mini.Invariant.{IsValid}
use dbagent_tree.Mini.Steps.{
  start-IsValid, put-IsValid, commit-IsValid, rollback-IsValid, tstart-IsValid, tabort-IsValid,
  tbranch-IsValid, tput-IsValid, twinner-IsValid, tcommit_retry-IsValid,
}

-- One call of a method, with its arguments; `start` and `tstart` have the id that they draw.
pub data Call : Type 0 where
  kv_get : String → Call
  start : String → Call
  get : String → String → Call
  put : String → String → String → Call
  commit rollback : String → Call
  tstart : String → Call
  tbranch : String → ℤ → Call
  tbranch_many : String → ℤ → ℤ → Call
  tget : String → ℤ → String → Bool → Call
  tget_many : String → List (ℤ × String) → Bool → Call
  tput : String → ℤ → String → String → Call
  tput_many : String → List (ℤ × String × String) → Call
  twinner : String → ℤ → Call
  trefresh_winner : String → ℤ → String → Call
  tcommit tcommit_retry tabort : String → Call
  dump_all : Call

-- The state after a call, whether it returned or raised.
unfoldable pub after : Call → MiniDb → MiniDb
after (Call.kv_get k) db = (Mini.kv_get k db).1
after (Call.start t) db = (Mini.start t db).1
after (Call.get t k) db = (Mini.get t k db).1
after (Call.put t k v) db = (Mini.put t k v db).1
after (Call.commit t) db = (Mini.commit t db).1
after (Call.rollback t) db = (Mini.rollback t db).1
after (Call.tstart t) db = (Branches.tstart t db).1
after (Call.tbranch t p) db = (Branches.tbranch t p db).1
after (Call.tbranch_many t p n) db = (Branches.tbranch_many t p n db).1
after (Call.tget t i k s) db = (Branches.tget t i k s db).1
after (Call.tget_many t rs s) db = (Branches.tget_many t rs s db).1
after (Call.tput t i k v) db = (Branches.tput t i k v db).1
after (Call.tput_many t rs) db = (Branches.tput_many t rs db).1
after (Call.twinner t i) db = (Branches.twinner t i db).1
after (Call.trefresh_winner t i k) db = (Branches.trefresh_winner t i k db).1
after (Call.tcommit t) db = (Branches.tcommit t db).1
after (Call.tcommit_retry t) db = (Branches.tcommit_retry t db).1
after (Call.tabort t) db = (Branches.tabort t db).1
after Call.dump_all db = (Mini.dump_all db).1

-- Calls in the order in which they take the lock.
unfoldable pub run : List Call → MiniDb → MiniDb
run [] db = db
run (c ∷ cs) db = run cs (after c db)

-- The loops of calls keep the invariant, also where one of their calls raises.
tbranch_rounds-IsValid :
    (n : ℕ) (t : String) (p : ℤ) (db : MiniDb) → IsValid db → IsValid (tbranch_rounds n t p db).1
unfolding tbranch_rounds
tbranch_rounds-IsValid zero t p db h = h
tbranch_rounds-IsValid (suc n) t p db h =
    let db' = (Branches.tbranch t p db).1 in
    let h' : IsValid db' = tbranch-IsValid t db h p in
    let rest = tbranch_rounds-IsValid n t p db' h' in
    continue_keeps IsValid (Branches.tbranch t p db).0 _ db' h'
      (λ i. continue_keeps IsValid (tbranch_rounds n t p db').0 _ _ rest (λ is. rest))

tput_many-IsValid :
    (t : String) (rs : List (ℤ × String × String)) (db : MiniDb)
    → IsValid db
    → IsValid (Branches.tput_many t rs db).1
unfolding Branches.tput_many
tput_many-IsValid t [] db h = h
tput_many-IsValid t ((i, k, v) ∷ rs) db h =
    let h' : IsValid (Branches.tput t i k v db).1 = tput-IsValid t db h i k v in
    continue_keeps IsValid (Branches.tput t i k v db).0 _ _ h'
      (λ _. tput_many-IsValid t rs (Branches.tput t i k v db).1 h')

-- Reads leave the state as it is.
module _ (t : String) (db : MiniDb) where
  pub get_state : (k : String) → (Mini.get t k db).1 ≡ db
  unfolding Mini.get require_tx
  get_state k = ground arith

  pub tget_state : (i : ℤ) (k : String) (strict : Bool) → (Branches.tget t i k strict db).1 ≡ db
  unfolding Branches.tget require_tree_tx
  tget_state i k strict = ground arith

  pub trefresh_winner_state : (i : ℤ) (k : String) → (Branches.trefresh_winner t i k db).1 ≡ db
  unfolding Branches.trefresh_winner require_tree_tx
  trefresh_winner_state i k = ground arith

pub tget_many_state :
    (t : String) (rs : List (ℤ × String)) (strict : Bool) (db : MiniDb)
    → (Branches.tget_many t rs strict db).1 ≡ db
unfolding Branches.tget_many
tget_many_state t [] strict db = refl
tget_many_state t ((i, k) ∷ rs) strict db =
    let here = (Branches.tget t i k strict db).1 in
    let same = tget_state t db i k strict in
    let rest = tget_many_state t rs strict here ∙ same in
    continue_keeps (λ s. s ≡ db) (Branches.tget t i k strict db).0 _ _ same
      (λ v.
        continue_keeps (λ s. s ≡ db) (Branches.tget_many t rs strict here).0 _ _ rest (λ _. rest))

-- Every call keeps the invariant.
pub after-IsValid : (c : Call) (db : MiniDb) → IsValid db → IsValid (after c db)
unfolding after
after-IsValid (Call.kv_get k) db h = unfold Mini.kv_get in h
after-IsValid (Call.start t) db h = start-IsValid t db h
after-IsValid (Call.get t k) db h = rw get_state h
after-IsValid (Call.put t k v) db h = put-IsValid t db h k v
after-IsValid (Call.commit t) db h = commit-IsValid t db h
after-IsValid (Call.rollback t) db h = rollback-IsValid t db h
after-IsValid (Call.tstart t) db h = tstart-IsValid t db h
after-IsValid (Call.tbranch t p) db h = tbranch-IsValid t db h p
after-IsValid (Call.tbranch_many t p n) db h =
    unfold Branches.tbranch_many in tbranch_rounds-IsValid (pos_part n) t p db h
after-IsValid (Call.tget t i k s) db h = rw tget_state h
after-IsValid (Call.tget_many t rs s) db h = rw tget_many_state h
after-IsValid (Call.tput t i k v) db h = tput-IsValid t db h i k v
after-IsValid (Call.tput_many t rs) db h = tput_many-IsValid t rs db h
after-IsValid (Call.twinner t i) db h = twinner-IsValid t db h i
after-IsValid (Call.trefresh_winner t i k) db h = rw trefresh_winner_state h
after-IsValid (Call.tcommit t) db h = unfold Branches.tcommit in tcommit_retry-IsValid t db h
after-IsValid (Call.tcommit_retry t) db h = tcommit_retry-IsValid t db h
after-IsValid (Call.tabort t) db h = tabort-IsValid t db h
after-IsValid Call.dump_all db h = unfold Mini.dump_all in h

-- Whatever the calls and their order, a client that starts from a valid state has one at the end.
pub run-IsValid : (cs : List Call) (db : MiniDb) → IsValid db → IsValid (run cs db)
unfolding run
run-IsValid [] db h = h
run-IsValid (c ∷ cs) db h = run-IsValid cs (after c db) (after-IsValid c db h)
