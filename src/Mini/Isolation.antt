-- ===== src/Mini/Isolation.antt =====
-- Transactions of MiniDBClient (Agent/db_client.py) run beside one another: what one of them sees
-- of the calls of the others.
use dbagent_tree.Prelude.{
  inl, inr, ap, pos_part, ◌⊎◌, Option-cases, Bool-cases, same_refl, ℕ, zero, suc, ℤ, String, ◌≡◌,
  ◌≢◌, refl, ◌∙◌, Bool, true, false, Option, none, some, List, [], ◌∷◌, arith, string_eq,
}
use dbagent_tree.Dict.{lookup, insert}
use dbagent_tree.Dict.Laws.{lookup-insert, lookup-erase}
use dbagent_tree.Exec.{ok, err, continue_keeps}
use dbagent_tree.Mini
use dbagent_tree.Mini.Branches
use dbagent_tree.Mini.{
  MiniDb, bad_tx, TreeContext, new_tx, TxContext, set_tree, drop_tree, set_tx, drop_tx, require_tx,
}
use dbagent_tree.Mini.Branches.{require_tree_tx, commit_winner, publish, tbranch_rounds}
use dbagent_tree.Mini.Calls.{
  Call, after, run, get_state, tget_state, tget_many_state, trefresh_winner_state,
}

-- The plain transaction that a call writes, if any.
abbrev pub writes_tx : Call → Option String
writes_tx (Call.start t) = some t
writes_tx (Call.put t k v) = some t
writes_tx (Call.commit t) = some t
writes_tx (Call.rollback t) = some t
writes_tx _ = none

-- The calls that may change the store.
abbrev pub may_commit : Call → Bool
may_commit (Call.commit t) = true
may_commit (Call.tcommit t) = true
may_commit (Call.tcommit_retry t) = true
may_commit _ = false

abbrev pub AllCalls : (Call → Type 0) → List Call → Type 0
AllCalls P [] = Unit
AllCalls P (c ∷ cs) = P c × AllCalls P cs

-- Calls on trees, but for the commits, change the trees alone.
abbrev SameOutside : MiniDb → MiniDb → Type 0
SameOutside a b = (a.tx_map ≡ b.tx_map) × (a.store ≡ b.store)

module _ (t : String) (db : MiniDb) where
  tstart-SameOutside : SameOutside (Branches.tstart t db).1 db
  unfolding Branches.tstart
  tstart-SameOutside = (refl, refl)

  tabort-SameOutside : SameOutside (Branches.tabort t db).1 db
  unfolding Branches.tabort require_tree_tx
  tabort-SameOutside = ground arith

  tbranch-SameOutside : (p : ℤ) → SameOutside (Branches.tbranch t p db).1 db
  unfolding Branches.tbranch require_tree_tx
  tbranch-SameOutside p = ground arith

  tput-SameOutside : (i : ℤ) (k v : String) → SameOutside (Branches.tput t i k v db).1 db
  unfolding Branches.tput require_tree_tx
  tput-SameOutside i k v = ground arith

  twinner-SameOutside : (i : ℤ) → SameOutside (Branches.twinner t i db).1 db
  unfolding Branches.twinner require_tree_tx
  twinner-SameOutside i = ground arith

  tcommit_retry-tx_map : (Branches.tcommit_retry t db).1.tx_map ≡ db.tx_map
  unfolding Branches.tcommit_retry require_tree_tx commit_winner
  tcommit_retry-tx_map = ground arith

tbranch_rounds-SameOutside :
    (n : ℕ) (t : String) (p : ℤ) (db : MiniDb) → SameOutside (tbranch_rounds n t p db).1 db
unfolding tbranch_rounds
tbranch_rounds-SameOutside zero t p db = (refl, refl)
tbranch_rounds-SameOutside (suc n) t p db =
    let first = tbranch-SameOutside t db p in
    let here = (Branches.tbranch t p db).1 in
    let rest = tbranch_rounds-SameOutside n t p here in
    let both : SameOutside (tbranch_rounds n t p here).1 db =
      (rest.0 ∙ first.0, rest.1 ∙ first.1) in
    continue_keeps (λ s. SameOutside s db) (Branches.tbranch t p db).0 _ here first
      (λ i.
        continue_keeps (λ s. SameOutside s db) (tbranch_rounds n t p here).0 _ _ both (λ is. both))

tput_many-SameOutside :
    (t : String) (rs : List (ℤ × String × String)) (db : MiniDb)
    → SameOutside (Branches.tput_many t rs db).1 db
unfolding Branches.tput_many
tput_many-SameOutside t [] db = (refl, refl)
tput_many-SameOutside t ((i, k, v) ∷ rs) db =
    let first = tput-SameOutside t db i k v in
    let here = (Branches.tput t i k v db).1 in
    let rest = tput_many-SameOutside t rs here in
    continue_keeps (λ s. SameOutside s db) (Branches.tput t i k v db).0 _ here first
      (λ _. (rest.0 ∙ first.0, rest.1 ∙ first.1))

require_tx-either :
    (u : String) (db : MiniDb)
    → ((tx : TxContext) × (require_tx u db ≡ (ok tx, db)))
      ⊎ (require_tx u db ≡ (err (bad_tx u), db))
unfolding require_tx
require_tx-either u db = elim (Option-cases (lookup u db.tx_map)) [
  | inl e ↦ inr (rw e)
  | inr (tx, e) ↦ elim (Bool-cases tx.active) [
    | inl live ↦ inl (tx, rw (e, live))
    | inr ended ↦ inr (rw (e, ended))
  ]
]

-- A plain call leaves the transactions of other ids.
module _ (t u : String) (db : MiniDb) (other : u ≢ t) where
  start-other : lookup t (Mini.start u db).1.tx_map ≡ lookup t db.tx_map
  unfolding Mini.start
  start-other =
      ground (arith, lookup-insert t u (new_tx u db.store) db.tx_map, string_eq.same_iff t u)

  write-other : (tx : TxContext) → lookup t (set_tx u tx db).tx_map ≡ lookup t db.tx_map
  write-other tx = ground (arith, lookup-insert t u tx db.tx_map, string_eq.same_iff t u)

  end-other : (tx : TxContext) → lookup t (drop_tx u (set_tx u tx db)).tx_map ≡ lookup t db.tx_map
  end-other tx =
      ground
        (arith, lookup-erase t u (insert u tx db.tx_map), write-other tx, string_eq.same_iff t u)

  put-other : (k v : String) → lookup t (Mini.put u k v db).1.tx_map ≡ lookup t db.tx_map
  unfolding Mini.put
  put-other k v = elim (require_tx-either u db) [
    | inl (tx, e) ↦ rw e (write-other (record tx { writes = insert k v tx.writes }))
    | inr e ↦ rw e
  ]

  commit-other : lookup t (Mini.commit u db).1.tx_map ≡ lookup t db.tx_map
  unfolding Mini.commit
  commit-other = elim (require_tx-either u db) [
    | inl (tx, e) ↦ rw e (end-other (record tx { active = false }))
    | inr e ↦ rw e
  ]

  rollback-other : lookup t (Mini.rollback u db).1.tx_map ≡ lookup t db.tx_map
  unfolding Mini.rollback
  rollback-other = elim (require_tx-either u db) [
    | inl (tx, e) ↦ rw e (end-other (record tx { active = false }))
    | inr e ↦ rw e
  ]

-- A transaction is as it was after a call that does not write it.
after-other :
    (t : String) (c : Call) (db : MiniDb)
    → writes_tx c ≢ some t
    → lookup t (after c db).tx_map ≡ lookup t db.tx_map
unfolding after
after-other t (Call.start u) db h = start-other t u db (λ e. h (ap some e))
after-other t (Call.put u k v) db h = put-other t u db (λ e. h (ap some e)) k v
after-other t (Call.commit u) db h = commit-other t u db (λ e. h (ap some e))
after-other t (Call.rollback u) db h = rollback-other t u db (λ e. h (ap some e))
after-other t (Call.kv_get k) db h = unfold Mini.kv_get in refl
after-other t (Call.get u k) db h = rw get_state
after-other t (Call.tstart u) db h = ap (lookup t) (tstart-SameOutside u db).0
after-other t (Call.tbranch u p) db h = ap (lookup t) (tbranch-SameOutside u db p).0
after-other t (Call.tbranch_many u p n) db h =
    unfold Branches.tbranch_many in ap (lookup t) (tbranch_rounds-SameOutside (pos_part n) u p db).0
after-other t (Call.tget u i k s) db h = rw tget_state
after-other t (Call.tget_many u rs s) db h = rw tget_many_state
after-other t (Call.tput u i k v) db h = ap (lookup t) (tput-SameOutside u db i k v).0
after-other t (Call.tput_many u rs) db h = ap (lookup t) (tput_many-SameOutside u rs db).0
after-other t (Call.twinner u i) db h = ap (lookup t) (twinner-SameOutside u db i).0
after-other t (Call.trefresh_winner u i k) db h = rw trefresh_winner_state
after-other t (Call.tcommit u) db h =
    unfold Branches.tcommit in ap (lookup t) (tcommit_retry-tx_map u db)
after-other t (Call.tcommit_retry u) db h = ap (lookup t) (tcommit_retry-tx_map u db)
after-other t (Call.tabort u) db h = ap (lookup t) (tabort-SameOutside u db).0
after-other t Call.dump_all db h = unfold Mini.dump_all in refl

run-other :
    (t : String) (cs : List Call) (db : MiniDb)
    → AllCalls (λ c. writes_tx c ≢ some t) cs
    → lookup t (run cs db).tx_map ≡ lookup t db.tx_map
unfolding run
run-other t [] db h = refl
run-other t (c ∷ cs) db h = run-other t cs (after c db) h.1 ∙ after-other t c db h.0

-- What `get` answers depends on the transaction's own context alone.
get-same :
    (t k : String) (a b : MiniDb)
    → lookup t a.tx_map ≡ lookup t b.tx_map
    → (Mini.get t k a).0 ≡ (Mini.get t k b).0
unfolding Mini.get require_tx
get-same t k a b h = ground arith

-- Repeatable reads: a transaction's reads do not change, whatever others begin, write, commit or
-- roll back in between, on plain and tree transactions.
pub repeatable_read :
    (t k : String) (cs : List Call) (db : MiniDb)
    → AllCalls (λ c. writes_tx c ≢ some t) cs
    → (Mini.get t k (run cs db)).0 ≡ (Mini.get t k db).0
repeatable_read t k cs db h = get-same t k (run cs db) db (run-other t cs db h)

get-start :
    (t k : String) (db : MiniDb)
    → (Mini.get t k (after (Call.start t) db)).0 ≡ ok (lookup k db.store)
unfolding after Mini.get Mini.start require_tx
get-start t k db =
    rw (lookup-insert t t (new_tx t db.store) db.tx_map, same_refl t) (unfold lookup in refl)

-- Snapshot reads: until a transaction writes, it reads the store as it was when it began.
pub snapshot_read :
    (t k : String) (cs : List Call) (db : MiniDb)
    → AllCalls (λ c. writes_tx c ≢ some t) cs
    → (Mini.get t k (run cs (after (Call.start t) db))).0 ≡ ok (lookup k db.store)
snapshot_read t k cs db h = repeatable_read t k cs (after (Call.start t) db) h ∙ get-start t k db

after-store : (c : Call) (db : MiniDb) → may_commit c ≡ false → (after c db).store ≡ db.store
unfolding after
after-store (Call.start u) db h = unfold Mini.start in refl
after-store (Call.put u k v) db h = unfold Mini.put require_tx in ground arith
after-store (Call.commit u) db h = cc
after-store (Call.rollback u) db h = unfold Mini.rollback require_tx in ground arith
after-store (Call.kv_get k) db h = unfold Mini.kv_get in refl
after-store (Call.get u k) db h = rw get_state
after-store (Call.tstart u) db h = (tstart-SameOutside u db).1
after-store (Call.tbranch u p) db h = (tbranch-SameOutside u db p).1
after-store (Call.tbranch_many u p n) db h =
    unfold Branches.tbranch_many in (tbranch_rounds-SameOutside (pos_part n) u p db).1
after-store (Call.tget u i k s) db h = rw tget_state
after-store (Call.tget_many u rs s) db h = rw tget_many_state
after-store (Call.tput u i k v) db h = (tput-SameOutside u db i k v).1
after-store (Call.tput_many u rs) db h = (tput_many-SameOutside u rs db).1
after-store (Call.twinner u i) db h = (twinner-SameOutside u db i).1
after-store (Call.trefresh_winner u i k) db h = rw trefresh_winner_state
after-store (Call.tcommit u) db h = cc
after-store (Call.tcommit_retry u) db h = cc
after-store (Call.tabort u) db h = (tabort-SameOutside u db).1
after-store Call.dump_all db h = unfold Mini.dump_all in refl

-- No write shows in the store before a commit: calls that commit nothing leave the store alone.
pub run-store :
    (cs : List Call) (db : MiniDb)
    → AllCalls (λ c. may_commit c ≡ false) cs
    → (run cs db).store ≡ db.store
unfolding run
run-store [] db h = refl
run-store (c ∷ cs) db h = run-store cs (after c db) h.1 ∙ after-store c db h.0
