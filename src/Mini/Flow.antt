-- ===== src/Mini/Flow.antt =====
-- A plain transaction from its start to its commit, with one write, in MiniDBClient of
-- Agent/db_client.py.
use dbagent_tree.Prelude.{
  String, ◌≡◌, refl, ◌∙◌, some, [], arith, string_eq, ◌==◌, Option, if◌then◌else◌,
}
use dbagent_tree.Dict.{lookup, insert, or_else}
use dbagent_tree.Dict.Laws.{lookup-insert_self}
use dbagent_tree.Exec.{ok}
use dbagent_tree.Mini.{TxContext, MiniDb, new_tx, set_tx, start, put, commit}
use dbagent_tree.Mini.Invariant.{IsValid}
use dbagent_tree.Mini.Steps.{start-IsValid, put-IsValid, commit-IsValid}
use dbagent_tree.Mini.Commit.{require_tx-known, commit_lem}

one_write :
    (j k v : String) (o : Option String)
    → or_else (lookup j (insert k v [])) o ≡ (if j == k then some v else o)
unfolding lookup insert
one_write j k v o = ground arith

module _ (t k v : String) (db : MiniDb) (h : IsValid db) where
  -- The states on the way.
  abbrev pub begun : MiniDb
  begun = set_tx t (new_tx t db.store) db

  abbrev pub written : MiniDb
  written = set_tx t (record (new_tx t db.store) { writes = insert k v [] }) begun

  pub start_lem : start t db ≡ (ok t, begun)
  unfolding start
  start_lem = refl

  begun-IsValid : IsValid begun
  begun-IsValid = unfold start in start-IsValid t db h

  pub put_lem : put t k v begun ≡ (ok tt, written)
  unfolding put
  put_lem = rw (
      require_tx-known t begun begun-IsValid (new_tx t db.store)
        (lookup-insert_self t (new_tx t db.store) db.tx_map))

  pub written-IsValid : IsValid written
  written-IsValid = rw put_lem at (put-IsValid t begun begun-IsValid k v)

  pub commit_written :
      ((commit t written).0 ≡ ok tt)
      × ((j : String)
          → lookup j (commit t written).1.store ≡ (if j == k then some v else lookup j db.store))
      × IsValid (commit t written).1
  commit_written =
      let tx : TxContext = record (new_tx t db.store) { writes = insert k v [] } in
      let c = commit_lem t written written-IsValid tx (lookup-insert_self t tx begun.tx_map) in
      (
        c.0,
        (λ j. c.1 j ∙ one_write j k v (lookup j db.store)),
        commit-IsValid t written written-IsValid,
      )
