-- ===== src/Client/Batches.antt =====
-- A plain transaction with a batch of writes, by AgentDBClient on the in-memory backend.
use dbagent_tree.Prelude.{String, ◌≡◌, refl, ◌∙◌, some, List, [], ◌∷◌, arith, string_eq}
use dbagent_tree.Dict.{lookup, insert, update, or_else}
use dbagent_tree.Dict.Laws.{IsDict, lookup-insert_self, lookup-update}
use dbagent_tree.Exec.{ok}
use dbagent_tree.Mini
use dbagent_tree.Mini.{TxContext, MiniDb, new_tx, set_tx}
use dbagent_tree.Mini.Invariant.{IsValid}
use dbagent_tree.Mini.Steps.{start-IsValid, put-IsValid, commit-IsValid}
use dbagent_tree.Mini.Commit.{require_tx-known, commit_lem}
use dbagent_tree.Client.Plain.{mini_puts}

-- The transaction after the writes.
abbrev pub with_writes : TxContext → List (String × String) → TxContext
with_writes tx requests = record tx { writes = update tx.writes requests }

-- Writes of a known transaction succeed, and stay in its context.
abbrev pub Batched : String → TxContext → List (String × String) → MiniDb → Type 0
Batched t tx requests db =
    ((mini_puts t requests db).0 ≡ ok tt)
    × (lookup t (mini_puts t requests db).1.tx_map ≡ some (with_writes tx requests))
    × ((mini_puts t requests db).1.store ≡ db.store)
    × IsValid (mini_puts t requests db).1

mini_puts-Batched :
    (t : String) (requests : List (String × String)) (tx : TxContext) (db : MiniDb)
    → IsValid db
    → lookup t db.tx_map ≡ some tx
    → Batched t tx requests db
unfolding mini_puts update
mini_puts-Batched t [] tx db h f = (refl, f, refl, h)
mini_puts-Batched t ((k, v) ∷ requests) tx db h f =
    let tx' : TxContext = record tx { writes = insert k v tx.writes } in
    let step : Mini.put t k v db ≡ (ok tt, set_tx t tx' db) =
      unfold Mini.put in rw (require_tx-known t db h tx f) in
    let valid : IsValid (set_tx t tx' db) = rw step at (put-IsValid t db h k v) in
    rw step (
      mini_puts-Batched t requests tx' (set_tx t tx' db) valid (lookup-insert_self t tx' db.tx_map))

lookup-update_empty :
    (k : String) (requests : List (String × String))
    → IsDict requests
    → lookup k (update [] requests) ≡ lookup k requests
unfolding lookup
lookup-update_empty k requests unique = ground (arith, lookup-update k [] requests unique)

module _ (t : String) (requests : List (String × String)) (db : MiniDb) (h : IsValid db) where
  abbrev started : MiniDb
  started = set_tx t (new_tx t db.store) db

  abbrev pub batched : MiniDb
  batched = (mini_puts t requests started).1

  started-IsValid : IsValid started
  started-IsValid = unfold Mini.start in start-IsValid t db h

  pub batch_lem : Batched t (new_tx t db.store) requests started
  batch_lem =
      mini_puts-Batched t requests (new_tx t db.store) started started-IsValid
        (lookup-insert_self t (new_tx t db.store) db.tx_map)

  pub commit_batch :
      IsDict requests
      → ((Mini.commit t batched).0 ≡ ok tt)
        × ((k : String)
            → lookup k (Mini.commit t batched).1.store
              ≡ or_else (lookup k requests) (lookup k db.store))
        × IsValid (Mini.commit t batched).1
  commit_batch unique =
      let (_, found, same, valid) = batch_lem in
      let c = commit_lem t batched valid (with_writes (new_tx t db.store) requests) found in
      (
        c.0,
        (λ k. c.1 k ∙ rw same (ground (arith, lookup-update_empty k requests unique))),
        commit-IsValid t batched valid,
      )
