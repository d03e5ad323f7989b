-- ===== src/Mini/Steps.antt =====
-- The calls of MiniDBClient as one type, and that each of them keeps the invariant.
use mathlib.Core.Path.{subst}
use dbagent_tree.Prelude.{
  String, ◌≡◌, refl, ◌⊎◌, inl, inr, true, false, Option, none, some, List, arith, ℤ, pos, int_eq,
  string_eq, ◌==◌, Bool-cases, Option-cases,
}
use dbagent_tree.Dict.{Dict, lookup, insert, contains}
use dbagent_tree.Dict.Laws.{
  lookup-insert, lookup-erase, insert-IsDict, update-IsDict, lookup-insert_cases,
}
use dbagent_tree.Exec.{Result, ok, err, hang, continue}
use dbagent_tree.Mini.{
  TxContext, Branch, TreeContext, MiniDb, set_tx, drop_tx, set_tree, drop_tree, update_store,
  new_tx, bad_tx, require_tx, start, put, commit, rollback,
}
use dbagent_tree.Mini.Branches.{
  bad_tree, require_tree_tx, tstart, tbranch, tput, twinner, tcommit_retry, tabort, add_branch,
  write_branch, walk_fuel, lineage_from, merge_lineage, publish, commit_winner,
}
use dbagent_tree.Mini.Invariant.{
  IsTree, IsTx, IsValid, started, started-IsTree, add_branch-IsTree, write_branch-IsTree,
}

module _ (t : String) (db : MiniDb) (h : IsValid db) where
  -- In a valid state a transaction is found active or not found.
  pub require_tx-cases :
      ((lookup t db.tx_map ≡ none) × (require_tx t db ≡ (err (bad_tx t), db)))
      ⊎ ((tx : TxContext) × (lookup t db.tx_map ≡ some tx) × (require_tx t db ≡ (ok tx, db)))
  unfolding require_tx
  require_tx-cases = elim (Option-cases (lookup t db.tx_map)) [
    | inl e ↦ inl (e, rw e)
    | inr (tx, e) ↦ inr (tx, e, rw (e, (h.txs t tx e).running))
  ]

  pub require_tree_tx-cases :
      ((lookup t db.tree_map ≡ none) × (require_tree_tx t db ≡ (err (bad_tree t), db)))
      ⊎ ((ctx : TreeContext) × (lookup t db.tree_map ≡ some ctx)
          × (require_tree_tx t db ≡ (ok ctx, db)))
  unfolding require_tree_tx
  require_tree_tx-cases = elim (Option-cases (lookup t db.tree_map)) [
    | inl e ↦ inl (e, rw e)
    | inr (ctx, e) ↦ inr (ctx, e, rw (e, (h.trees t ctx e).running))
  ]

  set_tx-IsValid : (tx : TxContext) → IsTx t tx → IsValid (set_tx t tx db)
  set_tx-IsValid tx k = record {
    stored = h.stored;
    txs = λ j u e. elim (lookup-insert_cases j t tx u db.tx_map e) [
      | inl (ej, eu) ↦ rw (ej, eu) k
      | inr old ↦ h.txs j u old
    ];
    trees = h.trees;
  }

  -- A context that is marked inactive and then removed leaves the others.
  end_tx-IsValid : (tx : TxContext) → IsValid (drop_tx t (set_tx t tx db))
  end_tx-IsValid tx = record {
    stored = h.stored;
    txs = λ j u e.
        h.txs j u (
          ground (arith, lookup-erase j t (insert t tx db.tx_map), lookup-insert j t tx db.tx_map));
    trees = h.trees;
  }

  set_tree-IsValid : (ctx : TreeContext) → IsTree t ctx → IsValid (set_tree t ctx db)
  set_tree-IsValid ctx k = record {
    stored = h.stored;
    txs = h.txs;
    trees = λ j u e. elim (lookup-insert_cases j t ctx u db.tree_map e) [
      | inl (ej, eu) ↦ rw (ej, eu) k
      | inr old ↦ h.trees j u old
    ];
  }

  end_tree-IsValid : (ctx : TreeContext) → IsValid (drop_tree t (set_tree t ctx db))
  end_tree-IsValid ctx = record {
    stored = h.stored;
    txs = h.txs;
    trees = λ j u e. h.trees j u (
        ground
          (arith, lookup-erase j t (insert t ctx db.tree_map), lookup-insert j t ctx db.tree_map));
  }

update_store-IsValid :
    (new : Dict String String) (db : MiniDb) → IsValid db → IsValid (update_store new db)
update_store-IsValid new db h = record {
  stored = update-IsDict db.store new h.stored;
  txs = h.txs;
  trees = h.trees;
}

module _ (t : String) (db : MiniDb) (h : IsValid db) where
  pub start-IsValid : IsValid (start t db).1
  unfolding start
  start-IsValid =
      set_tx-IsValid t db h (new_tx t db.store)
        (record { named = refl; running = refl; written = tt })

  pub put-IsValid : (k v : String) → IsValid (put t k v db).1
  unfolding put
  put-IsValid k v = elim (require_tx-cases t db h) [
    | inl (_, e) ↦ rw e h
    | inr (tx, f, e) ↦
        let old = h.txs t tx f in
        rw e (
          set_tx-IsValid t db h (record tx { writes = insert k v tx.writes })
            (record {
              named = old.named;
              running = old.running;
              written = insert-IsDict k v tx.writes old.written;
            }))
  ]

  pub commit-IsValid : IsValid (commit t db).1
  unfolding commit
  commit-IsValid = elim (require_tx-cases t db h) [
    | inl (_, e) ↦ rw e h
    | inr (tx, f, e) ↦ rw e (
        end_tx-IsValid t (update_store tx.writes db) (update_store-IsValid tx.writes db h)
          (record tx { active = false }))
  ]

  pub rollback-IsValid : IsValid (rollback t db).1
  unfolding rollback
  rollback-IsValid = elim (require_tx-cases t db h) [
    | inl (_, e) ↦ rw e h
    | inr (tx, f, e) ↦ rw e (end_tx-IsValid t db h (record tx { active = false }))
  ]

  pub tstart-IsValid : IsValid (tstart t db).1
  unfolding tstart
  tstart-IsValid = set_tree-IsValid t db h (started t db.store) (started-IsTree t db.store)

  pub tabort-IsValid : IsValid (tabort t db).1
  unfolding tabort
  tabort-IsValid = elim (require_tree_tx-cases t db h) [
    | inl (_, e) ↦ rw e h
    | inr (ctx, f, e) ↦ rw e (end_tree-IsValid t db h (record ctx { active = false }))
  ]

  pub tbranch-IsValid : (p : ℤ) → IsValid (tbranch t p db).1
  unfolding tbranch
  tbranch-IsValid p = elim (require_tree_tx-cases t db h) [
    | inl (_, e) ↦ rw e h
    | inr (ctx, f, e) ↦ rw e (elim (Bool-cases (contains p ctx.branches)) [
      | inl known ↦ rw known (
          set_tree-IsValid t db h (add_branch p ctx)
            (add_branch-IsTree t p ctx (h.trees t ctx f) known))
      | inr unknown ↦ rw unknown h
    ])
  ]

  pub tput-IsValid : (i : ℤ) (k v : String) → IsValid (tput t i k v db).1
  unfolding tput
  tput-IsValid i k v = elim (require_tree_tx-cases t db h) [
    | inl (_, e) ↦ rw e h
    | inr (ctx, f, e) ↦ rw e (elim (Option-cases (lookup i ctx.branches)) [
      | inl unknown ↦ rw unknown h
      | inr (b, known) ↦ rw known (elim (Bool-cases (i == pos 0)) [
        | inl is_root ↦ rw is_root h
        | inr other ↦ rw other (
            set_tree-IsValid t db h (write_branch i b k v ctx)
              (write_branch-IsTree t i b k v ctx (h.trees t ctx f) known))
      ])
    ])
  ]

  pub twinner-IsValid : (i : ℤ) → IsValid (twinner t i db).1
  unfolding twinner
  twinner-IsValid i = elim (require_tree_tx-cases t db h) [
    | inl (_, e) ↦ rw e h
    | inr (ctx, f, e) ↦ rw e (elim (Bool-cases (contains i ctx.branches)) [
      | inl known ↦ rw known (
          set_tree-IsValid t db h (record ctx { winner_branch_id = some i })
            (chosen ctx (h.trees t ctx f) known))
      | inr unknown ↦ rw unknown h
    ])
  ]
    where
      chosen :
          (ctx : TreeContext)
          → IsTree t ctx
          → contains i ctx.branches ≡ true
          → IsTree t (record ctx { winner_branch_id = some i })
      chosen ctx k known = record {
        named = k.named;
        running = k.running;
        nodes = λ j b e.
            let n = k.nodes j b e in
            record { own = n.own; used = n.used; up = n.up; written = n.written };
        root = k.root;
        chosen = λ w e. subst (λ j. contains j ctx.branches ≡ true) {x = i} {y = w} (cc e) known;
      }

  commit_winner-IsValid :
      (ctx : TreeContext) (selected : Option ℤ) → IsValid (commit_winner t ctx selected db).1
  unfolding commit_winner
  commit_winner-IsValid ctx none = h
  commit_winner-IsValid ctx (some w) = elim (Option-cases (lookup w ctx.branches)) [
    | inl missing ↦ rw missing h
    | inr (b, here) ↦ rw here (merged (lineage_from (walk_fuel ctx) ctx (some b)))
  ]
    where
      merged : (r : Result (List Branch)) → IsValid (continue r (publish t ctx) db).1
      merged (ok l) =
          end_tree-IsValid t (update_store (merge_lineage l) db)
            (update_store-IsValid (merge_lineage l) db h) (record ctx { active = false })
      merged (err m) = h
      merged hang = h

  pub tcommit_retry-IsValid : IsValid (tcommit_retry t db).1
  unfolding tcommit_retry
  tcommit_retry-IsValid = elim (require_tree_tx-cases t db h) [
    | inl (_, e) ↦ rw e h
    | inr (ctx, f, e) ↦ rw e (commit_winner-IsValid ctx ctx.winner_branch_id)
  ]
