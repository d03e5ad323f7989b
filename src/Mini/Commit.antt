-- ===== src/Mini/Commit.antt =====
-- What commits and reads of MiniDBClient (Agent/db_client.py) do, for a client that calls them.
use dbagent_tree.Prelude.{
  String, ◌≡◌, refl, ap, ◌∙◌, false, Option, none, some, List, arith, ℤ, int_eq, string_eq, ◌==◌,
  if◌then◌else◌,
}
use dbagent_tree.Dict.{lookup, update, insert, erase, or_else}
use dbagent_tree.Dict.Laws.{
  lookup-update, contains-lookup, lookup-contains, lookup-insert, lookup-erase,
}
use dbagent_tree.Exec.{Result, ok}
use dbagent_tree.Mini.{TxContext, Branch, TreeContext, MiniDb, require_tx, commit}
use dbagent_tree.Mini.Branches.{
  require_tree_tx, tget, tcommit_retry, commit_winner, resolve_branch_value, lineage_from,
  walk_fuel, merge_lineage,
}
use dbagent_tree.Mini.Invariant.{IsValid}
use dbagent_tree.Mini.Lineage.{
  first_write, AllWritten, resolve_from-lineage, lineage_total, lookup-merge_lineage,
  merge_lineage-IsDict,
}

module _ (t : String) (db : MiniDb) (h : IsValid db) where
  module _ (tx : TxContext) (f : lookup t db.tx_map ≡ some tx) where
    -- In a valid state a known transaction is found.
    pub require_tx-known : require_tx t db ≡ (ok tx, db)
    unfolding require_tx
    require_tx-known = rw (f, (h.txs t tx f).running)

    -- A commit of a known transaction succeeds whatever was committed since it began: its writes
    -- replace the store's values, the other keys keep theirs, its id is gone, and every other
    -- transaction is untouched.
    pub commit_lem :
        ((commit t db).0 ≡ ok tt)
        × ((k : String)
            → lookup k (commit t db).1.store ≡ or_else (lookup k tx.writes) (lookup k db.store))
        × ((u : String)
            → lookup u (commit t db).1.tx_map ≡ (if u == t then none else lookup u db.tx_map))
        × ((commit t db).1.tree_map ≡ db.tree_map)
    unfolding commit
    commit_lem = rw require_tx-known (
      refl,
      (λ k. lookup-update k db.store tx.writes (h.txs t tx f).written),
      (λ u. ground (
        arith,
        lookup-erase u t (insert t (record tx { active = false }) db.tx_map),
        lookup-insert u t (record tx { active = false }) db.tx_map,
      )),
      refl,
    )

  module _ (ctx : TreeContext) (f : lookup t db.tree_map ≡ some ctx) where
    pub require_tree_tx-known : require_tree_tx t db ≡ (ok ctx, db)
    unfolding require_tree_tx
    require_tree_tx-known = rw (f, (h.trees t ctx f).running)

    module _ (i : ℤ) (b : Branch) (e : lookup i ctx.branches ≡ some b) where
      -- A read at a branch ends, and gives the first write on the way from the branch to the root,
      -- or the snapshot's value if no branch on the way wrote the key.
      pub tget_lem :
          (l : List Branch) × (lineage_from (walk_fuel ctx) ctx (some b) ≡ ok l)
          × AllWritten l
          × ((k : String)
              → tget t i k false db ≡ (ok (or_else (first_write k l) (lookup k ctx.snapshot)), db))
      unfolding tget resolve_branch_value
      tget_lem =
          let (l, el, wl) = lineage_total t ctx i b (h.trees t ctx f) e in
          (
            l,
            el,
            wl,
            λ k.
                rw (require_tree_tx-known, lookup-contains i b ctx.branches e)
                  (rw e (rw (resolve_from-lineage (walk_fuel ctx) ctx (some b) k l el))),
          )

    module _ (w : ℤ) (set : ctx.winner_branch_id ≡ some w) where
      winner_found : (b : Branch) × (lookup w ctx.branches ≡ some b)
      winner_found = contains-lookup w ctx.branches ((h.trees t ctx f).chosen w set)

      -- What a commit with a selected winner leaves behind: the first write of each key on the way
      -- from the winner to the root replaces the store's value, the other keys keep theirs, the tree
      -- is gone, and every other transaction is untouched. It succeeds whatever was committed since
      -- the tree began.
      pub tcommit_retry_lem :
          (b : Branch) × (l : List Branch) × (lookup w ctx.branches ≡ some b)
          × (lineage_from (walk_fuel ctx) ctx (some b) ≡ ok l)
          × ((tcommit_retry t db).0 ≡ ok tt)
          × ((k : String)
              → lookup k (tcommit_retry t db).1.store
                ≡ or_else (first_write k l) (lookup k db.store))
          × ((u : String)
              → lookup u (tcommit_retry t db).1.tree_map
                ≡ (if u == t then none else lookup u db.tree_map))
          × ((tcommit_retry t db).1.tx_map ≡ db.tx_map)
      unfolding tcommit_retry commit_winner
      tcommit_retry_lem =
          let (b, e) = winner_found in
          let (l, el, wl, _) = tget_lem w b e in
          (
            b,
            l,
            e,
            el,
            rw require_tree_tx-known (simp (set, e, el) refl),
            (λ k. rw require_tree_tx-known (simp (set, e, el) (stored k l wl))),
            (λ u. rw require_tree_tx-known (simp (set, e, el) (dropped u))),
            rw require_tree_tx-known (simp (set, e, el) refl),
          )
        where
          stored :
              (k : String) (l : List Branch)
              → AllWritten l
              → lookup k (update db.store (merge_lineage l))
                ≡ or_else (first_write k l) (lookup k db.store)
          stored k l wl =
              lookup-update k db.store (merge_lineage l) (merge_lineage-IsDict l)
              ∙ ap (λ o. or_else o (lookup k db.store)) (lookup-merge_lineage k l wl)

          dropped :
              (u : String)
              → lookup u (
                  erase t (
                    insert t
                      (record ctx { winner_branch_id = some w; active = false })
                      db.tree_map))
                ≡ (if u == t then none else lookup u db.tree_map)
          dropped u =
              let c = record ctx { winner_branch_id = some w; active = false } in
              ground
                (arith, lookup-erase u t (insert t c db.tree_map), lookup-insert u t c db.tree_map)

      -- A commit publishes what the winner reads: a key whose stored value is still the snapshot's
      -- has, after the commit, the value that the winner's branch read before it.
      pub commit-publishes_view :
          (k : String) (v : Option String)
          → lookup k db.store ≡ lookup k ctx.snapshot
          → (tget t w k false db).0 ≡ ok v
          → lookup k (tcommit_retry t db).1.store ≡ v
      commit-publishes_view k v same r =
          let (b, l, e, el, _, now, _, _) = tcommit_retry_lem in
          let (l', el', _, reads) = tget_lem w b e in
          let seen : or_else (first_write k l') (lookup k ctx.snapshot) ≡ v =
            cc (ap (λ (x : Result (Option String) × MiniDb). x.0) (reads k), r) in
          let one : l ≡ l' = cc (el, el') in now k ∙ rw (one, same) seen
