-- ===== src/Mini/TreeIsolation.antt =====
-- Tree transactions of MiniDBClient (Agent/db_client.py) run beside other transactions: what a tree
-- sees of the calls of the others.
use dbagent_tree.Prelude.{
  ap, pos_part, ℕ, zero, suc, ℤ, String, ◌≡◌, ◌≢◌, refl, ◌∙◌, Bool, true, false, Option, none, some,
  List, [], ◌∷◌, arith, string_eq, int_eq, pos, not, ◌==◌,
}
use dbagent_tree.Dict.{lookup, contains}
use dbagent_tree.Dict.Laws.{lookup-insert, lookup-erase}
use dbagent_tree.Exec.{Result, ok, err, hang, Exec, or_raise, raise_if, lift, ◌>>=◌, continue_keeps}
use dbagent_tree.Mini
use dbagent_tree.Mini.Branches
use dbagent_tree.Mini.{MiniDb, TreeContext, new_tree, update_store, set_tree, drop_tree, require_tx}
use dbagent_tree.Mini.Branches.{
  bad_tree, active_tree, walk_fuel, lineage_from, merge_lineage, require_tree_tx, tbranch_rounds,
  commit_winner, publish,
}
use dbagent_tree.Mini.Calls.{
  Call, after, run, get_state, tget_state, tget_many_state, trefresh_winner_state,
}
use dbagent_tree.Mini.Isolation.{AllCalls}

-- The tree that a call writes, if any.
abbrev pub writes_tree : Call → Option String
writes_tree (Call.tstart t) = some t
writes_tree (Call.tbranch t p) = some t
writes_tree (Call.tbranch_many t p n) = some t
writes_tree (Call.tput t i k v) = some t
writes_tree (Call.tput_many t rs) = some t
writes_tree (Call.twinner t i) = some t
writes_tree (Call.tcommit t) = some t
writes_tree (Call.tcommit_retry t) = some t
writes_tree (Call.tabort t) = some t
writes_tree _ = none

-- A tree call leaves the trees of other ids.
module _ (t u : String) (other : u ≢ t) where
  abbrev Kept : MiniDb → MiniDb → Type 0
  Kept a b = lookup t a.tree_map ≡ lookup t b.tree_map

  set_tree-other : (db : MiniDb) (ctx : TreeContext) → Kept (set_tree u ctx db) db
  set_tree-other db ctx = ground (arith, lookup-insert t u ctx db.tree_map, string_eq.same_iff t u)

  drop_tree-other : (db : MiniDb) → Kept (drop_tree u db) db
  drop_tree-other db = ground (arith, lookup-erase t u db.tree_map, string_eq.same_iff t u)

  raise_if-Kept :
      {B : Type 0} (db : MiniDb) (b : Bool) (m : String) (f : Unit {0} → Exec MiniDb B)
      → Kept (f tt db).1 db
      → Kept ((raise_if b m >>= f) db).1 db
  raise_if-Kept db true m f h = refl
  raise_if-Kept db false m f h = h

  module _ {A B : Type 0} (db : MiniDb) where
    or_raise-Kept :
        (o : Option A) (m : String) (f : A → Exec MiniDb B)
        → ((a : A) → Kept (f a db).1 db)
        → Kept ((or_raise o m >>= f) db).1 db
    or_raise-Kept none m f h = refl
    or_raise-Kept (some a) m f h = h a

    lift-Kept :
        (r : Result A) (f : A → Exec MiniDb B)
        → ((a : A) → Kept (f a db).1 db)
        → Kept ((lift r >>= f) db).1 db
    lift-Kept (ok a) f h = h a
    lift-Kept (err m) f h = refl
    lift-Kept hang f h = refl

  end-other : (db : MiniDb) (ctx : TreeContext) → Kept (drop_tree u (set_tree u ctx db)) db
  end-other db ctx = drop_tree-other (set_tree u ctx db) ∙ set_tree-other db ctx

  tstart-other : (db : MiniDb) → Kept (Branches.tstart u db).1 db
  unfolding Branches.tstart
  tstart-other db = set_tree-other db _

  module _ (db : MiniDb) where
    abbrev tree? : Option TreeContext
    tree? = active_tree (lookup u db.tree_map)

    tabort-other : Kept (Branches.tabort u db).1 db
    unfolding Branches.tabort require_tree_tx
    tabort-other =
        or_raise-Kept db tree? (bad_tree u) _ (λ ctx. end-other db (record ctx { active = false }))

    tbranch-other : (p : ℤ) → Kept (Branches.tbranch u p db).1 db
    unfolding Branches.tbranch require_tree_tx
    tbranch-other p =
        or_raise-Kept db tree? (bad_tree u) _
          (λ ctx. raise_if-Kept db (not (contains p ctx.branches)) _ _ (set_tree-other db _))

    tput-other : (i : ℤ) (k v : String) → Kept (Branches.tput u i k v db).1 db
    unfolding Branches.tput require_tree_tx
    tput-other i k v = or_raise-Kept db tree? (bad_tree u) _ (λ ctx.
        or_raise-Kept db (lookup i ctx.branches) _ _
          (λ b. raise_if-Kept db (i == pos 0) _ _ (set_tree-other db _)))

    twinner-other : (i : ℤ) → Kept (Branches.twinner u i db).1 db
    unfolding Branches.twinner require_tree_tx
    twinner-other i =
        or_raise-Kept db tree? (bad_tree u) _
          (λ ctx. raise_if-Kept db (not (contains i ctx.branches)) _ _ (set_tree-other db _))

    tcommit_retry-other : Kept (Branches.tcommit_retry u db).1 db
    unfolding Branches.tcommit_retry require_tree_tx commit_winner
    tcommit_retry-other = or_raise-Kept db tree? (bad_tree u) _ (λ ctx.
        or_raise-Kept db ctx.winner_branch_id _ _ (λ w.
          or_raise-Kept db (lookup w ctx.branches) _ _ (λ b.
            lift-Kept db (lineage_from (walk_fuel ctx) ctx (some b)) _ (λ l.
              end-other (update_store (merge_lineage l) db) (record ctx { active = false })))))

  tbranch_rounds-other : (n : ℕ) (p : ℤ) (db : MiniDb) → Kept (tbranch_rounds n u p db).1 db
  unfolding tbranch_rounds
  tbranch_rounds-other zero p db = refl
  tbranch_rounds-other (suc n) p db =
      let here = (Branches.tbranch u p db).1 in
      let first = tbranch-other db p in
      let both = tbranch_rounds-other n p here ∙ first in
      continue_keeps (λ s. Kept s db) (Branches.tbranch u p db).0 _ here first
        (λ i. continue_keeps (λ s. Kept s db) (tbranch_rounds n u p here).0 _ _ both (λ is. both))

  tput_many-other :
      (rs : List (ℤ × String × String)) (db : MiniDb) → Kept (Branches.tput_many u rs db).1 db
  unfolding Branches.tput_many
  tput_many-other [] db = refl
  tput_many-other ((i, k, v) ∷ rs) db =
      let here = (Branches.tput u i k v db).1 in
      let first = tput-other db i k v in
      continue_keeps (λ s. Kept s db) (Branches.tput u i k v db).0 _ here first
        (λ _. tput_many-other rs here ∙ first)

-- A plain call leaves all trees.
module _ (u : String) (db : MiniDb) where
  put-tree_map : (k v : String) → (Mini.put u k v db).1.tree_map ≡ db.tree_map
  unfolding Mini.put require_tx
  put-tree_map k v = ground arith

  commit-tree_map : (Mini.commit u db).1.tree_map ≡ db.tree_map
  unfolding Mini.commit require_tx
  commit-tree_map = ground arith

  rollback-tree_map : (Mini.rollback u db).1.tree_map ≡ db.tree_map
  unfolding Mini.rollback require_tx
  rollback-tree_map = ground arith

-- A tree is as it was after a call that does not write it.
after-other_tree :
    (t : String) (c : Call) (db : MiniDb)
    → writes_tree c ≢ some t
    → lookup t (after c db).tree_map ≡ lookup t db.tree_map
unfolding after
after-other_tree t (Call.start u) db h = unfold Mini.start in refl
after-other_tree t (Call.put u k v) db h = ap (lookup t) (put-tree_map u db k v)
after-other_tree t (Call.commit u) db h = ap (lookup t) (commit-tree_map u db)
after-other_tree t (Call.rollback u) db h = ap (lookup t) (rollback-tree_map u db)
after-other_tree t (Call.kv_get k) db h = unfold Mini.kv_get in refl
after-other_tree t (Call.get u k) db h = rw get_state
after-other_tree t (Call.tstart u) db h = tstart-other t u (λ e. h (ap some e)) db
after-other_tree t (Call.tbranch u p) db h = tbranch-other t u (λ e. h (ap some e)) db p
after-other_tree t (Call.tbranch_many u p n) db h =
    unfold Branches.tbranch_many in tbranch_rounds-other t u (λ e. h (ap some e)) (pos_part n) p db
after-other_tree t (Call.tget u i k s) db h = rw tget_state
after-other_tree t (Call.tget_many u rs s) db h = rw tget_many_state
after-other_tree t (Call.tput u i k v) db h = tput-other t u (λ e. h (ap some e)) db i k v
after-other_tree t (Call.tput_many u rs) db h = tput_many-other t u (λ e. h (ap some e)) rs db
after-other_tree t (Call.twinner u i) db h = twinner-other t u (λ e. h (ap some e)) db i
after-other_tree t (Call.trefresh_winner u i k) db h = rw trefresh_winner_state
after-other_tree t (Call.tcommit u) db h =
    unfold Branches.tcommit in tcommit_retry-other t u (λ e. h (ap some e)) db
after-other_tree t (Call.tcommit_retry u) db h = tcommit_retry-other t u (λ e. h (ap some e)) db
after-other_tree t (Call.tabort u) db h = tabort-other t u (λ e. h (ap some e)) db
after-other_tree t Call.dump_all db h = unfold Mini.dump_all in refl

run-other_tree :
    (t : String) (cs : List Call) (db : MiniDb)
    → AllCalls (λ c. writes_tree c ≢ some t) cs
    → lookup t (run cs db).tree_map ≡ lookup t db.tree_map
unfolding run
run-other_tree t [] db h = refl
run-other_tree t (c ∷ cs) db h = run-other_tree t cs (after c db) h.1 ∙ after-other_tree t c db h.0

-- What `tget` answers depends on the tree's own context alone.
tget-same :
    (t : String) (i : ℤ) (k : String) (strict : Bool) (a b : MiniDb)
    → lookup t a.tree_map ≡ lookup t b.tree_map
    → (Branches.tget t i k strict a).0 ≡ (Branches.tget t i k strict b).0
unfolding Branches.tget require_tree_tx
tget-same t i k strict a b h = ground arith

-- Repeatable reads in a tree: what a read at a branch answers, strict or not, is not changed by any
-- calls that do not write that tree, commits of other transactions among them.
pub tree_repeatable_read :
    (t : String) (i : ℤ) (k : String) (strict : Bool) (cs : List Call) (db : MiniDb)
    → AllCalls (λ c. writes_tree c ≢ some t) cs
    → (Branches.tget t i k strict (run cs db)).0 ≡ (Branches.tget t i k strict db).0
tree_repeatable_read t i k strict cs db h =
    tget-same t i k strict (run cs db) db (run-other_tree t cs db h)
