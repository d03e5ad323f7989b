-- ===== src/Mini/Tests.antt =====
-- The in-memory database of Agent/db_client.py at concrete inputs.
use native.Mathlib.Decide.{dec_lt}
use dbagent_tree.Prelude.{
  String, ◌≡◌, ◌≢◌, refl, true, false, none, some, List, [], ◌∷◌, arith, pos, int_eq, string_eq,
  ◌==◌, if◌then◌else◌,
}
use dbagent_tree.Dict.{lookup, insert, erase, update, contains, or_else}
use dbagent_tree.Exec.{ok}
use dbagent_tree.Mini
use dbagent_tree.Mini.Branches
use dbagent_tree.Mini.{TxContext, Branch, TreeContext, MiniDb, empty}
use dbagent_tree.Mini.Branches.{resolve_from, lineage_from, walk_fuel}
use dbagent_tree.Mini.Invariant.{IsValid, IsTree}
use dbagent_tree.Mini.Calls.{Call, after, run, run-IsValid}
use dbagent_tree.Mini.Lineage.{first_write, AllWritten, resolve_from-lineage, lineage_from_total}
use dbagent_tree.Mini.Commit.{commit_lem, tget_lem, tcommit_retry_lem, commit-publishes_view}
use dbagent_tree.Mini.TreeIsolation.{tree_repeatable_read}
use dbagent_tree.Mini.Isolation.{repeatable_read, snapshot_read, run-store}

empty-IsValid : IsValid empty
unfolding lookup
empty-IsValid = record { stored = tt; txs = λ t tx e. cc; trees = λ t ctx e. cc }

-- A store with two keys, a tree with two candidates under the root, the second under the first, and
-- a plain transaction beside it.
abbrev calls : List Call
calls =
    Call.start "s"
    ∷ Call.put "s" "k" "0"
    ∷ Call.commit "s"
    ∷ Call.tstart "t"
    ∷ Call.tbranch "t" (pos 0)
    ∷ Call.tput "t" (pos 1) "k" "1"
    ∷ Call.tbranch "t" (pos 1)
    ∷ Call.tput "t" (pos 2) "j" "2"
    ∷ Call.twinner "t" (pos 2)
    ∷ Call.start "p"
    ∷ Call.put "p" "i" "3"
    ∷ []

abbrev root : Branch
root = record { branch_id = pos 0; parent_branch_id = pos 0; writes = [] }

abbrev first : Branch
first = record { branch_id = pos 1; parent_branch_id = pos 0; writes = ("k", "1") ∷ [] }

abbrev second : Branch
second = record { branch_id = pos 2; parent_branch_id = pos 1; writes = ("j", "2") ∷ [] }

abbrev tree : TreeContext
tree = record {
  tx_id = "t";
  snapshot = ("k", "0") ∷ [];
  branches = (pos 0, root) ∷ (pos 1, first) ∷ (pos 2, second) ∷ [];
  next_branch_id = 3;
  winner_branch_id = some (pos 2);
  active = true;
  last_abort_reason = "";
}

abbrev plain : TxContext
plain = record { tx_id = "p"; snapshot = ("k", "0") ∷ []; writes = ("i", "3") ∷ []; active = true }

abbrev scene : MiniDb
scene = record { store = ("k", "0") ∷ []; tx_map = ("p", plain) ∷ []; tree_map = ("t", tree) ∷ [] }

run-calls : run calls empty ≡ scene
unfolding run after lookup insert erase update contains Mini.start Mini.put Mini.commit
    Branches.tstart Branches.tbranch Branches.tput Branches.twinner Mini.require_tx
    Branches.require_tree_tx dec_lt
run-calls = refl

scene-IsValid : IsValid scene
scene-IsValid = rw run-calls at (run-IsValid calls empty empty-IsValid)

tree_found : lookup "t" scene.tree_map ≡ some tree
unfolding lookup
tree_found = refl

tree-IsTree : IsTree "t" tree
tree-IsTree = scene-IsValid.trees "t" tree tree_found

second_found : lookup (pos 2) tree.branches ≡ some second
unfolding lookup
second_found = refl

walk_found : lineage_from (walk_fuel tree) tree (some second) ≡ ok (second ∷ first ∷ root ∷ [])
unfolding lineage_from lookup
walk_found = refl

run-IsValid_example : IsValid (run calls empty)
run-IsValid_example = run-IsValid calls empty empty-IsValid

commit_lem_example :
    ((Mini.commit "p" scene).0 ≡ ok tt)
    × ((k : String)
        → lookup k (Mini.commit "p" scene).1.store
          ≡ or_else (lookup k (("i", "3") ∷ [])) (lookup k (("k", "0") ∷ [])))
    × ((u : String)
        → lookup u (Mini.commit "p" scene).1.tx_map
          ≡ (if u == "p" then none else lookup u (("p", plain) ∷ [])))
    × ((Mini.commit "p" scene).1.tree_map ≡ ("t", tree) ∷ [])
commit_lem_example = commit_lem "p" scene scene-IsValid plain (unfold lookup in refl)

tget_lem_example :
    (l : List Branch) × (lineage_from (walk_fuel tree) tree (some second) ≡ ok l)
    × AllWritten l
    × ((k : String)
        → Branches.tget "t" (pos 2) k false scene
          ≡ (ok (or_else (first_write k l) (lookup k (("k", "0") ∷ []))), scene))
tget_lem_example = tget_lem "t" scene scene-IsValid tree tree_found (pos 2) second second_found

tcommit_retry_lem_example :
    (b : Branch) × (l : List Branch) × (lookup (pos 2) tree.branches ≡ some b)
    × (lineage_from (walk_fuel tree) tree (some b) ≡ ok l)
    × ((Branches.tcommit_retry "t" scene).0 ≡ ok tt)
    × ((k : String)
        → lookup k (Branches.tcommit_retry "t" scene).1.store
          ≡ or_else (first_write k l) (lookup k (("k", "0") ∷ [])))
    × ((u : String)
        → lookup u (Branches.tcommit_retry "t" scene).1.tree_map
          ≡ (if u == "t" then none else lookup u (("t", tree) ∷ [])))
    × ((Branches.tcommit_retry "t" scene).1.tx_map ≡ ("p", plain) ∷ [])
tcommit_retry_lem_example = tcommit_retry_lem "t" scene scene-IsValid tree tree_found (pos 2) refl

first_view : (Branches.tget "t" (pos 2) "k" false scene).0 ≡ ok (some "1")
unfolding Branches.tget Branches.require_tree_tx Branches.resolve_branch_value resolve_from lookup
    contains
first_view = refl

commit-publishes_view_example : lookup "k" (Branches.tcommit_retry "t" scene).1.store ≡ some "1"
commit-publishes_view_example =
    commit-publishes_view "t" scene scene-IsValid tree tree_found (pos 2) refl "k" (some "1") refl
      first_view

lineage_from_total_example :
    (l : List Branch) × (lineage_from 3 tree (some second) ≡ ok l) × AllWritten l
lineage_from_total_example =
    lineage_from_total 3 "t" tree (pos 2) second tree-IsTree second_found (omega arith)

resolve_from-lineage_example :
    resolve_from (walk_fuel tree) tree (some second) "k"
    ≡ ok (or_else (first_write "k" (second ∷ first ∷ root ∷ [])) (lookup "k" tree.snapshot))
resolve_from-lineage_example =
    resolve_from-lineage (walk_fuel tree) tree (some second) "k" (second ∷ first ∷ root ∷ [])
      walk_found

-- Calls on the tree, and a commit of it, between two reads of the transaction.
abbrev meanwhile : List Call
meanwhile = Call.tput "t" (pos 1) "k" "9" ∷ Call.tcommit_retry "t" ∷ Call.start "q" ∷ []

differ : (s t : String) → (s == t) ≡ false → some s ≢ some t
differ s t h e = ground (arith, string_eq.same_iff s t)

repeatable_read_example : (Mini.get "p" "k" (run meanwhile scene)).0 ≡ (Mini.get "p" "k" scene).0
repeatable_read_example =
    repeatable_read "p" "k" meanwhile scene ((λ e. cc), ((λ e. cc), (differ "q" "p" refl, tt)))

snapshot_read_example :
    (Mini.get "n" "k" (run meanwhile (after (Call.start "n") scene))).0
    ≡ ok (lookup "k" scene.store)
snapshot_read_example =
    snapshot_read "n" "k" meanwhile scene ((λ e. cc), ((λ e. cc), (differ "q" "n" refl, tt)))

run-store_example :
    (run (Call.put "p" "k" "7" ∷ Call.tput "t" (pos 1) "k" "9" ∷ []) scene).store ≡ ("k", "0") ∷ []
run-store_example =
    run-store (Call.put "p" "k" "7" ∷ Call.tput "t" (pos 1) "k" "9" ∷ []) scene (refl, (refl, tt))

abbrev beside : List Call
beside = Call.put "p" "k" "9" ∷ Call.commit "p" ∷ Call.tstart "v" ∷ []

tree_repeatable_read_example :
    (Branches.tget "t" (pos 2) "k" false (run beside scene)).0
    ≡ (Branches.tget "t" (pos 2) "k" false scene).0
tree_repeatable_read_example =
    tree_repeatable_read "t" (pos 2) "k" false beside scene
      ((λ e. cc), ((λ e. cc), (differ "v" "t" refl, tt)))
