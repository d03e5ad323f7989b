-- ===== src/Mini/Invariant.antt =====
-- The invariant of MiniDBClient: what the contexts of Agent/db_client.py always look like.
use dbagent_tree.Prelude.{
  ◌≤◌, ◌<◌, String, ◌≡◌, refl, ◌⊎◌, inl, inr, true, some, [], arith, ℤ, pos, pos_part, int_eq,
  string_eq,
}
use dbagent_tree.Dict.{Dict, lookup, insert, contains}
use dbagent_tree.Dict.Laws.{
  IsDict, lookup-insert_cases, insert-IsDict, contains-insert, contains-lookup,
}
use dbagent_tree.Mini.{TxContext, Branch, TreeContext, MiniDb, new_branch, new_tree}
use dbagent_tree.Mini.Branches.{add_branch, write_branch}

-- A branch stands under its own id, its parent is older and still there, and only the root is its
-- own parent.
pub record IsNode (ctx : TreeContext) (i : ℤ) (b : Branch) : Type 0 where
  pub own : b.branch_id ≡ i
  pub used : pos_part i < ctx.next_branch_id
  pub up :
      ((i ≡ pos 0) × (b.parent_branch_id ≡ pos 0))
      ⊎ ((pos_part b.parent_branch_id < pos_part i)
          × (contains b.parent_branch_id ctx.branches ≡ true))
  pub written : IsDict b.writes

pub record IsTree (t : String) (ctx : TreeContext) : Type 0 where
  pub named : ctx.tx_id ≡ t
  pub running : ctx.active ≡ true
  pub nodes : (i : ℤ) (b : Branch) → lookup i ctx.branches ≡ some b → IsNode ctx i b
  pub root : contains (pos 0) ctx.branches ≡ true
  pub chosen : (w : ℤ) → ctx.winner_branch_id ≡ some w → contains w ctx.branches ≡ true

pub record IsTx (t : String) (tx : TxContext) : Type 0 where
  pub named : tx.tx_id ≡ t
  pub running : tx.active ≡ true
  pub written : IsDict tx.writes

pub record IsValid (db : MiniDb) : Type 0 where
  pub stored : IsDict db.store
  pub txs : (t : String) (tx : TxContext) → lookup t db.tx_map ≡ some tx → IsTx t tx
  pub trees : (t : String) (ctx : TreeContext) → lookup t db.tree_map ≡ some ctx → IsTree t ctx

-- The tree that `tstart` makes.
abbrev pub started : String → Dict String String → TreeContext
started t store = record (new_tree t store) {
  branches = insert (pos 0) (new_branch (pos 0) (pos 0)) [];
}

pub started-IsTree : (t : String) (store : Dict String String) → IsTree t (started t store)
unfolding lookup insert contains
started-IsTree t store = record {
  named = refl;
  running = refl;
  nodes = λ i b h. started_node i b h;
  root = refl;
  chosen = λ w h. cc;
}
  where
    started_node :
        (i : ℤ) (b : Branch)
        → lookup i (started t store).branches ≡ some b
        → IsNode (started t store) i b
    started_node i b h = ground (arith, int_eq.same_iff i (pos 0))

-- What is asked of a node stays true when branches are added or rewritten.
IsNode-grow :
    (ctx ctx' : TreeContext) (i : ℤ) (b : Branch)
    → ctx.next_branch_id ≤ ctx'.next_branch_id
    → ((j : ℤ) → contains j ctx.branches ≡ true → contains j ctx'.branches ≡ true)
    → IsNode ctx i b
    → IsNode ctx' i b
IsNode-grow ctx ctx' i b le keeps h = record {
  own = h.own;
  used = omega (arith, h.used);
  up = ground (arith, h.up, keeps b.parent_branch_id);
  written = h.written;
}

contains_after :
    (j k : ℤ) (v : Branch) (d : Dict ℤ Branch)
    → contains j d ≡ true
    → contains j (insert k v d) ≡ true
contains_after j k v d h = ground (arith, contains-insert j k v d)

-- A new branch keeps the shape of the tree.
pub add_branch-IsTree :
    (t : String) (parent : ℤ) (ctx : TreeContext)
    → IsTree t ctx
    → contains parent ctx.branches ≡ true
    → IsTree t (add_branch parent ctx)
add_branch-IsTree t parent ctx h p = record {
  named = h.named;
  running = h.running;
  nodes = λ i b e. added_node i b e;
  root = contains_after (pos 0) (pos ctx.next_branch_id) (new_branch _ parent) ctx.branches h.root;
  chosen = λ w e.
      contains_after w (pos ctx.next_branch_id) (new_branch _ parent) ctx.branches (h.chosen w e);
}
  where
    new_node :
        IsNode
          (add_branch parent ctx)
          (pos ctx.next_branch_id)
          (new_branch (pos ctx.next_branch_id) parent)
    new_node =
        let (b, e) = contains-lookup parent ctx.branches p in
        record {
          own = refl;
          used = omega arith;
          up = inr (
            (h.nodes parent b e).used,
            contains_after parent (pos ctx.next_branch_id) (new_branch _ parent) ctx.branches p,
          );
          written = tt;
        }

    added_node :
        (i : ℤ) (b : Branch)
        → lookup i (add_branch parent ctx).branches ≡ some b
        → IsNode (add_branch parent ctx) i b
    added_node i b e =
        elim (lookup-insert_cases i (pos ctx.next_branch_id) (new_branch _ parent) b ctx.branches
          e) [
            | inl (ei, eb) ↦ rw (ei, eb) new_node
            | inr old ↦
                IsNode-grow ctx (add_branch parent ctx) i b (omega arith)
                  (λ j.
                    contains_after j (pos ctx.next_branch_id) (new_branch _ parent) ctx.branches)
                  (h.nodes i b old)
          ]

-- So does a write on a branch.
pub write_branch-IsTree :
    (t : String) (i : ℤ) (b : Branch) (k v : String) (ctx : TreeContext)
    → IsTree t ctx
    → lookup i ctx.branches ≡ some b
    → IsTree t (write_branch i b k v ctx)
write_branch-IsTree t i b k v ctx h e = record {
  named = h.named;
  running = h.running;
  nodes = λ j c ec. written_node j c ec;
  root = contains_after (pos 0) i b' ctx.branches h.root;
  chosen = λ w ew. contains_after w i b' ctx.branches (h.chosen w ew);
}
  where
    b' : Branch
    b' = record b { writes = insert k v b.writes }

    grown : (j : ℤ) (c : Branch) → IsNode ctx j c → IsNode (write_branch i b k v ctx) j c
    grown j c =
        IsNode-grow ctx (write_branch i b k v ctx) j c (omega arith)
          (λ j. contains_after j i b' ctx.branches)

    new_node : IsNode (write_branch i b k v ctx) i b'
    new_node =
        let g = grown i b (h.nodes i b e) in
        record {
          own = g.own;
          used = g.used;
          up = g.up;
          written = insert-IsDict k v b.writes g.written;
        }

    written_node :
        (j : ℤ) (c : Branch)
        → lookup j (write_branch i b k v ctx).branches ≡ some c
        → IsNode (write_branch i b k v ctx) j c
    written_node j c ec = elim (lookup-insert_cases j i b' c ctx.branches ec) [
      | inl (ej, eb) ↦ rw (ej, eb) new_node
      | inr old ↦ grown j c (h.nodes j c old)
    ]
