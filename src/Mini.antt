-- ===== src/Mini.antt =====
-- The in-memory database of Agent/db_client.py: TxContext, MiniTreeBranch, MiniTreeContext and
-- MiniDBClient. A method holds the client's lock from start to end, so it is one step on the
-- state; those on many items hold it for each item. What `uuid.uuid4` draws is an argument of the
-- methods that draw it.
pub mod Branches
pub mod Invariant
pub mod Steps
pub mod Calls
pub mod Lineage
pub mod Commit
pub mod Isolation
pub mod TreeIsolation
pub mod Flow
mod Tests
use mathlib.Core.List.{reverse}
use dbagent_tree.Prelude.{
  ℕ, zero, suc, ◌+◌, String, ◌++◌, Bool, true, false, not, Option, none, some, List, [], ◌∷◌, ℤ,
  pos, pos_part, int_eq, string_eq, ◌==◌, if◌then◌else◌, str_int,
}
use dbagent_tree.Dict.{Dict, lookup, insert, erase, update, contains, size}
use dbagent_tree.Exec.{
  Result, ok, err, hang, Exec, pure, gets, or_raise, lift, raise_if, modify, ◌>>=◌, ◌>>◌,
}

pub record TxContext : Type 0 where
  pub tx_id : String
  pub snapshot : Dict String String
  pub writes : Dict String String
  pub active : Bool

pub record Branch : Type 0 where
  pub branch_id : ℤ
  pub parent_branch_id : ℤ
  pub writes : Dict String String

pub record TreeContext : Type 0 where
  pub tx_id : String
  pub snapshot : Dict String String
  pub branches : Dict ℤ Branch
  pub next_branch_id : ℕ
  pub winner_branch_id : Option ℤ
  pub active : Bool
  pub last_abort_reason : String

pub record MiniDb : Type 0 where
  pub store : Dict String String
  pub tx_map : Dict String TxContext
  pub tree_map : Dict String TreeContext

abbrev pub empty : MiniDb
empty = record { store = []; tx_map = []; tree_map = [] }

abbrev pub Action : Type 0 → Type 0
Action A = Exec MiniDb A

abbrev pub ⊤ : Type 0
⊤ = Unit

-- The constructors of the three contexts.
abbrev pub new_tx : String → Dict String String → TxContext
new_tx tx_id snapshot = record { tx_id = tx_id; snapshot = snapshot; writes = []; active = true }

abbrev pub new_branch : ℤ → ℤ → Branch
new_branch branch_id parent = record {
  branch_id = branch_id;
  parent_branch_id = parent;
  writes = [];
}

abbrev pub new_tree : String → Dict String String → TreeContext
new_tree tx_id snapshot = record {
  tx_id = tx_id;
  snapshot = snapshot;
  branches = [];
  next_branch_id = 1;
  winner_branch_id = none;
  active = true;
  last_abort_reason = "";
}

-- Writing a context object back to the map that holds it.
abbrev pub set_tx : String → TxContext → MiniDb → MiniDb
set_tx tx_id tx db = record db { tx_map = insert tx_id tx db.tx_map }

abbrev pub drop_tx : String → MiniDb → MiniDb
drop_tx tx_id db = record db { tx_map = erase tx_id db.tx_map }

abbrev pub set_tree : String → TreeContext → MiniDb → MiniDb
set_tree tx_id ctx db = record db { tree_map = insert tx_id ctx db.tree_map }

abbrev pub drop_tree : String → MiniDb → MiniDb
drop_tree tx_id db = record db { tree_map = erase tx_id db.tree_map }

abbrev pub update_store : Dict String String → MiniDb → MiniDb
update_store new db = record db { store = update db.store new }

unfoldable pub kv_get : String → Action (Option String)
kv_get key = gets (λ db. lookup key db.store)

unfoldable pub start : String → Action String
start tx_id = do
  store ← gets (λ db. db.store)
  modify (set_tx tx_id (new_tx tx_id store))
  pure tx_id

abbrev pub bad_tx : String → String
bad_tx tx_id = "invalid or inactive tx_id: " ++ tx_id

abbrev active_tx : Option TxContext → Option TxContext
active_tx none = none
active_tx (some tx) = if not tx.active then none else some tx

unfoldable pub require_tx : String → Action TxContext
require_tx tx_id = do
  found ← gets (λ db. lookup tx_id db.tx_map)
  or_raise (active_tx found) (bad_tx tx_id)

-- `tx.writes[key]` if the key was written, else `tx.snapshot.get(key)`.
abbrev pub tx_value : String → TxContext → Option String
tx_value key tx = elim (lookup key tx.writes) [ some v ↦ some v | none ↦ lookup key tx.snapshot ]

unfoldable pub get : String → String → Action (Option String)
get tx_id key = do tx ← require_tx tx_id; pure (tx_value key tx)

unfoldable pub put : String → String → String → Action ⊤
put tx_id key value = do
  tx ← require_tx tx_id
  modify (set_tx tx_id (record tx { writes = insert key value tx.writes }))

unfoldable pub commit : String → Action ⊤
commit tx_id = do
  tx ← require_tx tx_id
  modify (update_store tx.writes)
  modify (set_tx tx_id (record tx { active = false }))
  modify (drop_tx tx_id)

unfoldable pub rollback : String → Action ⊤
rollback tx_id = do
  tx ← require_tx tx_id
  modify (set_tx tx_id (record tx { active = false }))
  modify (drop_tx tx_id)

pub record Dump : Type 0 where
  pub ok : Bool
  pub contents : Dict String String
  pub entries : ℕ

unfoldable pub dump_all : Action Dump
unfolding size
dump_all = gets (λ db. record { ok = true; contents = db.store; entries = size db.store })
