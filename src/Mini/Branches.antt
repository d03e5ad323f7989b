-- ===== src/Mini/Branches.antt =====
-- The tree transactions of MiniDBClient in Agent/db_client.py: branches, the walks from a branch to
-- the root, and the commit of a winner.
use mathlib.Core.List.{reverse}
use dbagent_tree.Prelude.{
  ℕ, zero, suc, ◌+◌, String, ◌++◌, Bool, false, not, Option, none, some, List, [], ◌∷◌, ℤ, pos,
  pos_part, int_eq, string_eq, ◌==◌, if◌then◌else◌, str_int,
}
use dbagent_tree.Dict.{Dict, lookup, insert, update, contains}
use dbagent_tree.Exec.{
  Result, ok, err, hang, pure, gets, or_raise, lift, raise_if, modify, ◌>>=◌, ◌>>◌,
}
use dbagent_tree.Mini.{
  Branch, TreeContext, Action, ⊤, new_branch, new_tree, set_tree, drop_tree, update_store,
}

unfoldable pub tstart : String → Action String
tstart tx_id = do
  store ← gets (λ db. db.store)
  let ctx = new_tree tx_id store
  let root = new_branch (pos 0) (pos 0)
  modify (set_tree tx_id (record ctx { branches = insert (pos 0) root ctx.branches }))
  pure tx_id

abbrev pub bad_tree : String → String
bad_tree tx_id = "invalid or inactive tree tx_id: " ++ tx_id

abbrev pub active_tree : Option TreeContext → Option TreeContext
active_tree none = none
active_tree (some ctx) = if not ctx.active then none else some ctx

unfoldable pub require_tree_tx : String → Action TreeContext
require_tree_tx tx_id = do
  found ← gets (λ db. lookup tx_id db.tree_map)
  or_raise (active_tree found) (bad_tree tx_id)

-- The context with one more branch.
abbrev pub add_branch : ℤ → TreeContext → TreeContext
add_branch parent ctx = record ctx {
  next_branch_id = ctx.next_branch_id + 1;
  branches =
      insert (pos ctx.next_branch_id) (new_branch (pos ctx.next_branch_id) parent) ctx.branches;
}

unfoldable pub tbranch : String → ℤ → Action ℤ
tbranch tx_id parent = do
  ctx ← require_tree_tx tx_id
  raise_if (not (contains parent ctx.branches)) ("unknown parent branch_id: " ++ str_int parent)
  modify (set_tree tx_id (add_branch parent ctx))
  pure (pos ctx.next_branch_id)

unfoldable pub tbranch_rounds : ℕ → String → ℤ → Action (List ℤ)
tbranch_rounds zero tx_id parent = pure []
tbranch_rounds (suc n) tx_id parent = do
  branch_id ← tbranch tx_id parent
  rest ← tbranch_rounds n tx_id parent
  pure (branch_id ∷ rest)

-- `range(max(0, count))` gives the rounds.
unfoldable pub tbranch_many : String → ℤ → ℤ → Action (List ℤ)
unfolding tbranch_rounds
tbranch_many tx_id parent count = tbranch_rounds (pos_part count) tx_id parent

-- The walk of `_resolve_branch_value` from a branch up to the root; `hang` if the fuel is too small.
unfoldable pub resolve_from : ℕ → TreeContext → Option Branch → String → Result (Option String)
resolve_from zero ctx current key = hang
resolve_from (suc fuel) ctx none key = ok (lookup key ctx.snapshot)
resolve_from (suc fuel) ctx (some b) key =
    let above = resolve_from fuel ctx (lookup b.parent_branch_id ctx.branches) key in
    elim (lookup key b.writes) [
      | some v ↦ ok (some v)
      | none ↦ if b.parent_branch_id == b.branch_id then ok (lookup key ctx.snapshot) else above
    ]

-- Each round goes to a branch with a smaller id.
abbrev pub walk_fuel : TreeContext → ℕ
walk_fuel ctx = suc (suc ctx.next_branch_id)

unfoldable pub resolve_branch_value : TreeContext → ℤ → String → Result (Option String)
resolve_branch_value ctx branch_id key =
    resolve_from (walk_fuel ctx) ctx (lookup branch_id ctx.branches) key

unfoldable pub tget : String → ℤ → String → Bool → Action (Option String)
tget tx_id branch_id key strict = do
  ctx ← require_tree_tx tx_id
  raise_if (not (contains branch_id ctx.branches)) ("unknown branch_id: " ++ str_int branch_id)
  if strict then pure (lookup key ctx.snapshot) else lift (resolve_branch_value ctx branch_id key)

unfoldable pub tget_many : String → List (ℤ × String) → Bool → Action (List (Option String))
tget_many tx_id [] strict = pure []
tget_many tx_id ((branch_id, key) ∷ requests) strict = do
  value ← tget tx_id branch_id key strict
  rest ← tget_many tx_id requests strict
  pure (value ∷ rest)

-- The context after `branch.writes[key] = value` on its branch `b`.
abbrev pub write_branch : ℤ → Branch → String → String → TreeContext → TreeContext
write_branch branch_id b key value ctx = record ctx {
  branches = insert branch_id (record b { writes = insert key value b.writes }) ctx.branches;
}

unfoldable pub tput : String → ℤ → String → String → Action ⊤
tput tx_id branch_id key value = do
  ctx ← require_tree_tx tx_id
  b ← or_raise (lookup branch_id ctx.branches) ("unknown branch_id: " ++ str_int branch_id)
  raise_if (branch_id == pos 0) "root branch is read-only in mini tree mode"
  modify (set_tree tx_id (write_branch branch_id b key value ctx))

unfoldable pub tput_many : String → List (ℤ × String × String) → Action ⊤
tput_many tx_id [] = pure tt
tput_many tx_id ((branch_id, key, value) ∷ requests) =
    tput tx_id branch_id key value >> tput_many tx_id requests

unfoldable pub twinner : String → ℤ → Action ⊤
twinner tx_id branch_id = do
  ctx ← require_tree_tx tx_id
  raise_if (not (contains branch_id ctx.branches))
      ("unknown winner branch_id: " ++ str_int branch_id)
  modify (set_tree tx_id (record ctx { winner_branch_id = some branch_id }))

abbrev pub is_winner : ℤ → Option ℤ → Bool
is_winner branch_id none = false
is_winner branch_id (some w) = w == branch_id

unfoldable pub trefresh_winner : String → ℤ → String → Action (Option String)
trefresh_winner tx_id branch_id key = do
  ctx ← require_tree_tx tx_id
  raise_if (not (is_winner branch_id ctx.winner_branch_id))
      ("branch " ++ (str_int branch_id ++ " is not the winner"))
  pure (lookup key ctx.snapshot)

abbrev pub push : Branch → Result (List Branch) → Result (List Branch)
push b (ok bs) = ok (b ∷ bs)
push b (err m) = err m
push b hang = hang

-- The loop that collects `lineage`, from the winner up to the root.
unfoldable pub lineage_from : ℕ → TreeContext → Option Branch → Result (List Branch)
lineage_from zero ctx current = hang
lineage_from (suc fuel) ctx none = ok []
lineage_from (suc fuel) ctx (some b) =
    let above = lineage_from fuel ctx (lookup b.parent_branch_id ctx.branches) in
    if b.parent_branch_id == b.branch_id then ok (b ∷ []) else push b above

-- `for branch in …: merged.update(branch.writes)`
unfoldable pub merge_into : Dict String String → List Branch → Dict String String
merge_into merged [] = merged
merge_into merged (b ∷ bs) = merge_into (update merged b.writes) bs

unfoldable pub merge_lineage : List Branch → Dict String String
merge_lineage lineage = merge_into [] (reverse lineage)

-- The end of `tcommit_retry`: the merged writes go to the store, and the transaction is over.
abbrev pub publish : String → TreeContext → List Branch → Action ⊤
publish tx_id ctx lineage = do
  modify (update_store (merge_lineage lineage))
  modify (set_tree tx_id (record ctx { active = false }))
  modify (drop_tree tx_id)

-- The rest of `tcommit_retry`, with `ctx.winner_branch_id` at hand.
unfoldable pub commit_winner : String → TreeContext → Option ℤ → Action ⊤
commit_winner tx_id ctx selected = do
  winner_id ← or_raise selected "winner branch is not selected"
  winner ← or_raise (lookup winner_id ctx.branches) "winner branch is missing"
  lineage ← lift (lineage_from (walk_fuel ctx) ctx (some winner))
  publish tx_id ctx lineage

unfoldable pub tcommit_retry : String → Action ⊤
tcommit_retry tx_id = do ctx ← require_tree_tx tx_id; commit_winner tx_id ctx ctx.winner_branch_id

unfoldable pub tcommit : String → Action ⊤
tcommit tx_id = tcommit_retry tx_id

unfoldable pub tabort : String → Action ⊤
tabort tx_id = do
  ctx ← require_tree_tx tx_id
  modify (set_tree tx_id (record ctx { active = false }))
  modify (drop_tree tx_id)
