-- ===== src/Mini/Lineage.antt =====
-- The two walks from a branch up to the root, `_resolve_branch_value` and the loop of
-- `tcommit_retry`, in Agent/db_client.py: both end, and the one reads what the other collects.
use mathlib.Core.List.{reverse, reverse-append, ◌++◌}
use dbagent_tree.Prelude.{
  ℕ, zero, suc, ◌<◌, String, ◌≡◌, refl, ◌∙◌, inl, inr, Option, none, some, List, [], ◌∷◌, arith, ℤ,
  pos_part, int_eq, string_eq, ◌==◌, Bool-cases,
}
use dbagent_tree.Dict.{Dict, lookup, update, or_else}
use dbagent_tree.Dict.Laws.{IsDict, lookup-update, update-IsDict, contains-lookup}
use dbagent_tree.Exec.{Result, ok, err, hang}
use dbagent_tree.Mini.{Branch, TreeContext}
use dbagent_tree.Mini.Branches.{
  resolve_from, lineage_from, push, walk_fuel, merge_into, merge_lineage,
}
use dbagent_tree.Mini.Invariant.{IsTree}

-- The value that the youngest branch of a lineage wrote under a key.
abbrev pub first_write : String → List Branch → Option String
first_write key [] = none
first_write key (b ∷ bs) = or_else (lookup key b.writes) (first_write key bs)

abbrev pub AllWritten : List Branch → Type 0
AllWritten [] = Unit
AllWritten (b ∷ bs) = IsDict b.writes × AllWritten bs

push-eq-ok :
    (b : Branch) (r : Result (List Branch)) (l : List Branch)
    → push b r ≡ ok l
    → (bs : List Branch) × (r ≡ ok bs) × (l ≡ b ∷ bs)
push-eq-ok b (ok bs) l h = (bs, refl, cc)
push-eq-ok b (err m) l h = cc
push-eq-ok b hang l h = cc

-- The value read at a branch is the first write on its lineage, and the snapshot's if there is none.
pub resolve_from-lineage :
    (fuel : ℕ) (ctx : TreeContext) (current : Option Branch) (key : String) (l : List Branch)
    → lineage_from fuel ctx current ≡ ok l
    → resolve_from fuel ctx current key ≡ ok (or_else (first_write key l) (lookup key ctx.snapshot))
unfolding lineage_from resolve_from
resolve_from-lineage zero ctx current key l h = cc
resolve_from-lineage (suc fuel) ctx none key l h = ground arith
resolve_from-lineage (suc fuel) ctx (some b) key l h =
    elim (Bool-cases (b.parent_branch_id == b.branch_id)) [
      | inl top ↦ ground arith
      | inr below ↦
          let above = lineage_from fuel ctx (lookup b.parent_branch_id ctx.branches) in
          let (bs, e, el) = push-eq-ok b above l (rw below at h) in
          ground
            (arith, resolve_from-lineage fuel ctx (lookup b.parent_branch_id ctx.branches) key bs e)
    ]

-- On a well-formed tree the walk ends before the fuel does.
pub lineage_from_total :
    (fuel : ℕ) (t : String) (ctx : TreeContext) (i : ℤ) (b : Branch)
    → IsTree t ctx
    → lookup i ctx.branches ≡ some b
    → pos_part i < fuel
    → (l : List Branch) × (lineage_from fuel ctx (some b) ≡ ok l) × AllWritten l
unfolding lineage_from
lineage_from_total zero t ctx i b h e lt = absurd (omega arith)
lineage_from_total (suc fuel) t ctx i b h e lt =
    let own = (h.nodes i b e).own in
    let top = int_eq.same_iff b.parent_branch_id b.branch_id in
    elim (h.nodes i b e).up [
      | inl (ei, ep) ↦ (b ∷ [], ground (arith, own, top), ((h.nodes i b e).written, tt))
      | inr (older, known) ↦
          let (p, ep) = contains-lookup b.parent_branch_id ctx.branches known in
          let (l, el, wl) = lineage_from_total fuel t ctx b.parent_branch_id p h ep (omega arith) in
          (b ∷ l, ground (arith, own, top, ep, el), ((h.nodes i b e).written, wl))
    ]

module _ (t : String) (ctx : TreeContext) (i : ℤ) (b : Branch) (h : IsTree t ctx)
    (e : lookup i ctx.branches ≡ some b) where
  -- From a branch that exists, the fuel given is enough.
  pub lineage_total :
      (l : List Branch) × (lineage_from (walk_fuel ctx) ctx (some b) ≡ ok l) × AllWritten l
  lineage_total =
      lineage_from_total (walk_fuel ctx) t ctx i b h e (omega (arith, (h.nodes i b e).used))

-- The merged writes of a lineage, oldest branch first, hold the youngest write of each key.
merge_into-append :
    (d : Dict String String) (bs : List Branch) (b : Branch)
    → merge_into d (bs ++ b ∷ []) ≡ update (merge_into d bs) b.writes
unfolding merge_into
merge_into-append d [] b = refl
merge_into-append d (c ∷ bs) b = merge_into-append (update d c.writes) bs b

lookup-merge_into-reverse :
    (key : String) (d : Dict String String) (bs : List Branch)
    → AllWritten bs
    → lookup key (merge_into d (reverse bs)) ≡ or_else (first_write key bs) (lookup key d)
unfolding merge_into
lookup-merge_into-reverse key d [] h = refl
lookup-merge_into-reverse key d (b ∷ bs) h =
    rw
      (
        reverse-append (b ∷ []) bs,
        merge_into-append,
        lookup-update key (merge_into d (reverse bs)) b.writes h.0,
      )
      (ground (arith, lookup-merge_into-reverse key d bs h.1))

merge_into-IsDict :
    (d : Dict String String) (bs : List Branch) → IsDict d → IsDict (merge_into d bs)
unfolding merge_into
merge_into-IsDict d [] h = h
merge_into-IsDict d (b ∷ bs) h =
    merge_into-IsDict (update d b.writes) bs (update-IsDict d b.writes h)

pub merge_lineage-IsDict : (bs : List Branch) → IsDict (merge_lineage bs)
unfolding merge_lineage
merge_lineage-IsDict bs = merge_into-IsDict [] (reverse bs) tt

pub lookup-merge_lineage :
    (key : String) (bs : List Branch)
    → AllWritten bs
    → lookup key (merge_lineage bs) ≡ first_write key bs
unfolding merge_lineage lookup
lookup-merge_lineage key bs h = lookup-merge_into-reverse key [] bs h ∙ ground arith
