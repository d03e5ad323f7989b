-- ===== src/Delivery/Loading/Selection.antt =====
-- Which rows of the data files become tasks in `load_experiment_tasks` of
-- Agent/vitabench_delivery.py, as a relation.
use dbagent_tree.Prelude.{
  ℕ, suc, ◌+◌, ◌≤◌, String, ◌≡◌, Bool, true, false, ◌⊎◌, List, [], ◌∷◌, arith, string_eq, ◌==◌,
  length,
}
use dbagent_tree.Exec.{ok}
use dbagent_tree.Tools.Json.{Json, Fields, str, field_or}
use dbagent_tree.Tools.Python.{Python, str_of}
use dbagent_tree.Tools.Context.{iterate}
use dbagent_tree.Delivery.{has}
use dbagent_tree.Delivery.Orders.{dict_of, delivery_compatibility_reason}
use dbagent_tree.Delivery.Loading.{Disk, normalize_task}

-- The task has no reason against it, where the source is filtered.
abbrev pub Passes : {F : Type 0} → Python F → Bool → Fields F → Type 0
Passes py true task = delivery_compatibility_reason py task ≡ ok ""
Passes py false task = Unit

-- No ids are asked for, or the task's own id is one of them, or its id with the source.
abbrev pub Wants : {F : Type 0} → Python F → List String → Fields F → Type 0
Wants py [] task = Unit
Wants py (id ∷ ids) task =
    (has (str_of py (field_or "id" (str "") task)) (id ∷ ids) ≡ true)
    ⊎ (has (str_of py (field_or "_task_uid" (str "") task)) (id ∷ ids) ≡ true)

-- `Picks py source filtered wanted n rows tasks skipped`: of the rows, which have the ordinals from n
-- on, those that pass and are wanted are the tasks, once each and in their order, in the normal form
-- with the row's ordinal, and so many rows are skipped for a reason.
pub data Picks {F : Type 0} (py : Python F) (source : String) (filtered : Bool)
    (wanted : List String) : ℕ → List (Json F) → List (Fields F) → ℕ → Type 0 where
  over : {n : ℕ} → Picks py source filtered wanted n [] [] 0
  kept :
      {n : ℕ} {raw : Json F} {rows : List (Json F)} {tasks : List (Fields F)} {skips : ℕ}
      (row : Fields F)
      → dict_of raw ≡ ok row
      → Passes py filtered (normalize_task py row source n)
      → Wants py wanted (normalize_task py row source n)
      → Picks py source filtered wanted (suc n) rows tasks skips
      → Picks py source filtered wanted n
          (raw ∷ rows)
          (normalize_task py row source n ∷ tasks)
          skips
  unwanted :
      {n : ℕ} {raw : Json F} {rows : List (Json F)} {tasks : List (Fields F)} {skips : ℕ}
      (row : Fields F)
      → dict_of raw ≡ ok row
      → Passes py filtered (normalize_task py row source n)
      → (Wants py wanted (normalize_task py row source n) → ⊥)
      → Picks py source filtered wanted (suc n) rows tasks skips
      → Picks py source filtered wanted n (raw ∷ rows) tasks skips
  skipped :
      {n : ℕ} {raw : Json F} {rows : List (Json F)} {tasks : List (Fields F)} {skips : ℕ}
      (row : Fields F) (reason : String)
      → dict_of raw ≡ ok row
      → filtered ≡ true
      → delivery_compatibility_reason py (normalize_task py row source n) ≡ ok reason
      → (reason == "") ≡ false
      → Picks py source filtered wanted (suc n) rows tasks skips
      → Picks py source filtered wanted n (raw ∷ rows) tasks (suc skips)

pub length-Picks :
    {F : Type 0} {py : Python F} {source : String} {filtered : Bool} {wanted : List String} {n : ℕ}
    {rows : List (Json F)} {tasks : List (Fields F)} {skips : ℕ}
    → Picks py source filtered wanted n rows tasks skips
    → length tasks + skips ≤ length rows
length-Picks over = omega arith
length-Picks (kept row e p w picks) = omega (arith, length-Picks picks)
length-Picks (unwanted row e p w picks) = omega (arith, length-Picks picks)
length-Picks (skipped row reason e f p r picks) = omega (arith, length-Picks picks)

module _ {F : Type 0} (py : Python F) (disk : Disk F) (wanted : List String) where
  -- The tasks are those that are picked of the rows in the file.
  abbrev pub FromFile : String → String → Bool → List (Fields F) → ℕ → Type 0
  FromFile source path filtered tasks skips =
      (raw : Json F) × (rows : List (Json F)) × (disk.exists path ≡ true)
      × (disk.read_json path ≡ ok raw)
      × (iterate raw ≡ ok rows)
      × Picks py source filtered wanted 0 rows tasks skips

  -- A source that is not asked for gives nothing.
  abbrev pub FromSource : Bool → String → String → Bool → List (Fields F) → ℕ → Type 0
  FromSource true source path filtered tasks skips = FromFile source path filtered tasks skips
  FromSource false source path filtered tasks skips = (tasks ≡ []) × (skips ≡ 0)
