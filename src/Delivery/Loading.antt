-- ===== src/Delivery/Loading.antt =====
-- The loading of tasks in Agent/vitabench_delivery.py: `_normalize_task` and
-- `load_experiment_tasks`. The data files are parameters.
pub mod Counting
pub mod Selection
pub mod Filtered
use Prim.Native.String
use mathlib.Core.List.{◌++◌}
use dbagent_tree.Prelude.{
  ℕ, zero, suc, ◌+◌, ◌-◌, String, Bool, true, false, not, ◌||◌, ◌&&◌, Option, none, some, List, [],
  ◌∷◌, ℤ, pos, negsuc, string_eq, ◌==◌, length, take, if◌then◌else◌,
}
use dbagent_tree.Dict.{Dict, lookup, insert}
use dbagent_tree.Exec.{Result, ok, err, hang}
use dbagent_tree.Exec.Results.{◌>>=◌}
use dbagent_tree.Tools.Json.{Json, Fields, int, str, field?, field_or, set_field}
use dbagent_tree.Tools.Python.{Python, str_of}
use dbagent_tree.Tools.Context.{iterate}
use dbagent_tree.Delivery.{has}
use dbagent_tree.Delivery.Orders.{dict_of, delivery_compatibility_reason}

-- `os.path.exists(path)` and `_read_json_file(path)`.
pub record Disk (F : Type 0) : Type 0 where
  pub exists : String → Bool
  pub read_json : String → Result (Json F)

-- What the loops over the sources have gathered.
pub record Loaded (F : Type 0) : Type 0 where
  pub tasks : List (Fields F)
  pub skipped : Dict String ℕ
  pub source_counts : Dict String ℕ

-- `load_summary`
pub record LoadSummary : Type 0 where
  pub eligible_task_count : ℕ
  pub skipped_task_count : ℕ
  pub skip_reason_distribution : Dict String ℕ
  pub source_counts : Dict String ℕ
  pub task_source : String
  pub cross_domain_path : String

abbrev pub count_of : Option ℕ → ℕ
count_of none = 0
count_of (some n) = n

-- `distribution[reason] += 1`
unfoldable pub count_one : String → Dict String ℕ → Dict String ℕ
unfolding lookup insert
count_one reason d = insert reason (suc (count_of (lookup reason d))) d

-- `sum(distribution.values())`
unfoldable pub total : Dict String ℕ → ℕ
total [] = 0
total ((k, n) ∷ d) = n + total d

-- A source of tasks: its name, its file, and whether its tasks are filtered.
abbrev pub Source : Type 0
Source = String × String × Bool

abbrev pub sources_of : String → String → String → List Source
sources_of task_source delivery_path cross_domain_path =
    (if task_source == "delivery" || task_source == "both"
      then ("delivery", delivery_path, false) ∷ []
      else [])
    ++ (if task_source == "cross_domain" || task_source == "both"
        then ("cross_domain", cross_domain_path, true) ∷ []
        else [])

-- `tasks[:limit]`
abbrev pub limited : {A : Type 0} → Option ℤ → List A → List A
limited none xs = xs
limited (some (pos n)) xs = take n xs
limited (some (negsuc n)) xs = take (length xs - suc n) xs

module _ {F : Type 0} (py : Python F) where
  abbrev with_instructions : Fields F → Fields F
  with_instructions task = elim (field? "instructions" task) [
    | none ↦ set_field "instructions" (str "") task
    | some v ↦ task
  ]

  unfoldable pub normalize_task : Fields F → String → ℕ → Fields F
  normalize_task task task_source ordinal =
      let tagged = set_field "_task_source" (str task_source) task in
      let id = str_of py (field_or "id" (int (pos ordinal)) tagged) in
      with_instructions
        (set_field "_task_uid" (str (String.◌++◌ task_source (String.◌++◌ ":" id))) tagged)

  -- Without wanted ids, every task is wanted.
  abbrev pub is_wanted : List String → Fields F → Bool
  is_wanted [] task = true
  is_wanted (id ∷ ids) task =
      has (str_of py (field_or "id" (str "") task)) (id ∷ ids)
      || has (str_of py (field_or "_task_uid" (str "") task)) (id ∷ ids)

  abbrev pub reason_to_skip : Bool → Fields F → Result String
  reason_to_skip filter_compatible task =
      if filter_compatible then delivery_compatibility_reason py task else ok ""

  abbrev pub keep_task : List String → Fields F → String → Loaded F → Loaded F
  keep_task wanted task reason l =
      if not (reason == "")
      then record l { skipped = count_one reason l.skipped }
      else if is_wanted wanted task
      then record l { tasks = l.tasks ++ (task ∷ []) }
      else l

  -- The loop over the tasks of a source, from an ordinal on.
  unfoldable pub load_rows :
      String → Bool → List String → ℕ → List (Json F) → Loaded F → Result (Loaded F)
  load_rows source_name filter_compatible wanted ordinal [] l = ok l
  load_rows source_name filter_compatible wanted ordinal (raw ∷ rows) l = do
    raw_task ← dict_of raw
    let task = normalize_task raw_task source_name ordinal
    reason ← reason_to_skip filter_compatible task
    load_rows source_name filter_compatible wanted (suc ordinal) rows
        (keep_task wanted task reason l)

  unfoldable pub load_source : Disk F → List String → Source → Loaded F → Result (Loaded F)
  load_source disk wanted (source_name, path, filter_compatible) l =
      if not (disk.exists path)
      then err (String.◌++◌ "dataset path not found: " path)
      else (disk.read_json path >>= λ raw. iterate raw >>= λ rows.
          load_rows source_name filter_compatible wanted 0 rows
            (record l { source_counts = insert source_name (length rows) l.source_counts }))

  unfoldable pub load_sources : Disk F → List String → List Source → Loaded F → Result (Loaded F)
  load_sources disk wanted [] l = ok l
  load_sources disk wanted (source ∷ sources) l =
      load_source disk wanted source l >>= λ l'. load_sources disk wanted sources l'

  abbrev nothing_loaded : Loaded F
  nothing_loaded = record { tasks = []; skipped = []; source_counts = [] }

  unfoldable pub load_experiment_tasks :
      Disk F
      → String
      → String
      → String
      → List String
      → Option ℤ
      → Result (List (Fields F) × LoadSummary)
  load_experiment_tasks disk delivery_path task_source cross_domain_path task_ids limit = do
    let sources = sources_of task_source delivery_path cross_domain_path
    l ← load_sources disk task_ids sources nothing_loaded
    let tasks = limited limit l.tasks
    ok (
      tasks,
      record {
        eligible_task_count = length tasks;
        skipped_task_count = total l.skipped;
        skip_reason_distribution = l.skipped;
        source_counts = l.source_counts;
        task_source = task_source;
        cross_domain_path = cross_domain_path;
      },
    )

  -- `load_delivery_tasks`, with the path that the module has for the other source.
  unfoldable pub load_delivery_tasks :
      Disk F → String → String → List String → Option ℤ → Result (List (Fields F))
  load_delivery_tasks disk default_cross_domain_path dataset_path task_ids limit = do
    (tasks, summary) ←
        load_experiment_tasks disk dataset_path "delivery" default_cross_domain_path task_ids limit
    ok tasks
