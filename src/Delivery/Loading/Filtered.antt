-- ===== src/Delivery/Loading/Filtered.antt =====
-- What `load_experiment_tasks` of Agent/vitabench_delivery.py loads, skips and counts.
use mathlib.Core.List.{◌++◌, append-nil, append_assoc}
use dbagent_tree.Prelude.{
  ℕ, suc, ◌+◌, ◌≤◌, String, ◌≡◌, refl, sym, ap, ◌∙◌, Bool, true, false, ◌||◌, inl, inr, Bool-cases,
  Option, List, [], ◌∷◌, ℤ, arith, string_eq, ◌==◌, length, if◌then◌else◌,
}
use dbagent_tree.Dict.{Dict, insert}
use dbagent_tree.Exec.{ok}
use dbagent_tree.Exec.Results.{bind_ok}
use dbagent_tree.Tools.Json.{Json, Fields}
use dbagent_tree.Tools.Python.{Python}
use dbagent_tree.Tools.Context.{iterate}
use dbagent_tree.Delivery.Orders.{dict_of}
use dbagent_tree.Delivery.Loading.{
  Disk, Loaded, LoadSummary, total, Source, sources_of, limited, normalize_task, is_wanted,
  reason_to_skip, keep_task, load_rows, load_source, load_sources, nothing_loaded,
  load_experiment_tasks,
}
use dbagent_tree.Delivery.Loading.Counting.{Within, length-limited, limited-Within, total-count_one}
use dbagent_tree.Delivery.Loading.Selection.{
  Passes, Wants, Picks, over, kept, unwanted, skipped, length-Picks, FromSource,
}

length-append : {A : Type 0} (xs ys : List A) → length (xs ++ ys) ≡ length xs + length ys
length-append [] ys = omega arith
length-append (x ∷ xs) ys = omega (arith, length-append xs ys)

module _ {F : Type 0} (py : Python F) where
  -- The tasks and the skips that were added.
  abbrev Added : Loaded F → Loaded F → List (Fields F) → ℕ → Type 0
  Added l l' tasks skips =
      (l'.tasks ≡ l.tasks ++ tasks) × (total l'.skipped ≡ total l.skipped + skips)

  -- What holds when the rows from an ordinal on have been gone through.
  abbrev Gathers : String → Bool → List String → ℕ → List (Json F) → Loaded F → Loaded F → Type 0
  Gathers source filtered wanted n rows l l' =
      (tasks : List (Fields F)) × (skips : ℕ) × Picks py source filtered wanted n rows tasks skips
      × Added l l' tasks skips
      × (l'.source_counts ≡ l.source_counts)

  reason-Passes :
      (filtered : Bool) (task : Fields F) (reason : String)
      → reason_to_skip py filtered task ≡ ok reason
      → (reason == "") ≡ true
      → Passes py filtered task
  reason-Passes true task reason e fine = e ∙ ap ok ((string_eq.same_iff reason "").0 fine)
  reason-Passes false task reason e fine = tt

  is_wanted-Wants :
      (wanted : List String) (task : Fields F)
      → is_wanted py wanted task ≡ true
      → Wants py wanted task
  is_wanted-Wants [] task e = tt
  is_wanted-Wants (id ∷ ids) task e = ground arith

  unwanted-Wants :
      (wanted : List String) (task : Fields F)
      → is_wanted py wanted task ≡ false
      → Wants py wanted task
      → ⊥
  unwanted-Wants [] task e w = absurd (cc)
  unwanted-Wants (id ∷ ids) task e w = absurd (ground arith)

  -- The reason of a task that is skipped comes from the filter.
  skipped-Picks :
      (source : String) (filtered : Bool) (wanted : List String) (n : ℕ) (raw : Json F)
      (rows : List (Json F)) (row : Fields F) (reason : String) (tasks : List (Fields F))
      (skips : ℕ)
      → dict_of raw ≡ ok row
      → reason_to_skip py filtered (normalize_task py row source n) ≡ ok reason
      → (reason == "") ≡ false
      → Picks py source filtered wanted (suc n) rows tasks skips
      → Picks py source filtered wanted n (raw ∷ rows) tasks (suc skips)
  skipped-Picks source true wanted n raw rows row reason tasks skips d e bad picks =
      skipped row reason d refl e bad picks
  skipped-Picks source false wanted n raw rows row reason tasks skips d e bad picks =
      absurd (
        let empty : "" ≡ reason = cc in let no : true ≡ false = ap (λ s. s == "") empty ∙ bad in cc)

  -- One row, and the rows behind it.
  keep_task-Gathers :
      (source : String) (filtered : Bool) (wanted : List String) (n : ℕ) (raw : Json F)
      (rows : List (Json F)) (row : Fields F) (reason : String) (l l' : Loaded F)
      → dict_of raw ≡ ok row
      → reason_to_skip py filtered (normalize_task py row source n) ≡ ok reason
      → Gathers source filtered wanted
          (suc n)
          rows
          (keep_task py wanted (normalize_task py row source n) reason l)
          l'
      → Gathers source filtered wanted n (raw ∷ rows) l l'
  keep_task-Gathers source filtered wanted n raw rows row reason l l' d e
        (tasks, skips, picks, (added, counted), counts) =
      let task = normalize_task py row source n in
      elim (Bool-cases (reason == "")) [
        | inr bad ↦ (
          tasks,
          suc skips,
          skipped-Picks source filtered wanted n raw rows row reason tasks skips d e bad picks,
          (rw bad at added, omega (arith, rw bad at counted, total-count_one reason l.skipped)),
          rw bad at counts,
        )
        | inl fine ↦ elim (Bool-cases (is_wanted py wanted task)) [
          | inr isnt ↦ (
            tasks,
            skips,
            unwanted row d (reason-Passes filtered task reason e fine)
                (unwanted-Wants wanted task isnt) picks,
            (rw (fine, isnt) at added, rw (fine, isnt) at counted),
            rw (fine, isnt) at counts,
          )
          | inl is ↦ (
            task ∷ tasks,
            skips,
            kept row d (reason-Passes filtered task reason e fine) (is_wanted-Wants wanted task is)
                picks,
            (
              (rw (fine, is) at added) ∙ append_assoc l.tasks (task ∷ []) tasks,
              rw (fine, is) at counted,
            ),
            rw (fine, is) at counts,
          )
        ]
      ]

  load_rows-Gathers :
      (source : String) (filtered : Bool) (wanted : List String) (n : ℕ) (rows : List (Json F))
      (l l' : Loaded F)
      → load_rows py source filtered wanted n rows l ≡ ok l'
      → Gathers source filtered wanted n rows l l'
  unfolding load_rows
  load_rows-Gathers source filtered wanted n [] l l' h =
      let e : l ≡ l' = cc in rw e ([], 0, over, (sym (append-nil l'.tasks), omega arith), refl)
  load_rows-Gathers source filtered wanted n (raw ∷ rows) l l' h =
      let (row, e, h') = bind_ok (dict_of raw) _ h in
      let (reason, e', rest) =
        bind_ok (reason_to_skip py filtered (normalize_task py row source n)) _ h' in
      keep_task-Gathers source filtered wanted n raw rows row reason l l' e e'
        (load_rows-Gathers source filtered wanted (suc n) rows _ l' rest)

  -- What holds when a source has been gone through, or was not asked for.
  abbrev Counted : String → ℕ → Dict String ℕ → Bool → Dict String ℕ → Type 0
  Counted source rows counts asked counts' =
      counts' ≡ (if asked then insert source rows counts else counts)

  abbrev Loads : Disk F → List String → Bool → Source → Loaded F → Loaded F → Type 0
  Loads disk wanted asked (source, path, filtered) l l' =
      (tasks : List (Fields F)) × (skips : ℕ) × (rows : ℕ) × FromSource py disk wanted asked source
        path filtered tasks skips
      × Added l l' tasks skips
      × (length tasks + skips ≤ (if asked then rows else 0))
      × Counted source rows l.source_counts asked l'.source_counts

  load_source-Loads :
      (disk : Disk F) (wanted : List String) (source path : String) (filtered : Bool)
      (l l' : Loaded F)
      → load_source py disk wanted (source, path, filtered) l ≡ ok l'
      → Loads disk wanted true (source, path, filtered) l l'
  unfolding load_source
  load_source-Loads disk wanted source path filtered l l' h = elim (Bool-cases (disk.exists path)) [
    | inr e ↦ absurd (let no = rw e at h in cc)
    | inl e ↦
        let (raw, e', h') = bind_ok (disk.read_json path) _ (rw e at h) in
        let (rows, e'', h'') = bind_ok (iterate raw) _ h' in
        let (tasks, skips, picks, added, counts) =
          load_rows-Gathers source filtered wanted 0 rows _ l' h'' in
        (
          tasks,
          skips,
          length rows,
          (raw, rows, e, e', e'', picks),
          added,
          length-Picks picks,
          counts,
        )
  ]

  load_asked-Loads :
      (disk : Disk F) (wanted : List String) (asked : Bool) (source path : String) (filtered : Bool)
      (l l' : Loaded F)
      → load_sources py disk wanted (if asked then (source, path, filtered) ∷ [] else []) l ≡ ok l'
      → Loads disk wanted asked (source, path, filtered) l l'
  unfolding load_sources
  load_asked-Loads disk wanted true source path filtered l l' h =
      let (l1, e, h') = bind_ok (load_source py disk wanted (source, path, filtered) l) _ h in
      let same : l1 ≡ l' = cc in
      load_source-Loads disk wanted source path filtered l l' (rw same at e)
  load_asked-Loads disk wanted false source path filtered l l' h =
      let e : l ≡ l' = cc in
      rw e ([], 0, 0, (refl, refl), (sym (append-nil l'.tasks), omega arith), omega arith, refl)

  load_sources-append :
      (disk : Disk F) (wanted : List String) (xs ys : List Source) (l l' : Loaded F)
      → load_sources py disk wanted (xs ++ ys) l ≡ ok l'
      → (l1 : Loaded F) × (load_sources py disk wanted xs l ≡ ok l1)
        × (load_sources py disk wanted ys l1 ≡ ok l')
  unfolding load_sources
  load_sources-append disk wanted [] ys l l' h = (l, refl, h)
  load_sources-append disk wanted (x ∷ xs) ys l l' h =
      let (l0, e, h') = bind_ok (load_source py disk wanted x l) _ h in
      let (l1, e1, h1) = load_sources-append disk wanted xs ys l0 l' h' in (l1, rw e e1, h1)

  -- Two sources of different names are counted apart.
  total_of_two :
      (a b : Bool) (n m : ℕ) (counts counts' : Dict String ℕ)
      → Counted "delivery" n [] a counts
      → Counted "cross_domain" m counts b counts'
      → total counts' ≡ (if a then n else 0) + (if b then m else 0)
  unfolding total insert
  total_of_two true true n m counts counts' e e' = rw (e', e) (omega arith)
  total_of_two true false n m counts counts' e e' = rw (e', e) (omega arith)
  total_of_two false true n m counts counts' e e' = rw (e', e) (omega arith)
  total_of_two false false n m counts counts' e e' = rw (e', e) (omega arith)

  abbrev summary_of : String → String → Option ℤ → Loaded F → LoadSummary
  summary_of task_source cross_domain_path limit l = record {
    eligible_task_count = length (limited limit l.tasks);
    skipped_task_count = total l.skipped;
    skip_reason_distribution = l.skipped;
    source_counts = l.source_counts;
    task_source = task_source;
    cross_domain_path = cross_domain_path;
  }

  -- The result is what is picked of the sources that are asked for, the deliveries before the others,
  -- cut to the limit, and the summary counts it.
  abbrev pub IsSelection :
      Disk F
      → String
      → String
      → String
      → List String
      → Option ℤ
      → List (Fields F)
      → LoadSummary
      → Type 0
  IsSelection disk delivery_path task_source cross_domain_path task_ids limit tasks summary =
      (deliveries others : List (Fields F)) × (d c : ℕ) × FromSource py disk task_ids
        (task_source == "delivery" || task_source == "both") "delivery" delivery_path false
        deliveries d
      × FromSource py disk task_ids (task_source == "cross_domain" || task_source == "both")
          "cross_domain" cross_domain_path true others c
      × (tasks ≡ limited limit (deliveries ++ others))
      × (summary.eligible_task_count ≡ length tasks)
      × (summary.skipped_task_count ≡ d + c)

  -- When the loading returns: the tasks are those that are picked of the rows of the files asked for,
  -- each row once, in their order and with its ordinal, the wanted ones, and of the cross-domain ones
  -- those that pass the filter, cut to the limit; the summary counts the tasks, and the rows that the
  -- filter refused; both together are at most the rows of the sources; and a limit that is not negative
  -- is kept.
  pub load_experiment_tasks-IsSelection :
      (disk : Disk F) (delivery_path task_source cross_domain_path : String)
      → (task_ids : List String) (limit : Option ℤ)
      → (tasks : List (Fields F)) (summary : LoadSummary)
      → load_experiment_tasks py disk delivery_path task_source cross_domain_path task_ids limit
        ≡ ok (tasks, summary)
      → IsSelection disk delivery_path task_source cross_domain_path task_ids limit tasks summary
        × (length tasks + summary.skipped_task_count ≤ total summary.source_counts)
        × Within limit tasks
  unfolding load_experiment_tasks
  load_experiment_tasks-IsSelection disk dp task_source cp task_ids limit tasks summary h =
      let a = task_source == "delivery" || task_source == "both" in
      let b = task_source == "cross_domain" || task_source == "both" in
      let none_yet = nothing_loaded py in
      let (l, e, h') =
        bind_ok (load_sources py disk task_ids (sources_of task_source dp cp) none_yet) _ h in
      let (l1, e1, e2) =
        load_sources-append disk task_ids (if a then ("delivery", dp, false) ∷ [] else [])
          (if b then ("cross_domain", cp, true) ∷ [] else []) none_yet l e in
      let (ts, d, n, from, (added, skips), most, counts) =
        load_asked-Loads disk task_ids a "delivery" dp false none_yet l1 e1 in
      let (us, c, m, from', (added', skips'), most', counts') =
        load_asked-Loads disk task_ids b "cross_domain" cp true l1 l e2 in
      let all : l.tasks ≡ ts ++ us = added' ∙ ap (λ xs. xs ++ us) added in
      let e3 : tasks ≡ limited limit l.tasks = cc in
      let e4 : summary ≡ summary_of task_source cp limit l = cc in
      let no_skips : total [] ≡ 0 = (unfold total in refl) in
      let skipped_all : total l.skipped ≡ d + c = omega (arith, skips, skips', no_skips) in
      rw (e3, e4)
        (
          (ts, us, d, c, from, from', ap (limited limit) all, refl, skipped_all),
          omega (
            arith,
            skipped_all,
            length-limited limit l.tasks,
            ap length all,
            length-append ts us,
            most,
            most',
            total_of_two a b n m l1.source_counts l.source_counts counts counts',
          ),
          limited-Within limit l.tasks,
        )
