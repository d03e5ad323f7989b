-- ===== src/Delivery/Tests.antt =====
-- The choices of Agent/vitabench_delivery.py at concrete inputs, with ℤ for Python's floats.
use native.Mathlib.Decide.{dec_lt}
use dbagent_tree.Prelude.{
  String, ◌≡◌, refl, true, false, none, some, List, [], ◌∷◌, ℤ, pos, int_eq, string_eq, ◌==◌, ◌⊎◌,
}
use dbagent_tree.Tools.Json.{Json, Fields, str, array, object, fields, field?, field_or, items}
use dbagent_tree.Tools.Python.{Python, truthy, str_of}
use dbagent_tree.Delivery.{has, store_ids, set_last, dedupe, choose_ids, choose_candidate_store_ids}
use dbagent_tree.Dict.{Dict, lookup, insert, or_else}
use dbagent_tree.Exec.{ok}
use dbagent_tree.Mini.{empty}
use dbagent_tree.Mini.Invariant.{IsValid}
use dbagent_tree.Client.Session.{refused}
use dbagent_tree.Client.State.{Client, using_mini}
use dbagent_tree.Text.Codes.{from_codes}
use dbagent_tree.Text.Words.{lstrip_by, rstrip_by, drop_while}
use dbagent_tree.Tools.Reply.{task_key}
use dbagent_tree.Delivery.Projection.{
  project_task_to_entries, project_stores, project_store, project_products, product_ids_of,
  sort_texts, insert_sorted, codes_leb, write_entries,
}
use dbagent_tree.Delivery.Entries.{IsProjection, project_task_to_entries-IsProjection}
use dbagent_tree.Delivery.Written.{written, write_entries_lem}
use dbagent_tree.Delivery.Candidates.{
  GoodChoice, choose_candidate_store_ids-GoodChoice, choose_candidate_store_ids-known,
}

abbrev py : Python ℤ
py = record {
  float_of_int = λ n. some n;
  float_of_str = λ s. none;
  int_of_float = λ n. some n;
  float_is_zero = λ n. n == pos 0;
  str_float = λ n. "0.0";
  repr = λ j. "{}";
  dumps = λ j. "{}";
  loads = λ s. none;
}

abbrev stores : List (Fields ℤ)
stores =
    fields (("store_id", str "S1") ∷ [])
    ∷ fields (("store_id", str "S2") ∷ [])
    ∷ fields (("store_id", str "S1") ∷ [])
    ∷ []

chosen : choose_candidate_store_ids py stores "S9" (pos 2) ≡ "S1" ∷ "S9" ∷ []
unfolding choose_candidate_store_ids choose_ids store_ids has set_last dedupe field? truthy str_of
chosen = refl

choose_candidate_store_ids-GoodChoice_example :
    GoodChoice 2 "S9" (choose_candidate_store_ids py stores "S9" (pos 2))
choose_candidate_store_ids-GoodChoice_example =
    choose_candidate_store_ids-GoodChoice py stores "S9" (pos 2)

has_first : has "S1" (choose_candidate_store_ids py stores "S9" (pos 2)) ≡ true
unfolding choose_candidate_store_ids choose_ids store_ids has set_last dedupe field? truthy str_of
has_first = refl

choose_candidate_store_ids-known_example :
    (◌≡◌ {A = String} "S1" "S9") ⊎ (has "S1" (store_ids py stores) ≡ true)
choose_candidate_store_ids-known_example =
    choose_candidate_store_ids-known py stores "S9" (pos 2) "S1" has_first

-- A task with one store and one product.
abbrev task : Fields ℤ
task = fields (
    ("id", str "1")
    ∷ ("instructions", str "buy")
    ∷ ("environment", object (fields (("stores", object (fields (("S1", store) ∷ []))) ∷ [])))
    ∷ [])
  where
    store : Json ℤ
    store = object (
        fields
          (("products", array (items (object (fields (("product_id", str "P1") ∷ [])) ∷ []))) ∷ []))

abbrev entries : Dict String String
entries =
    ("n:meta:task", "{}")
    ∷ ("n:meta:instructions", "buy")
    ∷ ("n:meta:message_history", "{}")
    ∷ ("n:meta:expected_orders", "{}")
    ∷ ("n:meta:overall_rubrics", "{}")
    ∷ ("n:meta:state_rubrics", "{}")
    ∷ ("n:user:profile", "{}")
    ∷ ("n:user:history", "{}")
    ∷ ("n:weather:index", "{}")
    ∷ ("n:location:index", "{}")
    ∷ ("n:orders:current", "{}")
    ∷ ("n:index:stores", "{}")
    ∷ ("n:store:S1:detail", "{}")
    ∷ ("n:store:S1:products", "{}")
    ∷ ("n:product:P1:detail", "{}")
    ∷ ("n:index:products", "{}")
    ∷ []

projected : project_task_to_entries py "n" task ≡ ok entries
unfolding project_task_to_entries project_stores project_store project_products product_ids_of
    sort_texts insert_sorted codes_leb task_key lstrip_by rstrip_by drop_while from_codes insert
    field? field_or str_of dec_lt
projected = refl

project_task_to_entries-IsProjection_example : IsProjection "n" entries
project_task_to_entries-IsProjection_example =
    project_task_to_entries-IsProjection py "n" task entries projected

abbrev client : Client
client = record {
  backend = "mini";
  host = "127.0.0.1";
  port = pos 19091;
  allow_fallback = false;
  mini = empty;
  sessions = [];
  tree_sessions = [];
}

empty-IsValid : IsValid empty
unfolding lookup
empty-IsValid = record { stored = tt; txs = λ t tx e. cc; trees = λ t ctx e. cc }

write_entries_lem_example :
    ((write_entries (refused "no route") "u" entries client).0 ≡ ok tt)
    × ((k : String)
        → lookup k (write_entries (refused "no route") "u" entries client).1.mini.store
          ≡ or_else (written (lookup k entries)) (lookup k empty.store))
    × IsValid (write_entries (refused "no route") "u" entries client).1.mini
write_entries_lem_example =
    write_entries_lem (refused "no route") "u" entries client (unfold using_mini in refl)
      empty-IsValid (project_task_to_entries-IsProjection py "n" task entries projected).0
