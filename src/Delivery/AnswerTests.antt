-- ===== src/Delivery/AnswerTests.antt =====
-- The checks of orders and answers, the loading of tasks, the winner, and the binomials of
-- Agent/vitabench_delivery.py at concrete inputs, with ℤ for Python's floats.
use native.Mathlib.Decide.{dec_lt}
use dbagent_tree.Prelude.{
  ◌≡◌, refl, ◌↔◌, String, true, false, none, some, List, [], ◌∷◌, ℤ, pos, int_eq, nat_eq, same_refl,
  string_eq, ◌==◌, ◌≤◌, ◌+◌, length,
}
use dbagent_tree.Exec.{ok}
use dbagent_tree.Tools.Json.{
  Json, Fields, int, float, str, array, object, nil, cons, end, fields, field?, field_or, items,
  set_field,
}
use dbagent_tree.Tools.Python.{Python, truthy, str_of, to_float, to_int}
use dbagent_tree.Tools.Context.{iterate}
use dbagent_tree.Delivery.{has}
use dbagent_tree.Delivery.Floats.{Floats}
use dbagent_tree.Delivery.Orders.{
  submitted_order, drop_field, required_order, missing_field, product_ids, ids_of_stores,
  available_product_ids, product_reason, find_store_and_product_ids, order_array_from_submit_args,
  delivery_compatibility_reason,
}
use dbagent_tree.Delivery.Orders.Compatible.{
  IsPlaced, delivery_compatibility_reason-find_store_and_product_ids,
}
use dbagent_tree.Delivery.Evaluate.{evaluate, loaded_answer}
use dbagent_tree.Delivery.Evaluate.Verdict.{Succeeds, IsRight, evaluate-IsRight}
use dbagent_tree.Delivery.Evaluate.Reflexive.{IsPlain, PlainItems, PlainFields}
use dbagent_tree.Delivery.Evaluate.Submitted.{IsOrder, order_array_from_submit_args-evaluate}
use dbagent_tree.Delivery.Sorting.{insert_by, sorted}
use dbagent_tree.Delivery.Projection.{codes_leb}
use dbagent_tree.Delivery.Winner.{
  RankKey, minus, int_less, candidate_rank_key, key_less, ranked, six_digits, select_winner_payload,
}
use dbagent_tree.Delivery.Winner.Least.{
  Among, int_less-IsOrder, int-IsSame, select_winner_payload-least,
}
use dbagent_tree.Delivery.Loading.{
  Disk, LoadSummary, normalize_task, load_rows, load_source, load_sources, load_experiment_tasks,
  count_one, total,
}
use dbagent_tree.Delivery.Loading.Counting.{Within}
use dbagent_tree.Delivery.Loading.Filtered.{IsSelection, load_experiment_tasks-IsSelection}
use dbagent_tree.Delivery.Statistics.{n_choose_k}
use dbagent_tree.Delivery.Statistics.Choose.{binom, n_choose_k-binom}

-- The expected order.
abbrev pub order : Fields ℤ
order = fields (
    ("order_type", str "delivery")
    ∷ ("store_id", str "S1")
    ∷ ("location", object (fields (("address", str "home") ∷ [])))
    ∷ ("products", array (items (object (fields (("product_id", str "P1") ∷ [])) ∷ [])))
    ∷ ("total_price", int (pos 12))
    ∷ [])

abbrev pub answer : Json ℤ
answer = array (cons (object order) nil)

abbrev pub py : Python ℤ
py = record {
  float_of_int = λ n. some n;
  float_of_str = λ s. none;
  int_of_float = λ n. some n;
  float_is_zero = λ n. n == pos 0;
  str_float = λ n. "0.0";
  repr = λ j. "{}";
  dumps = λ j. "[…]";
  loads = λ s. some answer;
}

abbrev pub fl : Floats ℤ
fl = record {
  literal = λ n k. pos n;
  add = λ a b. a;
  sub = λ a b. a;
  mul = λ a b. a;
  div = λ a b. a;
  negate = λ a. minus a;
  abs = λ a. a;
  less = int_less;
  same = λ a b. a == b;
  same_int = λ a b. a == b;
  round6 = λ a. a;
}

no_nan : (x : ℤ) → fl.same x x ≡ true
no_nan x = same_refl x

-- A task that expects the order, with the store and the product.
abbrev pub task : Fields ℤ
task = fields (
    ("id", str "1")
    ∷ ("instructions", str "buy")
    ∷ ("evaluation_criteria", object (fields (("expected_states", one state) ∷ [])))
    ∷ ("environment", object (fields (("stores", object (fields (("S1", store) ∷ []))) ∷ [])))
    ∷ [])
  where
    one : Json ℤ → Json ℤ
    one j = array (cons j nil)

    state : Json ℤ
    state = object (fields (("required_orders", one (object order)) ∷ []))

    store : Json ℤ
    store =
        object (fields (("products", one (object (fields (("product_id", str "P1") ∷ [])))) ∷ []))

compatible : delivery_compatibility_reason py task ≡ ok ""
unfolding delivery_compatibility_reason required_order missing_field available_product_ids
    ids_of_stores product_ids product_reason has truthy str_of field? field_or iterate
compatible = refl

delivery_compatibility_reason-find_store_and_product_ids_example :
    (ids : String × String) × (find_store_and_product_ids py task ≡ ok ids) × IsPlaced py task ids
delivery_compatibility_reason-find_store_and_product_ids_example =
    delivery_compatibility_reason-find_store_and_product_ids py task compatible

evaluate-IsRight_example :
    Succeeds py fl (evaluate py fl (object order) answer (some "[…]"))
    ↔ IsRight py fl (object order) answer (some "[…]")
evaluate-IsRight_example = evaluate-IsRight py fl (object order) answer (some "[…]")

order-IsOrder : IsOrder py order
unfolding IsPlain PlainItems PlainFields field? field_or
order-IsOrder = (
  (
    refl,
    tt,
    (refl, tt, (refl, (refl, tt, tt), (refl, ((refl, tt, tt), tt), (refl, (pos 12, refl), tt)))),
  ),
  (fields (("address", str "home") ∷ []), refl),
  (cons (object (fields (("product_id", str "P1") ∷ []))) nil, refl, ((_, refl), tt)),
)

submits : order_array_from_submit_args py (object order) ≡ ok (some (answer, "[…]"))
unfolding order_array_from_submit_args submitted_order drop_field truthy
submits = refl

order_array_from_submit_args-evaluate_example :
    Succeeds py fl (evaluate py fl (object order) (loaded_answer py fl (some "[…]")).0 (some "[…]"))
order_array_from_submit_args-evaluate_example =
    order_array_from_submit_args-evaluate py fl no_nan order answer "[…]" order-IsOrder submits refl
      refl

-- Two candidates, the second with the higher score.
abbrev candidate : String → ℤ → Fields ℤ
candidate id score = fields (
    ("candidate_store_id", str id)
    ∷ ("candidate_attempt", int (pos 1))
    ∷ ("match_score", float score)
    ∷ [])

second_wins :
    select_winner_payload py fl (candidate "S1" (pos 3) ∷ candidate "S2" (pos 7) ∷ [])
    ≡ ok (candidate "S2" (pos 7))
unfolding select_winner_payload ranked candidate_rank_key six_digits sorted insert_by codes_leb
    truthy str_of to_float to_int field? field_or dec_lt
second_wins = refl

select_winner_payload-least_example :
    Among (candidate "S2" (pos 7)) (candidate "S1" (pos 3) ∷ candidate "S2" (pos 7) ∷ [])
    × ((key : RankKey ℤ) × (candidate_rank_key py fl (candidate "S2" (pos 7)) ≡ ok key)
        × ((other : Fields ℤ) (its : RankKey ℤ)
            → Among other (candidate "S1" (pos 3) ∷ candidate "S2" (pos 7) ∷ [])
            → candidate_rank_key py fl other ≡ ok its
            → key_less py fl its key ≡ false))
select_winner_payload-least_example =
    select_winner_payload-least py fl int_less-IsOrder int-IsSame (candidate "S1" (pos 3))
      (candidate "S2" (pos 7) ∷ []) (candidate "S2" (pos 7)) second_wins

-- One file for both sources.
abbrev disk : Disk ℤ
disk = record {
  exists = λ path. true;
  read_json = λ path. ok (array (cons (object task) (cons (object end) nil)));
}

loaded :
    (r : List (Fields ℤ) × LoadSummary) × (load_experiment_tasks py disk "d.json" "both" "c.json"
        ("1" ∷ [])
        (some (pos 5))
      ≡ ok r)
unfolding load_experiment_tasks load_sources load_source load_rows normalize_task count_one total
    delivery_compatibility_reason required_order missing_field available_product_ids ids_of_stores
    product_ids product_reason has truthy str_of field? field_or set_field iterate dec_lt
loaded = (_, refl)

load_experiment_tasks-IsSelection_example :
    IsSelection py disk "d.json" "both" "c.json" ("1" ∷ []) (some (pos 5)) (loaded.0).0 (loaded.0).1
    × (length (loaded.0).0 + (loaded.0).1.skipped_task_count ≤ total (loaded.0).1.source_counts)
    × Within (some (pos 5)) (loaded.0).0
load_experiment_tasks-IsSelection_example =
    load_experiment_tasks-IsSelection py disk "d.json" "both" "c.json" ("1" ∷ []) (some (pos 5))
      (loaded.0).0 (loaded.0).1 loaded.1

n_choose_k-binom_example : n_choose_k (pos 5) (pos 2) ≡ binom 5 2
n_choose_k-binom_example = n_choose_k-binom 5 2
