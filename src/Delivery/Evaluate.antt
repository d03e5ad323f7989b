-- ===== src/Delivery/Evaluate.antt =====
-- The evaluation of a final answer in Agent/vitabench_delivery.py: `_load_final_answer` and
-- `hard_evaluate_task`.
pub mod Agreement
pub mod Verdict
pub mod Reflexive
pub mod Submitted
use Prim.Native.String
use mathlib.Core.List.{◌++◌}
use dbagent_tree.Prelude.{
  ℕ, zero, suc, String, Bool, true, false, not, ◌||◌, Option, none, some, List, [], ◌∷◌, ℤ, nat_eq,
  string_eq, ◌==◌, str_nat, length, if◌then◌else◌,
}
use dbagent_tree.Exec.{Result, ok, err, hang, Exec, pure, catch}
use dbagent_tree.Exec.Results.{◌>>=◌}
use dbagent_tree.Client.Session.{Dial}
use dbagent_tree.Client.State.{Client}
use dbagent_tree.Client.Plain
use dbagent_tree.Tools.Json.{
  Json, Fields, null, bool, int, float, str, array, object, nil, cons, end, field_or, to_list,
}
use dbagent_tree.Tools.Python.{Python, str_of}
use dbagent_tree.Tools.Reply.{task_key}
use dbagent_tree.Tools.Context.{iterate, chars}
use dbagent_tree.Delivery.{has}
use dbagent_tree.Delivery.Floats.{Floats, int_of_bool, size, equals}
use dbagent_tree.Delivery.Orders.{required_order}

-- What `hard_evaluate_task` returns; a key that is not in its dict is `none` here.
pub record Evaluation (F : Type 0) : Type 0 where
  pub success : Bool
  pub reward : F
  pub failure_type : String
  pub mismatches : List String
  pub expected_order : Json F
  pub actual_order : Option (Json F)
  pub actual_order_raw : Option String

abbrev pub exact_fields : List String
exact_fields =
    "order_id" ∷ "order_type" ∷ "user_id" ∷ "store_id" ∷ "total_price" ∷ "create_time"
    ∷ "update_time" ∷ "status" ∷ []

abbrev pub soft_fields : List String
soft_fields = "dispatch_time" ∷ "delivery_time" ∷ "note" ∷ []

abbrev pub location_fields : List String
location_fields = "address" ∷ "longitude" ∷ "latitude" ∷ []

abbrev pub product_fields : List String
product_fields = "product_id" ∷ "price" ∷ "quantity" ∷ "attributes" ∷ []

module _ {F : Type 0} where
  -- `x.get` is refused on anything but a dict.
  abbrev pub as_dict : Json F → Result (Fields F)
  as_dict (object fs) = ok fs
  as_dict _ = err "object has no attribute 'get'"

  -- `len(x)`
  abbrev pub len_of : Json F → Result ℕ
  len_of (array xs) = ok (length (to_list xs))
  len_of (object fs) = ok (size fs)
  len_of (str s) = ok (length (chars {F = F} s))
  len_of _ = err "object has no len()"

  -- `x[0]`, `x[1]`, … : a dict of `json` has no such keys.
  abbrev pub indexed : Json F → Result (List (Json F))
  indexed (array xs) = ok (to_list xs)
  indexed (str s) = ok (chars s)
  indexed (object end) = ok []
  indexed _ = err "0"

  -- `None if value in ("", None, "null", "None") else value`
  abbrev pub normalized_shipping : Json F → Json F
  normalized_shipping (str s) = if s == "" || s == "null" || s == "None" then null else str s
  normalized_shipping value = value

module _ {F : Type 0} (py : Python F) (fl : Floats F) where
  abbrev rounded : Option F → Result (Json F)
  rounded none = err "int too large to convert to float"
  rounded (some x) = ok (float (fl.round6 x))

  abbrev rounded_or : String → Option F → Json F
  rounded_or s none = str s
  rounded_or s (some x) = float (fl.round6 x)

  unfoldable pub comparable_value : Json F → Result (Json F)
  comparable_value null = ok null
  comparable_value (bool b) = rounded (py.float_of_int (int_of_bool b))
  comparable_value (int n) = rounded (py.float_of_int n)
  comparable_value (float x) = ok (float (fl.round6 x))
  comparable_value (str s) = ok (if s == "" then null else rounded_or s (py.float_of_str s))
  comparable_value (array xs) = ok (array xs)
  comparable_value (object fs) = ok (object fs)

  -- `"{} expected={} actual={}".format(name, expected, actual)`
  abbrev message : String → Json F → Json F → String
  message name expected actual = String.◌++◌ name (
      String.◌++◌ " expected="
        (String.◌++◌ (str_of py expected) (String.◌++◌ " actual=" (str_of py actual))))

  -- One field of two dicts, compared by their comparable values.
  abbrev pub check_field : String → Json F → Fields F → Fields F → String → Result (List String)
  check_field prefix default expected actual name = do
    a ← comparable_value (field_or name default actual)
    e ← comparable_value (field_or name default expected)
    ok (
        if equals fl a e
        then []
        else message (String.◌++◌ prefix name) (field_or name null expected)
            (field_or name null actual)
          ∷ [])

  unfoldable pub check_fields :
      String → Json F → Fields F → Fields F → List String → Result (List String)
  check_fields prefix default expected actual [] = ok []
  check_fields prefix default expected actual (name ∷ names) = do
    here ← check_field prefix default expected actual name
    rest ← check_fields prefix default expected actual names
    ok (here ++ rest)

  abbrev pub check_shipping : Fields F → Fields F → List String
  check_shipping expected actual =
      let a = normalized_shipping (field_or "shipping_time" null actual) in
      let e = normalized_shipping (field_or "shipping_time" null expected) in
      if equals fl a e then [] else message "shipping_time" e a ∷ []

  -- The fields of the locations, compared as they are.
  unfoldable pub check_location : Fields F → Fields F → List String → List String
  check_location expected actual [] = []
  check_location expected actual (name ∷ names) =
      let rest = check_location expected actual names in
      let a = field_or name null actual in
      let e = field_or name null expected in
      if equals fl a e then rest else message (String.◌++◌ "location." name) e a ∷ rest

  abbrev product_prefix : ℕ → String
  product_prefix idx = String.◌++◌ "products[" (String.◌++◌ (str_nat idx) "].")

  unfoldable pub check_each : ℕ → List (Json F) → List (Json F) → Result (List String)
  check_each idx [] actuals = ok []
  check_each idx (e ∷ es) [] = err "list index out of range"
  check_each idx (e ∷ es) (a ∷ actuals) = do
    actual ← as_dict a
    expected ← as_dict e
    here ← check_fields (product_prefix idx) null expected actual product_fields
    rest ← check_each (suc idx) es actuals
    ok (here ++ rest)

  abbrev length_message : ℕ → ℕ → String
  length_message expected actual =
      String.◌++◌ "products length expected="
        (String.◌++◌ (str_nat expected) (String.◌++◌ " actual=" (str_nat actual)))

  abbrev each_product : Json F → Json F → Result (List String)
  each_product expected actual = do
    es ← iterate expected
    actuals ← indexed actual
    check_each 0 es actuals

  unfoldable pub check_products : Json F → Json F → Result (List String)
  check_products expected actual = do
    n ← len_of expected
    m ← len_of actual
    if n == m then each_product expected actual else ok (length_message n m ∷ [])

  -- All mismatches of an order with the expected one.
  unfoldable pub mismatches_of : Fields F → Fields F → Result (List String)
  mismatches_of expected actual = do
    exact ← check_fields "" null expected actual exact_fields
    soft ← check_fields "" (str "") expected actual soft_fields
    let shipping = check_shipping expected actual
    actual_location ← as_dict (field_or "location" (object end) actual)
    expected_location ← as_dict (field_or "location" (object end) expected)
    let location = check_location expected_location actual_location location_fields
    products ←
        check_products (field_or "products" (array nil) expected)
          (field_or "products" (array nil) actual)
    ok (exact ++ (soft ++ (shipping ++ (location ++ products))))

  -- `len(mismatches) == 0`
  abbrev none_left : List String → Bool
  none_left [] = true
  none_left (m ∷ ms) = false

  abbrev pub failed : String → String → Json F → Option (Json F) → Option String → Evaluation F
  failed failure_type mismatch expected actual raw = record {
    success = false;
    reward = fl.literal 0 0;
    failure_type = failure_type;
    mismatches = mismatch ∷ [];
    expected_order = expected;
    actual_order = actual;
    actual_order_raw = raw;
  }

  abbrev pub verdict : Fields F → Fields F → List String → Evaluation F
  verdict expected actual mismatches = record {
    success = none_left mismatches;
    reward = if none_left mismatches then fl.literal 1 0 else fl.literal 0 0;
    failure_type = if none_left mismatches then "" else "hard_mismatch";
    mismatches = mismatches;
    expected_order = object expected;
    actual_order = some (object actual);
    actual_order_raw = none;
  }

  -- An answer that has been loaded.
  abbrev judged : Json F → Json F → String → Result (Evaluation F)
  judged expected null raw =
      ok (
        failed "invalid_final_answer_json" "final answer is not valid JSON" expected none
          (some raw))
  judged expected (array (cons (object actual) nil)) raw = do
    order ← as_dict expected
    mismatches ← mismatches_of order actual
    ok (verdict order actual mismatches)
  judged expected parsed raw = ok (
      failed "unexpected_answer_shape" "final answer must be a one-item order array" expected
        (some parsed) none)

  -- `hard_evaluate_task` from the loaded answer on: its value, and its text.
  unfoldable pub evaluate : Json F → Json F → Option String → Result (Evaluation F)
  evaluate expected parsed none =
      ok (failed "missing_final_answer" "final answer key is empty" expected (some null) none)
  evaluate expected parsed (some raw) =
      if raw == ""
      then ok (failed "missing_final_answer" "final answer key is empty" expected (some null) none)
      else judged expected parsed raw

  abbrev pub loaded_answer : Option String → Json F × Option String
  loaded_answer none = (null, none)
  loaded_answer (some raw) =
      if raw == ""
      then (null, some raw)
      else elim (py.loads raw) [ none ↦ (null, some raw) | some parsed ↦ (parsed, some raw) ]

  unfoldable pub load_final_answer : (ℕ → Dial) → String → Exec Client (Json F × Option String)
  load_final_answer dials namespace c =
      let (r, c') = Plain.kv_get dials (task_key namespace "answer:final") c in
      (r >>= (λ raw. ok (loaded_answer raw)), c')

  -- What follows the loading of the answer, or the fallback.
  abbrev pub with_answer :
      Json F → Result (Json F × Option String) × Client → Result (Evaluation F) × Client
  with_answer expected (loaded, c) = (loaded >>= (λ answer. evaluate expected answer.0 answer.1), c)

  unfoldable pub hard_evaluate_task :
      (ℕ → Dial) → Fields F → String → Json F → Option String → Exec Client (Evaluation F)
  hard_evaluate_task dials task namespace fallback_parsed fallback_raw c =
      elim (required_order py task) [
        | ok expected ↦ with_answer expected (
            catch (load_final_answer dials namespace) (λ _. pure (fallback_parsed, fallback_raw)) c)
        | err m ↦ (err m, c)
        | hang ↦ (hang, c)
      ]
