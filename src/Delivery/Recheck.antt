-- ===== src/Delivery/Recheck.antt =====
-- The check of the winner before it is committed, in Agent/vitabench_delivery.py:
-- `_semantic_recheck_winner_payload`.
pub mod Passing
use dbagent_tree.Prelude.{
  ℕ, String, Bool, true, false, not, ◌||◌, ◌&&◌, Option, none, some, List, [], ◌∷◌, ℤ, string_eq,
  ◌==◌, if◌then◌else◌,
}
use dbagent_tree.Exec.{Result, ok, err, hang}
use dbagent_tree.Exec.Results.{◌>>=◌}
use dbagent_tree.Tools.Json.{
  Json, Fields, null, bool, int, float, str, array, object, end, field, field_or,
}
use dbagent_tree.Tools.Python.{Python, truthy, str_of}
use dbagent_tree.Delivery.Floats.{Floats}
use dbagent_tree.Delivery.Ranking.{Unicode}
use dbagent_tree.Delivery.Winner.{parse_json_safely, distance, candidate_summary_payload}

-- The tuple that the check returns.
pub record Verdict (F : Type 0) : Type 0 where
  pub constraints_ok : Bool
  pub reason : String
  pub payload : Fields F

-- What is looked for.
pub record Expected (F : Type 0) : Type 0 where
  pub order : Fields F
  pub product_id : String
  pub profile : Fields F

module _ {F : Type 0} where
  abbrev pub is_null : Json F → Bool
  is_null null = true
  is_null _ = false

  -- `raw in (None, "")`
  abbrev pub is_blank : Json F → Bool
  is_blank null = true
  is_blank (str s) = s == ""
  is_blank _ = false

  -- A dict that is not empty.
  abbrev pub full_dict : Json F → Option (Fields F)
  full_dict (object (field k v fs)) = some (field k v fs)
  full_dict _ = none

module _ {F : Type 0} (py : Python F) (fl : Floats F) where
  abbrev pub refuse : String → Fields F → Verdict F
  refuse reason payload = record { constraints_ok = false; reason = reason; payload = payload }

  abbrev pub accept : Fields F → Verdict F
  accept payload = record { constraints_ok = true; reason = ""; payload = payload }

  -- The prices may differ by 10^-6.
  abbrev pub gap_verdict : Result F → Fields F → Verdict F
  gap_verdict (ok gap) payload =
      if fl.less (fl.literal 1 6) gap
      then refuse "WINNER_PRODUCT_DETAIL_PRICE_MISMATCH" payload
      else accept payload
  gap_verdict (err m) payload = refuse "WINNER_PRODUCT_DETAIL_PRICE_INVALID" payload
  gap_verdict hang payload = refuse "WINNER_PRODUCT_DETAIL_PRICE_INVALID" payload

  abbrev pub price_verdict : Json F → Json F → Fields F → Verdict F
  price_verdict detail matched payload =
      if is_null detail || is_null matched
      then accept payload
      else gap_verdict (distance py fl detail matched) payload

  abbrev pub id_changed : String → String → Bool
  id_changed expected id = not (expected == "") && (not (id == "") && not (id == expected))

  -- The part on what the product's own entry is read as.
  abbrev pub detail_verdict : String → Option (Fields F) → Fields F → Verdict F
  detail_verdict product_id none payload = refuse "WINNER_PRODUCT_DETAIL_UNAVAILABLE" payload
  detail_verdict product_id (some detail) payload =
      if id_changed product_id (str_of py (field_or "product_id" (str "") detail))
      then refuse "WINNER_PRODUCT_DETAIL_ID_CHANGED" payload
      else price_verdict (field_or "price" null detail)
          (field_or "matched_product_price" null payload) payload

  -- Without an entry there is nothing to check.
  abbrev pub product_verdict : String → Json F → Fields F → Verdict F
  product_verdict product_id raw payload =
      if is_blank raw
      then accept payload
      else detail_verdict product_id (full_dict (parse_json_safely py fl raw (object end))) payload

  abbrev pub payload_verdict : String → Json F → Fields F → Verdict F
  payload_verdict product_id product_raw payload =
      if not (product_id == "")
      then (if not (truthy py (field_or "has_expected_product" null payload))
          then refuse "WINNER_EXPECTED_PRODUCT_MISSING" payload
          else if not (str_of py (field_or "matched_product_id" (str "") payload) == product_id)
          then refuse "WINNER_MATCHED_PRODUCT_CHANGED" payload
          else product_verdict product_id product_raw payload)
      else product_verdict product_id product_raw payload

  abbrev pub store_verdict :
      Unicode → String → ℤ → Expected F → Option (Fields F) → Json F → Result (Verdict F)
  store_verdict unicode store_id attempt expected (some detail) product_raw = do
    payload ←
        candidate_summary_payload py fl unicode store_id attempt detail expected.order
          expected.product_id expected.profile
    ok (payload_verdict expected.product_id product_raw payload)
  store_verdict unicode store_id attempt expected none product_raw =
      ok (refuse "WINNER_STORE_DETAIL_UNAVAILABLE" end)

  unfoldable pub semantic_recheck_winner_payload :
      Unicode → String → ℤ → Expected F → Json F → Json F → Result (Verdict F)
  semantic_recheck_winner_payload unicode store_id attempt expected store_raw product_raw =
      store_verdict unicode store_id attempt expected
        (full_dict (parse_json_safely py fl store_raw (object end))) product_raw
