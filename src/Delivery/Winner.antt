-- ===== src/Delivery/Winner.antt =====
-- The winner among the candidates in Agent/vitabench_delivery.py: `_parse_json_safely`,
-- `_candidate_summary_payload`, `_candidate_rank_key` and `_select_winner_payload`.
pub mod Least
use Prim.Native.String
use dbagent_tree.Prelude.{
  ℕ, zero, suc, ◌+◌, ◌-◌, String, Bool, true, false, not, ◌||◌, ◌&&◌, Option, none, some, List, [],
  ◌∷◌, ℤ, pos, negsuc, nat_eq, int_eq, string_eq, ◌==◌, ltb, str_nat, if◌then◌else◌,
}
use dbagent_tree.Exec.{Result, ok, err, hang}
use dbagent_tree.Exec.Results.{◌>>=◌}
use dbagent_tree.Text.Codes.{codes}
use dbagent_tree.Tools.Json.{
  Json, Fields, null, bool, int, float, str, array, object, nil, end, field, fields, field_or,
  items,
}
use dbagent_tree.Tools.Python.{Python, truthy, str_of, to_float, to_int}
use dbagent_tree.Tools.Context.{iterate}
use dbagent_tree.Delivery.Projection.{codes_leb}
use dbagent_tree.Delivery.Floats.{Floats}
use dbagent_tree.Delivery.Orders.{or_else}
use dbagent_tree.Delivery.Evaluate.{len_of}
use dbagent_tree.Delivery.Sorting.{sorted}
use dbagent_tree.Delivery.Ranking.{Unicode, candidate_product_from_store}

-- What the winner is sorted by, a tuple: less by the first place where two differ.
pub record RankKey (F : Type 0) : Type 0 where
  pub minus_score : F
  pub minus_has_product : ℤ
  pub price_gap : F
  pub minus_count : ℤ
  pub label : String

abbrev pub minus : ℤ → ℤ
minus (pos zero) = pos zero
minus (pos (suc n)) = negsuc n
minus (negsuc n) = pos (suc n)

abbrev pub int_less : ℤ → ℤ → Bool
int_less (pos a) (pos b) = ltb a b
int_less (negsuc a) (pos b) = true
int_less (pos a) (negsuc b) = false
int_less (negsuc a) (negsuc b) = ltb b a

-- `a < b` of texts.
abbrev pub text_less : String → String → Bool
text_less a b = not (codes_leb (codes b) (codes a))

abbrev zeros : ℕ → String → String
zeros zero s = s
zeros (suc n) s = String.◌++◌ "0" (zeros n s)

abbrev text_length : String → ℕ
text_length String.[] = 0
text_length (String.◌∷◌ c s) = suc (text_length s)

abbrev padded : ℕ → String → String
padded width s = zeros (width - text_length s) s

-- `"{:06d}".format(n)`
unfoldable pub six_digits : ℤ → String
six_digits (pos n) = padded 6 (str_nat n)
six_digits (negsuc n) = String.◌++◌ "-" (padded 5 (str_nat (suc n)))

module _ {F : Type 0} (py : Python F) (fl : Floats F) where
  -- `_parse_json_safely`: what is no text is not read.
  unfoldable pub parse_json_safely : Json F → Json F → Json F
  parse_json_safely (str raw) default =
      if raw == "" then default else elim (py.loads raw) [ none ↦ default | some j ↦ j ]
  parse_json_safely raw default = default

  -- `abs(float(a) - float(b))`
  abbrev pub distance : Json F → Json F → Result F
  distance a b = to_float py a >>= λ x. to_float py b >>= λ y. ok (fl.abs (fl.sub x y))

  -- `None` without one of the prices, or if one is no number.
  abbrev gap_of : Json F → Json F → Json F
  gap_of null b = null
  gap_of a null = null
  gap_of a b = elim (distance a b) [ ok gap ↦ float gap | _ ↦ null ]

  -- `float(x or 0.0)` of a field.
  abbrev float_or_zero : String → Fields F → Result F
  float_or_zero name d =
      let zero_float = float (fl.literal 0 0) in
      to_float py (or_else py (field_or name zero_float d) zero_float)

  abbrev is_empty : Fields F → Bool
  is_empty end = true
  is_empty (field k v fs) = false

  abbrev text_unless_empty : String → Fields F → String
  text_unless_empty name matched =
      if is_empty matched then "" else str_of py (field_or name (str "") matched)

  unfoldable pub candidate_summary_payload :
      Unicode → String → ℤ → Fields F → Fields F → String → Fields F → Result (Fields F)
  candidate_summary_payload unicode store_id attempt store_detail expected_order expected_product_id
        profile =
      do
        matched ←
            candidate_product_from_store py fl unicode store_detail expected_product_id profile
        let expected_total = field_or "total_price" null expected_order
        let matched_price = field_or "price" null matched
        tags ← iterate (or_else py (field_or "tags" (array nil) store_detail) (array nil))
        count ← len_of (or_else py (field_or "products" (array nil) store_detail) (array nil))
        match_score ← float_or_zero "_match_score" matched
        name_similarity ← float_or_zero "_name_similarity" matched
        let found = str_of py (field_or "product_id" (str "") matched) == expected_product_id
        ok (
            fields (
              ("candidate_store_id", str store_id)
              ∷ ("candidate_attempt", int attempt)
              ∷ ("store_name", str (str_of py (field_or "name" (str "") store_detail)))
              ∷ ("store_tags", array (items tags))
              ∷ ("product_count", int (pos count))
              ∷ ("matched_product_id", str (text_unless_empty "product_id" matched))
              ∷ ("matched_product_name", str (text_unless_empty "name" matched))
              ∷ ("matched_product_price", matched_price)
              ∷ ("expected_total_price", expected_total)
              ∷ ("price_gap", gap_of matched_price expected_total)
              ∷ ("match_score", float match_score)
              ∷ ("name_similarity", float name_similarity)
              ∷ ("has_expected_product", bool (not (is_empty matched) && found))
              ∷ []))

  abbrev int_or_zero : String → Fields F → Result ℤ
  int_or_zero name d = to_int py (or_else py (field_or name (int (pos 0)) d) (int (pos 0)))

  -- `price_gap`, or 10^9 if there is none.
  abbrev gap_or_far : Json F → Result F
  gap_or_far null = to_float py (int (pos 1000000000))
  gap_or_far gap = to_float py gap

  unfoldable pub candidate_rank_key : Fields F → Result (RankKey F)
  candidate_rank_key payload = do
    match_score ← float_or_zero "match_score" payload
    let has_product = truthy py (field_or "has_expected_product" null payload)
    count ← int_or_zero "product_count" payload
    attempt ← int_or_zero "candidate_attempt" payload
    let store_id = str_of py (field_or "candidate_store_id" (str "") payload)
    gap ← gap_or_far (field_or "price_gap" null payload)
    ok (record {
      minus_score = fl.negate match_score;
      minus_has_product = if has_product then negsuc 0 else pos 0;
      price_gap = gap;
      minus_count = minus count;
      label = String.◌++◌ store_id (String.◌++◌ ":" (six_digits attempt));
    })

  abbrev pub key_less : RankKey F → RankKey F → Bool
  key_less a b =
      if not (fl.same a.minus_score b.minus_score)
      then fl.less a.minus_score b.minus_score
      else if not (a.minus_has_product == b.minus_has_product)
      then int_less a.minus_has_product b.minus_has_product
      else if not (fl.same a.price_gap b.price_gap)
      then fl.less a.price_gap b.price_gap
      else if not (a.minus_count == b.minus_count)
      then int_less a.minus_count b.minus_count
      else text_less a.label b.label

  -- The payloads with their keys.
  unfoldable pub ranked : List (Fields F) → Result (List (RankKey F × Fields F))
  ranked [] = ok []
  ranked (payload ∷ payloads) = do
    key ← candidate_rank_key payload
    rest ← ranked payloads
    ok ((key, payload) ∷ rest)

  abbrev pub entry_less : RankKey F × Fields F → RankKey F × Fields F → Bool
  entry_less a b = key_less a.0 b.0

  abbrev pub head_payload : List (RankKey F × Fields F) → Fields F
  head_payload [] = end
  head_payload ((key, payload) ∷ rest) = payload

  unfoldable pub select_winner_payload : List (Fields F) → Result (Fields F)
  select_winner_payload payloads =
      ranked payloads >>= λ entries. ok (head_payload (sorted entry_less entries))
