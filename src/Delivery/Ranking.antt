-- ===== src/Delivery/Ranking.antt =====
-- The ranking of candidate stores in Agent/vitabench_delivery.py: `_normalized_tokens`,
-- `_jaccard_similarity` and `_candidate_product_from_store`.
use mathlib.Core.List.{reverse}
use dbagent_tree.Prelude.{
  ℕ, ◌+◌, ◌-◌, String, Bool, not, ◌&&◌, List, [], ◌∷◌, nat_eq, string_eq, ◌==◌, length,
  if◌then◌else◌,
}
use dbagent_tree.Exec.{Result, ok, err}
use dbagent_tree.Exec.Results.{◌>>=◌}
use dbagent_tree.Text.Codes.{codes, from_codes}
use dbagent_tree.Text.Words.{is_space, strip}
use dbagent_tree.Tools.Json.{
  Json, Fields, null, float, str, array, object, nil, end, field_or, set_field,
}
use dbagent_tree.Tools.Python.{Python, str_of, to_float}
use dbagent_tree.Tools.Context.{iterate}
use dbagent_tree.Delivery.{has, dedupe}
use dbagent_tree.Delivery.Floats.{Floats, max_float, min_float}
use dbagent_tree.Delivery.Orders.{or_else}

-- `text.lower()` and `str.isalnum` of a code point, by the tables of Unicode.
pub record Unicode : Type 0 where
  pub lower : String → String
  pub is_alnum : ℕ → Bool

abbrev end_token : List ℕ → List String → List String
end_token [] tokens = tokens
end_token (c ∷ cs) tokens = from_codes (reverse (c ∷ cs)) ∷ tokens

module _ (unicode : Unicode) where
  -- The loop over the characters; `current` is kept in reverse.
  unfoldable pub tokens_from : List ℕ → List ℕ → List String
  tokens_from current [] = end_token current []
  tokens_from current (c ∷ cs) =
      let more = tokens_from (c ∷ current) cs in
      let rest = tokens_from [] cs in
      if unicode.is_alnum c
      then more
      else end_token current (if is_space c then rest else from_codes (c ∷ []) ∷ rest)

-- `len(left_set & right_set)`
unfoldable pub common : List String → List String → ℕ
common [] right = 0
common (x ∷ xs) right = let rest = common xs right in if has x right then 1 + rest else rest

module _ {F : Type 0} (py : Python F) (fl : Floats F) (unicode : Unicode) where
  unfoldable pub normalized_tokens : Json F → List String
  normalized_tokens value =
      tokens_from unicode [] (codes (unicode.lower (strip (str_of py (or_else py value (str ""))))))

  -- The sets are lists without doubles.
  abbrev similarity_of : List String → List String → F
  similarity_of left right =
      if length left == 0 && length right == 0
      then fl.literal 0 0
      else fl.div (fl.literal (common left right) 0)
          (fl.literal (length left + length right - common left right) 0)

  unfoldable pub jaccard_similarity : List String → List String → F
  jaccard_similarity left right = similarity_of (dedupe [] left) (dedupe [] right)

  -- `[str(tag).strip().lower() for tag in tags if str(tag).strip()]`
  unfoldable pub tag_tokens : List (Json F) → List String
  tag_tokens [] = []
  tag_tokens (tag ∷ tags) =
      let rest = tag_tokens tags in
      let stripped = strip (str_of py tag) in
      if stripped == "" then rest else unicode.lower stripped ∷ rest

  abbrev tags_of : Json F → Result (List String)
  tags_of tags = iterate (or_else py tags (array nil)) >>= λ listed. ok (tag_tokens listed)

  -- What a product is compared with.
  pub record Wanted : Type 0 where
    pub product_id : String
    pub name_tokens : List String
    pub tag_tokens : List String
    pub attribute_tokens : List String
    pub price : Json F

  abbrev wanted_of : String → Fields F → Result Wanted
  wanted_of product_id profile = do
    tags ← tags_of (field_or "tags" (array nil) profile)
    ok (record {
      product_id = product_id;
      name_tokens = normalized_tokens (field_or "name" (str "") profile);
      tag_tokens = tags;
      attribute_tokens =
          normalized_tokens
            (field_or "expected_attributes" (field_or "attributes" (str "") profile) profile);
      price = field_or "price" null profile;
    })

  abbrev one : F
  one = fl.literal 1 0

  -- `max(0.0, 1.0 - min(gap / max(abs(expected), 1.0), 1.0))`
  abbrev closeness : F → F → F
  closeness price expected =
      let gap = fl.abs (fl.sub price expected) in
      let denom = max_float fl (fl.abs expected) one in
      max_float fl (fl.literal 0 0) (fl.sub one (min_float fl (fl.div gap denom) one))

  -- The `try` around the prices: an exception adds nothing.
  abbrev with_price : Json F → Json F → F → F
  with_price null expected score = score
  with_price price null score = score
  with_price price expected score = elim (to_float py price) [
    | ok p ↦ elim (to_float py expected) [ ok e ↦ fl.add score (closeness p e) | _ ↦ score ]
    | _ ↦ score
  ]

  abbrev with_id : Wanted → String → F
  with_id wanted product_id =
      if not (wanted.product_id == "") && product_id == wanted.product_id
      then fl.add (fl.literal 0 0) (fl.literal 4 0)
      else fl.literal 0 0

  -- The best product so far, and its score.
  abbrev Best : Type 0
  Best = Fields F × F

  abbrev scored : F → F → Fields F → Best → Best
  scored score name_similarity product (best, best_score) =
      if fl.less best_score score
      then (
        set_field "_name_similarity" (float name_similarity)
            (set_field "_match_score" (float score) product),
        score,
      )
      else (best, best_score)

  -- The loop's body.
  unfoldable pub score_product : Wanted → Fields F → Best → Result Best
  score_product wanted product best = do
    let id = str_of py (field_or "product_id" (str "") product)
    let name_similarity =
        jaccard_similarity (normalized_tokens (field_or "name" (str "") product)) wanted.name_tokens
    let named = fl.add (with_id wanted id) (fl.mul (fl.literal 3 0) name_similarity)
    tags ← tags_of (field_or "tags" (array nil) product)
    let tagged = fl.add named (fl.mul (fl.literal 15 1) (jaccard_similarity tags wanted.tag_tokens))
    let attributes = normalized_tokens (field_or "attributes" (str "") product)
    let attributed =
        fl.add tagged
          (fl.mul (fl.literal 5 1) (jaccard_similarity attributes wanted.attribute_tokens))
    let score = with_price (field_or "price" null product) wanted.price attributed
    ok (scored score name_similarity product best)

  unfoldable pub best_of : Wanted → List (Json F) → Best → Result Best
  best_of wanted [] best = ok best
  best_of wanted (object product ∷ products) best =
      score_product wanted product best >>= λ better. best_of wanted products better
  best_of wanted (_ ∷ products) best = err "object has no attribute 'get'"

  unfoldable pub candidate_product_from_store : Fields F → String → Fields F → Result (Fields F)
  candidate_product_from_store store_detail expected_product_id profile = do
    wanted ← wanted_of expected_product_id profile
    products ← iterate (or_else py (field_or "products" null store_detail) (array nil))
    (best, best_score) ← best_of wanted products (end, fl.negate one)
    ok best
