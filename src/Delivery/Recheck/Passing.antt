-- ===== src/Delivery/Recheck/Passing.antt =====
-- What `_semantic_recheck_winner_payload` of Agent/vitabench_delivery.py lets through.
use dbagent_tree.Prelude.{
  String, ◌≡◌, refl, sym, ap, ◌∙◌, Bool, true, false, ◌||◌, inl, inr, Bool-cases, Option,
  Option-cases, none, some, ℤ, string_eq, ◌==◌, if◌then◌else◌,
}
use dbagent_tree.Exec.{Result, ok, err, hang}
use dbagent_tree.Exec.Results.{bind_ok}
use dbagent_tree.Tools.Json.{Json, Fields, null, str, object, end, field_or}
use dbagent_tree.Tools.Python.{Python, truthy, str_of}
use dbagent_tree.Delivery.Floats.{Floats}
use dbagent_tree.Delivery.Ranking.{Unicode}
use dbagent_tree.Delivery.Winner.{parse_json_safely, distance, candidate_summary_payload}
use dbagent_tree.Delivery.Recheck.{
  Verdict, Expected, is_null, is_blank, full_dict, refuse, accept, gap_verdict, id_changed,
  detail_verdict, product_verdict, payload_verdict, semantic_recheck_winner_payload,
}

module _ {F : Type 0} (py : Python F) (fl : Floats F) where
  -- The verdict is on the payload, and gives a reason only with a refusal.
  abbrev IsOn : Fields F → Verdict F → Type 0
  IsOn payload v = (v.payload ≡ payload) × (v.constraints_ok ≡ true → v.reason ≡ "")

  accept-IsOn : (payload : Fields F) → IsOn payload (accept py fl payload)
  accept-IsOn payload = (refl, λ h. refl)

  refuse-IsOn : (reason : String) (payload : Fields F) → IsOn payload (refuse py fl reason payload)
  refuse-IsOn reason payload = (refl, λ h. absurd (cc))

  if-IsOn :
      (b : Bool) (payload : Fields F) (v w : Verdict F)
      → IsOn payload v
      → IsOn payload w
      → IsOn payload (if b then v else w)
  if-IsOn true payload v w h k = h
  if-IsOn false payload v w h k = k

  gap_verdict-IsOn :
      (r : Result F) (payload : Fields F) → IsOn payload (gap_verdict py fl r payload)
  gap_verdict-IsOn (ok gap) payload =
      if-IsOn (fl.less (fl.literal 1 6) gap) payload _ _ (refuse-IsOn _ payload)
        (accept-IsOn payload)
  gap_verdict-IsOn (err m) payload = refuse-IsOn _ payload
  gap_verdict-IsOn hang payload = refuse-IsOn _ payload

  detail_verdict-IsOn :
      (product_id : String) (detail : Option (Fields F)) (payload : Fields F)
      → IsOn payload (detail_verdict py fl product_id detail payload)
  detail_verdict-IsOn product_id none payload = refuse-IsOn _ payload
  detail_verdict-IsOn product_id (some detail) payload =
      let price = field_or "price" null detail in
      let matched = field_or "matched_product_price" null payload in
      if-IsOn (id_changed py fl product_id (str_of py (field_or "product_id" (str "") detail)))
        payload _ _ (refuse-IsOn _ payload)
        (if-IsOn (is_null price || is_null matched) payload _ _ (accept-IsOn payload)
          (gap_verdict-IsOn (distance py fl price matched) payload))

  product_verdict-IsOn :
      (product_id : String) (raw : Json F) (payload : Fields F)
      → IsOn payload (product_verdict py fl product_id raw payload)
  product_verdict-IsOn product_id raw payload =
      if-IsOn (is_blank raw) payload _ _ (accept-IsOn payload) (
        detail_verdict-IsOn product_id (full_dict (parse_json_safely py fl raw (object end)))
          payload)

  -- The payload has the product that is expected.
  abbrev pub HasProduct : String → Fields F → Type 0
  HasProduct product_id payload =
      (truthy py (field_or "has_expected_product" null payload) ≡ true)
      × (str_of py (field_or "matched_product_id" (str "") payload) ≡ product_id)

  payload_verdict-accepts :
      (product_id : String) (raw : Json F) (payload : Fields F)
      → (payload_verdict py fl product_id raw payload).constraints_ok ≡ true
      → IsOn payload (payload_verdict py fl product_id raw payload)
        × ((product_id == "") ≡ false → HasProduct product_id payload)
  payload_verdict-accepts product_id raw payload h =
      let has_product = truthy py (field_or "has_expected_product" null payload) in
      let id = str_of py (field_or "matched_product_id" (str "") payload) in
      let on = product_verdict-IsOn product_id raw payload in
      elim (Bool-cases (product_id == "")) [
        | inl any_product ↦ rw any_product (on, λ e. absurd (cc))
        | inr named ↦ elim (Bool-cases has_product) [
          | inr lacks ↦ absurd (let wrong = rw (named, lacks) at h in cc)
          | inl has ↦ elim (Bool-cases (id == product_id)) [
            | inr other ↦ absurd (let wrong = rw (named, has, other) at h in cc)
            | inl same ↦
                rw (named, has, same) (on, λ e. (refl, (string_eq.same_iff id product_id).0 same))
          ]
        ]
      ]

  -- A winner that passes the check has a store entry that is a dict and not empty, the returned
  -- payload is made of it, no reason is given, and if a product is expected the payload has it.
  pub semantic_recheck_winner_payload-accepts :
      (unicode : Unicode) (store_id : String) (attempt : ℤ) (expected : Expected F)
      (store_raw product_raw : Json F) (v : Verdict F)
      → semantic_recheck_winner_payload py fl unicode store_id attempt expected store_raw
          product_raw
        ≡ ok v
      → v.constraints_ok ≡ true
      → (detail : Fields F) × (full_dict (parse_json_safely py fl store_raw (object end))
          ≡ some detail)
        × (candidate_summary_payload py fl unicode store_id attempt detail expected.order
              expected.product_id expected.profile
            ≡ ok v.payload)
        × (v.reason ≡ "")
        × ((expected.product_id == "") ≡ false → HasProduct expected.product_id v.payload)
  unfolding semantic_recheck_winner_payload
  semantic_recheck_winner_payload-accepts unicode store_id attempt expected store_raw product_raw v
        h passed =
      elim (Option-cases (full_dict (parse_json_safely py fl store_raw (object end)))) [
        | inl gone ↦ absurd (
            let same : refuse py fl "WINNER_STORE_DETAIL_UNAVAILABLE" end ≡ v =
              (let h' = rw gone at h in cc) in
            let no : false ≡ true = ap (λ (w : Verdict F). w.constraints_ok) same ∙ passed in cc)
        | inr (detail, e) ↦
            let (payload, made, h') =
              bind_ok
                (candidate_summary_payload py fl unicode store_id attempt detail expected.order
                  expected.product_id expected.profile)
                _ (rw e at h) in
            let same : v ≡ payload_verdict py fl expected.product_id product_raw payload = cc in
            let (on, has) =
              payload_verdict-accepts expected.product_id product_raw payload
                (ap (λ (w : Verdict F). w.constraints_ok) (sym same) ∙ passed) in
            let payload_is : payload ≡ v.payload =
              sym (ap (λ (w : Verdict F). w.payload) same ∙ on.0) in
            (
              detail,
              e,
              rw payload_is at made,
              ap (λ (w : Verdict F). w.reason) same
                  ∙ on.1 (ap (λ (w : Verdict F). w.constraints_ok) (sym same) ∙ passed),
              rw payload_is at has,
            )
      ]
