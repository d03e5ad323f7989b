-- ===== src/Delivery/Evaluate/Verdict.antt =====
-- What the evaluation of Agent/vitabench_delivery.py answers, on every answer.
use mathlib.Core.List.{◌++◌}
use dbagent_tree.Prelude.{
  String, ◌≡◌, ◌↔◌, refl, ap, ◌∙◌, true, false, inl, inr, Bool-cases, Option, none, some, List, [],
  ◌∷◌, string_eq, ◌==◌,
}
use dbagent_tree.Exec.{Result, ok}
use dbagent_tree.Exec.Results.{bind_ok}
use dbagent_tree.Tools.Json.{
  Json, Fields, null, bool, int, float, str, array, object, nil, cons, end, field_or,
}
use dbagent_tree.Tools.Python.{Python}
use dbagent_tree.Delivery.Floats.{Floats}
use dbagent_tree.Delivery.Evaluate.{
  Evaluation, exact_fields, soft_fields, location_fields, as_dict, check_fields, check_shipping,
  check_location, check_products, mismatches_of, verdict, judged, evaluate,
}
use dbagent_tree.Delivery.Evaluate.Agreement.{
  append_empty, Agrees, check_fields-SameField, SameField-check_fields, check_location-SamePlace,
  SamePlace-check_location, check_shipping-SameShipping, SameShipping-check_shipping,
  check_products-SameProducts, SameProducts-check_products,
}

module _ {F : Type 0} (py : Python F) (fl : Floats F) where
  mismatches_of-Agrees :
      (expected actual : Fields F)
      → mismatches_of py fl expected actual ≡ ok []
      → Agrees py fl expected actual
  unfolding mismatches_of
  mismatches_of-Agrees expected actual h =
      let (exact, e1, h1) = bind_ok (check_fields py fl "" null expected actual exact_fields) _ h in
      let (soft, e2, h2) =
        bind_ok (check_fields py fl "" (str "") expected actual soft_fields) _ h1 in
      let (la, e3, h3) = bind_ok (as_dict (field_or "location" (object end) actual)) _ h2 in
      let (le, e4, h4) = bind_ok (as_dict (field_or "location" (object end) expected)) _ h3 in
      let (products, e5, h5) =
        bind_ok
          (check_products py fl (field_or "products" (array nil) expected)
            (field_or "products" (array nil) actual))
          _ h4 in
      let shipping = check_shipping py fl expected actual in
      let location = check_location py fl le la location_fields in
      let (n1, m1) = append_empty exact (soft ++ (shipping ++ (location ++ products))) (cc) in
      let (n2, m2) = append_empty soft (shipping ++ (location ++ products)) m1 in
      let (n3, m3) = append_empty shipping (location ++ products) m2 in
      let (n4, m4) = append_empty location products m3 in
      (
        check_fields-SameField py fl expected actual "" null exact_fields (e1 ∙ ap ok n1),
        check_fields-SameField py fl expected actual "" (str "") soft_fields (e2 ∙ ap ok n2),
        check_shipping-SameShipping py fl expected actual n3,
        (la, e3, le, e4, check_location-SamePlace py fl le la location_fields n4),
        check_products-SameProducts py fl _ _ (e5 ∙ ap ok m4),
      )

  Agrees-mismatches_of :
      (expected actual : Fields F)
      → Agrees py fl expected actual
      → mismatches_of py fl expected actual ≡ ok []
  unfolding mismatches_of
  Agrees-mismatches_of expected actual (exact, soft, shipping, place, products) =
      let (la, e3, le, e4, location) = place in
      rw (SameField-check_fields py fl expected actual "" null exact_fields exact) (
        rw (SameField-check_fields py fl expected actual "" (str "") soft_fields soft) (
          rw (e3, e4)
            (rw (SameShipping-check_shipping py fl expected actual shipping) (
              rw (SamePlace-check_location py fl le la location_fields location)
                (rw (SameProducts-check_products py fl _ _ products))))))

  -- The answer is one order that agrees with the expected one.
  abbrev pub IsRight : Json F → Json F → Option String → Type 0
  IsRight expected parsed raw =
      (order : Fields F) × (expected ≡ object order)
      × (actual : Fields F) × (parsed ≡ array (cons (object actual) nil))
      × (text : String) × (raw ≡ some text)
      × ((text == "") ≡ false)
      × Agrees py fl order actual

  abbrev pub Succeeds : Result (Evaluation F) → Type 0
  Succeeds judgement = (r : Evaluation F) × (judgement ≡ ok r) × (r.success ≡ true)

  failed-fails : {A : Type 0} (x : Evaluation F) → x.success ≡ false → Succeeds (ok x) → A
  failed-fails x f (r, e, s) = absurd (let e' : x ≡ r = cc in cc)

  as_dict-object : (j : Json F) (fs : Fields F) → as_dict j ≡ ok fs → j ≡ object fs
  as_dict-object (object gs) fs h = let e : gs ≡ fs = cc in rw e
  as_dict-object null fs h = absurd (cc)
  as_dict-object (bool b) fs h = absurd (cc)
  as_dict-object (int n) fs h = absurd (cc)
  as_dict-object (float x) fs h = absurd (cc)
  as_dict-object (str t) fs h = absurd (cc)
  as_dict-object (array xs) fs h = absurd (cc)

  verdict-empty :
      (order actual : Fields F) (ms : List String)
      → (verdict py fl order actual ms).success ≡ true
      → ms ≡ []
  verdict-empty order actual [] h = refl
  verdict-empty order actual (m ∷ ms) h = absurd (cc)

  judged-Agrees :
      (expected parsed : Json F) (raw : String)
      → Succeeds (judged py fl expected parsed raw)
      → (order : Fields F) × (expected ≡ object order)
        × (actual : Fields F) × (parsed ≡ array (cons (object actual) nil))
        × Agrees py fl order actual
  judged-Agrees expected (array (cons (object actual) nil)) raw (r, h, s) =
      let (order, e, h1) = bind_ok (as_dict expected) _ h in
      let (ms, e', h2) = bind_ok (mismatches_of py fl order actual) _ h1 in
      let same : verdict py fl order actual ms ≡ r = cc in
      let empty = verdict-empty order actual ms (ap (λ (x : Evaluation F). x.success) same ∙ s) in
      (
        order,
        as_dict-object expected order e,
        actual,
        refl,
        mismatches_of-Agrees order actual (e' ∙ ap ok empty),
      )
  judged-Agrees expected (array (cons (object a) (cons y ys))) raw h = failed-fails _ refl h
  judged-Agrees expected (array (cons null ys)) raw h = failed-fails _ refl h
  judged-Agrees expected (array (cons (bool b) ys)) raw h = failed-fails _ refl h
  judged-Agrees expected (array (cons (int n) ys)) raw h = failed-fails _ refl h
  judged-Agrees expected (array (cons (float x) ys)) raw h = failed-fails _ refl h
  judged-Agrees expected (array (cons (str t) ys)) raw h = failed-fails _ refl h
  judged-Agrees expected (array (cons (array xs) ys)) raw h = failed-fails _ refl h
  judged-Agrees expected (array nil) raw h = failed-fails _ refl h
  judged-Agrees expected null raw h = failed-fails _ refl h
  judged-Agrees expected (bool b) raw h = failed-fails _ refl h
  judged-Agrees expected (int n) raw h = failed-fails _ refl h
  judged-Agrees expected (float x) raw h = failed-fails _ refl h
  judged-Agrees expected (str t) raw h = failed-fails _ refl h
  judged-Agrees expected (object fs) raw h = failed-fails _ refl h

  -- The evaluation returns with success exactly if there is an answer's text that is not empty, the
  -- answer is a list of one order, the expected order is a dict too, and the two agree: on the exact
  -- and the soft fields by their comparable values, on the shipping time, on the location's fields,
  -- and on the products, as many and with the same fields.
  pub evaluate-IsRight :
      (expected parsed : Json F) (raw : Option String)
      → Succeeds (evaluate py fl expected parsed raw) ↔ IsRight expected parsed raw
  unfolding evaluate
  evaluate-IsRight expected parsed none =
      ((λ h. failed-fails _ refl h), (λ (o, e, a, e', t, r, full, agrees). absurd (cc)))
  evaluate-IsRight expected parsed (some text) = (
    (λ h. elim (Bool-cases (text == "")) [
      | inl empty ↦ failed-fails _ refl (rw empty at h)
      | inr full ↦
          let (order, e, actual, e', agrees) = judged-Agrees expected parsed text (rw full at h) in
          (order, e, actual, e', text, refl, full, agrees)
    ]),
    (λ (order, e, actual, e', t, r, full, agrees).
        let same : t ≡ text = cc in
        rw (e, e', rw same at full)
          (rw (Agrees-mismatches_of order actual agrees)
            (verdict py fl order actual [], refl, refl))),
  )
