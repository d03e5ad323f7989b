-- ===== src/Delivery/Evaluate/Reflexive.antt =====
-- Python's `==` on values of `json`, and the comparable values of Agent/vitabench_delivery.py, on a
-- value and itself.
use dbagent_tree.Prelude.{
  String, ◌≡◌, refl, sym, ap, ◌∙◌, true, inl, inr, Bool-cases, Option-cases, none, some, int_eq,
  nat_eq, string_eq, ◌==◌, same_refl,
}
use dbagent_tree.Exec.{ok}
use dbagent_tree.Tools.Json.{
  Json, Items, Fields, null, bool, int, float, str, array, object, nil, cons, end, field, field?,
  field_or,
}
use dbagent_tree.Tools.Python.{Python}
use dbagent_tree.Delivery.Floats.{Floats, int_of_bool, size, equals, items_equal, fields_equal}
use dbagent_tree.Delivery.Evaluate.{comparable_value}

-- No dict of the value has a key twice, and its integers are in the range of the floats.
unfoldable mutual
  pub IsPlain : {F : Type 0} → Python F → Json F → Type 0
  IsPlain py (int n) = (x : _) × (py.float_of_int n ≡ some x)
  IsPlain py (bool b) = (x : _) × (py.float_of_int (int_of_bool b) ≡ some x)
  IsPlain py (array xs) = PlainItems py xs
  IsPlain py (object fs) = PlainFields py fs
  IsPlain py j = Unit

  pub PlainItems : {F : Type 0} → Python F → Items F → Type 0
  PlainItems py nil = Unit
  PlainItems py (cons x xs) = IsPlain py x × PlainItems py xs

  pub PlainFields : {F : Type 0} → Python F → Fields F → Type 0
  PlainFields py end = Unit
  PlainFields py (field k v fs) = (field? k fs ≡ none) × IsPlain py v × PlainFields py fs

module _ {F : Type 0} (py : Python F) (fl : Floats F) (no_nan : (x : F) → fl.same x x ≡ true) where
  -- The dict has all entries of the other one.
  abbrev Extends : Fields F → Fields F → Type 0
  Extends fs gs = (k : String) (v : Json F) → field? k gs ≡ some v → field? k fs ≡ some v

  Extends-rest :
      (fs : Fields F) (k : String) (v : Json F) (gs : Fields F)
      → field? k gs ≡ none
      → Extends fs (field k v gs)
      → Extends fs gs
  unfolding field?
  Extends-rest fs k v gs new h j w e = h j w (elim (Bool-cases (j == k)) [
    | inl same ↦
        let j≡k = (string_eq.same_iff j k).0 same in
        absurd (let no : none ≡ some w = sym new ∙ ap (λ i. field? i gs) (sym j≡k) ∙ e in cc)
    | inr differ ↦ rw differ e
  ])

  mutual
    unfolding equals items_equal fields_equal field? IsPlain PlainItems PlainFields

    pub equals_refl : (j : Json F) → IsPlain py j → equals fl j j ≡ true
    equals_refl null h = refl
    equals_refl (bool b) h = same_refl (int_of_bool b)
    equals_refl (int n) h = same_refl n
    equals_refl (float x) h = no_nan x
    equals_refl (str s) h = same_refl s
    equals_refl (array xs) h = items_equal_refl xs h
    equals_refl (object fs) h = rw (same_refl (size fs)) (fields_equal_refl fs fs h (λ k v e. e))

    items_equal_refl : (xs : Items F) → PlainItems py xs → items_equal fl xs xs ≡ true
    items_equal_refl nil h = refl
    items_equal_refl (cons x xs) (h, hs) = rw (equals_refl x h) (items_equal_refl xs hs)

    fields_equal_refl :
        (fs gs : Fields F) → PlainFields py gs → Extends fs gs → fields_equal fl gs fs ≡ true
    fields_equal_refl fs end h ext = refl
    fields_equal_refl fs (field k v gs) (new, plain, rest) ext =
        let here : field? k fs ≡ some v = ext k v (rw (same_refl k)) in
        rw here
          (rw (equals_refl v plain) (fields_equal_refl fs gs rest (Extends-rest fs k v gs new ext)))

  -- A plain value has a comparable value, which equals itself.
  abbrev pub Comparable : Json F → Type 0
  Comparable j = (x : Json F) × (comparable_value py fl j ≡ ok x) × (equals fl x x ≡ true)

  pub plain-Comparable : (j : Json F) → IsPlain py j → Comparable j
  unfolding comparable_value IsPlain equals
  plain-Comparable null h = (null, refl, refl)
  plain-Comparable (bool b) (x, e) = (float (fl.round6 x), rw e, no_nan (fl.round6 x))
  plain-Comparable (int n) (x, e) = (float (fl.round6 x), rw e, no_nan (fl.round6 x))
  plain-Comparable (float x) h = (float (fl.round6 x), refl, no_nan (fl.round6 x))
  plain-Comparable (str s) h = elim (Bool-cases (s == "")) [
    | inl empty ↦ (null, rw empty, refl)
    | inr full ↦ elim (Option-cases (py.float_of_str s)) [
      | inl text ↦ (str s, rw (full, text), same_refl s)
      | inr (x, e) ↦ (float (fl.round6 x), rw (full, e), no_nan (fl.round6 x))
    ]
  ]
  plain-Comparable (array xs) h = (array xs, refl, equals_refl (array xs) h)
  plain-Comparable (object fs) h = (object fs, refl, equals_refl (object fs) h)

  pub IsPlain-field? :
      (k : String) (fs : Fields F) (v : Json F)
      → PlainFields py fs
      → field? k fs ≡ some v
      → IsPlain py v
  unfolding field? IsPlain
  IsPlain-field? k end v h e = absurd (cc)
  IsPlain-field? k (field j w fs) v (new, plain, rest) e = elim (Bool-cases (k == j)) [
    | inl same ↦
        let w≡v : w ≡ v = (let e' : some w ≡ some v = rw same at e in cc) in rw w≡v at plain
    | inr differ ↦ IsPlain-field? k fs v rest (rw differ at e)
  ]

  pub IsPlain-field_or :
      (k : String) (default : Json F) (fs : Fields F)
      → PlainFields py fs
      → IsPlain py default
      → IsPlain py (field_or k default fs)
  unfolding field_or
  IsPlain-field_or k default fs h d = elim (Option-cases (field? k fs)) [
    | inl gone ↦ let e : field_or k default fs ≡ default = rw (gone, field_or) in rw e d
    | inr (v, here) ↦
        let e : field_or k default fs ≡ v = rw (here, field_or) in
        rw e (IsPlain-field? k fs v h here)
  ]
