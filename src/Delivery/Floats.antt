-- ===== src/Delivery/Floats.antt =====
-- Python's operations on floats that Agent/vitabench_delivery.py uses, and its `==` on values that
-- come from `json`.
use dbagent_tree.Prelude.{
  ℕ, suc, String, Bool, true, false, ◌&&◌, Option, none, some, ℤ, pos, string_eq, int_eq, ◌==◌,
  nat_eq, if◌then◌else◌,
}
use dbagent_tree.Tools.Json.{
  Json, Items, Fields, null, bool, int, float, str, array, object, nil, cons, end, field, field?,
}

-- `literal n k` is the float that is written as n · 10^-k, `same` and `less` are `==` and `<`,
-- `same_int` compares with an `int`, `round6` is `round(x, 6)`.
pub record Floats (F : Type 0) : Type 0 where
  pub literal : ℕ → ℕ → F
  pub add : F → F → F
  pub sub : F → F → F
  pub mul : F → F → F
  pub div : F → F → F
  pub negate : F → F
  pub abs : F → F
  pub less : F → F → Bool
  pub same : F → F → Bool
  pub same_int : F → ℤ → Bool
  pub round6 : F → F

-- `int(b)`
abbrev pub int_of_bool : Bool → ℤ
int_of_bool true = pos 1
int_of_bool false = pos 0

module _ {F : Type 0} where
  abbrev pub is_there : Option (Json F) → Bool
  is_there none = false
  is_there (some v) = true

  abbrev pub there : Option (Json F) → Json F
  there none = null
  there (some v) = v

  abbrev pub size : Fields F → ℕ
  size end = 0
  size (field k v fs) = suc (size fs)

module _ {F : Type 0} (fl : Floats F) where
  -- `max(a, b)` and `min(a, b)`
  abbrev pub max_float : F → F → F
  max_float a b = if fl.less a b then b else a

  abbrev pub min_float : F → F → F
  min_float a b = if fl.less b a then b else a

  -- `==` of two numbers, and of anything with a number: a bool is one.
  abbrev int_equals : ℤ → Json F → Bool
  int_equals n (int m) = n == m
  int_equals n (bool b) = n == int_of_bool b
  int_equals n (float y) = fl.same_int y n
  int_equals n _ = false

  abbrev float_equals : F → Json F → Bool
  float_equals x (float y) = fl.same x y
  float_equals x (int n) = fl.same_int x n
  float_equals x (bool b) = fl.same_int x (int_of_bool b)
  float_equals x _ = false

  abbrev is_null : Json F → Bool
  is_null null = true
  is_null _ = false

  abbrev str_equals : String → Json F → Bool
  str_equals s (str t) = s == t
  str_equals s _ = false

unfoldable mutual
  pub equals : {F : Type 0} → Floats F → Json F → Json F → Bool
  equals fl null j = is_null fl j
  equals fl (bool b) j = int_equals fl (int_of_bool b) j
  equals fl (int n) j = int_equals fl n j
  equals fl (float x) j = float_equals fl x j
  equals fl (str s) j = str_equals fl s j
  equals fl (array xs) j = elim j [ array ys ↦ items_equal fl xs ys | _ ↦ false ]
  equals fl (object fs) j = elim j [
    | object gs ↦ size fs == size gs && fields_equal fl fs gs
    | _ ↦ false
  ]

  pub items_equal : {F : Type 0} → Floats F → Items F → Items F → Bool
  items_equal fl nil ys = elim ys [ nil ↦ true | _ ↦ false ]
  items_equal fl (cons x xs) ys = elim ys [
    | nil ↦ false
    | cons y ys ↦ equals fl x y && items_equal fl xs ys
  ]

  -- Every entry is one of the other dict.
  pub fields_equal : {F : Type 0} → Floats F → Fields F → Fields F → Bool
  fields_equal fl end gs = true
  fields_equal fl (field k v fs) gs =
      is_there (field? k gs) && equals fl v (there (field? k gs)) && fields_equal fl fs gs
