-- ===== src/Tools/Python.antt =====
-- What the tools use of Python beyond the texts: floats, the `json` module and the conversions
-- `str`, `bool`, `int` and `float` of a value.
use dbagent_tree.Prelude.{
  zero, String, Bool, true, false, not, Option, none, some, ℤ, pos, str_int, string_eq, ◌==◌,
}
use dbagent_tree.Exec.{Result, ok, err}
use dbagent_tree.Text.Words.{strip, parse_int}
use dbagent_tree.Tools.Json.{
  Json, Fields, null, bool, int, float, str, array, object, nil, end, field_or,
}

-- The type `float` with the operations that the tools call, `repr` of a list or dict, and `json`.
-- `none` is an exception.
pub record Python (F : Type 0) : Type 0 where
  pub float_of_int : ℤ → Option F
  pub float_of_str : String → Option F
  pub int_of_float : F → Option ℤ
  pub float_is_zero : F → Bool
  pub str_float : F → String
  pub repr : Json F → String
  pub dumps : Json F → String
  pub loads : String → Option (Json F)

abbrev is_zero : ℤ → Bool
is_zero (pos zero) = true
is_zero _ = false

module _ {F : Type 0} (py : Python F) where
  -- `str(value)`
  unfoldable pub str_of : Json F → String
  str_of null = "None"
  str_of (bool true) = "True"
  str_of (bool false) = "False"
  str_of (int n) = str_int n
  str_of (float x) = py.str_float x
  str_of (str s) = s
  str_of (array xs) = py.repr (array xs)
  str_of (object fs) = py.repr (object fs)

  -- `bool(value)`
  unfoldable pub truthy : Json F → Bool
  truthy null = false
  truthy (bool b) = b
  truthy (int n) = not (is_zero n)
  truthy (float x) = not (py.float_is_zero x)
  truthy (str s) = not (s == "")
  truthy (array nil) = false
  truthy (array xs) = true
  truthy (object end) = false
  truthy (object fs) = true

  abbrev or_err : {A : Type 0} → Option A → String → Result A
  or_err none m = err m
  or_err (some a) m = ok a

  -- `int(value)`
  unfoldable pub to_int : Json F → Result ℤ
  to_int null = err "int() argument must be a string or a number"
  to_int (bool true) = ok (pos 1)
  to_int (bool false) = ok (pos 0)
  to_int (int n) = ok n
  to_int (float x) = or_err (py.int_of_float x) "cannot convert float to integer"
  to_int (str s) = or_err (parse_int s) "invalid literal for int()"
  to_int (array xs) = err "int() argument must be a string or a number"
  to_int (object fs) = err "int() argument must be a string or a number"

  -- `float(value)`
  unfoldable pub to_float : Json F → Result F
  to_float null = err "float() argument must be a string or a number"
  to_float (bool true) = or_err (py.float_of_int (pos 1)) "int too large to convert to float"
  to_float (bool false) = or_err (py.float_of_int (pos 0)) "int too large to convert to float"
  to_float (int n) = or_err (py.float_of_int n) "int too large to convert to float"
  to_float (float x) = ok x
  to_float (str s) = or_err (py.float_of_str s) "could not convert string to float"
  to_float (array xs) = err "float() argument must be a string or a number"
  to_float (object fs) = err "float() argument must be a string or a number"

  -- `str(args.get(name, default))`
  unfoldable pub text_or : String → String → Fields F → String
  unfolding field_or str_of
  text_or name default args = str_of (field_or name (str default) args)

  -- `str(args.get(name, "")).strip()`
  unfoldable pub stripped : String → Fields F → String
  unfolding text_or
  stripped name args = strip (text_or name "" args)

  -- `int(args.get(name, 0))`
  unfoldable pub int_arg : String → Fields F → Result ℤ
  unfolding field_or to_int
  int_arg name args = to_int (field_or name (int (pos 0)) args)
