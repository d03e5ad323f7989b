-- ===== src/Tools/Reply.antt =====
-- `_ok`, `_err`, `_parse_json_value` and `_task_key` of Agent/tools/kv_tools.py.
use dbagent_tree.Prelude.{
  ℕ, String, ◌++◌, Bool, true, false, Option, none, some, List, [], ◌∷◌, nat_eq, string_eq, ◌==◌,
  if◌then◌else◌,
}
use dbagent_tree.Text.Words.{lstrip_by, rstrip_by}
use dbagent_tree.Tools.Json.{Json, Fields, null, bool, str, fields, update_fields}
use dbagent_tree.Tools.Python.{Python}

module _ {F : Type 0} where
  -- `{"ok": True, **data}`
  unfoldable pub ok_reply : List (String × Json F) → Fields F
  unfolding update_fields
  ok_reply contents = update_fields (fields (("ok", bool true) ∷ [])) contents

  unfoldable pub err_reply : String → List (String × Json F) → Fields F
  unfolding update_fields
  err_reply message extra =
      update_fields (fields (("ok", bool false) ∷ ("error", str message) ∷ [])) extra

  abbrev pub or_null : Option String → Json F
  or_null none = null
  or_null (some v) = str v

  abbrev pub found : Option String → Json F
  found none = bool false
  found (some v) = bool true

  -- `_parse_json_value` on what a read gives.
  unfoldable pub parse_json_value : Python F → Option String → Json F → Json F
  parse_json_value py none default = default
  parse_json_value py (some raw) default =
      if raw == "" then default else elim (py.loads raw) [ none ↦ default | some j ↦ j ]

abbrev is_colon : ℕ → Bool
is_colon c = c == 58

unfoldable pub task_key : String → String → String
unfolding lstrip_by rstrip_by
task_key namespace suffix = rstrip_by is_colon namespace ++ (":" ++ lstrip_by is_colon suffix)
