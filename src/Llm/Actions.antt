-- ===== src/Llm/Actions.antt =====
-- The actions that an answer holds in the manual mode of Agent/llm.py: `_extract_json_blob` and
-- `_extract_action_payloads`. `none` stands for an exception.
use mathlib.Core.List.{◌++◌, reverse}
use dbagent_tree.Prelude.{
  ℕ, String, Bool, false, not, ◌||◌, ◌&&◌, Option, none, some, List, [], ◌∷◌, nat_eq, string_eq,
  ◌==◌, if◌then◌else◌,
}
use dbagent_tree.Text.Codes.{codes, from_codes}
use dbagent_tree.Text.Words.{starts_with, drop_while, strip}
use dbagent_tree.Tools.Json.{Json, object}

-- What `splitlines` ends a line at.
abbrev is_line_break : ℕ → Bool
is_line_break c =
    c == 10
    || c == 11
    || c == 12
    || c == 13
    || c == 28
    || c == 29
    || c == 30
    || c == 133
    || c == 8232
    || c == 8233

-- The lines so far and the current one, both in reverse, and whether a carriage return came last.
pub record Lines : Type 0 where
  pub lines : List String
  pub current : List ℕ
  pub after_return : Bool

abbrev add_code : ℕ → Lines → Lines
add_code c l =
    if l.after_return && c == 10
    then record l { after_return = false }
    else if is_line_break c
    then record {
      lines = from_codes (reverse l.current) ∷ l.lines;
      current = [];
      after_return = c == 13;
    }
    else record l { current = c ∷ l.current; after_return = false }

abbrev last_line : List ℕ → List String → List String
last_line [] lines = lines
last_line (c ∷ cs) lines = from_codes (reverse (c ∷ cs)) ∷ lines

unfoldable pub lines_from : Lines → List ℕ → List String
lines_from l [] = reverse (last_line l.current l.lines)
lines_from l (c ∷ cs) = lines_from (add_code c l) cs

abbrev pub splitlines : String → List String
splitlines s = lines_from (record { lines = []; current = []; after_return = false }) (codes s)

abbrev fence : List ℕ
fence = 96 ∷ 96 ∷ 96 ∷ []

abbrev begins_with_fence : String → Bool
begins_with_fence s = starts_with (codes s) fence

abbrev ends_with_fence : String → Bool
ends_with_fence s = starts_with (reverse (codes s)) fence

-- `"\n".join(lines)`, as code points.
abbrev pub join_lines : List String → List ℕ
join_lines [] = []
join_lines (line ∷ []) = codes line
join_lines (line ∷ next ∷ lines) = codes line ++ (10 ∷ join_lines (next ∷ lines))

-- `lines[1:-1]`
abbrev inner : {A : Type 0} → List A → List A
inner [] = []
inner (x ∷ xs) = without_last xs
  where
    without_last : {A : Type 0} → List A → List A
    without_last [] = []
    without_last (x ∷ []) = []
    without_last (x ∷ y ∷ ys) = x ∷ without_last (y ∷ ys)

-- `if len(lines) >= 3: …`
abbrev unfenced_lines : String → List String → String
unfenced_lines raw (a ∷ b ∷ c ∷ lines) = strip (from_codes (join_lines (inner (a ∷ b ∷ c ∷ lines))))
unfenced_lines raw _ = raw

abbrev unfenced : String → String
unfenced raw = if begins_with_fence raw then unfenced_lines raw (splitlines raw) else raw

abbrev or_text : String → List ℕ → String
or_text raw [] = raw
or_text raw (c ∷ cs) = from_codes (reverse (c ∷ cs))

-- From the first opening brace to the last closing one, if that comes later.
abbrev braced : String → String
braced raw =
    or_text raw
      (drop_while (λ c. not (c == 125)) (reverse (drop_while (λ c. not (c == 123)) (codes raw))))

module _ {F : Type 0} (loads : String → Option (Json F)) where
  unfoldable pub extract_json_blob : String → Option (Json F)
  extract_json_blob text = loads (braced (unfenced (strip text)))

  abbrev is_skipped : String → Bool
  is_skipped candidate = candidate == "" || begins_with_fence candidate || ends_with_fence candidate

  -- Only a dict is a payload.
  abbrev with_dict : Option (Json F) → List (Json F) → List (Json F)
  with_dict (some (object fs)) payloads = object fs ∷ payloads
  with_dict _ payloads = payloads

  unfoldable pub line_payloads : List String → List (Json F)
  line_payloads [] = []
  line_payloads (line ∷ lines) =
      let rest = line_payloads lines in
      if is_skipped (strip line) then rest else with_dict (extract_json_blob (strip line)) rest

  abbrev unless_empty : List (Json F) → Option (List (Json F))
  unless_empty [] = none
  unless_empty (payload ∷ payloads) = some (payload ∷ payloads)

  unfoldable pub extract_action_payloads : String → Option (List (Json F))
  extract_action_payloads text = elim (extract_json_blob text) [
    | some payload ↦ some (payload ∷ [])
    | none ↦ unless_empty (line_payloads (splitlines text))
  ]
