-- ===== src/Llm/Manual/Tests.antt =====
-- A manual chat of two rounds, after a service has refused the tools.
use native.Mathlib.Decide.{dec_lt}
use dbagent_tree.Prelude.{
  ℕ, zero, suc, String, true, ◌≡◌, refl, Option, none, some, List, [], ◌∷◌, ℤ, pos, string_eq,
  int_eq, ◌==◌, if◌then◌else◌,
}
use dbagent_tree.Exec.{Result, ok, err, Exec}
use dbagent_tree.Text.Codes.{from_codes}
use dbagent_tree.Text.Words.{strip, drop_while, lower}
use dbagent_tree.Tools.Json.{Json, null, str, object, end, fields, field?, field_or}
use dbagent_tree.Tools.Python.{Python, str_of, truthy}
use dbagent_tree.Llm.{Answer, Message, given, Chat, chat_rounds, chat_with_tools_native}
use dbagent_tree.Llm.Actions.{
  splitlines, lines_from, extract_json_blob, line_payloads, extract_action_payloads,
}
use dbagent_tree.Llm.Manual.{
  converted, tool_rows, manual_tool_messages, run_action, reply_to, run_actions, after_content,
  manual_rounds, chat_with_tools_manual,
}
use dbagent_tree.Llm.Choice.{chat_with_tools}

lines_test : splitlines "a\r\nb\n\nc\n" ≡ "a" ∷ "b" ∷ "" ∷ "c" ∷ []
unfolding lines_from from_codes dec_lt
lines_test = refl

-- Two objects are read, the rest is not.
abbrev loads : String → Option (Json ℤ)
loads text =
    if text == "{call}"
    then some (
        object (
          fields
            (("action", str "tool") ∷ ("name", str "kv_get") ∷ ("arguments", object end) ∷ [])))
    else if text == "{end}"
    then some (object (fields (("action", str "Final") ∷ ("answer", str " done ") ∷ [])))
    else none

abbrev py : Python ℤ
py = record {
  float_of_int = λ n. some n;
  float_of_str = λ s. none;
  int_of_float = λ n. some n;
  float_is_zero = λ n. n == pos 0;
  str_float = λ n. "0.0";
  repr = λ j. "{}";
  dumps = λ j. "{}";
  loads = loads;
}

-- The first JSON object of a fenced answer, and the objects of its lines.
fenced : extract_json_blob loads "```json\n{call}\n```" ≡ loads "{call}"
unfolding extract_json_blob lines_from from_codes strip drop_while dec_lt
fenced = refl

-- The world counts the calls of tools.
abbrev router : String → Json ℤ → Exec ℕ (Json ℤ)
router name args n = (ok null, suc n)

abbrev refuses : ℕ → List Message → Result Answer
refuses n messages = err "Tools are not supported"

abbrev service : ℕ → List Message → Result (Option String)
service zero messages = ok (some "Two calls:\n{call}\n{call}")
service (suc n) messages = ok (some "{end}")

abbrev begin : Chat ℕ
begin = record { messages = given "user" "hello" ∷ []; world = 0 }

manual_chat :
    chat_with_tools py (λ j. "{}") router refuses service (λ m. true) [] "auto" 10 begin
    ≡ (ok "done", record begin { world = 2 })
unfolding chat_with_tools chat_with_tools_native chat_rounds chat_with_tools_manual
    manual_tool_messages tool_rows converted manual_rounds after_content extract_action_payloads
    extract_json_blob line_payloads lines_from run_actions run_action reply_to strip lower
    drop_while from_codes str_of truthy field? field_or dec_lt
manual_chat = refl
