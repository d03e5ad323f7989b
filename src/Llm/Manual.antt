-- ===== src/Llm/Manual.antt =====
-- The manual chat loop of Agent/llm.py for services without calls of tools,
-- `_chat_with_tools_manual`, and the choice between the two loops. A message with the role of the
-- source is `given`.
mod Tests
use mathlib.Core.List.{◌++◌}
use Prim.Native.String
use dbagent_tree.Prelude.{
  ℕ, zero, suc, String, Bool, true, false, not, ◌||◌, ◌&&◌, Option, none, some, List, [], ◌∷◌,
  string_eq, ◌==◌, if◌then◌else◌,
}
use dbagent_tree.Exec.{Result, ok, err, hang, Exec, pure, lift, modify, ◌>>=◌, ◌>>◌, raise, catch}
use dbagent_tree.Exec.Results
use dbagent_tree.Text.Codes.{codes, from_codes}
use dbagent_tree.Text.Words.{strip, lower, has_part}
use dbagent_tree.Tools.Json.{
  Json, Fields, null, str, array, object, end, field?, field_or, fields, items,
}
use dbagent_tree.Tools.Python.{Python, truthy, str_of}
use dbagent_tree.Llm.{
  Answer, Message, given, assistant, tool, Chat, or_empty, say, in_world, chat_with_tools_native,
  out_of_rounds,
}
use dbagent_tree.Llm.Actions.{join_lines, extract_action_payloads}

-- How the loop over the actions of an answer ends: with a text for the user, or with the results.
pub data Turn (F : Type 0) : Type 0 where
  replied : String → Turn F
  results : List (Json F) → Turn F

module _ {F : Type 0} where
  -- `x.get` is refused on anything but a dict.
  abbrev as_fields : Json F → Result (Fields F)
  as_fields (object fs) = ok fs
  as_fields _ = err "object has no attribute 'get'"

  -- What is no dict is an empty one.
  abbrev dict_or_empty : Json F → Json F
  dict_or_empty (object fs) = object fs
  dict_or_empty _ = object end

  abbrev is_there : Option (Json F) → Bool
  is_there none = false
  is_there (some v) = true

-- `text.strip() or default`
abbrev text_or_else : String → String → String
text_or_else text default = if strip text == "" then default else strip text

abbrev nothing_readable : String
nothing_readable = "模型未返回可解析结果。"

abbrev nothing_to_do : String
nothing_to_do = "模型未返回可执行动作。"

abbrev task_done : String
task_done = "任务已完成。"

-- Tool messages are left out, and of the assistant's only the text is kept.
unfoldable pub converted : List Message → List Message
converted [] = []
converted (given role content ∷ messages) =
    let rest = converted messages in
    if role == "system" || role == "user" || role == "assistant"
    then given role content ∷ rest
    else rest
converted (assistant content calls ∷ messages) = given "assistant" content ∷ converted messages
converted (tool id name content ∷ messages) = converted messages

module _ {F S : Type 0} (py : Python F) (dumps : Json F → String)
    (router : String → Json F → Exec S (Json F)) where
  abbrev dumped : List (Json F) → List String
  dumped [] = []
  dumped (x ∷ xs) = dumps x ∷ dumped xs

  abbrev summary_of : Fields F → String
  summary_of fn = dumps (
      object (
        fields (
          ("name", field_or "name" null fn)
          ∷ ("description", field_or "description" null fn)
          ∷ ("parameters", field_or "parameters" (object end) fn)
          ∷ [])))

  unfoldable pub tool_rows : List (Fields F) → Result (List String)
  tool_rows [] = ok []
  tool_rows (t ∷ tools) =
      Results.◌>>=◌ (as_fields (field_or "function" (object end) t))
        (λ fn. Results.◌>>=◌ (tool_rows tools) (λ rest. ok (summary_of fn ∷ rest)))

  abbrev tools_summary : List String → String
  tools_summary rows = from_codes (join_lines rows)

  abbrev manual_system : String → String
  manual_system summary =
      String.◌++◌
        "你正在一个不支持原生 tool calling 的 OpenAI-compatible 接口上运行。你仍然必须通过工具完成读写。可用工具如下，每次只能调用一个：\n"
        (String.◌++◌ summary
          "\n\n你的回复必须是 JSON，且不能加 markdown 代码块。\n如果要调用工具，输出：{\"action\":\"tool\",\"name\":\"工具名\",\"arguments\":{\"参数\":\"值\"}}\n如果任务已经完成，输出：{\"action\":\"final\",\"answer\":\"给用户的最终中文答复\"}")

  unfoldable pub manual_tool_messages : List Message → List (Fields F) → Result (List Message)
  manual_tool_messages messages tools =
      Results.◌>>=◌ (tool_rows tools)
        (λ rows. ok (given "system" (manual_system (tools_summary rows)) ∷ converted messages))

  -- A call of a tool, with its entry of the results.
  unfoldable pub run_action : String → Json F → Exec (Chat S) (Json F)
  run_action name args = do
    result ← in_world (router name args)
    pure (object (fields (("name", str name) ∷ ("arguments", args) ∷ ("result", result) ∷ [])))

  abbrev action_of : Fields F → String
  action_of payload = lower (strip (str_of py (field_or "action" (str "") payload)))

  abbrev args_of : Fields F → Json F
  args_of payload = dict_or_empty (field_or "arguments" (object end) payload)

  -- `payload.get("name") or payload.get("action") or ""`
  abbrev name_or_action : Fields F → Json F
  name_or_action payload =
      let name = field_or "name" null payload in
      let action = field_or "action" null payload in
      if truthy py name then name else if truthy py action then action else str ""

  -- The name of the tool that an action calls: of `tool`, or of any other word with arguments.
  abbrev called : Fields F → Option String
  called payload =
      if action_of payload == "tool"
      then some (strip (str_of py (field_or "name" (str "") payload)))
      else if not (action_of payload == "")
          && (not (action_of payload == "final") && is_there (field? "arguments" payload))
      then some (strip (str_of py (name_or_action payload)))
      else none

  -- The text of an action that calls no tool. With `return_messages` the final answer is appended.
  unfoldable pub reply_to : Bool → String → Fields F → Exec (Chat S) (Turn F)
  reply_to return_messages content payload =
      if action_of payload == "final"
      then ((if return_messages then say (given "assistant" content) else pure tt)
          >> pure
              (replied (text_or_else (str_of py (field_or "answer" (str "") payload)) task_done)))
      else pure (replied (text_or_else content nothing_to_do))

  -- `for payload in payloads`, with the results so far.
  unfoldable pub run_actions :
      Bool → String → List (Json F) → List (Json F) → Exec (Chat S) (Turn F)
  run_actions return_messages content acc [] = pure (results acc)
  run_actions return_messages content acc (p ∷ payloads) = do
    payload ← lift (as_fields p)
    elim (called payload) [
      | none ↦ reply_to return_messages content payload
      | some name ↦ run_action name (args_of payload) >>= λ entry.
          run_actions return_messages content (acc ++ (entry ∷ [])) payloads
    ]

  -- What follows the actions of an answer.
  abbrev after_turn : String → List (Json F) → Exec (Chat S) String → Turn F → Exec (Chat S) String
  after_turn content payloads again (replied text) = pure text
  after_turn content payloads again (results []) = pure (text_or_else content nothing_to_do)
  after_turn content payloads again (results (r ∷ rs)) =
      say (given "assistant" (from_codes (join_lines (dumped payloads))))
      >> say (given "user" (String.◌++◌ "工具执行结果如下，请继续决策：" (dumps (array (items (r ∷ rs))))))
      >> again

  -- What follows an answer.
  unfoldable pub after_content : Bool → Exec (Chat S) String → String → Exec (Chat S) String
  after_content return_messages again content = elim (extract_action_payloads py.loads content) [
    | none ↦ pure (text_or_else content nothing_readable)
    | some payloads ↦
        run_actions return_messages content [] payloads >>= after_turn content payloads again
  ]

module _ {F S : Type 0} (py : Python F) (dumps : Json F → String)
    (router : String → Json F → Exec S (Json F))
    (ask_manual : ℕ → List Message → Result (Option String)) where
  -- `for _ in range(max_rounds)`, from a round on.
  unfoldable pub manual_rounds : Bool → ℕ → ℕ → Exec (Chat S) String
  manual_rounds return_messages zero round = pure "达到最大工具调用轮次，流程未完成。"
  manual_rounds return_messages (suc left) round =
      (λ c. (ask_manual round c.messages, c)) >>= λ content.
      after_content py dumps router return_messages (manual_rounds return_messages left (suc round))
        (or_empty content)

  -- The loop works on its own list of messages.
  unfoldable pub chat_with_tools_manual :
      Bool → List Message → List (Fields F) → ℕ → Exec S (String × List Message)
  chat_with_tools_manual return_messages messages tools max_rounds w =
      elim (manual_tool_messages py dumps router messages tools) [
        | ok manual_messages ↦
            let (r, c) =
              manual_rounds return_messages max_rounds 0
                (record { messages = manual_messages; world = w }) in
            (Results.◌>>=◌ r (λ answer. ok (answer, c.messages)), c.world)
        | err m ↦ (err m, w)
        | hang ↦ (hang, w)
      ]
