-- ===== src/Llm/Tests.antt =====
-- A chat of two rounds, for the loop of Agent/llm.py.
use mathlib.Core.List.{◌++◌}
use dbagent_tree.Prelude.{
  ℕ, zero, suc, String, ◌≡◌, refl, Option, none, some, List, [], ◌∷◌, string_eq, ℤ,
}
use dbagent_tree.Exec.{Result, ok, Exec}
use dbagent_tree.Tools.Json.{Json, null}
use dbagent_tree.Llm.{
  Answer, Message, given, Chat, parsed_args, run_calls, chat_rounds, chat_with_tools_native,
}
use dbagent_tree.Llm.Exchange.{Exchange, chat_with_tools_native-Exchange}

abbrev loads : String → Option (Json ℤ)
loads text = none

abbrev dumps : Json ℤ → String
dumps j = "{}"

-- The world counts the calls of tools.
abbrev router : String → Json ℤ → Exec ℕ (Json ℤ)
router name args n = (ok null, suc n)

-- The service asks for two tools, then answers.
abbrev service : ℕ → List Message → Result Answer
service zero messages = ok (record {
  content = none;
  tool_calls =
      record { id = "a"; kind = "function"; name = "kv_get"; arguments = "{}" }
      ∷ record { id = "b"; kind = "function"; name = "tx_start"; arguments = "" }
      ∷ [];
})
service (suc n) messages = ok (record { content = some "done"; tool_calls = [] })

abbrev begin : Chat ℕ
begin = record { messages = given "user" "hello" ∷ []; world = 0 }

chat_returns : (chat_with_tools_native loads dumps router service 10 begin).0 ≡ ok "done"
unfolding chat_with_tools_native chat_rounds run_calls parsed_args
chat_returns = refl

chat_with_tools_native-Exchange_example :
    (new : List Message) × ((chat_with_tools_native loads dumps router service 10 begin).1.messages
      ≡ (given "user" "hello" ∷ []) ++ new)
    × Exchange 10 new
chat_with_tools_native-Exchange_example =
    chat_with_tools_native-Exchange loads dumps router service 10 begin "done" chat_returns
