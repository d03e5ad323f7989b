-- ===== src/Llm.antt =====
-- The native chat loop of Agent/llm.py, `_chat_with_tools_native`. The model service and the router
-- are its parameters: `ask n` is what the service gives in round n for the messages so far.
pub mod Exchange
pub mod Actions
pub mod Manual
pub mod Choice
mod Tests
use mathlib.Core.List.{◌++◌}
use dbagent_tree.Prelude.{
  ℕ, zero, suc, String, Option, none, some, List, [], ◌∷◌, string_eq, ◌==◌, if◌then◌else◌,
}
use dbagent_tree.Exec.{Result, ok, err, hang, Exec, pure, modify, ◌>>=◌, ◌>>◌}
use dbagent_tree.Tools.Json.{Json, Fields, object, end}

pub record ToolCall : Type 0 where
  pub id : String
  pub kind : String
  pub name : String
  pub arguments : String

-- `resp.choices[0].message`
pub record Answer : Type 0 where
  pub content : Option String
  pub tool_calls : List ToolCall

-- An entry of `messages`: one of the caller's, or one that the loop appends.
pub data Message : Type 0 where
  given : String → String → Message
  assistant : String → List ToolCall → Message
  tool : String → String → String → Message

-- The list `messages` and what the tools work on.
pub record Chat (S : Type 0) : Type 0 where
  pub messages : List Message
  pub world : S

-- `content or ""`
abbrev pub or_empty : Option String → String
or_empty none = ""
or_empty (some s) = s

abbrev pub say : {S : Type 0} → Message → Exec (Chat S) (Unit {0})
say m = modify (λ c. record c { messages = c.messages ++ (m ∷ []) })

abbrev pub in_world : {S A : Type 0} → Exec S A → Exec (Chat S) A
in_world m c = let (r, w) = m c.world in (r, record c { world = w })

module _ {F S : Type 0} (loads : String → Option (Json F)) (dumps : Json F → String)
    (router : String → Json F → Exec S (Json F)) (ask : ℕ → List Message → Result Answer) where
  -- The arguments of a call, or an empty dict if they are no JSON.
  unfoldable pub parsed_args : String → Json F
  parsed_args raw = elim (loads (if raw == "" then "{}" else raw)) [
    | none ↦ object end
    | some args ↦ args
  ]

  -- `for tc in msg.tool_calls`
  unfoldable pub run_calls : List ToolCall → Exec (Chat S) (Unit {0})
  run_calls [] = pure tt
  run_calls (tc ∷ tcs) = do
    result ← in_world (router tc.name (parsed_args tc.arguments))
    say (tool tc.id tc.name (dumps result))
    run_calls tcs

  abbrev pub out_of_rounds : String
  out_of_rounds = "达到最大工具调用轮次，流程未完成。"

  abbrev pub after_answer :
      Option String → List ToolCall → Exec (Chat S) String → Exec (Chat S) String
  after_answer content [] again = pure (or_empty content)
  after_answer content (tc ∷ tcs) again =
      say (assistant (or_empty content) (tc ∷ tcs)) >> run_calls (tc ∷ tcs) >> again

  -- `for _ in range(max_rounds)`, from a round on.
  unfoldable pub chat_rounds : ℕ → ℕ → Exec (Chat S) String
  chat_rounds zero round = pure out_of_rounds
  chat_rounds (suc left) round = do
    msg ← (λ c. (ask round c.messages, c))
    after_answer msg.content msg.tool_calls (chat_rounds left (suc round))

  unfoldable pub chat_with_tools_native : ℕ → Exec (Chat S) String
  chat_with_tools_native max_rounds = chat_rounds max_rounds 0
