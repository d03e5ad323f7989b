-- ===== src/Llm/Choice.antt =====
-- `chat_with_tools` and `chat_with_tools_session` of Agent/llm.py: which of the two loops is run.
-- `bad_request` tells whether an exception of a text is a BadRequestError of the model service.
use dbagent_tree.Prelude.{
  ℕ, String, Bool, true, false, ◌||◌, ◌&&◌, Option, List, string_eq, ◌==◌, if◌then◌else◌,
}
use dbagent_tree.Exec.{Result, Exec, pure, gets, ◌>>=◌, raise, catch}
use dbagent_tree.Text.Codes.{codes}
use dbagent_tree.Text.Words.{lower, has_part}
use dbagent_tree.Tools.Json.{Json, Fields}
use dbagent_tree.Tools.Python.{Python}
use dbagent_tree.Llm.{Answer, Message, Chat, chat_with_tools_native}
use dbagent_tree.Llm.Manual.{chat_with_tools_manual}

-- The dict that `return_messages` asks for.
pub record Session : Type 0 where
  pub answer : String
  pub messages : List Message
  pub tool_mode : String

-- `str(exc).lower()` is searched.
abbrev pub speaks_of_tools : String → Bool
speaks_of_tools message =
    has_part (codes "tool choice") (codes (lower message))
    || has_part (codes "tool") (codes (lower message))

module _ {F S : Type 0} (py : Python F) (dumps : Json F → String)
    (router : String → Json F → Exec S (Json F)) (ask : ℕ → List Message → Result Answer)
    (ask_manual : ℕ → List Message → Result (Option String)) (bad_request : String → Bool)
    (tools : List (Fields F)) where
  abbrev native : ℕ → Exec (Chat S) String
  native max_rounds = chat_with_tools_native py.loads dumps router ask max_rounds

  -- The caller's messages stay as they are.
  abbrev manual : Bool → ℕ → Exec (Chat S) (String × List Message)
  manual return_messages max_rounds c =
      let (r, w) =
        chat_with_tools_manual py dumps router ask_manual return_messages c.messages tools
          max_rounds c.world in
      (r, record c { world = w })

  -- `except BadRequestError as exc: …`
  abbrev or_manual : {A : Type 0} → Exec (Chat S) A → Exec (Chat S) A → Exec (Chat S) A
  or_manual m fallback = catch m (λ message.
      if bad_request message && speaks_of_tools message then fallback else raise message)

  abbrev manual_answer : ℕ → Exec (Chat S) String
  manual_answer max_rounds = manual false max_rounds >>= λ x. pure x.0

  unfoldable pub chat_with_tools : String → ℕ → Exec (Chat S) String
  chat_with_tools tool_mode max_rounds =
      if tool_mode == "manual"
      then manual_answer max_rounds
      else if tool_mode == "native"
      then native max_rounds
      else or_manual (native max_rounds) (manual_answer max_rounds)

  abbrev native_session : ℕ → Exec (Chat S) Session
  native_session max_rounds = do
    answer ← native max_rounds
    messages ← gets (λ c. c.messages)
    pure (record { answer = answer; messages = messages; tool_mode = "native" })

  abbrev manual_session : ℕ → Exec (Chat S) Session
  manual_session max_rounds = do
    (answer, messages) ← manual true max_rounds
    pure (record { answer = answer; messages = messages; tool_mode = "manual" })

  unfoldable pub chat_with_tools_session : String → ℕ → Exec (Chat S) Session
  chat_with_tools_session tool_mode max_rounds =
      if tool_mode == "manual"
      then manual_session max_rounds
      else if tool_mode == "native"
      then native_session max_rounds
      else or_manual (native_session max_rounds) (manual_session max_rounds)
