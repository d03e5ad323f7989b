-- ===== src/Llm/Exchange.antt =====
-- What the loop of `_chat_with_tools_native` (Agent/llm.py) appends to the messages.
use mathlib.Core.List.{◌++◌, append-nil, append_assoc}
use dbagent_tree.Prelude.{
  ℕ, zero, suc, String, ◌≡◌, refl, sym, ap, ◌∙◌, inl, inr, ◌⊎◌, Option, List, [], ◌∷◌,
}
use dbagent_tree.Exec.{Result, ok, err, hang, Exec}
use dbagent_tree.Tools.Json.{Json}
use dbagent_tree.Llm.{
  ToolCall, Answer, Message, assistant, tool, Chat, or_empty, parsed_args, run_calls, after_answer,
  chat_rounds, chat_with_tools_native,
}

-- The message answers the call: it has its id and its name.
abbrev pub Answers : ToolCall → Message → Type 0
Answers tc (tool id name content) = (id ≡ tc.id) × (name ≡ tc.name)
Answers tc _ = ⊥

-- One message for each call, in the order of the calls.
abbrev pub AllAnswered : List ToolCall → List Message → Type 0
AllAnswered [] [] = Unit
AllAnswered (tc ∷ tcs) (m ∷ ms) = Answers tc m × AllAnswered tcs ms
AllAnswered _ _ = ⊥

-- At most so many rounds, each a message of the assistant and the answers to its calls.
pub data Exchange : ℕ → List Message → Type 0 where
  over : {n : ℕ} → Exchange n []
  round :
      {n : ℕ} (content : String) (calls : List ToolCall) (answers rest : List Message)
      → AllAnswered calls answers
      → Exchange n rest
      → Exchange (suc n) (assistant content calls ∷ (answers ++ rest))

Result-cases :
    {A : Type 0} (r : Result A)
    → ((a : A) × (r ≡ ok a)) ⊎ (((m : String) × (r ≡ err m)) ⊎ (r ≡ hang))
Result-cases (ok a) = inl (a, refl)
Result-cases (err m) = inr (inl (m, refl))
Result-cases hang = inr (inr refl)

module _ {F S : Type 0} (loads : String → Option (Json F)) (dumps : Json F → String)
    (router : String → Json F → Exec S (Json F)) (ask : ℕ → List Message → Result Answer) where
  -- The state after a call whose tool gave the result.
  abbrev answered : ToolCall → Json F → Chat S → Chat S
  answered tc result c = record {
    messages = c.messages ++ (tool tc.id tc.name (dumps result) ∷ []);
    world = (router tc.name (parsed_args loads dumps router ask tc.arguments) c.world).1;
  }

  run_calls-AllAnswered :
      (calls : List ToolCall) (c : Chat S)
      → (run_calls loads dumps router ask calls c).0 ≡ ok tt
      → (answers : List Message) × ((run_calls loads dumps router ask calls c).1.messages
          ≡ c.messages ++ answers)
        × AllAnswered calls answers
  unfolding run_calls
  run_calls-AllAnswered [] c h = ([], sym (append-nil c.messages), tt)
  run_calls-AllAnswered (tc ∷ tcs) c h =
      elim (Result-cases
        (router tc.name (parsed_args loads dumps router ask tc.arguments) c.world).0) [
          | inl (result, e) ↦
              let (answers, same, all) =
                run_calls-AllAnswered tcs (answered tc result c) (rw e at h) in
              (
                tool tc.id tc.name (dumps result) ∷ answers,
                rw e (
                    same
                    ∙ append_assoc c.messages (tool tc.id tc.name (dumps result) ∷ []) answers),
                ((refl, refl), all),
              )
          | inr (inl (m, e)) ↦ let no : err m ≡ ok tt = rw e at h in absurd (cc)
          | inr (inr e) ↦ let no : hang ≡ ok tt = rw e at h in absurd (cc)
        ]

  -- The messages that an end of the loop has appended, if it returns.
  abbrev Appends : ℕ → Exec (Chat S) String → Type 0
  Appends left m =
      (c : Chat S) (answer : String)
      → (m c).0 ≡ ok answer
      → (new : List Message) × ((m c).1.messages ≡ c.messages ++ new) × Exchange left new

  after_answer-Appends :
      (left : ℕ) (content : Option String) (calls : List ToolCall) (again : Exec (Chat S) String)
      → Appends left again
      → Appends (suc left) (after_answer loads dumps router ask content calls again)
  after_answer-Appends left content [] again ih c answer h = ([], sym (append-nil c.messages), over)
  after_answer-Appends left content (tc ∷ tcs) again ih c answer h =
      let said = assistant (or_empty content) (tc ∷ tcs) in
      let c1 : Chat S = record c { messages = c.messages ++ (said ∷ []) } in
      let c2 = (run_calls loads dumps router ask (tc ∷ tcs) c1).1 in
      elim (Result-cases (run_calls loads dumps router ask (tc ∷ tcs) c1).0) [
        | inl (a, e) ↦
            let (answers, same, all) = run_calls-AllAnswered (tc ∷ tcs) c1 e in
            let (rest, more, exchange) = ih c2 answer (rw e at h) in
            (
              said ∷ (answers ++ rest),
              rw e (
                  more
                  ∙ ap (λ ms. ms ++ rest) same
                  ∙ append_assoc (c.messages ++ (said ∷ [])) answers rest
                  ∙ append_assoc c.messages (said ∷ []) (answers ++ rest)),
              round (or_empty content) (tc ∷ tcs) answers rest all exchange,
            )
        | inr (inl (m, e)) ↦ let no : err m ≡ ok answer = rw e at h in absurd (cc)
        | inr (inr e) ↦ let no : hang ≡ ok answer = rw e at h in absurd (cc)
      ]

  chat_rounds-Appends : (left n : ℕ) → Appends left (chat_rounds loads dumps router ask left n)
  unfolding chat_rounds
  chat_rounds-Appends zero n c answer h = ([], sym (append-nil c.messages), over)
  chat_rounds-Appends (suc left) n c answer h = elim (Result-cases (ask n c.messages)) [
    | inl (msg, e) ↦ rw e (
        after_answer-Appends left msg.content msg.tool_calls
          (chat_rounds loads dumps router ask left (suc n)) (chat_rounds-Appends left (suc n)) c
          answer (rw e at h))
    | inr (inl (m, e)) ↦ let no : err m ≡ ok answer = rw e at h in absurd (cc)
    | inr (inr e) ↦ let no : hang ≡ ok answer = rw e at h in absurd (cc)
  ]

  -- When the chat returns an answer, it has appended to the messages at most as many rounds as are
  -- allowed, each a message of the assistant and then one answer to each of its calls, in their
  -- order, with the call's id and name.
  pub chat_with_tools_native-Exchange :
      (max_rounds : ℕ) (c : Chat S) (answer : String)
      → (chat_with_tools_native loads dumps router ask max_rounds c).0 ≡ ok answer
      → (new : List Message) × ((chat_with_tools_native loads dumps router ask max_rounds
            c).1.messages
          ≡ c.messages ++ new)
        × Exchange max_rounds new
  unfolding chat_with_tools_native
  chat_with_tools_native-Exchange max_rounds = chat_rounds-Appends max_rounds 0
