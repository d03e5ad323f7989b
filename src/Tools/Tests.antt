-- ===== src/Tools/Tests.antt =====
-- The tools of Agent/tools and their router at concrete inputs, with ℤ for Python's floats.
use native.Mathlib.Decide.{dec_lt}
use dbagent_tree.Prelude.{
  String, ◌≡◌, refl, true, false, none, some, [], ◌∷◌, ℤ, pos, int_eq, string_eq, ◌==◌,
  if◌then◌else◌,
}
use dbagent_tree.Dict.{lookup, is_some}
use dbagent_tree.Exec.{ok}
use dbagent_tree.Mini.{empty}
use dbagent_tree.Mini.Invariant.{IsValid}
use dbagent_tree.Client.Session.{refused}
use dbagent_tree.Client.State.{Client, using_mini}
use dbagent_tree.Text.Words.{strip}
use dbagent_tree.Text.Codes.{from_codes}
use dbagent_tree.Tools.Json.{Fields, null, bool, str, fields, field?, field_or}
use dbagent_tree.Tools.Python.{Python, stripped, text_or, str_of}
use dbagent_tree.Tools.Reply.{ok_reply, err_reply}
use dbagent_tree.Tools.Tx.{submit_final_answer}
use dbagent_tree.Tools.TreeTx
use dbagent_tree.Tools.Router.{Surroundings, tool_named, tool_router}
use dbagent_tree.Tools.Submit.{submit_final_answer_lem, submitted_key}
use dbagent_tree.Tools.Dispatch.{schema_of, schema-tool_named, tool_router-unknown}

abbrev py : Python ℤ
py = record {
  float_of_int = λ n. some n;
  float_of_str = λ s. none;
  int_of_float = λ n. some n;
  float_is_zero = λ n. n == pos 0;
  str_float = λ n. "0.0";
  repr = λ j. "{}";
  dumps = λ j. "{}";
  loads = λ s. none;
}

abbrev net : Surroundings
net = record {
  dial = refused "no route";
  dials = λ m n. refused "no route";
  uuid = "u";
  files = record {
    is_absolute = λ p. true;
    in_agent = λ p. p;
    exists = λ p. false;
    path_text = λ p. p;
  };
}

abbrev client : Client
client = record {
  backend = "mini";
  host = "127.0.0.1";
  port = pos 19091;
  allow_fallback = false;
  mini = empty;
  sessions = [];
  tree_sessions = [];
}

empty-IsValid : IsValid empty
unfolding lookup
empty-IsValid = record { stored = tt; txs = λ t tx e. cc; trees = λ t ctx e. cc }

abbrev answer_args : Fields ℤ
answer_args = fields (("key", str "task:1:answer:final") ∷ ("value", str "[]") ∷ [])

key_given : (submitted_key py net.dial net.uuid answer_args client == "") ≡ false
unfolding stripped text_or str_of field? field_or strip from_codes dec_lt
key_given = refl

submit_final_answer_lem_example :
    let (r, c') = submit_final_answer py net.dial net.uuid answer_args client in
    (r
      ≡ ok (
          ok_reply (
            ("key", str (stripped py "key" answer_args))
            ∷ ("value", str (text_or py "value" "" answer_args))
            ∷ ("committed", bool true)
            ∷ [])))
    × ((j : String)
        → lookup j c'.mini.store ≡ (
            if j == stripped py "key" answer_args
            then some (text_or py "value" "" answer_args)
            else lookup j empty.store))
    × IsValid c'.mini
submit_final_answer_lem_example =
    submit_final_answer_lem py net.dial net.uuid answer_args client (unfold using_mini in refl)
      key_given empty-IsValid

-- `{"tx_id": "t", "branch_id": None}`
abbrev bad_args : Fields ℤ
bad_args = fields (("tx_id", str "t") ∷ ("branch_id", null) ∷ [])

abbrev message : String
message = "int() argument must be a string or a number"

schema-tool_named_example : is_some (schema_of "kv_dump") ≡ is_some (tool_named "kv_dump")
schema-tool_named_example = schema-tool_named "kv_dump"

tool_router-unknown_example :
    tool_router py net "rm" answer_args client ≡ (ok (err_reply "unknown tool: rm" []), client)
tool_router-unknown_example =
    tool_router-unknown py net answer_args client "rm" (unfold schema_of in refl)
