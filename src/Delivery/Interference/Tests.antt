-- ===== src/Delivery/Interference/Tests.antt =====
-- A bump of the hotspot key on the in-memory backend.
use native.Mathlib.Decide.{dec_lt}
use dbagent_tree.Prelude.{◌≡◌, refl, String, true, false, [], ◌∷◌, ℤ, pos, string_eq}
use dbagent_tree.Dict.{lookup, insert, erase, update, contains}
use dbagent_tree.Exec.{ok}
use dbagent_tree.Mini
use dbagent_tree.Client.Session.{refused, open_session}
use dbagent_tree.Client.State.{Client, using_mini}
use dbagent_tree.Client.Plain
use dbagent_tree.Text.Codes.{from_codes}
use dbagent_tree.Text.Words.{strip}
use dbagent_tree.Tools.Json.{field?, field_or, set_field, update_fields}
use dbagent_tree.Tools.Python.{truthy, str_of, text_or, stripped}
use dbagent_tree.Tools.Reply.{ok_reply, err_reply}
use dbagent_tree.Tools.Tx
use dbagent_tree.Tools.Router.{run_tool}
use dbagent_tree.Delivery.Interference.{
  Instant, hotspot_payload_bump, bump_put, bump_body, bump_started, bump_rounds, bump_hotspot_once,
}
use dbagent_tree.Delivery.AnswerTests.{py, fl}

abbrev instant : Instant ℤ
instant = record {
  net = record {
    dial = refused "no route";
    dials = λ k m. refused "no route";
    uuid = "u";
    files = record {
      is_absolute = λ p. true;
      in_agent = λ p. p;
      exists = λ p. false;
      path_text = λ p. p;
    };
  };
  nonce = "n";
  clock = pos 7;
}

abbrev client : String → Client
client backend = record {
  backend = backend;
  host = "127.0.0.1";
  port = pos 19091;
  allow_fallback = false;
  mini = Mini.empty;
  sessions = [];
  tree_sessions = [];
}

-- The key has the new value, and no transaction is left.
bumped :
    bump_hotspot_once py fl (λ n. instant) "hot" (client "mini")
    ≡ (ok true, record (client "mini") { mini = record Mini.empty { store = ("hot", "[…]") ∷ [] } })
unfolding bump_hotspot_once bump_rounds bump_started bump_body bump_put hotspot_payload_bump
    run_tool Tx.tx_start Tx.tx_get Tx.tx_put Tx.tx_commit Tx.tx_rollback Plain.start Plain.get
    Plain.put Plain.commit Plain.rollback Mini.start Mini.get Mini.put Mini.commit Mini.rollback
    Mini.require_tx using_mini lookup insert erase update contains stripped text_or str_of truthy
    strip from_codes field? field_or set_field update_fields ok_reply err_reply dec_lt
bumped = refl

-- Without a server three rounds fail.
not_bumped : bump_hotspot_once py fl (λ n. instant) "hot" (client "tcp") ≡ (ok false, client "tcp")
unfolding bump_hotspot_once bump_rounds bump_started run_tool Tx.tx_start Plain.start using_mini
    str_of truthy field? field_or set_field update_fields ok_reply err_reply Plain.begin_session
    open_session
not_bumped = refl
