-- ===== src/Tools/Tx.antt =====
-- The tools for single keys and for plain transactions, in Agent/tools/kv_tools.py. `dials` and
-- `uuid` are what the network and `uuid.uuid4` give to the calls of the client.
use dbagent_tree.Prelude.{
  ℕ, String, Bool, true, false, ◌||◌, Option, none, some, List, [], ◌∷◌, pos, string_eq, ◌==◌,
  if◌then◌else◌,
}
use dbagent_tree.Exec.{Result, ok, err, hang, Exec, pure, lift, ◌>>=◌, ◌>>◌, catch}
use dbagent_tree.Mini.{Dump}
use dbagent_tree.Dict.{Dict}
use dbagent_tree.Client.Session.{Dial}
use dbagent_tree.Client.State.{Client}
use dbagent_tree.Client.Plain
use dbagent_tree.Tools.Json.{Json, Fields, bool, int, str, object, fields}
use dbagent_tree.Tools.Python.{Python, stripped, text_or}
use dbagent_tree.Tools.Reply.{ok_reply, err_reply, or_null, found}

abbrev pub Reply : Type 0 → Type 0
Reply F = Exec Client (Fields F)

-- `not text`
abbrev pub is_empty : String → Bool
is_empty text = text == ""

-- `try: … except Exception as exc: return _err(str(exc), …)`
abbrev pub attempt : {F : Type 0} → List (String × Json F) → Reply F → Reply F
attempt extra m = catch m (λ message. pure (err_reply message extra))

-- `if missing: return _err(message)`
abbrev pub unless : {F : Type 0} → Bool → String → Reply F → Reply F
unless missing message m = if missing then pure (err_reply message []) else m

module _ {F : Type 0} (py : Python F) where
  unfoldable pub kv_get : (ℕ → Dial) → Fields F → Reply F
  kv_get dials args =
      let key = stripped py "key" args in
      unless (is_empty key) "missing key" (
        attempt (("key", str key) ∷ []) (do
          value ← Plain.kv_get dials key
          pure (
              ok_reply
                (("key", str key) ∷ ("value", or_null value) ∷ ("found", found value) ∷ []))))

  unfoldable pub tx_start : Dial → String → Fields F → Reply F
  tx_start dial uuid args =
      attempt [] (do tx_id ← Plain.start dial uuid; pure (ok_reply (("tx_id", str tx_id) ∷ [])))

  unfoldable pub tx_get : Fields F → Reply F
  tx_get args =
      let tx_id = stripped py "tx_id" args in
      let key = stripped py "key" args in
      unless (is_empty tx_id || is_empty key) "missing tx_id or key" (
        attempt (("tx_id", str tx_id) ∷ ("key", str key) ∷ []) (do
          value ← Plain.get tx_id key
          pure (
              ok_reply (
                ("tx_id", str tx_id)
                ∷ ("key", str key)
                ∷ ("value", or_null value)
                ∷ ("found", found value)
                ∷ []))))

  unfoldable pub tx_put : Fields F → Reply F
  tx_put args =
      let tx_id = stripped py "tx_id" args in
      let key = stripped py "key" args in
      let value = text_or py "value" "" args in
      unless (is_empty tx_id || is_empty key) "missing tx_id or key" (
        attempt (("tx_id", str tx_id) ∷ ("key", str key) ∷ []) (
          Plain.put tx_id key value
          >> pure (ok_reply (("tx_id", str tx_id) ∷ ("key", str key) ∷ ("value", str value) ∷ []))))

  unfoldable pub tx_commit : Fields F → Reply F
  tx_commit args =
      let tx_id = stripped py "tx_id" args in
      unless (is_empty tx_id) "missing tx_id" (
        attempt (("tx_id", str tx_id) ∷ []) (
          Plain.commit tx_id
          >> pure (ok_reply (("tx_id", str tx_id) ∷ ("committed", bool true) ∷ []))))

  unfoldable pub tx_rollback : Fields F → Reply F
  tx_rollback args =
      let tx_id = stripped py "tx_id" args in
      unless (is_empty tx_id) "missing tx_id" (
        attempt (("tx_id", str tx_id) ∷ []) (
          Plain.rollback tx_id
          >> pure (ok_reply (("tx_id", str tx_id) ∷ ("rolled_back", bool true) ∷ []))))

  -- The `try` of `submit_final_answer`; `tx_id` stays empty until `start` has returned.
  unfoldable pub submit_under : String → String → String → Reply F
  submit_under tx_id key value =
      catch
        (Plain.put tx_id key value
          >> Plain.commit tx_id
          >> pure
              (ok_reply (("key", str key) ∷ ("value", str value) ∷ ("committed", bool true) ∷ [])))
        (λ message.
          (if is_empty tx_id then pure tt else catch (Plain.rollback tx_id) (λ _. pure tt))
          >> pure (err_reply message (("key", str key) ∷ [])))

  -- What follows the call of `start` in that `try`.
  abbrev pub submit_begun : String → String → Result String → Reply F
  submit_begun key value (ok tx_id) = submit_under tx_id key value
  submit_begun key value (err message) = pure (err_reply message (("key", str key) ∷ []))
  submit_begun key value hang = lift hang

  unfoldable pub submit_final_answer : Dial → String → Fields F → Reply F
  submit_final_answer dial uuid args =
      let key = stripped py "key" args in
      let value = text_or py "value" "" args in
      unless (is_empty key) "missing key"
        (λ c. let (r, c') = Plain.start dial uuid c in submit_begun key value r c')

  abbrev entries_of : Dict String String → List (String × Json F)
  entries_of [] = []
  entries_of ((k, v) ∷ d) = (k, str v) ∷ entries_of d

  -- The dicts that `dump_all` returns, for the two backends.
  abbrev dump_reply : Option Dump → Fields F
  dump_reply (some d) = fields (
      ("ok", bool d.ok)
      ∷ ("data", object (fields (entries_of d.contents)))
      ∷ ("size", int (pos d.entries))
      ∷ [])
  dump_reply none = fields (
      ("ok", bool false)
      ∷ ("error", str "kv_dump is not supported by the Tree-DB socket server")
      ∷ ("backend", str "socket")
      ∷ ("hint", str "如需本地调试全量 KV，可设置 TREE_DB_BACKEND=mini 或后续补一个服务端 DUMP 命令。")
      ∷ [])

  unfoldable pub kv_dump : Fields F → Reply F
  kv_dump args = attempt [] (do d ← Plain.dump_all; pure (dump_reply d))
