-- ===== src/Client/Ending.antt =====
-- The methods of AgentDBClient that end a tree transaction.
use dbagent_tree.Prelude.{String, not, ◌&&◌, Option, none, some, if◌then◌else◌, string_eq}
use dbagent_tree.Dict.{contains}
use dbagent_tree.Exec.{Result, ok, err, hang, Exec, pure, raise_if, ◌>>=◌, ◌>>◌, finally}
use dbagent_tree.Mini.Branches
use dbagent_tree.Text.Codes.{codes, from_codes}
use dbagent_tree.Text.Words.{after_spaces}
use dbagent_tree.Client.Protocol.{mentions, is_ok, is_abort}
use dbagent_tree.Client.State.{Client, by_backend, require_tree_session, ask_tree, end_tree_session}
use dbagent_tree.Client.Plain.{⊤, fails}

unfoldable pub tree_commit : String → Exec Client ⊤
tree_commit tx_id = by_backend (Branches.tcommit tx_id) (do
  s ← require_tree_session tx_id
  finally (do resp ← ask_tree tx_id s "TCOMMIT"; raise_if (not (is_ok resp)) (fails "TCOMMIT" resp))
      (end_tree_session tx_id))

-- The dict that `tree_commit_retry` returns: with "committed" true, or with the reason and the
-- response of an abort.
pub data CommitReply : Type 0 where
  committed : CommitReply
  aborted : String → String → CommitReply

abbrev reason_of : Option String → String
reason_of none = ""
reason_of (some r) = r

-- `resp.split(" ", 2)[2]`, or the empty text.
unfoldable pub abort_reason : String → String
abort_reason resp = elim (after_spaces 2 (codes resp)) [ none ↦ "" | some cs ↦ from_codes cs ]

unfoldable pub retry_answer : Result String → Result (Option CommitReply)
retry_answer (ok resp) =
    if is_ok resp
    then ok (some committed)
    else if is_abort resp
    then ok (some (aborted (abort_reason resp) resp))
    else err (fails "TCOMMIT_RETRY" resp)
retry_answer (err m) = err m
retry_answer hang = hang

-- `locals().get("resp", "")`
abbrev answered : Result String → String
answered (ok resp) = resp
answered _ = ""

-- The `finally` block: a `return` there drops the result and any exception.
unfoldable pub settle_retry : String → Result String → Client → Result (Option CommitReply) × Client
settle_retry tx_id r c =
    if not (contains tx_id c.tree_sessions)
    then (ok none, c)
    else if mentions (answered r) "OK"
    then (retry_answer r, (end_tree_session tx_id c).1)
    else (retry_answer r, c)

unfoldable pub tree_commit_retry : String → Exec Client (Option CommitReply)
unfolding settle_retry
tree_commit_retry tx_id =
    by_backend (do Branches.tcommit_retry tx_id; pure (some committed))
      (do
        s ← require_tree_session tx_id
        λ c. let (r, c') = ask_tree tx_id s "TCOMMIT_RETRY" c in settle_retry tx_id r c')

unfoldable pub tree_abort : String → Exec Client ⊤
tree_abort tx_id = by_backend (Branches.tabort tx_id) (do
  s ← require_tree_session tx_id
  finally
      (do
        resp ← ask_tree tx_id s "ABORT"
        raise_if
            (not (is_ok resp)
              && (not (mentions resp "NO_ACTIVE_TREE_TXN") && not (mentions resp "NO_ACTIVE_TXN")))
            (fails "tree ABORT" resp))
      (end_tree_session tx_id))
