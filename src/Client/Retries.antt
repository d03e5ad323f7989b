-- ===== src/Client/Retries.antt =====
-- `tree_commit_retry` of AgentDBClient against what the server answers to TCOMMIT_RETRY.
use dbagent_tree.Prelude.{
  String, ◌++◌, ◌≡◌, refl, ap, ◌∙◌, Bool, true, false, Option, none, some, Bool-cases, inl, inr,
  string_eq, nat_eq, if◌then◌else◌,
}
use dbagent_tree.Dict.{lookup, insert}
use dbagent_tree.Dict.Laws.{lookup-erase_self, lookup-insert_self, lookup-contains}
use dbagent_tree.Exec.{Result, ok, err}
use dbagent_tree.Text.Codes.{codes-append, from_codes, from_codes-codes}
use dbagent_tree.Text.Words.{after_spaces}
use dbagent_tree.Client.Session.{Session, request}
use dbagent_tree.Client.Protocol.{mentions, is_ok, is_abort}
use dbagent_tree.Client.State.{Client, using_mini, require_tree_session}
use dbagent_tree.Client.Ending.{
  CommitReply, committed, aborted, abort_reason, retry_answer, tree_commit_retry, settle_retry,
}
use dbagent_tree.Client.Values.{upper-append}

-- The server's answers: the commit, a conflict with or without its reason, and its two errors.
pub data Answer : Type 0 where
  done : Answer
  conflict : String → Answer
  conflict_without_reason : Answer
  no_tree : Answer
  failed : Answer

-- How `session.cpp` sends them.
abbrev pub text_of : Answer → String
text_of done = "OK COMMIT"
text_of (conflict reason) = "ERR ABORT " ++ reason
text_of conflict_without_reason = "ERR ABORT"
text_of no_tree = "ERR NO_ACTIVE_TREE_TXN"
text_of failed = "ERR TCOMMIT_RETRY_FAIL"

-- What the caller gets for them.
abbrev pub reply_to : Answer → Result (Option CommitReply)
reply_to done = ok (some committed)
reply_to (conflict reason) = ok (some (aborted reason ("ERR ABORT " ++ reason)))
reply_to conflict_without_reason = ok (some (aborted "" "ERR ABORT"))
reply_to no_tree = err "TCOMMIT_RETRY failed: ERR NO_ACTIVE_TREE_TXN"
reply_to failed = err "TCOMMIT_RETRY failed: ERR TCOMMIT_RETRY_FAIL"

-- Whether the session is over: after a commit, and after a conflict whose reason mentions OK.
abbrev pub ends : Answer → Bool
ends done = true
ends (conflict reason) = mentions reason "OK"
ends _ = false

abort_reason-conflict : (reason : String) → abort_reason ("ERR ABORT " ++ reason) ≡ reason
unfolding abort_reason after_spaces
abort_reason-conflict reason =
    ap (λ cs. elim (after_spaces 2 cs) [ none ↦ "" | some left ↦ from_codes left ])
      (codes-append "ERR ABORT " reason)
    ∙ from_codes-codes reason

retry_answer-reply_to : (a : Answer) → retry_answer (ok (text_of a)) ≡ reply_to a
unfolding retry_answer is_ok is_abort
retry_answer-reply_to done = refl
retry_answer-reply_to (conflict reason) =
    rw (upper-append "ERR ABORT " reason)
      (ap (λ r. ok (some (aborted r ("ERR ABORT " ++ reason)))) (abort_reason-conflict reason))
retry_answer-reply_to conflict_without_reason =
    ap (λ r. ok (some (aborted r "ERR ABORT"))) (unfold abort_reason after_spaces in refl)
retry_answer-reply_to no_tree = refl
retry_answer-reply_to failed = refl

mentions-ends : (a : Answer) → mentions (text_of a) "OK" ≡ ends a
mentions-ends done = refl
mentions-ends (conflict reason) = rw (upper-append "ERR ABORT " reason) refl
mentions-ends conflict_without_reason = refl
mentions-ends no_tree = refl
mentions-ends failed = refl

-- Over the socket, whatever of its answers the server gives to TCOMMIT_RETRY: the caller is told of
-- the commit, or of the conflict with its reason, or gets the exception with the server's error; and
-- the session stays for another try unless the commit is done or the reason mentions OK.
pub tree_commit_retry_lem :
    (t : String) (c : Client) (s s' : Session) (a : Answer)
    → using_mini c ≡ false
    → lookup t c.tree_sessions ≡ some s
    → request "TCOMMIT_RETRY" s ≡ (ok (text_of a), s')
    → ((tree_commit_retry t c).0 ≡ reply_to a)
      × (lookup t (tree_commit_retry t c).1.tree_sessions ≡ (if ends a then none else some s'))
unfolding tree_commit_retry settle_retry require_tree_session
tree_commit_retry_lem t c s s' a socket e r =
    let here =
      lookup-contains t s' (insert t s' c.tree_sessions)
        (lookup-insert_self t s' c.tree_sessions) in
    let same = mentions-ends a in
    rw socket (
      rw e (
        rw r (
          rw here (elim (Bool-cases (ends a)) [
            | inl over ↦
                let m : mentions (text_of a) "OK" ≡ true = same ∙ over in
                rw (m, over)
                  (retry_answer-reply_to a, lookup-erase_self t (insert t s' c.tree_sessions))
            | inr open_still ↦
                let m : mentions (text_of a) "OK" ≡ false = same ∙ open_still in
                rw (m, open_still)
                  (retry_answer-reply_to a, lookup-insert_self t s' c.tree_sessions)
          ]))))
