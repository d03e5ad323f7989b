-- ===== src/Client/Tests.antt =====
-- The client of Agent/db_client.py at concrete inputs.
use mathlib.Core.List.{◌++◌ as append}
use native.Mathlib.Decide.{dec_lt}
use dbagent_tree.Prelude.{
  ℕ, zero, suc, ◌<◌, String, ◌++◌, ◌≡◌, refl, ◌⊎◌, true, false, none, some, List, [], ◌∷◌, arith,
  pos, string_eq, if◌then◌else◌,
}
use dbagent_tree.Dict.{lookup}
use dbagent_tree.Exec.{ok}
use dbagent_tree.Mini
use dbagent_tree.Mini.{empty}
use dbagent_tree.Text.Codes.{codes, from_codes}
use dbagent_tree.Text.Utf8.{decode_replace, encode_codes}
use dbagent_tree.Text.Words.{strip, rstrip_by, is_space}
use dbagent_tree.Client.Session.{
  Session, Event, chunk, Dial, accepted, refused, fresh, cut_line, read_loop, read_bytes, readline,
  request, open_session, close,
}
use dbagent_tree.Client.Protocol.{is_ok, is_not_found, is_abort, extract_value_payload}
use dbagent_tree.Client.State.{Client, using_mini}
use dbagent_tree.Client.Plain.{
  get, start, commit, rollback, kv_get, kv_round, dial_round, answer, aborted,
}
use dbagent_tree.Client.Ending.{tree_commit_retry}
use dbagent_tree.Client.Retries.{conflict, reply_to, ends, tree_commit_retry_lem}
use dbagent_tree.Client.Reading.{joined, first_line, left_over, read_loop_lem}
use dbagent_tree.Client.Values.{read_back, get-Receives}
use dbagent_tree.Client.Sessions.{commit_ends, start_falls_back, kv_get_retries}

abbrev two_chunks : List Event
two_chunks = chunk (79 ∷ []) ∷ chunk (75 ∷ 10 ∷ 65 ∷ []) ∷ []

read_loop_lem_example :
    ((read_loop two_chunks []).0 ≡ first_line (cut_line (79 ∷ 75 ∷ 10 ∷ 65 ∷ [])))
    × (append (read_loop two_chunks []).2 (joined (read_loop two_chunks []).1)
        ≡ left_over (79 ∷ 75 ∷ 10 ∷ 65 ∷ []) (cut_line (79 ∷ 75 ∷ 10 ∷ 65 ∷ [])))
read_loop_lem_example = read_loop_lem two_chunks [] tt

abbrev line : String → Event
line text = chunk (codes (text ++ "\n"))

-- A session whose server has an abort to send.
abbrev stale : Session
stale = fresh (line "ERR ABORT STALE k" ∷ [])

-- A session that has the line of a value before it, in two chunks.
abbrev reading : Session
reading = fresh (chunk (codes "OK VAL") ∷ chunk (codes "UE on it \n") ∷ [])

abbrev client : Client
client = record {
  backend = "socket";
  host = "127.0.0.1";
  port = pos 19091;
  allow_fallback = true;
  mini = empty;
  sessions = ("p", fresh []) ∷ ("g", reading) ∷ [];
  tree_sessions = ("t", stale) ∷ [];
}

over_socket : using_mini client ≡ false
unfolding using_mini
over_socket = refl

commit_ends_example :
    (lookup "p" (commit "p" client).1.sessions ≡ none)
    × (lookup "p" (rollback "p" client).1.sessions ≡ none)
commit_ends_example = commit_ends "p" client over_socket

start_falls_back_example :
    ((start (refused "no route") "n" client).0 ≡ ok "n")
    × (((s : Session) × (lookup "n" (start (refused "no route") "n" client).1.sessions ≡ some s))
        ⊎ ((start (refused "no route") "n" client).1.mini ≡ (Mini.start "n" empty).1))
start_falls_back_example = start_falls_back "n" client over_socket (refused "no route") refl

asked : Session
asked = (request "TCOMMIT_RETRY" stale).1

stale_answer : request "TCOMMIT_RETRY" stale ≡ (ok "ERR ABORT STALE k", asked)
unfolding asked request readline read_bytes read_loop cut_line decode_replace from_codes strip
    dec_lt
stale_answer = refl

tree_commit_retry_lem_example :
    ((tree_commit_retry "t" client).0 ≡ reply_to (conflict "STALE k"))
    × (lookup "t" (tree_commit_retry "t" client).1.tree_sessions
        ≡ (if ends (conflict "STALE k") then none else some asked))
tree_commit_retry_lem_example =
    tree_commit_retry_lem "t" client stale asked (conflict "STALE k") over_socket
      (unfold lookup in refl) stale_answer

-- A session that has the line of a value before it, in two chunks.
get-Receives_example : (get "g" "k" client).0 ≡ read_back (rstrip_by is_space "on it ")
unfolding cut_line encode_codes
get-Receives_example =
    get-Receives "g" "k" "on it " client reading over_socket (unfold lookup in refl)
      (refl, tt, ([], refl))

-- The first round is aborted, the second answers.
abbrev dials : ℕ → Dial
dials zero = accepted (line "HELLO" ∷ line "OK" ∷ line "ABORT conflict" ∷ line "OK" ∷ [])
dials (suc n) = accepted (line "HELLO" ∷ line "OK" ∷ line "OK VALUE v" ∷ line "OK" ∷ [])

first_round : dial_round "k" (dials 0) ≡ ok (aborted "GET failed: ABORT conflict")
unfolding open_session kv_round request readline read_bytes read_loop cut_line decode_replace
    from_codes strip dec_lt is_ok is_abort close
first_round = refl

second_round : dial_round "k" (dials 1) ≡ ok (answer (some "v"))
unfolding open_session kv_round request readline read_bytes read_loop cut_line decode_replace
    from_codes strip dec_lt is_ok is_abort is_not_found extract_value_payload close
second_round = refl

earlier_rounds : (i : ℕ) → i < 1 → (m : String) × (dial_round "k" (dials i) ≡ ok (aborted m))
earlier_rounds zero lt = ("GET failed: ABORT conflict", first_round)
earlier_rounds (suc i) lt = absurd (omega arith)

kv_get_retries_example : kv_get dials "k" client ≡ (ok (some "v"), client)
kv_get_retries_example =
    kv_get_retries 1 dials "k" (some "v") client over_socket (omega arith) earlier_rounds
      second_round
