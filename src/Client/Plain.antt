-- ===== src/Client/Plain.antt =====
-- The methods of AgentDBClient for single reads and for plain transactions.
use dbagent_tree.Prelude.{
  ℕ, zero, suc, String, ◌++◌, not, ◌&&◌, Option, none, some, List, [], ◌∷◌, str_nat, length,
  if◌then◌else◌,
}
use dbagent_tree.Exec.{
  Result, ok, err, hang, Exec, pure, raise, lift, raise_if, modify, ◌>>=◌, ◌>>◌, catch, finally,
}
use dbagent_tree.Mini
use dbagent_tree.Mini.{MiniDb, Dump}
use dbagent_tree.Text.Hex.{hex_encode}
use dbagent_tree.Text.Words.{join_space}
use dbagent_tree.Client.Session.{Session, Dial, open_session, request, close}
use dbagent_tree.Client.Protocol.{mentions, is_ok, is_not_found, is_abort, extract_value_payload}
use dbagent_tree.Client.State.{
  Client, on_mini, by_backend, require_session, set_session, ask, end_session,
}

abbrev pub ⊤ : Type 0
⊤ = Unit

-- `fails "GET" resp` is the message `"GET failed: …"`.
abbrev pub fails : String → String → String
fails cmd resp = cmd ++ (" failed: " ++ resp)

-- `except Exception: if self.allow_fallback: return …; raise`
abbrev pub or_fallback : {A : Type 0} → Exec MiniDb A → Exec Client A → Exec Client A
or_fallback mini m = catch m (λ msg c. if c.allow_fallback then on_mini mini c else raise msg c)

-- What an answer to GET says.
abbrev pub value_answer : String → String → Result (Option String)
value_answer cmd resp =
    if is_not_found resp
    then ok none
    else elim (extract_value_payload resp) [ none ↦ err (fails cmd resp) | some v ↦ ok (some v) ]

-- One round of `kv_get` in its session: an answer, or the abort that asks for another round.
pub data Round : Type 0 where
  answer : Option String → Round
  aborted : String → Round

abbrev pub as_round : Result (Option String) → Result Round
as_round (ok v) = ok (answer v)
as_round (err m) = err m
as_round hang = hang

unfoldable pub kv_round : String → Exec Session Round
kv_round key =
    finally
      (do
        resp ← request "START"
        raise_if (not (is_ok resp)) (fails "START" resp)
        resp ← request ("GET " ++ key)
        if is_abort resp
            then pure (aborted (fails "GET" resp))
            else lift (as_round (value_answer "GET" resp)))
      (catch (do request "ABORT"; pure tt) (λ _. pure tt) >> close)

-- The sessions of the rounds are dialled one after the other, and end with their round.
abbrev pub dial_round : String → Dial → Result Round
dial_round key dial = elim (open_session dial) [
  | ok s ↦ (kv_round key s).0
  | err m ↦ err m
  | hang ↦ hang
]

-- `for attempt in range(10)`, with `last_exc`, from the round `attempt` on.
unfoldable pub kv_rounds : ℕ → ℕ → (ℕ → Dial) → String → Option String → Result (Option String)
kv_rounds zero attempt dials key none = err "GET failed after retries"
kv_rounds zero attempt dials key (some m) = err m
kv_rounds (suc left) attempt dials key last =
    let again = λ (m : String). kv_rounds left (suc attempt) dials key (some m) in
    elim (dial_round key (dials attempt)) [
      | ok (answer v) ↦ ok v
      | ok (aborted m) ↦ again m
      | err m ↦ err m
      | hang ↦ hang
    ]

-- `dials n` is what connecting gives in round n.
unfoldable pub kv_get : (ℕ → Dial) → String → Exec Client (Option String)
kv_get dials key =
    by_backend (Mini.kv_get key)
      (or_fallback (Mini.kv_get key) (lift (kv_rounds 10 0 dials key none)))

-- `session = self._open_session(); resp = session.request(cmd)`, with the check of the answer. A
-- session whose answer is refused is closed, and nothing keeps it.
unfoldable pub begin_session : String → Dial → Result Session
begin_session cmd dial = elim (open_session dial) [
  | ok s ↦
      let (r, s') = request cmd s in
      elim r [
        | ok resp ↦ (if is_ok resp then ok s' else err (fails cmd resp))
        | err m ↦ err m
        | hang ↦ hang
      ]
  | err m ↦ err m
  | hang ↦ hang
]

-- `tx_id` is what `uuid.uuid4` draws, in this client or in the in-memory database.
unfoldable pub start : Dial → String → Exec Client String
start dial tx_id = by_backend (Mini.start tx_id) (
    or_fallback (Mini.start tx_id)
      (do s ← lift (begin_session "START" dial); modify (set_session tx_id s); pure tx_id))

unfoldable pub get : String → String → Exec Client (Option String)
get tx_id key = by_backend (Mini.get tx_id key) (do
  s ← require_session tx_id
  resp ← ask tx_id s ("GET " ++ key)
  lift (value_answer "GET" resp))

unfoldable pub put : String → String → String → Exec Client ⊤
put tx_id key value = by_backend (Mini.put tx_id key value) (do
  s ← require_session tx_id
  resp ← ask tx_id s ("PUT " ++ (key ++ (" " ++ value)))
  raise_if (not (is_ok resp)) (fails "PUT" resp))

unfoldable pub mini_puts : String → List (String × String) → Exec MiniDb ⊤
mini_puts tx_id [] = pure tt
mini_puts tx_id ((key, value) ∷ requests) = Mini.put tx_id key value >> mini_puts tx_id requests

unfoldable pub put_parts : List (String × String) → List String
put_parts [] = []
put_parts ((key, value) ∷ requests) = key ∷ hex_encode value ∷ put_parts requests

unfoldable pub put_many : String → List (String × String) → Exec Client ⊤
put_many tx_id requests = by_backend (mini_puts tx_id requests) (do
  s ← require_session tx_id
  resp ← ask tx_id s (join_space ("PUTMANY" ∷ str_nat (length requests) ∷ put_parts requests))
  raise_if (not (is_ok resp)) (fails "PUTMANY" resp))

unfoldable pub commit : String → Exec Client ⊤
commit tx_id = by_backend (Mini.commit tx_id) (do
  s ← require_session tx_id
  finally (do resp ← ask tx_id s "COMMIT"; raise_if (not (is_ok resp)) (fails "COMMIT" resp))
      (end_session tx_id))

unfoldable pub rollback : String → Exec Client ⊤
rollback tx_id = by_backend (Mini.rollback tx_id) (do
  s ← require_session tx_id
  finally
      (do
        resp ← ask tx_id s "ABORT"
        raise_if (not (is_ok resp) && not (mentions resp "NO_ACTIVE_TXN")) (fails "ABORT" resp))
      (end_session tx_id))

-- `dump_all`: the in-memory database's answer, or the error that the socket backend gives.
unfoldable pub dump_all : Exec Client (Option Dump)
dump_all c = by_backend (do d ← Mini.dump_all; pure (some d)) (pure none) c
