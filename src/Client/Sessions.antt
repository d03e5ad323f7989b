-- ===== src/Client/Sessions.antt =====
-- The life of a session in AgentDBClient, the fallback, and the retries of `kv_get`.
use dbagent_tree.Prelude.{
  ℕ, zero, suc, ◌+◌, ◌<◌, String, ◌≡◌, refl, List, [], ◌∷◌, ◌⊎◌, inl, inr, true, false, Option,
  none, some, arith, string_eq, Bool-cases, Option-cases,
}
use dbagent_tree.Dict.{lookup}
use dbagent_tree.Dict.Laws.{lookup-erase_self, lookup-insert_self}
use dbagent_tree.Exec.{Result, ok, err}
use dbagent_tree.Mini
use mathlib.Core.List.{◌++◌}
use dbagent_tree.Client.Session.{
  Session, Dial, Event, chunk, fault, accepted, refused, fresh, cut_line, taken, read_loop,
  read_bytes, readline, request, open_session,
}
use dbagent_tree.Client.Protocol.{is_ok}
use dbagent_tree.Client.State.{Client, using_mini, require_session}
use dbagent_tree.Client.Plain.{
  begin_session, start, commit, rollback, kv_get, kv_rounds, dial_round, answer, aborted,
}

-- Reading a line ends: with a text, or with an exception.
abbrev Settles : {A : Type 0} → Result A → Type 0
Settles {A} r = ((a : A) × (r ≡ ok a)) ⊎ ((m : String) × (r ≡ err m))

taken-Settles :
    (inbox : List Event) (o : Option (List ℕ × List ℕ))
    (otherwise : Result (List ℕ) × List Event × List ℕ)
    → Settles otherwise.0
    → Settles (taken inbox o otherwise).0
taken-Settles inbox none otherwise h = h
taken-Settles inbox (some (line, rest)) otherwise h = inl (line, refl)

read_loop-Settles : (es : List Event) (buf : List ℕ) → Settles (read_loop es buf).0
unfolding read_loop
read_loop-Settles [] buf = taken-Settles [] (cut_line buf) _ (inr (_, refl))
read_loop-Settles (fault m ∷ es) buf = taken-Settles (fault m ∷ es) (cut_line buf) _ (inr (m, refl))
read_loop-Settles (chunk [] ∷ es) buf =
    taken-Settles (chunk [] ∷ es) (cut_line buf) _ (inr (_, refl))
read_loop-Settles (chunk (b ∷ bs) ∷ es) buf =
    taken-Settles (chunk (b ∷ bs) ∷ es) (cut_line buf) _ (read_loop-Settles es (buf ++ (b ∷ bs)))

readline-Settles : (s : Session) → Settles (readline s).0
unfolding readline read_bytes
readline-Settles s = elim (Bool-cases s.connected) [
  | inr off ↦ rw off (inr (_, refl))
  | inl on ↦ rw on (elim (read_loop-Settles s.inbox s.buf) [
    | inl (line, e) ↦ rw e (inl (_, refl))
    | inr (m, e) ↦ rw e (inr (m, refl))
  ])
]

request-Settles : (cmd : String) (s : Session) → Settles (request cmd s).0
unfolding request
request-Settles cmd s = elim (Bool-cases s.connected) [
  | inr off ↦ rw off (inr (_, refl))
  | inl on ↦ rw on (readline-Settles _)
]

open_session-Settles : (dial : Dial) → Settles (open_session dial)
unfolding open_session
open_session-Settles (refused m) = inr (m, refl)
open_session-Settles (accepted inbox) = elim (readline-Settles (fresh inbox)) [
  | inl (line, e) ↦ rw (e, open_session) (inl (_, refl))
  | inr (m, e) ↦ rw (e, open_session) (inr (m, refl))
]

begin_session-Settles : (cmd : String) (dial : Dial) → Settles (begin_session cmd dial)
unfolding begin_session
begin_session-Settles cmd dial = elim (open_session-Settles dial) [
  | inr (m, e) ↦ rw (e, begin_session) (inr (m, refl))
  | inl (s, e) ↦
      rw (e, begin_session)
        (elim (request-Settles cmd s) [
          | inr (m, r) ↦ rw r (inr (m, refl))
          | inl (resp, r) ↦ rw r (elim (Bool-cases (is_ok resp)) [
            | inl good ↦ rw good (inl (_, refl))
            | inr bad ↦ rw bad (inr (_, refl))
          ])
        ])
]

module _ (t : String) (c : Client) (socket : using_mini c ≡ false) where
  -- A commit or a rollback over the socket ends the session, whether it succeeds or raises.
  pub commit_ends :
      (lookup t (commit t c).1.sessions ≡ none) × (lookup t (rollback t c).1.sessions ≡ none)
  unfolding commit rollback require_session
  commit_ends = elim (Option-cases (lookup t c.sessions)) [
    | inl e ↦ rw socket (rw e (e, e))
    | inr (s, e) ↦ rw socket (rw e (lookup-erase_self t _, lookup-erase_self t _))
  ]

  -- With the fallback allowed, a transaction begins whatever the network does: over the socket under
  -- a session, or in the in-memory database.
  pub start_falls_back :
      (dial : Dial)
      → c.allow_fallback ≡ true
      → ((start dial t c).0 ≡ ok t)
        × (((s : Session) × (lookup t (start dial t c).1.sessions ≡ some s))
            ⊎ ((start dial t c).1.mini ≡ (Mini.start t c.mini).1))
  unfolding start Mini.start
  start_falls_back dial allowed = elim (begin_session-Settles "START" dial) [
    | inl (s, e) ↦ rw socket (rw e (refl, inl (s, lookup-insert_self t s c.sessions)))
    | inr (m, e) ↦ rw socket (rw e (rw allowed (refl, inr refl)))
  ]

-- The rounds of `kv_get`: rounds that the server aborts are repeated, up to the ten that there are.
kv_rounds-answer :
    (n left from : ℕ) (dials : ℕ → Dial) (key : String) (last : Option String) (v : Option String)
    → n < left
    → ((i : ℕ) → i < n → (m : String) × (dial_round key (dials (from + i)) ≡ ok (aborted m)))
    → dial_round key (dials (from + n)) ≡ ok (answer v)
    → kv_rounds left from dials key last ≡ ok v
unfolding kv_rounds
kv_rounds-answer n zero from dials key last v lt before h = absurd (omega arith)
kv_rounds-answer zero (suc left) from dials key last v lt before h =
    let here : from + 0 ≡ from = omega arith in rw (rw here at h, kv_rounds) refl
kv_rounds-answer (suc n) (suc left) from dials key last v lt before h =
    let (m, e) = before 0 (omega arith) in
    let here : from + 0 ≡ from = omega arith in
    let next : from + suc n ≡ suc from + n = omega arith in
    rw (rw here at e, kv_rounds)
      (kv_rounds-answer n left (suc from) dials key (some m) v (omega arith)
        (λ i k.
          let step : from + suc i ≡ suc from + i = omega arith in
          rw step at (before (suc i) (omega arith)))
        (rw next at h))

-- After aborted rounds, fewer than ten, a round that answers gives the answer of the read.
pub kv_get_retries :
    (n : ℕ) (dials : ℕ → Dial) (key : String) (v : Option String) (c : Client)
    → using_mini c ≡ false
    → n < 10
    → ((i : ℕ) → i < n → (m : String) × (dial_round key (dials i) ≡ ok (aborted m)))
    → dial_round key (dials n) ≡ ok (answer v)
    → kv_get dials key c ≡ (ok v, c)
unfolding kv_get
kv_get_retries n dials key v c socket lt before h =
    let zero_plus : (i : ℕ) → 0 + i ≡ i = λ i. omega arith in
    rw socket (
      rw (
        kv_rounds-answer n 10 0 dials key none v lt (λ i k. rw (zero_plus i) (before i k))
          (rw (zero_plus n) h)))
