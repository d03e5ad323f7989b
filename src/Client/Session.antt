-- ===== src/Client/Session.antt =====
-- TreeDBSession: a line protocol over a socket. What the socket will deliver is a list of events,
-- one for each `recv`; sending never fails, a broken connection shows at the next `recv`.
use mathlib.Core.List.{◌++◌}
use Prim.Native.String
use dbagent_tree.Prelude.{
  ℕ, String, Bool, true, false, not, Option, none, some, List, [], ◌∷◌, nat_eq, ◌==◌, if◌then◌else◌,
}
use dbagent_tree.Exec.{Result, ok, err, hang, Exec, pure, gets, raise_if, modify, ◌>>=◌, ◌>>◌}
use dbagent_tree.Text.Codes.{from_codes}
use dbagent_tree.Text.Utf8.{decode_replace}
use dbagent_tree.Text.Words.{strip}

-- What a `recv` gives: bytes, none of them if the server has closed the connection, or an exception.
pub data Event : Type 0 where
  chunk : List ℕ → Event
  fault : String → Event

pub record Session : Type 0 where
  pub connected : Bool
  pub inbox : List Event
  pub buf : List ℕ
  pub sent : List String

-- `buf.split(b"\n", 1)`, where the separator is there.
unfoldable pub cut_line : List ℕ → Option (List ℕ × List ℕ)
cut_line [] = none
cut_line (b ∷ bs) =
    let rest = cut_line bs in
    if b == 10
    then some ([], bs)
    else elim rest [ none ↦ none | some (line, more) ↦ some (b ∷ line, more) ]

abbrev pub taken :
    List Event
    → Option (List ℕ × List ℕ)
    → Result (List ℕ) × List Event × List ℕ
    → Result (List ℕ) × List Event × List ℕ
taken inbox none otherwise = otherwise
taken inbox (some (line, rest)) otherwise = (ok line, inbox, rest)

-- The loop of `_readline`: the line, the events left and the buffer.
unfoldable pub read_loop : List Event → List ℕ → Result (List ℕ) × List Event × List ℕ
read_loop [] buf = taken [] (cut_line buf) (err "server closed connection", [], buf)
read_loop (fault m ∷ inbox) buf = taken (fault m ∷ inbox) (cut_line buf) (err m, inbox, buf)
read_loop (chunk [] ∷ inbox) buf =
    taken (chunk [] ∷ inbox) (cut_line buf) (err "server closed connection", inbox, buf)
read_loop (chunk (b ∷ bs) ∷ inbox) buf =
    let more = read_loop inbox (buf ++ (b ∷ bs)) in
    taken (chunk (b ∷ bs) ∷ inbox) (cut_line buf) more

abbrev not_connected : String
not_connected = "Tree-DB session is not connected"

unfoldable pub read_bytes : Exec Session (List ℕ)
read_bytes s =
    let (r, inbox, buf) = read_loop s.inbox s.buf in (r, record s { inbox = inbox; buf = buf })

-- `_readline`
unfoldable pub readline : Exec Session String
unfolding decode_replace strip from_codes
readline = do
  connected ← gets (λ s. s.connected)
  raise_if (not connected) not_connected
  line ← read_bytes
  pure (strip (from_codes (decode_replace line)))

unfoldable pub request : String → Exec Session String
request cmd = do
  connected ← gets (λ s. s.connected)
  raise_if (not connected) not_connected
  modify (λ s. record s { sent = s.sent ++ (String.◌++◌ cmd "\n" ∷ []) })
  readline

unfoldable pub close : Exec Session (Unit {0})
close = modify (λ s. if s.connected then record s { connected = false; buf = [] } else s)

-- What `socket.create_connection` gives: a socket with what it will deliver, or an exception.
pub data Dial : Type 0 where
  accepted : List Event → Dial
  refused : String → Dial

abbrev pub fresh : List Event → Session
fresh inbox = record { connected = true; inbox = inbox; buf = []; sent = [] }

-- `connect` on a new session; the greeting is read and dropped.
unfoldable pub open_session : Dial → Result Session
open_session (refused m) = err m
open_session (accepted inbox) =
    let (r, s) = readline (fresh inbox) in elim r [ ok _ ↦ ok s | err m ↦ err m | hang ↦ hang ]
