-- ===== src/Client/Values.antt =====
-- What AgentDBClient makes of the server's answers to reads (`session.cpp` sends `OK VALUE <value>`).
use mathlib.Core.List.{◌++◌ as append, reverse, reverse-append}
use native.Mathlib.Decide.{dec_lt}
use Prim.Native.Char.{Char, code}
use Prim.Native.String.append
use dbagent_tree.Prelude.{
  ℕ, String, ◌++◌, ◌≡◌, refl, sym, ap, ◌∙◌, Bool, true, false, Option, none, some, List, [], ◌∷◌,
  nat_eq, suc, string_eq, ◌==◌, if◌then◌else◌, length, Bool-cases, inl, inr,
}
use dbagent_tree.Dict.{lookup}
use dbagent_tree.Exec.{Result, ok, err}
use dbagent_tree.Text.Codes.{codes, codes-append, chr, from_codes, from_codes-codes}
use dbagent_tree.Text.Utf8.{encode_codes, decode_replace-encode_text}
use dbagent_tree.Text.Words.{upper_code, upper, drop, is_space, drop_while, rstrip_by, strip}
use dbagent_tree.Client.Session.{Session, cut_line, read_loop, read_bytes, readline, request}
use dbagent_tree.Client.Reading.{joined, AllData, read_loop_lem}
use dbagent_tree.Client.Protocol.{mentions, is_not_found, extract_value_payload}
use dbagent_tree.Client.State.{Client, using_mini, require_session}
use dbagent_tree.Client.Plain.{value_answer, fails, get}

pub upper-append : (s t : String) → upper (s ++ t) ≡ append (upper s) (upper t)
upper-append String.[] t = ap upper (append.nil t)
upper-append (String.◌∷◌ c s) t =
    ap upper (append.cons c s t) ∙ ap (λ cs. upper_code (code c) ∷ cs) (upper-append s t)

drop-append : (s t : String) → drop (length (codes s)) (s ++ t) ≡ t
drop-append String.[] t = append.nil t
drop-append (String.◌∷◌ c s) t =
    ap (drop (suc (length (codes s)))) (append.cons c s t) ∙ drop-append s t

-- A line that holds a value is read as it is, unless the value's upper case mentions NOT_FOUND.
value_answer-value :
    (cmd v : String)
    → value_answer cmd ("OK VALUE " ++ v)
      ≡ (if mentions v "NOT_FOUND" then ok none else ok (some v))
unfolding is_not_found extract_value_payload
value_answer-value cmd v = rw (upper-append "OK VALUE " v) (rw (drop-append "OK VALUE " v))

-- The rest of two parts: all of the second unless the first is used up.
abbrev or_rest : List ℕ → List ℕ → List ℕ → List ℕ
or_rest [] rest ys = rest
or_rest (x ∷ xs) rest ys = append (x ∷ xs) ys

drop_while-append :
    (p : ℕ → Bool) (xs ys : List ℕ)
    → drop_while p (append xs ys) ≡ or_rest (drop_while p xs) (drop_while p ys) ys
unfolding drop_while
drop_while-append p [] ys = refl
drop_while-append p (x ∷ xs) ys = elim (Bool-cases (p x)) [
  | inl e ↦ rw e (drop_while-append p xs ys)
  | inr e ↦ rw e refl
]

from_codes-append : (xs ys : List ℕ) → from_codes (append xs ys) ≡ from_codes xs ++ from_codes ys
unfolding from_codes
from_codes-append [] ys = sym (append.nil (from_codes ys))
from_codes-append (x ∷ xs) ys =
    ap (String.◌∷◌ (chr x)) (from_codes-append xs ys)
    ∙ sym (append.cons (chr x) (from_codes xs) (from_codes ys))

cons-full : (c : Char) (s : String) → String.◌∷◌ c s == "" ≡ false
cons-full c s = elim (Bool-cases (String.◌∷◌ c s == "")) [
  | inr e ↦ e
  | inl e ↦
      let no : code c ∷ codes s ≡ [] = ap codes ((string_eq.same_iff (String.◌∷◌ c s) "").0 e) in
      absurd (cc)
]

ends_in-full : (s : String) (c : Char) → (s ++ String.◌∷◌ c "") == "" ≡ false
ends_in-full String.[] c = rw (append.nil (String.◌∷◌ c "")) (cons-full c "")
ends_in-full (String.◌∷◌ d s) c =
    rw (append.cons d s (String.◌∷◌ c "")) (cons-full d (s ++ String.◌∷◌ c ""))

from_codes-full : (x : ℕ) (xs : List ℕ) → from_codes (reverse (x ∷ xs)) == "" ≡ false
unfolding from_codes
from_codes-full x xs =
    rw (reverse-append (x ∷ []) xs) (
      rw (from_codes-append (reverse xs) (x ∷ [])) (ends_in-full (from_codes (reverse xs)) (chr x)))

abbrev mark : String
mark = "OK VALUE "

-- The line without the white space at its ends: a blank value leaves the mark alone.
abbrev trimmed : String → String
trimmed v = if rstrip_by is_space v == "" then "OK VALUE" else mark ++ rstrip_by is_space v

strip-rest :
    (v : String) (r : List ℕ)
    → from_codes
        (reverse (or_rest r (drop_while is_space (reverse (codes mark))) (reverse (codes mark))))
      ≡ (if from_codes (reverse r) == "" then "OK VALUE" else mark ++ from_codes (reverse r))
unfolding from_codes drop_while dec_lt
strip-rest v [] = refl
strip-rest v (x ∷ xs) = rw (from_codes-full x xs) (
    ap from_codes (reverse-append (x ∷ xs) (reverse (codes mark)))
    ∙ from_codes-append (codes mark) (reverse (x ∷ xs))
    ∙ ap (λ s. s ++ from_codes (reverse (x ∷ xs))) (from_codes-codes mark))

strip-value : (v : String) → strip (mark ++ v) ≡ trimmed v
unfolding strip rstrip_by
strip-value v =
    let cs = codes v in
    ap (λ xs. from_codes (reverse (drop_while is_space (reverse (drop_while is_space xs)))))
      (codes-append mark v)
    ∙ ap (λ xs. from_codes (reverse (drop_while is_space xs))) (reverse-append (codes mark) cs)
    ∙ ap (λ xs. from_codes (reverse xs))
        (drop_while-append is_space (reverse cs) (reverse (codes mark)))
    ∙ strip-rest v (drop_while is_space (reverse cs))

-- The line that stands first among the buffer and what will arrive is the text in UTF-8.
abbrev pub Receives : Session → String → Type 0
Receives s text =
    (s.connected ≡ true)
    × AllData s.inbox
    × ((rest : List ℕ) × (cut_line (append s.buf (joined s.inbox))
          ≡ some (encode_codes (codes text), rest)))

request-Receives :
    (cmd text : String) (s : Session) → Receives s text → (request cmd s).0 ≡ ok (strip text)
unfolding request readline read_bytes
request-Receives cmd text s (on, data_only, (rest, first)) =
    let (line, left) = read_loop_lem s.inbox s.buf data_only in
    let line_is : (read_loop s.inbox s.buf).0 ≡ ok (encode_codes (codes text)) = rw first at line in
    rw on (
      rw line_is (
        ap (λ ns. ok (strip (from_codes ns))) (decode_replace-encode_text text)
        ∙ ap (λ t. ok (strip t)) (from_codes-codes text)))

-- A value as it comes back: white space at its end is lost, a blank value is an exception, and one
-- whose upper case mentions NOT_FOUND is a missing key.
abbrev pub read_back : String → Result (Option String)
read_back v =
    if v == ""
    then err (fails "GET" "OK VALUE")
    else if mentions v "NOT_FOUND"
    then ok none
    else ok (some v)

value_answer-read_back :
    (w : String) (blank : Bool)
    → w == "" ≡ blank
    → value_answer "GET" (if blank then "OK VALUE" else mark ++ w) ≡ read_back w
unfolding is_not_found extract_value_payload
value_answer-read_back w true e = rw e refl
value_answer-read_back w false e = rw e (value_answer-value "GET" w)

-- Over the socket, when the bytes of `OK VALUE <v>` arrive as the next line, in any chunks, `get`
-- gives the value without the white space at its end, if that is not blank and its upper case does
-- not mention NOT_FOUND; a blank value raises, and one with NOT_FOUND reads as a missing key.
pub get-Receives :
    (tx_id key v : String) (c : Client) (s : Session)
    → using_mini c ≡ false
    → lookup tx_id c.sessions ≡ some s
    → Receives s ("OK VALUE " ++ v)
    → (get tx_id key c).0 ≡ read_back (rstrip_by is_space v)
unfolding get require_session
get-Receives tx_id key v c s socket found arrives =
    let asked = request-Receives ("GET " ++ key) ("OK VALUE " ++ v) s arrives in
    rw socket (
      rw found (
        rw asked (
          ap (value_answer "GET") (strip-value v)
          ∙ value_answer-read_back (rstrip_by is_space v) _ refl)))
