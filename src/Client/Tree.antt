-- ===== src/Client/Tree.antt =====
-- The methods of AgentDBClient for tree transactions.
use dbagent_tree.Prelude.{
  ℕ, zero, suc, ◌+◌, ◌*◌, String, ◌++◌, Bool, true, false, not, ◌&&◌, ◌||◌, Option, none, some,
  List, [], ◌∷◌, ℤ, pos, negsuc, nat_eq, ◌==◌, ltb, str_nat, str_int, length, get_elem?, skip,
  last?, if◌then◌else◌,
}
use dbagent_tree.Exec.{Result, ok, err, hang, Exec, pure, lift, raise_if, modify, ◌>>=◌, ◌>>◌}
use dbagent_tree.Mini.Branches
use dbagent_tree.Text.Codes.{codes}
use dbagent_tree.Text.Hex.{hex_encode, hex_decode}
use dbagent_tree.Text.Words.{upper, split, join_space, parse_int}
use dbagent_tree.Client.Session.{Dial}
use dbagent_tree.Client.Protocol.{is_ok}
use dbagent_tree.Client.State.{Client, by_backend, require_tree_session, set_tree_session, ask_tree}
use dbagent_tree.Client.Plain.{⊤, fails, or_fallback, value_answer, begin_session}

unfoldable pub tree_start : Dial → String → Exec Client String
tree_start dial tx_id = by_backend (Branches.tstart tx_id) (
    or_fallback (Branches.tstart tx_id)
      (do s ← lift (begin_session "TSTART" dial); modify (set_tree_session tx_id s); pure tx_id))

-- The request of a tree session.
abbrev pub tree_request : String → String → Exec Client String
tree_request tx_id cmd = do s ← require_tree_session tx_id; ask_tree tx_id s cmd

-- The same, for a command whose answer must be one of success.
abbrev pub tree_command : String → String → String → Exec Client String
tree_command tx_id name cmd = do
  resp ← tree_request tx_id cmd
  raise_if (not (is_ok resp)) (fails name resp)
  pure resp

abbrev pub unparsed : String → String → String
unparsed name resp = "failed to parse " ++ (name ++ (" response: " ++ resp))

abbrev int_or : String → Option String → Result ℤ
int_or m none = err m
int_or m (some word) = elim (parse_int word) [ none ↦ err m | some n ↦ ok n ]

unfoldable pub tree_branch : String → ℤ → Exec Client ℤ
tree_branch tx_id parent = by_backend (Branches.tbranch tx_id parent) (do
  resp ← tree_command tx_id "TBRANCH" ("TBRANCH " ++ str_int parent)
  lift (int_or (unparsed "TBRANCH" resp) (last? (split resp))))

abbrev same_codes : List ℕ → List ℕ → Bool
same_codes [] [] = true
same_codes (a ∷ ms) (b ∷ bs) = a == b && same_codes ms bs
same_codes _ _ = false

-- `parts[1].upper() == mark`
abbrev second_is : String → List String → Bool
second_is mark parts = elim (get_elem? parts 1) [
  | none ↦ false
  | some p ↦ same_codes (upper p) (codes mark)
]

unfoldable pub parse_ints : String → List String → Result (List ℤ)
parse_ints m [] = ok []
parse_ints m (word ∷ words) =
    let rest = parse_ints m words in
    elim (parse_int word) [
      | none ↦ err m
      | some n ↦ elim rest [ ok ns ↦ ok (n ∷ ns) | err e ↦ err e | hang ↦ hang ]
    ]

-- What an answer to TBRANCHMANY says.
unfoldable pub branches_answer : String → Result (List ℤ)
unfolding parse_ints
branches_answer resp =
    let parts = split resp in
    if ltb (length parts) 2 || not (second_is "BRANCHES" parts)
    then err (unparsed "TBRANCHMANY" resp)
    else parse_ints (unparsed "TBRANCHMANY" resp) (skip 2 parts)

unfoldable pub tree_branch_many : String → ℤ → ℤ → Exec Client (List ℤ)
tree_branch_many tx_id parent count = by_backend (Branches.tbranch_many tx_id parent count) (do
  resp ←
      tree_command tx_id "TBRANCHMANY"
        ("TBRANCHMANY " ++ (str_int parent ++ (" " ++ str_int count)))
  lift (branches_answer resp))

abbrev get_cmd : Bool → String
get_cmd true = "TGETS"
get_cmd false = "TGET"

unfoldable pub tree_get : String → ℤ → String → Bool → Exec Client (Option String)
tree_get tx_id branch_id key strict = by_backend (Branches.tget tx_id branch_id key strict) (do
  resp ← tree_request tx_id (get_cmd strict ++ (" " ++ (str_int branch_id ++ (" " ++ key))))
  lift (value_answer (get_cmd strict) resp))

abbrev get_many_cmd : Bool → String
get_many_cmd true = "TGETSMANY"
get_many_cmd false = "TGETMANY"

unfoldable pub get_parts : List (ℤ × String) → List String
get_parts [] = []
get_parts ((branch_id, key) ∷ requests) = str_int branch_id ∷ key ∷ get_parts requests

-- The decoded values of the pairs that stand behind the count; a branch id stands before each.
unfoldable pub decode_pairs : List String → Result (List (Option String))
decode_pairs (branch_id ∷ encoded ∷ words) =
    let rest = decode_pairs words in
    elim (hex_decode encoded) [
      | ok v ↦ elim rest [ ok vs ↦ ok (some v ∷ vs) | err m ↦ err m | hang ↦ hang ]
      | err m ↦ err m
      | hang ↦ hang
    ]
decode_pairs _ = ok []

-- `len(parts) != 3 + count * 2`
abbrev arity_is : ℤ → ℕ → Bool
arity_is (pos n) len = len == 3 + n * 2
arity_is (negsuc zero) len = len == 1
arity_is (negsuc (suc n)) len = false

-- What an answer to TGETMANY or TGETSMANY says.
unfoldable pub values_answer : String → String → Result (List (Option String))
unfolding decode_pairs
values_answer cmd resp =
    let parts = split resp in
    if ltb (length parts) 3 || not (second_is "VALUES" parts)
    then err (unparsed cmd resp)
    else elim (int_or (unparsed cmd resp) (get_elem? parts 2)) [
      | ok n ↦
          (if arity_is n (length parts)
            then decode_pairs (skip 3 parts)
            else err ("bad " ++ (cmd ++ (" response arity: " ++ resp))))
      | err m ↦ err m
      | hang ↦ hang
    ]

unfoldable pub tree_get_many :
    String → List (ℤ × String) → Bool → Exec Client (List (Option String))
tree_get_many tx_id requests strict = by_backend (Branches.tget_many tx_id requests strict) (do
  resp ←
      tree_command tx_id (get_many_cmd strict)
        (join_space (get_many_cmd strict ∷ str_nat (length requests) ∷ get_parts requests))
  lift (values_answer (get_many_cmd strict) resp))

unfoldable pub tree_put : String → ℤ → String → String → Exec Client ⊤
tree_put tx_id branch_id key value = by_backend (Branches.tput tx_id branch_id key value) (
    tree_command tx_id "TPUT" ("TPUT " ++ (str_int branch_id ++ (" " ++ (key ++ (" " ++ value)))))
    >>= λ _. pure tt)

unfoldable pub tree_put_parts : List (ℤ × String × String) → List String
tree_put_parts [] = []
tree_put_parts ((branch_id, key, value) ∷ requests) =
    str_int branch_id ∷ key ∷ hex_encode value ∷ tree_put_parts requests

unfoldable pub tree_put_many : String → List (ℤ × String × String) → Exec Client ⊤
tree_put_many tx_id requests = by_backend (Branches.tput_many tx_id requests) (
    tree_command tx_id "TPUTMANY"
      (join_space ("TPUTMANY" ∷ str_nat (length requests) ∷ tree_put_parts requests))
    >>= λ _. pure tt)

unfoldable pub tree_select_winner : String → ℤ → Exec Client ⊤
tree_select_winner tx_id branch_id =
    by_backend (Branches.twinner tx_id branch_id)
      (tree_command tx_id "TWINNER" ("TWINNER " ++ str_int branch_id) >>= λ _. pure tt)

unfoldable pub tree_refresh_winner : String → ℤ → String → Exec Client (Option String)
tree_refresh_winner tx_id branch_id key =
    by_backend (Branches.trefresh_winner tx_id branch_id key) (do
      resp ← tree_request tx_id ("TREFRESH_WINNER " ++ (str_int branch_id ++ (" " ++ key)))
      lift (value_answer "TREFRESH_WINNER" resp))
