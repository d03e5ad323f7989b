-- ===== src/Delivery.antt =====
-- The choice of candidate stores in Agent/vitabench_delivery.py.
pub mod Floats
pub mod Orders
pub mod Sorting
pub mod Ranking
pub mod Winner
pub mod Recheck
pub mod Agent
pub mod Interference
pub mod Loading
pub mod Statistics
pub mod Evaluate
pub mod Candidates
pub mod Projection
pub mod Written
pub mod Entries
mod Tests
mod AnswerTests
mod RunTests
use mathlib.Core.List.{◌++◌}
use dbagent_tree.Prelude.{
  ℕ, zero, suc, ℤ, pos, negsuc, String, Bool, true, false, not, ◌&&◌, ◌||◌, Option, none, some,
  List, [], ◌∷◌, string_eq, ◌==◌, ltb, length, take, if◌then◌else◌,
}
use dbagent_tree.Tools.Json.{Json, Fields, field?}
use dbagent_tree.Tools.Python.{Python, truthy, str_of}

-- `x in xs`
unfoldable pub has : String → List String → Bool
has x [] = false
has x (y ∷ ys) = x == y || has x ys

-- The ids of the stores that have one.
unfoldable pub store_ids : {F : Type 0} → Python F → List (Fields F) → List String
store_ids py [] = []
store_ids py (store ∷ stores) =
    let rest = store_ids py stores in
    elim (field? "store_id" store) [
      | none ↦ rest
      | some v ↦ if truthy py v then str_of py v ∷ rest else rest
    ]

-- `selected[-1] = x`, on a list that is not empty.
unfoldable pub set_last : String → List String → List String
set_last x [] = []
set_last x (y ∷ []) = x ∷ []
set_last x (y ∷ z ∷ ys) = y ∷ set_last x (z ∷ ys)

-- The loop that fills `deduped`, with `seen`.
unfoldable pub dedupe : List String → List String → List String
dedupe seen [] = []
dedupe seen (x ∷ xs) =
    let fresh = dedupe (x ∷ seen) xs in
    let old = dedupe seen xs in if not (x == "") && not (has x seen) then x ∷ fresh else old

-- `top_k`, or 1 if it is not positive.
abbrev pub bound : ℤ → ℕ
bound (pos zero) = 1
bound (pos (suc n)) = suc n
bound (negsuc n) = 1

-- `expected and expected not in xs`
abbrev pub lacks : String → List String → Bool
lacks expected xs = not (expected == "") && not (has expected xs)

abbrev pub with_expected : String → List String → List String
with_expected expected ids = if lacks expected ids then ids ++ (expected ∷ []) else ids

-- `selected` once the expected store has its place in it.
abbrev pub keep_expected : ℕ → String → List String → List String
keep_expected k expected selected =
    if lacks expected selected
    then (if ltb (length selected) k
        then selected ++ (expected ∷ [])
        else set_last expected selected)
    else selected

-- What is selected of all the ids: nothing if there are none.
abbrev pub selected_of : List String → String → ℕ → List String
selected_of [] expected k = []
selected_of (x ∷ xs) expected k = dedupe [] (keep_expected k expected (take k (x ∷ xs)))

-- `_choose_candidate_store_ids`, from the ids on.
unfoldable pub choose_ids : List String → String → ℤ → List String
choose_ids ids expected top_k = selected_of (with_expected expected ids) expected (bound top_k)

unfoldable pub choose_candidate_store_ids :
    {F : Type 0} → Python F → List (Fields F) → String → ℤ → List String
choose_candidate_store_ids py stores expected top_k =
    choose_ids (store_ids py stores) expected top_k

abbrev first_or : String → List String → String
first_or d [] = d
first_or d (x ∷ xs) = x

unfoldable pub winner_store_id : List String → String → String
winner_store_id ids expected =
    if not (expected == "") && has expected ids then expected else first_or "" ids
