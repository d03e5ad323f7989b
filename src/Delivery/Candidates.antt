-- ===== src/Delivery/Candidates.antt =====
-- What `_choose_candidate_store_ids` of Agent/vitabench_delivery.py selects.
use mathlib.Core.List.{◌++◌}
use dbagent_tree.Prelude.{
  ℕ, zero, suc, ℤ, pos, negsuc, String, true, false, not, ◌&&◌, ◌||◌, ◌≡◌, refl, ◌≤◌, List, [], ◌∷◌,
  arith, string_eq, ◌==◌, length, take, ◌⊎◌, inr,
}
use dbagent_tree.Prelude.ListLaws.{length-take_bound, length-append_one}
use dbagent_tree.Tools.Json.{Fields}
use dbagent_tree.Tools.Python.{Python}
use dbagent_tree.Delivery.{
  has, store_ids, selected_of, set_last, dedupe, bound, lacks, with_expected, keep_expected,
  choose_ids, choose_candidate_store_ids,
}

-- No id stands twice.
abbrev pub AllDistinct : List String → Type 0
AllDistinct [] = Unit
AllDistinct (x ∷ xs) = (has x xs ≡ false) × AllDistinct xs

has-append : (k : String) (xs ys : List String) → has k (xs ++ ys) ≡ has k xs || has k ys
unfolding has
has-append k [] ys = refl
has-append k (x ∷ xs) ys = ground (arith, has-append k xs ys)

has-dedupe :
    (k : String) (seen xs : List String)
    → has k (dedupe seen xs) ≡ not (k == "") && (has k xs && not (has k seen))
unfolding dedupe has
has-dedupe k seen [] = ground arith
has-dedupe k seen (x ∷ xs) = ground (
  arith,
  has-dedupe k (x ∷ seen) xs,
  has-dedupe k seen xs,
  string_eq.same_iff k x,
  string_eq.same_iff x "",
  string_eq.same_iff k "",
)

dedupe-AllDistinct : (seen xs : List String) → AllDistinct (dedupe seen xs)
unfolding dedupe has
dedupe-AllDistinct seen [] = tt
dedupe-AllDistinct seen (x ∷ xs) = ground (
  arith,
  dedupe-AllDistinct (x ∷ seen) xs,
  dedupe-AllDistinct seen xs,
  has-dedupe x (x ∷ seen) xs,
  string_eq.same_iff x x,
)

length-dedupe : (seen xs : List String) → length (dedupe seen xs) ≤ length xs
unfolding dedupe
length-dedupe seen [] = omega arith
length-dedupe seen (x ∷ xs) = ground (arith, length-dedupe (x ∷ seen) xs, length-dedupe seen xs)

has-take : (k : String) (n : ℕ) (xs : List String) → has k (take n xs) ≡ true → has k xs ≡ true
unfolding has
has-take k zero xs h = ground arith
has-take k (suc n) [] h = h
has-take k (suc n) (x ∷ xs) h = ground (arith, has-take k n xs)

length-set_last : (x : String) (xs : List String) → length (set_last x xs) ≡ length xs
unfolding set_last
length-set_last x [] = refl
length-set_last x (y ∷ []) = refl
length-set_last x (y ∷ z ∷ ys) = omega (arith, length-set_last x (z ∷ ys))

has-set_last_self : (x y : String) (ys : List String) → has x (set_last x (y ∷ ys)) ≡ true
unfolding set_last has
has-set_last_self x y [] = ground (arith, string_eq.same_iff x x)
has-set_last_self x y (z ∷ ys) = ground (arith, has-set_last_self x z ys)

has-set_last :
    (k x : String) (xs : List String) → has k (set_last x xs) ≡ true → (k ≡ x) ⊎ (has k xs ≡ true)
unfolding set_last has
has-set_last k x [] h = inr h
has-set_last k x (y ∷ []) h = ground (arith, string_eq.same_iff k x)
has-set_last k x (y ∷ z ∷ ys) h = ground (arith, has-set_last k x (z ∷ ys))

has-one : (k x : String) → has k (x ∷ []) ≡ (k == x)
unfolding has
has-one k x = ground arith

length-keep_expected :
    (k : ℕ) (expected : String) (selected : List String)
    → length selected ≤ k
    → length (keep_expected k expected selected) ≤ k
length-keep_expected k expected selected h =
    ground (arith, length-set_last expected selected, length-append_one selected expected)

has-keep_expected :
    (k : ℕ) (expected x : String) (xs : List String)
    → (expected == "") ≡ false
    → has expected (keep_expected k expected (x ∷ xs)) ≡ true
has-keep_expected k expected x xs h = ground (
  arith,
  has-append expected (x ∷ xs) (expected ∷ []),
  has-set_last_self expected x xs,
  has-one expected expected,
  string_eq.same_iff expected expected,
)

keep_expected-known :
    (k : ℕ) (id expected : String) (selected : List String)
    → has id (keep_expected k expected selected) ≡ true
    → (id ≡ expected) ⊎ (has id selected ≡ true)
keep_expected-known k id expected selected h = ground (
  arith,
  has-append id selected (expected ∷ []),
  has-set_last id expected selected,
  has-one id expected,
  string_eq.same_iff id expected,
)

-- At most k ids, none of them twice, with the expected one if it is not empty.
abbrev pub GoodChoice : ℕ → String → List String → Type 0
GoodChoice k expected chosen =
    (length chosen ≤ k) × AllDistinct chosen × (has expected chosen ≡ not (expected == ""))

selected_of-GoodChoice :
    (m : ℕ) (expected : String) (all : List String)
    → lacks expected all ≡ false
    → GoodChoice (suc m) expected (selected_of all expected (suc m))
unfolding has
selected_of-GoodChoice m expected [] h =
    (omega arith, tt, ground (arith, string_eq.same_iff expected ""))
selected_of-GoodChoice m expected (x ∷ xs) h =
    let some_ids = take (suc m) (x ∷ xs) in
    let kept = keep_expected (suc m) expected some_ids in
    (
      omega (
        arith,
        length-dedupe [] kept,
        length-keep_expected (suc m) expected some_ids (length-take_bound (suc m) (x ∷ xs)),
      ),
      dedupe-AllDistinct [] kept,
      ground (arith, has-dedupe expected [] kept, has-keep_expected (suc m) expected x (take m xs)),
    )

selected_of-known :
    (m : ℕ) (id expected : String) (all : List String)
    → has id (selected_of all expected (suc m)) ≡ true
    → (id ≡ expected) ⊎ (has id all ≡ true)
unfolding has
selected_of-known m id expected [] h = inr h
selected_of-known m id expected (x ∷ xs) h =
    let some_ids = take (suc m) (x ∷ xs) in
    ground (
      arith,
      has-dedupe id [] (keep_expected (suc m) expected some_ids),
      keep_expected-known (suc m) id expected some_ids,
      has-take id (suc m) (x ∷ xs),
    )

with_expected-lacks :
    (expected : String) (ids : List String) → lacks expected (with_expected expected ids) ≡ false
with_expected-lacks expected ids = ground (
  arith,
  has-append expected ids (expected ∷ []),
  has-one expected expected,
  string_eq.same_iff expected expected,
)

with_expected-known :
    (id expected : String) (ids : List String)
    → has id (with_expected expected ids) ≡ true
    → (id ≡ expected) ⊎ (has id ids ≡ true)
with_expected-known id expected ids h =
    ground (
      arith,
      has-append id ids (expected ∷ []),
      has-one id expected,
      string_eq.same_iff id expected,
    )

abbrev less_one : ℤ → ℕ
less_one (pos (suc n)) = n
less_one _ = 0

bound-suc : (top_k : ℤ) → bound top_k ≡ suc (less_one top_k)
bound-suc (pos zero) = refl
bound-suc (pos (suc n)) = refl
bound-suc (negsuc n) = refl

module _ {F : Type 0} (py : Python F) (stores : List (Fields F)) (expected : String)
    (top_k : ℤ) where
  -- The candidates are at most `top_k`, or one if that is not positive, no id stands twice, and the
  -- expected store is one of them unless it is the empty text.
  pub choose_candidate_store_ids-GoodChoice :
      GoodChoice (bound top_k) expected (choose_candidate_store_ids py stores expected top_k)
  unfolding choose_candidate_store_ids choose_ids
  choose_candidate_store_ids-GoodChoice =
      let all = with_expected expected (store_ids py stores) in
      rw bound-suc (
        selected_of-GoodChoice (less_one top_k) expected all
          (with_expected-lacks expected (store_ids py stores)))

  -- A candidate is the id of one of the stores, or the expected one.
  pub choose_candidate_store_ids-known :
      (id : String)
      → has id (choose_candidate_store_ids py stores expected top_k) ≡ true
      → (id ≡ expected) ⊎ (has id (store_ids py stores) ≡ true)
  unfolding choose_candidate_store_ids choose_ids
  choose_candidate_store_ids-known id h =
      let all = with_expected expected (store_ids py stores) in
      ground (
        arith,
        selected_of-known (less_one top_k) id expected all (rw bound-suc at h),
        with_expected-known id expected (store_ids py stores),
      )
