-- ===== src/Delivery/Loading/Counting.antt =====
-- Limits and counts in `load_experiment_tasks` of Agent/vitabench_delivery.py.
use dbagent_tree.Prelude.{
  ℕ, suc, ◌+◌, ◌-◌, ◌≤◌, String, ◌≡◌, Option, none, some, List, [], ◌∷◌, ℤ, pos, negsuc, arith,
  string_eq, length,
}
use dbagent_tree.Prelude.ListLaws.{Every, Every-take, length-take, length-take_bound}
use dbagent_tree.Dict.{Dict, lookup, insert}
use dbagent_tree.Delivery.Loading.{count_of, count_one, total, limited}

module _ {A : Type 0} (P : A → Type 0) where
  pub Every-limited : (limit : Option ℤ) (xs : List A) → Every P xs → Every P (limited limit xs)
  Every-limited none xs h = h
  Every-limited (some (pos n)) xs h = Every-take P n xs h
  Every-limited (some (negsuc n)) xs h = Every-take P (length xs - suc n) xs h

module _ {A : Type 0} where
  pub length-limited : (limit : Option ℤ) (xs : List A) → length (limited limit xs) ≤ length xs
  length-limited none xs = omega arith
  length-limited (some (pos n)) xs = length-take n xs
  length-limited (some (negsuc n)) xs = length-take (length xs - suc n) xs

  -- The most that a limit lets through.
  abbrev pub Within : Option ℤ → List A → Type 0
  Within (some (pos n)) xs = length xs ≤ n
  Within _ xs = Unit

  pub limited-Within : (limit : Option ℤ) (xs : List A) → Within limit (limited limit xs)
  limited-Within none xs = tt
  limited-Within (some (pos n)) xs = length-take_bound n xs
  limited-Within (some (negsuc n)) xs = tt

pub total-insert :
    (k : String) (n : ℕ) (d : Dict String ℕ)
    → total (insert k n d) + count_of (lookup k d) ≡ n + total d
unfolding total insert lookup
total-insert k n [] = omega arith
total-insert k n ((j, m) ∷ d) = ground (arith, total-insert k n d)

pub total-count_one : (k : String) (d : Dict String ℕ) → total (count_one k d) ≡ suc (total d)
unfolding count_one
total-count_one k d = omega (arith, total-insert k (suc (count_of (lookup k d))) d)
