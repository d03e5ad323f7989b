-- ===== src/Delivery/Sorting.antt =====
-- Python's `sorted`, which uses `<` alone and keeps the order of equal elements.
pub mod Laws
use dbagent_tree.Prelude.{Bool, true, false, List, [], ◌∷◌, if◌then◌else◌}

module _ {A : Type 0} (less : A → A → Bool) where
  unfoldable pub insert_by : A → List A → List A
  insert_by x [] = x ∷ []
  insert_by x (y ∷ ys) = let rest = insert_by x ys in if less y x then y ∷ rest else x ∷ y ∷ ys

  unfoldable pub sorted : List A → List A
  sorted [] = []
  sorted (x ∷ xs) = insert_by x (sorted xs)
