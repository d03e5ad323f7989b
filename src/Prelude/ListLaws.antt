-- ===== src/Prelude/ListLaws.antt =====
-- Laws of lists: lengths, and a predicate of every element.
use mathlib.Core.List.{◌++◌}
use dbagent_tree.Prelude.{ℕ, zero, suc, ◌+◌, ◌≤◌, ◌≡◌, refl, List, [], ◌∷◌, arith, length, take}

abbrev pub Every : {A : Type 0} → (A → Type 0) → List A → Type 0
Every P [] = Unit
Every P (x ∷ xs) = P x × Every P xs

module _ {A : Type 0} (P : A → Type 0) where
  pub Every-append : (xs : List A) (x : A) → Every P xs → P x → Every P (xs ++ (x ∷ []))
  Every-append [] x h p = (p, tt)
  Every-append (y ∷ ys) x h p = (h.0, Every-append ys x h.1 p)

  pub Every-take : (n : ℕ) (xs : List A) → Every P xs → Every P (take n xs)
  Every-take zero xs h = tt
  Every-take (suc n) [] h = tt
  Every-take (suc n) (x ∷ xs) h = (h.0, Every-take n xs h.1)

module _ {A : Type 0} where
  pub length-take : (n : ℕ) (xs : List A) → length (take n xs) ≤ length xs
  length-take zero xs = omega arith
  length-take (suc n) [] = omega arith
  length-take (suc n) (x ∷ xs) = omega (arith, length-take n xs)

  pub length-take_bound : (n : ℕ) (xs : List A) → length (take n xs) ≤ n
  length-take_bound zero xs = omega arith
  length-take_bound (suc n) [] = omega arith
  length-take_bound (suc n) (x ∷ xs) = omega (arith, length-take_bound n xs)

  pub length-append_one : (xs : List A) (x : A) → length (xs ++ (x ∷ [])) ≡ suc (length xs)
  length-append_one [] x = refl
  length-append_one (y ∷ ys) x = omega (arith, length-append_one ys x)

  pub length-append_two : (xs : List A) (x y : A) → length (xs ++ (x ∷ y ∷ [])) ≡ 2 + length xs
  length-append_two [] x y = refl
  length-append_two (z ∷ zs) x y = omega (arith, length-append_two zs x y)
