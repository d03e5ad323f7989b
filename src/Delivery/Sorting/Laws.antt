-- ===== src/Delivery/Sorting/Laws.antt =====
-- Orders, and the least element of a sorted list.
use dbagent_tree.Prelude.{
  ◌≡◌, Bool, true, false, not, ◌&&◌, ◌⊎◌, inl, inr, Bool-cases, List, [], ◌∷◌, arith, if◌then◌else◌,
}
use dbagent_tree.Prelude.ListLaws.{Every}
use dbagent_tree.Delivery.Sorting.{insert_by, sorted}

-- What `<` is like when all elements can be compared.
pub record IsOrder {A : Type 0} (less : A → A → Bool) : Type 0 where
  pub asym : (a b : A) → less a b ≡ true → less b a ≡ false
  pub split : (a b c : A) → less a c ≡ true → (less a b ≡ true) ⊎ (less b c ≡ true)

-- `==` holds of what neither is less.
abbrev pub IsSame : {A : Type 0} → (A → A → Bool) → (A → A → Bool) → Type 0
IsSame same less = (a b : _) → same a b ≡ (not (less a b) && not (less b a))

-- Tuples are compared by their first place that differs.
abbrev pub by_first :
    {K A : Type 0} → (K → A) → (A → A → Bool) → (A → A → Bool) → (K → K → Bool) → K → K → Bool
by_first f same less next x y = if not (same (f x) (f y)) then less (f x) (f y) else next x y

pub by_first-IsOrder :
    {K A : Type 0} (f : K → A) (same less : A → A → Bool) (next : K → K → Bool)
    → IsSame same less
    → IsOrder less
    → IsOrder next
    → IsOrder (by_first f same less next)
by_first-IsOrder f same less next equal first rest = record {
  asym = λ x y. ground (
    arith,
    equal (f x) (f y),
    equal (f y) (f x),
    first.asym (f x) (f y),
    first.asym (f y) (f x),
    rest.asym x y,
  );
  split = λ x y z. ground (
    arith,
    equal (f x) (f y),
    equal (f y) (f z),
    equal (f x) (f z),
    first.split (f x) (f y) (f z),
    first.split (f y) (f x) (f z),
    first.split (f x) (f z) (f y),
    first.split (f z) (f y) (f x),
    first.split (f y) (f z) (f x),
    first.split (f z) (f x) (f y),
    first.asym (f x) (f z),
    rest.split x y z,
  );
}

module _ {A : Type 0} (P : A → Type 0) (less : A → A → Bool) where
  Every-insert_by : (x : A) (ys : List A) → P x → Every P ys → Every P (insert_by less x ys)
  unfolding insert_by
  Every-insert_by x [] p h = (p, tt)
  Every-insert_by x (y ∷ ys) p (q, h) = elim (Bool-cases (less y x)) [
    | inl e ↦ rw e (q, Every-insert_by x ys p h)
    | inr e ↦ rw e (p, (q, h))
  ]

  pub Every-sorted : (xs : List A) → Every P xs → Every P (sorted less xs)
  unfolding sorted
  Every-sorted [] h = tt
  Every-sorted (x ∷ xs) (p, h) = Every-insert_by x (sorted less xs) p (Every-sorted xs h)

  insert_by-Every : (x : A) (ys : List A) → Every P (insert_by less x ys) → P x × Every P ys
  unfolding insert_by
  insert_by-Every x [] h = h
  insert_by-Every x (y ∷ ys) h = elim (Bool-cases (less y x)) [
    | inl e ↦
        let (q, rest) = rw e at h in let (p, more) = insert_by-Every x ys rest in (p, (q, more))
    | inr e ↦ rw e at h
  ]

  pub sorted-Every : (xs : List A) → Every P (sorted less xs) → Every P xs
  unfolding sorted
  sorted-Every [] h = tt
  sorted-Every (x ∷ xs) h =
      let (p, rest) = insert_by-Every x (sorted less xs) h in (p, sorted-Every xs rest)

module _ {A : Type 0} (less : A → A → Bool) (order : IsOrder less) where
  -- Nothing in the list is less than its head.
  abbrev pub HasLeastHead : List A → Type 0
  HasLeastHead [] = Unit
  HasLeastHead (x ∷ xs) = Every (λ y. less y x ≡ false) xs

  not_below :
      (x y : A) (ys : List A)
      → less y x ≡ false
      → Every (λ z. less z y ≡ false) ys
      → Every (λ z. less z x ≡ false) ys
  not_below x y [] e h = tt
  not_below x y (z ∷ zs) e (h, hs) = (ground (arith, order.split z y x), not_below x y zs e hs)

  insert_by-HasLeastHead :
      (x : A) (ys : List A) → HasLeastHead ys → HasLeastHead (insert_by less x ys)
  unfolding insert_by
  insert_by-HasLeastHead x [] h = tt
  insert_by-HasLeastHead x (y ∷ ys) h = elim (Bool-cases (less y x)) [
    | inl e ↦ rw e (Every-insert_by (λ z. less z y ≡ false) less x ys (order.asym y x e) h)
    | inr e ↦ rw e (e, not_below x y ys e h)
  ]

  pub sorted-HasLeastHead : (xs : List A) → HasLeastHead (sorted less xs)
  unfolding sorted
  sorted-HasLeastHead [] = tt
  sorted-HasLeastHead (x ∷ xs) = insert_by-HasLeastHead x (sorted less xs) (sorted-HasLeastHead xs)
