-- ===== src/Delivery/Winner/Least.antt =====
-- The winner that `_select_winner_payload` of Agent/vitabench_delivery.py chooses.
use dbagent_tree.Prelude.{
  ℕ, ◌≡◌, ◌≢◌, refl, sym, true, false, ◌⊎◌, inl, inr, List, [], ◌∷◌, ℤ, pos, negsuc, arith, nat_eq,
  int_eq, ◌==◌,
}
use dbagent_tree.Prelude.ListLaws.{Every}
use dbagent_tree.Exec.{ok}
use dbagent_tree.Exec.Results.{bind_ok}
use dbagent_tree.Text.Codes.{codes}
use dbagent_tree.Tools.Json.{Fields}
use dbagent_tree.Tools.Python.{Python}
use dbagent_tree.Delivery.Projection.{codes_leb}
use dbagent_tree.Delivery.Floats.{Floats}
use dbagent_tree.Delivery.Sorting.{sorted}
use dbagent_tree.Delivery.Sorting.Laws.{
  IsOrder, IsSame, by_first-IsOrder, Every-sorted, sorted-Every, HasLeastHead, sorted-HasLeastHead,
}
use dbagent_tree.Delivery.Winner.{
  RankKey, int_less, text_less, candidate_rank_key, key_less, ranked, entry_less, head_payload,
  select_winner_payload,
}

codes_total : (xs ys : List ℕ) → codes_leb xs ys ≡ false → codes_leb ys xs ≡ true
unfolding codes_leb
codes_total [] ys h = absurd (ground arith)
codes_total (x ∷ xs) [] h = refl
codes_total (x ∷ xs) (y ∷ ys) h = ground (arith, codes_total xs ys)

codes_trans :
    (xs ys zs : List ℕ) → codes_leb xs ys ≡ true → codes_leb ys zs ≡ true → codes_leb xs zs ≡ true
unfolding codes_leb
codes_trans [] ys zs h k = refl
codes_trans (x ∷ xs) [] zs h k = absurd (ground arith)
codes_trans (x ∷ xs) (y ∷ ys) [] h k = absurd (ground arith)
codes_trans (x ∷ xs) (y ∷ ys) (z ∷ zs) h k = ground (arith, codes_trans xs ys zs)

text_less-IsOrder : IsOrder text_less
text_less-IsOrder = record {
  asym = λ a b. ground (arith, codes_total (codes b) (codes a));
  split = λ a b c. ground (arith, codes_trans (codes c) (codes b) (codes a));
}

pub int_less-IsOrder : IsOrder int_less
int_less-IsOrder = record { asym = asym; split = split }
  where
    asym : (a b : ℤ) → int_less a b ≡ true → int_less b a ≡ false
    asym (pos a) (pos b) = ground arith
    asym (pos a) (negsuc b) = ground arith
    asym (negsuc a) (pos b) = ground arith
    asym (negsuc a) (negsuc b) = ground arith

    split : (a b c : ℤ) → int_less a c ≡ true → (int_less a b ≡ true) ⊎ (int_less b c ≡ true)
    split (pos a) (pos b) (pos c) = ground arith
    split (pos a) (pos b) (negsuc c) = ground arith
    split (pos a) (negsuc b) (pos c) = ground arith
    split (pos a) (negsuc b) (negsuc c) = ground arith
    split (negsuc a) (pos b) (pos c) = ground arith
    split (negsuc a) (pos b) (negsuc c) = ground arith
    split (negsuc a) (negsuc b) (pos c) = ground arith
    split (negsuc a) (negsuc b) (negsuc c) = ground arith

pub int-IsSame : IsSame (λ (a b : ℤ). a == b) int_less
int-IsSame (pos a) (pos b) = ground arith
int-IsSame (pos a) (negsuc b) = refl
int-IsSame (negsuc a) (pos b) = refl
int-IsSame (negsuc a) (negsuc b) = ground arith

module _ {F : Type 0} where
  abbrev pub Among : Fields F → List (Fields F) → Type 0
  Among p [] = ⊥
  Among p (q ∷ qs) = (p ≡ q) ⊎ Among p qs

module _ {F : Type 0} (py : Python F) (fl : Floats F) (order : IsOrder fl.less)
    (equal : IsSame fl.same fl.less) where
  key_less-IsOrder : IsOrder (key_less py fl)
  key_less-IsOrder =
      by_first-IsOrder (λ (k : RankKey F). k.minus_score) fl.same fl.less _ equal order
        (by_first-IsOrder (λ (k : RankKey F). k.minus_has_product) (λ a b. a == b) int_less _
          int-IsSame int_less-IsOrder
          (by_first-IsOrder (λ (k : RankKey F). k.price_gap) fl.same fl.less _ equal order
            (by_first-IsOrder (λ (k : RankKey F). k.minus_count) (λ a b. a == b) int_less
              (λ (x y : RankKey F). text_less x.label y.label) int-IsSame int_less-IsOrder
              (record {
                asym = λ x y. text_less-IsOrder.asym x.label y.label;
                split = λ x y z. text_less-IsOrder.split x.label y.label z.label;
              }))))

  -- The entry has its payload's key, and is of one of the payloads.
  abbrev IsEntry : List (Fields F) → RankKey F × Fields F → Type 0
  IsEntry all e = (candidate_rank_key py fl e.1 ≡ ok e.0) × Among e.1 all

  ranked-IsEntry :
      (all payloads : List (Fields F)) (entries : List (RankKey F × Fields F))
      → ((p : Fields F) → Among p payloads → Among p all)
      → ranked py fl payloads ≡ ok entries
      → Every (IsEntry all) entries
  unfolding ranked
  ranked-IsEntry all [] entries sub h = let e : entries ≡ [] = cc in rw e tt
  ranked-IsEntry all (payload ∷ payloads) entries sub h =
      let (key, ek, h') = bind_ok (candidate_rank_key py fl payload) _ h in
      let (rest, er, h'') = bind_ok (ranked py fl payloads) _ h' in
      let e : entries ≡ (key, payload) ∷ rest = cc in
      rw e
        ((ek, sub payload (inl refl)), ranked-IsEntry all payloads rest (λ p a. sub p (inr a)) er)

  every-ranked :
      (P : RankKey F × Fields F → Type 0) (payloads : List (Fields F))
      (entries : List (RankKey F × Fields F)) (other : Fields F) (key : RankKey F)
      → ranked py fl payloads ≡ ok entries
      → Every P entries
      → Among other payloads
      → candidate_rank_key py fl other ≡ ok key
      → P (key, other)
  unfolding ranked
  every-ranked P [] entries other key h all a k = elim a [ ]
  every-ranked P (payload ∷ payloads) entries other key h all a k =
      let (first, ek, h') = bind_ok (candidate_rank_key py fl payload) _ h in
      let (rest, er, h'') = bind_ok (ranked py fl payloads) _ h' in
      let e : entries ≡ (first, payload) ∷ rest = cc in
      let all' : P (first, payload) × Every P rest = rw e at all in
      elim a [
        | inl same ↦
            let keys : first ≡ key = (let k' = rw same at k in cc) in rw same (rw keys at (all'.0))
        | inr later ↦ every-ranked P payloads rest other key er all'.1 later k
      ]

  irreflexive : (key : RankKey F) → key_less py fl key key ≡ false
  irreflexive key = ground (arith, key_less-IsOrder.asym key key)

  entry_less-IsOrder : IsOrder (entry_less py fl)
  entry_less-IsOrder = record {
    asym = λ a b. key_less-IsOrder.asym a.0 b.0;
    split = λ a b c. key_less-IsOrder.split a.0 b.0 c.0;
  }

  nobody :
      (payload : Fields F) (payloads : List (Fields F)) (entries : List (RankKey F × Fields F))
      → ranked py fl (payload ∷ payloads) ≡ ok entries
      → Every (λ _. ⊥) entries
      → ⊥
  unfolding ranked
  nobody payload payloads entries h none_there =
      let (key, ek, h') = bind_ok (candidate_rank_key py fl payload) _ h in
      let (rest, er, h'') = bind_ok (ranked py fl payloads) _ h' in
      let e : entries ≡ (key, payload) ∷ rest = cc in
      let both : ⊥ × Every (λ _. ⊥) rest = rw e at none_there in both.0

  least_of :
      (all : List (Fields F)) (winner : Fields F) (es : List (RankKey F × Fields F))
      → HasLeastHead (entry_less py fl) entry_less-IsOrder es
      → Every (IsEntry all) es
      → head_payload py fl es ≡ winner
      → es ≢ []
      → Among winner all
        × ((key : RankKey F) × (candidate_rank_key py fl winner ≡ ok key)
            × Every (λ e. key_less py fl e.0 key ≡ false) es)
  least_of all winner [] least found e some_there = absurd (some_there refl)
  least_of all winner ((key, payload) ∷ es) least ((is_key, among), found) e some_there =
      rw (sym e) (among, (key, is_key, (irreflexive key, least)))

  -- The winner among candidates that can be ranked is one of them, and no candidate comes before it:
  -- by the higher score, then with the expected product, then by the smaller price gap, then by more
  -- products, then by the label.
  pub select_winner_payload-least :
      (payload : Fields F) (payloads : List (Fields F)) (winner : Fields F)
      → select_winner_payload py fl (payload ∷ payloads) ≡ ok winner
      → Among winner (payload ∷ payloads)
        × ((key : RankKey F) × (candidate_rank_key py fl winner ≡ ok key)
            × ((other : Fields F) (its : RankKey F)
                → Among other (payload ∷ payloads)
                → candidate_rank_key py fl other ≡ ok its
                → key_less py fl its key ≡ false))
  unfolding select_winner_payload
  select_winner_payload-least payload payloads winner h =
      let all = payload ∷ payloads in
      let (entries, e, h') = bind_ok (ranked py fl all) _ h in
      let found = ranked-IsEntry all all entries (λ p a. a) e in
      let less = entry_less py fl in
      let (among, (key, is_key, least)) =
        least_of all winner (sorted less entries)
          (sorted-HasLeastHead less entry_less-IsOrder entries)
          (Every-sorted (IsEntry all) less entries found) (cc)
          (λ none_left.
            nobody payload payloads entries e
              (sorted-Every (λ _. ⊥) less entries (rw none_left tt))) in
      (
        among,
        (
          key,
          is_key,
          λ other its there is.
              every-ranked (λ e. key_less py fl e.0 key ≡ false) all entries other its e
                (sorted-Every (λ e. key_less py fl e.0 key ≡ false) less entries least) there is,
        ),
      )
