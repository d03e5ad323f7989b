-- ===== src/Delivery/Statistics.antt =====
-- The statistics of Agent/vitabench_delivery.py: `_n_choose_k`, `_pass_hat_k` and
-- `_pass_at_k`.
pub mod Choose
use dbagent_tree.Prelude.{
  ℕ, zero, suc, ◌+◌, ◌-◌, ◌*◌, ◌/◌, Bool, true, false, ◌||◌, Option, none, some, List, [], ◌∷◌, ℤ,
  pos, negsuc, leb, ltb, nat_eq, ◌==◌, length, get_elem?, if◌then◌else◌,
}
use dbagent_tree.Delivery.Floats.{Floats}

-- `for i in range(1, k + 1)`, with `left` rounds to go from i on, on `numer` and `denom`.
unfoldable pub choose_loop : ℕ → ℕ → ℕ → ℕ → ℕ × ℕ → ℕ × ℕ
choose_loop n k zero i acc = acc
choose_loop n k (suc left) i (numer, denom) =
    choose_loop n k left (suc i) (numer * (n - (k - i)), denom * i)

abbrev min_nat : ℕ → ℕ → ℕ
min_nat a b = if ltb b a then b else a

abbrev quotient : ℕ × ℕ → ℕ
quotient (numer, denom) = numer / denom

-- `_n_choose_k` on numbers that are not negative, once `k` is the smaller one.
abbrev pub choose_smaller : ℕ → ℕ → ℕ
choose_smaller n k = if k == 0 then 1 else quotient (choose_loop n k k 1 (1, 1))

unfoldable pub choose_nat : ℕ → ℕ → ℕ
choose_nat n k = if ltb n k then 0 else choose_smaller n (min_nat k (n - k))

-- `k < 0 or k > n`: a negative n is below every k that is not negative.
unfoldable pub n_choose_k : ℤ → ℤ → ℕ
n_choose_k (pos n) (pos k) = choose_nat n k
n_choose_k n (negsuc k) = 0
n_choose_k (negsuc n) k = 0

module _ {F : Type 0} (fl : Floats F) where
  -- `float(_n_choose_k(a, k)) / float(_n_choose_k(n, k))`
  abbrev ratio : ℕ → ℕ → ℕ → F
  ratio a n k = fl.div (fl.literal (choose_nat a k) 0) (fl.literal (choose_nat n k) 0)

  unfoldable pub pass_hat_k : ℕ → ℕ → ℕ → F
  pass_hat_k num_trials success_count k =
      if ltb num_trials k || ltb success_count k
      then fl.literal 0 0
      else ratio success_count num_trials k

  unfoldable pub pass_at_k : ℕ → ℕ → ℕ → F
  pass_at_k num_trials success_count k =
      if ltb num_trials k
      then fl.literal 0 0
      else if leb (k + success_count) num_trials
      then fl.sub (fl.literal 1 0) (ratio (num_trials - success_count) num_trials k)
      else fl.literal 1 0
