-- ===== src/Delivery/Statistics/Choose.antt =====
-- What `_n_choose_k` of Agent/vitabench_delivery.py computes.
use native.Mathlib.Nat.{mul-div_cancel}
use dbagent_tree.Prelude.{
  ℕ, zero, suc, ◌+◌, ◌-◌, ◌*◌, ◌≤◌, ◌<◌, ◌≡◌, refl, ap, ◌∙◌, sym, inl, inr, Bool-cases, false, pos,
  arith, ltb, nat_eq, ◌==◌,
}
use dbagent_tree.Delivery.Statistics.{choose_loop, quotient, choose_smaller, choose_nat, n_choose_k}

-- Pascal's triangle.
abbrev pub binom : ℕ → ℕ → ℕ
binom n zero = 1
binom zero (suc k) = 0
binom (suc n) (suc k) = binom n k + binom n (suc k)

absorb : (n k : ℕ) → suc k * binom (suc n) (suc k) ≡ suc n * binom n k
absorb zero zero = refl
absorb zero (suc k) = omega arith
absorb (suc n) zero = omega (arith, absorb n zero)
absorb (suc n) (suc k) = omega (arith, absorb n k, absorb n (suc k))

abbrev factorial : ℕ → ℕ
factorial zero = 1
factorial (suc k) = suc k * factorial k

-- What the loop has in its variables after j rounds.
abbrev after : ℕ → ℕ → ℕ × ℕ
after m j = (binom (m + j) j * factorial j, factorial j)

factorial_pos : (k : ℕ) → 0 < factorial k
factorial_pos zero = omega arith
factorial_pos (suc k) = omega (arith, factorial_pos k)

one_round :
    (m k left j : ℕ)
    → j + suc left ≡ k
    → binom (m + j) j * factorial j * (m + k - (k - suc j))
      ≡ binom (m + suc j) (suc j) * factorial (suc j)
one_round m k left j h =
    let index : m + k - (k - suc j) ≡ suc (m + j) = omega arith in
    let next : m + suc j ≡ suc (m + j) = omega arith in
    let scaled = ap (λ x. x * factorial j) (absorb (m + j) j) in
    rw (index, next) (omega (arith, scaled))

choose_loop-after :
    (m k left j : ℕ) → j + left ≡ k → choose_loop (m + k) k left (suc j) (after m j) ≡ after m k
unfolding choose_loop
choose_loop-after m k zero j h = let e : j ≡ k = omega arith in rw e
choose_loop-after m k (suc left) j h =
    let below : factorial j * suc j ≡ factorial (suc j) = omega arith in
    rw (one_round m k left j h, below) (choose_loop-after m k left (suc j) (omega arith))

choose_smaller-binom : (m k : ℕ) → choose_smaller (m + k) k ≡ binom (m + k) k
choose_smaller-binom m zero = refl
choose_smaller-binom m (suc k) =
    let looped : choose_loop (m + suc k) (suc k) (suc k) 1 (1, 1) ≡ after m (suc k) =
      choose_loop-after m (suc k) (suc k) 0 (omega arith) in
    let nonzero : (suc k == 0) ≡ false = ground arith in
    rw nonzero
      (ap quotient looped ∙ mul-div_cancel (binom (m + suc k) (suc k)) (factorial_pos (suc k)))

binom_above : (n k : ℕ) → n < k → binom n k ≡ 0
binom_above n zero h = absurd (omega arith)
binom_above zero (suc k) h = refl
binom_above (suc n) (suc k) h =
    omega (arith, binom_above n k (omega arith), binom_above n (suc k) (omega arith))

binom_all : (n : ℕ) → binom n n ≡ 1
binom_all zero = refl
binom_all (suc n) = omega (arith, binom_all n, binom_above n (suc n) (omega arith))

binom_sym : (m k : ℕ) → binom (m + k) k ≡ binom (m + k) m
binom_sym zero k = let e : 0 + k ≡ k = omega arith in rw e (binom_all k)
binom_sym (suc m) zero = let e : suc m + 0 ≡ suc m = omega arith in rw e (sym (binom_all (suc m)))
binom_sym (suc m) (suc k) =
    let e : suc m + suc k ≡ suc (m + suc k) = omega arith in
    let e' : suc m + k ≡ m + suc k = omega arith in
    let left = binom_sym m (suc k) in
    let right = (let s = binom_sym (suc m) k in rw e' at s) in rw e (omega (arith, left, right))

either : {n : ℕ} (m k : ℕ) → n ≡ m + k → choose_smaller n k ≡ binom n k
either m k e = rw e (choose_smaller-binom m k)

mirrored : (n m k : ℕ) → n ≡ k + m → binom n m ≡ binom n k
mirrored n m k e = rw e (binom_sym k m)

-- On numbers that are not negative, the function is Pascal's triangle.
pub n_choose_k-binom : (n k : ℕ) → n_choose_k (pos n) (pos k) ≡ binom n k
unfolding n_choose_k choose_nat
n_choose_k-binom n k = elim (Bool-cases (ltb n k)) [
  | inl above ↦ rw above (sym (binom_above n k (ground arith)))
  | inr within ↦
      let m = n - k in
      let k≤n : k ≤ n = ground arith in
      rw within (elim (Bool-cases (ltb m k)) [
        | inr keep ↦ rw keep (either m k (omega arith))
        | inl swap ↦ rw swap (either k m (omega arith) ∙ mirrored n m k (omega arith))
      ])
]

binom_step : (n k : ℕ) → binom n k ≤ binom (suc n) k
binom_step n zero = omega arith
binom_step n (suc k) = omega arith

binom_mono : (c d k : ℕ) → binom c k ≤ binom (c + d) k
binom_mono c zero k = let e : c + 0 ≡ c = omega arith in rw e (omega arith)
binom_mono c (suc d) k =
    let e : c + suc d ≡ suc (c + d) = omega arith in
    rw e (omega (arith, binom_mono c d k, binom_step (c + d) k))

binom_pos : (m k : ℕ) → 0 < binom (m + k) k
binom_pos m zero = omega arith
binom_pos m (suc k) =
    let e : m + suc k ≡ suc (m + k) = omega arith in rw e (omega (arith, binom_pos m k))

binom_add : (a b k : ℕ) → binom a (suc k) + binom b (suc k) ≤ binom (a + b) (suc k)
binom_add a zero k = let e : a + 0 ≡ a = omega arith in rw e (omega arith)
binom_add a (suc b) k =
    let e : a + suc b ≡ suc (a + b) = omega arith in
    let e' : b + a ≡ a + b = omega arith in
    let grown = (let g = binom_mono b a k in rw e' at g) in
    rw e (omega (arith, binom_add a b k, grown))

-- With 1 <= k <= n the denominator of `_pass_hat_k` and `_pass_at_k` is not zero, and their two
-- numerators, for the successes and for the failures, are together at most the denominator.
pub n_choose_k-split :
    (successes failures k : ℕ)
    → suc k ≤ successes + failures
    → (0 < n_choose_k (pos (successes + failures)) (pos (suc k)))
      × (n_choose_k (pos successes) (pos (suc k)) + n_choose_k (pos failures) (pos (suc k))
          ≤ n_choose_k (pos (successes + failures)) (pos (suc k)))
n_choose_k-split a b k h =
    let n = a + b in
    let e : n ≡ (n - suc k) + suc k = omega arith in
    let positive = (let p = binom_pos (n - suc k) (suc k) in rw (sym e) at p) in
    rw (n_choose_k-binom n (suc k), n_choose_k-binom a (suc k), n_choose_k-binom b (suc k))
      (positive, binom_add a b k)
