-- ===== src/Prelude/Int.antt =====
-- Python's `int` over the native numbers, as far as the program uses it on branch ids and counts.
use Prim.Native.Nat.{ℕ}
use mathlib.Core.Path.{◌≡◌}
use mathlib.Core.Logic.{◌↔◌}
use mathlib.Core.Bool.{Bool, true, false}
use native.Mathlib.Omega.{arith}
use dbagent_tree.Prelude.Tests.{nat_same, Eq}

-- `negsuc n` is -(n + 1).
pub data ℤ : Type 0 where
  pos : ℕ → ℤ
  negsuc : ℕ → ℤ

abbrev pub int_same : ℤ → ℤ → Bool
int_same (pos a) (pos b) = nat_same a b
int_same (negsuc a) (negsuc b) = nat_same a b
int_same _ _ = false

pub int_same_iff : (a b : ℤ) → (int_same a b ≡ true) ↔ (a ≡ b)
int_same_iff (pos a) (pos b) = ground arith
int_same_iff (negsuc a) (negsuc b) = ground arith
int_same_iff (pos a) (negsuc b) = ground arith
int_same_iff (negsuc a) (pos b) = ground arith

instance abbrev pub int_eq : Eq ℤ
int_eq = record { same = int_same; same_iff = int_same_iff }

-- `max(0, n)`, as a number of rounds.
abbrev pub pos_part : ℤ → ℕ
pos_part (pos n) = n
pos_part (negsuc _) = 0
