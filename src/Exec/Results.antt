-- ===== src/Exec/Results.antt =====
-- `do` blocks for code that may raise and changes nothing.
use dbagent_tree.Prelude.{◌≡◌, refl}
use dbagent_tree.Exec.{Result, ok, err, hang}

infixl 5 ◌>>=◌
abbrev pub ◌>>=◌ {ℓ κ} : {A : Type ℓ} {B : Type κ} → Result A → (A → Result B) → Result B
ok a >>= f = f a
err m >>= f = err m
hang >>= f = hang

-- A `do` block that returns has its first part return.
pub bind_ok {ℓ κ} :
    {A : Type ℓ} {B : Type κ} {b : B} (r : Result A) (f : A → Result B)
    → (r >>= f) ≡ ok b
    → (a : A) × (r ≡ ok a) × (f a ≡ ok b)
bind_ok (ok a) f h = (a, refl, h)
bind_ok (err m) f h = absurd (cc)
bind_ok hang f h = absurd (cc)
