-- ===== src/Exec.antt =====
-- Python's methods that change an object and may raise.
pub mod Results
use dbagent_tree.Prelude.{String, Bool, true, false, Option, none, some}

-- `err m` is an exception whose `str` is `m`. `hang` is a loop that does not end.
pub data Result {ℓ} (A : Type ℓ) : Type ℓ where
  ok : A → Result A
  err : String → Result A
  hang : Result A

-- What was written before a raise stays written, so the state comes back beside an error too.
abbrev pub Exec {ℓ} : Type ℓ → Type ℓ → Type ℓ
Exec S A = S → Result A × S

module _ {ℓ} {S A : Type ℓ} where
  abbrev pub pure : A → Exec S A
  pure a s = (ok a, s)

  abbrev pub raise : String → Exec S A
  raise m s = (err m, s)

  abbrev pub gets : (S → A) → Exec S A
  gets f s = (ok (f s), s)

  abbrev pub or_raise : Option A → String → Exec S A
  or_raise none m = raise m
  or_raise (some a) _ = pure a

  abbrev pub lift : Result A → Exec S A
  lift r s = (r, s)

module _ {ℓ} {S A B : Type ℓ} where
  abbrev pub continue : Result A → (A → Exec S B) → Exec S B
  continue (ok a) f s = f a s
  continue (err m) f s = (err m, s)
  continue hang f s = (hang, s)

  infixl 5 ◌>>=◌ ◌>>◌
  abbrev pub ◌>>=◌ : Exec S A → (A → Exec S B) → Exec S B
  ◌>>=◌ m f s = let (r, s') = m s in continue r f s'

  abbrev pub ◌>>◌ : Exec S A → Exec S B → Exec S B
  m >> n = m >>= λ _. n

abbrev pub raise_if : {S : Type 0} → Bool → String → Exec S (Unit {0})
raise_if true m s = (err m, s)
raise_if false m s = (ok tt, s)

abbrev pub modify : {S : Type 0} → (S → S) → Exec S (Unit {0})
modify f s = (ok tt, f s)

-- What holds of the state when a call ends, and is kept by what follows, holds at the end.
pub continue_keeps {ℓ κ} :
    {S A B : Type ℓ} (P : S → Type κ) (r : Result A) (f : A → Exec S B) (s : S)
    → P s
    → ((a : A) → P (f a s).1)
    → P (continue r f s).1
continue_keeps P (ok a) f s h k = k a
continue_keeps P (err m) f s h k = h
continue_keeps P hang f s h k = h

-- `try: m except Exception as exc: handler(str(exc))`
abbrev pub handle {ℓ} : {S A : Type ℓ} → Result A → (String → Exec S A) → Exec S A
handle (ok a) handler s = (ok a, s)
handle (err m) handler s = handler m s
handle hang handler s = (hang, s)

abbrev pub catch {ℓ} : {S A : Type ℓ} → Exec S A → (String → Exec S A) → Exec S A
catch m handler s = let (r, s') = m s in handle r handler s'

-- The end of a `finally` block: the result stands, unless the block itself raised.
abbrev pub settle {ℓ} : {A : Type ℓ} → Result A → Result (Unit {0}) → Result A
settle r (ok _) = r
settle r (err m) = err m
settle r hang = hang

-- `try: m finally: cleanup`
abbrev pub finally : {S A : Type 0} → Exec S A → Exec S (Unit {0}) → Exec S A
finally m cleanup s = let (r, s') = m s in let (c, s'') = cleanup s' in (settle r c, s'')
