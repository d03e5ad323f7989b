-- ===== src/Text/Codes.antt =====
-- A text and its code points.
use Prim.Native.Nat.{compare, Ordering}
use Prim.Native.Char.{Char, char, code, nul, IsScalar}
use Prim.Native.String.append
use mathlib.Core.List
use mathlib.Core.Logic.{dite, dif_pos, dif_neg}
use native.Mathlib.Decide.{dec_lt}
use native.Mathlib.Bridge.{le_prop}
use text.Mathlib.TextEquality.{Char-path}
use dbagent_tree.Prelude.{
  ℕ, ◌<◌, ◌⊎◌, inl, inr, String, ◌++◌, ◌≡◌, refl, ap, ◌∙◌, List, [], ◌∷◌, arith,
}

abbrev pub codes : String → List ℕ
codes String.[] = []
codes (String.◌∷◌ c s) = code c ∷ codes s

low-IsScalar : (n : ℕ) → n < 55296 → IsScalar n
low-IsScalar n h = let e : compare n 55296 ≡ Ordering.lt = ground arith in rw e tt

high-IsScalar : (n : ℕ) → 57343 < n → n < 1114112 → IsScalar n
high-IsScalar n h k =
    let e : compare n 55296 ≡ Ordering.gt = ground arith in
    let f : compare 57343 n ≡ Ordering.lt = ground arith in
    let g : compare n 1114112 ≡ Ordering.lt = ground arith in rw (e, f, g) tt

-- Where a code point stands: below the surrogates, or above them.
abbrev pub IsCodePoint : ℕ → Type 0
IsCodePoint n = (n < 55296) ⊎ ((57343 < n) × (n < 1114112))

point_by :
    (n : ℕ) (a b c : Ordering)
    → compare n 55296 ≡ a
    → compare 57343 n ≡ b
    → compare n 1114112 ≡ c
    → IsScalar n
    → IsCodePoint n
point_by n Ordering.lt b c ea eb ec p = inl (ground arith)
point_by n Ordering.eq Ordering.lt c ea eb ec p = absurd (ground arith)
point_by n Ordering.eq Ordering.eq c ea eb ec p = absurd (rw (ea, eb) at p)
point_by n Ordering.eq Ordering.gt c ea eb ec p = absurd (rw (ea, eb) at p)
point_by n Ordering.gt Ordering.lt Ordering.lt ea eb ec p = inr (ground arith, ground arith)
point_by n Ordering.gt Ordering.lt Ordering.eq ea eb ec p = absurd (rw (ea, eb, ec) at p)
point_by n Ordering.gt Ordering.lt Ordering.gt ea eb ec p = absurd (rw (ea, eb, ec) at p)
point_by n Ordering.gt Ordering.eq c ea eb ec p = absurd (rw (ea, eb) at p)
point_by n Ordering.gt Ordering.gt c ea eb ec p = absurd (rw (ea, eb) at p)

pub code-IsCodePoint : (c : Char) → IsCodePoint (code c)
code-IsCodePoint (char n p) =
    point_by n (compare n 55296) (compare 57343 n) (compare n 1114112) refl refl refl p

-- `chr`, with U+0000 where Python raises.
unfoldable pub chr : ℕ → Char
unfolding low-IsScalar high-IsScalar
chr n =
    dite (dec_lt n 55296) (λ h. char n (low-IsScalar n h))
      (λ _.
        dite (dec_lt 57343 n)
          (λ h. dite (dec_lt n 1114112) (λ k. char n (high-IsScalar n h k)) (λ _. nul)) (λ _. nul))

pub code-chr : (n : ℕ) → IsCodePoint n → code (chr n) ≡ n
unfolding chr
code-chr n (inl h) = ap code (dif_pos (dec_lt n 55296) le_prop h _ _)
code-chr n (inr (h, k)) =
    ap code (dif_neg (dec_lt n 55296) (λ q. absurd (omega arith)) _ _)
    ∙ ap code (dif_pos (dec_lt 57343 n) le_prop h _ _)
    ∙ ap code (dif_pos (dec_lt n 1114112) le_prop k _ _)

chr-code : (c : Char) → chr (code c) ≡ c
chr-code c = Char-path (chr (code c)) c (code-chr (code c) (code-IsCodePoint c))

unfoldable pub from_codes : List ℕ → String
unfolding chr
from_codes [] = ""
from_codes (n ∷ ns) = String.◌∷◌ (chr n) (from_codes ns)

pub from_codes-codes : (s : String) → from_codes (codes s) ≡ s
unfolding from_codes
from_codes-codes String.[] = refl
from_codes-codes (String.◌∷◌ c s) = λ i. String.◌∷◌ (chr-code c i) (from_codes-codes s i)

pub codes-append : (s t : String) → codes (s ++ t) ≡ List.◌++◌ (codes s) (codes t)
codes-append String.[] t = ap codes (append.nil t)
codes-append (String.◌∷◌ c s) t =
    ap codes (append.cons c s t) ∙ ap (λ ns. code c ∷ ns) (codes-append s t)

t1 : from_codes (104 ∷ 955 ∷ []) ≡ "hλ"
unfolding from_codes dec_lt
t1 = refl
