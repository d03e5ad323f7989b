-- ===== src/Text/Words.antt =====
-- The methods of `str` that Agent/db_client.py and Agent/tools/kv_tools.py call: upper, startswith,
-- `in`, strip, split, join, slices, and `int` of a text. Only ASCII letters have a case and only
-- ASCII digits are digits here.
use Prim.Native.String
use native.Mathlib.Decide.{dec_lt}
use mathlib.Core.List.{reverse}
use dbagent_tree.Prelude.{
  ℕ, zero, suc, ◌+◌, ◌-◌, ◌*◌, String, ◌≡◌, refl, Bool, true, false, ◌&&◌, ◌||◌, Option, none, some,
  List, [], ◌∷◌, leb, nat_eq, ◌==◌, if◌then◌else◌, ℤ, pos, negsuc,
}
use dbagent_tree.Text.Codes.{codes, from_codes}

abbrev pub upper_code : ℕ → ℕ
upper_code c = if leb 97 c && leb c 122 then c - 32 else c

abbrev lower_code : ℕ → ℕ
lower_code c = if leb 65 c && leb c 90 then c + 32 else c

-- `text.upper()`
abbrev pub upper : String → List ℕ
upper String.[] = []
upper (String.◌∷◌ c s) = upper_code (Prim.Native.Char.code c) ∷ upper s

-- `text.startswith(prefix)`
abbrev pub starts_with : List ℕ → List ℕ → Bool
starts_with text [] = true
starts_with [] (p ∷ ps) = false
starts_with (c ∷ cs) (p ∷ ps) = c == p && starts_with cs ps

-- `part in text`
abbrev pub has_part : List ℕ → List ℕ → Bool
has_part part [] = starts_with [] part
has_part part (c ∷ cs) = starts_with (c ∷ cs) part || has_part part cs

-- `text[n:]`
abbrev pub drop : ℕ → String → String
drop zero s = s
drop (suc n) String.[] = ""
drop (suc n) (String.◌∷◌ c s) = drop n s

-- What `str.isspace` holds of.
abbrev pub is_space : ℕ → Bool
is_space c =
    (leb 9 c && leb c 13)
    || (leb 28 c && leb c 32)
    || c == 133
    || c == 160
    || c == 5760
    || (leb 8192 c && leb c 8202)
    || c == 8232
    || c == 8233
    || c == 8239
    || c == 8287
    || c == 12288

unfoldable pub drop_while : (ℕ → Bool) → List ℕ → List ℕ
drop_while p [] = []
drop_while p (c ∷ cs) = let rest = drop_while p cs in if p c then rest else c ∷ cs

-- `lstrip`, `rstrip` and `strip` over a class of characters.
unfoldable pub lstrip_by : (ℕ → Bool) → String → String
unfolding drop_while from_codes
lstrip_by p s = from_codes (drop_while p (codes s))

unfoldable pub rstrip_by : (ℕ → Bool) → String → String
unfolding drop_while from_codes
rstrip_by p s = from_codes (reverse (drop_while p (reverse (codes s))))

unfoldable pub strip : String → String
unfolding drop_while from_codes
strip s = from_codes (reverse (drop_while is_space (reverse (drop_while is_space (codes s)))))

abbrev end_word : List ℕ → List String → List String
end_word [] words = words
end_word word words = from_codes (reverse word) ∷ words

-- `text.split()`: the words between runs of white space. The word that is being read is kept in
-- reverse.
unfoldable pub split_from : List ℕ → List ℕ → List String
split_from word [] = end_word word []
split_from word (c ∷ cs) =
    let rest = split_from [] cs in
    let more = split_from (c ∷ word) cs in if is_space c then end_word word rest else more

unfoldable pub split : String → List String
unfolding split_from from_codes
split s = split_from [] (codes s)

-- What stands behind the first n spaces, if there are so many: `text.split(" ", n)[n]`.
unfoldable pub after_spaces : ℕ → List ℕ → Option (List ℕ)
after_spaces zero cs = some cs
after_spaces (suc n) [] = none
after_spaces (suc n) (c ∷ cs) =
    let skip = after_spaces (suc n) cs in
    let here = after_spaces n cs in if c == 32 then here else skip

-- `" ".join(parts)`
unfoldable pub join_space : List String → String
join_space [] = ""
join_space (p ∷ []) = p
join_space (p ∷ q ∷ ps) = String.◌++◌ p (String.◌++◌ " " (join_space (q ∷ ps)))

-- The digits of `int`: single underscores may stand between two of them.
digits_from : ℕ → Bool → List ℕ → Option ℕ
digits_from n after_digit [] = if after_digit then some n else none
digits_from n after_digit (c ∷ cs) =
    let digit = digits_from (n * 10 + (c - 48)) true cs in
    let gap = digits_from n false cs in
    if leb 48 c && leb c 57 then digit else if c == 95 && after_digit then gap else none

abbrev negated : Option ℕ → Option ℤ
negated none = none
negated (some zero) = some (pos zero)
negated (some (suc n)) = some (negsuc n)

abbrev positive : Option ℕ → Option ℤ
positive none = none
positive (some n) = some (pos n)

signed : List ℕ → Option ℤ
signed [] = none
signed (c ∷ cs) =
    if c == 45
    then negated (digits_from 0 false cs)
    else if c == 43
    then positive (digits_from 0 false cs)
    else positive (digits_from 0 false (c ∷ cs))

-- `int(text)`; `none` is a ValueError.
unfoldable pub parse_int : String → Option ℤ
unfolding strip signed digits_from
parse_int s = signed (codes (strip s))

lower_codes : List ℕ → List ℕ
lower_codes [] = []
lower_codes (c ∷ cs) = lower_code c ∷ lower_codes cs

-- `text.lower()`
unfoldable pub lower : String → String
unfolding from_codes lower_codes
lower s = from_codes (lower_codes (codes s))

split_test : split " OK  VALUES 2 " ≡ "OK" ∷ "VALUES" ∷ "2" ∷ []
unfolding split dec_lt
split_test = refl

parse_int_test : parse_int " -12 " ≡ some (negsuc 11)
unfolding parse_int dec_lt
parse_int_test = refl
