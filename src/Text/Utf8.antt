-- ===== src/Text/Utf8.antt =====
-- `str.encode("utf-8")` and `bytes.decode("utf-8")`, strict and with errors="replace".
use dbagent_tree.Prelude.{
  ℕ, zero, suc, ◌+◌, ◌-◌, ◌*◌, ◌/◌, ◌%◌, ◌<◌, ◌≤◌, String, ◌≡◌, refl, ap, ◌&&◌, Option, none, some,
  List, [], ◌∷◌, arith, ltb, leb, lt→ltb, le→ltb, if◌then◌else◌, nat_eq, ◌==◌, length,
}
use mathlib.Core.List.{◌++◌}
use dbagent_tree.Text.Codes.{codes, IsCodePoint, code-IsCodePoint}
use native.Mathlib.Decide.{dec_lt}

-- The bytes of one code point.
unfoldable pub encode_code : ℕ → List ℕ
encode_code n =
    if ltb n 128
    then n ∷ []
    else if ltb n 2048
    then (192 + n / 64) ∷ (128 + n % 64) ∷ []
    else if ltb n 65536
    then (224 + n / 4096) ∷ (128 + n / 64 % 64) ∷ (128 + n % 64) ∷ []
    else (240 + n / 262144) ∷ (128 + n / 4096 % 64) ∷ (128 + n / 64 % 64) ∷ (128 + n % 64) ∷ []

unfoldable pub encode_codes : List ℕ → List ℕ
unfolding encode_code
encode_codes [] = []
encode_codes (n ∷ ns) = encode_code n ++ encode_codes ns

-- The continuation bytes of a code point of which `acc` is read; the first of them lies between
-- `lo` and `hi`. `none` is an error, with the bytes at which the decoder goes on.
continuation : ℕ → ℕ → ℕ → ℕ → List ℕ → Option ℕ × List ℕ
continuation zero acc lo hi bytes = (some acc, bytes)
continuation (suc left) acc lo hi [] = (none, [])
continuation (suc left) acc lo hi (b ∷ bytes) =
    let rest = continuation left (acc * 64 + (b - 128)) 128 191 bytes in
    if leb lo b && leb b hi then rest else (none, b ∷ bytes)

-- One code point, or an error, from a lead byte and the bytes behind it.
decode_code : ℕ → List ℕ → Option ℕ × List ℕ
unfolding continuation
decode_code b bytes =
    if ltb b 128
    then (some b, bytes)
    else if ltb b 194
    then (none, bytes)
    else if ltb b 224
    then continuation 1 (b - 192) 128 191 bytes
    else if b == 224
    then continuation 2 0 160 191 bytes
    else if b == 237
    then continuation 2 13 128 159 bytes
    else if ltb b 240
    then continuation 2 (b - 224) 128 191 bytes
    else if b == 240
    then continuation 3 0 144 191 bytes
    else if ltb b 244
    then continuation 3 (b - 240) 128 191 bytes
    else if b == 244
    then continuation 3 4 128 143 bytes
    else (none, bytes)

abbrev prepend : ℕ → Option (List ℕ) → Option (List ℕ)
prepend n none = none
prepend n (some ns) = some (n ∷ ns)

-- The decoders take a byte or more a round, so as many rounds as there are bytes are enough.
decode_rounds : ℕ → (Option ℕ → Option ℕ) → List ℕ → Option (List ℕ)
decode_rounds fuel handler [] = some []
decode_rounds zero handler (b ∷ bytes) = none
decode_rounds (suc fuel) handler (b ∷ bytes) =
    let (got, rest) = decode_code b bytes in
    let more = decode_rounds fuel handler rest in
    elim (handler got) [ none ↦ none | some n ↦ prepend n more ]

-- errors="strict"; `none` is a UnicodeDecodeError.
unfoldable pub decode_strict : List ℕ → Option (List ℕ)
unfolding decode_rounds decode_code
decode_strict bytes = decode_rounds (length bytes) (λ got. got) bytes

-- What reads back: a lead byte and its continuation give the code point and leave the rest.
abbrev Reads : ℕ → List ℕ → List ℕ → Type 0
Reads n rest [] = ⊥
Reads n rest (b ∷ bytes) = decode_code b bytes ≡ (some n, rest)

one_byte : (n : ℕ) (rest : List ℕ) → n < 128 → Reads n rest (encode_code n ++ rest)
unfolding encode_code decode_code
one_byte n rest h = rw (lt→ltb n 128 h) (rw (lt→ltb n 128 h))

two_bytes : (n : ℕ) (rest : List ℕ) → 128 ≤ n → n < 2048 → Reads n rest (encode_code n ++ rest)
unfolding encode_code decode_code
two_bytes n rest g h = rw (le→ltb n 128 g, lt→ltb n 2048 h) (ground arith)

three_bytes :
    (n : ℕ) (rest : List ℕ)
    → 2048 ≤ n
    → n < 65536
    → IsCodePoint n
    → Reads n rest (encode_code n ++ rest)
unfolding encode_code decode_code
three_bytes n rest g h p =
    rw (le→ltb n 128 (omega arith), le→ltb n 2048 g, lt→ltb n 65536 h) (ground arith)

four_bytes :
    (n : ℕ) (rest : List ℕ) → 65536 ≤ n → n < 1114112 → Reads n rest (encode_code n ++ rest)
unfolding encode_code decode_code
four_bytes n rest g h =
    rw (le→ltb n 128 (omega arith), le→ltb n 2048 (omega arith), le→ltb n 65536 g) (ground arith)

Reads-encode : (n : ℕ) (rest : List ℕ) → IsCodePoint n → Reads n rest (encode_code n ++ rest)
Reads-encode n rest p = elim (dec_lt n 128) [
  | yes a ↦ one_byte n rest a
  | no a ↦ elim (dec_lt n 2048) [
    | yes b ↦ two_bytes n rest (omega arith) b
    | no b ↦ elim (dec_lt n 65536) [
      | yes c ↦ three_bytes n rest (omega arith) c p
      | no c ↦ four_bytes n rest (omega arith) (omega arith)
    ]
  ]
]

abbrev pub AllCodePoints : List ℕ → Type 0
AllCodePoints [] = Unit
AllCodePoints (n ∷ ns) = IsCodePoint n × AllCodePoints ns

pub codes-AllCodePoints : (s : String) → AllCodePoints (codes s)
codes-AllCodePoints String.[] = tt
codes-AllCodePoints (String.◌∷◌ c s) = (code-IsCodePoint c, codes-AllCodePoints s)

-- A round that reads a code point puts it before what the other rounds read.
one_round :
    (handler : Option ℕ → Option ℕ) (fuel n : ℕ) (rest ns bytes : List ℕ)
    → handler (some n) ≡ some n
    → Reads n rest bytes
    → decode_rounds fuel handler rest ≡ some ns
    → decode_rounds (suc fuel) handler bytes ≡ some (n ∷ ns)
unfolding decode_rounds
one_round handler fuel n rest ns [] k r e = absurd r
one_round handler fuel n rest ns (b ∷ bytes) k r e =
    let got : (decode_code b bytes).0 ≡ some n = ap (λ p. p.0) r in
    let left : (decode_code b bytes).1 ≡ rest = ap (λ p. p.1) r in
    simp (got, left, k, e, decode_rounds) refl

decode_rounds-encode :
    (handler : Option ℕ → Option ℕ) (fuel : ℕ) (ns : List ℕ)
    → ((n : ℕ) → handler (some n) ≡ some n)
    → AllCodePoints ns
    → length ns ≤ fuel
    → decode_rounds fuel handler (encode_codes ns) ≡ some ns
unfolding encode_codes
decode_rounds-encode handler zero [] k p h = unfold decode_rounds in refl
decode_rounds-encode handler (suc fuel) [] k p h = unfold decode_rounds in refl
decode_rounds-encode handler zero (n ∷ ns) k p h = absurd (omega arith)
decode_rounds-encode handler (suc fuel) (n ∷ ns) k p h =
    one_round handler fuel n (encode_codes ns) ns (encode_code n ++ encode_codes ns) (k n)
      (Reads-encode n (encode_codes ns) p.0)
      (decode_rounds-encode handler fuel ns k p.1 (omega arith))

length-append : (xs ys : List ℕ) → length (xs ++ ys) ≡ length xs + length ys
length-append [] ys = omega arith
length-append (x ∷ xs) ys = omega (arith, length-append xs ys)

encode_code-nonempty : (n : ℕ) → 1 ≤ length (encode_code n)
unfolding encode_code
encode_code-nonempty n = ground arith

length-encode_codes : (ns : List ℕ) → length ns ≤ length (encode_codes ns)
unfolding encode_codes
length-encode_codes [] = omega arith
length-encode_codes (n ∷ ns) = omega (
  arith,
  length-append (encode_code n) (encode_codes ns),
  encode_code-nonempty n,
  length-encode_codes ns,
)

-- Decoding what was encoded gives it back.
pub decode-encode : (ns : List ℕ) → AllCodePoints ns → decode_strict (encode_codes ns) ≡ some ns
unfolding decode_strict
decode-encode ns p =
    decode_rounds-encode (λ got. got) (length (encode_codes ns)) ns (λ n. refl) p
      (length-encode_codes ns)

pub decode-encode_text : (s : String) → decode_strict (encode_codes (codes s)) ≡ some (codes s)
decode-encode_text s = decode-encode (codes s) (codes-AllCodePoints s)

-- errors="replace": U+FFFD for each error.
abbrev replaced : Option ℕ → Option ℕ
replaced none = some 65533
replaced (some n) = some n

abbrev or_empty : Option (List ℕ) → List ℕ
or_empty none = []
or_empty (some ns) = ns

unfoldable pub decode_replace : List ℕ → List ℕ
unfolding decode_rounds decode_code
decode_replace bytes = or_empty (decode_rounds (length bytes) replaced bytes)

-- Without errors, it decodes like the strict decoder.
pub decode_replace-encode_text : (s : String) → decode_replace (encode_codes (codes s)) ≡ codes s
unfolding decode_replace
decode_replace-encode_text s = ap or_empty (
    decode_rounds-encode replaced (length (encode_codes (codes s))) (codes s) (λ n. refl)
      (codes-AllCodePoints s) (length-encode_codes (codes s)))

-- Every byte is a byte.
abbrev pub AllBytes : List ℕ → Type 0
AllBytes [] = Unit
AllBytes (b ∷ bs) = (b < 256) × AllBytes bs

AllBytes-append : (xs ys : List ℕ) → AllBytes xs → AllBytes ys → AllBytes (xs ++ ys)
AllBytes-append [] ys h k = k
AllBytes-append (x ∷ xs) ys h k = (h.0, AllBytes-append xs ys h.1 k)

encode_code-AllBytes : (n : ℕ) → IsCodePoint n → AllBytes (encode_code n)
unfolding encode_code
encode_code-AllBytes n p = ground arith

pub encode_codes-AllBytes : (ns : List ℕ) → AllCodePoints ns → AllBytes (encode_codes ns)
unfolding encode_codes
encode_codes-AllBytes [] p = tt
encode_codes-AllBytes (n ∷ ns) p =
    AllBytes-append (encode_code n) (encode_codes ns) (encode_code-AllBytes n p.0)
      (encode_codes-AllBytes ns p.1)

replace_tail : decode_replace (104 ∷ 226 ∷ 130 ∷ 104 ∷ []) ≡ 104 ∷ 65533 ∷ 104 ∷ []
unfolding decode_replace
replace_tail = refl
