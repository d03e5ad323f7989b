-- ===== src/Text/Hex.antt =====
-- `binascii.hexlify` and `binascii.unhexlify`, and the `_hex_encode` and `_hex_decode` of
-- Agent/db_client.py.
use dbagent_tree.Prelude.{
  ℕ, ◌+◌, ◌-◌, ◌*◌, ◌/◌, ◌%◌, ◌<◌, String, ◌≡◌, refl, ap, ◌∙◌, ◌&&◌, Option, none, some, List, [],
  ◌∷◌, arith, ltb, leb, if◌then◌else◌,
}
use dbagent_tree.Exec.{Result, ok, err}
use dbagent_tree.Text.Codes.{codes, from_codes, from_codes-codes, code-chr, IsCodePoint}
use dbagent_tree.Text.Utf8.{
  AllCodePoints, encode_codes, decode_strict, AllBytes, encode_codes-AllBytes, codes-AllCodePoints,
  decode-encode_text,
}

abbrev hex_digit : ℕ → ℕ
hex_digit n = if ltb n 10 then n + 48 else n + 87

abbrev hex_value : ℕ → Option ℕ
hex_value c =
    if leb 48 c && leb c 57
    then some (c - 48)
    else if leb 97 c && leb c 102
    then some (c - 87)
    else if leb 65 c && leb c 70
    then some (c - 55)
    else none

unfoldable pub hexlify : List ℕ → List ℕ
hexlify [] = []
hexlify (b ∷ bs) = hex_digit (b / 16) ∷ hex_digit (b % 16) ∷ hexlify bs

abbrev join_byte : Option ℕ → Option ℕ → Option (List ℕ) → Option (List ℕ)
join_byte (some h) (some l) (some bs) = some ((h * 16 + l) ∷ bs)
join_byte _ _ _ = none

-- `none` is a binascii.Error: a digit that is none, or an odd number of them.
unfoldable pub unhexlify : List ℕ → Option (List ℕ)
unhexlify [] = some []
unhexlify (c ∷ []) = none
unhexlify (c ∷ d ∷ cs) = join_byte (hex_value c) (hex_value d) (unhexlify cs)

hex_value-digit : (n : ℕ) → n < 16 → hex_value (hex_digit n) ≡ some n
hex_value-digit n h = ground arith

pub unhexlify-hexlify : (bs : List ℕ) → AllBytes bs → unhexlify (hexlify bs) ≡ some bs
unfolding hexlify unhexlify
unhexlify-hexlify [] h = refl
unhexlify-hexlify (b ∷ bs) h =
    ground (arith, hex_value-digit (b / 16), hex_value-digit (b % 16), unhexlify-hexlify bs h.1)

pub codes-from_codes : (ns : List ℕ) → AllCodePoints ns → codes (from_codes ns) ≡ ns
unfolding from_codes
codes-from_codes [] p = refl
codes-from_codes (n ∷ ns) p =
    ap (λ m. m ∷ codes (from_codes ns)) (code-chr n p.0)
    ∙ ap (λ ms. n ∷ ms) (codes-from_codes ns p.1)

hexlify-AllCodePoints : (bs : List ℕ) → AllBytes bs → AllCodePoints (hexlify bs)
unfolding hexlify
hexlify-AllCodePoints [] h = tt
hexlify-AllCodePoints (b ∷ bs) h = (
  digit-IsCodePoint (b / 16) (omega (arith, h.0)),
  (digit-IsCodePoint (b % 16) (omega arith), hexlify-AllCodePoints bs h.1),
)
  where
    digit-IsCodePoint : (n : ℕ) → n < 16 → IsCodePoint (hex_digit n)
    digit-IsCodePoint n k = ground arith

-- `AgentDBClient._hex_encode`
unfoldable pub hex_encode : String → String
unfolding encode_codes hexlify from_codes
hex_encode value = from_codes (hexlify (encode_codes (codes value)))

abbrev as_text : Option (List ℕ) → Result String
as_text none = err "codec error"
as_text (some ns) = ok (from_codes ns)

abbrev then_decode : Option (List ℕ) → Option (List ℕ)
then_decode none = none
then_decode (some bs) = decode_strict bs

-- `AgentDBClient._hex_decode`; the messages of the exceptions of `binascii` and of the codecs are
-- one text here.
unfoldable pub hex_decode : String → Result String
unfolding unhexlify decode_strict from_codes
hex_decode value = as_text (then_decode (unhexlify (codes value)))

-- Whatever the text, its hex form decodes to it.
pub hex_decode-encode : (value : String) → hex_decode (hex_encode value) ≡ ok value
unfolding hex_decode hex_encode
hex_decode-encode value =
    let bytes = encode_codes (codes value) in
    let small = encode_codes-AllBytes (codes value) (codes-AllCodePoints value) in
    ap (λ cs. as_text (then_decode (unhexlify cs)))
      (codes-from_codes (hexlify bytes) (hexlify-AllCodePoints bytes small))
    ∙ ap (λ o. as_text (then_decode o)) (unhexlify-hexlify bytes small)
    ∙ ap as_text (decode-encode_text value)
    ∙ ap ok (from_codes-codes value)
