-- ===== src/Python/Utf8.antt =====
-- `str.encode('utf-8')` and `bytes.decode('utf-8')`. A text is a list of Unicode scalar values, so a
-- `str` with a lone surrogate, which `encode` refuses, is not a value of the model.
pub mod RoundTrip
use Prim.Native.Nat.{compare, Ordering}
use mathlib.Core.Option
use mathlib.Core.Logic.{dite}
use Prim.Native.Char.{Char, char, code, IsScalar}
use native.Mathlib.Decide.{dec_lt}
use pulsar_client_python.Base.{
  ℕ, zero, suc, ◌+◌, ◌*◌, ◌/◌, ◌%◌, ◌-◌, ◌<◌, ◌≤◌, String, ◌≡◌, refl, Bool, ◌&&◌, ◌||◌, Option,
  none, some, List, [], ◌∷◌, ◌++◌, arith, ltb, leb, ◌==◌, if◌then◌else◌,
}

abbrev pub Bytes : Type 0
Bytes = List ℕ

-- The continuation byte that holds the six bits of `n` above `2 ^ k`.
abbrev tail_byte : ℕ → ℕ
tail_byte n = 128 + n % 64

encode_code : ℕ → Bytes
encode_code n =
    if ltb n 0x80
    then n ∷ []
    else if ltb n 0x800
    then (0xC0 + n / 64) ∷ tail_byte n ∷ []
    else if ltb n 0x10000
    then (0xE0 + n / 4096) ∷ tail_byte (n / 64) ∷ tail_byte n ∷ []
    else (0xF0 + n / 262144) ∷ tail_byte (n / 4096) ∷ tail_byte (n / 64) ∷ tail_byte n ∷ []

unfoldable pub encode : String → Bytes
unfolding encode_code
encode String.[] = []
encode (String.◌∷◌ c s) = encode_code (code c) ++ encode s

-- What is still to come of the character that is being read: the number of continuation bytes, the
-- bits so far, and the least code that needs so many bytes.
record Pending : Type 0 where
  need : ℕ
  bits : ℕ
  least : ℕ

abbrev idle : Pending
idle = record { need = 0; bits = 0; least = 0 }

pub IsScalar-low : (n : ℕ) → n < 0xD800 → IsScalar n
IsScalar-low n h = let e : compare n 0xD800 ≡ Ordering.lt = ground arith in rw e tt

pub IsScalar-high : (n : ℕ) → 0xDFFF < n → n < 0x110000 → IsScalar n
IsScalar-high n h k =
    let e : compare n 0xD800 ≡ Ordering.gt = ground arith in
    let f : compare 0xDFFF n ≡ Ordering.lt = ground arith in
    let g : compare n 0x110000 ≡ Ordering.lt = ground arith in rw (e, f, g) tt

-- The character of a code, if the code is that of a Unicode scalar value.
to_char : ℕ → Option Char
to_char n =
    dite (dec_lt n 0xD800) (λ h. some (char n (IsScalar-low n h)))
      λ _.
        dite (dec_lt 0xDFFF n)
          (λ h. dite (dec_lt n 0x110000) (λ k. some (char n (IsScalar-high n h k))) (λ _. none))
          (λ _. none)

start : ℕ → ℕ → ℕ → Option (Pending × Option Char)
start need bits least = some (record { need = need; bits = bits; least = least }, none)

finish : ℕ → Option (Pending × Option Char)
finish n = elim (to_char n) [ none ↦ none | some c ↦ some (idle, some c) ]

-- One byte of the input.
step : Pending → ℕ → Option (Pending × Option Char)
unfolding start finish
step p b =
    if p.need == 0
    then (if ltb b 0x80
        then finish b
        else if ltb b 0xC0
        then none
        else if ltb b 0xE0
        then start 1 (b - 0xC0) 0x80
        else if ltb b 0xF0
        then start 2 (b - 0xE0) 0x800
        else if ltb b 0xF8
        then start 3 (b - 0xF0) 0x10000
        else none)
    else if ltb b 0x80 || leb 0xC0 b
    then none
    else if ltb 1 p.need
    then start (p.need - 1) (p.bits * 64 + (b - 0x80)) p.least
    else if ltb (p.bits * 64 + (b - 0x80)) p.least
    then none
    else finish (p.bits * 64 + (b - 0x80))

abbrev emit : Option Char → String → String
emit none s = s
emit (some c) s = String.◌∷◌ c s

decode_from : Pending → Bytes → Option String
unfolding step
decode_from p [] = if p.need == 0 then some String.[] else none
decode_from p (b ∷ bs) = elim (step p b) [
  | none ↦ none
  | some (p', out) ↦ Option.map (emit out) (decode_from p' bs)
]

-- `none` is a UnicodeDecodeError.
unfoldable pub decode : Bytes → Option String
unfolding decode_from to_char dec_lt
decode = decode_from idle

encode_test : encode "aé€😀" ≡ 97 ∷ 195 ∷ 169 ∷ 226 ∷ 130 ∷ 172 ∷ 240 ∷ 159 ∷ 152 ∷ 128 ∷ []
unfolding encode
encode_test = refl

decode_test : decode (encode "aé€😀") ≡ some "aé€😀"
unfolding encode decode
decode_test = refl

decode_overlong : decode (0xC0 ∷ 0x80 ∷ []) ≡ none
unfolding decode
decode_overlong = refl
