-- ===== src/Python/Utf8/RoundTrip.antt =====
-- What `encode` writes, `decode` reads back.
use Prim.Native.Char.{Char, char, code}
use mathlib.Core.Option
use mathlib.Core.Logic.{dif_pos, dif_neg}
use text.Mathlib.TextEquality.{Char-path}
use native.Mathlib.Decide.{dec_lt}
use native.Mathlib.Bridge.{le_prop}
use pulsar_client_python.Base.{
  ℕ, ◌+◌, ◌*◌, ◌/◌, ◌%◌, ◌<◌, ◌≤◌, String, ◌≡◌, refl, ap, ◌∙◌, Option, none, some, [], ◌∷◌, ◌++◌,
  arith, inl, inr, ◌⊎◌,
}
use pulsar_client_python.Python.Utf8.{
  Bytes, Pending, idle, to_char, finish, start, step, emit, decode_from, decode, encode_code,
  encode,
}

-- The code of a character is that of a scalar value.
code_range : (c : Char) → (code c < 0xD800) ⊎ ((0xDFFF < code c) × (code c < 0x110000))
code_range (char n p) = ground arith

to_char-code : (c : Char) → to_char (code c) ≡ some c
unfolding to_char
to_char-code c = elim (code_range c) [
  | inl h ↦ rw (dif_pos (dec_lt (code c) 0xD800) le_prop h) (ap some (Char-path _ _ refl))
  | inr (h, k) ↦
      rw
        (
          dif_neg (dec_lt (code c) 0xD800) (omega arith),
          dif_pos (dec_lt 0xDFFF (code c)) le_prop h,
          dif_pos (dec_lt (code c) 0x110000) le_prop k,
        )
        (ap some (Char-path _ _ refl))
]

lead_two : (x : ℕ) → x < 32 → step idle (0xC0 + x) ≡ start 1 x 0x80
unfolding step
lead_two x h = ground arith

lead_three : (x : ℕ) → x < 16 → step idle (0xE0 + x) ≡ start 2 x 0x800
unfolding step
lead_three x h = ground arith

lead_four : (x : ℕ) → x < 8 → step idle (0xF0 + x) ≡ start 3 x 0x10000
unfolding step
lead_four x h = ground arith

more_two :
    (x bits least : ℕ)
    → x < 64
    → step (record { need = 2; bits = bits; least = least }) (128 + x)
      ≡ start 1 (bits * 64 + x) least
unfolding step
more_two x bits least h = ground arith

more_three :
    (x bits least : ℕ)
    → x < 64
    → step (record { need = 3; bits = bits; least = least }) (128 + x)
      ≡ start 2 (bits * 64 + x) least
unfolding step
more_three x bits least h = ground arith

one : (n : ℕ) → n < 0x80 → step idle n ≡ finish n
unfolding step
one n h = ground arith

last :
    (x bits least : ℕ) (n : ℕ)
    → x < 64
    → n ≡ bits * 64 + x
    → least ≤ n
    → step (record { need = 1; bits = bits; least = least }) (128 + x) ≡ finish n
unfolding step
last x bits least n h e l = ground arith

map-emit_none : (o : Option String) → Option.map (emit none) o ≡ o
map-emit_none none = refl
map-emit_none (some s) = refl

finish-code : (c : Char) → finish (code c) ≡ some (idle, some c)
unfolding finish
finish-code c = rw (to_char-code c, finish) refl

-- A byte that completes no character only changes the state.
decode_from-start :
    (p q : Pending) (b : ℕ) (bs : Bytes)
    → step p b ≡ some (q, none)
    → decode_from p (b ∷ bs) ≡ decode_from q bs
unfolding decode_from
decode_from-start p q b bs e = rw (e, decode_from) (map-emit_none (decode_from q bs))

decode_from-finish :
    (p : Pending) (b : ℕ) (bs : Bytes) (c : Char)
    → step p b ≡ finish (code c)
    → decode_from p (b ∷ bs) ≡ Option.map (String.◌∷◌ c) (decode_from idle bs)
unfolding decode_from finish
decode_from-finish p b bs c e = rw (e ∙ finish-code c, decode_from) refl

encode_one : (n : ℕ) → n < 0x80 → encode_code n ≡ n ∷ []
unfolding encode_code
encode_one n h = ground arith

encode_two : (n : ℕ) → 0x80 ≤ n → n < 0x800 → encode_code n ≡ (0xC0 + n / 64) ∷ (128 + n % 64) ∷ []
unfolding encode_code
encode_two n h k = ground arith

encode_three :
    (n : ℕ)
    → 0x800 ≤ n
    → n < 0x10000
    → encode_code n ≡ (0xE0 + n / 4096) ∷ (128 + n / 64 % 64) ∷ (128 + n % 64) ∷ []
unfolding encode_code
encode_three n h k = ground arith

encode_four :
    (n : ℕ)
    → 0x10000 ≤ n
    → encode_code n
      ≡ (0xF0 + n / 262144) ∷ (128 + n / 4096 % 64) ∷ (128 + n / 64 % 64) ∷ (128 + n % 64) ∷ []
unfolding encode_code
encode_four n h = ground arith

code-lt : (c : Char) → code c < 0x110000
code-lt c = elim (code_range c) [ inl h ↦ omega arith | inr (h, k) ↦ k ]

-- Decoding reads one encoded character, and goes on behind it.
decode-encode_code :
    (c : Char) (bs : Bytes)
    → decode_from idle (encode_code (code c) ++ bs)
      ≡ Option.map (String.◌∷◌ c) (decode_from idle bs)
unfolding start
decode-encode_code c bs = elim (dec_lt (code c) 0x80) [
  | yes h ↦ rw (encode_one (code c) h) (decode_from-finish idle _ bs c (one (code c) h))
  | no h ↦ elim (dec_lt (code c) 0x800) [
    | yes k ↦ rw (encode_two (code c) (omega arith) k) (
        decode_from-start idle _ _ _ (lead_two (code c / 64) (omega arith))
        ∙ decode_from-finish _ _ bs c
            (last _ _ _ (code c) (omega arith) (omega arith) (omega arith)))
    | no k ↦ elim (dec_lt (code c) 0x10000) [
      | yes l ↦ rw (encode_three (code c) (omega arith) l) (
          decode_from-start idle _ _ _ (lead_three (code c / 4096) (omega arith))
          ∙ decode_from-start _ _ _ _ (more_two _ _ _ (omega arith))
          ∙ decode_from-finish _ _ bs c
              (last _ _ _ (code c) (omega arith) (omega arith) (omega arith)))
      | no l ↦
          let top : code c < 0x110000 = code-lt c in
          rw (encode_four (code c) (omega arith)) (
            decode_from-start idle _ _ _ (lead_four (code c / 262144) (omega arith))
            ∙ decode_from-start _ _ _ _ (more_three _ _ _ (omega arith))
            ∙ decode_from-start _ _ _ _ (more_two _ _ _ (omega arith))
            ∙ decode_from-finish _ _ bs c
                (last _ _ _ (code c) (omega arith) (omega arith) (omega arith)))
    ]
  ]
]

-- `s.encode('utf-8').decode('utf-8') == s`.
pub decode-encode : (s : String) → decode (encode s) ≡ some s
unfolding encode decode
decode-encode String.[] = refl
decode-encode (String.◌∷◌ c s) = decode-encode_code c (encode s) ∙ rw (decode-encode s)
