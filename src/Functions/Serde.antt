-- ===== src/Functions/Serde.antt =====
-- `IdentitySerDe` and `PickleSerDe` (pulsar/functions/serde.py).
pub mod ComingBack
use pulsar_client_python.Base.{
  ℕ, String, ◌≡◌, refl, ◌∙◌, sym, ap, ◌↔◌, Option, none, some, arith, inl, inr, Option-cases,
}
use pulsar_client_python.Base.Int.{ℤ}
use pulsar_client_python.Python.Result.{Result, ok, raise, type_error, ◌>>=◌, >>=-eq-ok}
use pulsar_client_python.Python.Utf8.{Bytes, encode, decode}
use pulsar_client_python.Python.Utf8.RoundTrip.{decode-encode}
use pulsar_client_python.Python.Value.{Value}

-- What a serializer meets: a value, or a complex number by the 64 bits of each part.
pub data Datum : Type 0 where
  of : Value → Datum
  complex : ℕ → ℕ → Datum

-- `str` of a number, which is refused for an int of very many digits, and `int`, `float` and `complex`
-- of a text.
pub record NumberTexts : Type 0 where
  pub int_text : ℤ → Result String
  pub float_text : ℕ → String
  pub complex_text : ℕ → ℕ → String
  pub int_of : String → Option ℤ
  pub float_of : String → Option ℕ
  pub complex_of : String → Option (ℕ × ℕ)

-- `pickle.dumps` and `pickle.loads`
pub record Pickle : Type 0 where
  pub dumps : Value → Result Bytes
  pub loads : Bytes → Result Value

-- `PickleSerDe`
abbrev pub pickle_serialize : Pickle → Value → Result Bytes
pickle_serialize p v = p.dumps v

abbrev pub pickle_deserialize : Pickle → Bytes → Result Value
pickle_deserialize p b = p.loads b

-- The first type that takes the text.
abbrev pub first_of : String → Option ℤ → Option ℕ → Option (ℕ × ℕ) → Datum
first_of s (some n) _ _ = of (Value.int n)
first_of s none (some x) _ = of (Value.float x)
first_of s none none (some (x, y)) = complex x y
first_of s none none none = of (Value.str s)

module _ (t : NumberTexts) where
  -- `IdentitySerDe.serialize`: the type is compared, so that a `bool` is no `int`.
  unfoldable pub serialize : Datum → Result Bytes
  serialize (of (Value.int n)) = do s ← t.int_text n; ok (encode s)
  serialize (of (Value.float x)) = ok (encode (t.float_text x))
  serialize (complex x y) = ok (encode (t.complex_text x y))
  serialize (of (Value.str s)) = ok (encode s)
  serialize (of (Value.bytes b)) = ok b
  serialize _ = raise type_error

  -- `IdentitySerDe.deserialize`: the text is decoded again for each type, with the same result.
  unfoldable pub deserialize : Bytes → Datum
  deserialize b = elim (decode b) [
    | none ↦ of (Value.bytes b)
    | some s ↦ first_of s (t.int_of s) (t.float_of s) (t.complex_of s)
  ]

  -- The data that come back: the text of a number is read as that number by its own type and by none
  -- that is tried before, a text is read as no number, and bytes are not the UTF-8 of any text.
  abbrev pub ComesBack : Datum → Type 0
  ComesBack (of (Value.int n)) = (s : String) × (t.int_text n ≡ ok s) × (t.int_of s ≡ some n)
  ComesBack (of (Value.float x)) =
      (t.int_of (t.float_text x) ≡ none) × (t.float_of (t.float_text x) ≡ some x)
  ComesBack (complex x y) =
      (t.int_of (t.complex_text x y) ≡ none)
      × (t.float_of (t.complex_text x y) ≡ none)
      × (t.complex_of (t.complex_text x y) ≡ some (x, y))
  ComesBack (of (Value.str s)) =
      (t.int_of s ≡ none) × (t.float_of s ≡ none) × (t.complex_of s ≡ none)
  ComesBack (of (Value.bytes b)) = decode b ≡ none
  ComesBack _ = ⊥
