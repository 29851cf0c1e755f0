-- ===== src/Definition/Field/Idempotent.antt =====
-- What `validate_type` returns passes `validate_type` again, unchanged.
use pulsar_client_python.Base.{
  String, ◌≡◌, false, some, List, [], ◌∷◌, All, arith, ℕ, inl, inr, Option-cases,
}
use pulsar_client_python.Base.Int.{ℤ}
use pulsar_client_python.Python.Result.{ok}
use pulsar_client_python.Python.Utf8.{decode}
use pulsar_client_python.Python.Value.{
  Member, EnumType, Scalar, Value, Options, Field, scalar, custom_enum, array, mapping,
  is_instance_of,
}
use pulsar_client_python.Definition.Field.{
  default, validate, validate_class, validate_string, validate_enum, validate_array, validate_map,
  is_required, find_name, find_value,
}

-- Every member of an `Enum` class is an instance of that class.
abbrev pub IsEnum : EnumType → Type 0
IsEnum e = All (λ (entry : String × Member). entry.1.owner ≡ e.ident) e.members

pub find_name-owner :
    (i : ℕ) (s : String) (ms : List (String × Member)) (m : Member)
    → All (λ (entry : String × Member). entry.1.owner ≡ i) ms
    → find_name s ms ≡ some m
    → m.owner ≡ i
unfolding find_name
find_name-owner i s [] m h e = cc
find_name-owner i s (x ∷ ms) m h e = ground (arith, find_name-owner i s ms m h.1)

pub find_value-owner :
    (i : ℕ) (n : ℤ) (ms : List (String × Member)) (m : Member)
    → All (λ (entry : String × Member). entry.1.owner ≡ i) ms
    → find_value n ms ≡ some m
    → m.owner ≡ i
unfolding find_value
find_value-owner i n [] m h e = cc
find_value-owner i n (x ∷ ms) m h e = ground (arith, find_value-owner i n ms m h.1)

validate_class_idem :
    (f : Field) (v w : Value)
    → (is_required f ≡ false → validate_class f (default f) ≡ ok (default f))
    → validate_class f v ≡ ok w
    → validate_class f w ≡ ok w
unfolding validate_class
validate_class_idem f v w h e = ground arith

validate_enum_idem :
    (e : EnumType) (v w : Value) → IsEnum e → validate_enum e v ≡ ok w → validate_enum e w ≡ ok w
unfolding validate_enum is_instance_of
validate_enum_idem e Value.null w h p = ground arith
validate_enum_idem e (Value.str s) w h p = elim (Option-cases (find_name s e.members)) [
  | inl q ↦ ground arith
  | inr (m, q) ↦ ground (arith, find_name-owner e.ident s e.members m h q)
]
validate_enum_idem e (Value.int n) w h p = elim (Option-cases (find_value n e.members)) [
  | inl q ↦ ground arith
  | inr (m, q) ↦ ground (arith, find_value-owner e.ident n e.members m h q)
]
validate_enum_idem e v w h p = ground arith

validate_array_idem :
    (f : Field) (v w : Value) → validate_array f v ≡ ok w → validate_array f w ≡ ok w
unfolding validate_array
validate_array_idem f Value.null w p = ground arith
validate_array_idem f v w p = ground arith

validate_map_idem : (f : Field) (v w : Value) → validate_map f v ≡ ok w → validate_map f w ≡ ok w
unfolding validate_map
validate_map_idem f Value.null w p = ground arith
validate_map_idem f v w p = ground arith

validate_string_idem :
    (o : Options) (v w : Value)
    → (is_required (scalar Scalar.string o) ≡ false
        → validate_string o (default (scalar Scalar.string o))
          ≡ ok (default (scalar Scalar.string o)))
    → validate_string o v ≡ ok w
    → validate_string o w ≡ ok w
unfolding validate_string validate_class
validate_string_idem o (Value.bytes b) w h p = elim (Option-cases (decode b)) [
  | inl q ↦ ground arith
  | inr (s, q) ↦ ground arith
]
validate_string_idem o v w h p = ground arith

-- The `Enum` class of a field, if it has one, is well formed.
abbrev pub HasEnum : Field → Type 0
HasEnum (custom_enum e _) = IsEnum e
HasEnum _ = Unit

-- What stands in the place of `None` passes validation itself.
abbrev pub HasSettledDefault : Field → Type 0
HasSettledDefault f = is_required f ≡ false → validate f (default f) ≡ ok (default f)

pub validate_idem :
    (f : Field) (v w : Value)
    → HasEnum f
    → HasSettledDefault f
    → validate f v ≡ ok w
    → validate f w ≡ ok w
unfolding validate
validate_idem (scalar Scalar.null o) v w h d p = ground arith
validate_idem (scalar Scalar.bytes o) (Value.str s) w h d p = ground arith
validate_idem (scalar Scalar.bytes o) v w h d p = ground arith
validate_idem (scalar Scalar.string o) v w h d p = validate_string_idem o v w d p
validate_idem (custom_enum e o) v w h d p = validate_enum_idem e v w h p
validate_idem (array f o) v w h d p = validate_array_idem f v w p
validate_idem (mapping f o) v w h d p = validate_map_idem f v w p
validate_idem f v w h d p = validate_class_idem f v w d p
