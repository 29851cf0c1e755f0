-- ===== src/Definition/Field/Typed.antt =====
-- The Python types of what fields hold, after `validate_type`.
use pulsar_client_python.Base.{
  ◌≡◌, refl, true, false, ◌||◌, inl, inr, List, [], ◌∷◌, arith, Option-cases,
}
use pulsar_client_python.Python.Result.{ok}
use pulsar_client_python.Python.Utf8.{decode}
use pulsar_client_python.Python.Value.{
  EnumType, Scalar, Value, Values, Entries, Options, Field, nil, cons, end, entry, scalar,
  custom_enum, array, mapping, PyType, is_none, is_instance_of,
}
use pulsar_client_python.Definition.Field.{
  validate, validate_class, validate_string, validate_enum, validate_array, validate_map,
  python_type, all_items, all_entries, make_field, Shape, find_name, find_value,
}
use pulsar_client_python.Definition.Field.Idempotent.{validate_idem}
use pulsar_client_python.Definition.Field.Made.{IsShape, make_field-HasSettledDefault}

-- `None`, or an instance of one of the classes.
abbrev pub IsNoneOr : List PyType → Value → Type 0
IsNoneOr ts v = (is_none v || is_instance_of v ts) ≡ true

abbrev pub AreInstances : List PyType → Values → Type 0
AreInstances ts nil = Unit
AreInstances ts (cons x xs) = (is_instance_of x ts ≡ true) × AreInstances ts xs

-- The keys are texts, the values instances.
abbrev pub AreTextKeyed : List PyType → Entries → Type 0
AreTextKeyed ts end = Unit
AreTextKeyed ts (entry k v d) =
    (is_instance_of k (PyType.str_type ∷ []) ≡ true)
    × (is_instance_of v ts ≡ true)
    × AreTextKeyed ts d

-- What the declaration of a field promises of its values. `Bytes` promises no more than that a text
-- was encoded.
abbrev pub HasType : Field → Value → Type 0
HasType (scalar Scalar.null _) v = is_none v ≡ true
HasType (scalar Scalar.bytes _) v = is_instance_of v (PyType.str_type ∷ []) ≡ false
HasType (scalar Scalar.string _) v = IsNoneOr (PyType.str_type ∷ []) v
HasType (array f _) Value.null = Unit
HasType (array f _) (Value.list xs) = AreInstances (python_type f) xs
HasType (array f _) _ = ⊥
HasType (mapping f _) Value.null = Unit
HasType (mapping f _) (Value.dict d) = AreTextKeyed (python_type f) d
HasType (mapping f _) _ = ⊥
HasType f v = IsNoneOr (python_type f) v

all_items-AreInstances :
    (ts : List PyType) (xs : Values) → all_items ts xs ≡ true → AreInstances ts xs
unfolding all_items
all_items-AreInstances ts nil h = tt
all_items-AreInstances ts (cons x xs) h = ground (arith, all_items-AreInstances ts xs)

all_entries-AreTextKeyed :
    (ts : List PyType) (d : Entries) → all_entries ts d ≡ true → AreTextKeyed ts d
unfolding all_entries
all_entries-AreTextKeyed ts end h = tt
all_entries-AreTextKeyed ts (entry k v d) h = ground (arith, all_entries-AreTextKeyed ts d)

class-IsNoneOr : (f : Field) (w : Value) → validate_class f w ≡ ok w → IsNoneOr (python_type f) w
unfolding validate_class
class-IsNoneOr f w p = ground arith

string-IsNoneOr :
    (o : Options) (w : Value) → validate_string o w ≡ ok w → IsNoneOr (PyType.str_type ∷ []) w
unfolding validate_string validate_class is_instance_of python_type
string-IsNoneOr o (Value.str s) p = refl
string-IsNoneOr o (Value.bytes b) p = elim (Option-cases (decode b)) [
  | inl q ↦ ground arith
  | inr (s, q) ↦ ground arith
]
string-IsNoneOr o w p = ground arith

enum-IsNoneOr :
    (e : EnumType) (w : Value)
    → validate_enum e w ≡ ok w
    → IsNoneOr (PyType.enum_type e.ident ∷ []) w
unfolding validate_enum is_instance_of
enum-IsNoneOr e Value.null p = refl
enum-IsNoneOr e (Value.str s) p = elim (Option-cases (find_name s e.members)) [
  | inl q ↦ ground arith
  | inr (m, q) ↦ ground arith
]
enum-IsNoneOr e (Value.int n) p = elim (Option-cases (find_value n e.members)) [
  | inl q ↦ ground arith
  | inr (m, q) ↦ ground arith
]
enum-IsNoneOr e w p = ground arith

array-HasType :
    (f : Field) (o : Options) (w : Value) → validate_array f w ≡ ok w → HasType (array f o) w
unfolding validate_array
array-HasType f o Value.null p = tt
array-HasType f o (Value.list xs) p = ground (arith, all_items-AreInstances (python_type f) xs)
array-HasType f o w p = ground arith

map-HasType :
    (f : Field) (o : Options) (w : Value) → validate_map f w ≡ ok w → HasType (mapping f o) w
unfolding validate_map
map-HasType f o Value.null p = tt
map-HasType f o (Value.dict d) p = ground (arith, all_entries-AreTextKeyed (python_type f) d)
map-HasType f o w p = ground arith

-- A value that a field accepts as it is has the type of the field.
accepted-HasType : (f : Field) (w : Value) → validate f w ≡ ok w → HasType f w
unfolding validate python_type is_instance_of
accepted-HasType (scalar Scalar.null o) w p = ground arith
accepted-HasType (scalar Scalar.bytes o) (Value.str s) p = ground arith
accepted-HasType (scalar Scalar.bytes o) w p = refl
accepted-HasType (scalar Scalar.string o) w p = string-IsNoneOr o w p
accepted-HasType (custom_enum e o) w p = enum-IsNoneOr e w p
accepted-HasType (array f o) w p = array-HasType f o w p
accepted-HasType (mapping f o) w p = map-HasType f o w p
accepted-HasType f w p = class-IsNoneOr f w p

-- What validation returns has the type of the field, for a field that a constructor returned, with a
-- default or without. For a `Bytes`, which takes a value of any type, this is only that it is no text.
-- For all other fields it is `None` or an instance of the field's Python type: a `Null` holds `None`
-- alone, a `String` no bytes, the items of an `Array` are all instances of the type of its element,
-- and a `Map` has texts for keys and such instances for values. The constructor is any but that of
-- `Record`, and the members of an `Enum` that it is given are of that `Enum`.
pub validate-HasType :
    (s : Shape) (given required required_default : Value) (f : Field) (v w : Value)
    → IsShape s
    → make_field s given required required_default ≡ ok f
    → validate f v ≡ ok w
    → HasType f w
validate-HasType s given r rd f v w h made p =
    let (enum, settled) = make_field-HasSettledDefault s given r rd f h made in
    accepted-HasType f w (validate_idem f v w enum settled p)
