-- ===== src/Definition/Field.antt =====
-- `Field` and its subclasses (pulsar/schema/definition.py). An instance is a value of `Field`; a method
-- that a subclass overrides is a function by clauses on the kind of field.
pub mod Idempotent
pub mod Made
pub mod Typed
pub mod Element
use pulsar_client_python.Base.{
  String, Bool, true, false, not, ◌&&◌, Option, none, some, List, [], ◌∷◌, str_eq, if◌then◌else◌,
}
use pulsar_client_python.Base.Int.{ℤ, int_eq}
use pulsar_client_python.Python.Result.{
  Result, ok, raise, type_error, unicode_error, ◌>>=◌, ◌>>◌, raise_if, or_raise,
}
use pulsar_client_python.Python.Utf8.{Bytes, encode, decode}
use pulsar_client_python.Python.Value.{
  Literal, Member, EnumType, Scalar, Value, Values, Entries, Attributes, Options, RecordClass,
  Field, nil, cons, end, entry, options, scalar, custom_enum, array, mapping, record_field, PyType,
  truthy, is_none, class_ident, class_name, is_instance_of,
}

-- `python_type`: the classes that `isinstance` accepts.
unfoldable pub python_type : Field → List PyType
python_type (scalar Scalar.null _) = PyType.none_type ∷ []
python_type (scalar Scalar.boolean _) = PyType.bool_type ∷ []
python_type (scalar Scalar.integer _) = PyType.int_type ∷ []
python_type (scalar Scalar.long _) = PyType.int_type ∷ []
python_type (scalar Scalar.float _) = PyType.float_type ∷ PyType.int_type ∷ []
python_type (scalar Scalar.double _) = PyType.float_type ∷ PyType.int_type ∷ []
python_type (scalar Scalar.bytes _) = PyType.bytes_type ∷ PyType.str_type ∷ []
python_type (scalar Scalar.string _) = PyType.str_type ∷ PyType.bytes_type ∷ []
python_type (custom_enum e _) = PyType.enum_type e.ident ∷ []
python_type (array _ _) = PyType.list_type ∷ []
python_type (mapping _ _) = PyType.dict_type ∷ []
python_type (record_field c _ _) = PyType.record_type (class_ident c) ∷ []

-- `type`: the name of the Avro type.
unfoldable pub type_name : Field → String
type_name (scalar Scalar.null _) = "null"
type_name (scalar Scalar.boolean _) = "boolean"
type_name (scalar Scalar.integer _) = "int"
type_name (scalar Scalar.long _) = "long"
type_name (scalar Scalar.float _) = "float"
type_name (scalar Scalar.double _) = "double"
type_name (scalar Scalar.bytes _) = "bytes"
type_name (scalar Scalar.string _) = "string"
type_name (custom_enum _ _) = "enum"
type_name (array _ _) = "array"
type_name (mapping _ _) = "map"
type_name (record_field c _ _) = class_name c

abbrev pub field_options : Field → Options
field_options (scalar _ o) = o
field_options (custom_enum _ o) = o
field_options (array _ o) = o
field_options (mapping _ o) = o
field_options (record_field _ o _) = o

abbrev pub given_default : Options → Value
given_default (options d _ _) = d

-- `_required`, as `if` reads it.
unfoldable pub is_required : Field → Bool
is_required f = elim (field_options f) [ options _ _ required ↦ truthy required ]

-- `required_default()`, as `if` reads it.
unfoldable pub has_required_default : Field → Bool
has_required_default f = elim (field_options f) [ options _ flag _ ↦ truthy flag ]

-- `default()`: a `Boolean` with no default is `False`, every other field with no default is `None`.
unfoldable pub default : Field → Value
default (scalar Scalar.boolean (options d _ _)) = if is_none d then Value.bool false else d
default (scalar Scalar.null (options d _ _)) = d
default f = given_default (field_options f)

-- `Field.validate_type`, and `Record.validate_type`, whose test is the same.
unfoldable pub validate_class : Field → Value → Result Value
unfolding is_required
validate_class f v =
    if is_none v && not (is_required f)
    then ok (default f)
    else if is_instance_of v (python_type f)
    then ok v
    else raise type_error

-- `enum_type.__members__[name]`
unfoldable pub find_name : String → List (String × Member) → Option Member
find_name s [] = none
find_name s ((key, m) ∷ ms) = if str_eq s key then some m else find_name s ms

abbrev is_int : ℤ → Literal → Bool
is_int n (Literal.int k) = int_eq n k
is_int n (Literal.str _) = false

-- `self.values[n]`: `__init__` writes the entries in order, so the last one of a value is read.
unfoldable pub find_value : ℤ → List (String × Member) → Option Member
find_value n [] = none
find_value n ((_, m) ∷ ms) = elim (find_value n ms) [
  | some found ↦ some found
  | none ↦ if is_int n m.value then some m else none
]

-- The loop of `Array.validate_type`: whether the items are all of the class of the element.
unfoldable pub all_items : List PyType → Values → Bool
all_items ts nil = true
all_items ts (cons x xs) = is_instance_of x ts && all_items ts xs

-- The loop of `Map.validate_type`. `is_unicode` is false of every value of Python 3.
unfoldable pub all_entries : List PyType → Entries → Bool
all_entries ts end = true
all_entries ts (entry k v d) =
    is_instance_of k (PyType.str_type ∷ []) && (is_instance_of v ts && all_entries ts d)

-- `String.validate_type`
unfoldable pub validate_string : Options → Value → Result Value
unfolding validate_class
validate_string o (Value.str s) = ok (Value.str s)
validate_string o (Value.bytes b) = do s ← or_raise (decode b) unicode_error; ok (Value.str s)
validate_string o v = validate_class (scalar Scalar.string o) v

-- `CustomEnum.validate_type`
unfoldable pub validate_enum : EnumType → Value → Result Value
validate_enum e Value.null = ok Value.null
validate_enum e (Value.str s) = do
  m ← or_raise (find_name s e.members) type_error
  ok (Value.member m)
validate_enum e (Value.int n) = do
  m ← or_raise (find_value n e.members) type_error
  ok (Value.member m)
validate_enum e v =
    if is_instance_of v (PyType.enum_type e.ident ∷ []) then ok v else raise type_error

-- `Array.validate_type`
unfoldable pub validate_array : Field → Value → Result Value
validate_array f Value.null = ok Value.null
validate_array f (Value.list xs) =
    if all_items (python_type f) xs then ok (Value.list xs) else raise type_error
validate_array f v = raise type_error

-- `Map.validate_type`
unfoldable pub validate_map : Field → Value → Result Value
validate_map f Value.null = ok Value.null
validate_map f (Value.dict d) =
    if all_entries (python_type f) d then ok (Value.dict d) else raise type_error
validate_map f v = raise type_error

-- `Bytes.validate_type`: a text is encoded, and every other value is accepted as it is.
unfoldable pub validate_bytes : Value → Value
validate_bytes (Value.str s) = Value.bytes (encode s)
validate_bytes v = v

-- `validate_type`, of every kind of field.
unfoldable pub validate : Field → Value → Result Value
unfolding validate_class validate_string validate_enum validate_array validate_map validate_bytes
validate (scalar Scalar.null _) v = if is_none v then ok v else raise type_error
validate (scalar Scalar.bytes _) v = ok (validate_bytes v)
validate (scalar Scalar.string o) v = validate_string o v
validate (custom_enum e _) v = validate_enum e v
validate (array f _) v = validate_array f v
validate (mapping f _) v = validate_map f v
validate f v = validate_class f v

-- The subclass of `Field` that is called, with the parameters that it has besides the options.
pub data Shape : Type 0 where
  scalar_shape : Scalar → Shape
  enum_shape : EnumType → Shape
  array_shape map_shape : Field → Shape

unfoldable pub shaped : Shape → Options → Field
shaped (scalar_shape s) o = scalar s o
shaped (enum_shape e) o = custom_enum e o
shaped (array_shape f) o = array f o
shaped (map_shape f) o = mapping f o

abbrev unset : Options
unset = options Value.null Value.null Value.null

-- `Field.__init__`: a default that is given is validated, before the options are set, and stored as
-- validation returns it.
unfoldable pub make_field : Shape → Value → Value → Value → Result Field
unfolding shaped
make_field s given required required_default =
    if is_none given
    then ok (shaped s (options Value.null required_default required))
    else do d ← validate (shaped s unset) given; ok (shaped s (options d required_default required))
