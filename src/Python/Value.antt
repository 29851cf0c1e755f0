-- ===== src/Python/Value.antt =====
-- The values of the dynamic language that a schema meets, with the classes of records and the field
-- declarations that they carry (pulsar/schema/definition.py). A class, a field and a value name one
-- another, so they are one block of types.
use pulsar_client_python.Base.{
  ℕ, String, Bool, true, false, not, ◌||◌, Option, List, [], ◌∷◌, ◌==◌, str_eq,
}
use pulsar_client_python.Base.Int.{ℤ, pos, int_eq}
use pulsar_client_python.Python.Utf8.{Bytes}

-- The value of a member of an `Enum`.
pub data Literal : Type 0 where
  int : ℤ → Literal
  str : String → Literal

-- A member of the `Enum` class `owner`.
pub record Member : Type 0 where
  pub owner : ℕ
  pub name : String
  pub value : Literal

-- An `Enum` class: its identity, its `__name__` and its `__members__` in the order of declaration. An
-- alias is an entry whose key is not the name of its member.
pub record EnumType : Type 0 where
  pub ident : ℕ
  pub name : String
  pub members : List (String × Member)

-- The subclasses of `Field` with no parameter but the options.
pub data Scalar : Type 0 where
  null boolean integer long float double bytes string : Scalar

mutual
  pub data Value : Type 0 where
    -- `None`
    null : Value
    bool : Bool → Value
    int : ℤ → Value
    -- a float, by its 64 bits
    float : ℕ → Value
    str : String → Value
    bytes : Bytes → Value
    list : Values → Value
    dict : Entries → Value
    member : Member → Value
    -- an instance of a subclass of `Record`: its class, the three attributes that it keeps for its use
    -- as a field, and the attributes that are declared
    object : RecordClass → Options → Attributes → Value

  pub data Values : Type 0 where
    nil : Values
    cons : Value → Values → Values

  -- a dict, in the order of insertion
  pub data Entries : Type 0 where
    end : Entries
    entry : Value → Value → Entries → Entries

  -- attributes, or keyword arguments, by name
  pub data Attributes : Type 0 where
    bare : Attributes
    attribute : String → Value → Attributes → Attributes

  -- `_default`, `_required_default` and `_required`
  pub data Options : Type 0 where
    options : Value → Value → Value → Options

  -- a class made by `RecordMeta`: its identity, the identities of its bases, `__name__`,
  -- `_avro_namespace`, `_sorted_fields` and `_fields`
  pub data RecordClass : Type 0 where
    class : ℕ → List ℕ → String → Option String → Bool → Fields → RecordClass

  pub data Fields : Type 0 where
    no_fields : Fields
    declare : String → Field → Fields → Fields

  -- a value of `_fields`: an instance of a subclass of `Field`, or of `Record`
  pub data Field : Type 0 where
    scalar : Scalar → Options → Field
    custom_enum : EnumType → Options → Field
    array : Field → Options → Field
    mapping : Field → Options → Field
    record_field : RecordClass → Options → Attributes → Field

-- The truth of a value, as `if v:` takes it.
unfoldable pub truthy : Value → Bool
truthy null = false
truthy (bool b) = b
truthy (int n) = not (int_eq n (pos 0))
truthy (float bits) = not (bits == 0 || bits == 0x8000000000000000)
truthy (str s) = not (str_eq s "")
truthy (bytes b) = elim b [ [] ↦ false | _ ∷ _ ↦ true ]
truthy (list xs) = elim xs [ nil ↦ false | cons _ _ ↦ true ]
truthy (dict d) = elim d [ end ↦ false | entry _ _ _ ↦ true ]
truthy (member _) = true
truthy (object _ _ _) = true

-- `v is None`
abbrev pub is_none : Value → Bool
is_none null = true
is_none _ = false

-- The classes that `isinstance` is asked about.
pub data PyType : Type 0 where
  none_type bool_type int_type float_type str_type bytes_type list_type dict_type : PyType
  enum_type : ℕ → PyType
  record_type : ℕ → PyType

abbrev pub class_ident : RecordClass → ℕ
class_ident (class ident _ _ _ _ _) = ident

abbrev pub class_name : RecordClass → String
class_name (class _ _ name _ _ _) = name

abbrev pub class_fields : RecordClass → Fields
class_fields (class _ _ _ _ _ fields) = fields

contains_ident : ℕ → List ℕ → Bool
contains_ident i [] = false
contains_ident i (j ∷ js) = i == j || contains_ident i js

abbrev subclass_of : RecordClass → ℕ → Bool
subclass_of (class ident bases _ _ _ _) i = i == ident || contains_ident i bases

-- `isinstance(v, t)`. A `bool` is an `int`.
unfoldable pub is_instance : Value → PyType → Bool
unfolding contains_ident
is_instance null none_type = true
is_instance (bool _) bool_type = true
is_instance (bool _) int_type = true
is_instance (int _) int_type = true
is_instance (float _) float_type = true
is_instance (str _) str_type = true
is_instance (bytes _) bytes_type = true
is_instance (list _) list_type = true
is_instance (dict _) dict_type = true
is_instance (member m) (enum_type i) = m.owner == i
is_instance (object c _ _) (record_type i) = subclass_of c i
is_instance _ _ = false

-- `isinstance(v, (t, …))`
unfoldable pub is_instance_of : Value → List PyType → Bool
unfolding is_instance
is_instance_of v [] = false
is_instance_of v (t ∷ ts) = is_instance v t || is_instance_of v ts
