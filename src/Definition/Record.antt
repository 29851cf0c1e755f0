-- ===== src/Definition/Record.antt =====
-- `Record` and `RecordMeta` (pulsar/schema/definition.py): how an instance is built from keyword
-- arguments, and how an attribute is set.
--
-- The options of an instance, `_default`, `_required` and `_required_default`, stand apart from the
-- attributes that its class declares. A declared field that has one of these three names is not
-- modelled: there `__init__` and `__setattr__` set option and attribute in one, without validation.
pub mod Kept
pub mod Equality
use pulsar_client_python.Base.{
  String, Bool, true, false, ◌||◌, Option, none, some, List, [], ◌∷◌, str_eq, contains,
  if◌then◌else◌,
}
use pulsar_client_python.Python.Result.{
  Result, ok, raise, type_error, attribute_error, ◌>>=◌, ◌>>◌, raise_if,
}
use pulsar_client_python.Python.Value.{
  EnumType, Value, Values, Entries, Attributes, Options, RecordClass, Fields, Field, nil, cons, end,
  entry, bare, attribute, options, class, no_fields, declare, scalar, custom_enum, array, mapping,
  record_field, class_fields,
}
use pulsar_client_python.Definition.Field.{default, validate, make_field, enum_shape}

-- `name in kwargs`, with the value that is found.
unfoldable pub get_attribute : String → Attributes → Option Value
get_attribute k bare = none
get_attribute k (attribute j v a) = if str_eq k j then some v else get_attribute k a

-- The parameters of `Record.__init__`: an argument of such a name is none of `**kwargs`.
abbrev pub parameters : List String
parameters = "self" ∷ "default" ∷ "required_default" ∷ "required" ∷ []

-- `k in kwargs` for the field `k`.
unfoldable pub argument : String → Attributes → Option Value
argument k kwargs = if contains k parameters then none else get_attribute k kwargs

abbrev or_else : Option Value → Value → Value
or_else none d = d
or_else (some v) d = v

-- The options that `__init__` sets.
unfoldable pub init_options : Attributes → Options
init_options kwargs =
    options (or_else (get_attribute "default" kwargs) Value.null)
      (or_else (get_attribute "required_default" kwargs) (Value.bool false))
      (or_else (get_attribute "required" kwargs) (Value.bool false))

-- `**d`: the keys of keyword arguments are texts.
unfoldable pub keywords : Entries → Result Attributes
keywords end = ok bare
keywords (entry (Value.str k) v d) = do kwargs ← keywords d; ok (attribute k v kwargs)
keywords (entry _ v d) = raise type_error

-- `copied.__init__(**item)` for each item of a list.
unfoldable pub init_items : (Attributes → Result Value) → Values → Result Values
init_items init nil = ok nil
init_items init (cons (Value.dict d) xs) = do
  kwargs ← keywords d
  y ← init kwargs
  ys ← init_items init xs
  ok (cons y ys)
init_items init (cons _ xs) = raise type_error

-- The same for each value of a dict.
unfoldable pub init_entries : (Attributes → Result Value) → Entries → Result Entries
init_entries init end = ok end
init_entries init (entry k (Value.dict d) r) = do
  kwargs ← keywords d
  y ← init kwargs
  ys ← init_entries init r
  ok (entry k y ys)
init_entries init (entry k _ r) = raise type_error

unfoldable mutual
  -- `Record.__init__`, called through a class with its keyword arguments; no field has the name of an
  -- option.
  pub construct : RecordClass → Attributes → Result Value
  construct (class ident bases name namespace sorted fields) kwargs =
      elim (get_attribute "self" kwargs) [
        | some _ ↦ raise type_error
        | none ↦ do
          attributes ← init_fields fields kwargs
          ok (
              Value.object (class ident bases name namespace sorted fields) (init_options kwargs)
                attributes)
      ]

  -- The loop over `_fields`.
  pub init_fields : Fields → Attributes → Result Attributes
  init_fields no_fields kwargs = ok bare
  init_fields (declare k f fields) kwargs = do
    v ← init_field f (argument k kwargs)
    attributes ← init_fields fields kwargs
    ok (attribute k v attributes)

  -- The value of one attribute.
  pub init_field : Field → Option Value → Result Value
  init_field (record_field c o a) none = validate (record_field c o a) (Value.object c o a)
  init_field f none = ok (default f)
  init_field (record_field c o a) (some (Value.dict d)) = do
    kwargs ← keywords d
    x ← construct c kwargs
    validate (record_field c o a) x
  init_field (array (record_field c o a) p) (some (Value.list (cons (Value.dict d) xs))) = do
    ys ← init_items (construct c) (cons (Value.dict d) xs)
    validate (array (record_field c o a) p) (Value.list ys)
  init_field (mapping (record_field c o a) p) (some (Value.dict (entry k (Value.dict d) r))) = do
    ys ← init_entries (construct c) (entry k (Value.dict d) r)
    validate (mapping (record_field c o a) p) (Value.dict ys)
  init_field f (some v) = validate f v

unfoldable pub find_field : String → Fields → Option Field
find_field k no_fields = none
find_field k (declare j f fields) = if str_eq k j then some f else find_field k fields

-- `self.__dict__[k] = v`
unfoldable pub assign : String → Value → Attributes → Attributes
assign k v bare = attribute k v bare
assign k v (attribute j w a) = if str_eq k j then attribute j v a else attribute j w (assign k v a)

-- The end of `__setattr__`: the value is validated by the field, if there is one.
abbrev pub set_field :
    RecordClass → Options → Attributes → String → Value → Option Field → Result Value
set_field c o a k v none = raise attribute_error
set_field c o a k v (some f) = do w ← validate f v; ok (Value.object c o (assign k w a))

-- `__setattr__`, on an instance of a class with no field that has the name of an option.
unfoldable pub set_attribute : RecordClass → Options → Attributes → String → Value → Result Value
set_attribute c (options d rd r) a k v =
    if str_eq k "_default"
    then ok (Value.object c (options v rd r) a)
    else if str_eq k "_required_default"
    then ok (Value.object c (options d v r) a)
    else if str_eq k "_required"
    then ok (Value.object c (options d rd v) a)
    else set_field c (options d rd r) a k v (find_field k (class_fields c))

-- What stands behind a name in the body of a class of records.
pub data ClassItem : Type 0 where
  enum_class : EnumType → ClassItem
  record_class : RecordClass → ClassItem
  instance_of : Field → ClassItem
  -- anything else, a method for example
  other : ClassItem

-- The instance that stands for an item, if it declares a field.
unfoldable pub item_field : ClassItem → Result (Option Field)
item_field (enum_class e) = do
  f ← make_field (enum_shape e) Value.null (Value.bool false) (Value.bool false)
  ok (some f)
item_field (record_class c) = do
  v ← construct c bare
  elim v [ Value.object c' o a ↦ ok (some (record_field c' o a)) | _ ↦ ok none ]
item_field (instance_of f) = ok (some f)
item_field other = ok none

-- `RecordMeta._get_fields`
unfoldable pub get_fields : List (String × ClassItem) → Result Fields
unfolding item_field
get_fields [] = ok no_fields
get_fields ((name, item) ∷ items) = do
  f ← item_field item
  fields ← get_fields items
  ok (elim f [ none ↦ fields | some g ↦ declare name g fields ])
