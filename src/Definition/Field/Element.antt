-- ===== src/Definition/Field/Element.antt =====
-- What an `Array` or a `Map` is declared with: `_check_record_or_field`, and the methods that use the
-- element (pulsar/schema/definition.py). An instance of `Field` or of `Record` is what they are made
-- for; the check lets more pass.
pub mod Accepted
use pulsar_client_python.Base.{
  ◌≡◌, refl, ◌↔◌, Bool, true, false, ◌⊎◌, inl, inr, if◌then◌else◌, Bool-cases, List, [], ◌∷◌,
}
use pulsar_client_python.Python.Result.{
  Result, ok, raise, type_error, attribute_error, exception, ◌>>=◌, ◌>>◌, >>=-eq-ok,
}
use pulsar_client_python.Python.Value.{
  EnumType, Value, Values, Entries, Options, RecordClass, Field, nil, cons, end, entry, options,
  PyType, is_none, is_instance_of,
}
use pulsar_client_python.Definition.Field.{
  python_type, all_items, all_entries, validate_array, validate_map, validate, make_field,
  enum_shape, shaped, array_shape, map_shape, Shape,
}

pub data Element : Type 0 where
  -- an instance of `Field` or of `Record`
  instance_of : Field → Element
  -- a class made by `RecordMeta`, and one made by `EnumMeta`
  record_class : RecordClass → Element
  enum_class : EnumType → Element
  -- a subclass of `Field`, and a class without a `python_type`, such as `int`
  field_class plain_class : Element
  -- an object that is no class and has no `python_type`
  other : Element

-- `_check_record_or_field`
unfoldable pub check_record_or_field : Element → Result (Unit {0})
check_record_or_field field_class = raise exception
check_record_or_field plain_class = raise exception
check_record_or_field _ = ok tt

-- `element.python_type()`: of a class that has the method it lacks its instance, and the others have no
-- method of that name.
unfoldable pub element_type : Element → Result (List PyType)
element_type (instance_of f) = ok (python_type f)
element_type (record_class _) = raise type_error
element_type field_class = raise type_error
element_type _ = raise attribute_error

-- The loop of `Array.validate_type`, whose body asks the element for its type.
unfoldable pub check_items : Element → Values → Result (Unit {0})
unfolding element_type
check_items e nil = ok tt
check_items e (cons x xs) =
    let rest = check_items e xs in
    do ts ← element_type e; if is_instance_of x ts then rest else raise type_error

-- The loop of `Map.validate_type`: the key is looked at first.
unfoldable pub check_entries : Element → Entries → Result (Unit {0})
unfolding element_type
check_entries e end = ok tt
check_entries e (entry k v d) =
    let rest = check_entries e d in
    if is_instance_of k (PyType.str_type ∷ [])
    then (do ts ← element_type e; if is_instance_of v ts then rest else raise type_error)
    else raise type_error

pub data Container : Type 0 where
  array_of map_of : Container

-- `Array.validate_type` and `Map.validate_type`
unfoldable pub validate_container : Container → Element → Value → Result Value
unfolding check_items check_entries
validate_container _ e Value.null = ok Value.null
validate_container array_of e (Value.list xs) = do check_items e xs; ok (Value.list xs)
validate_container map_of e (Value.dict d) = do check_entries e d; ok (Value.dict d)
validate_container _ e v = raise type_error

-- `Array.__init__` and `Map.__init__`, up to the options that they leave.
unfoldable pub init_container : Container → Element → Value → Value → Value → Result Options
unfolding check_record_or_field validate_container
init_container k e given required required_default = do
  check_record_or_field e
  d ← (if is_none given then ok Value.null else validate_container k e given)
  ok (options d required_default required)

-- What `Array` and `Map` do with an element that is an instance, as Definition/Field has it.
unfoldable pub validate_instance : Container → Field → Value → Result Value
unfolding validate_array validate_map
validate_instance array_of f v = validate_array f v
validate_instance map_of f v = validate_map f v

-- `None`, and a container of nothing.
pub data IsBlank : Container → Value → Type 0 where
  none_is_blank : (k : Container) → IsBlank k Value.null
  list_is_blank : IsBlank array_of (Value.list nil)
  dict_is_blank : IsBlank map_of (Value.dict end)

-- The argument of `CustomEnum`, by `issubclass(enum_type, Enum)`, which wants a class.
unfoldable pub check_enum : Element → Result EnumType
check_enum (enum_class e) = ok e
check_enum (instance_of _) = raise type_error
check_enum other = raise type_error
check_enum _ = raise exception

-- `CustomEnum.__init__`
unfoldable pub init_enum : Element → Value → Value → Value → Result Field
unfolding check_enum
init_enum e given required required_default = do
  t ← check_enum e
  make_field (enum_shape t) given required required_default
