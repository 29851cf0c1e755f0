-- ===== src/Definition/SchemaInfo.antt =====
-- `schema_info` (pulsar/schema/definition.py): the Avro schema of a class of records or of a field. The
-- set `defined_names` that the calls share and grow is passed on from call to call.
pub mod Names
pub mod Repeat
pub mod Sorting
pub mod Document
use Prim.Native.String.{compare}
use text.Mathlib.Text.{is_lt}
use pulsar_client_python.Base.{
  String, Bool, true, false, Option, none, some, List, [], ◌∷◌, contains, str_eq, if◌then◌else◌,
}
use pulsar_client_python.Python.Value.{
  Member, EnumType, Value, Values, Entries, Options, RecordClass, Fields, Field, nil, cons, end,
  entry, class, no_fields, declare, scalar, custom_enum, array, mapping, record_field, Scalar,
}
use pulsar_client_python.Definition.Field.{type_name, is_required, has_required_default, default}

-- The schemas that `schema_info` builds out of texts, dicts and lists.
mutual
  pub data Avro : Type 0 where
    -- the name of a primitive type, or of a type that is described elsewhere
    word : String → Avro
    -- {'type': 'enum', 'name': …, 'symbols': …}
    enum_of : String → List String → Avro
    -- {'type': 'array', 'items': …}
    array_of : Avro → Avro
    -- {'type': 'map', 'values': …}
    map_of : Avro → Avro
    -- {'type': 'record', 'name': …, 'namespace': …, 'fields': …}
    record_of : String → Option String → Columns → Avro

  -- the list behind 'fields': name, whether the type is a union ['null', …], 'default' and 'type'
  pub data Columns : Type 0 where
    no_columns : Columns
    column : String → Bool → Option Value → Avro → Columns → Columns

abbrev pub Names : Type 0
Names = List String

abbrev pub Info : Type 0
Info = Names → Avro × Names

-- `namespace_prefix + cls.__name__`
unfoldable pub full_name : Option String → String → String
full_name none name = name
full_name (some namespace) name =
    Prim.Native.String.◌++◌ namespace (Prim.Native.String.◌++◌ "." name)

-- `get_filed_default_value`
unfoldable pub default_value : Value → Value
default_value (Value.member m) = Value.str m.name
default_value v = v

-- An entry of `_fields` as the loop of `schema_info` reads it.
pub record Entry : Type 0 where
  pub name : String
  pub nullable : Bool
  pub default_entry : Option Value
  pub info : Info

-- `sorted(cls._fields.keys())`
abbrev before : Entry → Entry → Bool
before a b = is_lt (compare a.name b.name)

unfoldable pub insert_entry : Entry → List Entry → List Entry
insert_entry e [] = e ∷ []
insert_entry e (f ∷ fs) = if before f e then f ∷ insert_entry e fs else e ∷ f ∷ fs

unfoldable pub sort_entries : List Entry → List Entry
unfolding insert_entry
sort_entries [] = []
sort_entries (e ∷ es) = insert_entry e (sort_entries es)

unfoldable pub ordered : Bool → List Entry → List Entry
ordered sorted es = if sorted then sort_entries es else es

-- The loop over the fields.
unfoldable pub run_entries : List Entry → Names → Columns × Names
run_entries [] names = (no_columns, names)
run_entries (e ∷ es) names =
    let (t, names') = e.info names in
    let (columns, names'') = run_entries es names' in
    (column e.name e.nullable e.default_entry t columns, names'')

-- [x.name for x in enum_type]: an alias is no item of the iteration.
unfoldable pub symbols : List (String × Member) → List String
symbols [] = []
symbols ((key, m) ∷ ms) = if str_eq key m.name then m.name ∷ symbols ms else symbols ms

-- `CustomEnum.schema_info`
unfoldable pub enum_info : EnumType → Info
enum_info e names =
    if contains e.name names
    then (word e.name, names)
    else (enum_of e.name (symbols e.members), e.name ∷ names)

-- The element of an array or a map: `schema_info` is called on an array, a map or a record only.
unfoldable pub element_info : Field → Info → Info
element_info (array _ _) info names = info names
element_info (mapping _ _) info names = info names
element_info (record_field _ _ _) info names = info names
element_info f info names = (word (type_name f), names)

unfoldable pub record_info : String → Option String → Bool → List Entry → Info
record_info name namespace sorted entries names =
    let full = full_name namespace name in
    if contains full names
    then (word full, names)
    else let (columns, names') = run_entries (ordered sorted entries) (full ∷ names) in
      (record_of name namespace columns, names')

unfoldable mutual
  -- `Record.schema_info`
  pub class_info : RecordClass → Info
  class_info (class _ _ name namespace sorted fields) names =
      record_info name namespace sorted (entries_of fields) names

  pub entries_of : Fields → List Entry
  entries_of no_fields = []
  entries_of (declare name f fields) =
      record {
        name = name;
        nullable = if is_required f then false else true;
        default_entry = if has_required_default f then some (default_value (default f)) else none;
        info = field_info f;
      }
      ∷ entries_of fields

  -- `schema_info` of a field.
  pub field_info : Field → Info
  field_info (scalar s o) names = (word (type_name (scalar s o)), names)
  field_info (custom_enum e o) names = enum_info e names
  field_info (array f o) names =
      let (items, names') = element_info f (field_info f) names in (array_of items, names')
  field_info (mapping f o) names =
      let (values, names') = element_info f (field_info f) names in (map_of values, names')
  field_info (record_field c o a) names = class_info c names

-- `Record.schema`
unfoldable pub schema : RecordClass → Avro
schema c = (class_info c []).0

abbrev text_entry : String → String → Entries → Entries
text_entry k v = entry (Value.str k) (Value.str v)

unfoldable pub texts : List String → Values
texts [] = nil
texts (s ∷ ss) = cons (Value.str s) (texts ss)

-- The entry 'type' of a field.
abbrev pub field_type : Bool → Value → Value
field_type nullable t = if nullable then Value.list (cons (Value.str "null") (cons t nil)) else t

abbrev pub default_part : Option Value → Entries → Entries
default_part none rest = rest
default_part (some d) rest = entry (Value.str "default") d rest

abbrev pub namespace_part : Option String → Entries → Entries
namespace_part none rest = rest
namespace_part (some n) rest = text_entry "namespace" n rest

-- The texts, dicts and lists themselves, each key in its place.
unfoldable mutual
  pub to_value : Avro → Value
  to_value (word s) = Value.str s
  to_value (enum_of name symbols) = Value.dict (
      text_entry "type" "enum"
        (text_entry "name" name (entry (Value.str "symbols") (Value.list (texts symbols)) end)))
  to_value (array_of items) =
      Value.dict (text_entry "type" "array" (entry (Value.str "items") (to_value items) end))
  to_value (map_of values) =
      Value.dict (text_entry "type" "map" (entry (Value.str "values") (to_value values) end))
  to_value (record_of name namespace columns) = Value.dict (
      text_entry "type" "record" (
        text_entry "name" name (
          namespace_part namespace
            (entry (Value.str "fields") (Value.list (column_values columns)) end))))

  pub column_values : Columns → Values
  column_values no_columns = nil
  column_values (column name nullable d t columns) =
      cons
        (Value.dict (
          text_entry "name" name
            (default_part d (entry (Value.str "type") (field_type nullable (to_value t)) end))))
        (column_values columns)
