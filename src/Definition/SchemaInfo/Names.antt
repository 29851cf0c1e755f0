-- ===== src/Definition/SchemaInfo/Names.antt =====
-- The names in a generated schema: each is described once, before its uses.
use pulsar_client_python.Base.{
  String, ◌≡◌, refl, Bool, true, false, ◌||◌, Option, none, some, List, [], ◌∷◌, All, contains,
  arith, if◌then◌else◌, str_eq,
}
use pulsar_client_python.Python.Value.{
  EnumType, Options, RecordClass, Fields, Field, class, no_fields, declare, scalar, custom_enum,
  array, mapping, record_field, Scalar,
}
use pulsar_client_python.Definition.Field.{type_name}
use pulsar_client_python.Definition.SchemaInfo.{
  Avro, Columns, word, enum_of, array_of, map_of, record_of, no_columns, column, Names, Info,
  full_name, Entry, insert_entry, sort_entries, ordered, run_entries, enum_info, element_info,
  record_info, class_info, entries_of, field_info,
}

-- The names of Avro's primitive types.
abbrev primitives : List String
primitives = "null" ∷ "boolean" ∷ "int" ∷ "long" ∷ "float" ∷ "double" ∷ "bytes" ∷ "string" ∷ []

-- A name that a schema describes must be new.
abbrev fresh : String → Names → Option Names
fresh name names = if contains name names then none else some (name ∷ names)

-- A reader of schemas, from left to right: it is given the names that are described already, and
-- returns those that are described then. `none` is a name that is described twice, or that is used and
-- not described before.
unfoldable mutual
  pub read : Avro → Names → Option Names
  read (word s) names = if contains s primitives || contains s names then some names else none
  read (enum_of name _) names = fresh name names
  read (array_of items) names = read items names
  read (map_of values) names = read values names
  read (record_of name namespace columns) names = elim (fresh (full_name namespace name) names) [
    | none ↦ none
    | some names' ↦ read_columns columns names'
  ]

  pub read_columns : Columns → Names → Option Names
  read_columns no_columns names = some names
  read_columns (column _ _ _ t columns) names = elim (read t names) [
    | none ↦ none
    | some names' ↦ read_columns columns names'
  ]

abbrev pub IsNotEnum : Field → Type 0
IsNotEnum (custom_enum _ _) = ⊥
IsNotEnum _ = Unit

-- An array or a map of an `Enum` is written with the bare word "enum": such fields are left out.
abbrev mutual
  pub HasNoEnumElement : Field → Type 0
  HasNoEnumElement (scalar _ _) = Unit
  HasNoEnumElement (custom_enum _ _) = Unit
  HasNoEnumElement (array f _) = HasNoEnumElement f × IsNotEnum f
  HasNoEnumElement (mapping f _) = HasNoEnumElement f × IsNotEnum f
  HasNoEnumElement (record_field c _ _) = ClassHasNoEnumElement c

  pub ClassHasNoEnumElement : RecordClass → Type 0
  ClassHasNoEnumElement (class _ _ _ _ _ fields) = FieldsHaveNoEnumElement fields

  pub FieldsHaveNoEnumElement : Fields → Type 0
  FieldsHaveNoEnumElement no_fields = Unit
  FieldsHaveNoEnumElement (declare _ f fields) = HasNoEnumElement f × FieldsHaveNoEnumElement fields

-- The reader accepts what a call of `schema_info` returns, and ends with the names that the call does.
abbrev pub Reads : Info → Type 0
Reads info = (names : Names) → read (info names).0 names ≡ some (info names).1

abbrev EntriesRead : List Entry → Type 0
EntriesRead es = All (λ (e : Entry). Reads e.info) es

insert_entry-EntriesRead :
    (e : Entry) (es : List Entry) → Reads e.info → EntriesRead es → EntriesRead (insert_entry e es)
unfolding insert_entry
insert_entry-EntriesRead e [] h hs = (h, tt)
insert_entry-EntriesRead e (f ∷ fs) h hs = ground (arith, insert_entry-EntriesRead e fs h hs.1)

sort_entries-EntriesRead : (es : List Entry) → EntriesRead es → EntriesRead (sort_entries es)
unfolding sort_entries
sort_entries-EntriesRead [] h = tt
sort_entries-EntriesRead (e ∷ es) h =
    insert_entry-EntriesRead e (sort_entries es) h.0 (sort_entries-EntriesRead es h.1)

ordered-EntriesRead :
    (sorted : Bool) (es : List Entry) → EntriesRead es → EntriesRead (ordered sorted es)
unfolding ordered
ordered-EntriesRead true es h = sort_entries-EntriesRead es h
ordered-EntriesRead false es h = h

run_entries-reads :
    (es : List Entry) (names : Names)
    → EntriesRead es
    → read_columns (run_entries es names).0 names ≡ some (run_entries es names).1
unfolding run_entries read
run_entries-reads [] names h = refl
run_entries-reads (e ∷ es) names h =
    ground (arith, h.0 names, run_entries-reads es (e.info names).1 h.1)

record_info-Reads :
    (name : String) (namespace : Option String) (sorted : Bool) (es : List Entry)
    → EntriesRead es
    → Reads (record_info name namespace sorted es)
unfolding record_info read
record_info-Reads name namespace sorted es h names = ground (
  arith,
  run_entries-reads (ordered sorted es) (full_name namespace name ∷ names)
      (ordered-EntriesRead sorted es h),
)

enum_info-Reads : (e : EnumType) → Reads (enum_info e)
unfolding enum_info read
enum_info-Reads e names = ground arith

scalar-Reads : (s : Scalar) (o : Options) → Reads (λ names. (word (type_name (scalar s o)), names))
unfolding read type_name str_eq
scalar-Reads Scalar.null o names = refl
scalar-Reads s o names = refl

element_info-Reads :
    (f : Field) (info : Info) → IsNotEnum f → Reads info → Reads (element_info f info)
unfolding element_info
element_info-Reads (scalar s o) info n h = scalar-Reads s o
element_info-Reads (custom_enum e o) info n h = absurd n
element_info-Reads (array f o) info n h = h
element_info-Reads (mapping f o) info n h = h
element_info-Reads (record_field c o a) info n h = h

array_of-Reads :
    (info : Info)
    → Reads info
    → Reads (λ names. let (t, names') = info names in (array_of t, names'))
unfolding read
array_of-Reads info h = h

map_of-Reads :
    (info : Info) → Reads info → Reads (λ names. let (t, names') = info names in (map_of t, names'))
unfolding read
map_of-Reads info h = h

mutual
  unfolding class_info

  class_info-Reads' : (c : RecordClass) → ClassHasNoEnumElement c → Reads (class_info c)
  class_info-Reads' (class _ _ name namespace sorted fields) h =
      record_info-Reads name namespace sorted (entries_of fields) (entries_of-EntriesRead fields h)

  entries_of-EntriesRead :
      (fields : Fields) → FieldsHaveNoEnumElement fields → EntriesRead (entries_of fields)
  entries_of-EntriesRead no_fields h = tt
  entries_of-EntriesRead (declare _ f fields) h =
      (field_info-Reads f h.0, entries_of-EntriesRead fields h.1)

  field_info-Reads : (f : Field) → HasNoEnumElement f → Reads (field_info f)
  field_info-Reads (scalar s o) h = scalar-Reads s o
  field_info-Reads (custom_enum e o) h = enum_info-Reads e
  field_info-Reads (array f o) h =
      array_of-Reads (element_info f (field_info f))
        (element_info-Reads f (field_info f) h.1 (field_info-Reads f h.0))
  field_info-Reads (mapping f o) h =
      map_of-Reads (element_info f (field_info f))
        (element_info-Reads f (field_info f) h.1 (field_info-Reads f h.0))
  field_info-Reads (record_field c o a) h = class_info-Reads' c h

-- For every class with no array and no map of an `Enum` below it, and every set `defined_names` that the
-- call is given: in the schema of the class every name is described at most once and before its uses, and
-- the call leaves in the set the names that were in it and those that the schema describes.
pub class_info-Reads :
    (c : RecordClass) (names : Names)
    → ClassHasNoEnumElement c
    → read (class_info c names).0 names ≡ some (class_info c names).1
class_info-Reads c names h = class_info-Reads' c h names
